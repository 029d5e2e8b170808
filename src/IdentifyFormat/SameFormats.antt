-- ===== src/IdentifyFormat/SameFormats.antt =====
-- clientScripts/identify_file_format.py: the scripts that leave the formats of the files.
use ccp.Prelude.{
  ℕ, String, Bool, true, false, Option, none, some, List, [], ◌∷◌, str_eq, if◌then◌else◌, ◌≡◌, refl,
  ◌∙◌,
}
use ccp.Prelude.Raise.{Exception, Result}
use ccp.Prelude.Script.{
  Script, ◌>>=◌, IsTransitive, Respects, Respects->>=, Respects-lift, modify, lift, check, continue,
}
use ccp.Job.{Job}
use ccp.Rows.{World, Site, Row, event_row, add_row, create, now, or_now, draw_uuid}
use ccp.Database.{EventFields, insert_into_events, get_am_agents_for_file, or_agents}
use ccp.FileOperations.{in_job, on_disk}

-- The tables of formats and of identifications are the same.
pub record SameFormats (D : Type 0) (w v : World D) : Type 0 where
  pub formats : w.formats ≡ v.formats
  pub ids : w.ids ≡ v.ids

module _ (D : Type 0) where
  pub SameFormats-IsTransitive : IsTransitive (World D) (SameFormats D)
  SameFormats-IsTransitive = record {
    same = λ w. record { formats = refl; ids = refl };
    chain = λ s t u h k. record { formats = h.formats ∙ k.formats; ids = h.ids ∙ k.ids };
  }

  -- A change of the other tables.
  pub Same-modify :
      (f : World D → World D)
      → ((w : World D) → SameFormats D w (f w))
      → Respects {A = Unit {0}} (SameFormats D) (modify f)
  unfolding Respects
  Same-modify f h = h

  pub Same-in_job : (f : Job → Job) → Respects {A = Unit {0}} (SameFormats D) (in_job f)
  Same-in_job f =
      Same-modify (λ w. record w { job = f w.job }) (λ w. record { formats = refl; ids = refl })

  pub Same-lift : {A : Type 0} → (r : Result A) → Respects {A = A} (SameFormats D) (lift r)
  Same-lift = Respects-lift (SameFormats D) SameFormats-IsTransitive

  pub Same-read :
      {A : Type 0} → (r : World D → Result A) → Respects {A = A} (SameFormats D) (λ w. (r w, w))
  unfolding Respects
  Same-read r = SameFormats-IsTransitive.same

  pub Same-on_disk :
      {A : Type 0} → (f : D → Result A × D) → Respects {A = A} (SameFormats D) (on_disk f)
  unfolding Respects
  Same-on_disk f = λ w. record { formats = refl; ids = refl }

  pub two :
      {A B : Type 0}
      → (m : Script (World D) A) (k : A → Script (World D) B) → Respects {A = A} (SameFormats D) m
      → ((a : A) → Respects {A = B} (SameFormats D) (k a))
      → Respects {A = B} (SameFormats D) (m >>= k)
  two = Respects->>= (SameFormats D) SameFormats-IsTransitive

  pub other :
      {A : Type 0}
      → (b : Bool) (m k : Script (World D) A) → Respects {A = A} (SameFormats D) m
      → Respects {A = A} (SameFormats D) k
      → Respects {A = A} (SameFormats D) (if b then m else k)
  other true m k h h' = h
  other false m k h h' = h'

module _ {D : Type 0} (site : Site D) where
  pub Same-draw_uuid : Respects (SameFormats D) (draw_uuid site)
  unfolding Respects draw_uuid
  Same-draw_uuid = λ w. record { formats = refl; ids = refl }

  pub Same-now : Respects (SameFormats D) (now site)
  unfolding Respects now
  Same-now = λ w. record { formats = refl; ids = refl }

  checked :
      (w : World D) (row : Row) (answer : Option Exception)
      → SameFormats D w (add_row row w)
      → SameFormats D w (continue (check answer w) (λ _. modify (add_row row))).1
  checked w row none h = h
  checked w row (some e) h = (SameFormats-IsTransitive D).same w

  pub Same-create :
      (row : Row)
      → ((w : World D) → SameFormats D w (add_row row w))
      → Respects {A = Unit {0}} (SameFormats D) (create site row)
  unfolding Respects create
  Same-create row h = λ w. checked w row (site.refuses w row) (h w)

  Same-agents : (uuid : String) → Respects (SameFormats D) (get_am_agents_for_file site uuid)
  unfolding Respects get_am_agents_for_file
  Same-agents uuid = (SameFormats-IsTransitive D).same

  Same-or_now : (t : Option ℕ) → Respects (SameFormats D) (or_now site t)
  unfolding Respects
  Same-or_now none = Same-now
  Same-or_now (some t) = (SameFormats-IsTransitive D).same

  Same-or_agents :
      (uuid : String) (agents : List ℕ) → Respects (SameFormats D) (or_agents site uuid agents)
  unfolding Respects
  Same-or_agents uuid [] = Same-agents uuid
  Same-or_agents uuid (a ∷ agents) = (SameFormats-IsTransitive D).same

  pub Same-insert_into_events :
      (uuid : String) (fields : EventFields)
      → Respects (SameFormats D) (insert_into_events site uuid fields)
  unfolding insert_into_events
  Same-insert_into_events uuid fields = two D _ _ (Same-or_now fields.datetime) (λ t.
      two D _ _ (Same-or_agents uuid fields.agents) (λ agents.
        two D _ _ (other D (str_eq fields.identifier "") _ _ Same-draw_uuid (Same-lift D _)) (λ id.
          two D _ _ Same-now (λ t.
            two D _ _ (Same-create (event_row _) (λ w. record { formats = refl; ids = refl }))
              (λ _. Same-lift D _)))))
