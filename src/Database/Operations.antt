-- ===== src/Database/Operations.antt =====
-- utils/databaseFunctions.py: every operation keeps the rows that are there, and what the removal of
-- a file leaves.
use ccp.Prelude.{
  ℕ, suc, String, Bool, true, false, Option, none, some, List, [], ◌∷◌, str_eq, if◌then◌else◌, refl,
}
use ccp.Prelude.Raise.{Result}
use ccp.Prelude.Script.{Script, ◌>>=◌, Respects, Respects->>=, Respects-lift, lift}
use ccp.Rows.{World, Site, draw_uuid, now, or_now, or_uuid}
use ccp.Database.{
  EventFields, insert_into_files, get_am_agents_for_file, or_agents, insert_into_events,
  insert_into_derivations, file_was_removed,
}
use ccp.Database.Growth.{
  Keeps, Keeps-IsTransitive, keeps_same_keys, Keeps-save_file, Keeps-create, HasPrimaryKey,
  prefix_refl,
}

module _ {D : Type 0} where
  -- The composition of scripts that keep the rows.
  pub both :
      {A B : Type 0}
      → (m : Script (World D) A) (k : A → Script (World D) B) → Respects {A = A} (Keeps D) m
      → ((a : A) → Respects {A = B} (Keeps D) (k a))
      → Respects {A = B} (Keeps D) (m >>= k)
  both = Respects->>= (Keeps D) Keeps-IsTransitive

  -- Either branch of a test, and the value itself.
  pub chosen :
      {A : Type 0}
      → (b : Bool) (m k : Script (World D) A) → Respects {A = A} (Keeps D) m
      → Respects {A = A} (Keeps D) k
      → Respects {A = A} (Keeps D) (if b then m else k)
  chosen true m k h h' = h
  chosen false m k h h' = h'

module _ (D : Type 0) where
  pub Keeps-lift : {A : Type 0} → (r : Result A) → Respects {A = A} (Keeps D) (lift r)
  Keeps-lift = Respects-lift (Keeps D) Keeps-IsTransitive

  -- A look at the state.
  pub Keeps-read :
      {A : Type 0} → (r : World D → Result A) → Respects {A = A} (Keeps D) (λ w. (r w, w))
  unfolding Respects
  Keeps-read r = Keeps-IsTransitive.same

module _ {D : Type 0} (site : Site D) (key : HasPrimaryKey site) where
  pub Keeps-draw_uuid : Respects (Keeps D) (draw_uuid site)
  unfolding Respects draw_uuid
  Keeps-draw_uuid = λ w.
      keeps_same_keys w (record w { drawn = suc w.drawn }) refl (prefix_refl w.events)
        (prefix_refl w.derivations) (prefix_refl w.outputs)

  pub Keeps-now : Respects (Keeps D) (now site)
  unfolding Respects now
  Keeps-now = λ w.
      keeps_same_keys w (record w { ticks = suc w.ticks }) refl (prefix_refl w.events)
        (prefix_refl w.derivations) (prefix_refl w.outputs)

  pub Keeps-or_now : (t : Option ℕ) → Respects (Keeps D) (or_now site t)
  unfolding Respects
  Keeps-or_now none = Keeps-now
  Keeps-or_now (some t) = Keeps-IsTransitive.same

  pub Keeps-or_uuid : (u : String) → Respects (Keeps D) (or_uuid site u)
  unfolding Respects
  Keeps-or_uuid u = chosen (str_eq u "") _ _ Keeps-draw_uuid Keeps-IsTransitive.same

  pub Keeps-insert_into_files :
      (uuid path : String) (entered : Option ℕ) (transfer sip group original : String)
      → Respects (Keeps D) (insert_into_files site uuid path entered transfer sip group original)
  unfolding insert_into_files
  Keeps-insert_into_files uuid path entered transfer sip group original =
      both _ _ (Keeps-or_now entered) (λ _.
        both _ _ (Keeps-lift D _)
          (λ f. both _ _ Keeps-now (λ t. both _ _ (Keeps-create site key _) (λ _. Keeps-lift D _))))

  Keeps-agents : (uuid : String) → Respects (Keeps D) (get_am_agents_for_file site uuid)
  unfolding Respects get_am_agents_for_file
  Keeps-agents uuid = Keeps-IsTransitive.same

  Keeps-or_agents :
      (uuid : String) (agents : List ℕ) → Respects (Keeps D) (or_agents site uuid agents)
  unfolding Respects
  Keeps-or_agents uuid [] = Keeps-agents uuid
  Keeps-or_agents uuid (a ∷ agents) = Keeps-IsTransitive.same

  pub Keeps-insert_into_events :
      (uuid : String) (fields : EventFields)
      → Respects (Keeps D) (insert_into_events site uuid fields)
  unfolding insert_into_events
  Keeps-insert_into_events uuid fields = both _ _ (Keeps-or_now fields.datetime) (λ _.
      both _ _ (Keeps-or_agents uuid fields.agents) (λ agents.
        both _ _ (Keeps-or_uuid fields.identifier) (λ id.
          both _ _ Keeps-now (λ t. both _ _ (Keeps-create site key _) (λ _. Keeps-lift D _)))))

  pub Keeps-insert_into_derivations :
      (source derived : String) (event : Option String)
      → Respects (Keeps D) (insert_into_derivations site source derived event)
  unfolding insert_into_derivations
  Keeps-insert_into_derivations source derived event =
      chosen (str_eq source "") _ _ (Keeps-lift D _)
        (chosen (str_eq derived "") _ _ (Keeps-lift D _) (Keeps-create site key _))

  pub Keeps-file_was_removed :
      (uuid : String) (date : Option ℕ) (detail note outcome : String)
      → Respects (Keeps D) (file_was_removed site uuid date detail note outcome)
  unfolding file_was_removed
  Keeps-file_was_removed uuid date detail note outcome = both _ _ (Keeps-or_now date) (λ t.
      both _ _ Keeps-draw_uuid (λ id.
        both _ _ (Keeps-insert_into_events uuid _)
          (λ _. both _ _ (Keeps-read D _) (λ f. Keeps-save_file D _))))
