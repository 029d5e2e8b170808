-- ===== src/Database/Growth.antt =====
-- utils/databaseFunctions.py: what the scripts leave of the rows that were there before them. A
-- script that respects `Keeps` deletes no row and gives no key away twice, whether it returns or
-- raises.
use mathlib.Core.List.{IsPrefix, append_assoc, append-nil}
use ccp.Prelude.{
  String, Bool, true, false, Option, none, some, List, [], ◌∷◌, ◌++◌, map, any, not, ◌&&◌, str_eq,
  if◌then◌else◌, ◌≡◌, refl, sym, ap, ◌∙◌, arith, eq_iff,
}
use ccp.Prelude.Raise.{Exception}
use ccp.Prelude.Script.{Respects, IsTransitive, check, modify, continue}
use ccp.Rows.{
  File, Row, World, Site, file_row, event_row, derivation_row, output_row, format_row, id_row,
  add_row, create, has_uuid, update_files, save_file, variable_row,
}

abbrev pub uuids : List File → List String
uuids = map (λ f. f.uuid)

-- No two of the texts are the same.
unfoldable pub are_distinct : List String → Bool
are_distinct [] = true
are_distinct (x ∷ xs) = not (any (str_eq x) xs) && are_distinct xs

abbrev pub implies : Bool → Bool → Bool
implies a b = if a then b else true

implies_same : {a b : Bool} → a ≡ b → implies a b ≡ true
implies_same h = ground arith

implies_trans : (a b c : Bool) → implies a b ≡ true → implies b c ≡ true → implies a c ≡ true
implies_trans a b c h k = ground arith

implies_of : (a b : Bool) → (a ≡ true → b ≡ true) → implies a b ≡ true
implies_of true b f = f refl
implies_of false b f = refl

pub record Keeps (D : Type 0) (w v : World D) : Type 0 where
  pub file_keys : IsPrefix (uuids w.files) (uuids v.files)
  pub events : IsPrefix w.events v.events
  pub derivations : IsPrefix w.derivations v.derivations
  pub outputs : IsPrefix w.outputs v.outputs
  pub distinct : implies (are_distinct (uuids w.files)) (are_distinct (uuids v.files)) ≡ true

module _ {A : Type 0} where
  pub prefix_refl : (xs : List A) → IsPrefix xs xs
  prefix_refl xs = ([], append-nil xs)

  pub prefix_trans : (xs ys zs : List A) → IsPrefix xs ys → IsPrefix ys zs → IsPrefix xs zs
  prefix_trans xs ys zs h k = (
    h.0 ++ k.0,
    sym (append_assoc xs h.0 k.0) ∙ ap {B = List A} (λ (m : List A). m ++ k.0) h.1 ∙ k.1,
  )

  pub prefix_of_eq : (xs ys : List A) → xs ≡ ys → IsPrefix xs ys
  prefix_of_eq xs ys h = ([], append-nil xs ∙ h)

any-snoc :
    (x y : String) (xs : List String)
    → any (str_eq x) (xs ++ (y ∷ [])) ≡ (if any (str_eq x) xs then true else str_eq x y)
any-snoc x y [] = ground arith
any-snoc x y (z ∷ xs) = ground (arith, any-snoc x y xs)

are_distinct-snoc :
    (y : String) (xs : List String)
    → are_distinct xs ≡ true
    → any (str_eq y) xs ≡ false
    → are_distinct (xs ++ (y ∷ [])) ≡ true
unfolding are_distinct
are_distinct-snoc y [] h k = refl
are_distinct-snoc y (x ∷ xs) h k =
    ground (arith, are_distinct-snoc y xs, any-snoc x y xs, eq_iff x y, eq_iff y x)

map-snoc : (f : File) (files : List File) → uuids (files ++ (f ∷ [])) ≡ uuids files ++ (f.uuid ∷ [])
map-snoc f [] = refl
map-snoc f (g ∷ files) = ap (λ r. g.uuid ∷ r) (map-snoc f files)

-- A change of rows that leaves their keys leaves the keys of the table.
pub uuids-update :
    (p : File → Bool) (change : File → File)
    → ((f : File) → p f ≡ true → (change f).uuid ≡ f.uuid)
    → (files : List File) → uuids (map (λ f. if p f then change f else f) files) ≡ uuids files
uuids-update p change h [] = refl
uuids-update p change h (f ∷ files) = ground (arith, h f, uuids-update p change h files)

module _ {D : Type 0} where
  pub Keeps-IsTransitive : IsTransitive (World D) (Keeps D)
  Keeps-IsTransitive = record {
    same = λ w. record {
      file_keys = prefix_refl (uuids w.files);
      events = prefix_refl w.events;
      derivations = prefix_refl w.derivations;
      outputs = prefix_refl w.outputs;
      distinct = implies_same {a = are_distinct (uuids w.files)} refl;
    };
    chain = λ s t u h k. record {
      file_keys =
          prefix_trans (uuids s.files) (uuids t.files) (uuids u.files) h.file_keys k.file_keys;
      events = prefix_trans s.events t.events u.events h.events k.events;
      derivations =
          prefix_trans s.derivations t.derivations u.derivations h.derivations k.derivations;
      outputs = prefix_trans s.outputs t.outputs u.outputs h.outputs k.outputs;
      distinct =
          implies_trans (are_distinct (uuids s.files)) (are_distinct (uuids t.files))
            (are_distinct (uuids u.files)) h.distinct k.distinct;
    };
  }

  -- A world whose tables are the same, but for files whose keys are.
  pub keeps_same_keys :
      (w v : World D)
      → uuids w.files ≡ uuids v.files
      → IsPrefix w.events v.events
      → IsPrefix w.derivations v.derivations
      → IsPrefix w.outputs v.outputs
      → Keeps D w v
  keeps_same_keys w v h e d o = record {
    file_keys = prefix_of_eq (uuids w.files) (uuids v.files) h;
    events = e;
    derivations = d;
    outputs = o;
    distinct = implies_same (ap are_distinct h);
  }

module _ (D : Type 0) where
  pub Keeps-update_files :
      (p : File → Bool) (change : File → File)
      → ((f : File) → p f ≡ true → (change f).uuid ≡ f.uuid)
      → Respects {A = Unit {0}} (Keeps D) (modify (update_files p change))
  unfolding Respects
  Keeps-update_files p change h = λ w.
      keeps_same_keys w (update_files p change w) (sym (uuids-update p change h w.files))
        (prefix_refl w.events) (prefix_refl w.derivations) (prefix_refl w.outputs)

  pub Keeps-save_file : (f : File) → Respects {A = Unit {0}} (Keeps D) (modify (save_file f))
  Keeps-save_file f =
      Keeps-update_files (has_uuid f.uuid) (λ g. f) (λ g h. sym ((eq_iff g.uuid f.uuid).0 h))

-- The database refuses a file whose key is there.
unfoldable pub HasPrimaryKey : {D : Type 0} → Site D → Type 0
HasPrimaryKey {D} site =
    (w : World D) (f : File)
    → site.refuses w (file_row f) ≡ none
    → any (str_eq f.uuid) (uuids w.files) ≡ false

module _ {D : Type 0} (site : Site D) (key : HasPrimaryKey site) where
  Keeps-add_row : (w : World D) (row : Row) → site.refuses w row ≡ none → Keeps D w (add_row row w)
  unfolding HasPrimaryKey
  Keeps-add_row w (file_row f) h = record {
    file_keys = (f.uuid ∷ [], sym (map-snoc f w.files));
    events = prefix_refl w.events;
    derivations = prefix_refl w.derivations;
    outputs = prefix_refl w.outputs;
    distinct =
        implies_of (are_distinct (uuids w.files)) (are_distinct (uuids (w.files ++ (f ∷ [])))) (λ d.
          ap are_distinct (map-snoc f w.files)
          ∙ are_distinct-snoc f.uuid (uuids w.files) d (key w f h));
  }
  Keeps-add_row w (event_row e) h =
      keeps_same_keys w (add_row (event_row e) w) refl (e ∷ [], refl) (prefix_refl w.derivations)
        (prefix_refl w.outputs)
  Keeps-add_row w (derivation_row d) h =
      keeps_same_keys w (add_row (derivation_row d) w) refl (prefix_refl w.events) (d ∷ [], refl)
        (prefix_refl w.outputs)
  Keeps-add_row w (output_row o) h =
      keeps_same_keys w (add_row (output_row o) w) refl (prefix_refl w.events)
        (prefix_refl w.derivations) (o ∷ [], refl)
  Keeps-add_row w (format_row f) h =
      keeps_same_keys w (add_row (format_row f) w) refl (prefix_refl w.events)
        (prefix_refl w.derivations) (prefix_refl w.outputs)
  Keeps-add_row w (id_row i) h =
      keeps_same_keys w (add_row (id_row i) w) refl (prefix_refl w.events)
        (prefix_refl w.derivations) (prefix_refl w.outputs)
  Keeps-add_row w (variable_row v) h =
      keeps_same_keys w (add_row (variable_row v) w) refl (prefix_refl w.events)
        (prefix_refl w.derivations) (prefix_refl w.outputs)

  added :
      (w : World D) (row : Row) (answer : Option Exception)
      → site.refuses w row ≡ answer
      → Keeps D w (continue (check answer w) (λ _. modify (add_row row))).1
  added w row none h = Keeps-add_row w row h
  added w row (some e) h = Keeps-IsTransitive.same w

  pub Keeps-create : (row : Row) → Respects {A = Unit {0}} (Keeps D) (create site row)
  unfolding Respects create
  Keeps-create row = λ w. added w row (site.refuses w row) refl
