-- ===== src/NameChanger/Renames.antt =====
-- clientScripts/change_object_names.py: where the rows of files are after all changes of names.
use ccp.Prelude.{
  suc, ◌+◌, ◌≤◌, ◌<◌, ◌≡◌, refl, ap, ◌∙◌, ◌<>◌, String, Bool, true, false, Option, none, some, List,
  [], ◌∷◌, map, not, ◌&&◌, leb, str_eq, length, arith, if◌then◌else◌,
}
use ccp.Prelude.Dict.{Dict, lookup, insert, lookup-insert}
use ccp.Prelude.Text.{replace_first}
use ccp.Prelude.Paths.{join_path}
use ccp.NameChanger.{
  Row, Change, NameChanger, batch_size, moved, apply_file_updates, apply_dir_updates,
  add_file_to_batch, add_dir_to_batch, change_object, change_all, change_objects, say,
  normalize_path_for_db,
}
use ccp.NameChanger.Batches.{
  length-insert, apply_dir_updates-KeepsFiles, add_dir_to_batch-KeepsFiles,
}

-- The location that the database has for a path of the unit.
abbrev pub location_of : NameChanger → String → String
location_of c path = replace_first (c.nfc path) c.sip_path c.group_type

-- Where the changes of files take a location, if they do: the last change of it counts.
unfoldable pub destination : NameChanger → List Change → String → Option String → Option String
destination c [] location found = found
destination c (ch ∷ chs) location found = destination c chs location (
    if ch.was_changed && not ch.is_dir && str_eq (location_of c ch.old_path) location
    then some (location_of c ch.new_path)
    else found)

abbrev pub relocated_row : Row → Option String → Row
relocated_row row none = row
relocated_row row (some location) = record row { currentlocation = location }

-- The rows of files and what paths are turned into locations by.
record SameSettings (c c' : NameChanger) : Type 0 where
  files : c'.files ≡ c.files
  nfc : c'.nfc ≡ c.nfc
  sip_path : c'.sip_path ≡ c.sip_path
  group_type : c'.group_type ≡ c.group_type

SameSettings-refl : (c : NameChanger) → SameSettings c c
SameSettings-refl c = record { files = refl; nfc = refl; sip_path = refl; group_type = refl }

SameSettings-trans : {a b c : NameChanger} → SameSettings a b → SameSettings b c → SameSettings a c
SameSettings-trans h k = record {
  files = k.files ∙ h.files;
  nfc = k.nfc ∙ h.nfc;
  sip_path = k.sip_path ∙ h.sip_path;
  group_type = k.group_type ∙ h.group_type;
}

location_of-same :
    (c c' : NameChanger) (path : String)
    → SameSettings c c'
    → location_of c' path ≡ location_of c path
location_of-same c c' path h =
    ap (λ (f : String → String). replace_first (f path) c'.sip_path c'.group_type) h.nfc
    ∙ ap (λ s. replace_first (c.nfc path) s c'.group_type) h.sip_path
    ∙ ap (λ s. replace_first (c.nfc path) c.sip_path s) h.group_type

apply_dir_updates-SameSettings : (c : NameChanger) → SameSettings c (apply_dir_updates c)
unfolding apply_dir_updates
apply_dir_updates-SameSettings c = updated c.directories refl
  where
    updated : (o : Option (List Row)) → c.directories ≡ o → SameSettings c (apply_dir_updates c)
    updated none e = rw e (SameSettings-refl _)
    updated (some rows) e =
        rw e (record { files = refl; nfc = refl; sip_path = refl; group_type = refl })

add_dir_to_batch-SameSettings :
    (old new : String) (c : NameChanger) → SameSettings c (add_dir_to_batch old new c)
unfolding add_dir_to_batch
add_dir_to_batch-SameSettings old new c =
    let c' : NameChanger = record c {
      dirs_index =
          insert (join_path (normalize_path_for_db c old) "")
            (join_path (normalize_path_for_db c new) "") c.dirs_index;
    } in
    let k = chosen (leb batch_size (length c'.dirs_index)) c' (apply_dir_updates-SameSettings c') in
    record { files = k.files; nfc = k.nfc; sip_path = k.sip_path; group_type = k.group_type }
  where
    chosen :
        (b : Bool) (c' : NameChanger)
        → SameSettings c' (apply_dir_updates c')
        → SameSettings c' (if b then apply_dir_updates c' else c')
    chosen true c' k = k
    chosen false c' k = SameSettings-refl c'

-- One change: nothing is applied while the index is short, and the index finds what the change names.
record Indexed (ch : Change) (c c' : NameChanger) : Type 0 where
  same : SameSettings c c'
  short : length c'.files_index ≤ suc (length c.files_index)
  found :
      (location : String)
      → lookup location c'.files_index ≡ (
          if ch.was_changed && not ch.is_dir && str_eq (location_of c ch.old_path) location
          then some (location_of c ch.new_path)
          else lookup location c.files_index)

add_file_to_batch-inserts :
    (old new : String) (c : NameChanger)
    → suc (length c.files_index) < batch_size
    → add_file_to_batch old new c
      ≡ record c { files_index = insert (location_of c old) (location_of c new) c.files_index }
unfolding add_file_to_batch normalize_path_for_db
add_file_to_batch-inserts old new c h =
    chosen (leb batch_size (length d)) refl
      (length-insert (location_of c old) (location_of c new) c.files_index)
  where
    d : Dict String
    d = insert (location_of c old) (location_of c new) c.files_index

    chosen :
        (b : Bool)
        → leb batch_size (length d) ≡ b
        → length d ≤ suc (length c.files_index)
        → (if b
            then apply_file_updates (record c { files_index = d })
            else record c { files_index = d })
          ≡ record c { files_index = d }
    chosen true e short = absurd (ground (arith, e, short, h))
    chosen false e short = refl

change_object-Indexed :
    (ch : Change) (c : NameChanger)
    → suc (length c.files_index) < batch_size
    → Indexed ch c (change_object ch c)
unfolding change_object
change_object-Indexed ch c h = changed ch.was_changed ch.is_dir refl refl
  where
    changed :
        (was_changed is_dir : Bool)
        → ch.was_changed ≡ was_changed
        → ch.is_dir ≡ is_dir
        → Indexed ch c (
            if not was_changed
            then say ("No filename changes for " <> ch.old_path) c
            else say ("Changed name: " <> ch.old_path <> "  ->  " <> ch.new_path) (
                if is_dir
                then add_dir_to_batch ch.old_path ch.new_path c
                else add_file_to_batch ch.old_path ch.new_path c))
    changed false is_dir e f = record {
      same = record { files = refl; nfc = refl; sip_path = refl; group_type = refl };
      short = omega arith;
      found = λ location. rw e refl;
    }
    changed true true e f =
        let dir = add_dir_to_batch-KeepsFiles ch.old_path ch.new_path c in
        let s = add_dir_to_batch-SameSettings ch.old_path ch.new_path c in
        record {
          same = record {
            files = s.files;
            nfc = s.nfc;
            sip_path = s.sip_path;
            group_type = s.group_type;
          };
          short = ground (arith, dir.1);
          found = λ location. rw e (rw f (ap (lookup location) dir.1));
        }
    changed true false e f =
        let k = add_file_to_batch-inserts ch.old_path ch.new_path c h in
        rw k (record {
          same = record { files = refl; nfc = refl; sip_path = refl; group_type = refl };
          short =
              length-insert (location_of c ch.old_path) (location_of c ch.new_path) c.files_index;
          found = λ location. rw e (
              rw f (
                lookup-insert (location_of c ch.old_path) location (location_of c ch.new_path)
                  c.files_index));
        })

destination-same :
    (c c' : NameChanger) (chs : List Change) (location : String) (found : Option String)
    → SameSettings c c'
    → destination c' chs location found ≡ destination c chs location found
unfolding destination
destination-same c c' [] location found h = refl
destination-same c c' (ch ∷ chs) location found h =
    destination-same c c' chs location _ h
    ∙ ap
        (λ l. destination c chs location (
          if ch.was_changed && not ch.is_dir && str_eq l location
          then some (location_of c' ch.new_path)
          else found))
        (location_of-same c c' ch.old_path h)
    ∙ ap
        (λ l. destination c chs location (
          if ch.was_changed && not ch.is_dir && str_eq (location_of c ch.old_path) location
          then some l
          else found))
        (location_of-same c c' ch.new_path h)

record AllIndexed (chs : List Change) (c c' : NameChanger) : Type 0 where
  same : SameSettings c c'
  found :
      (location : String)
      → lookup location c'.files_index ≡ destination c chs location (lookup location c.files_index)

change_all-AllIndexed :
    (chs : List Change) (c : NameChanger)
    → length chs + length c.files_index < batch_size
    → AllIndexed chs c (change_all chs c)
unfolding change_all destination
change_all-AllIndexed [] c h = record { same = SameSettings-refl c; found = λ location. refl }
change_all-AllIndexed (ch ∷ chs) c h =
    let first = change_object-Indexed ch c (omega arith) in
    let short = first.short in
    let rest = change_all-AllIndexed chs (change_object ch c) (omega arith) in
    record {
      same = SameSettings-trans first.same rest.same;
      found = λ location.
          rest.found location
          ∙ destination-same c (change_object ch c) chs location _ first.same
          ∙ ap (destination c chs location) (first.found location);
    }

moved-relocated_row :
    (nfc : String → String) (index : Dict String) (row : Row)
    → moved nfc index row ≡ relocated_row row (lookup (nfc row.currentlocation) index)
unfolding moved
moved-relocated_row nfc index row = located (lookup (nfc row.currentlocation) index)
  where
    located :
        (o : Option String)
        → (elim o as (λ _. Row) [
          | none ↦ row
          | some location ↦ record row { currentlocation = location }
        ])
          ≡ relocated_row row o
    located none = refl
    located (some location) = refl

map-relocated_row :
    (c c' : NameChanger) (chs : List Change) (rows : List Row)
    → AllIndexed chs c c'
    → map (moved c'.nfc c'.files_index) rows
      ≡ map
          (λ row. relocated_row row (
            destination c chs
              (c.nfc row.currentlocation)
              (lookup (c.nfc row.currentlocation) c.files_index)))
          rows
map-relocated_row c c' chs [] h = refl
map-relocated_row c c' chs (row ∷ rows) h =
    ap (λ r. r ∷ map (moved c'.nfc c'.files_index) rows)
      (moved-relocated_row c'.nfc c'.files_index row
        ∙ ap
            (λ (f : String → String).
              relocated_row row (lookup (f row.currentlocation) c'.files_index))
            h.same.nfc
        ∙ ap (relocated_row row) (h.found (c.nfc row.currentlocation)))
    ∙ ap
        (λ r.
          relocated_row row (
            destination c chs (c.nfc row.currentlocation)
              (lookup (c.nfc row.currentlocation) c.files_index))
          ∷ r)
        (map-relocated_row c c' chs rows h)

-- When the changes of names and those that wait in the index are together fewer than a batch,
-- every row of files ends at the new location of the last change of a file from its location, or
-- at the one that waits for it, or where it was if there is neither.
pub change_objects-renames :
    (chs : List Change) (c : NameChanger)
    → length chs + length c.files_index < batch_size
    → (change_objects chs c).files
      ≡ map
          (λ row. relocated_row row (
            destination c chs
              (c.nfc row.currentlocation)
              (lookup (c.nfc row.currentlocation) c.files_index)))
          c.files
unfolding change_objects apply_file_updates
change_objects-renames chs c h =
    let looped = change_all chs c in
    let indexed = change_all-AllIndexed chs c h in
    (apply_dir_updates-KeepsFiles (apply_file_updates looped)).0
    ∙ ap (map (moved looped.nfc looped.files_index)) indexed.same.files
    ∙ map-relocated_row c looped chs c.files indexed
