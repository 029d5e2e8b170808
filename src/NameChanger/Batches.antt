-- ===== src/NameChanger/Batches.antt =====
-- clientScripts/change_object_names.py: what the batches keep, and what they leave when all is done.
use ccp.Prelude.{
  suc, ◌+◌, ◌≤◌, ◌<◌, ◌≡◌, refl, ap, ◌∙◌, ◌<>◌, String, Bool, true, false, Option, none, some, List,
  [], ◌∷◌, map, not, leb, length, length-append, count, arith, if◌then◌else◌,
}
use ccp.Prelude.Dict.{Dict, insert}
use ccp.Prelude.Paths.{join_path}
use ccp.NameChanger.{
  Row, Change, NameChanger, batch_size, moved, is_moved, change_events, apply_file_updates,
  apply_dir_updates, add_file_to_batch, add_dir_to_batch, change_object, change_all, change_objects,
  say, normalize_path_for_db,
}

abbrev pub uuids : List Row → List String
uuids = map (λ row. row.uuid)

moved-uuid :
    (nfc : String → String) (index : Dict String) (row : Row)
    → (moved nfc index row).uuid ≡ row.uuid
unfolding moved
moved-uuid nfc index row = ground arith

uuids-moved :
    (nfc : String → String) (index : Dict String) (rows : List Row)
    → uuids (map (moved nfc index) rows) ≡ uuids rows
uuids-moved nfc index [] = refl
uuids-moved nfc index (row ∷ rows) =
    ground (arith, moved-uuid nfc index row, uuids-moved nfc index rows)

length-change_events :
    (c : NameChanger) (rows : List Row)
    → length (change_events c rows) ≡ count (is_moved c.nfc c.files_index) rows
unfolding change_events
length-change_events c [] = refl
length-change_events c (row ∷ rows) = ground (arith, length-change_events c rows)

-- A batch keeps the rows' identifiers, adds one event for each file whose location is in the
-- index, and leaves the index empty.
apply_file_updates-counts :
    (c : NameChanger)
    → let c' = apply_file_updates c in
      (uuids c'.files ≡ uuids c.files)
      × (length c'.events ≡ length c.events + count (is_moved c.nfc c.files_index) c.files)
      × (c'.files_index ≡ [])
unfolding apply_file_updates
apply_file_updates-counts c = (
  uuids-moved c.nfc c.files_index c.files,
  ground (arith, length-append c.events (change_events c c.files), length-change_events c c.files),
  refl,
)

pub length-insert : (k v : String) (d : Dict String) → length (insert k v d) ≤ suc (length d)
unfolding insert
length-insert k v [] = omega arith
length-insert k v ((j, w) ∷ d) = ground (arith, length-insert k v d)

-- The invariants of the loop: the index of files is below the size of a batch, and the rows of files
-- are those of the start, with the same identifiers.
abbrev pub IsBatching : NameChanger → NameChanger → Type 0
IsBatching c c' = (length c'.files_index < batch_size) × (uuids c'.files ≡ uuids c.files)

batched :
    (c c' : NameChanger) (b : Bool)
    → leb batch_size (length c'.files_index) ≡ b
    → uuids c'.files ≡ uuids c.files
    → IsBatching c (if b then apply_file_updates c' else c')
unfolding apply_file_updates
batched c c' true e same = (omega arith, uuids-moved c'.nfc c'.files_index c'.files ∙ same)
batched c c' false e same = (ground arith, same)

add_file_to_batch-IsBatching :
    (old new : String) (c : NameChanger) → IsBatching c (add_file_to_batch old new c)
unfolding add_file_to_batch
add_file_to_batch-IsBatching old new c =
    let c' : NameChanger = record c {
      files_index =
          insert (normalize_path_for_db c old) (normalize_path_for_db c new) c.files_index;
    } in
    batched c c' (leb batch_size (length c'.files_index)) refl refl

-- The batches of directories leave the files alone.
abbrev pub KeepsFiles : NameChanger → NameChanger → Type 0
KeepsFiles c c' = (c'.files ≡ c.files) × (c'.files_index ≡ c.files_index) × (c'.events ≡ c.events)

pub apply_dir_updates-KeepsFiles : (c : NameChanger) → KeepsFiles c (apply_dir_updates c)
unfolding apply_dir_updates
apply_dir_updates-KeepsFiles c = updated c.directories refl
  where
    updated : (o : Option (List Row)) → c.directories ≡ o → KeepsFiles c (apply_dir_updates c)
    updated none e = rw e (refl, refl, refl)
    updated (some rows) e = rw e (refl, refl, refl)

pub add_dir_to_batch-KeepsFiles :
    (old new : String) (c : NameChanger) → KeepsFiles c (add_dir_to_batch old new c)
unfolding add_dir_to_batch
add_dir_to_batch-KeepsFiles old new c =
    let c' : NameChanger = record c {
      dirs_index =
          insert (join_path (normalize_path_for_db c old) "")
            (join_path (normalize_path_for_db c new) "") c.dirs_index;
    } in
    chosen (leb batch_size (length c'.dirs_index)) c' (apply_dir_updates-KeepsFiles c')
  where
    chosen :
        (b : Bool) (c' : NameChanger)
        → KeepsFiles c' (apply_dir_updates c')
        → KeepsFiles c' (if b then apply_dir_updates c' else c')
    chosen true c' k = k
    chosen false c' k = (refl, refl, refl)

change_object-IsBatching :
    (ch : Change) (c : NameChanger)
    → length c.files_index < batch_size
    → IsBatching c (change_object ch c)
unfolding change_object
change_object-IsBatching ch c h = changed ch.was_changed ch.is_dir
  where
    dir : KeepsFiles c (add_dir_to_batch ch.old_path ch.new_path c)
    dir = add_dir_to_batch-KeepsFiles ch.old_path ch.new_path c

    changed :
        (was_changed is_dir : Bool)
        → IsBatching c (
            if not was_changed
            then say ("No filename changes for " <> ch.old_path) c
            else say ("Changed name: " <> ch.old_path <> "  ->  " <> ch.new_path) (
                if is_dir
                then add_dir_to_batch ch.old_path ch.new_path c
                else add_file_to_batch ch.old_path ch.new_path c))
    changed false is_dir = (h, refl)
    changed true false = add_file_to_batch-IsBatching ch.old_path ch.new_path c
    changed true true = (ground (arith, dir), ap uuids dir.0)

-- While the changes of a tree are applied, the index of files stays below the size of a batch and
-- the rows of files keep their identifiers, if the index is below that size at the start.
change_all-IsBatching :
    (chs : List Change) (c : NameChanger)
    → length c.files_index < batch_size
    → IsBatching c (change_all chs c)
unfolding change_all
change_all-IsBatching [] c h = (h, refl)
change_all-IsBatching (ch ∷ chs) c h =
    let first = change_object-IsBatching ch c h in
    let rest = change_all-IsBatching chs (change_object ch c) first.0 in (rest.0, rest.1 ∙ first.1)

-- When all changes of names are applied, no file's change is left in the index and the rows of
-- files are those of the start by their identifiers, if fewer changes than a batch were waiting at
-- the start.
change_objects-uuids :
    (chs : List Change) (c : NameChanger)
    → length c.files_index < batch_size
    → let c' = change_objects chs c in (c'.files_index ≡ []) × (uuids c'.files ≡ uuids c.files)
unfolding change_objects
change_objects-uuids chs c h =
    let looped = change_all chs c in
    let files = apply_file_updates-counts looped in
    let dirs = apply_dir_updates-KeepsFiles (apply_file_updates looped) in
    (dirs.1 ∙ files.2, ap uuids dirs.0 ∙ files.0 ∙ (change_all-IsBatching chs c h).1)
