-- ===== src/NameChanger.antt =====
-- clientScripts/change_object_names.py: the changes of names on disk, as `change_tree` yields them,
-- are applied to the rows of files and directories in batches. Unicode's NFC is the field `nfc`.
pub mod Batches
pub mod Renames
pub mod Start
use ccp.Prelude.{
  ℕ, zero, suc, ◌+◌, ◌<>◌, String, Bool, true, false, Option, none, some, List, [], ◌∷◌, ◌++◌, map,
  not, leb, length, is_some, if◌then◌else◌,
}
use ccp.Prelude.Dict.{Dict, lookup, insert, get_or}
use ccp.Prelude.Text.{replace_first}
use ccp.Prelude.Paths.{join_path}
use ccp.Job.{Job, write_output}

-- A row of files or of directories.
pub record Row : Type 0 where
  pub uuid : String
  pub currentlocation : String

-- A "filename change" event, by the file and the detail of its outcome.
pub record ChangeEvent : Type 0 where
  pub file_uuid : String
  pub event_datetime : String
  pub event_outcome_detail : String

-- What `change_tree` yields.
pub record Change : Type 0 where
  pub old_path : String
  pub new_path : String
  pub is_dir : Bool
  pub was_changed : Bool

-- `directories` is `directory_queryset`, which may be None; the rows of `files` are not removed.
pub record NameChanger : Type 0 where
  pub job : Job
  pub nfc : String → String
  pub date : String
  pub group_type : String
  pub sip_path : String
  pub files_index : Dict String
  pub dirs_index : Dict String
  pub files : List Row
  pub directories : Option (List Row)
  pub events : List ChangeEvent

abbrev pub batch_size : ℕ
batch_size = 2000

unfoldable pub normalize_path_for_db : NameChanger → String → String
normalize_path_for_db c path = replace_first (c.nfc path) c.sip_path c.group_type

-- A row whose location is in the index gets its new one.
unfoldable pub moved : (String → String) → Dict String → Row → Row
moved nfc index row = elim (lookup (nfc row.currentlocation) index) [
  | none ↦ row
  | some location ↦ record row { currentlocation = location }
]

abbrev pub is_moved : (String → String) → Dict String → Row → Bool
is_moved nfc index row = is_some (lookup (nfc row.currentlocation) index)

abbrev change_event : NameChanger → Row → String → ChangeEvent
change_event c row changed = record {
  file_uuid = row.uuid;
  event_datetime = c.date;
  event_outcome_detail =
      "Original name=\"" <> c.nfc row.currentlocation <> "\"; new name=\"" <> changed <> "\"";
}

abbrev cons_event : NameChanger → Row → Option String → List ChangeEvent → List ChangeEvent
cons_event c row none events = events
cons_event c row (some changed) events = change_event c row changed ∷ events

-- The events of the rows that change.
unfoldable pub change_events : NameChanger → List Row → List ChangeEvent
change_events c [] = []
change_events c (row ∷ rows) =
    cons_event c row (lookup (c.nfc row.currentlocation) c.files_index) (change_events c rows)

unfoldable pub apply_file_updates : NameChanger → NameChanger
unfolding moved change_events
apply_file_updates c = record c {
  files = map (moved c.nfc c.files_index) c.files;
  events = c.events ++ change_events c c.files;
  files_index = [];
}

unfoldable pub apply_dir_updates : NameChanger → NameChanger
unfolding moved
apply_dir_updates c = elim c.directories [
  | none ↦ c
  | some rows ↦ record c {
    directories = some (map (moved c.nfc c.dirs_index) rows);
    dirs_index = [];
  }
]

unfoldable pub add_file_to_batch : String → String → NameChanger → NameChanger
add_file_to_batch old_path new_path c =
    let old = normalize_path_for_db c old_path in
    let new = normalize_path_for_db c new_path in
    let c' : NameChanger = record c { files_index = insert old new c.files_index } in
    if leb batch_size (length c'.files_index) then apply_file_updates c' else c'

unfoldable pub add_dir_to_batch : String → String → NameChanger → NameChanger
add_dir_to_batch old_path new_path c =
    let old = join_path (normalize_path_for_db c old_path) "" in
    let new = join_path (normalize_path_for_db c new_path) "" in
    let c' : NameChanger = record c { dirs_index = insert old new c.dirs_index } in
    if leb batch_size (length c'.dirs_index) then apply_dir_updates c' else c'

-- `job.pyprint`, to stdout
abbrev pub say : String → NameChanger → NameChanger
say message c = record c { job = write_output (message <> "\n") c.job }

unfoldable pub change_object : Change → NameChanger → NameChanger
change_object ch c =
    if not ch.was_changed
    then say ("No filename changes for " <> ch.old_path) c
    else say ("Changed name: " <> ch.old_path <> "  ->  " <> ch.new_path) (
        if ch.is_dir
        then add_dir_to_batch ch.old_path ch.new_path c
        else add_file_to_batch ch.old_path ch.new_path c)

unfoldable pub change_all : List Change → NameChanger → NameChanger
change_all [] c = c
change_all (ch ∷ chs) c = change_all chs (change_object ch c)

-- `change_objects`: the last, incomplete batches are applied after the loop.
unfoldable pub change_objects : List Change → NameChanger → NameChanger
change_objects chs c = apply_dir_updates (apply_file_updates (change_all chs c))
