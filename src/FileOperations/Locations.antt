-- ===== src/FileOperations/Locations.antt =====
-- utils/fileOperations.py: the locations of files in the database, and the moves on disk that they
-- follow; and the search of a file in normalization.csv, of which the rows are what `csv` reads.
use ccp.Prelude.{
  ℕ, ◌<>◌, String, Bool, false, Option, none, some, List, [], ◌∷◌, select, not, ◌&&◌, str_eq,
  if◌then◌else◌,
}
use ccp.Prelude.Dict.{Dict, insert}
use ccp.Prelude.Text.{replace, starts_with, ends_with, contains}
use ccp.Prelude.Raise.{exception, Result, raised}
use ccp.Prelude.Script.{Script, ◌>>=◌, throw, get, modify, lift, skip, when, for_each}
use ccp.Job.{print_output, print_error}
use ccp.Rows.{
  File, World, Site, Got, one, does_not_exist, multiple_objects, has_uuid, save_file, or_else,
  is_value, is_none, get_file, raise_got, draw_uuid,
}
use ccp.Database.{event_at, insert_into_events}
use ccp.FileOperations.{in_job, on_disk}

-- `unitIdentifierType`
pub data UnitType : Type 0 where
  transfer_id sip_id : UnitType

abbrev pub is_of_unit : UnitType → String → File → Bool
is_of_unit transfer_id unit f = is_value f.transfer unit
is_of_unit sip_id unit f = is_value f.sip unit

abbrev pub is_located : (String → Bool) → Option String → Bool
is_located test none = false
is_located test (some location) = test location

-- `removedtime__isnull=True`, with a condition on the location, in a unit.
abbrev pub is_current : UnitType → String → (String → Bool) → File → Bool
is_current type unit test f =
    is_none f.removedtime && is_of_unit type unit f && is_located test f.currentlocation

-- A location in the database that ends in "/", unless it is the unit itself.
abbrev pub directory_location : String → String → String → String
directory_location path unit_path variable =
    let location = replace path unit_path variable in
    if not (ends_with "/" location) && not (str_eq location variable)
    then location <> "/"
    else location

abbrev pub replaced : String → String → Option String → Option String
replaced source destination none = none
replaced source destination (some location) = some (replace location source destination)

abbrev pub relocated : String → String → File → File
relocated source destination f = record f {
  currentlocation = replaced source destination f.currentlocation;
}

-- How a move fills in a destination that is a directory.
abbrev into_directory : String → String
into_directory path = if ends_with "/" path then path <> "." else path <> "/."

-- {f.currentlocation.decode(): f.uuid for f in files}
abbrev entry : Option String → String → Dict String → Dict String
entry none uuid d = d
entry (some location) uuid d = insert location uuid d

abbrev entries : List File → Dict String → Dict String
entries [] d = d
entries (f ∷ files) d = entries files (entry f.currentlocation f.uuid d)

abbrev pub name_change_note : String → String → String → String
name_change_note source destination note =
    or_else note ("Original name=\"" <> source <> "\"; new name=\"" <> destination <> "\"")

module _ {D : Type 0} where
  abbrev pub move_directory : Site D → String → String → Script (World D) (Unit {0})
  move_directory site source destination = do
    w ← get
    on_disk (
        site.move source
          (if site.is_dir destination w.disk then into_directory destination else destination))

  -- `updateDirectoryLocation`: the rows are saved before the directory is moved.
  unfoldable pub update_directory_location :
      Site D → String → String → String → String → UnitType → String → Script (World D) (Unit {0})
  update_directory_location site source destination unit_path unit type variable = do
    let from = directory_location source unit_path variable
    let to = directory_location destination unit_path variable
    w ← get
    _ ←
        for_each (select (is_current type unit (starts_with from)) w.files)
          (λ f. modify (save_file (relocated from to f)))
    move_directory site source destination

  -- `UpdateFileLocationFailed(4)`
  abbrev pub refuse : String → String → Script (World D) (Unit {0})
  refuse message arguments = do
    _ ← in_job (
        print_error
          ("ERROR: file information not found:" ∷ message ∷ "for arguments:" ∷ arguments ∷ []))
    throw (exception "4")

  abbrev pub moved_to :
      Site D → String → String → String → Got File → String → Script (World D) (Unit {0})
  moved_to site source destination location (one f) arguments = do
    _ ← in_job (print_output ("Moving" ∷ source ∷ "to" ∷ destination ∷ []))
    _ ← on_disk (site.move source destination)
    modify (save_file (record f { currentlocation = some location }))
  moved_to site source destination location does_not_exist arguments =
      refuse "no results found" arguments
  moved_to site source destination location multiple_objects arguments =
      refuse "multiple results found" arguments

  -- `updateFileLocation2`: the file is moved before its row is saved. `repr(kwargs)` is an argument.
  unfoldable pub update_file_location2 :
      Site D
      → (String → String)
      → String
      → String
      → String
      → String
      → UnitType
      → String
      → Script (World D) (Unit {0})
  update_file_location2 site repr source destination unit_path unit type variable = do
    let from = replace source unit_path variable
    let to = replace destination unit_path variable
    w ← get
    moved_to site source destination to (get_file (is_current type unit (str_eq from)) w)
        (repr from)

  -- Which file `updateFileLocation` is about.
  abbrev pub file_of : String → String → String → String → World D → Result File
  file_of source uuid sip transfer w =
      if not (str_eq uuid "") && not (str_eq uuid "None")
      then raise_got (get_file (has_uuid uuid) w)
      else if not (str_eq sip "")
      then raise_got (get_file (is_current sip_id sip (str_eq source)) w)
      else if not (str_eq transfer "")
      then raise_got (get_file (is_current transfer_id transfer (str_eq source)) w)
      else raised (exception "One of fileUUID, sipUUID, or transferUUID must be provided")

  -- `updateFileLocation`, with the identifier of the event not given.
  unfoldable pub update_file_location :
      Site D
      → String
      → String
      → String
      → Option ℕ
      → String
      → String
      → String
      → String
      → String
      → Bool
      → Script (World D) (Unit {0})
  update_file_location site source destination type date detail uuid sip transfer note event = do
    _ ← draw_uuid site
    w ← get
    f ← lift (file_of source uuid sip transfer w)
    _ ← modify (save_file (record f { currentlocation = some destination }))
    when event (
        insert_into_events site f.uuid
          (event_at type date detail "" (name_change_note source destination note))
        >>= (λ _. skip))

  -- `getFileUUIDLike`
  unfoldable pub get_file_uuid_like :
      World D → String → String → String → UnitType → String → Dict String
  get_file_uuid_like w path unit_path unit type variable =
      entries (select (is_current type unit (contains (replace path unit_path variable))) w.files)
        []
