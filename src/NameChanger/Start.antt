-- ===== src/NameChanger/Start.antt =====
-- clientScripts/change_object_names.py: how a job's arguments become a `NameChanger`, and `call`.
use ccp.Prelude.{
  ◌<>◌, String, Bool, Option, none, some, List, [], ◌∷◌, not, ◌||◌, str_eq, if◌then◌else◌,
}
use ccp.Prelude.Int.{pos}
use ccp.Prelude.Raise.{exception, Result, ok, raised, ◌>>=◌}
use ccp.Job.{Job, set_status, success}
use ccp.Job.Context.{on_exception}
use ccp.NameChanger.{Row, Change, NameChanger, change_objects}

-- A SIP or a transfer, with its rows that are not removed.
pub record Group : Type 0 where
  pub diruuids : Bool
  pub files : List Row
  pub directories : List Row

-- The look-ups of a transfer and of a SIP, NFC, and what `change_tree` yields for a directory.
pub record Environment : Type 0 where
  pub transfer : String → Result Group
  pub sip : String → Result Group
  pub nfc : String → String
  pub change_tree : String → List Change

-- `self.transfer` or `self.sip`
unfoldable pub find_group : Environment → String → String → Result Group
find_group env group_sql sip_uuid =
    if str_eq group_sql "transfer_id"
    then env.transfer sip_uuid
    else if str_eq group_sql "sip_id"
    then env.sip sip_uuid
    else raised (exception ("Unexpected group sql: " <> group_sql))

-- `directory_queryset`
abbrev pub directory_queryset : Group → Option (List Row)
directory_queryset g = if g.diruuids then some g.directories else none

abbrev with_group : Environment → Job → String → String → String → Group → NameChanger
with_group env job date group_type sip_path g = record {
  job = job;
  nfc = env.nfc;
  date = date;
  group_type = group_type;
  sip_path = sip_path;
  files_index = [];
  dirs_index = [];
  files = g.files;
  directories = directory_queryset g;
  events = [];
}

-- `NameChanger.__init__`
unfoldable pub new_name_changer :
    Environment → Job → String → String → String → String → String → Result NameChanger
new_name_changer env job sip_uuid date group_type group_sql sip_path =
    if not (str_eq group_type "%SIPDirectory%" || str_eq group_type "%transferDirectory%")
    then raised (exception ("Unexpected group type: " <> group_type))
    else do
      g ← find_group env group_sql sip_uuid
      ok (with_group env job date group_type sip_path g)

-- What a job leaves: itself, and the changer with the rows and the events, if there is one.
abbrev changed : String → Environment → Job → Result NameChanger → Job × Option NameChanger
changed directory env job (raised e) = (on_exception (some e) job, none)
changed directory env job (ok c) =
    let c' = change_objects (env.change_tree directory) c in
    (set_status (pos 0) success c'.job, some c')

-- One round of the loop of `call`.
unfoldable pub change_job : Environment → Job → List String → Job × Option NameChanger
change_job env job
      (name ∷ directory ∷ sip_uuid ∷ date ∷ task_uuid ∷ group_type ∷ group_sql ∷ sip_path ∷ rest) =
    changed directory env job
      (new_name_changer env job sip_uuid date ("%" <> group_type <> "%") group_sql sip_path)
change_job env job args = (on_exception (some (exception "list index out of range")) job, none)
