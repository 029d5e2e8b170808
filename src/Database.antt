-- ===== src/Database.antt =====
-- utils/databaseFunctions.py: the rows that the scripts insert and the row of a removed file. What is
-- printed on the console of the worker and logged is left out.
pub mod Growth
pub mod Operations
pub mod Keys
use ccp.Prelude.{
  ℕ, ◌<>◌, String, Bool, true, false, Option, none, some, List, [], ◌∷◌, not, ◌&&◌, str_eq,
  if◌then◌else◌,
}
use ccp.Prelude.Raise.{Exception, exception, Result, ok, raised}
use ccp.Prelude.Script.{Script, ◌>>=◌, pure, throw, modify, lift}
use ccp.Rows.{
  File, EventRow, Derivation, FpCommandOutput, file_row, event_row, derivation_row, output_row,
  World, Site, Got, one, does_not_exist, multiple_objects, has_uuid, raise_got, get_file, save_file,
  create, draw_uuid, now, or_now, or_uuid, or_else,
}

-- The columns with `auto_now_add` are set when the row is created, whatever was passed.
abbrev pub stamped : ℕ → File → File
stamped t f = record f { modificationtime = t; enteredsystem = t }

abbrev both_or_neither : String → String → Exception
both_or_neither sip transfer = record {
  message =
      "('not supported yet - both SIP and transfer UUID's defined (or neither defined)', '" <> sip
      <> "-" <> transfer <> "')";
  traceback = "not supported yet - both SIP and transfer UUID's defined (or neither defined)";
}

abbrev pub new_file : String → String → String → String → File
new_file uuid path group original = record {
  uuid = uuid;
  sip = none;
  transfer = none;
  originallocation = original;
  currentlocation = some path;
  filegrpuse = group;
  filegrpuuid = "";
  checksum = "";
  checksumtype = "";
  size = none;
  modificationtime = 0;
  enteredsystem = 0;
  removedtime = none;
}

-- The unit of a new file: one of the two, and not both.
unfoldable pub in_unit : String → String → File → Result File
in_unit transfer sip f =
    if not (str_eq transfer "") && str_eq sip ""
    then ok (record f { transfer = some transfer })
    else if str_eq transfer "" && not (str_eq sip "")
    then ok (record f { sip = some sip })
    else raised (both_or_neither sip transfer)

-- The arguments of `insertIntoEvents` but for the file; no agents stand for None.
pub record EventFields : Type 0 where
  pub identifier : String
  pub type : String
  pub datetime : Option ℕ
  pub detail : String
  pub outcome : String
  pub outcome_detail_note : String
  pub agents : List ℕ

-- The row of an event that is saved at the time `t`: `event_datetime` is a column with `auto_now`, which
-- is set on every save, whatever date was passed.
abbrev pub event_with : String → EventFields → ℕ → List ℕ → String → EventRow
event_with uuid fields t agents id = record {
  event_id = id;
  file_uuid = uuid;
  event_type = fields.type;
  event_datetime = t;
  event_detail = fields.detail;
  event_outcome = fields.outcome;
  event_outcome_detail = fields.outcome_detail_note;
  agents = agents;
}

abbrev pub event_at : String → Option ℕ → String → String → String → EventFields
event_at type date detail outcome note = record {
  identifier = "";
  type = type;
  datetime = date;
  detail = detail;
  outcome = outcome;
  outcome_detail_note = note;
  agents = [];
}

abbrev pub removal : String → ℕ → String → String → String → EventFields
removal id t detail outcome note = record (event_at "file removed" (some t) detail outcome note) {
  identifier = id;
}

module _ {D : Type 0} where
  -- `insertIntoFiles`
  unfoldable pub insert_into_files :
      Site D
      → String
      → String
      → Option ℕ
      → String
      → String
      → String
      → String
      → Script (World D) File
  insert_into_files site uuid path entered transfer sip group original = do
    _ ← or_now site entered
    f ← lift (in_unit transfer sip (new_file uuid path group (or_else original path)))
    t ← now site
    _ ← create site (file_row (stamped t f))
    pure (stamped t f)

  abbrev pub agents_of_unit : Site D → Option String → Option String → List ℕ
  agents_of_unit site (some sip) transfer = site.sip_agents sip
  agents_of_unit site none (some transfer) = site.transfer_agents transfer
  agents_of_unit site none none = site.default_agents

  abbrev agents_of_file : Site D → Got File → Result (List ℕ)
  agents_of_file site (one f) = ok (agents_of_unit site f.sip f.transfer)
  agents_of_file site does_not_exist = ok []
  agents_of_file site multiple_objects = raise_got multiple_objects

  -- `getAMAgentsForFile`
  unfoldable pub get_am_agents_for_file : Site D → String → Script (World D) (List ℕ)
  get_am_agents_for_file site uuid w = (agents_of_file site (get_file (has_uuid uuid) w), w)

  abbrev pub or_agents : Site D → String → List ℕ → Script (World D) (List ℕ)
  or_agents site uuid [] = get_am_agents_for_file site uuid
  or_agents site uuid (a ∷ agents) = pure (a ∷ agents)

  -- `insertIntoEvents`: the date is read, and the time of the save is stored.
  unfoldable pub insert_into_events : Site D → String → EventFields → Script (World D) EventRow
  insert_into_events site uuid fields = do
    _ ← or_now site fields.datetime
    agents ← or_agents site uuid fields.agents
    id ← or_uuid site fields.identifier
    t ← now site
    let event : EventRow = event_with uuid fields t agents id
    _ ← create site (event_row event)
    pure event

  -- `insertIntoDerivations`
  unfoldable pub insert_into_derivations :
      Site D → String → String → Option String → Script (World D) (Unit {0})
  insert_into_derivations site source derived event =
      if str_eq source ""
      then throw (exception "sourceFileUUID must be specified")
      else if str_eq derived ""
      then throw (exception "derivedFileUUID must be specified")
      else create site
          (derivation_row (record { source_file = source; derived_file = derived; event = event }))

  -- `insertIntoFPCommandOutput`
  unfoldable pub insert_into_fp_command_output :
      Site D → String → String → String → Script (World D) (Unit {0})
  insert_into_fp_command_output site file content rule =
      create site (output_row (record { file = file; content = content; rule = rule }))

  -- `fileWasRemoved`
  unfoldable pub file_was_removed :
      Site D → String → Option ℕ → String → String → String → Script (World D) (Unit {0})
  file_was_removed site uuid date detail note outcome = do
    t ← or_now site date
    id ← draw_uuid site
    _ ← insert_into_events site uuid (removal id t detail outcome note)
    f ← (λ w. (raise_got (get_file (has_uuid uuid) w), w))
    modify (save_file (record f { removedtime = some t; currentlocation = none }))
