-- ===== src/IdentifyFormat.antt =====
-- clientScripts/identify_file_format.py: the format of a file from what an identification command
-- prints. The registry, the command's run and what `str.strip` leaves are the fields of `Identifier`.
pub mod SameFormats
pub mod Errors
pub mod Formats
use ccp.Prelude.{
  ℕ, ◌<>◌, String, Bool, true, false, Option, none, some, List, [], ◌∷◌, ◌++◌, any, map, not, ◌&&◌,
  ◌||◌, str_eq, if◌then◌else◌, select,
}
use ccp.Prelude.Int.{ℤ, pos, is_zero}
use ccp.Prelude.Raise.{Exception, exception, Result, ok, raised}
use ccp.Prelude.Script.{Script, ◌>>=◌, pure, throw, get, modify, lift, skip}
use ccp.Job.{print_output, print_error, write_error, Job}
use ccp.ExecuteOrRun.{Triple}
use ccp.Rows.{
  File, FileFormatVersion, FileId, World, Site, Got, one, does_not_exist, multiple_objects, only,
  has_uuid, get_file, raise_got, create, draw_uuid, now, id_row, format_row, variable_row, add_row,
}
use ccp.Database.{event_at, insert_into_events}
use ccp.FileOperations.{in_job, on_disk}

pub record IdCommand : Type 0 where
  pub uuid : String
  pub description : String
  pub config : String
  pub script : String
  pub script_type : String
  pub tool_uuid : String
  pub tool_description : String
  pub tool_version : String

-- A version of a format. A null version reads as the empty text that `or` makes of it.
pub record FormatVersion : Type 0 where
  pub key : String
  pub description : String
  pub format_description : String
  pub version : String
  pub pronom_id : Option String

pub record Identifier (D : Type 0) : Type 0 where
  pub site : Site D
  pub command : Option IdCommand
  pub execute_or_run : String → String → List String → D → Result Triple × D
  pub strip : String → String
  pub version_of_puid : String → Got FormatVersion
  pub rule_format : String → String → Got FormatVersion

abbrev pub success_code : ℤ
success_code = pos 0

abbrev pub error_code : ℤ
error_code = pos 255

abbrev pub text_or : String → Option String → String
text_or default none = default
text_or default (some s) = if str_eq s "" then default else s

-- Where a format is registered, and its key there.
unfoldable pub registry_of : FormatVersion → String → String × String
registry_of format output =
    let puid = text_or "" format.pronom_id in
    if str_eq puid "" then ("Archivematica Format Policy Registry", output) else ("PRONOM", puid)

abbrev pub unit_of : File → Option String
unit_of f = elim f.sip [ none ↦ f.transfer | some sip ↦ some sip ]

-- A search that failed, as it is reported.
pub data Found : Type 0 where
  format_found : FormatVersion → Found
  unknown : String → Found
  search_raised : Exception → Found

abbrev puid_found : String → Got FormatVersion → Found
puid_found output (one v) = format_found v
puid_found output does_not_exist = unknown ("Error: No FPR format record found for PUID " <> output)
puid_found output multiple_objects = search_raised (exception "get() returned more than one")

abbrev rule_found : String → Got FormatVersion → Found
rule_found output (one v) = format_found v
rule_found output does_not_exist =
    unknown ("Error: No FPR identification rule for tool output \"" <> output <> "\" found")
rule_found output multiple_objects =
    unknown ("Error: Multiple FPR identification rules for tool output \"" <> output <> "\" found")

abbrev pub no_command_text : String
no_command_text = "Unable to determine IDCommand.\n"

abbrev announced : IdCommand → String → String → Job → Job
announced command path uuid j = print_output (("File: (" <> uuid <> ") " <> path) ∷ []) (
    print_output ("IDTool UUID:" ∷ command.tool_uuid ∷ []) (
      print_output ("IDTool:" ∷ command.tool_description ∷ []) (
        print_output ("IDCommand UUID:" ∷ command.uuid ∷ [])
          (print_output ("IDCommand:" ∷ command.description ∷ []) j))))

module _ {D : Type 0} where
  unfoldable pub search_format : Identifier D → IdCommand → String → Found
  search_format env command output =
      if str_eq command.config "PUID"
      then puid_found output (env.version_of_puid output)
      else rule_found output (env.rule_format output command.uuid)

  abbrev pub versions_set : String → String → World D → World D
  versions_set uuid key w = record w {
    formats =
        map (λ v. if str_eq v.file uuid then record v { format_version = key } else v) w.formats;
  }

  abbrev pub set_found :
      Identifier D → String → String → Got FileFormatVersion → Script (World D) (Unit {0})
  set_found env uuid key (one v) = modify (versions_set uuid key)
  set_found env uuid key does_not_exist =
      create env.site (format_row (record { file = uuid; format_version = key }))
  set_found env uuid key multiple_objects = lift (raise_got multiple_objects)

  -- `FileFormatVersion.objects.get_or_create`, and the update of the row if it was there.
  unfoldable pub set_format : Identifier D → String → String → Script (World D) (Unit {0})
  set_format env uuid key = do
    w ← get
    set_found env uuid key (only (select (λ v. str_eq v.file uuid) w.formats))

  abbrev pub save_unit : Identifier D → Option String → Script (World D) (Unit {0})
  save_unit env none = throw (exception "'NoneType' object has no attribute 'pk'")
  save_unit env (some unit) = create env.site (
      variable_row (record {
        unituuid = unit;
        variable = "replacementDict";
        variablevalue = "{'%IDCommand%': 'True'}";
      }))

  -- `_save_id_preference`: what is saved is str({"%IDCommand%": "True"}).
  unfoldable pub save_id_preference : Identifier D → File → Script (World D) (Unit {0})
  save_id_preference env f = save_unit env (unit_of f)

  abbrev pub identification_event :
      Identifier D → String → IdCommand → String → String → Script (World D) (Unit {0})
  identification_event env uuid command format outcome = do
    date ← now env.site
    id ← draw_uuid env.site
    _ ←
        insert_into_events env.site uuid
          (record (event_at "format identification" (some date)
            ("program=\"" <> command.tool_description <> "\"; version=\"" <> command.tool_version
              <> "\"")
            outcome format) { identifier = id })
    skip

  -- `write_identification_event`
  unfoldable pub write_identification_event :
      Identifier D → String → IdCommand → Option String → Bool → Script (World D) (Unit {0})
  write_identification_event env uuid command format positive =
      identification_event env uuid command (text_or "No Matching Format" format)
        (if positive then "Positive" else "Not identified")

  -- `write_file_id`
  unfoldable pub write_file_id :
      Identifier D → String → FormatVersion → String → Script (World D) (Unit {0})
  write_file_id env uuid format output =
      let (registry, key) = registry_of format output in
      create env.site (
        id_row (record {
          file = uuid;
          format_name = format.format_description;
          format_version = format.version;
          format_registry_name = registry;
          format_registry_key = key;
        }))

  abbrev pub record_format :
      Identifier D → String → String → IdCommand → String → FormatVersion → Script (World D) ℤ
  record_format env path uuid command output format = do
    _ ← set_format env uuid format.key
    _ ← in_job (print_output ((path <> " identified as a " <> format.description) ∷ []))
    _ ← write_identification_event env uuid command format.pronom_id true
    _ ← write_file_id env uuid format output
    pure success_code

  abbrev pub conclude :
      Identifier D → String → String → IdCommand → String → Found → Script (World D) ℤ
  conclude env path uuid command output (format_found format) =
      record_format env path uuid command output format
  conclude env path uuid command output (unknown message) = do
    _ ← in_job (print_error (message ∷ []))
    _ ← write_identification_event env uuid command none false
    pure error_code
  conclude env path uuid command output (search_raised e) = throw e

  abbrev pub report_failure : IdCommand → String → Script (World D) ℤ
  report_failure command errors = do
    _ ←
        in_job (
          print_error (("Error: IDCommand with UUID " <> command.uuid <> " exited non-zero.") ∷ []))
    _ ← in_job (print_error (("Error: " <> errors) ∷ []))
    pure error_code

  abbrev pub recognise : Identifier D → String → String → IdCommand → String → Script (World D) ℤ
  recognise env path uuid command output = do
    _ ← in_job (print_output ("Command output:" ∷ output ∷ []))
    conclude env path uuid command output (search_format env command output)

  abbrev pub after_command :
      Identifier D → String → String → IdCommand → Triple → Script (World D) ℤ
  after_command env path uuid command t =
      if is_zero t.retcode
      then recognise env path uuid command (env.strip t.std_out)
      else report_failure command t.std_error

  abbrev pub was_identified : String → World D → Bool
  was_identified uuid w =
      any (λ e. str_eq e.file_uuid uuid && str_eq e.event_type "format identification") w.events

  abbrev pub identify_unless :
      Identifier D → String → String → IdCommand → File → Bool → Script (World D) ℤ
  identify_unless env path uuid command f true =
      in_job (
        print_output (
          "This file has already been identified, and re-identification is disabled. Skipping."
          ∷ []))
      >>= (λ _. pure success_code)
  identify_unless env path uuid command f false = do
    _ ← save_id_preference env f
    t ← on_disk (env.execute_or_run command.script_type command.script (path ∷ []))
    after_command env path uuid command t

  abbrev pub announce : IdCommand → String → String → Script (World D) (Unit {0})
  announce command path uuid = in_job (announced command path uuid)

  abbrev pub identify_with :
      Identifier D → String → String → Bool → Option IdCommand → Script (World D) ℤ
  identify_with env path uuid disabled none =
      in_job (write_error no_command_text) >>= (λ _. pure error_code)
  identify_with env path uuid disabled (some command) = do
    _ ← announce command path uuid
    w ← get
    f ← lift (raise_got (get_file (has_uuid uuid) w))
    identify_unless env path uuid command f (disabled && was_identified uuid w)

  -- `main`
  unfoldable pub main : Identifier D → String → String → String → Bool → Script (World D) ℤ
  main env enabled path uuid disabled =
      if str_eq enabled "True"
      then identify_with env path uuid disabled env.command
      else in_job (print_output ("Skipping file format identification" ∷ []))
        >>= (λ _. pure success_code)
