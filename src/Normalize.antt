-- ===== src/Normalize.antt =====
-- clientScripts/normalize.py: the values that a command is given, and what the database is told of
-- the files that a command wrote. The state of the disk is the trace of the commands that were run:
-- what is a file after them, and what they wrote, are functions of it in `Registry`, with the rules
-- of the format policy registry.
pub mod Outputs
pub mod Manual
pub mod Linker
pub mod Rules
pub mod Main
pub mod Results
pub mod Codes
use ccp.Prelude.{
  ℕ, ◌<>◌, String, Bool, true, false, Option, none, some, List, [], ◌∷◌, ◌++◌, map, select, not,
  ◌&&◌, str_eq, if◌then◌else◌,
}
use ccp.Prelude.Int.{ℤ, pos, negsuc}
use ccp.Prelude.Dict.{Dict, insert}
use ccp.Prelude.Text.{contains, replace_first}
use ccp.Prelude.Paths.{basename, dirname, stem, join_path}
use ccp.Prelude.Raise.{Exception, exception, Result, ok, raised}
use ccp.Prelude.Script.{Script, ◌>>=◌, pure, throw, get, modify, lift, skip, when, for_each}
use ccp.Job.{print_output, print_error}
use ccp.ReplacementDict.{Config, FileRow, of_file, frommodel}
use ccp.Transcoder.{Details, Command, Invocation, Run}
use ccp.Rows.{
  File, FileFormatVersion, FileId, World, Site, Got, derivation_row, format_row, id_row, create,
  draw_uuid, now, or_now,
}
use ccp.Database.{event_at, insert_into_events, insert_into_derivations}
use ccp.FileOperations.{in_job, add_file_to_sip, update_size_and_checksum}
use ccp.FileOperations.Csv.{Reader}

pub record NormalizeArgs : Type 0 where
  pub purpose : String
  pub file_uuid : String
  pub file_path : String
  pub sip_path : String
  pub sip_uuid : String
  pub task_uuid : String
  pub normalize_file_grp_use : String
  pub thumbnail_mode : String

-- A command of the registry and the format that it writes, and a rule with its text.
pub record FpCommand : Type 0 where
  pub uuid : String
  pub description : String
  pub output_format : String
  pub format_description : String
  pub command : Command

pub record FpRule : Type 0 where
  pub text : String
  pub command : FpCommand

abbrev pub Trace : Type 0
Trace = List Invocation

abbrev pub Act : Type 0 → Type 0
Act = Script (World Trace)

pub record Registry : Type 0 where
  pub site : Site Trace
  pub config : Config
  pub file_model : World Trace → String → Result FileRow
  pub run : Run
  pub is_file : String → Trace → Bool
  pub walk : String → Trace → List String
  pub csv : String → Trace → Option Reader
  pub format_exc : ℕ → String
  pub iendswith : String → String → Bool
  pub active_rule : String → String → Got FpRule
  pub default_rule : String → Got FpRule
  pub make_thumbnail_dir : String → Trace → Result (Unit {0})
  pub store_thumbnail : String → String → Trace → Result (Unit {0})

-- `SUCCESS`, `RULE_FAILED` and `NO_RULE_FOUND`
abbrev pub success_code : ℤ
success_code = pos 0

abbrev pub rule_failed : ℤ
rule_failed = pos 1

abbrev pub no_rule_found : ℤ
no_rule_found = pos 2

-- Where a purpose puts its file: the prefix and the postfix of the name, and the directory.
unfoldable pub output_of : NormalizeArgs → Option (String × (String × String))
output_of opts =
    if contains "preservation" opts.purpose
    then some ("", ("-" <> opts.task_uuid, dirname opts.file_path <> "/"))
    else if contains "access" opts.purpose
    then some
        (opts.file_uuid <> "-", ("", join_path (join_path opts.sip_path "DIP") "objects" <> "/"))
    else if contains "thumbnail" opts.purpose
    then some ("", (opts.file_uuid, join_path opts.sip_path "thumbnails" <> "/"))
    else none

abbrev pub output_values : NormalizeArgs → String → String → String → Dict String → Dict String
output_values opts prefix postfix dir rd =
    let name = prefix <> stem (basename opts.file_path) <> postfix in
    insert "%outputFilePath%" (join_path dir name) (
      insert "%outputFileName%" name
        (insert "%postfix%" postfix (insert "%prefix%" prefix (insert "%outputDirectory%" dir rd))))

abbrev replacements :
    Registry → NormalizeArgs → Option (String × (String × String)) → Act (Option (Dict String))
replacements reg opts none = do
  _ ← in_job (print_error ("Unsupported command purpose" ∷ opts.purpose ∷ []))
  pure none
replacements reg opts (some (prefix, (postfix, dir))) = do
  w ← get
  row ← lift (reg.file_model w opts.file_uuid)
  rd ← lift (frommodel reg.config of_file none (some row) true)
  pure (some (output_values opts prefix postfix dir rd))

-- `get_replacement_dict`
unfoldable pub get_replacement_dict : Registry → NormalizeArgs → Act (Option (Dict String))
get_replacement_dict reg opts = replacements reg opts (output_of opts)

-- `insert_derivation_event`
unfoldable pub insert_derivation_event :
    Registry → String → String → String → String → String → Option ℕ → Act (Unit {0})
insert_derivation_event reg original output derivation detail note today = do
  t ← or_now reg.site today
  _ ←
      insert_into_events reg.site original
        (record (event_at "normalization" (some t) detail "" note) { identifier = derivation })
  insert_into_derivations reg.site original output (some derivation)

-- The files that a command wrote, and the code that takes the place of its own when there is none.
unfoldable pub outputs_of : Registry → String → Trace → List String × Option ℤ
outputs_of reg location trace =
    if reg.is_file location trace
    then (location ∷ [], none)
    else if reg.site.is_dir location trace
    then (select (λ p. reg.is_file p trace) (reg.walk location trace), none)
    else if str_eq location ""
    then ([], none)
    else ([], some (negsuc 1))

abbrev pub report_outputs : String → List String × Option ℤ → Act (List String × Option ℤ)
report_outputs location (files, none) = pure (files, none)
report_outputs location (files, some code) =
    in_job (print_error ("Error - output file does not exist [" ∷ location ∷ "]" ∷ []))
    >>= (λ _. pure (files, some code))

unfoldable pub transcoded_files : Registry → String → Act (List String × Option ℤ)
transcoded_files reg location =
    get >>= (λ w. report_outputs location (outputs_of reg location w.disk))

abbrev pub link_derivative :
    Registry → NormalizeArgs → String → String → String → ℕ → Act (Unit {0})
link_derivative reg opts derivation detail path today =
    if contains "preservation" opts.purpose
    then insert_derivation_event reg opts.file_uuid opts.task_uuid derivation detail path
        (some today)
    else create reg.site (
        derivation_row
          (record { source_file = opts.file_uuid; derived_file = opts.task_uuid; event = none }))

-- The rows of one file that a command wrote.
unfoldable pub enter_file :
    Registry → NormalizeArgs → FpCommand → String → String → String → Act (Unit {0})
enter_file reg opts command derivation detail path = do
  today ← now reg.site
  let relative = replace_first path opts.sip_path "%SIPDirectory%"
  _ ←
      add_file_to_sip reg.site relative opts.task_uuid opts.sip_uuid (some today) "creation"
        opts.purpose
  _ ← draw_uuid reg.site
  _ ← update_size_and_checksum reg.site opts.task_uuid path (some today) none "" "" true
  _ ← link_derivative reg opts derivation detail relative today
  _ ←
      create reg.site
        (format_row (record { file = opts.task_uuid; format_version = command.output_format }))
  create reg.site (
      id_row (record {
        file = opts.task_uuid;
        format_name = command.format_description;
        format_version = "";
        format_registry_name = "";
        format_registry_key = "";
      }))

abbrev pub detail_of : FpCommand → Option String → String
detail_of command none = "ArchivematicaFPRCommandID=\"" <> command.uuid <> "\""
detail_of command (some printed) =
    "ArchivematicaFPRCommandID=\"" <> command.uuid <> "\"; " <> printed

abbrev pub enter_files :
    Registry → NormalizeArgs → FpCommand → String → String → List String → Act (Unit {0})
enter_files reg opts command derivation detail files = for_each files (λ path.
    when (not (contains "thumbnails" opts.purpose))
      (enter_file reg opts command derivation detail path))

-- `once_normalized`: what the event detail command printed is there if there is such a command. The
-- result is the code that `command.exit_code` is set to, if it is.
unfoldable pub once_normalized :
    Registry → NormalizeArgs → FpCommand → Option String → String → Act (Option ℤ)
once_normalized reg opts command printed location = do
  found ← transcoded_files reg location
  derivation ← draw_uuid reg.site
  _ ← enter_files reg opts command derivation (detail_of command printed) found.0
  pure found.1
