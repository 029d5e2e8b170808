-- ===== src/Validator/Directories.antt =====
-- clientScripts/validate_file.py: what a command is run with, and where its output is saved.
use ccp.Prelude.{
  ◌<>◌, String, Bool, false, Option, none, some, List, [], ◌∷◌, not, ◌||◌, str_eq, if◌then◌else◌,
}
use ccp.Prelude.Dict.{Dict, lookup, insert}
use ccp.Prelude.Text.{replace_first}
use ccp.Prelude.Paths.{basename, join_path}
use ccp.Prelude.Raise.{Result, ok, raised, ◌>>=◌}
use ccp.ReplacementDict.{of_file, replace_string_values}
use ccp.Validator.{found, missing, failing, Get, Rule, Environment, Validator, print_err}

abbrev pub is_templated : String → Bool
is_templated type = str_eq type "bashScript" || str_eq type "command"

-- The text and the arguments that a rule's command is run with.
unfoldable pub prepare : Environment → Validator → Rule → Result (String × List String)
prepare env v rule =
    if not (is_templated rule.script_type) then ok (rule.command, v.file_path ∷ []) else do
      row ← env.file_row v.file_uuid
      sip ← env.sip_row v.sip_uuid
      text ← replace_string_values env.config of_file (some sip) (some row) rule.command
      ok (text, [])

abbrev pub directory_in : Environment → Validator → String → Option String × Validator
directory_in env v path =
    let logs_dir = join_path (replace_first path "%sharedPath%" v.shared_path) "logs" in
    if env.isdir logs_dir then (some logs_dir, record v { sip_logs_dir = some logs_dir }) else (
      none,
      print_err ("Warning: unable to find a logs/ directory in the SIP with UUID " <> v.sip_uuid) v,
    )

abbrev pub find_logs : Environment → Validator → Get String → Result (Option String × Validator)
find_logs env v (found path) = ok (directory_in env v path)
find_logs env v missing = ok (
  none,
  print_err ("Warning: unable to retrieve SIP model corresponding to SIP UUID " <> v.sip_uuid) v,
)
find_logs env v (failing e) = raised e

abbrev pub is_truthy : Option String → Bool
is_truthy none = false
is_truthy (some s) = not (str_eq s "")

-- `sip_logs_dir`
unfoldable pub get_sip_logs_dir : Environment → Validator → Result (Option String × Validator)
get_sip_logs_dir env v =
    if is_truthy v.sip_logs_dir
    then ok (v.sip_logs_dir, v)
    else find_logs env v (env.current_path v.sip_uuid)

abbrev pub pres_val_in : Environment → Option String × Validator → Option String × Validator
pres_val_in env (none, v) = (v.sip_pres_val_dir, v)
pres_val_in env (some logs_dir, v) =
    let dir = join_path logs_dir "implementationChecks" in
    let kept : Validator = record v { sip_pres_val_dir = some dir } in
    if env.isdir dir || env.makedirs dir then (some dir, kept) else (v.sip_pres_val_dir, v)

-- `sip_pres_val_dir`
unfoldable pub get_sip_pres_val_dir : Environment → Validator → Result (Option String × Validator)
get_sip_pres_val_dir env v =
    if is_truthy v.sip_pres_val_dir
    then ok (v.sip_pres_val_dir, v)
    else do found_logs ← get_sip_logs_dir env v; ok (pres_val_in env found_logs)

abbrev pub write_stdout : Environment → String → Option String × Validator → Result Validator
write_stdout env stdout (none, v) = ok v
write_stdout env stdout (some dir, v) =
    let stdout_path = join_path dir (basename v.file_path <> ".xml") in
    do _ ← env.write stdout_path stdout; ok (record v { files = insert stdout_path stdout v.files })

abbrev pub save_stdout : Environment → Option String → Validator → Result Validator
save_stdout env none v = ok v
save_stdout env (some stdout) v =
    if str_eq stdout ""
    then ok v
    else do dir ← get_sip_pres_val_dir env v; write_stdout env stdout dir

-- `_save_stdout_to_logs_dir`
unfoldable pub save_stdout_to_logs_dir : Environment → Dict String → Validator → Result Validator
save_stdout_to_logs_dir env output v = save_stdout env (lookup "stdout" output) v
