-- ===== src/Validator/Command.antt =====
-- clientScripts/validate_file.py: one rule, its run, its verdict and its event.
use ccp.Prelude.{
  ◌<>◌, String, Bool, false, Option, none, some, List, [], ◌∷◌, ◌++◌, ◌||◌, str_eq, if◌then◌else◌,
}
use ccp.Prelude.Int.{is_zero}
use ccp.Prelude.Decimal.{show_code}
use ccp.Prelude.Dict.{Dict, lookup}
use ccp.Prelude.Raise.{Result, ok, raised}
use ccp.Job.{write_error}
use ccp.ExecuteOrRun.{Triple}
use ccp.Validator.{Rule, ValidationEvent, Environment, Validator, print, print_err}
use ccp.Validator.Directories.{prepare, save_stdout_to_logs_dir}

-- `output.get("eventOutcomeInformation")` is "pass" or "partial pass".
abbrev pub is_pass : Option String → String → Bool
is_pass none s = false
is_pass (some outcome) s = str_eq outcome s

abbrev pub is_accepted : Dict String → Bool
is_accepted output =
    let outcome = lookup "eventOutcomeInformation" output in
    is_pass outcome "pass" || is_pass outcome "partial pass"

unfoldable pub report_outcome : Environment → Rule → Dict String → String → Validator → Validator
report_outcome env rule output stdout v =
    let outcome = lookup "eventOutcomeInformation" output in
    if is_pass outcome "pass"
    then print ("Command \"" <> rule.description <> "\" was successful") v
    else if is_pass outcome "partial pass"
    then print ("Command \"" <> rule.description <> "\" was partially successful") v
    else record v {
      job =
          write_error
            ("Command "
              <> rule.description
              <> " indicated failure with this output:\n\n"
              <> env.pformat stdout
              <> "\n")
            v.job;
    }

abbrev pub event_of : Rule → Dict String → Validator → ValidationEvent
event_of rule output v = record {
  file_uuid = v.file_uuid;
  event_detail =
      "program=\"" <> rule.tool_description <> "\"; version=\"" <> rule.tool_version <> "\"";
  event_outcome = lookup "eventOutcomeInformation" output;
  event_outcome_detail_note = lookup "eventOutcomeDetailNote" output;
}

abbrev pub save_if : Environment → Dict String → Validator → Result Validator
save_if env output v =
    if str_eq v.file_type "preservation" then save_stdout_to_logs_dir env output v else ok v

-- A call that may raise, in the state that an exception leaves.
abbrev pub with_ok {ℓ} :
    {A : Type ℓ} → Result A → Validator → (A → Result Bool × Validator) → Result Bool × Validator
with_ok (raised e) v go = (raised e, v)
with_ok (ok a) v go = go a

abbrev pub announce_event : Validator → Validator
announce_event v =
    print ("Creating validation event for " <> v.file_path <> " (" <> v.file_uuid <> ")") v

abbrev pub added : Rule → Dict String → Validator → Validator
added rule output v = record v { events = v.events ++ (event_of rule output v ∷ []) }

abbrev pub save_event : Environment → Rule → Dict String → Validator → Result Bool × Validator
save_event env rule output v =
    with_ok (env.save_event (event_of rule output v)) v
      (λ _. (ok (is_accepted output), added rule output v))

abbrev pub outcome_read :
    Environment → Rule → String → Validator → Dict String → Result Bool × Validator
outcome_read env rule stdout v output =
    let v' = report_outcome env rule output stdout v in
    with_ok (save_if env output v') v' (λ v''. save_event env rule output (announce_event v''))

-- What follows a run with the code 0. The flag tells whether the result is "passed".
unfoldable pub record_outcome : Environment → Rule → String → Validator → Result Bool × Validator
record_outcome env rule stdout v =
    with_ok (env.literal_eval stdout) v (outcome_read env rule stdout v)

abbrev pub after_run : Environment → Rule → Validator → Triple → Result Bool × Validator
after_run env rule v t = if is_zero t.retcode then record_outcome env rule t.std_out v else (
  ok false,
  print_err
      ("Command "
        <> rule.description
        <> " failed with exit status "
        <> show_code t.retcode
        <> "; stderr: "
        <> t.std_error)
      v,
)

abbrev pub run_prepared :
    Environment → Rule → Validator → String × List String → Result Bool × Validator
run_prepared env rule v (text, args) =
    let v' = print ("Running " <> rule.description) v in
    with_ok (env.run rule.script_type text args) v' (after_run env rule v')

-- `_execute_rule_command`
unfoldable pub execute_rule_command : Environment → Rule → Validator → Result Bool × Validator
execute_rule_command env rule v = with_ok (prepare env v rule) v (run_prepared env rule v)
