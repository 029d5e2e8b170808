-- ===== src/Validator/Validate.antt =====
-- clientScripts/validate_file.py: the loop over the rules, and the jobs.
use ccp.Prelude.{
  ◌<>◌, String, Bool, true, false, none, some, List, [], ◌∷◌, not, ◌||◌, str_eq, if◌then◌else◌,
}
use ccp.Prelude.Int.{ℤ, pos}
use ccp.Prelude.Dict.{Dict}
use ccp.Prelude.Raise.{exception, Result, ok, raised, ◌>>=◌}
use ccp.Job.{Job, set_status, success}
use ccp.Job.Context.{on_exception}
use ccp.Validator.{
  Rule, ValidationEvent, Environment, Validator, print, file_is_derivative, get_rules,
}
use ccp.Validator.Command.{execute_rule_command}

abbrev pub fail_code : ℤ
fail_code = pos 1

abbrev pub success_code : ℤ
success_code = pos 0

abbrev pub then_rules : Result Bool × Validator → Result ℤ × Validator → Result ℤ × Validator
then_rules (raised e, v) rest = (raised e, v)
then_rules (ok passed, v) rest = if passed then rest else (ok fail_code, v)

abbrev pub state_of : Result Bool × Validator → Validator
state_of (r, v) = v

-- The loop of `validate`: the first rule that fails ends it, and so does an exception.
unfoldable pub execute_rules : Environment → List Rule → Validator → Result ℤ × Validator
execute_rules env [] v = (ok success_code, v)
execute_rules env (rule ∷ rules) v =
    let first = execute_rule_command env rule v in
    then_rules first (execute_rules env rules (state_of first))

abbrev is_derivative_type : String → Bool
is_derivative_type type = str_eq type "preservation" || str_eq type "access"

abbrev not_derivative_msg : String → String
not_derivative_msg type =
    if str_eq type "preservation"
    then "is not a preservation derivative"
    else "is not an access derivative"

abbrev pub no_rules_code : ℤ
no_rules_code = pos 0

abbrev pub validate_with : Environment → Result (List Rule) → Validator → Result ℤ × Validator
validate_with env (raised e) v = (raised e, v)
validate_with env (ok []) v = (ok no_rules_code, v)
validate_with env (ok (r ∷ rs)) v = execute_rules env (r ∷ rs) v

-- Whether the file's type asks for a derivative and the file is none.
unfoldable pub is_skipped : Environment → String → String → Result Bool
is_skipped env file_type file_uuid =
    if is_derivative_type file_type
    then file_is_derivative env file_type file_uuid >>= (λ is_derivative. ok (not is_derivative))
    else ok false

abbrev pub validate_unless : Environment → Result Bool → Validator → Result ℤ × Validator
validate_unless env (raised e) v = (raised e, v)
validate_unless env (ok true) v = (
  ok (pos 0),
  print ("File " <> v.file_uuid <> " " <> not_derivative_msg v.file_type <> "; not validating.") v,
)
validate_unless env (ok false) v = validate_with env (get_rules env v.file_uuid) v

-- `validate`
unfoldable pub validate : Environment → Validator → Result ℤ × Validator
validate env v = validate_unless env (is_skipped env v.file_type v.file_uuid) v

abbrev new_validator : Job → Dict String → String → String → String → String → String → Validator
new_validator job files file_path file_uuid sip_uuid shared_path file_type = record {
  job = job;
  file_path = file_path;
  file_uuid = file_uuid;
  sip_uuid = sip_uuid;
  shared_path = shared_path;
  file_type = file_type;
  sip_logs_dir = none;
  sip_pres_val_dir = none;
  events = [];
  files = files;
}

-- The arguments after the script's name; a shared path and a type that are not given have defaults.
abbrev shared_path_of : List String → String
shared_path_of [] = ""
shared_path_of (shared_path ∷ rest) = shared_path

abbrev file_type_of : List String → String
file_type_of (shared_path ∷ file_type ∷ rest) = file_type
file_type_of rest = "original"

abbrev finish : Result ℤ → Job → Job
finish (ok code) job = set_status code success job
finish (raised e) job = on_exception (some e) job

-- One round of the loop of `call`: the job, the events and the files that it leaves.
unfoldable pub call_job : Environment → Job → Dict String → Job × List ValidationEvent × Dict String
call_job env job files = elim job.args [
  | name ∷ more ↦ elim more [
    | file_path ∷ more' ↦ elim more' [
      | file_uuid ∷ more'' ↦ elim more'' [
        | sip_uuid ∷ rest ↦
            let (result, v) = validate env (
              new_validator job files file_path file_uuid sip_uuid (shared_path_of rest)
                (file_type_of rest)) in
            (finish result v.job, v.events, v.files)
        | [] ↦ (finish (raised (exception "list index out of range")) job, [], files)
      ]
      | [] ↦ (finish (raised (exception "list index out of range")) job, [], files)
    ]
    | [] ↦ (finish (raised (exception "list index out of range")) job, [], files)
  ]
  | [] ↦ (finish (raised (exception "list index out of range")) job, [], files)
]
