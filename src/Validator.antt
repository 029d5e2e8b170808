-- ===== src/Validator.antt =====
-- clientScripts/validate_file.py: the rules of the format policy registry that validate a file. The
-- rows of the database, the file system, the commands' processes and Python's reader of literals
-- enter as the fields of `Environment`; a validator's fields are those of the record `Validator`.
pub mod Directories
pub mod Command
pub mod Validate
pub mod Identity
pub mod Passes
pub mod Verdict
use ccp.Prelude.{
  ℕ, zero, suc, ◌<>◌, String, Bool, true, false, Option, none, some, List, [], ◌∷◌, ◌++◌, not, ◌&&◌,
  ◌||◌, str_eq, if◌then◌else◌,
}
use ccp.Prelude.Int.{ℤ, pos, negsuc, is_zero}
use ccp.Prelude.Decimal.{show}
use ccp.Prelude.Dict.{Dict, lookup, insert}
use ccp.Prelude.Text.{replace_first}
use ccp.Prelude.Paths.{basename, join_path}
use ccp.Prelude.Raise.{Exception, exception, Result, ok, raised, ◌>>=◌}
use ccp.Job.{Job, print_output, print_error, write_error, set_status, success}
use ccp.Job.Context.{on_exception}
use ccp.ReplacementDict.{Config, of_file, UnitRow, FileRow, replace_string_values}
use ccp.ExecuteOrRun.{Triple}

-- `objects.get(...)`: a row; an exception that the code names (no such row, an identifier that is not
-- valid); or another exception.
pub data Get {ℓ} (A : Type ℓ) : Type ℓ where
  found : A → Get A
  missing : Get A
  failing : Exception → Get A

-- A rule's command and its tool.
pub record Rule : Type 0 where
  pub description : String
  pub command : String
  pub script_type : String
  pub tool_description : String
  pub tool_version : String

-- What `insertIntoEvents` is given; a key that the output does not have is None.
pub record ValidationEvent : Type 0 where
  pub file_uuid : String
  pub event_detail : String
  pub event_outcome : Option String
  pub event_outcome_detail_note : Option String

pub record Environment : Type 0 where
  -- the derivation with a normalization event, the file's row by its group, the one with no event
  pub normalization_derivation : String → Get (Unit {0})
  pub file_group_use : String → Get String
  pub eventless_derivation : String → Get (Unit {0})
  -- the active format of the file, the rules of a format, the default rules
  pub format_of : String → Get String
  pub rules_for : String → List Rule
  pub default_rules : List Rule
  -- what `replace_string_values` looks up
  pub config : Config
  pub sip_row : String → Result UnitRow
  pub file_row : String → Result FileRow
  -- `executeOrRun`, `ast.literal_eval`, `pformat`, `insertIntoEvents`
  pub run : String → String → List String → Result Triple
  pub literal_eval : String → Result (Dict String)
  pub pformat : String → String
  pub save_event : ValidationEvent → Result (Unit {0})
  -- the SIP's `currentpath`; tests of and changes to the file system
  pub current_path : String → Get String
  pub isdir : String → Bool
  pub makedirs : String → Bool
  pub write : String → String → Result (Unit {0})

pub record Validator : Type 0 where
  pub job : Job
  pub file_path : String
  pub file_uuid : String
  pub sip_uuid : String
  pub shared_path : String
  pub file_type : String
  pub sip_logs_dir : Option String
  pub sip_pres_val_dir : Option String
  -- the events and the files that it has written
  pub events : List ValidationEvent
  pub files : Dict String

abbrev pub print : String → Validator → Validator
print s v = record v { job = print_output (s ∷ []) v.job }

abbrev pub print_err : String → Validator → Validator
print_err s v = record v { job = print_error (s ∷ []) v.job }

abbrev pub was_found : Get (Unit {0}) → Result Bool
was_found (found _) = ok true
was_found missing = ok false
was_found (failing e) = raised e

abbrev pub access_of : Get String → Get (Unit {0}) → Result Bool
access_of (found group) g = if str_eq group "access" then was_found g else ok false
access_of missing g = ok false
access_of (failing e) g = raised e

-- `_file_is_derivative`
unfoldable pub file_is_derivative : Environment → String → String → Result Bool
file_is_derivative env file_type file_uuid =
    if str_eq file_type "preservation"
    then was_found (env.normalization_derivation file_uuid)
    else access_of (env.file_group_use file_uuid) (env.eventless_derivation file_uuid)

abbrev pub or_default : Environment → List Rule → List Rule
or_default env [] = env.default_rules
or_default env (r ∷ rs) = r ∷ rs

abbrev pub rules_of : Environment → Get String → Result (List Rule)
rules_of env (found format) = ok (or_default env (env.rules_for format))
rules_of env missing = ok env.default_rules
rules_of env (failing e) = raised e

-- `_get_rules`
unfoldable pub get_rules : Environment → String → Result (List Rule)
get_rules env file_uuid = rules_of env (env.format_of file_uuid)
