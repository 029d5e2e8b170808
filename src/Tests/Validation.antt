-- ===== src/Tests/Validation.antt =====
-- clientScripts/validate_file.py on a file with two rules, the second of which fails.
use ccp.Prelude.{◌≡◌, refl, String, false, none, [], ◌∷◌, all}
use ccp.Prelude.Dict.{lookup}
use ccp.Prelude.Int.{pos, is_zero}
use ccp.Prelude.Raise.{ok, raised, exception}
use ccp.Validator.{Environment, Rule, Validator, found, missing, get_rules}
use ccp.Validator.Directories.{prepare}
use ccp.Validator.Command.{execute_rule_command, record_outcome, report_outcome}
use ccp.Validator.Validate.{validate, execute_rules, is_skipped}
use ccp.Validator.Passes.{rule_passes}
use ccp.Validator.Verdict.{applied, validate_iff-all_pass}
use ccp.Tests.Jobs.{job_a}

abbrev rule : String → Rule
rule verdict = record {
  description = "check";
  command = verdict;
  script_type = "pythonScript";
  tool_description = "tool";
  tool_version = "1";
}

-- A command prints its own text, which is read as the outcome.
abbrev env : Environment
env = record {
  normalization_derivation = λ u. missing;
  file_group_use = λ u. missing;
  eventless_derivation = λ u. missing;
  format_of = λ u. found "fmt";
  rules_for = λ f. rule "pass" ∷ rule "fail" ∷ [];
  default_rules = [];
  config = record {
    shared_directory = "/shared/";
    processing_directory = "/processing/";
    rejected_directory = "/rejected/";
    watch_directory = "/watch/";
    abspath = λ s. s;
  };
  sip_row = λ u. raised (exception "no SIP");
  file_row = λ u. raised (exception "no file");
  run = λ type text args. ok (record { retcode = pos 0; std_out = text; std_error = "" });
  literal_eval = λ s. ok (("eventOutcomeInformation", s) ∷ []);
  pformat = λ s. s;
  save_event = λ e. ok tt;
  current_path = λ u. missing;
  isdir = λ p. false;
  makedirs = λ p. false;
  write = λ p s. ok tt;
}

abbrev validator : Validator
validator = record {
  job = job_a;
  file_path = "/a.tif";
  file_uuid = "f";
  sip_uuid = "s";
  shared_path = "/shared/";
  file_type = "original";
  sip_logs_dir = none;
  sip_pres_val_dir = none;
  events = [];
  files = [];
}

validate-code : (validate env validator).0 ≡ ok (pos 1)
unfolding validate is_skipped get_rules execute_rules execute_rule_command prepare record_outcome
    report_outcome lookup
validate-code = refl

validate_iff-all_pass_example :
    is_zero (pos 1) ≡ all (rule_passes env validator) (applied env validator)
validate_iff-all_pass_example = validate_iff-all_pass env validator (pos 1) validate-code
