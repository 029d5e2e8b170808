-- ===== src/Validator/Identity.antt =====
-- clientScripts/validate_file.py: the run of a rule leaves the file that a validator is about.
use ccp.Prelude.{
  ◌<>◌, String, Bool, true, false, Option, none, some, List, ◌≡◌, refl, arith, Bool-cases, inl, inr,
  str_eq, if◌then◌else◌, ◌||◌,
}
use ccp.Prelude.Dict.{Dict, lookup}
use ccp.Prelude.Int.{is_zero}
use ccp.Prelude.Paths.{basename, join_path}
use ccp.Prelude.Raise.{Result, ok, raised, ◌>>=◌}
use ccp.ExecuteOrRun.{Triple}
use ccp.Validator.{Rule, Environment, Validator, Get, found, missing, failing, print}
use ccp.Validator.Directories.{
  find_logs, get_sip_logs_dir, pres_val_in, get_sip_pres_val_dir, write_stdout, save_stdout,
  save_stdout_to_logs_dir, is_truthy, prepare,
}
use ccp.Validator.Command.{
  with_ok, report_outcome, save_if, save_event, announce_event, outcome_read, record_outcome,
  after_run, run_prepared, execute_rule_command,
}

-- The same file of the same SIP.
abbrev pub Same : Validator → Validator → Type 0
Same v w = (w.file_path ≡ v.file_path) × (w.file_uuid ≡ v.file_uuid) × (w.sip_uuid ≡ v.sip_uuid)

abbrev SameIfOk : Validator → Result Validator → Type 0
SameIfOk v (raised e) = Unit
SameIfOk v (ok w) = Same v w

abbrev SameWithPath : Validator → Result (Option String × Validator) → Type 0
SameWithPath v (raised e) = Unit
SameWithPath v (ok (p, w)) = Same v w

module _ (env : Environment) where
  find_logs-Same : (v : Validator) (g : Get String) → SameWithPath v (find_logs env v g)
  find_logs-Same v (found path) = ground arith
  find_logs-Same v missing = (refl, refl, refl)
  find_logs-Same v (failing e) = tt

  logs_dir-Same : (v : Validator) → SameWithPath v (get_sip_logs_dir env v)
  unfolding get_sip_logs_dir
  logs_dir-Same v = elim (Bool-cases (is_truthy v.sip_logs_dir)) [
    | inl e ↦ rw e (refl, refl, refl)
    | inr e ↦ rw e (find_logs-Same v (env.current_path v.sip_uuid))
  ]

  pres_val_in-Same :
      (v : Validator) (r : Result (Option String × Validator))
      → SameWithPath v r
      → SameWithPath v (r >>= (λ found_logs. ok (pres_val_in env found_logs)))
  pres_val_in-Same v (raised e) h = tt
  pres_val_in-Same v (ok (none, w)) h = h
  pres_val_in-Same v (ok (some dir, w)) h = ground (arith, h)

  pres_val_dir-Same : (v : Validator) → SameWithPath v (get_sip_pres_val_dir env v)
  unfolding get_sip_pres_val_dir
  pres_val_dir-Same v = elim (Bool-cases (is_truthy v.sip_pres_val_dir)) [
    | inl e ↦ rw e (refl, refl, refl)
    | inr e ↦ rw e (pres_val_in-Same v (get_sip_logs_dir env v) (logs_dir-Same v))
  ]

  written-Same :
      (v w : Validator) (stdout path : String) (r : Result (Unit {0}))
      → Same v w
      → SameIfOk v
          (r >>= (λ _. ok (record w { files = ccp.Prelude.Dict.insert path stdout w.files })))
  written-Same v w stdout path (raised e) h = tt
  written-Same v w stdout path (ok u) h = h

  write_stdout-Same :
      (v : Validator) (stdout : String) (r : Result (Option String × Validator))
      → SameWithPath v r
      → SameIfOk v (r >>= (λ dir. write_stdout env stdout dir))
  write_stdout-Same v stdout (raised e) h = tt
  write_stdout-Same v stdout (ok (none, w)) h = h
  write_stdout-Same v stdout (ok (some dir, w)) h =
      let path = join_path dir (basename w.file_path <> ".xml") in
      written-Same v w stdout path (env.write path stdout) h

  save_stdout-Same :
      (v : Validator) (stdout : Option String) → SameIfOk v (save_stdout env stdout v)
  save_stdout-Same v none = (refl, refl, refl)
  save_stdout-Same v (some stdout) = elim (Bool-cases (str_eq stdout "")) [
    | inl e ↦ rw e (refl, refl, refl)
    | inr e ↦ rw e (write_stdout-Same v stdout (get_sip_pres_val_dir env v) (pres_val_dir-Same v))
  ]

  save_if-Same : (output : Dict String) (v : Validator) → SameIfOk v (save_if env output v)
  unfolding save_stdout_to_logs_dir
  save_if-Same output v = elim (Bool-cases (str_eq v.file_type "preservation")) [
    | inl e ↦ rw e (save_stdout-Same v (lookup "stdout" output))
    | inr e ↦ rw e (refl, refl, refl)
  ]

  report-Same :
      (rule : Rule) (output : Dict String) (stdout : String) (v : Validator)
      → Same v (report_outcome env rule output stdout v)
  unfolding report_outcome
  report-Same rule output stdout v = ground arith

  saved-Same :
      (rule : Rule) (output : Dict String) (v w : Validator) (r : Result Validator)
      → Same v w
      → SameIfOk w r
      → Same v (with_ok r w (λ u. save_event env rule output (announce_event u))).1
  saved-Same rule output v w (raised e) h k = h
  saved-Same rule output v w (ok u) h k = ground (arith, h, k)

  read-Same :
      (rule : Rule) (stdout : String) (v : Validator) (r : Result (Dict String))
      → Same v (with_ok r v (outcome_read env rule stdout v)).1
  read-Same rule stdout v (raised e) = (refl, refl, refl)
  read-Same rule stdout v (ok output) =
      let w = report_outcome env rule output stdout v in
      saved-Same rule output v w (save_if env output w) (report-Same rule output stdout v)
        (save_if-Same output w)

  ran-Same :
      (rule : Rule) (v w : Validator) (r : Result Triple)
      → Same v w
      → Same v (with_ok r w (after_run env rule w)).1
  unfolding record_outcome
  ran-Same rule v w (raised e) h = h
  ran-Same rule v w (ok t) h = elim (Bool-cases (is_zero t.retcode)) [
    | inl e ↦
        rw e
          (let k = read-Same rule t.std_out w (env.literal_eval t.std_out) in ground (arith, h, k))
    | inr e ↦ rw e h
  ]

  -- Whatever becomes of a rule, the validator is about the same file afterwards.
  pub execute_rule_command-Same :
      (rule : Rule) (v : Validator) → Same v (execute_rule_command env rule v).1
  unfolding execute_rule_command
  execute_rule_command-Same rule v = prepared (prepare env v rule)
    where
      prepared :
          (r : Result (String × List String)) → Same v (with_ok r v (run_prepared env rule v)).1
      prepared (raised e) = (refl, refl, refl)
      prepared (ok (text, args)) =
          ran-Same rule v (print ("Running " <> rule.description) v)
            (env.run rule.script_type text args) (refl, refl, refl)
