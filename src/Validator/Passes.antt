-- ===== src/Validator/Passes.antt =====
-- clientScripts/validate_file.py: when the run of a rule passes, and when all rules do.
use ccp.Prelude.{
  ◌≡◌, refl, ap, sym, ◌∙◌, ◌<>◌, String, Bool, true, false, Option, none, some, List, [], ◌∷◌, ◌&&◌,
  ◌||◌, str_eq, all, if◌then◌else◌, arith, inl, inr, Bool-cases,
}
use ccp.Prelude.Int.{ℤ, is_zero}
use ccp.Prelude.Dict.{Dict, lookup}
use ccp.Prelude.Raise.{Result, ok, raised, ◌>>=◌}
use ccp.ExecuteOrRun.{Triple}
use ccp.ReplacementDict.{FileRow, UnitRow, of_file, replace_string_values}
use ccp.Validator.{Environment, Rule, Validator, print}
use ccp.Validator.Identity.{Same, execute_rule_command-Same}
use ccp.Validator.Directories.{prepare, is_templated}
use ccp.Validator.Command.{
  with_ok, is_accepted, record_outcome, after_run, run_prepared, execute_rule_command,
  report_outcome, save_if, save_event, announce_event, event_of, added, outcome_read,
}
use ccp.Validator.Validate.{execute_rules, then_rules, state_of}

-- The verdict of an output, if it can be read: its outcome is "pass" or "partial pass".
abbrev is_pass : Option String → Bool
is_pass none = false
is_pass (some outcome) = str_eq outcome "pass" || str_eq outcome "partial pass"

abbrev accepts : Result (Dict String) → Bool
accepts (ok output) = is_pass (lookup "eventOutcomeInformation" output)
accepts (raised e) = false

-- A run passes if its code is 0 and its output says "pass" or "partial pass".
abbrev triple_passes : Environment → Result Triple → Bool
triple_passes env (ok t) = is_zero t.retcode && accepts (env.literal_eval t.std_out)
triple_passes env (raised e) = false

-- A shell command is run with the values of the file and of the SIP in its text, any other with the
-- path of the file as its argument.
abbrev without_arguments : Result String → Result (String × List String)
without_arguments (raised e) = raised e
without_arguments (ok text) = ok (text, [])

abbrev filled_in :
    Environment → Rule → Result FileRow → Result UnitRow → Result (String × List String)
filled_in env rule (raised e) sip = raised e
filled_in env rule (ok row) (raised e) = raised e
filled_in env rule (ok row) (ok sip) =
    without_arguments (replace_string_values env.config of_file (some sip) (some row) rule.command)

abbrev command_of : Environment → Validator → Rule → Result (String × List String)
command_of env v rule =
    if str_eq rule.script_type "bashScript" || str_eq rule.script_type "command"
    then filled_in env rule (env.file_row v.file_uuid) (env.sip_row v.sip_uuid)
    else ok (rule.command, v.file_path ∷ [])

abbrev prepared_passes : Environment → Rule → Result (String × List String) → Bool
prepared_passes env rule (ok (text, args)) = triple_passes env (env.run rule.script_type text args)
prepared_passes env rule (raised e) = false

abbrev pub rule_passes : Environment → Validator → Rule → Bool
rule_passes env v rule = prepared_passes env rule (command_of env v rule)

is_accepted-is_pass :
    (output : Dict String) → is_accepted output ≡ is_pass (lookup "eventOutcomeInformation" output)
is_accepted-is_pass output = ground arith

prepare-command_of :
    (env : Environment) (v : Validator) (rule : Rule) → prepare env v rule ≡ command_of env v rule
unfolding prepare
prepare-command_of env v rule = elim (Bool-cases (is_templated rule.script_type)) [
  | inl e ↦ rw e (filled (env.file_row v.file_uuid) (env.sip_row v.sip_uuid))
  | inr e ↦ rw e refl
]
  where
    texts :
        (t : Result String)
        → ◌≡◌ {A = Result (String × List String)}
            (t >>= (λ text. ok (text, [])))
            (without_arguments t)
    texts (raised e) = refl
    texts (ok text) = refl

    filled :
        (row : Result FileRow) (sip : Result UnitRow)
        → ◌≡◌ {A = Result (String × List String)}
            (row >>= (λ row. sip >>= (λ sip.
              replace_string_values env.config of_file (some sip) (some row) rule.command
              >>= (λ text. ok (text, [])))))
            (filled_in env rule row sip)
    filled (raised e) sip = refl
    filled (ok row) (raised e) = refl
    filled (ok row) (ok sip) =
        texts (replace_string_values env.config of_file (some sip) (some row) rule.command)

pub ok-inj {ℓ} : {A : Type ℓ} {a b : A} → ◌≡◌ {A = Result A} (ok a) (ok b) → a ≡ b
ok-inj e = cc

with_ok-ok {ℓ} :
    {A : Type ℓ} (r : Result A) (v : Validator) (go : A → Result Bool × Validator) (b b' : Bool)
    → ((a : A) → r ≡ ok a → (go a).0 ≡ ok b → b ≡ b')
    → (with_ok r v go).0 ≡ ok b
    → b ≡ b'
with_ok-ok (raised e) v go b b' means h = absurd (ground arith)
with_ok-ok (ok a) v go b b' means h = means a refl h

record_outcome-passed :
    (env : Environment) (rule : Rule) (stdout : String) (v : Validator) (b : Bool)
    → (record_outcome env rule stdout v).0 ≡ ok b
    → b ≡ accepts (env.literal_eval stdout)
unfolding record_outcome
record_outcome-passed env rule stdout v b =
    with_ok-ok (env.literal_eval stdout) v (outcome_read env rule stdout v) b
      (accepts (env.literal_eval stdout))
      (λ output read.
        let v' = report_outcome env rule output stdout v in
        with_ok-ok (save_if env output v') v' (λ w. save_event env rule output (announce_event w)) b
          (accepts (env.literal_eval stdout))
          (λ w saved.
            with_ok-ok (env.save_event (event_of rule output (announce_event w))) (announce_event w)
              (λ _. (ok (is_accepted output), added rule output (announce_event w))) b
              (accepts (env.literal_eval stdout))
              (λ u done h. same b output (env.literal_eval stdout) read h)))
  where
    same :
        (b : Bool) (output : Dict String) (r : Result (Dict String))
        → r ≡ ok output
        → ◌≡◌ {A = Result Bool} (ok (is_accepted output)) (ok b)
        → b ≡ accepts r
    same b output (ok output') e h =
        sym (ok-inj h)
        ∙ is_accepted-is_pass output
        ∙ ap (λ o. is_pass (lookup "eventOutcomeInformation" o)) (sym (ok-inj e))
    same b output (raised x) e h = absurd (ground arith)

after_run-passed :
    (env : Environment) (rule : Rule) (t : Triple) (v : Validator) (b : Bool)
    → (after_run env rule v t).0 ≡ ok b
    → b ≡ (is_zero t.retcode && accepts (env.literal_eval t.std_out))
after_run-passed env rule t v b h = elim (Bool-cases (is_zero t.retcode)) [
  | inl e ↦ ground (arith, record_outcome-passed env rule t.std_out v b)
  | inr e ↦ ground arith
]

execute_rule_command-passed :
    (env : Environment) (rule : Rule) (v : Validator) (b : Bool)
    → (execute_rule_command env rule v).0 ≡ ok b
    → b ≡ rule_passes env v rule
unfolding execute_rule_command
execute_rule_command-passed env rule v b h =
    prepared (prepare env v rule) h ∙ ap (prepared_passes env rule) (prepare-command_of env v rule)
  where
    announced : Validator
    announced = print ("Running " <> rule.description) v

    ran :
        (r : Result Triple)
        → (with_ok r announced (after_run env rule announced)).0 ≡ ok b
        → b ≡ triple_passes env r
    ran (ok t) h = after_run-passed env rule t announced b h
    ran (raised e) h = absurd (ground arith)

    prepared :
        (r : Result (String × List String))
        → (with_ok r v (run_prepared env rule v)).0 ≡ ok b
        → b ≡ prepared_passes env rule r
    prepared (ok (text, args)) h = ran (env.run rule.script_type text args) h
    prepared (raised e) h = absurd (ground arith)

-- A rule's verdict depends on the file alone.
rule_passes-Same :
    (env : Environment) (v w : Validator) (rule : Rule)
    → Same v w
    → rule_passes env w rule ≡ rule_passes env v rule
rule_passes-Same env v w rule h =
    ap (λ p. prepared_passes env rule (shell_or_path p w.file_uuid w.sip_uuid)) h.0
    ∙ ap (λ u. prepared_passes env rule (shell_or_path v.file_path u w.sip_uuid)) h.1
    ∙ ap (λ u. prepared_passes env rule (shell_or_path v.file_path v.file_uuid u)) h.2
  where
    shell_or_path : String → String → String → Result (String × List String)
    shell_or_path path file sip =
        if str_eq rule.script_type "bashScript" || str_eq rule.script_type "command"
        then filled_in env rule (env.file_row file) (env.sip_row sip)
        else ok (rule.command, path ∷ [])

all_pass-Same :
    (env : Environment) (v w : Validator) (rules : List Rule)
    → Same v w
    → all (rule_passes env w) rules ≡ all (rule_passes env v) rules
all_pass-Same env v w [] h = refl
all_pass-Same env v w (rule ∷ rules) h =
    ap (λ b. b && all (rule_passes env w) rules) (rule_passes-Same env v w rule h)
    ∙ ap (λ b. rule_passes env v rule && b) (all_pass-Same env v w rules h)

then_rules-code :
    (r : Result Bool × Validator) (rest : Result ℤ × Validator) (passed more : Bool) (code : ℤ)
    → ((b : Bool) → r.0 ≡ ok b → b ≡ passed)
    → (rest.0 ≡ ok code → is_zero code ≡ more)
    → (then_rules r rest).0 ≡ ok code
    → is_zero code ≡ (passed && more)
then_rules-code (raised e, v) rest passed more code first others h = absurd (ground arith)
then_rules-code (ok true, v) rest passed more code first others h =
    others h ∙ ap (λ b. b && more) (first true refl)
then_rules-code (ok false, v) rest passed more code first others h =
    ap is_zero (sym (ok-inj h)) ∙ ap (λ b. b && more) (first false refl)

-- If no exception ends the loop over the rules, its code is 0 exactly if every rule's command leaves
-- the code 0 with an output that says "pass" or "partial pass".
pub execute_rules_iff-all_pass :
    (env : Environment) (rules : List Rule) (v : Validator) (code : ℤ)
    → (execute_rules env rules v).0 ≡ ok code
    → is_zero code ≡ all (rule_passes env v) rules
unfolding execute_rules
execute_rules_iff-all_pass env [] v code h = ap is_zero (sym (ok-inj h))
execute_rules_iff-all_pass env (rule ∷ rules) v code h =
    let first = execute_rule_command env rule v in
    then_rules-code first (execute_rules env rules (state_of first)) (rule_passes env v rule)
      (all (rule_passes env v) rules) code (execute_rule_command-passed env rule v)
      (λ h.
        execute_rules_iff-all_pass env rules (state_of first) code h
        ∙ all_pass-Same env v (state_of first) rules (execute_rule_command-Same env rule v))
      h
