-- ===== src/Characterize/Done.antt =====
-- clientScripts/characterize_file.py: the outputs that are kept after a code of 0.
use ccp.Prelude.{
  String, Bool, true, false, Option, none, some, List, [], ◌∷◌, ◌++◌, str_eq, if◌then◌else◌, ◌||◌,
  ◌≡◌, refl, sym, ap, ◌∙◌, arith, Bool-cases, inl, inr,
}
use mathlib.Core.List.{append_assoc, append-nil}
use ccp.Prelude.Int.{pos, is_zero}
use ccp.Prelude.Raise.{Exception, Result, ok, raised}
use ccp.Prelude.Script.{Script, ◌>>=◌, continue, check, modify, pure}
use ccp.Job.{write_output, write_error}
use ccp.ExecuteOrRun.{Triple}
use ccp.ReplacementDict.{FileRow, UnitRow}
use ccp.Rows.{World, FpCommandOutput, output_row, add_row, create}
use ccp.Database.{insert_into_fp_command_output}
use ccp.FileOperations.{in_job, on_disk}
use ccp.Characterize.{
  Rule, Characterizer, writes_xml, rules_of, words_of, arguments_of, save_xml, record_output,
  run_rule, run_rules, reported, saved_text, is_characterized, code_of, main,
}

abbrev is_xml_format : Option String → Bool
is_xml_format none = false
is_xml_format (some puid) = str_eq puid "fmt/101"

-- The row that a rule leaves, if it writes XML and its command printed the content.
abbrev pub kept : String → Rule → Option String → List FpCommandOutput
kept file rule none = []
kept file rule (some content) =
    if is_xml_format rule.output_pronom
    then record { file = file; content = content; rule = rule.uuid } ∷ []
    else []

abbrev text_of_run : Result Triple → Option String
text_of_run (raised e) = none
text_of_run (ok t) = some t.std_out

module _ {D : Type 0} where
  -- What a rule's command prints on a disk.
  abbrev pub printed : Characterizer D → Rule → Result (String × List String) → D → Option String
  printed env rule (raised e) d = none
  printed env rule (ok words) d =
      text_of_run (env.execute_or_run rule.script_type words.0 words.1 d).0

  -- The rows of all rules, each run on what the rules before it leave.
  unfoldable pub kept_outputs :
      Characterizer D → String → String → List Rule → World D → List FpCommandOutput
  kept_outputs env file sip [] w = []
  kept_outputs env file sip (rule ∷ rules) w =
      kept file rule (printed env rule (arguments_of env file sip rule w).0 w.disk)
      ++ kept_outputs env file sip rules (run_rule env file sip rule w).1

or_false : (a b : Bool) → (a || b) ≡ false → (a ≡ false) × (b ≡ false)
or_false a b h = (ground arith, ground arith)

module _ {D : Type 0} (env : Characterizer D) (file sip : String) where
  abbrev row_of : String → Rule → FpCommandOutput
  row_of stdout rule = record { file = file; content = stdout; rule = rule.uuid }

  abbrev add_and_report : World D → String → Rule → Option Exception → Result Bool × World D
  add_and_report w stdout rule answer =
      continue (continue (check answer w) (λ _. modify (add_row (output_row (row_of stdout rule)))))
        (λ _. reported (write_output (saved_text rule)) false)

  inserted :
      (w : World D) (stdout : String) (rule : Rule) (answer : Option Exception)
      → (add_and_report w stdout rule answer).0 ≡ ok false
      → (add_and_report w stdout rule answer).1.outputs ≡ w.outputs ++ (row_of stdout rule ∷ [])
  unfolding reported
  inserted w stdout rule none h = refl
  inserted w stdout rule (some e) h = absurd (ground arith)

  saved-outputs :
      (rule : Rule) (stdout : String) (w : World D)
      → (save_xml env file rule stdout w).0 ≡ ok false
      → (save_xml env file rule stdout w).1.outputs ≡ w.outputs ++ (row_of stdout rule ∷ [])
  unfolding reported insert_into_fp_command_output create
  saved-outputs rule stdout w = elim (Bool-cases (env.is_xml stdout)) [
    | inl e ↦ rw e (inserted w stdout rule (env.site.refuses w (output_row (row_of stdout rule))))
    | inr e ↦ rw e (λ h. absurd (ground (arith, h)))
  ]

  recorded-outputs :
      (rule : Rule) (t : Triple) (w : World D)
      → (record_output env file rule t w).0 ≡ ok false
      → (record_output env file rule t w).1.outputs ≡ w.outputs ++ kept file rule (some t.std_out)
  unfolding record_output reported
  recorded-outputs rule t w = elim (Bool-cases (is_zero t.retcode)) [
    | inr z ↦ rw z (λ h. absurd (ground (arith, h)))
    | inl z ↦ elim (Bool-cases (writes_xml rule)) [
      | inl x ↦ rw z (rw x (saved-outputs rule t.std_out w))
      | inr x ↦ rw z (rw x (λ h. sym (append-nil w.outputs)))
    ]
  ]

  ran-outputs :
      (rule : Rule) (r : Result Triple) (d : D) (w : World D)
      → let after : Result Bool × World D =
          continue
            (r, record w { disk = d })
            (λ t. in_job (write_output t.std_out) >>= (λ _.
              in_job (write_error t.std_error) >>= (λ _. record_output env file rule t))) in
        after.0 ≡ ok false → after.1.outputs ≡ w.outputs ++ kept file rule (text_of_run r)
  ran-outputs rule (raised e) d w h = absurd (ground (arith, h))
  ran-outputs rule (ok t) d w h = recorded-outputs rule t _ h

  arguments_of-same : (rule : Rule) (w : World D) → (arguments_of env file sip rule w).1 ≡ w
  unfolding arguments_of
  arguments_of-same rule w = looked_up (env.file_model w file) (env.sip_model w sip)
    where
      looked_up :
          (f : Result FileRow) (s : Result UnitRow)
          → (continue {B = String × List String}
              (f, w)
              (λ f v.
                continue {B = String × List String}
                  (s, v)
                  (λ s v. (words_of env.config f s rule, v)))).1
            ≡ w
      looked_up (raised e) s = refl
      looked_up (ok f) (raised e) = refl
      looked_up (ok f) (ok s) = refl

  rule-outputs :
      (rule : Rule) (w : World D)
      → (run_rule env file sip rule w).0 ≡ ok false
      → (run_rule env file sip rule w).1.outputs
        ≡ w.outputs ++ kept file rule (printed env rule (arguments_of env file sip rule w).0 w.disk)
  unfolding run_rule
  rule-outputs rule w h =
      prepared (arguments_of env file sip rule w) h
      ∙ ap
          (λ v.
            v.outputs
            ++ kept file rule (printed env rule (arguments_of env file sip rule w).0 v.disk))
          (arguments_of-same rule w)
    where
      run_it : String × List String → Script (World D) Bool
      run_it words = do
        t ← on_disk (env.execute_or_run rule.script_type words.0 words.1)
        _ ← in_job (write_output t.std_out)
        _ ← in_job (write_error t.std_error)
        record_output env file rule t

      prepared :
          (o : Result (String × List String) × World D)
          → (continue o run_it).0 ≡ ok false
          → (continue o run_it).1.outputs
            ≡ o.1.outputs ++ kept file rule (printed env rule o.0 o.1.disk)
      prepared (raised e, v) h = absurd (ground (arith, h))
      prepared (ok words, v) h =
          let out = env.execute_or_run rule.script_type words.0 words.1 v.disk in
          ran-outputs rule out.0 out.1 v h

  -- The loop returns false only if it began so, and adds the rows of all rules then.
  rules-outputs :
      (rules : List Rule) (failed : Bool) (w : World D)
      → (run_rules env file sip rules failed w).0 ≡ ok false
      → (failed ≡ false)
        × ((run_rules env file sip rules failed w).1.outputs
            ≡ w.outputs ++ kept_outputs env file sip rules w)
  unfolding run_rules kept_outputs
  rules-outputs [] failed w = λ h. (ground (arith, h), sym (append-nil w.outputs))
  rules-outputs (rule ∷ rules) failed w =
      after (run_rule env file sip rule w) (rule-outputs rule w)
        (λ b v. rules-outputs rules (failed || b) v)
    where
      rest : Bool → Script (World D) Bool
      rest b = run_rules env file sip rules (failed || b)

      first : List FpCommandOutput
      first = kept file rule (printed env rule (arguments_of env file sip rule w).0 w.disk)

      after :
          (o : Result Bool × World D)
          → (o.0 ≡ ok false → o.1.outputs ≡ w.outputs ++ first)
          → ((b : Bool) (v : World D)
              → (rest b v).0 ≡ ok false
              → ((failed || b) ≡ false)
                × ((rest b v).1.outputs ≡ v.outputs ++ kept_outputs env file sip rules v))
          → (continue o rest).0 ≡ ok false
          → (failed ≡ false)
            × ((continue o rest).1.outputs
                ≡ w.outputs ++ (first ++ kept_outputs env file sip rules o.1))
      after (raised e, v) f again h = absurd (ground (arith, h))
      after (ok b, v) f again h =
          let later = again b v h in
          let more = kept_outputs env file sip rules v in
          let none_failed = or_false failed b later.0 in
          (
            none_failed.0,
            later.1
                ∙ ap (λ r. r ++ more) (f (ap (λ x. ok x) none_failed.1))
                ∙ append_assoc w.outputs first more,
          )

  -- If the characterization of a file that had no output returns 0, the outputs that it adds are
  -- what the commands printed whose rules write XML, in the order of the rules, and no others.
  pub main-done :
      (w : World D) {rules : List Rule}
      → is_characterized file w ≡ false
      → rules_of env (env.format_of w file) ≡ ok rules
      → (main env file sip w).0 ≡ ok (pos 0)
      → (main env file sip w).1.outputs ≡ w.outputs ++ kept_outputs env file sip rules w
  unfolding main
  main-done w {rules} c r =
      rw c (
        rw r (λ h. finished (run_rules env file sip rules false w) (rules-outputs rules false w) h))
    where
      finished :
          (o : Result Bool × World D)
          → (o.0 ≡ ok false
              → (false ≡ false) × (o.1.outputs ≡ w.outputs ++ kept_outputs env file sip rules w))
          → (continue o (λ failed. pure (code_of failed))).0 ≡ ok (pos 0)
          → (continue o (λ failed. pure (code_of failed))).1.outputs
            ≡ w.outputs ++ kept_outputs env file sip rules w
      finished (raised e, v) f h = absurd (ground (arith, h))
      finished (ok true, v) f h = absurd (ground (arith, h))
      finished (ok false, v) f h = (f refl).1
