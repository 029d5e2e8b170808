-- ===== src/Transcoder/Success.antt =====
-- clientScripts/transcoder.py: when a command succeeds, what `on_success` sets, and the statistics.
use ccp.Prelude.{
  ◌+◌, ◌≡◌, refl, sym, ap, ◌∙◌, String, Bool, true, false, Option, none, some, List, [], ◌∷◌, ◌++◌,
  ◌&&◌, not, arith, if◌then◌else◌,
}
use ccp.Prelude.Int.{ℤ, is_zero}
use ccp.Prelude.Dict.{Dict}
use ccp.Prelude.Raise.{Exception, Result, ok, raised}
use ccp.Transcoder.{
  Details, Command, no_command, fp_command, is_present, Invocation, Outcome, Run, Session,
  OnSuccess, invocation, verified, called, conclude, state_of, then_detail, then_verify, execute,
  Rule, save_rule, link, init, with_outcome, started, reported, announce_verification,
  announce_event_detail, in_job, report_failure,
}

-- A process ran and left the code 0.
abbrev exited_zero : Result Outcome → Bool
exited_zero (ok o) = is_zero o.exit_code
exited_zero (raised x) = false

-- A command is accepted if its process leaves the code 0 and its verification command, if there is
-- one, is accepted after it.
unfoldable pub accepted : Run → Dict String → List Invocation → Command → Bool
accepted run rd trace no_command = true
accepted run rd trace (fp_command d v e) =
    exited_zero (run trace (invocation rd d)) && accepted run rd (trace ++ (invocation rd d ∷ [])) v

-- The code that `on_success` sets, if it is called, sets one and returns.
abbrev result_set : Result (Option ℤ) → Option ℤ
result_set (ok set) = set
result_set (raised x) = none

abbrev set_by : OnSuccess → Bool → Details → Result Outcome → Session → Option ℤ
set_by f true d r s = none
set_by f false d (raised x) s = none
set_by f false d (ok o) s = result_set (f (record { details = d; std_out = o.std_out }) s).0

-- `on_success` gets the command in the session that an execution without it leaves.
abbrev pub set_on_success :
    Run → Dict String → Option OnSuccess → Bool → Command → Session → Option ℤ
set_on_success run rd none skip c s = none
set_on_success run rd (some f) skip no_command s = none
set_on_success run rd (some f) skip (fp_command d v e) s =
    set_by f skip d (run s.trace (invocation rd d))
      (execute run rd none skip (fp_command d v e) s).1

-- Nothing is set, or the code 0.
abbrev pub leaves_zero : Option ℤ → Bool
leaves_zero none = true
leaves_zero (some code) = is_zero code

abbrev set_of : Option OnSuccess → Bool → Details → Result Outcome → Session → Option ℤ
set_of none skip d r s = none
set_of (some f) skip d r s = set_by f skip d r s

called_zero :
    (c : ℤ) (r : Result (Option ℤ) × Session) (code : ℤ)
    → is_zero c ≡ true
    → (called c r).0 ≡ ok code
    → is_zero code ≡ leaves_zero (result_set r.0)
called_zero c (ok none, s) code z h = ground (arith, z)
called_zero c (ok (some set), s) code z h = ground arith
called_zero c (raised x, s) code z h = absurd (ground arith)

conclude_zero :
    (f : Option OnSuccess) (skip : Bool) (d : Details) (o : Outcome) (r : Result ℤ × Session)
    (code : ℤ) (acc : Bool)
    → ((c : ℤ) → r.0 ≡ ok c → is_zero c ≡ acc)
    → (conclude f skip d o r).0 ≡ ok code
    → is_zero code ≡ (acc && leaves_zero (set_of f skip d (ok o) (conclude none skip d o r).1))
conclude_zero none skip d o (raised x, s) code acc means h = absurd (ground (arith, h))
conclude_zero (some f) skip d o (raised x, s) code acc means h = absurd (ground (arith, h))
conclude_zero none skip d o (ok c, s) code acc means h = ground (arith, h, means c refl)
conclude_zero (some f) true d o (ok c, s) code acc means h = ground (arith, h, means c refl)
conclude_zero (some f) false d o (ok c, s) code acc means h =
    called_branch (is_zero c) refl (means c refl) h
  where
    called_branch :
        (b : Bool)
        → is_zero c ≡ b
        → b ≡ acc
        → (if b
            then called c (f (record { details = d; std_out = o.std_out }) s)
            else (ok c, in_job (report_failure d o) s)).0
          ≡ ok code
        → is_zero code ≡ (
            acc
            && leaves_zero
                (set_by f false d (ok o) (if b then s else in_job (report_failure d o) s)))
    called_branch true z m e =
        ground
          (arith, m, called_zero c (f (record { details = d; std_out = o.std_out }) s) code z e)
    called_branch false z m e = ground (arith, m, z, e)

detail_code :
    (b : Bool) (r det : Result ℤ × Session) (code : ℤ)
    → (then_detail b r det).0 ≡ ok code
    → r.0 ≡ ok code
detail_code b (raised x, s) det code h = h
detail_code true (ok c, s) (raised x, t) code h = ground arith
detail_code true (ok c, s) (ok c', t) code h = ground arith
detail_code false (ok c, s) det code h = ground arith

verified_code : (r : Result ℤ × Session) → r.0 ≡ (verified r).0
verified_code (ok c, t) = refl
verified_code (raised x, t) = refl

verify_code :
    (b acc : Bool) (o : Outcome) (s : Session) (ver : Result ℤ × Session) (code : ℤ)
    → ((c : ℤ) → ver.0 ≡ ok c → is_zero c ≡ acc)
    → (b ≡ false → acc ≡ true)
    → (then_verify b o s ver).0 ≡ ok code
    → is_zero code ≡ (is_zero o.exit_code && acc)
verify_code b acc o s ver code means none_accepted h =
    verify_branch (is_zero o.exit_code) b refl none_accepted h
  where
    verify_branch :
        (z b : Bool)
        → is_zero o.exit_code ≡ z
        → (b ≡ false → acc ≡ true)
        → (if z && b then verified ver else (ok o.exit_code, s)).0 ≡ ok code
        → is_zero code ≡ (z && acc)
    verify_branch true true e absent h' = means code (verified_code ver ∙ h')
    verify_branch true false e absent h' = ground (arith, absent refl)
    verify_branch false b e absent h' = ground arith

absent_accepted :
    (run : Run) (rd : Dict String) (trace : List Invocation) (v : Command)
    → is_present v ≡ false
    → accepted run rd trace v ≡ true
unfolding accepted
absent_accepted run rd trace no_command h = refl
absent_accepted run rd trace (fp_command d v e) h = absurd (ground arith)

outcome_code :
    (f : Option OnSuccess) (skip : Bool) (d : Details) (r : Result Outcome)
    (bad : Exception → Result ℤ × Session) (go go' : Outcome → Result ℤ × Session) (code : ℤ)
    (acc : Bool)
    → ((x : Exception) → (bad x).0 ≡ raised x)
    → ((o : Outcome)
        → (go o).0 ≡ ok code
        → is_zero code
          ≡ ((is_zero o.exit_code && acc) && leaves_zero (set_of f skip d (ok o) (go' o).1)))
    → (with_outcome r bad go).0 ≡ ok code
    → is_zero code
      ≡ ((exited_zero r && acc) && leaves_zero (set_of f skip d r (with_outcome r bad go').1))
outcome_code f skip d (ok o) bad go go' code acc fails means h = means o h
outcome_code f skip d (raised x) bad go go' code acc fails means h =
    absurd (impossible (sym (fails x) ∙ h))
  where
    impossible : ◌≡◌ {A = Result ℤ} (raised x) (ok code) → ⊥
    impossible e = ground arith

set_of-execute :
    (run : Run) (rd : Dict String) (f : Option OnSuccess) (skip : Bool) (d : Details)
    (v e : Command) (s : Session)
    → set_of f skip d
        (run s.trace (invocation rd d))
        (execute run rd none skip (fp_command d v e) s).1
      ≡ set_on_success run rd f skip (fp_command d v e) s
set_of-execute run rd none skip d v e s = refl
set_of-execute run rd (some f) skip d v e s = refl

and_unset : {a b : Bool} → a ≡ (b && true) → a ≡ b
and_unset h = ground (arith, h)

-- If a command ends with no exception, its code is 0 exactly if its process leaves 0, its
-- verification command, if it has one, is accepted after it, and the callback for success, if it
-- is called, sets no code or sets 0.
pub execute_iff-accepted :
    (run : Run) (rd : Dict String) (f : Option OnSuccess) (skip : Bool) (c : Command) (s : Session)
    (code : ℤ)
    → (execute run rd f skip c s).0 ≡ ok code
    → is_zero code ≡ (accepted run rd s.trace c && leaves_zero (set_on_success run rd f skip c s))
unfolding execute accepted
execute_iff-accepted run rd none skip no_command s code h = ground (arith, h)
execute_iff-accepted run rd (some f) skip no_command s code h = ground (arith, h)
execute_iff-accepted run rd f skip (fp_command d v e) s code h =
    let i = invocation rd d in
    let s1 = λ (o : Outcome). reported i o s in
    let verification =
      λ (o : Outcome). execute run rd none true v (in_job (announce_verification v) (s1 o)) in
    let r2 = λ (o : Outcome). then_verify (is_present v) o (s1 o) (verification o) in
    let detail = λ (o : Outcome).
      execute run rd none true e (in_job (announce_event_detail e) (state_of (r2 o))) in
    let acc = accepted run rd (s.trace ++ (i ∷ [])) v in
    let r3 = λ (o : Outcome). then_detail (is_present e) (r2 o) (detail o) in
    outcome_code f skip d (run s.trace i) (λ x. (raised x, started i s))
      (λ o. conclude f skip d o (r3 o)) (λ o. conclude none skip d o (r3 o)) code acc (λ x. refl)
      (λ o. conclude_zero f skip d o (r3 o) code (is_zero o.exit_code && acc) (λ c done.
        verify_code (is_present v) acc o (s1 o) (verification o) c
          (λ c' e'. and_unset (
            execute_iff-accepted run rd none true v (in_job (announce_verification v) (s1 o)) c'
              e'))
          (absent_accepted run rd (s.trace ++ (i ∷ [])) v)
          (detail_code (is_present e) (r2 o) (detail o) c done)))
      h
    ∙ ap (λ m. accepted run rd s.trace (fp_command d v e) && leaves_zero m)
        (set_of-execute run rd f skip d v e s)

saved :
    (rule : Rule) (r : Result ℤ × Session) (code : ℤ) {won : Bool}
    → ((c : ℤ) → r.0 ≡ ok c → is_zero c ≡ won)
    → (save_rule rule r).0 ≡ ok code
    → ((save_rule rule r).1.count_attempts ≡ rule.count_attempts + 1)
      × ((save_rule rule r).1.count_okay ≡ rule.count_okay + (if won then 1 else 0))
      × ((save_rule rule r).1.count_not_okay ≡ rule.count_not_okay + (if won then 0 else 1))
saved rule (raised x, s) code means h = absurd (ground arith)
saved rule (ok c, s) code means h =
    let w = means c refl in (ground (arith, w), ground (arith, w), ground (arith, w))

saved_total :
    (rule : Rule) (r : Result ℤ × Session)
    → rule.count_attempts ≡ rule.count_okay + rule.count_not_okay
    → (save_rule rule r).1.count_attempts
      ≡ (save_rule rule r).1.count_okay + (save_rule rule r).1.count_not_okay
saved_total rule (raised x, s) h = h
saved_total rule (ok c, s) h = ground arith

-- Every execution of a rule that ends with no exception adds one attempt, and one success if the
-- command that it prepared is accepted and the callback for success sets no code or sets 0,
-- otherwise one failure.
pub link-counts :
    (run : Run) (f : Option OnSuccess) (rd : Dict String) (c : Command) (rule : Rule) (s : Session)
    (code : ℤ)
    → (link run f rd c rule s).0 ≡ ok code
    → let rule' = (link run f rd c rule s).1 in
      let (rd', c') = init rd c in
      let won = accepted run rd' s.trace c' && leaves_zero (set_on_success run rd' f false c' s) in
      (rule'.count_attempts ≡ rule.count_attempts + 1)
      × (rule'.count_okay ≡ rule.count_okay + (if won then 1 else 0))
      × (rule'.count_not_okay ≡ rule.count_not_okay + (if won then 0 else 1))
unfolding link
link-counts run f rd c rule s code h =
    saved rule (execute run (init rd c).0 f false (init rd c).1 s) code
      (execute_iff-accepted run (init rd c).0 f false (init rd c).1 s) h

-- That a rule's attempts are its successes and failures together is kept by every execution, also
-- by one that an exception ends.
link-keeps_total :
    (run : Run) (f : Option OnSuccess) (rd : Dict String) (c : Command) (rule : Rule) (s : Session)
    → rule.count_attempts ≡ rule.count_okay + rule.count_not_okay
    → let rule' = (link run f rd c rule s).1 in
      rule'.count_attempts ≡ rule'.count_okay + rule'.count_not_okay
unfolding link
link-keeps_total run f rd c rule s h =
    saved_total rule (execute run (init rd c).0 f false (init rd c).1 s) h

abbrev pub returned_zero : Result ℤ → Bool
returned_zero (ok code) = is_zero code
returned_zero (raised x) = false

conclude_same :
    (f : OnSuccess) (skip : Bool) (d : Details) (o : Outcome) (r : Result ℤ × Session)
    → (not skip && returned_zero (conclude none skip d o r).0) ≡ false
    → conclude (some f) skip d o r ≡ conclude none skip d o r
conclude_same f skip d o (raised x, s) h = refl
conclude_same f skip d o (ok c, s) h = concluded (is_zero c) skip h
  where
    concluded :
        (b skip : Bool)
        → (not skip && b) ≡ false
        → (if b
            then if skip
              then (ok c, s)
              else called c (f (record { details = d; std_out = o.std_out }) s)
            else (ok c, in_job (report_failure d o) s))
          ≡ (ok c, if b then s else in_job (report_failure d o) s)
    concluded true true h' = refl
    concluded true false h' = absurd (ground arith)
    concluded false skip h' = refl

outcome_same :
    (r : Result Outcome) (bad : Exception → Result ℤ × Session)
    (go go' : Outcome → Result ℤ × Session) (b : Bool)
    → ((o : Outcome) → (b && returned_zero (go' o).0) ≡ false → go o ≡ go' o)
    → (b && returned_zero (with_outcome r bad go').0) ≡ false
    → with_outcome r bad go ≡ with_outcome r bad go'
outcome_same (ok o) bad go go' b same h = same o h
outcome_same (raised x) bad go go' b same h = refl

-- The callback for success makes no difference to an execution that fails, that an exception ends
-- or that is told to skip it.
execute-without_success :
    (run : Run) (rd : Dict String) (f : OnSuccess) (skip : Bool) (c : Command) (s : Session)
    → (not skip && returned_zero (execute run rd none skip c s).0) ≡ false
    → execute run rd (some f) skip c s ≡ execute run rd none skip c s
unfolding execute
execute-without_success run rd f skip no_command s h = refl
execute-without_success run rd f skip (fp_command d v e) s h =
    let i = invocation rd d in
    let s1 = λ (o : Outcome). reported i o s in
    let verification =
      λ (o : Outcome). execute run rd none true v (in_job (announce_verification v) (s1 o)) in
    let r2 = λ (o : Outcome). then_verify (is_present v) o (s1 o) (verification o) in
    let detail = λ (o : Outcome).
      execute run rd none true e (in_job (announce_event_detail e) (state_of (r2 o))) in
    outcome_same (run s.trace i) (λ x. (raised x, started i s))
      (λ o. conclude (some f) skip d o (then_detail (is_present e) (r2 o) (detail o)))
      (λ o. conclude none skip d o (then_detail (is_present e) (r2 o) (detail o))) (not skip)
      (λ o. conclude_same f skip d o (then_detail (is_present e) (r2 o) (detail o))) h
