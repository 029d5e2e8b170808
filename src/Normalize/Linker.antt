-- ===== src/Normalize/Linker.antt =====
-- clientScripts/normalize.py: the run of a rule through `transcoder.CommandLinker`, with
-- `once_normalized` called where the command's own code is 0. The rule's statistics, which count the
-- code that `once_normalized` sets, are those of `link` in Transcoder; an attempt does not hold them.
use ccp.Prelude.{String, true, false, Option, none, some, if◌then◌else◌}
use ccp.Prelude.Int.{ℤ, is_zero}
use ccp.Prelude.Dict.{Dict}
use ccp.Prelude.Raise.{exception, Result, ok, raised}
use ccp.Prelude.Script.{◌>>=◌, pure, throw}
use ccp.Transcoder.{
  Details, Command, no_command, fp_command, Outcome, Run, Session, init, invocation, in_job,
  execute, is_present, reported, announce_verification, then_verify, state_of,
}
use ccp.Rows.{World}
use ccp.Normalize.{NormalizeArgs, FpCommand, FpRule, Trace, Act, Registry, once_normalized}
use ccp.Normalize.Manual.{text_of}

-- What an attempt leaves: the code, the output location of its command, the command, and the values,
-- which the command has added its location to.
pub record Attempt : Type 0 where
  pub code : ℤ
  pub location : Option String
  pub command : FpCommand
  pub values : Dict String

abbrev pub location_of : Command → Option String
location_of no_command = none
location_of (fp_command d v e) = d.output_location

abbrev output_text : Result Outcome → String
output_text (raised x) = ""
output_text (ok o) = o.std_out

abbrev detail_text : Run → Dict String → Session → Command → Option String
detail_text run rd s no_command = none
detail_text run rd s (fp_command d v e) = some (output_text (run s.trace (invocation rd d)))

-- What the event detail command prints, in the session that it is run in.
abbrev printed_after :
    Run → Dict String → Command → Command → Session → Result Outcome → Option String
printed_after run rd v e s (raised x) = none
printed_after run rd v e s (ok o) =
    detail_text run rd
      (state_of (
        then_verify (is_present v) o s
          (execute run rd none true v (in_job (announce_verification v) s))))
      e

abbrev reported_after : Run → Dict String → Details → Session → Result Outcome → Session
reported_after run rd d s (raised x) = s
reported_after run rd d s (ok o) = reported (invocation rd d) o s

unfoldable pub printed_by : Run → Dict String → Command → Session → Option String
printed_by run rd no_command s = none
printed_by run rd (fp_command d v e) s =
    let answer = run s.trace (invocation rd d) in
    printed_after run rd v e (reported_after run rd d s answer) answer

abbrev session_of : World Trace → Session
session_of w = record { job = w.job; trace = w.disk }

abbrev with_session : Session → World Trace → World Trace
with_session s w = record w { job = s.job; disk = s.trace }

abbrev attempt : FpCommand → Dict String → ℤ → Option String → Attempt
attempt command rd code location = record {
  code = code;
  location = location;
  command = command;
  values = rd;
}

abbrev pub code_set : ℤ → Option ℤ → ℤ
code_set code none = code
code_set code (some c) = c

-- `once_normalized` makes an output location that is missing an empty one, and may set the code.
abbrev pub after_execute :
    Registry
    → NormalizeArgs
    → FpCommand
    → Dict String
    → Option String
    → Option String
    → Result ℤ × Session
    → World Trace
    → Result Attempt × World Trace
after_execute reg opts command rd location printed (raised x, s) w = (raised x, with_session s w)
after_execute reg opts command rd location printed (ok code, s) w =
    if is_zero code
    then (once_normalized reg opts command printed (text_of location)
          >>= (λ c. pure (attempt command rd (code_set code c) (some (text_of location)))))
        (with_session s w)
    else (ok (attempt command rd code location), with_session s w)

abbrev pub run_linked : Registry → NormalizeArgs → FpCommand → Dict String × Command → Act Attempt
run_linked reg opts command (rd, c) w =
    after_execute reg opts command rd (location_of c) (printed_by reg.run rd c (session_of w))
      (execute reg.run rd none false c (session_of w)) w

-- `CommandLinker(job, rule, command, replacement_dict, opts, once_normalized)` and `cl.execute()`
unfoldable pub link_rule : Registry → NormalizeArgs → FpRule → Dict String → Act Attempt
link_rule reg opts rule rd = run_linked reg opts rule.command (init rd rule.command.command)

abbrev pub link_with : Registry → NormalizeArgs → FpRule → Option (Dict String) → Act Attempt
link_with reg opts rule none = throw (exception "'NoneType' object has no attribute 'replace'")
link_with reg opts rule (some rd) = link_rule reg opts rule rd
