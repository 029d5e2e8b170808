-- ===== src/Transcoder.antt =====
-- clientScripts/transcoder.py: a command of the format policy registry, with the commands that
-- verify it and that give the detail of its event, and the rule whose statistics it updates. What
-- runs a command, `executeOrRun`, is the parameter `run`: it may depend on everything run before.
pub mod Success
use ccp.Prelude.{
  ℕ, zero, suc, ◌+◌, ◌<>◌, String, Bool, true, false, Option, none, some, List, [], ◌∷◌, ◌++◌, not,
  ◌&&◌, ◌||◌, str_eq, if◌then◌else◌,
}
use ccp.Prelude.Int.{ℤ, pos, negsuc, is_zero}
use ccp.Prelude.Decimal.{show, show_code}
use ccp.Prelude.Dict.{Dict, insert}
use ccp.Prelude.Raise.{Exception, Result, ok, raised, ◌>>=◌}
use ccp.Job.{Job, print_output, print_error, write_output, write_error}
use ccp.ReplacementDict.{replace_items, to_gnu_options}

-- The columns of a command of the registry.
pub record Details : Type 0 where
  pub description : String
  pub command : String
  pub script_type : String
  pub output_location : Option String

-- A command with its verification command and its event detail command, if it has them.
pub data Command : Type 0 where
  no_command : Command
  fp_command : Details → Command → Command → Command

abbrev pub is_present : Command → Bool
is_present no_command = false
is_present (fp_command d v e) = true

abbrev set_output : Dict String → Option String → Dict String × Option String
set_output rd none = (rd, none)
set_output rd (some location) =
    let location' = replace_items rd location in
    if str_eq location ""
    then (rd, some location)
    else (insert "%outputLocation%" location' rd, some location')

-- `Command.__init__`: the dict is shared by the three commands, and each may set its output location.
unfoldable pub init : Dict String → Command → Dict String × Command
init rd no_command = (rd, no_command)
init rd (fp_command d v e) =
    let (rd', location) = set_output rd d.output_location in
    let (rd'', v') = init rd' v in
    let (rd''', e') = init rd'' e in
    (rd''', fp_command (record d { output_location = location }) v' e')

abbrev show_location : Option String → String
show_location none = "None"
show_location (some s) = s

-- `Command.__str__`, and str(None)
unfoldable pub show_command : Command → String
show_command no_command = "None"
show_command (fp_command d v e) =
    "[COMMAND] "
    <> d.description
    <> "\n\tExecuting: "
    <> d.command
    <> "\n\tCommand: "
    <> show_command v
    <> "\n\tOutput location: "
    <> show_location d.output_location
    <> "\n"

-- One call of `executeOrRun`: the type, the text and the arguments.
pub record Invocation : Type 0 where
  pub type : String
  pub text : String
  pub arguments : List String

-- What a process leaves: its code, its output and its errors.
pub record Outcome : Type 0 where
  pub exit_code : ℤ
  pub std_out : String
  pub std_err : String

abbrev pub Run : Type 0
Run = List Invocation → Invocation → Result Outcome

-- The job, and the invocations so far, the first one first.
pub record Session : Type 0 where
  pub job : Job
  pub trace : List Invocation

abbrev pub in_job : (Job → Job) → Session → Session
in_job f s = record s { job = f s.job }

-- What `on_success` reads of the command. It may set the command's code, which is what it returns.
pub record Executed : Type 0 where
  pub details : Details
  pub std_out : String

abbrev pub OnSuccess : Type 0
OnSuccess = Executed → Session → Result (Option ℤ) × Session

-- The values go into the text of a command or a shell script, and become options of any other.
abbrev pub invocation : Dict String → Details → Invocation
invocation rd d =
    if str_eq d.script_type "command" || str_eq d.script_type "bashScript"
    then record { type = d.script_type; text = replace_items rd d.command; arguments = [] }
    else record { type = d.script_type; text = d.command; arguments = to_gnu_options rd }

abbrev pub announce : Invocation → Job → Job
announce i j =
    print_output ("Command stdout:" ∷ [])
      (print_output ("-----" ∷ []) (print_output ("Command to execute:" ∷ i.text ∷ []) j))

abbrev pub report : Outcome → Job → Job
report o j =
    print_output ("Command exit code:" ∷ show_code o.exit_code ∷ [])
      (print_output ("-----" ∷ []) (write_error o.std_err (write_output o.std_out j)))

abbrev pub announce_verification : Command → Job → Job
announce_verification v j = print_output ("Command stdout:" ∷ []) (
    print_output ("-----" ∷ [])
      (print_output ("Running verification command" ∷ show_command v ∷ []) j))

abbrev report_verification : ℤ → Job → Job
report_verification code j =
    print_output ("Verification Command exit code:" ∷ show_code code ∷ [])
      (print_output ("-----" ∷ []) j)

abbrev pub announce_event_detail : Command → Job → Job
announce_event_detail e = print_output ("Running event detail command" ∷ show_command e ∷ [])

abbrev pub report_failure : Details → Outcome → Job → Job
report_failure d o j = print_error ("Standard error:" ∷ o.std_err ∷ []) (
    print_error ("Standard out:" ∷ o.std_out ∷ []) (print_error ("Failed:" ∷ d.description ∷ []) j))

-- The code of the verification command replaces the code of the command.
abbrev pub verified : Result ℤ × Session → Result ℤ × Session
verified (ok code, s) = (ok code, in_job (report_verification code) s)
verified (raised x, s) = (raised x, s)

-- The code of the event detail command is dropped, but not its exception.
abbrev pub detailed : ℤ → Result ℤ × Session → Result ℤ × Session
detailed code (ok code', s) = (ok code, s)
detailed code (raised x, s) = (raised x, s)

-- `execute` returns the code of the command, also when `on_success` has set it.
abbrev pub called : ℤ → Result (Option ℤ) × Session → Result ℤ × Session
called code (ok none, s) = (ok code, s)
called code (ok (some set), s) = (ok set, s)
called code (raised x, s) = (raised x, s)

-- The end of `execute`: `on_success` is called for a code of 0, unless it is skipped or missing.
abbrev pub conclude :
    Option OnSuccess → Bool → Details → Outcome → Result ℤ × Session → Result ℤ × Session
conclude on_success skip d o (raised x, s) = (raised x, s)
conclude none skip d o (ok code, s) =
    (ok code, if is_zero code then s else in_job (report_failure d o) s)
conclude (some f) skip d o (ok code, s) =
    if is_zero code
    then if skip
      then (ok code, s)
      else called code (f (record { details = d; std_out = o.std_out }) s)
    else (ok code, in_job (report_failure d o) s)

abbrev pub state_of : Result ℤ × Session → Session
state_of (r, s) = s

-- `if self.exit_code == 0 and self.event_detail_command`, over what that command does when it runs.
abbrev pub then_detail : Bool → Result ℤ × Session → Result ℤ × Session → Result ℤ × Session
then_detail present (raised x, s) run = (raised x, s)
then_detail present (ok code, s) run =
    if is_zero code && present then detailed code run else (ok code, s)

abbrev pub then_verify : Bool → Outcome → Session → Result ℤ × Session → Result ℤ × Session
then_verify present o s run =
    if is_zero o.exit_code && present then verified run else (ok o.exit_code, s)

abbrev pub with_outcome :
    Result Outcome
    → (Exception → Result ℤ × Session)
    → (Outcome → Result ℤ × Session)
    → Result ℤ × Session
with_outcome (raised x) on_error go = on_error x
with_outcome (ok o) on_error go = go o

-- The session when the process of a command is started, and when it is reported.
abbrev pub started : Invocation → Session → Session
started i s = record { job = announce i s.job; trace = s.trace ++ (i ∷ []) }

abbrev pub reported : Invocation → Outcome → Session → Session
reported i o s = in_job (report o) (started i s)

-- `Command.execute`
unfoldable pub execute :
    Run → Dict String → Option OnSuccess → Bool → Command → Session → Result ℤ × Session
execute run rd on_success skip no_command s = (ok (pos 0), s)
execute run rd on_success skip (fp_command d v e) s =
    let i = invocation rd d in
    with_outcome (run s.trace i) (λ x. (raised x, started i s))
      (λ o.
        let s1 = reported i o s in
        let verification = execute run rd none true v (in_job (announce_verification v) s1) in
        let r2 = then_verify (is_present v) o s1 verification in
        let detail = execute run rd none true e (in_job (announce_event_detail e) (state_of r2)) in
        conclude on_success skip d o (then_detail (is_present e) r2 detail))

-- The statistics of a rule.
pub record Rule : Type 0 where
  pub count_attempts : ℕ
  pub count_okay : ℕ
  pub count_not_okay : ℕ

abbrev count_outcome : ℤ → Rule → Rule
count_outcome code rule =
    if is_zero code
    then record rule { count_attempts = rule.count_attempts + 1; count_okay = rule.count_okay + 1 }
    else record rule {
      count_attempts = rule.count_attempts + 1;
      count_not_okay = rule.count_not_okay + 1;
    }

-- `save` is not reached when the command raises.
abbrev pub save_rule : Rule → Result ℤ × Session → Result ℤ × Rule × Session
save_rule rule (ok code, s) = (ok code, count_outcome code rule, s)
save_rule rule (raised x, s) = (raised x, rule, s)

-- `CommandLinker.__init__` and `execute`, without `skip_on_success`.
unfoldable pub link :
    Run → Option OnSuccess → Dict String → Command → Rule → Session → Result ℤ × Rule × Session
link run on_success rd command rule s =
    let (rd', command') = init rd command in
    save_rule rule (execute run rd' on_success false command' s)
