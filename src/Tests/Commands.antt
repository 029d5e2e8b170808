-- ===== src/Tests/Commands.antt =====
-- The commands of the format policy registry, the processes and the batches of names on concrete data.
use ccp.Prelude.{
  map, ◌+◌, ◌≡◌, refl, String, true, false, ◌&&◌, none, some, List, [], ◌∷◌, arith, if◌then◌else◌,
}
use ccp.Prelude.Dict.{Dict, lookup, insert}
use ccp.Prelude.Int.{pos, negsuc, is_zero}
use ccp.Prelude.Raise.{ok}
use ccp.ReplacementDict.{FileRow}
use ccp.Transcoder.{
  Details, Command, no_command, fp_command, Run, Session, OnSuccess, execute, Rule, link, init,
}
use ccp.Transcoder.Success.{
  accepted, leaves_zero, set_on_success, execute_iff-accepted, link-counts,
}
use ccp.ExecuteOrRun.{
  line, text, bytes, System, Triple, finished, launch_sub_process, run_script, execute_or_run,
}
use ccp.ExecuteOrRun.Launches.{execute_or_run-ignores_stdin, run_script-gone}
use ccp.NameChanger.{Change, NameChanger, change_objects}
use ccp.NameChanger.Renames.{relocated_row, destination, change_objects-renames}
use ccp.Tests.Jobs.{job_a}

abbrev details : String → String → Details
details name command = record {
  description = name;
  command = command;
  script_type = "command";
  output_location = some "/out/%fileName%.tif";
}

-- A command with a verification command.
abbrev convert : Command
convert =
    fp_command (details "convert" "convert %fileName%")
      (fp_command (details "check" "test -s") no_command no_command) no_command

-- The verification fails: what is run second leaves the code 1.
abbrev second_fails : Run
second_fails [] i = ok (record { exit_code = pos 0; std_out = "done"; std_err = "" })
second_fails (j ∷ trace) i = ok (record { exit_code = pos 1; std_out = ""; std_err = "empty" })

abbrev session : Session
session = record { job = job_a; trace = [] }

abbrev variables : Dict String
variables = ("%fileName%", "a b") ∷ []

-- Both succeed, and the output is missing: `on_success` sets the code -2.
abbrev both_succeed : Run
both_succeed trace i = ok (record { exit_code = pos 0; std_out = "done"; std_err = "" })

abbrev missing_output : OnSuccess
missing_output e s = (ok (some (negsuc 1)), s)

execute-code :
    (execute both_succeed variables (some missing_output) false convert session).0 ≡ ok (negsuc 1)
unfolding execute
execute-code = refl

execute-rejected :
    (execute second_fails variables (some missing_output) false convert session).0 ≡ ok (pos 1)
unfolding execute
execute-rejected = refl

execute_iff-accepted_example : is_zero (negsuc 1) ≡ (
    accepted both_succeed variables [] convert
    && leaves_zero
        (set_on_success both_succeed variables (some missing_output) false convert session))
execute_iff-accepted_example =
    execute_iff-accepted both_succeed variables (some missing_output) false convert session
      (negsuc 1) execute-code

abbrev rule : Rule
rule = record { count_attempts = 5; count_okay = 3; count_not_okay = 2 }

link-code :
    (link both_succeed (some missing_output) variables convert rule session).0 ≡ ok (negsuc 1)
unfolding link init execute
link-code = refl

abbrev linked : Rule
linked = (link both_succeed (some missing_output) variables convert rule session).1

-- The command is accepted and counted as a failure.
linked-not_okay : linked.count_not_okay ≡ 3
unfolding link init execute
linked-not_okay = refl

link-counts_example :
    let (rd', c') = init variables convert in
    let won =
      accepted both_succeed rd' [] c'
      && leaves_zero (set_on_success both_succeed rd' (some missing_output) false c' session) in
    (linked.count_attempts ≡ 6)
    × (linked.count_okay ≡ 3 + (if won then 1 else 0))
    × (linked.count_not_okay ≡ 2 + (if won then 0 else 1))
link-counts_example =
    link-counts both_succeed (some missing_output) variables convert rule session (negsuc 1)
      link-code

abbrev file_row : FileRow
file_row = record {
  uuid = "f";
  sip = none;
  transfer = none;
  original_location = "%transferDirectory%a.txt";
  current_location = "%transferDirectory%a.txt";
  filegrpuse = "original";
}

abbrev system : System
system = record {
  environ = ("LANG", "") ∷ [];
  temporary_name = λ files. ok "/tmp/script";
  popen = λ files request. (finished (pos 0) "out" "err", files);
}

execute_or_run-ignores_stdin_example :
    execute_or_run system "bashScript" (line "cat") (text "a") [] [] true []
    ≡ execute_or_run system "bashScript" (line "cat") (bytes "b") [] [] true []
execute_or_run-ignores_stdin_example =
    execute_or_run-ignores_stdin system "bashScript" (line "cat") (text "a") (bytes "b") [] [] true
      [] refl

abbrev out : Triple
out = record { retcode = pos 0; std_out = "out"; std_error = "err" }

run_script-ok : (run_script system "/tmp/script" (line "cat") [] [] true []).0 ≡ ok out
unfolding run_script launch_sub_process lookup insert
run_script-ok = refl

run_script-gone_example :
    lookup "/tmp/script" (run_script system "/tmp/script" (line "cat") [] [] true []).1 ≡ none
run_script-gone_example =
    run_script-gone system "/tmp/script" (line "cat") [] [] true [] out run_script-ok

abbrev changer : NameChanger
changer = record {
  job = job_a;
  nfc = λ s. s;
  date = "today";
  group_type = "%SIPDirectory%";
  sip_path = "/sip/";
  files_index = ("%SIPDirectory%objects/é", "%SIPDirectory%objects/e") ∷ [];
  dirs_index = [];
  files = record { uuid = "f"; currentlocation = "%SIPDirectory%objects/é" } ∷ [];
  directories = none;
  events = [];
}

abbrev changes : List Change
changes =
    record {
      old_path = "/sip/objects/a b";
      new_path = "/sip/objects/a_b";
      is_dir = false;
      was_changed = true;
    }
    ∷ record {
      old_path = "/sip/objects/c";
      new_path = "/sip/objects/c";
      is_dir = true;
      was_changed = false;
    }
    ∷ []

change_objects-renames_example :
    (change_objects changes changer).files
    ≡ map
        (λ row. relocated_row row (
          destination changer changes row.currentlocation
            (lookup row.currentlocation changer.files_index)))
        changer.files
change_objects-renames_example = change_objects-renames changes changer (omega arith)
