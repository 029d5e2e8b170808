-- ===== src/ExecuteOrRun/Launches.antt =====
-- utils/executeOrRunSubProcess.py: what a run leaves, and what it is given.
use ccp.Prelude.{
  ◌≡◌, refl, ap, ◌∙◌, ◌&&◌, Bool-cases, ◌⊎◌, inl, inr, String, Bool, false, Option, none, some,
  List, [], ◌∷◌, str_eq, eq_iff, arith, if◌then◌else◌,
}
use ccp.Prelude.Int.{negsuc, is_zero}
use ccp.Prelude.Dict.{Dict, lookup, insert, lookup-delete, lookup-insert, update, get_or}
use ccp.Prelude.Raise.{Result, ok, raised}
use ccp.ExecuteOrRun.{
  Command, Input, text, System, Files, Finish, Triple, array, launch_sub_process, run_words,
  run_script, create_and_run_script, execute_or_run, cleaned, unlink, triple_of, process_env,
  words_of, stdin_of, script_text, set_unset, Stdin, is_unset,
}

-- Whatever the type of a run, unless it is command, the results for two standard inputs are the
-- same.
pub execute_or_run-ignores_stdin :
    (sys : System) (type : String) (command : Command) (i j : Input) (arguments : List String)
    (env_updates : Dict String) (capture : Bool) (files : Files)
    → str_eq type "command" ≡ false
    → execute_or_run sys type command i arguments env_updates capture files
      ≡ execute_or_run sys type command j arguments env_updates capture files
unfolding execute_or_run create_and_run_script
execute_or_run-ignores_stdin sys type (Command.line s) i j arguments env_updates capture files h =
    rw h refl
execute_or_run-ignores_stdin sys type (Command.array s) i j arguments env_updates capture files h =
    rw h refl

cleaned-gone :
    (name : String) (t t' : Triple) (files : Files) (o : Option String)
    → (cleaned t files (unlink name files o)).0 ≡ ok t'
    → lookup name (cleaned t files (unlink name files o)).1 ≡ none
cleaned-gone name t t' files none h = absurd (ground arith)
cleaned-gone name t t' files (some s) h =
    ground (arith, lookup-delete name name files, eq_iff name name)

-- A script that was run with no exception is gone afterwards, whatever the process did and
-- returned.
pub run_script-gone :
    (sys : System) (name : String) (script : Command) (arguments : List String)
    (env_updates : Dict String) (capture : Bool) (files : Files) (t : Triple)
    → (run_script sys name script arguments env_updates capture files).0 ≡ ok t
    → lookup name (run_script sys name script arguments env_updates capture files).1 ≡ none
unfolding run_script
run_script-gone sys name script arguments env_updates capture files t h =
    let written = insert name (script_text script) files in
    let (t', files') =
      launch_sub_process sys (array (name ∷ arguments)) (text "") [] env_updates capture written in
    cleaned-gone name t' t files' (lookup name files') h

-- What the caller sees if it captures nothing: no output but the two messages for a failure to run.
abbrev pub Quiet : Triple → Type 0
Quiet t =
    ((t.std_out ≡ "") × ((t.std_error ≡ "") ⊎ (is_zero t.retcode ≡ false))) ⊎ (t.retcode ≡ negsuc 0)

triple_of-Quiet : (command : List String) (f : Finish) → Quiet (triple_of false command f)
triple_of-Quiet command (Finish.os_error message) = inr refl
triple_of-Quiet command (Finish.other_error message) = inr refl
triple_of-Quiet command (Finish.finished code out err) =
    inl (refl, elim (Bool-cases (is_zero code)) [ inl e ↦ inl (ground arith) | inr e ↦ inr e ])

-- A run that captures nothing returns an empty output, and an empty error or a code that is not 0;
-- or it returns -1.
launch_sub_process-Quiet :
    (sys : System) (command : Command) (i : Input) (arguments : List String)
    (env_updates : Dict String) (files : Files)
    → Quiet (launch_sub_process sys command i arguments env_updates false files).0
unfolding launch_sub_process
launch_sub_process-Quiet sys command i arguments env_updates files =
    ran (stdin_of i) (words_of command arguments)
  where
    env : Dict String
    env = process_env sys.environ env_updates

    ran :
        (stdin : Result Stdin) (words : Result (List String))
        → Quiet (run_words sys false env command stdin words files).0
    ran stdin (raised e) = inr refl
    ran (raised e) (ok words) = inr refl
    ran (ok stdin) (ok words) =
        triple_of-Quiet words
          (sys.popen files
            (record { command = words; stdin = stdin; env = env; captured = false })).0

lookup-set_unset :
    (name other value : String) (env : Dict String)
    → lookup other (set_unset name value env)
      ≡ (if str_eq name other && is_unset (lookup name env) then some value else lookup other env)
unfolding set_unset
lookup-set_unset name other value env = elim (Bool-cases (is_unset (lookup name env))) [
  | inl e ↦ ground (arith, lookup-insert name other value env)
  | inr e ↦ ground arith
]

set_unset-is_set :
    (name value : String) (env : Dict String)
    → str_eq value "" ≡ false
    → is_unset (lookup name (set_unset name value env)) ≡ false
set_unset-is_set name value env h = elim (Bool-cases (is_unset (lookup name env))) [
  | inl e ↦ ground (arith, lookup-set_unset name name value env, eq_iff name name)
  | inr e ↦ ground (arith, lookup-set_unset name name value env)
]

-- With no updates of its own, a process runs with Python's encoding set to UTF-8 and with a
-- language that is not empty.
process_env-languages :
    (environ : Dict String)
    → let env = process_env environ [] in
      (lookup "PYTHONIOENCODING" env ≡ some "utf-8") × (is_unset (lookup "LANG" env) ≡ false)
unfolding process_env update
process_env-languages environ =
    let start = insert "PYTHONIOENCODING" "utf-8" environ in
    let a = set_unset "LANG" "en_US.UTF-8" start in
    let v = get_or "" (lookup "LANG" a) in
    (
      lookup-set_unset "LANGUAGE" "PYTHONIOENCODING" v a
          ∙ lookup-set_unset "LANG" "PYTHONIOENCODING" "en_US.UTF-8" start
          ∙ lookup-insert "PYTHONIOENCODING" "PYTHONIOENCODING" "utf-8" environ,
      ap is_unset (lookup-set_unset "LANGUAGE" "LANG" v a)
          ∙ set_unset-is_set "LANG" "en_US.UTF-8" start refl,
    )
