-- ===== src/ExecuteOrRun.antt =====
-- utils/executeOrRunSubProcess.py: commands and scripts run as processes. The environment, the name
-- of a temporary file and what a process does are the fields of `System`; what is printed on the
-- console of the worker is left out, and so is the rest of the file system: `Files` holds the scripts.
pub mod Launches
use Prim.Native.String.{[], ◌∷◌}
use ccp.Prelude.{
  ℕ, ◌<>◌, String, Bool, true, false, Option, none, some, List, ◌++◌, ◌&&◌, ◌||◌, str_eq,
  if◌then◌else◌,
}
use ccp.Prelude.Int.{ℤ, negsuc, is_zero}
use ccp.Prelude.Dict.{Dict, lookup, insert, delete, update, get_or}
use ccp.Prelude.Raise.{Exception, exception, Result, ok, raised, ◌>>=◌}
use ccp.CommandLine.Shlex.{split}
use ccp.Job.{join}

-- The type `Command`: a command line or an array. The type `Input`, and a value of no such type.
pub data Command : Type 0 where
  line : String → Command
  array : List String → Command

pub data Input : Type 0 where
  text bytes stream : String → Input
  not_an_input : Input

pub data Stdin : Type 0 where
  pipe descriptor : String → Stdin

-- The arguments of `Popen`: `captured` is whether its stdout is a pipe or the null device.
pub record Request : Type 0 where
  pub command : List String
  pub stdin : Stdin
  pub env : Dict String
  pub captured : Bool

-- What `Popen` and `communicate` do: an OSError, another exception, or an end with what was written.
pub data Finish : Type 0 where
  os_error other_error : String → Finish
  finished : ℤ → String → String → Finish

abbrev pub Files : Type 0
Files = Dict String

pub record System : Type 0 where
  pub environ : Dict String
  pub temporary_name : Files → Result String
  pub popen : Files → Request → Finish × Files

-- The triple that every function of the file returns.
pub record Triple : Type 0 where
  pub retcode : ℤ
  pub std_out : String
  pub std_error : String

abbrev minus_one : ℤ
minus_one = negsuc 0

abbrev config_error : String → Triple
config_error message = record {
  retcode = minus_one;
  std_out = "Config Error!";
  std_error = message;
}

abbrev execution_failed : String → Triple
execution_failed command = record {
  retcode = minus_one;
  std_out = "Execution failed:";
  std_error = command;
}

-- " ".join(s) of a text puts a blank between its characters.
unfoldable pub spaced : String → String
spaced [] = []
spaced (c ∷ []) = c ∷ []
spaced (c ∷ d ∷ s) = c ∷ (" " <> spaced (d ∷ s))

-- " ".join(command)
abbrev pub command_str : Command → String
command_str (line s) = spaced s
command_str (array words) = join " " words

-- A command line is split, and an array extended by the arguments.
abbrev pub words_of : Command → List String → Result (List String)
words_of (line s) arguments = split s
words_of (array words) arguments = ok (words ++ arguments)

abbrev pub is_unset : Option String → Bool
is_unset none = true
is_unset (some value) = str_eq value ""

-- `if name not in my_env or not my_env[name]: my_env[name] = value`
unfoldable pub set_unset : String → String → Dict String → Dict String
set_unset name value env = if is_unset (lookup name env) then insert name value env else env

-- `my_env`
unfoldable pub process_env : Dict String → Dict String → Dict String
process_env environ env_updates =
    let a = set_unset "LANG" "en_US.UTF-8" (insert "PYTHONIOENCODING" "utf-8" environ) in
    update (set_unset "LANGUAGE" (get_or "" (lookup "LANG" a)) a) env_updates

abbrev pub stdin_of : Input → Result Stdin
stdin_of (text s) = ok (pipe s)
stdin_of (bytes s) = ok (pipe s)
stdin_of (stream s) = ok (descriptor s)
stdin_of not_an_input = raised (exception "stdIn must be a string or a file object")

-- What is returned of a process: with no capture neither its output nor the errors of a success.
abbrev pub triple_of : Bool → List String → Finish → Triple
triple_of capture command (os_error message) = config_error message
triple_of capture command (other_error message) = execution_failed (join " " command)
triple_of true command (finished code out err) = record {
  retcode = code;
  std_out = out;
  std_error = err;
}
triple_of false command (finished code out err) = record {
  retcode = code;
  std_out = "";
  std_error = if is_zero code then "" else err;
}

abbrev pub run_request :
    System → Bool → Dict String → List String → Result Stdin → Files → Triple × Files
run_request sys capture env command (raised e) files = (execution_failed (join " " command), files)
run_request sys capture env command (ok stdin) files =
    let (f, files') =
      sys.popen files
        (record { command = command; stdin = stdin; env = env; captured = capture }) in
    (triple_of capture command f, files')

abbrev pub run_words :
    System
    → Bool
    → Dict String
    → Command
    → Result Stdin
    → Result (List String)
    → Files
    → Triple × Files
run_words sys capture env command stdin (raised e) files =
    (execution_failed (command_str command), files)
run_words sys capture env command stdin (ok words) files =
    run_request sys capture env words stdin files

-- `launchSubProcess`
unfoldable pub launch_sub_process :
    System → Command → Input → List String → Dict String → Bool → Files → Triple × Files
launch_sub_process sys command std_in arguments env_updates capture files =
    run_words sys capture (process_env sys.environ env_updates) command (stdin_of std_in)
      (words_of command arguments) files

abbrev pub script_text : Command → String
script_text (line s) = s
script_text (array words) = join " " words

-- `os.unlink`, over the entry of the name.
abbrev pub unlink : String → Files → Option String → Result Files
unlink name files none = raised (exception ("No such file or directory: " <> name))
unlink name files (some s) = ok (delete name files)

abbrev pub cleaned : Triple → Files → Result Files → Result Triple × Files
cleaned t files (ok files') = (ok t, files')
cleaned t files (raised e) = (raised e, files)

-- The script under its name, from its start to its removal. Its standard input is always empty.
unfoldable pub run_script :
    System → String → Command → List String → Dict String → Bool → Files → Result Triple × Files
run_script sys name script arguments env_updates capture files =
    let written = insert name (script_text script) files in
    let (t, files') =
      launch_sub_process sys (array (List.◌∷◌ name arguments)) (text "") List.[] env_updates capture
        written in
    cleaned t files' (unlink name files' (lookup name files'))

abbrev pub with_name :
    Files → Result String → (String → Result Triple × Files) → Result Triple × Files
with_name files (raised e) go = (raised e, files)
with_name files (ok name) go = go name

-- `createAndRunScript`
unfoldable pub create_and_run_script :
    System → Command → Input → List String → Dict String → Bool → Files → Result Triple × Files
create_and_run_script sys script std_in arguments env_updates capture files =
    with_name files (sys.temporary_name files)
      (λ name. run_script sys name script arguments env_updates capture files)

abbrev pub run_as :
    String
    → System
    → Command
    → Input
    → List String
    → Dict String
    → Bool
    → Files
    → Result Triple × Files
run_as shebang sys (array words) std_in arguments env_updates capture files =
    (raised (exception "command must be a str"), files)
run_as shebang sys (line s) std_in arguments env_updates capture files =
    create_and_run_script sys (line (shebang <> "\n" <> s)) std_in arguments env_updates capture
      files

abbrev pub returned_triple : Triple × Files → Result Triple × Files
returned_triple (t, files) = (ok t, files)

-- `executeOrRun`
unfoldable pub execute_or_run :
    System
    → String
    → Command
    → Input
    → List String
    → Dict String
    → Bool
    → Files
    → Result Triple × Files
execute_or_run sys type command std_in arguments env_updates capture files =
    if str_eq type "command"
    then returned_triple (launch_sub_process sys command std_in arguments env_updates capture files)
    else if str_eq type "bashScript"
    then run_as "#!/bin/bash" sys command std_in arguments env_updates capture files
    else if str_eq type "pythonScript"
    then run_as "#!/usr/bin/env python" sys command std_in arguments env_updates capture files
    else if str_eq type "as_is"
    then create_and_run_script sys command std_in arguments env_updates capture files
    else (raised (exception ("unknown type " <> type)), files)
