-- ===== src/Job.antt =====
-- client/job.py: a unit of work, and the rows of the table of tasks (main/models.py) that it updates.
-- A reading of the clock is a number. `int_code` may be None, as `update_task_status` allows.
pub mod Context
pub mod Effects
use ccp.Prelude.{
  ℕ, ◌≡◌, String, ◌<>◌, Bool, true, false, Option, none, some, List, [], ◌∷◌, map, str_eq, any,
  if◌then◌else◌,
}
use ccp.Prelude.Int.{ℤ, pos, is_zero}
use ccp.Prelude.Raise.{Result, ok, raised, exception}

pub record Job : Type 0 where
  pub name : String
  pub uuid : String
  pub args : List String
  pub capture_output : Bool
  pub int_code : Option ℤ
  pub status_code : String
  pub output : String
  pub error : String
  pub start_time : Option ℕ
  pub end_time : Option ℕ

-- `Job(name, uuid, arguments, capture_output)`
abbrev pub new_job : String → String → List String → Bool → Job
new_job name uuid arguments capture_output = record {
  name = name;
  uuid = uuid;
  args = name ∷ arguments;
  capture_output = capture_output;
  int_code = some (pos 0);
  status_code = "";
  output = "";
  error = "";
  start_time = none;
  end_time = none;
}

-- The columns of a row of `Tasks` that the worker writes, with its key.
pub record Task : Type 0 where
  pub taskuuid : String
  pub starttime : Option ℕ
  pub endtime : Option ℕ
  pub exitcode : Option ℤ
  pub stdout : String
  pub stderror : String

-- `Task.objects.filter(taskuuid__in=uuids).update(...)`
abbrev pub update_in : List String → (Task → Task) → List Task → List Task
update_in uuids change = map (λ t. if any (str_eq t.taskuuid) uuids then change t else t)

abbrev pub uuids_of : List Job → List String
uuids_of = map (λ j. j.uuid)

-- The row of a task, `taskuuid` being the primary key.
unfoldable pub find_task : String → List Task → Option Task
find_task u [] = none
find_task u (t ∷ tasks) = if str_eq t.taskuuid u then some t else find_task u tasks

unfoldable pub set_status : ℤ → String → Job → Job
set_status int_code status_code j =
    if is_zero int_code
    then record j { status_code = status_code }
    else record j { int_code = some int_code; status_code = status_code }

-- The default status code of `set_status`.
abbrev pub success : String
success = "success"

unfoldable pub write_output : String → Job → Job
write_output s j = record j { output = j.output <> s }

unfoldable pub write_error : String → Job → Job
write_error s j = record j { error = j.error <> s }

-- sep.join(xs)
abbrev pub join : String → List String → String
join sep [] = ""
join sep (x ∷ []) = x
join sep (x ∷ y ∷ xs) = x <> sep <> join sep (y ∷ xs)

unfoldable pub print_output : List String → Job → Job
unfolding write_output
print_output objects j = write_output (join " " objects <> "\n") j

unfoldable pub print_error : List String → Job → Job
unfolding write_error
print_error objects j = write_error (join " " objects <> "\n") j

pub data PrintFile : Type 0 where
  stdout stderr : PrintFile
  other_file : String → PrintFile

unfoldable pub pyprint : PrintFile → String → String → List String → Job → Result Job
unfolding write_output write_error
pyprint stdout sep end objects j = ok (write_output (join sep objects <> end) j)
pyprint stderr sep end objects j = ok (write_error (join sep objects <> end) j)
pyprint (other_file f) sep end objects j = raised (exception ("Unrecognised print file: " <> f))

-- `get_exit_code`, `get_stdout` and `get_stderr`
unfoldable pub get_exit_code : Job → Option ℤ
get_exit_code j = j.int_code

unfoldable pub get_stdout : Job → String
get_stdout j = j.output

unfoldable pub get_stderr : Job → String
get_stderr j = j.error

abbrev pub set_start_time : ℕ → Job → Job
set_start_time now j = record j { start_time = some now }

abbrev pub started_row : ℕ → Task → Task
started_row now t = record t { starttime = some now }

unfoldable pub bulk_set_start_times : ℕ → List Job → List Task → List Job × List Task
bulk_set_start_times now jobs tasks =
    (map (set_start_time now) jobs, update_in (uuids_of jobs) (started_row now) tasks)

abbrev pub failed_row : ℕ → String → Task → Task
failed_row now message t = record t {
  stderror = message;
  exitcode = some (pos 1);
  endtime = some now;
}

unfoldable pub bulk_mark_failed : ℕ → String → List Job → List Task → List Job × List Task
unfolding set_status
bulk_mark_failed now message jobs tasks = (
  map (set_status (pos 1) message) jobs,
  update_in (uuids_of jobs) (failed_row now message) tasks,
)

-- Not all jobs set an exit code: the default is stated again, as the code does.
default_status : Job → Job
unfolding set_status
default_status j = elim j.int_code [ none ↦ set_status (pos 0) success j | some c ↦ j ]

-- The columns that `update_task_status` writes. `capture` is `settings.CAPTURE_CLIENT_SCRIPT_OUTPUT`.
unfoldable pub finished_row : Bool → Job → Task → Task
unfolding get_exit_code get_stdout get_stderr
finished_row capture j t =
    let row : Task = record t { exitcode = get_exit_code j; endtime = j.end_time } in
    if capture then record row { stdout = get_stdout j; stderror = get_stderr j } else row

unfoldable pub update_task_status : Bool → ℕ → Job → List Task → Job × List Task
unfolding default_status
update_task_status capture now j tasks =
    let j' : Job = record (default_status j) { end_time = some now } in
    (j', update_in (j'.uuid ∷ []) (finished_row capture j') tasks)
