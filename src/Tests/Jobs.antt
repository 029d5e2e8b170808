-- ===== src/Tests/Jobs.antt =====
-- client/job.py, client/worker.py, client/gearman.py and client/utils.py on concrete jobs.
use mathlib.Core.Path.{subst}
use ccp.Prelude.{
  ℕ, ◌+◌, ◌≡◌, refl, String, true, false, Option, none, some, List, [], ◌∷◌, map, All, length,
  count, arith,
}
use ccp.Prelude.Dict.{Dict, keys, lookup}
use ccp.Prelude.Int.{pos}
use ccp.Prelude.Raise.{Exception, Result, ok, raised}
use ccp.Job.{
  Job, Task, new_job, uuids_of, find_task, set_status, success, update_task_status, write_output,
  bulk_set_start_times,
}
use ccp.Job.Context.{LogRecord, Body, job_context, on_exception, info_level}
use ccp.Job.Effects.{logging, job_context-logging, find_task-update_task_status}
use ccp.Metrics.{Metrics}
use ccp.Runner.{World, Call, call_module, run_task, finish_job, finish_jobs}
use ccp.Runner.Counts.{job_count, error_count, failed, run_task-counts}
use ccp.Runner.Rows.{HasItsCode, KeepsUuids, run_task-rows}
use ccp.CommandLine.{Settings, parse_command_line, replace_task_arguments}
use ccp.CommandLine.Shlex.{split}
use ccp.CommandLine.Roundtrip.{command_line, parse_command_line-command_line}
use ccp.Gearman.{
  TaskData, JobResults, format_job_results, prepare_job, prepare_jobs, GearmanWorker, handle_job,
}
use ccp.Gearman.Answers.{IsReported, format_job_results-IsReported}
use ccp.Gearman.Agreement.{Agrees, handle_job-Agrees}

abbrev pub job_a : Job
job_a = new_job "copy" "a" ("x" ∷ []) true

abbrev job_b : Job
job_b = new_job "copy" "b" ("y" ∷ []) false

abbrev row : String → Task
row u = record {
  taskuuid = u;
  starttime = none;
  endtime = none;
  exitcode = none;
  stdout = "";
  stderror = "";
}

abbrev rows : List Task
rows = row "a" ∷ row "b" ∷ []

abbrev pub metrics : Metrics
metrics = record { enabled = true; job_counter = λ _. 0; job_error_counter = λ _. 0; dead = [] }

abbrev world : World
world = record { tasks = rows; metrics = metrics; ticks = 0 }

abbrev clock : ℕ → ℕ
clock n = n + 10

-- A script that fails all its jobs, and returns.
abbrev fail_all : Call
fail_all jobs = (map (set_status (pos 2) "failed") jobs, none)

fail_all-uuids : (jobs : List Job) → uuids_of (fail_all jobs).0 ≡ uuids_of jobs
unfolding set_status
fail_all-uuids [] = refl
fail_all-uuids (j ∷ jobs) = λ i. j.uuid ∷ fail_all-uuids jobs i

abbrev after_run : List Job × World × Option Exception
after_run = run_task true clock "copy" (some fail_all) (job_a ∷ job_b ∷ []) world

run_task-rows_example : All (HasItsCode after_run.1.tasks) after_run.0
unfolding find_task
run_task-rows_example =
    run_task-rows true clock "copy" (some fail_all) (job_a ∷ job_b ∷ []) world
      (λ jobs. unfold call_module in fail_all-uuids jobs) (refl, (refl, tt)) (refl, (refl, tt))

run_task-counts_example :
    (job_count "copy" after_run.1 ≡ job_count "copy" world + length after_run.0)
    × (error_count "copy" after_run.1 ≡ error_count "copy" world + count failed after_run.0)
run_task-counts_example =
    run_task-counts true clock "copy" (some fail_all) (job_a ∷ job_b ∷ []) world refl

abbrev settings : Settings
settings = record { shared_directory = "/shared/"; assets_dir = "/assets"; now = "2026-01-01" }

abbrev task_data : TaskData
task_data = record {
  created_date = "2026-01-01T00:00:00";
  arguments = "\"%sharedPath%x\"";
  wants_output = none;
}

abbrev tasks : Dict TaskData
tasks = ("a", task_data) ∷ ("b", task_data) ∷ []

abbrev worker : GearmanWorker
worker = record {
  job_modules = ("copy", some fail_all) ∷ [];
  jobs_processed_count = 0;
  max_jobs_to_process = some 5;
  shutdown_event = none;
}

abbrev handled : Result JobResults × GearmanWorker × World
handled = handle_job ok settings true clock "copy" tasks worker world

abbrev results : JobResults
results = elim handled.0 [ ok r ↦ r | raised e ↦ [] ]

handled-ok : handled.0 ≡ ok results
unfolding handle_job prepare_jobs prepare_job parse_command_line replace_task_arguments split
    run_task bulk_set_start_times finish_jobs finish_job format_job_results lookup
handled-ok = refl

the_module : (m : Option Call) → lookup "copy" worker.job_modules ≡ some m → KeepsUuids m
unfolding lookup
the_module m h = subst KeepsUuids (some_eq h) (λ jobs. unfold call_module in fail_all-uuids jobs)
  where
    some_eq : ◌≡◌ {A = Option (Option Call)} (some (some fail_all)) (some m) → some fail_all ≡ m
    some_eq e = cc

handle_job-Agrees_example : All (Agrees results handled.2.tasks) (keys tasks)
unfolding find_task
handle_job-Agrees_example =
    handle_job-Agrees ok settings true clock "copy" tasks worker world results the_module
      (refl, (refl, tt)) (refl, (refl, tt)) handled-ok

format_job_results-IsReported_example :
    All (IsReported (format_job_results (job_a ∷ job_b ∷ []))) (job_a ∷ job_b ∷ [])
format_job_results-IsReported_example =
    format_job_results-IsReported (job_a ∷ job_b ∷ []) (refl, (refl, tt))

abbrev prepared : List Job
prepared = elim (prepare_jobs ok settings "copy" tasks) [ ok js ↦ js | raised e ↦ [] ]

prepared-ok : prepare_jobs ok settings "copy" tasks ≡ ok prepared
unfolding prepare_jobs parse_command_line replace_task_arguments split
prepared-ok = refl

abbrev arguments : List String
arguments = "/a b/c" ∷ "" ∷ "it's" ∷ []

parse_command_line-command_line_example : parse_command_line (command_line arguments) ≡ ok arguments
parse_command_line-command_line_example =
    parse_command_line-command_line arguments (refl, (refl, (refl, tt)))

abbrev broken : Exception
broken = record { message = "broken"; traceback = "line 1" }

-- A block that writes, and then raises.
abbrev raising : Body
raising s = (record s { job = write_output "half" (set_status (pos 0) success s.job) }, some broken)

abbrev info : LogRecord
info = record { levelno = info_level; message = "moved" }

job_context-logging_example :
    job_context true (logging (info ∷ []) none) job_a ≡ on_exception none job_a
job_context-logging_example = job_context-logging true (info ∷ []) none job_a (omega arith)

find_task-update_task_status_example :
    find_task "a" (update_task_status true 9 job_a rows).1
    ≡ some (record (row "a") {
      exitcode = job_a.int_code;
      endtime = some 9;
      stdout = "";
      stderror = "";
    })
find_task-update_task_status_example =
    find_task-update_task_status true 9 job_a rows "a" (row "a") found
  where
    found : find_task "a" rows ≡ some (row "a")
    found = unfold find_task in refl
