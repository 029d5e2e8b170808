-- ===== src/Gearman.antt =====
-- client/gearman.py: from the tasks of a Gearman job to jobs, and from jobs to the results that are
-- sent back. `reformat` stands for `datetime.fromisoformat(...).isoformat(" ")`, which may raise.
pub mod Answers
pub mod Agreement
use ccp.Prelude.{
  ℕ, ◌+◌, String, Bool, true, false, Option, none, some, List, [], ◌∷◌, not, leb, if◌then◌else◌,
}
use ccp.Prelude.Dict.{Dict, lookup, insert}
use ccp.Prelude.Int.{ℤ}
use ccp.Prelude.Raise.{Exception, exception, Result, ok, raised, ◌>>=◌}
use ccp.Job.{Job, new_job, get_exit_code, get_stdout, get_stderr}
use ccp.CommandLine.{Settings, parse_command_line, replace_task_arguments}
use ccp.Runner.{World, Call, run_task}

-- `TaskData`; the key `wants_output` may be missing.
pub record TaskData : Type 0 where
  pub created_date : String
  pub arguments : String
  pub wants_output : Option Bool

-- `JobData`; the texts are there if the job captures its output.
pub record JobData : Type 0 where
  pub exit_code : Option ℤ
  pub finished_timestamp : Option ℕ
  pub stdout : Option String
  pub stderror : Option String

abbrev pub JobResults : Type 0
JobResults = Dict JobData

unfoldable pub job_data : Job → JobData
unfolding get_exit_code get_stdout get_stderr
job_data job = record {
  exit_code = get_exit_code job;
  finished_timestamp = job.end_time;
  stdout = if job.capture_output then some (get_stdout job) else none;
  stderror = if job.capture_output then some (get_stderr job) else none;
}

-- The loop of `_format_job_results`.
unfoldable pub format_jobs_onto : JobResults → List Job → JobResults
format_jobs_onto results [] = results
format_jobs_onto results (job ∷ jobs) =
    format_jobs_onto (insert job.uuid (job_data job) results) jobs

unfoldable pub format_job_results : List Job → JobResults
unfolding format_jobs_onto
format_job_results = format_jobs_onto []

abbrev default_true : Option Bool → Bool
default_true none = true
default_true (some b) = b

module _ (reformat : String → Result String) (env : Settings) where
  unfoldable pub prepare_job : String → String → TaskData → Result Job
  prepare_job task_name task_uuid task_data = do
    created_date ← reformat task_data.created_date
    arguments ←
        parse_command_line (replace_task_arguments env task_data.arguments task_uuid created_date)
    ok (new_job task_name task_uuid arguments (default_true task_data.wants_output))

  unfoldable pub prepare_jobs : String → Dict TaskData → Result (List Job)
  unfolding prepare_job
  prepare_jobs task_name [] = ok []
  prepare_jobs task_name ((task_uuid, task_data) ∷ tasks) =
      let rest = prepare_jobs task_name tasks in
      do job ← prepare_job task_name task_uuid task_data; jobs ← rest; ok (job ∷ jobs)

-- The attributes of `MCPGearmanWorker` that its methods read and write. The event is None, or set or
-- not.
pub record GearmanWorker : Type 0 where
  pub job_modules : Dict (Option Call)
  pub jobs_processed_count : ℕ
  pub max_jobs_to_process : Option ℕ
  pub shutdown_event : Option Bool

abbrev pub Handled : Type 0
Handled = Result JobResults × GearmanWorker × World

module _ (reformat : String → Result String) (env : Settings) (capture : Bool) (clock : ℕ → ℕ) where
  -- The end of `handle_job`: an exception of `run_task` passes the counter by.
  abbrev pub reply : GearmanWorker → List Job → World → Option Exception → Handled
  reply g jobs w (some e) = (raised e, g, w)
  reply g jobs w none = (
    ok (format_job_results jobs),
    record g { jobs_processed_count = g.jobs_processed_count + 1 },
    w,
  )

  abbrev pub run_prepared :
      String → Option Call → GearmanWorker → World → Result (List Job) → Handled
  run_prepared task_name job_module g w (raised e) = (raised e, g, w)
  run_prepared task_name job_module g w (ok jobs) =
      let (jobs', w', e) = run_task capture clock task_name job_module jobs w in reply g jobs' w' e

  -- With the module that the worker has for the task, or the KeyError.
  abbrev pub handle_found :
      String → Dict TaskData → GearmanWorker → World → Option (Option Call) → Handled
  handle_found task_name tasks g w none = (raised (exception task_name), g, w)
  handle_found task_name tasks g w (some job_module) =
      run_prepared task_name job_module g w (prepare_jobs reformat env task_name tasks)

  unfoldable pub handle_job : String → Dict TaskData → GearmanWorker → World → Handled
  handle_job task_name tasks g w = handle_found task_name tasks g w (lookup task_name g.job_modules)

abbrev is_set : Option Bool → Bool
is_set none = false
is_set (some b) = b

abbrev reached : Option ℕ → ℕ → Bool
reached none n = false
reached (some most) n = leb most n

-- `after_poll`: whether the worker goes on.
unfoldable pub after_poll : GearmanWorker → Bool
after_poll g =
    if is_set g.shutdown_event
    then false
    else if reached g.max_jobs_to_process g.jobs_processed_count
    then false
    else true
