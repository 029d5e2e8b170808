-- ===== src/Runner.antt =====
-- client/worker.py: `run_task`. The clock is the parameter `clock`, its reading number n for each n.
-- A module's `call` changes the jobs in place, and may raise; `none` is a module that failed to import.
pub mod Counts
pub mod Rows
use ccp.Prelude.{ℕ, ◌+◌, String, Bool, Option, none, some, List, [], ◌∷◌, if◌then◌else◌}
use ccp.Prelude.Int.{ℤ, is_zero}
use ccp.Prelude.Raise.{Exception, exception}
use ccp.Job.{Job, Task, bulk_set_start_times, bulk_mark_failed, update_task_status, get_exit_code}
use ccp.Metrics.{Metrics, job_completed, job_failed}

pub record World : Type 0 where
  pub tasks : List Task
  pub metrics : Metrics
  pub ticks : ℕ

abbrev pub Call : Type 0
Call = List Job → List Job × Option Exception

-- `job_module.call(jobs)`
unfoldable pub call_module : Option Call → Call
call_module none jobs = (jobs, some (exception "'NoneType' object has no attribute 'call'"))
call_module (some call) jobs = call jobs

-- exit_code == 0
abbrev pub succeeded : Option ℤ → Bool
succeeded none = ccp.Prelude.false
succeeded (some c) = is_zero c

-- `for _ in jobs: metrics.job_failed(task_name)`
unfoldable pub count_failures : String → List Job → Metrics → Metrics
count_failures name [] m = m
count_failures name (j ∷ jobs) m = count_failures name jobs (job_failed name m)

unfoldable pub count_job : String → Job → Metrics → Metrics
count_job name j m = if succeeded (get_exit_code j) then job_completed name m else job_failed name m

module _ (capture : Bool) (clock : ℕ → ℕ) where
  -- One round of the loop of the `else` clause.
  unfoldable pub finish_job : String → Job → World → Job × World
  finish_job name j w =
      let (j', tasks) = update_task_status capture (clock w.ticks) j w.tasks in
      (j', record { tasks = tasks; metrics = count_job name j' w.metrics; ticks = w.ticks + 1 })

  unfoldable pub finish_jobs : String → List Job → World → List Job × World
  finish_jobs name [] w = ([], w)
  finish_jobs name (j ∷ jobs) w =
      let (j', w') = finish_job name j w in
      let (jobs', w'') = finish_jobs name jobs w' in (j' ∷ jobs', w'')

  -- The `except` clause, which raises the exception again.
  unfoldable pub fail_jobs : String → Exception → List Job → World → List Job × World
  fail_jobs name e jobs w =
      let (jobs', tasks) = bulk_mark_failed (clock w.ticks) e.message jobs w.tasks in
      (
        jobs',
        record {
          tasks = tasks;
          metrics = count_failures name jobs' w.metrics;
          ticks = w.ticks + 1;
        },
      )

  abbrev pub after_call :
      String → List Job → Option Exception → World → List Job × World × Option Exception
  after_call name jobs none w = let (jobs', w') = finish_jobs name jobs w in (jobs', w', none)
  after_call name jobs (some e) w = let (jobs', w') = fail_jobs name e jobs w in (jobs', w', some e)

  unfoldable pub run_task :
      String → Option Call → List Job → World → List Job × World × Option Exception
  unfolding call_module
  run_task name job_module jobs w =
      let (started, tasks) = bulk_set_start_times (clock w.ticks) jobs w.tasks in
      let (called, e) = call_module job_module started in
      after_call name called e (record w { tasks = tasks; ticks = w.ticks + 1 })
