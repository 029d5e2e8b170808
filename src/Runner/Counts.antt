-- ===== src/Runner/Counts.antt =====
-- client/worker.py: what a run leaves in the counters and in the table of tasks.
use text.Mathlib.TextPositions.{eq_refl}
use ccp.Prelude.{
  ℕ, zero, suc, ◌==◌, ◌+◌, ◌≡◌, refl, String, Bool, true, Option, none, some, List, [], ◌∷◌, arith,
  length, count, not, if◌then◌else◌,
}
use ccp.Prelude.Int.{ℤ, pos, negsuc}
use ccp.Prelude.Raise.{Exception}
use ccp.Job.{Job, Task, get_exit_code, bulk_mark_failed, set_status}
use ccp.Metrics.{Metrics, job_completed, job_failed}
use ccp.Runner.{
  World, Call, succeeded, count_failures, count_job, finish_job, finish_jobs, fail_jobs, after_call,
  run_task,
}

-- The counts of jobs and of failed jobs under one name.
abbrev pub job_count : String → World → ℕ
job_count name w = w.metrics.job_counter name

abbrev pub error_count : String → World → ℕ
error_count name w = w.metrics.job_error_counter name

abbrev is_error : Option ℤ → Bool
is_error none = true
is_error (some (pos n)) = not (n == 0)
is_error (some (negsuc n)) = true

-- A job failed if its exit code is missing or any number but 0.
abbrev pub failed : Job → Bool
failed j = is_error j.int_code

succeeded-is_error : (code : Option ℤ) → succeeded code ≡ not (is_error code)
succeeded-is_error none = refl
succeeded-is_error (some (pos zero)) = refl
succeeded-is_error (some (pos (suc n))) = ground arith
succeeded-is_error (some (negsuc n)) = refl

module _ (name : String) where
  count_job-counts :
      (j : Job) (m : Metrics)
      → m.enabled ≡ true
      → ((count_job name j m).enabled ≡ true)
        × ((count_job name j m).job_counter name ≡ m.job_counter name + 1)
        × ((count_job name j m).job_error_counter name
            ≡ m.job_error_counter name + (if failed j then 1 else 0))
  unfolding count_job job_completed job_failed get_exit_code
  count_job-counts j m on = ground (arith, eq_refl name, succeeded-is_error j.int_code)

  count_failures-counts :
      (jobs : List Job) (m : Metrics)
      → m.enabled ≡ true
      → ((count_failures name jobs m).job_counter name ≡ m.job_counter name + length jobs)
        × ((count_failures name jobs m).job_error_counter name
            ≡ m.job_error_counter name + length jobs)
  unfolding count_failures job_failed
  count_failures-counts [] m on = (omega arith, omega arith)
  count_failures-counts (j ∷ jobs) m on =
      ground (arith, eq_refl name, count_failures-counts jobs (job_failed name m))

module _ (capture : Bool) (clock : ℕ → ℕ) (name : String) where
  -- After the calls that did not raise, each job is counted once, and once more if it failed.
  finish_jobs-counts :
      (jobs : List Job) (w : World)
      → w.metrics.enabled ≡ true
      → let (jobs', w') = finish_jobs capture clock name jobs w in
        (job_count name w' ≡ job_count name w + length jobs')
        × (error_count name w' ≡ error_count name w + count failed jobs')
  unfolding finish_jobs finish_job
  finish_jobs-counts [] w on = (omega arith, omega arith)
  finish_jobs-counts (j ∷ jobs) w on =
      let (j', w') = finish_job capture clock name j w in
      let one = count_job-counts name j' w.metrics on in
      let rest = finish_jobs-counts jobs w' one.0 in
      (omega (arith, one, rest), omega (arith, one, rest))

  failed_after_mark :
      (now : ℕ) (message : String) (jobs : List Job) (tasks : List Task)
      → let jobs' = (bulk_mark_failed now message jobs tasks).0 in count failed jobs' ≡ length jobs'
  unfolding bulk_mark_failed set_status get_exit_code
  failed_after_mark now message [] tasks = refl
  failed_after_mark now message (j ∷ jobs) tasks =
      omega (arith, failed_after_mark now message jobs tasks)

  fail_jobs-counts :
      (e : Exception) (jobs : List Job) (w : World)
      → w.metrics.enabled ≡ true
      → let (jobs', w') = fail_jobs capture clock name e jobs w in
        (job_count name w' ≡ job_count name w + length jobs')
        × (error_count name w' ≡ error_count name w + count failed jobs')
  unfolding fail_jobs
  fail_jobs-counts e jobs w on =
      let jobs' = (bulk_mark_failed (clock w.ticks) e.message jobs w.tasks).0 in
      let all = count_failures-counts name jobs' w.metrics on in
      let marked = failed_after_mark (clock w.ticks) e.message jobs w.tasks in
      (omega (arith, all), omega (arith, all, marked))

  after_call-counts :
      (jobs : List Job) (e : Option Exception) (w : World)
      → w.metrics.enabled ≡ true
      → let (jobs', w', _) = after_call capture clock name jobs e w in
        (job_count name w' ≡ job_count name w + length jobs')
        × (error_count name w' ≡ error_count name w + count failed jobs')
  after_call-counts jobs none w on = finish_jobs-counts jobs w on
  after_call-counts jobs (some e) w on = fail_jobs-counts e jobs w on

  -- With the metrics on, a run counts every job that the script leaves once, and as an error if
  -- its exit code is not 0, whether the script returns or raises.
  pub run_task-counts :
      (job_module : Option Call) (jobs : List Job) (w : World)
      → w.metrics.enabled ≡ true
      → let (jobs', w', _) = run_task capture clock name job_module jobs w in
        (job_count name w' ≡ job_count name w + length jobs')
        × (error_count name w' ≡ error_count name w + count failed jobs')
  unfolding run_task
  run_task-counts job_module jobs w on = after_call-counts _ _ _ on
