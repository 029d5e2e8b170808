-- ===== src/Gearman/Agreement.antt =====
-- client/gearman.py and client/worker.py together: the results that are sent back agree with the
-- table of tasks.
use mathlib.Core.Option
use ccp.Prelude.{
  ℕ, ◌+◌, ◌≡◌, refl, ◌∙◌, sym, ap, String, Bool, true, false, Option, none, some, List, [], ◌∷◌,
  arith, All, if◌then◌else◌,
}
use ccp.Prelude.Dict.{Dict, lookup, keys}
use ccp.Prelude.Raise.{Exception, Result, ok, raised}
use ccp.Job.{Job, Task, uuids_of}
use ccp.Runner.{World, Call, run_task}
use ccp.Runner.Rows.{
  Distinct, HasRow, HasItsCode, KeepsUuids, row_code, run_task-rows, run_task-uuids,
}
use ccp.CommandLine.{Settings}
use ccp.Gearman.{
  TaskData, JobResults, job_data, format_job_results, prepare_jobs, GearmanWorker, handle_job,
  handle_found, reply, run_prepared,
}
use ccp.Gearman.Answers.{IsReported, format_job_results-IsReported, uuids_of-prepare_jobs}

-- The exit code that is sent back for a task is the one in its row.
abbrev pub Agrees : JobResults → List Task → String → Type 0
Agrees results tasks u = Option.map (λ d. d.exit_code) (lookup u results) ≡ row_code u tasks

abbrev pub is_ok {ℓ} : {A : Type ℓ} → Result A → Bool
is_ok (ok a) = true
is_ok (raised e) = false

Agrees-job :
    (results : JobResults) (tasks : List Task) (j : Job)
    → IsReported results j
    → HasItsCode tasks j
    → Agrees results tasks j.uuid
unfolding job_data
Agrees-job results tasks j a b = ap (Option.map (λ d. d.exit_code)) a ∙ sym b

Agrees-jobs :
    (results : JobResults) (tasks : List Task) (jobs : List Job)
    → All (IsReported results) jobs
    → All (HasItsCode tasks) jobs
    → All (Agrees results tasks) (uuids_of jobs)
Agrees-jobs results tasks [] a b = tt
Agrees-jobs results tasks (j ∷ jobs) a b =
    (Agrees-job results tasks j a.0 b.0, Agrees-jobs results tasks jobs a.1 b.1)

module _ (reformat : String → Result String) (env : Settings) (capture : Bool) (clock : ℕ → ℕ) where
  abbrev replied :
      GearmanWorker
      → List Job
      → World
      → Option Exception
      → Result JobResults × GearmanWorker × World
  replied = reply reformat env capture clock

  abbrev found_reply :
      String
      → Dict TaskData
      → GearmanWorker
      → World
      → Option (Option Call)
      → Result JobResults × GearmanWorker × World
  found_reply = handle_found reformat env capture clock

  Agrees-reply :
      (g : GearmanWorker) (jobs : List Job) (w : World) (e : Option Exception)
      (results : JobResults)
      → Distinct (uuids_of jobs)
      → All (HasItsCode w.tasks) jobs
      → (replied g jobs w e).0 ≡ ok results
      → All (Agrees results (replied g jobs w e).2.tasks) (uuids_of jobs)
  Agrees-reply g jobs w none results d codes h =
      Agrees-jobs results w.tasks jobs (rw (result_of h) (format_job_results-IsReported jobs d))
        codes
    where
      result_of : ok (format_job_results jobs) ≡ ok results → results ≡ format_job_results jobs
      result_of e = cc
  Agrees-reply g jobs w (some e) results d codes h = cc

  Agrees-prepared :
      (name : String) (m : Option Call) (g : GearmanWorker) (w : World) (us : List String)
      (prepared : Result (List Job)) (results : JobResults)
      → ((jobs : List Job) → prepared ≡ ok jobs → uuids_of jobs ≡ us)
      → KeepsUuids m
      → Distinct us
      → All (HasRow w.tasks) us
      → (run_prepared reformat env capture clock name m g w prepared).0 ≡ ok results
      → All
          (Agrees results (run_prepared reformat env capture clock name m g w prepared).2.tasks)
          us
  Agrees-prepared name m g w us (raised e) results same keeps d rows h = cc
  Agrees-prepared name m g w us (ok jobs) results same keeps d rows h =
      let (jobs', w', e) = run_task capture clock name m jobs w in
      let u = same jobs refl in
      let u' = run_task-uuids capture clock name m jobs w keeps ∙ u in
      rw (← u') (
        Agrees-reply g jobs' w' e results (rw u' d)
          (run_task-rows capture clock name m jobs w keeps (rw u d) (rw u rows)) h)

  Agrees-found :
      (name : String) (tasks : Dict TaskData) (g : GearmanWorker) (w : World)
      (found : Option (Option Call)) (results : JobResults)
      → ((m : Option Call) → found ≡ some m → KeepsUuids m)
      → Distinct (keys tasks)
      → All (HasRow w.tasks) (keys tasks)
      → (found_reply name tasks g w found).0 ≡ ok results
      → All (Agrees results (found_reply name tasks g w found).2.tasks) (keys tasks)
  Agrees-found name tasks g w none results keeps d rows h = cc
  Agrees-found name tasks g w (some m) results keeps d rows h =
      Agrees-prepared name m g w (keys tasks) (prepare_jobs reformat env name tasks) results
        (uuids_of-prepare_jobs reformat env name tasks) (keeps m refl) d rows h

  -- When a Gearman request of different tasks that have rows is answered, and the script keeps the
  -- jobs' identifiers, the answer holds for every task the exit code that is now in the task's
  -- row.
  pub handle_job-Agrees :
      (name : String) (tasks : Dict TaskData) (g : GearmanWorker) (w : World) (results : JobResults)
      → ((m : Option Call) → lookup name g.job_modules ≡ some m → KeepsUuids m)
      → Distinct (keys tasks)
      → All (HasRow w.tasks) (keys tasks)
      → (handle_job reformat env capture clock name tasks g w).0 ≡ ok results
      → All
          (Agrees results (handle_job reformat env capture clock name tasks g w).2.tasks)
          (keys tasks)
  unfolding handle_job
  handle_job-Agrees name tasks g w results keeps d rows h =
      Agrees-found name tasks g w (lookup name g.job_modules) results keeps d rows h

  counted_reply :
      (g : GearmanWorker) (jobs : List Job) (w : World) (e : Option Exception)
      → (replied g jobs w e).1.jobs_processed_count
        ≡ g.jobs_processed_count + (if is_ok (replied g jobs w e).0 then 1 else 0)
  counted_reply g jobs w e = ground arith

  counted_prepared :
      (name : String) (m : Option Call) (g : GearmanWorker) (w : World)
      (prepared : Result (List Job))
      → let r = run_prepared reformat env capture clock name m g w prepared in
        r.1.jobs_processed_count ≡ g.jobs_processed_count + (if is_ok r.0 then 1 else 0)
  counted_prepared name m g w (raised e) = omega arith
  counted_prepared name m g w (ok jobs) =
      let (jobs', w', e) = run_task capture clock name m jobs w in counted_reply g jobs' w' e

  counted_found :
      (name : String) (tasks : Dict TaskData) (g : GearmanWorker) (w : World)
      (found : Option (Option Call))
      → let r = found_reply name tasks g w found in
        r.1.jobs_processed_count ≡ g.jobs_processed_count + (if is_ok r.0 then 1 else 0)
  counted_found name tasks g w none = omega arith
  counted_found name tasks g w (some m) =
      counted_prepared name m g w (prepare_jobs reformat env name tasks)

  -- The count towards the limit of jobs goes up by one for a request that is answered and stays
  -- for one that raises.
  handle_job-count :
      (name : String) (tasks : Dict TaskData) (g : GearmanWorker) (w : World)
      → let r = handle_job reformat env capture clock name tasks g w in
        r.1.jobs_processed_count ≡ g.jobs_processed_count + (if is_ok r.0 then 1 else 0)
  unfolding handle_job
  handle_job-count name tasks g w = counted_found name tasks g w (lookup name g.job_modules)
