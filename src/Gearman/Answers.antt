-- ===== src/Gearman/Answers.antt =====
-- client/gearman.py: what a request leaves and sends back.
use text.Mathlib.TextPositions.{eq_refl}
use ccp.Prelude.{
  ℕ, ◌<◌, ◌≡◌, ◌≢◌, refl, ◌∙◌, sym, ap, ap₂, String, true, false, none, some, List, [], ◌∷◌, ◌↔◌,
  arith, All, any, str_eq, if◌then◌else◌, eq_iff, Option-cases, inl, inr,
}
use ccp.Prelude.Dict.{Dict, lookup, insert, lookup-insert, keys}
use ccp.Prelude.Raise.{Result, ok, raised, >>=-eq-ok}
use ccp.Job.{Job, uuids_of, get_exit_code, get_stdout, get_stderr}
use ccp.Runner.Rows.{Distinct}
use ccp.CommandLine.{Settings}
use ccp.Gearman.{
  TaskData, JobResults, job_data, format_jobs_onto, format_job_results, prepare_job, prepare_jobs,
  GearmanWorker, after_poll,
}

format_other :
    (jobs : List Job) (results : JobResults) (u : String)
    → any (str_eq u) (uuids_of jobs) ≡ false
    → lookup u (format_jobs_onto results jobs) ≡ lookup u results
unfolding format_jobs_onto
format_other [] results u h = refl
format_other (j ∷ jobs) results u h =
    format_other jobs (insert j.uuid (job_data j) results) u (ground arith)
    ∙ lookup-insert j.uuid u (job_data j) results
    ∙ ground (arith, eq_iff j.uuid u, eq_iff u j.uuid)

-- The results hold the code, the end and, where the output is captured, the texts of a job.
abbrev pub IsReported : JobResults → Job → Type 0
IsReported results j =
    lookup j.uuid results
    ≡ some (record {
      exit_code = j.int_code;
      finished_timestamp = j.end_time;
      stdout = if j.capture_output then some j.output else none;
      stderror = if j.capture_output then some j.error else none;
    })

format_onto :
    (jobs : List Job) (results : JobResults)
    → Distinct (uuids_of jobs)
    → All (IsReported (format_jobs_onto results jobs)) jobs
unfolding format_jobs_onto job_data get_exit_code get_stdout get_stderr
format_onto [] results d = tt
format_onto (j ∷ jobs) results d = (
  format_other jobs (insert j.uuid (job_data j) results) j.uuid d.0
      ∙ lookup-insert j.uuid j.uuid (job_data j) results
      ∙ ground (arith, eq_refl j.uuid),
  format_onto jobs (insert j.uuid (job_data j) results) d.1,
)

-- For jobs of different tasks, the results hold under the identifier of each its exit code, its
-- end and, if it captures its output, its texts.
pub format_job_results-IsReported :
    (jobs : List Job) → Distinct (uuids_of jobs) → All (IsReported (format_job_results jobs)) jobs
unfolding format_job_results
format_job_results-IsReported jobs d = format_onto jobs [] d

module _ (reformat : String → Result String) (env : Settings) where
  uuid-prepare_job :
      (name u : String) (t : TaskData) (job : Job)
      → prepare_job reformat env name u t ≡ ok job
      → job.uuid ≡ u
  unfolding prepare_job
  uuid-prepare_job name u t job h = ground arith

  -- The jobs that are prepared with no exception stand for the tasks of the request, in their
  -- order.
  pub uuids_of-prepare_jobs :
      (name : String) (tasks : Dict TaskData) (jobs : List Job)
      → prepare_jobs reformat env name tasks ≡ ok jobs
      → uuids_of jobs ≡ keys tasks
  unfolding prepare_jobs
  uuids_of-prepare_jobs name [] jobs h =
      ap (λ (r : Result (List Job)). elim r [ ok js ↦ uuids_of js | raised _ ↦ [] ]) (sym h)
  uuids_of-prepare_jobs name ((u, t) ∷ tasks) jobs h =
      let (j, hj, h') = >>=-eq-ok (prepare_job reformat env name u t) _ h in
      let (js, hjs, h'') = >>=-eq-ok (prepare_jobs reformat env name tasks) _ h' in
      ap (λ (r : Result (List Job)). elim r [ ok js ↦ uuids_of js | raised _ ↦ [] ]) (sym h'')
      ∙ ap₂ (λ (a : String) (b : List String). a ∷ b) (uuid-prepare_job name u t j hj)
          (uuids_of-prepare_jobs name tasks js hjs)

-- The worker goes on exactly when no shutdown is set and the limit, if there is one, is not reached.
pub after_poll_iff :
    (g : GearmanWorker)
    → (after_poll g ≡ true) ↔ (
        (g.shutdown_event ≢ some true)
        × ((most : ℕ) → g.max_jobs_to_process ≡ some most → g.jobs_processed_count < most))
unfolding after_poll
after_poll_iff g = (
  λ h. (λ e. ground arith, λ most e. ground arith),
  λ h. elim (Option-cases g.max_jobs_to_process) [
    | inl e ↦ ground (arith, h.0)
    | inr (most, e) ↦ ground (arith, h.0, h.1 most e)
  ],
)
