-- ===== src/Runner/Rows.antt =====
-- client/worker.py: the rows of the table of tasks after a run.
use mathlib.Core.Option
use text.Mathlib.TextPositions.{eq_refl}
use ccp.Prelude.{
  ℕ, ◌≡◌, refl, ◌∙◌, sym, ap, ap₂, All-map, ◌&&◌, String, Bool, true, false, Option, none, some,
  List, [], ◌∷◌, arith, any, All, is_some, str_eq, if◌then◌else◌, map,
}
use ccp.Prelude.Int.{ℤ, pos}
use ccp.Prelude.Raise.{Exception}
use ccp.Job.{
  Job, Task, update_in, find_task, update_task_status, uuids_of, bulk_mark_failed,
  bulk_set_start_times, set_status, finished_row, started_row, failed_row,
}
use ccp.Job.Effects.{find_task-update_in, taskuuid-finished_row}
use ccp.Runner.{World, finish_job, finish_jobs, fail_jobs, after_call, run_task, Call, call_module}

-- The exit code in the row of a task, if there is a row.
abbrev pub row_code : String → List Task → Option (Option ℤ)
row_code u tasks = Option.map (λ t. t.exitcode) (find_task u tasks)

-- No task comes twice.
abbrev pub Distinct : List String → Type 0
Distinct [] = Unit
Distinct (u ∷ us) = (any (str_eq u) us ≡ false) × Distinct us

abbrev pub HasRow : List Task → String → Type 0
HasRow tasks u = is_some (find_task u tasks) ≡ true

abbrev pub HasItsCode : List Task → Job → Type 0
HasItsCode tasks j = row_code j.uuid tasks ≡ some j.int_code

module _ (capture : Bool) (now : ℕ) where
  update_task_status-keeps :
      (j : Job) (tasks : List Task)
      → ((update_task_status capture now j tasks).0.uuid ≡ j.uuid)
        × ((update_task_status capture now j tasks).0.int_code ≡ j.int_code)
  unfolding update_task_status set_status
  update_task_status-keeps j tasks = ground arith

  update_task_status-find :
      (j : Job) (tasks : List Task) (u : String)
      → row_code u (update_task_status capture now j tasks).1 ≡ (
          if str_eq u j.uuid && is_some (find_task u tasks)
          then some j.int_code
          else row_code u tasks)
  unfolding update_task_status finished_row set_status
  update_task_status-find j tasks u =
      let j' : Job = (update_task_status capture now j tasks).0 in
      rw
        (find_task-update_in u (j'.uuid ∷ []) (finished_row capture j') tasks
          (taskuuid-finished_row capture j'))
        (ground arith)

  update_task_status-HasRow :
      (j : Job) (tasks : List Task) (u : String)
      → HasRow tasks u
      → HasRow (update_task_status capture now j tasks).1 u
  unfolding update_task_status
  update_task_status-HasRow j tasks u h =
      let j' : Job = (update_task_status capture now j tasks).0 in
      rw
        (find_task-update_in u (j'.uuid ∷ []) (finished_row capture j') tasks
          (taskuuid-finished_row capture j'))
        (ground arith)

module _ (capture : Bool) (clock : ℕ → ℕ) (name : String) where
  -- A run of the loop leaves the rows of other tasks.
  finish_jobs-other :
      (jobs : List Job) (w : World) (u : String)
      → any (str_eq u) (uuids_of jobs) ≡ false
      → row_code u (finish_jobs capture clock name jobs w).1.tasks ≡ row_code u w.tasks
  unfolding finish_jobs finish_job
  finish_jobs-other [] w u h = refl
  finish_jobs-other (j ∷ jobs) w u h =
      finish_jobs-other jobs _ u (ground arith)
      ∙ update_task_status-find capture (clock w.ticks) j w.tasks u
      ∙ ground arith

  finish_row :
      (j : Job) (w : World)
      → HasRow w.tasks j.uuid
      → row_code j.uuid (finish_job capture clock name j w).1.tasks ≡ some j.int_code
  unfolding finish_job
  finish_row j w r =
      update_task_status-find capture (clock w.ticks) j w.tasks j.uuid
      ∙ ground (arith, eq_refl j.uuid)

  finish_jobs-rows :
      (jobs : List Job) (w : World)
      → Distinct (uuids_of jobs)
      → All (HasRow w.tasks) (uuids_of jobs)
      → let (jobs', w') = finish_jobs capture clock name jobs w in All (HasItsCode w'.tasks) jobs'
  unfolding finish_jobs finish_job
  finish_jobs-rows [] w d r = tt
  finish_jobs-rows (j ∷ jobs) w d r =
      let (j', w') = finish_job capture clock name j w in
      let now = clock w.ticks in
      (
        ap (λ u. row_code u (finish_jobs capture clock name jobs w').1.tasks)
              (update_task_status-keeps capture now j w.tasks).0
            ∙ finish_jobs-other jobs w' j.uuid d.0
            ∙ finish_row j w r.0
            ∙ ap some (sym (update_task_status-keeps capture now j w.tasks).1),
        finish_jobs-rows jobs w' d.1
            (All-map (uuids_of jobs) (update_task_status-HasRow capture now j w.tasks) r.1),
      )

-- What a script must not do: change which tasks its jobs stand for.
abbrev pub KeepsUuids : Option Call → Type 0
KeepsUuids job_module = (jobs : List Job) → uuids_of (call_module job_module jobs).0 ≡ uuids_of jobs

All-any_self : (us : List String) → All (λ u. any (str_eq u) us ≡ true) us
All-any_self [] = tt
All-any_self (u ∷ us) =
    (ground (arith, eq_refl u), All-map us (λ v h. ground arith) (All-any_self us))

module _ (now : ℕ) (message : String) where
  marked_rows :
      (us : List String) (tasks : List Task) (jobs : List Job)
      → All (λ u. any (str_eq u) us ≡ true) (uuids_of jobs)
      → All (HasRow tasks) (uuids_of jobs)
      → All
          (HasItsCode (update_in us (failed_row now message) tasks))
          (map (set_status (pos 1) message) jobs)
  unfolding set_status
  marked_rows us tasks [] m r = tt
  marked_rows us tasks (j ∷ jobs) m r = (
    rw (find_task-update_in j.uuid us (failed_row now message) tasks (λ t. refl)) (ground arith),
    marked_rows us tasks jobs m.1 r.1,
  )

  started_HasRow :
      (jobs : List Job) (tasks : List Task) (u : String)
      → HasRow tasks u
      → HasRow (bulk_set_start_times now jobs tasks).1 u
  unfolding bulk_set_start_times
  started_HasRow jobs tasks u h =
      rw (find_task-update_in u (uuids_of jobs) (started_row now) tasks (λ t. refl))
        (started_Option (any (str_eq u) (uuids_of jobs)) (find_task u tasks) h)
    where
      started_Option :
          (b : Bool) (o : Option Task)
          → is_some o ≡ true
          → is_some (if b then Option.map (started_row now) o else o) ≡ true
      started_Option b o h = ground arith

  started_uuids :
      (jobs : List Job) (tasks : List Task)
      → uuids_of (bulk_set_start_times now jobs tasks).0 ≡ uuids_of jobs
  unfolding bulk_set_start_times
  started_uuids [] tasks = refl
  started_uuids (j ∷ jobs) tasks = ap (λ us. j.uuid ∷ us) (started_uuids jobs tasks)

module _ (capture : Bool) (clock : ℕ → ℕ) (name : String) where
  after_call-rows :
      (jobs : List Job) (e : Option Exception) (w : World)
      → Distinct (uuids_of jobs)
      → All (HasRow w.tasks) (uuids_of jobs)
      → let (jobs', w', _) = after_call capture clock name jobs e w in
        All (HasItsCode w'.tasks) jobs'
  unfolding fail_jobs bulk_mark_failed
  after_call-rows jobs none w d r = finish_jobs-rows capture clock name jobs w d r
  after_call-rows jobs (some e) w d r =
      marked_rows (clock w.ticks) e.message (uuids_of jobs) w.tasks jobs
        (All-any_self (uuids_of jobs)) r

  -- After a run of jobs of different tasks that have rows, by a script that keeps their
  -- identifiers, every job's row holds the job's exit code, whether the script returned or raised.
  pub run_task-rows :
      (job_module : Option Call) (jobs : List Job) (w : World)
      → KeepsUuids job_module
      → Distinct (uuids_of jobs)
      → All (HasRow w.tasks) (uuids_of jobs)
      → let (jobs', w', _) = run_task capture clock name job_module jobs w in
        All (HasItsCode w'.tasks) jobs'
  unfolding run_task
  run_task-rows job_module jobs w keeps d r =
      let now = clock w.ticks in
      let same =
        keeps (bulk_set_start_times now jobs w.tasks).0 ∙ started_uuids now "" jobs w.tasks in
      after_call-rows _ _ _ (rw same d)
        (rw same (All-map (uuids_of jobs) (started_HasRow now "" jobs w.tasks) r))

  finish_jobs-uuids :
      (jobs : List Job) (w : World)
      → uuids_of (finish_jobs capture clock name jobs w).0 ≡ uuids_of jobs
  unfolding finish_jobs finish_job
  finish_jobs-uuids [] w = refl
  finish_jobs-uuids (j ∷ jobs) w =
      let w' = (finish_job capture clock name j w).1 in
      ap₂ (λ (u : String) (us : List String). u ∷ us)
        (update_task_status-keeps capture (clock w.ticks) j w.tasks).0 (finish_jobs-uuids jobs w')

  marked_uuids :
      (message : String) (jobs : List Job)
      → uuids_of (map (set_status (pos 1) message) jobs) ≡ uuids_of jobs
  unfolding set_status
  marked_uuids message [] = refl
  marked_uuids message (j ∷ jobs) = ap (λ us. j.uuid ∷ us) (marked_uuids message jobs)

  after_call-uuids :
      (jobs : List Job) (e : Option Exception) (w : World)
      → uuids_of (after_call capture clock name jobs e w).0 ≡ uuids_of jobs
  unfolding fail_jobs bulk_mark_failed
  after_call-uuids jobs none w = finish_jobs-uuids jobs w
  after_call-uuids jobs (some e) w = marked_uuids e.message jobs

  -- A run changes the identifier of no job, if the script does not.
  pub run_task-uuids :
      (job_module : Option Call) (jobs : List Job) (w : World)
      → KeepsUuids job_module
      → uuids_of (run_task capture clock name job_module jobs w).0 ≡ uuids_of jobs
  unfolding run_task
  run_task-uuids job_module jobs w keeps =
      let now = clock w.ticks in
      after_call-uuids _ _ _
      ∙ keeps (bulk_set_start_times now jobs w.tasks).0
      ∙ started_uuids now "" jobs w.tasks
