-- ===== src/Job/Effects.antt =====
-- client/job.py: what logging, a `with` block and the updates of the table of tasks leave.
use mathlib.Core.Option
use ccp.Prelude.{
  ℕ, ◌+◌, ◌≤◌, ◌<◌, ◌≡◌, refl, ◌∙◌, sym, ap, String, Bool, true, Option, some, List, [], ◌∷◌, ◌++◌,
  str_eq, eq_iff, any, all, length, length-append, leb, arith, if◌then◌else◌,
}
use ccp.Prelude.Int.{ℤ, is_zero}
use ccp.Prelude.Raise.{Exception}
use ccp.Job.{
  Job, Task, update_in, find_task, set_status, update_task_status, finished_row, get_exit_code,
}
use ccp.Job.Context.{
  LogRecord, Session, Body, capacity, info_level, write_record, write_records, log, log_all,
  on_exception, enter, job_context,
}

abbrev pub reaches_handler : LogRecord → Bool
reaches_handler r = leb info_level r.levelno

-- What the job would hold if the buffer were flushed now.
abbrev pub settled : Session → Job
settled s = write_records s.buffer s.job

write_records-append :
    (rs qs : List LogRecord) (j : Job)
    → write_records (rs ++ qs) j ≡ write_records qs (write_records rs j)
unfolding write_records
write_records-append [] qs j = refl
write_records-append (r ∷ rs) qs j = write_records-append rs qs (write_record r j)

settled-log :
    (r : LogRecord) (s : Session)
    → s.attached ≡ true
    → reaches_handler r ≡ true
    → settled (log r s) ≡ write_records (r ∷ []) (settled s)
unfolding log
settled-log r s h reach = ground (arith, write_records-append s.buffer (r ∷ []) s.job)

attached-log : (r : LogRecord) (s : Session) → (log r s).attached ≡ s.attached
unfolding log
attached-log r s = ground arith

-- Until the block ends no record is lost.
pub settled-log_all :
    (rs : List LogRecord) (s : Session)
    → s.attached ≡ true
    → all reaches_handler rs ≡ true
    → settled (log_all rs s) ≡ write_records rs (settled s)
unfolding log_all
settled-log_all [] s h reach = unfold write_records in refl
settled-log_all (r ∷ rs) s h reach =
    settled-log_all rs (log r s) (attached-log r s ∙ h) (ground arith)
    ∙ ap (write_records rs) (settled-log r s h (ground arith))
    ∙ sym (write_records-append (r ∷ []) rs (settled s))

buffer-log :
    (r : LogRecord) (s : Session)
    → length s.buffer + 1 < capacity
    → ((log r s).job ≡ s.job) × (length (log r s).buffer ≤ length s.buffer + 1)
unfolding log
buffer-log r s room = ground (arith, length-append s.buffer (r ∷ []))

-- Fewer records than the buffer holds stay in the buffer.
pub job-log_all :
    (rs : List LogRecord) (s : Session)
    → length s.buffer + length rs < capacity
    → (log_all rs s).job ≡ s.job
unfolding log_all
job-log_all [] s room = refl
job-log_all (r ∷ rs) s room =
    let step = buffer-log r s (omega arith) in
    job-log_all rs (log r s) (omega (arith, step)) ∙ step.0

-- A block that only logs, and then returns or raises.
abbrev pub logging : List LogRecord → Option Exception → Body
logging rs e s = (log_all rs s, e)

-- A block that logs fewer records than the handler's capacity, and then returns or raises, leaves
-- the job as if it had logged nothing.
pub job_context-logging :
    (logger : Bool) (rs : List LogRecord) (e : Option Exception) (j : Job)
    → length rs < capacity
    → job_context logger (logging rs e) j ≡ on_exception e j
unfolding job_context
job_context-logging logger rs e j short =
    ap (on_exception e) (job-log_all rs (enter logger j) (omega arith))

any-str_eq : (u v : String) (us : List String) → u ≡ v → any (str_eq u) us ≡ any (str_eq v) us
any-str_eq u v us e = ap (λ w. any (str_eq w) us) e

pub find_task-update_in :
    (u : String) (us : List String) (f : Task → Task) (tasks : List Task)
    → ((t : Task) → (f t).taskuuid ≡ t.taskuuid)
    → find_task u (update_in us f tasks)
      ≡ (if any (str_eq u) us then Option.map f (find_task u tasks) else find_task u tasks)
unfolding find_task
find_task-update_in u us f [] same = ground arith
find_task-update_in u us f (t ∷ tasks) same = ground (
  arith,
  same t,
  eq_iff t.taskuuid u,
  any-str_eq t.taskuuid u us,
  find_task-update_in u us f tasks same,
)

-- The exit code after two settings of a status is the second code, unless that is 0: then it is
-- the first, unless that is 0 too.
set_status-twice :
    (a b : ℤ) (s t : String) (j : Job)
    → get_exit_code (set_status b t (set_status a s j))
      ≡ (if is_zero b then (if is_zero a then get_exit_code j else some a) else some b)
unfolding set_status get_exit_code
set_status-twice a b s t j = ground arith

pub taskuuid-finished_row :
    (capture : Bool) (j : Job) (t : Task) → (finished_row capture j t).taskuuid ≡ t.taskuuid
unfolding finished_row
taskuuid-finished_row capture j t = ground arith

-- After the update of a job, the row of its task has its exit code, its end and, where they are
-- captured, its texts; every other row stays.
pub find_task-update_task_status :
    (capture : Bool) (now : ℕ) (j : Job) (tasks : List Task) (u : String) (t : Task)
    → find_task u tasks ≡ some t
    → find_task u (update_task_status capture now j tasks).1 ≡ (
        if str_eq u j.uuid
        then some (
            if capture
            then record t {
              exitcode = j.int_code;
              endtime = some now;
              stdout = j.output;
              stderror = j.error;
            }
            else record t { exitcode = j.int_code; endtime = some now })
        else some t)
unfolding update_task_status finished_row set_status
find_task-update_task_status capture now j tasks u t h =
    let j' : Job = (update_task_status capture now j tasks).0 in
    rw
      (
        find_task-update_in u (j'.uuid ∷ []) (finished_row capture j') tasks
            (taskuuid-finished_row capture j'),
        h,
      )
      (ground arith)
