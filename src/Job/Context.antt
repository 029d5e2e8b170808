-- ===== src/Job/Context.antt =====
-- client/job.py: `JobContext` and `JobLogHandler`. The handler is a `logging.handlers.BufferingHandler`:
-- `emit` appends a record and flushes once the buffer has its capacity; `removeHandler` flushes nothing.
-- What a `with` block does is a function of the session that it runs in.
use ccp.Prelude.{
  ℕ, String, Bool, Option, none, some, List, [], ◌∷◌, ◌++◌, ◌&&◌, leb, length, if◌then◌else◌,
}
use ccp.Prelude.Int.{pos}
use ccp.Prelude.Raise.{Exception}
use ccp.Job.{Job, write_output, write_error, set_status}

pub record LogRecord : Type 0 where
  pub levelno : ℕ
  pub message : String

abbrev pub info_level : ℕ
info_level = 20

abbrev pub error_level : ℕ
error_level = 40

abbrev pub capacity : ℕ
capacity = 100

-- The job inside a `with` block, whether a handler is attached, and the handler's buffer.
pub record Session : Type 0 where
  pub job : Job
  pub attached : Bool
  pub buffer : List LogRecord

unfoldable pub write_record : LogRecord → Job → Job
unfolding write_output write_error
write_record r j =
    if leb error_level r.levelno then write_error r.message j else write_output r.message j

unfoldable pub write_records : List LogRecord → Job → Job
unfolding write_record
write_records [] j = j
write_records (r ∷ rs) j = write_records rs (write_record r j)

-- `JobLogHandler.flush`
unfoldable pub flush : Session → Session
unfolding write_records
flush s = record s { job = write_records s.buffer s.job; buffer = [] }

-- A call of the logger: the handler takes what reaches its level.
unfoldable pub log : LogRecord → Session → Session
unfolding flush
log r s =
    if s.attached && leb info_level r.levelno
    then (let s' : Session = record s { buffer = s.buffer ++ (r ∷ []) } in
        if leb capacity (length s'.buffer) then flush s' else s')
    else s

unfoldable pub log_all : List LogRecord → Session → Session
log_all [] s = s
log_all (r ∷ rs) s = log_all rs (log r s)

abbrev pub Body : Type 0
Body = Session → Session × Option Exception

-- The `except` clause.
unfoldable pub on_exception : Option Exception → Job → Job
unfolding write_error set_status
on_exception none j = j
on_exception (some e) j =
    set_status (pos 1) "error" (write_error e.traceback (write_error e.message j))

abbrev pub enter : Bool → Job → Session
enter logger j = record { job = j; attached = logger; buffer = [] }

-- `logger` tells whether a logger is given. The `finally` clause drops the handler and its buffer.
unfoldable pub job_context : Bool → Body → Job → Job
unfolding on_exception
job_context logger body j = let (s, e) = body (enter logger j) in on_exception e s.job
