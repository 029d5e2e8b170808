-- ===== src/ClamScan.antt =====
-- clientScripts/archivematica_clamscan.py: the virus check. The scanners' processes and sockets, the
-- settings, the rows of files and events and the file system enter as the fields of `Environment`.
pub mod Version
pub mod Backends
pub mod Outcomes
use ccp.Prelude.{
  ℕ, ◌+◌, ◌*◌, ◌<>◌, String, Bool, true, false, Option, none, some, List, [], ◌∷◌, ◌++◌, not, ◌&&◌,
  ltb, str_eq, if◌then◌else◌,
}
use ccp.Prelude.Int.{ℤ, pos}
use ccp.Prelude.Raise.{Exception, exception, Result, ok, raised, ◌>>=◌}
use ccp.Job.{Job, set_status, success}
use ccp.Job.Context.{on_exception}
use ccp.Events.{Event}
use ccp.ClamScan.Backends.{Scan, Scanner, scan, version_attrs, program, Attempts, later}

-- A size in megabytes: a float of the settings that is finite and not negative is a fraction.
pub record Megabytes : Type 0 where
  pub numerator : ℕ
  pub denominator : ℕ

pub record Environment : Type 0 where
  -- `Event.objects.filter(file_uuid_id=..., event_type="virus check").exists()`
  pub has_virus_check : String → Bool
  -- `File.objects.get(uuid=...).size`: the row's size, or an exception that the code catches
  pub file_row_size : String → Result (Option ℕ)
  -- `os.path.getsize(path)`
  pub getsize : String → Result ℕ
  pub max_file_size : Megabytes
  pub max_scan_size : Megabytes
  -- `get_scanner()`, with what the scanner says of a path and of its version
  pub get_scanner : String → Result Scanner

unfoldable pub file_already_scanned : Environment → String → Bool
file_already_scanned env file_uuid = not (str_eq file_uuid "None") && env.has_virus_check file_uuid

-- The `except` around the row's size catches what it names; `os.path.getsize` falls back to None.
abbrev fallback_size : Result ℕ → Option ℕ
fallback_size (ok n) = some n
fallback_size (raised e) = none

abbrev row_or_fallback : Result (Option ℕ) → Result ℕ → Option ℕ
row_or_fallback (ok size) size' = size
row_or_fallback (raised e) size' = fallback_size size'

unfoldable pub get_size : Environment → String → String → Option ℕ
get_size env file_uuid path =
    if str_eq file_uuid "None"
    then fallback_size (env.getsize path)
    else row_or_fallback (env.file_row_size file_uuid) (env.getsize path)

abbrev pub outcome_of : Bool → String
outcome_of passed = if passed then "Pass" else "Fail"

abbrev show_part : Option String → String
show_part none = "None"
show_part (some s) = s

abbrev detail_of : String → Option String × Option String → String
detail_of name (version, definitions) =
    "program=\""
    <> name
    <> "\"; version=\""
    <> show_part version
    <> "\"; virusDefinitions=\""
    <> show_part definitions
    <> "\""

-- The event detail asks the scanner for its version again, which may raise.
unfoldable pub event_detail : Option (Scanner × Attempts) → Result String
unfolding version_attrs
event_detail none = ok ""
event_detail (some (scanner, attempts)) = do
  (attrs, _) ← version_attrs attempts
  ok (detail_of (program scanner) attrs)

abbrev pub verdict_event : String → String → String → Bool → Event
verdict_event file_uuid date detail passed = record {
  file_uuid = file_uuid;
  event_type = "virus check";
  event_date_time = date;
  event_detail = detail;
  event_outcome = outcome_of passed;
  event_outcome_detail_note = "";
}

-- `queue_event`: the queue that it leaves, or the exception.
unfoldable pub queue_event :
    String → String → Option (Scanner × Attempts) → Option Bool → List Event → Result (List Event)
queue_event file_uuid date scanner none queue = ok queue
queue_event file_uuid date scanner (some passed) queue =
    if str_eq file_uuid "None" then ok queue else do
      detail ← event_detail scanner
      ok (queue ++ (verdict_event file_uuid date detail passed ∷ []))

-- size > setting * 1024 * 1024: the product with a power of two is exact.
abbrev pub is_over : Megabytes → ℕ → Bool
is_over limit size = ltb (limit.numerator * 1024 * 1024) (size * limit.denominator)

unfoldable pub valid_scan : Environment → ℕ → Bool
valid_scan env size =
    if is_over env.max_file_size size
    then false
    else if is_over env.max_scan_size size
    then false
    else true

-- What the `try` block leaves: the scanner, the verdict, and the code that it returns early, if any.
pub record Attempt : Type 0 where
  pub scanner : Option (Scanner × Attempts)
  pub passed : Option Bool
  pub returned : Option ℤ

abbrev gave_up : Option (Scanner × Attempts) → Attempt
gave_up scanner = record { scanner = scanner; passed = some false; returned = some (pos 1) }

-- The scanner's version is logged before the scan: if that raises, the scan does not happen.
unfoldable pub scan_with : String → Scanner → Attempt
unfolding version_attrs scan
scan_with path scanner = elim (version_attrs scanner.attempts) [
  | raised e ↦ gave_up (some (scanner, later scanner.attempts))
  | ok (_, attempts) ↦ elim (scan scanner path) [
    | raised e ↦ gave_up (some (scanner, attempts))
    | ok result ↦ record {
      scanner = some (scanner, attempts);
      passed = result.passed;
      returned = none;
    }
  ]
]

unfoldable pub try_scan : Environment → String → String → Attempt
try_scan env file_uuid path = elim (get_size env file_uuid path) [
  | none ↦ gave_up none
  | some size ↦
      if valid_scan env size
      then elim (env.get_scanner path) [
        | raised e ↦ gave_up none
        | ok scanner ↦ scan_with path scanner
      ]
      else record { scanner = none; passed = none; returned = none }
]

-- The last line of `scan_file`.
abbrev pub code_of : Attempt → ℤ
code_of a = elim a.returned [
  | some code ↦ code
  | none ↦ elim a.passed [ none ↦ pos 0 | some passed ↦ if passed then pos 0 else pos 1 ]
]

-- The `finally` clause runs in every case; an exception of its own replaces the code.
abbrev pub queued : ℤ → List Event → Result (List Event) → Result ℤ × List Event
queued code queue (ok queue') = (ok code, queue')
queued code queue (raised e) = (raised e, queue)

-- `scan_file`: its code or its exception, and the queue of events.
unfoldable pub scan_file :
    Environment → List Event → String → String → String → Result ℤ × List Event
scan_file env queue file_uuid path date =
    if file_already_scanned env file_uuid
    then (ok (pos 0), queue)
    else (let a = try_scan env file_uuid path in
        queued (code_of a) queue (queue_event file_uuid date a.scanner a.passed queue))

-- `scan_file(event_queue, *job.args[1:])`
abbrev pub scan_args : Environment → List Event → List String → Result ℤ × List Event
scan_args env queue (name ∷ file_uuid ∷ path ∷ date ∷ task_uuid ∷ []) =
    scan_file env queue file_uuid path date
scan_args env queue args = (raised (exception "scan_file() takes 5 positional arguments"), queue)

abbrev pub finish : Result ℤ → Job → Job
finish (ok code) j = set_status code success j
finish (raised e) j = on_exception (some e) j

-- The loop of `call`; what the logger's handler writes to the jobs is not part of it.
unfoldable pub scan_jobs : Environment → List Event → List Job → List Job × List Event
scan_jobs env queue [] = ([], queue)
scan_jobs env queue (job ∷ jobs) =
    let (result, queue') = scan_args env queue job.args in
    let (jobs', queue'') = scan_jobs env queue' jobs in (finish result job ∷ jobs', queue'')

-- `call`: the events are inserted after the last job.
unfoldable pub call : Environment → List Job → List Event → List Job × List Event
unfolding scan_jobs
call env jobs events = let (jobs', queue) = scan_jobs env [] jobs in (jobs', events ++ queue)
