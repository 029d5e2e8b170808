-- ===== src/VerifyChecksum.antt =====
-- clientScripts/verify_checksum.py: the checksum files of a transfer are compared by the hashsum tools.
-- The file system, the processes and the rows of the database enter as the fields of `Environment`.
pub mod Hashfile
pub mod Run
use ccp.Prelude.{
  ℕ, zero, suc, ◌+◌, ◌<>◌, String, Bool, true, false, Option, none, some, List, [], ◌∷◌, ◌++◌, ◌||◌,
  ◌==◌, str_eq, map, if◌then◌else◌,
}
use ccp.Prelude.Dict.{Dict, lookup}
use ccp.Prelude.Decimal.{show, show_code}
use ccp.Prelude.Text.{starts_with, ends_with, contains}
use ccp.Prelude.Paths.{join_path}
use ccp.Prelude.Int.{ℤ, pos, negsuc, is_zero, ◌+ℤ◌}
use ccp.Prelude.Raise.{Exception, exception, Result, ok, raised}
use ccp.Job.{Job, write_output, write_error, set_status, success}
use ccp.Job.Context.{on_exception}
use ccp.Events.{Event}
use ccp.Subprocess.{Called, returned, called_process_error, other_exception}

-- `Hashsum.HASHFILES_COMMANDS`
abbrev pub hashfiles_commands : Dict String
hashfiles_commands =
    ("checksum.md5", "md5sum")
    ∷ ("checksum.sha1", "sha1sum")
    ∷ ("checksum.sha256", "sha256sum")
    ∷ ("checksum.sha512", "sha512sum")
    ∷ []

pub record Environment : Type 0 where
  -- `os.path.exists` of the path of a checksum file
  pub exists : String → Bool
  -- `_count_lines` of a checksum file, and `_count_files` of the objects directory
  pub count_lines : String → Result ℕ
  pub count_files : Result ℕ
  -- `check_output((COMMAND, "-c", "--strict", hashfile))` and `check_output((COMMAND, "--version"))`
  pub check : String → String → Called
  pub version : String → Called
  -- the lines of an output, `_decode`
  pub lines_of : String → List String
  -- the rows of the transfer's files that are not removed, and whether the transfer has a row
  pub file_rows : List String
  pub transfer : Result (Unit {0})
  -- `datetime.datetime.now()`
  pub now : String

-- The job, the events of the database, and `ret`.
pub record Progress : Type 0 where
  pub job : Job
  pub events : List Event
  pub ret : ℤ

abbrev pub print_err : String → Progress → Progress
print_err s p = record p { job = write_error (s <> "\n") p.job }

abbrev pub print_out : String → Progress → Progress
print_out s p = record p { job = write_output (s <> "\n") p.job }

-- `get_ext` of a path that ends in one of the four names.
abbrev pub get_ext : String → String
get_ext hashfile =
    if ends_with ".md5" hashfile
    then "md5"
    else if ends_with ".sha1" hashfile
    then "sha1"
    else if ends_with ".sha256" hashfile
    then "sha256"
    else if ends_with ".sha512" hashfile
    then "sha512"
    else hashfile

-- "returned non-zero exit status 1" in str(err): a positive code whose digits begin with 1.
abbrev pub mentions_status_one : ℤ → Bool
mentions_status_one (pos n) = starts_with "1" (show n)
mentions_status_one (negsuc n) = false

-- One line of a failed comparison.
unfoldable pub report_line : String → String → Progress → Progress
report_line ext line p =
    let message = ext <> ": " <> line in
    let bad =
      ends_with ": FAILED" line
      || contains "no properly formatted" line
      || contains "improperly formatted" line in
    let p' = if bad then print_err message p else p in
    let p'' = if ends_with ": FAILED open or read" line then print_err message p' else p' in
    if str_eq line "" || ends_with ": OK" line then p else p''

unfoldable pub report_lines : String → List String → Progress → Progress
unfolding report_line
report_lines ext [] p = p
report_lines ext (line ∷ lines) p = report_lines ext lines (report_line ext line p)

-- `count_and_compare_lines`
unfoldable pub count_and_compare_lines : Environment → String → Progress → Result Bool × Progress
count_and_compare_lines env hashfile p = elim (env.count_lines hashfile) [
  | raised e ↦ (raised e, p)
  | ok lines ↦ elim env.count_files [
    | raised e ↦ (raised e, p)
    | ok objects ↦ if lines == objects then (ok true, p) else (
      ok false,
      print_err
          (get_ext hashfile
            <> ": Comparison failed with "
            <> show lines
            <> " checksum lines and "
            <> show objects
            <> " transfer files")
          p,
    )
  ]
]

abbrev pub status_warning : String → ℤ → String
status_warning ext code =
    ext
    <> ": comparison exited with status: "
    <> show_code code
    <> ". Please check the formatting of the checksums or integrity of the files."

abbrev pub compared : Environment → String → Progress → Called → Result ℤ × Progress
compared env hashfile p (returned out) = (ok (pos 0), p)
compared env hashfile p (other_exception e) = (raised e, p)
compared env hashfile p (called_process_error code out) =
    let p' =
      if mentions_status_one code
      then print_err (status_warning (get_ext hashfile) code) p
      else p in
    (ok code, report_lines (get_ext hashfile) (env.lines_of out) p')

-- `compare_hashes`
unfoldable pub compare_hashes : Environment → String → String → Progress → Result ℤ × Progress
compare_hashes env hashfile command p =
    let (same, p') = count_and_compare_lines env hashfile p in
    elim same [
      | raised e ↦ (raised e, p')
      | ok b ↦ if b then compared env hashfile p' (env.check command hashfile) else (ok (pos 1), p')
    ]

-- `version`, and the detail of the events.
abbrev pub version_of : Environment → String → Called → Result String
version_of env command (returned out) = ok (elim (env.lines_of out) [ [] ↦ "" | line ∷ _ ↦ line ])
version_of env command (called_process_error code out) = ok command
version_of env command (other_exception e) = raised e

abbrev pub command_detail : String → String → String → String
command_detail command hashfile version =
    "program=\"" <> command <> " -c --strict " <> hashfile <> "\"; version=\"" <> version <> "\""

abbrev pub fixity_event : String → String → String → Event
fixity_event now detail file_uuid = record {
  file_uuid = file_uuid;
  event_type = "fixity check";
  event_date_time = now;
  event_detail = detail;
  event_outcome = "pass";
  event_outcome_detail_note = "";
}

-- `write_premis_event_per_file`, over the version and the row of the transfer.
abbrev pub write_events :
    Environment
    → String
    → String
    → Progress
    → Result String
    → Result (Unit {0})
    → Option Exception × Progress
write_events env hashfile command p (raised e) transfer = (some e, p)
write_events env hashfile command p (ok version) (raised e) = (some e, p)
write_events env hashfile command p (ok version) (ok _) = (
  none,
  record p {
    events =
        p.events
        ++ map (fixity_event env.now (command_detail command hashfile version)) env.file_rows;
  },
)

unfoldable pub write_premis_event_per_file :
    Environment → String → String → Progress → Option Exception × Progress
write_premis_event_per_file env hashfile command p =
    write_events env hashfile command p (version_of env command (env.version command)) env.transfer

-- What follows the comparison: events for a success, or one more code in `ret`.
abbrev pub after_compare :
    Environment → String → String → Progress → Result ℤ → Option Exception × Progress
after_compare env hashfile command p (raised e) = (some e, p)
after_compare env hashfile command p (ok code) =
    if is_zero code
    then write_premis_event_per_file env hashfile command
        (print_out (get_ext hashfile <> ": Comparison was OK") p)
    else (none, record p { ret = p.ret +ℤ code })

-- One round of the loop of `run_hashsum_commands`, for a checksum file that exists.
unfoldable pub verify_hashfile :
    Environment → String → String → Progress → Option Exception × Progress
verify_hashfile env hashfile command p =
    let start =
      print_err ("Comparing transfer checksums with the supplied " <> get_ext hashfile <> " file")
        p in
    let (result, p') = compare_hashes env hashfile command start in
    after_compare env hashfile command p' result

-- The rest of the loop, which an exception ends.
abbrev pub and_then :
    Option Exception → Progress → Option Exception × Progress → Option Exception × Progress
and_then none p more = more
and_then (some e) p more = (some e, p)

unfoldable pub verify_hashfiles : Environment → Dict String → Progress → Option Exception × Progress
unfolding verify_hashfile
verify_hashfiles env [] p = (none, p)
verify_hashfiles env ((hashfile, command) ∷ rest) p =
    let skip = verify_hashfiles env rest p in
    let (e, p') = verify_hashfile env hashfile command p in
    let more = verify_hashfiles env rest p' in
    if env.exists hashfile then and_then e p' more else skip

-- The paths of the checksum files of a transfer, with their commands.
abbrev pub hashfile_paths : String → Dict String
hashfile_paths transfer_dir =
    map
      (λ ((hashfile, command) : String × String).
        (join_path (join_path transfer_dir "metadata") hashfile, command))
      hashfiles_commands

abbrev pub no_rows : List String → Bool
no_rows [] = true
no_rows (r ∷ rows) = false

-- `run_hashsum_commands`: the return code, or the exception; the arguments are those after the name.
unfoldable pub run_hashsum_commands :
    Environment → List String → Job → List Event → Result ℤ × Job × List Event
run_hashsum_commands env (name ∷ transfer_dir ∷ transfer_uuid ∷ rest) job events =
    if no_rows env.file_rows
    then (raised (exception "Unable to find the transfer objects"), job, events)
    else (let (e, p) =
          verify_hashfiles env (hashfile_paths transfer_dir)
            (record { job = job; events = events; ret = pos 0 }) in
        (elim e [ none ↦ ok p.ret | some x ↦ raised x ], p.job, p.events))
run_hashsum_commands env args job events = (ok (pos 1), job, events)

abbrev finish : Result ℤ → Job → Job
finish (ok code) job = set_status code success job
finish (raised e) job = on_exception (some e) job

-- `call`, with the environment of each job.
unfoldable pub call : List (Environment × Job) → List Event → List Job × List Event
unfolding run_hashsum_commands
call [] events = ([], events)
call ((env, job) ∷ jobs) events =
    let (result, job', events') = run_hashsum_commands env job.args job events in
    let (jobs', events'') = call jobs events' in (finish result job' ∷ jobs', events'')
