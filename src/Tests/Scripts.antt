-- ===== src/Tests/Scripts.antt =====
-- clientScripts/archivematica_clamscan.py and verify_checksum.py on concrete files.
use ccp.Prelude.{
  ◌≡◌, ◌≢◌, refl, String, true, false, none, some, List, [], ◌∷◌, ◌++◌, not, arith, all, str_eq,
}
use ccp.Prelude.Dict.{lookup}
use ccp.Prelude.Int.{ℤ, pos, is_zero}
use ccp.Prelude.Raise.{Exception, Result, ok, raised}
use ccp.Job.{Job}
use ccp.Events.{Event}
use ccp.Subprocess.{Called, returned}
use ccp.ClamScan.{
  file_already_scanned, get_size, valid_scan, scan_file, try_scan, scan_with, queue_event,
  event_detail,
}
use ccp.ClamScan.Backends.{
  Scan, Scanner, clamd, answered, scan, clamscanner, version_attrs, clamd_scan,
}
use ccp.ClamScan.Outcomes.{
  verdict_on, is_refused, is_recorded, AddsVerdict, scan_file-AddsVerdict, scan_file-refused,
  scan_file-clamscan,
}
use ccp.VerifyChecksum.{
  Progress, hashfile_paths, verify_hashfile, run_hashsum_commands, count_and_compare_lines,
  compare_hashes, verify_hashfiles, write_premis_event_per_file,
}
use ccp.VerifyChecksum.Hashfile.{PositiveCodes}
use ccp.VerifyChecksum.Run.{passes, fixity_events, run_hashsum_commands-verifies}
use ccp.Tests.Jobs.{job_a}

abbrev clamd_env : Result Scanner → ccp.ClamScan.Environment
clamd_env scanner = record {
  has_virus_check = λ u. false;
  file_row_size = λ u. ok (some 10);
  getsize = λ path. ok 10;
  max_file_size = record { numerator = 3; denominator = 2 };
  max_scan_size = record { numerator = 42; denominator = 1 };
  get_scanner = λ path. scanner;
}

-- clamd finds something in every file.
abbrev finds : Scanner
finds = record {
  backend = clamd true (λ stream path. answered (("stream", ("FOUND", some "Eicar")) ∷ []));
  attempts = record { first = ok (some "ClamAV 1.0", none); second = ok (some "ClamAV 1.0", none) };
}

abbrev found : Scan
found = record { passed = some false; state = some "FOUND"; details = some "Eicar" }

abbrev scanned : Result ℤ × List Event
scanned = scan_file (clamd_env (ok finds)) [] "u" "/a" "today"

scanned-code : scanned.0 ≡ ok (pos 1)
unfolding scan_file file_already_scanned try_scan get_size valid_scan scan_with version_attrs scan
    clamd_scan queue_event event_detail lookup
scanned-code = refl

scan_file-AddsVerdict_example :
    (is_zero (pos 1) ≡ not (is_refused (verdict_on (clamd_env (ok finds)) "u" "/a")))
    × AddsVerdict
        (is_recorded "u" (verdict_on (clamd_env (ok finds)) "u" "/a"))
        "u"
        (pos 1)
        []
        scanned.1
scan_file-AddsVerdict_example =
    scan_file-AddsVerdict (clamd_env (ok finds)) [] "u" "/a" "today" (pos 1) scanned-code

scan_file-refused_example : scanned.0 ≢ ok (pos 0)
unfolding file_already_scanned get_size valid_scan scan clamd_scan lookup
scan_file-refused_example =
    scan_file-refused (clamd_env (ok finds)) [] "u" "/a" "today" 10 finds found refl refl refl refl
      refl refl

abbrev huge_env : ccp.ClamScan.Environment
huge_env = record (clamd_env (ok finds)) { file_row_size = λ u. ok (some 9999999) }

abbrev clamscan_call : String → Called
clamscan_call path = returned "OK"

abbrev clamscan_env : ccp.ClamScan.Environment
clamscan_env =
    clamd_env (ok (clamscanner clamscan_call (returned "ClamAV 1.0") (returned "ClamAV 1.0")))

scan_file-clamscan_example :
    (e : Exception) × (scan_file clamscan_env [] "u" "/a" "today" ≡ (raised e, []))
unfolding file_already_scanned get_size valid_scan
scan_file-clamscan_example =
    scan_file-clamscan clamscan_env [] "u" "/a" "today" 10 clamscan_call "ClamAV 1.0" "ClamAV 1.0"
      refl refl refl refl refl

-- A transfer of two files with one checksum file, which its tool accepts.
abbrev hash_env : ccp.VerifyChecksum.Environment
hash_env = record {
  exists = λ h. str_eq h "/t/metadata/checksum.md5";
  count_lines = λ h. ok 2;
  count_files = ok 2;
  check = λ command hashfile. returned "";
  version = λ command. returned "md5sum 9.1";
  lines_of = λ out. out ∷ [];
  file_rows = "f" ∷ "g" ∷ [];
  transfer = ok tt;
  now = "today";
}

hash_env-positive : PositiveCodes hash_env
hash_env-positive command hashfile code out e = absurd (ground arith)

abbrev start : Progress
start = record { job = job_a; events = []; ret = pos 0 }

verify_hashfile-done : (verify_hashfile hash_env "/t/metadata/checksum.md5" "md5sum" start).0 ≡ none
unfolding verify_hashfile compare_hashes count_and_compare_lines write_premis_event_per_file
verify_hashfile-done = refl

abbrev run : Result ℤ × Job × List Event
run = run_hashsum_commands hash_env ("verify_checksum" ∷ "/t" ∷ "t" ∷ []) job_a []

run-code : run.0 ≡ ok (pos 0)
unfolding run_hashsum_commands verify_hashfiles verify_hashfile compare_hashes
    count_and_compare_lines write_premis_event_per_file
run-code = refl

run_hashsum_commands-verifies_example :
    (is_zero (pos 0) ≡ all (passes hash_env) (hashfile_paths "/t"))
    × (run.2 ≡ [] ++ fixity_events hash_env (hashfile_paths "/t"))
run_hashsum_commands-verifies_example =
    run_hashsum_commands-verifies hash_env "verify_checksum" "/t" "t" [] job_a [] (pos 0)
      hash_env-positive refl run-code
