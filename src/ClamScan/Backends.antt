-- ===== src/ClamScan/Backends.antt =====
-- clientScripts/archivematica_clamscan.py: the two scanners, and the choice between them.
use ccp.Prelude.{
  ℕ, String, Bool, true, false, Option, none, some, List, [], ◌∷◌, ◌==◌, str_eq, if◌then◌else◌,
}
use ccp.Prelude.Dict.{Dict, lookup}
use ccp.Prelude.Int.{ℤ, pos}
use ccp.Prelude.Text.{contains}
use ccp.Prelude.Raise.{exception, Result, ok, raised, ◌>>=◌}
use ccp.Subprocess.{Called, returned, called_process_error, other_exception}
use ccp.ClamScan.Version.{clamav_version_parts, split_onto}

-- passed, state, details
pub record Scan : Type 0 where
  pub passed : Option Bool
  pub state : Option String
  pub details : Option String

-- The exceptions that `clamd_exception_handler` tells apart.
pub data ClamdError : Type 0 where
  io_error : Option ℕ → ClamdError
  buffer_too_long connection_error other_error : ClamdError

abbrev epipe : ℕ
epipe = 32

-- None lets the file pass unscanned.
unfoldable pub clamd_exception_handler : ClamdError → Option Bool
clamd_exception_handler (io_error (some errno)) = if errno == epipe then none else some false
clamd_exception_handler (io_error none) = some false
clamd_exception_handler buffer_too_long = none
clamd_exception_handler connection_error = none
clamd_exception_handler other_error = some false

-- What clamd answers: a dict of (state, details) by key, or an exception.
pub data Answer : Type 0 where
  answered : Dict (String × Option String) → Answer
  failed : ClamdError → Answer

abbrev ok_state : String → Bool
ok_state = str_eq "OK"

abbrev result_of : Option (String × Option String) → Scan
result_of none = record {
  passed = clamd_exception_handler other_error;
  state = none;
  details = none;
}
result_of (some (state, details)) = record {
  passed = some (ok_state state);
  state = some state;
  details = details;
}

-- `ClamdScanner.scan`: `stream` chooses the method and the key of the result. A missing key is one more
-- exception for the handler.
unfoldable pub clamd_scan : Bool → (Bool → String → Answer) → String → Scan
unfolding clamd_exception_handler
clamd_scan stream client path = elim (client stream path) [
  | answered result ↦ result_of (lookup (if stream then "stream" else path) result)
  | failed err ↦ record { passed = clamd_exception_handler err; state = none; details = none }
]

abbrev infected : ℤ → Bool
infected (pos n) = n == 1
infected (ℤ.negsuc n) = false

-- `ClamScanner.scan`
unfoldable pub clamscan_scan : (String → Called) → String → Result Scan
clamscan_scan call path = elim (call path) [
  | returned out ↦ ok (record { passed = some true; state = some "OK"; details = none })
  | called_process_error code out ↦ ok (record {
    passed = some false;
    state = some (if infected code then "FOUND" else "ERROR");
    details = none;
  })
  | other_exception e ↦ raised e
]

-- The answers to the first request for the version, and to the one after it: a scanner keeps the first
-- that does not raise.
pub record Attempts : Type 0 where
  pub first : Result (Option String × Option String)
  pub second : Result (Option String × Option String)

abbrev pub later : Attempts → Attempts
later a = record { first = a.second; second = a.second }

abbrev keep : Option String × Option String → Attempts
keep attrs = record { first = ok attrs; second = ok attrs }

-- `version_attrs`, with what the next request finds.
unfoldable pub version_attrs : Attempts → Result ((Option String × Option String) × Attempts)
version_attrs a = elim a.first [ ok attrs ↦ ok (attrs, keep attrs) | raised e ↦ raised e ]

pub data Backend : Type 0 where
  clamd : Bool → (Bool → String → Answer) → Backend
  clamscan : (String → Called) → Backend

pub record Scanner : Type 0 where
  pub backend : Backend
  pub attempts : Attempts

abbrev program_of : Backend → String
program_of (clamd stream client) = "ClamAV (clamd)"
program_of (clamscan call) = "ClamAV (clamscan)"

abbrev pub program : Scanner → String
program s = program_of s.backend

abbrev scan_by : Backend → String → Result Scan
scan_by (clamd stream client) path = ok (clamd_scan stream client path)
scan_by (clamscan call) path = clamscan_scan call path

unfoldable pub scan : Scanner → String → Result Scan
unfolding clamd_scan clamscan_scan
scan s path = scan_by s.backend path

-- `ClamScanner.version_attrs`: a failed call is no version. `check_output` returns bytes, and
-- `bytes.split("/")` is a TypeError, which the code does not catch.
abbrev pub clamscan_version : Called → Result (Option String × Option String)
clamscan_version (returned out) = raised (exception "a bytes-like object is required, not 'str'")
clamscan_version (called_process_error code out) = ok (none, none)
clamscan_version (other_exception e) = raised e

-- `ClamScanner()`, with what the calls of `clamscan -V` do.
abbrev pub clamscanner : (String → Called) → Called → Called → Scanner
clamscanner call first second = record {
  backend = clamscan call;
  attempts = record { first = clamscan_version first; second = clamscan_version second };
}

abbrev clamd_version : Result String → Result (Option String × Option String)
clamd_version answer = do ver ← answer; ok (clamav_version_parts ver)

pub data Client : Type 0 where
  unix_socket : String → Client
  network_socket : String → ℕ → Client

abbrev client_of : (String → Result ℕ) → List String → Result Client
client_of int (host ∷ port ∷ []) = do n ← int port; ok (network_socket host n)
client_of int parts = raised (exception "too many values to unpack (expected 2)")

-- `ClamdScanner.get_client`, where `int` reads a port.
unfoldable pub get_client : (String → Result ℕ) → String → Result Client
unfolding split_onto
get_client int addr =
    if contains ":" addr then client_of int (split_onto b':' "" addr) else ok (unix_socket addr)

-- `ClamdScanner()`, with what its client answers.
unfoldable pub clamdscanner :
    (String → Result ℕ)
    → String
    → Bool
    → (Client → Bool → String → Answer)
    → (Client → Result String)
    → (Client → Result String)
    → Result Scanner
unfolding get_client
clamdscanner int addr stream client first second = do
  c ← get_client int addr
  ok (record {
    backend = clamd stream (client c);
    attempts = record { first = clamd_version (first c); second = clamd_version (second c) };
  })

-- `get_scanner`, over what `str(settings.CLAMAV_CLIENT_BACKEND).lower()` gives and over the two classes.
unfoldable pub get_scanner : String → Result Scanner → Result Scanner → Result Scanner
get_scanner choice clamscanner clamdscanner =
    if str_eq choice "clamscanner" then clamscanner else clamdscanner
