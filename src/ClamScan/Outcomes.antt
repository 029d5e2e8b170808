-- ===== src/ClamScan/Outcomes.antt =====
-- clientScripts/archivematica_clamscan.py: codes and events of `scan_file` agree, on every branch.
use ccp.Prelude.{
  ℕ, ◌<◌, ◌≡◌, ◌≢◌, ◌⊎◌, inl, inr, refl, ap, sym, ◌∙◌, not, ltb, ◌||◌, String, Bool, true, false,
  Option, none, some, List, [], ◌∷◌, ◌++◌, arith, Bool-cases, str_eq, ◌*◌, if◌then◌else◌,
}
use ccp.Prelude.Int.{ℤ, pos, is_zero}
use ccp.Prelude.Raise.{Exception, exception, Result, ok, raised, Result-cases}
use ccp.Events.{Event}
use ccp.ClamScan.Backends.{Scan, Scanner, scan, Attempts, version_attrs, clamscanner}
use ccp.Subprocess.{Called, returned}
use ccp.ClamScan.{
  Environment, file_already_scanned, get_size, valid_scan, event_detail, queue_event, scan_with,
  try_scan, Attempt, code_of, queued, scan_file, call, is_over, verdict_event,
}

abbrev verdict_of_scan : Result Scan → Option Bool
verdict_of_scan (raised e) = some false
verdict_of_scan (ok r) = r.passed

abbrev verdict_of_scanner : String → Result Scanner → Option Bool
verdict_of_scanner path (raised e) = some false
verdict_of_scanner path (ok s) = elim s.attempts.first [
  | raised e ↦ some false
  | ok version ↦ verdict_of_scan (scan s path)
]

abbrev verdict_of_size : Environment → String → Option ℕ → Option Bool
verdict_of_size env path none = some false
verdict_of_size env path (some size) =
    if ltb (env.max_file_size.numerator * 1024 * 1024) (size * env.max_file_size.denominator)
      || ltb (env.max_scan_size.numerator * 1024 * 1024) (size * env.max_scan_size.denominator)
    then none
    else verdict_of_scanner path (env.get_scanner path)

-- The verdict on a file: none if it was scanned before, if its size is over a limit or if the scanner
-- gives none, and a refusal if its size, the scanner, the version or the scan fails.
abbrev pub verdict_on : Environment → String → String → Option Bool
verdict_on env file_uuid path =
    if file_already_scanned env file_uuid
    then none
    else verdict_of_size env path (get_size env file_uuid path)

abbrev pub is_refused : Option Bool → Bool
is_refused none = false
is_refused (some passed) = not passed

-- A verdict is recorded, if the file has an identifier.
abbrev pub is_recorded : String → Option Bool → Bool
is_recorded file_uuid none = false
is_recorded file_uuid (some passed) = not (str_eq file_uuid "None")

-- The event that one file adds.
abbrev pub IsVerdict : String → ℤ → Event → Type 0
IsVerdict file_uuid code e =
    (e.file_uuid ≡ file_uuid)
    × (e.event_type ≡ "virus check")
    × (e.event_outcome ≡ (if is_zero code then "Pass" else "Fail"))

-- The queue gets the event of this code, or is left alone.
abbrev pub AddsVerdict : Bool → String → ℤ → List Event → List Event → Type 0
AddsVerdict true file_uuid code queue queue' =
    (e : Event) × (queue' ≡ queue ++ (e ∷ [])) × IsVerdict file_uuid code e
AddsVerdict false file_uuid code queue queue' = queue' ≡ queue

abbrev Answers : Option Bool → String → ℤ → List Event → List Event → Type 0
Answers v file_uuid code queue queue' =
    (is_zero code ≡ not (is_refused v))
    × AddsVerdict (is_recorded file_uuid v) file_uuid code queue queue'

abbrev Consistent : Option Bool → Attempt → Type 0
Consistent v a = (a.passed ≡ v) × (is_zero (code_of a) ≡ not (is_refused v))

scan_with-Consistent :
    (path : String) (s : Scanner) → Consistent (verdict_of_scanner path (ok s)) (scan_with path s)
unfolding scan_with version_attrs
scan_with-Consistent path s = ground arith

try_scan-Consistent :
    (env : Environment) (u path : String)
    → Consistent (verdict_of_size env path (get_size env u path)) (try_scan env u path)
unfolding try_scan valid_scan
try_scan-Consistent env u path = sized (get_size env u path) refl
  where
    limited :
        (size : ℕ) (v : Option Bool) (a : Attempt)
        → Consistent v a
        → Consistent
            (if is_over env.max_file_size size || is_over env.max_scan_size size then none else v)
            (if valid_scan env size
              then a
              else record { scanner = none; passed = none; returned = none })
    limited size v a c = elim (Bool-cases (is_over env.max_file_size size)) [
      | inl e ↦ rw e (refl, refl)
      | inr e ↦ rw e (elim (Bool-cases (is_over env.max_scan_size size)) [
        | inl e' ↦ rw e' (refl, refl)
        | inr e' ↦ rw e' c
      ])
    ]

    scanned :
        (size : ℕ) (r : Result Scanner)
        → env.get_scanner path ≡ r
        → get_size env u path ≡ some size
        → Consistent (verdict_of_size env path (some size)) (try_scan env u path)
    scanned size (raised e) chosen h =
        rw (h, try_scan)
          (rw chosen (
            limited size (some false)
              (record { scanner = none; passed = some false; returned = some (pos 1) })
              (refl, refl)))
    scanned size (ok s) chosen h =
        let c = scan_with-Consistent path s in
        rw (h, try_scan)
          (rw chosen (limited size (verdict_of_scanner path (ok s)) (scan_with path s) c))

    sized :
        (size : Option ℕ)
        → get_size env u path ≡ size
        → Consistent (verdict_of_size env path size) (try_scan env u path)
    sized none h = rw (h, try_scan) (refl, refl)
    sized (some size) h = scanned size (env.get_scanner path) refl h

queue_event-AddsVerdict :
    (u date : String) (s : Option (Scanner × Attempts)) (v : Option Bool)
    (queue queue' : List Event) (code : ℤ)
    → is_zero code ≡ not (is_refused v)
    → queue_event u date s v queue ≡ ok queue'
    → AddsVerdict (is_recorded u v) u code queue queue'
unfolding queue_event
queue_event-AddsVerdict u date s none queue queue' code agree = λ h. ground (arith, h)
queue_event-AddsVerdict u date s (some b) queue queue' code agree =
    elim (Bool-cases (str_eq u "None")) [
      | inl skipped ↦ rw skipped (λ h. ground (arith, h))
      | inr recorded ↦ rw recorded (elim (Result-cases (event_detail s)) [
        | inl (d, e) ↦ rw e (λ h.
            (verdict_event u date d b, ground (arith, h), (refl, refl, ground (arith, agree))))
        | inr (e, raises) ↦ rw raises (λ h. absurd (ground (arith, h)))
      ])
    ]

adds_queued :
    (u date : String) (queue : List Event) (a : Attempt) (v : Option Bool) (code : ℤ)
    → Consistent v a
    → (r : Result (List Event)) → queue_event u date a.scanner a.passed queue ≡ r
    → (queued (code_of a) queue r).0 ≡ ok code
    → Answers v u code queue (queued (code_of a) queue r).1
adds_queued u date queue a v code agree (ok q) e h =
    let c = ap is_zero (code_eq h) ∙ agree.1 in
    (
      c,
      queue_event-AddsVerdict u date a.scanner v queue q code c
          (ap (λ p. queue_event u date a.scanner p queue) (sym agree.0) ∙ e),
    )
  where
    code_eq : ◌≡◌ {A = Result ℤ} (ok (code_of a)) (ok code) → code ≡ code_of a
    code_eq p = cc
adds_queued u date queue a v code agree (raised x) e h = cc

refused_attempt :
    (env : Environment) (u path : String) (size : ℕ) (s : Scanner) (r : Scan)
    → get_size env u path ≡ some size
    → valid_scan env size ≡ true
    → env.get_scanner path ≡ ok s
    → scan s path ≡ ok r
    → r.passed ≡ some false
    → is_zero (code_of (try_scan env u path)) ≡ false
unfolding try_scan scan_with
refused_attempt env u path size s r sized valid chosen scanned refused = ground arith

-- When a file's check ends with a code, that is not 0 exactly if the verdict on the file is a
-- refusal, and the queue gets one event of the file, which says Pass for the code 0 and Fail for
-- any other, if there is a verdict and the file has an identifier, and is as before if not.
pub scan_file-AddsVerdict :
    (env : Environment) (queue : List Event) (u path date : String) (code : ℤ)
    → (scan_file env queue u path date).0 ≡ ok code
    → (is_zero code ≡ not (is_refused (verdict_on env u path)))
      × AddsVerdict
          (is_recorded u (verdict_on env u path))
          u
          code
          queue
          (scan_file env queue u path date).1
unfolding scan_file
scan_file-AddsVerdict env queue u path date code =
    let a = try_scan env u path in
    let v = verdict_of_size env path (get_size env u path) in
    let r = queue_event u date a.scanner a.passed queue in
    elim (file_already_scanned env u)
      as (λ b.
        (if b then (ok (pos 0), queue) else queued (code_of a) queue r).0 ≡ ok code
        → Answers (if b then none else v) u code queue
            (if b then (ok (pos 0), queue) else queued (code_of a) queue r).1) [
              | true ↦ λ h. (ground (arith, h), refl)
              | false ↦ adds_queued u date queue a v code (try_scan-Consistent env u path) r refl
            ]

-- A file that is new, of a valid size and refused by the scanner never gets the code 0.
pub scan_file-refused :
    (env : Environment) (queue : List Event) (u path date : String) (size : ℕ) (s : Scanner)
    (r : Scan)
    → file_already_scanned env u ≡ false
    → get_size env u path ≡ some size
    → valid_scan env size ≡ true
    → env.get_scanner path ≡ ok s
    → scan s path ≡ ok r
    → r.passed ≡ some false
    → (scan_file env queue u path date).0 ≢ ok (pos 0)
unfolding scan_file
scan_file-refused env queue u path date size s r new sized valid chosen scanned refused passes =
    ground (arith, refused_attempt env u path size s r sized valid chosen scanned refused)

-- A file over a limit is not scanned: it gets the code 0 and leaves no event.
scan_file-oversize :
    (env : Environment) (queue : List Event) (u path date : String) (size : ℕ)
    → get_size env u path ≡ some size
    → (env.max_file_size.numerator * 1024 * 1024 < size * env.max_file_size.denominator)
      ⊎ (env.max_scan_size.numerator * 1024 * 1024 < size * env.max_scan_size.denominator)
    → scan_file env queue u path date ≡ (ok (pos 0), queue)
unfolding scan_file try_scan valid_scan queue_event
scan_file-oversize env queue u path date size sized (inl h) = ground arith
scan_file-oversize env queue u path date size sized (inr h) = ground arith

-- With the clamscan backend, whose calls for the version succeed, a new file of a valid size that
-- the database knows gets no code: the check raises, and no event is queued.
pub scan_file-clamscan :
    (env : Environment) (queue : List Event) (u path date : String) (size : ℕ)
    (call : String → Called) (out out' : String)
    → file_already_scanned env u ≡ false
    → str_eq u "None" ≡ false
    → get_size env u path ≡ some size
    → valid_scan env size ≡ true
    → env.get_scanner path ≡ ok (clamscanner call (returned out) (returned out'))
    → (e : Exception) × (scan_file env queue u path date ≡ (raised e, queue))
unfolding scan_file try_scan scan_with queue_event event_detail version_attrs
scan_file-clamscan env queue u path date size call out out' new known sized valid chosen =
    (exception "a bytes-like object is required, not 'str'", ground arith)
