-- ===== src/VerifyChecksum/Hashfile.antt =====
-- clientScripts/verify_checksum.py: what the return code and the events of a run mean.
use ccp.Prelude.{
  ℕ, ◌≡◌, inl, inr, refl, sym, ap, String, Bool, true, false, none, List, [], ◌∷◌, ◌++◌, ◌&&◌, ◌==◌,
  map, Bool-cases, ◌<>◌, arith, if◌then◌else◌,
}
use mathlib.Core.List.{append-nil}
use ccp.Events.{Event}
use ccp.Prelude.Int.{ℤ, is_zero, is_negative}
use ccp.Prelude.Raise.{Result, ok, raised}
use ccp.Subprocess.{Called, returned, called_process_error, other_exception}
use ccp.VerifyChecksum.{
  Environment, Progress, print_err, get_ext, mentions_status_one, status_warning, report_line,
  report_lines, count_and_compare_lines, compared, compare_hashes, write_premis_event_per_file,
  write_events, after_compare, print_out, version_of, fixity_event, command_detail, verify_hashfile,
}

abbrev same_count : Result ℕ → Result ℕ → Bool
same_count (ok a) (ok b) = a == b
same_count (ok a) (raised e) = false
same_count (raised e) b = false

abbrev accepted : Called → Bool
accepted (returned out) = true
accepted (called_process_error code out) = false
accepted (other_exception e) = false

-- What a checksum file has to meet: a line for each file, and a tool that accepts it.
abbrev pub matches : Environment → String → String → Bool
matches env hashfile command =
    same_count (env.count_lines hashfile) env.count_files && accepted (env.check command hashfile)

-- What is documented of CalledProcessError, and no tool is ended by a signal: the codes are positive.
abbrev pub PositiveCodes : Environment → Type 0
PositiveCodes env =
    (command hashfile : String) (code : ℤ) (out : String)
    → env.check command hashfile ≡ called_process_error code out
    → (is_zero code ≡ false) × (is_negative code ≡ false)

-- `ret` and the events stay where only lines are printed.
abbrev Keeps : Progress → Progress → Type 0
Keeps p q = (q.ret ≡ p.ret) × (q.events ≡ p.events)

report_line-Keeps : (ext line : String) (p : Progress) → Keeps p (report_line ext line p)
unfolding report_line
report_line-Keeps ext line p = ground arith

report_lines-Keeps :
    (ext : String) (lines : List String) (p : Progress) → Keeps p (report_lines ext lines p)
unfolding report_lines
report_lines-Keeps ext [] p = (refl, refl)
report_lines-Keeps ext (line ∷ lines) p =
    ground
      (arith, report_lines-Keeps ext lines (report_line ext line p), report_line-Keeps ext line p)

ok-inj {ℓ} : {A : Type ℓ} {a b : A} → ◌≡◌ {A = Result A} (ok a) (ok b) → a ≡ b
ok-inj e = cc

compared-Keeps :
    (env : Environment) (hashfile : String) (p : Progress) (called : Called)
    → Keeps p (compared env hashfile p called).1
compared-Keeps env hashfile p (returned out) = (refl, refl)
compared-Keeps env hashfile p (other_exception e) = (refl, refl)
compared-Keeps env hashfile p (called_process_error code out) = ground (
  arith,
  report_lines-Keeps (get_ext hashfile) (env.lines_of out) (
      if mentions_status_one code then print_err (status_warning (get_ext hashfile) code) p else p),
)

counted-Keeps :
    (env : Environment) (hashfile : String) (p : Progress)
    → Keeps p (count_and_compare_lines env hashfile p).1
unfolding count_and_compare_lines
counted-Keeps env hashfile p = ground arith

compare_hashes-Keeps :
    (env : Environment) (hashfile command : String) (p : Progress)
    → Keeps p (compare_hashes env hashfile command p).1
unfolding compare_hashes
compare_hashes-Keeps env hashfile command p =
    let p' = (count_and_compare_lines env hashfile p).1 in
    ground (
      arith,
      counted-Keeps env hashfile p,
      compared-Keeps env hashfile p' (env.check command hashfile),
    )

compared-code :
    (env : Environment) (hashfile : String) (p : Progress) (called : Called) (code : ℤ)
    → ((c : ℤ) (out : String)
        → called ≡ called_process_error c out
        → (is_zero c ≡ false) × (is_negative c ≡ false))
    → (compared env hashfile p called).0 ≡ ok code
    → (is_zero code ≡ accepted called) × (is_negative code ≡ false)
compared-code env hashfile p (returned out) code positive h = ground arith
compared-code env hashfile p (other_exception e) code positive h = ground arith
compared-code env hashfile p (called_process_error c out) code positive h =
    ground (arith, positive c out refl)

compare_hashes-code :
    (env : Environment) (hashfile command : String) (p : Progress) (code : ℤ)
    → PositiveCodes env
    → (compare_hashes env hashfile command p).0 ≡ ok code
    → (is_zero code ≡ matches env hashfile command) × (is_negative code ≡ false)
unfolding compare_hashes count_and_compare_lines
compare_hashes-code env hashfile command p code positive h =
    let called = env.check command hashfile in
    ground (arith, compared-code env hashfile p called code (positive command hashfile))

-- The first line that a tool prints of its version, or the tool's name if it fails.
abbrev version_line : Environment → String → Called → String
version_line env command (called_process_error code out) = command
version_line env command (other_exception e) = ""
version_line env command (returned out) = elim (env.lines_of out) [ [] ↦ "" | line ∷ lines ↦ line ]

-- The event of a row whose file a checksum file vouches for.
abbrev pub fixity : Environment → String → String → String → Event
fixity env hashfile command row = record {
  file_uuid = row;
  event_type = "fixity check";
  event_date_time = env.now;
  event_detail =
      "program=\""
      <> command
      <> " -c --strict "
      <> hashfile
      <> "\"; version=\""
      <> version_line env command (env.version command)
      <> "\"";
  event_outcome = "pass";
  event_outcome_detail_note = "";
}

-- The code stays, and every row gets an event.
abbrev Grows : Environment → String → String → Progress → Progress → Type 0
Grows env hashfile command p q =
    (q.ret ≡ p.ret) × (q.events ≡ p.events ++ map (fixity env hashfile command) env.file_rows)

version_of-version_line :
    (env : Environment) (command v : String) (called : Called)
    → version_of env command called ≡ ok v
    → v ≡ version_line env command called
version_of-version_line env command v (returned out) h = sym (ok-inj h)
version_of-version_line env command v (called_process_error code out) h = sym (ok-inj h)
version_of-version_line env command v (other_exception e) h = absurd (ground (arith, h))

write_events-Grows :
    (env : Environment) (hashfile command : String) (p : Progress) (v : Result String)
    (t : Result (Unit {0}))
    → version_of env command (env.version command) ≡ v
    → (write_events env hashfile command p v t).0 ≡ none
    → Grows env hashfile command p (write_events env hashfile command p v t).1
write_events-Grows env hashfile command p (raised e) t r h = absurd (ground (arith, h))
write_events-Grows env hashfile command p (ok v) (raised e) r h = absurd (ground (arith, h))
write_events-Grows env hashfile command p (ok v) (ok u) r h = (
  refl,
  ap
      (λ line.
        p.events ++ map (fixity_event env.now (command_detail command hashfile line)) env.file_rows)
      (version_of-version_line env command v (env.version command) r),
)

write_premis-Grows :
    (env : Environment) (hashfile command : String) (p : Progress)
    → (write_premis_event_per_file env hashfile command p).0 ≡ none
    → Grows env hashfile command p (write_premis_event_per_file env hashfile command p).1
unfolding write_premis_event_per_file
write_premis-Grows env hashfile command p =
    write_events-Grows env hashfile command p (version_of env command (env.version command))
      env.transfer refl

-- One checksum file, if no exception ends the run: the code stays 0 if the file matches, and every
-- row gets an event then, and none otherwise.
abbrev pub Verified : Environment → String → String → Progress → Progress → Type 0
Verified env hashfile command p q =
    (is_zero q.ret ≡ (is_zero p.ret && matches env hashfile command))
    × (is_negative q.ret ≡ false)
    × (q.events
        ≡ p.events
          ++ (if matches env hashfile command
              then map (fixity env hashfile command) env.file_rows
              else []))

after_compare-Verified :
    (env : Environment) (hashfile command : String) (p p' : Progress) (r : Result ℤ)
    → is_negative p.ret ≡ false
    → Keeps p p'
    → ((code : ℤ)
        → r ≡ ok code
        → (is_zero code ≡ matches env hashfile command) × (is_negative code ≡ false))
    → (after_compare env hashfile command p' r).0 ≡ none
    → Verified env hashfile command p (after_compare env hashfile command p' r).1
after_compare-Verified env hashfile command p p' (raised e) sign keeps means h =
    absurd (ground arith)
after_compare-Verified env hashfile command p p' (ok code) sign keeps means h =
    elim (Bool-cases (is_zero code)) [
      | inl done ↦
          let shown = print_out (get_ext hashfile <> ": Comparison was OK") p' in
          let grown = write_premis-Grows env hashfile command shown in
          ground (arith, means code refl, grown, keeps.0, keeps.1)
      | inr failed ↦ ground (arith, means code refl, keeps.0, keeps.1, append-nil p.events)
    ]

-- For positive codes: one checksum file, if no exception ends its round, leaves the code 0 exactly
-- if it was 0 and the file matches, and adds a passed fixity check of each row, with the command and
-- the version of its tool, if the file matches and no event if not.
pub verify_hashfile-Verified :
    (env : Environment) (hashfile command : String) (p : Progress)
    → PositiveCodes env
    → is_negative p.ret ≡ false
    → (verify_hashfile env hashfile command p).0 ≡ none
    → Verified env hashfile command p (verify_hashfile env hashfile command p).1
unfolding verify_hashfile
verify_hashfile-Verified env hashfile command p positive sign =
    let start =
      print_err ("Comparing transfer checksums with the supplied " <> get_ext hashfile <> " file")
        p in
    after_compare-Verified env hashfile command p (compare_hashes env hashfile command start).1
      (compare_hashes env hashfile command start).0 sign
      (compare_hashes-Keeps env hashfile command start)
      (λ code e. compare_hashes-code env hashfile command start code positive e)
