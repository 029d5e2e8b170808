-- ===== src/VerifyChecksum/Run.antt =====
-- clientScripts/verify_checksum.py: the whole run over the four kinds of checksum file.
use ccp.Prelude.{
  ◌≡◌, refl, sym, ap, ◌∙◌, String, Bool, true, false, Option, none, some, List, [], ◌∷◌, ◌&&◌, ◌||◌,
  not, arith, map, ◌++◌, all, if◌then◌else◌,
}
use mathlib.Core.List.{append_assoc, append-nil}
use ccp.Prelude.Dict.{Dict}
use ccp.Prelude.Int.{ℤ, pos, is_zero, is_negative}
use ccp.Prelude.Raise.{Exception, Result, ok, raised}
use ccp.Job.{Job}
use ccp.Events.{Event}
use ccp.VerifyChecksum.{
  Environment, Progress, verify_hashfile, verify_hashfiles, and_then, run_hashsum_commands,
  hashfile_paths, no_rows,
}
use ccp.VerifyChecksum.Hashfile.{matches, fixity, PositiveCodes, Verified, verify_hashfile-Verified}

-- A checksum file that is there has to match; one that is not there is passed over.
abbrev pub passes : Environment → String × String → Bool
passes env (hashfile, command) = not (env.exists hashfile) || matches env hashfile command

abbrev pub verified : Environment → String × String → Bool
verified env (hashfile, command) = env.exists hashfile && matches env hashfile command

-- The events of the checksum files that are there and match.
abbrev pub fixity_events : Environment → Dict String → List Event
fixity_events env [] = []
fixity_events env ((hashfile, command) ∷ hs) =
    (if verified env (hashfile, command)
      then map (fixity env hashfile command) env.file_rows
      else [])
    ++ fixity_events env hs

abbrev AllVerified : Environment → Dict String → Progress → Progress → Type 0
AllVerified env hs p q =
    (is_zero q.ret ≡ (is_zero p.ret && all (passes env) hs))
    × (is_negative q.ret ≡ false)
    × (q.events ≡ p.events ++ fixity_events env hs)

verify_rest :
    (env : Environment) (h c : String) (hs : Dict String) (p p' : Progress) (e : Option Exception)
    (more : Option Exception × Progress)
    → env.exists h ≡ true
    → (e ≡ none → Verified env h c p p')
    → (is_negative p'.ret ≡ false → more.0 ≡ none → AllVerified env hs p' more.1)
    → (and_then e p' more).0 ≡ none
    → AllVerified env ((h, c) ∷ hs) p (and_then e p' more).1
verify_rest env h c hs p p' (some x) more there one rest done = absurd (ground arith)
verify_rest env h c hs p p' none more there one rest done =
    let first = one refl in
    let others = rest first.1 done in
    (
      ground (arith, first, others),
      others.1,
      others.2
          ∙ ap (λ events. events ++ fixity_events env hs) first.2
          ∙ append_assoc p.events _ (fixity_events env hs)
          ∙ ap
              (λ b.
                p.events
                ++ ((if b && matches env h c then map (fixity env h c) env.file_rows else [])
                    ++ fixity_events env hs))
              (sym there),
    )

verify_skipped :
    (env : Environment) (h c : String) (hs : Dict String) (p q : Progress)
    → env.exists h ≡ false
    → AllVerified env hs p q
    → AllVerified env ((h, c) ∷ hs) p q
verify_skipped env h c hs p q absent rest = (ground (arith, absent, rest), rest.1, rw absent rest.2)

verify_chosen :
    (env : Environment) (h c : String) (hs : Dict String) (p : Progress)
    (run skip : Option Exception × Progress) (b : Bool)
    → env.exists h ≡ b
    → (env.exists h ≡ true → run.0 ≡ none → AllVerified env ((h, c) ∷ hs) p run.1)
    → (skip.0 ≡ none → AllVerified env hs p skip.1)
    → (if b then run else skip).0 ≡ none
    → AllVerified env ((h, c) ∷ hs) p (if b then run else skip).1
verify_chosen env h c hs p run skip true e on off done = on e done
verify_chosen env h c hs p run skip false e on off done =
    verify_skipped env h c hs p skip.1 e (off done)

-- For codes that are positive: if no exception ends the loop, its code stays 0 exactly if every
-- checksum file that is there matches, and each of those adds a passed fixity check of each row.
pub verify_hashfiles-AllVerified :
    (env : Environment) (hs : Dict String) (p : Progress)
    → PositiveCodes env
    → is_negative p.ret ≡ false
    → (verify_hashfiles env hs p).0 ≡ none
    → AllVerified env hs p (verify_hashfiles env hs p).1
unfolding verify_hashfiles
verify_hashfiles-AllVerified env [] p positive sign h =
    (ground arith, sign, sym (append-nil p.events))
verify_hashfiles-AllVerified env ((hashfile, command) ∷ hs) p positive sign h =
    let (e, p') = verify_hashfile env hashfile command p in
    let more = verify_hashfiles env hs p' in
    verify_chosen env hashfile command hs p (and_then e p' more) (verify_hashfiles env hs p)
      (env.exists hashfile) refl
      (λ there.
        verify_rest env hashfile command hs p p' e more there
          (verify_hashfile-Verified env hashfile command p positive sign)
          (verify_hashfiles-AllVerified env hs p' positive))
      (verify_hashfiles-AllVerified env hs p positive sign) h

run_result :
    (env : Environment) (hs : Dict String) (p : Progress) (e : Option Exception) (q : Progress)
    (code : ℤ)
    → (e ≡ none → AllVerified env hs p q)
    → is_zero p.ret ≡ true
    → (elim e as (λ _. Result ℤ) [ none ↦ ok q.ret | some x ↦ raised x ]) ≡ ok code
    → (is_zero code ≡ all (passes env) hs) × (q.events ≡ p.events ++ fixity_events env hs)
run_result env hs p (some x) q code means zero h = absurd (ground arith)
run_result env hs p none q code means zero h =
    let m = means refl in
    (ap is_zero (code_eq h) ∙ m.0 ∙ ap (λ b. b && all (passes env) hs) zero, m.2)
  where
    code_eq : ◌≡◌ {A = Result ℤ} (ok q.ret) (ok code) → code ≡ q.ret
    code_eq e = cc

-- For positive codes, when a run on a transfer with rows ends with a code, that is 0 exactly if
-- every checksum file that is there has a line for each file and is accepted by its tool, and the
-- run adds for each accepted checksum file in turn a fixity check of every row, which has the
-- outcome pass and the tool's command and version, and no other event.
pub run_hashsum_commands-verifies :
    (env : Environment) (name dir uuid : String) (rest : List String) (job : Job)
    (events : List Event) (code : ℤ)
    → PositiveCodes env
    → no_rows env.file_rows ≡ false
    → (run_hashsum_commands env (name ∷ dir ∷ uuid ∷ rest) job events).0 ≡ ok code
    → (is_zero code ≡ all (passes env) (hashfile_paths dir))
      × ((run_hashsum_commands env (name ∷ dir ∷ uuid ∷ rest) job events).2
          ≡ events ++ fixity_events env (hashfile_paths dir))
unfolding run_hashsum_commands
run_hashsum_commands-verifies env name dir uuid rest job events code positive some_rows =
    let p : Progress = record { job = job; events = events; ret = pos 0 } in
    let (e, q) = verify_hashfiles env (hashfile_paths dir) p in
    rw some_rows (
      run_result env (hashfile_paths dir) p e q code
        (verify_hashfiles-AllVerified env (hashfile_paths dir) p positive refl) refl)
