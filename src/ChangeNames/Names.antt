-- ===== src/ChangeNames/Names.antt =====
-- clientScripts/change_names.py: what a new name is made of, how long it is, and that it is free.
use Prim.Native.Char.{code}
use Prim.Native.String.{[], ◌∷◌}
use ccp.Prelude.{
  ℕ, zero, suc, ◌+◌, ◌-◌, ◌≤◌, ◌<◌, ◌<>◌, ◌≡◌, ◌≢◌, refl, ap, ◌∙◌, String, Bool, true, false,
  Option, none, some, str_eq, arith, inl, inr, Bool-cases, if◌then◌else◌,
}
use ccp.Prelude.Int.{sub_ℕ}
use ccp.Prelude.Decimal.{show}
use ccp.Prelude.Text.{length, take, all, length-append}
use ccp.Prelude.Paths.{basename, extension, stem}
use ccp.Prelude.Raise.{Result, ok, raised}
use ccp.ChangeNames.{
  is_allowed, sub, change_name, slice_to, candidate, first_free, Change, unfinished, moved_to,
  path_at, move_of, change_from, change_path,
}

sub-allowed : (s : String) → all is_allowed (sub s) ≡ true
unfolding sub
sub-allowed [] = refl
sub-allowed (c ∷ s) = elim (Bool-cases (is_allowed (code c))) [
  | inl e ↦ rw e (ground (arith, sub-allowed s))
  | inr e ↦ rw e (sub-allowed s)
]

length-sub : (s : String) → length (sub s) ≡ length s
unfolding sub
length-sub [] = refl
length-sub (c ∷ s) = ap suc (length-sub s)

length-pos : (s : String) → str_eq s "" ≡ false → 0 < length s
length-pos [] h = absurd (ground arith)
length-pos (c ∷ s) h = omega arith

-- A changed name has only allowed characters, and at least one.
pub change_name-allowed :
    (unidecode : String → String) (name changed : String)
    → change_name unidecode name ≡ ok changed
    → (all is_allowed changed ≡ true) × (0 < length changed)
unfolding change_name
change_name-allowed unidecode name changed h = elim (Bool-cases (str_eq name "")) [
  | inl e ↦ absurd (ground arith)
  | inr e ↦
      let t = if str_eq (unidecode name) "" then name else unidecode name in
      rw (← changed_eq e) (sub-allowed t, rw (length-sub t) (length-pos t (chosen e)))
]
  where
    changed_eq :
        str_eq name "" ≡ false
        → sub (if str_eq (unidecode name) "" then name else unidecode name) ≡ changed
    changed_eq e = ground arith

    chosen :
        str_eq name "" ≡ false
        → str_eq (if str_eq (unidecode name) "" then name else unidecode name) "" ≡ false
    chosen e = ground arith

length-take_le : (n : ℕ) (s : String) → length (take n s) ≤ n
length-take_le zero s = omega arith
length-take_le (suc n) [] = omega arith
length-take_le (suc n) (c ∷ s) = omega (arith, length-take_le n s)

length-slice_to : (s : String) (a b : ℕ) → b ≤ a → length (slice_to s (sub_ℕ a b)) + b ≤ a
length-slice_to s a b h = ground (arith, length-take_le (a - b) s)

-- A name that is tried is no longer than the file system allows, if the extension with the
-- underscore and the number is not.
pub candidate-bounded :
    (max_filename : ℕ) (changed : String) (n : ℕ)
    → length (extension changed) + (1 + length (show n)) ≤ max_filename
    → length (candidate max_filename changed n) ≤ max_filename
unfolding candidate
candidate-bounded max_filename changed zero h =
    let ext = extension changed in
    let cut = slice_to (stem changed) (sub_ℕ max_filename (length ext)) in
    rw (length-append cut ext)
      (length-slice_to (stem changed) max_filename (length ext) (omega arith))
candidate-bounded max_filename changed (suc n) h =
    let ext = extension changed in
    let number = show (suc n) in
    let cut = slice_to (stem changed) (sub_ℕ max_filename (length ext + (1 + length number))) in
    rw
      (
        length-append cut ("_" <> (number <> ext)),
        length-append "_" (number <> ext),
        length-append number ext,
      )
      (omega
        (arith, length-slice_to (stem changed) max_filename (length ext + (1 + length number)) h))

first_free-free :
    (exists : String → Bool) (paths : ℕ → String) (fuel n : ℕ) (path : String)
    → first_free exists paths fuel n ≡ some path
    → exists path ≡ false
unfolding first_free
first_free-free exists paths zero n path h = absurd (ground arith)
first_free-free exists paths (suc fuel) n path h = elim (Bool-cases (exists (paths n))) [
  | inl e ↦ ground (arith, first_free-free exists paths fuel (suc n) path)
  | inr e ↦ ground arith
]

first_free-returns :
    (exists : String → Bool) (paths : ℕ → String) (fuel n k : ℕ)
    → k < fuel
    → exists (paths (n + k)) ≡ false
    → first_free exists paths fuel n ≢ none
unfolding first_free
first_free-returns exists paths zero n k short free h = absurd (omega arith)
first_free-returns exists paths (suc fuel) n zero short free h = ground arith
first_free-returns exists paths (suc fuel) n (suc k) short free h =
    ground (arith, first_free-returns exists paths fuel (suc n) k)

moved_free :
    (exists : String → Bool) (o : Option String) (new : String)
    → ((path : String) → o ≡ some path → exists path ≡ false)
    → move_of o ≡ moved_to new
    → exists new ≡ false
moved_free exists none new free h = absurd (ground arith)
moved_free exists (some path) new free h = ground (arith, free path refl)

-- A path that a change moves a file to does not exist before the move.
pub change_path-free :
    (unidecode : String → String) (exists : String → Bool) (fuel : ℕ) (path : String)
    (max_filename : ℕ) (new : String)
    → change_path unidecode exists fuel path max_filename ≡ ok (moved_to new)
    → exists new ≡ false
unfolding change_path
change_path-free unidecode exists fuel path max_filename new =
    changed (change_name unidecode (basename path))
  where
    changed :
        (r : Result String)
        → change_from exists fuel path max_filename r ≡ ok (moved_to new)
        → exists new ≡ false
    changed (raised e) h = absurd (ground arith)
    changed (ok name) h =
        let paths = path_at path max_filename name in
        elim (Bool-cases (str_eq (basename path) name)) [
          | inl e ↦ absurd (ground arith)
          | inr e ↦
              moved_free exists (first_free exists paths fuel 0) new
                (λ p. first_free-free exists paths fuel 0 p) (ground arith)
        ]

-- If the name can be changed and the path of some number below the fuel is free, the search for a
-- free path ends.
pub change_path-finishes :
    (unidecode : String → String) (exists : String → Bool) (fuel : ℕ) (path name : String)
    (max_filename k : ℕ)
    → change_name unidecode (basename path) ≡ ok name
    → exists (path_at path max_filename name k) ≡ false
    → k < fuel
    → change_path unidecode exists fuel path max_filename ≢ ok unfinished
unfolding change_path
change_path-finishes unidecode exists fuel path name max_filename k named free short =
    rw named (elim (Bool-cases (str_eq (basename path) name)) [
      | inl e ↦ rw e (λ h. ground arith)
      | inr e ↦ rw e (
          found (first_free exists (path_at path max_filename name) fuel 0) (
            first_free-returns exists (path_at path max_filename name) fuel 0 k short
              (ap (λ n. exists (path_at path max_filename name n)) zero_add ∙ free)))
    ])
  where
    zero_add : 0 + k ≡ k
    zero_add = omega arith

    found :
        (o : Option String) → o ≢ none → ◌≢◌ {A = Result Change} (ok (move_of o)) (ok unfinished)
    found none some_path h = some_path refl
    found (some p) some_path h = ground arith
