-- ===== src/ChangeNames.antt =====
-- clientScripts/change_names.py: the name that a file or directory gets on disk. `unidecode` and the
-- tests of the file system are parameters; the walk of the tree is not modelled.
pub mod Names
use Prim.Native.Char.{Char, code}
use Prim.Native.String.{[], ◌∷◌}
use ccp.Prelude.{
  ℕ, zero, suc, ◌+◌, ◌-◌, ◌<>◌, String, Bool, true, false, Option, none, some, ◌&&◌, ◌||◌, ◌==◌,
  leb, str_eq, if◌then◌else◌,
}
use ccp.Prelude.Int.{ℤ, pos, negsuc, sub_ℕ}
use ccp.Prelude.Decimal.{show}
use ccp.Prelude.Text.{length, take}
use ccp.Prelude.Paths.{basename, dirname, join_path, extension, stem}
use ccp.Prelude.Raise.{Exception, exception, Result, ok, raised}

-- The characters that `ALLOWED_CHARS` does not match.
abbrev pub is_allowed : ℕ → Bool
is_allowed c =
    (leb b'a' c && leb c b'z')
    || (leb b'A' c && leb c b'Z')
    || (leb b'0' c && leb c b'9')
    || c == b'-'
    || c == b'_'
    || c == b'.'
    || c == b'('
    || c == b')'

-- ALLOWED_CHARS.sub(REPLACEMENT_CHAR, name)
unfoldable pub sub : String → String
sub [] = []
sub (c ∷ s) = (if is_allowed (code c) then c else "_") ∷ sub s

-- `change_name`
unfoldable pub change_name : (String → String) → String → Result String
change_name unidecode name =
    if str_eq name ""
    then raised (exception "change_name received an empty filename.")
    else ok (sub (if str_eq (unidecode name) "" then name else unidecode name))

-- s[:k], where a negative k counts from the end.
abbrev pub slice_to : String → ℤ → String
slice_to s (pos k) = take k s
slice_to s (negsuc k) = take (length s - suc k) s

-- The names that `change_path` tries: first the changed name, then numbered ones.
unfoldable pub candidate : ℕ → String → ℕ → String
candidate max_filename changed zero =
    slice_to (stem changed) (sub_ℕ max_filename (length (extension changed))) <> extension changed
candidate max_filename changed (suc n) =
    let number = show (suc n) in
    slice_to (stem changed) (sub_ℕ max_filename (length (extension changed) + (1 + length number)))
    <> ("_" <> (number <> extension changed))

-- The `while` loop from a number on: the first free path, if the fuel lasts.
unfoldable pub first_free : (String → Bool) → (ℕ → String) → ℕ → ℕ → Option String
first_free exists paths zero n = none
first_free exists paths (suc fuel) n =
    let rest = first_free exists paths fuel (suc n) in
    if exists (paths n) then rest else some (paths n)

-- What a call does: nothing, or a move to a path; `unfinished` is a search that ran out of fuel.
pub data Change : Type 0 where
  unchanged unfinished : Change
  moved_to : String → Change

abbrev pub move_of : Option String → Change
move_of none = unfinished
move_of (some path) = moved_to path

abbrev pub path_at : String → ℕ → String → ℕ → String
path_at path max_filename changed n = join_path (dirname path) (candidate max_filename changed n)

abbrev pub change_from : (String → Bool) → ℕ → String → ℕ → Result String → Result Change
change_from exists fuel path max_filename (raised e) = raised e
change_from exists fuel path max_filename (ok changed) =
    if str_eq (basename path) changed
    then ok unchanged
    else ok (move_of (first_free exists (path_at path max_filename changed) fuel 0))

-- `change_path`
unfoldable pub change_path : (String → String) → (String → Bool) → ℕ → String → ℕ → Result Change
change_path unidecode exists fuel path max_filename =
    change_from exists fuel path max_filename (change_name unidecode (basename path))
