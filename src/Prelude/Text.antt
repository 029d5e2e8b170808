-- ===== src/Prelude/Text.antt =====
-- Python's `str` methods that the program uses, on the native texts, character by character.
use Prim.Native.Nat.{ℕ, zero, suc, ◌+◌, ◌-◌}
use Prim.Native.Char.{code}
use Prim.Native.String.{String, [], ◌∷◌, ◌++◌}
use mathlib.Core.Path.{◌≡◌, refl}
use mathlib.Core.Bool.{Bool, true, false, ◌&&◌, ◌||◌}
use native.Mathlib.Omega.{arith}
use text.Mathlib.TextLemmas.{nil-append, cons-append}
use text.Mathlib.Text.{◌==◌ as str_eq}
use ccp.Prelude.Tests.{◌==◌, if◌then◌else◌}

-- len(s)
abbrev pub length : String → ℕ
length [] = 0
length (c ∷ s) = suc (length s)

-- A test of every character.
abbrev pub all : (ℕ → Bool) → String → Bool
all p [] = true
all p (c ∷ s) = p (code c) && all p s

-- s.startswith(prefix)
abbrev pub starts_with : String → String → Bool
starts_with [] s = true
starts_with (p ∷ prefix) [] = false
starts_with (p ∷ prefix) (c ∷ s) = code p == code c && starts_with prefix s

-- s[n:], s[:n]
abbrev pub drop : ℕ → String → String
drop zero s = s
drop (suc n) [] = []
drop (suc n) (c ∷ s) = drop n s

abbrev pub take : ℕ → String → String
take zero s = []
take (suc n) [] = []
take (suc n) (c ∷ s) = c ∷ take n s

-- sub in s
abbrev pub contains : String → String → Bool
contains sub [] = starts_with sub []
contains sub (c ∷ s) = starts_with sub (c ∷ s) || contains sub s

-- `skip` characters of a match are still to be passed over.
unfoldable pub replace_from : String → String → ℕ → String → String
replace_from old new skip [] = []
replace_from old new (suc skip) (c ∷ s) = replace_from old new skip s
replace_from old new zero (c ∷ s) =
    let hit = new ++ replace_from old new (length old - 1) s in
    let miss = c ∷ replace_from old new 0 s in if starts_with old (c ∷ s) then hit else miss

-- s.replace("", new) puts `new` round every character.
unfoldable pub replace_empty : String → String → String
replace_empty new [] = new
replace_empty new (c ∷ s) = new ++ (c ∷ replace_empty new s)

-- s.replace(old, new): every occurrence, from the left, that does not overlap one before it.
unfoldable pub replace : String → String → String → String
unfolding replace_from replace_empty
replace s [] new = replace_empty new s
replace s (p ∷ old) new = replace_from (p ∷ old) new 0 s

-- s.replace(old, new, 1)
unfoldable pub replace_first : String → String → String → String
replace_first [] old new = if starts_with old [] then new else []
replace_first (c ∷ s) old new =
    let miss = c ∷ replace_first s old new in
    if starts_with old (c ∷ s) then new ++ drop (length old) (c ∷ s) else miss

pub length-append : (s t : String) → length (s ++ t) ≡ length s + length t
length-append [] t = rw nil-append (omega arith)
length-append (c ∷ s) t = rw cons-append (omega (arith, length-append s t))

pub all-append : (p : ℕ → Bool) (s t : String) → all p (s ++ t) ≡ (all p s && all p t)
all-append p [] t = rw nil-append
all-append p (c ∷ s) t = rw cons-append (ground (arith, all-append p s t))

replace_first_example : replace_first "/a/b/a" "/a" "%T%" ≡ "%T%/b/a"
unfolding replace_first
replace_first_example = refl

replace_example : replace "aXaXXa" "X" "--" ≡ "a--a----a"
unfolding replace
replace_example = refl

-- s.endswith(suffix)
abbrev pub ends_with : String → String → Bool
ends_with suffix [] = str_eq suffix []
ends_with suffix (c ∷ s) = str_eq suffix (c ∷ s) || ends_with suffix s
