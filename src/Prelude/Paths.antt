-- ===== src/Prelude/Paths.antt =====
-- What the program uses of `os.path` on POSIX: paths are texts, and "/" is the separator.
use Prim.Native.Nat.{ℕ, ◌-◌}
use Prim.Native.Char.{code}
use Prim.Native.String.{String, [], ◌∷◌, ◌++◌}
use mathlib.Core.Path.{◌≡◌, refl}
use mathlib.Core.Bool.{Bool, true, false, ◌&&◌, ◌||◌}
use text.Mathlib.Text.{◌==◌ as str_eq}
use ccp.Prelude.Tests.{◌==◌, if◌then◌else◌}
use ccp.Prelude.Text.{starts_with, ends_with, contains, drop, all}

abbrev is_slash : ℕ → Bool
is_slash c = c == b'/'

-- os.path.join(a, b)
abbrev pub join_path : String → String → String
join_path a b =
    if starts_with "/" b
    then b
    else if str_eq a "" || ends_with "/" a
    then a ++ b
    else a ++ "/" ++ b

-- os.path.basename(path): what follows the last "/".
unfoldable pub basename : String → String
basename [] = []
basename (c ∷ s) =
    let rest = basename s in if contains "/" s then rest else if is_slash (code c) then s else c ∷ s

-- The path up to and with its last "/".
unfoldable pub head_of : String → String
head_of [] = []
head_of (c ∷ s) =
    let rest = head_of s in
    if contains "/" s then c ∷ rest else if is_slash (code c) then c ∷ [] else []

-- s.rstrip("/")
unfoldable pub rstrip_slash : String → String
rstrip_slash [] = []
rstrip_slash (c ∷ s) = let rest = rstrip_slash s in if all is_slash (c ∷ s) then [] else c ∷ rest

-- os.path.dirname(path): the trailing slashes go, unless there is nothing else.
unfoldable pub dirname : String → String
unfolding head_of rstrip_slash
dirname path = if all is_slash (head_of path) then head_of path else rstrip_slash (head_of path)

-- The extension of a file's name begins at its last dot, but leading dots begin none.
unfoldable pub extension_after : Bool → String → String
extension_after seen [] = []
extension_after seen (c ∷ s) =
    let rest = extension_after (seen || (if code c == b'.' then false else true)) s in
    if code c == b'.' && seen && (if contains "." s then false else true) then c ∷ s else rest

-- os.path.splitext(path)[1], and what is left without the last `n` characters.
unfoldable pub extension : String → String
unfolding extension_after basename
extension path = extension_after false (basename path)

abbrev text_length : String → ℕ
text_length = ccp.Prelude.Text.length

abbrev pub stem : String → String
stem path = ccp.Prelude.Text.take (text_length path - text_length (extension path)) path

paths_example :
    (basename "/a/b.txt" ≡ "b.txt")
    × (dirname "/a//b.txt" ≡ "/a")
    × (extension "/a.d/.b.tar.gz" ≡ ".gz")
    × (extension "a/..bashrc" ≡ "")
    × (stem "x/b.txt" ≡ "x/b")
unfolding basename dirname extension head_of rstrip_slash extension_after
paths_example = (refl, refl, refl, refl, refl)
