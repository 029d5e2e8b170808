-- ===== src/CommandLine/Roundtrip.antt =====
-- client/utils.py: quoted arguments are read back.
use Prim.Native.Char.{Char, code}
use Prim.Native.String.{[], ◌∷◌}
use text.Mathlib.TextLemmas.{nil-append, cons-append, append-nil, append_assoc}
use ccp.Prelude.{
  String, ℕ, ◌≡◌, refl, ◌∙◌, ap, ◌<>◌, Bool, true, List, not, ◌||◌, ◌==◌, arith, map, All,
}
use ccp.Prelude.Text.{all}
use ccp.Prelude.Raise.{ok}
use ccp.CommandLine.{shlex_unescape, parse_command_line}
use ccp.CommandLine.Shlex.{space, word, quotes, scan, split, add, emit, is_backslash}

abbrev pub plain : ℕ → Bool
plain c = not (c == b'"' || is_backslash c)

abbrev pub IsPlain : String → Type 0
IsPlain a = all plain a ≡ true

-- The arguments in double quotes, with a space between two of them.
abbrev pub quoted : String → String → String
quoted a rest = "\"" ∷ (a <> ("\"" ∷ rest))

abbrev pub command_line : List String → String
command_line List.[] = ""
command_line (List.◌∷◌ a List.[]) = quoted a ""
command_line (List.◌∷◌ a (List.◌∷◌ b args)) = quoted a (" " ∷ command_line (List.◌∷◌ b args))

add-append : (token : String) (c : Char) (s : String) → (add token c) <> s ≡ token <> (c ∷ s)
add-append token c s =
    append_assoc token (c ∷ []) s ∙ ap (λ t. token <> t) (cons-append c [] s ∙ rw nil-append)

plain_step :
    (c : Char) (s token : String)
    → plain (code c) ≡ true
    → scan (c ∷ s) (quotes b'"') token ≡ scan s (quotes b'"') (add token c)
unfolding scan
plain_step c s token h = ground arith

scan_inside :
    (a rest token : String)
    → IsPlain a
    → scan (a <> ("\"" ∷ rest)) (quotes b'"') token ≡ scan rest word (token <> a)
scan_inside [] rest token h = unfold scan in rw (nil-append, append-nil)
scan_inside (c ∷ a) rest token h = rw cons-append (
    plain_step c (a <> ("\"" ∷ rest)) token (ground arith)
    ∙ scan_inside a rest (add token c) (ground arith)
    ∙ ap (scan rest word) (add-append token c a))

scan-quoted : (a rest : String) → IsPlain a → scan (quoted a rest) space "" ≡ scan rest word a
scan-quoted a rest h = unfold scan in (scan_inside a rest "" h ∙ ap (scan rest word) (nil-append a))

-- The reader gives back arguments that were quoted and joined, if they hold no double quote and no
-- backslash.
pub split-command_line :
    (args : List String) → All IsPlain args → split (command_line args) ≡ ok args
unfolding split
split-command_line List.[] h = refl
split-command_line (List.◌∷◌ a List.[]) h = scan-quoted a "" h.0
split-command_line (List.◌∷◌ a (List.◌∷◌ b args)) h =
    scan-quoted a (" " ∷ command_line (List.◌∷◌ b args)) h.0
    ∙ ap (emit a) (split-command_line (List.◌∷◌ b args) h.1)

shlex_unescape-plain : (a : String) → IsPlain a → shlex_unescape a ≡ a
unfolding shlex_unescape
shlex_unescape-plain [] h = refl
shlex_unescape-plain (c ∷ a) h = ground (arith, shlex_unescape-plain a)

map-shlex_unescape : (args : List String) → All IsPlain args → map shlex_unescape args ≡ args
map-shlex_unescape List.[] h = refl
map-shlex_unescape (List.◌∷◌ a args) h =
    λ i. List.◌∷◌ (shlex_unescape-plain a h.0 i) (map-shlex_unescape args h.1 i)

-- Arguments that are quoted and joined by spaces are read back as they were, if they hold no
-- double quote and no backslash.
pub parse_command_line-command_line :
    (args : List String) → All IsPlain args → parse_command_line (command_line args) ≡ ok args
unfolding parse_command_line
parse_command_line-command_line args h =
    rw (split-command_line args h) (ap ok (map-shlex_unescape args h))
