-- ===== src/CommandLine/Shlex.antt =====
-- `shlex.split(s)` as client/utils.py calls it: one function for each state of the reader.
use Prim.Native.Char.{Char, code}
use Prim.Native.String.{[], ◌∷◌}
use ccp.Prelude.{String, ℕ, ◌≡◌, refl, ◌<>◌, Bool, List, ◌||◌, ◌==◌, if◌then◌else◌}
use ccp.Prelude.Raise.{Result, ok, raised, exception, ◌>>=◌}

abbrev pub is_space : ℕ → Bool
is_space c = c == b' ' || c == 9 || c == 13 || c == 10

abbrev pub is_quote : ℕ → Bool
is_quote c = c == b'"' || c == 39

abbrev pub is_backslash : ℕ → Bool
is_backslash c = c == 92

-- Between words; inside a word; inside quotes, whose mark is given; after a backslash, with the
-- quotes that stand round it, if any.
pub data Mode : Type 0 where
  space word : Mode
  quotes : ℕ → Mode
  escape : Mode
  escape_in : ℕ → Mode

abbrev pub add : String → Char → String
add token c = token <> (c ∷ [])

abbrev pub emit : String → Result (List String) → Result (List String)
emit token rest = do words ← rest; ok (List.◌∷◌ token words)

-- The token so far is empty where a word begins.
unfoldable pub scan : String → Mode → String → Result (List String)
scan [] space token = ok List.[]
scan [] word token = ok (List.◌∷◌ token List.[])
scan [] (quotes q) token = raised (exception "No closing quotation")
scan [] escape token = raised (exception "No escaped character")
scan [] (escape_in q) token = raised (exception "No escaped character")
scan (c ∷ s) space token =
    scan s
      (if is_space (code c)
        then space
        else if is_backslash (code c)
        then escape
        else if is_quote (code c)
        then quotes (code c)
        else word)
      (if is_space (code c) || is_backslash (code c) || is_quote (code c) then "" else c ∷ [])
scan (c ∷ s) word token =
    let next = scan s space "" in
    let same =
      scan s
        (if is_quote (code c)
          then quotes (code c)
          else if is_backslash (code c)
          then escape
          else word)
        (if is_quote (code c) || is_backslash (code c) then token else add token c) in
    if is_space (code c) then emit token next else same
scan (c ∷ s) (quotes q) token =
    scan s
      (if code c == q
        then word
        else if is_backslash (code c)
        then (if q == b'"' then escape_in q else quotes q)
        else quotes q)
      (if code c == q
        then token
        else if is_backslash (code c)
        then (if q == b'"' then token else add token c)
        else add token c)
scan (c ∷ s) escape token = scan s word (add token c)
scan (c ∷ s) (escape_in q) token =
    scan s (quotes q)
      (if is_backslash (code c) || code c == q then add token c else add (token <> "\\") c)

unfoldable pub split : String → Result (List String)
unfolding scan
split s = scan s space ""

split_example :
    split "\"a b\" 'c'd e\\ f \"\""
    ≡ ok (List.◌∷◌ "a b" (List.◌∷◌ "cd" (List.◌∷◌ "e f" (List.◌∷◌ "" List.[]))))
unfolding split
split_example = refl
