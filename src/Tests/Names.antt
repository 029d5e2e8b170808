-- ===== src/Tests/Names.antt =====
-- clientScripts/change_names.py on a name that needs a change, and whose first choice is taken.
use ccp.Prelude.{◌+◌, ◌≤◌, ◌<◌, ◌≡◌, ◌≢◌, refl, String, Bool, true, false, str_eq, arith}
use ccp.Prelude.Decimal.{show}
use ccp.Prelude.Text.{length, all}
use ccp.Prelude.Paths.{basename, dirname, extension}
use ccp.Prelude.Raise.{ok}
use ccp.ChangeNames.{
  is_allowed, sub, change_name, candidate, first_free, change_path, moved_to, unfinished, path_at,
}
use ccp.ChangeNames.Names.{
  change_name-allowed, candidate-bounded, change_path-free, change_path-finishes,
}

abbrev keep : String → String
keep s = s

abbrev taken : String → Bool
taken = str_eq "/o/a_b.txt"

changed-ok : change_name keep "a b.txt" ≡ ok "a_b.txt"
unfolding change_name sub
changed-ok = refl

change_name-allowed_example : (all is_allowed "a_b.txt" ≡ true) × (0 < length "a_b.txt")
change_name-allowed_example = change_name-allowed keep "a b.txt" "a_b.txt" changed-ok

bound : length (extension "a_b.txt") + (1 + length (show 1)) ≤ 8
unfolding extension show
bound = omega arith

candidate-bounded_example : length (candidate 8 "a_b.txt" 1) ≤ 8
candidate-bounded_example = candidate-bounded 8 "a_b.txt" 1 bound

moved-ok : change_path keep taken 5 "/o/a b.txt" 255 ≡ ok (moved_to "/o/a_b_1.txt")
unfolding change_path change_name sub candidate first_free basename dirname extension show
moved-ok = refl

change_path-free_example : taken "/o/a_b_1.txt" ≡ false
change_path-free_example = change_path-free keep taken 5 "/o/a b.txt" 255 "/o/a_b_1.txt" moved-ok

named : change_name keep (basename "/o/a b.txt") ≡ ok "a_b.txt"
unfolding change_name sub basename
named = refl

second_free : taken (path_at "/o/a b.txt" 255 "a_b.txt" 1) ≡ false
unfolding candidate dirname extension show
second_free = refl

change_path-finishes_example : change_path keep taken 5 "/o/a b.txt" 255 ≢ ok unfinished
change_path-finishes_example =
    change_path-finishes keep taken 5 "/o/a b.txt" "a_b.txt" 255 1 named second_free (omega arith)
