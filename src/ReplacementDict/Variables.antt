-- ===== src/ReplacementDict/Variables.antt =====
-- utils/dicts.py: what a replacement leaves alone, and what the dict of a file says of its place.
use Prim.Native.String.{[], ◌∷◌}
use ccp.Prelude.{◌≡◌, refl, ap, ◌∙◌, String, Bool, false, some, List, any, arith}
use ccp.Prelude.Dict.{Dict, lookup, lookup-insert}
use ccp.Prelude.Text.{contains, replace, replace_from}
use ccp.ReplacementDict.{of_file, FileRow, set_file, replace_items}

replace_from-absent : (old new s : String) → contains old s ≡ false → replace_from old new 0 s ≡ s
unfolding replace_from
replace_from-absent old new [] h = refl
replace_from-absent old new (c ∷ s) h = ground (arith, replace_from-absent old new s)

-- A text in which a variable does not occur is left as it is.
pub replace-absent : (s old new : String) → contains old s ≡ false → replace s old new ≡ s
unfolding replace
replace-absent s (p ∷ old) new h = replace_from-absent (p ∷ old) new s h
replace-absent [] [] new h = absurd (ground arith)
replace-absent (c ∷ s) [] new h = absurd (ground arith)

abbrev pub occurs_in : String → String × String → Bool
occurs_in s (key, value) = contains key s

-- A text in which no key of the dict occurs is left as it is by the whole dict.
replace_items-absent :
    (rd : Dict String) (s : String) → any (occurs_in s) rd ≡ false → replace_items rd s ≡ s
unfolding replace_items
replace_items-absent List.[] s h = refl
replace_items-absent (List.◌∷◌ (key, value) rest) s h =
    ap (replace_items rest) (replace-absent s key value (ground arith))
    ∙ replace_items-absent rest s (ground arith)

-- In the dict of a file, the four variables for its path stand for the current location, and the
-- one for the original location for that.
set_file-current :
    (row : FileRow) (origin current : String) (rd : Dict String)
    → let rd' = set_file of_file row origin current rd in
      (lookup "%currentLocation%" rd' ≡ some current)
      × (lookup "%relativeLocation%" rd' ≡ some current)
      × (lookup "%inputFile%" rd' ≡ some current)
      × (lookup "%fileFullName%" rd' ≡ some current)
      × (lookup "%originalLocation%" rd' ≡ some origin)
unfolding set_file
set_file-current row origin current rd = (
  simp (lookup-insert),
  simp (lookup-insert),
  simp (lookup-insert),
  simp (lookup-insert),
  simp (lookup-insert),
)
