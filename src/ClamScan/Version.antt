-- ===== src/ClamScan/Version.antt =====
-- clientScripts/archivematica_clamscan.py: `clamav_version_parts`.
use Prim.Native.Char.{code}
use Prim.Native.String.{[], ◌∷◌}
use ccp.Prelude.{ℕ, String, ◌<>◌, ◌≡◌, refl, Option, none, some, List, ◌==◌, if◌then◌else◌}
use ccp.Prelude.Text.{starts_with}

-- s.split(sep), by the part that is being read.
unfoldable pub split_onto : ℕ → String → String → List String
split_onto sep part [] = List.◌∷◌ part List.[]
split_onto sep part (c ∷ s) =
    let next = split_onto sep "" s in
    let same = split_onto sep (part <> (c ∷ [])) s in
    if code c == sep then List.◌∷◌ part next else same

abbrev parts_of : List String → Option String × Option String
parts_of (List.◌∷◌ version List.[]) =
    if starts_with "ClamAV" version then (some version, none) else (none, none)
parts_of (List.◌∷◌ version (List.◌∷◌ defs (List.◌∷◌ date List.[]))) =
    (some version, some (defs <> "/" <> date))
parts_of _ = (none, none)

unfoldable pub clamav_version_parts : String → Option String × Option String
unfolding split_onto
clamav_version_parts ver = parts_of (split_onto b'/' "" ver)

-- The example of the source's documentation.
documented :
    clamav_version_parts "ClamAV 0.99.2/23992/Fri Oct 27 05:04:12 2017"
    ≡ (some "ClamAV 0.99.2", some "23992/Fri Oct 27 05:04:12 2017")
unfolding clamav_version_parts
documented = refl
