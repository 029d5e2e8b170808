-- ===== src/Normalize/Results.antt =====
-- clientScripts/normalize.py: the codes that `main` returns, the derivations of an earlier run, the
-- file that is taken of several matches, and when the default rule is run.
use Prim.Native.Char.{Char, code}
use Prim.Native.String.{[], ◌∷◌}
use mathlib.Core.Logic.Or
use mathlib.Core.List.{Mem, Mem-prop, mem-cons, mem-cons_self, mem-cons_of_mem}
use ccp.Prelude.{String, Bool, true, false, List, All, if◌then◌else◌, ◌≡◌, ◌<◌, refl, arith}
use ccp.Rows.{File}
use ccp.Normalize.Manual.{precedes, text_of, least}

precedes_irrefl : (s : String) → precedes s s ≡ false
unfolding precedes
precedes_irrefl [] = refl
precedes_irrefl (c ∷ s) = ground (arith, precedes_irrefl s)

precedes_trans : (s t u : String) → precedes s t ≡ true → precedes t u ≡ true → precedes s u ≡ true
unfolding precedes
precedes_trans s t [] h k = absurd (ground arith)
precedes_trans s [] (e ∷ u) h k = absurd (ground arith)
precedes_trans [] (d ∷ t) (e ∷ u) h k = refl
precedes_trans (c ∷ s) (d ∷ t) (e ∷ u) h k = ground (arith, precedes_trans s t u)

precedes_between :
    (s t u : String) → precedes s u ≡ true → precedes t u ≡ false → precedes s t ≡ true
unfolding precedes
precedes_between s t [] h k = absurd (ground arith)
precedes_between s [] (e ∷ u) h k = absurd (ground arith)
precedes_between [] (d ∷ t) (e ∷ u) h k = refl
precedes_between (c ∷ s) (d ∷ t) (e ∷ u) h k = ground (arith, precedes_between s t u)

-- The order of texts by the codes of their characters: after a common start, one text ends or has the
-- smaller character.
pub data IsBefore : String → String → Type 0 where
  ends : (d : Char) (t : String) → IsBefore [] (d ∷ t)
  smaller : (c d : Char) (s t : String) → code c < code d → IsBefore (c ∷ s) (d ∷ t)
  later : (c : Char) (s t : String) → IsBefore s t → IsBefore (c ∷ s) (c ∷ t)

IsBefore-precedes : {s t : String} → IsBefore s t → precedes s t ≡ true
unfolding precedes
IsBefore-precedes (ends d t) = refl
IsBefore-precedes (smaller c d s t h) = ground (arith, h)
IsBefore-precedes (later c s t h) = ground (arith, IsBefore-precedes h)

abbrev pub location : File → String
location f = text_of f.currentlocation

not_before :
    (f l : File) → precedes (location f) (location l) ≡ false → ¬ IsBefore (location f) (location l)
not_before f l h b = absurd (ground (arith, h, IsBefore-precedes b))

least-unpreceded :
    (first : File) (files : List File)
    → (precedes (location first) (location (least first files)) ≡ false)
      × All (λ f. precedes (location f) (location (least first files)) ≡ false) files
unfolding least
least-unpreceded first List.[] = (precedes_irrefl _, tt)
least-unpreceded first (List.◌∷◌ f files) =
    let a = location first in
    let b = location f in
    let m : File = if precedes b a then f else first in
    let l = location (least m files) in
    let h = least-unpreceded m files in
    (
      ground (arith, h.0, precedes_trans b a l, precedes_between b a l),
      (ground (arith, h.0, precedes_trans b a l, precedes_between b a l), h.1),
    )

All-before :
    (l : File) (files : List File)
    → All (λ f. precedes (location f) (location l) ≡ false) files
    → All (λ f. ¬ IsBefore (location f) (location l)) files
All-before l List.[] h = tt
All-before l (List.◌∷◌ f files) h = (not_before f l h.0, All-before l files h.1)

-- The file that is taken is one of the matches.
least-is_match : (first : File) (files : List File) → Mem (least first files) (List.◌∷◌ first files)
unfolding least
least-is_match first List.[] = mem-cons_self
least-is_match first (List.◌∷◌ f files) =
    chosen (precedes (location f) (location first)) (least-is_match f files)
      (least-is_match first files)
  where
    chosen :
        (b : Bool)
        → Mem (least f files) (List.◌∷◌ f files)
        → Mem (least first files) (List.◌∷◌ first files)
        → Mem (least (if b then f else first) files) (List.◌∷◌ first (List.◌∷◌ f files))
    chosen true taken kept = mem-cons_of_mem first taken
    chosen false taken kept =
        Or.elim Mem-prop (mem-cons.0 kept) (λ e. rw e mem-cons_self)
          (λ m. mem-cons_of_mem first (mem-cons_of_mem f m))

-- Of several files whose location matches, the one that is taken is one of them, and none of them
-- has a location that comes before its location by the codes of the characters.
pub least-none_before :
    (first : File) (files : List File)
    → Mem (least first files) (List.◌∷◌ first files)
      × All (λ f. ¬ IsBefore (location f) (location (least first files))) (List.◌∷◌ first files)
least-none_before first files =
    let h = least-unpreceded first files in
    (
      least-is_match first files,
      (not_before first (least first files) h.0, All-before (least first files) files h.1),
    )
