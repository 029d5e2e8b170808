-- ===== src/IdentifyFormat/Formats.antt =====
-- clientScripts/identify_file_format.py: the row of the format of a file after it is set.
use ccp.Prelude.{
  String, Bool, Option, none, some, List, [], ◌∷◌, ◌++◌, map, select, str_eq, if◌then◌else◌, ◌≡◌,
  refl, ap, ◌∙◌, arith, eq_iff,
}
use ccp.Prelude.Raise.{Exception, ok}
use ccp.Prelude.Script.{check, continue, modify}
use ccp.Rows.{
  FileFormatVersion, World, Got, one, does_not_exist, multiple_objects, only, format_row, add_row,
  create,
}
use ccp.IdentifyFormat.{Identifier, set_format, set_found}

abbrev pub is_of : String → FileFormatVersion → Bool
is_of uuid v = str_eq v.file uuid

abbrev row_with : String → String → FileFormatVersion
row_with uuid key = record { file = uuid; format_version = key }

select-set :
    (uuid key : String) (rows : List FileFormatVersion)
    → select
        (is_of uuid)
        (map (λ v. if is_of uuid v then record v { format_version = key } else v) rows)
      ≡ map (λ v. row_with uuid key) (select (is_of uuid) rows)
select-set uuid key [] = refl
select-set uuid key (v ∷ rows) = ground (arith, select-set uuid key rows, eq_iff v.file uuid)

select-add :
    (uuid key : String) (rows : List FileFormatVersion)
    → select (is_of uuid) (rows ++ (row_with uuid key ∷ []))
      ≡ select (is_of uuid) rows ++ (row_with uuid key ∷ [])
select-add uuid key [] = ground (arith, eq_iff uuid uuid)
select-add uuid key (v ∷ rows) = ground (arith, select-add uuid key rows)

only-one :
    (rows : List FileFormatVersion) (x r : FileFormatVersion)
    → only rows ≡ one r
    → only (map (λ v. x) rows) ≡ one x
only-one [] x r h = ground arith
only-one (v ∷ []) x r h = refl
only-one (v ∷ v' ∷ rows) x r h = ground arith

only-none :
    (rows : List FileFormatVersion) (x : FileFormatVersion)
    → only rows ≡ does_not_exist
    → only (rows ++ (x ∷ [])) ≡ one x
only-none [] x h = refl
only-none (v ∷ []) x h = ground arith
only-none (v ∷ v' ∷ rows) x h = ground arith

module _ {D : Type 0} (env : Identifier D) where
  -- The format that is recorded of a file.
  abbrev pub format_of : String → World D → Got FileFormatVersion
  format_of uuid w = only (select (is_of uuid) w.formats)

  created :
      (uuid key : String) (w : World D) (answer : Option Exception)
      → format_of uuid w ≡ does_not_exist
      → (continue (check answer w) (λ _. modify (add_row (format_row (row_with uuid key))))).0
        ≡ ok tt
      → format_of uuid
          (continue (check answer w) (λ _. modify (add_row (format_row (row_with uuid key))))).1
        ≡ one (row_with uuid key)
  created uuid key w none h r =
      ap only (select-add uuid key w.formats)
      ∙ only-none (select (is_of uuid) w.formats) (row_with uuid key) h
  created uuid key w (some e) h r = absurd (ground arith)

  found-set :
      (uuid key : String) (w : World D) (g : Got FileFormatVersion)
      → format_of uuid w ≡ g
      → (set_found env uuid key g w).0 ≡ ok tt
      → format_of uuid (set_found env uuid key g w).1 ≡ one (row_with uuid key)
  unfolding create
  found-set uuid key w (one v) h r =
      ap only (select-set uuid key w.formats)
      ∙ only-one (select (is_of uuid) w.formats) (row_with uuid key) v h
  found-set uuid key w does_not_exist h r =
      created uuid key w (env.site.refuses w (format_row (row_with uuid key))) h r
  found-set uuid key w multiple_objects h r = absurd (ground arith)

  -- Once the format of a file is set without an exception, the file has exactly one row of a
  -- format, with that format.
  pub set_format-format_of :
      (uuid key : String) (w : World D)
      → (set_format env uuid key w).0 ≡ ok tt
      → format_of uuid (set_format env uuid key w).1
        ≡ one (record { file = uuid; format_version = key })
  unfolding set_format
  set_format-format_of uuid key w h = found-set uuid key w (format_of uuid w) refl h
