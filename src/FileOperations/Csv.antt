-- ===== src/FileOperations/Csv.antt =====
-- utils/fileOperations.py: `findFileInNormalizationCSV`, over the rows that `csv.reader` yields. A row
-- that it cannot read ends them, and every row has the number of the line that it was read from.
use ccp.Prelude.{ℕ, ◌<>◌, String, Option, none, some, List, [], ◌∷◌, ◌&&◌, str_eq, if◌then◌else◌}
use ccp.Prelude.Decimal.{show}
use ccp.Prelude.Text.{replace_first, ends_with, contains}
use ccp.Prelude.Raise.{exception}
use ccp.Prelude.Script.{Script, ◌>>=◌, pure, throw, get}
use ccp.Job.{print_output, print_error}
use ccp.Rows.{File, World, Got, one, does_not_exist, multiple_objects, get_file}
use ccp.FileOperations.{in_job}
use ccp.FileOperations.Locations.{sip_id, is_current}

pub data Reader : Type 0 where
  end : Reader
  unreadable : ℕ → Reader
  row : ℕ → List String → Reader → Reader

-- What a row of cells says: it is passed over, it has no three cells, or it gives the three paths.
pub data Cells : Type 0 where
  ignored malformed : Cells
  paths : String → String → String → Cells

abbrev three : List String → Cells
three (original ∷ access ∷ preservation ∷ []) = paths original access preservation
three cells = malformed

abbrev pub cells_of : List String → Cells
cells_of [] = ignored
cells_of (first ∷ cells) = if contains "#" first then ignored else three (first ∷ cells)

-- Which of the two derivatives of a row is the target.
unfoldable pub matched : String → String → String → String → Option String
matched classification target access preservation =
    if str_eq classification "access" && str_eq access target
    then some access
    else if str_eq classification "preservation" && str_eq preservation target
    then some preservation
    else none

-- The path of the target where the manual normalization had it.
abbrev pub target_of : File → String
target_of f =
    replace_first (replace_first f.originallocation "%transferDirectory%objects/" "")
      "%SIPDirectory%objects/" ""

module _ {D : Type 0} where
  -- `FindFileInNormalizatonCSVError(2)`
  abbrev pub fail_with : String → Script (World D) (Option String)
  fail_with message = in_job (print_error (message ∷ [])) >>= (λ _. throw (exception "2"))

  abbrev pub found : String → String → String → Script (World D) (Option String)
  found classification derivative original =
      in_job (
        print_output (
          ("Found " <> classification <> " file (" <> derivative <> ") for original (" <> original
            <> ")")
          ∷ []))
      >>= (λ _. pure (some original))

  abbrev pub found_or :
      Option String
      → String
      → String
      → Script (World D) (Option String)
      → Script (World D) (Option String)
  found_or none classification original rest = rest
  found_or (some derivative) classification original rest = found classification derivative original

  abbrev pub unreadable_line : String → ℕ → Script (World D) (Option String)
  unreadable_line path n = fail_with ("Error reading " <> path <> " on line " <> show n)

  abbrev pub read_cells :
      String
      → ℕ
      → String
      → String
      → Cells
      → Script (World D) (Option String)
      → Script (World D) (Option String)
  read_cells path n classification target ignored rest = rest
  read_cells path n classification target malformed rest = unreadable_line path n
  read_cells path n classification target (paths original access preservation) rest =
      found_or (matched classification target access preservation) classification original rest

  -- The loop over the rows.
  unfoldable pub search : String → String → String → Reader → Script (World D) (Option String)
  search path classification target end = pure none
  search path classification target (unreadable n) = unreadable_line path n
  search path classification target (row n cells rows) =
      read_cells path n classification target (cells_of cells)
        (search path classification target rows)

  abbrev pub search_for :
      String → String → String → Reader → Got File → Script (World D) (Option String)
  search_for path classification target rows (one f) = search path classification (target_of f) rows
  search_for path classification target rows multiple_objects =
      fail_with
        ("More than one result found for " <> classification <> " file (" <> target <> ") in DB.")
  search_for path classification target rows does_not_exist =
      fail_with (classification <> " file (" <> target <> ") not found in DB.")

  -- `findFileInNormalizationCSV`
  unfoldable pub find_file_in_normalization_csv :
      String → Reader → String → String → String → Script (World D) (Option String)
  find_file_in_normalization_csv path rows classification target sip = do
    w ← get
    search_for path classification target rows
        (get_file (is_current sip_id sip (ends_with target)) w)
