-- ===== src/Normalize/Manual.antt =====
-- clientScripts/normalize.py: the search of a manually normalized file. The rows of normalization.csv
-- are what `csv.reader` yields, if the file is there.
use Prim.Native.Char.{code}
use Prim.Native.String.{[], ◌∷◌}
use ccp.Prelude.{
  ℕ, ◌<>◌, String, Bool, true, false, Option, none, some, List, select, ◌&&◌, ◌||◌, str_eq, ltb,
  ◌==◌, if◌then◌else◌,
}
use ccp.Prelude.Decimal.{show}
use ccp.Prelude.Text.{contains, replace, replace_first, starts_with}
use ccp.Prelude.Paths.{join_path, stem}
use ccp.Prelude.Script.{◌>>=◌, pure, get, lift}
use ccp.Job.{print_output, print_error}
use ccp.Rows.{File, get_file, has_uuid, raise_got, is_value}
use ccp.FileOperations.{in_job}
use ccp.FileOperations.Csv.{
  Reader, end, unreadable, row, ignored, malformed, paths, Cells, cells_of, target_of,
}
use ccp.FileOperations.Locations.{is_located}
use ccp.Normalize.{NormalizeArgs, Act, Registry}

-- s < t, by the codes of the characters.
unfoldable pub precedes : String → String → Bool
precedes s [] = false
precedes [] (d ∷ t) = true
precedes (c ∷ s) (d ∷ t) = ltb (code c) (code d) || (code c == code d && precedes s t)

abbrev pub text_of : Option String → String
text_of none = ""
text_of (some s) = s

-- sorted(files, key=lambda f: f.currentlocation)[0], of `first` and the others.
unfoldable pub least : File → List File → File
least first List.[] = first
least first (List.◌∷◌ f files) =
    least
      (if precedes (text_of f.currentlocation) (text_of first.currentlocation) then f else first)
      files

-- What the loop over normalization.csv ends with: no match, an error on a line, or the two paths of
-- the row of the file.
pub data Match : Type 0 where
  no_match : Match
  error_on : ℕ → Match
  derivatives : String → String → Match

abbrev match_cells : String → ℕ → Cells → Match → Match
match_cells name n ignored rest = rest
match_cells name n malformed rest = error_on n
match_cells name n (paths original access preservation) rest =
    if str_eq original name then derivatives access preservation else rest

unfoldable pub match_rows : String → Reader → Match
match_rows name end = no_match
match_rows name (unreadable n) = error_on n
match_rows name (row n cells rows) = match_cells name n (cells_of cells) (match_rows name rows)

abbrev pub match_in : String → Option Reader → Match
match_in name none = no_match
match_in name (some rows) = match_rows name rows

-- The derivative of a row that a purpose asks for, if the row names one.
unfoldable pub derivative_of : String → String → String → Option String
derivative_of purpose access preservation =
    if contains "preservation" purpose && str_eq preservation ""
    then none
    else if contains "access" purpose && str_eq access ""
    then none
    else if contains "preservation" purpose
    then some preservation
    else if contains "access" purpose
    then some access
    else none

-- Where a manually normalized file of the name would be, without its extension.
unfoldable pub manual_path : NormalizeArgs → Option String
manual_path opts =
    let path = stem (replace_first opts.file_path opts.sip_path "%SIPDirectory%") in
    if contains "preservation" opts.purpose
    then some (
        replace path "%SIPDirectory%objects/"
          "%SIPDirectory%objects/manualNormalization/preservation/")
    else if contains "access" opts.purpose
    then some
        (replace path "%SIPDirectory%objects/" "%SIPDirectory%objects/manualNormalization/access/")
    else none

abbrev pub say : List String → Act (Unit {0})
say words = in_job (print_output words)

abbrev words1 : String → List String
words1 s = List.◌∷◌ s List.[]

abbrev pub listed_file : Registry → NormalizeArgs → Option String → Act (Option File)
listed_file reg opts none = pure none
listed_file reg opts (some filename) = do
  _ ← say (List.◌∷◌ "Looking for" (List.◌∷◌ filename (words1 "in database")))
  w ← get
  f ← lift (
      raise_got (
        get_file (λ f. is_value f.sip opts.sip_uuid && reg.iendswith filename f.originallocation)
          w))
  pure (some f)

abbrev pub choose : String → List File → Act (Option File)
choose path List.[] = say (words1 "No such file found.") >>= (λ _. pure none)
choose path (List.◌∷◌ f List.[]) = pure (some f)
choose path (List.◌∷◌ f (List.◌∷◌ g files)) = do
  _ ←
      say
        (words1 ("Multiple files matching path " <> path <> " found. Returning the shortest one."))
  let ret = least f (List.◌∷◌ g files)
  _ ← say (words1 ("Returning file at " <> text_of ret.currentlocation))
  pure (some ret)

abbrev pub matching_file : NormalizeArgs → Option String → Act (Option File)
matching_file opts none = pure none
matching_file opts (some path) = do
  _ ← say (
      words1 (
        "Checking for a manually normalized file by trying to get the unique file that matches SIP UUID "
        <> opts.sip_uuid <> " and whose currentlocation value starts with this path: " <> path
        <> "."))
  w ← get
  choose path (
      select (λ f. is_value f.sip opts.sip_uuid && is_located (starts_with path) f.currentlocation)
        w.files)

abbrev pub csv_path : NormalizeArgs → String
csv_path opts =
    join_path (join_path (join_path opts.sip_path "objects") "manualNormalization")
      "normalization.csv"

-- After the loop. What `traceback.format_exc` prints of a line is an argument.
abbrev pub after_csv : Registry → NormalizeArgs → String → Match → Act (Option File)
after_csv reg opts name (error_on n) = do
  _ ← in_job (
      print_error (
        List.◌∷◌ "Error reading"
          (List.◌∷◌ (csv_path opts) (List.◌∷◌ " on line" (words1 (show n))))))
  _ ← in_job (print_error (words1 (reg.format_exc n)))
  pure none
after_csv reg opts name (derivatives access preservation) = do
  _ ← say (
      List.◌∷◌ "Filename"
        (List.◌∷◌ name (List.◌∷◌ "matches entry in normalization.csv" (words1 name))))
  listed_file reg opts (derivative_of opts.purpose access preservation)
after_csv reg opts name no_match = matching_file opts (manual_path opts)

-- `check_manual_normalization`
unfoldable pub check_manual_normalization : Registry → NormalizeArgs → Act (Option File)
check_manual_normalization reg opts = do
  w ← get
  f ← lift (raise_got (get_file (has_uuid opts.file_uuid) w))
  after_csv reg opts (target_of f) (match_in (target_of f) (reg.csv (csv_path opts) w.disk))
