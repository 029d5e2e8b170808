-- ===== src/ReplacementDict.antt =====
-- utils/dicts.py: the values that stand for the variables in the commands of the registry. The
-- settings and the rows of the models enter as records; a row that the code looks up by an
-- identifier is given here.
pub mod Variables
use Prim.Native.Char.{Char, code}
use Prim.Native.String.{[], ◌∷◌}
use ccp.Prelude.{
  ℕ, zero, suc, ◌-◌, ◌≡◌, refl, ◌<>◌, String, Bool, true, false, Option, none, some, List, ◌&&◌,
  ◌||◌, ◌==◌, leb, ltb, map, str_eq, not, if◌then◌else◌,
}
use ccp.Prelude.Text.{length, take, drop, replace}
use ccp.Prelude.Paths.{basename, dirname, extension, stem, join_path, rstrip_slash}
use ccp.Prelude.Dict.{Dict, insert}
use ccp.Prelude.Raise.{Result, ok, raised, exception, ◌>>=◌}
use ccp.Job.{join}

-- `orig.replace(key, value)` for each item, in the order of the dict.
unfoldable pub replace_items : Dict String → String → String
replace_items List.[] orig = orig
replace_items (List.◌∷◌ (key, value) rest) orig = replace_items rest (replace orig key value)

-- `replace`, over the strings that it is given.
abbrev replace_one : Dict String → Option String → Option String
replace_one rd none = none
replace_one rd (some s) = some (replace_items rd s)

unfoldable pub replace_strings : Dict String → List (Option String) → List (Option String)
replace_strings rd = map (replace_one rd)

abbrev is_upper : ℕ → Bool
is_upper c = leb b'A' c && leb c b'Z'

abbrev is_lower : ℕ → Bool
is_lower c = leb b'a' c && leb c b'z'

abbrev is_blank : ℕ → Bool
is_blank c = c == b' ' || (leb 9 c && leb c 13) || (leb 28 c && leb c 31)

-- re.sub("([A-Z]+)", r" \1", s)
unfoldable pub space_runs : Bool → String → String
space_runs inside [] = []
space_runs inside (c ∷ s) =
    let rest = space_runs (is_upper (code c)) s in
    if is_upper (code c) && not inside then " " <> (c ∷ rest) else c ∷ rest

abbrev starts_lower : String → Bool
starts_lower [] = false
starts_lower (c ∷ s) = is_lower (code c)

-- re.sub("([A-Z][a-z]+)", r" \1", s)
unfoldable pub space_words : String → String
space_words [] = []
space_words (c ∷ s) =
    let rest = space_words s in
    if is_upper (code c) && starts_lower s then " " <> (c ∷ rest) else c ∷ rest

abbrev cons_word : String → List String → List String
cons_word [] words = words
cons_word (c ∷ w) words = List.◌∷◌ (c ∷ w) words

-- s.split() on ASCII text, from a word that is begun.
unfoldable pub words_from : String → String → List String
words_from word [] = cons_word word List.[]
words_from word (c ∷ s) =
    let next = words_from [] s in
    let same = words_from (word <> (c ∷ [])) s in
    if is_blank (code c) then cons_word word next else same

abbrev nth_char : ℕ → String → Char → Char
nth_char n [] default = default
nth_char zero (c ∷ s) default = c
nth_char (suc n) (c ∷ s) default = nth_char n s default

-- s.lower(), on ASCII text.
unfoldable pub lower : String → String
lower [] = []
lower (c ∷ s) =
    (if is_upper (code c) then nth_char (code c - b'A') "abcdefghijklmnopqrstuvwxyz" c else c)
    ∷ lower s

unfoldable pub optname : String → String
unfolding space_runs space_words words_from lower
optname key =
    let name = take (length key - 2) (drop 1 key) in
    lower (join "-" (words_from [] (space_words (space_runs false name))))

abbrev pub gnu_option : String × String → String
gnu_option (key, value) = "--" <> optname key <> "=" <> value

unfoldable pub to_gnu_options : Dict String → List String
unfolding optname
to_gnu_options = map gnu_option

optname_example : optname "%SIPLogsDirectory%" ≡ "sip-logs-directory"
unfolding optname
optname_example = refl

-- The settings that `setup` reads, with a function of the system.
pub record Config : Type 0 where
  pub shared_directory : String
  pub processing_directory : String
  pub rejected_directory : String
  pub watch_directory : String
  -- `os.path.abspath`, which reads the working directory
  pub abspath : String → String

pub data Kind : Type 0 where
  of_file of_sip of_transfer : Kind

-- A SIP or a Transfer: its identifier, and `currentpath` or `currentlocation`.
pub record UnitRow : Type 0 where
  pub uuid : String
  pub relative_location : String

-- A File. A null foreign key reads as None.
pub record FileRow : Type 0 where
  pub uuid : String
  pub sip : Option UnitRow
  pub transfer : Option UnitRow
  pub original_location : String
  pub current_location : String
  pub filegrpuse : String

-- `file_.sip.currentpath`, or `file_.transfer.currentlocation`
abbrev base_of : Option UnitRow → Option UnitRow → Result String
base_of (some sip) transfer = ok sip.relative_location
base_of none (some transfer) = ok transfer.relative_location
base_of none none = raised (exception "'NoneType' object has no attribute 'currentlocation'")

abbrev expanded : Config → Bool → String → String
expanded config expand_path path =
    if expand_path then replace path "%sharedPath%" config.shared_directory else path

abbrev set_kind : Kind → String → String → Dict String → Dict String
set_kind of_file sipdir relative rd = rd
set_kind of_sip sipdir relative rd = insert "%relativeLocation%" relative rd
set_kind of_transfer sipdir relative rd =
    insert "%relativeLocation%" relative (insert "%transferDirectory%" sipdir rd)

-- The variables of the SIP or the transfer.
unfoldable pub set_unit : Config → Kind → Bool → UnitRow → Dict String → Dict String
set_unit config type_ expand_path unit rd =
    let sipdir = expanded config expand_path unit.relative_location in
    let sip_name = replace (basename (rstrip_slash sipdir)) ("-" <> unit.uuid) "" in
    let a = insert "%SIPUUID%" unit.uuid rd in
    let b = insert "%SIPName%" sip_name a in
    let c = insert "%currentPath%" sipdir b in
    let d = insert "%SIPDirectory%" sipdir c in
    let e = insert "%SIPDirectoryBasename%" (basename (config.abspath sipdir)) d in
    let f = insert "%SIPLogsDirectory%" (join_path (join_path sipdir "logs") "") e in
    let g = insert "%SIPObjectsDirectory%" (join_path (join_path sipdir "objects") "") f in
    set_kind type_ sipdir unit.relative_location g

abbrev set_location : Kind → String → Dict String → Dict String
set_location of_file location rd = insert "%relativeLocation%" location rd
set_location of_sip location rd = rd
set_location of_transfer location rd = rd

-- The variables of the file, over its original and its current location.
unfoldable pub set_file : Kind → FileRow → String → String → Dict String → Dict String
set_file type_ row origin current rd =
    let a = insert "%fileUUID%" row.uuid rd in
    let b = insert "%originalLocation%" origin a in
    let c = insert "%currentLocation%" current b in
    let d = insert "%fileDirectory%" (dirname current) c in
    let e = insert "%fileGrpUse%" row.filegrpuse d in
    let f = set_location type_ current e in
    let g = insert "%inputFile%" current f in
    let h = insert "%fileFullName%" current g in
    let i = insert "%fileName%" (basename (stem current)) h in
    let j = insert "%fileExtension%" (drop 1 (extension current)) i in
    insert "%fileExtensionWithDot%" (extension current) j

-- The original and the current location: expanded only where the unit's directory is known.
unfoldable pub locations : Config → Bool → Option String → String → FileRow → String × String
locations config false sipdir base row = (row.original_location, row.current_location)
locations config true none base row = (row.original_location, row.current_location)
locations config true (some sipdir) base row =
    let base' = replace base "%sharedPath%" config.shared_directory in
    (
      replace row.original_location "%transferDirectory%" base',
      replace (replace row.current_location "%transferDirectory%" base') "%SIPDirectory%" sipdir,
    )

abbrev or_else : Option UnitRow → Option UnitRow → Option UnitRow
or_else (some sip) other = some sip
or_else none other = other

abbrev sip_of : Option FileRow → Option UnitRow
sip_of none = none
sip_of (some row) = row.sip

abbrev sipdir_of : Config → Bool → Option UnitRow → Option String
sipdir_of config expand_path none = none
sipdir_of config expand_path (some sip) = some (expanded config expand_path sip.relative_location)

abbrev with_unit : Config → Kind → Bool → Option UnitRow → Dict String → Dict String
with_unit config type_ expand_path none rd = rd
with_unit config type_ expand_path (some sip) rd = set_unit config type_ expand_path sip rd

abbrev with_file :
    Config → Kind → Bool → Option String → Option FileRow → Dict String → Result (Dict String)
with_file config type_ expand_path sipdir none rd = ok rd
with_file config type_ expand_path sipdir (some row) rd = do
  base ← base_of row.sip row.transfer
  let (origin, current) = locations config expand_path sipdir base row in
      ok (set_file type_ row origin current rd)

abbrev set_directories : Config → Dict String → Dict String
set_directories config rd =
    let a = insert "%tmpDirectory%" (join_path (join_path config.shared_directory "tmp") "") rd in
    let b = insert "%processingDirectory%" config.processing_directory a in
    let c = insert "%watchDirectoryPath%" config.watch_directory b in
    insert "%rejectedDirectory%" config.rejected_directory c

-- `ReplacementDict.frommodel(type_, sip, file_, expand_path)`
unfoldable pub frommodel :
    Config → Kind → Option UnitRow → Option FileRow → Bool → Result (Dict String)
frommodel config type_ sip file_ expand_path = do
  let unit = or_else sip (sip_of file_) in
      do
        rd ←
            with_file config type_ expand_path (sipdir_of config expand_path unit) file_
              (with_unit config type_ expand_path unit List.[])
        ok (set_directories config rd)

-- `replace_string_values(string, type_=..., sip=..., file_=...)`
unfoldable pub replace_string_values :
    Config → Kind → Option UnitRow → Option FileRow → String → Result String
replace_string_values config type_ sip file_ string = do
  rd ← frommodel config type_ sip file_ true
  ok (replace_items rd string)
