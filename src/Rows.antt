-- ===== src/Rows.antt =====
-- main/models.py: the rows that the client scripts write, and the state that the scripts share. A
-- location is kept as a text and not as its UTF-8 bytes. Django and the server of the database are
-- not modelled: whether an insertion is refused is `Site.refuses`, and an update is never refused.
use ccp.Prelude.{
  ℕ, suc, String, Bool, true, false, Option, none, some, List, [], ◌∷◌, ◌++◌, map, select, str_eq,
  if◌then◌else◌,
}
use ccp.Prelude.Raise.{Exception, exception, Result, ok, raised}
use ccp.Prelude.Script.{Script, ◌>>=◌, pure, get, modify, check}
use ccp.Job.{Job}

pub record File : Type 0 where
  pub uuid : String
  pub sip : Option String
  pub transfer : Option String
  pub originallocation : String
  pub currentlocation : Option String
  pub filegrpuse : String
  pub filegrpuuid : String
  pub checksum : String
  pub checksumtype : String
  pub size : Option ℕ
  pub modificationtime : ℕ
  pub enteredsystem : ℕ
  pub removedtime : Option ℕ

pub record EventRow : Type 0 where
  pub event_id : String
  pub file_uuid : String
  pub event_type : String
  pub event_datetime : ℕ
  pub event_detail : String
  pub event_outcome : String
  pub event_outcome_detail : String
  pub agents : List ℕ

pub record Derivation : Type 0 where
  pub source_file : String
  pub derived_file : String
  pub event : Option String

pub record FpCommandOutput : Type 0 where
  pub file : String
  pub content : String
  pub rule : String

-- FileFormatVersion, of which a file has one at most as it is identified, and FileID.
pub record FileFormatVersion : Type 0 where
  pub file : String
  pub format_version : String

pub record FileId : Type 0 where
  pub file : String
  pub format_name : String
  pub format_version : String
  pub format_registry_name : String
  pub format_registry_key : String

pub record UnitVariable : Type 0 where
  pub unituuid : String
  pub variable : String
  pub variablevalue : String

pub data Row : Type 0 where
  file_row : File → Row
  event_row : EventRow → Row
  derivation_row : Derivation → Row
  output_row : FpCommandOutput → Row
  format_row : FileFormatVersion → Row
  id_row : FileId → Row
  variable_row : UnitVariable → Row

-- The tables, the job whose streams are written to, and the file system. The last two fields count
-- the version 4 identifiers that were drawn and the readings of the clock.
pub record World (D : Type 0) : Type 0 where
  pub job : Job
  pub disk : D
  pub files : List File
  pub events : List EventRow
  pub derivations : List Derivation
  pub outputs : List FpCommandOutput
  pub formats : List FileFormatVersion
  pub ids : List FileId
  pub variables : List UnitVariable
  pub drawn : ℕ
  pub ticks : ℕ

-- What surrounds the scripts: the identifiers and the times in the order they are asked for, the
-- agents of a unit and the default ones, the accession number of a transfer, what the database answers to the insertion of a row, a
-- setting of the dashboard with its default, and the file system.
pub record Site (D : Type 0) : Type 0 where
  pub uuid4 : ℕ → String
  pub clock : ℕ → ℕ
  pub sip_agents : String → List ℕ
  pub transfer_agents : String → List ℕ
  pub default_agents : List ℕ
  pub refuses : World D → Row → Option Exception
  pub accessionid : String → Result String
  pub setting : String → String → String
  pub get_size : String → D → Result ℕ
  pub file_checksum : String → String → D → Result String
  pub is_dir : String → D → Bool
  pub move : String → String → D → Result (Unit {0}) × D

-- `objects.get`: the only row there is, or one of the two exceptions.
pub data Got (A : Type 0) : Type 0 where
  one : A → Got A
  does_not_exist multiple_objects : Got A

abbrev pub only : {A : Type 0} → List A → Got A
only [] = does_not_exist
only (x ∷ []) = one x
only (x ∷ y ∷ xs) = multiple_objects

abbrev pub is_none : {A : Type 0} → Option A → Bool
is_none none = true
is_none (some a) = false

abbrev pub is_value : Option String → String → Bool
is_value none s = false
is_value (some t) s = str_eq t s

-- `File.objects.filter(uuid=uuid)`
abbrev pub has_uuid : String → File → Bool
has_uuid uuid f = str_eq f.uuid uuid

abbrev pub raise_got : {A : Type 0} → Got A → Result A
raise_got (one a) = ok a
raise_got does_not_exist = raised (exception "matching query does not exist.")
raise_got multiple_objects = raised (exception "get() returned more than one")

abbrev pub or_else : String → String → String
or_else given default = if str_eq given "" then default else given

module _ {D : Type 0} where
  abbrev pub get_file : (File → Bool) → World D → Got File
  get_file p w = only (select p w.files)

  -- `File.objects.filter(...).update(...)`
  abbrev pub update_files : (File → Bool) → (File → File) → World D → World D
  update_files p change w = record w { files = map (λ f. if p f then change f else f) w.files }

  -- `f.save()` of a row that is there: the row with its key becomes it.
  abbrev pub save_file : File → World D → World D
  save_file f = update_files (has_uuid f.uuid) (λ g. f)

  abbrev pub add_row : Row → World D → World D
  add_row (file_row f) w = record w { files = w.files ++ (f ∷ []) }
  add_row (event_row e) w = record w { events = w.events ++ (e ∷ []) }
  add_row (derivation_row d) w = record w { derivations = w.derivations ++ (d ∷ []) }
  add_row (output_row o) w = record w { outputs = w.outputs ++ (o ∷ []) }
  add_row (format_row f) w = record w { formats = w.formats ++ (f ∷ []) }
  add_row (id_row i) w = record w { ids = w.ids ++ (i ∷ []) }
  add_row (variable_row v) w = record w { variables = w.variables ++ (v ∷ []) }

  -- `objects.create(...)`
  unfoldable pub create : Site D → Row → Script (World D) (Unit {0})
  create site row = do w ← get; _ ← check (site.refuses w row); modify (add_row row)

  -- `uuid.uuid4()` and `timezone.now()`
  unfoldable pub draw_uuid : Site D → Script (World D) String
  draw_uuid site w = (ok (site.uuid4 w.drawn), record w { drawn = suc w.drawn })

  unfoldable pub now : Site D → Script (World D) ℕ
  now site w = (ok (site.clock w.ticks), record w { ticks = suc w.ticks })

  abbrev pub or_now : Site D → Option ℕ → Script (World D) ℕ
  or_now site none = now site
  or_now site (some t) = pure t

  abbrev pub or_uuid : Site D → String → Script (World D) String
  or_uuid site given = if str_eq given "" then draw_uuid site else pure given
