-- ===== src/FileOperations/Saves.antt =====
-- utils/fileOperations.py: the loop of `updateDirectoryLocation` and the outcomes of
-- `updateFileLocation2`.
use ccp.Prelude.{
  ℕ, String, Bool, true, false, Option, none, some, ◌&&◌, ◌||◌, ◌<>◌, List, [], ◌∷◌, ◌++◌, map, any,
  select, str_eq, if◌then◌else◌, ◌≡◌, refl, sym, ap, ◌∙◌, arith, eq_iff, Bool-cases, inl, inr,
}
use mathlib.Core.List.{append_assoc}
use ccp.Prelude.Text.{starts_with, ends_with, replace}
use ccp.Prelude.Raise.{Exception, Result, ok, raised}
use ccp.Prelude.Script.{for_each, modify, continue}
use ccp.Rows.{
  File, World, Site, Got, one, does_not_exist, multiple_objects, has_uuid, save_file, is_none,
  is_value,
}
use ccp.Database.Growth.{uuids, are_distinct}
use ccp.FileOperations.Locations.{
  UnitType, transfer_id, sip_id, is_of_unit, is_located, replaced, is_current, relocated,
  directory_location, move_directory, update_directory_location, moved_to, update_file_location2,
}

-- The table after `f.save()`.
abbrev pub saved : File → List File → List File
saved x = map (λ g. if has_uuid x.uuid g then x else g)

saved-absent :
    (x : File) (files : List File)
    → any (str_eq x.uuid) (uuids files) ≡ false
    → saved x files ≡ files
saved-absent x [] h = refl
saved-absent x (f ∷ files) h =
    ground (arith, saved-absent x files, eq_iff x.uuid f.uuid, eq_iff f.uuid x.uuid)

any-key :
    (u : String) (f : File) (done files : List File)
    → any (str_eq u) (uuids (done ++ (f ∷ files))) ≡ false
    → str_eq u f.uuid ≡ false
any-key u f [] files h = ground arith
any-key u f (g ∷ done) files h = any-key u f done files (ground arith)

-- In a table with distinct keys a row that is saved takes the place of the row with its key.
saved-middle :
    (x f : File) (done files : List File)
    → x.uuid ≡ f.uuid
    → are_distinct (uuids (done ++ (f ∷ files))) ≡ true
    → saved x (done ++ (f ∷ files)) ≡ done ++ (x ∷ files)
unfolding are_distinct
saved-middle x f [] files h d = ground (arith, saved-absent x files, eq_iff f.uuid x.uuid)
saved-middle x f (g ∷ done) files h d =
    ground (arith, saved-middle x f done files h, any-key g.uuid f done files, eq_iff g.uuid x.uuid)

keys-replaced :
    (x f : File) (done files : List File)
    → x.uuid ≡ f.uuid
    → uuids (done ++ (x ∷ files)) ≡ uuids (done ++ (f ∷ files))
keys-replaced x f [] files h = ap (λ u. u ∷ uuids files) h
keys-replaced x f (g ∷ done) files h = ap (λ r. g.uuid ∷ r) (keys-replaced x f done files h)

abbrev pub with_files : {D : Type 0} → World D → List File → World D
with_files w files = record w { files = files }

module _ {D : Type 0} (change : File → File) (same : (f : File) → (change f).uuid ≡ f.uuid)
    (p : File → Bool) (w : World D) where
  abbrev save_all : List File → List File → Result (Unit {0}) × World D
  save_all todo files =
      for_each (select p todo) (λ f. modify (save_file (change f))) (with_files w files)

  abbrev changed : List File → List File
  changed = map (λ f. if p f then change f else f)

  -- The loop goes on with the row at hand behind those that are done.
  next :
      (x : File) (done files : List File)
      → save_all files ((done ++ (x ∷ [])) ++ files)
        ≡ (ok tt, with_files w ((done ++ (x ∷ [])) ++ changed files))
      → save_all files (done ++ (x ∷ files)) ≡ (ok tt, with_files w (done ++ (x ∷ changed files)))
  next x done files h =
      ap (save_all files) (sym (append_assoc done (x ∷ []) files))
      ∙ h
      ∙ ap (λ r. (ok tt, with_files w r)) (append_assoc done (x ∷ []) (changed files))

  shifted :
      (x : File) (done files : List File)
      → are_distinct (uuids (done ++ (x ∷ files))) ≡ true
      → are_distinct (uuids ((done ++ (x ∷ [])) ++ files)) ≡ true
  shifted x done files d = ap (λ r. are_distinct (uuids r)) (append_assoc done (x ∷ []) files) ∙ d

  -- Saving the rows that pass a test, one by one, changes these rows at once.
  pub for_each-save :
      (done files : List File)
      → are_distinct (uuids (done ++ files)) ≡ true
      → save_all files (done ++ files) ≡ (ok tt, with_files w (done ++ changed files))
  for_each-save done [] d = refl
  for_each-save done (f ∷ files) d = elim (Bool-cases (p f)) [
    | inl e ↦ rw e (
        ap (save_all files) (saved-middle (change f) f done files (same f) d)
        ∙ next (change f) done files (
            for_each-save (done ++ (change f ∷ [])) files (
              shifted (change f) done files
                (ap are_distinct (keys-replaced (change f) f done files (same f)) ∙ d))))
    | inr e ↦
        rw e (next f done files (for_each-save (done ++ (f ∷ [])) files (shifted f done files d)))
  ]

-- What becomes of a row when its directory is moved.
abbrev relocated_if : UnitType → String → String → String → File → File
relocated_if type unit from to f =
    if is_current type unit (starts_with from) f then relocated from to f else f

-- The unit of a row, and the location of a directory in the database: it ends in "/", unless it is
-- that of the unit.
abbrev pub owner_of : UnitType → File → Option String
owner_of transfer_id f = f.transfer
owner_of sip_id f = f.sip

abbrev pub location_in : String → String → String → String
location_in path unit_path variable =
    let location = replace path unit_path variable in
    if ends_with "/" location || str_eq location variable then location else location <> "/"

-- By the removal time, the unit and the location of a row: a row that is not removed, in the unit and
-- under the directory gets the location with the destination in place of the source.
abbrev pub new_location :
    String → String → String → Option ℕ → Option String → Option String → Option String
new_location unit from to (some t) owner location = location
new_location unit from to none none location = location
new_location unit from to none (some u) none = none
new_location unit from to none (some u) (some location) =
    if str_eq u unit && starts_with from location
    then some (replace location from to)
    else some location

location_in-same :
    (path unit_path variable : String)
    → directory_location path unit_path variable ≡ location_in path unit_path variable
location_in-same path unit_path variable = ground arith

new_location-same :
    (unit from to : String) (removed : Option ℕ) (owner location : Option String)
    → (if is_none removed && is_value owner unit && is_located (starts_with from) location
        then replaced from to location
        else location)
      ≡ new_location unit from to removed owner location
new_location-same unit from to (some t) owner location = refl
new_location-same unit from to none none location = refl
new_location-same unit from to none (some u) none = ground arith
new_location-same unit from to none (some u) (some location) = ground arith

-- A row with its new location.
abbrev pub new_row : UnitType → String → String → String → File → File
new_row type unit from to f = record f {
  currentlocation = new_location unit from to f.removedtime (owner_of type f) f.currentlocation;
}

is_of_unit-owner_of :
    (type : UnitType) (unit : String) (f : File)
    → is_of_unit type unit f ≡ is_value (owner_of type f) unit
is_of_unit-owner_of transfer_id unit f = refl
is_of_unit-owner_of sip_id unit f = refl

relocated-same :
    (type : UnitType) (unit from to : String) (f : File)
    → relocated_if type unit from to f ≡ new_row type unit from to f
relocated-same type unit from to f =
    chosen (is_current type unit (starts_with from) f) refl
    ∙ ap (λ l. record f { currentlocation = l })
        (ap
            (λ b.
              if is_none f.removedtime && b && is_located (starts_with from) f.currentlocation
              then replaced from to f.currentlocation
              else f.currentlocation)
            (is_of_unit-owner_of type unit f)
          ∙ new_location-same unit from to f.removedtime (owner_of type f) f.currentlocation)
  where
    chosen :
        (b : Bool)
        → is_current type unit (starts_with from) f ≡ b
        → (if b then relocated from to f else f) ≡ record f {
          currentlocation = if b then replaced from to f.currentlocation else f.currentlocation;
        }
    chosen true e = refl
    chosen false e = refl

map-same :
    (g h : File → File) (files : List File) → ((f : File) → g f ≡ h f) → map g files ≡ map h files
map-same g h [] same = refl
map-same g h (f ∷ files) same = ground (arith, same f, map-same g h files same)

module _ {D : Type 0} (site : Site D) where
  -- Where no two files have the same key, saving the files one by one relocates them at once.
  update_directory_location-at_once :
      (source destination unit_path unit variable : String) (type : UnitType) (w : World D)
      → are_distinct (uuids w.files) ≡ true
      → update_directory_location site source destination unit_path unit type variable w
        ≡ move_directory site source destination (
            with_files w (
              map
                (relocated_if type unit
                  (directory_location source unit_path variable)
                  (directory_location destination unit_path variable))
                w.files))
  unfolding update_directory_location
  update_directory_location-at_once source destination unit_path unit variable type w d =
      let from = directory_location source unit_path variable in
      let to = directory_location destination unit_path variable in
      ap (λ o. continue o (λ _. move_directory site source destination))
        (for_each-save (relocated from to) (λ f. refl) (is_current type unit (starts_with from)) w
          [] w.files d)

  -- Where no two files have the same key, the update gives every file of the unit that is not
  -- removed and whose location starts with that of the source the location with that of the
  -- destination in its place and leaves the other rows, and its result and the disk are those of
  -- the move of the directory, whether that succeeds or fails.
  pub update_directory_location-relocates :
      (source destination unit_path unit variable : String) (type : UnitType) (w : World D)
      → are_distinct (uuids w.files) ≡ true
      → let out =
          update_directory_location site source destination unit_path unit type variable w in
        let moved =
          site.move source
            (if site.is_dir destination w.disk
              then if ends_with "/" destination then destination <> "." else destination <> "/."
              else destination)
            w.disk in
        let from = location_in source unit_path variable in
        let to = location_in destination unit_path variable in
        (out.0 ≡ moved.0)
        × (out.1.disk ≡ moved.1)
        × (out.1.files ≡ map (new_row type unit from to) w.files)
  update_directory_location-relocates source destination unit_path unit variable type w d =
      let once =
        update_directory_location-at_once source destination unit_path unit variable type w d in
      let from = directory_location source unit_path variable in
      let to = directory_location destination unit_path variable in
      (
        ap (λ o. o.0) once,
        ap (λ o. o.1.disk) once,
        ap (λ o. o.1.files) once
            ∙ map-same (relocated_if type unit from to) (new_row type unit from to) w.files
                (relocated-same type unit from to)
            ∙ ap (λ l. map (new_row type unit l to) w.files)
                (location_in-same source unit_path variable)
            ∙ ap (λ l. map (new_row type unit (location_in source unit_path variable) l) w.files)
                (location_in-same destination unit_path variable),
      )

  moved_to-failed :
      (source destination location arguments : String) (found : Got File) (w : World D)
      {e : Exception}
      → (moved_to site source destination location found arguments w).0 ≡ raised e
      → (moved_to site source destination location found arguments w).1.files ≡ w.files
  moved_to-failed source destination location arguments (one f) w h = grind (arith, h)
  moved_to-failed source destination location arguments does_not_exist w h = refl
  moved_to-failed source destination location arguments multiple_objects w h = refl

  -- When the update of a file's location raises, because there is not exactly one file or the move
  -- fails, the table of files is as it was.
  pub update_file_location2-failed :
      (repr : String → String) (source destination unit_path unit variable : String)
      (type : UnitType) (w : World D) {e : Exception}
      → (update_file_location2 site repr source destination unit_path unit type variable w).0
        ≡ raised e
      → (update_file_location2 site repr source destination unit_path unit type variable w).1.files
        ≡ w.files
  unfolding update_file_location2
  update_file_location2-failed repr source destination unit_path unit variable type w h =
      moved_to-failed source destination _ _ _ w h
