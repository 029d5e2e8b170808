-- ===== src/Tests/Files.antt =====
-- The tables of files, their moves on disk and the merge of directories on concrete data.
use ccp.Prelude.Dict.{lookup, delete, insert}
use ccp.Prelude.{
  ◌≡◌, refl, String, Bool, true, false, Option, none, some, List, [], ◌∷◌, map, any, ◌||◌, str_eq,
  arith, if◌then◌else◌,
}
use ccp.Prelude.Raise.{Exception, exception, Result, ok, raised}
use ccp.Prelude.Paths.{basename, join_path}
use ccp.Prelude.Text.{replace}
use ccp.Rows.{File, World, Site, Row, file_row}
use ccp.Database.Growth.{are_distinct, uuids, HasPrimaryKey}
use ccp.FileOperations.Locations.{transfer_id, update_directory_location, update_file_location2}
use ccp.FileOperations.Saves.{
  location_in, new_row, update_directory_location-relocates, update_file_location2-failed,
}
use ccp.MoveOrMerge.{
  Tree, file, folder, Place, nothing, plain, directory, move_or_merge, merge_files, move_file,
  make_folders, parents,
}
use ccp.MoveOrMerge.Contents.{holds}
use ccp.MoveOrMerge.Merge.{move_or_merge-merges, move_or_merge-keeps}
use ccp.Tests.Jobs.{job_a}

-- The disk is the list of the moves so far.
abbrev pub Moves : Type 0
Moves = List (String × String)

abbrev pub file_at : String → String → File
file_at uuid path = record {
  uuid = uuid;
  sip = none;
  transfer = some "t";
  originallocation = path;
  currentlocation = some path;
  filegrpuse = "original";
  filegrpuuid = "";
  checksum = "";
  checksumtype = "";
  size = none;
  modificationtime = 0;
  enteredsystem = 0;
  removedtime = none;
}

abbrev pub world_with : {D : Type 0} → D → List File → World D
world_with disk files = record {
  job = job_a;
  disk = disk;
  files = files;
  events = [];
  derivations = [];
  outputs = [];
  formats = [];
  ids = [];
  variables = [];
  drawn = 0;
  ticks = 0;
}

-- The database refuses a key that is taken, and nothing else.
abbrev pub refuse_taken : {D : Type 0} → World D → Row → Option Exception
refuse_taken w (file_row f) =
    if any (str_eq f.uuid) (uuids w.files) then some (exception "Duplicate entry") else none
refuse_taken w row = none

abbrev pub site_with :
    {D : Type 0}
    → (World D → Row → Option Exception)
    → (String → String → D → Result (Unit {0}) × D)
    → Site D
site_with refuses move = record {
  uuid4 = λ n. "id";
  clock = λ n. n;
  sip_agents = λ u. 1 ∷ [];
  transfer_agents = λ u. 2 ∷ [];
  default_agents = [];
  refuses = refuses;
  accessionid = λ t. ok "";
  setting = λ name default. default;
  get_size = λ path d. ok 3;
  file_checksum = λ path type d. ok "abc";
  is_dir = λ path d. false;
  move = move;
}

abbrev pub moving : String → String → Moves → Result (Unit {0}) × Moves
moving source destination moves = (ok tt, (source, destination) ∷ moves)

abbrev pub site : Site Moves
site = site_with refuse_taken moving

pub refuse_taken-HasPrimaryKey :
    {D : Type 0}
    → (move : String → String → D → Result (Unit {0}) × D)
    → HasPrimaryKey (site_with refuse_taken move)
unfolding HasPrimaryKey
refuse_taken-HasPrimaryKey move w f h = free (any (str_eq f.uuid) (uuids w.files)) h
  where
    free : (b : Bool) → (if b then some (exception "Duplicate entry") else none) ≡ none → b ≡ false
    free b h = ground arith

abbrev files : List File
files =
    file_at "a" "%transferDirectory%objects/x/1" ∷ file_at "b" "%transferDirectory%objects/y" ∷ []

abbrev world : World Moves
world = world_with [] files

abbrev update_x : Result (Unit {0}) × World Moves
update_x =
    update_directory_location site "/t/objects/x" "/t/objects/z" "/t/" "t" transfer_id
      "%transferDirectory%" world

update_directory_location-relocates_example :
    let from = location_in "/t/objects/x" "/t/" "%transferDirectory%" in
    let to = location_in "/t/objects/z" "/t/" "%transferDirectory%" in
    (update_x.0 ≡ ok tt)
    × (update_x.1.disk ≡ ("/t/objects/x", "/t/objects/z") ∷ [])
    × (update_x.1.files ≡ map (new_row transfer_id "t" from to) files)
unfolding are_distinct
update_directory_location-relocates_example =
    update_directory_location-relocates site "/t/objects/x" "/t/objects/z" "/t/" "t"
      "%transferDirectory%" transfer_id world refl

abbrev full : String → String → Moves → Result (Unit {0}) × Moves
full source destination moves = (raised (exception "No space left on device"), moves)

abbrev update_y : Site Moves → Result (Unit {0}) × World Moves
update_y s =
    update_file_location2 s (λ path. path) "/t/objects/y" "/t/objects/z" "/t/" "t" transfer_id
      "%transferDirectory%" world

update_file_location2-failed_example : (update_y (site_with refuse_taken full)).1.files ≡ files
unfolding update_file_location2 replace
update_file_location2-failed_example =
    update_file_location2-failed (site_with refuse_taken full) (λ path. path) "/t/objects/y"
      "/t/objects/z" "/t/" "t" "%transferDirectory%" transfer_id world refl

abbrev accepting : Site Moves
accepting = site_with (λ w row. none) moving

abbrev source : Tree
source = ("a", file "one") ∷ ("d", folder) ∷ ("d/b", file "two") ∷ []

abbrev target : Tree
target = ("a", file "one") ∷ ("c", file "three") ∷ []

abbrev after : Tree
after = ("a", file "one") ∷ ("c", file "three") ∷ ("d", folder) ∷ ("d/b", file "two") ∷ []

abbrev out : Place × Place
out = (nothing, directory after)

move_or_merge-merges_example :
    (merged_tree : Tree) × ((out ≡ (nothing, directory merged_tree))
      × ((holds merged_tree "d/b" "two"
            || holds merged_tree (join_path "d/b" (basename "d/b")) "two")
          ≡ true))
unfolding move_or_merge holds lookup merge_files move_file make_folders parents delete insert
move_or_merge-merges_example = move_or_merge-merges "s" source target "d/b" "two" refl refl

move_or_merge-keeps_example :
    (kept : Tree) × (((move_or_merge "s" (plain "new") (directory target)).1.1 ≡ directory kept)
      × (holds kept "c" "three" ≡ true))
unfolding holds lookup
move_or_merge-keeps_example = move_or_merge-keeps "s" (plain "new") target "c" "three" refl
