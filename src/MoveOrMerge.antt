-- ===== src/MoveOrMerge.antt =====
-- clientScripts/move_or_merge.py: a file or a directory that is moved, or merged into another. The
-- paths of what is under a directory are relative to it, and the two places do not overlap. There are
-- no links, and a call of the file system fails only where it is written out here.
pub mod Contents
pub mod Merge
use Prim.Native.Char.{code}
use Prim.Native.String.{[], ◌∷◌}
use ccp.Prelude.{
  ℕ, ◌<>◌, String, Bool, true, false, Option, none, some, List, map, not, ◌&&◌, str_eq, ◌==◌,
  is_some, if◌then◌else◌,
}
use ccp.Prelude.Int.{pos}
use ccp.Prelude.Dict.{Dict, lookup, insert, delete}
use ccp.Prelude.Paths.{basename, join_path}
use ccp.Prelude.Raise.{Exception, exception, Result, ok, raised, ◌>>=◌}
use ccp.Job.{Job, print_error, set_status, success}

pub data Node : Type 0 where
  file : String → Node
  folder : Node

abbrev pub Tree : Type 0
Tree = Dict Node

-- What stands at a path: nothing, a file with its content, or a directory with what is under it.
pub data Place : Type 0 where
  nothing : Place
  plain : String → Place
  directory : Tree → Place

-- The paths of the directories above a path.
unfoldable pub parents : String → List String
parents [] = List.[]
parents (c ∷ s) =
    let above = map (λ p. c ∷ p) (parents s) in if code c == b'/' then List.◌∷◌ [] above else above

abbrev pub make_folder : String → Tree → Option Node → Result Tree
make_folder path tree none = ok (insert path folder tree)
make_folder path tree (some folder) = ok tree
make_folder path tree (some (file c)) = raised (exception ("Not a directory: " <> path))

-- `mkdir_p` of the directory of a path.
unfoldable pub make_folders : List String → Tree → Result Tree
make_folders List.[] tree = ok tree
make_folders (List.◌∷◌ path paths) tree =
    make_folder path tree (lookup path tree) >>= make_folders paths

-- The two trees while the files of the first are moved into the second.
pub record Trees : Type 0 where
  pub src : Tree
  pub dst : Tree

abbrev different : String → Exception
different path =
    exception
      ("Tried to move src=" <> path <> " to dst=" <> path <> ", but dst exists and is different")

-- `shutil.move` of a file onto a directory puts it into the directory, under its own name.
abbrev pub move_into : String → String → Option Node → Trees → Result (Unit {0}) × Trees
move_into path content none t = (
  ok tt,
  record {
    src = delete path t.src;
    dst = insert (join_path path (basename path)) (file content) t.dst;
  },
)
move_into path content (some node) t =
    (raised (exception ("Destination path '" <> path <> "' already exists")), t)

abbrev pub place_file : String → String → Option Node → Trees → Result (Unit {0}) × Trees
place_file path content none t =
    (ok tt, record { src = delete path t.src; dst = insert path (file content) t.dst })
place_file path content (some folder) t =
    move_into path content (lookup (join_path path (basename path)) t.dst) t
place_file path content (some (file other)) t =
    if str_eq content other
    then (ok tt, record t { src = delete path t.src })
    else (raised (different path), t)

abbrev pub with_folders : String → String → Result Tree → Trees → Result (Unit {0}) × Trees
with_folders path content (raised e) t = (raised e, t)
with_folders path content (ok dst) t =
    place_file path content (lookup path dst) (record t { dst = dst })

abbrev pub move_node : String → Option Node → Trees → Result (Unit {0}) × Trees
move_node path none t = (raised (exception ("No such file or directory: " <> path)), t)
move_node path (some folder) t = (raised (exception ("Is a directory: " <> path)), t)
move_node path (some (file content)) t =
    with_folders path content (make_folders (parents path) t.dst) t

-- `_move_file`, of a file of the first tree to the same path of the second.
unfoldable pub move_file : String → Trees → Result (Unit {0}) × Trees
move_file path t = move_node path (lookup path t.src) t

abbrev pub then_files :
    Result (Unit {0}) × Trees → Result (Unit {0}) × Trees → Result (Unit {0}) × Trees
then_files (raised e, t) rest = (raised e, t)
then_files (ok u, t) rest = rest

abbrev pub trees_of : Result (Unit {0}) × Trees → Trees
trees_of (r, t) = t

-- The files that `os.walk` finds.
abbrev pub files_of : Tree → List String
files_of List.[] = List.[]
files_of (List.◌∷◌ (path, file content) tree) = List.◌∷◌ path (files_of tree)
files_of (List.◌∷◌ (path, folder) tree) = files_of tree

-- The loop over the files.
unfoldable pub merge_files : List String → Trees → Result (Unit {0}) × Trees
merge_files List.[] t = (ok tt, t)
merge_files (List.◌∷◌ path files) t =
    let first = move_file path t in then_files first (merge_files files (trees_of first))

-- After the loop: `shutil.rmtree(src)`, unless there was an exception.
abbrev pub merged : Result (Unit {0}) × Trees → Result (Unit {0}) × (Place × Place)
merged (ok u, t) = (ok tt, (nothing, directory t.dst))
merged (raised e, t) = (raised e, (directory t.src, directory t.dst))

abbrev into_plain : List String → Tree → String → Result (Unit {0}) × (Place × Place)
into_plain List.[] src content = (ok tt, (nothing, plain content))
into_plain (List.◌∷◌ f files) src content =
    (raised (exception "Not a directory"), (directory src, plain content))

abbrev pub into_directory :
    String → String → Tree → Option Node → Result (Unit {0}) × (Place × Place)
into_directory name content dst none =
    (ok tt, (nothing, directory (insert name (file content) dst)))
into_directory name content dst (some node) = (
  raised (exception ("Destination path '" <> name <> "' already exists")),
  (plain content, directory dst),
)

-- `move_or_merge`, where `name` is the name of the source. Nothing happens to a source that is missing.
unfoldable pub move_or_merge : String → Place → Place → Result (Unit {0}) × (Place × Place)
move_or_merge name nothing dst = (ok tt, (nothing, dst))
move_or_merge name (plain content) nothing = (ok tt, (nothing, plain content))
move_or_merge name (plain content) (plain other) =
    if str_eq content other
    then (ok tt, (nothing, plain other))
    else (raised (different name), (plain content, plain other))
move_or_merge name (plain content) (directory dst) =
    into_directory name content dst (lookup name dst)
move_or_merge name (directory src) nothing = (ok tt, (nothing, directory src))
move_or_merge name (directory src) (plain content) = into_plain (files_of src) src content
move_or_merge name (directory src) (directory dst) =
    merged (merge_files (files_of src) (record { src = src; dst = dst }))

abbrev finish : (Exception → String) → Result (Unit {0}) → Job → Job
finish repr (ok u) job = set_status (pos 0) success job
finish repr (raised e) job =
    set_status (pos 1) success (print_error (List.◌∷◌ (repr e) List.[]) job)

-- One round of the loop of `call`, where `repr` is the text of an exception.
unfoldable pub call_job :
    (Exception → String) → String → Place → Place → Job → Job × (Place × Place)
call_job repr name src dst job =
    let (r, places) = move_or_merge name src dst in (finish repr r job, places)
