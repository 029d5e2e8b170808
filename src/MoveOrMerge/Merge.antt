-- ===== src/MoveOrMerge/Merge.antt =====
-- clientScripts/move_or_merge.py: what the loop over the files, and the whole merge, leave.
use ccp.Prelude.{
  String, true, Option, none, some, List, [], ◌∷◌, any, ◌||◌, str_eq, ◌≡◌, refl, sym, ap, ◌∙◌,
  arith, eq_iff, inl, inr, Bool-cases,
}
use ccp.Prelude.Dict.{lookup, insert, delete, lookup-insert, lookup-delete}
use ccp.Prelude.Paths.{basename, join_path}
use ccp.Prelude.Raise.{Result, ok, raised}
use ccp.MoveOrMerge.{
  Node, file, folder, Tree, Trees, make_folders, parents, place_file, with_folders, move_file,
  move_node, move_into, then_files, trees_of, files_of, merge_files, move_or_merge, merged, Place,
  nothing, plain, directory, into_directory,
}
use ccp.MoveOrMerge.Contents.{
  holds, is_held, is_content, make_folders-holds, then_files-trees, place_file-held,
  merge_files-dst,
}

folders-held :
    (dst : Tree) (t : Trees) (path c : String)
    → ((p : String) → holds t.dst p c ≡ true → holds dst p c ≡ true)
    → is_held t path c ≡ true
    → is_held (record t { dst = dst }) path c ≡ true
unfolding is_held
folders-held dst t path c f h = ground (arith, h, f path, f (join_path path (basename path)))

move_node-held :
    (k : String) (o : Option Node) (t : Trees) (path c : String)
    → lookup k t.src ≡ o
    → is_held t path c ≡ true
    → is_held (trees_of (move_node k o t)) path c ≡ true
move_node-held k none t path c e h = h
move_node-held k (some folder) t path c e h = h
move_node-held k (some (file content)) t path c e h = made (make_folders (parents k) t.dst) refl
  where
    made :
        (r : Result Tree)
        → make_folders (parents k) t.dst ≡ r
        → is_held (trees_of (with_folders k content r t)) path c ≡ true
    made (raised x) m = h
    made (ok dst) m =
        place_file-held k content (lookup k dst) (record t { dst = dst }) path c refl e
          (folders-held dst t path c (λ p. make_folders-holds (parents k) t.dst p c m) h)

-- Whatever becomes of the merge, a content that is held stays held.
pub merge_files-held :
    (files : List String) (t : Trees) (path c : String)
    → is_held t path c ≡ true
    → is_held (trees_of (merge_files files t)) path c ≡ true
unfolding merge_files move_file
merge_files-held [] t path c h = h
merge_files-held (k ∷ files) t path c h =
    let first = move_node k (lookup k t.src) t in
    let kept = move_node-held k (lookup k t.src) t path c refl h in
    then_files-trees (λ u. is_held u path c ≡ true) first (merge_files files (trees_of first)) kept
      (merge_files-held files (trees_of first) path c kept)

-- What a step that returns leaves of the first tree: one path less.
placed-src :
    (k content : String) (o : Option Node) (t : Trees)
    → (place_file k content o t).0 ≡ ok tt
    → (trees_of (place_file k content o t)).src ≡ delete k t.src
placed-src k content none t h = refl
placed-src k content (some folder) t h = inside (lookup (join_path k (basename k)) t.dst) h
  where
    inside :
        (o : Option Node)
        → (move_into k content o t).0 ≡ ok tt
        → (trees_of (move_into k content o t)).src ≡ delete k t.src
    inside none r = refl
    inside (some n) r = absurd (ground arith)
placed-src k content (some (file other)) t h = ground arith

moved-src :
    (k : String) (o : Option Node) (t : Trees)
    → (move_node k o t).0 ≡ ok tt
    → (trees_of (move_node k o t)).src ≡ delete k t.src
moved-src k none t h = absurd (ground arith)
moved-src k (some folder) t h = absurd (ground arith)
moved-src k (some (file content)) t h = made (make_folders (parents k) t.dst) h
  where
    made :
        (r : Result Tree)
        → (with_folders k content r t).0 ≡ ok tt
        → (trees_of (with_folders k content r t)).src ≡ delete k t.src
    made (raised x) m = absurd (ground arith)
    made (ok dst) m = placed-src k content (lookup k dst) (record t { dst = dst }) m

then_files-ok :
    (o rest : Result (Unit {0}) × Trees)
    → (then_files o rest).0 ≡ ok tt
    → (o.0 ≡ ok tt) × ((rest.0 ≡ ok tt) × (then_files o rest ≡ rest))
then_files-ok (raised e, t) rest h = absurd (ground arith)
then_files-ok (ok u, t) rest h = (refl, (h, refl))

-- A path of the first tree that is gone, or that the loop comes to, is gone after it.
stays-gone :
    (files : List String) (t : Trees) (path : String)
    → lookup path t.src ≡ none
    → (merge_files files t).0 ≡ ok tt
    → lookup path (trees_of (merge_files files t)).src ≡ none
unfolding merge_files move_file
stays-gone [] t path h r = h
stays-gone (k ∷ files) t path h r =
    let first = move_node k (lookup k t.src) t in
    let steps = then_files-ok first (merge_files files (trees_of first)) r in
    ap (λ o. lookup path (trees_of o).src) steps.1.1
    ∙ stays-gone files (trees_of first) path
        (ap (lookup path) (moved-src k (lookup k t.src) t steps.0) ∙ deleted k path t.src h)
        steps.1.0
  where
    deleted :
        (k path : String) (tree : Tree)
        → lookup path tree ≡ none
        → lookup path (delete k tree) ≡ none
    deleted k path tree e = ground (arith, lookup-delete k path tree, e)

gone :
    (files : List String) (t : Trees) (path : String)
    → any (str_eq path) files ≡ true
    → (merge_files files t).0 ≡ ok tt
    → lookup path (trees_of (merge_files files t)).src ≡ none
unfolding merge_files move_file
gone [] t path h r = absurd (ground arith)
gone (k ∷ files) t path h r =
    let first = move_node k (lookup k t.src) t in
    let steps = then_files-ok first (merge_files files (trees_of first)) r in
    let src = moved-src k (lookup k t.src) t steps.0 in
    ap (λ o. lookup path (trees_of o).src) steps.1.1 ∙ elim (Bool-cases (str_eq path k)) [
      | inl e ↦
          stays-gone files (trees_of first) path
            (ap (lookup path) src ∙ dropped (sym ((eq_iff path k).0 e))) steps.1.0
      | inr e ↦ gone files (trees_of first) path (ground (arith, h, e)) steps.1.0
    ]
  where
    dropped : k ≡ path → lookup path (delete k t.src) ≡ none
    dropped e = ground (arith, lookup-delete k path t.src, eq_iff k path, e)

-- The files of a tree are those that the walk comes to.
walked :
    (tree : Tree) (path c : String)
    → holds tree path c ≡ true
    → any (str_eq path) (files_of tree) ≡ true
unfolding holds lookup
walked [] path c h = absurd (ground arith)
walked ((k, file d) ∷ tree) path c h =
    ground (arith, walked tree path c, eq_iff k path, eq_iff path k, h)
walked ((k, folder) ∷ tree) path c h = ground (arith, walked tree path c, h)

merged-ok :
    (o : Result (Unit {0}) × Trees) {places : Place × Place}
    → merged o ≡ (ok tt, places)
    → (o.0 ≡ ok tt) × (places ≡ (nothing, directory (trees_of o).dst))
merged-ok (raised e, t) h = absurd (cc)
merged-ok (ok u, t) h = (refl, sym (ap (λ r. r.1) h))

arrived :
    (t : Trees) (path c : String)
    → lookup path t.src ≡ none
    → is_held t path c ≡ true
    → (holds t.dst path c || holds t.dst (join_path path (basename path)) c) ≡ true
unfolding is_held holds
arrived t path c e h = ground (arith, e, h)

source-held : (t : Trees) (path c : String) → holds t.src path c ≡ true → is_held t path c ≡ true
unfolding is_held
source-held t path c h = ground arith

-- When a directory is merged into one that is there and no exception is raised, the source is
-- gone, and every file of it is in the destination with its content: at its path, or under its own
-- name in a directory that stood at its path.
pub move_or_merge-merges :
    (name : String) (src dst : Tree) (path c : String) {places : Place × Place}
    → holds src path c ≡ true
    → move_or_merge name (directory src) (directory dst) ≡ (ok tt, places)
    → (merged_tree : Tree) × ((places ≡ (nothing, directory merged_tree))
        × ((holds merged_tree path c || holds merged_tree (join_path path (basename path)) c)
            ≡ true))
unfolding move_or_merge
move_or_merge-merges name src dst path c h r =
    let t : Trees = record { src = src; dst = dst } in
    let out = merge_files (files_of src) t in
    let done = merged-ok out r in
    (
      (trees_of out).dst,
      (
        done.1,
        arrived (trees_of out) path c (gone (files_of src) t path (walked src path c h) done.0)
            (merge_files-held (files_of src) t path c (source-held t path c h)),
      ),
    )

-- Whatever is moved or merged into a directory, and whether an exception is raised or not, a file
-- that was in the directory is still there with its content.
pub move_or_merge-keeps :
    (name : String) (src : Place) (dst : Tree) (path c : String)
    → holds dst path c ≡ true
    → (kept : Tree) × (((move_or_merge name src (directory dst)).1.1 ≡ directory kept)
        × (holds kept path c ≡ true))
unfolding move_or_merge holds
move_or_merge-keeps name nothing dst path c h = (dst, (refl, h))
move_or_merge-keeps name (plain content) dst path c h = placed (lookup name dst) refl
  where
    placed :
        (o : Option Node)
        → lookup name dst ≡ o
        → (kept : Tree) × (((into_directory name content dst o).1.1 ≡ directory kept)
            × (is_content c (lookup path kept) ≡ true))
    placed none e = (
      insert name (file content) dst,
      (refl, ground (arith, lookup-insert name path (file content) dst, eq_iff name path, e, h)),
    )
    placed (some n) e = (dst, (refl, h))
move_or_merge-keeps name (directory src) dst path c h =
    merged-keeps (merge_files (files_of src) (record { src = src; dst = dst }))
      (merge_files-dst (files_of src) (record { src = src; dst = dst }) path c h)
  where
    merged-keeps :
        (o : Result (Unit {0}) × Trees)
        → holds (trees_of o).dst path c ≡ true
        → (kept : Tree) × (((merged o).1.1 ≡ directory kept) × (holds kept path c ≡ true))
    merged-keeps (raised e, t) k = (t.dst, (refl, k))
    merged-keeps (ok u, t) k = (t.dst, (refl, k))
