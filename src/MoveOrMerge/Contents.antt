-- ===== src/MoveOrMerge/Contents.antt =====
-- clientScripts/move_or_merge.py: no content is lost.
use ccp.Prelude.{
  String, Bool, true, false, Option, none, some, List, [], ◌∷◌, ◌||◌, str_eq, if◌then◌else◌, ◌≡◌,
  refl, ap, arith, eq_iff, inl, inr, ◌⊎◌, Bool-cases,
}
use ccp.Prelude.Dict.{lookup, insert, lookup-insert, lookup-delete}
use ccp.Prelude.Paths.{basename, join_path}
use ccp.Prelude.Raise.{Result, ok, raised, >>=-eq-ok}
use ccp.MoveOrMerge.{
  Node, file, folder, Tree, Trees, make_folder, make_folders, parents, move_into, place_file,
  with_folders, move_file, then_files, trees_of, merge_files, move_node,
}

abbrev pub is_content : String → Option Node → Bool
is_content c none = false
is_content c (some folder) = false
is_content c (some (file d)) = str_eq c d

-- A file with a content at a path of a tree.
unfoldable pub holds : Tree → String → String → Bool
holds tree path c = is_content c (lookup path tree)

holds-insert :
    (tree : Tree) (path k c : String) (n : Node)
    → holds (insert k n tree) path c
      ≡ (if str_eq k path then is_content c (some n) else holds tree path c)
unfolding holds
holds-insert tree path k c n = ground (arith, lookup-insert k path n tree)

make_folder-holds :
    (k : String) (tree : Tree) (o : Option Node) (path c : String) {tree' : Tree}
    → lookup k tree ≡ o
    → make_folder k tree o ≡ ok tree'
    → holds tree path c ≡ true
    → holds tree' path c ≡ true
unfolding holds
make_folder-holds k tree none path c h r t =
    ground (arith, lookup-insert k path folder tree, eq_iff k path, h)
make_folder-holds k tree (some folder) path c h r t = ground (arith)
make_folder-holds k tree (some (file d)) path c h r t = absurd (ground arith)

pub make_folders-holds :
    (paths : List String) (tree : Tree) (path c : String) {tree' : Tree}
    → make_folders paths tree ≡ ok tree'
    → holds tree path c ≡ true
    → holds tree' path c ≡ true
unfolding make_folders
make_folders-holds [] tree path c r t = ground (arith, r, t)
make_folders-holds (k ∷ paths) tree path c r t =
    let step = >>=-eq-ok (make_folder k tree (lookup k tree)) (make_folders paths) r in
    make_folders-holds paths step.0 path c step.2
      (make_folder-holds k tree (lookup k tree) path c refl step.1 t)

-- A content of the first tree is still there, or at its path in the second, or inside a directory that
-- stood at its path.
unfoldable pub is_held : Trees → String → String → Bool
is_held t path c =
    holds t.src path c || holds t.dst path c || holds t.dst (join_path path (basename path)) c

pub place_file-dst :
    (k content : String) (o : Option Node) (t : Trees) (path c : String)
    → lookup k t.dst ≡ o
    → holds t.dst path c ≡ true
    → holds (trees_of (place_file k content o t)).dst path c ≡ true
unfolding holds
place_file-dst k content none t path c h r =
    ground (arith, lookup-insert k path (file content) t.dst, eq_iff k path, h)
place_file-dst k content (some folder) t path c h r =
    inside (lookup (join_path k (basename k)) t.dst) refl
  where
    inside :
        (o : Option Node)
        → lookup (join_path k (basename k)) t.dst ≡ o
        → is_content c (lookup path (trees_of (move_into k content o t)).dst) ≡ true
    inside none e = ground (
      arith,
      lookup-insert (join_path k (basename k)) path (file content) t.dst,
      eq_iff (join_path k (basename k)) path,
      e,
    )
    inside (some n) e = r
place_file-dst k content (some (file other)) t path c h r = ground arith

pub with_folders-dst :
    (k content : String) (r : Result Tree) (t : Trees) (path c : String)
    → ((tree : Tree) → r ≡ ok tree → holds tree path c ≡ true)
    → holds t.dst path c ≡ true
    → holds (trees_of (with_folders k content r t)).dst path c ≡ true
with_folders-dst k content (raised e) t path c f h = h
with_folders-dst k content (ok dst) t path c f h =
    place_file-dst k content (lookup k dst) (record t { dst = dst }) path c refl (f dst refl)

move_node-dst :
    (k : String) (o : Option Node) (t : Trees) (path c : String)
    → holds t.dst path c ≡ true
    → holds (trees_of (move_node k o t)).dst path c ≡ true
move_node-dst k none t path c h = h
move_node-dst k (some folder) t path c h = h
move_node-dst k (some (file content)) t path c h =
    with_folders-dst k content (make_folders (parents k) t.dst) t path c
      (λ tree r. make_folders-holds (parents k) t.dst path c r h) h

pub then_files-trees :
    (P : Trees → Type 0) (o rest : Result (Unit {0}) × Trees)
    → P (trees_of o)
    → P (trees_of rest)
    → P (trees_of (then_files o rest))
then_files-trees P (raised e, t) rest h k = h
then_files-trees P (ok u, t) rest h k = k

-- Whatever becomes of the merge, a file that is in the second tree stays there as it is.
pub merge_files-dst :
    (files : List String) (t : Trees) (path c : String)
    → holds t.dst path c ≡ true
    → holds (trees_of (merge_files files t)).dst path c ≡ true
unfolding merge_files move_file
merge_files-dst [] t path c h = h
merge_files-dst (k ∷ files) t path c h =
    let first = move_node k (lookup k t.src) t in
    let kept = move_node-dst k (lookup k t.src) t path c h in
    then_files-trees (λ u. holds u.dst path c ≡ true) first (merge_files files (trees_of first))
      kept (merge_files-dst files (trees_of first) path c kept)

pub held-cases :
    (t : Trees) (path c : String)
    → is_held t path c ≡ true
    → (holds t.src path c ≡ true)
      ⊎ ((holds t.dst path c ≡ true) ⊎ (holds t.dst (join_path path (basename path)) c ≡ true))
unfolding is_held
held-cases t path c h = elim (Bool-cases (holds t.src path c)) [
  | inl a ↦ inl a
  | inr a ↦ elim (Bool-cases (holds t.dst path c)) [
    | inl b ↦ inr (inl b)
    | inr b ↦ inr (inr (ground arith))
  ]
]

dst-held : (t : Trees) (path c : String) → holds t.dst path c ≡ true → is_held t path c ≡ true
unfolding is_held
dst-held t path c h = ground arith

under-held :
    (t : Trees) (path c : String)
    → holds t.dst (join_path path (basename path)) c ≡ true
    → is_held t path c ≡ true
unfolding is_held
under-held t path c h = ground arith

-- A file that is moved away is held under its own path or inside the directory there.
moved-held :
    (k content : String) (o : Option Node) (t : Trees) (path c : String)
    → lookup k t.dst ≡ o
    → lookup k t.src ≡ some (file content)
    → holds t.src path c ≡ true
    → is_held (trees_of (place_file k content o t)) path c ≡ true
unfolding holds is_held
moved-held k content none t path c h s r =
    ground (
      arith,
      lookup-delete k path t.src,
      lookup-insert k path (file content) t.dst,
      eq_iff k path,
      s,
    )
moved-held k content (some folder) t path c h s r = inside (lookup (join_path k (basename k)) t.dst)
  where
    under : k ≡ path → is_held (trees_of (move_into k content none t)) path c ≡ true
    under p = ground (
      arith,
      s,
      r,
      ap (λ x. lookup x t.src) p,
      lookup-insert (join_path k (basename k)) (join_path path (basename path)) (file content)
          t.dst,
      eq_iff (join_path k (basename k)) (join_path path (basename path)),
      ap (λ x. join_path x (basename x)) p,
    )

    inside : (o : Option Node) → is_held (trees_of (move_into k content o t)) path c ≡ true
    inside (some n) = ground (arith, r)
    inside none = elim (Bool-cases (str_eq k path)) [
      | inl e ↦ under ((eq_iff k path).0 e)
      | inr e ↦ ground (arith, lookup-delete k path t.src, e, r)
    ]
moved-held k content (some (file other)) t path c h s r = ground (
  arith,
  lookup-delete k path t.src,
  eq_iff k path,
  eq_iff content other,
  eq_iff c content,
  h,
  s,
  r,
)

pub place_file-held :
    (k content : String) (o : Option Node) (t : Trees) (path c : String)
    → lookup k t.dst ≡ o
    → lookup k t.src ≡ some (file content)
    → is_held t path c ≡ true
    → is_held (trees_of (place_file k content o t)) path c ≡ true
place_file-held k content o t path c h s r = elim (held-cases t path c r) [
  | inl a ↦ moved-held k content o t path c h s a
  | inr (inl a) ↦
      dst-held (trees_of (place_file k content o t)) path c
        (place_file-dst k content o t path c h a)
  | inr (inr a) ↦
      under-held (trees_of (place_file k content o t)) path c
        (place_file-dst k content o t (join_path path (basename path)) c h a)
]
