-- ===== src/Snapshot/Files.antt =====
-- The files that `_stage_release_files` leaves in the output directory, of mkosi/private/debian_snapshot.py.
use rules_mkosi.Prelude.{
  guard-eq-ok, ◌≡◌, refl, sym, subst, inl, inr, false, not, List, [], ◌∷◌, ◌++◌, Outcome, ok,
  >>=-eq-ok, arith, All, Elem, Bool-cases, IfOk-ok,
}
use rules_mkosi.Prelude.Text.{Text, codes, text_eq, text_eq_iff, text_eq_refl, starts_with}
use rules_mkosi.Prelude.Bytes.{Bytes}
use rules_mkosi.Prelude.Dict.{insert, lookup-insert, Entries, Entries-insert}
use rules_mkosi.Snapshot.Error.{
  SnapshotError, invalid_component, unsupported_architecture, wrong_index_path, duplicate_index,
}
use rules_mkosi.Snapshot.Indexes.{
  Arguments, Index, is_identifier, is_staged_architecture, index_path, is_seen, check_indexes,
}
use rules_mkosi.Snapshot.Recorded.{IsContents, IsStaged}
use rules_mkosi.Snapshot.Stage.{
  Tree, copy, is_blocked, without_xz, stage_indexes, stage_release_files,
}

pub copy_lem :
    (file : Bytes) (path : Text) (tree : Tree) {tree' : Tree}
    → copy file path tree ≡ ok tree'
    → insert path file tree ≡ tree'
unfolding copy
copy_lem file path tree {tree'} e = elim (Bool-cases (is_blocked path tree)) [
  | inl blocked ↦ absurd (let e' = rw blocked at e in cc)
  | inr free ↦
      IfOk-ok {E = SnapshotError} (λ t. insert path file tree ≡ t) (ok (insert path file tree))
        (rw free at e) refl
]

-- Every index has the path that its component and architecture give.
abbrev pub HavePaths : Text → List Index → Type 0
HavePaths codename is =
    All (λ (i : Index). i.relative ≡ index_path codename i.component i.architecture) is

pub check_indexes-HavePaths :
    (codename : Text) (is : List Index) (seen : List (Text × Text)) {seen' : List (Text × Text)}
    → check_indexes codename is seen ≡ ok seen'
    → HavePaths codename is
unfolding check_indexes
check_indexes-HavePaths codename [] seen e = tt
check_indexes-HavePaths codename (i ∷ is) seen e =
    let (_, e₁) = guard-eq-ok (is_identifier i.component) invalid_component _ e in
    let (_, e₂) =
      guard-eq-ok (is_staged_architecture i.architecture) unsupported_architecture _ e₁ in
    let path = index_path codename i.component i.architecture in
    let (same, e₃) = guard-eq-ok (text_eq i.relative path) wrong_index_path _ e₂ in
    let (_, e₄) =
      guard-eq-ok (not (is_seen i.component i.architecture seen)) duplicate_index _ e₃ in
    (
      (text_eq_iff i.relative path).0 same,
      check_indexes-HavePaths codename is ((i.component, i.architecture) ∷ seen) e₄,
    )

index_path_lem :
    (codename component architecture : Text)
    → starts_with (without_xz (index_path codename component architecture)) (codes "pool/") ≡ false
unfolding index_path without_xz starts_with
index_path_lem codename component architecture = ground arith

module _ (decode : Bytes → Outcome SnapshotError Text)
    (decompress : Bytes → Outcome SnapshotError Bytes) (all : List Index) where
  IsStaged-insert :
      (path other : Text) (file : Bytes) (tree : Tree)
      → IsContents decompress all file
      → IsStaged decode decompress all tree path
      → IsStaged decode decompress all (insert other file tree) path
  IsStaged-insert path other file tree c (own, at_path, d) =
      elim (Bool-cases (text_eq other path)) [
        | inl same ↦ (file, rw (lookup-insert other path file tree, same), c)
        | inr differ ↦ (own, rw (lookup-insert other path file tree, differ) at_path, d)
      ]

  IsStaged-copy :
      (path other : Text) (file : Bytes) (tree : Tree) {tree' : Tree}
      → IsContents decompress all file
      → copy file other tree ≡ ok tree'
      → IsStaged decode decompress all tree path
      → IsStaged decode decompress all tree' path
  IsStaged-copy path other file tree c e s =
      subst (λ t. IsStaged decode decompress all t path) (copy_lem file other tree e)
        (IsStaged-insert path other file tree c s)

  copy-IsStaged :
      (path : Text) (file : Bytes) (tree : Tree) {tree' : Tree}
      → IsContents decompress all file
      → copy file path tree ≡ ok tree'
      → IsStaged decode decompress all tree' path
  copy-IsStaged path file tree c e =
      subst (λ t. IsStaged decode decompress all t path) (copy_lem file path tree e)
        (file, rw (lookup-insert path path file tree, text_eq_refl path), c)

abbrev pub NoPool : Tree → Type 0
NoPool tree = Entries (λ path (file : Bytes). starts_with path (codes "pool/") ≡ false) tree

copy-NoPool :
    (file : Bytes) (path : Text) (tree : Tree) {tree' : Tree}
    → starts_with path (codes "pool/") ≡ false
    → NoPool tree
    → copy file path tree ≡ ok tree'
    → NoPool tree'
copy-NoPool file path tree outside h e = subst NoPool (copy_lem file path tree e) (
    Entries-insert (λ path' (f : Bytes). starts_with path' (codes "pool/") ≡ false) path file tree
      outside h)

module _ (decode : Bytes → Outcome SnapshotError Text)
    (decompress : Bytes → Outcome SnapshotError Bytes) (codename : Text) (all : List Index) where
  -- After the loop over some of the indexes.
  abbrev AfterIndexes : Tree → Tree × List (Text × Text) → Type 0
  AfterIndexes tree (tree', staged) =
      NoPool tree'
      × ((path : Text)
          → IsStaged decode decompress all tree path
          → IsStaged decode decompress all tree' path)
      × All (λ (x : Text × Text). IsStaged decode decompress all tree' x.0) staged

  stage_indexes_lem :
      (is : List Index) (tree : Tree) {result : Tree × List (Text × Text)}
      → ((i : Index) → Elem i is → Elem i all)
      → HavePaths codename is
      → NoPool tree
      → stage_indexes decompress is tree ≡ ok result
      → AfterIndexes tree result
  unfolding stage_indexes
  stage_indexes_lem [] tree m paths h e =
      IfOk-ok {E = SnapshotError} (AfterIndexes tree) (ok (tree, [])) e (h, (λ path s. s), tt)
  stage_indexes_lem (i ∷ is) tree m (p, paths) h e =
      let (file, plain, e₁) = >>=-eq-ok (decompress i.file) _ e in
      let path = without_xz i.relative in
      let (tree₁, copied, e₂) = >>=-eq-ok (copy file path tree) _ e₁ in
      let ((tree₂, staged), later, e₃) = >>=-eq-ok (stage_indexes decompress is tree₁) _ e₂ in
      let outside : starts_with path (codes "pool/") ≡ false =
        subst (λ q. starts_with (without_xz q) (codes "pool/") ≡ false) (sym p)
          (index_path_lem codename i.component i.architecture) in
      let (no_pool, kept, every) =
        stage_indexes_lem is tree₁ (λ j k. m j (inr k)) paths
          (copy-NoPool file path tree outside h copied) later in
      let contents : IsContents decompress all file = (i, m i (inl refl), plain) in
      IfOk-ok {E = SnapshotError} (AfterIndexes tree) (ok (tree₂, (path, i.architecture) ∷ staged))
        e₃
        (
          no_pool,
          (λ q s. kept q (IsStaged-copy decode decompress all q path file tree contents copied s)),
          (kept path (copy-IsStaged decode decompress all path file tree contents copied), every),
        )

  pub stage_release_files_lem :
      (args : Arguments) (tree : Tree) {result : Tree × List (Text × Text)}
      → HavePaths codename all
      → NoPool tree
      → stage_release_files decompress args all tree ≡ ok result
      → NoPool result.0
        × All (λ (x : Text × Text). IsStaged decode decompress all result.0 x.0) result.1
  unfolding stage_release_files starts_with
  stage_release_files_lem args tree paths h e =
      let dists = λ (name : Text). codes "dists/" ++ (args.codename ++ name) in
      let in_path = dists (codes "/InRelease") in
      let release_path = dists (codes "/Release") in
      let gpg_path = dists (codes "/Release.gpg") in
      let (tree₁, first, e₁) = >>=-eq-ok (copy args.inrelease in_path tree) _ e in
      let (tree₂, second, e₂) = >>=-eq-ok (copy args.release release_path tree₁) _ e₁ in
      let (tree₃, third, e₃) = >>=-eq-ok (copy args.release_gpg gpg_path tree₂) _ e₂ in
      let h₁ = copy-NoPool args.inrelease in_path tree refl h first in
      let h₂ = copy-NoPool args.release release_path tree₁ refl h₁ second in
      let h₃ = copy-NoPool args.release_gpg gpg_path tree₂ refl h₂ third in
      let (no_pool, _, every) = stage_indexes_lem all tree₃ (λ i m. m) paths h₃ e₃ in
      (no_pool, every)
