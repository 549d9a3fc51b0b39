-- ===== src/Snapshot/Recorded.antt =====
-- Where the metadata of the locked packages comes from: `_read_package_metadata` and
-- `_verify_package_metadata` of mkosi/private/debian_snapshot.py.
use rules_mkosi.Prelude.{
  guard-eq-ok, guard-true, ◌==◌, ==_iff, ◌≡◌, refl, sym, ◌∙◌, subst, inl, inr, true, not, ◌&&◌,
  &&-eq-true, List, [], ◌∷◌, Option, none, some, Outcome, ok, >>=-eq-ok, arith, All, Elem,
  Bool-cases, Option-cases, IfOk-ok, Outcome-cases,
}
use rules_mkosi.Prelude.Text.{Text, codes, text_eq, text_eq_iff}
use rules_mkosi.Prelude.Bytes.{Bytes}
use rules_mkosi.Prelude.Dict.{Dict, lookup, lookup_or}
use rules_mkosi.Control.{Paragraph, paragraphs}
use rules_mkosi.Snapshot.Error.{
  SnapshotError, unsupported_architecture, foreign_package, incomplete_metadata,
  conflicting_duplicate, unmatched_packages, metadata_disagrees,
}
use rules_mkosi.Snapshot.Indexes.{Index, is_staged_architecture}
use rules_mkosi.Snapshot.Packages.{Key, Locked, key_eq, is_expected}
use rules_mkosi.Snapshot.Metadata.{
  Metadata, metadata_eq, Actual, find, store, is_other, add_metadata, paragraph_key,
  paragraph_metadata, has_metadata, read_paragraph, read_paragraphs, control_paragraphs, read_file,
  all_found, all_expected, all_agree, read_package_metadata, verify_package_metadata,
}

-- A file that an index decompresses to.
abbrev pub IsContents : (Bytes → Outcome SnapshotError Bytes) → List Index → Bytes → Type 0
IsContents decompress indexes file = (i : Index) × Elem i indexes × (decompress i.file ≡ ok file)

-- The metadata of a paragraph of an index.
abbrev pub IsRecorded :
    (Bytes → Outcome SnapshotError Text)
    → (Bytes → Outcome SnapshotError Bytes)
    → List Index
    → Metadata
    → Type 0
IsRecorded decode decompress indexes m =
    (file : Bytes) × (text : Text) × (ps : List Paragraph) × (p : Paragraph) × IsContents decompress
      indexes file
    × (decode file ≡ ok text)
    × (paragraphs text ≡ ok ps)
    × Elem p ps
    × (paragraph_metadata p ≡ m)

store-All :
    (P : Metadata → Type 0) (key : Key) (m : Metadata) (actual : Actual)
    → P m
    → All (λ (x : Key × Metadata). P x.1) actual
    → All (λ (x : Key × Metadata). P x.1) (store key m actual)
unfolding store
store-All P key m [] p h = (p, tt)
store-All P key m ((k, n) ∷ actual) p h = ground (arith, store-All P key m actual p h.1)

IfSome_lem : (P : Metadata → Type 0) (n : Metadata) {m : Metadata} → some n ≡ some m → P n → P m
IfSome_lem P n {m} e p = subst P (let same : n ≡ m = cc in same) p

find-All :
    (P : Metadata → Type 0) (key : Key) (actual : Actual) {m : Metadata}
    → All (λ (x : Key × Metadata). P x.1) actual
    → find key actual ≡ some m
    → P m
unfolding find
find-All P key [] h e = cc
find-All P key ((k, n) ∷ actual) {m} h e = elim (Bool-cases (key_eq k key)) [
  | inl same ↦ IfSome_lem P n (let e' : some n ≡ some m = rw (same, find) at e in e') h.0
  | inr differ ↦ find-All P key actual h.1 (rw (differ, find) at e)
]

module _ (P : Metadata → Type 0) where
  add_metadata-All :
      (key : Option Key) (m : Metadata) (expected : List Locked) (actual : Actual)
      {actual' : Actual}
      → P m
      → All (λ (x : Key × Metadata). P x.1) actual
      → add_metadata key m expected actual ≡ ok actual'
      → All (λ (x : Key × Metadata). P x.1) actual'
  unfolding add_metadata
  add_metadata-All none m expected actual p h e =
      IfOk-ok {E = SnapshotError} (All (λ (x : Key × Metadata). P x.1)) (ok actual) e h
  add_metadata-All (some key) m expected actual p h e =
      let (_, e') = guard-eq-ok (not (is_other m (find key actual))) conflicting_duplicate _ e in
      elim (Bool-cases (is_expected key expected)) [
        | inl wanted ↦
            IfOk-ok {E = SnapshotError} (All (λ (x : Key × Metadata). P x.1))
              (ok (store key m actual)) (rw wanted at e') (store-All P key m actual p h)
        | inr unwanted ↦
            IfOk-ok {E = SnapshotError} (All (λ (x : Key × Metadata). P x.1)) (ok actual)
              (rw unwanted at e') h
      ]

  read_paragraph-All :
      (architecture : Text) (expected : List Locked) (p : Paragraph) (actual : Actual)
      {actual' : Actual}
      → P (paragraph_metadata p)
      → All (λ (x : Key × Metadata). P x.1) actual
      → read_paragraph architecture expected p actual ≡ ok actual'
      → All (λ (x : Key × Metadata). P x.1) actual'
  unfolding read_paragraph
  read_paragraph-All architecture expected p actual q h e =
      let own = lookup_or [] (codes "Architecture") p in
      let (_, e₁) = guard-eq-ok (is_staged_architecture own) unsupported_architecture _ e in
      let (_, e₂) =
        guard-eq-ok (not (text_eq architecture (codes "all") && not (text_eq own (codes "all"))))
          foreign_package _ e₁ in
      let (_, e₃) = guard-eq-ok (has_metadata p) incomplete_metadata _ e₂ in
      add_metadata-All (paragraph_key p) (paragraph_metadata p) expected actual q h e₃

  read_paragraphs-All :
      (architecture : Text) (expected : List Locked) (ps : List Paragraph) (actual : Actual)
      {actual' : Actual}
      → ((p : Paragraph) → Elem p ps → P (paragraph_metadata p))
      → All (λ (x : Key × Metadata). P x.1) actual
      → read_paragraphs architecture expected ps actual ≡ ok actual'
      → All (λ (x : Key × Metadata). P x.1) actual'
  unfolding read_paragraphs
  read_paragraphs-All architecture expected [] actual q h e =
      IfOk-ok {E = SnapshotError} (All (λ (x : Key × Metadata). P x.1)) (ok actual) e h
  read_paragraphs-All architecture expected (p ∷ ps) actual q h e =
      let (actual₁, first, e') = >>=-eq-ok (read_paragraph architecture expected p actual) _ e in
      read_paragraphs-All architecture expected ps actual₁ (λ p' m. q p' (inr m))
        (read_paragraph-All architecture expected p actual (q p (inl refl)) h first) e'

control_paragraphs_lem :
    (text : Text) {ps : List Paragraph} → control_paragraphs text ≡ ok ps → paragraphs text ≡ ok ps
unfolding control_paragraphs
control_paragraphs_lem text h = elim (Outcome-cases (paragraphs text)) [
  | inl (qs, found) ↦
      IfOk-ok {E = SnapshotError} (λ rs. paragraphs text ≡ ok rs) (ok qs)
        (rw (found, control_paragraphs) at h) found
  | inr (raised, failed) ↦ absurd (let h' = rw (failed, control_paragraphs) at h in cc)
]

read_file_lem :
    (path : Text) (tree : Dict Bytes) {file : Bytes}
    → read_file path tree ≡ ok file
    → lookup path tree ≡ some file
unfolding read_file
read_file_lem path tree h = elim (Option-cases (lookup path tree)) [
  | inl missing ↦ absurd (let h' = rw (missing, read_file) at h in cc)
  | inr (found, at_path) ↦
      IfOk-ok {E = SnapshotError} (λ b. lookup path tree ≡ some b) (ok found)
        (rw (at_path, read_file) at h) at_path
]

some_inj : (a b : Bytes) → some a ≡ some b → a ≡ b
some_inj a b e = cc

metadata_eq_lem : (m n : Metadata) → metadata_eq m n ≡ true → m ≡ n
unfolding metadata_eq
metadata_eq_lem (f, s, d) (g, t, e) h =
    let (a, c) = &&-eq-true (text_eq f g && s == t) (text_eq d e) h in
    let (a', b') = &&-eq-true (text_eq f g) (s == t) a in
    let f' = (text_eq_iff f g).0 a' in
    let s' = (==_iff s t).0 b' in let d' = (text_eq_iff d e).0 c in rw (f', s', d')

module _ (decode : Bytes → Outcome SnapshotError Text)
    (decompress : Bytes → Outcome SnapshotError Bytes) (indexes : List Index) where
  -- A staged index, at a path.
  abbrev pub IsStaged : Dict Bytes → Text → Type 0
  IsStaged tree path =
      (file : Bytes) × (lookup path tree ≡ some file) × IsContents decompress indexes file

  abbrev pub AllRecorded : Actual → Type 0
  AllRecorded actual = All (λ (x : Key × Metadata). IsRecorded decode decompress indexes x.1) actual

  read_package_metadata-AllRecorded :
      (tree : Dict Bytes) (staged : List (Text × Text)) (expected : List Locked) (actual : Actual)
      {actual' : Actual}
      → All (λ (x : Text × Text). IsStaged tree x.0) staged
      → AllRecorded actual
      → read_package_metadata decode tree staged expected actual ≡ ok actual'
      → AllRecorded actual'
  unfolding read_package_metadata
  read_package_metadata-AllRecorded tree [] expected actual s h e =
      IfOk-ok {E = SnapshotError} AllRecorded (ok actual) e h
  read_package_metadata-AllRecorded tree ((path, architecture) ∷ staged) expected actual
        ((file, at_path, contents), s) h e =
      let (read, e₀, e₁) = >>=-eq-ok (read_file path tree) _ e in
      let (text, decoded, e₂) = >>=-eq-ok (decode read) _ e₁ in
      let (ps, parsed, e₃) = >>=-eq-ok (control_paragraphs text) _ e₂ in
      let (actual₁, first, e₄) = >>=-eq-ok (read_paragraphs architecture expected ps actual) _ e₃ in
      let same = some_inj read file (sym (read_file_lem path tree e₀) ∙ at_path) in
      let contents' = subst (IsContents decompress indexes) (sym same) contents in
      read_package_metadata-AllRecorded tree staged expected actual₁ s
        (read_paragraphs-All (IsRecorded decode decompress indexes) architecture expected ps actual
          (λ p m.
            (read, text, ps, p, contents', decoded, control_paragraphs_lem text parsed, m, refl))
          h first)
        e₄

  -- A locked package with recorded metadata.
  abbrev pub LockedRecorded : Locked → Type 0
  LockedRecorded l = IsRecorded decode decompress indexes (l.filename, l.size, l.digest)

  all_agree-Recorded :
      (expected : List Locked) (actual : Actual)
      → AllRecorded actual
      → all_agree expected actual ≡ true
      → All LockedRecorded expected
  unfolding all_agree
  all_agree-Recorded [] actual h e = tt
  all_agree-Recorded (l ∷ ls) actual h e = elim (Option-cases (find l.key actual)) [
    | inl missing ↦ absurd (let e' = rw (missing, all_agree) at e in cc)
    | inr (m, found) ↦
        let (same, rest) =
          &&-eq-true (metadata_eq m (l.filename, l.size, l.digest)) (all_agree ls actual)
            (rw (found, all_agree) at e) in
        (
          subst (IsRecorded decode decompress indexes)
              (metadata_eq_lem m (l.filename, l.size, l.digest) same)
              (find-All (IsRecorded decode decompress indexes) l.key actual h found),
          all_agree-Recorded ls actual h rest,
        )
  ]

  -- When the metadata is verified, the name, size and digest of every locked package are those of a
  -- paragraph of an index, as it was decompressed.
  pub verify_package_metadata-Recorded :
      (tree : Dict Bytes) (staged : List (Text × Text)) (expected : List Locked) {u : Unit {0}}
      → All (λ (x : Text × Text). IsStaged tree x.0) staged
      → verify_package_metadata decode tree staged expected ≡ ok u
      → All LockedRecorded expected
  unfolding verify_package_metadata
  verify_package_metadata-Recorded tree staged expected s e =
      let (actual, read, e₁) =
        >>=-eq-ok (read_package_metadata decode tree staged expected []) _ e in
      let (_, e₂) =
        guard-eq-ok (all_expected actual expected && all_found expected actual) unmatched_packages _
          e₁ in
      all_agree-Recorded expected actual
        (read_package_metadata-AllRecorded tree staged expected [] s tt read)
        (guard-true (all_agree expected actual) metadata_disagrees e₂)
