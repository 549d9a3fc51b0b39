-- ===== src/Debian/Generate/Indexes.antt =====
-- The packages that the indexes give: `_fetch_indexes` of mkosi/debian/generate_lock.py, and the
-- Release file that is fetched.
use rules_mkosi.Prelude.{
  guard-eq-ok, Option-cases, ◌&&◌, ◌==◌, length, ◌≡◌, refl, inl, inr, subst, ◌⊎◌, Bool, true, false,
  ◌||◌, List, [], ◌∷◌, ◌++◌, Option, some, Outcome, ok, >>=-eq-ok, guard, ◌>>◌, All, All-intro,
  All-append, Elem, IfOk-ok,
}
use rules_mkosi.Prelude.Text.{Text, codes, text_eq, text_eq_iff}
use rules_mkosi.Prelude.Bytes.{Bytes}
use rules_mkosi.Prelude.Dict.{Dict, lookup}
use rules_mkosi.Debian.Error.{LockError, release_mismatch, wrong_checksum}
use rules_mkosi.Debian.Package.{Package}
use rules_mkosi.Debian.Records.{parse_packages}
use rules_mkosi.Debian.Release.{
  Checksums, cleartext_payload, release_checksums, release_number, index_name, fetch_release,
  fetch_index,
}
use rules_mkosi.Debian.Release.Authentic.{IsAuthentic, fetch_index-IsAuthentic}
use rules_mkosi.Debian.Generate.{
  metadata_entry, decode_index, fetch_pairs, fetch_indexes, fetch_all, index_pairs,
}
use rules_mkosi.Debian.Lock.{Specification, MetadataEntry, Repository}

-- The path of an index below its suite.
abbrev pub relative_path : Text → Text → Text
relative_path component architecture =
    component ++ (codes "/binary-" ++ (architecture ++ codes "/Packages.xz"))

release_guard :
    (a b : Bool) (rest : Outcome LockError (Bytes × Bytes × Bytes)) {r : Bytes × Bytes × Bytes}
    → (guard (a || b) release_mismatch >> rest) ≡ ok r
    → ((a ≡ true) ⊎ (b ≡ true)) × (rest ≡ ok r)
release_guard true b rest h = (inl refl, h)
release_guard false true rest h = (inr refl, h)
release_guard false false rest h = cc

packages_of :
    (ps : List Package) (repository : Repository) {r : List Package × Repository}
    → ◌≡◌ {A = Outcome LockError (List Package × Repository)} (ok (ps, repository)) (ok r)
    → ps ≡ r.0
packages_of ps repository e =
    IfOk-ok {E = LockError} (λ (r : List Package × Repository). ps ≡ r.0) (ok (ps, repository)) e
      refl

-- The URL of a file of the suite.
abbrev pub url_of : Specification → Text → Text
url_of spec path = spec.snapshot_url ++ (b'/' ∷ ((codes "dists/" ++ spec.suite) ++ path))

fetch_index-fetched :
    (fetcher : Text → Outcome LockError Bytes) (sha256 : Bytes → Text) (url base relative : Text)
    (sums : Checksums) {file : Bytes}
    → fetch_index fetcher sha256 url base relative sums ≡ ok file
    → fetcher (url ++ (b'/' ∷ (base ++ (b'/' ∷ relative)))) ≡ ok file
unfolding fetch_index
fetch_index-fetched fetcher sha256 url base relative sums {file} e =
    elim (Option-cases (lookup relative sums)) [
      | inl missing ↦ absurd (let e' = rw (fetch_index, missing) at e in cc)
      | inr ((digest, size), listed) ↦
          let path = url ++ (b'/' ∷ (base ++ (b'/' ∷ relative))) in
          let (fetched, given, e₁) = >>=-eq-ok (fetcher path) _ (rw (fetch_index, listed) at e) in
          let (_, same) =
            guard-eq-ok (length fetched == size && text_eq (sha256 fetched) digest) wrong_checksum
              (ok fetched) e₁ in
          IfOk-ok {E = LockError} (λ f. fetcher path ≡ ok f) (ok fetched) same given
    ]

module _ (fetcher : Text → Outcome LockError Bytes) (sha256 : Bytes → Text)
    (decode : Bytes → Outcome LockError Text) (decompress : Bytes → Outcome LockError Bytes) where
  -- A package is that of a record of a fetched index of the specification, whose bytes have the
  -- listed digest and size.
  abbrev pub FromIndex : Specification → Checksums → Package → Type 0
  FromIndex spec sums p =
      (component : Text) × (architecture : Text) × (file : Bytes) × (text : Text) × (ps : List
        Package)
      × Elem (component, architecture) (index_pairs spec.components)
      × (fetcher (url_of spec (b'/' ∷ relative_path component architecture)) ≡ ok file)
      × IsAuthentic sha256 (relative_path component architecture) sums file
      × (decode_index fetcher sha256 decode decompress file ≡ ok text)
      × (parse_packages text component architecture ≡ ok ps)
      × Elem p ps

  fetch_pairs-FromIndex :
      (spec : Specification) (release : Text) (pairs : List (Text × Text)) {fields : Dict Text}
      {sums : Checksums} {result : List MetadataEntry × List Package}
      → ((x : Text × Text) → Elem x pairs → Elem x (index_pairs spec.components))
      → release_checksums release ≡ ok (fields, sums)
      → fetch_pairs fetcher sha256 decode decompress spec.snapshot_url
          (codes "dists/" ++ spec.suite)
          sums
          pairs
        ≡ ok result
      → All (FromIndex spec sums) result.1
  unfolding fetch_pairs
  fetch_pairs-FromIndex spec release [] {fields} {sums} inside r e =
      IfOk-ok {E = LockError}
        (λ (x : List MetadataEntry × List Package). All (FromIndex spec sums) x.1) (ok ([], [])) e
        tt
  fetch_pairs-FromIndex spec release ((component, architecture) ∷ pairs) {fields} {sums} inside r
        e =
      let url = spec.snapshot_url in
      let base = codes "dists/" ++ spec.suite in
      let relative = relative_path component architecture in
      let (file, fetched, e₁) = >>=-eq-ok (fetch_index fetcher sha256 url base relative sums) _ e in
      let (text, decoded, e₂) =
        >>=-eq-ok (decode_index fetcher sha256 decode decompress file) _ e₁ in
      let (ps, parsed, e₃) = >>=-eq-ok (parse_packages text component architecture) _ e₂ in
      let ((entries, rest), others, e₄) =
        >>=-eq-ok (fetch_pairs fetcher sha256 decode decompress url base sums pairs) _ e₃ in
      let authentic = fetch_index-IsAuthentic fetcher sha256 release url base relative r fetched in
      let plain = fetch_index-fetched fetcher sha256 url base relative sums fetched in
      let entry =
        metadata_entry fetcher sha256 decode decompress (index_name component architecture)
          (base ++ (b'/' ∷ relative)) file url (some (architecture, component)) in
      IfOk-ok {E = LockError}
        (λ (x : List MetadataEntry × List Package). All (FromIndex spec sums) x.1)
        (ok (entry ∷ entries, ps ++ rest)) e₄
        (All-append (FromIndex spec sums) ps rest
          (All-intro (FromIndex spec sums) ps (λ p m. (
            component,
            architecture,
            file,
            text,
            ps,
            inside (component, architecture) (inl refl),
            plain,
            authentic,
            decoded,
            parsed,
            m,
          )))
          (fetch_pairs-FromIndex spec release pairs (λ x m. inside x (inr m)) r others))

  module _ (encode : Text → Bytes) (spec_sha256 : Specification → Text) where
    -- The digests of a Release file, which is the payload of a clear-signed one.
    abbrev pub IsRelease : Specification → Checksums → Type 0
    IsRelease spec sums =
        (inrelease : Bytes) × (release : Bytes) × (signed : Text) × (payload : Text) × (text : Text)
        × (fields : Dict Text) × (fetcher (url_of spec (codes "/InRelease")) ≡ ok inrelease)
        × (fetcher (url_of spec (codes "/Release")) ≡ ok release)
        × (decode inrelease ≡ ok signed)
        × (cleartext_payload signed ≡ ok payload)
        × ((encode payload ≡ release) ⊎ (encode payload ≡ release ++ 10 ∷ []))
        × (decode release ≡ ok text)
        × (release_checksums text ≡ ok (fields, sums))

    -- The packages and their Release file.
    abbrev pub IsFetched : Specification → List Package → Type 0
    IsFetched spec packages =
        (sums : Checksums) × IsRelease spec sums × All (FromIndex spec sums) packages

    fetch_release_lem :
        (url base : Text) {files : Bytes × Bytes × Bytes}
        → fetch_release fetcher decode encode url base ≡ ok files
        → (inrelease : Bytes) × (signed : Text) × (payload : Text) × (fetcher
              (url ++ (b'/' ∷ (base ++ codes "/InRelease")))
            ≡ ok inrelease)
          × (fetcher (url ++ (b'/' ∷ (base ++ codes "/Release"))) ≡ ok files.1)
          × (decode inrelease ≡ ok signed)
          × (cleartext_payload signed ≡ ok payload)
          × ((encode payload ≡ files.1) ⊎ (encode payload ≡ files.1 ++ 10 ∷ []))
    unfolding fetch_release
    fetch_release_lem url base {files} e =
        let (inrelease, got, e₁) =
          >>=-eq-ok (fetcher (url ++ (b'/' ∷ (base ++ codes "/InRelease")))) _ e in
        let (release, found, e₂) =
          >>=-eq-ok (fetcher (url ++ (b'/' ∷ (base ++ codes "/Release")))) _ e₁ in
        let (gpg, _, e₃) =
          >>=-eq-ok (fetcher (url ++ (b'/' ∷ (base ++ codes "/Release.gpg")))) _ e₂ in
        let (signed, decoded, e₄) = >>=-eq-ok (decode inrelease) _ e₃ in
        let (payload, clear, e₅) = >>=-eq-ok (cleartext_payload signed) _ e₄ in
        let (same, e₆) =
          release_guard (text_eq (encode payload) release)
            (text_eq (encode payload) (release ++ 10 ∷ [])) (ok (inrelease, release, gpg)) e₅ in
        (
          inrelease,
          signed,
          payload,
          got,
          IfOk-ok {E = LockError}
              (λ (f : Bytes × Bytes × Bytes).
                fetcher (url ++ (b'/' ∷ (base ++ codes "/Release"))) ≡ ok f.1)
              (ok (inrelease, release, gpg)) e₆ found,
          decoded,
          clear,
          IfOk-ok {E = LockError}
              (λ (f : Bytes × Bytes × Bytes).
                (encode payload ≡ f.1) ⊎ (encode payload ≡ f.1 ++ 10 ∷ []))
              (ok (inrelease, release, gpg)) e₆
              (elim same [
                | inl a ↦ inl ((text_eq_iff (encode payload) release).0 a)
                | inr b ↦ inr ((text_eq_iff (encode payload) (release ++ 10 ∷ [])).0 b)
              ]),
        )

    pub fetch_all-IsFetched :
        (spec : Specification) (release : Option Text) {result : List Package × Repository}
        → fetch_all fetcher sha256 decode decompress encode spec_sha256 spec release ≡ ok result
        → IsFetched spec result.0
    unfolding fetch_all fetch_indexes
    fetch_all-IsFetched spec release e =
        let base = codes "dists/" ++ spec.suite in
        let url = spec.snapshot_url in
        let (files, fetched, e₁) = >>=-eq-ok (fetch_release fetcher decode encode url base) _ e in
        let (text, decoded, e₂) = >>=-eq-ok (decode files.1) _ e₁ in
        let ((fields, sums), listed, e₃) = >>=-eq-ok (release_checksums text) _ e₂ in
        let (number, _, e₄) =
          >>=-eq-ok (release_number fields spec.suite spec.components release) _ e₃ in
        let (indexes, given, e₅) =
          >>=-eq-ok
            (fetch_pairs fetcher sha256 decode decompress url base sums
              (index_pairs spec.components))
            _ e₄ in
        let (inrelease, signed, payload, got, found, a, b, c) =
          fetch_release_lem url base fetched in
        subst (IsFetched spec) (packages_of indexes.1 _ e₅) (
          sums,
          (inrelease, files.1, signed, payload, text, fields, got, found, a, b, c, decoded, listed),
          fetch_pairs-FromIndex spec text (index_pairs spec.components) (λ x m. m) listed given,
        )
