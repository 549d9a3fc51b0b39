-- ===== src/Debian/Release/Authentic.antt =====
-- The digests of a Release file, and the indexes that are fetched: `release_checksums` and
-- `_fetch_index` of mkosi/debian/generate_lock.py.
use rules_mkosi.Prelude.{
  ℕ, ◌==◌, ◌≡◌, refl, subst, inl, inr, Bool, true, false, not, ◌&&◌, ◌||◌, List, [], ◌∷◌, some,
  length, Outcome, ok, ◌>>◌, guard, >>=-eq-ok, arith, Bool-cases, Option-cases, List-cases, IfOk-ok,
}
use rules_mkosi.Prelude.Text.{Text, codes, text_eq, text_eq_iff, is_numeric, decimal, strip}
use rules_mkosi.Prelude.Dict.{
  Dict, lookup, lookup_or, insert, Entries, Entries-insert, Entries-lookup,
}
use rules_mkosi.Control.{split_lines}
use rules_mkosi.Debian.Error.{LockError, wrong_checksum}
use rules_mkosi.Debian.Records.{lock_paragraphs, is_sha256}
use rules_mkosi.Debian.Release.{
  words, Checksums, add_checksum, checksums_from, one_paragraph, release_checksums, fetch_index,
}

-- Every digest is a SHA-256.
abbrev HasDigests : Checksums → Type 0
HasDigests sums = Entries (λ path (x : Text × ℕ). is_sha256 x.0 ≡ true) sums

not_malformed : (a b : Bool) → (not a || not b) ≡ false → a ≡ true
not_malformed a b h = ground arith

add_checksum-HasDigests :
    (parts : List Text) (sums : Checksums) {sums' : Checksums}
    → HasDigests sums
    → add_checksum parts sums ≡ ok sums'
    → HasDigests sums'
unfolding add_checksum
add_checksum-HasDigests [] sums h e = cc
add_checksum-HasDigests (a ∷ []) sums h e = cc
add_checksum-HasDigests (a ∷ b ∷ []) sums h e = cc
add_checksum-HasDigests (a ∷ b ∷ c ∷ d ∷ parts) sums h e = cc
add_checksum-HasDigests (digest ∷ size ∷ path ∷ []) sums h e =
    elim (Bool-cases (not (is_sha256 digest) || not (is_numeric size))) [
      | inl malformed ↦ absurd (let e' = rw malformed at e in cc)
      | inr right ↦ elim (Option-cases (lookup path sums)) [
        | inr (previous, found) ↦ absurd (let e' = rw (right, found) at e in cc)
        | inl new ↦
            IfOk-ok {E = LockError} HasDigests (ok (insert path (digest, decimal 0 size) sums))
              (rw (right, new) at e)
              (Entries-insert (λ path (x : Text × ℕ). is_sha256 x.0 ≡ true) path
                (digest, decimal 0 size) sums
                (not_malformed (is_sha256 digest) (is_numeric size) right) h)
      ]
    ]

checksums_from-HasDigests :
    (lines : List Text) (sums : Checksums) {sums' : Checksums}
    → HasDigests sums
    → checksums_from lines sums ≡ ok sums'
    → HasDigests sums'
unfolding checksums_from
checksums_from-HasDigests [] sums h e = IfOk-ok {E = LockError} HasDigests (ok sums) e h
checksums_from-HasDigests (line ∷ lines) sums h e = elim (List-cases (strip line)) [
  | inl blank ↦ checksums_from-HasDigests lines sums h (rw (checksums_from, blank) at e)
  | inr (c, s, text) ↦
      let (sums₁, added, e') =
        >>=-eq-ok (add_checksum (words line) sums) _ (rw (checksums_from, text) at e) in
      checksums_from-HasDigests lines sums₁ (add_checksum-HasDigests (words line) sums h added) e'
]

release_checksums-HasDigests :
    (release : Text) {result : Dict Text × Checksums}
    → release_checksums release ≡ ok result
    → HasDigests result.1
unfolding release_checksums
release_checksums-HasDigests release e =
    let (ps, _, e₁) = >>=-eq-ok (lock_paragraphs release) _ e in
    let (fields, _, e₂) = >>=-eq-ok (one_paragraph ps) _ e₁ in
    let lines = split_lines [] (lookup_or [] (codes "SHA256") fields) in
    let (sums, listed, e₃) = >>=-eq-ok (checksums_from lines []) _ e₂ in
    IfOk-ok {E = LockError} (λ (r : Dict Text × Checksums). HasDigests r.1) (ok (fields, sums)) e₃
      (checksums_from-HasDigests lines [] tt listed)

-- What the Release file says of the data.
abbrev pub IsAuthentic : (List ℕ → Text) → Text → Checksums → List ℕ → Type 0
IsAuthentic sha256 relative sums bytes =
    (digest : Text) × (size : ℕ) × (lookup relative sums ≡ some (digest, size))
    × (is_sha256 digest ≡ true)
    × (sha256 bytes ≡ digest)
    × (length bytes ≡ size)

checked :
    (a b : Bool) (bytes : List ℕ) {result : List ℕ}
    → (guard (a && b) wrong_checksum >> ok bytes) ≡ ok result
    → (a ≡ true) × (b ≡ true) × (bytes ≡ result)
checked true true bytes e = (refl, refl, ok-injective e)
  where
    ok-injective : {x y : List ℕ} → ◌≡◌ {A = Outcome LockError (List ℕ)} (ok x) (ok y) → x ≡ y
    ok-injective {x} {y} e' = IfOk-ok {E = LockError} (λ z. x ≡ z) (ok x) e' refl
checked true false bytes e = cc
checked false b bytes e = cc

-- With the checksums of a Release file, an index that is fetched is one that the file lists, its
-- bytes have the SHA-256 that is listed, which is 64 hexadecimal digits, and they are as many as it
-- says.
pub fetch_index-IsAuthentic :
    (fetcher : Text → Outcome LockError (List ℕ)) (sha256 : List ℕ → Text)
    (release url base relative : Text) {fields : Dict Text} {sums : Checksums} {bytes : List ℕ}
    → release_checksums release ≡ ok (fields, sums)
    → fetch_index fetcher sha256 url base relative sums ≡ ok bytes
    → IsAuthentic sha256 relative sums bytes
unfolding fetch_index
fetch_index-IsAuthentic fetcher sha256 release url base relative {fields} {sums} {bytes} r e =
    elim (Option-cases (lookup relative sums)) [
      | inl missing ↦ absurd (let e' = rw (fetch_index, missing) at e in cc)
      | inr ((digest, size), listed) ↦
          let (fetched, _, e₁) = >>=-eq-ok (fetcher _) _ (rw (fetch_index, listed) at e) in
          let (long, same, it) =
            checked (length fetched == size) (text_eq (sha256 fetched) digest) fetched e₁ in
          let h = release_checksums-HasDigests release r in
          (
            digest,
            size,
            listed,
            Entries-lookup (λ path (x : Text × ℕ). is_sha256 x.0 ≡ true) relative sums h listed,
            subst (λ b. sha256 b ≡ digest) it ((text_eq_iff (sha256 fetched) digest).0 same),
            subst (λ (b : List ℕ). length b ≡ size) it (ground arith),
          )
    ]
