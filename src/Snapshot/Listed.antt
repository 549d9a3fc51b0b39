-- ===== src/Snapshot/Listed.antt =====
-- What a Release file says of the index files that pass `_release_hash` of
-- mkosi/private/debian_snapshot.py.
use rules_mkosi.Prelude.{
  guard-eq-ok, guard-true, ℕ, ◌==◌, ==_iff, ◌≡◌, refl, sym, subst, inl, inr, true, List, [], ◌∷◌,
  length, Outcome, ok, >>=-eq-ok, All, Elem, Bool-cases, IfOk-ok,
}
use rules_mkosi.Prelude.Text.{Text, text_eq, text_eq_iff}
use rules_mkosi.Prelude.Bytes.{Bytes}
use rules_mkosi.Verity.Project.{lower}
use rules_mkosi.Snapshot.Error.{SnapshotError, size_disagrees, digest_disagrees}
use rules_mkosi.Snapshot.Indexes.{Index}
use rules_mkosi.Snapshot.Release.{
  Entry, suite_path, entries_at, only_entry, sha256_entries, release_hash, all_listed,
}

Elem-entries_at :
    (path : Text) (es : List Entry) (e : Entry)
    → Elem e es
    → e.path ≡ path
    → Elem e (entries_at path es)
unfolding entries_at
Elem-entries_at path [] e m h = absurd m
Elem-entries_at path (f ∷ es) e (inl same) h =
    let at_path : text_eq f.path path ≡ true =
      (text_eq_iff f.path path).1 (subst (λ (g : Entry). g.path ≡ path) same h) in
    rw at_path (inl same)
Elem-entries_at path (f ∷ es) e (inr m) h = elim (Bool-cases (text_eq f.path path)) [
  | inl here ↦ rw here (inr (Elem-entries_at path es e m h))
  | inr not_here ↦ rw not_here (Elem-entries_at path es e m h)
]

entries_at-Elem :
    (path : Text) (es : List Entry) (e : Entry)
    → Elem e (entries_at path es)
    → Elem e es × (e.path ≡ path)
unfolding entries_at
entries_at-Elem path [] e m = absurd m
entries_at-Elem path (f ∷ es) e m = elim (Bool-cases (text_eq f.path path)) [
  | inr not_here ↦
      let (found, at_path) = entries_at-Elem path es e (rw not_here at m) in (inr found, at_path)
  | inl here ↦ elim (let m' : Elem e (f ∷ entries_at path es) = rw here at m in m') [
    | inl same ↦ (
      inl same,
      subst (λ (g : Entry). g.path ≡ path) (sym same) ((text_eq_iff f.path path).0 here),
    )
    | inr m' ↦ let (found, at_path) = entries_at-Elem path es e m' in (inr found, at_path)
  ]
]

only_entry_lem : (es : List Entry) {e : Entry} → only_entry es ≡ ok e → es ≡ e ∷ []
unfolding only_entry
only_entry_lem [] h = cc
only_entry_lem (f ∷ []) {e} h = IfOk-ok {E = SnapshotError} (λ g. f ∷ [] ≡ g ∷ []) (ok f) h refl
only_entry_lem (f ∷ g ∷ es) h = cc

-- The one entry of a Release file for a path below its suite, with a size and a digest that is
-- compared without regard to case.
abbrev pub IsListed : (Bytes → Outcome SnapshotError Text) → Bytes → Text → ℕ → Text → Type 0
IsListed decode release relative size digest =
    (path : Text) × (entries : List Entry) × (e : Entry) × (suite_path relative ≡ ok path)
    × (sha256_entries decode release ≡ ok entries)
    × Elem e entries
    × (e.path ≡ path)
    × ((f : Entry) → Elem f entries → f.path ≡ path → f ≡ e)
    × (e.size ≡ size)
    × (lower e.digest ≡ lower digest)

Elem-singleton : (f e : Entry) → Elem f (e ∷ []) → f ≡ e
Elem-singleton f e (inl same) = same
Elem-singleton f e (inr m) = absurd m

-- An index that passes has exactly one entry in the SHA256 field of the Release file, under its path
-- below the suite, and the entry's size and digest are those that were asked for.
pub release_hash-IsListed :
    (decode : Bytes → Outcome SnapshotError Text) (release : Bytes) (relative : Text) (size : ℕ)
    (digest : Text) {u : Unit {0}}
    → release_hash decode release relative size digest ≡ ok u
    → IsListed decode release relative size digest
unfolding release_hash
release_hash-IsListed decode release relative size digest h =
    let (path, below, h₁) = >>=-eq-ok (suite_path relative) _ h in
    let (entries, parsed, h₂) = >>=-eq-ok (sha256_entries decode release) _ h₁ in
    let (e, only, h₃) = >>=-eq-ok (only_entry (entries_at path entries)) _ h₂ in
    let (same_size, h₄) = guard-eq-ok (e.size == size) size_disagrees _ h₃ in
    let same_digest = guard-true (text_eq (lower e.digest) (lower digest)) digest_disagrees h₄ in
    let one = only_entry_lem (entries_at path entries) only in
    let (found, at_path) =
      entries_at-Elem path entries e (subst (λ es. Elem e es) (sym one) (inl refl)) in
    (
      path,
      entries,
      e,
      below,
      parsed,
      found,
      at_path,
      λ f m p.
          Elem-singleton f e (subst (λ es. Elem f es) one (Elem-entries_at path entries f m p)),
      (==_iff e.size size).0 same_size,
      (text_eq_iff (lower e.digest) (lower digest)).0 same_digest,
    )

pub all_listed-IsListed :
    (decode : Bytes → Outcome SnapshotError Text) (release : Bytes) (is : List Index) {u : Unit {0}}
    → all_listed decode release is ≡ ok u
    → All (λ (i : Index). IsListed decode release i.relative (length i.file) i.digest) is
unfolding all_listed
all_listed-IsListed decode release [] h = tt
all_listed-IsListed decode release (i ∷ is) h =
    let (_, first, rest) =
      >>=-eq-ok (release_hash decode release i.relative (length i.file) i.digest) _ h in
    (
      release_hash-IsListed decode release i.relative (length i.file) i.digest first,
      all_listed-IsListed decode release is rest,
    )
