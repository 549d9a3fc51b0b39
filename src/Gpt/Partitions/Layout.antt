-- ===== src/Gpt/Partitions/Layout.antt =====
-- The partitions that `project_image` returns are in order, disjoint, aligned and in the usable range.
use rules_mkosi.Prelude.{
  ℕ, zero, suc, ◌+◌, ◌-◌, ◌*◌, ◌/◌, ◌%◌, ◌≤◌, ◌<◌, ◌≡◌, refl, sym, ap, ◌∙◌, subst, inl, inr, Bool,
  List, [], ◌∷◌, Option, none, some, length, ok, IfOk, IfOk-bind, IfOk-intro, IfOk-ok, >>=-eq-ok,
  All, All-intro, All-Elem, arith, Bool-cases,
}
use mathlib.Core.Path.{subst₂}
use native.Mathlib.Nat.{div-mul-le_self, mul-le-mul, le_refl, le_trans}
use rules_mkosi.Prelude.Text.{Text, text_eq}
use rules_mkosi.Prelude.Bytes.{Bytes, slice, zeros, unpack}
use rules_mkosi.Gpt.Header.{Header, Gpt, validated_gpt}
use rules_mkosi.Gpt.Header.Bounds.{IsGpt, validated_gpt-IsGpt}
use rules_mkosi.Gpt.Partitions.{
  Partition, alignment, Extent, check_entry_range, project_entry, scan_entry, scan, validate_roots,
  validate_firmware, Metadata, project_image, is_some,
}

-- A partition lies in the usable range, is not empty and is aligned.
pub record IsPlaced (g : Gpt) (p : Partition) : Type 0 where
  pub aligned : p.start_bytes % alignment ≡ 0
  pub nonempty : g.sector_size ≤ p.size_bytes
  pub starts : g.primary.first_usable * g.sector_size ≤ p.start_bytes
  pub ends : p.start_bytes + p.size_bytes ≤ (g.primary.last_usable + 1) * g.sector_size

-- In order: each partition begins at or after the end of the one before, with a higher number.
abbrev pub InOrder : ℕ → ℕ → List Partition → Type 0
InOrder from number [] = Unit
InOrder from number (p ∷ ps) =
    (from ≤ p.start_bytes)
    × (number < p.number)
    × InOrder (p.start_bytes + p.size_bytes) p.number ps

-- Where the previous extent ends, and its number.
abbrev end_of : Gpt → Option Extent → ℕ
end_of g none = 0
end_of g (some (first, last, number)) = (last + 1) * g.sector_size

range-IfOk :
    (first last : ℕ) (h : Header) (previous : Option Extent)
    → IfOk
        (λ _. (first ≤ last) × (h.first_usable ≤ first) × (last ≤ h.last_usable))
        (check_entry_range first last h previous)
unfolding check_entry_range
range-IfOk first last h previous = ground arith

order-IfOk :
    (first last : ℕ) (h : Header) (a b n : ℕ)
    → IfOk (λ _. b < first) (check_entry_range first last h (some (a, b, n)))
unfolding check_entry_range
order-IfOk first last h a b n = ground arith

project_entry-IfOk :
    (entry : Bytes) (number first last sector_size : ℕ)
    → IfOk
        (λ p.
          (p.number ≡ number)
          × (p.size_bytes ≡ (last - first + 1) * sector_size)
          × (p.start_bytes ≡ first * sector_size)
          × (p.start_bytes % alignment ≡ 0))
        (project_entry entry number first last sector_size)
unfolding project_entry
project_entry-IfOk entry number first last sector_size = ground arith

-- What the range tests mean in bytes.
bytes_in_range :
    (first last lo hi s : ℕ)
    → first ≤ last
    → lo ≤ first
    → last ≤ hi
    → (s ≤ (last - first + 1) * s)
      × (lo * s ≤ first * s)
      × (first * s + (last - first + 1) * s ≡ (last + 1) * s)
      × ((last + 1) * s ≤ (hi + 1) * s)
bytes_in_range first last lo hi s a b c =
    let whole : first + (last - first + 1) ≡ last + 1 = omega arith in
    (grind arith, grind arith, omega (arith, ap (λ (t : ℕ). t * s) whole), grind arith)

after : (b first s : ℕ) → b < first → (b + 1) * s ≤ first * s
after b first s h = grind arith

abbrev number_of : Option Extent → ℕ
number_of none = 0
number_of (some (first, last, number)) = number

-- One entry: its partition lies where its extent says, at or after the end of the one before.
abbrev Entry : Gpt → ℕ → Option Extent → Extent × Partition → Type 0
Entry g number previous (extent, p) =
    (extent.2 ≡ number)
    × (p.number ≡ number)
    × IsPlaced g p
    × (end_of g previous ≤ p.start_bytes)
    × (p.start_bytes + p.size_bytes ≡ end_of g (some extent))

entry-IsPlaced :
    (g : Gpt) (p : Partition) (first last : ℕ)
    → first ≤ last
    → g.primary.first_usable ≤ first
    → last ≤ g.primary.last_usable
    → p.size_bytes ≡ (last - first + 1) * g.sector_size
    → p.start_bytes ≡ first * g.sector_size
    → p.start_bytes % alignment ≡ 0
    → IsPlaced g p × (p.start_bytes + p.size_bytes ≡ (last + 1) * g.sector_size)
entry-IsPlaced g p first last a b c size start aligned =
    let (nonempty, lo, extent, hi) =
      bytes_in_range first last g.primary.first_usable g.primary.last_usable g.sector_size a b c in
    (
      record {
        aligned = aligned;
        nonempty = omega (arith, nonempty, size);
        starts = omega (arith, lo, start);
        ends = omega (arith, size, start, extent, hi);
      },
      omega (arith, size, start, extent),
    )

starts_after :
    (g : Gpt) (first last : ℕ) (h : Header) (previous : Option Extent)
    → IfOk
        (λ _. end_of g previous ≤ first * g.sector_size)
        (check_entry_range first last h previous)
starts_after g first last h none =
    IfOk-intro _ (check_entry_range first last h none) (λ _ _. omega arith)
starts_after g first last h (some (a, b, n)) =
    IfOk-intro _ (check_entry_range first last h (some (a, b, n))) (λ _ e.
      after b first g.sector_size (
        IfOk-ok _ (check_entry_range first last h (some (a, b, n))) e
          (order-IfOk first last h a b n)))

scan_entry-Entry :
    (g : Gpt) (versioned : Bool) (entry : Bytes) (number : ℕ) (previous : Option Extent)
    → IfOk (Entry g number previous) (scan_entry g versioned entry number previous)
unfolding scan_entry
scan_entry-Entry g versioned entry number previous =
    let first = unpack 8 32 entry in
    let last = unpack 8 40 entry in
    IfOk-bind (λ _. check_entry_range first last g.primary previous ≡ ok tt)
      (Entry g number previous) (check_entry_range first last g.primary previous) _
      (IfOk-intro _ (check_entry_range first last g.primary previous) (λ _ e. e))
      λ _ e.
        IfOk-bind _ (Entry g number previous) (project_entry entry number first last g.sector_size)
          _ (project_entry-IfOk entry number first last g.sector_size)
          λ p (num, size, start, aligned).
            let (a, b, c) = IfOk-ok _ _ e (range-IfOk first last g.primary previous) in
            let begins = IfOk-ok _ _ e (starts_after g first last g.primary previous) in
            let (placed, ends) = entry-IsPlaced g p first last a b c size start aligned in
            elim (Bool-cases versioned) [
              | inl v ↦ rw v (
                refl,
                num,
                record {
                  aligned = placed.aligned;
                  nonempty = placed.nonempty;
                  starts = placed.starts;
                  ends = placed.ends;
                },
                omega (arith, begins, start),
                ends,
              )
              | inr v ↦ rw v (refl, num, placed, omega (arith, begins, start), ends)
            ]

scan-InOrder :
    (left slot : ℕ) (g : Gpt) (versioned : Bool) (previous : Option Extent)
    → number_of previous ≤ slot
    → IfOk
        (λ ps. All (IsPlaced g) ps × InOrder (end_of g previous) (number_of previous) ps)
        (scan left slot g versioned previous)
unfolding scan
scan-InOrder zero slot g versioned previous h = (tt, tt)
scan-InOrder (suc left) slot g versioned previous h =
    let entry = slice (slot * g.primary.entry_size) g.primary.entry_size g.primary.array in
    elim (Bool-cases (text_eq (slice 0 16 entry) (zeros 16))) [
      | inl unused ↦ rw unused (scan-InOrder left (slot + 1) g versioned previous (omega arith))
      | inr used ↦ rw used (
          IfOk-bind (Entry g (slot + 1) previous) _
            (scan_entry g versioned entry (slot + 1) previous) _
            (scan_entry-Entry g versioned entry (slot + 1) previous)
            λ (extent, p) (at, number, placed, begins, ends).
              IfOk-bind _ _ (scan left (slot + 1) g versioned (some extent)) _
                (scan-InOrder left (slot + 1) g versioned (some extent) (omega (arith, at)))
                λ ps (all, order). (
                  (placed, all),
                  (
                    begins,
                    omega (arith, number),
                    subst₂ (λ e n. InOrder e n ps) (sym ends) (at ∙ sym number) order,
                  ),
                ))
    ]

usable_inside : (u l s n : ℕ) → l ≤ n / s → u < l → (u + 1) * s ≤ n
usable_inside u l s n a b =
    le_trans (mul-le-mul {n₂ = n / s} (omega arith) (le_refl s)) (div-mul-le_self n s)

-- The partitions that `project_image` returns for an accepted GPT are aligned to 1 MiB, hold at
-- least a sector each, lie in the usable range and in the image, and stand in the order of their
-- numbers without an overlap: each begins at or after the end of the one before.
pub project_image-InOrder :
    (crc32 : Bytes → ℕ) (image : Bytes) (firmware : Text) (slot_label : Option Text) (m : Metadata)
    → project_image crc32 image firmware slot_label ≡ ok m
    → InOrder 0 0 m.partitions
      × ((g : Gpt) × (validated_gpt crc32 image ≡ ok g)
          × (m.sector_size ≡ g.sector_size)
          × All (λ p. IsPlaced g p × (p.start_bytes + p.size_bytes ≤ length image)) m.partitions)
unfolding project_image
project_image-InOrder crc32 image firmware slot_label m e =
    let (g, accepted, e₁) = >>=-eq-ok (validated_gpt crc32 image) _ e in
    let (ps, scanned, e₂) = >>=-eq-ok (scan g.primary.count 0 g (is_some slot_label) none) _ e₁ in
    let (_, _, e₃) = >>=-eq-ok (validate_roots ps slot_label) _ e₂ in
    let (_, _, e₄) = >>=-eq-ok (validate_firmware ps firmware) _ e₃ in
    let valid = IfOk-ok (IsGpt image) _ accepted (validated_gpt-IsGpt crc32 image) in
    let (all, order) =
      IfOk-ok _ (scan g.primary.count 0 g (is_some slot_label) none) scanned
        (scan-InOrder g.primary.count 0 g (is_some slot_label) none (omega arith)) in
    let parts : ps ≡ m.partitions = ground arith in
    (
      subst (InOrder 0 0) parts order,
      (
        g,
        accepted,
        ground arith,
        subst (All _) parts (
            All-intro _ ps (λ p k.
              let placed = All-Elem (IsPlaced g) ps all p k in
              (
                placed,
                omega (
                  arith,
                  placed.ends,
                  usable_inside g.primary.last_usable (length image / g.sector_size - 1)
                      g.sector_size (length image) (omega arith) valid.primary.usable_end,
                ),
              ))),
      ),
    )
