-- ===== src/Esp/Only.antt =====
-- The EFI system partition that `_find_esp` finds.
use rules_mkosi.Prelude.{
  ℕ, ◌+◌, ◌-◌, ◌*◌, ◌≤◌, ◌<◌, ◌≡◌, refl, sym, ap, ◌⊎◌, ◌↔◌, inl, inr, Bool-cases, All, IfOk-ok,
  true, false, leb, ltb, List, [], ◌∷◌, length, ok, guard, ◌&&◌, >>=-eq-ok, arith,
}
use rules_mkosi.Prelude.Text.{text_eq, text_eq_iff}
use rules_mkosi.Prelude.Bytes.{Bytes, slice, unpack}
use rules_mkosi.Gpt.Partitions.{guid_text}
use rules_mkosi.Esp.Error.{EspError, esp_outside}
use rules_mkosi.Esp.Image.{
  Partition, esp_type_guid, find_esp, gpt_sector_size, gpt_entries, only_esp, esps_of,
}
use rules_mkosi.Esp.Bounds.{IsInside, find_esp-IsInside}

-- An entry of the EFI system partition's type.
abbrev pub IsEsp : Bytes → Type 0
IsEsp entry = guid_text (slice 0 16 entry) ≡ esp_type_guid

-- The partition from an entry's first to its last sector.
abbrev pub partition_of : ℕ → Bytes → Partition
partition_of sector_size entry = record {
  offset = unpack 8 32 entry * sector_size;
  size = (unpack 8 40 entry + 1 - unpack 8 32 entry) * sector_size;
  sector_size = sector_size;
}

-- One entry has the type, and the partition is that entry's.
abbrev pub OneEsp : ℕ → List Bytes → Partition → Type 0
OneEsp n [] p = ⊥
OneEsp n (entry ∷ entries) p =
    (IsEsp entry × (partition_of n entry ≡ p) × All (λ other. ¬ IsEsp other) entries)
    ⊎ ((¬ IsEsp entry) × OneEsp n entries p)

-- The only EFI system partition among the entries of the image's GPT.
abbrev pub IsOnlyEsp : (Bytes → ℕ) → Bytes → Partition → Type 0
IsOnlyEsp crc32 image p =
    (n : ℕ) × (entries : List Bytes) × (gpt_sector_size image ≡ ok n)
    × (gpt_entries crc32 image n ≡ ok entries)
    × OneEsp n entries p

only_esp_iff : (ps : List Partition) (p : Partition) → (only_esp ps ≡ ok p) ↔ (ps ≡ p ∷ [])
unfolding only_esp
only_esp_iff [] p = (λ e. cc, λ e. cc)
only_esp_iff (q ∷ []) p = (λ e. ground arith, λ e. ground arith)
only_esp_iff (q ∷ r ∷ ps) p = (λ e. cc, λ e. absurd (ground arith))

cons-parts : (q p : Partition) (ps : List Partition) → q ∷ ps ≡ p ∷ [] → (q ≡ p) × (ps ≡ [])
cons-parts q p ps e = ground arith

other_type :
    (entry : Bytes) → text_eq (guid_text (slice 0 16 entry)) esp_type_guid ≡ false → ¬ IsEsp entry
other_type entry differ same =
    let equal = (text_eq_iff (guid_text (slice 0 16 entry)) esp_type_guid).1 same in
    absurd (ground arith)

no_esps_iff :
    (n : ℕ) (entries : List Bytes) → (esps_of n entries ≡ []) ↔ All (λ other. ¬ IsEsp other) entries
unfolding esps_of
no_esps_iff n [] = (λ e. tt, λ h. refl)
no_esps_iff n (entry ∷ entries) =
    elim (Bool-cases (text_eq (guid_text (slice 0 16 entry)) esp_type_guid)) [
      | inl esp ↦ rw esp (
        λ e. absurd (ground arith),
        λ (h, _). absurd (h ((text_eq_iff (guid_text (slice 0 16 entry)) esp_type_guid).0 esp)),
      )
      | inr other ↦ rw other (
        λ e. (other_type entry other, (no_esps_iff n entries).0 e),
        λ (_, h). (no_esps_iff n entries).1 h,
      )
    ]

OneEsp-iff :
    (n : ℕ) (entries : List Bytes) (p : Partition)
    → (esps_of n entries ≡ p ∷ []) ↔ OneEsp n entries p
unfolding esps_of
OneEsp-iff n [] p = (λ e. absurd (ground arith), λ h. absurd h)
OneEsp-iff n (entry ∷ entries) p =
    elim (Bool-cases (text_eq (guid_text (slice 0 16 entry)) esp_type_guid)) [
      | inl esp ↦
          let is_esp = (text_eq_iff (guid_text (slice 0 16 entry)) esp_type_guid).0 esp in
          rw esp (
            λ e.
                let (same, none_more) = cons-parts (partition_of n entry) p (esps_of n entries) e in
                inl (is_esp, same, (no_esps_iff n entries).0 none_more),
            λ h. elim h [
              | inl (_, same, none_more) ↦
                  let nothing = (no_esps_iff n entries).1 none_more in rw (nothing, same) refl
              | inr (differ, _) ↦ absurd (differ is_esp)
            ],
          )
      | inr other ↦ rw other (
        λ e. inr (other_type entry other, (OneEsp-iff n entries p).0 e),
        λ h. elim h [
          | inl (is_esp, _, _) ↦ absurd (other_type entry other is_esp)
          | inr (_, more) ↦ (OneEsp-iff n entries p).1 more
        ],
      )
    ]

inside_passes :
    (n start size len : ℕ)
    → 2 * n ≤ start
    → 0 < size
    → start + size ≤ len
    → (leb (2 * n) start && ltb 0 size && leb (start + size) len) ≡ true
inside_passes n start size len h k l = ground arith

OneEsp-sector :
    (n : ℕ) (entries : List Bytes) (p : Partition) → OneEsp n entries p → p.sector_size ≡ n
OneEsp-sector n [] p h = absurd h
OneEsp-sector n (entry ∷ entries) p (inl (_, same, _)) =
    ap (λ (q : Partition). q.sector_size) (sym same)
OneEsp-sector n (entry ∷ entries) p (inr (_, h)) = OneEsp-sector n entries p h

pub find_esp_iff :
    (crc32 : Bytes → ℕ) (image : Bytes) (p : Partition)
    → (find_esp crc32 image ≡ ok p) ↔ (IsOnlyEsp crc32 image p × IsInside image p)
unfolding find_esp
find_esp_iff crc32 image p = (
  λ e.
      let (n, sector, e₁) = >>=-eq-ok (gpt_sector_size image) _ e in
      let (entries, array, e₂) = >>=-eq-ok (gpt_entries crc32 image n) _ e₁ in
      let (q, chosen, e₃) = >>=-eq-ok (only_esp (esps_of n entries)) _ e₂ in
      let (_, _, e₄) =
        >>=-eq-ok
          (guard (leb (2 * n) q.offset && ltb 0 q.size && leb (q.offset + q.size) (length image))
            esp_outside)
          _ e₃ in
      let one = (OneEsp-iff n entries q).0 ((only_esp_iff (esps_of n entries) q).0 chosen) in
      (
        IfOk-ok {E = EspError} (IsOnlyEsp crc32 image) (ok q) e₄ (n, entries, sector, array, one),
        find_esp-IsInside crc32 image p e,
      ),
  λ ((n, entries, sector, array, one), inside).
      let chosen = (only_esp_iff (esps_of n entries) p).1 ((OneEsp-iff n entries p).1 one) in
      let fits =
        inside_passes n p.offset p.size (length image)
          (omega (arith, inside.start, OneEsp-sector n entries p one)) inside.size_pos inside.end in
      rw (sector, array, chosen, fits) refl,
)
