-- ===== src/Gpt/Canonical/Hashing.antt =====
-- Hashing with patches is hashing the patched image.
use rules_mkosi.Prelude.{
  ℕ, zero, suc, ◌+◌, ◌-◌, ◌≤◌, ◌≡◌, ap, ◌∙◌, false, List, [], ◌∷◌, ◌++◌, append_assoc, append-nil,
  length, take, drop, ltb, ◌==◌, ok, min, arith, length-append, length-take, length-drop, take_all,
  drop-drop, take-take-drop, take-append_ge, drop-append_ge,
}
use mathlib.Core.Path.{subst₂}
use native.Mathlib.Nat.{add_assoc}
use rules_mkosi.Prelude.Bytes.{Bytes, put}
use rules_mkosi.Gpt.Canonical.{hash_chunk_bytes, hash_bytes, Patch, hash_patches}

-- Feeding `size` bytes in chunks feeds them all, if the image has so many left.
pub hash_bytes_lem :
    (fuel : ℕ) (rest fed : Bytes) (size : ℕ)
    → size ≤ fuel
    → size ≤ length rest
    → hash_bytes fuel rest fed size ≡ ok (drop size rest, fed ++ take size rest)
unfolding hash_bytes
hash_bytes_lem zero rest fed zero h k = rw append-nil
hash_bytes_lem (suc fuel) rest fed zero h k = rw append-nil
hash_bytes_lem zero rest fed (suc size) h k = absurd (omega arith)
hash_bytes_lem (suc fuel) rest fed (suc size) h k =
    let n = min hash_chunk_bytes (suc size) in
    let chunk_length : length (take n rest) ≡ n = omega (arith, length-take n rest) in
    let sum : n + (suc size - n) ≡ suc size = omega arith in
    let nonzero : (length (take n rest) == 0) ≡ false = ground arith in
    rw (nonzero, chunk_length)
      (hash_bytes_lem fuel (drop n rest) (fed ++ take n rest) (suc size - n) (omega arith)
          (omega (arith, length-drop n rest))
        ∙ rw (drop-drop, append_assoc, take-take-drop, sum))

-- The image with each patch written over it.
pub apply_patches : Bytes → List Patch → Bytes
apply_patches image [] = image
apply_patches image ((offset, value) ∷ patches) = apply_patches (put offset value image) patches

-- The patches are in order from the cursor on, do not overlap and end in the image.
abbrev pub Fits : ℕ → ℕ → List Patch → Type 0
Fits size cursor [] = cursor ≤ size
Fits size cursor ((offset, value) ∷ patches) =
    (cursor ≤ offset) × (offset + length value ≤ size) × Fits size (offset + length value) patches

split_offset : (n m : ℕ) → m ≤ n → n ≡ m + (n - m)
split_offset n m h = omega arith

-- One patch, from a cursor: what was fed, the bytes up to the patch, and the patch.
put_step :
    (fed rest v : Bytes) (k : ℕ)
    → put (length fed + k) v (fed ++ rest)
      ≡ ((fed ++ take k rest) ++ v) ++ drop (length v) (drop k rest)
unfolding put
put_step fed rest v k =
    rw
      (
        take-append_ge fed rest k,
        ap (λ n. drop n (fed ++ rest)) (add_assoc (length fed) k (length v)),
        drop-append_ge fed rest (k + length v),
        drop-drop,
        append_assoc,
      )
      (simp append_assoc)

-- From a cursor after what was fed, the loop feeds the patched image.
pub hash_patches-apply :
    (patches : List Patch) (fed rest : Bytes)
    → Fits (length (fed ++ rest)) (length fed) patches
    → hash_patches (length (fed ++ rest)) patches (length fed) rest fed
      ≡ ok (apply_patches (fed ++ rest) patches)
unfolding hash_patches apply_patches
hash_patches-apply [] fed rest h =
    let left = length (fed ++ rest) - length fed in
    let all_left : left ≡ length rest = omega (arith, length-append {0} fed rest) in
    rw (
      hash_bytes_lem left rest fed left (omega arith) (omega arith),
      take_all left rest (omega arith),
    )
hash_patches-apply ((offset, v) ∷ patches) fed rest (a, b, c) =
    let k = offset - length fed in
    let fed' = (fed ++ take k rest) ++ v in
    let rest' = drop (length v) (drop k rest) in
    let room : k + length v ≤ length rest = omega (arith, length-append {0} fed rest) in
    let written : put offset v (fed ++ rest) ≡ fed' ++ rest' =
      ap (λ n. put n v (fed ++ rest)) (split_offset offset (length fed) a)
      ∙ put_step fed rest v k in
    let cursor : length fed' ≡ offset + length v = omega (
      arith,
      length-append {0} (fed ++ take k rest) v,
      length-append {0} fed (take k rest),
      length-take {0} k rest,
    ) in
    let size : length (fed' ++ rest') ≡ length (fed ++ rest) = omega (
      arith,
      cursor,
      length-append {0} fed' rest',
      length-append {0} fed rest,
      length-drop {0} (length v) (drop k rest),
      length-drop {0} k rest,
    ) in
    let rest_of_loop =
      subst₂
        (λ n m.
          Fits n m patches
          → hash_patches n patches m rest' fed' ≡ ok (apply_patches (fed' ++ rest') patches))
        size cursor (hash_patches-apply patches fed' rest') c in
    let in_order : ltb offset (length fed) ≡ false = ground arith in
    rw (in_order, hash_bytes_lem k rest fed k (omega arith) (omega arith), written) rest_of_loop
