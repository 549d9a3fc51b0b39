-- ===== src/Verity/Slots.antt =====
-- The block sizes and slots that `_slot_size` accepts.
use native.Mathlib.Nat.{pow-suc, lt-div-mul-add}
use rules_mkosi.Prelude.{
  ℕ, zero, suc, ◌+◌, ◌-◌, ◌*◌, ◌/◌, ◌%◌, ◌^◌, ◌≤◌, ◌<◌, ◌≡◌, refl, sym, ap, ◌∙◌, subst, Bool, false,
  not, ◌||◌, if◌then◌else◌, ltb, ◌==◌, ok, err, arith, Bool-cases, inl, inr,
}
use rules_mkosi.Verity.Error.{VerityError}
use rules_mkosi.Verity.Geometry.{bit_and, below_bits, bit_length, slot_of, slot_size}

abbrev pub IsPowerOfTwo : ℕ → Type 0
IsPowerOfTwo n = (k : ℕ) × (n ≡ 2 ^ k)

bit_length-suc : (fuel x : ℕ) → bit_length (suc fuel) (suc x) ≡ suc (bit_length fuel (suc x / 2))
unfolding bit_length
bit_length-suc fuel x = ground arith

-- A number of `b` bits is below `2 ^ b`, and no lower power of two bounds it.
bit_length_bounds :
    (fuel x : ℕ)
    → x ≤ fuel
    → (x < 2 ^ bit_length fuel x) × (2 ^ bit_length fuel x ≤ 2 * x + (1 - x))
unfolding bit_length
bit_length_bounds zero zero h = (omega arith, omega arith)
bit_length_bounds zero (suc x) h = absurd (omega arith)
bit_length_bounds (suc fuel) zero h = (omega arith, omega arith)
bit_length_bounds (suc fuel) (suc x) h =
    let (above, below) = bit_length_bounds fuel (suc x / 2) (omega arith) in
    let power : 2 ^ bit_length (suc fuel) (suc x) ≡ 2 ^ bit_length fuel (suc x / 2) * 2 =
      ap (λ n. 2 ^ n) (bit_length-suc fuel x) ∙ pow-suc 2 (bit_length fuel (suc x / 2)) in
    (omega (arith, power, above), omega (arith, power, below))

square_bit : (b : ℕ) → b < 2 → b * b ≡ b
square_bit zero h = refl
square_bit (suc zero) h = refl
square_bit (suc (suc b)) h = absurd (omega arith)

-- The bits that a number has in common with itself are its own.
bit_and_self : (fuel x : ℕ) → x ≤ fuel → bit_and fuel x x ≡ x
unfolding bit_and
bit_and_self zero x h = omega arith
bit_and_self (suc fuel) x h =
    omega (arith, square_bit (x % 2) (omega arith), bit_and_self fuel (x / 2) (omega arith))

-- A positive number with `x & (x - 1) == 0` is a power of two.
bit_and-IsPowerOfTwo : (fuel x : ℕ) → x ≤ fuel → 1 ≤ x → bit_and fuel x (x - 1) ≡ 0 → IsPowerOfTwo x
unfolding bit_and
bit_and-IsPowerOfTwo zero x h k e = absurd (omega arith)
bit_and-IsPowerOfTwo (suc fuel) x h k e = elim (Bool-cases (x % 2 == 0)) [
  | inl even ↦
      let halves : (x - 1) / 2 ≡ x / 2 - 1 = ground arith in
      let rest : bit_and fuel (x / 2) (x / 2 - 1) ≡ 0 =
        subst (λ y. bit_and fuel (x / 2) y ≡ 0) halves (omega arith) in
      let (i, power) = bit_and-IsPowerOfTwo fuel (x / 2) (omega arith) (ground arith) rest in
      (suc i, ground (arith, power, pow-suc 2 i))
  | inr odd ↦
      let halves : (x - 1) / 2 ≡ x / 2 = ground arith in
      let rest : bit_and fuel (x / 2) (x / 2) ≡ 0 =
        subst (λ y. bit_and fuel (x / 2) y ≡ 0) halves (omega arith) in
      (0, ground (arith, rest, bit_and_self fuel (x / 2) (omega arith)))
]

three_tests :
    (a b c : Bool) (p q r : VerityError) (x y : ℕ)
    → (if a then err p else if b then err q else if c then err r else ok x) ≡ ok y
    → (a ≡ false) × (b ≡ false) × (c ≡ false) × (x ≡ y)
three_tests a b c p q r x y e = ground arith

range_test :
    (x lo hi bits : ℕ) → (ltb x lo || ltb hi x || not (bits == 0)) ≡ false → (lo ≤ x) × (bits ≡ 0)
range_test x lo hi bits e = ground arith

slot_test : (h s : ℕ) → (ltb h s || not (h % s == 0)) ≡ false → (s ≤ h) × (h % s ≡ 0)
slot_test h s e = ground arith

slot_size-checks :
    (d h n slot : ℕ)
    → slot_size d h n ≡ ok slot
    → (512 ≤ d)
      × (below_bits d ≡ 0)
      × (n ≤ h)
      × (below_bits h ≡ 0)
      × (slot ≤ h)
      × (h % slot ≡ 0)
      × (slot_of n ≡ slot)
unfolding slot_size
slot_size-checks d h n slot e =
    let (a, b, c, same) = three_tests _ _ _ _ _ _ (slot_of n) slot e in
    let (large, data_bits) = range_test d 512 1048576 (below_bits d) a in
    let (room, hash_bits) = range_test h n 1048576 (below_bits h) b in
    let (fits, whole) = slot_test h (slot_of n) c in
    (
      large,
      data_bits,
      room,
      hash_bits,
      omega (arith, fits, same),
      subst (λ s. h % s ≡ 0) same whole,
      same,
    )

at_least_one : (q s h : ℕ) → h < q * s + s → s ≤ h → 1 ≤ q
at_least_one zero s h a b = absurd (omega arith)
at_least_one (suc q) s h a b = omega arith

quotient_pos : (h s : ℕ) → 1 ≤ s → s ≤ h → 1 ≤ h / s
quotient_pos h s a b = at_least_one (h / s) s h (lt-div-mul-add {a = h} (omega arith)) b

-- If `_slot_size` accepts the sizes of a nonempty digest, both block sizes are powers of two, a
-- slot is the least power of two that holds a digest, and slots fill a hash block exactly.
pub slot_size_sound :
    (data_block_size hash_block_size digest_size slot : ℕ)
    → 1 ≤ digest_size
    → slot_size data_block_size hash_block_size digest_size ≡ ok slot
    → IsPowerOfTwo data_block_size
      × IsPowerOfTwo hash_block_size
      × IsPowerOfTwo slot
      × (digest_size ≤ slot)
      × (slot < 2 * digest_size)
      × (hash_block_size % slot ≡ 0)
      × (1 ≤ hash_block_size / slot)
unfolding slot_of below_bits
slot_size_sound d h zero slot k e = absurd (omega arith)
slot_size_sound d h (suc n) slot k e =
    let (above, below) = bit_length_bounds n n (omega arith) in
    let (large, data_bits, room, hash_bits, fits, whole, same) =
      slot_size-checks d h (suc n) slot e in
    (
      bit_and-IsPowerOfTwo d d (omega arith) (omega arith) data_bits,
      bit_and-IsPowerOfTwo h h (omega arith) (omega arith) hash_bits,
      (bit_length n n, sym same),
      omega (arith, above, same),
      omega (arith, below, same),
      whole,
      quotient_pos h slot (omega (arith, above, same)) fits,
    )
