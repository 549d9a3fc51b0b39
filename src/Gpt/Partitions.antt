-- ===== src/Gpt/Partitions.antt =====
-- The partition table of a validated GPT: `_validate_ab_slots` to `project_image` of
-- mkosi/private/partition_metadata.py, with the constants of mkosi/private/gpt_partitions.py.
pub mod Layout
use rules_mkosi.Prelude.{
  ℕ, zero, suc, ◌+◌, ◌-◌, ◌*◌, ◌/◌, ◌%◌, Bool, true, false, not, ◌&&◌, ◌||◌, List, [], ◌∷◌, ◌++◌,
  Option, none, some, length, take, drop, ltb, leb, ◌==◌, if◌then◌else◌, Outcome, ok, err, guard,
  ◌>>=◌, ◌>>◌,
}
use rules_mkosi.Prelude.Text.{Text, codes, text_eq}
use rules_mkosi.Prelude.Bytes.{Bytes, slice, zeros, unpack}
use rules_mkosi.Gpt.Error.{
  GptError, invalid_range, outside_usable, out_of_order, overlap, unaligned, invalid_label,
  populated_slot, inactive_slot_too_small, root_count, root_label, unknown_firmware,
  bios_boot_count, bios_boot_size,
}
use rules_mkosi.Gpt.Header.{Header, Gpt, validated_gpt}

abbrev pub alignment : ℕ
alignment = 1024 * 1024

abbrev pub root_x86_64 : Text
root_x86_64 = codes "4f68bce3-e8cd-4db1-96e7-fbcaf984b709"

abbrev pub root_x86_64_verity : Text
root_x86_64_verity = codes "2c7357ed-ebd2-46d9-aec1-23d437ec2bf5"

abbrev pub root_x86_64_verity_sig : Text
root_x86_64_verity_sig = codes "41092b05-9fc8-4523-994f-2def0408b176"

abbrev pub bios_boot : Text
bios_boot = codes "21686148-6449-6e6f-744e-656564454649"

abbrev pub empty_slot_label : Text
empty_slot_label = codes "_empty"

-- `_project_entry` returns such a record; `uuid` is set for versioned A/B images only.
pub record Partition : Type 0 where
  pub label : Text
  pub number : ℕ
  pub size_bytes : ℕ
  pub start_bytes : ℕ
  pub type_guid : Text
  pub uuid : Option Text

-- `entry.decode("utf-16-le")`; `none` is a `UnicodeDecodeError`.
unfoldable pub decode_utf16 : Bytes → Option Text
decode_utf16 [] = some []
decode_utf16 (lo ∷ []) = none
decode_utf16 (lo ∷ hi ∷ []) =
    let unit = lo + 256 * hi in
    if leb 0xd800 unit && leb unit 0xdfff then none else some (unit ∷ [])
decode_utf16 (lo ∷ hi ∷ odd ∷ []) = none
decode_utf16 (lo ∷ hi ∷ lo' ∷ hi' ∷ rest) =
    let unit = lo + 256 * hi in
    let next = lo' + 256 * hi' in
    let single = decode_utf16 (lo' ∷ hi' ∷ rest) in
    let paired = decode_utf16 rest in
    if leb 0xd800 unit && leb unit 0xdbff
    then (if leb 0xdc00 next && leb next 0xdfff
        then elim paired [
          | none ↦ none
          | some t ↦ some ((0x10000 + (unit - 0xd800) * 1024 + (next - 0xdc00)) ∷ t)
        ]
        else none)
    else if leb 0xdc00 unit && leb unit 0xdfff
    then none
    else elim single [ none ↦ none | some t ↦ some (unit ∷ t) ]

-- `text.split("\0", 1)[0]`
unfoldable pub until_nul : Text → Text
until_nul [] = []
until_nul (c ∷ s) = let rest = until_nul s in if c == 0 then [] else c ∷ rest

unfoldable pub hex_digit : ℕ → ℕ
hex_digit n = if ltb n 10 then b'0' + n else b'a' + (n - 10)

unfoldable pub hex : Bytes → Text
unfolding hex_digit
hex [] = []
hex (b ∷ bs) = hex_digit (b / 16 % 16) ∷ hex_digit (b % 16) ∷ hex bs

unfoldable pub reversed : Bytes → Bytes
reversed [] = []
reversed (b ∷ bs) = reversed bs ++ b ∷ []

-- `str(uuid.UUID(bytes_le=bytes))`
unfoldable pub guid_text : Bytes → Text
unfolding hex reversed
guid_text bytes =
    hex (reversed (slice 0 4 bytes))
    ++ (b'-' ∷ hex (reversed (slice 4 2 bytes)))
    ++ (b'-' ∷ hex (reversed (slice 6 2 bytes)))
    ++ (b'-' ∷ hex (slice 8 2 bytes))
    ++ (b'-' ∷ hex (slice 10 6 bytes))

-- The extent and the number of the previous populated entry.
abbrev pub Extent : Type 0
Extent = ℕ × ℕ × ℕ

-- `_check_entry_range`
unfoldable pub check_order : ℕ → Option Extent → Outcome GptError (Unit {0})
check_order first none = ok tt
check_order first (some (previous_first, previous_last, previous_number)) =
    if ltb first previous_first
    then err out_of_order
    else if leb first previous_last
    then err overlap
    else ok tt

unfoldable pub check_entry_range : ℕ → ℕ → Header → Option Extent → Outcome GptError (Unit {0})
unfolding check_order
check_entry_range first last primary previous =
    if ltb last first
    then err invalid_range
    else if ltb first primary.first_usable || ltb primary.last_usable last
    then err outside_usable
    else check_order first previous

-- `_project_entry`
unfoldable pub project_entry : Bytes → ℕ → ℕ → ℕ → ℕ → Outcome GptError Partition
project_entry entry number first last sector_size =
    let start_bytes = first * sector_size in
    if start_bytes % alignment == 0
    then elim (decode_utf16 (slice 56 72 entry)) [
      | none ↦ err invalid_label
      | some label ↦ ok (record {
        label = until_nul label;
        number = number;
        size_bytes = (last - first + 1) * sector_size;
        start_bytes = start_bytes;
        type_guid = guid_text (slice 0 16 entry);
        uuid = none;
      })
    ]
    else err unaligned

-- One round of the loop of `project_image` for a populated entry.
unfoldable pub scan_entry :
    Gpt → Bool → Bytes → ℕ → Option Extent → Outcome GptError (Extent × Partition)
unfolding check_entry_range project_entry unpack
scan_entry g versioned entry number previous = do
  let first = unpack 8 32 entry
  let last = unpack 8 40 entry
  check_entry_range first last g.primary previous
  partition ← project_entry entry number first last g.sector_size
  ok (
    (first, last, number),
    (if versioned
        then record partition { uuid = some (guid_text (slice 16 16 entry)) }
        else partition),
  )

-- The loop of `project_image` over the slots that are left.
unfoldable pub scan : ℕ → ℕ → Gpt → Bool → Option Extent → Outcome GptError (List Partition)
unfolding scan_entry text_eq
scan zero slot g versioned previous = ok []
scan (suc left) slot g versioned previous =
    let entry = slice (slot * g.primary.entry_size) g.primary.entry_size g.primary.array in
    let skipped = scan left (slot + 1) g versioned previous in
    let used = (do
      (extent, partition) ← scan_entry g versioned entry (slot + 1) previous
      rest ← scan left (slot + 1) g versioned (some extent)
      ok (partition ∷ rest)) in
    if text_eq (slice 0 16 entry) (zeros 16) then skipped else used

unfoldable pub of_type : Text → List Partition → List Partition
unfolding text_eq
of_type type_guid [] = []
of_type type_guid (p ∷ ps) =
    let rest = of_type type_guid ps in if text_eq p.type_guid type_guid then p ∷ rest else rest

-- The entries labelled as an inactive slot, or the others.
unfoldable pub with_inactive : Bool → List Partition → List Partition
unfolding text_eq
with_inactive inactive [] = []
with_inactive inactive (p ∷ ps) =
    let rest = with_inactive inactive ps in
    if text_eq p.label empty_slot_label
    then (if inactive then p ∷ rest else rest)
    else if inactive
    then rest
    else p ∷ rest

unfoldable pub any_smaller : ℕ → List Partition → Bool
any_smaller size [] = false
any_smaller size (p ∷ ps) = ltb p.size_bytes size || any_smaller size ps

-- One round of `_validate_ab_slots`: the slots of one type.
unfoldable pub validate_slot : List Partition → Text → Text → Outcome GptError (Unit {0})
unfolding of_type with_inactive any_smaller
validate_slot partitions type_guid label =
    let slots = of_type type_guid partitions in
    elim (with_inactive false slots) [
      | [] ↦ err populated_slot
      | p ∷ [] ↦
          if text_eq p.label label
          then (if any_smaller p.size_bytes (with_inactive true slots)
              then err inactive_slot_too_small
              else ok tt)
          else err populated_slot
      | p ∷ q ∷ more ↦ err populated_slot
    ]

-- `_validate_ab_slots`
unfoldable pub validate_ab_slots : List Partition → Text → Outcome GptError (Unit {0})
unfolding validate_slot
validate_ab_slots partitions slot_label =
    validate_slot partitions root_x86_64 slot_label
    >> validate_slot partitions root_x86_64_verity (slot_label ++ codes "_verity")

-- `_validate_roots`
unfoldable pub validate_roots : List Partition → Option Text → Outcome GptError (Unit {0})
unfolding validate_ab_slots of_type text_eq
validate_roots partitions (some slot_label) = validate_ab_slots partitions slot_label
validate_roots partitions none = elim (of_type root_x86_64 partitions) [
  | [] ↦ err root_count
  | p ∷ [] ↦ if text_eq p.label (codes "root-x86-64") then ok tt else err root_label
  | p ∷ q ∷ more ↦ err root_count
]

-- `_validate_firmware`
unfoldable pub validate_firmware : List Partition → Text → Outcome GptError (Unit {0})
unfolding of_type text_eq
validate_firmware partitions firmware =
    if text_eq firmware (codes "uefi")
    then ok tt
    else if text_eq firmware (codes "bios")
    then elim (of_type bios_boot partitions) [
      | [] ↦ err bios_boot_count
      | p ∷ [] ↦ if ltb p.size_bytes alignment then err bios_boot_size else ok tt
      | p ∷ q ∷ more ↦ err bios_boot_count
    ]
    else err unknown_firmware

-- What `project_image` returns, without its constant format version.
pub record Metadata : Type 0 where
  pub firmware : Text
  pub partitions : List Partition
  pub sector_size : ℕ

unfoldable pub is_some : Option Text → Bool
is_some none = false
is_some (some t) = true

-- `project_image`
unfoldable pub project_image : (Bytes → ℕ) → Bytes → Text → Option Text → Outcome GptError Metadata
unfolding validated_gpt scan decode_utf16 until_nul guid_text validate_roots validate_firmware
    is_some
project_image crc32 image firmware slot_label = do
  g ← validated_gpt crc32 image
  partitions ← scan g.primary.count 0 g (is_some slot_label) none
  validate_roots partitions slot_label
  validate_firmware partitions firmware
  ok (record { firmware = firmware; partitions = partitions; sector_size = g.sector_size })
