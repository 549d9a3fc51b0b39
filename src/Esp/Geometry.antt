-- ===== src/Esp/Geometry.antt =====
-- The geometry of a FAT file system: `_Geometry`, `_geometry` and `_FatVolume.__init__`.
use rules_mkosi.Prelude.{
  ℕ, ◌+◌, ◌-◌, ◌*◌, ◌/◌, Bool, ◌&&◌, [], ◌∷◌, ltb, leb, ◌==◌, if◌then◌else◌, Outcome, ok, guard,
  ◌>>=◌, ◌>>◌,
}
use rules_mkosi.Prelude.Text.{text_eq, one_of}
use rules_mkosi.Prelude.Bytes.{Bytes, slice, unpack}
use rules_mkosi.Esp.Error.{
  EspError, invalid_boot_sector, larger_than_partition, no_clusters, fat_too_small,
}
use rules_mkosi.Esp.Image.{Partition, read}

pub record Geometry : Type 0 where
  pub fat32 : Bool
  pub fat_offset : ℕ
  pub fat_size : ℕ
  pub root_offset : ℕ
  pub root_size : ℕ
  pub root_cluster : ℕ
  pub data_offset : ℕ
  pub cluster_size : ℕ
  pub clusters : ℕ

-- `-(-a // b)`
abbrev pub ceil_div : ℕ → ℕ → ℕ
ceil_div a b = (a + b - 1) / b

-- What `_geometry` unpacks from a boot sector.
pub record BootSector : Type 0 where
  pub sector : ℕ
  pub per_cluster : ℕ
  pub reserved : ℕ
  pub fats : ℕ
  pub root_entries : ℕ
  pub total : ℕ
  pub fat_size16 : ℕ
  pub fat_size32 : ℕ
  pub root_cluster : ℕ
  pub signed : Bool

unfoldable pub boot_sector : Bytes → BootSector
unfolding unpack text_eq
boot_sector boot = record {
  sector = unpack 2 11 boot;
  per_cluster = unpack 1 13 boot;
  reserved = unpack 2 14 boot;
  fats = unpack 1 16 boot;
  root_entries = unpack 2 17 boot;
  total = if unpack 2 19 boot == 0 then unpack 4 32 boot else unpack 2 19 boot;
  fat_size16 = unpack 2 22 boot;
  fat_size32 = unpack 4 36 boot;
  root_cluster = unpack 4 44 boot;
  signed = text_eq (slice 510 2 boot) (0x55 ∷ 0xaa ∷ []);
}

-- The bytes of one FAT.
unfoldable pub fat_bytes : BootSector → ℕ
fat_bytes b = (if b.fat_size16 == 0 then b.fat_size32 else b.fat_size16) * b.sector

unfoldable pub is_fat : BootSector → Bool
unfolding one_of fat_bytes
is_fat b =
    b.signed
    && one_of b.sector (512 ∷ 1024 ∷ 2048 ∷ 4096 ∷ [])
    && one_of b.per_cluster (1 ∷ 2 ∷ 4 ∷ 8 ∷ 16 ∷ 32 ∷ 64 ∷ 128 ∷ [])
    && ltb 0 b.reserved
    && ltb 0 b.fats
    && ltb 0 (fat_bytes b)
    && (if b.root_entries == 0 then b.fat_size16 == 0 else ltb 0 b.fat_size16)

-- `_geometry` of an unpacked boot sector.
unfoldable pub geometry_of : BootSector → Partition → Outcome EspError Geometry
unfolding is_fat fat_bytes
geometry_of b partition = do
  guard (is_fat b) invalid_boot_sector
  let total = b.total * b.sector
  guard (leb total partition.size) larger_than_partition
  let root_offset = b.reserved * b.sector + b.fats * fat_bytes b
  let root_size = b.root_entries * 32
  let data_offset = root_offset + ceil_div root_size b.sector * b.sector
  let cluster_size = b.per_cluster * b.sector
  let clusters = (total - data_offset) / cluster_size
  guard (ltb 0 clusters) no_clusters
  ok (record {
    fat32 = b.fat_size16 == 0;
    fat_offset = partition.offset + b.reserved * b.sector;
    fat_size = fat_bytes b;
    root_offset = partition.offset + root_offset;
    root_size = root_size;
    root_cluster = if b.fat_size16 == 0 then b.root_cluster else 0;
    data_offset = partition.offset + data_offset;
    cluster_size = cluster_size;
    clusters = clusters;
  })

-- `_geometry`
unfoldable pub geometry : Bytes → Partition → Outcome EspError Geometry
unfolding geometry_of boot_sector
geometry boot partition = geometry_of (boot_sector boot) partition

pub data FatBits : Type 0 where
  bits12 bits16 bits32 : FatBits

unfoldable pub width : FatBits → ℕ
width bits12 = 12
width bits16 = 16
width bits32 = 32

pub record Volume : Type 0 where
  pub image : Bytes
  pub partition : Partition
  pub geometry : Geometry
  pub bits : FatBits
  pub fat : Bytes

-- `self.last_cluster`
abbrev pub last_cluster : Volume → ℕ
last_cluster v = v.geometry.clusters + 1

unfoldable pub bits_of : Geometry → FatBits
bits_of g = if g.fat32 then bits32 else if ltb g.clusters 4085 then bits12 else bits16

-- `_FatVolume.__init__`
unfoldable pub open_volume : Bytes → Partition → Outcome EspError Volume
unfolding read geometry bits_of width
open_volume image partition = do
  boot ← read image partition.offset 512
  g ← geometry boot partition
  let bits = bits_of g
  guard (leb ((g.clusters + 2) * width bits) (g.fat_size * 8)) fat_too_small
  fat ← read image g.fat_offset g.fat_size
  ok (record { image = image; partition = partition; geometry = g; bits = bits; fat = fat })
