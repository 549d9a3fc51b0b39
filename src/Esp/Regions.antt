-- ===== src/Esp/Regions.antt =====
-- Where the regions of a FAT file system lie in its partition: `_geometry`.
use native.Mathlib.Nat.{div-mul-le_self, lt-div-mul-add}
use rules_mkosi.Prelude.{
  ℕ, zero, suc, ◌+◌, ◌-◌, ◌*◌, ◌/◌, ◌≤◌, ◌<◌, ◌≡◌, Bool, All, IfOk-ok, true, ltb, leb, List, [],
  ◌∷◌, ok, guard, ◌&&◌, >>=-eq-ok, arith, guard-true,
}
use rules_mkosi.Prelude.Text.{one_of}
use rules_mkosi.Esp.Error.{invalid_boot_sector, larger_than_partition, no_clusters}
use rules_mkosi.Esp.Image.{Partition}
use rules_mkosi.Esp.Geometry.{Geometry, BootSector, ceil_div, fat_bytes, is_fat, geometry_of}

-- The regions of a geometry in the partition.
pub record InPartition (p : Partition) (g : Geometry) : Type 0 where
  pub fat_start : p.offset + 512 ≤ g.fat_offset
  pub fat_pos : 0 < g.fat_size
  pub root_after : (n : ℕ) × (0 < n) × (g.root_offset ≡ g.fat_offset + n * g.fat_size)
  pub cluster_pos : 0 < g.cluster_size
  pub root_start : p.offset ≤ g.root_offset
  pub root_before : g.root_offset + g.root_size ≤ g.data_offset
  pub root_end : g.root_offset + g.root_size ≤ p.offset + p.size
  pub clusters_end : g.data_offset + g.clusters * g.cluster_size ≤ p.offset + p.size

product_pos : (m n : ℕ) → 0 < m → 0 < n → 0 < m * n
product_pos m n h k = grind arith

-- Whole clusters fit in what is left of the partition.
quotient_gap : (a b : ℕ) → 0 < a / b → 0 < a
quotient_gap zero b h = grind arith
quotient_gap (suc a) b h = omega arith

clusters_gap : (total first size : ℕ) → 0 < (total - first) / size → first < total
clusters_gap total first size h = omega (arith, quotient_gap (total - first) size h)

clusters_fit :
    (total first size : ℕ)
    → 0 < (total - first) / size
    → first + (total - first) / size * size ≤ total
clusters_fit total first size h =
    omega (arith, div-mul-le_self (total - first) size, clusters_gap total first size h)

ltb-true : (a b : ℕ) → ltb a b ≡ true → a < b
ltb-true a b e = ground arith

pub leb-true : (a b : ℕ) → leb a b ≡ true → a ≤ b
leb-true a b e = ground arith

-- Whole sectors hold the entries.
pub ceil_div_covers : (a b : ℕ) → 0 < b → a ≤ ceil_div a b * b
ceil_div_covers a b h = omega (arith, lt-div-mul-add {a = a + b - 1} h)

and_parts :
    (a b c d e f g : Bool)
    → (a && b && c && d && e && f && g) ≡ true
    → (b ≡ true) × (c ≡ true) × (d ≡ true) × (e ≡ true) × (f ≡ true)
and_parts a b c d e f g h = ground arith

one_of-least : (k n : ℕ) (ms : List ℕ) → All (λ m. k ≤ m) ms → one_of n ms ≡ true → k ≤ n
unfolding one_of
one_of-least k n [] h e = cc
one_of-least k n (m ∷ ms) (a, h) e = ground (arith, one_of-least k n ms h)

-- The values of a boot sector that are not 0.
record IsPositive (b : BootSector) : Type 0 where
  sector : 512 ≤ b.sector
  per_cluster : 0 < b.per_cluster
  reserved : 0 < b.reserved
  fats : 0 < b.fats
  fat_size : 0 < fat_bytes b

is_fat-IsPositive : (b : BootSector) → is_fat b ≡ true → IsPositive b
unfolding is_fat
is_fat-IsPositive b e =
    let (sector, per_cluster, reserved, fats, fat_size) = and_parts b.signed _ _ _ _ _ _ e in
    record {
      sector = one_of-least 512 b.sector (512 ∷ 1024 ∷ 2048 ∷ 4096 ∷ []) (omega arith) sector;
      per_cluster =
          one_of-least 1 b.per_cluster (1 ∷ 2 ∷ 4 ∷ 8 ∷ 16 ∷ 32 ∷ 64 ∷ 128 ∷ []) (omega arith)
            per_cluster;
      reserved = ltb-true 0 b.reserved reserved;
      fats = ltb-true 0 b.fats fats;
      fat_size = ltb-true 0 (fat_bytes b) fat_size;
    }

-- The boot sector, of 512 bytes at least, is one of the reserved sectors.
boot_sector_fits : (reserved sector : ℕ) → 0 < reserved → 512 ≤ sector → 512 ≤ reserved * sector
boot_sector_fits reserved sector h k = grind arith

pub geometry_of-InPartition :
    (b : BootSector) (p : Partition) (g : Geometry) → geometry_of b p ≡ ok g → InPartition p g
unfolding geometry_of
geometry_of-InPartition b p g e =
    let (_, valid, e₁) = >>=-eq-ok (guard (is_fat b) invalid_boot_sector) _ e in
    let (_, fits, e₂) =
      >>=-eq-ok (guard (leb (b.total * b.sector) p.size) larger_than_partition) _ e₁ in
    let root = b.reserved * b.sector + b.fats * fat_bytes b in
    let first = root + ceil_div (b.root_entries * 32) b.sector * b.sector in
    let size = b.per_cluster * b.sector in
    let clusters = (b.total * b.sector - first) / size in
    let (_, some_clusters, e₃) = >>=-eq-ok (guard (ltb 0 clusters) no_clusters) _ e₂ in
    let some_of = is_fat-IsPositive b (guard-true _ invalid_boot_sector valid) in
    let sector : 0 < b.sector = omega (arith, some_of.sector) in
    let whole =
      clusters_fit (b.total * b.sector) first size
        (ltb-true 0 clusters (guard-true _ no_clusters some_clusters)) in
    let inside = leb-true (b.total * b.sector) p.size (guard-true _ larger_than_partition fits) in
    let root_room = ceil_div_covers (b.root_entries * 32) b.sector sector in
    IfOk-ok (InPartition p) (ok _) e₃ (record {
      fat_start =
          omega (arith, boot_sector_fits b.reserved b.sector some_of.reserved some_of.sector);
      fat_pos = some_of.fat_size;
      root_after = (b.fats, some_of.fats, omega arith);
      cluster_pos = product_pos b.per_cluster b.sector some_of.per_cluster sector;
      root_start = omega arith;
      root_before = omega (arith, root_room);
      root_end = omega (arith, root_room, whole, inside);
      clusters_end = omega (arith, whole, inside);
    })
