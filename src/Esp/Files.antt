-- ===== src/Esp/Files.antt =====
-- Reading files and directories of an opened volume.
use rules_mkosi.Prelude.{
  ℕ, ◌+◌, ◌*◌, ◌≤◌, ◌<◌, ◌≡◌, refl, sym, ap, subst, ◌⊎◌, ◌↔◌, inl, inr, Bool, true, false, not,
  ◌==◌, List, [], ◌∷◌, length, take, Outcome, ok, err, ◌>>=◌, guard, >>=-eq-ok, arith, Bool-cases,
  Outcome-cases, length-take,
}
use rules_mkosi.Prelude.Text.{Text}
use rules_mkosi.Prelude.Bytes.{Bytes}
use rules_mkosi.Esp.Error.{EspError, invalid_cluster, chain_loops, chain_length, is_a_directory}
use rules_mkosi.Esp.Image.{Partition, find_esp}
use rules_mkosi.Esp.Geometry.{Volume, ceil_div, open_volume}
use rules_mkosi.Esp.Volume.Fat.{chain, read_contents, read_file}
use rules_mkosi.Esp.Volume.Directory.{Entry, is_directory}
use rules_mkosi.Esp.Walk.{lookup, read_esp_file}
use rules_mkosi.Esp.Bounds.{IsVolume, IsInside, open_volume-IsVolume, guard-true}
use rules_mkosi.Esp.Regions.{ceil_div_covers}
use rules_mkosi.Esp.Contents.{chain_bytes, read_chain_lem, length-chain_bytes}
use rules_mkosi.Esp.Only.{IsOnlyEsp, find_esp_iff}
use rules_mkosi.Esp.Chains.{IsChain, chain-IsChain}

ok_injective : (a b : Bytes) → ◌≡◌ {A = Outcome EspError Bytes} (ok a) (ok b) → a ≡ b
ok_injective a b e = ground arith

eq_true : (a b : ℕ) → (a == b) ≡ true → a ≡ b
eq_true a b e = ground arith

-- What a file's bytes are: none for an empty file, else the first `size` bytes of the clusters of
-- its chain, which are as many as the size needs.
pub IsContent : Volume → ℕ → ℕ → Bytes → Type 0
IsContent v first size bytes =
    (length bytes ≡ size)
    × ((size ≡ 0)
        ⊎ ((cs : List ℕ) × IsChain v [] first cs
            × (length cs ≡ ceil_div size v.geometry.cluster_size)
            × (bytes ≡ take size (chain_bytes v cs))))

enough_clusters : (n size s : ℕ) → 0 < s → n ≡ ceil_div size s → size ≤ n * s
enough_clusters n size s h e = subst (λ m. size ≤ m * s) (sym e) (ceil_div_covers size s h)

bind_error :
    (m : Outcome EspError Bytes) (f : Bytes → Bytes) (e : EspError)
    → (m >>= λ bytes. ok (f bytes)) ≡ err e
    → m ≡ err e
bind_error (ok b) f e h = cc
bind_error (err e') f e h = ground arith

read_contents-IsContent :
    (v : Volume) (first size : ℕ) (bytes : Bytes)
    → IsVolume v
    → v.partition.offset + v.partition.size ≤ length v.image
    → read_contents v first size ≡ ok bytes
    → IsContent v first size bytes
unfolding read_contents IsContent
read_contents-IsContent v first size bytes h inside e =
    let count = ceil_div size v.geometry.cluster_size in
    let (cs, chained, e₁) = >>=-eq-ok (chain v first) _ e in
    let k = ((chain-IsChain v first h).0 cs).0 chained in
    let (_, counted, e₂) = >>=-eq-ok (guard (length cs == count) chain_length) _ e₁ in
    let same = eq_true (length cs) count (guard-true _ chain_length counted) in
    let e₃ = rw (read_chain_lem v cs h inside k.1) at e₂ in
    let content : bytes ≡ take size (chain_bytes v cs) = sym (ok_injective _ _ e₃) in
    (
      subst (λ b. length b ≡ size) (sym content)
          (omega (
            arith,
            length-take {0} size (chain_bytes v cs),
            length-chain_bytes v cs h inside k.1,
            enough_clusters (length cs) size v.geometry.cluster_size h.cluster_pos same,
          )),
      inr (cs, k, same, content),
    )

read_contents_raises :
    (v : Volume) (first size : ℕ) (e : EspError)
    → IsVolume v
    → v.partition.offset + v.partition.size ≤ length v.image
    → read_contents v first size ≡ err e
    → (e ≡ invalid_cluster) ⊎ (e ≡ chain_loops) ⊎ (e ≡ chain_length)
unfolding read_contents
read_contents_raises v first size e h inside raised = elim (Outcome-cases (chain v first)) [
  | inr (e', failed) ↦ ground (arith, failed, (chain-IsChain v first h).1 e' failed)
  | inl (cs, chained) ↦
      let k = ((chain-IsChain v first h).0 cs).0 chained in
      let e₁ = rw (chained, read_chain_lem v cs h inside k.1) at raised in ground arith
]

-- On an opened volume inside of its image `read_file` returns as many bytes as the entry says, those
-- of its chain, and it raises only for a broken chain or one of another length: nothing is read
-- outside of the image or the FAT.
pub read_file-IsContent :
    (v : Volume) (first size : ℕ)
    → IsVolume v
    → v.partition.offset + v.partition.size ≤ length v.image
    → ((bytes : Bytes) → read_file v first size ≡ ok bytes → IsContent v first size bytes)
      × ((e : EspError)
          → read_file v first size ≡ err e
          → (e ≡ invalid_cluster) ⊎ (e ≡ chain_loops) ⊎ (e ≡ chain_length))
unfolding read_file IsContent
read_file-IsContent v first size h inside = (
  λ bytes e. elim (Bool-cases (size == 0)) [
    | inl empty ↦ (ground arith, inl (ground arith))
    | inr some_bytes ↦ read_contents-IsContent v first size bytes h inside (rw some_bytes at e)
  ],
  λ e raised. elim (Bool-cases (size == 0)) [
    | inl empty ↦ absurd (let e₁ = rw empty at raised in ground arith)
    | inr some_bytes ↦ read_contents_raises v first size e h inside (rw some_bytes at raised)
  ],
)

not-true : (b : Bool) → not b ≡ true → b ≡ false
not-true b e = ground arith

no_bytes : (bytes : Bytes) → length bytes ≡ 0 → bytes ≡ []
no_bytes [] e = refl
no_bytes (b ∷ bytes) e = absurd (omega arith)

read_contents_complete :
    (v : Volume) (first size : ℕ) (bytes : Bytes) (cs : List ℕ)
    → IsVolume v
    → v.partition.offset + v.partition.size ≤ length v.image
    → IsChain v [] first cs
    → length cs ≡ ceil_div size v.geometry.cluster_size
    → bytes ≡ take size (chain_bytes v cs)
    → read_contents v first size ≡ ok bytes
unfolding read_contents
read_contents_complete v first size bytes cs h inside k count same =
    let counted : (length cs == ceil_div size v.geometry.cluster_size) ≡ true = ground arith in
    rw (((chain-IsChain v first h).0 cs).1 k, counted, read_chain_lem v cs h inside k.1)
      (ap ok (sym same))

-- The bytes that are a file's content are read.
read_file_complete :
    (v : Volume) (first size : ℕ) (bytes : Bytes)
    → IsVolume v
    → v.partition.offset + v.partition.size ≤ length v.image
    → IsContent v first size bytes
    → read_file v first size ≡ ok bytes
unfolding read_file IsContent
read_file_complete v first size bytes h inside (long, content) = elim (Bool-cases (size == 0)) [
  | inl empty ↦ rw (empty, no_bytes bytes (ground arith)) refl
  | inr some_bytes ↦ elim content [
    | inl nothing ↦ absurd (ground arith)
    | inr (cs, k, count, same) ↦
        rw some_bytes (read_contents_complete v first size bytes cs h inside k count same)
  ]
]

partition_inside :
    (image : Bytes) (p : Partition) (v : Volume)
    → IsInside image p
    → v.image ≡ image
    → v.partition ≡ p
    → v.partition.offset + v.partition.size ≤ length v.image
partition_inside image p v inside same_image same_partition = omega (
  arith,
  inside.end,
  ap length same_image,
  ap (λ (q : Partition). q.offset) same_partition,
  ap (λ (q : Partition). q.size) same_partition,
)

module _ (cp437 : ℕ → ℕ) (lower upper : Text → Text) (crc32 : Bytes → ℕ) where
  -- The content of the file at a path of the only EFI system partition of an image.
  abbrev pub IsEspFile : Bytes → Text → Bytes → Type 0
  IsEspFile image esp_path bytes =
      (p : Partition) × (v : Volume) × (e : Entry) × IsOnlyEsp crc32 image p
      × IsInside image p
      × (open_volume image p ≡ ok v)
      × (lookup cp437 lower upper v esp_path ≡ ok e)
      × (is_directory e ≡ false)
      × IsContent v e.cluster e.size bytes

  -- `read_esp_file` returns bytes exactly when one entry of the image's GPT, and no other, has the
  -- type of an EFI system partition, that partition lies in the image and is opened as a volume,
  -- `lookup` finds an entry there that is no directory, and the bytes are the content of its file.
  pub read_esp_file-IsContent :
      (image : Bytes) (esp_path : Text) (bytes : Bytes)
      → (read_esp_file cp437 lower upper crc32 image esp_path ≡ ok bytes)
        ↔ IsEspFile image esp_path bytes
  unfolding read_esp_file
  read_esp_file-IsContent image esp_path bytes = (
    λ done.
        let (p, found, e₁) = >>=-eq-ok (find_esp crc32 image) _ done in
        let (v, opened, e₂) = >>=-eq-ok (open_volume image p) _ e₁ in
        let (e, named, e₃) = >>=-eq-ok (lookup cp437 lower upper v esp_path) _ e₂ in
        let (_, regular, e₄) = >>=-eq-ok (guard (not (is_directory e)) is_a_directory) _ e₃ in
        let (only, inside) = (find_esp_iff crc32 image p).0 found in
        let (valid, same_image, same_partition) = open_volume-IsVolume image p v opened in
        let fits = partition_inside image p v inside same_image same_partition in
        (
          p,
          v,
          e,
          only,
          inside,
          opened,
          named,
          not-true (is_directory e) (guard-true _ is_a_directory regular),
          (read_file-IsContent v e.cluster e.size valid fits).0 bytes e₄,
        ),
    λ (p, v, e, only, inside, opened, named, regular, content).
        let found = (find_esp_iff crc32 image p).1 (only, inside) in
        let (valid, same_image, same_partition) = open_volume-IsVolume image p v opened in
        let fits = partition_inside image p v inside same_image same_partition in
        rw (found, opened, named, regular)
          (read_file_complete v e.cluster e.size bytes valid fits content),
  )
