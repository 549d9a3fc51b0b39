-- ===== src/Tests/Esp.antt =====
-- A disk image with a FAT12 volume of three clusters: a file of two clusters, and a directory that
-- holds itself.
use rules_mkosi.Prelude.{
  ℕ, ◌-◌, ◌≡◌, ◌↔◌, ◌⊎◌, refl, false, leb, ◌&&◌, List, [], ◌∷◌, ◌++◌, map, if◌then◌else◌, ok, err,
  arith,
}
use rules_mkosi.Prelude.Text.{Text, codes}
use rules_mkosi.Prelude.Bytes.{Bytes, zeros}
use rules_mkosi.Esp.Error.{
  EspError, invalid_cluster, chain_loops, chain_length, cross_linked, no_such_file, is_a_directory,
}
use rules_mkosi.Esp.Image.{Partition, find_esp}
use rules_mkosi.Esp.Geometry.{Volume, bits12, open_volume}
use rules_mkosi.Esp.Volume.Fat.{chain, read_file}
use rules_mkosi.Esp.Walk.{walk, read_esp_file}
use rules_mkosi.Esp.Bounds.{IsVolume, open_volume-IsVolume}
use rules_mkosi.Esp.Chains.{IsChain, chain-IsChain}
use rules_mkosi.Esp.Files.{IsContent, IsEspFile, read_file-IsContent, read_esp_file-IsContent}
use rules_mkosi.Esp.Ends.{IsWalkError, walk_raises}

no_crc : Bytes → ℕ
no_crc bytes = 0

same_code : ℕ → ℕ
same_code c = c

same_text : Text → Text
same_text s = s

ascii_upper : Text → Text
ascii_upper s = map (λ c. if leb b'a' c && leb c b'z' then c - 32 else c) s

abbrev mbr : Bytes
mbr = zeros 450 ++ (238 ∷ (zeros 59 ++ (85 ∷ 170 ∷ [])))

abbrev gpt_header : Bytes
gpt_header =
    69
    ∷ 70
    ∷ 73
    ∷ 32
    ∷ 80
    ∷ 65
    ∷ 82
    ∷ 84
    ∷ 0
    ∷ 0
    ∷ 1
    ∷ 0
    ∷ 92
    ∷ (zeros 59 ++ (2 ∷ 0 ∷ 0 ∷ 0 ∷ 0 ∷ 0 ∷ 0 ∷ 0 ∷ 1 ∷ 0 ∷ 0 ∷ 0 ∷ 128 ∷ (zeros 427)))

abbrev gpt_array : Bytes
gpt_array =
    40
    ∷ 115
    ∷ 42
    ∷ 193
    ∷ 31
    ∷ 248
    ∷ 210
    ∷ 17
    ∷ 186
    ∷ 75
    ∷ 0
    ∷ 160
    ∷ 201
    ∷ 62
    ∷ 201
    ∷ 59
    ∷ (zeros 16 ++ (3 ∷ 0 ∷ 0 ∷ 0 ∷ 0 ∷ 0 ∷ 0 ∷ 0 ∷ 8 ∷ (zeros 471)))

abbrev boot : Bytes
boot = zeros 12 ++ (2 ∷ 1 ∷ 1 ∷ 0 ∷ 1 ∷ 16 ∷ 0 ∷ 6 ∷ 0 ∷ 248 ∷ 1 ∷ (zeros 487 ++ (85 ∷ 170 ∷ [])))

abbrev fat_sector : Bytes
fat_sector = 0 ∷ 0 ∷ 0 ∷ 3 ∷ 240 ∷ 255 ∷ 255 ∷ 15 ∷ (zeros 504)

abbrev root_directory : Bytes
root_directory =
    65
    ∷ 32
    ∷ 32
    ∷ 32
    ∷ 32
    ∷ 32
    ∷ 32
    ∷ 32
    ∷ 84
    ∷ 88
    ∷ 84
    ∷ 32
    ∷ (zeros 14
        ++ (2
            ∷ 0
            ∷ 1
            ∷ 2
            ∷ 0
            ∷ 0
            ∷ 68
            ∷ 32
            ∷ 32
            ∷ 32
            ∷ 32
            ∷ 32
            ∷ 32
            ∷ 32
            ∷ 32
            ∷ 32
            ∷ 32
            ∷ 16
            ∷ (zeros 14 ++ (4 ∷ (zeros 453)))))

abbrev cluster_two : Bytes
cluster_two = 1 ∷ (zeros 510 ++ (2 ∷ []))

abbrev cluster_three : Bytes
cluster_three = 3 ∷ (zeros 511)

abbrev cluster_four : Bytes
cluster_four =
    46
    ∷ 32
    ∷ 32
    ∷ 32
    ∷ 32
    ∷ 32
    ∷ 32
    ∷ 32
    ∷ 32
    ∷ 32
    ∷ 32
    ∷ 16
    ∷ (zeros 14
        ++ (4
            ∷ 0
            ∷ 0
            ∷ 0
            ∷ 0
            ∷ 0
            ∷ 69
            ∷ 32
            ∷ 32
            ∷ 32
            ∷ 32
            ∷ 32
            ∷ 32
            ∷ 32
            ∷ 32
            ∷ 32
            ∷ 32
            ∷ 16
            ∷ (zeros 14 ++ (4 ∷ (zeros 453)))))

abbrev image : Bytes
image =
    mbr
    ++ (gpt_header
        ++ (gpt_array
            ++ (boot
                ++ (fat_sector
                    ++ (root_directory ++ (cluster_two ++ (cluster_three ++ cluster_four)))))))

abbrev esp : Partition
esp = record { offset = 1536; size = 3072; sector_size = 512 }

abbrev volume : Volume
volume = record {
  image = image;
  partition = esp;
  geometry = record {
    fat32 = false;
    fat_offset = 2048;
    fat_size = 512;
    root_offset = 2560;
    root_size = 512;
    root_cluster = 0;
    data_offset = 3072;
    cluster_size = 512;
    clusters = 3;
  };
  bits = bits12;
  fat = fat_sector;
}

esp_found : find_esp no_crc image ≡ ok esp
unfolding find_esp no_crc
esp_found = refl

volume_opened : open_volume image esp ≡ ok volume
unfolding open_volume
volume_opened = refl

volume_valid : IsVolume volume
volume_valid = (open_volume-IsVolume image esp volume volume_opened).0

file_read :
    read_esp_file same_code same_text ascii_upper no_crc image (codes "/a.txt")
    ≡ ok (cluster_two ++ 3 ∷ [])
unfolding read_esp_file no_crc same_code same_text ascii_upper
file_read = refl

file_errors :
    (read_esp_file same_code same_text ascii_upper no_crc image (codes "D/b") ≡ err no_such_file)
    × (read_esp_file same_code same_text ascii_upper no_crc image (codes "d/") ≡ err is_a_directory)
unfolding read_esp_file no_crc same_code same_text ascii_upper
file_errors = (refl, refl)

walked : walk same_code same_text ascii_upper volume ≡ err cross_linked
unfolding walk same_code same_text ascii_upper
walked = refl

chain-IsChain_example :
    ((cs : List ℕ) → (chain volume 2 ≡ ok cs) ↔ IsChain volume [] 2 cs)
    × ((e : EspError) → chain volume 2 ≡ err e → (e ≡ invalid_cluster) ⊎ (e ≡ chain_loops))
chain-IsChain_example = chain-IsChain volume 2 volume_valid

read_file-IsContent_example :
    ((bytes : Bytes) → read_file volume 2 513 ≡ ok bytes → IsContent volume 2 513 bytes)
    × ((e : EspError)
        → read_file volume 2 513 ≡ err e
        → (e ≡ invalid_cluster) ⊎ (e ≡ chain_loops) ⊎ (e ≡ chain_length))
read_file-IsContent_example = read_file-IsContent volume 2 513 volume_valid (omega arith)

read_esp_file-IsContent_example :
    (read_esp_file same_code same_text ascii_upper no_crc image (codes "/a.txt")
      ≡ ok (cluster_two ++ 3 ∷ []))
    ↔ IsEspFile same_code same_text ascii_upper no_crc image
        (codes "/a.txt")
        (cluster_two ++ 3 ∷ [])
read_esp_file-IsContent_example =
    read_esp_file-IsContent same_code same_text ascii_upper no_crc image (codes "/a.txt")
      (cluster_two ++ 3 ∷ [])

walk_raises_example : IsWalkError cross_linked
walk_raises_example =
    walk_raises same_code same_text ascii_upper volume cross_linked volume_valid (omega arith)
      walked
