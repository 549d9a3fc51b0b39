-- ===== src/Tests/ImageVersion.antt =====
-- A version file and its slot labels.
use rules_mkosi.Prelude.{◌≡◌, refl, [], ◌∷◌, ◌++◌, some, none, ok, err, arith}
use rules_mkosi.Prelude.Text.{codes}
use rules_mkosi.ImageVersion.{
  read_image_version, root_label, verity_label, invalid_image_version, label_too_long,
}
use rules_mkosi.ImageVersion.Labels.{Stored, IsAscii, read_image_version-Stored}

version_read :
    read_image_version (codes "1.2.3" ++ 10 ∷ []) (some (codes "os")) ≡ ok (codes "1.2.3")
unfolding read_image_version
version_read = refl

version_raises :
    (read_image_version (codes "1_2") none ≡ err invalid_image_version)
    × (read_image_version (codes "1" ++ (10 ∷ 10 ∷ [])) none ≡ err invalid_image_version)
    × (read_image_version (codes "1.2.3") (some (codes "a-very-long-image-identifier"))
        ≡ err label_too_long)
unfolding read_image_version
version_raises = (refl, refl, refl)

os_IsAscii : IsAscii (codes "os")
os_IsAscii = ((omega arith, omega arith), ((omega arith, omega arith), tt))

read_image_version-Stored_example :
    Stored (root_label (codes "os") (codes "1.2.3"))
    × Stored (verity_label (codes "os") (codes "1.2.3"))
read_image_version-Stored_example =
    read_image_version-Stored (codes "1.2.3" ++ 10 ∷ []) (codes "os") (codes "1.2.3") os_IsAscii
      version_read
