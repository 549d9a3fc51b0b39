-- ===== src/Tests/Generate.antt =====
-- A lock of a package and its dependency, with a digest that only counts bytes.
use rules_mkosi.Prelude.{
  ℕ, ◌+◌, ◌%◌, ◌≡◌, refl, true, List, [], ◌∷◌, ◌++◌, length, replicate, Option, some, none,
  if◌then◌else◌, Outcome, ok, err,
}
use rules_mkosi.Prelude.Text.{Text, codes, text_eq}
use rules_mkosi.Prelude.Bytes.{Bytes}
use rules_mkosi.Prelude.Int.{◌-ℤ◌}
use rules_mkosi.Debian.Error.{LockError, missing_packages}
use rules_mkosi.Debian.Generate.{generate, has_repeat}
use rules_mkosi.Debian.Lock.{Specification, MetadataEntry, Dependency, LockedPackage, Lock}
use rules_mkosi.Debian.Generate.Sourced.{IsLock, generate-IsLock}

abbrev digest_of : ℕ → Text
digest_of n = replicate 64 (48 + n % 10)

abbrev count_sha256 : Bytes → Text
count_sha256 bytes = digest_of (length bytes)

abbrev plain : Bytes → Outcome LockError Bytes
plain bytes = ok bytes

abbrev same_bytes : Text → Bytes
same_bytes text = text

abbrev no_digest : Specification → Text
no_digest spec = []

abbrev line : Text → Text → Text
line first rest = first ++ (10 ∷ rest)

abbrev package_of : Text → Text → Text
package_of name rest = line (codes "Package: " ++ name) (
    line (codes "Version: 1") (
      line (codes "Architecture: amd64") (
        line (codes "Filename: pool/" ++ (name ++ codes ".deb"))
          (line (codes "Size: 3") (line (codes "SHA256: " ++ digest_of 3) rest)))))

abbrev index_file : Text
index_file =
    package_of (codes "bb")
      (line [] (package_of (codes "aa") (line (codes "Depends: bb (>= 1)") [])))

abbrev release_of : Text → Text
release_of rest = line (codes "Codename: trixie") (
    line (codes "Components: main") (
      line (codes "Architectures: amd64") (
        line (codes "Version: 13.1") (
          line (codes "SHA256:") (
            line (codes " " ++ (digest_of 312 ++ codes " 312 main/binary-amd64/Packages.xz")) (
              line (codes " " ++ (digest_of 0 ++ codes " 0 main/binary-all/Packages.xz")) rest))))))

abbrev inrelease_file : Text
inrelease_file =
    line (codes "-----BEGIN PGP SIGNED MESSAGE-----")
      (line [] (release_of (codes "-----BEGIN PGP SIGNATURE-----")))

abbrev url : Text → Text
url path = codes "https://s/1/dists/trixie/" ++ path

serve : Text → Outcome LockError Bytes
serve path =
    if text_eq path (url (codes "InRelease"))
    then ok inrelease_file
    else if text_eq path (url (codes "Release"))
    then ok (release_of [])
    else if text_eq path (url (codes "main/binary-amd64/Packages.xz"))
    then ok index_file
    else ok []

abbrev spec_of : List Text → Specification
spec_of names = record {
  snapshot_url = codes "https://s/1";
  snapshot = codes "1";
  suite = codes "trixie";
  components = codes "main" ∷ [];
  packages = names;
}

abbrev run : List Text → Option (Outcome LockError Lock)
run names = generate serve count_sha256 plain plain same_bytes no_digest (spec_of names) none

abbrev locked : Text → List Dependency → LockedPackage
locked name dependencies = record {
  arch = codes "amd64";
  component = codes "main";
  dependencies = dependencies;
  filename = codes "pool/" ++ (name ++ codes ".deb");
  key = name ++ codes "_1_amd64";
  name = name;
  sha256 = digest_of 3;
  size = 3;
  urls = (codes "https://s/1/pool/" ++ (name ++ codes ".deb")) ∷ [];
  version = codes "1";
}

abbrev entry : Text → Text → Bytes → Option (Text × Text) → MetadataEntry
entry name path file index = record {
  name = name;
  path = codes "dists/trixie/" ++ path;
  sha256 = count_sha256 file;
  url = url path;
  index = index;
}

abbrev good_lock : Lock
good_lock = record {
  packages =
      locked (codes "aa")
        (record { key = codes "bb_1_amd64"; name = codes "bb"; version = codes "1" } ∷ [])
      ∷ locked (codes "bb") []
      ∷ [];
  repository = record {
    architecture = codes "amd64";
    codename = codes "trixie";
    components = codes "main" ∷ [];
    distribution = codes "debian";
    metadata =
        entry (codes "inrelease") (codes "InRelease") inrelease_file none
        ∷ entry (codes "release") (codes "Release") (release_of []) none
        ∷ entry (codes "release_gpg") (codes "Release.gpg") [] none
        ∷ entry (codes "packages_xz") (codes "main/binary-amd64/Packages.xz") index_file
            (some (codes "amd64", codes "main"))
        ∷ entry (codes "packages_all_xz") (codes "main/binary-all/Packages.xz") []
            (some (codes "all", codes "main"))
        ∷ [];
    release = codes "13";
    snapshot = codes "1";
    snapshot_url = codes "https://s/1";
  };
  spec_sha256 = [];
  version = 1;
}

generated : run (codes "aa" ∷ []) ≡ some (ok good_lock)
unfolding generate serve text_eq ◌-ℤ◌
generated = refl

unknown : run (codes "cc" ∷ []) ≡ some (err missing_packages)
unfolding generate serve text_eq ◌-ℤ◌
unknown = refl

repeated : has_repeat (codes "a" ∷ codes "b" ∷ codes "a" ∷ []) ≡ true
unfolding has_repeat text_eq
repeated = refl

generate-IsLock_example :
    IsLock serve count_sha256 plain plain same_bytes no_digest
      (spec_of (codes "aa" ∷ []))
      good_lock.packages
generate-IsLock_example =
    generate-IsLock serve count_sha256 plain plain same_bytes no_digest (spec_of (codes "aa" ∷ []))
      none generated
