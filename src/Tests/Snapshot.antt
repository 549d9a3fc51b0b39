-- ===== src/Tests/Snapshot.antt =====
-- A snapshot of one package, with a digest that only counts bytes, and two that fail.
use rules_mkosi.Prelude.{
  ℕ, ◌+◌, ◌%◌, ◌≡◌, refl, List, [], ◌∷◌, ◌++◌, length, replicate, Outcome, ok, err,
}
use rules_mkosi.Prelude.Text.{Text, codes, text_eq}
use rules_mkosi.Prelude.Bytes.{Bytes}
use rules_mkosi.Snapshot.Error.{
  SnapshotError, size_mismatch, path_collision, unmatched_packages, no_suite_path, unsafe_path,
}
use rules_mkosi.Snapshot.Indexes.{Arguments, component_indexes, main_indexes}
use rules_mkosi.Snapshot.Release.{release_hash, suite_path}
use rules_mkosi.Snapshot.Packages.{Locked, locked_packages, safe_package_path}
use rules_mkosi.Snapshot.Stage.{Tree, stage}
use rules_mkosi.Snapshot.Listed.{IsListed, release_hash-IsListed}
use rules_mkosi.Snapshot.Locks.{AreLocks, locked_packages-AreLocks}
use rules_mkosi.Snapshot.Pairs.{AreIndexes, component_indexes-AreIndexes}
use rules_mkosi.Snapshot.Authentic.{IsSnapshot, stage-IsSnapshot}

abbrev digest_of : ℕ → Text
digest_of n = replicate 64 (48 + n % 10)

abbrev count_sha256 : Bytes → Text
count_sha256 bytes = digest_of (length bytes)

abbrev plain : Bytes → Outcome SnapshotError Bytes
plain bytes = ok bytes

abbrev trusting : Bytes → Bytes → Bytes → Outcome SnapshotError Bytes
trusting inrelease release release_gpg = ok release

abbrev line : Text → Text → Text
line first rest = first ++ (10 ∷ rest)

abbrev amd64_index : Text
amd64_index = line (codes "Package: a") (
    line (codes "Version: 1") (
      line (codes "Architecture: amd64") (
        line (codes "Filename: pool/a.deb")
          (line (codes "Size: 3") (line (codes "SHA256: " ++ digest_of 3) [])))))

abbrev release_file : Text
release_file = line (codes "Origin: Debian") (
    line (codes "SHA256:") (
      line (codes " " ++ (digest_of 144 ++ codes " 144 main/binary-amd64/Packages.xz"))
        (line (codes " " ++ (digest_of 0 ++ codes " 0 main/binary-all/Packages.xz")) [])))

abbrev args_of : List Text → List Bytes → Arguments
args_of records files = record {
  inrelease = 1 ∷ 2 ∷ [];
  release = release_file;
  release_gpg = 3 ∷ [];
  packages_xz = amd64_index;
  packages_all_xz = [];
  inrelease_sha256 = digest_of 2;
  release_sha256 = digest_of 9;
  release_gpg_sha256 = digest_of 1;
  packages_xz_sha256 = digest_of 144;
  packages_all_xz_sha256 = digest_of 0;
  packages_path = codes "dists/trixie/main/binary-amd64/Packages.xz";
  packages_all_path = codes "dists/trixie/main/binary-all/Packages.xz";
  codename = codes "trixie";
  component_indexes = [];
  component_index_files = [];
  package_records = records;
  packages = files;
  package_names = codes "a.deb" ∷ [];
}

abbrev lock_record : Text → Text
lock_record version =
    codes "a|" ++ (version ++ (codes "|amd64|pool/a.deb|3|" ++ (digest_of 3 ++ codes "|a.deb")))

abbrev good_args : Arguments
good_args = args_of (lock_record (codes "1") ∷ []) ((7 ∷ 8 ∷ 9 ∷ []) ∷ [])

abbrev good_tree : Tree
good_tree =
    (codes "dists/trixie/InRelease", 1 ∷ 2 ∷ [])
    ∷ (codes "dists/trixie/Release", release_file)
    ∷ (codes "dists/trixie/Release.gpg", 3 ∷ [])
    ∷ (codes "dists/trixie/main/binary-amd64/Packages", amd64_index)
    ∷ (codes "dists/trixie/main/binary-all/Packages", [])
    ∷ (codes "pool/a.deb", 7 ∷ 8 ∷ 9 ∷ [])
    ∷ []

staged : stage count_sha256 plain plain trusting good_args ≡ ok good_tree
unfolding stage
staged = refl

-- A package of thirteen bytes has the digest, but not the size.
wrong_size :
    stage count_sha256 plain plain trusting
      (args_of (lock_record (codes "1") ∷ []) (replicate 13 7 ∷ []))
    ≡ err size_mismatch
unfolding stage
wrong_size = refl

other_version :
    stage count_sha256 plain plain trusting
      (args_of (lock_record (codes "2") ∷ []) ((7 ∷ 8 ∷ 9 ∷ []) ∷ []))
    ≡ err unmatched_packages
unfolding stage
other_version = refl

colliding :
    locked_packages (lock_record (codes "1") ∷ lock_record (codes "2") ∷ []) ≡ err path_collision
unfolding locked_packages
colliding = refl

outside : safe_package_path (codes "pool/../a.deb") ≡ err unsafe_path
unfolding safe_package_path
outside = refl

no_suite : suite_path (codes "dists/trixie") ≡ err no_suite_path
unfolding suite_path
no_suite = refl

abbrev good_locked : Locked
good_locked = record {
  key = (codes "a", codes "1", codes "amd64");
  filename = codes "pool/a.deb";
  size = 3;
  digest = digest_of 3;
  local_name = codes "a.deb";
}

read : locked_packages (lock_record (codes "1") ∷ []) ≡ ok (good_locked ∷ [])
unfolding locked_packages
read = refl

in_release :
    release_hash plain release_file (codes "main/binary-all/Packages.xz") 0 (digest_of 0) ≡ ok tt
unfolding release_hash
in_release = refl

stage-IsSnapshot_example : IsSnapshot count_sha256 plain plain trusting good_args good_tree
stage-IsSnapshot_example = stage-IsSnapshot count_sha256 plain plain trusting good_args staged

locked_packages-AreLocks_example : AreLocks (good_locked ∷ [])
locked_packages-AreLocks_example = locked_packages-AreLocks (lock_record (codes "1") ∷ []) read

release_hash-IsListed_example :
    IsListed plain release_file (codes "main/binary-all/Packages.xz") 0 (digest_of 0)
release_hash-IsListed_example =
    release_hash-IsListed plain release_file (codes "main/binary-all/Packages.xz") 0 (digest_of 0)
      in_release

indexed : component_indexes good_args ≡ ok (main_indexes good_args)
unfolding component_indexes text_eq
indexed = refl

component_indexes-AreIndexes_example : AreIndexes (codes "trixie") (main_indexes good_args)
component_indexes-AreIndexes_example = component_indexes-AreIndexes good_args indexed
