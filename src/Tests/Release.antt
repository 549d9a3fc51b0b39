-- ===== src/Tests/Release.antt =====
-- A Release file of one index, and a clear-signed text.
use rules_mkosi.Prelude.{ℕ, ◌≡◌, refl, List, [], ◌∷◌, ◌++◌, some, ok, err, Outcome}
use rules_mkosi.Prelude.Text.{Text, codes, text_eq}
use rules_mkosi.Prelude.Dict.{Dict}
use rules_mkosi.Debian.Error.{LockError, wrong_suite}
use rules_mkosi.Debian.Release.{
  Checksums, cleartext_payload, release_checksums, release_number, index_name, fetch_index,
}
use rules_mkosi.Debian.Release.Authentic.{IsAuthentic, fetch_index-IsAuthentic}

abbrev digest : Text
digest = codes "0123456789abcdef0123456789abcdef0123456789abcdef0123456789abcdef"

abbrev path : Text
path = codes "main/binary-amd64/Packages.xz"

abbrev line : Text → Text → Text
line first rest = first ++ (10 ∷ rest)

abbrev release : Text
release = line (codes "Codename: trixie") (
    line (codes "Components: main contrib") (
      line (codes "Architectures: all amd64") (
        line (codes "Version: 13.1")
          (line (codes "SHA256:") (line (codes " " ++ (digest ++ (codes " 3 " ++ path))) [])))))

abbrev fields : Dict Text
fields =
    (codes "Codename", codes "trixie")
    ∷ (codes "Components", codes "main contrib")
    ∷ (codes "Architectures", codes "all amd64")
    ∷ (codes "Version", codes "13.1")
    ∷ (codes "SHA256", 10 ∷ (digest ++ (codes " 3 " ++ path)))
    ∷ []

abbrev sums : Checksums
sums = (path, (digest, 3)) ∷ []

fetcher : Text → Outcome LockError (List ℕ)
fetcher url = ok (1 ∷ 2 ∷ 3 ∷ [])

constant_sha256 : List ℕ → Text
constant_sha256 bytes = digest

listed : release_checksums release ≡ ok (fields, sums)
unfolding release_checksums text_eq
listed = refl

fetched :
    fetch_index fetcher constant_sha256 (codes "u") (codes "d") path sums ≡ ok (1 ∷ 2 ∷ 3 ∷ [])
unfolding fetch_index fetcher constant_sha256
fetched = refl

numbered : release_number fields (codes "trixie") (codes "main" ∷ []) (some []) ≡ ok (codes "13")
unfolding release_number
numbered = refl

other_suite : release_number fields (codes "sid") (codes "main" ∷ []) (some []) ≡ err wrong_suite
unfolding release_number
other_suite = refl

named : index_name (codes "contrib") (codes "all") ≡ codes "contrib_packages_all_xz"
unfolding index_name
named = refl

payload :
    cleartext_payload (
      line (codes "-----BEGIN PGP SIGNED MESSAGE-----") (
        line (codes "Hash: SHA512") (
          line []
            (line (codes "- -a") (line (codes "b") (codes "-----BEGIN PGP SIGNATURE-----"))))))
    ≡ ok (line (codes "-a") (line (codes "b") []))
unfolding cleartext_payload
payload = refl

fetch_index-IsAuthentic_example : IsAuthentic constant_sha256 path sums (1 ∷ 2 ∷ 3 ∷ [])
fetch_index-IsAuthentic_example =
    fetch_index-IsAuthentic fetcher constant_sha256 release (codes "u") (codes "d") path listed
      fetched
