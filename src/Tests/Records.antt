-- ===== src/Tests/Records.antt =====
-- An index of one package, and relations.
use rules_mkosi.Prelude.{◌≡◌, refl, false, [], ◌∷◌, ◌++◌, none, some, ok, err, All}
use rules_mkosi.Prelude.Text.{Text, codes}
use rules_mkosi.Debian.Error.{malformed_relation, provides_inexact}
use rules_mkosi.Debian.Package.{Relation, Package}
use rules_mkosi.Debian.Relations.{parse_relation, relation_text, parse_relations, parse_provides}
use rules_mkosi.Debian.Relations.Forms.{IsRelation}
use rules_mkosi.Debian.Relations.Grammar.{parse_relation-IsRelation}
use rules_mkosi.Debian.Records.{lock_key, parse_packages}
use rules_mkosi.Debian.Records.Checked.{IsRecord, parse_packages-Records}

abbrev libc : Relation
libc = record {
  name = codes "libc6";
  arch = some (codes "any");
  operator = some (codes ">=");
  version = some (codes "2.36");
}

relation_parsed : parse_relation (codes "libc6:any (>= 2.36) [amd64] <!nocheck> <x>") ≡ some libc
unfolding parse_relation
relation_parsed = refl

relation_written : relation_text libc ≡ codes "libc6:any (>= 2.36)"
unfolding relation_text
relation_written = refl

-- Where the longer operator leaves no version, the shorter one is taken.
shorter_operator :
    parse_relation (codes "aa (<=)")
    ≡ some (record {
      name = codes "aa";
      arch = none;
      operator = some (codes "<");
      version = some (codes "=");
    })
unfolding parse_relation
shorter_operator = refl

too_short : parse_relations (some (codes "aa, b")) ≡ err malformed_relation
unfolding parse_relations
too_short = refl

inexact : parse_provides (some (codes "aa (>= 1)")) ≡ err provides_inexact
unfolding parse_provides
inexact = refl

key : lock_key (codes "g++") (codes "1:2+b~1") (codes "amd64") ≡ codes "g-p--p-_1-2-p-b-t-1_amd64"
unfolding lock_key
key = refl

parse_relation-IsRelation_example :
    IsRelation libc × (parse_relation (relation_text libc) ≡ some libc)
parse_relation-IsRelation_example =
    parse_relation-IsRelation (codes "libc6:any (>= 2.36) [amd64] <!nocheck> <x>") relation_parsed

abbrev digest : Text
digest = codes "0123456789abcdef0123456789abcdef0123456789abcdef0123456789abcdef"

abbrev index : Text
index =
    codes "Package: bash"
    ++ (10 ∷ codes "Version: 5.2"
        ++ (10 ∷ codes "Architecture: amd64"
            ++ (10 ∷ codes "Size: 12"
                ++ (10 ∷ codes "SHA256: "
                    ++ (digest
                        ++ (10 ∷ codes "Filename: pool/b"
                            ++ (10 ∷ codes "Depends: libc6:any (>= 2.36)" ++ (10 ∷ []))))))))

abbrev bash : Package
bash = record {
  name = codes "bash";
  version = codes "5.2";
  architecture = codes "amd64";
  component = codes "main";
  filename = codes "pool/b";
  size = 12;
  sha256 = digest;
  multi_arch = codes "no";
  essential = false;
  priority = codes "optional";
  pre_depends = [];
  depends = (libc ∷ []) ∷ [];
  provides = [];
}

index_parsed : parse_packages index (codes "main") (codes "amd64") ≡ ok (bash ∷ [])
unfolding parse_packages
index_parsed = refl

parse_packages-Records_example : All (IsRecord (codes "main") (codes "amd64")) (bash ∷ [])
parse_packages-Records_example =
    parse_packages-Records index (codes "main") (codes "amd64") index_parsed
