-- ===== src/Tests/Debian.antt =====
-- The version comparison and the resolver at concrete data.
use rules_mkosi.Prelude.{
  ◌+◌, ◌≡◌, ◌≢◌, refl, ◌||◌, Bool, true, false, List, [], ◌∷◌, ◌++◌, none, some, Outcome, ok, err,
  Elem, All, ltb, ◌==◌, ◌>>=◌, arith,
}
use rules_mkosi.Prelude.Int.{ℤ, is_neg, is_zero, neg, ◌-ℤ◌, int_eq}
use rules_mkosi.Prelude.Text.{Text, codes, text_eq, decimal, every, is_digit}
use rules_mkosi.Prelude.Dict.{lookup, lookup_or, keys}
use rules_mkosi.Debian.Error.{LockError, invalid_epoch}
use rules_mkosi.Debian.Version.{compare_versions, compare_digits, fragment_loop, order, at_digit}
use rules_mkosi.Debian.Version.Antisymmetry.{compare_versions-flip}
use rules_mkosi.Debian.Version.Fuel.{fragment_loop-total}
use rules_mkosi.Debian.Version.Numbers.{compare_digits-Agrees}
use rules_mkosi.Debian.Package.{Relation, Package}
use rules_mkosi.Debian.Universe.{Universe, universe, all_packages}
use rules_mkosi.Debian.Universe.Order.{IsNewestFirst}
use rules_mkosi.Debian.Universe.Candidates.{Satisfies}
use rules_mkosi.Debian.Closure.{Closure, resolve, bare}
use rules_mkosi.Debian.Closure.Invariant.{Served}
use rules_mkosi.Debian.Closure.Resolve.{resolve_total, resolve-Served, resolve-answers}

compare_sign : Text → Text → Outcome LockError Bool
unfolding compare_versions is_neg
compare_sign left right = do d ← compare_versions left right; ok (is_neg d)

-- A tilde sorts before the end, numbers by value, and the epoch first.
compare_cases :
    (compare_sign (codes "1.0~rc1") (codes "1.0") ≡ ok true)
    × (compare_sign (codes "1.9") (codes "1.10") ≡ ok true)
    × (compare_sign (codes "1:0.1") (codes "9.0-1") ≡ ok false)
    × (compare_sign (codes "1.0-2") (codes "1.0-10") ≡ ok true)
    × (compare_sign (codes "x:1") (codes "1") ≡ err invalid_epoch)
unfolding compare_sign is_zero ◌-ℤ◌ int_eq order
compare_cases = (refl, refl, refl, refl, refl)

compare_versions-flip_example :
    compare_versions (codes "1.0") (codes "1.0~rc1")
    ≡ (do d ← compare_versions (codes "1.0~rc1") (codes "1.0"); ok (neg d))
compare_versions-flip_example = compare_versions-flip (codes "1.0~rc1") (codes "1.0")

fragment_loop-total_example :
    (d : ℤ) × (fragment_loop 6 (codes "1a") (codes "01b") ≡ some d)
    × (fragment_loop (6 + 3) (codes "1a") (codes "01b") ≡ some d)
fragment_loop-total_example = fragment_loop-total 6 3 (codes "1a") (codes "01b") (omega arith)

compare_digits-Agrees_example :
    (is_neg (compare_digits (codes "009" ++ codes "a") (codes "10" ++ [])).0
      ≡ ltb (decimal 0 (codes "009")) (decimal 0 (codes "10")))
    × (is_zero (compare_digits (codes "009" ++ codes "a") (codes "10" ++ [])).0
        ≡ (decimal 0 (codes "009") == decimal 0 (codes "10")))
unfolding every is_digit at_digit
compare_digits-Agrees_example =
    compare_digits-Agrees (codes "009") (codes "10") (codes "a") [] refl refl refl refl

abbrev sample : Text → Text → List (List Relation) → Package
sample name version depends = record {
  name = name;
  version = version;
  architecture = codes "amd64";
  component = codes "main";
  filename = codes "pool/x.deb";
  size = 1;
  sha256 = [];
  multi_arch = codes "no";
  essential = false;
  priority = codes "optional";
  pre_depends = [];
  depends = depends;
  provides = [];
}

abbrev libc : Package
libc = record (sample (codes "libc6") (codes "2.41-1") []) { priority = codes "required" }

abbrev old_libc : Package
old_libc = sample (codes "libc6") (codes "2.36-9") []

abbrev shell : Package
shell =
    record (sample (codes "dash") (codes "0.5.12-1") (
      (record {
        name = codes "libc6";
        arch = none;
        operator = some (codes ">=");
        version = some (codes "2.38");
      }
        ∷ [])
      ∷ [])) { provides = (codes "sh", none) ∷ [] }

abbrev tool : Package
tool = sample (codes "tool") (codes "1") ((bare (codes "missing") ∷ bare (codes "sh") ∷ []) ∷ [])

abbrev index : List Package
index = old_libc ∷ tool ∷ libc ∷ shell ∷ []

abbrev world : Universe
world = record {
  packages_by_name =
      (codes "libc6", libc ∷ old_libc ∷ [])
      ∷ (codes "tool", tool ∷ [])
      ∷ (codes "dash", shell ∷ [])
      ∷ [];
  providers = (codes "sh", (shell, none) ∷ []) ∷ [];
}

universe-index : universe index ≡ ok world
unfolding universe is_zero ◌-ℤ◌ int_eq order
universe-index = refl

abbrev chosen : Closure
chosen = record {
  selected = (codes "libc6", libc) ∷ (codes "tool", tool) ∷ (codes "dash", shell) ∷ [];
  edges =
      (codes "libc6", [])
      ∷ (codes "tool", codes "dash" ∷ [])
      ∷ (codes "dash", codes "libc6" ∷ [])
      ∷ [];
  queue = [];
}

resolve-tool : resolve world (codes "tool" ∷ []) ≡ some (ok chosen)
unfolding resolve keys ◌-ℤ◌ int_eq order
resolve-tool = refl

resolve_total_example : resolve world (codes "tool" ∷ []) ≢ none
resolve_total_example = resolve_total index world (codes "tool" ∷ []) universe-index

resolve-Served_example :
    (tool.name ≡ codes "tool") × Elem tool index × Served world chosen.selected tool
unfolding lookup text_eq
resolve-Served_example =
    resolve-Served index world (codes "tool" ∷ []) chosen universe-index resolve-tool (codes "tool")
      tool refl

resolve-answers_example :
    All
      (λ name. (p : Package) × Satisfies (bare name) p × (lookup p.name chosen.selected ≡ some p))
      (codes "tool" ∷ [])
    × ((p : Package)
        → Elem p (all_packages world)
        → (p.essential || text_eq p.priority (codes "required")) ≡ true
        → (q : Package) × (older : List Package) × (lookup_or [] p.name world.packages_by_name
            ≡ q ∷ older)
          × IsNewestFirst (q ∷ older)
          × Elem p (q ∷ older)
          × (lookup p.name chosen.selected ≡ some q))
resolve-answers_example =
    resolve-answers index world (codes "tool" ∷ []) chosen universe-index resolve-tool
