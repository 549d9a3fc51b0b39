-- ===== src/Debian/Universe/Order.antt =====
-- The order of the packages of a name, newest first, and that each name is filed once.
use rules_mkosi.Prelude.{
  ◌≡◌, refl, ap, List, [], ◌∷◌, IfOk, IfOk-bind, IfOk-if, IfOk-intro, IfOk-ok, ok, true, false,
  arith, All-intro,
}
use rules_mkosi.Prelude.Text.{Text}
use rules_mkosi.Prelude.Int.{ℤ, neg, is_neg}
use rules_mkosi.Prelude.Distinct.{Unrepeated}
use rules_mkosi.Prelude.Dict.{Dict, lookup_or, insert, keys, Entries, keys-insert_keeps}
use rules_mkosi.Debian.Version.{compare_versions}
use rules_mkosi.Debian.Version.Antisymmetry.{compare_versions-flip}
use rules_mkosi.Debian.Package.{Package}
use rules_mkosi.Debian.Universe.{
  add_candidate, group_packages, insert_newest, newest_first, order_candidates,
}

-- The first of two packages is not the older one, as `compare_versions` tells.
abbrev pub NotOlder : Package → Package → Type 0
NotOlder p q = (d : ℤ) × (compare_versions p.version q.version ≡ ok d) × (is_neg d ≡ false)

-- A package is not older than the first of the packages that follow it.
abbrev Leads : Package → List Package → Type 0
Leads p [] = Unit
Leads p (q ∷ qs) = NotOlder p q

-- No package is older than the next one.
abbrev pub IsNewestFirst : List Package → Type 0
IsNewestFirst [] = Unit
IsNewestFirst (p ∷ ps) = Leads p ps × IsNewestFirst ps

neg-not_neg : (d : ℤ) → is_neg d ≡ true → is_neg (neg d) ≡ false
unfolding is_neg neg
neg-not_neg d h = ground arith

NotOlder-flip :
    (p q : Package) (d : ℤ)
    → compare_versions p.version q.version ≡ ok d
    → is_neg d ≡ true
    → NotOlder q p
NotOlder-flip p q d e h =
    (neg d, rw (compare_versions-flip p.version q.version, e) refl, neg-not_neg d h)

insert_newest-IsNewestFirst :
    (p : Package) (qs : List Package)
    → IsNewestFirst qs
    → IfOk
        (λ rs. IsNewestFirst rs × ((x : Package) → NotOlder x p → Leads x qs → Leads x rs))
        (insert_newest p qs)
unfolding insert_newest
insert_newest-IsNewestFirst p [] h = ((tt, tt), λ x n l. n)
insert_newest-IsNewestFirst p (q ∷ qs) (l, h) =
    let Inserted = λ (rs : List Package).
      IsNewestFirst rs × ((x : Package) → NotOlder x p → NotOlder x q → Leads x rs) in
    IfOk-bind (λ d. compare_versions p.version q.version ≡ ok d) Inserted
      (compare_versions p.version q.version) _ (IfOk-intro _ _ (λ d e. e))
      (λ d e.
        IfOk-if Inserted (is_neg d) _ _
          (λ older.
            IfOk-bind _ Inserted (insert_newest p qs) _ (insert_newest-IsNewestFirst p qs h)
              (λ rs (sorted, keeps).
                ((keeps q (NotOlder-flip p q d e older) l, sorted), λ x n k. k)))
          (λ newer. (((d, e, newer), (l, h)), λ x n k. n)))

newest_first-IsNewestFirst : (ps : List Package) → IfOk IsNewestFirst (newest_first ps)
unfolding newest_first
newest_first-IsNewestFirst [] = tt
newest_first-IsNewestFirst (p ∷ ps) =
    IfOk-bind IsNewestFirst IsNewestFirst (newest_first ps) _ (newest_first-IsNewestFirst ps)
      (λ qs sorted.
        IfOk-intro IsNewestFirst (insert_newest p qs)
          (λ rs e. (IfOk-ok _ (insert_newest p qs) e (insert_newest-IsNewestFirst p qs sorted)).0))

abbrev pub Ordered : Dict (List Package) → Type 0
Ordered = Entries (λ name. IsNewestFirst)

pub order_candidates-Ordered : (d : Dict (List Package)) → IfOk Ordered (order_candidates d)
unfolding order_candidates
order_candidates-Ordered [] = tt
order_candidates-Ordered ((name, ps) ∷ d) =
    IfOk-bind IsNewestFirst Ordered (newest_first ps) _ (newest_first-IsNewestFirst ps) (λ qs hq.
      IfOk-bind Ordered Ordered (order_candidates d) _ (order_candidates-Ordered d)
        (λ rest hr. (hq, hr)))

pub order_candidates-keys :
    (d : Dict (List Package)) → IfOk (λ d'. keys d' ≡ keys d) (order_candidates d)
unfolding order_candidates keys
order_candidates-keys [] = refl
order_candidates-keys ((name, ps) ∷ d) =
    let Same = λ (d' : Dict (List Package)). keys d' ≡ name ∷ keys d in
    IfOk-bind (λ _. Unit) Same (newest_first ps) _ (IfOk-intro _ (newest_first ps) (λ _ _. tt))
      (λ qs _.
        IfOk-bind (λ d'. keys d' ≡ keys d) Same (order_candidates d) _ (order_candidates-keys d)
          (λ rest same. ap (λ names. name ∷ names) same))

insert-Unrepeated :
    (name : Text) (ps : List Package) (d : Dict (List Package))
    → Unrepeated (keys d)
    → Unrepeated (keys (insert name ps d))
insert-Unrepeated name ps d h =
    (keys-insert_keeps (λ _. Unit) name ps d tt (All-intro _ (keys d) (λ _ _. tt), h)).1

pub group_packages-Unrepeated :
    (ps : List Package) (d : Dict (List Package))
    → Unrepeated (keys d)
    → IfOk (λ d'. Unrepeated (keys d')) (group_packages ps d)
unfolding group_packages
group_packages-Unrepeated [] d h = h
group_packages-Unrepeated (p ∷ ps) d h =
    let bucket = lookup_or [] p.name d in
    IfOk-bind (λ _. Unit) (λ d'. Unrepeated (keys d')) (add_candidate p bucket) _
      (IfOk-intro _ (add_candidate p bucket) (λ _ _. tt))
      (λ qs _. group_packages-Unrepeated ps (insert p.name qs d) (insert-Unrepeated p.name qs d h))
