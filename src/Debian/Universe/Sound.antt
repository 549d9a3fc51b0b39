-- ===== src/Debian/Universe/Sound.antt =====
-- Every candidate of a relation is a package of the universe, and satisfies the relation.
use rules_mkosi.Prelude.{
  ◌≡◌, refl, sym, subst, inl, inr, ◌&&◌, List, [], ◌∷◌, Option, IfOk, IfOk-bind, IfOk-if,
  IfOk-intro, IfOk-ok, ok, Elem, All, All-intro, All-append, Bool-cases,
}
use rules_mkosi.Prelude.Text.{Text, text_eq}
use rules_mkosi.Prelude.Dict.{
  Dict, lookup_or, insert, values, keys, Entries, Entries-insert, Entries-lookup_or,
}
use rules_mkosi.Debian.Version.{compare_versions}
use rules_mkosi.Prelude.Int.{is_neg}
use rules_mkosi.Debian.Package.{Package, package_eq}
use rules_mkosi.Debian.Universe.Order.{
  Ordered, order_candidates-Ordered, order_candidates-keys, group_packages-Unrepeated,
}
use rules_mkosi.Prelude.Distinct.{Unrepeated}
use rules_mkosi.Debian.Universe.{
  Universe, Provider, add_candidate, group_packages, insert_newest, newest_first, order_candidates,
  add_provides, add_providers, insert_provider, preferred, sort_providers, sort_all, concat,
  universe, all_packages,
}

-- The buckets of `by_name`: each holds packages of its name that come from `input`.
abbrev Filed : List Package → Dict (List Package) → Type 0
Filed input = Entries (λ name. All (λ p. (p.name ≡ name) × Elem p input))

add_candidate-All :
    (P : Package → Type 0) (p : Package) (qs : List Package)
    → P p
    → All P qs
    → IfOk (All P) (add_candidate p qs)
unfolding add_candidate
add_candidate-All P p [] hp h = (hp, tt)
add_candidate-All P p (q ∷ qs) hp h =
    IfOk-if (All P) (text_eq q.version p.version && text_eq q.architecture p.architecture) _ _
      (λ same.
        IfOk-if (All P) (package_eq q (record p { component = q.component })) _ _ (λ _. h)
          (λ _. tt))
      (λ differ.
        IfOk-bind (All P) (All P) (add_candidate p qs) _ (add_candidate-All P p qs hp h.1)
          (λ rs hr. (h.0, hr)))

group_packages-Filed :
    (input ps : List Package) (d : Dict (List Package))
    → All (λ p. Elem p input) ps
    → Filed input d
    → IfOk (Filed input) (group_packages ps d)
unfolding group_packages
group_packages-Filed input [] d hp h = h
group_packages-Filed input (p ∷ ps) d hp h =
    let bucket = lookup_or [] p.name d in
    IfOk-bind (All (λ q. (q.name ≡ p.name) × Elem q input)) (Filed input) (add_candidate p bucket) _
      (add_candidate-All (λ q. (q.name ≡ p.name) × Elem q input) p bucket (refl, hp.0)
        (Entries-lookup_or (λ name. All (λ q. (q.name ≡ name) × Elem q input)) p.name [] d tt h))
      (λ qs hq.
        group_packages-Filed input ps (insert p.name qs d) hp.1
          (Entries-insert (λ name. All (λ q. (q.name ≡ name) × Elem q input)) p.name qs d hq h))

insert_newest-All :
    (P : Package → Type 0) (p : Package) (qs : List Package)
    → P p
    → All P qs
    → IfOk (All P) (insert_newest p qs)
unfolding insert_newest
insert_newest-All P p [] hp h = (hp, tt)
insert_newest-All P p (q ∷ qs) hp h =
    IfOk-bind (λ _. Unit) (All P) (compare_versions p.version q.version) _
      (IfOk-intro _ _ (λ _ _. tt))
      (λ d _.
        IfOk-if (All P) (is_neg d) _ _
          (λ _.
            IfOk-bind (All P) (All P) (insert_newest p qs) _ (insert_newest-All P p qs hp h.1)
              (λ rs hr. (h.0, hr)))
          (λ _. (hp, h)))

newest_first-All :
    (P : Package → Type 0) (ps : List Package) → All P ps → IfOk (All P) (newest_first ps)
unfolding newest_first
newest_first-All P [] h = tt
newest_first-All P (p ∷ ps) h =
    IfOk-bind (All P) (All P) (newest_first ps) _ (newest_first-All P ps h.1)
      (λ qs hq. insert_newest-All P p qs h.0 hq)

order_candidates-Filed :
    (input : List Package) (d : Dict (List Package))
    → Filed input d
    → IfOk (Filed input) (order_candidates d)
unfolding order_candidates
order_candidates-Filed input [] h = tt
order_candidates-Filed input ((name, ps) ∷ d) h =
    let P = λ (q : Package). (q.name ≡ name) × Elem q input in
    IfOk-bind (All P) (Filed input) (newest_first ps) _ (newest_first-All P ps h.0) (λ qs hq.
      IfOk-bind (Filed input) (Filed input) (order_candidates d) _
        (order_candidates-Filed input d h.1) (λ rest hr. (hq, hr)))

-- The providers of a name come from `base` and name it in their `provides`.
abbrev Provided : List Package → Text → List Provider → Type 0
Provided base name = All (λ x. Elem x.0 base × Elem (name, x.1) x.0.provides)

add_provides-Provided :
    (base : List Package) (p : Package) (xs : List (Text × Option Text)) (d : Dict (List Provider))
    → Elem p base
    → All (λ x. Elem x p.provides) xs
    → Entries (Provided base) d
    → Entries (Provided base) (add_provides p xs d)
unfolding add_provides
add_provides-Provided base p [] d hp hx h = h
add_provides-Provided base p ((name, version) ∷ xs) d hp hx h =
    add_provides-Provided base p xs _ hp hx.1 (
      Entries-insert (Provided base) name _ d
        (All-append _ (lookup_or [] name d) ((p, version) ∷ [])
          (Entries-lookup_or (Provided base) name [] d tt h) ((hp, hx.0), tt))
        h)

add_providers-Provided :
    (base ps : List Package) (d : Dict (List Provider))
    → All (λ p. Elem p base) ps
    → Entries (Provided base) d
    → Entries (Provided base) (add_providers ps d)
unfolding add_providers
add_providers-Provided base [] d hp h = h
add_providers-Provided base (p ∷ ps) d hp h =
    add_providers-Provided base ps _ hp.1
      (add_provides-Provided base p p.provides d hp.0 (All-intro _ _ (λ _ m. m)) h)

insert_provider-All :
    (P : Provider → Type 0) (x : Provider) (ys : List Provider)
    → P x
    → All P ys
    → All P (insert_provider x ys)
unfolding insert_provider
insert_provider-All P x [] hx h = (hx, tt)
insert_provider-All P x (y ∷ ys) hx h = elim (Bool-cases (preferred y x)) [
  | inl before ↦ rw before (h.0, insert_provider-All P x ys hx h.1)
  | inr after ↦ rw after (hx, h)
]

sort_providers-All :
    (P : Provider → Type 0) (xs : List Provider) → All P xs → All P (sort_providers xs)
unfolding sort_providers
sort_providers-All P [] h = tt
sort_providers-All P (x ∷ xs) h = insert_provider-All P x _ h.0 (sort_providers-All P xs h.1)

sort_all-Provided :
    (base : List Package) (d : Dict (List Provider))
    → Entries (Provided base) d
    → Entries (Provided base) (sort_all d)
unfolding sort_all
sort_all-Provided base [] h = tt
sort_all-Provided base ((name, xs) ∷ d) h =
    (sort_providers-All _ xs h.0, sort_all-Provided base d h.1)

-- What the indexes of a universe hold.
pub record IsIndexed (input : List Package) (u : Universe) : Type 0 where
  pub filed : Filed input u.packages_by_name
  pub ordered : Ordered u.packages_by_name
  pub distinct : Unrepeated (keys u.packages_by_name)
  pub provided : Entries (Provided (all_packages u)) u.providers

-- `Universe.__init__` builds such indexes.
pub universe-IsIndexed : (ps : List Package) → IfOk (IsIndexed ps) (universe ps)
unfolding universe all_packages keys
universe-IsIndexed ps =
    let Grouped = λ (d : Dict (List Package)). Filed ps d × Unrepeated (keys d) in
    IfOk-bind Grouped (IsIndexed ps) (group_packages ps []) _
      (IfOk-intro Grouped (group_packages ps []) (λ d e. (
        IfOk-ok _ (group_packages ps []) e
            (group_packages-Filed ps ps [] (All-intro _ _ (λ _ m. m)) tt),
        IfOk-ok _ (group_packages ps []) e (group_packages-Unrepeated ps [] tt),
      )))
      (λ by_name (hb, different).
        IfOk-bind (λ d. order_candidates by_name ≡ ok d) (IsIndexed ps) (order_candidates by_name) _
          (IfOk-intro _ (order_candidates by_name) (λ d e. e))
          (λ ordered e.
            let base = concat (values ordered) in
            record {
              filed = IfOk-ok _ (order_candidates by_name) e (order_candidates-Filed ps by_name hb);
              ordered = IfOk-ok _ (order_candidates by_name) e (order_candidates-Ordered by_name);
              distinct =
                  subst Unrepeated
                    (sym (
                      IfOk-ok (λ d. keys d ≡ keys by_name) (order_candidates by_name) e
                        (order_candidates-keys by_name)))
                    different;
              provided =
                  sort_all-Provided base (add_providers base [])
                    (add_providers-Provided base base [] (All-intro _ base (λ _ m. m)) tt);
            }))
