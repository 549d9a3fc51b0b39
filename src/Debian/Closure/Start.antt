-- ===== src/Debian/Closure/Start.antt =====
-- What `resolve` selects before its loop: the bootstrap set and the requested packages.
use rules_mkosi.Prelude.{
  ◌≤◌, ◌≡◌, ◌≢◌, refl, ◌∙◌, sym, ap, subst, ◌⊎◌, inl, inr, List, [], ◌∷◌, ◌++◌, none, some, ok,
  IfOk, IfOk-bind, IfOk-intro, IfOk-ok, Elem, All, All-Elem, All-intro, arith, Option-cases,
  Bool-cases, List-cases,
}
use rules_mkosi.Prelude.Text.{Text, text_eq}
use rules_mkosi.Prelude.Dict.{Dict, lookup}
use rules_mkosi.Debian.Package.{Package}
use rules_mkosi.Debian.Universe.{Universe, all_packages, candidates, newest}
use rules_mkosi.Debian.Universe.Sound.{IsIndexed}
use rules_mkosi.Debian.Universe.Candidates.{Satisfies, candidates-Satisfies, newest-Elem}
use rules_mkosi.Debian.Closure.{
  Closure, empty, select, select_newest, select_names, bootstrap_names, select_bootstrap, with_name,
  pick, request, request_all, select_requested, bare, start,
}
use rules_mkosi.Debian.Closure.Select.{Extends}
use rules_mkosi.Debian.Closure.Invariant.{
  IsSound, Advances, Advances-refl, Advances-trans, select-Advances, pending, missing,
}

module _ (input : List Package) (u : Universe) (valid : IsIndexed input u) where
  -- The requested names: each has a selected package that is a candidate for it.
  abbrev pub Requested : Dict Package → Text → Type 0
  Requested s name = (p : Package) × Satisfies (bare name) p × (lookup p.name s ≡ some p)

  pub Requested-Extends :
      (s t : Dict Package) → Extends s t → (n : Text) → Requested s n → Requested t n
  Requested-Extends s t e n (p, fits, has) = (p, fits, e p.name p has)

  -- A name of the bootstrap set has its newest package selected.
  abbrev pub Newest : Dict Package → Text → Type 0
  Newest s name = (p : Package) × (newest u name ≡ some p) × (lookup p.name s ≡ some p)

  pub Newest-Extends : (s t : Dict Package) → Extends s t → (n : Text) → Newest s n → Newest t n
  Newest-Extends s t e n (p, new, has) = (p, new, e p.name p has)

  empty-IsSound : IsSound u none empty
  unfolding lookup
  empty-IsSound = record { named = λ n p h. cc; queued = λ p m. absurd m; served = λ n p h. cc }

  select_newest-Newest :
      (name : Text) (c : Closure)
      → IsSound u none c
      → IfOk (λ c'. Advances u none c c' × Newest c'.selected name) (select_newest u name c)
  unfolding select_newest
  select_newest-Newest name c s = IfOk-intro _ (select_newest u name c) (λ c' e.
      elim (Option-cases (newest u name)) [
        | inl nothing ↦ absurd (newest_raises c' nothing e)
        | inr (p, new) ↦
            let (adv, has) =
              select-Advances input u valid none c c' p (newest-Elem u name p new) s
                (rw (new, select_newest) at e) in
            (adv, (p, new, has))
      ])
    where
      newest_raises : (c' : Closure) → newest u name ≡ none → select_newest u name c ≡ ok c' → ⊥
      newest_raises c' nothing e = ground arith

  select_names-Newest :
      (names : List Text) (c : Closure)
      → IsSound u none c
      → IfOk (λ c'. Advances u none c c' × All (Newest c'.selected) names) (select_names u names c)
  unfolding select_names
  select_names-Newest [] c s = (Advances-refl u none c s, tt)
  select_names-Newest (name ∷ names) c s =
      IfOk-bind (λ c'. Advances u none c c' × Newest c'.selected name) _ (select_newest u name c) _
        (select_newest-Newest name c s)
        (λ c' (adv, first). IfOk-intro _ (select_names u names c') (λ d e.
          let (more, rest) =
            IfOk-ok _ (select_names u names c') e (select_names-Newest names c' adv.sound) in
          (
            Advances-trans u none c c' d adv more,
            (Newest-Extends c'.selected d.selected more.extends name first, rest),
          )))

  with_name-Elem :
      (name : Text) (ps : List Package) (p : Package) → Elem p (with_name name ps) → Elem p ps
  unfolding with_name
  with_name-Elem name [] p m = absurd m
  with_name-Elem name (q ∷ ps) p m = elim (Bool-cases (text_eq q.name name)) [
    | inl same ↦ elim (rw same at m) [
      | inl e ↦ inl e
      | inr later ↦ inr (with_name-Elem name ps p later)
    ]
    | inr differ ↦ inr (with_name-Elem name ps p (rw differ at m))
  ]

  pick-Elem :
      (real all : List Package) (p : Package)
      → ((q : Package) → Elem q real → Elem q all)
      → pick real all ≡ ok (some p)
      → Elem p all
  unfolding pick
  pick-Elem (q ∷ real) all p inside e =
      subst (λ x. Elem x all) {x = q} {y = p} (ground arith) (inside q (inl refl))
  pick-Elem [] [] p inside e = cc
  pick-Elem [] (q ∷ []) p inside e = inl (ground arith)
  pick-Elem [] (q ∷ x ∷ more) p inside e = cc

  -- A request advances, and selects a package for the name or notes it as missing.
  abbrev Answers : Closure × List Text → Text → Closure × List Text → Type 0
  Answers (c, missing) name (c', missing') =
      Advances u none c c'
      × ((Requested c'.selected name × (missing' ≡ missing)) ⊎ (missing' ≡ missing ++ name ∷ []))

  request-Answers :
      (name : Text) (c : Closure) (missing : List Text)
      → IsSound u none c
      → IfOk (Answers (c, missing) name) (request u name (c, missing))
  unfolding request
  request-Answers name c missing s =
      IfOk-bind (λ found. candidates u (bare name) ≡ ok found) (Answers (c, missing) name)
        (candidates u (bare name)) _ (IfOk-intro _ (candidates u (bare name)) (λ found e. e))
        (λ found known.
          IfOk-bind (λ o. pick (with_name name found) found ≡ ok o) (Answers (c, missing) name)
            (pick (with_name name found) found) _
            (IfOk-intro _ (pick (with_name name found) found) (λ o e. e))
            (λ o picked. elim (Option-cases o) [
              | inl nothing ↦ rw nothing (Advances-refl u none c s, inr refl)
              | inr (p, chosen) ↦ rw chosen (
                  let m =
                    pick-Elem (with_name name found) found p (with_name-Elem name found)
                      (picked ∙ ap ok chosen) in
                  let (inside, fits) =
                    candidates-Satisfies input u valid (bare name) found known p m in
                  IfOk-bind (λ c'. select c p ≡ ok c') (Answers (c, missing) name) (select c p) _
                    (IfOk-intro _ (select c p) (λ c' e. e))
                    (λ c' e.
                      let (adv, has) = select-Advances input u valid none c c' p inside s e in
                      (adv, inl ((p, fits, has), refl))))
            ]))

  abbrev AnswersAll : Closure × List Text → List Text → Closure × List Text → Type 0
  AnswersAll (c, missing) names (c', missing') =
      Advances u none c c' × (missing' ≡ [] → (missing ≡ []) × All (Requested c'.selected) names)

  append-ne-nil : {A : Type 0} (xs : List A) (x : A) → xs ++ x ∷ [] ≢ []
  append-ne-nil [] x e = cc
  append-ne-nil (y ∷ xs) x e = cc

  request_all-AnswersAll :
      (names : List Text) (c : Closure) (missing : List Text)
      → IsSound u none c
      → IfOk (AnswersAll (c, missing) names) (request_all u names (c, missing))
  unfolding request_all
  request_all-AnswersAll [] c missing s = (Advances-refl u none c s, λ e. (e, tt))
  request_all-AnswersAll (name ∷ names) c missing s =
      IfOk-bind (Answers (c, missing) name) (AnswersAll (c, missing) (name ∷ names))
        (request u name (c, missing)) _ (request-Answers name c missing s)
        (λ (c', missing') (adv, answer).
          IfOk-intro _ (request_all u names (c', missing')) (λ (d, missing'') e.
            let (more, rest) =
              IfOk-ok _ (request_all u names (c', missing')) e
                (request_all-AnswersAll names c' missing' adv.sound) in
            (
              Advances-trans u none c c' d adv more,
              λ none_missing.
                  let (before, others) = rest none_missing in
                  elim answer [
                    | inl (first, same) ↦ (
                      sym same ∙ before,
                      (Requested-Extends c'.selected d.selected more.extends name first, others),
                    )
                    | inr added ↦ absurd (append-ne-nil missing name (sym added ∙ before))
                  ],
            )))

  -- What `resolve` has selected before its loop.
  pub record IsStarted (requested : List Text) (c : Closure) : Type 0 where
    pub sound : IsSound u none c
    pub fits : pending u c ≤ pending u empty
    pub bootstrap : All (Newest c.selected) (bootstrap_names (all_packages u))
    pub answered : All (Requested c.selected) requested

  pub start-IsStarted : (requested : List Text) → IfOk (IsStarted requested) (start u requested)
  unfolding start select_bootstrap select_requested
  start-IsStarted requested =
      let names = bootstrap_names (all_packages u) in
      IfOk-bind (λ c. Advances u none empty c × All (Newest c.selected) names) (IsStarted requested)
        (select_names u names empty) _ (select_names-Newest names empty empty-IsSound)
        (λ c (adv, base).
          IfOk-bind (AnswersAll (c, []) requested) (IsStarted requested)
            (request_all u requested (c, [])) _ (request_all-AnswersAll requested c [] adv.sound)
            (λ (d, missing) (more, answer). elim (List-cases missing) [
              | inl complete ↦ rw complete (record {
                sound = more.sound;
                fits = omega (arith, adv.fewer, more.fewer);
                bootstrap = All-intro _ names (λ n m.
                    Newest-Extends c.selected d.selected more.extends n
                      (All-Elem _ names base n m));
                answered = (answer complete).1;
              })
              | inr (n, ns, some_missing) ↦ rw some_missing tt
            ]))
