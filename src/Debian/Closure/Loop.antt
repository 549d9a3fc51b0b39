-- ===== src/Debian/Closure/Loop.antt =====
-- The `while` loop of `resolve` ends, with its queue empty.
use rules_mkosi.Prelude.{
  ℕ, zero, suc, ◌≤◌, ◌<◌, ◌≡◌, ◌∙◌, sym, ap, subst, inl, inr, List, [], ◌∷◌, none, some, Outcome,
  ok, err, IfOk, IfOk-intro, IfOk-ok, length, Elem, arith, Outcome-cases, List-cases,
}
use rules_mkosi.Debian.Error.{LockError}
use rules_mkosi.Debian.Package.{Package}
use rules_mkosi.Debian.Universe.{Universe}
use rules_mkosi.Debian.Universe.Sound.{IsIndexed}
use rules_mkosi.Debian.Closure.{Closure, groups_of, satisfy_all, drain}
use rules_mkosi.Debian.Closure.Invariant.{Served, IsSound, Advances, Advances-refl, pending}
use rules_mkosi.Debian.Closure.Rounds.{satisfy_all-ServesAll}

-- The loop's end: the queue is empty.
abbrev pub Drained : Universe → Closure → Closure → Type 0
Drained u c c' = Advances u none c c' × (c'.queue ≡ [])

module _ (input : List Package) (u : Universe) (valid : IsIndexed input u) where
  -- Taking a package from the queue leaves it exempt, and less work.
  pop-IsSound :
      (c : Closure) (p : Package) (ps : List Package)
      → c.queue ≡ p ∷ ps
      → IsSound u none c
      → IsSound u (some p) (record c { queue = ps })
        × (pending u (record c { queue = ps }) < pending u c)
  unfolding pending
  pop-IsSound c p ps e s = (
    record {
      named = s.named;
      queued = λ q m. s.queued q (subst (Elem q) (sym e) (inr m));
      served = λ n q h. elim (s.served n q h) [
        | inl never ↦ cc
        | inr (inl waits) ↦ elim (subst (Elem q) e waits) [
          | inl now ↦ inl (ap some (sym now))
          | inr later ↦ inr (inl later)
        ]
        | inr (inr done) ↦ inr (inr done)
      ];
    },
    omega (arith, ap length e),
  )

  -- With its groups satisfied the package is exempt no more.
  Served-IsSound :
      (c : Closure) (p : Package) → IsSound u (some p) c → Served u c.selected p → IsSound u none c
  Served-IsSound c p s done = record {
    named = s.named;
    queued = s.queued;
    served = λ n q h. elim (s.served n q h) [
      | inl now ↦ inr (inr (subst (Served u c.selected) {x = p} {y = q} (ground arith) done))
      | inr other ↦ inr other
    ];
  }

  drain-step :
      (fuel : ℕ) (c : Closure) (p : Package) (ps : List Package) (r : Outcome LockError Closure)
      → c.queue ≡ p ∷ ps
      → satisfy_all u p (groups_of p) (record c { queue = ps }) ≡ r
      → drain (suc fuel) u c ≡ elim r [ ok c' ↦ drain fuel u c' | err e ↦ some (err e) ]
  unfolding drain
  drain-step fuel c p ps r e h = rw (← h, e)

  -- The `while` loop ends within as many rounds as `pending` says, and leaves a sound closure
  -- whose queue is empty, or raises.
  pub drain_total :
      (fuel : ℕ) (c : Closure)
      → IsSound u none c
      → pending u c ≤ fuel
      → (r : Outcome LockError Closure) × (drain fuel u c ≡ some r) × IfOk (Drained u c) r
  unfolding drain
  drain_total zero c s h = elim (List-cases c.queue) [
    | inl e ↦ (ok c, rw e, (Advances-refl u none c s, e))
    | inr (p, ps, e) ↦ absurd (unfold pending in omega (arith, ap length e))
  ]
  drain_total (suc fuel) c s h = elim (List-cases c.queue) [
    | inl e ↦ (ok c, rw e, (Advances-refl u none c s, e))
    | inr (p, ps, e) ↦
        let popped = record c { queue = ps } in
        let (popped_sound, less) = pop-IsSound c p ps e s in
        elim (Outcome-cases (satisfy_all u p (groups_of p) popped)) [
          | inr (f, failed) ↦ (err f, drain-step fuel c p ps (err f) e failed, tt)
          | inl (c', served) ↦
              let (adv, done) = IfOk-ok _ (satisfy_all u p (groups_of p) popped) served (
                satisfy_all-ServesAll input u valid (some p) p (groups_of p) popped popped_sound) in
              let (r, ends, good) =
                drain_total fuel c' (Served-IsSound c' p adv.sound done)
                  (omega (arith, less, adv.fewer)) in
              (
                r,
                drain-step fuel c p ps (ok c') e served ∙ ends,
                IfOk-intro (Drained u c) r (λ d is_d.
                    let (more, empty_queue) = IfOk-ok (Drained u c') r is_d good in
                    (
                      record {
                        sound = more.sound;
                        extends = λ n q k. more.extends n q (adv.extends n q k);
                        fewer = omega (arith, less, adv.fewer, more.fewer);
                      },
                      empty_queue,
                    )),
              )
        ]
  ]
