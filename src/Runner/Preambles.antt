-- ===== src/Runner/Preambles.antt =====
-- The preamble of the runner as pairs: `parse_preamble` and `preamble_value` of
-- mkosi/private/mkosi_runner/command_line.py.
use rules_mkosi.Prelude.{
  ◌≡◌, refl, sym, subst, ap, ◌∙◌, ◌↔◌, Bool, true, false, List, [], ◌∷◌, Outcome, ok, guard, ◌>>=◌,
  ◌>>◌, >>=-eq-ok, inl, inr, Bool-cases, All, IfOk-ok,
}
use rules_mkosi.Prelude.Text.{Text, codes, text_eq, text_eq_iff}
use rules_mkosi.Prelude.Dict.{Dict, lookup}
use rules_mkosi.Runner.CommandLine.Error.{ExitError, missing_preflight}
use rules_mkosi.Runner.CommandLine.Preamble.{
  Preamble, no_preamble, apply_preamble_option, preamble_from, is_set, parse_preamble,
  preamble_value,
}

-- `option value ... -- arguments`
unfoldable pub written : Dict Text → List Text → List Text
written [] arguments = codes "--" ∷ arguments
written ((spelling, value) ∷ pairs) arguments = spelling ∷ value ∷ written pairs arguments

-- The options applied one after another.
unfoldable pub applied : Text → Dict Text → Preamble → Outcome ExitError Preamble
applied cwd [] p = ok p
applied cwd ((spelling, value) ∷ pairs) p = do
  p' ← apply_preamble_option cwd spelling value p
  applied cwd pairs p'

-- No option is spelled "--".
abbrev pub Dashless : Dict Text → Type 0
Dashless pairs = All (λ (x : Text × Text). text_eq x.0 (codes "--") ≡ false) pairs

-- The parts of accepted arguments.
abbrev pub Parts : Text → List Text → Preamble → Preamble × List Text → Type 0
Parts cwd argv p (result, arguments) =
    (pairs : Dict Text) × (argv ≡ written pairs arguments)
    × Dashless pairs
    × (applied cwd pairs p ≡ ok result)

preamble_from_sound :
    (cwd : Text) (argv : List Text) (p : Preamble) {result : Preamble × List Text}
    → preamble_from cwd argv p ≡ ok result
    → Parts cwd argv p result
unfolding preamble_from written applied
preamble_from_sound cwd [] p e = cc
preamble_from_sound cwd (spelling ∷ []) p e = elim (Bool-cases (text_eq spelling (codes "--"))) [
  | inl dashes ↦
      IfOk-ok (Parts cwd (spelling ∷ []) p) (ok (p, [])) (rw dashes at e)
        ([], ap (λ s. s ∷ []) ((text_eq_iff spelling (codes "--")).0 dashes), tt, refl)
  | inr other ↦ absurd (let e' = rw other at e in cc)
]
preamble_from_sound cwd (spelling ∷ value ∷ argv) p {result} e =
    elim (Bool-cases (text_eq spelling (codes "--"))) [
      | inl dashes ↦
          IfOk-ok (Parts cwd (spelling ∷ value ∷ argv) p) (ok (p, value ∷ argv)) (rw dashes at e) (
            [],
            ap (λ s. s ∷ value ∷ argv) ((text_eq_iff spelling (codes "--")).0 dashes),
            tt,
            refl,
          )
      | inr other ↦
          let (p', first, e') =
            >>=-eq-ok (apply_preamble_option cwd spelling value p) _ (rw other at e) in
          let (pairs, is_written, dashless, others) = preamble_from_sound cwd argv p' e' in
          (
            (spelling, value) ∷ pairs,
            ap (λ s. spelling ∷ value ∷ s) is_written,
            (other, dashless),
            rw first others,
          )
    ]

ok_with :
    {p result : Preamble} (arguments : List Text)
    → ◌≡◌ {A = Outcome ExitError Preamble} (ok p) (ok result)
    → ◌≡◌ {A = Outcome ExitError (Preamble × List Text)}
        (ok (p, arguments))
        (ok (result, arguments))
ok_with {p} {result} arguments e = ap (λ m. m >>= λ r. ok (r, arguments)) e

preamble_from_complete :
    (cwd : Text) (pairs : Dict Text) (arguments : List Text) (p : Preamble) {result : Preamble}
    → Dashless pairs
    → applied cwd pairs p ≡ ok result
    → preamble_from cwd (written pairs arguments) p ≡ ok (result, arguments)
unfolding preamble_from written applied
preamble_from_complete cwd [] [] p h e = ok_with [] e
preamble_from_complete cwd [] (a ∷ arguments) p h e = ok_with (a ∷ arguments) e
preamble_from_complete cwd ((spelling, value) ∷ pairs) arguments p (other, h) e =
    let (p', first, e') = >>=-eq-ok (apply_preamble_option cwd spelling value p) _ e in
    rw (other, first, preamble_from_complete cwd pairs arguments p' h e')

preamble_value-written :
    (spelling : Text) (pairs : Dict Text) (arguments : List Text)
    → Dashless pairs
    → preamble_value spelling (written pairs arguments) ≡ lookup spelling pairs
unfolding preamble_value written lookup
preamble_value-written spelling [] [] h = refl
preamble_value-written spelling [] (a ∷ arguments) h = refl
preamble_value-written spelling ((known, value) ∷ pairs) arguments (other, h) =
    rw (other, preamble_value-written spelling pairs arguments h)

accepted_unset :
    (set : Bool) (r : Preamble × List Text) {result : Preamble × List Text}
    → set ≡ false
    → (guard set missing_preflight >> ok r) ≡ ok result
    → ⊥
accepted_unset true r e h = cc
accepted_unset false r e h = cc

accepted_set :
    (set : Bool) (r : Preamble × List Text) {result : Preamble × List Text}
    → set ≡ true
    → (guard set missing_preflight >> ok r) ≡ ok result
    → ◌≡◌ {A = Outcome ExitError (Preamble × List Text)} (ok r) (ok result)
accepted_set true r e h = h
accepted_set false r e h = cc

parse_preamble_of :
    (cwd : Text) (argv : List Text) (r : Preamble × List Text)
    → preamble_from cwd argv no_preamble ≡ ok r
    → is_set r.0.kernel_preflight ≡ true
    → parse_preamble cwd argv ≡ ok r
unfolding parse_preamble
parse_preamble_of cwd argv r first set =
    ap
      (λ m. m >>= λ (x : Preamble × List Text).
        guard (is_set x.0.kernel_preflight) missing_preflight >> ok x)
      first
    ∙ ap (λ b. guard b missing_preflight >> ok r) set

-- The preamble is option and value pairs up to the first "--": the arguments are accepted with a
-- result exactly when they are such pairs and "--" before the mkosi arguments, the pairs apply one
-- after another, and a kernel preflight is set; and `preamble_value` is the value of the first pair
-- with the option.
pub parse_preamble_iff :
    (cwd : Text) (argv : List Text) (result : Preamble) (arguments : List Text)
    → ((parse_preamble cwd argv ≡ ok (result, arguments)) ↔ (
        (is_set result.kernel_preflight ≡ true) × Parts cwd argv no_preamble (result, arguments)))
      × ((pairs : Dict Text)
          → Dashless pairs
          → (spelling : Text)
          → preamble_value spelling (written pairs arguments) ≡ lookup spelling pairs)
unfolding parse_preamble
parse_preamble_iff cwd argv result arguments = (
  (
    λ e.
        let ((p, rest), first, e') = >>=-eq-ok (preamble_from cwd argv no_preamble) _ e in
        elim (Bool-cases (is_set p.kernel_preflight)) [
          | inr unset ↦ absurd (accepted_unset (is_set p.kernel_preflight) (p, rest) unset e')
          | inl set ↦
              IfOk-ok {E = ExitError}
                (λ (r : Preamble × List Text).
                  (is_set r.0.kernel_preflight ≡ true) × Parts cwd argv no_preamble r)
                (ok (p, rest)) (accepted_set (is_set p.kernel_preflight) (p, rest) set e')
                (set, preamble_from_sound cwd argv no_preamble first)
        ],
    λ (set, (pairs, is_written, dashless, is_applied)).
        let first = preamble_from_complete cwd pairs arguments no_preamble dashless is_applied in
        subst (λ a. parse_preamble cwd a ≡ ok (result, arguments)) (sym is_written)
          (parse_preamble_of cwd (written pairs arguments) (result, arguments) first set),
  ),
  λ pairs dashless spelling. preamble_value-written spelling pairs arguments dashless,
)
