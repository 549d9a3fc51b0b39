-- ===== src/Snapshot/Locks.antt =====
-- What the locked packages are: `_locked_packages` of mkosi/private/debian_snapshot.py.
use rules_mkosi.Prelude.{
  guard-eq-ok, ◌≡◌, refl, sym, ◌∙◌, ap, subst, inl, inr, Bool, true, false, not, ◌||◌, List, [],
  ◌∷◌, ◌++◌, ok, >>=-eq-ok, arith, All, All-append, Elem, Bool-cases, IfOk-ok, map,
}
use rules_mkosi.Prelude.Distinct.{Unrepeated, Unrepeated-append}
use rules_mkosi.Prelude.Paths.{split, is_absolute, join_with, or_dot}
use rules_mkosi.Prelude.Text.{
  Text, codes, text_eq, text_eq_iff, starts_with, contains, is_numeric, decimal,
}
use rules_mkosi.Snapshot.Error.{
  SnapshotError, invalid_size, duplicate_package, path_collision, duplicate_name,
}
use rules_mkosi.Snapshot.Packages.{
  Key, key_eq, Locked, path_parts, is_unsafe_path, safe_package_path, is_expected, has_filename,
  has_local_name, locked_of, locked_from, locked_packages,
}

safe_lem :
    (a b c d : Bool) → (a || b || not c || not d) ≡ false → (b ≡ false) × (c ≡ true) × (d ≡ true)
safe_lem a b c d h = ground arith

-- A component ".." is not one of those that `path_parts` leaves out.
contains-path_parts :
    (parts : List Text)
    → contains (codes "..") (path_parts parts) ≡ false
    → contains (codes "..") parts ≡ false
unfolding contains path_parts
contains-path_parts [] h = refl
contains-path_parts (part ∷ parts) h = ground (
  arith,
  contains-path_parts parts,
  text_eq_iff part [],
  text_eq_iff part (codes "."),
  text_eq_iff (codes "..") part,
)

-- A path below "pool/" starts with it, and no component of it leads up again.
abbrev pub IsBelowPool : Text → Type 0
IsBelowPool path =
    (starts_with path (codes "pool/") ≡ true) × (contains (codes "..") (split b'/' path) ≡ false)

-- The path that passes is the argument, and it is below "pool/".
pub safe_package_path_lem :
    (filename : Text) {path : Text}
    → safe_package_path filename ≡ ok path
    → (filename ≡ path) × IsBelowPool path
unfolding safe_package_path is_unsafe_path
safe_package_path_lem filename e = elim (Bool-cases (is_unsafe_path filename)) [
  | inl unsafe ↦ absurd (let e' = rw (unsafe, safe_package_path) at e in cc)
  | inr safe ↦
      let text = or_dot (join_with b'/' (path_parts (split b'/' filename))) in
      let (inside, same, pool) =
        safe_lem (is_absolute filename) (contains (codes "..") (path_parts (split b'/' filename)))
          (text_eq text filename) (starts_with text (codes "pool/")) safe in
      IfOk-ok {E = SnapshotError} (λ path. (filename ≡ path) × IsBelowPool path) (ok filename)
        (rw (safe, safe_package_path) at e)
        (
          refl,
          (
            subst (λ t. starts_with t (codes "pool/") ≡ true) ((text_eq_iff text filename).0 same)
                pool,
            contains-path_parts (split b'/' filename) inside,
          ),
        )
]

key_eq_refl : (k : Key) → key_eq k k ≡ true
unfolding key_eq
key_eq_refl (a, b, c) = ground (arith, text_eq_iff a a, text_eq_iff b b, text_eq_iff c c)

module _ {A : Type 0} (f : Locked → A) where
  abbrev pub AreDistinct : List Locked → Type 0
  AreDistinct ls = Unrepeated (map f ls)

  map-append_one : (ls : List Locked) (l : Locked) → map f (ls ++ l ∷ []) ≡ map f ls ++ f l ∷ []
  map-append_one [] l = refl
  map-append_one (x ∷ ls) l = ap (λ ys. f x ∷ ys) (map-append_one ls l)

  AreDistinct-append :
      (ls : List Locked) (l : Locked)
      → AreDistinct ls
      → (Elem (f l) (map f ls) → ⊥)
      → AreDistinct (ls ++ l ∷ [])
  AreDistinct-append ls l d n =
      subst Unrepeated (sym (map-append_one ls l)) (Unrepeated-append (map f ls) (f l) d n)

  Elem-map : (ls : List Locked) (l : Locked) → Elem l ls → Elem (f l) (map f ls)
  Elem-map [] l m = absurd m
  Elem-map (x ∷ ls) l (inl e) = inl (ap f e)
  Elem-map (x ∷ ls) l (inr m) = inr (Elem-map ls l m)

  -- Two members with the same value are the same member.
  pub AreDistinct-unique :
      (ls : List Locked) (l k : Locked) → AreDistinct ls → Elem l ls → Elem k ls → f l ≡ f k → l ≡ k
  AreDistinct-unique [] l k d m n e = absurd m
  AreDistinct-unique (x ∷ ls) l k d (inl a) (inl b) e = a ∙ sym b
  AreDistinct-unique (x ∷ ls) l k (c, d) (inl a) (inr n) e =
      absurd (c (subst (λ y. Elem y (map f ls)) (sym e ∙ ap f a) (Elem-map ls k n)))
  AreDistinct-unique (x ∷ ls) l k (c, d) (inr m) (inl b) e =
      absurd (c (subst (λ y. Elem y (map f ls)) (e ∙ ap f b) (Elem-map ls l m)))
  AreDistinct-unique (x ∷ ls) l k (c, d) (inr m) (inr n) e = AreDistinct-unique ls l k d m n e

-- The three tests find what they look for.
new_key :
    (key : Key) (ls : List Locked) → is_expected key ls ≡ false → Elem key (map (λ l. l.key) ls) → ⊥
unfolding is_expected
new_key key [] h m = m
new_key key (l ∷ ls) h (inl e) =
    absurd (let own = subst (λ k. key_eq key k ≡ true) e (key_eq_refl key) in ground arith)
new_key key (l ∷ ls) h (inr m) = new_key key ls (ground arith) m

new_filename :
    (name : Text) (ls : List Locked)
    → has_filename name ls ≡ false
    → Elem name (map (λ l. l.filename) ls)
    → ⊥
unfolding has_filename
new_filename name [] h m = m
new_filename name (l ∷ ls) h (inl e) = ground (arith, text_eq_iff name l.filename)
new_filename name (l ∷ ls) h (inr m) = new_filename name ls (ground arith) m

new_local_name :
    (name : Text) (ls : List Locked)
    → has_local_name name ls ≡ false
    → Elem name (map (λ l. l.local_name) ls)
    → ⊥
unfolding has_local_name
new_local_name name [] h m = m
new_local_name name (l ∷ ls) h (inl e) = ground (arith, text_eq_iff name l.local_name)
new_local_name name (l ∷ ls) h (inr m) = new_local_name name ls (ground arith) m

-- No two packages have the same key, path or local name, and every path is below "pool/".
abbrev pub AreLocks : List Locked → Type 0
AreLocks ls =
    AreDistinct (λ l. l.key) ls
    × AreDistinct (λ l. l.filename) ls
    × AreDistinct (λ l. l.local_name) ls
    × All (λ (l : Locked). IsBelowPool l.filename) ls

not-true : (b : Bool) → not b ≡ true → b ≡ false
not-true b h = ground arith

locked_of-AreLocks :
    (fields : List Text) (ls : List Locked) {l : Locked}
    → AreLocks ls
    → locked_of fields ls ≡ ok l
    → AreLocks (ls ++ l ∷ [])
unfolding locked_of
locked_of-AreLocks (name ∷ version ∷ architecture ∷ filename ∷ size ∷ digest ∷ local_name ∷ []) ls
      (k, p, n, s) e =
    let key : Key = (name, version, architecture) in
    let (_, e₁) = guard-eq-ok (is_numeric size) invalid_size _ e in
    let (path, safe, e₂) = >>=-eq-ok (safe_package_path filename) _ e₁ in
    let (a, e₃) = guard-eq-ok (not (is_expected key ls)) duplicate_package _ e₂ in
    let (b, e₄) = guard-eq-ok (not (has_filename path ls)) path_collision _ e₃ in
    let (c, e₅) = guard-eq-ok (not (has_local_name local_name ls)) duplicate_name _ e₄ in
    let new : Locked = record {
      key = key;
      filename = path;
      size = decimal 0 size;
      digest = digest;
      local_name = local_name;
    } in
    IfOk-ok {E = SnapshotError} (λ l. AreLocks (ls ++ l ∷ [])) (ok new) e₅
      (
        AreDistinct-append (λ l. l.key) ls new k (new_key key ls (not-true (is_expected key ls) a)),
        AreDistinct-append (λ l. l.filename) ls new p
            (new_filename path ls (not-true (has_filename path ls) b)),
        AreDistinct-append (λ l. l.local_name) ls new n
            (new_local_name local_name ls (not-true (has_local_name local_name ls) c)),
        All-append (λ (l : Locked). IsBelowPool l.filename) ls (new ∷ []) s
            ((safe_package_path_lem filename safe).1, tt),
      )
locked_of-AreLocks [] ls h e = cc
locked_of-AreLocks (a ∷ []) ls h e = cc
locked_of-AreLocks (a ∷ b ∷ []) ls h e = cc
locked_of-AreLocks (a ∷ b ∷ c ∷ []) ls h e = cc
locked_of-AreLocks (a ∷ b ∷ c ∷ d ∷ []) ls h e = cc
locked_of-AreLocks (a ∷ b ∷ c ∷ d ∷ f ∷ []) ls h e = cc
locked_of-AreLocks (a ∷ b ∷ c ∷ d ∷ f ∷ g ∷ []) ls h e = cc
locked_of-AreLocks (a ∷ b ∷ c ∷ d ∷ f ∷ g ∷ i ∷ j ∷ fields) ls h e = cc

locked_from-AreLocks :
    (texts : List Text) (ls : List Locked) {ls' : List Locked}
    → AreLocks ls
    → locked_from texts ls ≡ ok ls'
    → AreLocks ls'
unfolding locked_from
locked_from-AreLocks [] ls h e = IfOk-ok {E = SnapshotError} AreLocks (ok ls) e h
locked_from-AreLocks (text ∷ texts) ls h e =
    let (l, first, e') = >>=-eq-ok (locked_of (split b'|' text) ls) _ e in
    locked_from-AreLocks texts (ls ++ l ∷ []) (locked_of-AreLocks (split b'|' text) ls h first) e'

-- The packages of the lock's records, when these are read without an error, have names, versions and
-- architectures that differ, paths that differ, and local names that differ; every path starts with
-- "pool/" and has no component "..".
pub locked_packages-AreLocks :
    (texts : List Text) {ls : List Locked} → locked_packages texts ≡ ok ls → AreLocks ls
unfolding locked_packages
locked_packages-AreLocks texts e = locked_from-AreLocks texts [] (tt, tt, tt, tt) e
