-- ===== src/Extract/Components.antt =====
-- The components of a path of mkosi/debian/extract_tree.py.
use rules_mkosi.Prelude.{◌≡◌, ◌≢◌, false, ◌||◌, List, [], ◌∷◌, arith, All}
use rules_mkosi.Prelude.Text.{Text, codes, text_eq, text_eq_iff}
use rules_mkosi.Extract.Member.{is_unsafe}

-- A name, which is neither empty nor "." nor "..".
abbrev pub IsComponent : Text → Type 0
IsComponent part = (part ≢ []) × (part ≢ codes ".") × (part ≢ codes "..")

differs : (s t : Text) → text_eq s t ≡ false → s ≢ t
differs s t h e = let e' = (text_eq_iff s t).1 e in cc

pub IsComponent-of_tests :
    (part : Text)
    → (text_eq part [] || text_eq part (codes ".")) ≡ false
    → text_eq part (codes "..") ≡ false
    → IsComponent part
IsComponent-of_tests part h k = (
  differs part [] (ground arith),
  differs part (codes ".") (ground arith),
  differs part (codes "..") k,
)

is_unsafe-Component : (part : Text) → is_unsafe part ≡ false → IsComponent part
unfolding is_unsafe
is_unsafe-Component part h = IsComponent-of_tests part (ground arith) (ground arith)

pub components_safe :
    (parts : List Text) → All (λ part. is_unsafe part ≡ false) parts → All IsComponent parts
components_safe [] h = tt
components_safe (part ∷ parts) (a, h) = (is_unsafe-Component part a, components_safe parts h)
