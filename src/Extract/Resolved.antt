-- ===== src/Extract/Resolved.antt =====
-- How a symbolic link resolves: `_resolve_link_path` of mkosi/debian/extract_tree.py.
use rules_mkosi.Prelude.{
  ℕ, zero, suc, ◌+◌, ◌≤◌, ltb, ◌≡◌, refl, ◌⊎◌, inl, inr, Bool, true, false, ◌||◌, List, [], ◌∷◌,
  ◌++◌, none, some, length, length-append, if◌then◌else◌, Outcome, ok, err, arith, All, Elem,
  All-append, Bool-cases, Option-cases,
}
use rules_mkosi.Prelude.Distinct.{Unrepeated, Unrepeated-append}
use rules_mkosi.Prelude.Text.{Text, codes, text_eq, text_eq_iff, contains}
use rules_mkosi.Prelude.Dict.{Dict, lookup}
use rules_mkosi.Prelude.Paths.{reversed_list}
use rules_mkosi.Extract.Error.{ExtractError, symlink_escapes, symlink_cycle, bound_exceeded}
use rules_mkosi.Extract.Member.{Member, is_symlink, of_kind}
use rules_mkosi.Extract.Components.{IsComponent, IsComponent-of_tests}
use rules_mkosi.Extract.Kinds.{HasKind, length-HasKind}
use rules_mkosi.Extract.Symlinks.{
  raw_link_components, path_of, link_of, Turn, move, fail, follow, turn, Target, descend,
  resolve_components, resolve_link_path,
}

contains-Elem : (t : Text) (ss : List Text) → Elem t ss → contains t ss ≡ true
unfolding contains
contains-Elem t [] m = absurd m
contains-Elem t (s ∷ ss) (inl e) = ground (arith, text_eq_iff t s)
contains-Elem t (s ∷ ss) (inr m) = ground (arith, contains-Elem t ss m)

-- A path of the archive that is a symbolic link.
abbrev pub IsLink : Dict Member → Text → Type 0
IsLink members path = (linkname : Text) × (link_of members path ≡ some linkname)

IsLink-HasKind :
    (members : Dict Member) (path : Text) → IsLink members path → HasKind is_symlink members path
unfolding link_of
IsLink-HasKind members path (l, e) = elim (Option-cases (lookup path members)) [
  | inl missing ↦ absurd (let e' = rw (link_of, missing) at e in cc)
  | inr (m, found) ↦ elim (Bool-cases (is_symlink m.kind)) [
    | inl link ↦ (m, found, link)
    | inr other ↦ absurd (let e' = rw (link_of, found, other) at e in cc)
  ]
]

-- Different symbolic links of the archive.
abbrev pub AreLinks : Dict Member → List Text → Type 0
AreLinks members paths = All (IsLink members) paths × Unrepeated paths

every_link :
    (members : Dict Member) (paths : List Text)
    → All (IsLink members) paths
    → All (HasKind is_symlink members) paths
every_link members [] h = tt
every_link members (p ∷ paths) (a, h) = (IsLink-HasKind members p a, every_link members paths h)

length-AreLinks :
    (members : Dict Member) (paths : List Text)
    → AreLinks members paths
    → length paths ≤ length (of_kind is_symlink members)
length-AreLinks members paths (links, different) =
    length-HasKind is_symlink members paths (every_link members paths links) different

AreLinks-append :
    (members : Dict Member) (paths : List Text) (path : Text)
    → AreLinks members paths
    → IsLink members path
    → contains path paths ≡ false
    → AreLinks members (paths ++ path ∷ [])
AreLinks-append members paths path (links, different) link new = (
  All-append (IsLink members) paths (path ∷ []) links (link, tt),
  Unrepeated-append paths path different (λ m. let e = contains-Elem path paths m in cc),
)

-- Components of a path, in reverse, that lead through no symbolic link and not out of the root.
abbrev pub Canonical : Dict Member → List Text → Type 0
Canonical members [] = Unit
Canonical members (component ∷ resolved) =
    IsComponent component
    × (link_of members (path_of (reversed_list (component ∷ resolved))) ≡ none)
    × Canonical members resolved

-- What a turn keeps.
IsTurn : Dict Member → List Text → Turn → Type 0
IsTurn members dependencies (move resolved) = Canonical members resolved
IsTurn members dependencies (fail e) = (e ≡ symlink_escapes) ⊎ (e ≡ symlink_cycle)
IsTurn members dependencies (follow current linkname) =
    (link_of members current ≡ some linkname) × (contains current dependencies ≡ false)

IsTurn-if :
    (members : Dict Member) (dependencies : List Text) (b : Bool) (m n : Turn)
    → (b ≡ true → IsTurn members dependencies m)
    → (b ≡ false → IsTurn members dependencies n)
    → IsTurn members dependencies (if b then m else n)
IsTurn-if members dependencies true m n h k = h refl
IsTurn-if members dependencies false m n h k = k refl

stay-IsTurn :
    (members : Dict Member) (resolved dependencies : List Text)
    → Canonical members resolved
    → IsTurn members dependencies (move resolved)
unfolding IsTurn
stay-IsTurn members resolved dependencies h = h

parent-IsTurn :
    (members : Dict Member) (resolved dependencies : List Text)
    → Canonical members resolved
    → IsTurn members dependencies
        (elim resolved [ [] ↦ fail symlink_escapes | last ∷ rest ↦ move rest ])
unfolding IsTurn
parent-IsTurn members [] dependencies h = inl refl
parent-IsTurn members (last ∷ rest) dependencies (_, _, h) = h

child-IsTurn :
    (members : Dict Member) (resolved dependencies : List Text) (component current : Text)
    → (link_of members current ≡ none → Canonical members (component ∷ resolved))
    → IsTurn members dependencies (elim (link_of members current) [
      | none ↦ move (component ∷ resolved)
      | some linkname ↦
          if contains current dependencies then fail symlink_cycle else follow current linkname
    ])
unfolding IsTurn
child-IsTurn members resolved dependencies component current h =
    elim (Option-cases (link_of members current)) [
      | inl missing ↦ rw missing (h missing)
      | inr (linkname, link) ↦ elim (Bool-cases (contains current dependencies)) [
        | inl seen ↦ rw (link, seen) (inr refl)
        | inr new ↦ rw (link, new) (link, new)
      ]
    ]

turn-IsTurn :
    (members : Dict Member) (resolved dependencies : List Text) (component : Text)
    → Canonical members resolved
    → IsTurn members dependencies (turn members resolved dependencies component)
unfolding turn
turn-IsTurn members resolved dependencies component h =
    let current = path_of (reversed_list (component ∷ resolved)) in
    let parent : Turn = elim resolved [ [] ↦ fail symlink_escapes | last ∷ rest ↦ move rest ] in
    let child : Turn = elim (link_of members current) [
      | none ↦ move (component ∷ resolved)
      | some linkname ↦
          if contains current dependencies then fail symlink_cycle else follow current linkname
    ] in
    IsTurn-if members dependencies (text_eq component [] || text_eq component (codes "."))
      (move resolved) (if text_eq component (codes "..") then parent else child)
      (λ _. stay-IsTurn members resolved dependencies h)
      (λ named.
        IsTurn-if members dependencies (text_eq component (codes "..")) parent child
          (λ _. parent-IsTurn members resolved dependencies h)
          (λ down.
            child-IsTurn members resolved dependencies component current
              (λ missing. (IsComponent-of_tests component named down, missing, h))))

-- The answer: a path that no symbolic link is on, by way of different symbolic links, or one of two
-- errors.
abbrev pub IsAnswer : Dict Member → Outcome ExtractError Target → Type 0
IsAnswer members (ok (target, dependencies)) =
    (resolved : List Text) × (target ≡ path_of (reversed_list resolved))
    × Canonical members resolved
    × AreLinks members dependencies
IsAnswer members (err e) = (e ≡ symlink_escapes) ⊎ (e ≡ symlink_cycle)

after_turn :
    (members : Dict Member) (go_on : List Text → List Text → ℕ → Outcome ExtractError Target)
    (components dependencies : List Text) (resolutions : ℕ) (t : Turn)
    → IsTurn members dependencies t
    → ((resolved : List Text)
        → Canonical members resolved
        → IsAnswer members (descend members go_on components resolved dependencies resolutions))
    → ((components' dependencies' : List Text)
        → AreLinks members dependencies'
        → length dependencies' ≡ resolutions + 1
        → IsAnswer members (go_on components' dependencies' (resolutions + 1)))
    → AreLinks members dependencies
    → length dependencies ≡ resolutions
    → IsAnswer members (elim t [
      | fail e ↦ err e
      | move resolved' ↦ descend members go_on components resolved' dependencies resolutions
      | follow current linkname ↦
          let components' = raw_link_components current linkname ++ components in
          if ltb (length (of_kind is_symlink members) + length components' + 1) (resolutions + 1)
          then err bound_exceeded
          else go_on components' (dependencies ++ current ∷ []) (resolutions + 1)
    ])
unfolding IsTurn
after_turn members go_on components dependencies resolutions (move resolved) h next more links
      count =
    next resolved h
after_turn members go_on components dependencies resolutions (fail e) h next more links count = h
after_turn members go_on components dependencies resolutions (follow current linkname) (link, new)
      next more links count =
    let components' = raw_link_components current linkname ++ components in
    let links' = AreLinks-append members dependencies current links (linkname, link) new in
    let count' : length (dependencies ++ current ∷ []) ≡ resolutions + 1 =
      omega (arith, length-append dependencies (current ∷ [])) in
    let most = length-AreLinks members (dependencies ++ current ∷ []) links' in
    let inside : ltb (length (of_kind is_symlink members) + length components' + 1)
          (resolutions + 1)
        ≡ false =
      ground arith in
    rw inside (more components' (dependencies ++ current ∷ []) links' count')

descend-IsAnswer :
    (members : Dict Member) (go_on : List Text → List Text → ℕ → Outcome ExtractError Target)
    (components resolved dependencies : List Text) (resolutions : ℕ)
    → ((components' dependencies' : List Text)
        → AreLinks members dependencies'
        → length dependencies' ≡ resolutions + 1
        → IsAnswer members (go_on components' dependencies' (resolutions + 1)))
    → Canonical members resolved
    → AreLinks members dependencies
    → length dependencies ≡ resolutions
    → IsAnswer members (descend members go_on components resolved dependencies resolutions)
unfolding descend
descend-IsAnswer members go_on [] resolved dependencies resolutions more h links count =
    (resolved, refl, h, links)
descend-IsAnswer members go_on (component ∷ components) resolved dependencies resolutions more h
      links count =
    after_turn members go_on components dependencies resolutions
      (turn members resolved dependencies component)
      (turn-IsTurn members resolved dependencies component h)
      (λ resolved' h'.
        descend-IsAnswer members go_on components resolved' dependencies resolutions more h' links
          count)
      more links count

resolve_components-IsAnswer :
    (fuel : ℕ) (members : Dict Member) (components dependencies : List Text) (resolutions : ℕ)
    → length (of_kind is_symlink members) + 1 ≤ fuel + resolutions
    → AreLinks members dependencies
    → length dependencies ≡ resolutions
    → IsAnswer members (resolve_components fuel members components dependencies resolutions)
unfolding resolve_components
resolve_components-IsAnswer zero members components dependencies resolutions enough links count =
    absurd (omega (arith, length-AreLinks members dependencies links))
resolve_components-IsAnswer (suc fuel) members components dependencies resolutions enough links
      count =
    descend-IsAnswer members (resolve_components fuel members) components [] dependencies
      resolutions
      (λ components' dependencies' links' count'.
        resolve_components-IsAnswer fuel members components' dependencies' (resolutions + 1)
          (omega arith) links' count')
      tt links count

-- The resolution of a symbolic link ends: its target stays below the root, no component of it is a
-- symbolic link, and the links on the way are different symbolic links of the archive; or it leaves
-- the root, or comes to a link a second time. The bound that the loop checks is never exceeded.
pub resolve_link_path-IsAnswer :
    (members : Dict Member) (relative linkname : Text)
    → IsAnswer members (resolve_link_path members relative linkname)
unfolding resolve_link_path
resolve_link_path-IsAnswer members relative linkname =
    resolve_components-IsAnswer (length (of_kind is_symlink members) + 1) members
      (raw_link_components relative linkname) [] 0 (omega arith) (tt, tt) refl
