-- ===== src/Prelude/Paths.antt =====
-- The functions of Python's `posixpath` that the programs use, and the texts that they split.
use Prim.Native.Nat.{ℕ}
use mathlib.Core.Bool.{Bool, false, not, ◌&&◌, ◌||◌}
use mathlib.Core.List.{List, [], ◌∷◌, ◌++◌}
use rules_mkosi.Prelude.Tests.{if◌then◌else◌, ◌==◌}
use rules_mkosi.Prelude.Text.{Text, codes, text_eq, starts_with}

-- `text.split(sep)` for one character.
unfoldable pub split : ℕ → Text → List Text
split sep [] = [] ∷ []
split sep (c ∷ s) = elim (split sep s) [
  | [] ↦ []
  | part ∷ parts ↦ if c == sep then [] ∷ part ∷ parts else (c ∷ part) ∷ parts
]

-- `sep.join(parts)` for one character.
unfoldable pub join_with : ℕ → List Text → Text
join_with sep [] = []
join_with sep (part ∷ []) = part
join_with sep (part ∷ part' ∷ parts) = part ++ (sep ∷ join_with sep (part' ∷ parts))

unfoldable pub reversed_list : List Text → List Text
reversed_list [] = []
reversed_list (x ∷ xs) = reversed_list xs ++ x ∷ []

-- `posixpath.isabs`
unfoldable pub is_absolute : Text → Bool
is_absolute [] = false
is_absolute (c ∷ s) = c == b'/'

-- The loop of `posixpath.normpath`; the components that are kept stand in reverse.
unfoldable pub normalize : Bool → List Text → List Text → List Text
unfolding text_eq
normalize rooted kept [] = kept
normalize rooted kept (part ∷ parts) =
    normalize rooted
      (if text_eq part [] || text_eq part (codes ".")
        then kept
        else if not (text_eq part (codes ".."))
        then part ∷ kept
        else elim kept [
          | [] ↦ if rooted then [] else part ∷ []
          | last ∷ rest ↦ if text_eq last (codes "..") then part ∷ last ∷ rest else rest
        ])
      parts

-- The slashes that a path starts with; exactly two are kept.
unfoldable pub initial_slashes : Text → Text
unfolding starts_with
initial_slashes path =
    if not (starts_with path (codes "/"))
    then []
    else if starts_with path (codes "//") && not (starts_with path (codes "///"))
    then codes "//"
    else codes "/"

unfoldable pub or_dot : Text → Text
or_dot [] = codes "."
or_dot (c ∷ s) = c ∷ s

-- `posixpath.normpath`
unfoldable pub normpath : Text → Text
unfolding normalize split join_with reversed_list initial_slashes or_dot is_absolute
normpath path = or_dot (
    initial_slashes path
    ++ join_with b'/' (reversed_list (normalize (is_absolute path) [] (split b'/' path))))

unfoldable pub ends_with_slash : Text → Bool
ends_with_slash [] = false
ends_with_slash (c ∷ []) = c == b'/'
ends_with_slash (c ∷ d ∷ s) = ends_with_slash (d ∷ s)

-- `posixpath.join` of two paths.
unfoldable pub join_path : Text → Text → Text
unfolding is_absolute ends_with_slash text_eq
join_path a b =
    if is_absolute b
    then b
    else if text_eq a [] || ends_with_slash a
    then a ++ b
    else a ++ (b'/' ∷ b)

-- `posixpath.abspath` in a working directory.
unfoldable pub abspath : Text → Text → Text
unfolding normpath join_path is_absolute
abspath cwd path = normpath (if is_absolute path then path else join_path cwd path)

-- `posixpath.join` of the parts after a first one.
unfoldable pub join_parts : Text → List Text → Text
unfolding join_path
join_parts path [] = path
join_parts path (part ∷ parts) = join_parts (join_path path part) parts

-- `path[: path.rfind("/") + 1]`
unfoldable pub head_of : Text → Text
head_of [] = []
head_of (c ∷ s) = elim (head_of s) [
  | [] ↦ if c == b'/' then c ∷ [] else []
  | d ∷ head ↦ c ∷ d ∷ head
]

-- `text.rstrip("/")`
unfoldable pub strip_slashes : Text → Text
strip_slashes [] = []
strip_slashes (c ∷ s) = elim (strip_slashes s) [
  | [] ↦ if c == b'/' then [] else c ∷ []
  | d ∷ rest ↦ c ∷ d ∷ rest
]

-- `posixpath.dirname`: a head that is only slashes keeps them.
unfoldable pub dirname : Text → Text
unfolding head_of strip_slashes
dirname path = elim (strip_slashes (head_of path)) [ [] ↦ head_of path | c ∷ s ↦ c ∷ s ]
