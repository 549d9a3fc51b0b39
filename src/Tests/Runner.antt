-- ===== src/Tests/Runner.antt =====
-- A table of three options: a flag, a directory, and a list of trees.
use rules_mkosi.Prelude.{
  ℕ, ◌+◌, ◌≡◌, ◌↔◌, refl, Bool, true, false, List, [], ◌∷◌, none, some, length, ok, map,
}
use rules_mkosi.Prelude.Text.{Text, codes}
use rules_mkosi.Prelude.Dict.{Dict, lookup}
use rules_mkosi.Runner.Options.{
  MkosiOption, Occurrence, Table, takes_none, takes_one, path, tree, occurrences, occurrences_from,
}
use rules_mkosi.Runner.CommandLine.{
  image, of_paths, all_values, absolute_paths, with_image_version, release_stage,
}
use rules_mkosi.Runner.CommandLine.Preamble.{
  Preamble, no_preamble, is_set, parse_preamble, preamble_value,
}
use rules_mkosi.Runner.Occurrences.{Ordered, occurrences-Ordered}
use rules_mkosi.Runner.Rewriting.{IsRewritten, absolute_paths-IsRewritten}
use rules_mkosi.Runner.Preambles.{written, Dashless, Parts, parse_preamble_iff}
use rules_mkosi.Runner.Insertion.{Inserted, with_image_version-Inserted}
use rules_mkosi.Runner.Stages.{IsStageOf, release_stage-IsStageOf}

abbrev force : MkosiOption
force = record {
  dest = codes "force";
  arguments = takes_none;
  path = none;
  path_list = false;
  constants = [];
}

abbrev directory : MkosiOption
directory = record {
  dest = codes "directory";
  arguments = takes_one;
  path = some path;
  path_list = false;
  constants = codes "default" ∷ [];
}

abbrev trees : MkosiOption
trees = record {
  dest = codes "extra_trees";
  arguments = takes_one;
  path = some tree;
  path_list = true;
  constants = [];
}

abbrev table : Table
table =
    (codes "-f", force)
    ∷ (codes "-C", directory)
    ∷ (codes "--directory", directory)
    ∷ (codes "--extra-tree", trees)
    ∷ []

never : Text → Bool
never s = false

abbrev cwd : Text
cwd = codes "/w"

abbrev arguments : List Text
arguments =
    codes "-fCa/../b"
    ∷ codes "--extra-tree"
    ∷ codes "x:/usr,y"
    ∷ codes "build"
    ∷ codes "--directory=default"
    ∷ codes "--"
    ∷ codes "-Cz"
    ∷ []

abbrev absolute_arguments : List Text
absolute_arguments =
    codes "-fC/w/b"
    ∷ codes "--extra-tree"
    ∷ codes "/w/x:/usr,/w/y"
    ∷ codes "build"
    ∷ codes "--directory=default"
    ∷ codes "--"
    ∷ codes "-Cz"
    ∷ []

found_indices :
    map (λ (o : Occurrence). o.index) (occurrences never table arguments) ≡ 0 ∷ 2 ∷ 4 ∷ []
unfolding occurrences
found_indices = refl

rewritten : absolute_paths never table cwd arguments ≡ ok absolute_arguments
unfolding absolute_paths
rewritten = refl

occurrences-Ordered_example :
    Ordered table arguments 0 (occurrences never table arguments)
    × ((more : ℕ)
        → occurrences_from never (length arguments + more) table arguments 0
          ≡ occurrences never table arguments)
occurrences-Ordered_example = occurrences-Ordered never table arguments

absolute_paths-IsRewritten_example :
    (all_values (of_paths (occurrences never table arguments)) ≡ true)
    × IsRewritten cwd (of_paths (occurrences never table arguments)) arguments absolute_arguments
absolute_paths-IsRewritten_example = absolute_paths-IsRewritten never table cwd arguments rewritten

abbrev images : List Text
images = codes "build" ∷ codes "--image-id=os" ∷ codes "-f" ∷ []

abbrev versioned : List Text
versioned = codes "build" ∷ codes "--image-id=os" ∷ codes "--image-version=7" ∷ codes "-f" ∷ []

with_version : with_image_version images (codes "7") ≡ ok versioned
unfolding with_image_version
with_version = refl

with_image_version-Inserted_example :
    (with_image_version images (codes "7") ≡ ok versioned) ↔ Inserted (codes "7") images versioned
with_image_version-Inserted_example = with_image_version-Inserted images (codes "7") versioned

abbrev argv : List Text
argv =
    codes "--release-seed"
    ∷ codes "s"
    ∷ codes "--kernel-preflight"
    ∷ codes "k"
    ∷ codes "--"
    ∷ codes "build"
    ∷ []

abbrev preamble : Preamble
preamble = record no_preamble {
  release_seed = some (codes "s");
  kernel_preflight = some (codes "/w/k");
}

parsed : parse_preamble cwd argv ≡ ok (preamble, codes "build" ∷ [])
unfolding parse_preamble
parsed = refl

parse_preamble_iff_example :
    ((parse_preamble cwd argv ≡ ok (preamble, codes "build" ∷ [])) ↔ (
      (is_set preamble.kernel_preflight ≡ true)
      × Parts cwd argv no_preamble (preamble, codes "build" ∷ [])))
    × ((pairs : Dict Text)
        → Dashless pairs
        → (spelling : Text)
        → preamble_value spelling (written pairs (codes "build" ∷ [])) ≡ lookup spelling pairs)
parse_preamble_iff_example = parse_preamble_iff cwd argv preamble (codes "build" ∷ [])

release_stage-IsStageOf_example :
    (release_stage true true false false false ≡ ok (some image))
    ↔ IsStageOf (some image) true true false false false
release_stage-IsStageOf_example = release_stage-IsStageOf true true false false false (some image)
