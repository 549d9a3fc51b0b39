-- ===== src/Runner/Stages.antt =====
-- Which options make which release stage: `release_stage` of
-- mkosi/private/mkosi_runner/command_line.py.
use rules_mkosi.Prelude.{◌≡◌, ◌↔◌, Bool, true, false, Option, none, some, ok, arith}
use rules_mkosi.Runner.CommandLine.{
  Stage, image, base, finalize, requested_release_stage, is_stage, is_image, differs, release_stage,
}

-- The options of a stage: a release or not, the snapshot repository, the base tree, the initrd and
-- the output of a base.
abbrev pub IsStageOf : Option Stage → Bool → Bool → Bool → Bool → Bool → Type 0
IsStageOf none release repository base_tree initrd output =
    (release ≡ false) × (base_tree ≡ false) × (initrd ≡ false) × (output ≡ false)
IsStageOf (some image) release repository base_tree initrd output =
    (release ≡ true)
    × (repository ≡ true)
    × (base_tree ≡ false)
    × (initrd ≡ false)
    × (output ≡ false)
IsStageOf (some base) release repository base_tree initrd output =
    (release ≡ true)
    × (repository ≡ true)
    × (base_tree ≡ false)
    × (initrd ≡ false)
    × (output ≡ true)
IsStageOf (some finalize) release repository base_tree initrd output =
    (release ≡ true)
    × (repository ≡ false)
    × (base_tree ≡ true)
    × (initrd ≡ true)
    × (output ≡ false)

-- A release is finalized from a base tree and an initrd alone, its base is made from the snapshot
-- repository with an output for it, and its image from the repository alone; a build that is no
-- release has at most the repository. Every other combination of the options is rejected.
pub release_stage-IsStageOf :
    (release repository base_tree initrd output : Bool) (stage : Option Stage)
    → (release_stage release repository base_tree initrd output ≡ ok stage)
      ↔ IsStageOf stage release repository base_tree initrd output
unfolding release_stage requested_release_stage is_stage is_image differs
release_stage-IsStageOf release repository base_tree initrd output none = ground arith
release_stage-IsStageOf release repository base_tree initrd output (some image) = ground arith
release_stage-IsStageOf release repository base_tree initrd output (some base) = ground arith
release_stage-IsStageOf release repository base_tree initrd output (some finalize) = ground arith
