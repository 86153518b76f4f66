-- ===== src/Variants.antt =====
-- core/manager.py: `available_variants`, and the choice of the step in `WorktreeManager.start`.
pub mod Listed
mod Tests
use lib_python_worktree.Prelude.{
  ℕ, String, Bool, true, false, Option, none, some, List, [], ◌∷◌, ◌++◌, ◌||◌, ◌==◌, if◌then◌else◌,
  str_eq,
}
use lib_python_worktree.Prelude.Results.{Result, ok, err}
use lib_python_worktree.Prelude.Lists.{has, length}
use lib_python_worktree.Contract.{Step}

-- `[s for s in steps if s.name is None]`
unfoldable pub unnamed_steps : List Step → List Step
unnamed_steps [] = []
unnamed_steps (s ∷ ss) = elim s.name [ none ↦ s ∷ unnamed_steps ss | some _ ↦ unnamed_steps ss ]

-- `[s.name for s in steps if s.name]`: neither an absent name nor an empty one is listed.
unfoldable pub step_names : List Step → List String
step_names [] = []
step_names (s ∷ ss) =
    let rest = step_names ss in
    elim s.name [ none ↦ rest | some name ↦ if str_eq name "" then rest else name ∷ rest ]

unfoldable pub default_reachable : List Step → Bool
default_reachable steps = length (unnamed_steps steps) == 1 || length steps == 1

-- The loop that drops repeated names, with the set `seen`.
unfoldable pub unrepeated : List String → List String → List String
unrepeated seen [] = []
unrepeated seen (name ∷ names) = elim (has name seen) [
  | true ↦ unrepeated seen names
  | false ↦ name ∷ unrepeated (name ∷ seen) names
]

unfoldable pub available_variants : List Step → List String
available_variants steps =
    unrepeated [] (step_names steps ++ (if default_reachable steps then "default" ∷ [] else []))

-- `s.name == variant`
unfoldable pub is_named : String → Step → Bool
is_named variant s = elim s.name [ none ↦ false | some name ↦ str_eq name variant ]

-- The first tier, the step of that very name.
unfoldable pub exact_step : String → List Step → Option Step
exact_step variant [] = none
exact_step variant (s ∷ ss) =
    let rest = exact_step variant ss in if is_named variant s then some s else rest

-- `steps[0]` if `len(steps) == 1`
unfoldable pub lone_step : List Step → Option Step
lone_step [] = none
lone_step (s ∷ []) = some s
lone_step (s ∷ t ∷ ss) = none

-- A further tier is asked if `step is None`.
unfoldable pub or_tier : Option Step → Option Step → Option Step
or_tier none next = next
or_tier (some s) next = some s

unfoldable pub select_step : String → List Step → Option Step
select_step variant steps = or_tier (exact_step variant steps) (
    if str_eq variant "default"
    then or_tier (lone_step (unnamed_steps steps)) (lone_step steps)
    else none)

-- `UnknownVariantError(variant, available)`
pub data VariantError : Type 0 where
  unknown_variant : String → List String → VariantError

unfoldable pub choose_step : String → List Step → Result VariantError Step
choose_step variant steps = elim (select_step variant steps) [
  | some s ↦ ok s
  | none ↦ err (unknown_variant variant (available_variants steps))
]
