-- ===== src/Variants/Tests.antt =====
-- The variants of concrete contracts.
use lib_python_worktree.Prelude.{List, ◌≡◌, refl, none, some, [], ◌∷◌, ◌&&◌, not, str_eq}
use lib_python_worktree.Prelude.Results.{ok, err}
use lib_python_worktree.Prelude.Lists.{has}
use lib_python_worktree.Contract.{Step}
use lib_python_worktree.Variants.{
  unnamed_steps, step_names, default_reachable, unrepeated, available_variants, is_named,
  exact_step, lone_step, or_tier, select_step, unknown_variant, choose_step,
}
use lib_python_worktree.Variants.Listed.{is_ok, has-available_variants}

abbrev dev : Step
dev = record { run = "npm run dev"; name = some "dev"; shell = none }

abbrev plain : Step
plain = record { run = "make serve"; name = none; shell = none }

-- The schema permits an empty name.
abbrev nameless : Step
nameless = record { run = "make"; name = some ""; shell = none }

abbrev two_steps : List Step
two_steps = dev ∷ plain ∷ []

two_variants : available_variants two_steps ≡ "dev" ∷ "default" ∷ []
unfolding available_variants unrepeated step_names has default_reachable unnamed_steps
two_variants = refl

default_is_plain : choose_step "default" two_steps ≡ ok plain
unfolding choose_step select_step or_tier exact_step is_named lone_step unnamed_steps
default_is_plain = refl

unknown : choose_step "prod" two_steps ≡ err (unknown_variant "prod" ("dev" ∷ "default" ∷ []))
unfolding choose_step select_step or_tier exact_step is_named available_variants unrepeated
    step_names has default_reachable unnamed_steps
unknown = refl

-- `start` finds the step with the empty name, which is not listed.
empty_is_found : choose_step "" (dev ∷ nameless ∷ []) ≡ ok nameless
unfolding choose_step select_step or_tier exact_step is_named
empty_is_found = refl

empty_is_not_listed : available_variants (dev ∷ nameless ∷ []) ≡ "dev" ∷ []
unfolding available_variants unrepeated step_names has default_reachable unnamed_steps
empty_is_not_listed = refl

has-available_variants_example :
    has "dev" (available_variants two_steps)
    ≡ (not (str_eq "dev" "") && is_ok (choose_step "dev" two_steps))
has-available_variants_example = has-available_variants "dev" two_steps
