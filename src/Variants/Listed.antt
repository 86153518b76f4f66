-- ===== src/Variants/Listed.antt =====
-- `available_variants` against the choice of the step in `start`.
use lib_python_worktree.Prelude.{
  String, ◌≡◌, inl, inr, refl, sym, ap, subst, Bool, true, false, Option, none, some, List, [], ◌∷◌,
  ◌++◌, ◌||◌, ◌&&◌, not, ◌==◌, if◌then◌else◌, arith, eq_iff, eq_refl, str_eq, str_eq-cases,
  Bool-cases, Option-cases,
}
use lib_python_worktree.Prelude.Results.{Result, ok, err}
use lib_python_worktree.Prelude.Lists.{has, length, IsDistinct, has-append}
use lib_python_worktree.Contract.{Step}
use lib_python_worktree.Variants.{
  unnamed_steps, step_names, default_reachable, unrepeated, available_variants, is_named,
  exact_step, lone_step, or_tier, select_step, choose_step,
}

abbrev is_chosen : {A : Type 0} → Option A → Bool
is_chosen none = false
is_chosen (some _) = true

abbrev pub is_ok : {E A : Type 0} → Result E A → Bool
is_ok (ok _) = true
is_ok (err _) = false

has-unrepeated :
    (v : String) (seen names : List String)
    → has v (unrepeated seen names) ≡ (not (has v seen) && has v names)
unfolding unrepeated has
has-unrepeated v seen [] = ground arith
has-unrepeated v seen (n ∷ ns) = elim (str_eq-cases v n) [
  | inl same ↦ elim (Bool-cases (has n seen)) [
    | inl e ↦
        rw (e, unrepeated)
          (ground (arith, has-unrepeated v seen ns, eq_iff v n, ap (λ x. has x seen) same))
    | inr e ↦
        rw (e, unrepeated)
          (ground (arith, has-unrepeated v (n ∷ seen) ns, eq_iff v n, ap (λ x. has x seen) same))
  ]
  | inr other ↦ elim (Bool-cases (has n seen)) [
    | inl e ↦ rw (e, unrepeated) (ground (arith, has-unrepeated v seen ns))
    | inr e ↦ rw (e, unrepeated) (ground (arith, has-unrepeated v (n ∷ seen) ns))
  ]
]

unrepeated-IsDistinct : (seen names : List String) → IsDistinct (unrepeated seen names)
unfolding unrepeated has
unrepeated-IsDistinct seen [] = tt
unrepeated-IsDistinct seen (n ∷ ns) = elim (Bool-cases (has n seen)) [
  | inl e ↦ rw (e, unrepeated) (unrepeated-IsDistinct seen ns)
  | inr e ↦
      rw (e, unrepeated)
        (
          ground (arith, has-unrepeated n (n ∷ seen) ns, eq_refl n),
          unrepeated-IsDistinct (n ∷ seen) ns,
        )
]

has-step_names :
    (v : String) (steps : List Step)
    → has v (step_names steps) ≡ (not (str_eq v "") && is_chosen (exact_step v steps))
unfolding step_names exact_step is_named has
has-step_names v [] = ground arith
has-step_names v (s ∷ ss) = elim (Option-cases s.name) [
  | inl e ↦ rw e (has-step_names v ss)
  | inr (name, e) ↦ rw e (
      ground
        (arith, has-step_names v ss, eq_iff v name, eq_iff name v, eq_iff name "", eq_iff v ""))
]

is_chosen-lone_step : (steps : List Step) → is_chosen (lone_step steps) ≡ (length steps == 1)
unfolding lone_step
is_chosen-lone_step [] = refl
is_chosen-lone_step (s ∷ []) = refl
is_chosen-lone_step (s ∷ t ∷ ss) = ground arith

is_chosen-or_tier : (x y : Option Step) → is_chosen (or_tier x y) ≡ (is_chosen x || is_chosen y)
unfolding or_tier
is_chosen-or_tier none y = ground arith
is_chosen-or_tier (some s) y = ground arith

is_ok-choose_step :
    (v : String) (steps : List Step) → is_ok (choose_step v steps) ≡ is_chosen (select_step v steps)
unfolding choose_step
is_ok-choose_step v steps = elim (Option-cases (select_step v steps)) [
  | inl e ↦ rw (e, choose_step) refl
  | inr (s, e) ↦ rw (e, choose_step) refl
]

is_chosen-select_step :
    (v : String) (steps : List Step)
    → is_chosen (select_step v steps)
      ≡ (is_chosen (exact_step v steps) || (str_eq v "default" && default_reachable steps))
unfolding select_step default_reachable
is_chosen-select_step v steps = elim (Bool-cases (str_eq v "default")) [
  | inl e ↦
      rw (e, select_step)
        (ground (
          arith,
          is_chosen-or_tier (exact_step v steps)
              (or_tier (lone_step (unnamed_steps steps)) (lone_step steps)),
          is_chosen-or_tier (lone_step (unnamed_steps steps)) (lone_step steps),
          is_chosen-lone_step (unnamed_steps steps),
          is_chosen-lone_step steps,
        ))
  | inr e ↦ rw (e, select_step) (ground (arith, is_chosen-or_tier (exact_step v steps) none))
]

has-if_default :
    (v : String) (b : Bool) → has v (if b then "default" ∷ [] else []) ≡ (str_eq v "default" && b)
unfolding has
has-if_default v true = ground arith
has-if_default v false = ground arith

default_named : (v : String) → str_eq v "default" ≡ true → str_eq v "" ≡ false
default_named v e = elim (str_eq-cases v "default") [
  | inl same ↦ subst (λ x. str_eq x "" ≡ false) (sym same) refl
  | inr other ↦ ground arith
]

-- A variant is listed by `available_variants` if and only if it is not the empty text and `start`
-- finds a step for it.
pub has-available_variants :
    (v : String) (steps : List Step)
    → has v (available_variants steps) ≡ (not (str_eq v "") && is_ok (choose_step v steps))
unfolding available_variants has
has-available_variants v steps =
    let extra : List String = if default_reachable steps then "default" ∷ [] else [] in
    ground (
      arith,
      has-unrepeated v [] (step_names steps ++ extra),
      has-append v (step_names steps) extra,
      has-step_names v steps,
      has-if_default v (default_reachable steps),
      is_ok-choose_step v steps,
      is_chosen-select_step v steps,
      default_named v,
    )

-- No variant is listed twice.
pub available_variants-IsDistinct : (steps : List Step) → IsDistinct (available_variants steps)
unfolding available_variants
available_variants-IsDistinct steps = unrepeated-IsDistinct [] _
