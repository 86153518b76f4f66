-- ===== src/Contract.antt =====
-- contract/schema.py: the worktree contract, its field constraints and its model validators.
-- pydantic has parsed the YAML into values of the declared types; what is modelled is what the
-- schema adds to that: `min_length`, `ge` and `le`, the field validator, and the `mode="after"`
-- validators in the order of the class.
mod Slug
pub mod Laws
pub mod Pins
pub mod Newline
pub mod Names
mod Tests
unfoldable pub use Slug.*
use mathlib.Core.List.{filter_map}
use lib_python_worktree.Prelude.{
  ℕ, String, Bool, true, false, Option, none, some, List, [], ◌∷◌, ◌++◌, map, ◌&&◌, ◌==◌, not, leb,
  if◌then◌else◌, str_eq,
}
use lib_python_worktree.Prelude.Results.{Result, ok, err, ◌>>=◌}
use lib_python_worktree.Prelude.Dict.{Dict, insert}
use lib_python_worktree.Prelude.Lists.{contains, has}
use lib_python_worktree.Prelude.Repeats.{repeats}

pub data Isolation : Type 0 where
  full partial isolation_none : Isolation

pub data Shell : Type 0 where
  bash pwsh sh powershell : Shell

pub record Step : Type 0 where
  pub run : String
  pub name : Option String
  pub shell : Option Shell

pub record PortSlot : Type 0 where
  pub name : String
  pub port : Option ℕ

pub record WorktreeContract : Type 0 where
  pub version : ℕ
  pub isolation : Isolation
  pub setup : List Step
  pub teardown : List Step
  pub ports : List PortSlot
  pub start : List Step
  pub stop : List Step
  pub seed_postprocess : List Step

-- What `model_validate` reports. The lists are those of the messages, before they are sorted.
pub data Issue : Type 0 where
  bad_field : Issue
  forbidden_fields : List String → Issue
  duplicate_port_names : List String → Issue
  duplicate_pins : List ℕ → Issue
  duplicate_start_names : List String → Issue

abbrev pub is_empty {ℓ} : {A : Type ℓ} → List A → Bool
is_empty [] = true
is_empty (_ ∷ _) = false

-- `run: str = Field(..., min_length=1)`
unfoldable pub step_ok : Step → Bool
step_ok s = not (str_eq s.run "")

-- `port: Optional[int] = Field(default=None, ge=1, le=65535)`
unfoldable pub port_ok : Option ℕ → Bool
port_ok none = true
port_ok (some p) = leb 1 p && leb p 65535

-- The fields of a `PortSlot`, with `_name_must_be_slug`.
unfoldable pub slot_ok : PortSlot → Bool
slot_ok s = is_slug s.name && port_ok s.port

unfoldable pub all_ok {ℓ} : {A : Type ℓ} → (A → Bool) → List A → Bool
all_ok p [] = true
all_ok p (x ∷ xs) = p x && all_ok p xs

-- Every field constraint; `version: Literal[1]`.
unfoldable pub fields_ok : WorktreeContract → Bool
fields_ok c =
    (c.version == 1)
    && all_ok step_ok c.setup
    && all_ok step_ok c.teardown
    && all_ok slot_ok c.ports
    && all_ok step_ok c.start
    && all_ok step_ok c.stop
    && all_ok step_ok c.seed_postprocess

abbrev offender {ℓ} : {A : Type ℓ} → String → List A → List String
offender name [] = []
offender name (_ ∷ _) = name ∷ []

-- The list that `_isolation_none_forbids_lists` builds.
unfoldable pub offenders : WorktreeContract → List String
offenders c =
    offender "setup" c.setup
    ++ (offender "teardown" c.teardown
        ++ (offender "ports" c.ports
            ++ (offender "start" c.start
                ++ (offender "stop" c.stop ++ offender "seed_postprocess" c.seed_postprocess))))

-- `if xs: raise ValueError(...)`
unfoldable pub raise_unless_empty {ℓ} :
    {A : Type ℓ} → (List A → Issue) → List A → WorktreeContract → Result Issue WorktreeContract
raise_unless_empty issue [] c = ok c
raise_unless_empty issue (x ∷ xs) c = err (issue (x ∷ xs))

-- `if self.isolation == "none": ...`
unfoldable pub forbid_lists : Isolation → WorktreeContract → Result Issue WorktreeContract
forbid_lists full c = ok c
forbid_lists partial c = ok c
forbid_lists isolation_none c = raise_unless_empty forbidden_fields (offenders c) c

unfoldable pub isolation_none_forbids_lists : WorktreeContract → Result Issue WorktreeContract
isolation_none_forbids_lists c = forbid_lists c.isolation c

unfoldable pub ports_must_have_unique_names : WorktreeContract → Result Issue WorktreeContract
ports_must_have_unique_names c =
    raise_unless_empty duplicate_port_names
      (repeats has [] (map (λ (s : PortSlot). s.name) c.ports)) c

-- `slot.port` of the slots that have one
unfoldable pub pins_of : List PortSlot → List ℕ
pins_of [] = []
pins_of (s ∷ ss) = elim s.port [ none ↦ pins_of ss | some p ↦ p ∷ pins_of ss ]

unfoldable pub pinned_ports_must_be_unique : WorktreeContract → Result Issue WorktreeContract
pinned_ports_must_be_unique c =
    raise_unless_empty duplicate_pins (repeats contains [] (pins_of c.ports)) c

-- `step.name` of the steps that have one
unfoldable pub names_of : List Step → List String
names_of [] = []
names_of (s ∷ ss) = elim s.name [ none ↦ names_of ss | some n ↦ n ∷ names_of ss ]

unfoldable pub start_steps_must_have_unique_names : WorktreeContract → Result Issue WorktreeContract
start_steps_must_have_unique_names c =
    raise_unless_empty duplicate_start_names (repeats has [] (names_of c.start)) c

-- `WorktreeContract.model_validate`
unfoldable pub validate : WorktreeContract → Result Issue WorktreeContract
validate c =
    if fields_ok c
    then (do
      c₁ ← isolation_none_forbids_lists c
      c₂ ← ports_must_have_unique_names c₁
      c₃ ← pinned_ports_must_be_unique c₂
      start_steps_must_have_unique_names c₃)
    else err bad_field

-- What `create` hands to the allocator: `slot_names` and `pins`.
unfoldable pub slot_names : WorktreeContract → List String
slot_names c = map (λ (s : PortSlot). s.name) c.ports

unfoldable pub add_pins : List PortSlot → Dict ℕ → Dict ℕ
add_pins [] pins = pins
add_pins (s ∷ ss) pins = elim s.port [
  | none ↦ add_pins ss pins
  | some p ↦ add_pins ss (insert s.name p pins)
]

unfoldable pub pins : WorktreeContract → Dict ℕ
pins c = add_pins c.ports []
