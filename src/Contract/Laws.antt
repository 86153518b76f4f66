-- ===== src/Contract/Laws.antt =====
-- Which contracts `model_validate` accepts.
use lib_python_worktree.Prelude.{
  String, ◌≡◌, refl, ◌↔◌, inl, inr, List, [], ◌∷◌, ◌++◌, map, Bool-cases,
}
use lib_python_worktree.Prelude.Results.{ok, >>=-eq-ok}
use lib_python_worktree.Prelude.Lists.{contains, IsDistinct}
use lib_python_worktree.Prelude.Repeats.{Distinct, repeats-IsDistinct, repeats-contains}
use lib_python_worktree.Contract.Names.{HasFields, fields_ok_iff}
use lib_python_worktree.Contract.{
  Isolation, full, partial, isolation_none, PortSlot, WorktreeContract, Issue, forbidden_fields,
  duplicate_port_names, duplicate_pins, duplicate_start_names, fields_ok, offender, offenders,
  raise_unless_empty, forbid_lists, isolation_none_forbids_lists, ports_must_have_unique_names,
  pins_of, pinned_ports_must_be_unique, names_of, start_steps_must_have_unique_names, validate,
  slot_names,
}

-- The contract declares no step and no port.
pub record IsBare (c : WorktreeContract) : Type 0 where
  pub setup : c.setup ≡ []
  pub teardown : c.teardown ≡ []
  pub ports : c.ports ≡ []
  pub start : c.start ≡ []
  pub stop : c.stop ≡ []
  pub seed_postprocess : c.seed_postprocess ≡ []

pub record IsWellFormed (c : WorktreeContract) : Type 0 where
  pub fields : HasFields c
  pub bare : c.isolation ≡ isolation_none → IsBare c
  pub names : IsDistinct (slot_names c)
  pub pins : Distinct contains (pins_of c.ports)
  pub starts : IsDistinct (names_of c.start)

raise_unless_empty-eq-ok {ℓ} :
    {A : Type ℓ} (issue : List A → Issue) (xs : List A) (c : WorktreeContract)
    {d : WorktreeContract}
    → raise_unless_empty issue xs c ≡ ok d
    → (xs ≡ []) × (d ≡ c)
unfolding raise_unless_empty
raise_unless_empty-eq-ok issue [] c h = (refl, cc)
raise_unless_empty-eq-ok issue (x ∷ xs) c h = absurd (cc)

raise_unless_empty_nil {ℓ} :
    {A : Type ℓ} (issue : List A → Issue) (xs : List A) (c : WorktreeContract)
    → xs ≡ []
    → raise_unless_empty issue xs c ≡ ok c
unfolding raise_unless_empty
raise_unless_empty_nil issue [] c h = refl
raise_unless_empty_nil issue (x ∷ xs) c h = absurd (cc)

offender-nil {ℓ} :
    {A : Type ℓ} (name : String) (xs : List A) (rest : List String)
    → offender name xs ++ rest ≡ []
    → (xs ≡ []) × (rest ≡ [])
offender-nil name [] rest h = (refl, h)
offender-nil name (x ∷ xs) rest h = absurd (cc)

offender-nil_last {ℓ} : {A : Type ℓ} (name : String) (xs : List A) → offender name xs ≡ [] → xs ≡ []
offender-nil_last name [] h = refl
offender-nil_last name (x ∷ xs) h = absurd (cc)

offenders-nil : (c : WorktreeContract) → offenders c ≡ [] → IsBare c
unfolding offenders
offenders-nil c h =
    let (a, h₁) = offender-nil "setup" c.setup _ h in
    let (b, h₂) = offender-nil "teardown" c.teardown _ h₁ in
    let (d, h₃) = offender-nil "ports" c.ports _ h₂ in
    let (e, h₄) = offender-nil "start" c.start _ h₃ in
    let (f, h₅) = offender-nil "stop" c.stop _ h₄ in
    record {
      setup = a;
      teardown = b;
      ports = d;
      start = e;
      stop = f;
      seed_postprocess = offender-nil_last "seed_postprocess" c.seed_postprocess h₅;
    }

nil-offenders : (c : WorktreeContract) → IsBare c → offenders c ≡ []
unfolding offenders
nil-offenders c b = simp (b.setup, b.teardown, b.ports, b.start, b.stop, b.seed_postprocess)

forbid_lists-eq-ok :
    (i : Isolation) (c : WorktreeContract) {d : WorktreeContract}
    → forbid_lists i c ≡ ok d
    → (d ≡ c) × (i ≡ isolation_none → IsBare c)
unfolding forbid_lists
forbid_lists-eq-ok full c h = (cc, λ e. absurd (cc))
forbid_lists-eq-ok partial c h = (cc, λ e. absurd (cc))
forbid_lists-eq-ok isolation_none c h =
    let (e, same) = raise_unless_empty-eq-ok forbidden_fields (offenders c) c h in
    (same, λ _. offenders-nil c e)

forbid_lists_ok :
    (i : Isolation) (c : WorktreeContract)
    → (i ≡ isolation_none → IsBare c)
    → forbid_lists i c ≡ ok c
unfolding forbid_lists
forbid_lists_ok full c h = refl
forbid_lists_ok partial c h = refl
forbid_lists_ok isolation_none c h =
    raise_unless_empty_nil forbidden_fields (offenders c) c (nil-offenders c (h refl))

-- The validators after the first, on one contract.
unique_names :
    (c : WorktreeContract) {d : WorktreeContract}
    → ports_must_have_unique_names c ≡ ok d
    → (d ≡ c) × IsDistinct (slot_names c)
unfolding ports_must_have_unique_names slot_names
unique_names c h =
    let (e, same) = raise_unless_empty-eq-ok duplicate_port_names _ c h in
    (same, (repeats-IsDistinct (map (λ (s : PortSlot). s.name) c.ports)).0 e)

unique_pins :
    (c : WorktreeContract) {d : WorktreeContract}
    → pinned_ports_must_be_unique c ≡ ok d
    → (d ≡ c) × Distinct contains (pins_of c.ports)
unfolding pinned_ports_must_be_unique
unique_pins c h =
    let (e, same) = raise_unless_empty-eq-ok duplicate_pins _ c h in
    (same, (repeats-contains (pins_of c.ports)).0 e)

unique_starts :
    (c : WorktreeContract) {d : WorktreeContract}
    → start_steps_must_have_unique_names c ≡ ok d
    → (d ≡ c) × IsDistinct (names_of c.start)
unfolding start_steps_must_have_unique_names
unique_starts c h =
    let (e, same) = raise_unless_empty-eq-ok duplicate_start_names _ c h in
    (same, (repeats-IsDistinct (names_of c.start)).0 e)

-- A contract that is accepted is returned unchanged and is well formed.
pub validate-eq-ok :
    (c : WorktreeContract) {d : WorktreeContract} → validate c ≡ ok d → (d ≡ c) × IsWellFormed c
unfolding validate isolation_none_forbids_lists
validate-eq-ok c h = elim (Bool-cases (fields_ok c)) [
  | inr e ↦ absurd (cc (rw e at h))
  | inl e ↦
      let (c₁, q₁, h₁) = >>=-eq-ok (forbid_lists c.isolation c) _ (rw e at h) in
      let (s₁, bare) = forbid_lists-eq-ok c.isolation c q₁ in
      let (c₂, q₂, h₂) = >>=-eq-ok (ports_must_have_unique_names c) _ (rw s₁ at h₁) in
      let (s₂, names) = unique_names c q₂ in
      let (c₃, q₃, h₃) = >>=-eq-ok (pinned_ports_must_be_unique c) _ (rw s₂ at h₂) in
      let (s₃, pins) = unique_pins c q₃ in
      let (s₄, starts) = unique_starts c (rw s₃ at h₃) in
      (
        s₄,
        record {
          fields = (fields_ok_iff c).0 e;
          bare = bare;
          names = names;
          pins = pins;
          starts = starts;
        },
      )
]

-- Exactly the well-formed contracts are accepted, and they are returned unchanged: those of version 1
-- whose steps have something to run, whose slots have a name of the pattern and a pin from 1 to 65535
-- if any, without steps and slots where the isolation is none, and with distinct names of slots,
-- pins and names of start steps.
pub validate_iff : (c : WorktreeContract) → (validate c ≡ ok c) ↔ IsWellFormed c
unfolding validate isolation_none_forbids_lists ports_must_have_unique_names
    pinned_ports_must_be_unique start_steps_must_have_unique_names slot_names
validate_iff c = (
  (λ h. (validate-eq-ok c h).1),
  λ w. rw (
    (fields_ok_iff c).1 w.fields,
    forbid_lists_ok c.isolation c w.bare,
    raise_unless_empty_nil duplicate_port_names _ c
        ((repeats-IsDistinct (map (λ (s : PortSlot). s.name) c.ports)).1 w.names),
    raise_unless_empty_nil duplicate_pins _ c ((repeats-contains (pins_of c.ports)).1 w.pins),
    raise_unless_empty_nil duplicate_start_names _ c
        ((repeats-IsDistinct (names_of c.start)).1 w.starts),
  ),
)
