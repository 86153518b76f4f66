-- ===== src/Manager/Resolved.antt =====
-- What `_resolve_target` finds for a path, and that it finds it again.
use lib_python_worktree.Prelude.{
  ℕ, ◌≤◌, String, ◌≡◌, ◌⊎◌, inl, inr, refl, ap, ◌∙◌, subst, Bool, true, false, Option, none, some,
  List, [], ◌∷◌, ◌&&◌, ltb, str_eq, arith, eq_iff, Bool-cases, Option-cases,
}
use lib_python_worktree.Prelude.Results.{Result, ok, err}
use lib_python_worktree.Prelude.Dict.{insert, lookup, has_key}
use lib_python_worktree.Prelude.Lists.{Any}
use lib_python_worktree.Store.{WorktreeRecord, Records, get, list, add}
use lib_python_worktree.Store.Invariants.{IsKeyed}
use lib_python_worktree.Checkout.{CheckoutInfo, ListError, Paths, classify_checkout}
use lib_python_worktree.Manager.Targets

module _ {A : Type 0} (key : A → ℕ) (passes : A → Bool) where
  -- No entry that passes has a greater key.
  abbrev AllWithin : List A → ℕ → Type 0
  AllWithin xs n = (y : A) → Any (λ x. x ≡ y) xs → passes y ≡ true → key y ≤ n

  -- The entry is one that passes, and none that passes has a greater key.
  abbrev pub IsDeepest : List A → Option A → Type 0
  IsDeepest xs (some x) = Any (λ y. y ≡ x) xs × (passes x ≡ true) × AllWithin xs (key x)
  IsDeepest xs none = (y : A) → Any (λ x. x ≡ y) xs → passes y ≡ false

  deepest-best :
      (best x : A) (xs : List A)
      → Targets.deepest key passes (some best) xs ≡ some x
      → ((best ≡ x) ⊎ (Any (λ y. y ≡ x) xs × (passes x ≡ true)))
        × (key best ≤ key x)
        × AllWithin xs (key x)
  unfolding Targets.deepest Targets.is_deeper
  deepest-best best x [] h =
      let same : best ≡ x = cc in (inl same, omega (arith, ap key same), λ y m. absurd m)
  deepest-best best x (y ∷ ys) h = elim (Bool-cases (passes y && ltb (key best) (key y))) [
    | inl e ↦
        let (found, above, within) = deepest-best y x ys (rw e at h) in
        let passed : passes y ≡ true = ground (arith, e) in
        let deeper : key best ≤ key y = ground (arith, e) in
        (
          inr (elim found [
            | inl same ↦ (inl same, subst (λ z. passes z ≡ true) same passed)
            | inr (m, p) ↦ (inr m, p)
          ]),
          omega (arith, above, deeper),
          λ z m p. elim m [ inl same ↦ omega (arith, above, ap key same) | inr n ↦ within z n p ],
        )
    | inr e ↦
        let (found, above, within) = deepest-best best x ys (rw e at h) in
        (
          elim found [ inl same ↦ inl same | inr (m, p) ↦ inr (inr m, p) ],
          above,
          λ z m p. elim m [
            | inl same ↦ ground (arith, above, ap key same, ap passes same, p, e)
            | inr n ↦ within z n p
          ],
        )
  ]

  deepest-none : (best : A) (xs : List A) → Targets.deepest key passes (some best) xs ≡ none → ⊥
  unfolding Targets.deepest
  deepest-none best [] h = cc
  deepest-none best (y ∷ ys) h =
      elim (Bool-cases (passes y && Targets.is_deeper key passes y (some best))) [
        | inl e ↦ deepest-none y ys (rw e at h)
        | inr e ↦ deepest-none best ys (rw e at h)
      ]

  pub deepest-IsDeepest :
      (xs : List A) (found : Option A)
      → Targets.deepest key passes none xs ≡ found
      → IsDeepest xs found
  unfolding Targets.deepest Targets.is_deeper
  deepest-IsDeepest [] none h = λ y m. absurd m
  deepest-IsDeepest [] (some x) h = absurd (cc)
  deepest-IsDeepest (y ∷ ys) none h = elim (Bool-cases (passes y)) [
    | inl e ↦ absurd (deepest-none y ys (rw e at h))
    | inr e ↦
        let none_later = deepest-IsDeepest ys none (rw e at h) in
        λ z m. elim m [ inl same ↦ subst (λ v. passes v ≡ false) same e | inr n ↦ none_later z n ]
  ]
  deepest-IsDeepest (y ∷ ys) (some x) h = elim (Bool-cases (passes y)) [
    | inl e ↦
        let (found, above, within) = deepest-best y x ys (rw e at h) in
        (
          elim found [ inl same ↦ inl same | inr (m, p) ↦ inr m ],
          elim found [ inl same ↦ subst (λ z. passes z ≡ true) same e | inr (m, p) ↦ p ],
          λ z m p. elim m [ inl same ↦ omega (arith, above, ap key same) | inr n ↦ within z n p ],
        )
    | inr e ↦
        let (m, p, within) = deepest-IsDeepest ys (some x) (rw e at h) in
        (
          inr m,
          p,
          λ z n q. elim n [ inl same ↦ absurd (cc (ap passes same, e, q)) | inr k ↦ within z k q ],
        )
  ]

-- The record has the id that is asked for, if any is.
abbrev pub IsNamed : Option String → WorktreeRecord → Type 0
IsNamed none rec = Unit
IsNamed (some id) rec = rec.id ≡ id

-- What a resolution may come back with, on the records before it: an error or a record that is
-- stored, and nothing is changed, or a primary checkout that is new.
abbrev pub Ends :
    Option String
    → (materialise : Bool) → Records
    → Result Targets.TargetError WorktreeRecord × Records
    → Type 0
Ends id materialise rs (err e, rs') = rs' ≡ rs
Ends id materialise rs (ok rec, rs') =
    IsNamed id rec
    × (((rs' ≡ rs) × Any (λ r. r ≡ rec) (list rs))
        ⊎ ((materialise ≡ true)
            × (rec.backing ≡ "primary")
            × (get rec.id rs ≡ none)
            × (rs' ≡ insert rec.id rec rs)))

pub get-list :
    (id : String) (rs : Records) (rec : WorktreeRecord)
    → get id rs ≡ some rec
    → Any (λ r. r ≡ rec) (list rs)
unfolding get list lookup
get-list id [] rec h = absurd (cc h)
get-list id ((k, r) ∷ rs) rec h = elim (Bool-cases (str_eq k id)) [
  | inl e ↦ inl (cc (rw e at h))
  | inr e ↦ inr (get-list id rs rec (rw e at h))
]

mismatch-none :
    (id resolved : String) → Targets.mismatch (some id) (some resolved) ≡ none → resolved ≡ id
unfolding Targets.mismatch
mismatch-none id resolved h = ground (arith, eq_iff resolved id)

pub mismatch-IsNamed :
    (id : Option String) {resolved : String} (rec : WorktreeRecord)
    → Targets.mismatch id (some resolved) ≡ none
    → rec.id ≡ resolved
    → IsNamed id rec
mismatch-IsNamed none rec m q = tt
mismatch-IsNamed (some i) rec m q = q ∙ mismatch-none i _ m

pub add-absent :
    (rec : WorktreeRecord) (rs : Records)
    → get rec.id rs ≡ none
    → add rec rs ≡ (ok tt, insert rec.id rec rs)
unfolding add get has_key
add-absent rec rs h =
    let absent : has_key rec.id rs ≡ false = ground (arith, h) in rw (absent, add) refl

module _ (o : Paths) (depth : String → ℕ) (info : CheckoutInfo) (rs : Records)
    (keyed : IsKeyed rs) where
  -- A record that is there already has the id that is resolved, and is stored.
  existing_record-IsNamed :
      (id : Option String) (rec : WorktreeRecord)
      → Targets.existing_record o depth info rs ≡ some rec
      → Targets.mismatch id (Targets.resolved_id o depth info (some rec)) ≡ none
      → IsNamed id rec × Any (λ r. r ≡ rec) (list rs)
  unfolding Targets.existing_record Targets.resolved_id
  existing_record-IsNamed id rec h m = elim (Bool-cases (str_eq info.backing "primary")) [
    | inl e ↦
        let found = rw e at h in
        (mismatch-IsNamed id rec (rw e at m) (keyed.at _ rec found), get-list _ rs rec found)
    | inr e ↦
        let (stored, _, _) = deepest-IsDeepest _ _ (list rs) (some rec) (rw e at h) in
        (mismatch-IsNamed id rec (rw e at m) refl, stored)
  ]

  existing_or_new-Ends :
      (id : Option String) (materialise : Bool) (existing : Option WorktreeRecord)
      → Targets.existing_record o depth info rs ≡ existing
      → Targets.mismatch id (Targets.resolved_id o depth info existing) ≡ none
      → Ends id materialise rs (Targets.existing_or_new o depth materialise info existing rs)
  unfolding Targets.existing_or_new Targets.added_record Targets.primary_record
      Targets.existing_record Targets.resolved_id
  existing_or_new-Ends id materialise (some rec) h m =
      let (named, stored) = existing_record-IsNamed id rec h m in (named, inl (refl, stored))
  existing_or_new-Ends id materialise none h m =
      elim (Bool-cases (str_eq info.backing "primary" && materialise)) [
        | inr e ↦ rw e refl
        | inl e ↦
            let is_primary : str_eq info.backing "primary" ≡ true = ground (arith, e) in
            let absent = rw is_primary at h in
            rw (e, add-absent (Targets.primary_record o depth info) rs absent)
              (
                mismatch-IsNamed id _ (rw is_primary at m) refl,
                inr (ground (arith, e), refl, absent, refl),
              )
      ]

  resolve_checkout-Ends :
      (id : Option String) (materialise : Bool)
      → Ends id materialise rs (Targets.resolve_checkout o depth id materialise rs info)
  unfolding Targets.resolve_checkout Targets.unless_mismatched
  resolve_checkout-Ends id materialise =
      unless_mismatched-Ends id materialise _ _ (existing_or_new-Ends id materialise _ refl)
    where
      unless_mismatched-Ends :
          (id : Option String) (materialise : Bool) (m : Option String)
          (rest : Result Targets.TargetError WorktreeRecord × Records)
          → (m ≡ none → Ends id materialise rs rest)
          → Ends id materialise rs (Targets.unless_mismatched m rs rest)
      unless_mismatched-Ends id materialise none rest h = h refl
      unless_mismatched-Ends id materialise (some resolved) rest h = refl

module _ (o : Paths) (depth : String → ℕ) where
  pub resolve_id-Ends :
      (id : Option String) (materialise : Bool) (rs : Records)
      → IsKeyed rs
      → Ends id materialise rs (Targets.resolve_id id rs, rs)
  unfolding Targets.resolve_id
  resolve_id-Ends none materialise rs keyed = refl
  resolve_id-Ends (some id) materialise rs keyed = elim (Option-cases (get id rs)) [
    | inl e ↦ rw (e, Ends) refl
    | inr (rec, e) ↦ rw (e, Ends) (keyed.at id rec e, inl (refl, get-list id rs rec e))
  ]

  resolve_classified-Ends :
      (id : Option String) (materialise : Bool) (rs : Records)
      → IsKeyed rs
      → (classified : Result ListError CheckoutInfo)
      → Ends id materialise rs (Targets.resolve_classified o depth id materialise rs classified)
  unfolding Targets.resolve_classified
  resolve_classified-Ends id materialise rs keyed (err e) = refl
  resolve_classified-Ends id materialise rs keyed (ok info) =
      resolve_checkout-Ends o depth info rs keyed id materialise

  -- On a store whose records stand at their own ids, whatever id, path and flag are given: an error
  -- leaves the store as it was. A record that is returned has the id, if one is given; it is one of
  -- the store, which is unchanged, or that of a primary checkout, which was not there, is added to
  -- the store, and that only if the flag says so.
  pub resolve_target-Ends :
      (id path : Option String) (materialise : Bool) (rs : Records)
      → IsKeyed rs
      → Ends id materialise rs (Targets.resolve_target o depth id path materialise rs)
  unfolding Targets.resolve_target
  resolve_target-Ends id none materialise rs keyed = resolve_id-Ends id materialise rs keyed
  resolve_target-Ends id (some path) materialise rs keyed =
      resolve_classified-Ends id materialise rs keyed (classify_checkout o path)
