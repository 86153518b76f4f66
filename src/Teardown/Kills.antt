-- ===== src/Teardown/Kills.antt =====
-- Whom the diagnosis of a failed attempt kills.
use mathlib.Core.List.{◌++◌}
use lib_python_worktree.Prelude.{
  ℕ, ◌≡◌, ◌⊎◌, refl, sym, ap, ◌∙◌, Bool, true, false, ◌||◌, ◌&&◌, Option, some, List, [], ◌∷◌, ◌==◌,
  arith, inl, inr, if◌then◌else◌, Bool-cases, Option-cases,
}
use lib_python_worktree.Prelude.Lists.{contains}
use lib_python_worktree.Teardown.Types.{
  Outside, Request, World, kill_tree, kill_blockers, scan_blockers,
}
use lib_python_worktree.Teardown.Disk.{calling, merge_killed, add_killed}
use lib_python_worktree.Teardown.Diagnose.{
  attempt, budget_is_spent, is_confirmed, is_nonempty, tier_one_candidates, report_blockers,
  kill_candidates, kill_holders, tier_one, tier_two, diagnose_and_retry,
}

same : (p q : ℕ) → p == q ≡ true → p ≡ q
same p q e = ground arith

or_assoc : (a b c : Bool) → (a || b) || c ≡ a || (b || c)
or_assoc a b c = ground arith

either : (a b : Bool) → a || b ≡ true → (a ≡ true) ⊎ (b ≡ true)
either a b h = ground arith

first : (a b : Bool) → a && b ≡ true → a ≡ true
first a b h = ground arith

contains-append :
    (p : ℕ) (xs ys : List ℕ) → contains p (xs ++ ys) ≡ (contains p xs || contains p ys)
unfolding contains
contains-append p [] ys = refl
contains-append p (x ∷ xs) ys = ground (arith, contains-append p xs ys)

contains-add :
    (p y : ℕ) (xs : List ℕ)
    → contains p (if contains y xs then xs else xs ++ y ∷ []) ≡ (contains p xs || p == y)
unfolding contains
contains-add p y xs = elim (Bool-cases (p == y)) [
  | inl e ↦ rw (same p y e) (ground (arith, contains-append y xs (y ∷ [])))
  | inr e ↦ ground (arith, contains-append p xs (y ∷ []))
]

contains-merge_killed :
    (p : ℕ) (xs ys : List ℕ) → contains p (merge_killed xs ys) ≡ (contains p xs || contains p ys)
unfolding merge_killed contains
contains-merge_killed p xs [] = ground arith
contains-merge_killed p xs (y ∷ ys) =
    contains-merge_killed p (if contains y xs then xs else xs ++ y ∷ []) ys
    ∙ ap (λ b. b || contains p ys) (contains-add p y xs)
    ∙ or_assoc (contains p xs) (p == y) (contains p ys)

contains-tier_one :
    (o : Outside) (r : Request) (now p : ℕ) (pids : List ℕ)
    → contains p (tier_one_candidates o r now pids) ≡ true
    → (contains p pids ≡ true) × (is_confirmed o r now p ≡ true)
unfolding tier_one_candidates contains
contains-tier_one o r now p [] h = ground arith
contains-tier_one o r now p (q ∷ pids) h = elim (Bool-cases (is_confirmed o r now q)) [
  | inl c ↦ elim (Bool-cases (p == q)) [
    | inl e ↦ (ground arith, rw (same p q e) c)
    | inr e ↦ ground (arith, contains-tier_one o r now p pids)
  ]
  | inr c ↦ ground (arith, contains-tier_one o r now p pids)
]

-- Why a pid is on the list of the killed: it was on it; or the caller allows kills, and it is a pid
-- that the worktree owned and that was confirmed to be the tracked process when the diagnosis
-- began, or one that the kill of the holders of the directory reports.
abbrev pub Culprit : Outside → Request → ℕ → ℕ → Type 0
Culprit o r began p =
    (r.kill_blocking_processes ≡ true)
    × (((contains p r.owned_pids ≡ true) × (is_confirmed o r began p ≡ true))
        ⊎ ((t : ℕ) × (ps : List ℕ) × (o.kills_blocking t ≡ some ps) × (contains p ps ≡ true)))

abbrev pub KillsOnly : Outside → Request → World → World → Type 0
KillsOnly o r w w' =
    (p : ℕ)
    → contains p w'.rec.killed_pids ≡ true
    → (contains p w.rec.killed_pids ≡ true) ⊎ Culprit o r w.now p

-- The operation does not touch the list of the killed.
abbrev pub SparesList : (World → Option World) → Type 0
SparesList op = (v v' : World) → op v ≡ some v' → v'.rec.killed_pids ≡ v.rec.killed_pids

module _ (o : Outside) (r : Request) (op : World → Option World) (spares : SparesList op)
    (w : World) where
  attempt-KillsOnly : (v : World) → KillsOnly o r w v → KillsOnly o r w (attempt op v).1
  unfolding attempt
  attempt-KillsOnly v q = elim (Option-cases (op v)) [
    | inl e ↦ rw (e, attempt) q
    | inr (v', e) ↦ rw (e, attempt) (λ p h. q p (sym (ap (contains p) (spares v v' e)) ∙ h))
  ]

  add_killed-KillsOnly :
      (ps : List ℕ) (v : World)
      → ((p : ℕ) → contains p ps ≡ true → Culprit o r w.now p)
      → KillsOnly o r w v
      → KillsOnly o r w (add_killed ps v)
  unfolding add_killed
  add_killed-KillsOnly ps v new q p h =
      elim (either _ _ (sym (contains-merge_killed p v.rec.killed_pids ps) ∙ h)) [
        | inl e ↦ q p e
        | inr e ↦ inr (new p e)
      ]

  kill_candidates-KillsOnly :
      (allowed : r.kill_blocking_processes ≡ true) (v : World)
      → KillsOnly o r w v
      → KillsOnly o r w (kill_candidates o r (tier_one_candidates o r w.now r.owned_pids) v)
  unfolding kill_candidates calling
  kill_candidates-KillsOnly allowed v q =
      let found = tier_one_candidates o r w.now r.owned_pids in
      elim (Bool-cases (o.kills_tree v.now)) [
        | inl e ↦ rw e (
            add_killed-KillsOnly found (calling o kill_tree (record v { kill_attempted = true }))
              (λ p h. (allowed, inl (contains-tier_one o r w.now p r.owned_pids h))) q)
        | inr e ↦ rw e q
      ]

  kill_holders-KillsOnly :
      (allowed : r.kill_blocking_processes ≡ true) (v : World)
      → KillsOnly o r w v
      → KillsOnly o r w (kill_holders o r v)
  unfolding kill_holders calling
  kill_holders-KillsOnly allowed v q = elim (Option-cases (o.kills_blocking v.now)) [
    | inl e ↦ rw (e, kill_holders) q
    | inr (ps, e) ↦
        rw (e, kill_holders)
          (add_killed-KillsOnly ps (calling o kill_blockers (record v { kill_attempted = true }))
            (λ p h. (allowed, inr (v.now, ps, e, h))) q)
  ]

  choose :
      (b : Bool) (x y : Bool × World)
      → (b ≡ true → KillsOnly o r w x.1)
      → (b ≡ false → KillsOnly o r w y.1)
      → KillsOnly o r w (if b then x else y).1
  choose true x y qx qy = qx refl
  choose false x y qx qy = qy refl

  tier_one-KillsOnly : KillsOnly o r w (tier_one o r op w).1
  unfolding tier_one report_blockers
  tier_one-KillsOnly =
      let found = tier_one_candidates o r w.now r.owned_pids in
      let w' = report_blockers o r found w in
      let start : KillsOnly o r w w = λ p h. inl h in
      choose (is_nonempty found) _ (false, w)
        (λ _.
          choose r.kill_blocking_processes (attempt op (kill_candidates o r found w')) (false, w')
            (λ allowed. attempt-KillsOnly _ (kill_candidates-KillsOnly allowed w' start))
            (λ _. start))
        (λ _. start)

  tier_two-KillsOnly : (v : World) → KillsOnly o r w v → KillsOnly o r w (tier_two o r op v).1
  unfolding tier_two report_blockers calling
  tier_two-KillsOnly v q =
      let found = o.blocking v.now in
      let v' = report_blockers o r found (calling o scan_blockers v) in
      choose (budget_is_spent v) (false, v) _ (λ _. q)
        (λ _.
          choose (r.kill_blocking_processes && is_nonempty found) (attempt op (kill_holders o r v'))
            (false, v') (λ h. attempt-KillsOnly _ (kill_holders-KillsOnly (first _ _ h) v' q))
            (λ _. q))

  -- A diagnosis lists as killed no other pid than those of the list so far and, where the caller
  -- allows kills, those that the worktree owned and that were confirmed to be the tracked process,
  -- and those that the kill of the holders of the directory reports.
  pub diagnose_and_retry-KillsOnly : KillsOnly o r w (diagnose_and_retry o r op w).1
  unfolding diagnose_and_retry
  diagnose_and_retry-KillsOnly =
      let (resolved, w') = tier_one o r op w in
      choose (budget_is_spent w) (false, w) _ (λ _ p h. inl h)
        (λ _.
          choose resolved (true, w') (tier_two o r op w') (λ _. tier_one-KillsOnly)
            (λ _. tier_two-KillsOnly w' tier_one-KillsOnly))
