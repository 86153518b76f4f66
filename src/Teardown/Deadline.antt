-- ===== src/Teardown/Deadline.antt =====
-- The bounded retries end by success or by their deadline, never by their fuel.
use lib_python_worktree.Prelude.{
  ℕ, zero, suc, ◌+◌, ◌*◌, ◌≤◌, ◌≡◌, subst, Bool, true, false, Option, none, some, arith, inl, inr,
  Bool-cases, Option-cases, leb,
}
use lib_python_worktree.Teardown.Types.{Outside, World}
use lib_python_worktree.Teardown.Retry.{
  retry_budget, min_of, sleep, retry_until, open_deadline, time_left, retry_bounded,
  bare_retry_bounded,
}

-- The operation has succeeded, or it fails at the end, where the clock has reached the deadline.
abbrev pub EndsBy : (World → Option World) → ℕ → Bool × World → Type 0
EndsBy op deadline (true, w') = (w : World) × (op w ≡ some w')
EndsBy op deadline (false, w') = (op w' ≡ none) × (deadline ≤ w'.now)

reached : (a b : ℕ) → leb a b ≡ true → a ≤ b
reached a b e = ground arith

not_both : (a b : ℕ) → a ≤ b + 100 * 0 → leb a b ≡ false → ⊥
not_both a b h e = ground arith

min_of-le : (a b : ℕ) → min_of a b ≤ a
unfolding min_of
min_of-le a b = ground arith

within : (n m : ℕ) → m ≤ 2000 → n + m ≤ n + 100 * 20
within n m h = omega arith

later : (d n fuel x : ℕ) → d ≤ n + 100 * suc fuel → d ≤ n + 100 + x + 100 * fuel
later d n fuel x h = omega arith

module _ (o : Outside) (op : World → Option World) where
  retry_until-EndsBy :
      (fuel deadline : ℕ) (w : World)
      → deadline ≤ w.now + 100 * fuel
      → EndsBy op deadline (retry_until o (suc fuel) deadline op w)
  unfolding retry_until sleep
  retry_until-EndsBy zero deadline w h = elim (Option-cases (op w)) [
    | inr (w', e) ↦ rw (e, retry_until) (w, e)
    | inl e ↦ elim (Bool-cases (leb deadline w.now)) [
      | inl late ↦ rw (e, retry_until, late) (e, reached deadline w.now late)
      | inr early ↦ elim (not_both _ _ h early) [ ]
    ]
  ]
  retry_until-EndsBy (suc fuel) deadline w h = elim (Option-cases (op w)) [
    | inr (w', e) ↦ rw (e, retry_until) (w, e)
    | inl e ↦ elim (Bool-cases (leb deadline w.now)) [
      | inl late ↦ rw (e, retry_until, late) (e, reached deadline w.now late)
      | inr early ↦
          rw (e, retry_until, early)
            (retry_until-EndsBy fuel deadline (sleep o w)
              (later deadline w.now fuel (o.delay w.now) h))
    ]
  ]

  open_deadline-now : (w : World) → (open_deadline o w).now ≡ w.now
  unfolding open_deadline
  open_deadline-now w = ground arith

  -- The retries of a removal end by success, or by a failure at a time when the removal's failure
  -- budget or the budget of this retry is used up: their fuel never ends them.
  pub retry_bounded-EndsBy :
      (w : World)
      → EndsBy op
          (w.now + min_of retry_budget (time_left o (open_deadline o w)))
          (retry_bounded o op w)
  unfolding retry_bounded
  retry_bounded-EndsBy w =
      let opened = open_deadline o w in
      let n = min_of retry_budget (time_left o opened) in
      subst (λ t. EndsBy op (t + n) (retry_bounded o op w)) (open_deadline-now w)
        (retry_until-EndsBy 20 (opened.now + n) opened
          (within opened.now n (min_of-le retry_budget (time_left o opened))))

  pub bare_retry_bounded-EndsBy :
      (w : World) → EndsBy op (w.now + retry_budget) (bare_retry_bounded o op w)
  unfolding bare_retry_bounded
  bare_retry_bounded-EndsBy w = retry_until-EndsBy 20 (w.now + retry_budget) w (ground arith)
