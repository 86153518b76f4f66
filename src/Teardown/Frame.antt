-- ===== src/Teardown/Frame.antt =====
-- What every phase but the `teardown:` steps and the release of the ports keeps.
use lib_python_worktree.Prelude.{
  String, ◌≡◌, refl, true, false, Option, some, List, [], ◌&&◌, ◌||◌, not, arith, inl, inr,
  Option-cases,
}
use lib_python_worktree.Prelude.Results.{ok, err}
use lib_python_worktree.Teardown.Types.{
  Dir, absent, git_status, Outside, Request, World, pure, raise, dirty, ◌>>=◌,
}
use lib_python_worktree.Teardown.Dirt.{real_dirt_paths}
use lib_python_worktree.Teardown.Disk.{
  exists, has_content, can_land, rename_out, rename_back, delete_staged,
}
use lib_python_worktree.Teardown.Hooks.{
  has_steps, is_dirty, teardown_steps_of, probe_status, dirt, refuse_early, early_check,
  gate_b_early_dirty,
}
use lib_python_worktree.Teardown.Phases.{
  undo_rename, refuse_dirty, refuse_if_dirty, dirt_check, dirt_gate, residual_gone, resolve,
  clear_staged, stage_and_clear, stage_and_delete,
}
use lib_python_worktree.Teardown.Stable.{
  Keeps, calling-keeps, resolve-keeps, bare_retry_bounded-keeps,
}
use lib_python_worktree.Teardown.Quiet.{
  IsQuiet, bind-keeps, when-keeps, if-keeps, choose-keeps, pair-keeps,
}

-- The predicate depends neither on what a quiet phase changes nor on the disk or the memoised
-- probe.
pub record IsFrame (o : Outside) (Q : World → Type 0) : Type 0 where
  pub quiet : IsQuiet o Q
  pub disk : (w : World) (c s : Dir) → Q w → Q (record w { checkout = c; staged = s })
  pub cached :
      (w : World) (x : Option (Option (List String))) → Q w → Q (record w { status_cache = x })

-- What a successful rename has done.
pub rename_out-eq-some :
    (o : Outside) (w w' : World)
    → rename_out o w ≡ some w'
    → (exists w.checkout ≡ true)
      × (can_land o w.staged ≡ true)
      × (w' ≡ record w { checkout = absent; staged = w.checkout })
unfolding rename_out
rename_out-eq-some o w w' e = ground arith

pub rename_back-eq-some :
    (o : Outside) (w w' : World)
    → rename_back o w ≡ some w'
    → (exists w.staged ≡ true)
      × (can_land o w.checkout ≡ true)
      × (w' ≡ record w { checkout = w.staged; staged = absent })
unfolding rename_back
rename_back-eq-some o w w' e = ground arith

pub residual_gone-eq-some :
    (o : Outside) (r : Request) (w w' : World)
    → residual_gone o r w ≡ some w'
    → (has_content w.staged ≡ false) × (w' ≡ w)
unfolding residual_gone
residual_gone-eq-some o r w w' e = ground arith

module _ (Q : World → Type 0) (o : Outside) (r : Request) (f : IsFrame o Q) where
  rename_out-Keeps : Keeps Q (rename_out o)
  rename_out-Keeps = record {
    at = λ w w' e q. rw ((rename_out-eq-some o w w' e).2) (f.disk w absent w.checkout q);
  }

  rename_back-Keeps : Keeps Q (rename_back o)
  rename_back-Keeps = record {
    at = λ w w' e q. rw ((rename_back-eq-some o w w' e).2) (f.disk w w.staged absent q);
  }

  residual_gone-Keeps : Keeps Q (residual_gone o r)
  residual_gone-Keeps = record { at = λ w w' e q. rw ((residual_gone-eq-some o r w w' e).1) q }

  delete_staged-keeps : (w : World) → Q w → Q (delete_staged o w)
  unfolding delete_staged
  delete_staged-keeps w q = f.disk w w.checkout _ q

  probe_status-keeps : (w : World) → Q w → Q (probe_status o r w).1
  unfolding probe_status
  probe_status-keeps w q = elim (Option-cases w.status_cache) [
    | inr (x, e) ↦ rw (e, probe_status) q
    | inl e ↦
        rw (e, probe_status) (f.cached _ _ (calling-keeps Q f.quiet.stable o git_status w refl q))
  ]

  pub dirt-keeps : (w : World) → Q w → Q (dirt o r w).1
  unfolding dirt
  dirt-keeps w q =
      choose-keeps Q r.force (pure []) (probe_status o r >>= λ es. pure (real_dirt_paths es)) w q (
        bind-keeps Q (probe_status o r) (λ es. pure (real_dirt_paths es)) w (probe_status-keeps w q)
          (λ a. probe_status-keeps w q))

  early_check-keeps : (w : World) → Q w → Q (early_check o r w).1
  unfolding early_check refuse_early
  early_check-keeps w q = bind-keeps Q (dirt o r) (refuse_early o r) w (dirt-keeps w q) (λ found.
      when-keeps Q (is_dirty found) (raise (dirty false)) _ (dirt-keeps w q) (dirt-keeps w q))

  pub gate_b-keeps : (w : World) → Q w → Q (gate_b_early_dirty o r w).1
  unfolding gate_b_early_dirty
  gate_b-keeps w q =
      when-keeps Q (not r.force && has_steps (teardown_steps_of r.contract)) (early_check o r) w q
        (early_check-keeps w q)

  undo_rename-keeps : (w : World) → Q w → Q (undo_rename o r w).1
  unfolding undo_rename
  undo_rename-keeps w q = elim (Option-cases (rename_back o w)) [
    | inr (w', e) ↦ rw (e, undo_rename) (rename_back-Keeps.at w w' e q)
    | inl e ↦
        rw (e, undo_rename)
          (bare_retry_bounded-keeps Q f.quiet.stable o (rename_back o) rename_back-Keeps w q)
  ]

  refuse_dirty-keeps : (found : List String) (w : World) → Q w → Q (refuse_dirty o r found w).1
  unfolding refuse_dirty
  refuse_dirty-keeps found w q = elim (Option-cases (rename_out o w)) [
    | inr (w', e) ↦ rw (e, refuse_dirty) (undo_rename-keeps w' (rename_out-Keeps.at w w' e q))
    | inl e ↦ rw (e, refuse_dirty) q
  ]

  dirt_check-keeps : (w : World) → Q w → Q (dirt_check o r w).1
  unfolding dirt_check refuse_if_dirty
  dirt_check-keeps w q = bind-keeps Q (dirt o r) (refuse_if_dirty o r) w (dirt-keeps w q) (λ found.
      when-keeps Q (is_dirty found) (refuse_dirty o r found) _ (dirt-keeps w q)
        (refuse_dirty-keeps found _ (dirt-keeps w q)))

  pub dirt_gate-keeps : (w : World) → Q w → Q (dirt_gate o r w).1
  unfolding dirt_gate
  dirt_gate-keeps w q =
      when-keeps Q (not (r.force || r.target_absent)) (dirt_check o r) w q (dirt_check-keeps w q)

  clear_staged-keeps : (w : World) → Q w → Q (clear_staged o r w)
  unfolding clear_staged
  clear_staged-keeps w q =
      if-keeps Q (has_content (delete_staged o w).staged) _ _
        (resolve-keeps Q f.quiet.stable o (residual_gone o r) residual_gone-Keeps r _
          (delete_staged-keeps w q))
        (delete_staged-keeps w q)

  stage_and_clear-keeps : (w : World) → Q w → Q (stage_and_clear o r w)
  unfolding stage_and_clear
  stage_and_clear-keeps w q =
      let q' = resolve-keeps Q f.quiet.stable o (rename_out o) rename_out-Keeps r w q in
      if-keeps Q (exists (resolve o r (rename_out o) w).staged) _ _ (clear_staged-keeps _ q') q'

  pub stage_and_delete-keeps : (w : World) → Q w → Q (stage_and_delete o r w).1
  unfolding stage_and_delete
  stage_and_delete-keeps w q =
      pair-keeps Q (exists w.checkout) _ _
        (stage_and_clear-keeps _
          (if-keeps Q (has_content w.staged) (delete_staged o w) w (delete_staged-keeps w q) q))
        (pair-keeps Q (has_content w.staged) _ _
          (pair-keeps Q r.force (ok tt, delete_staged o w) (err (dirty true), w)
            (delete_staged-keeps w q) q)
          q)
