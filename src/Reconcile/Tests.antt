-- ===== src/Reconcile/Tests.antt =====
-- `reconcile` on a concrete state.
use lib_python_worktree.Prelude.{
  ℕ, ◌≡◌, refl, sym, subst, true, false, none, some, [], ◌∷◌, arith, ◌==◌, if◌then◌else◌, str_eq,
  str_eq-cases, inl, inr,
}
use lib_python_worktree.Prelude.Dict.{Dict, has_key, insert, lookup, keys, without}
use lib_python_worktree.Prelude.Lists.{has, IsDistinct}
use lib_python_worktree.Ports.{port_key, is_plain}
use lib_python_worktree.Store.{is_branch, WorktreeRecord, new_record, Records}
use lib_python_worktree.Prelude.Int.{pos}
use lib_python_worktree.Prelude.Splitlines.{split_lines, split_after, is_break, put_first}
use lib_python_worktree.Prelude.Texts.{has_prefix, drop_chars, less_text}
use lib_python_worktree.Checkout.{
  parse_worktree_porcelain, parse_from, closed_by, block_if_any, branch_of_ref, current_after,
  has_keys, read_line,
}
use lib_python_worktree.Reconcile.Heal.{
  Healing, heal_branches, heal_roots, sorted_roots, candidates_in, is_candidate, is_ascii,
  place_root, heal_blocks, blocks_from, decodes_to, heal_block, heal_path, heal_record, ids_by_path,
  is_spoilt, is_utf8_mojibake_of,
}
use lib_python_worktree.Reconcile.Healed.{IsHealed}
use lib_python_worktree.Git.{completed, is_exit}
use lib_python_worktree.Reconcile.{
  mark_stopped, Outside, heal_backing, stale_slots, reconcile_record, reconcile, is_mislabelled,
  save_changed, sweep_role, sweep_roles, declared, undeclared, any_changed, reconcile_records,
  sweep_dead, dead_roles, is_false, mark_orphaned, is_changed, prune_ports,
}
use lib_python_worktree.Reconcile.Settled.{IsReconciled}
use lib_python_worktree.Reconcile.Stale.{reconcile_record_thrice}
use lib_python_worktree.Reconcile.Changed.{reconcile-IsReconciled}
use lib_python_worktree.Reconcile.Honest.{AllHonest, reconcile-AllHonest}
use lib_python_worktree.Reconcile.Freed.{ArePlain, lookup-reconcile_tracked}

-- Git lists one worktree, whose branch is the one that was stored as two letters.
abbrev healing : Healing
healing = record {
  worktree_list = λ root. completed (record {
    returncode = pos 0;
    stdout = "worktree /wt/a\nbranch refs/heads/ü\n";
    stderr = "";
  });
  strip = λ s. s;
  rstrip = λ s. s;
  resolve = λ p. p;
  encode = λ s. some (195 ∷ 188 ∷ []);
  decode = λ codec bytes. some "Ã¼";
  works = true;
}

-- The pid 41 is dead, the path /wt/b is gone, and the contract declares the slot web.
abbrev outside : Outside
outside = record {
  exists = λ path. str_eq path "/wt/a";
  same_path = λ p q. str_eq p q;
  pid_status = λ pid start. some (if pid == 41 then false else true);
  declared_slots = some (λ root. some ("web" ∷ []));
  healing = healing;
}

abbrev left_over : WorktreeRecord
left_over = record (new_record "wt-a" "/repo" (some "Ã¼") "/wt/a") {
  status = "running";
  pids = ("web", 41) ∷ [];
  start_times = ("web", 7) ∷ [];
  variants = ("web", "dev") ∷ [];
  ports = ("web", 8000) ∷ ("old", 8001) ∷ [];
}

abbrev tracked_one : Records
tracked_one = ("wt-a", left_over) ∷ []

abbrev allocations : Dict ℕ
allocations = ("wt-a:web", 8000) ∷ ("wt-a:old", 8001) ∷ ("wt-z:web", 8002) ∷ []

reconcile_record_thrice_example :
    reconcile_record outside (reconcile_record outside (reconcile_record outside left_over))
    ≡ reconcile_record outside (reconcile_record outside left_over)
reconcile_record_thrice_example = reconcile_record_thrice outside left_over

-- One pass sweeps the dead role, and only the next one prunes the slot that is not declared.
swept_once : (reconcile_record outside left_over).ports ≡ ("web", 8000) ∷ ("old", 8001) ∷ []
unfolding reconcile_record sweep_dead sweep_roles dead_roles mark_orphaned prune_ports heal_backing
    is_mislabelled is_false sweep_role without has stale_slots
swept_once = refl

pruned_twice :
    (reconcile_record outside (reconcile_record outside left_over)).ports ≡ ("web", 8000) ∷ []
unfolding reconcile_record sweep_dead sweep_roles dead_roles mark_orphaned prune_ports heal_backing
    is_mislabelled is_false sweep_role without has stale_slots declared undeclared
pruned_twice = refl

saved :
    lookup "wt-a" (reconcile outside tracked_one allocations).0
    ≡ some (record (reconcile_record outside left_over) { branch = some "ü" })
unfolding reconcile lookup save_changed any_changed is_changed is_mislabelled stale_slots
    heal_backing prune_ports dead_roles mark_orphaned is_false reconcile_records heal_branches
    heal_roots sorted_roots candidates_in is_candidate reconcile_record sweep_dead sweep_roles
    sweep_role is_ascii place_root heal_blocks blocks_from is_exit parse_worktree_porcelain
    parse_from closed_by block_if_any branch_of_ref current_after has_keys read_line has_key insert
    without has drop_chars has_prefix less_text decodes_to heal_block heal_path heal_record
    ids_by_path is_spoilt is_utf8_mojibake_of declared mark_stopped undeclared is_branch split_lines
    split_after is_break put_first
saved = refl

reconcile-IsReconciled_example :
    ((rec : WorktreeRecord) × (lookup "wt-a" tracked_one ≡ some rec)
      × IsHealed healing
          (reconcile_record outside rec)
          (record (reconcile_record outside left_over) { branch = some "ü" }))
    × IsReconciled outside (record (reconcile_record outside left_over) { branch = some "ü" })
reconcile-IsReconciled_example =
    reconcile-IsReconciled outside tracked_one allocations "wt-a"
      (record (reconcile_record outside left_over) { branch = some "ü" }) saved

plain_id : is_plain "wt-a" ≡ true
unfolding is_plain
plain_id = refl

tracked_one-ArePlain : ArePlain tracked_one
unfolding has
tracked_one-ArePlain k m = elim (str_eq-cases k "wt-a") [
  | inl e ↦ subst (λ x. is_plain x ≡ true) (sym e) plain_id
  | inr e ↦ ground arith
]

tracked_one-IsDistinct : IsDistinct (keys tracked_one)
unfolding has
tracked_one-IsDistinct = (refl, tt)

found : lookup "wt-a" tracked_one ≡ some left_over
unfolding lookup
found = refl

lookup-reconcile_tracked_example :
    lookup (port_key "wt-a" "web") (reconcile outside tracked_one allocations).1.0 ≡ (
      if has "web" (stale_slots outside (heal_backing outside left_over))
      then none
      else lookup (port_key "wt-a" "web") allocations)
lookup-reconcile_tracked_example =
    lookup-reconcile_tracked outside tracked_one allocations "wt-a" "web" left_over
      tracked_one-ArePlain tracked_one-IsDistinct found

reconcile-AllHonest_example : AllHonest (reconcile outside tracked_one allocations).0
reconcile-AllHonest_example = reconcile-AllHonest outside tracked_one allocations (inl refl, tt)
