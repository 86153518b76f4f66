-- ===== src/Lifecycle/Tests.antt =====
-- Budgets, waits and starts on concrete values.
use lib_python_worktree.Prelude.{
  ◌+◌, arith, ◌≡◌, refl, inl, inr, subst, Bool-cases, str_eq, true, false, none, some, [], ◌∷◌, ltb,
  str_eq,
}
use lib_python_worktree.Prelude.Int.{pos}
use lib_python_worktree.Prelude.Dict.{lookup, has_key}
use lib_python_worktree.Store.{Records, new_record}
use lib_python_worktree.Lifecycle.Budget.{
  compute_stop_budget, tree_floor_of, orphan_floor_of, smaller, split_budget,
}
use lib_python_worktree.Lifecycle.Shares.{IsShared, compute_stop_budget-IsShared}
use lib_python_worktree.Lifecycle.Waiting.{
  killed, wait_or_kill, poll, is_verified, wait_until, escalate, kill_verified,
}
use lib_python_worktree.Lifecycle.Verified.{Sleeps, EndsBy, wait_or_kill-EndsBy}
use lib_python_worktree.Lifecycle.Kills.{Stays, KillsBy, wait_or_kill-KillsBy}
use lib_python_worktree.Lifecycle.Starting.{Outside, start, is_true}
use lib_python_worktree.Lifecycle.Covered.{IsCovered, AllCovered, start-AllCovered}

ten_seconds :
    compute_stop_budget (pos 10000) true
    ≡ record { primary_cap = 60000; tree_floor = 10000; orphan_floor = 30000 }
unfolding compute_stop_budget split_budget smaller tree_floor_of orphan_floor_of
ten_seconds = refl

compute_stop_budget-IsShared_example : IsShared (pos 10000) (compute_stop_budget (pos 10000) true)
compute_stop_budget-IsShared_example = compute_stop_budget-IsShared (pos 10000) true

-- The process stays, and is the one that was started; a poll takes 7 ms.
killed_late :
    wait_or_kill true (λ t. false) (λ t. true) (λ t. some true) (λ t. t + 107) 0 250 ≡ killed 321
unfolding wait_or_kill wait_until poll is_true escalate kill_verified is_verified
killed_late = refl

late-Sleeps : Sleeps (λ t. t + 107)
late-Sleeps t = omega arith

wait_or_kill-EndsBy_example :
    EndsBy true
      (λ t. false)
      (λ t. true)
      (λ t. some (ltb t 200))
      (λ t. t + 107)
      0
      250
      (wait_or_kill true (λ t. false) (λ t. true) (λ t. some (ltb t 200)) (λ t. t + 107) 0 250)
wait_or_kill-EndsBy_example =
    wait_or_kill-EndsBy true (λ t. false) (λ t. true) (λ t. some (ltb t 200)) (λ t. t + 107) 0 250
      late-Sleeps

staying : Stays true (λ t. false) (λ t. true) (λ t. some true) (λ t. t + 107)
unfolding is_verified is_true
staying = record { unreaped = λ t. refl; living = λ t. refl; verified = λ t. refl }

wait_or_kill-KillsBy_example :
    KillsBy true
      (λ t. false)
      (λ t. true)
      (λ t. some true)
      (λ t. t + 107)
      0
      250
      (wait_or_kill true (λ t. false) (λ t. true) (λ t. some true) (λ t. t + 107) 0 250)
wait_or_kill-KillsBy_example =
    wait_or_kill-KillsBy true (λ t. false) (λ t. true) (λ t. some true) (λ t. t + 107) 0 250
      late-Sleeps staying

abbrev outside : Outside
outside = record {
  pid_status = λ pid time. some false;
  spawn = λ cmd. some (record { pid = 42; start_time = some 7; job_name = none; exit = none });
  log_path = λ id role. id;
}

abbrev tracked : Records
tracked = ("w", new_record "w" "/r" (some "a") "/w") ∷ []

tracked-AllCovered : AllCovered tracked
unfolding lookup has_key
tracked-AllCovered k rec found = elim (Bool-cases (str_eq "w" k)) [
  | inl q ↦
      let same : new_record "w" "/r" (some "a") "/w" ≡ rec = cc (rw q at found) in
      subst IsCovered same
        (record { job_names = λ j h. h; variants = λ j h. h; start_times = λ j h. h })
  | inr q ↦ absurd (cc (rw q at found))
]

start-AllCovered_example : AllCovered (start outside "main" (some "dev") "w" ("run" ∷ []) tracked).1
start-AllCovered_example =
    start-AllCovered outside "main" (some "dev") "w" ("run" ∷ []) tracked tracked-AllCovered
