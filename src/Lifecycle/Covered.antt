-- ===== src/Lifecycle/Covered.antt =====
-- What is recorded of a role is recorded of a role with a process, and a start that fails is without
-- a trace.
use lib_python_worktree.Prelude.{
  sym, subst, ℕ, String, ◌≡◌, ◌⊎◌, inl, inr, refl, ◌∙◌, true, false, Option, none, some, List, [],
  ◌∷◌, str_eq, arith, eq_refl, Bool-cases,
}
use lib_python_worktree.Prelude.Results.{Result, ok, err}
use lib_python_worktree.Prelude.Dict.{
  Dict, lookup, insert, has_key, has_key-insert, lookup-insert, lookup-without,
}
use lib_python_worktree.Store.{WorktreeRecord, Records, StoreError, StopDetail}
use lib_python_worktree.Store
use lib_python_worktree.Lifecycle.Starting.{
  Spawned, StartError, Outside, set_or_pop, saved, started, start_spawned, is_running,
  start_tracked, start,
}

-- Every role with a job, a variant or a start time has a process.
pub record IsCovered (rec : WorktreeRecord) : Type 0 where
  pub job_names : (k : String) → has_key k rec.job_names ≡ true → has_key k rec.pids ≡ true
  pub variants : (k : String) → has_key k rec.variants ≡ true → has_key k rec.pids ≡ true
  pub start_times : (k : String) → has_key k rec.start_times ≡ true → has_key k rec.pids ≡ true

abbrev pub AllCovered : Records → Type 0
AllCovered rs = (k : String) (rec : WorktreeRecord) → lookup k rs ≡ some rec → IsCovered rec

has_key-set_or_pop :
    {V : Type 0} (role k : String) (v : Option V) (d : Dict V)
    → has_key k (set_or_pop role v d) ≡ true
    → str_eq role k ≡ false
    → has_key k d ≡ true
unfolding set_or_pop has_key
has_key-set_or_pop role k none d h n = ground (arith, h, n, lookup-without (str_eq role) k d)
has_key-set_or_pop role k (some v) d h n = ground (arith, h, n, lookup-insert role k v d)

-- A dict of roles stays covered where the role has a process now.
set_or_pop-covered :
    {V : Type 0} (role : String) (v : Option V) (d : Dict V) (pid : ℕ) (pids : Dict ℕ)
    → ((k : String) → has_key k d ≡ true → has_key k pids ≡ true)
    → (k : String) → has_key k (set_or_pop role v d) ≡ true
    → has_key k (insert role pid pids) ≡ true
set_or_pop-covered role v d pid pids c k h = elim (Bool-cases (str_eq role k)) [
  | inl e ↦ has_key-insert role k pid pids ∙ rw e refl
  | inr e ↦ has_key-insert role k pid pids ∙ rw e (c k (has_key-set_or_pop role k v d h e))
]

-- How a start ends: nothing has changed, or the record is stored, with the process that has been
-- spawned, and no process of the role had been running.
pub data Ends (o : Outside) (role id : String) (rs : Records)
    (x : Result StartError WorktreeRecord × Records) : Type 0 where
  failed : (e : StartError) → x ≡ (err e, rs) → Ends o role id rs x
  running :
      (old rec : WorktreeRecord) (cmd : List String) (p : Spawned)
      → lookup id rs ≡ some old
      → is_running o role none id old ≡ false
      → o.spawn cmd ≡ some p
      → lookup role rec.pids ≡ some p.pid
      → rec.stop_detail ≡ none
      → (IsCovered old → IsCovered rec)
      → x ≡ (ok rec, insert rec.id rec rs)
      → Ends o role id rs x

module _ (o : Outside) (role : String) (variant : Option String) (id : String) where
  started-IsCovered :
      (p : Spawned) (rec : WorktreeRecord)
      → IsCovered rec
      → IsCovered (started o role variant id p rec)
  unfolding started
  started-IsCovered p rec h = record {
    job_names = set_or_pop-covered role p.job_name rec.job_names p.pid rec.pids h.job_names;
    variants = set_or_pop-covered role variant rec.variants p.pid rec.pids h.variants;
    start_times = set_or_pop-covered role p.start_time rec.start_times p.pid rec.pids h.start_times;
  }

  spawned :
      (p : Spawned) (rec : WorktreeRecord)
      → lookup role (started o role variant id p rec).pids ≡ some p.pid
  unfolding started
  spawned p rec = lookup-insert role role p.pid rec.pids ∙ rw (eq_refl role) refl

  cleared :
      (p : Spawned) (rec : WorktreeRecord) → (started o role variant id p rec).stop_detail ≡ none
  unfolding started
  cleared p rec = refl

  saved-cases :
      (rec : WorktreeRecord) (rs : Records)
      → ((e : StartError) × (saved rec (Store.update rec rs) ≡ (err e, rs)))
        ⊎ (saved rec (Store.update rec rs) ≡ (ok rec, insert rec.id rec rs))
  unfolding saved Store.update
  saved-cases rec rs = elim (Bool-cases (has_key rec.id rs)) [
    | inl e ↦ rw e (inr refl)
    | inr e ↦ rw e (inl (_, refl))
  ]

  start_spawned-Ends :
      (cmd : List String) (found : Option Spawned) (rec : WorktreeRecord) (rs : Records)
      → lookup id rs ≡ some rec
      → is_running o role none id rec ≡ false
      → o.spawn cmd ≡ found
      → Ends o role id rs (start_spawned o role variant id found rec rs)
  unfolding start_spawned
  start_spawned-Ends cmd none rec rs known idle e = failed _ refl
  start_spawned-Ends cmd (some p) rec rs known idle e =
      elim (saved-cases (started o role variant id p rec) rs) [
        | inl (x, q) ↦ failed x q
        | inr q ↦
            running rec (started o role variant id p rec) cmd p known idle e (spawned p rec)
              (cleared p rec) (started-IsCovered p rec) q
      ]

  idle_for :
      (rec : WorktreeRecord)
      → is_running o role variant id rec ≡ false
      → is_running o role none id rec ≡ false
  unfolding is_running
  idle_for rec r = r

  start_tracked-Ends :
      (cmd : List String) (found : Option WorktreeRecord) (rs : Records)
      → lookup id rs ≡ found
      → Ends o role id rs (start_tracked o role variant id cmd found rs)
  unfolding start_tracked
  start_tracked-Ends cmd none rs e = failed _ refl
  start_tracked-Ends cmd (some rec) rs e = elim (Bool-cases (is_running o role variant id rec)) [
    | inl r ↦ rw r (failed _ refl)
    | inr r ↦ rw r (start_spawned-Ends cmd _ rec rs e (idle_for rec r) refl)
  ]

  -- A start that raises leaves the store as it was; one that returns has found no process of the role
  -- that is alive and verified, and has stored the record with the process that it has spawned.
  pub start-Ends :
      (cmd : List String) (rs : Records) → Ends o role id rs (start o role variant id cmd rs)
  unfolding start Store.get
  start-Ends [] rs = failed _ refl
  start-Ends (exe ∷ args) rs = start_tracked-Ends (exe ∷ args) (lookup id rs) rs refl

  -- A start keeps it that every role with a job, a variant or a start time has a process, in every
  -- record.
  pub start-AllCovered :
      (cmd : List String) (rs : Records)
      → AllCovered rs
      → AllCovered (start o role variant id cmd rs).1
  start-AllCovered cmd rs all = go (start-Ends cmd rs)
    where
      stored : (rec : WorktreeRecord) → IsCovered rec → AllCovered (insert rec.id rec rs)
      stored rec c k r found = elim (Bool-cases (str_eq rec.id k)) [
        | inl e ↦
            let q : some rec ≡ some r = sym (lookup-insert rec.id k rec rs ∙ rw e refl) ∙ found in
            let same : rec ≡ r = cc in subst IsCovered same c
        | inr e ↦ all k r (sym (lookup-insert rec.id k rec rs ∙ rw e refl) ∙ found)
      ]

      go :
          Ends o role id rs (start o role variant id cmd rs)
          → AllCovered (start o role variant id cmd rs).1
      go (failed e q) =
          subst (λ (x : Result StartError WorktreeRecord × Records). AllCovered (x.1)) (sym q) all
      go (running old rec cmd' p found idle s pid detail c q) =
          subst (λ (x : Result StartError WorktreeRecord × Records). AllCovered (x.1)) (sym q)
            (stored rec (c (all id old found)))
