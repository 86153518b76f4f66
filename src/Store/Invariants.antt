-- ===== src/Store/Invariants.antt =====
-- Each record stands at its own id, and what an operation does to one id it does to no other.
use lib_python_worktree.Prelude.{String, ◌≡◌, inl, inr, some, arith, eq_iff, str_eq, Bool-cases}
use lib_python_worktree.Prelude.Dict.{insert, has_key, lookup-insert, lookup-without}
use lib_python_worktree.Store

-- Every record is tracked under its own id.
pub record IsKeyed (rs : Store.Records) : Type 0 where
  pub at : (k : String) (rec : Store.WorktreeRecord) → Store.get k rs ≡ some rec → rec.id ≡ k

-- The operations that change the store.
pub data Change : Type 0 where
  adding updating : Store.WorktreeRecord → Change
  removing : String → Change

unfoldable pub apply : Change → Store.Records → Store.Records
apply (adding rec) rs = (Store.add rec rs).1
apply (updating rec) rs = (Store.update rec rs).1
apply (removing id) rs = (Store.remove id rs).1

insert-IsKeyed :
    (rec : Store.WorktreeRecord) (rs : Store.Records) → IsKeyed rs → IsKeyed (insert rec.id rec rs)
unfolding Store.get
insert-IsKeyed rec rs q = record {
  at = λ k r e. ground (arith, lookup-insert rec.id k rec rs, eq_iff rec.id k, q.at k r);
}

-- Whatever `add`, `update` and `remove` are called with, they leave every record at its own id if
-- it was so before.
pub apply-IsKeyed : (c : Change) (rs : Store.Records) → IsKeyed rs → IsKeyed (apply c rs)
unfolding apply Store.add Store.update Store.remove Store.get
apply-IsKeyed (adding rec) rs q = elim (Bool-cases (has_key rec.id rs)) [
  | inl e ↦ rw (e, apply) q
  | inr e ↦ rw (e, apply) (insert-IsKeyed rec rs q)
]
apply-IsKeyed (updating rec) rs q = elim (Bool-cases (has_key rec.id rs)) [
  | inl e ↦ rw (e, apply) (insert-IsKeyed rec rs q)
  | inr e ↦ rw (e, apply) q
]
apply-IsKeyed (removing id) rs q = record {
  at = λ k r e. ground (arith, lookup-without (str_eq id) k rs, q.at k r);
}
