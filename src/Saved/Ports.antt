-- ===== src/Saved/Ports.antt =====
-- ports.yaml, written and read back.
use lib_python_worktree.Prelude.{ℕ, ◌≡◌, refl, Bool, some, Option, [], ◌∷◌}
use lib_python_worktree.Prelude.Int.{pos}
use lib_python_worktree.Prelude.Results.{ok}
use lib_python_worktree.Prelude.Dict.{Dict}
use lib_python_worktree.Saved.Values.{
  Value, int, get, truthy, as_nat, as_dict, entries_of, to_entries,
}
use lib_python_worktree.Saved.Files.{ports_to_value, or_empty_dict, load_ports}
use lib_python_worktree.Saved.Fields.{entries_of-to_entries}

module _ (is_zero : ℕ → Bool) (float_of : Value → Option ℕ) where
  -- The allocations that `_save` writes to ports.yaml are those that `_load` reads.
  pub load_ports-ports_to_value :
      (d : Dict ℕ) → load_ports is_zero float_of (some (ports_to_value d)) ≡ ok d
  unfolding load_ports ports_to_value or_empty_dict get truthy as_dict as_nat to_entries entries_of
  load_ports-ports_to_value [] = refl
  load_ports-ports_to_value ((k, p) ∷ d) =
      entries_of-to_entries (λ n. int (pos n)) as_nat (λ n. refl) ((k, p) ∷ d)
