-- ===== src/Saved/Files.antt =====
-- `YamlStateStore` and `_PortsFile` on the files state.yaml and ports.yaml. A file that is not there
-- is `none`. `_atomic_write_yaml` writes to a temporary file and renames it: it has replaced the
-- file, or it raises and the file is as it was.
use lib_python_worktree.Prelude.{
  ℕ, String, Bool, true, false, Option, none, some, [], if◌then◌else◌,
}
use lib_python_worktree.Prelude.Int.{pos}
use lib_python_worktree.Prelude.Results.{Result, ok, err, ◌>>=◌}
use lib_python_worktree.Prelude.Dict.{Dict}
use lib_python_worktree.Store.{WorktreeRecord, Records, StoreError}
use lib_python_worktree.Store
use lib_python_worktree.Saved.Values.{
  Value, int, text, dict, Entries, end, entry, Read, ReadError, get, truthy, as_nat, as_dict,
  entries_of, to_entries,
}
use lib_python_worktree.Saved.Records.{record_to_dict, record_from_dict}

abbrev pub File : Type 0
File = Option Value

pub data FileError : Type 0 where
  unreadable : ReadError → FileError
  refused : StoreError → FileError
  write_failed : FileError

abbrev pub to_value : WorktreeRecord → Value
to_value r = dict (record_to_dict r)

-- `_save_state`. The file has its keys sorted; the dict here keeps them as they are.
unfoldable pub state_to_value : Records → Value
state_to_value rs = dict (
    entry (text "version") (int (pos 1))
      (entry (text "worktrees") (dict (to_entries to_value rs)) end))

-- `_PortsFile._save`
unfoldable pub ports_to_value : Dict ℕ → Value
ports_to_value allocated = dict (
    entry (text "version") (int (pos 1))
      (entry (text "allocated") (dict (to_entries (λ n. int (pos n)) allocated)) end))

-- `_atomic_write_yaml`
unfoldable pub atomic_write : {A : Type 0} → Bool → A → Value → File → Result FileError A × File
atomic_write true a data_ file = (ok a, some data_)
atomic_write false a data_ file = (err write_failed, file)

-- `if rec is not None: self._save_state(records)`
unfoldable pub save_popped :
    Bool → Option WorktreeRecord × Records → File → Result FileError (Option WorktreeRecord) × File
save_popped writes (none, rs) file = (ok none, file)
save_popped writes (some rec, rs) file = atomic_write writes (some rec) (state_to_value rs) file

-- The save at the end of `add` and `update`, unless they have raised.
unfoldable pub save_unless_raised :
    Bool → Result StoreError (Unit {0}) × Records → File → Result FileError (Unit {0}) × File
save_unless_raised writes (err e, rs) file = (err (refused e), file)
save_unless_raised writes (ok _, rs) file = atomic_write writes tt (state_to_value rs) file

module _ (is_zero : ℕ → Bool) (float_of : Value → Option ℕ) where
  -- `v or {}`
  unfoldable pub or_empty_dict : Option Value → Read Entries
  or_empty_dict none = ok end
  or_empty_dict (some v) = if truthy is_zero v then as_dict v else ok end

  unfoldable pub read_record : Value → Read WorktreeRecord
  read_record v = as_dict v >>= λ d. record_from_dict is_zero float_of d

  -- `_load_state`
  unfoldable pub load_state : File → Read Records
  load_state none = ok []
  load_state (some v) = or_empty_dict (some v) >>= λ d.
      or_empty_dict (get "worktrees" d) >>= λ raw. entries_of read_record raw

  -- `_PortsFile._load`
  unfoldable pub load_ports : File → Read (Dict ℕ)
  load_ports none = ok []
  load_ports (some v) = or_empty_dict (some v) >>= λ d.
      or_empty_dict (get "allocated" d) >>= λ raw. entries_of as_nat raw

  -- The operations, under the exclusive lock; `writes` tells whether the file can be written.
  module _ (writes : Bool) where
    unfoldable pub yaml_add : WorktreeRecord → File → Result FileError (Unit {0}) × File
    yaml_add rec file = elim (load_state file) [
      | err e ↦ (err (unreadable e), file)
      | ok rs ↦ save_unless_raised writes (Store.add rec rs) file
    ]

    unfoldable pub yaml_update : WorktreeRecord → File → Result FileError (Unit {0}) × File
    yaml_update rec file = elim (load_state file) [
      | err e ↦ (err (unreadable e), file)
      | ok rs ↦ save_unless_raised writes (Store.update rec rs) file
    ]

    unfoldable pub yaml_remove : String → File → Result FileError (Option WorktreeRecord) × File
    yaml_remove id file = elim (load_state file) [
      | err e ↦ (err (unreadable e), file)
      | ok rs ↦ save_popped writes (Store.remove id rs) file
    ]

  unfoldable pub yaml_get : String → File → Read (Option WorktreeRecord)
  yaml_get id file = load_state file >>= λ rs. ok (Store.get id rs)
