-- ===== src/Lib.antt =====
-- A model of the worktree engine (src/lib_python_worktree): the rules by which it gives out ports,
-- accepts contracts, and creates, lists, starts and removes checkouts, with what makes them correct.
--
-- The engine's manager creates a git worktree for a branch, reads the contract of the repository,
-- asks the port allocator for the ports of the contract's slots, and keeps a record of the worktree
-- in a state store. A removal runs the teardown engine over that record; at its end the allocator
-- gives the ports back.
--
-- Files and what they model:
--   Prelude: Boolean tests, results, dictionaries as association lists, lists and texts.
--   Ports: core/port_allocator.py. `allocate` is `PortAllocator.allocate` on the contents of
--     ports.yaml (a dictionary from `<worktree id>:<slot>` to a port), `release` is
--     `PortAllocator.release`. `claim_pin` and `claim_free` are the bodies of its two loops. The
--     probe of a port, `in_use`, is a function that is fixed for the call, and `shuffle` stands for
--     `random.shuffle`. The call holds an exclusive lock, so that one call is one step.
--   Contract: contract/schema.py. `validate` is what `WorktreeContract.model_validate` adds to the
--     types: the field constraints, then the validators in their order. `pins` and `slot_names`
--     are what `WorktreeManager.create` hands to the allocator.
--   Teardown: core/teardown.py. `Types` has the context: `Request` is what the caller asks and what
--     `build_context` finds, `World` is what the phases change, `Outside` is what the operating
--     system, git, the step runner and core/process_lifecycle.py answer, by the time on the clock.
--     `Dirt`, `Disk`, `Retry` and `Diagnose` model the helpers, `Hooks` and `Phases` the ten
--     phases, and `run_teardown` the loop over them. A phase is an action that may raise and whose
--     changes up to then stay.
--   Store: the state stores of core/state.py and core/yaml_store.py, which are one on the dict of
--     records.
--   Reconcile: `reconcile` of core/yaml_store.py, its phases on state.yaml and on ports.yaml, and
--     (Heal) the one that sets spoilt branch names to what git says. What it sees of paths, pids,
--     contracts and git is a record of functions, fixed for a call; no other process saves between
--     its locked sections.
--   Manager: `WorktreeManager.remove` of core/manager.py for a tracked id: the guard, the teardown,
--     the record, and `_delete_owned_branch`.
--   Releases: .github/scripts/prev_release_tag.py, the parse of a tag, its precedence, and
--     `previous_tag`. The value of a digit is a parameter, since Python reads any Unicode digit.
--   Adopt: `adopt` of core/yaml_store.py on the blocks of the listing of git. The resolution of a
--     path and the draw of an id are parameters.
--   Variants: `available_variants` of core/manager.py and the choice of the step in
--     `WorktreeManager.start`.
--   Saved: the translation of records to YAML values and back, and `YamlStateStore` and `_PortsFile`
--     of core/yaml_store.py on their files, whose keys stand as in the dict, not sorted. A float is a number that stands for it; which float is
--     0.0 and what `float()` makes of other values are parameters. Where Python would carry a value
--     of a wrong type on, the reading fails.
--   Runner: the commands of the steps, the scan for tokens that PowerShell would expand twice, and
--     the loop of `SetupRunner.run` in setup/runner.py. Python's classes of spaces and word
--     characters, base64 and the processes are parameters. The walk has one unit of fuel for each
--     character and one more, and each round takes a character at least.
--   Create: `WorktreeManager.create` of core/manager.py with `_current_branch`,
--     `_parse_already_checked_out` and `_is_path_prunable`. A `git worktree add` that fails or is
--     cut off may leave the tree and the branch, any other such call of git has changed nothing; the
--     answers of git, the contract, the id and the path are parameters.
--   Git: how a call of git ends and its timeout, from core/_git_utils.py.
--   Checkout: core/checkout.py, with the parser that core/yaml_store.py has as well. pathlib, git and
--     SHA-256 are parameters, and paths are texts.
--   Plugins: core/plugin_install.py. Which install paths have a manifest that parses, and what the
--     CLI does, are parameters. An `installedAt` or a `resolvedVersion` that is no text is outside
--     of the model.
--   Lifecycle: `_compute_stop_budget`, `_wait_or_kill` and `start` of core/process_lifecycle.py. A
--     budget counts tenths of a millisecond. A wait runs on a fuel of its timeout in milliseconds;
--     a poll with its sleep takes at least 100 of them.
--   Manager, its further files: `Targets` has `_resolve_target`, `Removals` has
--     `_resolve_removal_target` with `list_repo`, and `Sessions` has `WorktreeManager.start` on the
--     allocator of `Ports`, the choice of `Variants`, the commands of `Runner` and the processes of
--     `Lifecycle`.
--
-- Bounds and fuel: numbers are natural numbers, as Python's are unbounded. Times are milliseconds.
-- The bounded retries run on a fuel of 21 attempts: the budget is 2000 ms and each wait lasts at
-- least 100 ms, so that the deadline is reached before the fuel ends (Teardown/Deadline). The walk of
-- Runner and the wait of Lifecycle have the fuel said above. All other loops are structural.
--
-- Not modelled: locks and files (their contents are values, and one locked section is one step),
-- the log, the wording of messages, git, psutil, signals, job objects and the Windows handle scan,
-- the stop of a process (core/process_lifecycle.py), the superseded core/plugin_seed.py and the
-- loading of YAML (contract/loader.py).
pub mod Prelude
pub mod Ports
pub mod Contract
pub mod Teardown
pub mod Store
pub mod Reconcile
pub mod Manager
pub mod Releases
pub mod Adopt
pub mod Variants
pub mod Saved
pub mod Runner
pub mod Create
pub mod Git
pub mod Checkout
pub mod Plugins
pub mod Lifecycle
