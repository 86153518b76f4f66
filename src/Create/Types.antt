-- ===== src/Create/Types.antt =====
-- The state that `create` changes, what it asks of the outside, and what it raises.
use lib_python_worktree.Prelude.{ℕ, String, Bool, Option, List}
use lib_python_worktree.Prelude.Int.{ℤ}
use lib_python_worktree.Prelude.Dict.{Dict}
use lib_python_worktree.Contract.{WorktreeContract}
use lib_python_worktree.Ports.{AllocError}
use lib_python_worktree.Store.{Records, StoreError}
use lib_python_worktree.Runner.{Host, SetupError}
use lib_python_worktree.Git.{Call}

-- The tracked records, ports.yaml, and of the repository its branches and the paths of its worktrees.
pub record State : Type 0 where
  pub records : Records
  pub ports : Dict ℕ
  pub branches : List String
  pub trees : List String

-- The outside of one call: the repository that `repo_root` resolves to, the answers of git, what
-- else happens to the branches during the fetch, what a `git worktree add` that fails leaves behind
-- (its worktree, its new branch), the contract as it is read first and as it is read
-- again (`none`: it raises), the ports, the id and the path that are made, and whether state.yaml can
-- be written at `add` and `update` and each part of the rollback works.
pub record Outside : Type 0 where
  pub repo : Option String
  pub strip : String → String
  pub lower : String → String
  pub rev_parse : Call
  pub fetch : String → Call
  pub during_fetch : List String → List String
  pub add_tree : List String → Call
  pub leaves_tree : Call → Bool
  pub leaves_branch : Call → Bool
  pub list_trees : Option (List String)
  pub contract : Option WorktreeContract
  pub contract_again : Option WorktreeContract
  pub in_use : ℕ → Bool
  pub shuffle : String → List ℕ → List ℕ
  pub low : ℕ
  pub high : ℕ
  pub new_id : String
  pub target : String
  pub message : String → String
  pub log_path : ℕ → String → String
  pub now : String
  pub writes_add : Bool
  pub writes_update : Bool
  pub removes_tree : Bool
  pub releases : Bool
  pub deletes_branch : Bool
  pub host : Host

pub data CreateError : Type 0 where
  invalid_repo invalid_branch duplicate_worktree no_default_base os_error contract_error
        write_failed :
      CreateError
  base_not_found : (base : String) → CreateError
  git_timeout : CreateError
  git_command : (returncode : ℤ) → CreateError
  branch_already_checked_out : (branch path : String) (prunable : Option Bool) → CreateError
  allocation : AllocError → CreateError
  store : StoreError → CreateError
  setup : SetupError → CreateError
