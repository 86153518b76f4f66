-- ===== src/Create.antt =====
-- core/manager.py: `WorktreeManager.create`, from the checks to the setup steps, with the rollback of
-- a worktree that could not be tracked. A `git worktree add` that fails or is cut off may leave the tree
-- and the branch; any other such call of git has changed nothing.
mod Git
mod Types
mod Bases
mod Persisting
mod Steps
pub mod Shapes
pub mod Rollback
pub mod Tracked
pub mod Branches
mod Tests
unfoldable pub use Git.*
pub use Types.*
unfoldable pub use Bases.*
unfoldable pub use Persisting.*
unfoldable pub use Steps.*
