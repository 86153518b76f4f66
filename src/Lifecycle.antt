-- ===== src/Lifecycle.antt =====
-- core/process_lifecycle.py: the budget of a stop, the wait for a process, and the start of one. What
-- the operating system answers is a parameter; times are milliseconds.
mod Budget
mod Waiting
mod Starting
pub mod Shares
pub mod Verified
pub mod Kills
pub mod Covered
mod Tests
unfoldable pub use Budget.*
unfoldable pub use Waiting.*
unfoldable pub use Starting.*
