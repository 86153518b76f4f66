-- ===== src/Plugins.antt =====
-- core/plugin_install.py: the plugins of a new worktree.
mod Registry
mod Install
pub mod Clones
pub mod Registered
pub mod Accounted
mod Tests
unfoldable pub use Registry.*
unfoldable pub use Install.*
