-- ===== src/Runner.antt =====
-- setup/runner.py: the commands that steps become, the scan of PowerShell run lines, and the loop of
-- `SetupRunner.run`.
mod Quoting
mod Commands
mod Steps
pub mod Scan
pub mod Refusal
pub mod Loop
mod Tests
unfoldable pub use Quoting.*
unfoldable pub use Commands.*
unfoldable pub use Steps.*
