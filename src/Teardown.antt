-- ===== src/Teardown.antt =====
-- core/teardown.py: the removal of a checkout as an ordered sequence of phases over one context.
pub mod Types
pub mod Dirt
pub mod Disk
pub mod Retry
pub mod Diagnose
pub mod Hooks
pub mod Phases
pub mod Stable
pub mod Frame
pub mod Engine
pub mod Outcome
pub mod Sequence
pub mod Quiet
pub mod Kept
pub mod Refused
pub mod Once
pub mod Residual
pub mod Deadline
pub mod Remnant
pub mod Exempt
pub mod Kills
pub mod Samples
mod Tests
