-- ===== src/Rcu.antt =====
-- rcu/toy_impl: a read-copy-update whose grace period is a reader-writer lock, and its user.
pub mod Lock
pub mod Thread
pub mod Roles
pub mod Grace
pub mod System
pub mod Invariant
pub mod Safety
pub mod Snapshot
pub mod Refinement
pub mod Progress
pub mod Completion
pub mod Quiz
pub mod Life
pub mod Oom
mod Schedule
mod Tests
