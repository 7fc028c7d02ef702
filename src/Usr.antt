-- ===== src/Usr.antt =====
-- The user programs of old/usr.
pub mod Stdio
pub mod MmapTst
pub mod Kure
pub mod Pagemap
pub mod Vm
pub mod Mm
pub mod Gr
mod Tests
