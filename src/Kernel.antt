-- ===== src/Kernel.antt =====
-- What the modules share of the kernel: error numbers, runs that may fault, and the interface of
-- the copies to and from user memory.
pub mod Run
pub mod Uaccess
pub mod Heap
