-- ===== src/Tuse.antt =====
-- old/tuse: a file system over a device, cut down from FUSE.
pub mod Request
pub mod Options
pub mod Inode
pub mod Loading
pub mod Conn
pub mod Mount
pub mod Copy
pub mod State
pub mod Device
pub mod Readers
mod Tests
