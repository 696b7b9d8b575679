-- ===== src/Kern.antt =====
-- The kernel module of kern/.
pub mod Types
pub mod Super
pub mod Inode
pub mod BitOps
pub mod Bitmap
pub mod Ialloc
pub mod Count
pub mod Itree
pub mod Branch
pub mod Truncate
pub mod Dir
pub mod DirWrite
pub mod DirRead
pub mod Namei
pub mod Tests
