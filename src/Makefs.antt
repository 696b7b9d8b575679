-- ===== src/Makefs.antt =====
-- The user-space program `mkfs` of makefs/, which writes a fresh file system to a disk image.
pub mod Bitmap
pub mod Region
pub mod Layout
pub mod Disk
pub mod Init
pub mod Format
pub mod Tests
