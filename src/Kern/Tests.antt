-- ===== src/Kern/Tests.antt =====
-- Runs of kern/ on small file systems, in the children.
pub mod Bits
mod Blocks
mod Mount
mod Nodes
mod Entries
mod Inodes
mod Counts
mod Trees
mod Names
