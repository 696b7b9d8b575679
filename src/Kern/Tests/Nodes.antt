-- ===== src/Kern/Tests/Nodes.antt =====
-- The inode table with one inode written, and paths to blocks of a file
use gas_filesystem.Base.{ℕ, ◌+◌, ◌≡◌, refl, ◌≢◌, ◌||◌, arith, true, false, ◌∷◌, some, replicate}
use gas_filesystem.Kern.Types.{GasSbInfo, GasInode, GasInodeInfo}
use gas_filesystem.Kern.Inode.{
  InodeTable, gas_inode_offset, disk_inode, gas_update_inode, gas_iget, fresh, got, InodeOps,
  s_ischr, s_isblk,
}
use gas_filesystem.Kern.Inode.RoundTrip.{
  Fits, HasSlot, HasOps, stored, gas_update_inode-stored, gas_iget-gas_update_inode,
}
use gas_filesystem.Kern.Itree.{block_to_path, gas_blocks}
use gas_filesystem.Kern.Itree.Path.{
  InRange, path_to_block, path_to_block-block_to_path, block_to_path-InRange,
}
use gas_filesystem.Kern.Itree.Blocks.{indirect_blocks, gas_blocks-indirect_blocks}

abbrev table_sbi : GasSbInfo
table_sbi = record {
  s_magic = 0;
  s_blocksize = 4096;
  s_bam_blocks = 1;
  s_iam_blocks = 1;
  s_inode_blocks = 4;
  s_nblocks = 1024;
  s_ninodes = 256;
  s_inodes_per_block = 64;
  s_bits_per_block = 32768;
  s_dir_entries_per_block = 15;
  s_inode_list_start = 3;
  s_data_block_start = 7;
}

abbrev pub no_inode : GasInode
no_inode = record {
  i_mode = 0;
  i_nlink = 0;
  i_uid = 0;
  i_gid = 0;
  i_size = 0;
  i_atime = 0;
  i_mtime = 0;
  i_ctime = 0;
  i_blkaddr = replicate 9 0;
}

abbrev empty_table : InodeTable
empty_table b = some (record { inodes = replicate 64 no_inode; b_dirty = false })

-- A regular file of 5000 bytes in the blocks 20 and 21
abbrev pub file_inode : GasInodeInfo
file_inode = record {
  blkaddr = 20 ∷ 21 ∷ replicate 7 0;
  i_ino = 70;
  i_mode = 0o100644;
  i_nlink = 1;
  i_uid = 1000;
  i_gid = 1000;
  i_size = 5000;
  i_atime = record { tv_sec = 7; tv_nsec = 0 };
  i_mtime = record { tv_sec = 8; tv_nsec = 0 };
  i_ctime = record { tv_sec = 9; tv_nsec = 0 };
  i_rdev = 0;
  dirty = true;
  hashed = true;
}

file_inode-HasSlot : HasSlot table_sbi empty_table 70
unfolding gas_inode_offset
file_inode-HasSlot = (record { inodes = replicate 64 no_inode; b_dirty = false }, refl, omega arith)

file_inode-Fits : Fits file_inode
file_inode-Fits = record {
  mode = omega arith;
  nlink = omega arith;
  uid = omega arith;
  gid = omega arith;
  size = omega arith;
  atime = (omega arith, refl);
  mtime = (omega arith, refl);
  ctime = (omega arith, refl);
}

gas_update_inode-stored_example :
    (table' : InodeTable) × (gas_update_inode (λ d. d) table_sbi empty_table file_inode
      ≡ some table')
    × (stored table_sbi table' 70 ≡ some (disk_inode (λ d. d) file_inode))
    × ((ino : ℕ) → ino ≢ 70 → stored table_sbi table' ino ≡ stored table_sbi empty_table ino)
gas_update_inode-stored_example =
    gas_update_inode-stored (λ d. d) table_sbi empty_table file_inode file_inode-HasSlot

file_inode-no_device : (s_ischr file_inode.i_mode || s_isblk file_inode.i_mode) ≡ false
file_inode-no_device = refl

gas_iget-gas_update_inode_example :
    (table' : InodeTable) × (gas_update_inode (λ d. d) table_sbi empty_table file_inode
      ≡ some table')
    × (op : InodeOps) × HasOps (λ d. d) file_inode op
    × (gas_iget (λ d. d) table_sbi table' 70 (fresh file_inode) ≡ got file_inode (some op))
gas_iget-gas_update_inode_example =
    gas_iget-gas_update_inode (λ d. d) (λ d. d) table_sbi empty_table file_inode file_inode
      file_inode-HasSlot file_inode-Fits file_inode-no_device

path_to_block-block_to_path_example :
    path_to_block 1024 (block_to_path 1024 1048576 5000) ≡ some 5000
path_to_block-block_to_path_example =
    path_to_block-block_to_path 1024 1048576 5000 (omega arith) (omega arith)

block_to_path-InRange_example : InRange 1024 (block_to_path 1024 1048576 5000)
block_to_path-InRange_example = block_to_path-InRange 1024 1048576 5000 (omega arith) (omega arith)

gas_blocks-indirect_blocks_example : gas_blocks 12 5000000 ≡ 1221 + indirect_blocks 1221
gas_blocks-indirect_blocks_example = gas_blocks-indirect_blocks 5000000 (omega arith)
