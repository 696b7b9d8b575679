-- ===== src/Kern/Types.antt =====
-- kern/gas.h: the structures on disk and in memory, and the constants.
use gas_filesystem.Base.{ℕ, ◌+◌, ◌*◌, ◌/◌, ◌%◌, ◌^◌, List, Bool}

abbrev pub gas_max_name_len : ℕ
gas_max_name_len = 256

abbrev pub gas_block_size : ℕ
gas_block_size = 4096

abbrev pub magic_number : ℕ
magic_number = 0x6A5000F5

abbrev pub bits_per_block : ℕ
bits_per_block = 8 * gas_block_size

abbrev pub super_block_no : ℕ
super_block_no = 0

abbrev pub gas_root_ino : ℕ
gas_root_ino = 1

abbrev pub gas_link_max : ℕ
gas_link_max = 32000

-- `sizeof(struct gas_inode)` and `sizeof(struct gas_dir_entry)`
abbrev pub inode_size : ℕ
inode_size = 64

abbrev pub dir_entry_size : ℕ
dir_entry_size = 260

-- The casts to `__u32` and `__le16`; little-endian conversion keeps the value.
abbrev pub u32 : ℕ → ℕ
u32 n = n % 2 ^ 32

abbrev pub u16 : ℕ → ℕ
u16 n = n % 2 ^ 16

-- `struct gas_super_block`
pub record GasSuperBlock : Type 0 where
  pub s_magic : ℕ
  pub s_blocksize : ℕ
  pub s_bam_blocks : ℕ
  pub s_iam_blocks : ℕ
  pub s_inode_blocks : ℕ
  pub s_nblocks : ℕ
  pub s_ninodes : ℕ

-- `struct gas_sb_info`, less the arrays of buffers and the two hints, which Kern.Bitmap keeps
pub record GasSbInfo : Type 0 where
  pub s_magic : ℕ
  pub s_blocksize : ℕ
  pub s_bam_blocks : ℕ
  pub s_iam_blocks : ℕ
  pub s_inode_blocks : ℕ
  pub s_nblocks : ℕ
  pub s_ninodes : ℕ
  pub s_inodes_per_block : ℕ
  pub s_bits_per_block : ℕ
  pub s_dir_entries_per_block : ℕ
  pub s_inode_list_start : ℕ
  pub s_data_block_start : ℕ

-- `struct gas_inode`
pub record GasInode : Type 0 where
  pub i_mode : ℕ
  pub i_nlink : ℕ
  pub i_uid : ℕ
  pub i_gid : ℕ
  pub i_size : ℕ
  pub i_atime : ℕ
  pub i_mtime : ℕ
  pub i_ctime : ℕ
  pub i_blkaddr : List ℕ

-- `struct timespec`
pub record Timespec : Type 0 where
  pub tv_sec : ℕ
  pub tv_nsec : ℕ

-- `struct gas_inode_info`: the block addresses, and what the module uses of the `struct inode` in it
pub record GasInodeInfo : Type 0 where
  pub blkaddr : List ℕ
  pub i_ino : ℕ
  pub i_mode : ℕ
  pub i_nlink : ℕ
  pub i_uid : ℕ
  pub i_gid : ℕ
  pub i_size : ℕ
  pub i_atime : Timespec
  pub i_mtime : Timespec
  pub i_ctime : Timespec
  pub i_rdev : ℕ
  pub dirty : Bool
  pub hashed : Bool

-- The error numbers that the module returns, without their sign
pub data Errno : Type 0 where
  eio enoent enomem eagain eexist einval enospc enametoolong enotempty : Errno

-- `gas_inode_block`: the block of the inode list that holds an inode
unfoldable pub gas_inode_block : GasSbInfo → ℕ → ℕ
gas_inode_block sbi ino = sbi.s_inode_list_start + ino / sbi.s_inodes_per_block
