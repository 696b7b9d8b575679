-- ===== src/Makefs/Layout.antt =====
-- makefs/mkfs.c: the sizes that `main` computes from the size of the disk, and the super block that
-- `init_super_block` writes. The sums of `u64` are below 2 ^ 64 for every `off_t`.
use gas_filesystem.Base.{ℕ, ◌+◌, ◌-◌, ◌*◌, ◌/◌}
use gas_filesystem.Kern.Types.{
  GasSuperBlock, gas_block_size, bits_per_block, magic_number, inode_size, u32,
}

-- `INODES_PER_BLOCK`
abbrev pub inodes_per_block : ℕ
inodes_per_block = gas_block_size / inode_size

-- `struct filesys_param`, less the file descriptor
pub record FilesysParam : Type 0 where
  pub iam_blk : ℕ
  pub ino_blk : ℕ
  pub bam_blk : ℕ
  pub blk_cnt : ℕ
  pub ino_cnt : ℕ
  pub data_st : ℕ

-- `main`, from the size of the disk in bytes
unfoldable pub configure : ℕ → FilesysParam
configure size =
    let blk_cnt = size / gas_block_size in
    let bam_blk = (blk_cnt + bits_per_block - 1) / bits_per_block in
    let ino_blk = blk_cnt / 4 / inodes_per_block in
    let ino_cnt = ino_blk * inodes_per_block in
    let iam_blk = (ino_cnt + bits_per_block - 1) / bits_per_block in
    record {
      iam_blk = iam_blk;
      ino_blk = ino_blk;
      bam_blk = bam_blk;
      blk_cnt = blk_cnt;
      ino_cnt = ino_cnt;
      data_st = 1 + bam_blk + iam_blk + ino_blk;
    }

abbrev pub bam_block_start : ℕ
bam_block_start = 1

abbrev pub iam_block_start : FilesysParam → ℕ
iam_block_start gas = bam_block_start + gas.bam_blk

abbrev pub inode_list_start : FilesysParam → ℕ
inode_list_start gas = iam_block_start gas + gas.iam_blk

abbrev pub data_block_start : FilesysParam → ℕ
data_block_start gas = inode_list_start gas + gas.ino_blk

-- What `init_super_block` puts into block 0
unfoldable pub init_super_block : FilesysParam → GasSuperBlock
init_super_block gas = record {
  s_magic = magic_number;
  s_blocksize = gas_block_size;
  s_bam_blocks = u32 gas.bam_blk;
  s_iam_blocks = u32 gas.iam_blk;
  s_inode_blocks = u32 gas.ino_blk;
  s_nblocks = u32 gas.blk_cnt;
  s_ninodes = u32 gas.ino_cnt;
}
