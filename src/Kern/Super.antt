-- ===== src/Kern/Super.antt =====
-- kern/gas_super.c: reading the super block, mounting, unmounting.
-- The block device and the rest of the kernel are parameters: what `sb_bread` returns for each block,
-- whether `sb_set_blocksize` and the allocations succeed, and what `gas_iget` and `d_make_root` do for
-- the root. `held` lists the blocks whose buffers are referenced, in the order of the reads.
pub mod Mount
pub mod Formatted
use gas_filesystem.Base.{
  ℕ, zero, suc, ◌+◌, ◌-◌, ◌*◌, ◌/◌, ◌%◌, ◌^◌, Option, none, some, List, [], ◌∷◌, ◌++◌, ◌==◌, ◌||◌,
  Bool, true, false, not, if◌then◌else◌,
}
use gas_filesystem.Kern.Types.{
  GasSuperBlock, GasSbInfo, Errno, eio, einval, enomem, u32, magic_number, super_block_no,
  gas_root_ino, inode_size, dir_entry_size, gas_max_name_len,
}

-- `gas_super_block_fill`, in the arithmetic of `__u32`
unfoldable pub gas_super_block_fill : GasSuperBlock → GasSbInfo
gas_super_block_fill dsb =
    let list_start = u32 (u32 (dsb.s_bam_blocks + dsb.s_iam_blocks) + 1) in
    record {
      s_magic = dsb.s_magic;
      s_blocksize = dsb.s_blocksize;
      s_bam_blocks = dsb.s_bam_blocks;
      s_iam_blocks = dsb.s_iam_blocks;
      s_inode_blocks = dsb.s_inode_blocks;
      s_nblocks = dsb.s_nblocks;
      s_ninodes = dsb.s_ninodes;
      s_inodes_per_block = dsb.s_blocksize / inode_size;
      s_bits_per_block = u32 (8 * dsb.s_blocksize);
      s_dir_entries_per_block = dsb.s_blocksize / dir_entry_size;
      s_inode_list_start = list_start;
      s_data_block_start = u32 (list_start + dsb.s_inode_blocks);
    }

-- A buffer from `sb_bread`; the super block and a bitmap block are read as what they hold.
pub record Device (B : Type 0) : Type 0 where
  pub bread_super : ℕ → Option GasSuperBlock
  pub bread : ℕ → Option B
  pub set_blocksize : ℕ → Bool
  pub kzalloc_sbi : Bool
  pub iget_root : ℕ → Option Errno
  pub make_root : Bool

module _ {B : Type 0} where
  unfoldable pub gas_super_block_read : Device B → Option GasSbInfo
  unfolding gas_super_block_fill
  gas_super_block_read dev =
      if dev.kzalloc_sbi
      then elim (dev.bread_super super_block_no) [
        | none ↦ none
        | some dsb ↦
            let sbi = gas_super_block_fill dsb in
            if sbi.s_magic == magic_number then some sbi else none
      ]
      else none

  -- A loop of `gas_fill_super`: `n` reads from `block` on, up to the first that fails; what was read
  -- and whether it is all
  unfoldable pub read_maps : Device B → ℕ → ℕ → List B × Bool
  read_maps dev zero block = ([], true)
  read_maps dev (suc n) block =
      let rest = read_maps dev n (block + 1) in
      elim (dev.bread block) [ none ↦ ([], false) | some bh ↦ (bh ∷ rest.0, rest.1) ]

-- A mounted file system: `s_fs_info` with its buffers
pub record Mounted (B : Type 0) : Type 0 where
  pub sbi : GasSbInfo
  pub s_bam_bh : List B
  pub s_iam_bh : List B
  pub s_bam_last : ℕ
  pub s_iam_last : ℕ

-- How `gas_fill_super` ends: the error, if any, and the buffers that stay referenced
pub data FillSuper (B : Type 0) : Type 0 where
  mounted : Mounted B → FillSuper B
  failed : Errno → (held : List B) → FillSuper B

module _ {B : Type 0} where
  -- What follows the two loops
  unfoldable pub fill_root : Device B → GasSbInfo → List B → List B → FillSuper B
  fill_root dev sbi bam iam = elim (dev.iget_root gas_root_ino) [
    | some e ↦ failed e (bam ++ iam)
    | none ↦
        if dev.make_root
        then mounted
            (record { sbi = sbi; s_bam_bh = bam; s_iam_bh = iam; s_bam_last = 0; s_iam_last = 0 })
        else failed enomem (bam ++ iam)
  ]

  -- `gas_fill_super` from `sb_set_blocksize` on; the label `error` releases what was read.
  unfoldable pub fill_maps : Device B → GasSbInfo → FillSuper B
  fill_maps dev sbi =
      let bam = read_maps dev sbi.s_bam_blocks 1 in
      let iam = read_maps dev sbi.s_iam_blocks (1 + sbi.s_bam_blocks) in
      if not (dev.set_blocksize sbi.s_blocksize)
      then failed einval []
      else if (sbi.s_bam_blocks == 0) || ((sbi.s_iam_blocks == 0) || (sbi.s_inode_blocks == 0))
      then failed einval []
      else if not bam.1
      then failed eio []
      else if not iam.1
      then failed eio []
      else fill_root dev sbi bam.0 iam.0

  unfoldable pub gas_fill_super : Device B → FillSuper B
  gas_fill_super dev = elim (gas_super_block_read dev) [
    | none ↦ failed einval []
    | some sbi ↦ fill_maps dev sbi
  ]

  -- `gas_put_super` releases the buffers of both arrays.
  unfoldable pub gas_put_super : Option (Mounted B) → List B
  gas_put_super none = []
  gas_put_super (some m) = m.s_bam_bh ++ m.s_iam_bh
