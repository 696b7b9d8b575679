-- ===== src/Kern/Ialloc.antt =====
-- kern/bitmap.c: allocating and freeing inodes. The bitmap of inodes is a bitmap like that of blocks,
-- with its own buffers and hint. `new_inode` and `inode_init_owner` of the kernel are parameters.
pub mod Alloc
pub mod Free
use Prim.Native.Nat.{bit_and}
use gas_filesystem.Base.{
  ℕ, ◌+◌, ◌-◌, ◌/◌, ◌^◌, Option, none, some, List, ◌==◌, ltb, leb, Bool, true, false, ◌||◌,
  if◌then◌else◌, replicate,
}
use gas_filesystem.Kern.Types.{
  GasSbInfo, GasInode, GasInodeInfo, Timespec, Errno, enomem, enospc, gas_inode_block,
}
use gas_filesystem.Kern.Inode.{InodeTable, gas_inode_offset, gas_get_inode, inode_at, store_inode}
use gas_filesystem.Kern.BitOps.{BitOps}
use gas_filesystem.Kern.Bitmap.{Bitmap, search, release}

-- `gas_clear_inode`: the table, in which a block that cannot be read stays as it is
unfoldable pub gas_clear_inode : GasSbInfo → InodeTable → ℕ → InodeTable
gas_clear_inode sbi table ino = elim (gas_get_inode sbi table ino) [
  | none ↦ table
  | some (bh, offset) ↦ elim (inode_at bh offset) [
    | none ↦ table
    | some di ↦
        store_inode table (gas_inode_block sbi ino) bh offset
          (record di { i_nlink = 0; i_mode = 0 })
  ]
]

-- The label `got_it` of `gas_new_inode`
unfoldable pub fill_new_inode : GasInodeInfo → (ino now : ℕ) → GasInodeInfo
fill_new_inode inode ino now = record inode {
  blkaddr = replicate 9 0;
  i_ino = ino;
  i_atime = record { tv_sec = now; tv_nsec = 0 };
  i_mtime = record { tv_sec = now; tv_nsec = 0 };
  i_ctime = record { tv_sec = now; tv_nsec = 0 };
  i_size = 0;
  hashed = true;
  dirty = true;
}

module _ (ops : BitOps) where
  -- `gas_free_inode`, for `blocksize_bits` the `s_blocksize_bits` of the super block
  unfoldable pub gas_free_inode :
      (blocksize_bits : ℕ) → GasSbInfo → InodeTable × Bitmap ops → ℕ → InodeTable × Bitmap ops
  gas_free_inode blocksize_bits sbi (table, map) ino =
      let k = blocksize_bits + 3 in
      let idx = ino / 2 ^ k in
      if ltb ino 1 || ltb sbi.s_ninodes ino
      then (table, map)
      else if leb sbi.s_iam_blocks idx
      then (table, map)
      else (gas_clear_inode sbi table ino, release ops map idx (bit_and ino (2 ^ k - 1)))

  -- `gas_new_inode`: the error or the inode, and the bitmap of inodes. `fresh` is what `new_inode`
  -- returns, and `init_owner` is `inode_init_owner` for the directory and the mode.
  unfoldable pub gas_new_inode :
      (init_owner : GasInodeInfo → GasInodeInfo)
      → (now : ℕ) → GasSbInfo
      → Bitmap ops
      → (fresh : Option GasInodeInfo) → Option Errno × Option GasInodeInfo × Bitmap ops
  gas_new_inode init_owner now sbi map none = (some enomem, none, map)
  gas_new_inode init_owner now sbi map (some inode) =
      elim (search ops sbi.s_iam_blocks sbi.s_bits_per_block sbi.s_iam_blocks map map.last) [
        | none ↦ (some enospc, none, map)
        | some (ino, map') ↦ (none, some (fill_new_inode (init_owner inode) ino now), map')
      ]
