-- ===== src/Kern/Truncate/Evict.antt =====
-- `gas_evict_inode` of kern/gas_inode.c for an inode without links
use native.Mathlib.Nat.{div-lt_iff_lt-mul, one-le-pow}
use gas_filesystem.Base.{ℕ, ◌+◌, ◌-◌, ◌^◌, ◌≡◌, ◌≤◌, ◌<◌, ◌≢◌, ◌||◌, Bool, true, false, some, arith}
use gas_filesystem.Kern.Types.{GasSbInfo, GasInode}
use gas_filesystem.Kern.Inode.{InodeTable, s_isreg, s_isdir, s_islnk}
use gas_filesystem.Kern.Inode.RoundTrip.{stored}
use gas_filesystem.Kern.BitOps.{BitOps}
use gas_filesystem.Kern.Bitmap.{Bitmap}
use gas_filesystem.Kern.Bitmap.Blocks.{IsValid, BlockChanged}
use gas_filesystem.Kern.Ialloc.Alloc.{inode_numbers}
use gas_filesystem.Kern.Ialloc.Free.{cleared, gas_free_inode-BlockChanged}
use gas_filesystem.Kern.Branch.{Tree}
use gas_filesystem.Kern.Branch.Get.{block_at}
use gas_filesystem.Kern.Truncate.{gas_truncate, gas_evict_inode}
use gas_filesystem.Kern.Truncate.Shrunk.{Shrunk}
use gas_filesystem.Kern.Truncate.Direct.{
  blocks_of, gas_truncate_inode-Shrunk, gas_truncate_inode_direct,
}

module _ (ops : BitOps) (blocksize_bits : ℕ) (sbi : GasSbInfo) (reads : ℕ → Bool) (ptrs now : ℕ)
    (tree : Tree ops) (good : IsValid ops blocksize_bits sbi tree.map) where
  blocks_of_zero : blocks_of blocksize_bits 0 ≡ 0
  blocks_of_zero =
      let pos : 0 < 2 ^ blocksize_bits = one-le-pow blocksize_bits 2 (omega arith) in
      let lt = (div-lt_iff_lt-mul {x = 0 + 2 ^ blocksize_bits - 1} {y = 1} pos).1 (omega arith) in
      omega (arith, lt)

  -- For a regular file, a directory or a symbolic link without links whose number is that of an
  -- inode on the disk and whose record is on the disk, with valid bitmaps of blocks and of inodes
  -- and a number of blocks that is positive and at most 2 ^ 63, `gas_evict_inode` leaves no block of
  -- the file to be found, sets no key of the tree to anything but 0 and marks no block, stores the
  -- record with neither mode nor links, leaves the records of all other inodes alone, and frees the
  -- number of the inode and no other, with both bitmaps valid.
  pub gas_evict_inode-BlockChanged :
      (mode ino : ℕ) (di : GasInode) (table : InodeTable) (iam : Bitmap ops)
      → (s_isreg mode || s_isdir mode || s_islnk mode) ≡ true
      → 0 < sbi.s_nblocks
      → sbi.s_nblocks ≤ 2 ^ 63
      → IsValid ops blocksize_bits (inode_numbers sbi) iam
      → 1 ≤ ino
      → ino < sbi.s_ninodes
      → stored sbi table ino ≡ some di
      → let (tree', table', iam') =
          gas_evict_inode ops blocksize_bits sbi reads ptrs now ino mode 0 (tree, table, iam) in
        ((block : ℕ) → block < sbi.s_nblocks → block_at ptrs sbi.s_nblocks tree'.cell block ≡ 0)
        × Shrunk ops blocksize_bits sbi tree tree'
        × (stored sbi table' ino ≡ some (cleared di))
        × ((other : ℕ) → other ≢ ino → stored sbi table' other ≡ stored sbi table other)
        × BlockChanged ops sbi.s_bits_per_block iam ino false iam'
        × IsValid ops blocksize_bits (inode_numbers sbi) iam'
  unfolding gas_evict_inode gas_truncate
  gas_evict_inode-BlockChanged mode ino di table iam has_blocks some_block small valid ge lt is =
      let (own, others, change, keeps) =
        gas_free_inode-BlockChanged ops blocksize_bits sbi iam valid table ino di ge lt is in
      rw has_blocks (
        λ block inside.
            gas_truncate_inode_direct ops blocksize_bits sbi reads ptrs now tree good 0 block
              (omega (arith, blocks_of_zero)) (omega (arith, blocks_of_zero)) inside small,
        gas_truncate_inode-Shrunk ops blocksize_bits sbi reads ptrs now tree good 0,
        own,
        others,
        change,
        keeps,
      )
