-- ===== src/Kern/Ialloc/Free.antt =====
-- `gas_free_inode` of kern/bitmap.c: an inode of the list, and a number behind it
use native.Mathlib.Nat.{div-lt_iff_lt-mul, one-le-pow}
use gas_filesystem.Base.{
  ℕ, ◌+◌, ◌*◌, ◌/◌, ◌%◌, ◌^◌, ◌≤◌, ◌<◌, ◌≡◌, ◌≢◌, some, false, arith, Option-cases, inl, inr,
  lt_of_get_elem?,
}
use gas_filesystem.Base.Bits.{and-mask}
use gas_filesystem.Kern.Types.{GasSbInfo, GasInode, gas_inode_block}
use gas_filesystem.Kern.Inode.{InodeTable, gas_get_inode, inode_at, gas_inode_offset}
use gas_filesystem.Kern.Inode.RoundTrip.{stored, stored-store_self, stored-store_ne}
use gas_filesystem.Kern.BitOps.{BitOps}
use gas_filesystem.Kern.Bitmap.{Bitmap, release}
use gas_filesystem.Kern.Bitmap.Alloc.{release-Changed}
use gas_filesystem.Kern.Bitmap.Blocks.{freed, IsValid, BlockChanged, gas_free_block-BlockChanged}
use gas_filesystem.Kern.Ialloc.{gas_clear_inode, gas_free_inode}
use gas_filesystem.Kern.Ialloc.Alloc.{inode_numbers}

module _ (ops : BitOps) (blocksize_bits : ℕ) (sbi : GasSbInfo) (map : Bitmap ops)
    (valid : IsValid ops blocksize_bits (inode_numbers sbi) map) where
  in_maps :
      (ino : ℕ)
      → ino < sbi.s_iam_blocks * sbi.s_bits_per_block
      → ino / 2 ^ (blocksize_bits + 3) < sbi.s_iam_blocks
  in_maps ino lt = rw (← valid.bits) (
      (div-lt_iff_lt-mul
          (omega (arith, valid.bits, one-le-pow (blocksize_bits + 3) 2 (omega arith)))).1
        lt)

  -- What the guards let through
  freed_inode :
      (table : InodeTable) (ino : ℕ)
      → 1 ≤ ino
      → ino ≤ sbi.s_ninodes
      → ino < sbi.s_iam_blocks * sbi.s_bits_per_block
      → let r = gas_free_inode ops blocksize_bits sbi (table, map) ino in
        (r.0 ≡ gas_clear_inode sbi table ino)
        × (r.1 ≡ release ops map (ino / sbi.s_bits_per_block) (ino % sbi.s_bits_per_block))
  unfolding gas_free_inode
  freed_inode table ino ge le lt =
      rw (and-mask (blocksize_bits + 3) ino, ← valid.bits)
        (ground (arith, in_maps ino lt, valid.bits), ground (arith, in_maps ino lt, valid.bits))

-- The record of an inode as `gas_clear_inode` leaves it
abbrev pub cleared : GasInode → GasInode
cleared di = record di { i_nlink = 0; i_mode = 0 }

gas_clear_inode-stored :
    (sbi : GasSbInfo) (table : InodeTable) (ino : ℕ) (di : GasInode)
    → stored sbi table ino ≡ some di
    → (stored sbi (gas_clear_inode sbi table ino) ino ≡ some (cleared di))
      × ((other : ℕ)
          → other ≢ ino
          → stored sbi (gas_clear_inode sbi table ino) other ≡ stored sbi table other)
unfolding gas_clear_inode gas_get_inode
gas_clear_inode-stored sbi table ino di is = elim (Option-cases (table (gas_inode_block sbi ino))) [
  | inl unread ↦ absurd (cc (rw (unread, stored) at is))
  | inr (bh, read) ↦
      let here : inode_at bh (gas_inode_offset sbi ino) ≡ some di = rw (read, stored) at is in
      rw (read, gas_clear_inode, here)
        (
          stored-store_self sbi table ino bh (cleared di) read (lt_of_get_elem? bh.inodes _ here),
          stored-store_ne sbi table ino bh (cleared di) read,
        )
]

module _ (ops : BitOps) (blocksize_bits : ℕ) (sbi : GasSbInfo) (map : Bitmap ops)
    (valid : IsValid ops blocksize_bits (inode_numbers sbi) map) where
  abbrev bits : ℕ
  bits = sbi.s_bits_per_block

  -- If the bitmap of inodes is valid and the record of an inode from 1 on and below the number of
  -- inodes is on the disk, `gas_free_inode` clears its mode and its links there, leaves the records
  -- of all other inodes alone, clears its mark and no other, and keeps the bitmap valid.
  pub gas_free_inode-BlockChanged :
      (table : InodeTable) (ino : ℕ) (di : GasInode)
      → 1 ≤ ino
      → ino < sbi.s_ninodes
      → stored sbi table ino ≡ some di
      → let (table', map') = gas_free_inode ops blocksize_bits sbi (table, map) ino in
        (stored sbi table' ino ≡ some (cleared di))
        × ((other : ℕ) → other ≢ ino → stored sbi table' other ≡ stored sbi table other)
        × BlockChanged ops bits map ino false map'
        × IsValid ops blocksize_bits (inode_numbers sbi) map'
  gas_free_inode-BlockChanged table ino di ge lt is =
      let (e0, e1) =
        freed_inode ops blocksize_bits sbi map valid table ino ge (omega arith)
          (omega (arith, valid.covers)) in
      let (own, others) = gas_clear_inode-stored sbi table ino di is in
      let (change, keeps) =
        gas_free_block-BlockChanged ops blocksize_bits (inode_numbers sbi) map valid ino ge lt in
      let same = freed ops blocksize_bits (inode_numbers sbi) map valid ino ge lt in
      rw (e0, e1, ← same) (own, others, change, keeps)

  -- If the bitmap of inodes is valid and has a bit for the number of inodes, which is positive, then
  -- `gas_free_inode` of this number, which no inode has, makes the bitmap invalid.
  pub gas_free_inode_beyond :
      (table : InodeTable)
      → 1 ≤ sbi.s_ninodes
      → sbi.s_ninodes < sbi.s_iam_blocks * bits
      → ¬ IsValid ops blocksize_bits
          (inode_numbers sbi)
          ((gas_free_inode ops blocksize_bits sbi (table, map) sbi.s_ninodes).1)
  gas_free_inode_beyond table ge lt valid' =
      let (e0, e1) =
        freed_inode ops blocksize_bits sbi map valid table sbi.s_ninodes ge (omega arith) lt in
      let idx_lt = in_maps ops blocksize_bits sbi map valid sbi.s_ninodes lt in
      cc (
        rw e1 at (valid'.beyond sbi.s_ninodes (omega arith) lt),
        (release-Changed ops map (sbi.s_ninodes / bits) (sbi.s_ninodes % bits)
            (omega (arith, rw (← valid.bits) at idx_lt, valid.whole))).here,
      )
