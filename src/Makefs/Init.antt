-- ===== src/Makefs/Init.antt =====
-- makefs/mkfs.c: the bitmaps and the inode list of a new file system, which `main` writes to the image
-- behind the super block. A preallocation that is used up is 0.
pub mod Maps
pub mod Prepared
use mathlib.Core.Option
use gas_filesystem.Base.{
  ℕ, zero, suc, ◌+◌, ◌-◌, ◌*◌, Option, none, some, List, ◌==◌, ◌&&◌, not, ltb, Bool, if◌then◌else◌,
}
use gas_filesystem.Kern.Types.{bits_per_block}
use gas_filesystem.Makefs.Region.{bitmap_set}
use gas_filesystem.Makefs.Layout.{FilesysParam, bam_block_start, iam_block_start, inode_list_start}
use gas_filesystem.Makefs.Disk.{Buffers, Image, write_block}

module _ (buffers : Buffers) where
  open buffers use {Data, zeros, ones, words, put_words}

  -- A round of the loops of `init_block_alloc_map` and `init_inode_alloc_map`: the block, in which the
  -- first `preallocated` bits are set, and in the last block those from `cnt` on
  unfoldable pub map_block : (last : Bool) → (total cnt preallocated : ℕ) → Option Data
  map_block last total cnt preallocated =
      let front =
        if ltb bits_per_block preallocated
        then some ones
        else if preallocated == 0
        then some zeros
        else Option.map (λ ws. put_words zeros ws) (bitmap_set (words zeros) 0 preallocated) in
      let bits = total * bits_per_block - cnt in
      if last && not (cnt == total * bits_per_block)
      then elim front [
        | none ↦ none
        | some d ↦
            Option.map (λ ws. put_words d ws) (bitmap_set (words d) (bits_per_block - bits) bits)
      ]
      else front

  -- The loops, for the last `left` of the `total` blocks
  unfoldable pub map_loop :
      (left total cnt block preallocated : ℕ) → Image buffers → Option (Image buffers)
  unfolding map_block write_block
  map_loop zero total cnt block preallocated im = some im
  map_loop (suc left) total cnt block preallocated im =
      elim (map_block (left == 0) total cnt preallocated) [
        | none ↦ none
        | some d ↦
            map_loop left total cnt (block + 1) (preallocated - bits_per_block)
              (write_block buffers block d im)
      ]

  unfoldable pub init_block_alloc_map : FilesysParam → Image buffers → Option (Image buffers)
  unfolding map_loop
  init_block_alloc_map gas im =
      map_loop gas.bam_blk gas.bam_blk gas.blk_cnt bam_block_start gas.data_st im

  unfoldable pub init_inode_alloc_map : FilesysParam → Image buffers → Option (Image buffers)
  unfolding map_loop
  init_inode_alloc_map gas im =
      map_loop gas.iam_blk gas.iam_blk gas.ino_cnt (iam_block_start gas) 1 im

  -- The loop of `init_inode_list`
  unfoldable pub list_loop : (left block : ℕ) → Image buffers → Image buffers
  unfolding write_block
  list_loop zero block im = im
  list_loop (suc left) block im = list_loop left (block + 1) (write_block buffers block zeros im)

  unfoldable pub init_inode_list : FilesysParam → Image buffers → Image buffers
  unfolding list_loop
  init_inode_list gas im = list_loop gas.ino_blk (inode_list_start gas) im
