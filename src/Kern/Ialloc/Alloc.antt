-- ===== src/Kern/Ialloc/Alloc.antt =====
-- `gas_new_inode` of kern/bitmap.c: the number of a new inode
use mathlib.Core.Path.{subst₂}
use gas_filesystem.Base.{
  ap, ℕ, ◌*◌, ◌≤◌, ◌<◌, ◌≡◌, refl, Option, none, some, true, false, replicate,
}
use gas_filesystem.Kern.Types.{GasSbInfo, GasInodeInfo, Errno, enospc}
use gas_filesystem.Kern.BitOps.{BitOps}
use gas_filesystem.Kern.Bitmap.{Bitmap, gas_new_block}
use gas_filesystem.Kern.Bitmap.Blocks.{
  block_bit, IsValid, BlockChanged, NewBlock, allocated, no_space, gas_new_block-NewBlock,
}
use gas_filesystem.Kern.Ialloc.{gas_new_inode, fill_new_inode}

-- The numbers of the bitmap of inodes, in the place of those of the bitmap of blocks: inode 0 is not
-- used.
abbrev pub inode_numbers : GasSbInfo → GasSbInfo
inode_numbers sbi = record sbi {
  s_bam_blocks = sbi.s_iam_blocks;
  s_data_block_start = 1;
  s_nblocks = sbi.s_ninodes;
}

module _ (ops : BitOps) (blocksize_bits : ℕ) (sbi : GasSbInfo) (map : Bitmap ops)
    (valid : IsValid ops blocksize_bits (inode_numbers sbi) map)
    (init_owner : GasInodeInfo → GasInodeInfo) (now : ℕ) (inode : GasInodeInfo) where
  -- What `gas_new_inode` returns when there is memory for an inode
  pub data NewInode : Option Errno × Option GasInodeInfo × Bitmap ops → Type 0 where
    created :
        {map' : Bitmap ops} (info : GasInodeInfo)
        → 1 ≤ info.i_ino
        → info.i_ino < sbi.s_ninodes
        → info.i_size ≡ 0
        → info.blkaddr ≡ replicate 9 0
        → (info.i_mode ≡ (init_owner inode).i_mode) × (info.i_nlink ≡ (init_owner inode).i_nlink)
        → block_bit ops sbi.s_bits_per_block map info.i_ino ≡ some false
        → BlockChanged ops sbi.s_bits_per_block map info.i_ino true map'
        → IsValid ops blocksize_bits (inode_numbers sbi) map'
        → NewInode (none, some info, map')
    no_inode :
        ((n : ℕ)
          → n < sbi.s_iam_blocks * sbi.s_bits_per_block
          → block_bit ops sbi.s_bits_per_block map n ≡ some true)
        → NewInode (some enospc, none, map)

  abbrev answer : Option (ℕ × Bitmap ops) → Option Errno × Option GasInodeInfo × Bitmap ops
  answer o = elim o [
    | none ↦ (some enospc, none, map)
    | some (ino, map') ↦ (none, some (fill_new_inode (init_owner inode) ino now), map')
  ]

  abbrev as_block : Option (ℕ × Bitmap ops) → Option Errno × ℕ × Bitmap ops
  as_block o = elim o [ none ↦ (some enospc, 0, map) | some (n, map') ↦ (none, n, map') ]

  NewBlock-NewInode :
      (o : Option (ℕ × Bitmap ops)) (r : Option Errno × ℕ × Bitmap ops)
      → NewBlock ops blocksize_bits (inode_numbers sbi) map valid r
      → r ≡ as_block o
      → NewInode (answer o)
  unfolding fill_new_inode
  NewBlock-NewInode none r (allocated ge lt free change keeps) e = absurd (cc (ap (λ r. r.0) e))
  NewBlock-NewInode none r (no_space all) e = no_inode all
  NewBlock-NewInode (some (n, m)) r (no_space all) e = absurd (cc (ap (λ r. r.0) e))
  NewBlock-NewInode (some (n, m)) r (allocated {n = n'} {map' = m'} ge lt free change keeps) e =
      subst₂ (λ k m. NewInode (none, some (fill_new_inode (init_owner inode) k now), m))
        (ap (λ r. r.1) e) (ap (λ r. r.2) e)
        (created (fill_new_inode (init_owner inode) n' now) ge lt refl refl (refl, refl) free change
          keeps)

  -- If the bitmap of inodes is valid, 0 and the numbers behind the inodes being marked in it, and
  -- there is memory for an inode, `gas_new_inode` either returns an inode of size 0 without blocks,
  -- with the mode and the links that `inode_init_owner` gives it and a number from 1 on that was
  -- free, marks this number and no other and keeps the bitmap valid, or it reports `ENOSPC`, changes
  -- nothing, and every number is marked.
  pub gas_new_inode-NewInode : NewInode (gas_new_inode ops init_owner now sbi map (some inode))
  unfolding gas_new_inode gas_new_block
  gas_new_inode-NewInode =
      NewBlock-NewInode _ _
        (gas_new_block-NewBlock ops blocksize_bits (inode_numbers sbi) map valid) refl
