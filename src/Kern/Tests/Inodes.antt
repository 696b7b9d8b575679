-- ===== src/Kern/Tests/Inodes.antt =====
-- Allocating and freeing an inode, on a disk of eight blocks and six inodes
use gas_filesystem.Base.{
  ℕ, ◌/◌, ◌%◌, ◌<◌, ◌≡◌, ◌≢◌, refl, false, ◌||◌, ltb, leb, arith, [], ◌∷◌, some, replicate,
}
use gas_filesystem.Kern.Types.{GasSbInfo, gas_inode_block}
use gas_filesystem.Kern.Inode.{InodeTable, gas_inode_offset}
use gas_filesystem.Kern.Inode.RoundTrip.{stored}
use gas_filesystem.Kern.Bitmap.{Bitmap}
use gas_filesystem.Kern.Bitmap.Alloc.{bit_in}
use gas_filesystem.Kern.Bitmap.Blocks.{block_bit, IsValid, BlockChanged}
use gas_filesystem.Kern.Ialloc.{gas_new_inode, gas_free_inode}
use gas_filesystem.Kern.Ialloc.Alloc.{inode_numbers, NewInode, gas_new_inode-NewInode}
use gas_filesystem.Kern.Ialloc.Free.{cleared, gas_free_inode-BlockChanged, gas_free_inode_beyond}
use gas_filesystem.Kern.Tests.Bits.{function_bits}
use gas_filesystem.Kern.Tests.Nodes.{no_inode, file_inode}

abbrev pub small_disk : GasSbInfo
small_disk = record {
  s_magic = 0;
  s_blocksize = 1;
  s_bam_blocks = 1;
  s_iam_blocks = 1;
  s_inode_blocks = 1;
  s_nblocks = 8;
  s_ninodes = 6;
  s_inodes_per_block = 8;
  s_bits_per_block = 8;
  s_dir_entries_per_block = 0;
  s_inode_list_start = 1;
  s_data_block_start = 2;
}

-- The bits below `low` and from `high` on are marked.
abbrev pub marked_map : (low high : ℕ) → Bitmap function_bits
marked_map low high = record {
  bh = record { b_data = λ j. ltb j low || leb high j; b_dirty = false } ∷ [];
  last = 0;
}

pub marked_map-bit :
    (low high n : ℕ)
    → n < 8
    → block_bit function_bits 8 (marked_map low high) n ≡ some (ltb n low || leb high n)
marked_map-bit low high n lt =
    let first : n / 8 ≡ 0 = omega arith in
    let own : n % 8 ≡ n = omega arith in rw (first, own, bit_in) refl

abbrev pub small_iam : Bitmap function_bits
small_iam = marked_map 1 6

pub small_iam-IsValid : IsValid function_bits 0 (inode_numbers small_disk) small_iam
small_iam-IsValid = record {
  bits = refl;
  whole = refl;
  hint = omega arith;
  fits = omega arith;
  covers = omega arith;
  metadata = λ n lt. ground (arith, marked_map-bit 1 6 n (omega arith));
  beyond = λ n ge lt. ground (arith, marked_map-bit 1 6 n lt);
}

abbrev pub small_table : InodeTable
small_table b = some (record { inodes = replicate 8 no_inode; b_dirty = false })

pub small_table-stored : stored small_disk small_table 3 ≡ some no_inode
unfolding gas_inode_block gas_inode_offset
small_table-stored = refl

gas_new_inode-NewInode_example :
    NewInode function_bits 0 small_disk small_iam small_iam-IsValid
      (λ i. i)
      5
      file_inode
      (gas_new_inode function_bits (λ i. i) 5 small_disk small_iam (some file_inode))
gas_new_inode-NewInode_example =
    gas_new_inode-NewInode function_bits 0 small_disk small_iam small_iam-IsValid (λ i. i) 5
      file_inode

gas_free_inode-BlockChanged_example :
    let (table', map') = gas_free_inode function_bits 0 small_disk (small_table, small_iam) 3 in
    (stored small_disk table' 3 ≡ some (cleared no_inode))
    × ((other : ℕ)
        → other ≢ 3
        → stored small_disk table' other ≡ stored small_disk small_table other)
    × BlockChanged function_bits 8 small_iam 3 false map'
    × IsValid function_bits 0 (inode_numbers small_disk) map'
gas_free_inode-BlockChanged_example =
    gas_free_inode-BlockChanged function_bits 0 small_disk small_iam small_iam-IsValid small_table 3
      no_inode (omega arith) (omega arith) small_table-stored

gas_free_inode_beyond_example :
    ¬ IsValid function_bits 0
      (inode_numbers small_disk)
      ((gas_free_inode function_bits 0 small_disk (small_table, small_iam) 6).1)
gas_free_inode_beyond_example =
    gas_free_inode_beyond function_bits 0 small_disk small_iam small_iam-IsValid small_table
      (omega arith) (omega arith)
