-- ===== src/Kern/Tests/Blocks.antt =====
-- Allocating and freeing a block, on a disk of six blocks with one bitmap block of eight bits
use gas_filesystem.Base.{ℕ, ◌/◌, ◌%◌, ◌<◌, ◌≡◌, refl, false, ◌||◌, ltb, leb, arith, [], ◌∷◌, some}
use gas_filesystem.Kern.Types.{GasSbInfo}
use gas_filesystem.Kern.Bitmap.{Bitmap, gas_new_block, gas_free_block}
use gas_filesystem.Kern.Bitmap.Alloc.{bit_in}
use gas_filesystem.Kern.Bitmap.Blocks.{
  block_bit, IsValid, BlockChanged, NewBlock, gas_new_block-NewBlock, gas_free_block-BlockChanged,
}
use gas_filesystem.Kern.Tests.Bits.{function_bits}

abbrev six_blocks : GasSbInfo
six_blocks = record {
  s_magic = 0;
  s_blocksize = 1;
  s_bam_blocks = 1;
  s_iam_blocks = 0;
  s_inode_blocks = 0;
  s_nblocks = 6;
  s_ninodes = 0;
  s_inodes_per_block = 0;
  s_bits_per_block = 8;
  s_dir_entries_per_block = 0;
  s_inode_list_start = 2;
  s_data_block_start = 2;
}

-- The blocks before the data area are marked, and the bits that stand for no block.
abbrev six_map : Bitmap function_bits
six_map = record {
  bh = record { b_data = λ j. ltb j 2 || leb 6 j; b_dirty = false } ∷ [];
  last = 0;
}

six_map-bit : (n : ℕ) → n < 8 → block_bit function_bits 8 six_map n ≡ some (ltb n 2 || leb 6 n)
six_map-bit n lt =
    let first : n / 8 ≡ 0 = omega arith in
    let own : n % 8 ≡ n = omega arith in rw (first, own, bit_in) refl

six_map-IsValid : IsValid function_bits 0 six_blocks six_map
six_map-IsValid = record {
  bits = refl;
  whole = refl;
  hint = omega arith;
  fits = omega arith;
  covers = omega arith;
  metadata = λ n lt. ground (arith, six_map-bit n (omega arith));
  beyond = λ n ge lt. ground (arith, six_map-bit n lt);
}

gas_new_block-NewBlock_example :
    NewBlock function_bits 0 six_blocks six_map six_map-IsValid
      (gas_new_block function_bits six_blocks six_map)
gas_new_block-NewBlock_example =
    gas_new_block-NewBlock function_bits 0 six_blocks six_map six_map-IsValid

gas_free_block-BlockChanged_example :
    BlockChanged function_bits 8 six_map 3 false
      (gas_free_block function_bits 0 six_blocks six_map 3)
    × IsValid function_bits 0 six_blocks (gas_free_block function_bits 0 six_blocks six_map 3)
gas_free_block-BlockChanged_example =
    gas_free_block-BlockChanged function_bits 0 six_blocks six_map six_map-IsValid 3 (omega arith)
      (omega arith)
