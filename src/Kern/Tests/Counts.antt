-- ===== src/Kern/Tests/Counts.antt =====
-- Counting free blocks in two buffers of two bytes
use gas_filesystem.Base.{ℕ, zero, suc, ◌+◌, ◌-◌, ◌*◌, ◌≤◌, ◌≡◌, false, Bool, arith, [], ◌∷◌, ltb}
use gas_filesystem.Kern.Bitmap.{BufferHead}
use gas_filesystem.Kern.Count.{clear_bits, Weight, gas_count_free_blocks}
use gas_filesystem.Kern.Count.Free.{gas_count_free_blocks_short}
use gas_filesystem.Kern.Types.{GasSbInfo}
use gas_filesystem.Kern.Tests.Bits.{function_bits}
use gas_filesystem.Kern.Tests.Inodes.{small_disk}

clear_bits_le : (bit : ℕ → Bool) (start n : ℕ) → clear_bits bit start n ≤ n
unfolding clear_bits
clear_bits_le bit start zero = omega arith
clear_bits_le bit start (suc n) = ground (arith, clear_bits_le bit (start + 1) n)

abbrev function_weight : Weight function_bits
function_weight = record {
  hweight16 = λ d word. 16 - clear_bits d (16 * word) 16;
  clear-hweight16 = λ d word. omega (arith, clear_bits_le d (16 * word) 16);
}

abbrev buffer : ℕ → BufferHead function_bits
buffer used = record { b_data = λ j. ltb j used; b_dirty = false }

-- Twenty blocks in two buffers of 16 bits
abbrev two_buffers : GasSbInfo
two_buffers = record small_disk {
  s_bam_blocks = 2;
  s_nblocks = 20;
  s_bits_per_block = 16;
  s_data_block_start = 5;
}

gas_count_free_blocks_short_example :
    gas_count_free_blocks function_bits function_weight two_buffers 2
      (record { bh = buffer 5 ∷ buffer 0 ∷ []; last = 0 })
    ≡ gas_count_free_blocks function_bits function_weight two_buffers 2
        (record { bh = buffer 5 ∷ buffer 16 ∷ []; last = 0 })
gas_count_free_blocks_short_example =
    gas_count_free_blocks_short function_bits function_weight two_buffers 2 0 (buffer 5 ∷ [])
      (buffer 0) (buffer 16) (omega arith) (omega arith) (omega arith) (omega arith)
