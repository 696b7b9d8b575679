-- ===== src/Kern/Count/Free.antt =====
-- `count_free` of kern/bitmap.c against a count of single bits
use native.Mathlib.Nat.{div-lt_iff_lt-mul}
use gas_filesystem.Base.{
  ℕ, zero, suc, ◌+◌, ◌-◌, ◌*◌, ◌/◌, ◌^◌, ◌≡◌, ◌≤◌, ◌<◌, refl, arith, List, [], ◌∷◌, ◌++◌, length,
}
use gas_filesystem.Kern.Types.{GasSbInfo}
use gas_filesystem.Kern.BitOps.{BitOps}
use gas_filesystem.Kern.Bitmap.{BufferHead}
use gas_filesystem.Kern.Count.{clear_bits, Weight, count_blocks, count_free, gas_count_free_blocks}

-- `DIV_ROUND_UP` of a number of bits that `whole` blocks hold
blocks_le :
    (numbits up whole blocksize : ℕ)
    → 0 < blocksize
    → up ≡ numbits + blocksize * 8 - 1
    → numbits ≤ 8 * blocksize * whole
    → up / (blocksize * 8) ≤ whole
blocks_le numbits up whole blocksize pos e le =
    let times : (whole + 1) * (blocksize * 8) ≡ 8 * blocksize * whole + 8 * blocksize =
      grind arith in
    let lt : up / (blocksize * 8) < whole + 1 =
      (div-lt_iff_lt-mul {x = up} {y = whole + 1} (omega arith)).1 (omega (arith, times)) in
    omega (arith, lt)

module _ (ops : BitOps) (weight : Weight ops) where
  open ops use {Data, test_bit}

  -- The clear bits of the first `blocks` buffers
  abbrev pub free_bits : (bits blocks : ℕ) → List (BufferHead ops) → ℕ
  free_bits bits zero map = 0
  free_bits bits (suc blocks) [] = 0
  free_bits bits (suc blocks) (b ∷ map) =
      clear_bits (test_bit b.b_data) 0 bits + free_bits bits blocks map

  -- Buffers behind the number of blocks do not count.
  count_blocks-append :
      (blocksize blocks sum : ℕ) (xs ys zs : List (BufferHead ops))
      → blocks ≤ length xs
      → count_blocks ops weight blocksize blocks sum (xs ++ ys)
        ≡ count_blocks ops weight blocksize blocks sum (xs ++ zs)
  unfolding count_blocks
  count_blocks-append blocksize zero sum xs ys zs le = refl
  count_blocks-append blocksize (suc blocks) sum [] ys zs le = absurd (omega arith)
  count_blocks-append blocksize (suc blocks) sum (x ∷ xs) ys zs le =
      count_blocks-append blocksize blocks _ xs ys zs (omega arith)

  -- If the number of blocks, with one block of bits more, is below 2 ^ 32, and the bits of all
  -- buffers but the last hold the number of blocks less the start of the data area and one more,
  -- then what the last buffer holds makes no difference to `gas_count_free_blocks`.
  pub gas_count_free_blocks_short :
      (sbi : GasSbInfo) (blocksize last : ℕ) (bh : List (BufferHead ops)) (b b' : BufferHead ops)
      → 0 < blocksize
      → sbi.s_data_block_start ≤ sbi.s_nblocks
      → sbi.s_nblocks + 8 * blocksize < 2 ^ 32
      → sbi.s_nblocks + 1 ≤ sbi.s_data_block_start + 8 * blocksize * length bh
      → gas_count_free_blocks ops weight sbi blocksize (record { bh = bh ++ b ∷ []; last = last })
        ≡ gas_count_free_blocks ops weight sbi blocksize
            (record { bh = bh ++ b' ∷ []; last = last })
  unfolding gas_count_free_blocks count_free
  gas_count_free_blocks_short sbi blocksize last bh b b' pos start small short =
      count_blocks-append blocksize _ 0 bh (b ∷ []) (b' ∷ []) (
        blocks_le (sbi.s_nblocks - sbi.s_data_block_start + 1) _ (length bh) blocksize pos
          (omega arith) (omega arith))
