-- ===== src/Makefs/Bitmap/Masks.antt =====
-- The masks of makefs/bitmap.c, bit by bit.
use Prim.Native.Nat.{bit_and, bit_or}
use gas_filesystem.Base.{
  ℕ, ◌+◌, ◌-◌, ◌*◌, ◌/◌, ◌%◌, ◌^◌, ◌≤◌, ◌<◌, ◌≡◌, ◌∙◌, arith, ltb, leb, ◌&&◌, not,
}
use gas_filesystem.Base.Bits.{
  test_bit, test_bit-mod, test_bit-shr, test_bit-shl, test_bit-and, test_bit-or, test_bit-not,
  test_bit-zero, bits_ext, and-lt, or-lt, and_digit, and-mask,
}
use native.Mathlib.Nat.{div-le_self}
use gas_filesystem.Makefs.Bitmap.{not_64, all_ones, shl_64, shr_64, align_down}

pub test_bit-not_64 :
    (x i : ℕ) → x < 2 ^ 64 → test_bit (not_64 x) i ≡ (ltb i 64 && not (test_bit x i))
test_bit-not_64 x i h = test_bit-not 64 x i h

pub test_bit-all_ones : (i : ℕ) → test_bit all_ones i ≡ ltb i 64
test_bit-all_ones i = test_bit-not 64 0 i (omega arith) ∙ ground (arith, test_bit-zero i)

-- `~0UL << k` has the bits from `k` on.
pub test_bit-high : (k i : ℕ) → test_bit (shl_64 all_ones k) i ≡ (ltb i 64 && leb k i)
test_bit-high k i =
    test_bit-mod (all_ones * 2 ^ k) 64 i
    ∙ ground (arith, test_bit-shl all_ones k i, test_bit-all_ones (i - k))

-- `~0UL >> (64 - k)` has the bits below `k`.
pub test_bit-low : (k i : ℕ) → k ≤ 64 → test_bit (shr_64 all_ones (64 - k)) i ≡ ltb i k
test_bit-low k i h =
    test_bit-shr all_ones (64 - k) i ∙ ground (arith, test_bit-all_ones (i + (64 - k)))

-- `x & ~63` rounds down to a multiple of 64.
pub align_down_lem : (x : ℕ) → x < 2 ^ 64 → align_down x + x % 64 ≡ x
align_down_lem x h = omega (
  arith,
  and_digit x (2 ^ 64 - 64),
  and_digit (x / 2) (2 ^ 63 - 32),
  and_digit (x / 2 / 2) (2 ^ 62 - 16),
  and_digit (x / 2 / 2 / 2) (2 ^ 61 - 8),
  and_digit (x / 2 / 2 / 2 / 2) (2 ^ 60 - 4),
  and_digit (x / 2 / 2 / 2 / 2 / 2) (2 ^ 59 - 2),
  and-mask 58 (x / 2 / 2 / 2 / 2 / 2 / 2),
)

-- De Morgan's laws for the two kinds of search
pub not-or_high :
    (w k : ℕ)
    → k ≤ 64
    → w < 2 ^ 64
    → not_64 (bit_or w (shl_64 all_ones k)) ≡ bit_and (not_64 w) (shr_64 all_ones (64 - k))
not-or_high w k small h = bits_ext 64 _ _ (omega arith) (and-lt 64 _ _ (omega arith)) λ i p.
    ground (
      arith,
      test_bit-not_64 (bit_or w (shl_64 all_ones k)) i (or-lt 64 _ _ h (omega arith)),
      test_bit-or w (shl_64 all_ones k) i,
      test_bit-high k i,
      test_bit-and (not_64 w) (shr_64 all_ones (64 - k)) i,
      test_bit-not_64 w i h,
      test_bit-low k i small,
    )

pub shr_lt : (k : ℕ) → shr_64 all_ones k < 2 ^ 64
shr_lt k = omega (arith, div-le_self all_ones (2 ^ k))

pub not-or_low :
    (w k : ℕ)
    → k ≤ 64
    → w < 2 ^ 64
    → not_64 (bit_or w (shr_64 all_ones (64 - k))) ≡ bit_and (not_64 w) (shl_64 all_ones k)
not-or_low w k small h = bits_ext 64 _ _ (omega arith) (and-lt 64 _ _ (omega arith)) λ i p. ground (
  arith,
  test_bit-not_64 (bit_or w (shr_64 all_ones (64 - k))) i (or-lt 64 _ _ h (shr_lt (64 - k))),
  test_bit-or w (shr_64 all_ones (64 - k)) i,
  test_bit-low k i small,
  test_bit-and (not_64 w) (shl_64 all_ones k) i,
  test_bit-not_64 w i h,
  test_bit-high k i,
)
