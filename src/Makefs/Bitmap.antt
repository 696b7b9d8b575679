-- ===== src/Makefs/Bitmap.antt =====
-- makefs/bitmap.c and makefs/bitmap.h: bitmaps of 64-bit words.
-- A map is the list of its words, and a pointer into it is the list of the words from there on. A
-- read or a write behind the last word is `none`.
pub mod Ffs
pub mod Masks
pub mod Search
pub mod NextLoop
pub mod NextBit
pub mod ZeroBit
use Prim.Native.Nat.{bit_and, bit_or}
use gas_filesystem.Base.{
  ℕ, zero, suc, ◌+◌, ◌-◌, ◌*◌, ◌/◌, ◌%◌, ◌^◌, Option, none, some, List, [], ◌∷◌, ◌==◌, leb, ltb,
  Bool, if◌then◌else◌, not,
}

-- `BITS_PER_LONG`
abbrev pub bits_per_long : ℕ
bits_per_long = 64

-- `~0UL`
abbrev pub all_ones : ℕ
all_ones = 2 ^ 64 - 1

-- `~x`
abbrev pub not_64 : ℕ → ℕ
not_64 x = all_ones - x

-- `x << k`, `x >> k` and `a + b` of `uint64_t`
abbrev pub shl_64 : ℕ → ℕ → ℕ
shl_64 x k = (x * 2 ^ k) % 2 ^ 64

abbrev pub shr_64 : ℕ → ℕ → ℕ
shr_64 x k = x / 2 ^ k

abbrev pub add_64 : ℕ → ℕ → ℕ
add_64 a b = (a + b) % 2 ^ 64

-- `map + k`, `none` beyond one past the end
unfoldable pub advance : ℕ → List ℕ → Option (List ℕ)
advance zero ws = some ws
advance (suc k) [] = none
advance (suc k) (w ∷ ws) = advance k ws

-- One stage of `__ffs`: skip `k` clear bits.
unfoldable pub ffs_stage : ℕ → ℕ × ℕ → ℕ × ℕ
ffs_stage k (word, num) =
    if bit_and word (2 ^ k - 1) == 0 then (shr_64 word k, num + k) else (word, num)

unfoldable pub ffs : ℕ → ℕ
unfolding ffs_stage
ffs word =
    let (word', num) =
      ffs_stage 2 (ffs_stage 4 (ffs_stage 8 (ffs_stage 16 (ffs_stage 32 (word, 0))))) in
    if bit_and word' 0x1 == 0 then num + 1 else num

-- `offset & ~(BITS_PER_LONG - 1)`
abbrev pub align_down : ℕ → ℕ
align_down offset = bit_and offset (not_64 (bits_per_long - 1))

-- The labels `found_middle` and `found_first` of `find_next_bit`
unfoldable pub found_middle : ℕ → ℕ → ℕ
found_middle result tmp = add_64 result (ffs tmp)

unfoldable pub found_first : ℕ → ℕ → ℕ → ℕ
unfolding found_middle
found_first result size tmp =
    let tmp' = bit_and tmp (shr_64 all_ones (bits_per_long - size)) in
    if tmp' == 0 then add_64 result size else found_middle result tmp'

-- The `while` loop of `find_next_bit` and what follows it; the list is what `p` points to.
unfoldable pub next_bit_loop : List ℕ → ℕ → ℕ → Option ℕ
unfolding found_middle found_first
next_bit_loop [] result size =
    if align_down size == 0 then (if size == 0 then some result else none) else none
next_bit_loop (tmp ∷ p) result size =
    let rest = next_bit_loop p (add_64 result bits_per_long) (size - bits_per_long) in
    if align_down size == 0
    then (if size == 0 then some result else some (found_first result size tmp))
    else if tmp == 0
    then rest
    else some (found_middle result tmp)

-- The part of `find_next_bit` under `if (offset)`, for `offset` in the middle of a word
unfoldable pub next_bit_inside : List ℕ → ℕ → ℕ → ℕ → Option ℕ
unfolding found_middle found_first next_bit_loop
next_bit_inside [] result size offset = none
next_bit_inside (w ∷ p) result size offset =
    let tmp = bit_and w (shl_64 all_ones offset) in
    if ltb size bits_per_long
    then some (found_first result size tmp)
    else if tmp == 0
    then next_bit_loop p (add_64 result bits_per_long) (size - bits_per_long)
    else some (found_middle result tmp)

unfoldable pub find_next_bit : List ℕ → ℕ → ℕ → Option ℕ
unfolding advance next_bit_inside next_bit_loop
find_next_bit addr size offset =
    if leb size offset then some size else elim (advance (offset / bits_per_long) addr) [
      | none ↦ none
      | some p ↦
          let result = align_down offset in
          if offset % bits_per_long == 0
          then next_bit_loop p result (size - result)
          else next_bit_inside p result (size - result) (offset % bits_per_long)
    ]

-- The labels of `find_next_zero_bit`; `ffz x` is `__ffs(~x)`.
unfoldable pub zero_found_middle : ℕ → ℕ → ℕ
zero_found_middle result tmp = add_64 result (ffs (not_64 tmp))

unfoldable pub zero_found_first : ℕ → ℕ → ℕ → ℕ
unfolding zero_found_middle
zero_found_first result size tmp =
    let tmp' = bit_or tmp (shl_64 all_ones size) in
    if tmp' == all_ones then add_64 result size else zero_found_middle result tmp'

unfoldable pub next_zero_bit_loop : List ℕ → ℕ → ℕ → Option ℕ
unfolding zero_found_middle zero_found_first
next_zero_bit_loop [] result size =
    if align_down size == 0 then (if size == 0 then some result else none) else none
next_zero_bit_loop (tmp ∷ p) result size =
    let rest = next_zero_bit_loop p (add_64 result bits_per_long) (size - bits_per_long) in
    if align_down size == 0
    then (if size == 0 then some result else some (zero_found_first result size tmp))
    else if not_64 tmp == 0
    then rest
    else some (zero_found_middle result tmp)

unfoldable pub next_zero_bit_inside : List ℕ → ℕ → ℕ → ℕ → Option ℕ
unfolding zero_found_middle zero_found_first next_zero_bit_loop
next_zero_bit_inside [] result size offset = none
next_zero_bit_inside (w ∷ p) result size offset =
    let tmp = bit_or w (shr_64 all_ones (bits_per_long - offset)) in
    if ltb size bits_per_long
    then some (zero_found_first result size tmp)
    else if not_64 tmp == 0
    then next_zero_bit_loop p (add_64 result bits_per_long) (size - bits_per_long)
    else some (zero_found_middle result tmp)

unfoldable pub find_next_zero_bit : List ℕ → ℕ → ℕ → Option ℕ
unfolding advance next_zero_bit_inside next_zero_bit_loop
find_next_zero_bit addr size offset =
    if leb size offset then some size else elim (advance (offset / bits_per_long) addr) [
      | none ↦ none
      | some p ↦
          let result = align_down offset in
          if offset % bits_per_long == 0
          then next_zero_bit_loop p result (size - result)
          else next_zero_bit_inside p result (size - result) (offset % bits_per_long)
    ]
