-- ===== src/Makefs/Region.antt =====
-- makefs/bitmap.c: setting, clearing and allocating regions of a bitmap. As in Makefs.Bitmap a map is
-- the list of its words, and `none` is an access behind the last word. The `int` arguments are
-- natural numbers whose sums are below 2 ^ 31.
pub mod Update
pub mod Area
pub mod Alloc
use Prim.Native.Nat.{bit_and, bit_or}
use mathlib.Core.Option
use gas_filesystem.Base.{
  ℕ, zero, suc, ◌+◌, ◌-◌, ◌*◌, ◌/◌, ◌%◌, ◌^◌, Option, none, some, List, [], ◌∷◌, ◌==◌, leb, ltb,
  true, false, if◌then◌else◌,
}
use gas_filesystem.Makefs.Bitmap.{
  bits_per_long, all_ones, not_64, shl_64, add_64, find_next_bit, find_next_zero_bit,
}

-- `BITMAP_FIRST_WORD_MASK(start)` and `BITMAP_LAST_WORD_MASK(nbits)`
abbrev pub first_word_mask : ℕ → ℕ
first_word_mask start = shl_64 all_ones (start % bits_per_long)

abbrev pub last_word_mask : ℕ → ℕ
last_word_mask nbits =
    if nbits % bits_per_long == 0 then all_ones else shl_64 1 (nbits % bits_per_long) - 1

-- `bitmap_set` and `bitmap_clear` differ in what they write to a word under a mask.
module _ (write : ℕ → ℕ → ℕ) where
  -- The `while` loop and the last, partial word; the list is what `p` points to.
  unfoldable pub region_loop : List ℕ → ℕ → ℕ → ℕ → ℕ → Option (List ℕ)
  region_loop [] size nr bits mask = if leb bits nr then none else if nr == 0 then some [] else none
  region_loop (w ∷ p) size nr bits mask =
      let rest = region_loop p size (nr - bits) bits_per_long all_ones in
      if leb bits nr
      then Option.map (λ p'. write w mask ∷ p') rest
      else if nr == 0
      then some (w ∷ p)
      else some (write w (bit_and mask (last_word_mask size)) ∷ p)

  -- The words before `map + BIT_WORD(start)` stay.
  unfoldable pub region_from : ℕ → List ℕ → ℕ → ℕ → ℕ → ℕ → Option (List ℕ)
  unfolding region_loop
  region_from zero ws size nr bits mask = region_loop ws size nr bits mask
  region_from (suc k) [] size nr bits mask = none
  region_from (suc k) (w ∷ ws) size nr bits mask =
      Option.map (λ ws'. w ∷ ws') (region_from k ws size nr bits mask)

  unfoldable pub update_region : List ℕ → ℕ → ℕ → Option (List ℕ)
  unfolding region_from
  update_region map start nr =
      region_from (start / bits_per_long) map (start + nr) nr
        (bits_per_long - start % bits_per_long) (first_word_mask start)

-- `*p |= mask`
unfoldable pub bitmap_set : List ℕ → ℕ → ℕ → Option (List ℕ)
unfolding update_region
bitmap_set = update_region bit_or

-- `*p &= ~mask`
unfoldable pub bitmap_clear : List ℕ → ℕ → ℕ → Option (List ℕ)
unfolding update_region
bitmap_clear = update_region (λ w mask. bit_and w (not_64 mask))

-- `__ALIGN_MASK(x, mask)`
abbrev pub align_mask_up : ℕ → ℕ → ℕ
align_mask_up x mask = bit_and (add_64 x mask) (not_64 mask)

-- What follows the label `again` once `index` is aligned; `jump` is the `goto again`.
unfoldable pub area_at : (ℕ → Option ℕ) → List ℕ → ℕ → ℕ → ℕ → Option ℕ
area_at jump map size nr index =
    let end = add_64 index nr in
    if ltb size end then some end else elim (find_next_bit map end index) [
      | none ↦ none
      | some i ↦ if ltb i end then jump (i + 1) else some index
    ]

-- The label `again`; `start` grows with each round, so `size + 1` rounds are enough.
unfoldable pub next_zero_area : ℕ → List ℕ → ℕ → ℕ → ℕ → ℕ → Option ℕ
next_zero_area zero map size start nr align_mask = none
next_zero_area (suc fuel) map size start nr align_mask = elim (find_next_zero_bit map size start) [
  | none ↦ none
  | some free ↦
      area_at (λ start'. next_zero_area fuel map size start' nr align_mask) map size nr
        (align_mask_up free align_mask)
]

unfoldable pub bitmap_find_next_zero_area : List ℕ → ℕ → ℕ → ℕ → ℕ → Option ℕ
unfolding next_zero_area
bitmap_find_next_zero_area map size start nr align_mask =
    next_zero_area (size + 1) map size start nr align_mask

-- The position, or 0 when there is no free region, and the map
unfoldable pub bitmap_alloc_region : List ℕ → ℕ → ℕ → ℕ → Option (ℕ × List ℕ)
bitmap_alloc_region bitmap size start nr =
    elim (bitmap_find_next_zero_area bitmap size start nr 0) [
      | none ↦ none
      | some pos ↦
          if ltb size pos
          then some (0, bitmap)
          else Option.map (λ bitmap'. (pos, bitmap')) (bitmap_set bitmap pos nr)
    ]

unfoldable pub bitmap_free_region : List ℕ → ℕ → ℕ → Option (List ℕ)
unfolding bitmap_clear
bitmap_free_region bitmap pos nr = bitmap_clear bitmap pos nr
