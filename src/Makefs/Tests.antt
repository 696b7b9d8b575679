-- ===== src/Makefs/Tests.antt =====
-- Runs of makefs/bitmap.c and makefs/mkfs.c on small inputs.
pub mod Cells
pub mod Disks
use mathlib.Core.Path.{subst}
use gas_filesystem.Base.Bits.{test_bit}
use gas_filesystem.Base.{
  ◌==◌, inl, inr, Bool-cases, ==→eq, ==→ne, sym, ℕ, ◌≡◌, refl, true, false, not, arith, List, [],
  ◌∷◌, some,
}
use gas_filesystem.Makefs.Bitmap.{ffs, find_next_bit, find_next_zero_bit}
use gas_filesystem.Makefs.Bitmap.Ffs.{IsLowest, ffs-IsLowest}
use gas_filesystem.Makefs.Bitmap.Search.{bit_of, AllWords, NextIn}
use gas_filesystem.Makefs.Bitmap.NextBit.{find_next_bit-NextIn}
use gas_filesystem.Makefs.Bitmap.ZeroBit.{find_next_zero_bit-NextIn}
use gas_filesystem.Makefs.Region.{
  bitmap_set, bitmap_clear, bitmap_alloc_region, bitmap_find_next_zero_area, area_at,
  bitmap_free_region,
}
use gas_filesystem.Makefs.Region.Update.{Updated, bitmap_set-Updated, bitmap_clear-Updated}
use gas_filesystem.Makefs.Region.Area.{IsFree}
use gas_filesystem.Makefs.Region.Alloc.{
  Claimed, Outcome, bitmap_alloc_region-Outcome, free_region-alloc_region,
}

-- A map of two words, with the first two bits set
abbrev two_words : List ℕ
two_words = 3 ∷ 0 ∷ []

two_words-AllWords : AllWords two_words
two_words-AllWords = (omega arith, (omega arith, tt))

ffs_40 : ffs 40 ≡ 3
unfolding ffs
ffs_40 = refl

alloc_two : bitmap_alloc_region two_words 100 0 2 ≡ some (2, 15 ∷ 0 ∷ [])
unfolding bitmap_alloc_region bitmap_find_next_zero_area find_next_zero_bit area_at ffs
    find_next_bit bitmap_set
alloc_two = refl

bitmap_alloc_region-Outcome_example :
    Outcome two_words 100 0 2 (bitmap_alloc_region two_words 100 0 2)
bitmap_alloc_region-Outcome_example =
    bitmap_alloc_region-Outcome two_words 100 0 2 two_words-AllWords (omega arith) (omega arith)
      (omega arith)

-- The map with the bits 2 and 3 set
abbrev claimed_words : List ℕ
claimed_words = (bitmap_set-Updated two_words 2 2 (omega arith) two_words-AllWords).0

two_words-IsFree : IsFree two_words 2 2
unfolding test_bit
two_words-IsFree i ge lt = elim (Bool-cases (i == 2)) [
  | inl e ↦ subst (λ j. bit_of two_words j ≡ false) (sym (==→eq i 2 e)) refl
  | inr ne ↦
      let three : 3 ≡ i = omega (arith, ==→ne i 2 ne) in
      subst (λ j. bit_of two_words j ≡ false) three refl
]

two_words-Claimed : Claimed two_words 100 2 2 2 claimed_words
two_words-Claimed = record {
  from = omega arith;
  end = omega arith;
  free = two_words-IsFree;
  first = λ q ge lt le _. absurd (omega arith);
  update = (bitmap_set-Updated two_words 2 2 (omega arith) two_words-AllWords).2;
}

free_region-alloc_region_example : bitmap_free_region claimed_words 2 2 ≡ some two_words
free_region-alloc_region_example =
    free_region-alloc_region two_words 100 2 2 2 claimed_words two_words-AllWords (omega arith)
      two_words-Claimed
