-- ===== src/Makefs/Bitmap/ZeroBit.antt =====
-- makefs/bitmap.c: `find_next_zero_bit`, by way of `find_next_bit` on the complemented map
use Prim.Native.Nat.{bit_or}
use gas_filesystem.Base.{
  ℕ, zero, suc, ◌-◌, ◌*◌, ◌/◌, ◌%◌, ◌^◌, ◌≤◌, ◌<◌, ◌≡◌, refl, ◌∙◌, inl, inr, ◌==◌, if◌then◌else◌,
  arith, Bool-cases, ltb, not, ap, List, [], ◌∷◌, Option, some, none, length, ltb→lt, ltb→le,
  Option-cases,
}
use mathlib.Core.Option
use mathlib.Core.Path.{subst}
use gas_filesystem.Base.Bits.{or-lt}
use gas_filesystem.Makefs.Bitmap.{
  add_64, all_ones, not_64, shl_64, shr_64, align_down, advance, found_middle, found_first,
  next_bit_loop, next_bit_inside, find_next_bit, zero_found_middle, zero_found_first,
  next_zero_bit_loop, next_zero_bit_inside, find_next_zero_bit,
}
use gas_filesystem.Makefs.Bitmap.Masks.{shr_lt, not-or_high, not-or_low, test_bit-not_64}
use gas_filesystem.Makefs.Bitmap.Search.{bit_of, AllWords, NextIn, NextIn-ext}
use gas_filesystem.Makefs.Bitmap.NextBit.{find_next_bit-NextIn}
use gas_filesystem.Makefs.Bitmap.NextLoop.{align_down-zero}

-- The complemented map
abbrev flip : List ℕ → List ℕ
flip [] = []
flip (w ∷ ws) = not_64 w ∷ flip ws

length-flip : (ws : List ℕ) → length (flip ws) ≡ length ws
length-flip [] = refl
length-flip (w ∷ ws) = ap suc (length-flip ws)

flip-AllWords : (ws : List ℕ) → AllWords (flip ws)
flip-AllWords [] = tt
flip-AllWords (w ∷ ws) = (omega arith, flip-AllWords ws)

bit_of-flip :
    (ws : List ℕ) (i : ℕ)
    → AllWords ws
    → i < 64 * length ws
    → bit_of (flip ws) i ≡ not (bit_of ws i)
bit_of-flip [] i words h = absurd (omega arith)
bit_of-flip (w ∷ ws) i words h = elim (Bool-cases (ltb i 64)) [
  | inl here ↦ rw here (test_bit-not_64 w i words.0 ∙ rw here)
  | inr later ↦ rw later (bit_of-flip ws (i - 64) words.1 (omega (arith, ltb→le i 64 later)))
]

zero_found_first-flip :
    (result size tmp : ℕ)
    → tmp < 2 ^ 64
    → size ≤ 64
    → zero_found_first result size tmp ≡ found_first result size (not_64 tmp)
unfolding zero_found_first found_first zero_found_middle found_middle
zero_found_first-flip result size tmp h small =
    let tmp' = bit_or tmp (shl_64 all_ones size) in
    let fits : tmp' < 2 ^ 64 = or-lt 64 tmp _ h (omega arith) in
    let same_test : (tmp' == all_ones) ≡ (not_64 tmp' == 0) = ground arith in
    rw (same_test, not-or_high tmp size small h)

next_zero_bit_loop-flip :
    (ws : List ℕ) (result size : ℕ)
    → AllWords ws
    → size < 2 ^ 64
    → next_zero_bit_loop ws result size ≡ next_bit_loop (flip ws) result size
unfolding next_zero_bit_loop next_bit_loop
next_zero_bit_loop-flip [] result size words h = refl
next_zero_bit_loop-flip (w ∷ ws) result size words h = elim (Bool-cases (ltb size 64)) [
  | inl last ↦ rw (
    align_down-zero size h,
    last,
    zero_found_first-flip result size w words.0 (omega (arith, ltb→lt size 64 last)),
  )
  | inr whole ↦
      rw
        (
          align_down-zero size h,
          whole,
          next_zero_bit_loop-flip ws (add_64 result 64) (size - 64) words.1 (omega arith),
        )
        (same_found w)
]
  where
    same_found :
        (w : ℕ)
        → (if not_64 w == 0
            then next_bit_loop (flip ws) (add_64 result 64) (size - 64)
            else some (zero_found_middle result w))
          ≡ (if not_64 w == 0
              then next_bit_loop (flip ws) (add_64 result 64) (size - 64)
              else some (found_middle result (not_64 w)))
    same_found w = refl

next_zero_bit_inside-flip :
    (ws : List ℕ) (result size offset : ℕ)
    → AllWords ws
    → size < 2 ^ 64
    → offset < 64
    → next_zero_bit_inside ws result size offset ≡ next_bit_inside (flip ws) result size offset
unfolding next_zero_bit_inside next_bit_inside zero_found_middle found_middle
next_zero_bit_inside-flip [] result size offset words h lt = refl
next_zero_bit_inside-flip (w ∷ ws) result size offset words h lt = elim (Bool-cases (ltb size 64)) [
  | inl last ↦ rw last (
      ap some (
        zero_found_first-flip result size tmp fits (omega (arith, ltb→lt size 64 last))
        ∙ ap (found_first result size) (not-or_low w offset (omega arith) words.0)))
  | inr whole ↦ rw (
    whole,
    not-or_low w offset (omega arith) words.0,
    next_zero_bit_loop-flip ws (add_64 result 64) (size - 64) words.1 (omega arith),
  )
]
  where
    tmp : ℕ
    tmp = bit_or w (shr_64 all_ones (64 - offset))

    fits : tmp < 2 ^ 64
    fits = or-lt 64 w _ words.0 (shr_lt (64 - offset))

advance-flip : (k : ℕ) (ws : List ℕ) → advance k (flip ws) ≡ Option.map flip (advance k ws)
unfolding advance
advance-flip zero ws = refl
advance-flip (suc k) [] = refl
advance-flip (suc k) (w ∷ ws) = advance-flip k ws

abbrev OnSome : Option (List ℕ) → Type 0
OnSome none = Unit
OnSome (some p) = AllWords p

advance-AllWords : (k : ℕ) (ws p : List ℕ) → AllWords ws → advance k ws ≡ some p → AllWords p
unfolding advance
advance-AllWords zero ws p words e = subst (λ (o : Option (List ℕ)). OnSome o) e words
advance-AllWords (suc k) [] p words e = cc
advance-AllWords (suc k) (w ∷ ws) p words e = advance-AllWords k ws p words.1 e

find_next_zero_bit-flip :
    (ws : List ℕ) (size offset : ℕ)
    → AllWords ws
    → size < 2 ^ 64
    → find_next_zero_bit ws size offset ≡ find_next_bit (flip ws) size offset
unfolding find_next_zero_bit find_next_bit
find_next_zero_bit-flip ws size offset words h = elim (Option-cases (advance (offset / 64) ws)) [
  | inl beyond ↦ rw (advance-flip (offset / 64) ws, beyond)
  | inr (p, e) ↦
      let words' = advance-AllWords (offset / 64) ws p words e in
      rw (
        advance-flip (offset / 64) ws,
        e,
        next_zero_bit_loop-flip p (align_down offset) (size - align_down offset) words'
            (omega arith),
        next_zero_bit_inside-flip p (align_down offset) (size - align_down offset) (offset % 64)
            words' (omega arith) (omega arith),
      )
]

-- On a map of 64-bit words that has `size` bits, with `size` below 2 ^ 63, `find_next_zero_bit`
-- reads no word behind the map and returns the first clear bit from `offset` on, or `size` if there
-- is none below it.
pub find_next_zero_bit-NextIn :
    (ws : List ℕ) (size offset : ℕ)
    → AllWords ws
    → size ≤ 64 * length ws
    → size < 2 ^ 63
    → (r : ℕ) × (find_next_zero_bit ws size offset ≡ some r)
      × NextIn (λ i. not (bit_of ws i)) offset size r
find_next_zero_bit-NextIn ws size offset words fits small =
    let (r, e, next) =
      find_next_bit-NextIn (flip ws) size offset (flip-AllWords ws) (omega (arith, length-flip ws))
        small in
    (
      r,
      find_next_zero_bit-flip ws size offset words (omega arith) ∙ e,
      NextIn-ext (bit_of (flip ws)) _ offset size r (λ i h. bit_of-flip ws i words (omega arith))
          next,
    )
