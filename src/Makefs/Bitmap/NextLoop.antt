-- ===== src/Makefs/Bitmap/NextLoop.antt =====
-- The loop and the part inside a word of `find_next_bit`.
use Prim.Native.Nat.{bit_and}
use gas_filesystem.Base.{
  ℕ, ◌+◌, ◌-◌, ◌*◌, ◌^◌, ◌≤◌, ◌<◌, ◌≡◌, refl, ◌∙◌, inl, inr, false, ◌==◌, arith, Bool-cases, ltb,
  leb, ==→eq, ==→ne, ◌&&◌, ltb→lt, ap, List, [], ◌∷◌, some, length, ltb→le,
}
use gas_filesystem.Base.Bits.{test_bit, test_bit-and, test_bit-zero, same_bit, and-lt}
use gas_filesystem.Makefs.Bitmap.{
  add_64, all_ones, shl_64, align_down, found_middle, found_first, next_bit_loop, next_bit_inside,
}
use gas_filesystem.Makefs.Bitmap.Masks.{align_down_lem, test_bit-high}
use gas_filesystem.Makefs.Bitmap.Search.{
  bit_of, AllWords, NextIn, Finds, found_middle-NextIn, found_first-Finds, NextIn-ext, NextIn-first,
  NextIn-rest,
}

-- What the loop tests: whether a whole word is left.
pub align_down-zero : (size : ℕ) → size < 2 ^ 64 → (align_down size == 0) ≡ ltb size 64
align_down-zero size h = ground (arith, align_down_lem size h)

pub next_bit_loop-Finds :
    (ws : List ℕ) (result size : ℕ)
    → AllWords ws
    → size ≤ 64 * length ws
    → result + size < 2 ^ 63
    → Finds (bit_of ws) 0 size result (next_bit_loop ws result size)
unfolding next_bit_loop
next_bit_loop-Finds [] result size words fits small =
    let e : size ≡ 0 = omega arith in
    rw e (
      0,
      ap some (omega arith),
      record {
        above = omega arith;
        within = omega arith;
        clear = λ i _ h. refl;
        hit = λ h. absurd (omega arith);
      },
    )
next_bit_loop-Finds (w ∷ ws) result size words fits small =
    rw (align_down-zero size (omega arith)) (elim (Bool-cases (ltb size 64)) [
      | inl last ↦ rw last (elim (Bool-cases (size == 0)) [
        | inl done ↦ rw done (
          0,
          ap some (omega arith),
          record {
            above = omega arith;
            within = omega arith;
            clear = λ i _ h. absurd (omega arith);
            hit = λ h. absurd (ground arith);
          },
        )
        | inr more ↦ rw more (
            over_word
              (found_first-Finds w 0 result size words.0 (omega arith) (λ i h. absurd (omega arith))
                (ltb→lt size 64 last))
              (ltb→lt size 64 last))
      ])
      | inr whole ↦ rw whole (elim (Bool-cases (w == 0)) [
        | inl empty ↦ rw empty (
            over_rest (ltb→le size 64 whole) (==→eq w 0 empty) (
              next_bit_loop-Finds ws (add_64 result 64) (size - 64) words.1
                (omega (arith, ltb→le size 64 whole)) (omega (arith, ltb→le size 64 whole))))
        | inr hit ↦ rw hit (
            over_first (ltb→le size 64 whole) (
              found_middle-NextIn w 0 result words.0 (omega arith) (λ i h. absurd (omega arith))
                (==→ne w 0 hit)))
      ])
    ])
  where
    over_word :
        Finds (test_bit w) 0 size result (some (found_first result size w))
        → size < 64
        → Finds (bit_of (w ∷ ws)) 0 size result (some (found_first result size w))
    over_word (r, e, next) lt = (r, e, NextIn-ext _ _ 0 size r (λ i h. ground (arith, lt)) next)

    over_rest :
        64 ≤ size
        → w ≡ 0
        → Finds
            (bit_of ws)
            0
            (size - 64)
            (add_64 result 64)
            (next_bit_loop ws (add_64 result 64) (size - 64))
        → Finds (bit_of (w ∷ ws)) 0 size result (next_bit_loop ws (add_64 result 64) (size - 64))
    over_rest ge zero_word (r, e, next) = (
      64 + r,
      e ∙ ap some (omega (arith, next.within)),
      NextIn-rest w ws 0 size r (λ i _ _. same_bit w 0 i zero_word ∙ test_bit-zero i) (omega arith)
          ge next,
    )

    over_first :
        64 ≤ size
        → (r : ℕ) × (found_middle result w ≡ result + r) × (r < 64) × NextIn (test_bit w) 0 64 r
        → Finds (bit_of (w ∷ ws)) 0 size result (some (found_middle result w))
    over_first ge (r, e, lt, next) = (
      r,
      ap some e,
      NextIn-first w ws 0 (test_bit w) size r (λ i _ _. refl) (omega arith) ge lt next,
    )

next_bit_inside-Finds :
    (w : ℕ) (ws : List ℕ) (result size offset : ℕ)
    → AllWords (w ∷ ws)
    → 0 < offset
    → offset < 64
    → offset < size
    → size ≤ 64 * length (w ∷ ws)
    → result + size < 2 ^ 63
    → Finds (bit_of (w ∷ ws)) offset size result (next_bit_inside (w ∷ ws) result size offset)
unfolding next_bit_inside
next_bit_inside-Finds w ws result size offset words pos lt inside fits small =
    elim (Bool-cases (ltb size 64)) [
      | inl last ↦ rw last (
          over_word (ltb→lt size 64 last) (
            found_first-Finds tmp offset result size tmp_fits (omega arith) low
              (ltb→lt size 64 last)))
      | inr whole ↦ rw whole (elim (Bool-cases (tmp == 0)) [
        | inl empty ↦ rw empty (
            over_rest (ltb→le size 64 whole) (==→eq tmp 0 empty) (
              next_bit_loop-Finds ws (add_64 result 64) (size - 64) words.1
                (omega (arith, ltb→le size 64 whole)) (omega (arith, ltb→le size 64 whole))))
        | inr hit ↦ rw hit (
            over_first (ltb→le size 64 whole)
              (found_middle-NextIn tmp offset result tmp_fits (omega arith) low (==→ne tmp 0 hit)))
      ])
    ]
  where
    tmp : ℕ
    tmp = bit_and w (shl_64 all_ones offset)

    tmp_fits : tmp < 2 ^ 64
    tmp_fits = and-lt 64 w _ words.0

    masked : (i : ℕ) → test_bit tmp i ≡ (test_bit w i && (ltb i 64 && leb offset i))
    masked i = test_bit-and w _ i ∙ ground (arith, test_bit-high offset i)

    low : (i : ℕ) → i < offset → test_bit tmp i ≡ false
    low i h = ground (arith, masked i)

    over_word :
        size < 64
        → Finds (test_bit tmp) offset size result (some (found_first result size tmp))
        → Finds (bit_of (w ∷ ws)) offset size result (some (found_first result size tmp))
    over_word lt' (r, e, next) = (
      r,
      e,
      record {
        above = next.above;
        within = next.within;
        clear = λ i ge h. ground (arith, masked i, next.clear i ge h, next.within, lt');
        hit = λ h. ground (arith, masked r, next.hit h, next.above, lt');
      },
    )

    over_rest :
        64 ≤ size
        → tmp ≡ 0
        → Finds
            (bit_of ws)
            0
            (size - 64)
            (add_64 result 64)
            (next_bit_loop ws (add_64 result 64) (size - 64))
        → Finds
            (bit_of (w ∷ ws))
            offset
            size
            result
            (next_bit_loop ws (add_64 result 64) (size - 64))
    over_rest ge zero_word (r, e, next) = (
      64 + r,
      e ∙ ap some (omega (arith, next.within)),
      NextIn-rest w ws offset size r
          (λ i le h. ground (arith, masked i, same_bit tmp 0 i zero_word, test_bit-zero i)) lt ge
          next,
    )

    over_first :
        64 ≤ size
        → (r : ℕ) × (found_middle result tmp ≡ result + r)
          × (r < 64)
          × NextIn (test_bit tmp) offset 64 r
        → Finds (bit_of (w ∷ ws)) offset size result (some (found_middle result tmp))
    over_first ge (r, e, lt', next) = (
      r,
      ap some e,
      NextIn-first w ws offset (test_bit tmp) size r (λ i le h. masked i ∙ ground arith) lt ge lt'
          next,
    )

pub next_bit_inside_nonempty :
    (p : List ℕ) (result size offset : ℕ)
    → AllWords p
    → 0 < offset
    → offset < 64
    → offset < size
    → size ≤ 64 * length p
    → result + size < 2 ^ 63
    → Finds (bit_of p) offset size result (next_bit_inside p result size offset)
next_bit_inside_nonempty [] result size offset words pos lt inside fits small = absurd (omega arith)
next_bit_inside_nonempty (w ∷ ws) result size offset words pos lt inside fits small =
    next_bit_inside-Finds w ws result size offset words pos lt inside fits small
