-- ===== src/Makefs/Region/Update.antt =====
-- makefs/bitmap.c: `bitmap_set` and `bitmap_clear`, bit by bit
use Prim.Native.Nat.{bit_and, bit_or}
use mathlib.Core.Path.{subst}
use native.Mathlib.Nat.{one-le-pow, pow-le-pow_right}
use gas_filesystem.Base.{
  ℕ, zero, suc, ◌+◌, ◌-◌, ◌*◌, ◌/◌, ◌%◌, ◌^◌, ◌≤◌, ◌<◌, ◌≡◌, refl, ◌∙◌, inl, inr, Bool, true, false,
  ◌==◌, if◌then◌else◌, arith, Bool-cases, ltb, leb, ◌&&◌, List, [], ◌∷◌, some, length, leb→le,
  ltb→lt, ltb→le,
}
use gas_filesystem.Base.Bits.{
  test_bit, test_bit-and, test_bit-or, test_bit-not, test_bit-zero, and-lt, or-lt, same_bit,
}
use gas_filesystem.Makefs.Bitmap.{all_ones, not_64, shl_64}
use gas_filesystem.Makefs.Bitmap.Masks.{test_bit-high, test_bit-not_64, test_bit-all_ones}
use gas_filesystem.Makefs.Bitmap.Search.{bit_of, AllWords}
use gas_filesystem.Makefs.Region.{
  last_word_mask, region_loop, region_from, update_region, bitmap_set, bitmap_clear,
}

-- Bit `i` lies in the region of `nr` bits from `start` on.
abbrev pub in_region : ℕ → ℕ → ℕ → Bool
in_region start nr i = leb start i && ltb i (start + nr)

pow_fits : (k : ℕ) → k ≤ 63 → shl_64 1 k ≡ 2 ^ k
pow_fits k h = omega (arith, pow-le-pow_right {n = 2} (omega arith) h)

-- `BITMAP_LAST_WORD_MASK(n)` has the bits below `n % 64`, or all.
test_bit-last :
    (n i : ℕ)
    → i < 64
    → test_bit (last_word_mask n) i ≡ (if n % 64 == 0 then true else ltb i (n % 64))
test_bit-last n i h = elim (Bool-cases (n % 64 == 0)) [
  | inl whole ↦ rw whole (test_bit-all_ones i ∙ ground arith)
  | inr part ↦ rw part (
      same_bit (shl_64 1 (n % 64) - 1) (2 ^ (n % 64) - 1 - 0) i
        (omega (arith, pow_fits (n % 64) (omega arith)))
      ∙ (test_bit-not (n % 64) 0 i (one-le-pow (n % 64) 2 (omega arith))
          ∙ ground (arith, test_bit-zero i)))
]

-- A map after its bits in a region became those of `new`
pub record Updated (new : Bool → Bool) (ws : List ℕ) (start nr : ℕ) (ws' : List ℕ) : Type 0 where
  pub same_length : length ws' ≡ length ws
  pub words : AllWords ws'
  pub bits :
      (i : ℕ)
      → i < 64 * length ws
      → bit_of ws' i ≡ (if in_region start nr i then new (bit_of ws i) else bit_of ws i)

module _ (write : ℕ → ℕ → ℕ) (new : Bool → Bool)
    (write_fits : (w m : ℕ) → w < 2 ^ 64 → m < 2 ^ 64 → write w m < 2 ^ 64)
    (write_bits : (w m i : ℕ)
      → w < 2 ^ 64
      → m < 2 ^ 64
      → i < 64
      → test_bit (write w m) i ≡ (if test_bit m i then new (test_bit w i) else test_bit w i)) where
  region_loop-Updated :
      (ws : List ℕ) (o nr size : ℕ)
      → o < 64
      → size % 64 ≡ (o + nr) % 64
      → o + nr ≤ 64 * length ws
      → AllWords ws
      → (ws' : List ℕ) × (region_loop write ws size nr (64 - o) (shl_64 all_ones o) ≡ some ws')
        × Updated new ws o nr ws'
  unfolding region_loop
  region_loop-Updated [] o nr size lt e fits words = (
    [],
    ground arith,
    record { same_length = refl; words = tt; bits = λ i h. absurd (omega arith) },
  )
  region_loop-Updated (w ∷ ws) o nr size lt e fits words = elim (Bool-cases (leb (64 - o) nr)) [
    | inl whole ↦
        let le : 64 - o ≤ nr = leb→le _ nr whole in
        let (ws', e', v) =
          region_loop-Updated ws 0 (nr - (64 - o)) size (omega arith) (omega arith) (omega arith)
            words.1 in
        (
          write w mask ∷ ws',
          rw (whole, e'),
          record {
            same_length = omega (arith, v.same_length);
            words = (write_fits w mask words.0 (omega arith), v.words);
            bits = λ i h. elim (Bool-cases (ltb i 64)) [
              | inl here ↦ rw here (
                  write_bits w mask i words.0 (omega arith) (ltb→lt i 64 here)
                  ∙ ground (arith, test_bit-high o i))
              | inr later ↦
                  rw later (v.bits (i - 64) (omega (arith, ltb→le i 64 later)) ∙ ground arith)
            ];
          },
        )
    | inr part ↦ rw part (elim (Bool-cases (nr == 0)) [
      | inl none_left ↦ (
        w ∷ ws,
        rw none_left,
        record { same_length = refl; words = words; bits = λ i h. ground arith },
      )
      | inr some_left ↦
          let m = bit_and mask (last_word_mask size) in
          let m_fits : m < 2 ^ 64 = and-lt 64 mask _ (omega arith) in
          (
            write w m ∷ ws,
            rw some_left,
            record {
              same_length = refl;
              words = (write_fits w m words.0 m_fits, words.1);
              bits = λ i h. elim (Bool-cases (ltb i 64)) [
                | inl here ↦ rw here (
                    write_bits w m i words.0 m_fits (ltb→lt i 64 here)
                    ∙ ground (
                      arith,
                      test_bit-and mask (last_word_mask size) i,
                      test_bit-high o i,
                      test_bit-last size i (ltb→lt i 64 here),
                    ))
                | inr later ↦ rw later (ground arith)
              ];
            },
          )
    ])
  ]
    where
      mask : ℕ
      mask = shl_64 all_ones o

  region_from-Updated :
      (k : ℕ) (ws : List ℕ) (o nr size : ℕ)
      → o < 64
      → size % 64 ≡ (o + nr) % 64
      → 64 * k + o + nr ≤ 64 * length ws
      → AllWords ws
      → (ws' : List ℕ) × (region_from write k ws size nr (64 - o) (shl_64 all_ones o) ≡ some ws')
        × Updated new ws (64 * k + o) nr ws'
  unfolding region_from
  region_from-Updated zero ws o nr size lt e fits words =
      let (ws', e', v) = region_loop-Updated ws o nr size lt e (omega arith) words in
      let base : o ≡ 64 * 0 + o = omega arith in
      (ws', e', subst (λ s. Updated new ws s nr ws') base v)
  region_from-Updated (suc k) [] o nr size lt e fits words = absurd (omega arith)
  region_from-Updated (suc k) (w ∷ ws) o nr size lt e fits words =
      let (ws', e', v) = region_from-Updated k ws o nr size lt e (omega arith) words.1 in
      (
        w ∷ ws',
        rw e',
        record {
          same_length = omega (arith, v.same_length);
          words = (words.0, v.words);
          bits = λ i h. ground (arith, v.bits (i - 64));
        },
      )

  pub update_region-Updated :
      (ws : List ℕ) (start nr : ℕ)
      → start + nr ≤ 64 * length ws
      → AllWords ws
      → (ws' : List ℕ) × (update_region write ws start nr ≡ some ws') × Updated new ws start nr ws'
  unfolding update_region
  update_region-Updated ws start nr fits words =
      let (ws', e, v) =
        region_from-Updated (start / 64) ws (start % 64) nr (start + nr) (omega arith) (omega arith)
          (omega arith) words in
      let base : 64 * (start / 64) + start % 64 ≡ start = omega arith in
      (ws', e, subst (λ s. Updated new ws s nr ws') base v)

-- On a map of 64-bit words, `bitmap_set` of a region inside the map writes no word behind it, sets
-- the bits of the region and leaves the others alone.
pub bitmap_set-Updated :
    (ws : List ℕ) (start nr : ℕ)
    → start + nr ≤ 64 * length ws
    → AllWords ws
    → (ws' : List ℕ) × (bitmap_set ws start nr ≡ some ws') × Updated (λ _. true) ws start nr ws'
unfolding bitmap_set
bitmap_set-Updated =
    update_region-Updated bit_or (λ _. true) (λ w m hw hm. or-lt 64 w m hw hm)
      λ w m i hw hm h. test_bit-or w m i ∙ ground arith

-- On a map of 64-bit words, `bitmap_clear` of a region inside the map writes no word behind it,
-- clears the bits of the region and leaves the others alone.
pub bitmap_clear-Updated :
    (ws : List ℕ) (start nr : ℕ)
    → start + nr ≤ 64 * length ws
    → AllWords ws
    → (ws' : List ℕ) × (bitmap_clear ws start nr ≡ some ws') × Updated (λ _. false) ws start nr ws'
unfolding bitmap_clear
bitmap_clear-Updated =
    update_region-Updated (λ w m. bit_and w (not_64 m)) (λ _. false) (λ w m hw hm. and-lt 64 w _ hw)
      λ w m i hw hm h. test_bit-and w (not_64 m) i ∙ ground (arith, test_bit-not_64 m i hm)
