-- ===== src/Makefs/Bitmap/NextBit.antt =====
-- makefs/bitmap.c: `find_next_bit` on a whole map
use gas_filesystem.Base.{
  ℕ, zero, suc, ◌+◌, ◌-◌, ◌*◌, ◌/◌, ◌%◌, ◌^◌, ◌≤◌, ◌<◌, ◌≡◌, refl, sym, ◌∙◌, ◌≢◌, inl, inr, Bool,
  ◌==◌, if◌then◌else◌, arith, Bool-cases, leb, ==→eq, ==→ne, ap, List, [], ◌∷◌, some, none, length,
  leb→le, leb→lt,
}
use gas_filesystem.Makefs.Bitmap.{
  align_down, advance, next_bit_loop, next_bit_inside, find_next_bit,
}
use gas_filesystem.Makefs.Bitmap.Masks.{align_down_lem}
use gas_filesystem.Makefs.Bitmap.Search.{bit_of, AllWords, NextIn}
use gas_filesystem.Makefs.Bitmap.NextLoop.{next_bit_loop-Finds, next_bit_inside_nonempty}

-- Pointer arithmetic inside the map
pub advance-drop :
    (k : ℕ) (ws : List ℕ)
    → k ≤ length ws
    → AllWords ws
    → (p : List ℕ) × (advance k ws ≡ some p)
      × (length p + k ≡ length ws)
      × AllWords p
      × ((i : ℕ) → bit_of p i ≡ bit_of ws (i + 64 * k))
unfolding advance
advance-drop zero ws h words = (ws, refl, omega arith, words, λ i. ap (bit_of ws) (omega arith))
advance-drop (suc k) [] h words = absurd (omega arith)
advance-drop (suc k) (w ∷ ws) h words =
    let (p, e, len, words', same) = advance-drop k ws (omega arith) words.1 in
    (p, e, omega arith, words', λ i. same i ∙ ground (arith, back i))
  where
    back : (i : ℕ) → bit_of ws (i + 64 * k) ≡ bit_of ws (i + 64 * suc k - 64)
    back i = ap (bit_of ws) (omega arith)

-- A search from `base` on
NextIn-shift :
    (p q : ℕ → Bool) (base lo hi r offset size : ℕ)
    → ((i : ℕ) → p i ≡ q (i + base))
    → lo + base ≡ offset
    → hi + base ≡ size
    → NextIn p lo hi r
    → NextIn q offset size (base + r)
NextIn-shift p q base lo hi r offset size same el eh next = record {
  above = omega (arith, next.above);
  within = omega (arith, next.within);
  clear = λ i ge h. at i (omega arith) ∙ next.clear (i - base) (omega arith) (omega arith);
  hit = λ h. at (base + r) (omega arith) ∙ (ap p (omega arith) ∙ next.hit (omega arith));
}
  where
    at : (i : ℕ) → base ≤ i → q i ≡ p (i - base)
    at i h = sym (same (i - base) ∙ ap q (omega arith))

-- The search proper, for `p` the words from that of `offset` on
module _ (ws p : List ℕ) (size offset : ℕ) (lt : offset < size) (small : size < 2 ^ 63)
    (words : AllWords p) (fits : size ≤ 64 * (length p + offset / 64))
    (same : (i : ℕ) → bit_of p i ≡ bit_of ws (i + 64 * (offset / 64))) where
  base : align_down offset ≡ 64 * (offset / 64)
  base = omega (arith, align_down_lem offset (omega arith))

  same_base : (i : ℕ) → bit_of p i ≡ bit_of ws (i + align_down offset)
  same_base i = rw base (same i)

  from_start :
      offset % 64 ≡ 0
      → (r : ℕ) × (next_bit_loop p (align_down offset) (size - align_down offset) ≡ some r)
        × NextIn (bit_of ws) offset size r
  from_start aligned =
      let (r, e, next) =
        next_bit_loop-Finds p (align_down offset) (size - align_down offset) words
          (omega (arith, base)) (omega (arith, base)) in
      (
        align_down offset + r,
        e,
        NextIn-shift (bit_of p) (bit_of ws) (align_down offset) 0 (size - align_down offset) r
            offset size same_base (omega (arith, base)) (omega (arith, base)) next,
      )

  from_middle :
      offset % 64 ≢ 0
      → (r : ℕ) × (next_bit_inside p (align_down offset) (size - align_down offset) (offset % 64)
          ≡ some r)
        × NextIn (bit_of ws) offset size r
  from_middle ne =
      let (r, e, next) =
        next_bit_inside_nonempty p (align_down offset) (size - align_down offset) (offset % 64)
          words (omega arith) (omega arith) (omega (arith, base)) (omega (arith, base))
          (omega (arith, base)) in
      (
        align_down offset + r,
        e,
        NextIn-shift (bit_of p) (bit_of ws) (align_down offset) (offset % 64)
            (size - align_down offset) r offset size same_base (omega (arith, base))
            (omega (arith, base)) next,
      )

-- On a map of 64-bit words that has `size` bits, with `size` below 2 ^ 63, `find_next_bit` reads no
-- word behind the map and returns the first set bit from `offset` on, or `size` if there is none
-- below it.
pub find_next_bit-NextIn :
    (ws : List ℕ) (size offset : ℕ)
    → AllWords ws
    → size ≤ 64 * length ws
    → size < 2 ^ 63
    → (r : ℕ) × (find_next_bit ws size offset ≡ some r) × NextIn (bit_of ws) offset size r
unfolding find_next_bit
find_next_bit-NextIn ws size offset words fits small = elim (Bool-cases (leb size offset)) [
  | inl past ↦ rw past (
    size,
    refl,
    record {
      above = omega arith;
      within = omega arith;
      clear = λ i ge h. absurd (omega (arith, leb→le size offset past));
      hit = λ h. absurd (omega arith);
    },
  )
  | inr inside ↦ rw inside (
      at_word (leb→lt size offset inside)
        (advance-drop (offset / 64) ws (omega (arith, leb→lt size offset inside)) words))
]
  where
    at_word :
        offset < size
        → (p : List ℕ) × (advance (offset / 64) ws ≡ some p)
          × (length p + offset / 64 ≡ length ws)
          × AllWords p
          × ((i : ℕ) → bit_of p i ≡ bit_of ws (i + 64 * (offset / 64)))
        → (r : ℕ) × ((elim (advance (offset / 64) ws) [
          | none ↦ none
          | some p ↦
              if offset % 64 == 0
              then next_bit_loop p (align_down offset) (size - align_down offset)
              else next_bit_inside p (align_down offset) (size - align_down offset) (offset % 64)
        ])
            ≡ some r)
          × NextIn (bit_of ws) offset size r
    at_word lt (p, e, len, words', same) = rw e (elim (Bool-cases (offset % 64 == 0)) [
      | inl aligned ↦
          rw aligned
            (from_start ws p size offset lt small words' (omega arith) same (==→eq _ 0 aligned))
      | inr middle ↦
          rw middle
            (from_middle ws p size offset lt small words' (omega arith) same (==→ne _ 0 middle))
    ])
