-- ===== src/Makefs/Bitmap/Search.antt =====
-- `find_next_bit` against its description by single bits.
use Prim.Native.Nat.{bit_and, min}
use gas_filesystem.Base.{
  ℕ, ◌+◌, ◌-◌, ◌^◌, ◌≤◌, ◌<◌, ◌≡◌, sym, ◌∙◌, ◌≢◌, inl, inr, Bool, true, false, ◌==◌, if◌then◌else◌,
  arith, Bool-cases, ltb, ==→eq, ==→ne, ◌&&◌, ltb→lt, ap, List, [], ◌∷◌, Option, some, ltb→le,
}
use gas_filesystem.Base.Bits.{test_bit, test_bit-and, test_bit-zero, same_bit, and-lt}
use gas_filesystem.Makefs.Bitmap.{all_ones, shr_64, ffs, found_middle, found_first}
use gas_filesystem.Makefs.Bitmap.Ffs.{IsLowest, ffs-IsLowest}
use gas_filesystem.Makefs.Bitmap.Masks.{test_bit-low}

-- Bit `i` of a map
abbrev pub bit_of : List ℕ → ℕ → Bool
bit_of [] i = false
bit_of (w ∷ ws) i = if ltb i 64 then test_bit w i else bit_of ws (i - 64)

-- Every word of the map is a `uint64_t`.
abbrev pub AllWords : List ℕ → Type 0
AllWords [] = Unit
AllWords (w ∷ ws) = (w < 2 ^ 64) × AllWords ws

-- `r` is the first index from `lo` on, and below `hi`, at which `p` holds, or `hi` if there is none.
pub record NextIn (p : ℕ → Bool) (lo hi r : ℕ) : Type 0 where
  pub above : min lo hi ≤ r
  pub within : r ≤ hi
  pub clear : (i : ℕ) → lo ≤ i → i < r → p i ≡ false
  pub hit : r < hi → p r ≡ true

-- Words: `tmp` has no bit below `lo`.
module _ (tmp lo result : ℕ) (fits : tmp < 2 ^ 64) (small : result < 2 ^ 63)
    (low : (i : ℕ) → i < lo → test_bit tmp i ≡ false) where
  pub found_middle-NextIn :
      tmp ≢ 0
      → (r : ℕ) × (found_middle result tmp ≡ result + r) × (r < 64) × NextIn (test_bit tmp) lo 64 r
  unfolding found_middle
  found_middle-NextIn ne = (
    ffs tmp,
    omega (arith, lowest.small),
    lowest.small,
    record {
      above = omega (arith, not_low);
      within = omega (arith, lowest.small);
      clear = λ i _ h. lowest.below i h;
      hit = λ _. lowest.hit;
    },
  )
    where
      lowest : IsLowest tmp (ffs tmp)
      lowest = ffs-IsLowest tmp fits ne

      not_low : lo ≤ ffs tmp
      not_low = elim (Bool-cases (ltb (ffs tmp) lo)) [
        | inl lt ↦ absurd (cc (low (ffs tmp) (ltb→lt _ lo lt), lowest.hit))
        | inr ge ↦ ltb→le _ lo ge
      ]

-- The answer of one of the two labels, or of the loop, over the bits `p` from `lo` to `size`
abbrev pub Finds : (ℕ → Bool) → ℕ → ℕ → ℕ → Option ℕ → Type 0
Finds p lo size result o = (r : ℕ) × (o ≡ some (result + r)) × NextIn p lo size r

pub found_first-Finds :
    (tmp lo result size : ℕ)
    → tmp < 2 ^ 64
    → result < 2 ^ 63
    → ((i : ℕ) → i < lo → test_bit tmp i ≡ false)
    → size < 64
    → Finds (test_bit tmp) lo size result (some (found_first result size tmp))
unfolding found_first
found_first-Finds tmp lo result size fits small low lt = elim (Bool-cases (tmp' == 0)) [
  | inl none_set ↦ rw none_set (
    size,
    ap some (omega arith),
    record {
      above = omega arith;
      within = omega arith;
      clear = λ i _ h.
          ground (arith, masked i, same_bit tmp' 0 i (==→eq _ 0 none_set), test_bit-zero i);
      hit = λ h. absurd (omega arith);
    },
  )
  | inr one_set ↦ rw one_set (
      narrow (
        found_middle-NextIn tmp' lo result (and-lt 64 tmp _ fits) small
          (λ i h. ground (arith, masked i, low i h)) (==→ne _ 0 one_set)))
]
  where
    tmp' : ℕ
    tmp' = bit_and tmp (shr_64 all_ones (64 - size))

    masked : (i : ℕ) → test_bit tmp' i ≡ (test_bit tmp i && ltb i size)
    masked i = test_bit-and tmp _ i ∙ ground (arith, test_bit-low size i (omega arith))

    narrow :
        (r : ℕ) × (found_middle result tmp' ≡ result + r)
          × (r < 64)
          × NextIn (test_bit tmp') lo 64 r
        → Finds (test_bit tmp) lo size result (some (found_middle result tmp'))
    narrow (r, e, lt64, next) =
        let below : (test_bit tmp r ≡ true) × (r < size) =
          ground (arith, masked r, next.hit lt64) in
        (
          r,
          ap some e,
          record {
            above = omega (arith, next.above, below.1);
            within = omega (arith, below.1);
            clear = λ i ge h. ground (arith, masked i, next.clear i ge h);
            hit = λ _. below.0;
          },
        )

-- Agreement of the bits carries a search over.
pub NextIn-ext :
    (p q : ℕ → Bool) (lo hi r : ℕ)
    → ((i : ℕ) → i < hi → p i ≡ q i)
    → NextIn p lo hi r
    → NextIn q lo hi r
NextIn-ext p q lo hi r same next = record {
  above = next.above;
  within = next.within;
  clear = λ i ge h. sym (same i (omega (arith, next.within))) ∙ next.clear i ge h;
  hit = λ h. sym (same r h) ∙ next.hit h;
}

module _ (w : ℕ) (ws : List ℕ) (lo : ℕ) where
  -- A hit in the first word
  pub NextIn-first :
      (p : ℕ → Bool) (size r : ℕ)
      → ((i : ℕ) → lo ≤ i → i < 64 → p i ≡ test_bit w i)
      → lo < 64
      → 64 ≤ size
      → r < 64
      → NextIn p lo 64 r
      → NextIn (bit_of (w ∷ ws)) lo size r
  NextIn-first p size r same lo_lt ge lt next = record {
    above = omega (arith, next.above);
    within = omega arith;
    clear = λ i le h. ground (arith, same i le, next.clear i le h);
    hit = λ _. ground (arith, same r (omega (arith, next.above)), next.hit lt);
  }

  -- Nothing in the first word
  pub NextIn-rest :
      (size r : ℕ)
      → ((i : ℕ) → lo ≤ i → i < 64 → test_bit w i ≡ false)
      → lo < 64
      → 64 ≤ size
      → NextIn (bit_of ws) 0 (size - 64) r
      → NextIn (bit_of (w ∷ ws)) lo size (64 + r)
  NextIn-rest size r none_set lo_lt ge next = record {
    above = omega arith;
    within = omega (arith, next.within);
    clear = λ i le h. ground (arith, none_set i le, next.clear (i - 64));
    hit = λ h. ground (arith, ap (bit_of ws) (cancel r), next.hit);
  }
    where
      cancel : (r : ℕ) → 64 + r - 64 ≡ r
      cancel r = omega arith
