-- ===== src/Makefs/Region/Area.antt =====
-- makefs/bitmap.c: the search of `bitmap_find_next_zero_area`
use Prim.Native.Nat.{min}
use gas_filesystem.Base.{
  ℕ, zero, suc, ◌+◌, ◌-◌, ◌*◌, ◌%◌, ◌^◌, ◌≤◌, ◌<◌, ◌≡◌, refl, inl, inr, true, false, if◌then◌else◌,
  arith, Bool-cases, ltb, not, List, Option, some, none, length, ltb→lt, ltb→le,
}
use gas_filesystem.Base.Bits.{and-mask}
use gas_filesystem.Makefs.Bitmap.{add_64, find_next_bit, find_next_zero_bit}
use gas_filesystem.Makefs.Bitmap.Search.{bit_of, AllWords, NextIn}
use gas_filesystem.Makefs.Bitmap.NextBit.{find_next_bit-NextIn}
use gas_filesystem.Makefs.Bitmap.ZeroBit.{find_next_zero_bit-NextIn}
use gas_filesystem.Makefs.Region.{align_mask_up, area_at, next_zero_area}

-- The `nr` bits from `q` on are clear.
abbrev pub IsFree : List ℕ → ℕ → ℕ → Type 0
IsFree ws q nr = (i : ℕ) → q ≤ i → i < q + nr → bit_of ws i ≡ false

-- No region of `nr` bits that starts in `lo` to `hi` and ends by `size` is free.
abbrev pub NoneFree : List ℕ → ℕ → ℕ → ℕ → ℕ → Type 0
NoneFree ws size nr lo hi = (q : ℕ) → lo ≤ q → q < hi → q + nr ≤ size → ¬ IsFree ws q nr

-- The answer of the search: the first free region, or a number above `size` if there is none.
pub data Area (ws : List ℕ) (size start nr r : ℕ) : Type 0 where
  found :
      start ≤ r
      → r + nr ≤ size
      → IsFree ws r nr
      → NoneFree ws size nr start r
      → Area ws size start nr r
  missing : size < r → NoneFree ws size nr start (size + 1) → Area ws size start nr r

align_zero : (x : ℕ) → x < 2 ^ 64 → align_mask_up x 0 ≡ x
align_zero x h = omega (arith, and-mask 64 ((x + 0) % 2 ^ 64))

module _ (ws : List ℕ) (size nr : ℕ) (words : AllWords ws) (fits : size ≤ 64 * length ws)
    (small : size + nr < 2 ^ 63) (pos : 0 < nr) where
  -- A clear bit is not found before `free`, so no free region starts there.
  NoneFree-before :
      (start free : ℕ)
      → NextIn (λ i. not (bit_of ws i)) start size free
      → NoneFree ws size nr start free
  NoneFree-before start free next q ge lt le free_at =
      cc (next.clear q ge lt, free_at q (omega arith) (omega arith))

  -- A set bit at `i` rules out the regions that contain it.
  NoneFree-past :
      (start free i : ℕ)
      → NoneFree ws size nr start free
      → i < free + nr
      → bit_of ws i ≡ true
      → NoneFree ws size nr start (i + 1)
  NoneFree-past start free i before lt set q ge le le' free_at = elim (Bool-cases (ltb q free)) [
    | inl early ↦ before q ge (ltb→lt q free early) le' free_at
    | inr late ↦ cc (free_at i (omega arith) (omega (arith, ltb→le q free late)), set)
  ]

  Area-later :
      (start later r : ℕ)
      → start ≤ later
      → NoneFree ws size nr start later
      → Area ws size later nr r
      → Area ws size start nr r
  Area-later start later r le before (found ge end free first) =
      found (omega arith) end free λ q h lt e. elim (Bool-cases (ltb q later)) [
        | inl early ↦ before q h (ltb→lt q later early) e
        | inr late ↦ first q (ltb→le q later late) lt e
      ]
  Area-later start later r le before (missing lt absent) = missing lt λ q h le' e.
      elim (Bool-cases (ltb q later)) [
        | inl early ↦ before q h (ltb→lt q later early) e
        | inr late ↦ absent q (ltb→le q later late) le' e
      ]

  -- The end of the whole area that was free
  Area-found :
      (start free i : ℕ)
      → min start size ≤ free
      → free + nr ≤ size
      → NoneFree ws size nr start free
      → i ≡ free + nr
      → NextIn (bit_of ws) free (free + nr) i
      → Area ws size start nr free
  Area-found start free i above end before e next =
      found (omega arith) end (λ j ge lt. next.clear j ge (omega arith)) before

  Area-missing :
      (start free : ℕ)
      → size < free + nr
      → NoneFree ws size nr start free
      → Area ws size start nr (free + nr)
  Area-missing start free lt before = missing lt λ q ge le e. elim (Bool-cases (ltb q free)) [
    | inl early ↦ before q ge (ltb→lt q free early) e
    | inr late ↦ absurd (omega (arith, ltb→le q free late))
  ]

  area_at-Area :
      (jump : ℕ → Option ℕ) (start free : ℕ)
      → NextIn (λ i. not (bit_of ws i)) start size free
      → ((later : ℕ)
          → start < later
          → later ≤ size
          → (r : ℕ) × (jump later ≡ some r) × Area ws size later nr r)
      → (r : ℕ) × (area_at jump ws size nr free ≡ some r) × Area ws size start nr r
  unfolding area_at
  area_at-Area jump start free next again = rw end (elim (Bool-cases (ltb size (free + nr))) [
    | inl over ↦ rw over (free + nr, refl, Area-missing start free (ltb→lt _ _ over) before)
    | inr fit ↦ rw fit (
        over_bits (ltb→le _ _ fit) (
          find_next_bit-NextIn ws (free + nr) free words (omega (arith, ltb→le _ _ fit))
            (omega arith)))
  ])
    where
      before : NoneFree ws size nr start free
      before = NoneFree-before start free next

      end : (free + nr) % 2 ^ 64 ≡ free + nr
      end = omega (arith, next.within)

      over_bits :
          free + nr ≤ size
          → (i : ℕ) × (find_next_bit ws (free + nr) free ≡ some i)
            × NextIn (bit_of ws) free (free + nr) i
          → (r : ℕ) × ((elim (find_next_bit ws (free + nr) free) [
            | none ↦ none
            | some i ↦ if ltb i (add_64 free nr) then jump (i + 1) else some free
          ])
              ≡ some r)
            × Area ws size start nr r
      over_bits fit (i, e, next') = rw e (
          rw end (elim (Bool-cases (ltb i (free + nr))) [
            | inl taken ↦ rw taken (
                resume (ltb→lt _ _ taken) (
                  again (i + 1) (omega (arith, next'.above, next.above))
                    (omega (arith, ltb→lt _ _ taken))))
            | inr clear ↦ rw clear (
              free,
              refl,
              Area-found start free i next.above fit before
                  (omega (arith, next'.within, ltb→le _ _ clear)) next',
            )
          ]))
        where
          resume :
              i < free + nr
              → (r : ℕ) × (jump (i + 1) ≡ some r) × Area ws size (i + 1) nr r
              → (r : ℕ) × (jump (i + 1) ≡ some r) × Area ws size start nr r
          resume past (r, e', area) = (
            r,
            e',
            Area-later start (i + 1) r (omega (arith, next'.above, next.above))
                (NoneFree-past start free i before past (next'.hit past)) area,
          )

  pub next_zero_area-Area :
      (fuel start : ℕ)
      → size - start < fuel
      → (r : ℕ) × (next_zero_area fuel ws size start nr 0 ≡ some r) × Area ws size start nr r
  unfolding next_zero_area
  next_zero_area-Area zero start enough = absurd (omega arith)
  next_zero_area-Area (suc fuel) start enough =
      from_free (find_next_zero_bit-NextIn ws size start words fits (omega arith))
        λ later gt le. next_zero_area-Area fuel later (omega arith)
    where
      from_free :
          (free : ℕ) × (find_next_zero_bit ws size start ≡ some free)
            × NextIn (λ i. not (bit_of ws i)) start size free
          → ((later : ℕ)
              → start < later
              → later ≤ size
              → (r : ℕ) × (next_zero_area fuel ws size later nr 0 ≡ some r)
                × Area ws size later nr r)
          → (r : ℕ) × (next_zero_area (suc fuel) ws size start nr 0 ≡ some r)
            × Area ws size start nr r
      from_free (free, e, next) again =
          let (r, e', area) =
            area_at-Area (λ start'. next_zero_area fuel ws size start' nr 0) start free next
              again in
          (r, rw (e, next_zero_area) (rw (align_zero free (omega (arith, next.within))) e'), area)
