-- ===== src/Makefs/Region/Alloc.antt =====
-- makefs/bitmap.c: `bitmap_alloc_region` and `bitmap_free_region`
use gas_filesystem.Base.{
  ℕ, ◌+◌, ◌-◌, ◌*◌, ◌^◌, ◌≤◌, ◌<◌, ◌≡◌, refl, ◌∙◌, true, if◌then◌else◌, arith, ltb, ap, le→ltb,
  lt→ltb, List, [], ◌∷◌, Option, some, length,
}
use mathlib.Core.Option
use mathlib.Core.Path.{ap₂, subst}
use gas_filesystem.Base.Bits.{bits_ext}
use gas_filesystem.Makefs.Bitmap.Search.{bit_of, AllWords}
use gas_filesystem.Makefs.Region.{
  bitmap_find_next_zero_area, bitmap_alloc_region, bitmap_free_region, bitmap_set,
}
use gas_filesystem.Makefs.Region.Update.{Updated, bitmap_set-Updated, bitmap_clear-Updated}
use gas_filesystem.Makefs.Region.Area.{Area, found, missing, IsFree, NoneFree, next_zero_area-Area}

-- A map is determined by its bits.
map_ext :
    (ws vs : List ℕ)
    → length vs ≡ length ws
    → AllWords ws
    → AllWords vs
    → ((i : ℕ) → i < 64 * length ws → bit_of vs i ≡ bit_of ws i)
    → vs ≡ ws
map_ext [] [] len hw hv same = refl
map_ext [] (v ∷ vs) len hw hv same = absurd (omega arith)
map_ext (w ∷ ws) [] len hw hv same = absurd (omega arith)
map_ext (w ∷ ws) (v ∷ vs) len hw hv same =
    ap₂ ◌∷◌ (bits_ext 64 v w hv.0 hw.0 (λ i h. ground (arith, same i (omega arith))))
      (map_ext ws vs (omega arith) hw.1 hv.1 λ i h. later i (same (i + 64) (omega arith)))
  where
    later :
        (i : ℕ) → bit_of (v ∷ vs) (i + 64) ≡ bit_of (w ∷ ws) (i + 64) → bit_of vs i ≡ bit_of ws i
    later i e =
        let back : i + 64 - 64 ≡ i = omega arith in
        subst (λ j. bit_of vs j ≡ bit_of ws j) back (ground arith)

-- The first free region of `nr` bits was claimed.
pub record Claimed (ws : List ℕ) (size start nr r : ℕ) (ws' : List ℕ) : Type 0 where
  pub from : start ≤ r
  pub end : r + nr ≤ size
  pub free : IsFree ws r nr
  pub first : NoneFree ws size nr start r
  pub update : Updated (λ _. true) ws r nr ws'

-- What `bitmap_alloc_region` did: it claimed the first free region, or there is none.
pub data Outcome (ws : List ℕ) (size start nr : ℕ) : Option (ℕ × List ℕ) → Type 0 where
  claimed :
      {r : ℕ} {ws' : List ℕ}
      → Claimed ws size start nr r ws'
      → Outcome ws size start nr (some (r, ws'))
  full : NoneFree ws size nr start (size + 1) → Outcome ws size start nr (some (0, ws))

module _ (ws : List ℕ) (size start nr : ℕ) (words : AllWords ws) (fits : size ≤ 64 * length ws)
    (small : size + nr < 2 ^ 63) (pos : 0 < nr) where
  Area-Outcome :
      (r : ℕ)
      → Area ws size start nr r
      → Outcome ws size start nr
          (if ltb size r then some (0, ws) else Option.map (λ ws'. (r, ws')) (bitmap_set ws r nr))
  Area-Outcome r (found ge end free first) =
      let (ws', e, v) = bitmap_set-Updated ws r nr (omega arith) words in
      rw (le→ltb size r (omega arith), e)
        (claimed (record { from = ge; end = end; free = free; first = first; update = v }))
  Area-Outcome r (missing lt absent) = rw (lt→ltb size r lt) (full absent)

  -- On a map of 64-bit words that has `size` bits, with `size + nr` below 2 ^ 63 and `nr` positive,
  -- `bitmap_alloc_region` returns: either it claims the first free region of `nr` bits that starts
  -- at or after `start` and ends by `size`, setting its bits and no others, or there is no such
  -- region, and then it returns 0 and the map as it was.
  pub bitmap_alloc_region-Outcome : Outcome ws size start nr (bitmap_alloc_region ws size start nr)
  unfolding bitmap_alloc_region bitmap_find_next_zero_area
  bitmap_alloc_region-Outcome =
      let (r, e, area) =
        next_zero_area-Area ws size nr words fits small pos (size + 1) start (omega arith) in
      rw (e, bitmap_alloc_region) (Area-Outcome r area)

-- On a map of 64-bit words that has `size` bits, if a map is the result of claiming a free region in
-- another, `bitmap_free_region` of that region gives the other map back.
pub free_region-alloc_region :
    (ws : List ℕ) (size start nr r : ℕ) (ws' : List ℕ)
    → AllWords ws
    → size ≤ 64 * length ws
    → Claimed ws size start nr r ws'
    → bitmap_free_region ws' r nr ≡ some ws
unfolding bitmap_free_region
free_region-alloc_region ws size start nr r ws' words fits c =
    let v = c.update in
    let (ws'', e, u) =
      bitmap_clear-Updated ws' r nr (omega (arith, v.same_length, c.end)) v.words in
    e
    ∙ ap some (
        map_ext ws ws'' (u.same_length ∙ v.same_length) words u.words
          λ i h. ground (arith, u.bits i (omega (arith, v.same_length)), v.bits i h, c.free i))
