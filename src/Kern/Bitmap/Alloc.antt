-- ===== src/Kern/Bitmap/Alloc.antt =====
-- kern/bitmap.c: the search for a clear bit, and the change of one bit
use native.Mathlib.Nat.{mod-eq_of_lt, mod_self}
use mathlib.Core.Path.{subst}
use gas_filesystem.Base.{
  ℕ, zero, suc, ◌+◌, ◌-◌, ◌*◌, ◌%◌, ◌≤◌, ◌<◌, ◌≡◌, refl, sym, ◌≢◌, ◌⊎◌, inl, inr, Bool, true, false,
  ◌||◌, ◌&&◌, ◌==◌, if◌then◌else◌, arith, Option, none, some, length, get_elem?, set, Bool-cases,
  ap, get_elem?-set_self, get_elem?-set_ne, length-set, ltb, leb, ltb→lt, ltb→le, ==→eq, ==→ne,
  lt_of_get_elem?, get_elem?_of_lt,
}
use gas_filesystem.Kern.Types.{u32}
use gas_filesystem.Kern.BitOps.{BitOps}
use gas_filesystem.Kern.Bitmap.{BufferHead, Bitmap, claim, search, release}

module _ (ops : BitOps) where
  open ops use {test_bit, find_first_zero_bit, set_bit, clear_bit}

  -- Bit `j` of buffer `i`; there is none outside the array.
  abbrev pub bit_in : Bitmap ops → ℕ → ℕ → Option Bool
  bit_in map i j = elim (get_elem? map.bh i) [ none ↦ none | some b ↦ some (test_bit b.b_data j) ]

  -- Exactly bit `j` of buffer `i` of `map` differs in `map'`, and is `v` there.
  pub record Changed (map : Bitmap ops) (i j : ℕ) (v : Bool) (map' : Bitmap ops) : Type 0 where
    pub same_length : length map'.bh ≡ length map.bh
    pub here : bit_in map' i j ≡ some v
    pub bits : (i' j' : ℕ) → (i' == i) && (j' == j) ≡ false → bit_in map' i' j' ≡ bit_in map i' j'

  -- Every bit of a buffer is set.
  abbrev pub IsFull : ℕ → Bitmap ops → ℕ → Type 0
  IsFull bits map i = (j : ℕ) → j < bits → bit_in map i j ≡ some true

  -- Replacing one buffer
  pub set-Changed :
      (map : Bitmap ops) (i j last : ℕ) (v : Bool) (b b' : BufferHead ops)
      → get_elem? map.bh i ≡ some b
      → ((j' : ℕ) → test_bit b'.b_data j' ≡ (if j' == j then v else test_bit b.b_data j'))
      → Changed map i j v (record { bh = set map.bh i b'; last = last })
  set-Changed map i j last v b b' at differ = record {
    same_length = length-set map.bh i b';
    here = ground (arith, own, differ j);
    bits = λ i' j' out. elim (Bool-cases (i' == i)) [
      | inl same ↦
          let e : i' ≡ i = ==→eq i' i same in
          ground
            (arith, own, ap (get_elem? (set map.bh i b')) e, ap (get_elem? map.bh) e, at, differ j')
      | inr apart ↦ ground (arith, get_elem?-set_ne map.bh i i' b' (λ e. ==→ne i' i apart (sym e)))
    ];
  }
    where
      own : get_elem? (set map.bh i b') i ≡ some b'
      own = get_elem?-set_self map.bh i b' (lt_of_get_elem? map.bh i at)

  -- Clearing one bit
  pub release-Changed :
      (map : Bitmap ops) (i j : ℕ) → i < length map.bh → Changed map i j false (release ops map i j)
  unfolding release
  release-Changed map i j lt = over_buffer (get_elem?_of_lt map.bh i lt)
    where
      over_buffer :
          (b : BufferHead ops) × (get_elem? map.bh i ≡ some b)
          → Changed map i j false (release ops map i j)
      over_buffer (b, at) =
          rw (at, release)
            (set-Changed map i j map.last false b _ at λ j'. ops.test-clear j j' b.b_data)

  pub last-release : (map : Bitmap ops) (i j : ℕ) → (release ops map i j).last ≡ map.last
  unfolding release
  last-release map i j = ground arith

  -- The search from the hint: it claims a clear bit, or every bit of every buffer is set.
  pub data Search (bits blocks : ℕ) (map : Bitmap ops) : Option (ℕ × Bitmap ops) → Type 0 where
    hit :
        {map' : Bitmap ops} (i j : ℕ)
        → i < blocks
        → j < bits
        → bit_in map i j ≡ some false
        → Changed map i j true map'
        → map'.last ≡ i
        → Search bits blocks map (some (j + u32 (i * bits), map'))
    full : ((i : ℕ) → i < blocks → IsFull bits map i) → Search bits blocks map none

  -- The buffers that the loop has seen when it comes to `i`, and how many are left
  abbrev seen : (last i j : ℕ) → Bool
  seen last i j = if leb last i then leb last j && ltb j i else leb last j || ltb j i

  abbrev left : (blocks last i : ℕ) → ℕ
  left blocks last i = if leb last i then blocks - i + last else last - i

  next_buffer :
      (blocks i : ℕ) → i < blocks → (i + 1) % blocks ≡ (if i + 1 == blocks then 0 else i + 1)
  next_buffer blocks i h = elim (Bool-cases (i + 1 == blocks)) [
    | inl wrap ↦ rw (wrap, ==→eq _ _ wrap) (mod_self blocks)
    | inr stay ↦ rw stay (mod-eq_of_lt (omega (arith, ==→ne _ _ stay)))
  ]

  module _ (bits blocks : ℕ) (map : Bitmap ops) (whole : length map.bh ≡ blocks)
      (hint : map.last < blocks) where
    buffer-IsFull :
        (i : ℕ) (b : BufferHead ops)
        → get_elem? map.bh i ≡ some b
        → ltb (find_first_zero_bit b.b_data bits) bits ≡ false
        → IsFull bits map i
    buffer-IsFull i b at none_free j lt =
        ground
          (arith, at, ops.first_zero_first b.b_data bits j (omega (arith, ltb→le _ _ none_free)))

    -- The loop comes from `i` to `n`.
    module _ (i n : ℕ) (lt : i < blocks) (step : n ≡ (if i + 1 == blocks then 0 else i + 1))
        (full_here : IsFull bits map i)
        (before : (j : ℕ) → j < blocks → seen map.last i j ≡ true → IsFull bits map j) where
      step_lt : n < blocks
      step_lt = ground arith

      step_left :
          (fuel : ℕ)
          → n ≢ map.last
          → left blocks map.last i ≤ suc fuel
          → left blocks map.last n ≤ fuel
      step_left fuel ne enough = ground arith

      step_seen :
          (j : ℕ) → j < blocks → seen map.last n j ≡ true → (j ≡ i) ⊎ (seen map.last i j ≡ true)
      step_seen j h now = ground arith

      step_back : n ≡ map.last → (j : ℕ) → j < blocks → (j ≡ i) ⊎ (seen map.last i j ≡ true)
      step_back e j h = ground arith

      IsFull-or : (j : ℕ) → j < blocks → (j ≡ i) ⊎ (seen map.last i j ≡ true) → IsFull bits map j
      IsFull-or j h (inl e) = subst (IsFull bits map) (sym e) full_here
      IsFull-or j h (inr old) = before j h old

      step_Search :
          (fuel : ℕ)
          → left blocks map.last i ≤ suc fuel
          → (n < blocks
              → left blocks map.last n ≤ fuel
              → ((j : ℕ) → j < blocks → seen map.last n j ≡ true → IsFull bits map j)
              → Search bits blocks map (search ops fuel bits blocks map n))
          → Search bits blocks map
              (if n == map.last then none else search ops fuel bits blocks map n)
      step_Search fuel enough rest = elim (Bool-cases (n == map.last)) [
        | inl back ↦ rw back (full λ j h. IsFull-or j h (step_back (==→eq _ _ back) j h))
        | inr on ↦ rw on (
            rest step_lt (step_left fuel (==→ne _ _ on) enough)
              λ j h now. IsFull-or j h (step_seen j h now))
      ]

    search-Search :
        (fuel i : ℕ)
        → i < blocks
        → left blocks map.last i ≤ fuel
        → ((j : ℕ) → j < blocks → seen map.last i j ≡ true → IsFull bits map j)
        → Search bits blocks map (search ops fuel bits blocks map i)
    unfolding search claim
    search-Search zero i lt enough before = absurd (ground arith)
    search-Search (suc fuel) i lt enough before =
        at_buffer (get_elem?_of_lt map.bh i (omega arith))
          λ n n_lt n_left n_before. search-Search fuel n n_lt n_left n_before
      where
        at_buffer :
            (b : BufferHead ops) × (get_elem? map.bh i ≡ some b)
            → ((n : ℕ)
                → n < blocks
                → left blocks map.last n ≤ fuel
                → ((j : ℕ) → j < blocks → seen map.last n j ≡ true → IsFull bits map j)
                → Search bits blocks map (search ops fuel bits blocks map n))
            → Search bits blocks map (search ops (suc fuel) bits blocks map i)
        at_buffer (b, at) rest =
            rw (at, search)
              (elim (Bool-cases (ltb (find_first_zero_bit b.b_data bits) bits)) [
                | inl free ↦ rw free (
                    hit i _ lt (ltb→lt _ _ free)
                      (ground (arith, at, ops.first_zero_clear b.b_data bits (ltb→lt _ _ free)))
                      (set-Changed map i _ i true b _ at λ j'. ops.test-set _ j' b.b_data) refl)
                | inr none_free ↦ rw none_free (
                    step_Search i ((i + 1) % blocks) lt (next_buffer blocks i lt)
                      (buffer-IsFull i b at none_free) before fuel enough (rest ((i + 1) % blocks)))
              ])

    pub search-hint : Search bits blocks map (search ops blocks bits blocks map map.last)
    search-hint =
        search-Search blocks map.last hint (ground arith) (λ j h now. absurd (ground arith))
