-- ===== src/Kern/Bitmap/Blocks.antt =====
-- kern/bitmap.c: the blocks of a mounted file system, as bits of its bitmap
use native.Mathlib.Nat.{
  add-mul-div_right, add-mul-mod_self_right, div-eq_of_lt, mod-eq_of_lt, div-add-mod,
  div-lt_iff_lt-mul, mod-lt, one-le-pow,
}
use mathlib.Core.Path.{subst, subst₂}
use gas_filesystem.Base.{
  ℕ, ◌+◌, ◌*◌, ◌/◌, ◌%◌, ◌^◌, ◌≤◌, ◌<◌, ◌≡◌, sym, ◌∙◌, ◌≢◌, ◌⊎◌, inl, inr, Bool, true, false, ◌&&◌,
  ◌==◌, arith, Option, none, some, length, Bool-cases, ap, ltb, leb, ltb→lt, ltb→le, leb→le, leb→lt,
}
use gas_filesystem.Base.Bits.{and-mask}
use gas_filesystem.Kern.Types.{GasSbInfo, Errno, enospc, u32}
use gas_filesystem.Kern.BitOps.{BitOps}
use gas_filesystem.Kern.Bitmap.{Bitmap, gas_new_block, release, gas_free_block}
use gas_filesystem.Kern.Bitmap.Alloc.{
  bit_in, Changed, release-Changed, last-release, Search, hit, full, search-hint,
}

module _ (ops : BitOps) where
  -- The bit of block `n`
  abbrev pub block_bit : (bits : ℕ) → Bitmap ops → ℕ → Option Bool
  block_bit bits map n = bit_in ops map (n / bits) (n % bits)

  -- The bitmap of blocks goes with the super block: it has the buffers that the super block says, its
  -- numbers fit a word, and every block outside the data area is marked as used.
  pub record IsValid (blocksize_bits : ℕ) (sbi : GasSbInfo) (map : Bitmap ops) : Type 0 where
    pub bits : sbi.s_bits_per_block ≡ 2 ^ (blocksize_bits + 3)
    pub whole : length map.bh ≡ sbi.s_bam_blocks
    pub hint : map.last < sbi.s_bam_blocks
    pub fits : sbi.s_bam_blocks * sbi.s_bits_per_block ≤ 2 ^ 32
    pub covers : sbi.s_nblocks ≤ sbi.s_bam_blocks * sbi.s_bits_per_block
    pub metadata :
        (n : ℕ) → n < sbi.s_data_block_start → block_bit sbi.s_bits_per_block map n ≡ some true
    pub beyond :
        (n : ℕ)
        → sbi.s_nblocks ≤ n
        → n < sbi.s_bam_blocks * sbi.s_bits_per_block
        → block_bit sbi.s_bits_per_block map n ≡ some true

  -- Exactly the bit of block `n` of `map` differs in `map'`, and is `v` there.
  pub record BlockChanged (bits : ℕ) (map : Bitmap ops) (n : ℕ) (v : Bool) (map' : Bitmap ops)
      : Type 0 where
    pub here : block_bit bits map' n ≡ some v
    pub others : (m : ℕ) → m ≢ n → block_bit bits map' m ≡ block_bit bits map m

-- A number in a range of `blocks` times `bits`
index_lt : (i j bits blocks : ℕ) → i < blocks → j < bits → j + i * bits < blocks * bits
index_lt i j bits blocks hi hj = grind arith

quotient : (i j bits : ℕ) → j < bits → (j + i * bits) / bits ≡ i
quotient i j bits h = omega (arith, add-mul-div_right j i {z = bits} (omega arith), div-eq_of_lt h)

remainder : (i j bits : ℕ) → j < bits → (j + i * bits) % bits ≡ j
remainder i j bits h = add-mul-mod_self_right j i bits ∙ mod-eq_of_lt h

same_index : (m n bits : ℕ) → ((m / bits == n / bits) && (m % bits == n % bits)) ≡ true → m ≡ n
same_index m n bits h =
    let e : m / bits ≡ n / bits = ground arith in
    let r : m % bits ≡ n % bits = ground arith in
    omega (arith, div-add-mod m bits, div-add-mod n bits, ap (λ (t : ℕ). bits * t) e)

module _ (ops : BitOps) (bits : ℕ) (map map' : Bitmap ops) where
  pub Changed-BlockChanged :
      (n : ℕ) (v : Bool)
      → Changed ops map (n / bits) (n % bits) v map'
      → BlockChanged ops bits map n v map'
  Changed-BlockChanged n v c = record {
    here = c.here;
    others = λ m ne. elim (Bool-cases ((m / bits == n / bits) && (m % bits == n % bits))) [
      | inl same ↦ absurd (ne (same_index m n bits same))
      | inr apart ↦ c.bits (m / bits) (m % bits) apart
    ];
  }

module _ (ops : BitOps) (blocksize_bits : ℕ) (sbi : GasSbInfo) (map : Bitmap ops)
    (valid : IsValid ops blocksize_bits sbi map) where
  abbrev bits : ℕ
  bits = sbi.s_bits_per_block

  -- A change in the data area keeps the bitmap valid.
  pub BlockChanged-IsValid :
      (n : ℕ) (v : Bool) (map' : Bitmap ops)
      → sbi.s_data_block_start ≤ n
      → n < sbi.s_nblocks
      → length map'.bh ≡ length map.bh
      → map'.last < sbi.s_bam_blocks
      → BlockChanged ops bits map n v map'
      → IsValid ops blocksize_bits sbi map'
  BlockChanged-IsValid n v map' ge lt len hint c = record {
    bits = valid.bits;
    whole = len ∙ valid.whole;
    hint = hint;
    fits = valid.fits;
    covers = valid.covers;
    metadata = λ m h. c.others m (omega arith) ∙ valid.metadata m h;
    beyond = λ m h k. c.others m (omega arith) ∙ valid.beyond m h k;
  }

  -- What `gas_new_block` returns
  pub data NewBlock : Option Errno × ℕ × Bitmap ops → Type 0 where
    allocated :
        {n : ℕ} {map' : Bitmap ops}
        → sbi.s_data_block_start ≤ n
        → n < sbi.s_nblocks
        → block_bit ops bits map n ≡ some false
        → BlockChanged ops bits map n true map'
        → IsValid ops blocksize_bits sbi map'
        → NewBlock (none, n, map')
    no_space :
        ((n : ℕ) → n < sbi.s_bam_blocks * bits → block_bit ops bits map n ≡ some true)
        → NewBlock (some enospc, 0, map)

  bits_pos : 0 < bits
  bits_pos = omega (arith, valid.bits, one-le-pow (blocksize_bits + 3) 2 (omega arith))

  at_index :
      (i j : ℕ) {map' : Bitmap ops}
      → i < sbi.s_bam_blocks
      → j < bits
      → bit_in ops map i j ≡ some false
      → Changed ops map i j true map'
      → map'.last ≡ i
      → NewBlock (none, j + i * bits, map')
  at_index i j {map'} hi hj free c hint =
      allocated ge lt free_n changed
        (BlockChanged-IsValid _ true map' ge lt c.same_length (omega arith) changed)
    where
      n_div : (j + i * bits) / bits ≡ i
      n_div = quotient i j bits hj

      n_mod : (j + i * bits) % bits ≡ j
      n_mod = remainder i j bits hj

      free_n : block_bit ops bits map (j + i * bits) ≡ some false
      free_n = rw (n_div, n_mod) free

      in_map : j + i * bits < sbi.s_bam_blocks * bits
      in_map = index_lt i j bits sbi.s_bam_blocks hi hj

      ge : sbi.s_data_block_start ≤ j + i * bits
      ge = elim (Bool-cases (ltb (j + i * bits) sbi.s_data_block_start)) [
        | inl low ↦ absurd (cc (free_n, valid.metadata _ (ltb→lt _ _ low)))
        | inr high ↦ ltb→le _ _ high
      ]

      lt : j + i * bits < sbi.s_nblocks
      lt = elim (Bool-cases (leb sbi.s_nblocks (j + i * bits))) [
        | inl beyond ↦ absurd (cc (free_n, valid.beyond _ (leb→le _ _ beyond) in_map))
        | inr inside ↦ leb→lt _ _ inside
      ]

      changed : BlockChanged ops bits map (j + i * bits) true map'
      changed =
          Changed-BlockChanged ops bits map map' _ true
            (subst₂ (λ a b. Changed ops map a b true map') (sym n_div) (sym n_mod) c)

  Search-NewBlock :
      {o : Option (ℕ × Bitmap ops)}
      → Search ops bits sbi.s_bam_blocks map o
      → NewBlock (elim o [ none ↦ (some enospc, 0, map) | some (n, map') ↦ (none, n, map') ])
  Search-NewBlock (hit {map'} i j hi hj free c hint) =
      let same : i * bits ≡ u32 (i * bits) =
        omega (arith, index_lt i j bits sbi.s_bam_blocks hi hj, valid.fits) in
      subst (λ k. NewBlock (none, j + k, map')) same (at_index i j hi hj free c hint)
  Search-NewBlock (full all) =
      no_space
        λ n h. all (n / bits) ((div-lt_iff_lt-mul bits_pos).1 h) (n % bits) (mod-lt n bits_pos)

  -- For any bit operations that do what their documentation says, and a bitmap that is valid for the
  -- super block, `gas_new_block` either returns a block of the data area that was free, marks it,
  -- marks or frees no other block and keeps the bitmap valid, or it reports `ENOSPC`, changes
  -- nothing, and every block is marked.
  pub gas_new_block-NewBlock : NewBlock (gas_new_block ops sbi map)
  unfolding gas_new_block
  gas_new_block-NewBlock =
      Search-NewBlock (search-hint ops bits sbi.s_bam_blocks map valid.whole valid.hint)

  pub freed :
      (n : ℕ)
      → sbi.s_data_block_start ≤ n
      → n < sbi.s_nblocks
      → gas_free_block ops blocksize_bits sbi map n ≡ release ops map (n / bits) (n % bits)
  unfolding gas_free_block
  freed n ge lt = rw (and-mask (blocksize_bits + 3) n, ← valid.bits) (ground (arith, in_maps))
    where
      in_maps : n / bits < sbi.s_bam_blocks
      in_maps = (div-lt_iff_lt-mul bits_pos).1 (omega (arith, valid.covers))

  -- For any bit operations that do what their documentation says, and a bitmap that is valid for the
  -- super block, `gas_free_block` of a block of the data area clears its mark, leaves every other
  -- one alone and keeps the bitmap valid.
  pub gas_free_block-BlockChanged :
      (n : ℕ)
      → sbi.s_data_block_start ≤ n
      → n < sbi.s_nblocks
      → let map' = gas_free_block ops blocksize_bits sbi map n in
        BlockChanged ops bits map n false map' × IsValid ops blocksize_bits sbi map'
  gas_free_block-BlockChanged n ge lt = rw (freed n ge lt) (
    changed,
    BlockChanged-IsValid n false (release ops map (n / bits) (n % bits)) ge lt c.same_length
        (omega (arith, last-release ops map (n / bits) (n % bits), valid.hint)) changed,
  )
    where
      in_array : n / bits < length map.bh
      in_array = omega (
        arith,
        (div-lt_iff_lt-mul {x = n} {y = sbi.s_bam_blocks} bits_pos).1 (omega (arith, valid.covers)),
        valid.whole,
      )

      c : Changed ops map (n / bits) (n % bits) false (release ops map (n / bits) (n % bits))
      c = release-Changed ops map (n / bits) (n % bits) in_array

      changed : BlockChanged ops bits map n false (release ops map (n / bits) (n % bits))
      changed = Changed-BlockChanged ops bits map _ n false c

  -- `gas_free_block` of a block outside the data area changes nothing.
  pub gas_free_block_outside :
      (n : ℕ)
      → (n < sbi.s_data_block_start) ⊎ (sbi.s_nblocks ≤ n)
      → gas_free_block ops blocksize_bits sbi map n ≡ map
  unfolding gas_free_block
  gas_free_block_outside n (inl h) = ground arith
  gas_free_block_outside n (inr h) = ground arith
