-- ===== src/Makefs/Init/Maps.antt =====
-- makefs/mkfs.c: the bits of the maps that `init_block_alloc_map` and `init_inode_alloc_map` write
use mathlib.Core.Option
use gas_filesystem.Base.{
  ℕ, zero, suc, ◌+◌, ◌-◌, ◌*◌, ◌^◌, ◌≤◌, ◌<◌, ◌≡◌, refl, ◌∙◌, inl, inr, arith, some, ◌==◌, ◌&&◌,
  ◌||◌, ltb, leb, Bool, true, false, if◌then◌else◌, Bool-cases, ==→eq, ltb→lt, ltb→le,
}
use gas_filesystem.Kern.Types.{bits_per_block}
use gas_filesystem.Makefs.Bitmap.Search.{bit_of}
use gas_filesystem.Makefs.Region.{bitmap_set}
use gas_filesystem.Makefs.Region.Update.{bitmap_set-Updated}
use gas_filesystem.Makefs.Disk.{Buffers, Image, write_block}
use gas_filesystem.Makefs.Init.{map_block, map_loop}

module _ (buffers : Buffers) where
  open buffers use {Data, zeros, ones, words, put_words}

  -- Bit `i` of a block of a map
  abbrev pub bit : Data → ℕ → Bool
  bit d i = bit_of (words d) i

  -- `bitmap_set` on a block
  pub set_bits :
      (d : Data) (start nr : ℕ)
      → start + nr ≤ bits_per_block
      → (d' : Data) × (Option.map (λ ws. put_words d ws) (bitmap_set (words d) start nr) ≡ some d')
        × ((i : ℕ) → i < bits_per_block → bit d' i ≡ (leb start i && ltb i (start + nr) || bit d i))
  set_bits d start nr fits =
      let (ws, e, v) =
        bitmap_set-Updated (words d) start nr (omega (arith, fits, buffers.words_length d))
          (buffers.words_fit d) in
      let back =
        buffers.words-put_words d ws (omega (arith, v.same_length, buffers.words_length d))
          v.words in
      (
        put_words d ws,
        rw e refl,
        λ i lt. rw back (
            v.bits i (omega (arith, lt, buffers.words_length d))
            ∙ split (leb start i && ltb i (start + nr)) (bit d i)),
      )
    where
      split : (t b : Bool) → (if t then true else b) ≡ (t || b)
      split true b = refl
      split false b = refl

  front_block :
      (pre : ℕ)
      → (d : Data) × ((if ltb bits_per_block pre
            then some ones
            else if pre == 0
            then some zeros
            else Option.map (λ ws. put_words zeros ws) (bitmap_set (words zeros) 0 pre))
          ≡ some d)
        × ((i : ℕ) → i < bits_per_block → bit d i ≡ ltb i pre)
  front_block pre = elim (Bool-cases (ltb bits_per_block pre)) [
    | inl full ↦
        (ones, rw full refl, λ i lt. buffers.words-ones i lt ∙ ground (arith, ltb→lt _ _ full))
    | inr part ↦ elim (Bool-cases (pre == 0)) [
      | inl empty ↦ (
        zeros,
        rw (part, empty) refl,
        λ i lt. buffers.words-zeros i ∙ ground (arith, ==→eq pre 0 empty),
      )
      | inr some_left ↦
          let (d, e, bits) = set_bits zeros 0 pre (omega (arith, ltb→le _ _ part)) in
          (d, rw (part, some_left) e, λ i lt. bits i lt ∙ ground (arith, buffers.words-zeros i))
    ]
  ]

  pub map_block_lem :
      (last : Bool) (total cnt pre : ℕ)
      → (last ≡ true → cnt ≤ total * bits_per_block)
      → (last ≡ true → total * bits_per_block < cnt + bits_per_block)
      → (d : Data) × (map_block buffers last total cnt pre ≡ some d)
        × ((i : ℕ)
            → i < bits_per_block
            → bit d i
              ≡ (ltb i pre || (last && leb (cnt + bits_per_block) (i + total * bits_per_block))))
  unfolding map_block
  map_block_lem false total cnt pre within near =
      let (d, e, bits) = front_block pre in (d, e, λ i lt. bits i lt ∙ ground arith)
  map_block_lem true total cnt pre within near =
      let (d, e, bits) = front_block pre in
      let rest = total * bits_per_block - cnt in
      elim (Bool-cases (cnt == total * bits_per_block)) [
        | inl whole ↦ (d, rw whole e, λ i lt. bits i lt ∙ ground (arith, ==→eq cnt _ whole))
        | inr part ↦
            let (d', e', bits') =
              set_bits d (bits_per_block - rest) rest (omega (arith, within refl, near refl)) in
            (
              d',
              rw (part, e, map_block) e',
              λ i lt. bits' i lt ∙ ground (arith, bits i lt, within refl, near refl),
            )
      ]

  -- The number of a bit of a map of `total` blocks, of which block `k` starts at `block`
  pub map_loop_lem :
      (left total cnt block pre : ℕ) (im : Image buffers)
      → cnt ≤ total * bits_per_block
      → total * bits_per_block < cnt + bits_per_block
      → left ≤ total
      → block + left ≤ 2 ^ 19
      → (im' : Image buffers) × (map_loop buffers left total cnt block pre im ≡ some im')
        × (im'.cache ≡ im.cache)
        × ((b : ℕ) → (ltb b block || leb (block + left) b) ≡ true → im'.disk b ≡ im.disk b)
        × ((k i : ℕ)
            → k < left
            → i < bits_per_block
            → bit (im'.disk (block + k)) i ≡ (
                ltb (k * bits_per_block + i) pre
                || leb cnt ((total - left + k) * bits_per_block + i)))
  unfolding map_loop write_block
  map_loop_lem zero total cnt block pre im within near le low =
      (im, refl, refl, λ b out. refl, λ k i lt. absurd (omega arith))
  map_loop_lem (suc left) total cnt block pre im within near le low =
      let at_place = buffers.place_lem block (omega arith) in
      let (d, e, bits) = map_block_lem (left == 0) total cnt pre (λ _. within) (λ _. near) in
      let (im', e', cache, out, later) =
        map_loop_lem left total cnt (block + 1) (pre - bits_per_block)
          (write_block buffers block d im) within near (omega arith) (omega arith) in
      (
        im',
        rw (e, map_loop) e',
        cache,
        λ b is. out b (ground arith) ∙ ground (arith, at_place),
        by_index im' d (out block (ground arith) ∙ ground (arith, at_place)) bits later,
      )
    where
      by_index :
          (im' : Image buffers) (d : Data)
          → im'.disk block ≡ d
          → ((i : ℕ)
              → i < bits_per_block
              → bit d i ≡ (
                  ltb i pre
                  || ((left == 0) && leb (cnt + bits_per_block) (i + total * bits_per_block))))
          → ((k i : ℕ)
              → k < left
              → i < bits_per_block
              → bit (im'.disk (block + 1 + k)) i ≡ (
                  ltb (k * bits_per_block + i) (pre - bits_per_block)
                  || leb cnt ((total - left + k) * bits_per_block + i)))
          → (k i : ℕ) → k < suc left
          → i < bits_per_block
          → bit (im'.disk (block + k)) i ≡ (
              ltb (k * bits_per_block + i) pre
              || leb cnt ((total - suc left + k) * bits_per_block + i))
      by_index im' d here bits later zero i lt lti =
          let at : block + 0 ≡ block = omega arith in rw (at, here) (bits i lti ∙ ground arith)
      by_index im' d here bits later (suc k) i lt lti =
          let at : block + suc k ≡ block + 1 + k = omega arith in
          rw at (later k i (omega arith) lti ∙ ground arith)
