-- ===== src/Makefs/Format/Alloc.antt =====
-- makefs/mkfs.c: `allocate_inode` and `allocate_blk` on the maps of a new file system
use mathlib.Core.Path.{subst}
use gas_filesystem.Base.{
  ℕ, zero, suc, ◌+◌, ◌*◌, ◌^◌, ◌≤◌, ◌<◌, ◌≡◌, refl, ap, arith, Option, none, some, List, Bool, true,
  false, if◌then◌else◌, ◌==◌, ◌&&◌, length, ltb, leb, ne→==,
}
use gas_filesystem.Kern.Types.{bits_per_block, u32}
use gas_filesystem.Makefs.Bitmap.Search.{bit_of, AllWords}
use gas_filesystem.Makefs.Region.{bitmap_alloc_region}
use gas_filesystem.Makefs.Region.Update.{Updated}
use gas_filesystem.Makefs.Region.Alloc.{
  Claimed, Outcome, claimed, full, bitmap_alloc_region-Outcome,
}
use gas_filesystem.Makefs.Layout.{FilesysParam, bam_block_start, iam_block_start}
use gas_filesystem.Makefs.Disk.{Buffers, Image}
use gas_filesystem.Makefs.Init.Maps.{bit}
use gas_filesystem.Makefs.Disk.Holds.{
  Holds, read-Holds, weaken-Holds, put, nothing, edit, edit-Holds,
}
use gas_filesystem.Makefs.Format.{Run, done, allocate_loop, allocate_blk, allocate_inode}

module _ (ws : List ℕ) (size start nr s : ℕ) (free_end : s + nr ≤ size) (from : start ≤ s)
    (pos : 0 < nr) (used : (i : ℕ) → start ≤ i → i < s → bit_of ws i ≡ true)
    (free : (i : ℕ) → s ≤ i → i < s + nr → bit_of ws i ≡ false) where
  only_here : (r : ℕ) (ws' : List ℕ) → Claimed ws size start nr r ws' → r ≡ s
  only_here r ws' c = ground (arith, c.from, at_most, at_least)
    where
      at_most : s < r → ⊥
      at_most lt = c.first s from lt free_end free

      at_least : r < s → ⊥
      at_least lt = cc (c.free r (omega arith) (omega arith), used r c.from lt)

  claimed_here :
      (o : Option (ℕ × List ℕ))
      → Outcome ws size start nr o
      → (ws' : List ℕ) × (o ≡ some (s, ws')) × Updated (λ _. true) ws s nr ws'
  claimed_here _ (claimed {r} {ws'} c) =
      let at = only_here r ws' c in
      (
        ws',
        ap (λ (k : ℕ). some (k, ws')) at,
        subst (λ (k : ℕ). Updated (λ _. true) ws k nr ws') at c.update,
      )
  claimed_here _ (full none_free) = absurd (none_free s from (omega arith) free_end free)

  -- If the bits from `start` to `s` are set and the `nr` bits from `s` on are clear, `bitmap_alloc_region`
  -- claims these.
  claim_at :
      AllWords ws
      → size ≤ 64 * length ws
      → size + nr < 2 ^ 63
      → (ws' : List ℕ) × (bitmap_alloc_region ws size start nr ≡ some (s, ws'))
        × Updated (λ _. true) ws s nr ws'
  claim_at words fits small =
      claimed_here _ (bitmap_alloc_region-Outcome ws size start nr words fits small pos)

module _ (buffers : Buffers) where
  open buffers use {Data, words, put_words}

  -- A run that ends in a value and an image that the program sees as `v`, with nothing pending
  pub record Ends {A : Type 0} (r : Run buffers A) (cached dirty : ℕ → Bool) (a : A) (v : ℕ → Data)
      : Type 0 where
    pub image : Image buffers
    pub ends : r ≡ done a image
    pub holds : Holds buffers (nothing buffers) cached dirty v image

  -- The map of a block after the bits from `s` to `s + nr` were claimed
  pub record IsMarked (s nr : ℕ) (d d' : Data) : Type 0 where
    pub bits :
        (i : ℕ)
        → i < bits_per_block
        → bit buffers d' i ≡ (if leb s i && ltb i (s + nr) then true else bit buffers d i)

  module _ (d : Data) (start nr s : ℕ) (end : s + nr ≤ bits_per_block) (from : start ≤ s)
      (pos : 0 < nr) (used : (i : ℕ) → start ≤ i → i < s → bit buffers d i ≡ true)
      (free : (i : ℕ) → s ≤ i → i < s + nr → bit buffers d i ≡ false) where
    claim_block :
        (ws : List ℕ) × (bitmap_alloc_region (words d) bits_per_block start nr ≡ some (s, ws))
        × IsMarked s nr d (put_words d ws)
    claim_block =
        let fits = buffers.words_length d in
        let (ws, e, u) =
          claim_at (words d) bits_per_block start nr s end from pos used free (buffers.words_fit d)
            (omega arith) (omega arith) in
        let back = buffers.words-put_words d ws (omega (arith, u.same_length)) u.words in
        (ws, e, record { bits = λ i lt. rw back (u.bits i (omega arith)) })

  module _ (gas : FilesysParam) (cached dirty : ℕ → Bool) (v : ℕ → Data) (im : Image buffers)
      (holds : Holds buffers (nothing buffers) cached dirty v im) where
    -- The state after an edit, with less known of the cache
    edited :
        (b : ℕ) (f : Data → Data)
        → b < 2 ^ 19
        → Holds buffers (nothing buffers) cached dirty (put b (f (v b)) v) (edit buffers b f im)
    edited b f near =
        weaken-Holds buffers _ _ _ _ _ (edit-Holds buffers cached dirty v im holds b f near)
          (nothing buffers) cached dirty (λ x is. is) (λ x is. rw is refl) (λ x is. rw is refl)

    -- If bit 1 of the map of inodes is clear, `allocate_inode` claims inode 1.
    pub allocate_inode-Ends :
        iam_block_start gas < 2 ^ 19
        → bit buffers (v (iam_block_start gas)) 1 ≡ false
        → (d : Data) × IsMarked 1 1 (v (iam_block_start gas)) d
          × Ends (allocate_inode buffers gas im) cached dirty 1 (put (iam_block_start gas) d v)
    unfolding allocate_inode
    allocate_inode-Ends near free =
        let b = iam_block_start gas in
        let (ws, e, marked) =
          claim_block (v b) 1 1 1 (omega arith) (omega arith) (omega arith)
            (λ i ge lt. absurd (omega arith))
            (λ i ge lt. let at : i ≡ 1 = omega arith in rw at free) in
        let value = (read-Holds buffers _ cached dirty v im holds b near).0 in
        (
          put_words (v b) ws,
          marked,
          record {
            image = edit buffers b (λ d. put_words d ws) im;
            ends = rw (value, e, allocate_inode) refl;
            holds = edited b (λ d. put_words d ws) near;
          },
        )

    -- If in the first map of blocks the bits below `s` are set and the `nr` bits from `s` on are clear,
    -- `allocate_blk` claims these.
    pub allocate_blk-Ends :
        (nr s : ℕ)
        → s + nr ≤ bits_per_block
        → 0 < nr
        → 0 < s
        → 0 < gas.bam_blk
        → ((i : ℕ) → i < s → bit buffers (v bam_block_start) i ≡ true)
        → ((i : ℕ) → s ≤ i → i < s + nr → bit buffers (v bam_block_start) i ≡ false)
        → (d : Data) × IsMarked s nr (v bam_block_start) d
          × Ends (allocate_blk buffers gas nr im) cached dirty s (put bam_block_start d v)
    unfolding allocate_blk
    allocate_blk-Ends nr s end pos at_s blocks used free =
        let b = bam_block_start in
        let (ws, e, marked) =
          claim_block (v b) 0 nr s end (omega arith) pos (λ i ge lt. used i lt) free in
        (
          put_words (v b) ws,
          marked,
          record {
            image = edit buffers b (λ d. put_words d ws) im;
            ends = from_count gas.bam_blk blocks ws e;
            holds = edited b (λ d. put_words d ws) (omega arith);
          },
        )
      where
        from_count :
            (n : ℕ)
            → 0 < n
            → (ws : List ℕ)
            → bitmap_alloc_region (words (v bam_block_start)) bits_per_block 0 nr ≡ some (s, ws)
            → allocate_loop buffers nr n 0 none im
              ≡ done s (edit buffers bam_block_start (λ d. put_words d ws) im)
        from_count zero lt ws e = absurd (omega arith)
        from_count (suc n) lt ws e =
            let value =
              (read-Holds buffers _ cached dirty v im holds bam_block_start (omega arith)).0 in
            let nonzero : (s == 0) ≡ false = ne→== s 0 (omega arith) in
            let same : u32 (s + 0 * bits_per_block) ≡ s = omega arith in
            rw (allocate_loop, value, e, nonzero, same) refl
