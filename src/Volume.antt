-- ===== src/Volume.antt =====
-- makefs/mkfs.c and kern/gas_super.c: the bitmaps that the module reads from the disk that mkfs wrote
pub mod Root
pub mod Tests
use mathlib.Core.Path.{subst}
use native.Mathlib.Nat.{div-add-mod, div-lt_iff_lt-mul, mod-lt}
use gas_filesystem.Base.{
  ℕ, ◌+◌, ◌-◌, ◌*◌, ◌/◌, ◌%◌, ◌^◌, ◌≤◌, ◌<◌, ◌≡◌, ◌≢◌, refl, sym, ◌∙◌, ap, arith, Option, none,
  some, List, [], length, get_elem?, Bool, true, false, ltb, leb, ◌||◌,
}
use gas_filesystem.Kern.Types.{
  GasSuperBlock, GasSbInfo, bits_per_block, gas_block_size, super_block_no,
}
use gas_filesystem.Kern.BitOps.{BitOps}
use gas_filesystem.Kern.Bitmap.{BufferHead, Bitmap}
use gas_filesystem.Kern.Bitmap.Alloc.{bit_in}
use gas_filesystem.Kern.Bitmap.Blocks.{block_bit, IsValid}
use gas_filesystem.Kern.Ialloc.Alloc.{inode_numbers}
use gas_filesystem.Kern.Super.{Device, Mounted, mounted, gas_super_block_fill, gas_fill_super}
use gas_filesystem.Kern.Super.Mount.{
  SameLayout, gas_super_block_fill-configure, MountedFrom, BlocksFrom, gas_fill_super-MountedFrom,
}
use gas_filesystem.Kern.Super.Formatted.{IsWorking, gas_fill_super-configure}
use gas_filesystem.Makefs.Bitmap.Search.{bit_of}
use gas_filesystem.Makefs.Layout.{
  configure, init_super_block, bam_block_start, iam_block_start, FilesysParam,
}
use gas_filesystem.Makefs.Disk.{Buffers, Image}
use gas_filesystem.Makefs.Init.Maps.{bit}
use gas_filesystem.Makefs.Init.Prepared.{configure-IsSized}
use gas_filesystem.Makefs.Format.{Host, done, main}
use gas_filesystem.Makefs.Format.Whole.{IsFormatted, main-IsFormatted}

-- The 64-bit words of mkfs and the bit operations of the kernel see the same bits of a block.
pub record SameBits (buffers : Buffers) (ops : BitOps) : Type 0 where
  pub decode : buffers.Data → ops.Data
  pub same :
      (d : buffers.Data) (i : ℕ) → i < bits_per_block → ops.test_bit (decode d) i ≡ bit buffers d i

module _ (buffers : Buffers) (ops : BitOps) (bits : SameBits buffers ops) where
  -- The device reads what is on the disk.
  pub record IsDisk (disk : ℕ → buffers.Data) (dev : Device (BufferHead ops)) : Type 0 where
    pub bread :
        (b : ℕ) → dev.bread b ≡ some (record { b_data = bits.decode (disk b); b_dirty = false })
    pub bread_super :
        dev.bread_super super_block_no ≡ some (buffers.super_block (disk super_block_no))

  -- Bit `n` of a bitmap that was read from block `start` on
  block_bit-disk :
      (disk : ℕ → buffers.Data) (dev : Device (BufferHead ops)) (start blocks last : ℕ)
      (bh : List (BufferHead ops)) (n : ℕ)
      → IsDisk disk dev
      → BlocksFrom dev start blocks bh
      → n < blocks * bits_per_block
      → block_bit ops bits_per_block (record { bh = bh; last = last }) n
        ≡ some (bit buffers (disk (start + n / bits_per_block)) (n % bits_per_block))
  block_bit-disk disk dev start blocks last bh n is from lt =
      let here : get_elem? bh (n / bits_per_block)
          ≡ some (record {
            b_data = bits.decode (disk (start + n / bits_per_block));
            b_dirty = false;
          }) =
        from.1 (n / bits_per_block) (omega arith) ∙ is.bread (start + n / bits_per_block) in
      rw (bit_in, here)
        (ap (λ (b : Bool). some b)
          (bits.same (disk (start + n / bits_per_block)) (n % bits_per_block) (omega arith)))

  module _ (disk : ℕ → buffers.Data) (dev : Device (BufferHead ops)) (is : IsDisk disk dev)
      (start used count : ℕ) (sbi : GasSbInfo) (map : Bitmap ops)
      (from : BlocksFrom dev start sbi.s_bam_blocks map.bh)
      (written : (k i : ℕ)
        → k < sbi.s_bam_blocks
        → i < bits_per_block
        → bit buffers (disk (start + k)) i
          ≡ (ltb (k * bits_per_block + i) used || leb count (k * bits_per_block + i))) where
    map_bits :
        (n : ℕ)
        → n < sbi.s_bam_blocks * bits_per_block
        → block_bit ops bits_per_block map n ≡ some (ltb n used || leb count n)
    map_bits n lt =
        block_bit-disk disk dev start sbi.s_bam_blocks map.last map.bh n is from lt
        ∙ ap (λ (b : Bool). some b)
            (written (n / bits_per_block) (n % bits_per_block) (omega arith) (omega arith)
              ∙ ground arith)

    map_bits-IsValid :
        sbi.s_bits_per_block ≡ bits_per_block
        → sbi.s_bam_blocks ≢ 0
        → map.last ≡ 0
        → sbi.s_bam_blocks * bits_per_block ≤ 2 ^ 32
        → count ≤ sbi.s_bam_blocks * bits_per_block
        → sbi.s_nblocks ≡ count
        → sbi.s_data_block_start ≤ used
        → used ≤ count
        → IsValid ops 12 sbi map
    map_bits-IsValid size some_block hint fits covers nblocks start_le le = record {
      bits = size;
      whole = from.0;
      hint = omega arith;
      fits = rw size fits;
      covers = rw size (omega arith);
      metadata =
          λ n lt. rw size (map_bits n (omega arith) ∙ ap (λ (b : Bool). some b) (ground arith));
      beyond = λ n ge lt.
          let lt' : n < sbi.s_bam_blocks * bits_per_block = (rw size at lt) in
          rw size (map_bits n lt' ∙ ap (λ (b : Bool). some b) (ground arith));
    }

-- The module's numbers for a disk of fewer than 2 ^ 32 blocks
same_counts :
    (size : ℕ)
    → size / gas_block_size < 2 ^ 32
    → let gas = configure size in
      let sbi = gas_super_block_fill (init_super_block gas) in
      (sbi.s_bam_blocks ≡ gas.bam_blk)
      × (sbi.s_iam_blocks ≡ gas.iam_blk)
      × (sbi.s_ninodes ≡ gas.ino_cnt)
unfolding configure init_super_block gas_super_block_fill
same_counts size small = (omega arith, omega arith, omega arith)

-- What `main` computes for a disk of at most 2 ^ 31 bytes
small_counts :
    (size : ℕ)
    → 2 ^ 20 ≤ size
    → size < 2 ^ 31
    → let gas = configure size in
      (gas.bam_blk * bits_per_block ≤ 2 ^ 32)
      × (gas.iam_blk * bits_per_block ≤ 2 ^ 32)
      × (gas.data_st + 5 ≤ gas.blk_cnt)
      × (2 ≤ gas.ino_cnt)
unfolding configure
small_counts size big small = (omega arith, omega arith, omega arith, omega arith)

module _ (buffers : Buffers) (ops : BitOps) (bits : SameBits buffers ops) where
  -- What the module mounts: both bitmaps are valid, and the blocks and inodes that the root directory does
  -- not take are free.
  pub record IsFresh (size : ℕ) (m : Mounted (BufferHead ops)) : Type 0 where
    pub layout : SameLayout (configure size) m.sbi
    pub bam : IsValid ops 12 m.sbi (record { bh = m.s_bam_bh; last = m.s_bam_last })
    pub iam : IsValid ops 12 (inode_numbers m.sbi) (record { bh = m.s_iam_bh; last = m.s_iam_last })
    pub free_blocks :
        (n : ℕ)
        → n < m.sbi.s_nblocks
        → block_bit ops bits_per_block (record { bh = m.s_bam_bh; last = m.s_bam_last }) n
          ≡ some (ltb n (m.sbi.s_data_block_start + 5))
    pub free_inodes :
        (n : ℕ)
        → n < m.sbi.s_ninodes
        → block_bit ops bits_per_block (record { bh = m.s_iam_bh; last = m.s_iam_last }) n
          ≡ some (ltb n 2)

  module _ (host : Host) (size : ℕ) (before disk : ℕ → buffers.Data)
      (formatted : IsFormatted buffers (configure size) host before disk)
      (dev : Device (BufferHead ops)) (is : IsDisk buffers ops bits disk dev) (big : 2 ^ 20 ≤ size)
      (small : size < 2 ^ 31) where
    MountedFrom-IsFresh :
        (m : Mounted (BufferHead ops))
        → MountedFrom dev m
        → SameLayout (configure size) m.sbi
        → (m.sbi.s_bam_blocks ≡ (configure size).bam_blk)
        → (m.sbi.s_iam_blocks ≡ (configure size).iam_blk)
        → (m.sbi.s_ninodes ≡ (configure size).ino_cnt)
        → IsFresh size m
    MountedFrom-IsFresh m from layout bams iams inos =
        let gas = configure size in
        let (bam_fits, iam_fits, blocks, some_inodes) = small_counts size big small in
        let bam : Bitmap ops = record { bh = m.s_bam_bh; last = m.s_bam_last } in
        let iam : Bitmap ops = record { bh = m.s_iam_bh; last = m.s_iam_last } in
        let sized = configure-IsSized buffers size in
        let sbi' = inode_numbers m.sbi in
        let iam_from =
          subst (λ (b : ℕ). BlocksFrom dev (1 + b) m.sbi.s_iam_blocks m.s_iam_bh) bams from.iam in
        let written = λ (k i : ℕ) (lt : k < m.sbi.s_bam_blocks) (lti : i < bits_per_block).
          formatted.bam k i (omega arith) lti in
        let written' = λ (k i : ℕ) (lt : k < m.sbi.s_iam_blocks) (lti : i < bits_per_block).
          formatted.iam k i (omega arith) lti in
        record {
          layout = layout;
          bam =
              map_bits-IsValid buffers ops bits disk dev is 1 (gas.data_st + 5) gas.blk_cnt m.sbi
                bam from.bam written layout.bits from.bam_nonzero from.bam_last (omega arith)
                (omega (arith, sized.bam_within)) layout.nblocks (omega (arith, layout.data_start))
                blocks;
          iam =
              map_bits-IsValid buffers ops bits disk dev is (1 + gas.bam_blk) 2 gas.ino_cnt sbi' iam
                iam_from written' layout.bits from.iam_nonzero from.iam_last (omega arith)
                (omega (arith, sized.iam_within)) inos (omega arith) some_inodes;
          free_blocks = λ n lt.
              map_bits buffers ops bits disk dev is 1 (gas.data_st + 5) gas.blk_cnt m.sbi bam
                from.bam written n (omega (arith, sized.bam_within, layout.nblocks))
              ∙ ap (λ (b : Bool). some b) (ground (arith, layout.data_start, layout.nblocks));
          free_inodes = λ n lt.
              map_bits buffers ops bits disk dev is (1 + gas.bam_blk) 2 gas.ino_cnt sbi' iam
                iam_from written' n (omega (arith, sized.iam_within))
              ∙ ap (λ (b : Bool). some b) (ground (arith));
        }

    formatted-IsFresh :
        IsWorking dev
        → (m : Mounted (BufferHead ops)) × (gas_fill_super dev ≡ mounted m) × IsFresh size m
    formatted-IsFresh works =
        let read : dev.bread_super super_block_no ≡ some (init_super_block (configure size)) =
          is.bread_super ∙ ap (λ (sb : GasSuperBlock). some sb) formatted.super in
        let (m, e) = gas_fill_super-configure dev works size read (omega arith) (omega arith) in
        let from = gas_fill_super-MountedFrom dev m e in
        let same : m.sbi ≡ gas_super_block_fill (init_super_block (configure size)) =
          from.same_sbi ∙ ap gas_super_block_fill (the_same from.dsb (sym from.super ∙ read)) in
        let layout =
          subst (SameLayout (configure size)) (sym same)
            (gas_super_block_fill-configure size (omega arith) (omega arith)) in
        let (bams, iams, inos) = same_counts size (omega arith) in
        (
          m,
          e,
          MountedFrom-IsFresh m from layout (ap (λ (i : GasSbInfo). i.s_bam_blocks) same ∙ bams)
              (ap (λ (i : GasSbInfo). i.s_iam_blocks) same ∙ iams)
              (ap (λ (i : GasSbInfo). i.s_ninodes) same ∙ inos),
        )
      where
        the_same : (dsb : GasSuperBlock) {sb : GasSuperBlock} → some dsb ≡ some sb → dsb ≡ sb
        the_same dsb e = cc (e)

  -- For any layout of blocks and any bit operations that see the same bits in a block, any driver
  -- that reads the disk, in a kernel that does not fail, a disk of at least 2 ^ 20 and fewer than 2
  -- ^ 31 bytes, and an empty cache, `main` of mkfs returns, and `gas_fill_super` mounts the disk
  -- that it leaves; the module's numbers have the areas where mkfs has them, both bitmaps are valid
  -- for them, of the blocks exactly those before the data area and its first five are marked, and of
  -- the inodes exactly 0 and 1.
  pub main-gas_fill_super :
      (device : (ℕ → buffers.Data) → Device (BufferHead ops))
      → ((disk : ℕ → buffers.Data) → IsDisk buffers ops bits disk (device disk))
      → ((disk : ℕ → buffers.Data) → IsWorking (device disk))
      → (host : Host) (size : ℕ) (before : Image buffers) → before.cache ≡ []
      → 2 ^ 20 ≤ size
      → size < 2 ^ 31
      → (im : Image buffers) × (main buffers host size before ≡ done tt im)
        × (m : Mounted (BufferHead ops)) × (gas_fill_super (device im.disk) ≡ mounted m)
        × IsFresh size m
  main-gas_fill_super device is works host size before empty big small =
      let (im, e, formatted) = main-IsFormatted buffers host size before empty big small in
      let (m, e', fresh) =
        formatted-IsFresh host size before.disk im.disk formatted (device im.disk) (is im.disk) big
          small (works im.disk) in
      (im, e, m, e', fresh)
