-- ===== src/Makefs/Format/Whole.antt =====
-- makefs/mkfs.c: the file system that `main` makes, for a disk of 2 ^ 20 to 2 ^ 31 - 1 bytes
use mathlib.Core.Path.{subst}
use gas_filesystem.Base.{
  ℕ, zero, suc, ◌+◌, ◌*◌, ◌^◌, ◌≤◌, ◌<◌, ◌≡◌, ◌≢◌, refl, sym, ap, ◌∙◌, arith, some, [], ◌||◌, leb,
  ltb, get_elem?,
}
use gas_filesystem.Kern.Types.{bits_per_block, super_block_no}
use gas_filesystem.Makefs.Layout.{
  FilesysParam, configure, init_super_block, bam_block_start, iam_block_start, inode_list_start,
  data_block_start, inodes_per_block,
}
use gas_filesystem.Makefs.Disk.{zero_inode, Buffers, Image, bc_sync}
use gas_filesystem.Makefs.Disk.Holds.{nothing, empty-Holds, sync-Holds}
use gas_filesystem.Makefs.Init.{init_inode_list}
use gas_filesystem.Makefs.Init.Prepared.{
  IsPrepared, configure-IsSized, configure-FitsInt, init-IsPrepared,
}
use gas_filesystem.Makefs.Format.{◌>>=◌, ◌>>◌, done, Host, make_rootdir, main}
use gas_filesystem.Makefs.Init.Maps.{bit}
use gas_filesystem.Makefs.Format.Alloc.{Ends}
use gas_filesystem.Makefs.Format.Dots.{root_inode, HasDots}
use gas_filesystem.Makefs.Format.Root.{IsRooted, make_rootdir-IsRooted}

module _ (buffers : Buffers) where
  open buffers use {Data, zeros, inodes, super_block}

  -- The disk of a new file system
  pub record IsFormatted (gas : FilesysParam) (host : Host) (before disk : ℕ → Data) : Type 0 where
    pub super : super_block (disk super_block_no) ≡ init_super_block gas
    pub bam :
        (k i : ℕ)
        → k < gas.bam_blk
        → i < bits_per_block
        → bit buffers (disk (bam_block_start + k)) i ≡ (
            ltb (k * bits_per_block + i) (gas.data_st + 5)
            || leb gas.blk_cnt (k * bits_per_block + i))
    pub iam :
        (k i : ℕ)
        → k < gas.iam_blk
        → i < bits_per_block
        → bit buffers (disk (iam_block_start gas + k)) i
          ≡ (ltb (k * bits_per_block + i) 2 || leb gas.ino_cnt (k * bits_per_block + i))
    pub root :
        get_elem? (inodes (disk (inode_list_start gas))) 1 ≡ some (root_inode host gas.data_st)
    pub other_inodes :
        (j : ℕ)
        → j < inodes_per_block
        → 1 ≢ j
        → get_elem? (inodes (disk (inode_list_start gas))) j ≡ some zero_inode
    pub list : (k : ℕ) → 0 < k → k < gas.ino_blk → disk (inode_list_start gas + k) ≡ zeros
    pub dots : HasDots buffers (before gas.data_st) (disk gas.data_st)
    pub behind : (b : ℕ) → gas.data_st < b → disk b ≡ before b

  -- What `main` computes for a disk of this size
  pub record HasRoom (gas : FilesysParam) : Type 0 where
    pub bam_some : 0 < gas.bam_blk
    pub iam_some : 0 < gas.iam_blk
    pub list_some : 0 < gas.ino_blk
    pub start : gas.data_st ≡ data_block_start gas
    pub near : gas.data_st + 5 ≤ bits_per_block
    pub blocks : gas.data_st + 5 ≤ gas.blk_cnt
    pub inode_count : 2 ≤ gas.ino_cnt

  configure-HasRoom : (size : ℕ) → 2 ^ 20 ≤ size → size < 2 ^ 31 → HasRoom (configure size)
  unfolding configure
  configure-HasRoom size big small = record {
    bam_some = omega arith;
    iam_some = omega arith;
    list_some = omega arith;
    start = omega arith;
    near = omega arith;
    blocks = omega arith;
    inode_count = omega arith;
  }

  module _ (gas : FilesysParam) (host : Host) (before im : Image buffers)
      (prepared : IsPrepared buffers gas before im) (room : HasRoom gas) where
    abbrev Rooted : Type 0
    Rooted =
        (w : ℕ → Data) × IsRooted buffers gas host gas.data_st im.disk w
        × Ends buffers (make_rootdir buffers gas host im) (nothing buffers) (nothing buffers) tt w

    front :
        (i : ℕ)
        → i < bits_per_block
        → bit buffers (im.disk bam_block_start) i ≡ (ltb i gas.data_st || leb gas.blk_cnt i)
    front i lt = prepared.bam 0 i room.bam_some lt ∙ ground arith

    inode_front : bit buffers (im.disk (iam_block_start gas)) 1 ≡ (ltb 1 1 || leb gas.ino_cnt 1)
    inode_front =
        let at : iam_block_start gas + 0 ≡ iam_block_start gas = omega arith in
        (rw (sym at) (prepared.iam 0 1 room.iam_some (omega arith)))

    blank : (k : ℕ) → k < gas.ino_blk → im.disk (inode_list_start gas + k) ≡ zeros
    blank = prepared.list

    blank_first : im.disk (inode_list_start gas) ≡ zeros
    blank_first =
        let at : inode_list_start gas + 0 ≡ inode_list_start gas = omega arith in
        ap im.disk (sym at) ∙ blank 0 room.list_some

    root_made : Rooted
    root_made =
        make_rootdir-IsRooted buffers gas host im.disk im gas.data_st
          (empty-Holds buffers im prepared.cache)
          (ap (λ (d : Data). get_elem? (inodes d) 1) blank_first
            ∙ (buffers.inodes-zeros 1 (omega arith)))
          room.near room.bam_some room.iam_some (omega (arith, room.start, room.list_some))
          (inode_front ∙ ground (arith, room.inode_count))
          (λ i lt. front i (omega (arith, room.near)) ∙ ground arith)
          (λ i ge lt. front i (omega (arith, room.near)) ∙ ground (arith, room.blocks))

    module _ (w : ℕ → Data) (r : IsRooted buffers gas host gas.data_st im.disk w) (disk : ℕ → Data)
        (same : (b : ℕ) → disk b ≡ w b) where
      untouched :
          (b : ℕ)
          → b ≢ bam_block_start
          → b ≢ iam_block_start gas
          → b ≢ inode_list_start gas
          → b ≢ gas.data_st
          → disk b ≡ im.disk b
      untouched b nb ni nl ns = same b ∙ r.rest b nb ni nl ns

      by_block_bits :
          (k i : ℕ)
          → k < gas.bam_blk
          → i < bits_per_block
          → bit buffers (disk (bam_block_start + k)) i ≡ (
              ltb (k * bits_per_block + i) (gas.data_st + 5)
              || leb gas.blk_cnt (k * bits_per_block + i))
      by_block_bits zero i lt lti =
          ap (λ (d : Data). bit buffers d i) (same bam_block_start)
          ∙ (r.blocks.bits i lti ∙ ground (arith, front i lti, room.blocks))
      by_block_bits (suc k) i lt lti =
          ap (λ (d : Data). bit buffers d i)
            (untouched (bam_block_start + suc k) (omega arith) (omega arith) (omega arith)
              (omega (arith, room.start)))
          ∙ (prepared.bam (suc k) i lt lti ∙ ground (arith, room.near))

      by_inode_bits :
          (k i : ℕ)
          → k < gas.iam_blk
          → i < bits_per_block
          → bit buffers (disk (iam_block_start gas + k)) i
            ≡ (ltb (k * bits_per_block + i) 2 || leb gas.ino_cnt (k * bits_per_block + i))
      by_inode_bits zero i lt lti =
          let at : iam_block_start gas + 0 ≡ iam_block_start gas = omega arith in
          let was = prepared.iam 0 i lt lti in
          ap (λ (d : Data). bit buffers d i) (ap disk at ∙ same (iam_block_start gas))
          ∙ (r.inode_bits.bits i lti
              ∙ ground (
                arith,
                ap (λ (b : ℕ). bit buffers (im.disk b) i) (sym at) ∙ was,
                room.inode_count,
              ))
      by_inode_bits (suc k) i lt lti =
          ap (λ (d : Data). bit buffers d i)
            (untouched (iam_block_start gas + suc k) (omega arith) (omega arith) (omega arith)
              (omega (arith, room.start)))
          ∙ (prepared.iam (suc k) i lt lti ∙ ground arith)

      rooted-IsFormatted : IsFormatted gas host before.disk disk
      rooted-IsFormatted = record {
        super =
            ap super_block (
              untouched super_block_no (omega arith) (omega arith) (omega arith)
                (omega (arith, room.start)))
            ∙ prepared.super;
        bam = by_block_bits;
        iam = by_inode_bits;
        root =
            ap (λ (d : Data). get_elem? (inodes d) 1) (same (inode_list_start gas)) ∙ r.root.here;
        other_inodes = λ j lt ne.
            ap (λ (d : Data). get_elem? (inodes d) j) (same (inode_list_start gas))
            ∙ (r.root.others j ne
                ∙ (ap (λ (d : Data). get_elem? (inodes d) j) blank_first
                    ∙ buffers.inodes-zeros j lt));
        list = λ k pos lt.
            untouched (inode_list_start gas + k) (omega arith) (omega (arith, pos)) (omega arith)
              (omega (arith, room.start))
            ∙ blank k lt;
        dots =
            subst (λ (d : Data). HasDots buffers d (disk gas.data_st))
              (prepared.behind gas.data_st (omega (arith, room.start)))
              (subst (HasDots buffers (im.disk gas.data_st)) (sym (same gas.data_st)) r.dots);
        behind = λ b lt.
            untouched b (omega (arith, room.start)) (omega (arith, room.start))
              (omega (arith, room.start)) (omega arith)
            ∙ prepared.behind b (omega (arith, room.start));
      }

  module _ (host : Host) (size : ℕ) (before : Image buffers) (empty : before.cache ≡ [])
      (big : 2 ^ 20 ≤ size) (small : size < 2 ^ 31) where
    -- For any layout of blocks, a disk of at least 2 ^ 20 and fewer than 2 ^ 31 bytes, and an empty
    -- cache, `main` returns, and leaves a disk on which the super block is that of
    -- `init_super_block`; in the bitmap of blocks exactly the blocks before the data area, its first
    -- five and those behind the end are marked; in the bitmap of inodes exactly 0, 1 and those
    -- behind the end; inode 1 is a directory of two entries in the first block of the data area, and
    -- every other inode of its block and every other block of the inode list is clear; the first two
    -- entries of that block are `.` and `..`, both for inode 1, its other entries and all blocks
    -- behind it are as they were.
    pub main-IsFormatted :
        (im : Image buffers) × (main buffers host size before ≡ done tt im)
        × IsFormatted (configure size) host before.disk im.disk
    unfolding main bc_sync
    main-IsFormatted =
        let gas = configure size in
        let (bam, iam, e, e', prepared) =
          init-IsPrepared buffers gas before (configure-IsSized buffers size)
            (configure-FitsInt buffers size small) empty in
        let room = configure-HasRoom size big small in
        let (w, r, ends) =
          root_made gas host before (init_inode_list buffers gas iam) prepared room in
        (
          bc_sync buffers ends.image,
          rw (◌>>◌, ◌>>=◌, e, e', ends.ends) refl,
          rooted-IsFormatted gas host before (init_inode_list buffers gas iam) prepared room w r
              (bc_sync buffers ends.image).disk
              (sync-Holds buffers _ _ _ _ _ ends.holds (λ x. refl)),
        )
