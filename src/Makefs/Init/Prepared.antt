-- ===== src/Makefs/Init/Prepared.antt =====
-- makefs/mkfs.c: the image before `make_rootdir`
use gas_filesystem.Base.{
  ℕ, zero, suc, ◌+◌, ◌*◌, ◌^◌, ◌≤◌, ◌<◌, ◌≡◌, refl, ap, ◌∙◌, arith, some, [], ◌||◌, ltb, leb, true,
}
use gas_filesystem.Kern.Types.{bits_per_block, super_block_no}
use gas_filesystem.Makefs.Layout.{
  FilesysParam, configure, init_super_block, bam_block_start, iam_block_start, inode_list_start,
  data_block_start,
}
use gas_filesystem.Makefs.Disk.{Buffers, Image, write_block}
use gas_filesystem.Makefs.Init.{
  init_block_alloc_map, init_inode_alloc_map, list_loop, init_inode_list,
}
use gas_filesystem.Makefs.Init.Maps.{bit, map_loop_lem}

module _ (buffers : Buffers) where
  open buffers use {Data, zeros, super_block, put_super_block}

  -- The image: the super block, the two maps, the inode list, behind them what was there, and nothing in
  -- the cache
  pub record IsPrepared (gas : FilesysParam) (before im : Image buffers) : Type 0 where
    pub super : super_block (im.disk super_block_no) ≡ init_super_block gas
    pub bam :
        (k i : ℕ)
        → k < gas.bam_blk
        → i < bits_per_block
        → bit buffers (im.disk (bam_block_start + k)) i
          ≡ (ltb (k * bits_per_block + i) gas.data_st || leb gas.blk_cnt (k * bits_per_block + i))
    pub iam :
        (k i : ℕ)
        → k < gas.iam_blk
        → i < bits_per_block
        → bit buffers (im.disk (iam_block_start gas + k)) i
          ≡ (ltb (k * bits_per_block + i) 1 || leb gas.ino_cnt (k * bits_per_block + i))
    pub list : (k : ℕ) → k < gas.ino_blk → im.disk (inode_list_start gas + k) ≡ zeros
    pub behind : (b : ℕ) → data_block_start gas ≤ b → im.disk b ≡ before.disk b
    pub cache : im.cache ≡ []

  list_loop_lem :
      (left block : ℕ) (im : Image buffers)
      → block + left ≤ 2 ^ 19
      → ((list_loop buffers left block im).cache ≡ im.cache)
        × ((b : ℕ)
            → (ltb b block || leb (block + left) b) ≡ true
            → (list_loop buffers left block im).disk b ≡ im.disk b)
        × ((k : ℕ) → k < left → (list_loop buffers left block im).disk (block + k) ≡ zeros)
  unfolding list_loop write_block
  list_loop_lem zero block im low = (refl, λ b out. refl, λ k lt. absurd (omega arith))
  list_loop_lem (suc left) block im low =
      let at_place = buffers.place_lem block (omega arith) in
      let (cache, out, later) =
        list_loop_lem left (block + 1) (write_block buffers block zeros im) (omega arith) in
      (
        cache,
        λ b is. out b (ground arith) ∙ ground (arith, at_place),
        by_index (out block (ground arith) ∙ ground (arith, at_place)) later,
      )
    where
      after : Image buffers
      after = list_loop buffers left (block + 1) (write_block buffers block zeros im)

      by_index :
          after.disk block ≡ zeros
          → ((k : ℕ) → k < left → after.disk (block + 1 + k) ≡ zeros)
          → (k : ℕ) → k < suc left
          → after.disk (block + k) ≡ zeros
      by_index here later zero lt = let at : block + 0 ≡ block = omega arith in rw at here
      by_index here later (suc k) lt =
          let at : block + suc k ≡ block + 1 + k = omega arith in rw at (later k (omega arith))

  -- The sizes that `main` computes: each map has as many blocks as its bits need.
  pub record IsSized (gas : FilesysParam) : Type 0 where
    pub bam_within : gas.blk_cnt ≤ gas.bam_blk * bits_per_block
    pub bam_near : gas.bam_blk * bits_per_block < gas.blk_cnt + bits_per_block
    pub iam_within : gas.ino_cnt ≤ gas.iam_blk * bits_per_block
    pub iam_near : gas.iam_blk * bits_per_block < gas.ino_cnt + bits_per_block

  -- The counts fit an `int`, and so does the offset in the image of every block before the data area.
  pub record FitsInt (gas : FilesysParam) : Type 0 where
    pub near : data_block_start gas ≤ 2 ^ 19
    pub blocks : gas.blk_cnt + bits_per_block ≤ 2 ^ 31
    pub numbers : gas.ino_cnt + bits_per_block ≤ 2 ^ 31

  pub configure-IsSized : (size : ℕ) → IsSized (configure size)
  unfolding configure
  configure-IsSized size = record {
    bam_within = omega arith;
    bam_near = omega arith;
    iam_within = omega arith;
    iam_near = omega arith;
  }

  pub configure-FitsInt : (size : ℕ) → size < 2 ^ 31 → FitsInt (configure size)
  unfolding configure
  configure-FitsInt size small = record {
    near = omega arith;
    blocks = omega arith;
    numbers = omega arith;
  }

  abbrev with_super : FilesysParam → Image buffers → Image buffers
  with_super gas im =
      write_block buffers super_block_no (put_super_block zeros (init_super_block gas)) im

  -- For any sizes of mkfs in which each bitmap has as many blocks as its bits need, of at most 2 ^
  -- 31 - 2 ^ 15 blocks and as many inodes, with the data area starting at block 2 ^ 19 at most, and
  -- an empty cache, `init_block_alloc_map` and `init_inode_alloc_map` return, and with
  -- `init_super_block` before and `init_inode_list` behind them they leave the super block in block
  -- 0, a bitmap of blocks in which exactly the blocks before the data area and those behind the end
  -- are marked, one of inodes in which exactly 0 and those behind the end are marked, and a clear
  -- inode list, and they change no block behind it.
  pub init-IsPrepared :
      (gas : FilesysParam) (im : Image buffers)
      → IsSized gas
      → FitsInt gas
      → im.cache ≡ []
      → (bam iam : Image buffers) × (init_block_alloc_map buffers gas (with_super gas im)
          ≡ some bam)
        × (init_inode_alloc_map buffers gas bam ≡ some iam)
        × IsPrepared gas im (init_inode_list buffers gas iam)
  unfolding init_block_alloc_map init_inode_alloc_map init_inode_list write_block
  init-IsPrepared gas im sized fits empty =
      let (bam, e, cache, out, bits) =
        map_loop_lem buffers gas.bam_blk gas.bam_blk gas.blk_cnt bam_block_start gas.data_st
          (with_super gas im) sized.bam_within sized.bam_near (omega arith)
          (omega (arith, fits.near)) in
      let (iam, e', cache', out', bits') =
        map_loop_lem buffers gas.iam_blk gas.iam_blk gas.ino_cnt (iam_block_start gas) 1 bam
          sized.iam_within sized.iam_near (omega arith) (omega (arith, fits.near)) in
      let front = buffers.place_lem 0 (omega arith) in
      let (cache'', out'', cleared) =
        list_loop_lem gas.ino_blk (inode_list_start gas) iam fits.near in
      (
        bam,
        iam,
        e,
        e',
        record {
          super =
              ap super_block (
                out'' 0 (ground arith)
                ∙ (out' 0 (ground arith) ∙ (out 0 (ground arith) ∙ ground (arith, front))))
              ∙ buffers.super-put_super zeros (init_super_block gas);
          bam = λ k i lt lti.
              ap (λ (d : Data). bit buffers d i)
                (out'' (bam_block_start + k) (ground arith)
                  ∙ out' (bam_block_start + k) (ground arith))
              ∙ (bits k i lt lti ∙ ground arith);
          iam = λ k i lt lti.
              ap (λ (d : Data). bit buffers d i) (out'' (iam_block_start gas + k) (ground arith))
              ∙ (bits' k i lt lti ∙ ground arith);
          list = cleared;
          behind = λ b le.
              out'' b (ground arith)
              ∙ (out' b (ground arith) ∙ (out b (ground arith) ∙ ground (arith, front)));
          cache = cache'' ∙ (cache' ∙ (cache ∙ empty));
        },
      )
