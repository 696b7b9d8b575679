-- ===== src/Kern/Super/Mount.antt =====
-- kern/gas_super.c: what a mounted file system was read from, and the layout that mkfs gives a disk
use mathlib.Core.Path.{subst}
use gas_filesystem.Base.{
  ℕ, zero, suc, ◌+◌, ◌*◌, ◌/◌, ◌^◌, ◌≤◌, ◌<◌, ◌≡◌, refl, sym, ◌∙◌, ◌≢◌, inl, inr, true, arith, none,
  some, List, ◌∷◌, length, get_elem?, Option-cases, ap,
}
use gas_filesystem.Kern.Types.{
  GasSuperBlock, GasSbInfo, gas_block_size, magic_number, bits_per_block, super_block_no,
}
use gas_filesystem.Kern.Super.{
  Device, Mounted, mounted, gas_super_block_fill, gas_super_block_read, read_maps, fill_root,
  fill_maps, gas_fill_super,
}
use gas_filesystem.Makefs.Layout.{FilesysParam, configure, init_super_block, inode_list_start}

-- The module's numbers name the areas where the configuration of mkfs has them.
pub record SameLayout (gas : FilesysParam) (sbi : GasSbInfo) : Type 0 where
  pub magic : sbi.s_magic ≡ magic_number
  pub list_start : sbi.s_inode_list_start ≡ inode_list_start gas
  pub data_start : sbi.s_data_block_start ≡ gas.data_st
  pub data_in : gas.data_st < sbi.s_nblocks
  pub nblocks : sbi.s_nblocks ≡ gas.blk_cnt
  pub maps_cover : sbi.s_nblocks ≤ sbi.s_bam_blocks * sbi.s_bits_per_block
  pub inode_maps_cover : sbi.s_ninodes ≤ sbi.s_iam_blocks * sbi.s_bits_per_block
  pub inodes_fit : sbi.s_ninodes ≡ sbi.s_inode_blocks * sbi.s_inodes_per_block
  pub bits : sbi.s_bits_per_block ≡ bits_per_block
  pub has_inodes : 0 < sbi.s_inode_blocks

-- For a disk of at least 256 and fewer than 2 ^ 32 blocks, what `gas_super_block_fill` makes of the
-- super block of mkfs has the areas where mkfs has them, a data area that begins on the disk, and
-- bitmaps and inode blocks that cover all blocks and inodes.
pub gas_super_block_fill-configure :
    (size : ℕ)
    → 256 ≤ size / gas_block_size
    → size / gas_block_size < 2 ^ 32
    → let gas = configure size in SameLayout gas (gas_super_block_fill (init_super_block gas))
unfolding configure init_super_block gas_super_block_fill
gas_super_block_fill-configure size large small = record {
  magic = refl;
  list_start = omega arith;
  data_start = omega arith;
  data_in = omega arith;
  nblocks = omega arith;
  maps_cover = omega arith;
  inode_maps_cover = omega arith;
  inodes_fit = omega arith;
  bits = refl;
  has_inodes = omega arith;
}

module _ {B : Type 0} (dev : Device B) where
  -- `xs` are the `n` blocks from `block` on.
  abbrev pub BlocksFrom : ℕ → ℕ → List B → Type 0
  BlocksFrom block n xs =
      (length xs ≡ n) × ((i : ℕ) → i < n → get_elem? xs i ≡ dev.bread (block + i))

  read_maps-BlocksFrom :
      (n block : ℕ)
      → (read_maps dev n block).1 ≡ true
      → BlocksFrom block n (read_maps dev n block).0
  unfolding read_maps
  read_maps-BlocksFrom zero block done = (refl, λ i h. absurd (omega arith))
  read_maps-BlocksFrom (suc n) block done = elim (Option-cases (dev.bread block)) [
    | inl e ↦ absurd (cc (rw (e, read_maps) at done))
    | inr (bh, e) ↦
        rw (e, read_maps)
          (let rest = read_maps-BlocksFrom n (block + 1) (rw (e, read_maps) at done) in
            (omega (arith, rest.0), λ i h. elements bh e i h rest.1))
  ]
    where
      elements :
          (bh : B)
          → dev.bread block ≡ some bh
          → (i : ℕ) → i < suc n
          → ((i : ℕ)
              → i < n
              → get_elem? (read_maps dev n (block + 1)).0 i ≡ dev.bread (block + 1 + i))
          → get_elem? (bh ∷ (read_maps dev n (block + 1)).0) i ≡ dev.bread (block + i)
      elements bh e zero h rest = sym e ∙ ap dev.bread (omega arith)
      elements bh e (suc i) h rest = rest i (omega arith) ∙ ap dev.bread (omega arith)

  pub read_maps_all :
      (n block : ℕ) → ((b : ℕ) → dev.bread b ≢ none) → (read_maps dev n block).1 ≡ true
  unfolding read_maps
  read_maps_all zero block all = refl
  read_maps_all (suc n) block all = elim (Option-cases (dev.bread block)) [
    | inl e ↦ absurd (all block e)
    | inr (bh, e) ↦ rw (e, read_maps) (read_maps_all n (block + 1) all)
  ]

  -- What a mounted file system was made from
  pub record MountedFrom (m : Mounted B) : Type 0 where
    pub dsb : GasSuperBlock
    pub super : dev.bread_super super_block_no ≡ some dsb
    pub magic : dsb.s_magic ≡ magic_number
    pub same_sbi : m.sbi ≡ gas_super_block_fill dsb
    pub bam_nonzero : m.sbi.s_bam_blocks ≢ 0
    pub iam_nonzero : m.sbi.s_iam_blocks ≢ 0
    pub inodes_nonzero : m.sbi.s_inode_blocks ≢ 0
    pub bam : BlocksFrom 1 m.sbi.s_bam_blocks m.s_bam_bh
    pub iam : BlocksFrom (1 + m.sbi.s_bam_blocks) m.sbi.s_iam_blocks m.s_iam_bh
    pub bam_last : m.s_bam_last ≡ 0
    pub iam_last : m.s_iam_last ≡ 0

  fill_root-inversion :
      (sbi : GasSbInfo) (bam iam : List B) {m : Mounted B}
      → fill_root dev sbi bam iam ≡ mounted m
      → m ≡ record { sbi = sbi; s_bam_bh = bam; s_iam_bh = iam; s_bam_last = 0; s_iam_last = 0 }
  unfolding fill_root
  fill_root-inversion sbi bam iam e = ground arith

  super_block_read-inversion :
      {sbi : GasSbInfo}
      → gas_super_block_read dev ≡ some sbi
      → (dsb : GasSuperBlock) × (dev.bread_super super_block_no ≡ some dsb)
        × (dsb.s_magic ≡ magic_number)
        × (gas_super_block_fill dsb ≡ sbi)
  unfolding gas_super_block_read
  super_block_read-inversion e = elim (Option-cases (dev.bread_super super_block_no)) [
    | inl none_read ↦ absurd (ground arith)
    | inr (dsb, read) ↦ (dsb, read, ground arith, ground arith)
  ]

  fill_maps-inversion :
      (sbi : GasSbInfo) {m : Mounted B}
      → fill_maps dev sbi ≡ mounted m
      → (sbi.s_bam_blocks ≢ 0)
        × (sbi.s_iam_blocks ≢ 0)
        × (sbi.s_inode_blocks ≢ 0)
        × ((read_maps dev sbi.s_bam_blocks 1).1 ≡ true)
        × ((read_maps dev sbi.s_iam_blocks (1 + sbi.s_bam_blocks)).1 ≡ true)
        × (fill_root dev sbi
              (read_maps dev sbi.s_bam_blocks 1).0
              (read_maps dev sbi.s_iam_blocks (1 + sbi.s_bam_blocks)).0
            ≡ mounted m)
  unfolding fill_maps
  fill_maps-inversion sbi e = ground arith

  -- If `gas_fill_super` succeeds, then it has read all blocks of both bitmaps, each from its place
  -- on the disk, under a super block with the right magic number and with blocks for both bitmaps
  -- and for inodes; the search hints are 0.
  pub gas_fill_super-MountedFrom : (m : Mounted B) → gas_fill_super dev ≡ mounted m → MountedFrom m
  unfolding gas_fill_super
  gas_fill_super-MountedFrom m e = elim (Option-cases (gas_super_block_read dev)) [
    | inl none_read ↦ absurd (ground arith)
    | inr (sbi, read) ↦
        let (dsb, super, magic, same) = super_block_read-inversion read in
        let fill : fill_maps dev sbi ≡ mounted m = ground arith in
        let (bam0, iam0, ino0, bam_read, iam_read, root) = fill_maps-inversion sbi fill in
        let is = fill_root-inversion sbi _ _ root in
        subst MountedFrom (sym is) (record {
          dsb = dsb;
          super = super;
          magic = magic;
          same_sbi = sym same;
          bam_nonzero = bam0;
          iam_nonzero = iam0;
          inodes_nonzero = ino0;
          bam = read_maps-BlocksFrom sbi.s_bam_blocks 1 bam_read;
          iam = read_maps-BlocksFrom sbi.s_iam_blocks (1 + sbi.s_bam_blocks) iam_read;
          bam_last = refl;
          iam_last = refl;
        })
  ]
