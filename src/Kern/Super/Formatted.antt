-- ===== src/Kern/Super/Formatted.antt =====
-- Which formatted disks the module mounts.
use gas_filesystem.Base.{
  ℕ, ◌+◌, ◌/◌, ◌^◌, ◌≤◌, ◌<◌, ◌≡◌, refl, ◌≢◌, true, arith, none, some, [], ap,
}
use gas_filesystem.Kern.Types.{GasSbInfo, einval, gas_block_size, gas_root_ino, super_block_no}
use gas_filesystem.Kern.Super.{
  Device, Mounted, mounted, failed, gas_super_block_fill, gas_super_block_read, read_maps,
  fill_root, fill_maps, gas_fill_super,
}
use gas_filesystem.Makefs.Layout.{configure, init_super_block}
use gas_filesystem.Kern.Super.Mount.{read_maps_all}

-- The device works: every read and allocation succeeds.
pub record IsWorking {B : Type 0} (dev : Device B) : Type 0 where
  pub allocates : dev.kzalloc_sbi ≡ true
  pub reads : (b : ℕ) → dev.bread b ≢ none
  pub blocksize : dev.set_blocksize gas_block_size ≡ true
  pub root : dev.iget_root gas_root_ino ≡ none
  pub makes_root : dev.make_root ≡ true

module _ {B : Type 0} (dev : Device B) (works : IsWorking dev) (size : ℕ)
    (formatted : dev.bread_super super_block_no ≡ some (init_super_block (configure size))) where
  abbrev formatted_sbi : GasSbInfo
  formatted_sbi = gas_super_block_fill (init_super_block (configure size))

  super_block_read-formatted : gas_super_block_read dev ≡ some formatted_sbi
  unfolding gas_super_block_read gas_super_block_fill init_super_block
  super_block_read-formatted = rw (works.allocates, formatted)

  formatted_blocksize : formatted_sbi.s_blocksize ≡ gas_block_size
  unfolding gas_super_block_fill init_super_block
  formatted_blocksize = refl

  formatted_nonzero :
      256 ≤ size / gas_block_size
      → size / gas_block_size < 2 ^ 32
      → (formatted_sbi.s_bam_blocks ≢ 0)
        × (formatted_sbi.s_iam_blocks ≢ 0)
        × (formatted_sbi.s_inode_blocks ≢ 0)
  unfolding gas_super_block_fill init_super_block configure
  formatted_nonzero large small = (omega arith, omega arith, omega arith)

  formatted_empty : size / gas_block_size < 256 → formatted_sbi.s_inode_blocks ≡ 0
  unfolding gas_super_block_fill init_super_block configure
  formatted_empty small = omega arith

  fill_maps_works :
      (sbi : GasSbInfo)
      → sbi.s_blocksize ≡ gas_block_size
      → sbi.s_bam_blocks ≢ 0
      → sbi.s_iam_blocks ≢ 0
      → sbi.s_inode_blocks ≢ 0
      → (m : Mounted B) × (fill_maps dev sbi ≡ mounted m)
  unfolding fill_maps fill_root
  fill_maps_works sbi block bam iam ino = (
    record {
      sbi = sbi;
      s_bam_bh = (read_maps dev sbi.s_bam_blocks 1).0;
      s_iam_bh = (read_maps dev sbi.s_iam_blocks (1 + sbi.s_bam_blocks)).0;
      s_bam_last = 0;
      s_iam_last = 0;
    },
    ground (
      arith,
      read_maps_all dev sbi.s_bam_blocks 1 works.reads,
      read_maps_all dev sbi.s_iam_blocks (1 + sbi.s_bam_blocks) works.reads,
      ap dev.set_blocksize block,
      works.blocksize,
      works.root,
      works.makes_root,
    ),
  )

  -- On a working device that holds the super block that mkfs writes for a disk of at least 256 and
  -- fewer than 2 ^ 32 blocks, `gas_fill_super` succeeds.
  pub gas_fill_super-configure :
      256 ≤ size / gas_block_size
      → size / gas_block_size < 2 ^ 32
      → (m : Mounted B) × (gas_fill_super dev ≡ mounted m)
  unfolding gas_fill_super
  gas_fill_super-configure large small =
      let (bam, iam, ino) = formatted_nonzero large small in
      let (m, e) = fill_maps_works formatted_sbi formatted_blocksize bam iam ino in
      (m, rw (super_block_read-formatted, gas_fill_super) e)

  -- On a working device that holds the super block that mkfs writes for a disk of fewer than 256
  -- blocks, `gas_fill_super` fails with `EINVAL`.
  pub gas_fill_super_small : size / gas_block_size < 256 → gas_fill_super dev ≡ failed einval []
  unfolding gas_fill_super fill_maps
  gas_fill_super_small small =
      rw (super_block_read-formatted, gas_fill_super)
        (ground
          (arith, formatted_empty small, ap dev.set_blocksize formatted_blocksize, works.blocksize))
