-- ===== src/Makefs/Tests/Disks.antt =====
-- Runs of makefs/mkfs.c over a small image, and on a disk of 16 MiB
use gas_filesystem.Base.{◌≡◌, refl, arith, some, List, [], ◌∷◌, ◌+◌}
use gas_filesystem.Makefs.Layout.{configure, init_super_block}
use gas_filesystem.Makefs.Disk.{Image, write_block, bc_sync}
use gas_filesystem.Makefs.Disk.Refine.{Step, look, store, cached_run, plain_run, cached_run-plain}
use gas_filesystem.Makefs.Init.{init_block_alloc_map, init_inode_alloc_map, init_inode_list}
use gas_filesystem.Makefs.Init.Prepared.{
  IsPrepared, FitsInt, configure-IsSized, configure-FitsInt, init-IsPrepared,
}
use gas_filesystem.Makefs.Format.{Host, done, main}
use gas_filesystem.Makefs.Format.Whole.{IsFormatted, main-IsFormatted}
use gas_filesystem.Makefs.Tests.Cells.{Cell, cells, blank}

-- An image without a cache, in which block `b` is padded with `b`
abbrev pub numbered : Image cells
numbered = record { disk = blank; cache = [] }

abbrev pub nobody : Host
nobody = record { uid = 1000; gid = 1000; now = 1700000000 }

abbrev next_pad : Cell → Cell
next_pad c = record c { pad = c.pad + 1 }

-- Block 3 is changed twice and block 5 once, between reads.
abbrev some_steps : List (Step cells)
some_steps = store 3 next_pad ∷ look 5 ∷ store 5 next_pad ∷ look 3 ∷ store 3 next_pad ∷ []

cached_run-plain_example :
    (bc_sync cells (cached_run cells some_steps numbered)).disk 3
    ≡ plain_run cells some_steps numbered.disk 3
cached_run-plain_example =
    cached_run-plain cells some_steps numbered
      (omega arith, (omega arith, (omega arith, (omega arith, (omega arith, tt))))) refl 3

main-IsFormatted_example :
    (im : Image cells) × (main cells nobody 16777216 numbered ≡ done tt im)
    × IsFormatted cells (configure 16777216) nobody numbered.disk im.disk
main-IsFormatted_example =
    main-IsFormatted cells nobody 16777216 numbered refl (omega arith) (omega arith)

configure-FitsInt_16m : FitsInt cells (configure 16777216)
configure-FitsInt_16m = configure-FitsInt cells 16777216 (omega arith)

init-IsPrepared_example :
    (bam iam : Image cells) × (init_block_alloc_map cells (configure 16777216) (
        write_block cells 0
          (cells.put_super_block cells.zeros (init_super_block (configure 16777216)))
          numbered)
      ≡ some bam)
    × (init_inode_alloc_map cells (configure 16777216) bam ≡ some iam)
    × IsPrepared cells
        (configure 16777216)
        numbered
        (init_inode_list cells (configure 16777216) iam)
init-IsPrepared_example =
    init-IsPrepared cells (configure 16777216) numbered (configure-IsSized cells 16777216)
      configure-FitsInt_16m refl
