-- ===== src/Kern/Tests/Mount.antt =====
-- Mounting what mkfs wrote to a disk of 1 GiB, and to one of 512 KiB
use gas_filesystem.Base.{ℕ, ◌≡◌, refl, arith, true, [], some, none}
use gas_filesystem.Kern.Types.{einval}
use gas_filesystem.Kern.Super.{Device, Mounted, mounted, failed, gas_fill_super}
use gas_filesystem.Kern.Super.Mount.{MountedFrom, gas_fill_super-MountedFrom}
use gas_filesystem.Kern.Super.Formatted.{IsWorking, gas_fill_super-configure, gas_fill_super_small}
use gas_filesystem.Makefs.Layout.{configure, init_super_block}

-- A device on which every call succeeds; block `b` holds `b`.
abbrev disk : ℕ → Device ℕ
disk size = record {
  bread_super = λ b. some (init_super_block (configure size));
  bread = λ b. some b;
  set_blocksize = λ b. true;
  kzalloc_sbi = true;
  iget_root = λ ino. none;
  make_root = true;
}

disk-IsWorking : (size : ℕ) → IsWorking (disk size)
disk-IsWorking size = record {
  allocates = refl;
  reads = λ b e. absurd (cc);
  blocksize = refl;
  root = refl;
  makes_root = refl;
}

gas_fill_super-configure_example : (m : Mounted ℕ) × (gas_fill_super (disk 1073741824) ≡ mounted m)
gas_fill_super-configure_example =
    gas_fill_super-configure (disk 1073741824) (disk-IsWorking 1073741824) 1073741824 refl
      (omega arith) (omega arith)

abbrev mounted_disk : (m : Mounted ℕ) × (gas_fill_super (disk 1073741824) ≡ mounted m)
mounted_disk =
    gas_fill_super-configure (disk 1073741824) (disk-IsWorking 1073741824) 1073741824 refl
      (omega arith) (omega arith)

gas_fill_super-MountedFrom_example : MountedFrom (disk 1073741824) mounted_disk.0
gas_fill_super-MountedFrom_example =
    gas_fill_super-MountedFrom (disk 1073741824) mounted_disk.0 mounted_disk.1

gas_fill_super_small_example : gas_fill_super (disk 524288) ≡ failed einval []
gas_fill_super_small_example =
    gas_fill_super_small (disk 524288) (disk-IsWorking 524288) 524288 refl (omega arith)
