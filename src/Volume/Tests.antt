-- ===== src/Volume/Tests.antt =====
-- A disk of 16 MiB that mkfs formats and the module mounts
use gas_filesystem.Base.{ℕ, ◌≡◌, refl, arith, none, some, [], true, false}
use gas_filesystem.Kern.Types.{GasInodeInfo, Timespec}
use gas_filesystem.Kern.Bitmap.{BufferHead}
use gas_filesystem.Kern.Super.{Device, Mounted, mounted, gas_fill_super}
use gas_filesystem.Kern.Super.Formatted.{IsWorking}
use gas_filesystem.Kern.Tests.Bits.{function_bits}
use gas_filesystem.Makefs.Bitmap.Search.{bit_of}
use gas_filesystem.Makefs.Disk.{Image}
use gas_filesystem.Makefs.Format.{done, main}
use gas_filesystem.Makefs.Tests.Cells.{Cell, cells}
use gas_filesystem.Makefs.Tests.Disks.{numbered, nobody}
use gas_filesystem.Volume.{SameBits, IsDisk, IsFresh, main-gas_fill_super}
use gas_filesystem.Volume.Root.{IsRootDir, main-IsRootDir}

cell_bits : SameBits cells function_bits
cell_bits = record { decode = λ d i. bit_of (cells.words d) i; same = λ d i lt. refl }

-- A driver that reads the disk, in a kernel that always has memory
abbrev driver : (ℕ → Cell) → Device (BufferHead function_bits)
driver disk = record {
  bread_super = λ b. some (disk b).sb;
  bread = λ b. some (record { b_data = cell_bits.decode (disk b); b_dirty = false });
  set_blocksize = λ size. true;
  kzalloc_sbi = true;
  iget_root = λ ino. none;
  make_root = true;
}

driver-IsDisk : (disk : ℕ → Cell) → IsDisk cells function_bits cell_bits disk (driver disk)
driver-IsDisk disk = record { bread = λ b. refl; bread_super = refl }

driver-IsWorking : (disk : ℕ → Cell) → IsWorking (driver disk)
driver-IsWorking disk = record {
  allocates = refl;
  reads = λ b e. absurd (cc (e));
  blocksize = refl;
  root = refl;
  makes_root = refl;
}

main-gas_fill_super_example :
    (im : Image cells) × (main cells nobody 16777216 numbered ≡ done tt im)
    × (m : Mounted (BufferHead function_bits)) × (gas_fill_super (driver im.disk) ≡ mounted m)
    × IsFresh cells function_bits cell_bits 16777216 m
main-gas_fill_super_example =
    main-gas_fill_super cells function_bits cell_bits driver driver-IsDisk driver-IsWorking nobody
      16777216 numbered refl (omega arith) (omega arith)

abbrev at_zero : Timespec
at_zero = record { tv_sec = 0; tv_nsec = 0 }

-- What `iget_locked` makes of inode 1
abbrev fresh_root : GasInodeInfo
fresh_root = record {
  blkaddr = [];
  i_ino = 1;
  i_mode = 0;
  i_nlink = 0;
  i_uid = 0;
  i_gid = 0;
  i_size = 0;
  i_atime = at_zero;
  i_mtime = at_zero;
  i_ctime = at_zero;
  i_rdev = 0;
  dirty = false;
  hashed = false;
}

main-IsRootDir_example :
    (im : Image cells) × (main cells nobody 16777216 numbered ≡ done tt im)
    × (root : GasInodeInfo) × IsRootDir cells im.disk 16777216 nobody (λ n. n) fresh_root root
main-IsRootDir_example =
    main-IsRootDir cells nobody 16777216 numbered (λ n. n) fresh_root refl (omega arith)
      (omega arith) refl
