-- ===== src/Kern/Namei/Lookup.antt =====
-- kern/gas_namei.c: `gas_lookup` and `gas_getattr`
use gas_filesystem.Base.{
  ℕ, ◌*◌, ◌/◌, ◌^◌, Option, none, some, List, ◌==◌, leb, if◌then◌else◌, length,
}
use gas_filesystem.Kern.Types.{GasSbInfo, GasInodeInfo, Errno, enametoolong, gas_max_name_len}
use gas_filesystem.Kern.Inode.{InodeTable, Locked, got, error, gas_iget}
use gas_filesystem.Kern.DirRead.{gas_inode_by_name}
use gas_filesystem.Kern.Itree.{gas_blocks}
use gas_filesystem.Kern.Dir.{Dir, Io}

-- `gas_lookup`: the error, and the inode that `d_add` gives the dentry. `locked` is what `iget_locked`
-- returns; the answer is `none` where `gas_inode_by_name` reads outside a page.
unfoldable pub gas_lookup :
    (new_decode_dev : ℕ → ℕ)
    → GasSbInfo
    → InodeTable
    → (locked : ℕ → Locked) → Io
    → Dir
    → List ℕ
    → Option (Option Errno × Option GasInodeInfo)
unfolding gas_inode_by_name gas_iget
gas_lookup new_decode_dev sbi table locked io dir name =
    if leb gas_max_name_len (length name)
    then some (some enametoolong, none)
    else elim (gas_inode_by_name io dir name) [
      | none ↦ none
      | some ino ↦
          if ino == 0
          then some (none, none)
          else elim (gas_iget new_decode_dev sbi table ino (locked ino)) [
            | got info op ↦ some (none, some info)
            | error e ↦ some (some e, none)
          ]
    ]

-- `gas_getattr`: `blocks`, in units of 512 bytes
unfoldable pub stat_blocks : (blocksize_bits size : ℕ) → ℕ
stat_blocks blocksize_bits size = 2 ^ blocksize_bits / 512 * gas_blocks blocksize_bits size
