-- ===== src/Kern/Inode.antt =====
-- kern/gas_inode.c: inodes between memory and the inode list on disk.
-- A block of the inode list is the list of its inodes with the dirty mark of its buffer, and the table
-- says for each block what `sb_bread` returns. A pointer into a block is its offset in bytes.
-- `new_encode_dev` and `new_decode_dev` of the kernel are parameters.
pub mod RoundTrip
use Prim.Native.Nat.{bit_and}
use gas_filesystem.Base.{
  ℕ, ◌+◌, ◌*◌, ◌/◌, ◌%◌, ◌^◌, Option, none, some, List, [], ◌∷◌, ◌==◌, ◌||◌, ◌&&◌, Bool, true,
  false, if◌then◌else◌, get_elem?, get_or, set, replicate,
}
use gas_filesystem.Kern.Types.{
  GasSbInfo, GasInode, GasInodeInfo, Timespec, Errno, eio, enomem, gas_inode_block, inode_size, u16,
  u32,
}

-- `i_mode & S_IFMT` and the tests of linux/stat.h
abbrev pub s_ifmt : ℕ → ℕ
s_ifmt mode = bit_and mode 0o170000

abbrev pub s_isreg : ℕ → Bool
s_isreg mode = s_ifmt mode == 0o100000

abbrev pub s_isdir : ℕ → Bool
s_isdir mode = s_ifmt mode == 0o040000

abbrev pub s_islnk : ℕ → Bool
s_islnk mode = s_ifmt mode == 0o120000

abbrev pub s_ischr : ℕ → Bool
s_ischr mode = s_ifmt mode == 0o020000

abbrev pub s_isblk : ℕ → Bool
s_isblk mode = s_ifmt mode == 0o060000

-- A buffer of the inode list
pub record InodeBlock : Type 0 where
  pub inodes : List GasInode
  pub b_dirty : Bool

abbrev pub InodeTable : Type 0
InodeTable = ℕ → Option InodeBlock

unfoldable pub gas_inode_offset : GasSbInfo → ℕ → ℕ
gas_inode_offset sbi ino = inode_size * (ino % sbi.s_inodes_per_block)

-- Where an inode stands: its block, if that can be read, and the offset in it
unfoldable pub gas_get_inode : GasSbInfo → InodeTable → ℕ → Option (InodeBlock × ℕ)
gas_get_inode sbi table ino = elim (table (gas_inode_block sbi ino)) [
  | none ↦ none
  | some bh ↦ some (bh, gas_inode_offset sbi ino)
]

-- The structure at an offset
abbrev pub inode_at : InodeBlock → ℕ → Option GasInode
inode_at bh offset = get_elem? bh.inodes (offset / inode_size)

-- A store through the pointer, and `mark_buffer_dirty`
unfoldable pub store_inode : InodeTable → ℕ → InodeBlock → ℕ → GasInode → InodeTable
store_inode table block bh offset gnode b =
    if b == block
    then some (record { inodes = set bh.inodes (offset / inode_size) gnode; b_dirty = true })
    else table b

module _ (new_encode_dev : ℕ → ℕ) where
  -- The assignments of `gas_update_inode`
  unfoldable pub disk_inode : GasInodeInfo → GasInode
  disk_inode info = record {
    i_mode = u16 info.i_mode;
    i_nlink = u16 info.i_nlink;
    i_uid = u32 info.i_uid;
    i_gid = u32 info.i_gid;
    i_size = u32 info.i_size;
    i_atime = u32 info.i_atime.tv_sec;
    i_mtime = u32 info.i_mtime.tv_sec;
    i_ctime = u32 info.i_ctime.tv_sec;
    i_blkaddr =
        if s_ischr info.i_mode || s_isblk info.i_mode
        then u32 (new_encode_dev info.i_rdev) ∷ replicate 8 0
        else info.blkaddr;
  }

  -- `none` is the null pointer after a failed read.
  unfoldable pub gas_update_inode : GasSbInfo → InodeTable → GasInodeInfo → Option InodeTable
  gas_update_inode sbi table info = elim (gas_get_inode sbi table info.i_ino) [
    | none ↦ none
    | some (bh, offset) ↦
        some (store_inode table (gas_inode_block sbi info.i_ino) bh offset (disk_inode info))
  ]

  -- `sync_all` is `ctrl->sync_mode == WB_SYNC_ALL`, and `write_fails` says that the buffer is not up to
  -- date after `sync_dirty_buffer`.
  unfoldable pub gas_write_inode :
      GasSbInfo
      → InodeTable
      → GasInodeInfo
      → (sync_all write_fails : Bool) → Option Errno × InodeTable
  gas_write_inode sbi table info sync_all write_fails = elim (gas_update_inode sbi table info) [
    | none ↦ (some eio, table)
    | some table' ↦
        if sync_all
        then (if write_fails then (some eio, table') else (none, table'))
        else (none, table')
  ]

-- `gas_inode_fill` leaves the other fields of the inode alone.
unfoldable pub gas_inode_fill : GasInodeInfo → GasInode → GasInodeInfo
gas_inode_fill info gnode = record info {
  i_mode = gnode.i_mode;
  i_size = gnode.i_size;
  i_ctime = record { tv_sec = gnode.i_ctime; tv_nsec = 0 };
  i_atime = record { tv_sec = gnode.i_atime; tv_nsec = 0 };
  i_mtime = record { tv_sec = gnode.i_mtime; tv_nsec = 0 };
  i_uid = gnode.i_uid;
  i_gid = gnode.i_gid;
  i_nlink = gnode.i_nlink;
  blkaddr = gnode.i_blkaddr;
}

-- The operations that `gas_set_inode` gives an inode
pub data InodeOps : Type 0 where
  file_ops dir_ops symlink_ops : InodeOps
  special_ops : (rdev : ℕ) → InodeOps

unfoldable pub gas_set_inode : GasInodeInfo → ℕ → InodeOps
gas_set_inode info rdev =
    if s_isreg info.i_mode
    then file_ops
    else if s_isdir info.i_mode
    then dir_ops
    else if s_islnk info.i_mode
    then symlink_ops
    else special_ops rdev

-- What `iget_locked` returns: no memory, an inode that is in use, or a new one to be filled
pub data Locked : Type 0 where
  no_memory : Locked
  cached : GasInodeInfo → Locked
  fresh : GasInodeInfo → Locked

pub data Iget : Type 0 where
  got : GasInodeInfo → Option InodeOps → Iget
  error : Errno → Iget

-- `gas_set_inode` with the device number in the first block address. `init_special_inode` sets `i_rdev`
-- of character and block devices, and leaves that of pipes and sockets alone.
unfoldable pub set_ops : (new_decode_dev : ℕ → ℕ) → GasInodeInfo → Iget
set_ops new_decode_dev info =
    let rdev = new_decode_dev (get_or info.blkaddr 0 0) in
    elim (gas_set_inode info rdev) [
      | special_ops dev ↦
          let info' =
            if s_ischr info.i_mode || s_isblk info.i_mode
            then record info { i_rdev = dev }
            else info in
          got info' (some (special_ops dev))
      | other ↦ got info (some other)
    ]

-- An inode that is in use keeps its operations, hence no new ones.
unfoldable pub gas_iget : (new_decode_dev : ℕ → ℕ) → GasSbInfo → InodeTable → ℕ → Locked → Iget
gas_iget new_decode_dev sbi table ino no_memory = error enomem
gas_iget new_decode_dev sbi table ino (cached info) = got info none
gas_iget new_decode_dev sbi table ino (fresh info) = elim (table (gas_inode_block sbi ino)) [
  | none ↦ error eio
  | some bh ↦ elim (inode_at bh (gas_inode_offset sbi ino)) [
    | none ↦ error eio
    | some gnode ↦ set_ops new_decode_dev (gas_inode_fill info gnode)
  ]
]
