-- ===== src/Kern/Inode/RoundTrip.antt =====
-- `gas_update_inode` and `gas_iget` of kern/gas_inode.c on one inode table
use native.Mathlib.Nat.{div-add-mod}
use gas_filesystem.Base.{
  ℕ, ◌+◌, ◌*◌, ◌/◌, ◌^◌, ◌<◌, ◌≡◌, refl, sym, ◌∙◌, ◌≢◌, inl, inr, false, ◌||◌, ◌==◌, arith, Option,
  none, some, length, get_elem?-set_self, get_elem?-set_ne, Option-cases, Bool-cases, ap, ==→eq,
  ==→ne, get_or,
}
use gas_filesystem.Kern.Types.{GasSbInfo, GasInode, GasInodeInfo, gas_inode_block, inode_size}
use gas_filesystem.Kern.Inode.{
  InodeBlock, InodeTable, s_ischr, s_isblk, gas_inode_offset, gas_get_inode, inode_at, store_inode,
  disk_inode, gas_update_inode, gas_inode_fill, set_ops, gas_iget, fresh, s_ifmt, InodeOps,
  file_ops, dir_ops, symlink_ops, special_ops, gas_set_inode, got,
}

-- The values fit the fields of the structure on disk.
pub record Fits (info : GasInodeInfo) : Type 0 where
  pub mode : info.i_mode < 2 ^ 16
  pub nlink : info.i_nlink < 2 ^ 16
  pub uid : info.i_uid < 2 ^ 32
  pub gid : info.i_gid < 2 ^ 32
  pub size : info.i_size < 2 ^ 32
  pub atime : (info.i_atime.tv_sec < 2 ^ 32) × (info.i_atime.tv_nsec ≡ 0)
  pub mtime : (info.i_mtime.tv_sec < 2 ^ 32) × (info.i_mtime.tv_nsec ≡ 0)
  pub ctime : (info.i_ctime.tv_sec < 2 ^ 32) × (info.i_ctime.tv_nsec ≡ 0)

-- The fields of `info`, but for those of `new` that are in memory alone
abbrev pub as_read : (info new : GasInodeInfo) → GasInodeInfo
as_read info new = record info {
  i_ino = new.i_ino;
  i_rdev = new.i_rdev;
  dirty = new.dirty;
  hashed = new.hashed;
}

-- Everything but the identity of the inode in memory is on disk.
gas_inode_fill-disk_inode :
    (encode : ℕ → ℕ) (info new : GasInodeInfo)
    → Fits info
    → (s_ischr info.i_mode || s_isblk info.i_mode) ≡ false
    → gas_inode_fill new (disk_inode encode info) ≡ as_read info new
unfolding gas_inode_fill disk_inode
gas_inode_fill-disk_inode encode info new fits plain = rw plain (ground (arith, fits))

-- Two inode numbers that share a block and an offset are one.
slot_injective :
    (sbi : GasSbInfo) (a b : ℕ)
    → gas_inode_block sbi a ≡ gas_inode_block sbi b
    → gas_inode_offset sbi a / inode_size ≡ gas_inode_offset sbi b / inode_size
    → a ≡ b
unfolding gas_inode_block gas_inode_offset
slot_injective sbi a b same_block same_offset = omega (
  arith,
  div-add-mod a sbi.s_inodes_per_block,
  div-add-mod b sbi.s_inodes_per_block,
  ap (λ (t : ℕ). sbi.s_inodes_per_block * t) (same_quotient same_block),
)
  where
    same_quotient :
        sbi.s_inode_list_start + a / sbi.s_inodes_per_block
          ≡ sbi.s_inode_list_start + b / sbi.s_inodes_per_block
        → a / sbi.s_inodes_per_block ≡ b / sbi.s_inodes_per_block
    same_quotient e = omega arith

-- The inode of a number, as the table has it
abbrev pub stored : GasSbInfo → InodeTable → ℕ → Option GasInode
stored sbi table ino = elim (table (gas_inode_block sbi ino)) [
  | none ↦ none
  | some bh ↦ inode_at bh (gas_inode_offset sbi ino)
]

-- The table has a place for the inode.
abbrev pub HasSlot : GasSbInfo → InodeTable → ℕ → Type 0
HasSlot sbi table ino =
    (bh : InodeBlock) × (table (gas_inode_block sbi ino) ≡ some bh)
    × (gas_inode_offset sbi ino / inode_size < length bh.inodes)

module _ (sbi : GasSbInfo) (table : InodeTable) (ino : ℕ) (bh : InodeBlock) (gnode : GasInode)
    (reads : table (gas_inode_block sbi ino) ≡ some bh) where
  abbrev pub after : InodeTable
  after = store_inode table (gas_inode_block sbi ino) bh (gas_inode_offset sbi ino) gnode

  pub stored-store_self :
      gas_inode_offset sbi ino / inode_size < length bh.inodes → stored sbi after ino ≡ some gnode
  unfolding store_inode
  stored-store_self inside =
      ground
        (arith, get_elem?-set_self bh.inodes (gas_inode_offset sbi ino / inode_size) gnode inside)

  pub stored-store_ne : (other : ℕ) → other ≢ ino → stored sbi after other ≡ stored sbi table other
  unfolding store_inode
  stored-store_ne other ne =
      elim (Bool-cases (gas_inode_block sbi other == gas_inode_block sbi ino)) [
        | inl same ↦
            let same_block = ==→eq _ _ same in
            ground (
              arith,
              reads,
              ap table same_block,
              get_elem?-set_ne bh.inodes _ _ gnode
                  λ e. ne (slot_injective sbi other ino same_block (sym e)),
            )
        | inr apart ↦ rw (apart, stored)
      ]

-- If the block of an inode can be read and has a place for it, `gas_update_inode` stores the inode
-- there, and leaves what is stored for every other inode number as it was.
pub gas_update_inode-stored :
    (encode : ℕ → ℕ) (sbi : GasSbInfo) (table : InodeTable) (info : GasInodeInfo)
    → HasSlot sbi table info.i_ino
    → (table' : InodeTable) × (gas_update_inode encode sbi table info ≡ some table')
      × (stored sbi table' info.i_ino ≡ some (disk_inode encode info))
      × ((ino : ℕ) → ino ≢ info.i_ino → stored sbi table' ino ≡ stored sbi table ino)
unfolding gas_update_inode gas_get_inode
gas_update_inode-stored encode sbi table info (bh, reads, inside) = (
  after sbi table info.i_ino bh (disk_inode encode info) reads,
  rw (reads, gas_update_inode),
  stored-store_self sbi table info.i_ino bh (disk_inode encode info) reads inside,
  stored-store_ne sbi table info.i_ino bh (disk_inode encode info) reads,
)

-- What `gas_iget` makes of a new inode
gas_iget-stored :
    (decode : ℕ → ℕ) (sbi : GasSbInfo) (table : InodeTable) (ino : ℕ) (new : GasInodeInfo)
    (gnode : GasInode)
    → stored sbi table ino ≡ some gnode
    → gas_iget decode sbi table ino (fresh new) ≡ set_ops decode (gas_inode_fill new gnode)
unfolding gas_iget
gas_iget-stored decode sbi table ino new gnode e =
    elim (Option-cases (table (gas_inode_block sbi ino))) [
      | inl none_read ↦ absurd (ground arith)
      | inr (bh, reads) ↦ rw (reads, gas_iget) (rw (rw (reads, stored) at e) refl)
    ]

-- The operations that belong to the type of a file: the four bits of the mode say which it is.
pub data HasOps (decode : ℕ → ℕ) (info : GasInodeInfo) : InodeOps → Type 0 where
  regular : s_ifmt info.i_mode ≡ 0o100000 → HasOps decode info file_ops
  directory : s_ifmt info.i_mode ≡ 0o040000 → HasOps decode info dir_ops
  link : s_ifmt info.i_mode ≡ 0o120000 → HasOps decode info symlink_ops
  special :
      s_ifmt info.i_mode ≢ 0o100000
      → s_ifmt info.i_mode ≢ 0o040000
      → s_ifmt info.i_mode ≢ 0o120000
      → HasOps decode info (special_ops (decode (get_or info.blkaddr 0 0)))

-- What `gas_set_inode` gives an inode that is no device
set_ops-HasOps :
    (decode : ℕ → ℕ) (info : GasInodeInfo)
    → (s_ischr info.i_mode || s_isblk info.i_mode) ≡ false
    → (op : InodeOps) × HasOps decode info op × (set_ops decode info ≡ got info (some op))
unfolding set_ops gas_set_inode
set_ops-HasOps decode info plain = elim (Bool-cases (s_ifmt info.i_mode == 0o100000)) [
  | inl reg ↦ (file_ops, regular (==→eq _ _ reg), rw (reg, set_ops, gas_set_inode) refl)
  | inr no_reg ↦ elim (Bool-cases (s_ifmt info.i_mode == 0o040000)) [
    | inl dir ↦ (dir_ops, directory (==→eq _ _ dir), rw (no_reg, dir, set_ops, gas_set_inode) refl)
    | inr no_dir ↦ elim (Bool-cases (s_ifmt info.i_mode == 0o120000)) [
      | inl lnk ↦
          (symlink_ops, link (==→eq _ _ lnk), rw (no_reg, no_dir, lnk, set_ops, gas_set_inode) refl)
      | inr no_lnk ↦ (
        special_ops (decode (get_or info.blkaddr 0 0)),
        special (==→ne _ _ no_reg) (==→ne _ _ no_dir) (==→ne _ _ no_lnk),
        rw (no_reg, no_dir, no_lnk, plain, set_ops, gas_set_inode) refl,
      )
    ]
  ]
]

-- If the block of an inode can be read and has a place for it, and the inode is no device and its
-- fields fit those on disk, then `gas_update_inode` succeeds, and `gas_iget` of its number into a
-- new inode gives it all its fields but those that exist in memory alone, with the operations of its
-- type: of a regular file, a directory or a symbolic link where the type in the mode says so, and of
-- a special file, with the device that the first address decodes to, for any other type.
pub gas_iget-gas_update_inode :
    (encode decode : ℕ → ℕ) (sbi : GasSbInfo) (table : InodeTable) (info new : GasInodeInfo)
    → HasSlot sbi table info.i_ino
    → Fits info
    → (s_ischr info.i_mode || s_isblk info.i_mode) ≡ false
    → (table' : InodeTable) × (gas_update_inode encode sbi table info ≡ some table')
      × (op : InodeOps) × HasOps decode (as_read info new) op
      × (gas_iget decode sbi table' info.i_ino (fresh new) ≡ got (as_read info new) (some op))
gas_iget-gas_update_inode encode decode sbi table info new slot fits plain =
    let (table', e, own, other) = gas_update_inode-stored encode sbi table info slot in
    let (op, is, set) = set_ops-HasOps decode (as_read info new) plain in
    (
      table',
      e,
      op,
      is,
      gas_iget-stored decode sbi table' info.i_ino new _ own
          ∙ (ap (set_ops decode) (gas_inode_fill-disk_inode encode info new fits plain) ∙ set),
    )
