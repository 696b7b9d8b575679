-- ===== src/Volume/Root.antt =====
-- makefs/mkfs.c, kern/gas_inode.c and kern/gas_dir.c: the root directory that mkfs wrote, as the module
-- finds it. Page `n` of a directory is the block at its direct address `n`.
use gas_filesystem.Base.{
  ℕ, zero, suc, ◌^◌, ◌≤◌, ◌<◌, ◌≡◌, refl, sym, arith, Option, none, some, List, [], ◌∷◌, get_elem?,
  Bool, true, false, get_or,
}
use gas_filesystem.Kern.Types.{GasInodeInfo, gas_inode_block}
use gas_filesystem.Kern.Inode.{
  InodeTable, dir_ops, gas_inode_offset, gas_inode_fill, gas_set_inode, set_ops, got, fresh,
  gas_iget,
}
use gas_filesystem.Kern.Dir.{
  DirEntry, Dir, page_slot, dir_slot, gas_dir_pages, gas_last_byte, same_prefix, is_entry, not_dot,
  gas_find_entry, gas_empty_dir,
}
use gas_filesystem.Kern.Super.{gas_super_block_fill}
use gas_filesystem.Makefs.Layout.{configure, init_super_block, inode_list_start}
use gas_filesystem.Makefs.Disk.{Buffers, Image}
use gas_filesystem.Makefs.Format.{Host, done, main}
use gas_filesystem.Makefs.Format.Dots.{root_inode}
use gas_filesystem.Makefs.Format.Whole.{IsFormatted, main-IsFormatted}

-- Behind the last byte nothing is found.
page_slot_end : (test : DirEntry → Bool) (rest : List DirEntry) → page_slot test 520 2 rest ≡ none
unfolding page_slot
page_slot_end test [] = refl
page_slot_end test (de ∷ rest) = refl

-- A directory of two entries
abbrev two_entries : (i_ino mtime ctime : ℕ) → (ℕ → Option (List DirEntry)) → Dir
two_entries i_ino mtime ctime pages = record {
  i_ino = i_ino;
  i_size = 520;
  i_mtime = mtime;
  i_ctime = ctime;
  dirty = false;
  pages = pages;
}

module _ (i_ino mtime ctime : ℕ) (pages : ℕ → Option (List DirEntry)) (ino : i_ino ≡ 1) where
  two_entries_lem :
      (page : List DirEntry)
      → pages 0 ≡ some page
      → get_elem? page 0 ≡ some (record { de_name = b'.' ∷ []; de_inode = 1 })
      → get_elem? page 1 ≡ some (record { de_name = b'.' ∷ b'.' ∷ []; de_inode = 1 })
      → (gas_find_entry (two_entries i_ino mtime ctime pages) (b'.' ∷ []) ≡ some (0, 0))
        × (gas_find_entry (two_entries i_ino mtime ctime pages) (b'.' ∷ b'.' ∷ []) ≡ some (0, 1))
        × (gas_empty_dir (two_entries i_ino mtime ctime pages) ≡ true)
  unfolding gas_find_entry gas_empty_dir dir_slot page_slot gas_dir_pages gas_last_byte is_entry
      same_prefix not_dot
  two_entries_lem [] read e e' = absurd (cc (e))
  two_entries_lem (a ∷ []) read e e' = absurd (cc (e'))
  two_entries_lem (a ∷ (b ∷ rest)) read e e' =
      let dot : a ≡ record { de_name = b'.' ∷ []; de_inode = 1 } = cc (e) in
      let dotdot : b ≡ record { de_name = b'.' ∷ b'.' ∷ []; de_inode = 1 } = cc (e') in
      let dir = two_entries i_ino mtime ctime pages in
      let none_left : page_slot (not_dot dir.i_ino) (gas_last_byte dir.i_size 0) 2 rest ≡ none =
        page_slot_end (not_dot i_ino) rest in
      (
        rw (dir_slot, read, dot) refl,
        rw (dir_slot, read, dot, dotdot) refl,
        rw (dir_slot, read, dot, dotdot, none_left, ino) refl,
      )

-- Where the module looks for inode 1
root_place :
    (size : ℕ)
    → 2 ^ 20 ≤ size
    → size < 2 ^ 31
    → let sbi = gas_super_block_fill (init_super_block (configure size)) in
      (gas_inode_block sbi 1 ≡ inode_list_start (configure size)) × (gas_inode_offset sbi 1 ≡ 64)
unfolding gas_inode_block gas_inode_offset gas_super_block_fill init_super_block configure
root_place size big small = (omega arith, refl)

module _ (buffers : Buffers) (disk : ℕ → buffers.Data) where
  -- The inode list that the module reads
  abbrev pub table_of : InodeTable
  table_of b = some (record { inodes = buffers.inodes (disk b); b_dirty = false })

  -- The inode as a directory
  abbrev pub dir_of : GasInodeInfo → Dir
  dir_of info = record {
    i_ino = info.i_ino;
    i_size = info.i_size;
    i_mtime = info.i_mtime.tv_sec;
    i_ctime = info.i_ctime.tv_sec;
    dirty = false;
    pages = λ n. some (buffers.entries (disk (get_or info.blkaddr n 0)));
  }

  -- The module finds the root directory, and in it itself under both names and nothing else.
  pub record IsRootDir (size : ℕ) (host : Host) (new_decode_dev : ℕ → ℕ) (info root : GasInodeInfo)
      : Type 0 where
    pub iget :
        gas_iget new_decode_dev
          (gas_super_block_fill (init_super_block (configure size)))
          table_of
          1
          (fresh info)
        ≡ got root (some dir_ops)
    pub links : root.i_nlink ≡ 2
    pub block : get_or root.blkaddr 0 0 ≡ (configure size).data_st
    pub dot : gas_find_entry (dir_of root) (b'.' ∷ []) ≡ some (0, 0)
    pub dotdot : gas_find_entry (dir_of root) (b'.' ∷ b'.' ∷ []) ≡ some (0, 1)
    pub to_itself :
        (s : ℕ)
        → s < 2
        → (de : DirEntry) × (get_elem? (buffers.entries (disk (configure size).data_st)) s
            ≡ some de)
          × (de.de_inode ≡ root.i_ino)
    pub empty : gas_empty_dir (dir_of root) ≡ true

  formatted-IsRootDir :
      (size : ℕ) (host : Host) (before : ℕ → buffers.Data) (new_decode_dev : ℕ → ℕ)
      (info : GasInodeInfo)
      → IsFormatted buffers (configure size) host before disk
      → 2 ^ 20 ≤ size
      → size < 2 ^ 31
      → info.i_ino ≡ 1
      → IsRootDir size host new_decode_dev info
          (gas_inode_fill info (root_inode host (configure size).data_st))
  unfolding gas_iget gas_inode_fill set_ops gas_set_inode
  formatted-IsRootDir size host before new_decode_dev info f big small ino =
      let gas = configure size in
      let root = gas_inode_fill info (root_inode host gas.data_st) in
      let (block, offset) = root_place size big small in
      let (dot, dotdot, empty) =
        two_entries_lem info.i_ino _ _ _ ino (buffers.entries (disk gas.data_st)) refl f.dots.dot
          f.dots.dotdot in
      record {
        iget = rw (block, offset, f.root, gas_iget) refl;
        links = refl;
        block = refl;
        dot = dot;
        dotdot = dotdot;
        to_itself = λ s lt. by_slot s lt (sym ino) f.dots.dot f.dots.dotdot;
        empty = empty;
      }
    where
      by_slot :
          (s : ℕ)
          → s < 2
          → 1 ≡ info.i_ino
          → get_elem? (buffers.entries (disk (configure size).data_st)) 0
            ≡ some (record { de_name = b'.' ∷ []; de_inode = 1 })
          → get_elem? (buffers.entries (disk (configure size).data_st)) 1
            ≡ some (record { de_name = b'.' ∷ b'.' ∷ []; de_inode = 1 })
          → (de : DirEntry) × (get_elem? (buffers.entries (disk (configure size).data_st)) s
              ≡ some de)
            × (de.de_inode ≡ info.i_ino)
      by_slot zero lt ino e e' = (_, e, ino)
      by_slot (suc zero) lt ino e e' = (_, e', ino)
      by_slot (suc (suc s)) lt ino e e' = absurd (omega arith)

-- For any layout of blocks, a disk of at least 2 ^ 20 and fewer than 2 ^ 31 bytes and an empty
-- cache, `main` of mkfs returns, and on the disk that it leaves `gas_iget` of inode 1, into a new
-- inode of that number, gives a directory with two links and with the first block of the data area
-- as its first block; `gas_find_entry` finds `.` and `..` there, at its first two entries, both of
-- which lead to this inode, and `gas_empty_dir` finds nothing else.
pub main-IsRootDir :
    (buffers : Buffers) (host : Host) (size : ℕ) (before : Image buffers) (new_decode_dev : ℕ → ℕ)
    (info : GasInodeInfo)
    → before.cache ≡ []
    → 2 ^ 20 ≤ size
    → size < 2 ^ 31
    → info.i_ino ≡ 1
    → (im : Image buffers) × (main buffers host size before ≡ done tt im)
      × (root : GasInodeInfo) × IsRootDir buffers im.disk size host new_decode_dev info root
main-IsRootDir buffers host size before new_decode_dev info empty big small ino =
    let (im, e, f) = main-IsFormatted buffers host size before empty big small in
    (
      im,
      e,
      _,
      formatted-IsRootDir buffers im.disk size host before.disk new_decode_dev info f big small ino,
    )
