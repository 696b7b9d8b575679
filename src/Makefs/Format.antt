-- ===== src/Makefs/Format.antt =====
-- makefs/mkfs.c: what `main` writes to the image. `exit` ends a run with its code and the image; a run
-- is at fault where the C code reads or writes outside an object. `uid`, `gid` and `now` are what
-- `getuid`, `getgid` and `time` return. Messages are left out.
pub mod Alloc
pub mod Inode
pub mod Dots
pub mod Root
pub mod Whole
use mathlib.Core.Option
use gas_filesystem.Base.{
  ℕ, zero, suc, ◌+◌, ◌-◌, ◌*◌, ◌/◌, ◌%◌, Option, none, some, List, [], ◌∷◌, ◌==◌, ◌&&◌, not, ltb,
  leb, Bool, true, false, if◌then◌else◌, get_elem?, get_or, set,
}
use gas_filesystem.Kern.Types.{
  GasInode, gas_block_size, bits_per_block, gas_root_ino, gas_max_name_len, dir_entry_size,
  super_block_no, u16, u32,
}
use gas_filesystem.Kern.Inode.{s_isdir}
use gas_filesystem.Kern.Dir.{DirEntry, copy_name}
use gas_filesystem.Makefs.Region.{bitmap_set, bitmap_alloc_region, bitmap_free_region}
use gas_filesystem.Makefs.Layout.{
  FilesysParam, configure, bam_block_start, iam_block_start, inode_list_start, inodes_per_block,
  init_super_block,
}
use gas_filesystem.Makefs.Init.{init_block_alloc_map, init_inode_alloc_map, init_inode_list}
use gas_filesystem.Makefs.Disk.{
  Buffers, Image, write_block, bc_find, bc_read, poke, bc_write, bc_sync,
}

pub record Host : Type 0 where
  pub uid : ℕ
  pub gid : ℕ
  pub now : ℕ

-- What `new_inode` stores into an inode, but for the address
unfoldable pub filled : Host → (mode : ℕ) → GasInode → GasInode
filled host mode ino = record ino {
  i_size = 0;
  i_nlink = if s_isdir mode then 2 else 1;
  i_uid = u32 host.uid;
  i_gid = u32 host.gid;
  i_mode = u16 mode;
  i_ctime = u32 host.now;
  i_atime = u32 host.now;
  i_mtime = u32 host.now;
}

-- `S_IFDIR | 0755`
abbrev pub root_mode : ℕ
root_mode = 0o040755

module _ (buffers : Buffers) where
  open buffers use {
    Data, zeros, ones, words, put_words, inodes, put_inodes, entries, put_entries, put_super_block,
  }

  pub data Run (A : Type 0) : Type 0 where
    done : A → Image buffers → Run A
    exited : (code : ℕ) → Image buffers → Run A
    fault : Run A

  abbrev pub M : Type 0 → Type 0
  M A = Image buffers → Run A

  infixl 5 ◌>>=◌ ◌>>◌
  abbrev pub ◌>>=◌ : {A B : Type 0} → M A → (A → M B) → M B
  ◌>>=◌ m f im = elim (m im) [
    | done a im' ↦ f a im'
    | exited code im' ↦ exited code im'
    | fault ↦ fault
  ]

  abbrev pub ◌>>◌ : {B : Type 0} → M (Unit {0}) → M B → M B
  ◌>>◌ m k = m >>= λ _. k

  abbrev pub ret : {A : Type 0} → A → M A
  ret a im = done a im

  abbrev pub exit : {A : Type 0} → (code : ℕ) → M A
  exit code im = exited code im

  abbrev pub of_option : {A : Type 0} → Option A → M A
  of_option o im = elim o [ none ↦ fault | some a ↦ done a im ]

  abbrev pub modify : (Image buffers → Image buffers) → M (Unit {0})
  modify f im = done tt (f im)

  abbrev pub attempt : (Image buffers → Option (Image buffers)) → M (Unit {0})
  attempt f im = elim (f im) [ none ↦ fault | some im' ↦ done tt im' ]

  abbrev pub read : ℕ → M Data
  read blk_id im = let r = bc_read buffers blk_id im in done r.0 r.1

  -- What a pointer to a cached block points to
  unfoldable pub deref : ℕ → M Data
  deref blk_id im = elim (bc_find buffers blk_id im.cache) [
    | none ↦ fault
    | some it ↦ done it.block im
  ]

  -- The loop of `allocate_blk` from bitmap block `i` on; `n` has no value before the first round.
  unfoldable pub allocate_loop : (blocks left i : ℕ) → (n : Option ℕ) → M ℕ
  unfolding bc_read poke bc_write bitmap_alloc_region
  allocate_loop blocks zero i n = of_option n
  allocate_loop blocks (suc left) i n =
      let more = allocate_loop blocks left (i + 1) (some 0) in
      do
        d ← read (bam_block_start + i)
        r ← of_option (bitmap_alloc_region (words d) bits_per_block 0 blocks)
        modify (poke buffers (bam_block_start + i) (λ d. put_words d r.1))
        if r.0 == 0 then more else (do
          modify (bc_write buffers (bam_block_start + i) false)
          ret (u32 (r.0 + i * bits_per_block)))

  unfoldable pub allocate_blk : FilesysParam → (blocks : ℕ) → M ℕ
  unfolding allocate_loop
  allocate_blk gas blocks = allocate_loop blocks gas.bam_blk 0 none

  unfoldable pub allocate_inode : FilesysParam → M ℕ
  unfolding bc_read poke bc_write bitmap_alloc_region
  allocate_inode gas = do
    d ← read (iam_block_start gas)
    r ← of_option (bitmap_alloc_region (words d) bits_per_block gas_root_ino 1)
    modify (poke buffers (iam_block_start gas) (λ d. put_words d r.1))
    modify (if r.0 == 0 then (λ im. im) else bc_write buffers (iam_block_start gas) false)
    ret (u32 r.0)

  unfoldable pub free_inode : FilesysParam → ℕ → M (Unit {0})
  unfolding bc_read poke bc_write bitmap_free_region
  free_inode gas ino_id = do
    d ← read (iam_block_start gas)
    if leb inodes_per_block ino_id then ret tt else (do
      ws ← of_option (bitmap_free_region (words d) ino_id 1)
      modify (poke buffers (iam_block_start gas) (λ d. put_words d ws))
      modify (bc_write buffers (iam_block_start gas) false))

  -- `get_inode`: the number of the inode in the first block of the inode list, or NULL
  unfoldable pub get_inode : FilesysParam → ℕ → M (Option ℕ)
  unfolding bc_read
  get_inode gas ino_id = do
    d ← read (inode_list_start gas)
    ret (if leb inodes_per_block ino_id then none else some ino_id)

  -- `*ino` of a pointer that `get_inode` returned, and a store through it
  unfoldable pub inode_ptr : FilesysParam → ℕ → M GasInode
  inode_ptr gas ino_id = do
    d ← deref (inode_list_start gas)
    of_option (get_elem? (inodes d) ino_id)

  unfoldable pub store_ptr : FilesysParam → ℕ → (GasInode → GasInode) → M (Unit {0})
  store_ptr gas ino_id f = do
    ino ← inode_ptr gas ino_id
    modify (poke buffers (inode_list_start gas) (λ d. put_inodes d (set (inodes d) ino_id (f ino))))

  -- `new_inode` from the call of `allocate_blk` on
  unfoldable pub fill_inode : FilesysParam → Host → (mode block_count ino_id : ℕ) → M ℕ
  fill_inode gas host mode block_count ino_id = do
    blk ← allocate_blk gas block_count
    store_ptr gas ino_id (λ ino. record ino { i_blkaddr = set ino.i_blkaddr 0 blk })
    if blk == 0 then (free_inode gas ino_id >> ret 0) else (do
      store_ptr gas ino_id (filled host mode)
      modify (bc_write buffers (inode_list_start gas) false)
      ret ino_id)

  unfoldable pub new_inode : FilesysParam → Host → (mode byte_size : ℕ) → M ℕ
  new_inode gas host mode byte_size = do
    ino_id ← allocate_inode gas
    if ino_id == 0 then ret 0 else (do
      ino ← get_inode gas ino_id
      elim ino [
        | none ↦ exit 1
        | some i ↦ fill_inode gas host mode ((byte_size + gas_block_size - 1) / gas_block_size) i
      ])

  -- The entry at a byte offset of a block that holds fifteen entries; a store behind them is a fault.
  unfoldable pub put_entry : (offset : ℕ) → DirEntry → Data → Option Data
  put_entry offset de d =
      if offset % dir_entry_size == 0
      then elim (get_elem? (entries d) (offset / dir_entry_size)) [
        | none ↦ none
        | some _ ↦ some (put_entries d (set (entries d) (offset / dir_entry_size) de))
      ]
      else none

  unfoldable pub gas_add_dentry :
      FilesysParam → (ino_id : ℕ) → (name : List ℕ) → (new_ino : ℕ) → M (Unit {0})
  gas_add_dentry gas ino_id name new_ino = do
    ino ← inode_ptr gas ino_id
    if leb gas_block_size ino.i_size then (modify (bc_sync buffers) >> exit 1) else (do
      let blk_id = u32 (get_or ino.i_blkaddr 0 0 + ino.i_size / gas_block_size)
      d ← read blk_id
      d' ← of_option (
          put_entry (ino.i_size % gas_block_size)
            (record { de_name = copy_name (gas_max_name_len - 1) name; de_inode = new_ino }) d)
      modify (poke buffers blk_id (λ _. d'))
      store_ptr gas ino_id (λ ino. record ino { i_size = u32 (ino.i_size + dir_entry_size) })
      modify (bc_write buffers blk_id false))

  unfoldable pub make_rootdir : FilesysParam → Host → M (Unit {0})
  make_rootdir gas host = do
    ino_id ← new_inode gas host root_mode (64 * dir_entry_size)
    if ino_id == 0 then (modify (bc_sync buffers) >> exit 1) else (do
      ino ← get_inode gas ino_id
      elim ino [
        | none ↦ (λ im. fault)
        | some i ↦
            gas_add_dentry gas i (b'.' ∷ []) gas_root_ino
            >> gas_add_dentry gas i (b'.' ∷ b'.' ∷ []) gas_root_ino
      ])

  -- `main`, for the size of the image in bytes
  unfoldable pub main : Host → (size : ℕ) → M (Unit {0})
  main host size = do
    let gas = configure size
    modify (write_block buffers super_block_no (put_super_block zeros (init_super_block gas)))
    attempt (init_block_alloc_map buffers gas)
    attempt (init_inode_alloc_map buffers gas)
    modify (init_inode_list buffers gas)
    make_rootdir gas host
    modify (bc_sync buffers)
