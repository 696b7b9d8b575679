-- ===== src/Kern/Namei.antt =====
-- kern/gas_namei.c: the operations on names. The inodes in memory are a function from their numbers; a
-- dentry is the name and, once there is one, the number of its inode. The reference counts of inodes
-- change as the module asks for; what the kernel does when one becomes 0 is not part of the model.
pub mod Rename
pub mod Lookup
pub mod Links
pub mod Unlink
pub mod Target
use gas_filesystem.Base.{
  ℕ, ◌+◌, ◌-◌, ◌*◌, ◌/◌, ◌%◌, ◌^◌, ◌≡◌, ◌<◌, Option, none, some, List, [], ◌∷◌, ◌==◌, not, ltb, leb,
  Bool, true, false, ◌&&◌, if◌then◌else◌, length,
}
use gas_filesystem.Kern.Types.{
  GasSbInfo, GasInodeInfo, Errno, eio, enoent, einval, enotempty, enametoolong, u32,
  gas_max_name_len,
}
use gas_filesystem.Kern.Inode.{
  InodeOps, InodeTable, Locked, Iget, got, error, gas_iget, gas_set_inode, s_isdir,
}
use gas_filesystem.Kern.DirRead.{gas_inode_by_name}
use gas_filesystem.Kern.BitOps.{BitOps}
use gas_filesystem.Kern.Bitmap.{Bitmap}
use gas_filesystem.Kern.Ialloc.{gas_new_inode}
use gas_filesystem.Kern.Itree.{gas_blocks}
use gas_filesystem.Kern.Dir.{Dir, Io, Slot, gas_find_entry, gas_empty_dir}
use gas_filesystem.Kern.DirWrite.{
  gas_add_link, gas_delete_entry, gas_set_link, gas_make_empty, gas_dotdot,
}

-- An inode in memory: `dir` has what directories need, and the size and the times of any inode
pub record Node : Type 0 where
  pub i_mode : ℕ
  pub i_nlink : ℕ
  pub i_count : ℕ
  pub i_op : Option InodeOps
  pub dir : Dir

-- What the kernel makes of the counters of an inode: `inode_inc_link_count` and
-- `inode_dec_link_count` (also `drop_nlink`) of the links, `ihold` and `iput` of the references
pub record Counters : Type 0 where
  pub inc_nlink : ℕ → ℕ
  pub dec_nlink : ℕ → ℕ
  pub hold : ℕ → ℕ
  pub put : ℕ → ℕ
  pub dec-inc : (n : ℕ) → n < 2 ^ 32 → dec_nlink (inc_nlink n) ≡ n

module _ (ops : BitOps) where
  pub record Vfs : Type 0 where
    pub node : ℕ → Node
    pub iam : Bitmap ops

  -- The error, the inode that the dentry gets, and the inodes
  abbrev pub Result : Type 0
  Result = Option Errno × Option ℕ × Vfs

  unfoldable pub update : ℕ → (Node → Node) → Vfs → Vfs
  update ino change vfs = record vfs {
    node = λ n. if n == ino then change (vfs.node n) else vfs.node n;
  }

  abbrev pub set_dir : ℕ → Dir → Vfs → Vfs
  set_dir ino d vfs = update ino (λ n. record n { dir = d }) vfs

  abbrev pub dirty_dir : Dir → Dir
  dirty_dir d = record d { dirty = true }

  module _ (counters : Counters) where
    open counters use {inc_nlink, dec_nlink, hold, put}

    -- `inode_inc_link_count` and `inode_dec_link_count` mark the inode dirty.
    unfoldable pub inc_link_count : ℕ → Vfs → Vfs
    unfolding update
    inc_link_count ino vfs =
        update ino (λ n. record n { i_nlink = inc_nlink n.i_nlink; dir = dirty_dir n.dir }) vfs

    unfoldable pub dec_link_count : ℕ → Vfs → Vfs
    unfolding update
    dec_link_count ino vfs =
        update ino (λ n. record n { i_nlink = dec_nlink n.i_nlink; dir = dirty_dir n.dir }) vfs

    -- `ihold` and `iput`
    abbrev pub ihold : ℕ → Vfs → Vfs
    ihold ino vfs = update ino (λ n. record n { i_count = hold n.i_count }) vfs

    abbrev pub iput : ℕ → Vfs → Vfs
    iput ino vfs = update ino (λ n. record n { i_count = put n.i_count }) vfs

    module _ (io : Io) where
      -- `gas_add_link` in the directory `parent`
      abbrev pub link_in : (parent : ℕ) → List ℕ → ℕ → Vfs → Option Errno × Vfs
      link_in parent name ino vfs =
          let (err, d) = gas_add_link io (vfs.node parent).dir name ino in
          (err, set_dir parent d vfs)

      unfoldable pub add_nondir : (parent : ℕ) → List ℕ → ℕ → Vfs → Result
      unfolding update
      add_nondir parent name ino vfs =
          let (err, vfs') = link_in parent name ino vfs in
          elim err [ none ↦ (none, some ino, vfs') | some e ↦ (some e, none, iput ino vfs') ]

      -- `gas_link`
      unfoldable pub gas_link : (ino parent : ℕ) → List ℕ → Vfs → Result
      unfolding add_nondir inc_link_count
      gas_link ino parent name vfs =
          let stamped =
            update ino (λ n. record n { dir = record (n.dir) { i_ctime = io.now } }) vfs in
          add_nondir parent name ino (ihold ino (inc_link_count ino stamped))

      -- `gas_unlink` of a dentry whose inode is `ino`
      unfoldable pub gas_unlink : (parent : ℕ) → List ℕ → (ino : ℕ) → Vfs → Option Errno × Vfs
      unfolding update dec_link_count
      gas_unlink parent name ino vfs = elim (gas_find_entry (vfs.node parent).dir name) [
        | none ↦ (some enoent, vfs)
        | some slot ↦
            let (err, d) = gas_delete_entry io (vfs.node parent).dir slot in
            let deleted = set_dir parent d vfs in
            let stamped =
              update ino (λ n. record n { dir = record (n.dir) { i_ctime = d.i_ctime } }) deleted in
            elim err [ some e ↦ (some e, deleted) | none ↦ (none, dec_link_count ino stamped) ]
      ]

      unfoldable pub gas_rmdir : (parent : ℕ) → List ℕ → (ino : ℕ) → Vfs → Option Errno × Vfs
      unfolding gas_unlink
      gas_rmdir parent name ino vfs =
          let (err, vfs') = gas_unlink parent name ino vfs in
          if gas_empty_dir (vfs.node ino).dir
          then elim err [
            | some e ↦ (some e, vfs')
            | none ↦ (none, dec_link_count ino (dec_link_count parent vfs'))
          ]
          else (some enotempty, vfs)

      module _ (sbi : GasSbInfo) (fresh : Option GasInodeInfo) where
        -- The inode that `gas_new_inode` returns, in memory; `new_inode` gives it one link and one
        -- reference.
        abbrev pub born : GasInodeInfo → Node
        born info = record {
          i_mode = info.i_mode;
          i_nlink = 1;
          i_count = 1;
          i_op = none;
          dir = record {
            i_ino = info.i_ino;
            i_size = 0;
            i_mtime = io.now;
            i_ctime = io.now;
            dirty = true;
            pages = λ n. none;
          };
        }

        -- `gas_new_inode`, with what follows when there is one
        unfoldable pub with_new_inode :
            (init_owner : GasInodeInfo → GasInodeInfo)
            → Vfs
            → (Option Errno → Result)
            → (GasInodeInfo → Vfs → Result)
            → Result
        unfolding gas_new_inode update
        with_new_inode init_owner vfs failed made =
            let (err, inode, iam') = gas_new_inode ops init_owner io.now sbi vfs.iam fresh in
            elim inode [
              | none ↦ failed err
              | some info ↦
                  made info (update info.i_ino (λ _. born info) (record vfs { iam = iam' }))
            ]

        -- `gas_mknod`; `new_valid_dev` of the kernel is `valid`.
        unfoldable pub gas_mknod :
            (init_owner : GasInodeInfo → GasInodeInfo)
            → (valid : Bool) → (parent : ℕ) → List ℕ
            → (rdev : ℕ) → Vfs
            → Result
        unfolding with_new_inode add_nondir
        gas_mknod init_owner valid parent name rdev vfs =
            let made : Result =
              with_new_inode init_owner vfs (λ err. (err, none, vfs))
                λ info vfs'. add_nondir parent name info.i_ino (
                  update info.i_ino (λ n. record n { i_op = some (gas_set_inode info rdev) })
                    vfs') in
            if valid then made else (some einval, none, vfs)

        unfoldable pub gas_create :
            (init_owner : GasInodeInfo → GasInodeInfo) → (parent : ℕ) → List ℕ → Vfs → Result
        unfolding with_new_inode add_nondir
        gas_create init_owner parent name vfs =
            with_new_inode init_owner vfs (λ err. (err, none, vfs))
              λ info vfs'.
                add_nondir parent name info.i_ino
                  (update info.i_ino (λ n. record n { i_op = some (gas_set_inode info 0) }) vfs')

        -- `gas_symlink` to `symname`; `page_symlink` of the kernel is a parameter.
        unfoldable pub gas_symlink :
            (page_symlink : Node → Option Errno × Node)
            → (init_owner : GasInodeInfo → GasInodeInfo) → (parent : ℕ) → List ℕ
            → (symname : List ℕ) → Vfs
            → Result
        unfolding with_new_inode add_nondir dec_link_count
        gas_symlink page_symlink init_owner parent name symname vfs =
            let made : Result =
              with_new_inode init_owner vfs (λ err. (err, none, vfs))
                λ info vfs'.
                  let ino = info.i_ino in
                  let set =
                    update ino (λ n. record n { i_op = some (gas_set_inode info 0) }) vfs' in
                  let (err, node) = page_symlink (set.node ino) in
                  let written = update ino (λ _. node) set in
                  let linked : Result = add_nondir parent name ino written in
                  elim err [
                    | none ↦ linked
                    | some e ↦ (some e, none, iput ino (dec_link_count ino written))
                  ] in
            if ltb sbi.s_blocksize (length symname + 1)
            then (some enametoolong, none, vfs)
            else made

        -- The label `out_fail` of `gas_mkdir`
        abbrev pub out_fail : (ino parent : ℕ) → Errno → Vfs → Result
        out_fail ino parent e vfs = (
          some e,
          none,
          dec_link_count parent (iput ino (dec_link_count ino (dec_link_count ino vfs))),
        )

        -- The part of `gas_mkdir` behind `gas_new_inode`; `grabbed` is the parameter of `gas_make_empty`.
        unfoldable pub fill_dir :
            (grabbed : Bool) → (parent : ℕ) → List ℕ → GasInodeInfo → Vfs → Result
        unfolding update inc_link_count dec_link_count
        fill_dir grabbed parent name info vfs =
            let ino = info.i_ino in
            let linked =
              update ino (λ n. record n { i_op = some (gas_set_inode info 0) })
                (inc_link_count ino vfs) in
            let (err, d) = gas_make_empty io grabbed (linked.node ino).dir parent in
            let made = set_dir ino d linked in
            let (err', vfs') = link_in parent name ino made in
            elim err [
              | some e ↦ out_fail ino parent e made
              | none ↦ elim err' [
                | some e ↦ out_fail ino parent e vfs'
                | none ↦ (none, some ino, vfs')
              ]
            ]

        unfoldable pub gas_mkdir :
            (init_owner : GasInodeInfo → GasInodeInfo)
            → (grabbed : Bool) → (parent : ℕ) → List ℕ
            → Vfs
            → Result
        unfolding with_new_inode fill_dir
        gas_mkdir init_owner grabbed parent name vfs =
            let counted = inc_link_count parent vfs in
            with_new_inode init_owner counted (λ err. (err, none, dec_link_count parent counted))
              λ info vfs'. fill_dir grabbed parent name info vfs'
