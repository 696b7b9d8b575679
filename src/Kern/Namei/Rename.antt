-- ===== src/Kern/Namei/Rename.antt =====
-- kern/gas_namei.c: `gas_rename`
use gas_filesystem.Base.{ℕ, Option, none, some, List, not, Bool, true, false, ◌&&◌, if◌then◌else◌}
use gas_filesystem.Kern.Types.{Errno, eio, enoent, enotempty}
use gas_filesystem.Kern.Inode.{s_isdir}
use gas_filesystem.Kern.BitOps.{BitOps}
use gas_filesystem.Kern.Dir.{Io, Slot, gas_find_entry, gas_empty_dir}
use gas_filesystem.Kern.DirWrite.{gas_delete_entry, gas_set_link, gas_dotdot}
use gas_filesystem.Kern.Namei.{
  Counters, Vfs, update, set_dir, dirty_dir, inc_link_count, dec_link_count, link_in,
}

module _ (ops : BitOps) (counters : Counters) where
  open counters use {dec_nlink}

  module _ (io : Io) where
    -- The end of `gas_rename`, with `dotdot` the second entry of a directory that moves
    unfoldable pub unlink_old :
        (old_parent old new_parent : ℕ) → Slot → (dotdot : Option Slot) → Vfs ops → Vfs ops
    unfolding update dec_link_count
    unlink_old old_parent old new_parent slot dotdot vfs =
        let (err, d) = gas_delete_entry io (vfs.node old_parent).dir slot in
        let marked =
          update ops old (λ n. record n { dir = dirty_dir ops n.dir })
            (set_dir ops old_parent d vfs) in
        elim dotdot [
          | none ↦ marked
          | some de ↦
              dec_link_count ops counters old_parent
                (set_dir ops old (gas_set_link io (marked.node old).dir de new_parent) marked)
        ]

    -- The part of `gas_rename` that makes the new name lead to the inode: over an inode that has the
    -- name, or as a new entry
    unfoldable pub link_new :
        (old new_parent : ℕ)
        → List ℕ
        → (target : Option ℕ) → (moves_dir : Bool) → Vfs ops
        → Option Errno × Vfs ops
    unfolding update inc_link_count dec_link_count
    link_new old new_parent name none moves_dir vfs =
        let (err, vfs') = link_in ops counters io new_parent name old vfs in
        elim err [
          | some e ↦ (some e, vfs')
          | none ↦ (none, if moves_dir then inc_link_count ops counters new_parent vfs' else vfs')
        ]
    link_new old new_parent name (some target) moves_dir vfs =
        let drop : Vfs ops → Vfs ops = λ v.
          if moves_dir
          then update ops target (λ n. record n { i_nlink = dec_nlink n.i_nlink }) v
          else v in
        if moves_dir && not (gas_empty_dir (vfs.node target).dir)
        then (some enotempty, vfs)
        else elim (gas_find_entry (vfs.node new_parent).dir name) [
          | none ↦ (some enoent, vfs)
          | some slot ↦
              let linked =
                set_dir ops new_parent (gas_set_link io (vfs.node new_parent).dir slot old) vfs in
              let stamped =
                update ops target (λ n. record n { dir = record (n.dir) { i_ctime = io.now } })
                  linked in
              (none, dec_link_count ops counters target (drop stamped))
        ]

    unfoldable pub gas_rename :
        (old_parent : ℕ)
        → List ℕ
        → (old new_parent : ℕ) → List ℕ
        → (target : Option ℕ) → Vfs ops
        → Option Errno × Vfs ops
    unfolding link_new unlink_old
    gas_rename old_parent old_name old new_parent new_name target vfs =
        let is_dir = s_isdir (vfs.node old).i_mode in
        let dotdot = gas_dotdot (vfs.node old).dir in
        let no_dotdot : Bool = elim dotdot [ none ↦ true | some _ ↦ false ] in
        let (err, vfs') = link_new old new_parent new_name target is_dir vfs in
        elim (gas_find_entry (vfs.node old_parent).dir old_name) [
          | none ↦ (some enoent, vfs)
          | some slot ↦ if is_dir && no_dotdot then (some eio, vfs) else elim err [
            | some e ↦ (some e, vfs')
            | none ↦ (
              none,
              unlink_old old_parent old new_parent slot (if is_dir then dotdot else none) vfs',
            )
          ]
        ]
