-- ===== src/Kern/Namei/Target.antt =====
-- `gas_rename` of kern/gas_namei.c onto a name that exists
use gas_filesystem.Base.{ℕ, ◌≡◌, ◌≢◌, refl, sym, ◌∙◌, ap, none, some, List, true, false}
use gas_filesystem.Kern.BitOps.{BitOps}
use gas_filesystem.Kern.Inode.{s_isdir}
use gas_filesystem.Kern.Dir.{Dir, Io, Slot, gas_find_entry}
use gas_filesystem.Kern.Dir.Find.{entry_at}
use gas_filesystem.Kern.DirWrite.{gas_set_link, gas_delete_entry}
use gas_filesystem.Kern.DirWrite.Delete.{gas_set_link_unchanged}
use gas_filesystem.Kern.Namei.{Counters, Node, Vfs, update, set_dir, dec_link_count}
use gas_filesystem.Kern.Namei.Links.{links}
use gas_filesystem.Kern.Namei.Unlink.{update_self, update_other}
use gas_filesystem.Kern.Namei.Rename.{link_new, unlink_old, gas_rename}

module _ (ops : BitOps) (counters : Counters) (io : Io) where
  open counters use {dec_nlink}

  module _ (old_parent : ℕ) (old_name : List ℕ) (old new_parent : ℕ) (new_name : List ℕ)
      (target : ℕ) (vfs : Vfs ops) (file : s_isdir (vfs.node old).i_mode ≡ false)
      (slot slot' : Slot) (found : gas_find_entry (vfs.node old_parent).dir old_name ≡ some slot)
      (found' : gas_find_entry (vfs.node new_parent).dir new_name ≡ some slot')
      (np_op : new_parent ≢ old_parent) (np_old : new_parent ≢ old)
      (np_target : new_parent ≢ target) (target_op : target ≢ old_parent)
      (target_old : target ≢ old) where
    abbrev linked : Vfs ops
    linked = set_dir ops new_parent (gas_set_link io (vfs.node new_parent).dir slot' old) vfs

    abbrev stamped : Vfs ops
    stamped = update ops target (λ n. record n { dir = record (n.dir) { i_ctime = io.now } }) linked

    abbrev dropped : Vfs ops
    dropped = dec_link_count ops counters target stamped

    abbrev ended : Vfs ops
    ended = unlink_old ops counters io old_parent old new_parent slot none dropped

    new_linked :
        link_new ops counters io old new_parent new_name (some target) false vfs ≡ (none, dropped)
    unfolding link_new
    new_linked = rw (link_new, found') refl

    renamed :
        gas_rename ops counters io old_parent old_name old new_parent new_name (some target) vfs
        ≡ (none, ended)
    unfolding gas_rename
    renamed = rw (found, gas_rename, found', file, file, found', file) refl

    abbrev touched : Node → Node
    touched n = record n { dir = record (n.dir) { i_ctime = io.now } }

    abbrev less : Node → Node
    less n = record n { i_nlink = dec_nlink n.i_nlink; dir = record (n.dir) { dirty = true } }

    abbrev soiled : Node → Node
    soiled n = record n { dir = record (n.dir) { dirty = true } }

    abbrev into : Dir → Node → Node
    into d n = record n { dir = d }

    abbrev old_left : Dir
    old_left = (gas_delete_entry io (dropped.node old_parent).dir slot).1

    -- Inodes other than the one that moves and its old parent
    ended_other : (n : ℕ) → n ≢ old → n ≢ old_parent → ended.node n ≡ dropped.node n
    unfolding unlink_old
    ended_other n ne ne' =
        update_other ops counters io old n soiled (set_dir ops old_parent old_left dropped) ne
        ∙ update_other ops counters io old_parent n (into old_left) dropped ne'

    parent_dir : (ended.node new_parent).dir ≡ gas_set_link io (vfs.node new_parent).dir slot' old
    unfolding dec_link_count
    parent_dir =
        ap (λ (n : Node). n.dir)
          (ended_other new_parent np_old np_op
            ∙ (update_other ops counters io target new_parent less stamped np_target
                ∙ (update_other ops counters io target new_parent touched linked np_target
                    ∙ update_self ops counters io new_parent
                        (into (gas_set_link io (vfs.node new_parent).dir slot' old)) vfs)))

    target_links : links target ended ≡ dec_nlink (links target vfs)
    unfolding dec_link_count
    target_links =
        ap (λ (n : Node). n.i_nlink)
          (ended_other target target_old target_op
            ∙ (update_self ops counters io target less stamped
                ∙ ap less (
                    update_self ops counters io target touched linked
                    ∙ ap touched (
                        update_other ops counters io new_parent target
                          (into (gas_set_link io (vfs.node new_parent).dir slot' old)) vfs
                          (λ e. np_target (sym e))))))

    -- `gas_rename` of a file, found under its old name, onto a name that is found in another
    -- directory and has another inode succeeds, but leaves the entry of that name as it was, so that
    -- the name still leads to the inode it had, and decrements the link count of this inode. The
    -- parents, the file and the other inode are distinct, but for the file, which may have the
    -- number of its old parent.
    pub gas_rename_target :
        ((gas_rename ops counters io old_parent old_name old new_parent new_name
            (some target)
            vfs).0
          ≡ none)
        × (entry_at
              (((gas_rename ops counters io old_parent old_name old new_parent new_name
                    (some target)
                    vfs).1
                  ).node
                new_parent).dir
              slot'
            ≡ entry_at (vfs.node new_parent).dir slot')
        × (links target
              (gas_rename ops counters io old_parent old_name old new_parent new_name
                (some target)
                vfs).1
            ≡ dec_nlink (links target vfs))
    gas_rename_target = rw renamed (
      refl,
      ap (λ (d : Dir). entry_at d slot') parent_dir
          ∙ gas_set_link_unchanged io (vfs.node new_parent).dir slot' old slot',
      target_links,
    )
