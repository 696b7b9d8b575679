-- ===== src/Kern/Namei/Unlink.antt =====
-- `gas_unlink` and `gas_rmdir` of kern/gas_namei.c: names and link counts together
use mathlib.Core.Path.{subst}
use gas_filesystem.Base.{
  ℕ, zero, suc, ◌+◌, ◌≡◌, ◌≢◌, refl, sym, ◌∙◌, ap, Option, none, some, List, ◌==◌, ◌&&◌, Bool, true,
  false, inl, inr, Option-cases, Bool-cases, ne→==, eq→==,
}
use gas_filesystem.Kern.Types.{Errno, enoent, enotempty}
use gas_filesystem.Kern.BitOps.{BitOps}
use gas_filesystem.Kern.Dir.{
  Dir, DirEntry, Io, Slot, is_entry, page_slot, gas_last_byte, dir_slot, gas_dir_pages,
  gas_find_entry, gas_empty_dir,
}
use gas_filesystem.Kern.Dir.Find.{entry_at, Found, nowhere, at, gas_find_entry-Found}
use gas_filesystem.Kern.DirWrite.{gas_delete_entry, position}
use gas_filesystem.Kern.DirWrite.Delete.{IsOnly, gas_delete_entry-gas_find_entry}
use gas_filesystem.Kern.Namei.{
  Counters, Node, Vfs, update, set_dir, dec_link_count, gas_unlink, gas_rmdir,
}
use gas_filesystem.Kern.Namei.Links.{links}

dir_slot-dirty :
    (test : DirEntry → Bool) (d : Dir) (left n : ℕ)
    → dir_slot test (record d { dirty = true }) left n ≡ dir_slot test d left n
unfolding dir_slot
dir_slot-dirty test d zero n = refl
dir_slot-dirty test d (suc left) n =
    ap
      (λ (more : Option Slot). elim (d.pages n) [
        | none ↦ more
        | some page ↦ elim (page_slot test (gas_last_byte d.i_size n) 0 page) [
          | some s ↦ some (n, s)
          | none ↦ more
        ]
      ])
      (dir_slot-dirty test d left (n + 1))

module _ (ops : BitOps) (counters : Counters) (io : Io) where
  open counters use {dec_nlink}

  pub update_self :
      (n : ℕ) (f : Node → Node) (vfs : Vfs ops) → (update ops n f vfs).node n ≡ f (vfs.node n)
  unfolding update
  update_self n f vfs = rw (eq→== n n refl) refl

  pub update_other :
      (n m : ℕ) (f : Node → Node) (vfs : Vfs ops) → m ≢ n → (update ops n f vfs).node m ≡ vfs.node m
  unfolding update
  update_other n m f vfs ne = rw (ne→== m n ne) refl

  -- Only the inodes of the parent and of the entry changed, and the bitmap of inodes did not.
  pub record Outside (parent ino : ℕ) (vfs vfs' : Vfs ops) : Type 0 where
    pub node : (n : ℕ) → n ≢ parent → n ≢ ino → vfs'.node n ≡ vfs.node n
    pub iam : vfs'.iam ≡ vfs.iam

  -- What `gas_unlink` of a name that stands in one entry only, for another inode than the parent, did
  pub data Unlinked (parent : ℕ) (name : List ℕ) (ino : ℕ) (vfs : Vfs ops)
      : Option Errno × Vfs ops → Type 0 where
    missing :
        gas_find_entry (vfs.node parent).dir name ≡ none
        → Unlinked parent name ino vfs (some enoent, vfs)
    failed :
        {vfs' : Vfs ops} (e : Errno)
        → vfs'.node ino ≡ vfs.node ino
        → links parent vfs' ≡ links parent vfs
        → Outside parent ino vfs vfs'
        → Unlinked parent name ino vfs (some e, vfs')
    removed :
        {vfs' : Vfs ops} (slot : Slot)
        → gas_find_entry (vfs.node parent).dir name ≡ some slot
        → gas_find_entry (vfs'.node parent).dir name ≡ none
        → ((m t : ℕ)
            → ((m == slot.0) && (t == slot.1)) ≡ false
            → entry_at (vfs'.node parent).dir (m, t) ≡ entry_at (vfs.node parent).dir (m, t))
        → links ino vfs' ≡ dec_nlink (links ino vfs)
        → links parent vfs' ≡ links parent vfs
        → Outside parent ino vfs vfs'
        → Unlinked parent name ino vfs (none, vfs')

  -- What `gas_rmdir` did
  pub data Removed (parent : ℕ) (name : List ℕ) (ino : ℕ) (vfs : Vfs ops)
      : Option Errno × Vfs ops → Type 0 where
    in_use :
        gas_empty_dir (vfs.node ino).dir ≡ false → Removed parent name ino vfs (some enotempty, vfs)
    not_unlinked :
        {vfs' : Vfs ops} (e : Errno)
        → gas_empty_dir (vfs.node ino).dir ≡ true
        → Unlinked parent name ino vfs (some e, vfs')
        → Removed parent name ino vfs (some e, vfs')
    gone :
        {vfs' : Vfs ops}
        → gas_empty_dir (vfs.node ino).dir ≡ true
        → gas_find_entry (vfs'.node parent).dir name ≡ none
        → links ino vfs' ≡ dec_nlink (dec_nlink (links ino vfs))
        → links parent vfs' ≡ dec_nlink (links parent vfs)
        → Outside parent ino vfs vfs'
        → Removed parent name ino vfs (none, vfs')

  module _ (parent : ℕ) (name : List ℕ) (ino : ℕ) (vfs : Vfs ops) (apart : ino ≢ parent)
      (only : (slot : Slot)
        → gas_find_entry (vfs.node parent).dir name ≡ some slot
        → IsOnly (vfs.node parent).dir name slot) where
    abbrev parent_dir : Dir
    parent_dir = (vfs.node parent).dir

    module _ (slot : Slot) (e : gas_find_entry parent_dir name ≡ some slot) where
      abbrev after : Option Errno × Dir
      after = gas_delete_entry io parent_dir slot

      begun : after.0 ≡ none → io.write_begin (position slot) ≡ none
      unfolding gas_delete_entry
      begun done = elim (Option-cases (io.write_begin (position slot))) [
        | inl free ↦ free
        | inr (err, stuck) ↦ absurd (cc (rw (stuck, gas_delete_entry) at done))
      ]

      there :
          (o : Option Slot)
          → Found (is_entry name) parent_dir o
          → o ≡ some slot
          → (de : DirEntry) × (entry_at parent_dir slot ≡ some de)
      there o (at n s de listed found passes) same =
          (de, subst (λ (k : Slot). entry_at parent_dir k ≡ some de) (cc (same)) found)
      there o (nowhere none_there) same = absurd (cc (same))

      abbrev deleted : Vfs ops
      deleted = set_dir ops parent after.1 vfs

      abbrev into : Node → Node
      into n = record n { dir = after.1 }

      abbrev fewer : Node → Node
      fewer n = record n { i_nlink = dec_nlink n.i_nlink; dir = record (n.dir) { dirty = true } }

      deleted_node : deleted.node parent ≡ record (vfs.node parent) { dir = after.1 }
      deleted_node = update_self parent into vfs

      delete_failed : (err : Errno) → Unlinked parent name ino vfs (some err, deleted)
      unfolding update
      delete_failed err =
          failed {vfs' = deleted} err (update_other parent ino into vfs apart)
            (ap (λ (n : Node). n.i_nlink) deleted_node)
            (record { node = λ n ne _. update_other parent n into vfs ne; iam = refl })

      abbrev stamp : Node → Node
      stamp n = record n { dir = record (n.dir) { i_ctime = after.1.i_ctime } }

      abbrev final : Vfs ops
      final = dec_link_count ops counters ino (update ops ino stamp deleted)

      final_other : (n : ℕ) → n ≢ ino → final.node n ≡ deleted.node n
      unfolding dec_link_count
      final_other n ne =
          update_other ino n fewer (update ops ino stamp deleted) ne
          ∙ update_other ino n stamp deleted ne

      final_self : links ino final ≡ dec_nlink (links ino vfs)
      unfolding dec_link_count
      final_self =
          ap (λ (n : Node). n.i_nlink) (update_self ino fewer (update ops ino stamp deleted))
          ∙ ap dec_nlink (
              ap (λ (n : Node). n.i_nlink)
                (update_self ino stamp deleted ∙ ap stamp (update_other parent ino into vfs apart)))

      delete_done : after.0 ≡ none → Unlinked parent name ino vfs (none, final)
      unfolding dec_link_count
      delete_done done =
          let (de, is) = there _ (gas_find_entry-Found parent_dir name) e in
          let (lost, others) =
            gas_delete_entry-gas_find_entry io parent_dir name slot.0 slot.1 de (begun done) is
              (only slot e) in
          let at_parent : final.node parent ≡ record (vfs.node parent) { dir = after.1 } =
            final_other parent (λ e. apart (sym e)) ∙ deleted_node in
          let dir_after : (final.node parent).dir ≡ after.1 = ap (λ (n : Node). n.dir) at_parent in
          removed {vfs' = final} slot e (ap (λ (d : Dir). gas_find_entry d name) dir_after ∙ lost)
            (λ m t ne. ap (λ (d : Dir). entry_at d (m, t)) dir_after ∙ others m t ne) final_self
            (ap (λ (n : Node). n.i_nlink) at_parent)
            (record {
              node = λ n ne ne'. final_other n ne' ∙ update_other parent n into vfs ne;
              iam = refl;
            })

    -- If a name, where it is found in the parent directory, stands in one entry only, and its inode
    -- is not the parent, then `gas_unlink` either reports `ENOENT`, because the name is not found,
    -- and changes nothing; or it fails and leaves the inode and the link count of the parent as they
    -- were; or it succeeds, and then the name is not found in the parent, every other entry there is
    -- as before, and the link count of the inode is decremented and that of the parent is not. In
    -- each case it changes neither another inode nor the bitmap of inodes.
    pub gas_unlink-Unlinked :
        Unlinked parent name ino vfs (gas_unlink ops counters io parent name ino vfs)
    unfolding gas_unlink
    gas_unlink-Unlinked = elim (Option-cases (gas_find_entry parent_dir name)) [
      | inl e ↦ rw (e, gas_unlink) (missing e)
      | inr (slot, e) ↦ elim (Option-cases (after slot e).0) [
        | inl done ↦ rw (e, gas_unlink, done) (delete_done slot e done)
        | inr (err, stuck) ↦ rw (e, gas_unlink, stuck) (delete_failed slot e err)
      ]
    ]

    abbrev two_less : Vfs ops → Vfs ops
    two_less vfs' = dec_link_count ops counters ino (dec_link_count ops counters parent vfs')

    abbrev less : Node → Node
    less n = record n { i_nlink = dec_nlink n.i_nlink; dir = record (n.dir) { dirty = true } }

    two_less_parent : (vfs' : Vfs ops) → (two_less vfs').node parent ≡ less (vfs'.node parent)
    unfolding dec_link_count
    two_less_parent vfs' =
        update_other ino parent less (update ops parent less vfs') (λ e. apart (sym e))
        ∙ update_self parent less vfs'

    two_less_ino : (vfs' : Vfs ops) → (two_less vfs').node ino ≡ less (vfs'.node ino)
    unfolding dec_link_count
    two_less_ino vfs' =
        update_self ino less (update ops parent less vfs')
        ∙ ap less (update_other parent ino less vfs' apart)

    two_less-Outside :
        (vfs' : Vfs ops) → Outside parent ino vfs vfs' → Outside parent ino vfs (two_less vfs')
    unfolding dec_link_count update
    two_less-Outside vfs' out = record {
      node = λ n ne ne'.
          update_other ino n less (update ops parent less vfs') ne'
          ∙ (update_other parent n less vfs' ne ∙ out.node n ne ne');
      iam = out.iam;
    }

    -- The mark of a directory as dirty does not change what is found in it.
    find-dirty :
        (d : Dir) (n : List ℕ) → gas_find_entry (record d { dirty = true }) n ≡ gas_find_entry d n
    unfolding gas_find_entry
    find-dirty d n = dir_slot-dirty (is_entry n) d (gas_dir_pages d.i_size) 0

    Unlinked-Removed :
        (r : Option Errno × Vfs ops)
        → gas_empty_dir (vfs.node ino).dir ≡ true
        → Unlinked parent name ino vfs r
        → Removed parent name ino vfs
            (elim r.0 [ some e ↦ (some e, r.1) | none ↦ (none, two_less r.1) ])
    Unlinked-Removed _ empty (missing none_there) = not_unlinked enoent empty (missing none_there)
    Unlinked-Removed _ empty (failed e same links out) =
        not_unlinked e empty (failed e same links out)
    Unlinked-Removed _ empty (removed {vfs'} slot e found others fewer same out) =
        gone {vfs' = two_less vfs'} empty
          (ap (λ (n : Node). gas_find_entry n.dir name) (two_less_parent vfs')
            ∙ (find-dirty (vfs'.node parent).dir name ∙ found))
          (ap (λ (n : Node). n.i_nlink) (two_less_ino vfs') ∙ ap dec_nlink fewer)
          (ap (λ (n : Node). n.i_nlink) (two_less_parent vfs') ∙ ap dec_nlink same)
          (two_less-Outside vfs' out)

    -- If a name, where it is found in the parent directory, stands in one entry only, and its inode
    -- is not the parent, then `gas_rmdir` either finds the directory in use, reports `ENOTEMPTY` and
    -- changes nothing; or the directory is empty and it fails as `gas_unlink` does; or the directory
    -- is empty and it succeeds, and then the name is not found in the parent, the link count of the
    -- directory is decremented twice and that of the parent once, and neither another inode nor the
    -- bitmap of inodes has changed.
    pub gas_rmdir-Removed :
        Removed parent name ino vfs (gas_rmdir ops counters io parent name ino vfs)
    unfolding gas_rmdir
    gas_rmdir-Removed = elim (Bool-cases (gas_empty_dir (vfs.node ino).dir)) [
      | inl empty ↦ rw (empty, gas_rmdir) (Unlinked-Removed _ empty gas_unlink-Unlinked)
      | inr full ↦ rw (full, gas_rmdir) (in_use full)
    ]
