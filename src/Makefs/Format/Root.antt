-- ===== src/Makefs/Format/Root.antt =====
-- makefs/mkfs.c: the root directory that `make_rootdir` writes
use gas_filesystem.Base.{
  ℕ, ◌+◌, ◌*◌, ◌≤◌, ◌<◌, ◌≡◌, ◌≢◌, refl, sym, ◌∙◌, arith, some, Bool, true, false, ◌==◌, eq→==,
  ne→==, get_elem?, set,
}
use gas_filesystem.Kern.Types.{GasInode, bits_per_block, dir_entry_size}
use gas_filesystem.Makefs.Layout.{FilesysParam, bam_block_start, iam_block_start, inode_list_start}
use gas_filesystem.Makefs.Disk.{zero_inode, Buffers, Image, bc_read}
use gas_filesystem.Makefs.Disk.Holds.{Holds, put, add, nothing, read-Holds, weaken-Holds}
use gas_filesystem.Makefs.Format.{
  ◌>>=◌, Host, filled, root_mode, get_inode, new_inode, make_rootdir,
}
use gas_filesystem.Makefs.Init.Maps.{bit}
use gas_filesystem.Makefs.Format.Alloc.{Ends, IsMarked}
use gas_filesystem.Makefs.Format.Inode.{IsStored, IsCreated, new_inode-IsCreated}
use gas_filesystem.Makefs.Format.Dots.{root_inode, HasDots, IsDotted, add_dots, add_dots-IsDotted}

module _ (buffers : Buffers) where
  open buffers use {Data, inodes}

  -- What `make_rootdir` makes of an image that is seen as `v`, with block `s` for the entries
  pub record IsRooted (gas : FilesysParam) (host : Host) (s : ℕ) (v w : ℕ → Data) : Type 0 where
    pub blocks : IsMarked buffers s 5 (v bam_block_start) (w bam_block_start)
    pub inode_bits : IsMarked buffers 1 1 (v (iam_block_start gas)) (w (iam_block_start gas))
    pub root :
        IsStored buffers 1 (root_inode host s) (v (inode_list_start gas)) (w (inode_list_start gas))
    pub dots : HasDots buffers (v s) (w s)
    pub rest :
        (x : ℕ)
        → x ≢ bam_block_start
        → x ≢ iam_block_start gas
        → x ≢ inode_list_start gas
        → x ≢ s
        → w x ≡ v x

  module _ (gas : FilesysParam) (host : Host) (v : ℕ → Data) (im : Image buffers) (s : ℕ)
      (holds : Holds buffers (nothing buffers) (nothing buffers) (nothing buffers) v im)
      (unused : get_elem? (inodes (v (inode_list_start gas))) 1 ≡ some zero_inode)
      (end : s + 5 ≤ bits_per_block) (bam : 0 < gas.bam_blk) (iam : 0 < gas.iam_blk)
      (behind : inode_list_start gas < s)
      (unused_bit : bit buffers (v (iam_block_start gas)) 1 ≡ false)
      (used : (i : ℕ) → i < s → bit buffers (v bam_block_start) i ≡ true)
      (free : (i : ℕ) → s ≤ i → i < s + 5 → bit buffers (v bam_block_start) i ≡ false) where
    abbrev Created : Type 0
    Created =
        IsCreated buffers gas host (nothing buffers) (nothing buffers) v im holds root_mode 5 s
          zero_inode (new_inode buffers gas host root_mode (64 * dir_entry_size) im)

    new_root : Created
    new_root =
        new_inode-IsCreated buffers gas host _ _ v im holds root_mode (64 * dir_entry_size) s
          zero_inode unused end (omega arith) (omega arith) bam iam (omega arith) unused_bit used
          free

    abbrev new_ino : GasInode
    new_ino = filled host root_mode (record zero_inode { i_blkaddr = set zero_inode.i_blkaddr 0 s })

    -- The inode list is in the cache, and marked.
    abbrev list_known : ℕ → Bool
    list_known = add buffers (inode_list_start gas) (nothing buffers)

    self : (n : ℕ) → (n == n) ≡ true
    self n = eq→== n n refl

    module _ (n : Created) where
      abbrev seen_new : ℕ → Data
      seen_new =
          put (inode_list_start gas) n.list
            (put bam_block_start n.map (put (iam_block_start gas) n.inode_map v))

      reread : Image buffers
      reread = (bc_read buffers (inode_list_start gas) n.state.image).1

      reread-Holds : Holds buffers (nothing buffers) list_known list_known seen_new reread
      unfolding reread
      reread-Holds =
          weaken-Holds buffers _ _ _ _ _
            (read-Holds buffers _ _ _ _ _ n.state.holds (inode_list_start gas) (omega arith)).1
            (nothing buffers) list_known list_known (λ x is. is) (λ x is. rw is refl) (λ x is. is)

      abbrev Dotted : Type 0
      Dotted =
          (w : ℕ → Data) × IsDotted buffers gas new_ino s seen_new w
          × Ends buffers (add_dots buffers gas 1 reread) list_known list_known tt w

      new_dots : Dotted
      unfolding filled zero_inode
      new_dots =
          add_dots-IsDotted buffers gas list_known list_known seen_new reread s new_ino reread-Holds
            (self (inode_list_start gas)) (self (inode_list_start gas))
            (rw (self (inode_list_start gas)) n.stored_inode.here) refl refl (omega arith) behind

      module _ (w : ℕ → Data) (d : IsDotted buffers gas new_ino s seen_new w) where
        both-IsRooted : IsRooted gas host s v w
        unfolding filled zero_inode
        both-IsRooted =
            let l = inode_list_start gas in
            let b = bam_block_start in
            let i = iam_block_start gas in
            let apart : seen_new s ≡ v s =
              rw (ne→== s l (omega arith), ne→== s b (omega arith), ne→== s i (omega arith)) refl in
            record {
              blocks =
                  rw (d.rest bam_block_start (ground arith) (ground arith))
                    (rw (ne→== b l (omega arith)) n.marked);
              inode_bits =
                  rw (d.rest (iam_block_start gas) (ground arith) (ground arith))
                    (rw (ne→== i l (omega arith), ne→== i b (omega arith), self i) n.inode_marked);
              root = record {
                here = d.root.here;
                others = λ j ne. d.root.others j ne ∙ (rw (self l) (n.stored_inode.others j ne));
              };
              dots = rw (sym apart) d.dots;
              rest = λ x nb ni nl ns.
                  d.rest x nl ns
                  ∙ (rw
                      (
                        ne→== x (inode_list_start gas) nl,
                        ne→== x bam_block_start nb,
                        ne→== x (iam_block_start gas) ni,
                      )
                      refl);
            }

        both-Ends :
            Ends buffers (add_dots buffers gas 1 reread) list_known list_known tt w
            → Ends buffers
                (make_rootdir buffers gas host im)
                (nothing buffers)
                (nothing buffers)
                tt
                w
        unfolding make_rootdir get_inode reread
        both-Ends e = record {
          image = e.image;
          ends = rw (◌>>=◌, n.state.ends) e.ends;
          holds =
              weaken-Holds buffers _ _ _ _ _ e.holds _ _ _ (λ x is. is) (λ x is. absurd (cc (is)))
                (λ x is. absurd (cc (is)));
        }

    pub make_rootdir-IsRooted :
        (w : ℕ → Data) × IsRooted gas host s v w
        × Ends buffers (make_rootdir buffers gas host im) (nothing buffers) (nothing buffers) tt w
    make_rootdir-IsRooted =
        let n = new_root in
        let (w, d, e) = new_dots n in (w, both-IsRooted n w d, both-Ends n w d e)
