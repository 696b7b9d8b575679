-- ===== src/Makefs/Format/Inode.antt =====
-- makefs/mkfs.c: `new_inode` on the inode list of a new file system
use gas_filesystem.Base.{
  ℕ, ◌+◌, ◌-◌, ◌/◌, ◌^◌, ◌≤◌, ◌<◌, ◌≡◌, ◌≢◌, refl, ap, ◌∙◌, inl, inr, arith, some, Bool, true,
  false, not, Option-cases, ◌==◌, ◌&&◌, ◌||◌, eq→==, ne→==, get_elem?, set, length-set,
  get_elem?-set_self, get_elem?-set_ne, lt_of_get_elem?,
}
use gas_filesystem.Kern.Types.{GasInode, bits_per_block, gas_block_size}
use gas_filesystem.Makefs.Layout.{FilesysParam, bam_block_start, iam_block_start, inode_list_start}
use gas_filesystem.Makefs.Disk.{Buffers, Image, bc_find, poke, bc_write}
use gas_filesystem.Makefs.Disk.Holds.{
  Holds, put, put-put, add, nothing, read-Holds, deref-Holds, poke-Holds, write-Holds, weaken-Holds,
  reseen-Holds,
}
use gas_filesystem.Makefs.Format.{
  ◌>>=◌, ◌>>◌, Run, done, deref, inode_ptr, store_ptr, Host, filled, fill_inode, new_inode,
  get_inode,
}
use gas_filesystem.Makefs.Init.Maps.{bit}
use gas_filesystem.Makefs.Format.Alloc.{Ends, IsMarked, allocate_inode-Ends, allocate_blk-Ends}

module _ (buffers : Buffers) where
  open buffers use {Data, inodes, put_inodes}

  -- One inode of a block was stored.
  pub record IsStored (ino_id : ℕ) (ino : GasInode) (d d' : Data) : Type 0 where
    pub here : get_elem? (inodes d') ino_id ≡ some ino
    pub others : (j : ℕ) → ino_id ≢ j → get_elem? (inodes d') j ≡ get_elem? (inodes d) j

  -- The store of `store_ptr`, on the block
  abbrev pub stored : ℕ → (GasInode → GasInode) → GasInode → Data → Data
  stored ino_id f ino d = put_inodes d (set (inodes d) ino_id (f ino))

  pub stored-IsStored :
      (ino_id : ℕ) (f : GasInode → GasInode) (ino : GasInode) (d : Data)
      → get_elem? (inodes d) ino_id ≡ some ino
      → IsStored ino_id (f ino) d (stored ino_id f ino d)
  stored-IsStored ino_id f ino d e =
      let back =
        buffers.inodes-put_inodes d (set (inodes d) ino_id (f ino))
          (length-set (inodes d) ino_id (f ino) ∙ buffers.inodes_length d) in
      record {
        here =
            rw back
              (get_elem?-set_self (inodes d) ino_id (f ino) (lt_of_get_elem? (inodes d) ino_id e));
        others = λ j ne. rw back (get_elem?-set_ne (inodes d) ino_id j (f ino) ne);
      }

  module _ (gas : FilesysParam) (pending cached dirty : ℕ → Bool) (v : ℕ → Data)
      (im : Image buffers) (holds : Holds buffers pending cached dirty v im)
      (in_cache : cached (inode_list_start gas) ≡ true) where
    deref-done : deref buffers (inode_list_start gas) im ≡ done (v (inode_list_start gas)) im
    unfolding deref
    deref-done = elim (Option-cases (bc_find buffers (inode_list_start gas) im.cache)) [
      | inl missing ↦ absurd (holds.is_cached (inode_list_start gas) in_cache missing)
      | inr (it, found) ↦
          rw (found, deref)
            (ap (λ (d : Data). done d im)
              (deref-Holds buffers pending cached dirty v im holds (inode_list_start gas) in_cache
                it found))
    ]

    module _ (ino_id : ℕ) (ino : GasInode)
        (there : get_elem? (inodes (v (inode_list_start gas))) ino_id ≡ some ino) where
      pub inode_ptr-done : inode_ptr buffers gas ino_id im ≡ done ino im
      unfolding inode_ptr
      inode_ptr-done = rw (◌>>=◌, deref-done, there) refl

      pub store_ptr-done :
          (f : GasInode → GasInode)
          → store_ptr buffers gas ino_id f im
            ≡ done tt (poke buffers (inode_list_start gas) (stored ino_id f ino) im)
      unfolding store_ptr
      store_ptr-done f = rw (◌>>=◌, inode_ptr-done) refl

  module _ (gas : FilesysParam) (host : Host) (cached dirty : ℕ → Bool) (v : ℕ → Data)
      (im : Image buffers) (holds : Holds buffers (nothing buffers) cached dirty v im)
      (in_cache : cached (inode_list_start gas) ≡ true) where
    -- The inode list and the map of blocks after `fill_inode`
    pub record IsFilled (mode ino_id nr s : ℕ) (ino : GasInode) (r : Run buffers ℕ) : Type 0 where
      pub map : Data
      pub marked : IsMarked buffers s nr (v bam_block_start) map
      pub list : Data
      pub stored_inode :
          IsStored ino_id
            (filled host mode (record ino { i_blkaddr = set ino.i_blkaddr 0 s }))
            (v (inode_list_start gas))
            list
      pub state :
          Ends buffers r cached
            (add buffers (inode_list_start gas) dirty)
            ino_id
            (put (inode_list_start gas) list (put bam_block_start map v))

    pub fill_inode-IsFilled :
        (mode ino_id nr s : ℕ) (ino : GasInode)
        → get_elem? (inodes (v (inode_list_start gas))) ino_id ≡ some ino
        → s + nr ≤ bits_per_block
        → 0 < nr
        → 0 < s
        → 0 < gas.bam_blk
        → ((i : ℕ) → i < s → bit buffers (v bam_block_start) i ≡ true)
        → ((i : ℕ) → s ≤ i → i < s + nr → bit buffers (v bam_block_start) i ≡ false)
        → IsFilled mode ino_id nr s ino (fill_inode buffers gas host mode nr ino_id im)
    unfolding fill_inode
    fill_inode-IsFilled mode ino_id nr s ino there end pos at_s blocks used free =
        let (map, marked, a) =
          allocate_blk-Ends buffers gas cached dirty v im holds nr s end pos at_s blocks used
            free in
        let l = inode_list_start gas in
        let v1 = put bam_block_start map v in
        let apart : (l == bam_block_start) ≡ false =
          ground (arith, ne→== l bam_block_start (omega arith)) in
        let there1 : get_elem? (inodes (v1 l)) ino_id ≡ some ino = rw apart there in
        let f1 = λ (ino : GasInode). (record ino { i_blkaddr = set ino.i_blkaddr 0 s }) in
        let im2 = poke buffers l (stored ino_id f1 ino) a.image in
        let h2 = poke-Holds buffers _ _ _ _ _ a.holds l in_cache (stored ino_id f1 ino) in
        let st1 = stored-IsStored ino_id f1 ino (v1 l) there1 in
        let self : (l == l) ≡ true = eq→== l l refl in
        let there2 : get_elem? (inodes (put l (stored ino_id f1 ino (v1 l)) v1 l)) ino_id
            ≡ some (f1 ino) =
          rw self st1.here in
        let h3 =
          poke-Holds buffers _ _ _ _ _ h2 l in_cache (stored ino_id (filled host mode) (f1 ino)) in
        let st2 =
          stored-IsStored ino_id (filled host mode) (f1 ino) (stored ino_id f1 ino (v1 l))
            st1.here in
        let h4 = write-Holds buffers _ _ _ _ _ h3 l in_cache in
        let s1 = store_ptr-done gas _ _ _ _ a.image a.holds in_cache ino_id ino there1 f1 in
        let s2 =
          store_ptr-done gas _ _ _ _ im2 h2 in_cache ino_id (f1 ino) there2 (filled host mode) in
        let nonzero : (s == 0) ≡ false = ne→== s 0 (omega arith) in
        record {
          map = map;
          marked = marked;
          list = stored ino_id (filled host mode) (f1 ino) (stored ino_id f1 ino (v1 l));
          stored_inode = record {
            here = st2.here;
            others = λ j ne. st2.others j ne ∙ (st1.others j ne ∙ (rw apart refl));
          };
          state = record {
            image =
                bc_write buffers l false
                  (poke buffers l (stored ino_id (filled host mode) (f1 ino)) im2);
            ends = rw (◌>>=◌, a.ends, s1, nonzero, ◌>>◌, s2) refl;
            holds =
                reseen-Holds buffers _ _ _ _ _
                  (weaken-Holds buffers _ _ _ _ _ h4 (nothing buffers) cached (add buffers l dirty)
                    (λ x _. settled (x == l)) (λ x is. is) (λ x is. is))
                  _
                  (put-put l (stored ino_id (filled host mode) (f1 ino))
                    (stored ino_id f1 ino (v1 l)) v1);
          };
        }
      where
        settled : (t : Bool) → (((false || t) || t) && not t) ≡ false
        settled true = refl
        settled false = refl

module _ (buffers : Buffers) (gas : FilesysParam) (host : Host) (cached dirty : ℕ → Bool)
    (v : ℕ → buffers.Data) (im : Image buffers)
    (holds : Holds buffers (nothing buffers) cached dirty v im) where
  open buffers use {Data, inodes, put_inodes}

  -- What `new_inode` leaves in the maps and the inode list when inode 1 and the `nr` blocks from `s` on are free
  pub record IsCreated (mode nr s : ℕ) (ino : GasInode) (r : Run buffers ℕ) : Type 0 where
    pub inode_map : Data
    pub inode_marked : IsMarked buffers 1 1 (v (iam_block_start gas)) inode_map
    pub map : Data
    pub marked : IsMarked buffers s nr (v bam_block_start) map
    pub list : Data
    pub stored_inode :
        IsStored buffers 1
          (filled host mode (record ino { i_blkaddr = set ino.i_blkaddr 0 s }))
          (v (inode_list_start gas))
          list
    pub state :
        Ends buffers r
          (add buffers (inode_list_start gas) cached)
          (add buffers (inode_list_start gas) dirty)
          1
          (put
            (inode_list_start gas)
            list
            (put bam_block_start map (put (iam_block_start gas) inode_map v)))

  pub new_inode-IsCreated :
      (mode byte_size s : ℕ) (ino : GasInode)
      → get_elem? (inodes (v (inode_list_start gas))) 1 ≡ some ino
      → s + (byte_size + gas_block_size - 1) / gas_block_size ≤ bits_per_block
      → 0 < byte_size
      → 0 < s
      → 0 < gas.bam_blk
      → 0 < gas.iam_blk
      → inode_list_start gas < 2 ^ 19
      → bit buffers (v (iam_block_start gas)) 1 ≡ false
      → ((i : ℕ) → i < s → bit buffers (v bam_block_start) i ≡ true)
      → ((i : ℕ)
          → s ≤ i
          → i < s + (byte_size + gas_block_size - 1) / gas_block_size
          → bit buffers (v bam_block_start) i ≡ false)
      → IsCreated mode
          ((byte_size + gas_block_size - 1) / gas_block_size)
          s
          ino
          (new_inode buffers gas host mode byte_size im)
  unfolding new_inode get_inode
  new_inode-IsCreated mode byte_size s ino there end pos at_s blocks iblocks near unused used free =
      let nr = (byte_size + gas_block_size - 1) / gas_block_size in
      let l = inode_list_start gas in
      let (imap, imarked, a) =
        allocate_inode-Ends buffers gas cached dirty v im holds (omega arith) unused in
      let v1 = put (iam_block_start gas) imap v in
      let (_, read) = read-Holds buffers _ cached dirty v1 a.image a.holds l near in
      let apart : (l == iam_block_start gas) ≡ false =
        ne→== l (iam_block_start gas) (omega arith) in
      let apart' : (bam_block_start == iam_block_start gas) ≡ false =
        ne→== bam_block_start (iam_block_start gas) (omega arith) in
      let r =
        fill_inode-IsFilled buffers gas host (add buffers l cached) dirty v1 _ read
          (ground (arith, eq→== l l refl)) mode 1 nr s ino (rw apart there) end (omega arith) at_s
          blocks (λ i lt. rw apart' (used i lt)) (λ i ge lt. rw apart' (free i ge lt)) in
      record {
        inode_map = imap;
        inode_marked = imarked;
        map = r.map;
        marked = record { bits = λ i lt. r.marked.bits i lt ∙ (rw apart' refl) };
        list = r.list;
        stored_inode = record {
          here = r.stored_inode.here;
          others = λ j ne. r.stored_inode.others j ne ∙ (rw apart refl);
        };
        state = record {
          image = r.state.image;
          ends = rw (◌>>=◌, a.ends) r.state.ends;
          holds = r.state.holds;
        };
      }
