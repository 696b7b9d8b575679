-- ===== src/Makefs/Format/Dots.antt =====
-- makefs/mkfs.c: `gas_add_dentry`, and the first two entries of a directory
use gas_filesystem.Base.{
  ℕ, ◌+◌, ◌-◌, ◌*◌, ◌/◌, ◌%◌, ◌^◌, ◌<◌, ◌≡◌, ◌≢◌, refl, sym, ◌∙◌, arith, some, List, [], ◌∷◌, Bool,
  true, false, not, ◌==◌, ◌&&◌, ◌||◌, length, leb, eq→==, ne→==, get_elem?, get_or, set, length-set,
  get_elem?-set_self, get_elem?-set_ne, get_elem?_of_lt,
}
use gas_filesystem.Kern.Types.{
  GasInode, gas_block_size, gas_max_name_len, gas_root_ino, dir_entry_size, u32,
}
use gas_filesystem.Kern.Dir.{DirEntry, copy_name}
use gas_filesystem.Makefs.Layout.{FilesysParam, inode_list_start}
use gas_filesystem.Makefs.Disk.{Buffers, Image, bc_read, poke, bc_write}
use gas_filesystem.Makefs.Disk.Holds.{
  Holds, put, nothing, read-Holds, poke-Holds, dirty_poke-Holds, write-Holds, weaken-Holds,
  reseen-Holds,
}
use gas_filesystem.Makefs.Format.{◌>>=◌, ◌>>◌, Run, Host, put_entry, gas_add_dentry}
use gas_filesystem.Makefs.Format.Alloc.{Ends}
use gas_filesystem.Makefs.Format.Inode.{
  IsStored, stored, stored-IsStored, inode_ptr-done, store_ptr-done,
}

-- The entry that `gas_add_dentry` writes
abbrev pub named : List ℕ → ℕ → DirEntry
named name new_ino = record { de_name = copy_name (gas_max_name_len - 1) name; de_inode = new_ino }

-- The inode of the root directory, with two entries in block `s`
abbrev pub root_inode : Host → ℕ → GasInode
root_inode host s = record {
  i_mode = 0o040755;
  i_nlink = 2;
  i_uid = u32 host.uid;
  i_gid = u32 host.gid;
  i_size = 2 * dir_entry_size;
  i_atime = u32 host.now;
  i_mtime = u32 host.now;
  i_ctime = u32 host.now;
  i_blkaddr = s ∷ 0 ∷ 0 ∷ 0 ∷ 0 ∷ 0 ∷ 0 ∷ 0 ∷ 0 ∷ [];
}

module _ (buffers : Buffers) where
  open buffers use {Data, inodes, entries, put_entries}

  -- One entry of a block of a directory was written.
  pub record IsEntryPut (k : ℕ) (de : DirEntry) (d d' : Data) : Type 0 where
    pub here : get_elem? (entries d') k ≡ some de
    pub others : (j : ℕ) → k ≢ j → get_elem? (entries d') j ≡ get_elem? (entries d) j

  -- `put_entry` at the offset of entry `k` of the fifteen
  put_entry-IsEntryPut :
      (k offset : ℕ) (de : DirEntry) (d : Data)
      → offset ≡ k * dir_entry_size
      → k < 15
      → (d' : Data) × (put_entry buffers offset de d ≡ some d') × IsEntryPut k de d d'
  unfolding put_entry
  put_entry-IsEntryPut k offset de d at lt =
      let whole : (offset % dir_entry_size == 0) ≡ true = eq→== _ 0 (omega arith) in
      let number : offset / dir_entry_size ≡ k = omega arith in
      let inside : k < length (entries d) = omega (arith, buffers.entries_length d) in
      let (old, there) = get_elem?_of_lt (entries d) k inside in
      let back =
        buffers.entries-put_entries d (set (entries d) k de)
          (length-set (entries d) k de ∙ buffers.entries_length d) in
      (
        put_entries d (set (entries d) k de),
        rw (whole, number, there, number) refl,
        record {
          here = rw back (get_elem?-set_self (entries d) k de inside);
          others = λ j ne. rw back (get_elem?-set_ne (entries d) k j de ne);
        },
      )

  module _ (gas : FilesysParam) (cached dirty : ℕ → Bool) (v : ℕ → Data) (im : Image buffers)
      (holds : Holds buffers (nothing buffers) cached dirty v im) where
    -- Entry `k` of block `b` was added to the directory of an inode that has `k` entries.
    pub record IsAdded (ino_id : ℕ) (ino : GasInode) (k b : ℕ) (de : DirEntry)
        (r : Run buffers (Unit {0})) : Type 0 where
      pub block : Data
      pub entry_put : IsEntryPut k de (v b) block
      pub list : Data
      pub grown :
          IsStored buffers ino_id
            (record ino { i_size = ino.i_size + dir_entry_size })
            (v (inode_list_start gas))
            list
      pub state : Ends buffers r cached dirty tt (put (inode_list_start gas) list (put b block v))

    pub gas_add_dentry-IsAdded :
        (ino_id : ℕ) (name : List ℕ) (new_ino : ℕ) (ino : GasInode) (k b : ℕ)
        → cached (inode_list_start gas) ≡ true
        → dirty (inode_list_start gas) ≡ true
        → get_elem? (inodes (v (inode_list_start gas))) ino_id ≡ some ino
        → ino.i_size ≡ k * dir_entry_size
        → k < 15
        → get_or ino.i_blkaddr 0 0 ≡ b
        → b < 2 ^ 19
        → inode_list_start gas ≢ b
        → IsAdded ino_id ino k b
            (named name new_ino)
            (gas_add_dentry buffers gas ino_id name new_ino im)
    unfolding gas_add_dentry
    gas_add_dentry-IsAdded ino_id name new_ino ino k b in_cache is_dirty there size few addr fits
          apart =
        let l = inode_list_start gas in
        let de = named name new_ino in
        let f = λ (ino : GasInode). (record ino { i_size = u32 (ino.i_size + dir_entry_size) }) in
        let (value, h1) = read-Holds buffers _ cached dirty v im holds b fits in
        let (d', e, entry) =
          put_entry-IsEntryPut k (ino.i_size % gas_block_size) de (v b) (omega arith) few in
        let h2 = poke-Holds buffers _ _ _ _ _ h1 b (ground (arith, eq→== b b refl)) (λ _. d') in
        let there2 : get_elem? (inodes (put b d' v l)) ino_id ≡ some ino =
          rw (ne→== l b apart) there in
        let h3 =
          dirty_poke-Holds buffers _ _ _ _ _ h2 l (rw in_cache refl) (stored buffers ino_id f ino)
            is_dirty in
        let h4 = write-Holds buffers _ _ _ _ _ h3 b (ground (arith, eq→== b b refl)) in
        let st = stored-IsStored buffers ino_id f ino (v l) there in
        let grown : u32 (ino.i_size + dir_entry_size) ≡ ino.i_size + dir_entry_size = omega arith in
        let room : leb gas_block_size ino.i_size ≡ false = ground arith in
        let blk_id : u32 (get_or ino.i_blkaddr 0 0 + ino.i_size / gas_block_size) ≡ b =
          omega arith in
        let s1 = inode_ptr-done buffers gas _ _ _ _ im holds in_cache ino_id ino there in
        let s2 = store_ptr-done buffers gas _ _ _ _ _ h2 (rw in_cache refl) ino_id ino there2 f in
        record {
          block = d';
          entry_put = entry;
          list = stored buffers ino_id f ino (v l);
          grown = rw (sym grown) st;
          state = record {
            image = bc_write buffers b false (
                poke buffers l (stored buffers ino_id f ino)
                  (poke buffers b (λ _. d') ((bc_read buffers b im).1)));
            ends = rw (◌>>=◌, s1, room, blk_id, value, e, ◌>>◌, blk_id, s2, blk_id) refl;
            holds =
                reseen-Holds buffers _ _ _ _ _
                  (weaken-Holds buffers _ _ _ _ _ h4 (nothing buffers) cached dirty
                    (λ x _. settled (x == b)) (λ x is. rw is refl) (λ x is. rw is refl))
                  _ (λ x. rw (ne→== l b apart) refl);
          };
        }
      where
        settled : (t : Bool) → ((false || t) && not t) ≡ false
        settled true = refl
        settled false = refl

  -- The first two entries of a directory were written.
  pub record HasDots (d d' : Data) : Type 0 where
    pub dot : get_elem? (entries d') 0 ≡ some (record { de_name = b'.' ∷ []; de_inode = 1 })
    pub dotdot :
        get_elem? (entries d') 1 ≡ some (record { de_name = b'.' ∷ b'.' ∷ []; de_inode = 1 })
    pub others : (j : ℕ) → 1 < j → get_elem? (entries d') j ≡ get_elem? (entries d) j

  -- An inode without entries got the first two, in block `s`.
  pub record IsDotted (gas : FilesysParam) (ino : GasInode) (s : ℕ) (v w : ℕ → Data) : Type 0 where
    pub root :
        IsStored buffers 1
          (record ino { i_size = 2 * dir_entry_size })
          (v (inode_list_start gas))
          (w (inode_list_start gas))
    pub dots : HasDots (v s) (w s)
    pub rest : (x : ℕ) → x ≢ inode_list_start gas → x ≢ s → w x ≡ v x

  abbrev pub add_dots : FilesysParam → ℕ → Image buffers → Run buffers (Unit {0})
  add_dots gas i im =
      ◌>>◌ buffers (gas_add_dentry buffers gas i (b'.' ∷ []) gas_root_ino)
        (gas_add_dentry buffers gas i (b'.' ∷ b'.' ∷ []) gas_root_ino) im

  module _ (gas : FilesysParam) (cached dirty : ℕ → Bool) (v : ℕ → Data) (im : Image buffers)
      (s : ℕ) (ino : GasInode) (holds : Holds buffers (nothing buffers) cached dirty v im)
      (in_cache : cached (inode_list_start gas) ≡ true)
      (is_dirty : dirty (inode_list_start gas) ≡ true)
      (there : get_elem? (inodes (v (inode_list_start gas))) 1 ≡ some ino) (empty : ino.i_size ≡ 0)
      (addr : get_or ino.i_blkaddr 0 0 ≡ s) (fits : s < 2 ^ 19)
      (behind : inode_list_start gas < s) where
    abbrev FirstEntry : Type 0
    FirstEntry =
        IsAdded gas cached dirty v im holds 1 ino 0 s (named (b'.' ∷ []) 1)
          (gas_add_dentry buffers gas 1 (b'.' ∷ []) 1 im)

    ls : (inode_list_start gas == s) ≡ false
    ls = ne→== (inode_list_start gas) s (omega arith)

    sl : (s == inode_list_start gas) ≡ false
    sl = ne→== s (inode_list_start gas) (omega arith)

    self : (n : ℕ) → (n == n) ≡ true
    self n = eq→== n n refl

    module _ (a : FirstEntry) where
      abbrev seen_then : ℕ → Data
      seen_then = put (inode_list_start gas) a.list (put s a.block v)

      abbrev grown_once : GasInode
      grown_once = record ino { i_size = ino.i_size + dir_entry_size }

      abbrev SecondEntry : Type 0
      SecondEntry =
          IsAdded gas cached dirty seen_then a.state.image a.state.holds 1 grown_once 1 s
            (named (b'.' ∷ b'.' ∷ []) 1)
            (gas_add_dentry buffers gas 1 (b'.' ∷ b'.' ∷ []) 1 a.state.image)

      add_second : SecondEntry
      add_second =
          gas_add_dentry-IsAdded gas cached dirty seen_then a.state.image a.state.holds 1
            (b'.' ∷ b'.' ∷ []) 1 grown_once 1 s in_cache is_dirty
            (rw (self (inode_list_start gas)) a.grown.here) (rw empty refl) (omega arith) addr fits
            (omega arith)

      module _ (b : SecondEntry) where
        abbrev seen_last : ℕ → Data
        seen_last = put (inode_list_start gas) b.list (put s b.block seen_then)

        last_inode :
            IsStored buffers 1
              (record ino { i_size = 2 * dir_entry_size })
              (v (inode_list_start gas))
              b.list
        last_inode = record {
          here = b.grown.here ∙ (rw empty refl);
          others = λ j ne.
              b.grown.others j ne ∙ (rw (self (inode_list_start gas)) (a.grown.others j ne));
        }

        both-IsDotted : IsDotted gas ino s v seen_last
        unfolding copy_name
        both-IsDotted = record {
          root = rw (self (inode_list_start gas)) last_inode;
          dots = record {
            dot =
                rw (sl, self s)
                  (b.entry_put.others 0 (omega arith) ∙ rw (sl, self s) a.entry_put.here);
            dotdot = rw (sl, self s) b.entry_put.here;
            others = λ j lt.
                rw (sl, self s)
                  (b.entry_put.others j (omega arith)
                    ∙ rw (sl, self s) (a.entry_put.others j (omega arith)));
          };
          rest = λ x nl ns. rw (ne→== x (inode_list_start gas) nl, ne→== x s ns) refl;
        }

        both-Ends : Ends buffers (add_dots gas 1 im) cached dirty tt seen_last
        both-Ends = record {
          image = b.state.image;
          ends = rw (◌>>◌, ◌>>=◌, a.state.ends) b.state.ends;
          holds = b.state.holds;
        }

    pub add_dots-IsDotted :
        (w : ℕ → Data) × IsDotted gas ino s v w × Ends buffers (add_dots gas 1 im) cached dirty tt w
    add_dots-IsDotted =
        let a =
          gas_add_dentry-IsAdded gas cached dirty v im holds 1 (b'.' ∷ []) 1 ino 0 s in_cache
            is_dirty there empty (omega arith) addr fits (omega arith) in
        let b = add_second a in (seen_last a b, both-IsDotted a b, both-Ends a b)
