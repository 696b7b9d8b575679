-- ===== src/Kern/Namei/Links.antt =====
-- Link counts in kern/gas_namei.c
use gas_filesystem.Base.{
  ℕ, ◌^◌, ◌≡◌, ◌≢◌, ◌<◌, refl, ◌∙◌, ap, Option, none, some, List, ◌==◌, Bool, true, false,
  if◌then◌else◌, arith, ne→==, eq→==,
}
use gas_filesystem.Kern.Types.{GasSbInfo, GasInodeInfo, Errno}
use gas_filesystem.Kern.BitOps.{BitOps}
use gas_filesystem.Kern.Bitmap.{Bitmap}
use gas_filesystem.Kern.Bitmap.Blocks.{block_bit, IsValid}
use gas_filesystem.Kern.Inode.{gas_set_inode}
use gas_filesystem.Kern.Ialloc.Alloc.{
  inode_numbers, NewInode, created, no_inode, gas_new_inode-NewInode,
}
use gas_filesystem.Kern.Dir.{Dir, Io}
use gas_filesystem.Kern.DirWrite.{gas_add_link, gas_make_empty}
use gas_filesystem.Kern.Namei.{
  Counters, Node, Vfs, Result, update, set_dir, inc_link_count, dec_link_count, ihold, iput, born,
  add_nondir, gas_link, with_new_inode, out_fail, fill_dir, gas_mkdir,
}

-- The link count of an inode
abbrev pub links : {ops : BitOps} → ℕ → Vfs ops → ℕ
links n vfs = (vfs.node n).i_nlink

module _ (ops : BitOps) (counters : Counters) where
  open counters use {inc_nlink, dec_nlink, dec-inc}

  -- A change that keeps the link count keeps all link counts.
  links-update :
      (ino n : ℕ) (f : Node → Node) (vfs : Vfs ops)
      → ((node : Node) → (f node).i_nlink ≡ node.i_nlink)
      → links n (update ops ino f vfs) ≡ links n vfs
  unfolding update
  links-update ino n f vfs same = by_test (n == ino)
    where
      by_test : (t : Bool) → (if t then f (vfs.node n) else vfs.node n).i_nlink ≡ links n vfs
      by_test true = same (vfs.node n)
      by_test false = refl

  links-update_other :
      (ino n : ℕ) (f : Node → Node) (vfs : Vfs ops)
      → n ≢ ino
      → links n (update ops ino f vfs) ≡ links n vfs
  unfolding update
  links-update_other ino n f vfs ne = by_test (n == ino) (ne→== n ino ne)
    where
      by_test :
          (t : Bool) → t ≡ false → (if t then f (vfs.node n) else vfs.node n).i_nlink ≡ links n vfs
      by_test true e = absurd (cc (e))
      by_test false e = refl

  links-set_dir :
      (ino n : ℕ) (d : Dir) (vfs : Vfs ops) → links n (set_dir ops ino d vfs) ≡ links n vfs
  links-set_dir ino n d vfs =
      links-update ino n (λ node. record node { dir = d }) vfs (λ node. refl)

  links-iput : (ino n : ℕ) (vfs : Vfs ops) → links n (iput ops counters ino vfs) ≡ links n vfs
  links-iput ino n vfs =
      links-update ino n (λ node. record node { i_count = counters.put node.i_count }) vfs
        (λ node. refl)

  links-inc :
      (ino : ℕ) (vfs : Vfs ops)
      → links ino (inc_link_count ops counters ino vfs) ≡ inc_nlink (links ino vfs)
  unfolding inc_link_count update
  links-inc ino vfs = ground (arith, eq→== ino ino refl)

  links-dec :
      (ino : ℕ) (vfs : Vfs ops)
      → links ino (dec_link_count ops counters ino vfs) ≡ dec_nlink (links ino vfs)
  unfolding dec_link_count update
  links-dec ino vfs = ground (arith, eq→== ino ino refl)

  links-inc_other :
      (ino n : ℕ) (vfs : Vfs ops)
      → n ≢ ino
      → links n (inc_link_count ops counters ino vfs) ≡ links n vfs
  unfolding inc_link_count update
  links-inc_other ino n vfs ne = ground (arith, ne→== n ino ne)

  links-dec_other :
      (ino n : ℕ) (vfs : Vfs ops)
      → n ≢ ino
      → links n (dec_link_count ops counters ino vfs) ≡ links n vfs
  unfolding dec_link_count update
  links-dec_other ino n vfs ne = ground (arith, ne→== n ino ne)

  module _ (io : Io) where
    links-add_nondir :
        (n parent : ℕ) (name : List ℕ) (ino : ℕ) (vfs : Vfs ops)
        → links n ((add_nondir ops counters io parent name ino vfs).2) ≡ links n vfs
    unfolding add_nondir
    links-add_nondir n parent name ino vfs =
        by_error ((gas_add_link io (vfs.node parent).dir name ino).0)
      where
        done : Vfs ops
        done = set_dir ops parent ((gas_add_link io (vfs.node parent).dir name ino).1) vfs

        kept : links n done ≡ links n vfs
        kept = links-set_dir parent n ((gas_add_link io (vfs.node parent).dir name ino).1) vfs

        by_error :
            (err : Option Errno)
            → links n (
                (elim err as (λ _. Result ops) [
                  | none ↦ (none, some ino, done)
                  | some e ↦ (some e, none, iput ops counters ino done)
                ]).2)
              ≡ links n vfs
        by_error none = kept
        by_error (some e) = links-iput ino n done ∙ kept

    -- After `gas_link` the link count of the inode has been incremented, whether or not the new
    -- entry could be added.
    pub gas_link_counts :
        (ino parent : ℕ) (name : List ℕ) (vfs : Vfs ops)
        → links ino ((gas_link ops counters io ino parent name vfs).2) ≡ inc_nlink (links ino vfs)
    unfolding gas_link
    gas_link_counts ino parent name vfs =
        let stamped : Vfs ops =
          update ops ino (λ node. record node { dir = record (node.dir) { i_ctime = io.now } })
            vfs in
        let more : Vfs ops = inc_link_count ops counters ino stamped in
        links-add_nondir ino parent name ino (ihold ops counters ino more)
        ∙ (links-update ino ino (λ node. record node { i_count = counters.hold node.i_count }) more
              (λ node. refl)
            ∙ (links-inc ino stamped
                ∙ ap (λ (k : ℕ). inc_nlink k)
                    (links-update ino ino
                      (λ node. record node { dir = record (node.dir) { i_ctime = io.now } }) vfs
                      (λ node. refl))))

    module _ (sbi : GasSbInfo) where
      -- `gas_mkdir` behind `gas_new_inode`
      links-fill_dir :
          (fresh : Option GasInodeInfo) (grabbed : Bool) (parent : ℕ) (name : List ℕ)
          (info : GasInodeInfo) (vfs : Vfs ops)
          → parent ≢ info.i_ino
          → (fill_dir ops counters io sbi fresh grabbed parent name info vfs).0 ≢ none
          → links parent ((fill_dir ops counters io sbi fresh grabbed parent name info vfs).2)
            ≡ dec_nlink (links parent vfs)
      unfolding fill_dir
      links-fill_dir fresh grabbed parent name info vfs apart =
          by_errors ((gas_make_empty io grabbed (linked.node ino).dir parent).0)
            ((gas_add_link io (made.node parent).dir name ino).0)
        where
          ino : ℕ
          ino = info.i_ino

          op : Node → Node
          op node = record node { i_op = some (gas_set_inode info 0) }

          linked : Vfs ops
          linked = update ops ino op (inc_link_count ops counters ino vfs)

          made : Vfs ops
          made = set_dir ops ino ((gas_make_empty io grabbed (linked.node ino).dir parent).1) linked

          named : Vfs ops
          named = set_dir ops parent ((gas_add_link io (made.node parent).dir name ino).1) made

          made_links : links parent made ≡ links parent vfs
          made_links =
              links-set_dir ino parent ((gas_make_empty io grabbed (linked.node ino).dir parent).1)
                linked
              ∙ (links-update ino parent op (inc_link_count ops counters ino vfs) (λ node. refl)
                  ∙ links-inc_other ino parent vfs apart)

          named_links : links parent named ≡ links parent vfs
          named_links =
              links-set_dir parent parent ((gas_add_link io (made.node parent).dir name ino).1) made
              ∙ made_links

          given_up :
              (e : Errno) (v : Vfs ops)
              → links parent v ≡ links parent vfs
              → links parent ((out_fail ops counters io sbi fresh ino parent e v).2)
                ≡ dec_nlink (links parent vfs)
          given_up e v same =
              let once : Vfs ops = dec_link_count ops counters ino v in
              let twice : Vfs ops = dec_link_count ops counters ino once in
              links-dec parent (iput ops counters ino twice)
              ∙ ap (λ (k : ℕ). dec_nlink k)
                  (links-iput ino parent twice
                    ∙ (links-dec_other ino parent once apart
                        ∙ (links-dec_other ino parent v apart ∙ same)))

          by_errors :
              (err err' : Option Errno)
              → let result : Result ops = elim err [
                | some e ↦ out_fail ops counters io sbi fresh ino parent e made
                | none ↦ elim err' [
                  | some e ↦ out_fail ops counters io sbi fresh ino parent e named
                  | none ↦ (none, some ino, named)
                ]
              ] in
                result.0 ≢ none → links parent (result.2) ≡ dec_nlink (links parent vfs)
          by_errors (some e) err' failed = given_up e made made_links
          by_errors none (some e) failed = given_up e named named_links
          by_errors none none failed = absurd (failed refl)

      module _ (blocksize_bits parent : ℕ) (init_owner : GasInodeInfo → GasInodeInfo)
          (grabbed : Bool) (name : List ℕ) (vfs : Vfs ops)
          (valid : IsValid ops blocksize_bits (inode_numbers sbi) vfs.iam)
          (taken : block_bit ops sbi.s_bits_per_block vfs.iam parent ≡ some true)
          (small : links parent vfs < 2 ^ 32) where
        abbrev counted : Vfs ops
        counted = inc_link_count ops counters parent vfs

        restored :
            (v : Vfs ops)
            → links parent v ≡ dec_nlink (links parent counted)
            → links parent v ≡ links parent vfs
        restored v e =
            let inc : links parent counted ≡ inc_nlink (links parent vfs) = links-inc parent vfs in
            e ∙ (ap (λ (k : ℕ). dec_nlink k) inc ∙ dec-inc (links parent vfs) small)

        abbrev born_in : Option GasInodeInfo → GasInodeInfo → Bitmap ops → Vfs ops
        born_in fresh info map' =
            update ops info.i_ino (λ _. born ops counters io sbi fresh info)
              (record counted { iam = map' })

        -- What `gas_mkdir` does with what `gas_new_inode` returns
        by_new :
            (fresh : Option GasInodeInfo) (inode : GasInodeInfo)
            (r : Option Errno × Option GasInodeInfo × Bitmap ops)
            → NewInode ops blocksize_bits sbi vfs.iam valid init_owner io.now inode r
            → let result : Result ops = elim (r.1) [
              | none ↦ (r.0, none, dec_link_count ops counters parent counted)
              | some info ↦
                  fill_dir ops counters io sbi fresh grabbed parent name info
                    (born_in fresh info (r.2))
            ] in
              result.0 ≢ none → links parent (result.2) ≡ links parent vfs
        by_new fresh inode r (no_inode full) failed =
            restored (dec_link_count ops counters parent counted) (links-dec parent counted)
        by_new fresh inode r (created {map' = map'} info ge lt size blocks owner free change keeps)
              failed =
            let apart : parent ≢ info.i_ino =
              λ e. absurd (cc (taken, free, ap (block_bit ops sbi.s_bits_per_block vfs.iam) e)) in
            let before = born_in fresh info map' in
            restored ((fill_dir ops counters io sbi fresh grabbed parent name info before).2) (
              links-fill_dir fresh grabbed parent name info before apart failed
              ∙ ap (λ (k : ℕ). dec_nlink k)
                  (links-update_other info.i_ino parent (λ _. born ops counters io sbi fresh info)
                    (record counted { iam = map' }) apart))

        -- If decrementing undoes an increment of a link count of 32 bits, the number of the parent
        -- directory is marked in a valid bitmap of inodes and its link count fits 32 bits, then
        -- whenever `gas_mkdir` fails, for want of memory or of an inode or because the new directory
        -- cannot be filled or entered into its parent, the link count of the parent is what it was.
        pub gas_mkdir_failed :
            (fresh : Option GasInodeInfo)
            → (gas_mkdir ops counters io sbi fresh init_owner grabbed parent name vfs).0 ≢ none
            → links parent
                ((gas_mkdir ops counters io sbi fresh init_owner grabbed parent name vfs).2)
              ≡ links parent vfs
        unfolding gas_mkdir with_new_inode
        gas_mkdir_failed none failed =
            restored (dec_link_count ops counters parent counted) (links-dec parent counted)
        gas_mkdir_failed (some inode) failed =
            by_new (some inode) inode _
              (gas_new_inode-NewInode ops blocksize_bits sbi vfs.iam valid init_owner io.now inode)
              failed
