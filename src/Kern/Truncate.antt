-- ===== src/Kern/Truncate.antt =====
-- kern/gas_itree.c: `gas_truncate_inode` and what it calls, and its callers in kern/gas_inode.c
-- and kern/gas_page.c. Pointers and places are those of the branch
-- functions; `&nr`, the address of a local variable, is the key itself. What a leaf block holds is not
-- part of the tree, so that `block_truncate_page` changes nothing here.
pub mod Shrunk
pub mod Zeros
pub mod Direct
pub mod Evict
use gas_filesystem.Base.{
  ℕ, zero, suc, ◌+◌, ◌-◌, ◌*◌, ◌/◌, ◌^◌, List, [], ◌∷◌, ◌==◌, ◌&&◌, ◌||◌, not, ltb, leb, Bool, true,
  false, if◌then◌else◌, length, Option, none, some,
}
use gas_filesystem.Kern.Types.{GasSbInfo}
use gas_filesystem.Kern.BitOps.{BitOps}
use gas_filesystem.Kern.Inode.{InodeTable, s_isreg, s_isdir, s_islnk}
use gas_filesystem.Kern.Bitmap.{Bitmap, gas_free_block}
use gas_filesystem.Kern.Ialloc.{gas_free_inode}
use gas_filesystem.Kern.Itree.{block_to_path, dircount, depth}
use gas_filesystem.Kern.Branch.{
  Cells, Indirect, store_key, Branch, complete, partial, get_branch, Tree, mark,
}

-- `all_zeroes` for the cells of a place before an index
unfoldable pub all_zeroes : Cells → (place : ℕ) → (before : ℕ) → Bool
all_zeroes cell place zero = true
all_zeroes cell place (suc i) = all_zeroes cell place i && cell place i == 0

-- The first loop of `find_shared`: the offsets without the zeros at the end, of which the first stays
unfoldable pub shorten : List ℕ → List ℕ
shorten [] = []
shorten (o ∷ offsets) = elim (shorten offsets) [
  | [] ↦ o ∷ []
  | k ∷ [] ↦ if k == 0 then o ∷ [] else o ∷ k ∷ []
  | k ∷ l ∷ rest ↦ o ∷ k ∷ l ∷ rest
]

-- The second loop, for a chain with the last element first
unfoldable pub climb : Cells → List Indirect → List Indirect
unfolding all_zeroes
climb cell [] = []
climb cell (p ∷ []) = p ∷ []
climb cell (p ∷ q ∷ above) =
    let higher = climb cell (q ∷ above) in
    if all_zeroes cell p.place p.index then higher else p ∷ q ∷ above

-- The elements of the chain, whether `get_branch` returns NULL or not
abbrev pub chain_of : Branch → List Indirect
chain_of b = elim b [ complete chain ↦ chain | partial err chain ↦ chain ]

module _ (ops : BitOps) where
  abbrev pub store : (place index key : ℕ) → Tree ops → Tree ops
  store place index key tree = record tree { cell = store_key tree.cell place index key }

  -- `find_shared`: the chain up to `partial`, the last element first, and `*top`. If `p` is the last
  -- element, its index is not 0, for the loop left no zero at the end of the offsets.
  unfoldable pub find_shared : (reads : ℕ → Bool) → List ℕ → Tree ops → List Indirect × ℕ × Tree ops
  unfolding shorten climb get_branch store_key
  find_shared reads offsets tree =
      let path = shorten offsets in
      let chain = chain_of (get_branch reads (λ _. tree.cell) path) in
      elim chain [
        | [] ↦ ([], 0, tree)
        | last ∷ rest ↦
            if last.key == 0 && not (tree.cell last.place last.index == 0)
            then (last ∷ rest, 0, tree)
            else elim (climb tree.cell (last ∷ rest)) [
              | [] ↦ ([], 0, tree)
              | p ∷ above ↦
                  if (length above + 1 == length path) && ltb 0 (length above)
                  then (record p { index = p.index - 1 } ∷ above, 0, tree)
                  else (p ∷ above, tree.cell p.place p.index, store p.place p.index 0 tree)
            ]
      ]

  -- `n` cells of a place, from one on: their keys are set to 0, and each of them is handed to `free`.
  -- It is the loop of `free_data` and of `free_branches`.
  unfoldable pub free_range :
      (free : ℕ → Tree ops → Tree ops) → (place from n : ℕ) → Tree ops → Tree ops
  unfolding store_key
  free_range free place from zero tree = tree
  free_range free place from (suc n) tree =
      let nr = tree.cell place from in
      let tree' = free nr (store place from 0 tree) in
      free_range free place (from + 1) n (if nr == 0 then tree else tree')

  module _ (blocksize_bits : ℕ) (sbi : GasSbInfo) (reads : ℕ → Bool) (ptrs : ℕ) where
    -- What `free_branches` of a depth does to one key that is not 0, and `free_data` at depth 0
    unfoldable pub free_key : (depth : ℕ) → (nr : ℕ) → Tree ops → Tree ops
    unfolding free_range mark
    free_key zero nr tree = record tree { map = gas_free_block ops blocksize_bits sbi tree.map nr }
    free_key (suc depth) nr tree =
        let below = mark ops nr false (free_range (free_key depth) nr 0 ptrs tree) in
        if reads nr
        then mark ops 0 true
            (record below { map = gas_free_block ops blocksize_bits sbi below.map nr })
        else tree

    -- `free_branches`
    unfoldable pub free_branches : (depth : ℕ) → (place from n : ℕ) → Tree ops → Tree ops
    unfolding free_key
    free_branches depth place from n tree = free_range (free_key depth) place from n tree

    -- The loop that clears the ends of the indirect blocks on the shared branch, for a path of `n`
    -- offsets
    unfoldable pub clear_ends : (n : ℕ) → List Indirect → Tree ops → Tree ops
    unfolding free_branches
    clear_ends n [] tree = tree
    clear_ends n (p ∷ []) tree = tree
    clear_ends n (p ∷ q ∷ above) tree = clear_ends n (q ∷ above) (
        mark ops p.place true (
          free_branches (n - (length above + 2)) p.place (p.index + 1) (ptrs - (p.index + 1)) tree))

    -- The label `do_indirects`, for the last `rounds` of the three indirect keys
    unfoldable pub do_indirects : (rounds : ℕ) → Tree ops → Tree ops
    unfolding free_key store_key
    do_indirects zero tree = tree
    do_indirects (suc rounds) tree =
        let first_whole = depth - 1 - suc rounds in
        let nr = tree.cell 0 (dircount + first_whole) in
        let tree' =
          free_key (first_whole + 1) nr
            (mark ops 0 true (store 0 (dircount + first_whole) 0 tree)) in
        do_indirects rounds (if nr == 0 then tree else tree')

    -- The part of `gas_truncate_inode` for a path of two offsets and more
    unfoldable pub truncate_shared : List ℕ → Tree ops → Tree ops
    unfolding find_shared clear_ends
    truncate_shared offsets tree =
        let n = length offsets in
        let (chain, nr, tree') = find_shared reads offsets tree in
        let place : ℕ = elim chain [ [] ↦ 0 | p ∷ above ↦ p.place ] in
        let tree'' = free_key (n - length chain) nr (mark ops place true tree') in
        clear_ends n chain (if nr == 0 then tree' else tree'')

    -- `gas_truncate_inode`, for the `i_size` of the inode
    unfoldable pub gas_truncate_inode : (now size : ℕ) → Tree ops → Tree ops
    unfolding truncate_shared do_indirects free_branches
    gas_truncate_inode now size tree =
        let iblock = (size + 2 ^ blocksize_bits - 1) / 2 ^ blocksize_bits in
        let close : Tree ops → Tree ops =
          λ t. mark ops 0 true (record t { i_mtime = now; i_ctime = now }) in
        elim (block_to_path ptrs sbi.s_nblocks iblock) [
          | [] ↦ tree
          | o ∷ [] ↦ close (do_indirects (depth - 1) (free_branches 0 0 o (dircount - o) tree))
          | o ∷ k ∷ offsets ↦ close (
              do_indirects (depth - 1 - (o + 1 - dircount))
                (truncate_shared (o ∷ k ∷ offsets) tree))
        ]

    -- `gas_truncate` of kern/gas_inode.c
    unfoldable pub gas_truncate : (now mode size : ℕ) → Tree ops → Tree ops
    unfolding gas_truncate_inode
    gas_truncate now mode size tree =
        if not (s_isreg mode || s_isdir mode || s_islnk mode)
        then tree
        else gas_truncate_inode now size tree

    -- `gas_write_failed` of kern/gas_page.c, for a write that was to end at `to`
    unfoldable pub gas_write_failed : (now mode size to : ℕ) → Tree ops → Tree ops
    unfolding gas_truncate
    gas_write_failed now mode size to tree =
        if ltb size to then gas_truncate now mode size tree else tree

    -- `gas_evict_inode` of kern/gas_inode.c: the tree, and the inode list with the bitmap of inodes
    unfoldable pub gas_evict_inode :
        (now ino mode nlink : ℕ)
        → Tree ops × InodeTable × Bitmap ops
        → Tree ops × InodeTable × Bitmap ops
    unfolding gas_truncate
    gas_evict_inode now ino mode nlink (tree, table, iam) =
        let (table', iam') = gas_free_inode ops blocksize_bits sbi (table, iam) ino in
        if nlink == 0 then (gas_truncate now mode 0 tree, table', iam') else (tree, table, iam)
