-- ===== src/Kern/Truncate/Direct.antt =====
-- `gas_truncate_inode` of kern/gas_itree.c for a size within the direct blocks
use gas_filesystem.Base.{
  ℕ, ◌+◌, ◌-◌, ◌/◌, ◌^◌, ◌≡◌, ◌≤◌, ◌<◌, inl, inr, refl, ◌∙◌, List, [], ◌∷◌, ap, ltb, Bool, true,
  arith, Bool-cases,
}
use gas_filesystem.Kern.Types.{GasSbInfo}
use gas_filesystem.Kern.BitOps.{BitOps}
use gas_filesystem.Kern.Bitmap.Blocks.{IsValid}
use gas_filesystem.Kern.Itree.{block_to_path, dircount, depth}
use gas_filesystem.Kern.Branch.{Tree, mark}
use gas_filesystem.Kern.Branch.Follow.{follow}
use gas_filesystem.Kern.Branch.Get.{block_at}
use gas_filesystem.Kern.Truncate.{free_branches, do_indirects, truncate_shared, gas_truncate_inode}
use gas_filesystem.Kern.Truncate.Zeros.{zero_kept, free_range_zero, do_indirects_zero}
use gas_filesystem.Kern.Truncate.Shrunk.{
  Shrunk, Shrunk-refl, Shrunk-trans, kept-Shrunk, free_key-Shrunk, free_branches-Shrunk,
  do_indirects-Shrunk, truncate_shared-Shrunk,
}

-- The first offset of a path is between two numbers.
abbrev StartsIn : (low high : ℕ) → List ℕ → Type 0
StartsIn low high [] = ⊥
StartsIn low high (o ∷ offsets) = (low ≤ o) × (o < high)

block_to_path-StartsIn :
    (ptrs nblocks low block : ℕ)
    → block < nblocks
    → nblocks ≤ 2 ^ 63
    → low ≤ block
    → low < 6
    → StartsIn low 9 (block_to_path ptrs nblocks block)
unfolding block_to_path
block_to_path-StartsIn ptrs nblocks low block inside small ge lt = ground arith

direct_path :
    (ptrs nblocks block : ℕ)
    → block < nblocks
    → nblocks ≤ 2 ^ 63
    → block < 6
    → block_to_path ptrs nblocks block ≡ block ∷ []
unfolding block_to_path
direct_path ptrs nblocks block inside small direct = ground arith

-- The number of blocks that hold a size
abbrev pub blocks_of : (blocksize_bits size : ℕ) → ℕ
blocks_of blocksize_bits size = (size + 2 ^ blocksize_bits - 1) / 2 ^ blocksize_bits

module _ (ops : BitOps) (blocksize_bits : ℕ) (sbi : GasSbInfo) where
  abbrev IsGood : Tree ops → Type 0
  IsGood tree = IsValid ops blocksize_bits sbi tree.map

  module _ (reads : ℕ → Bool) (ptrs : ℕ) where
    module _ (now : ℕ) (tree : Tree ops) (good : IsGood tree) where
      abbrev truncated : ℕ → Tree ops
      truncated size = gas_truncate_inode ops blocksize_bits sbi reads ptrs now size tree

      abbrev closed : Tree ops → Tree ops
      closed t = mark ops 0 true (record t { i_mtime = now; i_ctime = now })

      -- What follows `block_to_path`
      abbrev for_path : List ℕ → Tree ops
      for_path path = elim path [
        | [] ↦ tree
        | o ∷ [] ↦ closed (
            do_indirects ops blocksize_bits sbi reads ptrs (depth - 1)
              (free_branches ops blocksize_bits sbi reads ptrs 0 0 o (dircount - o) tree))
        | o ∷ k ∷ offsets ↦ closed (
            do_indirects ops blocksize_bits sbi reads ptrs (depth - 1 - (o + 1 - dircount))
              (truncate_shared ops blocksize_bits sbi reads ptrs (o ∷ k ∷ offsets) tree))
      ]

      truncated_lem :
          (size : ℕ)
          → truncated size
            ≡ for_path (block_to_path ptrs sbi.s_nblocks (blocks_of blocksize_bits size))
      unfolding gas_truncate_inode
      truncated_lem size = refl

      closed-Shrunk :
          (t : Tree ops)
          → Shrunk ops blocksize_bits sbi tree t
          → Shrunk ops blocksize_bits sbi tree (closed t)
      unfolding mark
      closed-Shrunk t s =
          Shrunk-trans ops blocksize_bits sbi _ _ _ s
            (kept-Shrunk ops blocksize_bits sbi t (closed t) refl refl s.good)

      -- If the bitmap of blocks is valid, `gas_truncate_inode` to any size keeps it valid, leaves
      -- each key of the tree as it is or sets it to 0, and marks no block that was free, whatever
      -- keys the tree holds and whichever blocks can be read.
      pub gas_truncate_inode-Shrunk :
          (size : ℕ) → Shrunk ops blocksize_bits sbi tree (truncated size)
      unfolding gas_truncate_inode
      gas_truncate_inode-Shrunk size =
          by_path (block_to_path ptrs sbi.s_nblocks (blocks_of blocksize_bits size))
        where
          by_path : (path : List ℕ) → Shrunk ops blocksize_bits sbi tree (for_path path)
          by_path [] = Shrunk-refl ops blocksize_bits sbi tree good
          by_path (o ∷ []) =
              let freed =
                free_branches-Shrunk ops blocksize_bits sbi reads ptrs 0 0 o (dircount - o) tree
                  good in
              closed-Shrunk _ (
                Shrunk-trans ops blocksize_bits sbi _ _ _ freed
                  (do_indirects-Shrunk ops blocksize_bits sbi reads ptrs (depth - 1) _ freed.good))
          by_path (o ∷ k ∷ offsets) =
              let shared =
                truncate_shared-Shrunk ops blocksize_bits sbi reads ptrs (o ∷ k ∷ offsets) tree
                  good in
              closed-Shrunk _ (
                Shrunk-trans ops blocksize_bits sbi _ _ _ shared (
                  do_indirects-Shrunk ops blocksize_bits sbi reads ptrs
                    (depth - 1 - (o + 1 - dircount)) _ shared.good))

      at_direct :
          (size : ℕ)
          → block_to_path ptrs sbi.s_nblocks (blocks_of blocksize_bits size)
            ≡ blocks_of blocksize_bits size ∷ []
          → (truncated size).cell
            ≡ (do_indirects ops blocksize_bits sbi reads ptrs 3 (
                free_branches ops blocksize_bits sbi reads ptrs 0 0
                  (blocks_of blocksize_bits size)
                  (dircount - blocks_of blocksize_bits size)
                  tree)).cell
      unfolding mark
      at_direct size e = ap (λ (t : Tree ops). t.cell) (truncated_lem size ∙ ap for_path e)

      -- If the bitmap of blocks is valid and the new size takes up fewer than six blocks, then after
      -- `gas_truncate_inode` none of the blocks of the file from that number on, below the number of
      -- blocks of the file system, which is at most 2 ^ 63, is to be found, whatever keys the tree
      -- held and whichever blocks can be read.
      pub gas_truncate_inode_direct :
          (size block : ℕ)
          → blocks_of blocksize_bits size < 6
          → blocks_of blocksize_bits size ≤ block
          → block < sbi.s_nblocks
          → sbi.s_nblocks ≤ 2 ^ 63
          → block_at ptrs sbi.s_nblocks (truncated size).cell block ≡ 0
      gas_truncate_inode_direct size block direct ge inside small =
          rw
            (at_direct size (
              direct_path ptrs sbi.s_nblocks (blocks_of blocksize_bits size) (omega arith) small
                direct))
            (by_path (block_to_path ptrs sbi.s_nblocks block) (
              block_to_path-StartsIn ptrs sbi.s_nblocks (blocks_of blocksize_bits size) block inside
                small ge direct))
        where
          o : ℕ
          o = blocks_of blocksize_bits size

          leaves : Tree ops
          leaves = free_branches ops blocksize_bits sbi reads ptrs 0 0 o (dircount - o) tree

          whole : Tree ops
          whole = do_indirects ops blocksize_bits sbi reads ptrs 3 leaves

          good_leaves : Shrunk ops blocksize_bits sbi tree leaves
          good_leaves =
              free_branches-Shrunk ops blocksize_bits sbi reads ptrs 0 0 o (dircount - o) tree good

          empty : (i : ℕ) → o ≤ i → i < 9 → whole.cell 0 i ≡ 0
          empty i ge lt = elim (Bool-cases (ltb i 6)) [
            | inl low ↦
                zero_kept ops blocksize_bits sbi leaves whole
                  (do_indirects-Shrunk ops blocksize_bits sbi reads ptrs 3 leaves good_leaves.good)
                  0 i
                  (unfold free_branches in
                    (free_range_zero ops blocksize_bits sbi _
                      (free_key-Shrunk ops blocksize_bits sbi reads ptrs 0) 0 o (dircount - o) tree
                      good i ge (ground arith)))
            | inr high ↦
                do_indirects_zero ops blocksize_bits sbi reads ptrs 3 leaves good_leaves.good
                  (omega arith) i (ground arith) lt
          ]

          by_path : (path : List ℕ) → StartsIn o 9 path → follow whole.cell 0 path ≡ 0
          by_path [] starts = absurd starts
          by_path (k ∷ r) (ge, lt) = unfold follow in (rw (empty k ge lt) refl)
