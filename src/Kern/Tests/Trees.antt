-- ===== src/Kern/Tests/Trees.antt =====
-- Looking a block up, adding one and truncating, in a tree that is empty at first
use gas_filesystem.Base.{
  ℕ, ◌<◌, ◌≡◌, ◌≢◌, refl, true, false, arith, List, [], ◌∷◌, some, if◌then◌else◌, ◌==◌,
}
use gas_filesystem.Kern.Inode.RoundTrip.{stored}
use gas_filesystem.Kern.Bitmap.Blocks.{IsValid, BlockChanged}
use gas_filesystem.Kern.Ialloc.Alloc.{inode_numbers}
use gas_filesystem.Kern.Ialloc.Free.{cleared}
use gas_filesystem.Kern.Branch.{Cells, Tree, quiet, get_branch, gas_get_block}
use gas_filesystem.Kern.Branch.Follow.{follow}
use gas_filesystem.Kern.Branch.Node.{IsNode, IsTree}
use gas_filesystem.Kern.Branch.Verified.{Verified, get_branch-Verified}
use gas_filesystem.Kern.Branch.Get.{block_at, Got, gas_get_block-Got}
use gas_filesystem.Kern.Truncate.{gas_truncate_inode, gas_evict_inode}
use gas_filesystem.Kern.Truncate.Shrunk.{Shrunk}
use gas_filesystem.Kern.Truncate.Direct.{gas_truncate_inode_direct}
use gas_filesystem.Kern.Truncate.Evict.{gas_evict_inode-BlockChanged}
use gas_filesystem.Kern.Tests.Bits.{function_bits}
use gas_filesystem.Kern.Tests.Nodes.{no_inode}
use gas_filesystem.Kern.Tests.Inodes.{
  small_disk, marked_map, marked_map-bit, small_iam, small_iam-IsValid, small_table,
  small_table-stored,
}

-- Every read finds another block, but for the key in the inode.
abbrev busy : ℕ → Cells
busy level b i = if b == 0 then 3 else level

get_branch-Verified_example : Verified busy (get_branch (λ b. true) busy (6 ∷ 1 ∷ []))
get_branch-Verified_example = get_branch-Verified (λ b. true) busy (6 ∷ 1 ∷ [])

abbrev empty_tree : Tree function_bits
empty_tree = record {
  cell = λ b i. 0;
  map = marked_map 2 8;
  dirty = λ b. false;
  i_mtime = 0;
  i_ctime = 0;
}

empty_tree-IsValid : IsValid function_bits 0 small_disk (marked_map 2 8)
empty_tree-IsValid = record {
  bits = refl;
  whole = refl;
  hint = omega arith;
  fits = omega arith;
  covers = omega arith;
  metadata = λ n lt. ground (arith, marked_map-bit 2 8 n (omega arith));
  beyond = λ n ge lt. absurd (omega arith);
}

no_keys : (u : List ℕ) → IsNode u → follow (λ b i. 0) 0 u ≡ 0
unfolding follow
no_keys [] is = absurd is
no_keys (o ∷ r) is = refl

empty_tree-IsTree : IsTree function_bits 0 small_disk empty_tree
empty_tree-IsTree = record {
  good = empty_tree-IsValid;
  marked = λ u is ne. absurd (ne (no_keys u is));
  distinct = λ u v is is' ne e. absurd (ne (no_keys u is));
}

-- Block 7 of the file hangs below the first indirect block, so that two blocks are new.
gas_get_block-Got_example :
    Got function_bits 0 small_disk
      (λ b. true)
      (λ b. refl)
      9
      []
      4
      (omega arith)
      empty_tree
      7
      (gas_get_block function_bits 0 small_disk
        (λ b. true)
        9
        4
        7
        true
        (quiet function_bits 0 small_disk ∷ [])
        empty_tree)
gas_get_block-Got_example =
    gas_get_block-Got function_bits 0 small_disk (λ b. true) (λ b. refl) 9 [] 4 (omega arith)
      empty_tree (omega arith) (omega arith) (omega arith) empty_tree-IsTree 7 (omega arith)

-- A tree of a direct block and an indirect one with a block below it
abbrev full_tree : Tree function_bits
full_tree = record empty_tree {
  cell = λ b i.
      if b == 0
      then (if i == 0 then 2 else if i == 6 then 3 else 0)
      else if b == 3
      then (if i == 1 then 4 else 0)
      else 0;
}

gas_truncate_inode_direct_example :
    block_at 4 8 (gas_truncate_inode function_bits 0 small_disk (λ b. true) 4 9 1 full_tree).cell 7
    ≡ 0
gas_truncate_inode_direct_example =
    gas_truncate_inode_direct function_bits 0 small_disk (λ b. true) 4 9 full_tree
      empty_tree-IsValid 1 7 (omega arith) (omega arith) (omega arith) (omega arith)

gas_evict_inode-BlockChanged_example :
    let (tree', table', iam') =
      gas_evict_inode function_bits 0 small_disk
        (λ b. true)
        4
        9
        3
        0o100644
        0
        (full_tree, small_table, small_iam) in
    ((block : ℕ) → block < 8 → block_at 4 8 tree'.cell block ≡ 0)
    × Shrunk function_bits 0 small_disk full_tree tree'
    × (stored small_disk table' 3 ≡ some (cleared no_inode))
    × ((other : ℕ)
        → other ≢ 3
        → stored small_disk table' other ≡ stored small_disk small_table other)
    × BlockChanged function_bits 8 small_iam 3 false iam'
    × IsValid function_bits 0 (inode_numbers small_disk) iam'
gas_evict_inode-BlockChanged_example =
    gas_evict_inode-BlockChanged function_bits 0 small_disk (λ b. true) 4 9 full_tree
      empty_tree-IsValid 0o100644 3 no_inode small_table small_iam refl (omega arith) (omega arith)
      small_iam-IsValid (omega arith) (omega arith) small_table-stored
