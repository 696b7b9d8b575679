-- ===== src/Kern/Itree/Blocks.antt =====
-- `gas_blocks` against a direct count of the blocks in the tree of a file.
use gas_filesystem.Base.{ℕ, ◌+◌, ◌-◌, ◌*◌, ◌/◌, ◌≤◌, ◌≡◌, arith, ltb, if◌then◌else◌}
use gas_filesystem.Kern.Itree.{gas_blocks}

-- The blocks of 1024 entries that `n` entries fill
abbrev groups : ℕ → ℕ
groups n = (n + 1023) / 1024

-- The indirect blocks of a file of `n` data blocks of 4096 bytes: one single indirect block, the double
-- indirect one with the blocks below it, the triple indirect one with the two levels below it
unfoldable pub indirect_blocks : ℕ → ℕ
indirect_blocks n =
    let single = if ltb 6 n then 1 else 0 in
    let double = if ltb (6 + 1024) n then 1 + groups (n - (6 + 1024)) else 0 in
    let m = n - (6 + 1024 + 1024 * 1024) in
    let triple_leaves = groups m in
    if ltb (6 + 1024 + 1024 * 1024) n
    then single + (1 + 1024) + (1 + groups triple_leaves + triple_leaves)
    else single + double

-- For blocks of 4096 bytes and a file that triple indirect blocks reach, `gas_blocks` is the number
-- of its data blocks and of the indirect blocks that they need.
pub gas_blocks-indirect_blocks :
    (size : ℕ)
    → let n = (size + 4095) / 4096 in
      n ≤ 6 + 1024 + 1024 * 1024 + 1024 * 1024 * 1024 → gas_blocks 12 size ≡ n + indirect_blocks n
unfolding gas_blocks indirect_blocks
gas_blocks-indirect_blocks size small = ground arith
