-- ===== src/Kern/Itree.antt =====
-- kern/gas_itree.c and kern/gas_itree.h: how the blocks of a file hang below its inode. A path is the
-- list of offsets that `block_to_path` fills in; its length is what the function returns, so [] is 0.
pub mod Path
pub mod Blocks
use gas_filesystem.Base.{
  ℕ, zero, suc, ◌+◌, ◌-◌, ◌*◌, ◌/◌, ◌%◌, ◌^◌, List, [], ◌∷◌, ltb, leb, if◌then◌else◌,
}

-- `DIRCOUNT`, the number of direct addresses, also the enumerator `DIRECT`, and the enumerator `DEPTH`
abbrev pub dircount : ℕ
dircount = 6

abbrev pub depth : ℕ
depth = 4

-- `INDIRCOUNT(sb)`
abbrev pub indircount : ℕ → ℕ
indircount blocksize_bits = 2 ^ (blocksize_bits - 2)

-- `block_to_path` for `block` as a 64-bit pattern, of which the upper half are the negative values, and
-- `ptrs` the `INDIRCOUNT`
unfoldable pub block_to_path : (ptrs nblocks block : ℕ) → List ℕ
block_to_path ptrs nblocks block =
    let b1 = block - dircount in
    let b2 = b1 - ptrs in
    let b3 = b2 - ptrs * ptrs in
    if leb (2 ^ 63) block
    then []
    else if leb nblocks block
    then []
    else if ltb block dircount
    then block ∷ []
    else if ltb b1 ptrs
    then dircount ∷ b1 ∷ []
    else if ltb b2 (ptrs * ptrs)
    then (dircount + 1) ∷ (b2 / ptrs) ∷ (b2 % ptrs) ∷ []
    else (dircount + 2) ∷ (b3 / ptrs / ptrs) ∷ (b3 / ptrs % ptrs) ∷ (b3 % ptrs) ∷ []

-- The `while` loop of `gas_blocks`; the number is `i` after `--i`.
unfoldable pub blocks_loop : (rounds ptrs blocks res direct : ℕ) → ℕ
blocks_loop zero ptrs blocks res direct = res
blocks_loop (suc i) ptrs blocks res direct =
    let blocks' = (blocks - direct + ptrs - 1) / ptrs in
    let rest = blocks_loop i ptrs blocks' (res + blocks') 1 in
    if ltb direct blocks then rest else res

-- `gas_blocks`, the number of blocks that a file of `size` bytes takes up, the indirect ones included.
-- `BLOCK_SIZE_BITS + k` is `blocksize_bits`, and `sizeof(block_t)` is 4.
unfoldable pub gas_blocks : (blocksize_bits size : ℕ) → ℕ
unfolding blocks_loop
gas_blocks blocksize_bits size =
    let blocks = (size + 2 ^ blocksize_bits - 1) / 2 ^ blocksize_bits in
    blocks_loop (depth - 1) (2 ^ blocksize_bits / 4) blocks blocks dircount
