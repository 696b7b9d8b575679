-- ===== src/Kern/Itree/Path.antt =====
-- `block_to_path` of kern/gas_itree.c: the way back from a path, and the range of its offsets
use native.Mathlib.Nat.{div-add-mod, mod-lt, div-lt_iff_lt-mul}
use gas_filesystem.Base.{
  ℕ, ◌+◌, ◌-◌, ◌*◌, ◌/◌, ◌^◌, ◌≤◌, ◌<◌, ◌≡◌, Option, none, some, List, [], ◌∷◌, arith, ap,
}
use gas_filesystem.Kern.Itree.{block_to_path, dircount}

-- The block that a path leads to, by counting the blocks before it
unfoldable pub path_to_block : (ptrs : ℕ) → List ℕ → Option ℕ
path_to_block ptrs [] = none
path_to_block ptrs (a ∷ []) = some a
path_to_block ptrs (a ∷ b ∷ []) = some (dircount + b)
path_to_block ptrs (a ∷ b ∷ c ∷ []) = some (dircount + ptrs + (b * ptrs + c))
path_to_block ptrs (a ∷ b ∷ c ∷ d ∷ []) =
    some (dircount + ptrs + ptrs * ptrs + ((b * ptrs + c) * ptrs + d))
path_to_block ptrs (a ∷ b ∷ c ∷ d ∷ e ∷ r) = none

-- The offsets of a path of an inode: the first in the inode, by the kind of path, and the others in
-- blocks of `ptrs` addresses
abbrev pub InRange : ℕ → List ℕ → Type 0
InRange ptrs [] = Unit
InRange ptrs (a ∷ []) = a < dircount
InRange ptrs (a ∷ b ∷ []) = (a ≡ dircount) × (b < ptrs)
InRange ptrs (a ∷ b ∷ c ∷ []) = (a ≡ dircount + 1) × (b < ptrs) × (c < ptrs)
InRange ptrs (a ∷ b ∷ c ∷ d ∷ r) = (a ≡ dircount + 2) × (b < ptrs) × (c < ptrs) × (d < ptrs)

-- For a block below the number of blocks of the file system, which is at most 2 ^ 63, following the
-- path that `block_to_path` gives leads back to the block.
pub path_to_block-block_to_path :
    (ptrs nblocks block : ℕ)
    → block < nblocks
    → nblocks ≤ 2 ^ 63
    → path_to_block ptrs (block_to_path ptrs nblocks block) ≡ some block
unfolding path_to_block block_to_path
path_to_block-block_to_path ptrs nblocks block inside small = ground (
  arith,
  div-add-mod b2 ptrs,
  div-add-mod b3 ptrs,
  div-add-mod (b3 / ptrs) ptrs,
  ap (λ (t : ℕ). ptrs * t) (div-add-mod (b3 / ptrs) ptrs),
)
  where
    b2 : ℕ
    b2 = block - dircount - ptrs

    b3 : ℕ
    b3 = b2 - ptrs * ptrs

-- If an indirect block holds at least one address and the block is below what direct and triple
-- indirect blocks together reach, every offset on its path lies inside the array or the block that
-- it indexes, and the first selects the level of the path.
pub block_to_path-InRange :
    (ptrs nblocks block : ℕ)
    → 0 < ptrs
    → block < dircount + ptrs + ptrs * ptrs + ptrs * ptrs * ptrs
    → InRange ptrs (block_to_path ptrs nblocks block)
unfolding block_to_path
block_to_path-InRange ptrs nblocks block pos small = ground (
  arith,
  (div-lt_iff_lt-mul {x = b2} {y = ptrs} pos).1,
  (div-lt_iff_lt-mul {x = b3 / ptrs} {y = ptrs} pos).1,
  (div-lt_iff_lt-mul {x = b3} {y = ptrs * ptrs} pos).1,
  mod-lt b2 pos,
  mod-lt b3 pos,
  mod-lt (b3 / ptrs) pos,
)
  where
    b2 : ℕ
    b2 = block - dircount - ptrs

    b3 : ℕ
    b3 = b2 - ptrs * ptrs
