-- ===== src/Kern/Bitmap.antt =====
-- kern/bitmap.c: the bitmaps of blocks and inodes. A bitmap is the list of its buffers, each with its
-- dirty mark. `test_and_clear_bit` is used for its effect alone; its result only chooses a debug
-- message. The spin lock makes each search with its update one step.
pub mod Alloc
pub mod Blocks
use Prim.Native.Nat.{bit_and}
use gas_filesystem.Base.{
  ℕ, zero, suc, ◌+◌, ◌-◌, ◌*◌, ◌/◌, ◌%◌, ◌^◌, Option, none, some, List, [], ◌∷◌, ◌==◌, ◌||◌, ltb,
  leb, Bool, true, false, if◌then◌else◌, get_elem?, set,
}
use gas_filesystem.Kern.Types.{GasSbInfo, Errno, enospc, u32}
use gas_filesystem.Kern.BitOps.{BitOps}

module _ (ops : BitOps) where
  open ops use {Data, find_first_zero_bit, set_bit, clear_bit}

  -- `struct buffer_head`
  pub record BufferHead : Type 0 where
    pub b_data : Data
    pub b_dirty : Bool

  -- One of the two bitmaps of `struct gas_sb_info`: the buffers and the hint
  pub record Bitmap : Type 0 where
    pub bh : List BufferHead
    pub last : ℕ

  -- A round of the `do` loop that finds a clear bit: the number of the bit, and the bitmap
  unfoldable pub claim : (bits : ℕ) → Bitmap → ℕ → BufferHead → ℕ → ℕ × Bitmap
  claim bits map i b bit = (
    bit + u32 (i * bits),
    record {
      bh = set map.bh i (record { b_data = set_bit bit b.b_data; b_dirty = true });
      last = i;
    },
  )

  -- The `do` loop of `gas_new_block` and of `gas_new_inode`, from buffer `i` on, for `blocks` buffers of
  -- `bits` bits; `none` once the loop is back at the hint. A buffer outside the array ends the search.
  unfoldable pub search : (fuel bits blocks : ℕ) → Bitmap → ℕ → Option (ℕ × Bitmap)
  search zero bits blocks map i = none
  search (suc fuel) bits blocks map i =
      let next = (i + 1) % blocks in
      let rest = search fuel bits blocks map next in
      elim (get_elem? map.bh i) [
        | none ↦ none
        | some b ↦
            let bit = find_first_zero_bit b.b_data bits in
            if ltb bit bits
            then some (claim bits map i b bit)
            else if next == map.last
            then none
            else rest
      ]

  -- `gas_new_block`: the error or the block, and the bitmap of blocks
  unfoldable pub gas_new_block : GasSbInfo → Bitmap → Option Errno × ℕ × Bitmap
  gas_new_block sbi map =
      elim (search sbi.s_bam_blocks sbi.s_bits_per_block sbi.s_bam_blocks map map.last) [
        | none ↦ (some enospc, 0, map)
        | some (block, map') ↦ (none, block, map')
      ]

  -- Clears bit `bit` of buffer `idx`, and marks the buffer dirty.
  unfoldable pub release : Bitmap → ℕ → ℕ → Bitmap
  release map idx bit = elim (get_elem? map.bh idx) [
    | none ↦ map
    | some b ↦ record map {
      bh = set map.bh idx (record { b_data = clear_bit bit b.b_data; b_dirty = true });
    }
  ]

  -- `gas_free_block`, for `blocksize_bits` the `s_blocksize_bits` of the super block
  unfoldable pub gas_free_block : (blocksize_bits : ℕ) → GasSbInfo → Bitmap → ℕ → Bitmap
  gas_free_block blocksize_bits sbi map block =
      let k = blocksize_bits + 3 in
      let idx = block / 2 ^ k in
      if ltb block sbi.s_data_block_start || leb sbi.s_nblocks block
      then map
      else if leb sbi.s_bam_blocks idx
      then map
      else release map idx (bit_and block (2 ^ k - 1))
