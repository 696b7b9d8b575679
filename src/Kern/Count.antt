-- ===== src/Kern/Count.antt =====
-- kern/bitmap.c and kern/gas_super.c: the counts of free blocks and inodes, and `gas_statfs`.
-- `hweight16`, the number of bits that are set in a word, is a parameter.
pub mod Free
use gas_filesystem.Base.{
  ℕ, zero, suc, ◌+◌, ◌-◌, ◌*◌, ◌/◌, ◌%◌, ◌^◌, ◌≡◌, List, [], ◌∷◌, Bool, if◌then◌else◌,
}
use gas_filesystem.Kern.Types.{GasSbInfo, u32, gas_max_name_len}
use gas_filesystem.Kern.BitOps.{BitOps}
use gas_filesystem.Kern.Bitmap.{BufferHead, Bitmap}

-- How many of the `n` bits from `start` on are clear
unfoldable pub clear_bits : (ℕ → Bool) → (start n : ℕ) → ℕ
clear_bits bit start zero = 0
clear_bits bit start (suc n) = (if bit start then 0 else 1) + clear_bits bit (start + 1) n

module _ (ops : BitOps) where
  open ops use {Data, test_bit}

  -- The weight of the 16-bit words of a buffer: of the sixteen bits, those that are set
  pub record Weight : Type 0 where
    pub hweight16 : Data → ℕ → ℕ
    pub clear-hweight16 :
        (d : Data) (word : ℕ) → hweight16 d word + clear_bits (test_bit d) (16 * word) 16 ≡ 16

  module _ (weight : Weight) where
    open weight use {hweight16}

    -- The inner loop of `count_free`, in which `p` points to word `word`
    unfoldable pub count_words : (words word sum : ℕ) → Data → ℕ
    count_words zero word sum d = sum
    count_words (suc words) word sum d =
        count_words words (word + 1) (u32 (sum + (16 - hweight16 d word))) d

    -- The outer loop; a buffer that is missing ends it.
    unfoldable pub count_blocks : (blocksize blocks sum : ℕ) → List (BufferHead ops) → ℕ
    count_blocks blocksize zero sum map = sum
    count_blocks blocksize (suc blocks) sum [] = sum
    count_blocks blocksize (suc blocks) sum (b ∷ map) =
        count_blocks blocksize blocks (count_words (blocksize / 2) 0 sum b.b_data) map

    unfoldable pub count_free : List (BufferHead ops) → (blocksize numbits : ℕ) → ℕ
    count_free map blocksize numbits =
        count_blocks blocksize (u32 (numbits + blocksize * 8 - 1) / (blocksize * 8)) 0 map

    -- The arithmetic of `u32`
    unfoldable pub gas_count_free_blocks : GasSbInfo → (blocksize : ℕ) → Bitmap ops → ℕ
    gas_count_free_blocks sbi blocksize map =
        count_free map.bh blocksize (u32 (sbi.s_nblocks + 2 ^ 32 - sbi.s_data_block_start + 1))

    unfoldable pub gas_count_free_inodes : GasSbInfo → (blocksize : ℕ) → Bitmap ops → ℕ
    gas_count_free_inodes sbi blocksize map = count_free map.bh blocksize (u32 (sbi.s_ninodes + 1))

    -- `struct kstatfs`, less the file system id, which only encodes the device number
    pub record Kstatfs : Type 0 where
      pub f_type : ℕ
      pub f_bsize : ℕ
      pub f_blocks : ℕ
      pub f_bfree : ℕ
      pub f_bavail : ℕ
      pub f_files : ℕ
      pub f_ffree : ℕ
      pub f_namelen : ℕ

    unfoldable pub gas_statfs : GasSbInfo → (blocksize : ℕ) → (bam iam : Bitmap ops) → Kstatfs
    gas_statfs sbi blocksize bam iam = record {
      f_type = sbi.s_magic;
      f_bsize = blocksize;
      f_blocks = u32 (sbi.s_nblocks + 2 ^ 32 - sbi.s_data_block_start);
      f_bfree = gas_count_free_blocks sbi blocksize bam;
      f_bavail = gas_count_free_blocks sbi blocksize bam;
      f_files = sbi.s_ninodes;
      f_ffree = gas_count_free_inodes sbi blocksize iam;
      f_namelen = gas_max_name_len;
    }
