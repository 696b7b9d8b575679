-- ===== src/Makefs/Tests/Cells.antt =====
-- Blocks of 4096 bytes in which the words, the inodes, the entries and the super block are kept apart
use native.Mathlib.Nat.{mod-eq_of_lt}
use mathlib.Core.Path.{ap₂}
use gas_filesystem.Base.{
  ℕ, zero, suc, ◌-◌, ◌*◌, ◌%◌, ◌^◌, ◌<◌, ◌≡◌, refl, ap, ◌∙◌, arith, some, List, [], ◌∷◌, length,
  get_elem?, true, false, Bool-cases, inl, inr, ltb,
}
use gas_filesystem.Base.Bits.{test_bit-zero, same_bit}
use gas_filesystem.Kern.Types.{GasSuperBlock, GasInode}
use gas_filesystem.Kern.Dir.{DirEntry}
use gas_filesystem.Makefs.Bitmap.{all_ones}
use gas_filesystem.Makefs.Bitmap.Masks.{test_bit-all_ones}
use gas_filesystem.Makefs.Bitmap.Search.{bit_of, AllWords}
use gas_filesystem.Makefs.Disk.{zero_inode, Buffers}

-- The first `n` elements, with `pad` behind the end
pub fit : {A : Type 0} → ℕ → A → List A → List A
fit zero pad xs = []
fit (suc n) pad [] = pad ∷ fit n pad []
fit (suc n) pad (x ∷ xs) = x ∷ fit n pad xs

pub length-fit : {A : Type 0} (n : ℕ) (pad : A) (xs : List A) → length (fit n pad xs) ≡ n
unfolding fit
length-fit zero pad xs = refl
length-fit (suc n) pad [] = ap suc (length-fit n pad [])
length-fit (suc n) pad (x ∷ xs) = ap suc (length-fit n pad xs)

pub fit_whole : {A : Type 0} (n : ℕ) (pad : A) (xs : List A) → length xs ≡ n → fit n pad xs ≡ xs
unfolding fit
fit_whole zero pad [] e = refl
fit_whole zero pad (x ∷ xs) e = absurd (omega arith)
fit_whole (suc n) pad [] e = absurd (omega arith)
fit_whole (suc n) pad (x ∷ xs) e = ap (λ xs. x ∷ xs) (fit_whole n pad xs (omega arith))

pub get_elem?-fit :
    {A : Type 0} (n : ℕ) (pad : A) (i : ℕ) → i < n → get_elem? (fit n pad []) i ≡ some pad
unfolding fit
get_elem?-fit zero pad i lt = absurd (omega arith)
get_elem?-fit (suc n) pad zero lt = refl
get_elem?-fit (suc n) pad (suc i) lt = get_elem?-fit n pad i (omega arith)

-- Words are kept modulo 2 ^ 64.
pub as_words : List ℕ → List ℕ
as_words [] = []
as_words (w ∷ ws) = w % 2 ^ 64 ∷ as_words ws

pub length-as_words : (ws : List ℕ) → length (as_words ws) ≡ length ws
unfolding as_words
length-as_words [] = refl
length-as_words (w ∷ ws) = ap suc (length-as_words ws)

pub as_words-AllWords : (ws : List ℕ) → AllWords (as_words ws)
unfolding as_words
as_words-AllWords [] = tt
as_words-AllWords (w ∷ ws) = (omega arith, as_words-AllWords ws)

pub as_words_whole : (ws : List ℕ) → AllWords ws → as_words ws ≡ ws
unfolding as_words
as_words_whole [] all = refl
as_words_whole (w ∷ ws) all = ap₂ ◌∷◌ (mod-eq_of_lt all.0) (as_words_whole ws all.1)

pub bit_of-zeros : (n i : ℕ) → bit_of (as_words (fit n 0 [])) i ≡ false
unfolding fit as_words
bit_of-zeros zero i = refl
bit_of-zeros (suc n) i = elim (Bool-cases (ltb i 64)) [
  | inl low ↦ rw low (test_bit-zero i)
  | inr high ↦ rw high (bit_of-zeros n (i - 64))
]

pub bit_of-ones : (n i : ℕ) → i < 64 * n → bit_of (as_words (fit n all_ones [])) i ≡ true
unfolding fit as_words
bit_of-ones zero i lt = absurd (omega arith)
bit_of-ones (suc n) i lt = elim (Bool-cases (ltb i 64)) [
  | inl low ↦ rw low (
      same_bit _ all_ones i (mod-eq_of_lt {m = 2 ^ 64} (omega arith))
      ∙ (test_bit-all_ones i ∙ ground arith))
  | inr high ↦ rw high (bit_of-ones n (i - 64) (ground arith))
]

pub record Cell : Type 0 where
  pub pad : ℕ
  pub map_words : List ℕ
  pub list : List GasInode
  pub dentries : List DirEntry
  pub sb : GasSuperBlock

pub no_entry : DirEntry
no_entry = record { de_name = []; de_inode = 0 }

pub no_super : GasSuperBlock
no_super = record {
  s_magic = 0;
  s_blocksize = 0;
  s_bam_blocks = 0;
  s_iam_blocks = 0;
  s_inode_blocks = 0;
  s_nblocks = 0;
  s_ninodes = 0;
}

abbrev pub blank : ℕ → Cell
blank pad = record { pad = pad; map_words = []; list = []; dentries = []; sb = no_super }

abbrev pub cells : Buffers
cells = record {
  Data = Cell;
  zeros = blank 0;
  ones = blank all_ones;
  words = λ d. as_words (fit 512 d.pad d.map_words);
  put_words = λ d ws. record d { map_words = ws };
  inodes = λ d. fit 64 zero_inode d.list;
  put_inodes = λ d l. record d { list = l };
  entries = λ d. fit 15 no_entry d.dentries;
  put_entries = λ d l. record d { dentries = l };
  super_block = λ d. d.sb;
  put_super_block = λ d sb. record d { sb = sb };
  place = λ b. b % 2 ^ 20;
  words_length = λ d.
      omega (arith, length-as_words (fit 512 d.pad d.map_words), length-fit 512 d.pad d.map_words);
  words_fit = λ d. as_words-AllWords (fit 512 d.pad d.map_words);
  words-put_words =
      λ d ws len all. ap as_words (fit_whole 512 d.pad ws (omega arith)) ∙ as_words_whole ws all;
  words-zeros = bit_of-zeros 512;
  words-ones = λ i lt. bit_of-ones 512 i (omega arith);
  inodes_length = λ d. length-fit 64 zero_inode d.list;
  inodes-put_inodes = λ d l len. fit_whole 64 zero_inode l len;
  inodes-zeros = get_elem?-fit 64 zero_inode;
  entries_length = λ d. length-fit 15 no_entry d.dentries;
  entries-put_entries = λ d l len. fit_whole 15 no_entry l len;
  super-put_super = λ d sb. refl;
  place_lem = λ b near. omega arith;
}
