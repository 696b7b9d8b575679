-- ===== src/Makefs/Disk.antt =====
-- makefs/mkfs.c: blocks of the image, and the cache of blocks (the `bc_` functions). The image is a
-- function from places, counted in blocks, to contents; reads and writes of it do not fail. Where the
-- image stands after a seek to `blk_id * GAS_BLOCK_SIZE` is a parameter: the product is an `int`, and only
-- of a block below 2 ^ 19, where it fits, it is known to be the place of the block. A pointer into a cached
-- block is the number of the block; it dangles once the block is not in the cache.
pub mod View
pub mod Read
pub mod Edit
pub mod Holds
pub mod Refine
use gas_filesystem.Base.{
  ℕ, ◌*◌, ◌^◌, ◌<◌, ◌≡◌, not, Option, none, some, List, [], ◌∷◌, ◌==◌, Bool, true, false,
  if◌then◌else◌, length, get_elem?,
}
use gas_filesystem.Kern.Types.{GasSuperBlock, GasInode, bits_per_block}
use gas_filesystem.Kern.Dir.{DirEntry}
use gas_filesystem.Makefs.Bitmap.Search.{bit_of, AllWords}
use gas_filesystem.Makefs.Layout.{inodes_per_block}

-- The inode of which every byte is 0
unfoldable pub zero_inode : GasInode
zero_inode = record {
  i_mode = 0;
  i_nlink = 0;
  i_uid = 0;
  i_gid = 0;
  i_size = 0;
  i_atime = 0;
  i_mtime = 0;
  i_ctime = 0;
  i_blkaddr = 0 ∷ 0 ∷ 0 ∷ 0 ∷ 0 ∷ 0 ∷ 0 ∷ 0 ∷ 0 ∷ [];
}

-- How the machine lays out a block of 4096 bytes: as words of 64 bits, as inodes, as entries of a
-- directory or as a super block. A cast of the pointer reads or writes one of the views. `place` is what
-- the machine makes of the offset of a block in the image.
pub record Buffers : Type 1 where
  pub Data : Type 0
  pub zeros : Data
  pub ones : Data
  pub words : Data → List ℕ
  pub put_words : Data → List ℕ → Data
  pub inodes : Data → List GasInode
  pub put_inodes : Data → List GasInode → Data
  pub entries : Data → List DirEntry
  pub put_entries : Data → List DirEntry → Data
  pub super_block : Data → GasSuperBlock
  pub put_super_block : Data → GasSuperBlock → Data
  pub place : ℕ → ℕ
  pub words_length : (d : Data) → 64 * length (words d) ≡ bits_per_block
  pub words_fit : (d : Data) → AllWords (words d)
  pub words-put_words :
      (d : Data) (ws : List ℕ)
      → 64 * length ws ≡ bits_per_block
      → AllWords ws
      → words (put_words d ws) ≡ ws
  pub words-zeros : (i : ℕ) → bit_of (words zeros) i ≡ false
  pub words-ones : (i : ℕ) → i < bits_per_block → bit_of (words ones) i ≡ true
  pub inodes_length : (d : Data) → length (inodes d) ≡ inodes_per_block
  pub inodes-put_inodes :
      (d : Data) (l : List GasInode) → length l ≡ inodes_per_block → inodes (put_inodes d l) ≡ l
  pub inodes-zeros : (i : ℕ) → i < inodes_per_block → get_elem? (inodes zeros) i ≡ some zero_inode
  pub entries_length : (d : Data) → length (entries d) ≡ 15
  pub entries-put_entries :
      (d : Data) (l : List DirEntry) → length l ≡ 15 → entries (put_entries d l) ≡ l
  pub super-put_super : (d : Data) (sb : GasSuperBlock) → super_block (put_super_block d sb) ≡ sb
  pub place_lem : (b : ℕ) → b < 2 ^ 19 → place b ≡ b

module _ (buffers : Buffers) where
  open buffers use {Data, place}

  -- `struct blk_cache`, less the link
  pub record BlkCache : Type 0 where
    pub dirty : Bool
    pub blk_id : ℕ
    pub block : Data

  -- The image and the cache, `bc_head` first
  pub record Image : Type 0 where
    pub disk : ℕ → Data
    pub cache : List BlkCache

  unfoldable pub read_block : ℕ → Image → Data
  read_block blk_id im = im.disk (place blk_id)

  unfoldable pub write_block : ℕ → Data → Image → Image
  write_block blk_id block im = record im {
    disk = λ b. if b == place blk_id then block else im.disk b;
  }

  unfoldable pub bc_insert : BlkCache → Image → Image
  bc_insert new im = record im { cache = new ∷ im.cache }

  -- The loop of `bc_sync`
  unfoldable pub sync_loop : List BlkCache → Image → Image
  unfolding write_block
  sync_loop [] im = im
  sync_loop (it ∷ next) im =
      sync_loop next (if it.dirty then write_block it.blk_id it.block im else im)

  unfoldable pub bc_sync : Image → Image
  unfolding sync_loop
  bc_sync im = record (sync_loop im.cache im) { cache = [] }

  unfoldable pub bc_find : ℕ → List BlkCache → Option BlkCache
  bc_find blk_id [] = none
  bc_find blk_id (it ∷ next) =
      let rest = bc_find blk_id next in if it.blk_id == blk_id then some it else rest

  -- `bc_read`: what the pointer points to, and the image
  unfoldable pub bc_read : ℕ → Image → Data × Image
  unfolding bc_find read_block bc_insert
  bc_read blk_id im = elim (bc_find blk_id im.cache) [
    | some it ↦ (it.block, im)
    | none ↦
        let it : BlkCache = record {
          dirty = false;
          blk_id = blk_id;
          block = read_block blk_id im;
        } in
        (it.block, bc_insert it im)
  ]

  -- A change of the block that `bc_find` finds
  unfoldable pub change : ℕ → (BlkCache → BlkCache) → List BlkCache → List BlkCache
  change blk_id f [] = []
  change blk_id f (it ∷ next) =
      let rest = change blk_id f next in if it.blk_id == blk_id then f it ∷ next else it ∷ rest

  -- A store through a pointer into a cached block
  unfoldable pub poke : ℕ → (Data → Data) → Image → Image
  unfolding change
  poke blk_id f im = record im {
    cache = change blk_id (λ it. record it { block = f it.block }) im.cache;
  }

  unfoldable pub bc_write : ℕ → (sync : Bool) → Image → Image
  unfolding bc_find write_block change
  bc_write blk_id sync im = elim (bc_find blk_id im.cache) [
    | none ↦ im
    | some p ↦
        let written = if sync then write_block p.blk_id p.block im else im in
        record written { cache = change blk_id (λ it. record it { dirty = not sync }) im.cache }
  ]
