-- ===== src/Makefs/Disk/Refine.antt =====
-- makefs/mkfs.c: programs over the cache of blocks against programs over the disk
use gas_filesystem.Base.{ℕ, ◌^◌, ◌<◌, ◌≡◌, refl, List, [], ◌∷◌, Bool}
use gas_filesystem.Makefs.Disk.{Buffers, Image, bc_sync, bc_read}
use gas_filesystem.Makefs.Disk.Holds.{
  Holds, put, add, nothing, edit, edit-Holds, read-Holds, sync-Holds, empty-Holds,
}

module _ (buffers : Buffers) where
  open buffers use {Data}

  -- What the program does with blocks: it reads one, or reads, changes and writes one.
  pub data Step : Type 0 where
    look : (blk_id : ℕ) → Step
    store : (blk_id : ℕ) → (Data → Data) → Step

  -- The steps are on blocks whose offset in the image fits an `int`.
  abbrev pub AreNear : List Step → Type 0
  AreNear [] = Unit {0}
  AreNear (look b ∷ steps) = (b < 2 ^ 19) × AreNear steps
  AreNear (store b f ∷ steps) = (b < 2 ^ 19) × AreNear steps

  -- The steps through the cache
  abbrev pub cached_run : List Step → Image buffers → Image buffers
  cached_run [] im = im
  cached_run (look b ∷ steps) im = cached_run steps ((bc_read buffers b im).1)
  cached_run (store b f ∷ steps) im = cached_run steps (edit buffers b f im)

  -- The steps on a disk without a cache
  abbrev pub plain_run : List Step → (ℕ → Data) → ℕ → Data
  plain_run [] disk = disk
  plain_run (look b ∷ steps) disk = plain_run steps disk
  plain_run (store b f ∷ steps) disk = plain_run steps (put b (f (disk b)) disk)

  cached_run-Holds :
      (steps : List Step) (cached dirty : ℕ → Bool) (v : ℕ → Data) (im : Image buffers)
      → AreNear steps
      → Holds buffers (nothing buffers) cached dirty v im
      → (b : ℕ) → (bc_sync buffers (cached_run steps im)).disk b ≡ plain_run steps v b
  cached_run-Holds [] cached dirty v im near holds =
      sync-Holds buffers _ cached dirty v im holds (λ x. refl)
  cached_run-Holds (look n ∷ steps) cached dirty v im near holds =
      cached_run-Holds steps (add buffers n cached) dirty v _ near.1
        (read-Holds buffers _ cached dirty v im holds n near.0).1
  cached_run-Holds (store n f ∷ steps) cached dirty v im near holds =
      cached_run-Holds steps (add buffers n cached) (add buffers n dirty) _ _ near.1
        (edit-Holds buffers cached dirty v im holds n f near.0)

  -- For any sequence of reads of blocks with `bc_read`, and of changes of blocks, each read with
  -- `bc_read`, stored to and handed to `bc_write`, all on blocks below 2 ^ 19 and from an empty
  -- cache on, the disk after `bc_sync` holds in every block what the same changes make of it on a
  -- disk without a cache.
  pub cached_run-plain :
      (steps : List Step) (im : Image buffers)
      → AreNear steps
      → im.cache ≡ []
      → (b : ℕ) → (bc_sync buffers (cached_run steps im)).disk b ≡ plain_run steps im.disk b
  cached_run-plain steps im near empty =
      cached_run-Holds steps _ _ im.disk im near (empty-Holds buffers im empty)
