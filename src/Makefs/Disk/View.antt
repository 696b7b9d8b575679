-- ===== src/Makefs/Disk/View.antt =====
-- makefs/mkfs.c: the cache of blocks against the image that the program means to write
use mathlib.Core.Path.{subst}
use gas_filesystem.Base.{
  ℕ, ◌^◌, ◌<◌, ◌≡◌, ◌≢◌, refl, sym, ap, ◌∙◌, inl, inr, arith, Option, none, some, List, [], ◌∷◌,
  ◌==◌, Bool, true, false, if◌then◌else◌, Bool-cases, ==→eq, ==→ne, eq→==, ne→==,
}
use gas_filesystem.Makefs.Disk.{
  Buffers, BlkCache, Image, write_block, sync_loop, bc_sync, bc_find, change,
}

module _ (buffers : Buffers) where
  open buffers use {Data}

  abbrev pub Cache : Type 0
  Cache = List (BlkCache buffers)

  abbrev pub find : ℕ → Cache → Option (BlkCache buffers)
  find = bc_find buffers

  -- The image as the program sees it: what the cache holds, and what the disk holds for the rest
  abbrev pub seen : (ℕ → Data) → ℕ → Option (BlkCache buffers) → Data
  seen disk b o = elim o [ none ↦ disk b | some it ↦ it.block ]

  abbrev pub view : Image buffers → ℕ → Data
  view im b = seen im.disk b (find b im.cache)

  abbrev pub IsCached : ℕ → Image buffers → Type 0
  IsCached b im = find b im.cache ≢ none

  -- The block is in the cache and marked dirty.
  abbrev pub IsDirty : ℕ → Image buffers → Type 0
  IsDirty b im = (it : BlkCache buffers) × (find b im.cache ≡ some it) × (it.dirty ≡ true)

  -- No block is in the cache twice, and the offset of each in the image fits an `int`.
  abbrev pub IsDistinct : Cache → Type 0
  IsDistinct [] = Unit {0}
  IsDistinct (it ∷ next) = ((find it.blk_id next ≡ none) × (it.blk_id < 2 ^ 19)) × IsDistinct next

  -- What is not marked dirty is as it is on the disk, but for blocks whose mark is pending.
  pub record IsSteady (pending : ℕ → Bool) (im : Image buffers) : Type 0 where
    pub distinct : IsDistinct im.cache
    pub saved :
        (b : ℕ) (it : BlkCache buffers)
        → pending b ≡ false
        → find b im.cache ≡ some it
        → it.dirty ≡ false
        → it.block ≡ im.disk b

  pub find-change_self :
      (b : ℕ) (f : BlkCache buffers → BlkCache buffers) (c : Cache)
      → ((it : BlkCache buffers) → (f it).blk_id ≡ it.blk_id)
      → find b (change buffers b f c) ≡ (elim (find b c) [ none ↦ none | some it ↦ some (f it) ])
  unfolding bc_find change
  find-change_self b f [] keeps = refl
  find-change_self b f (x ∷ c) keeps = elim (Bool-cases (x.blk_id == b)) [
    | inl e ↦ rw (e, bc_find) (found (ap (λ (n : ℕ). n == b) (keeps x) ∙ e))
    | inr ne ↦ rw (ne, bc_find) (missed ne (find-change_self b f c keeps))
  ]
    where
      found :
          ((f x).blk_id == b) ≡ true
          → (if (f x).blk_id == b then some (f x) else find b c) ≡ some (f x)
      found e = rw e refl

      missed :
          (x.blk_id == b) ≡ false
          → find b (change buffers b f c)
            ≡ (elim (find b c) [ none ↦ none | some it ↦ some (f it) ])
          → (if x.blk_id == b then some x else find b (change buffers b f c))
            ≡ (elim (find b c) [ none ↦ none | some it ↦ some (f it) ])
      missed ne e = rw ne e

  pub find-change_other :
      (b n : ℕ) (f : BlkCache buffers → BlkCache buffers) (c : Cache)
      → ((it : BlkCache buffers) → (f it).blk_id ≡ it.blk_id)
      → n ≢ b
      → find n (change buffers b f c) ≡ find n c
  unfolding bc_find change
  find-change_other b n f [] keeps ne = refl
  find-change_other b n f (x ∷ c) keeps ne =
      ground (arith, keeps x, find-change_other b n f c keeps ne)

  pub IsDistinct-change :
      (b : ℕ) (f : BlkCache buffers → BlkCache buffers) (c : Cache)
      → ((it : BlkCache buffers) → (f it).blk_id ≡ it.blk_id)
      → IsDistinct c
      → IsDistinct (change buffers b f c)
  unfolding change
  IsDistinct-change b f [] keeps distinct = tt
  IsDistinct-change b f (x ∷ c) keeps distinct = elim (Bool-cases (x.blk_id == b)) [
    | inl e ↦ rw e (rw (keeps x) (distinct.0), distinct.1)
    | inr ne ↦ rw ne (
      (find-change_other b x.blk_id f c keeps (==→ne x.blk_id b ne) ∙ distinct.0.0, distinct.0.1),
      IsDistinct-change b f c keeps distinct.1,
    )
  ]

  -- What the loop of `bc_sync` leaves on the disk
  sync_loop-disk :
      (c : Cache) (im : Image buffers)
      → IsDistinct c
      → (b : ℕ)
      → (sync_loop buffers c im).disk b ≡ (elim (find b c) [
        | none ↦ im.disk b
        | some it ↦ if it.dirty then it.block else im.disk b
      ])
  unfolding sync_loop bc_find write_block
  sync_loop-disk [] im distinct b = refl
  sync_loop-disk (x ∷ c) im distinct b = elim (Bool-cases (x.blk_id == b)) [
    | inl e ↦ rw (e, bc_find) (sync_loop-disk c _ distinct.1 b ∙ at_block (==→eq x.blk_id b e))
    | inr ne ↦
        rw (ne, bc_find) (sync_loop-disk c _ distinct.1 b ∙ apart (find b c) (==→ne x.blk_id b ne))
  ]
    where
      written : Image buffers
      written = if x.dirty then write_block buffers x.blk_id x.block im else im

      gone : x.blk_id ≡ b → find b c ≡ none
      gone e = subst (λ (k : ℕ). find k c ≡ none) e distinct.0.0

      at_place : buffers.place x.blk_id ≡ x.blk_id
      at_place = buffers.place_lem x.blk_id distinct.0.1

      at_block :
          x.blk_id ≡ b
          → (elim (find b c) [
            | none ↦ written.disk b
            | some it ↦ if it.dirty then it.block else written.disk b
          ])
            ≡ (if x.dirty then x.block else im.disk b)
      at_block e = rw (gone e) (elim (Bool-cases x.dirty) [
        | inl dirty ↦ rw dirty (ground (arith, at_place, eq→== x.blk_id x.blk_id refl))
        | inr clean ↦ rw clean refl
      ])

      disk_apart : x.blk_id ≢ b → written.disk b ≡ im.disk b
      disk_apart ne = elim (Bool-cases x.dirty) [
        | inl dirty ↦ rw dirty (ground (arith, at_place, ne→== b x.blk_id (λ e. ne (sym e))))
        | inr clean ↦ rw clean refl
      ]

      apart :
          (o : Option (BlkCache buffers))
          → x.blk_id ≢ b
          → (elim o [
            | none ↦ written.disk b
            | some it ↦ if it.dirty then it.block else written.disk b
          ])
            ≡ (elim o [ none ↦ im.disk b | some it ↦ if it.dirty then it.block else im.disk b ])
      apart none ne = disk_apart ne
      apart (some it) ne = rw (disk_apart ne) refl

  pub bc_sync-view :
      (im : Image buffers)
      → IsSteady (λ _. false) im
      → (b : ℕ) → (bc_sync buffers im).disk b ≡ view im b
  unfolding bc_sync
  bc_sync-view im steady b =
      sync_loop-disk im.cache im steady.distinct b ∙ clean_or_dirty (find b im.cache) refl
    where
      clean_or_dirty :
          (o : Option (BlkCache buffers))
          → find b im.cache ≡ o
          → (elim o [ none ↦ im.disk b | some it ↦ if it.dirty then it.block else im.disk b ])
            ≡ seen im.disk b o
      clean_or_dirty none found = refl
      clean_or_dirty (some it) found = elim (Bool-cases it.dirty) [
        | inl dirty ↦ rw dirty refl
        | inr clean ↦ rw clean (sym (steady.saved b it refl found clean))
      ]
