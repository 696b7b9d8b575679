-- ===== src/Makefs/Disk/Edit.antt =====
-- makefs/mkfs.c: a store into a block of the cache, and `bc_write`
use mathlib.Core.Path.{subst}
use gas_filesystem.Base.{
  ℕ, ◌≡◌, ◌≢◌, refl, sym, ap, ◌∙◌, inl, inr, arith, Option, none, some, ◌==◌, ◌&&◌, ◌||◌, not, Bool,
  true, false, Bool-cases, Option-cases, ==→eq, ==→ne,
}
use gas_filesystem.Makefs.Disk.{Buffers, BlkCache, Image, change, poke, bc_write}
use gas_filesystem.Makefs.Disk.View.{
  Cache, view, find, IsSteady, IsCached, seen, find-change_self, find-change_other,
  IsDistinct-change,
}

module _ (buffers : Buffers) where
  open buffers use {Data}

  abbrev pub with_block : (Data → Data) → BlkCache buffers → BlkCache buffers
  with_block f it = record it { block = f it.block }

  abbrev pub is_dirty : Option (BlkCache buffers) → Bool
  is_dirty o = elim o [ none ↦ false | some it ↦ it.dirty ]

  abbrev pub with_dirty : Bool → BlkCache buffers → BlkCache buffers
  with_dirty v it = record it { dirty = v }

  -- A store through a pointer, or the mark of a block: what the program sees of the block is `block`,
  -- and of the others what it saw before.
  pub record IsEdit (pending : ℕ → Bool) (im : Image buffers) (b : ℕ) (block : Data)
      (im' : Image buffers) : Type 0 where
    pub steady : IsSteady buffers pending im'
    pub here : view buffers im' b ≡ block
    pub others : (x : ℕ) → x ≢ b → view buffers im' x ≡ view buffers im x
    pub kept : (x : ℕ) → IsCached buffers x im → IsCached buffers x im'
    pub same_disk : (x : ℕ) → im'.disk x ≡ im.disk x

  change-kept :
      (b : ℕ) (f : BlkCache buffers → BlkCache buffers) (c : Cache buffers)
      → ((it : BlkCache buffers) → (f it).blk_id ≡ it.blk_id)
      → (x : ℕ) → find buffers x c ≢ none
      → find buffers x (change buffers b f c) ≢ none
  change-kept b f c keeps x is e = elim (Bool-cases (x == b)) [
    | inl at ↦ is (
        lost (find buffers x c) (
          sym (
            subst
              (λ (k : ℕ).
                find buffers k (change buffers b f c)
                ≡ (elim (find buffers k c) [ none ↦ none | some it ↦ some (f it) ]))
              (sym (==→eq x b at)) (find-change_self buffers b f c keeps))
          ∙ e))
    | inr apart ↦ is (sym (find-change_other buffers b x f c keeps (==→ne x b apart)) ∙ e)
  ]
    where
      lost :
          (o : Option (BlkCache buffers))
          → (elim o [ none ↦ none | some it ↦ some (f it) ]) ≡ none
          → o ≡ none
      lost none e = refl
      lost (some it) e = absurd (cc (e))

  module _ (pending : ℕ → Bool) (im : Image buffers) (b : ℕ) (steady : IsSteady buffers pending im)
      (cached : IsCached buffers b im) where
    -- After a store the mark of the block is pending.
    abbrev pub or_block : ℕ → Bool
    or_block x = pending x || x == b

    -- After the mark it is not.
    abbrev pub less_block : ℕ → Bool
    less_block x = pending x && not (x == b)

    pub poke-IsEdit :
        (f : Data → Data) → IsEdit or_block im b (f (view buffers im b)) (poke buffers b f im)
    unfolding poke
    poke-IsEdit f = record {
      steady = record {
        distinct = IsDistinct-change buffers b (with_block f) im.cache (λ it. refl) steady.distinct;
        saved = λ x it settled found clean.
            let apart : x ≢ b = ==→ne x b (ground arith) in
            steady.saved x it (ground arith)
              (sym (find-change_other buffers b x (with_block f) im.cache (λ it. refl) apart)
                ∙ found)
              clean;
      };
      here =
          ap (seen buffers im.disk b)
            (find-change_self buffers b (with_block f) im.cache (λ it. refl))
          ∙ poked (find buffers b im.cache) cached;
      others = λ x ne.
          ap (seen buffers im.disk x)
            (find-change_other buffers b x (with_block f) im.cache (λ it. refl) ne);
      kept = change-kept b (with_block f) im.cache (λ it. refl);
      same_disk = λ x. refl;
    }
      where
        poked :
            (o : Option (BlkCache buffers))
            → o ≢ none
            → seen buffers im.disk b (elim o [ none ↦ none | some it ↦ some (with_block f it) ])
              ≡ f (seen buffers im.disk b o)
        poked none is = absurd (is refl)
        poked (some it) is = refl

    marked : Image buffers
    marked = record im { cache = change buffers b (with_dirty true) im.cache }

    marked-IsEdit : IsEdit less_block im b (view buffers im b) marked
    unfolding marked
    marked-IsEdit = record {
      steady = record {
        distinct =
            IsDistinct-change buffers b (with_dirty true) im.cache (λ it. refl) steady.distinct;
        saved = λ x it settled found clean. elim (Bool-cases (x == b)) [
          | inl at ↦ absurd (
              now_dirty (find buffers b im.cache) it
                (sym (find-change_self buffers b (with_dirty true) im.cache (λ it. refl))
                  ∙ subst
                      (λ (k : ℕ).
                        find buffers k (change buffers b (with_dirty true) im.cache) ≡ some it)
                      (==→eq x b at) found)
                clean)
          | inr apart ↦
              steady.saved x it (ground arith)
                (sym (
                    find-change_other buffers b x (with_dirty true) im.cache (λ it. refl)
                      (==→ne x b apart))
                  ∙ found)
                clean
        ];
      };
      here =
          ap (seen buffers im.disk b)
            (find-change_self buffers b (with_dirty true) im.cache (λ it. refl))
          ∙ unchanged (find buffers b im.cache);
      others = λ x ne.
          ap (seen buffers im.disk x)
            (find-change_other buffers b x (with_dirty true) im.cache (λ it. refl) ne);
      kept = change-kept b (with_dirty true) im.cache (λ it. refl);
      same_disk = λ x. refl;
    }
      where
        now_dirty :
            (o : Option (BlkCache buffers)) (it : BlkCache buffers)
            → (elim o [ none ↦ none | some it ↦ some (with_dirty true it) ]) ≡ some it
            → it.dirty ≡ false
            → ⊥
        now_dirty none it e clean = cc (e)
        now_dirty (some old) it e clean = cc (ap is_dirty e, clean)

        unchanged :
            (o : Option (BlkCache buffers))
            → seen buffers im.disk b (elim o [ none ↦ none | some it ↦ some (with_dirty true it) ])
              ≡ seen buffers im.disk b o
        unchanged none = refl
        unchanged (some it) = refl

    bc_write-marked : bc_write buffers b false im ≡ marked
    unfolding bc_write marked
    bc_write-marked = elim (Option-cases (find buffers b im.cache)) [
      | inl missing ↦ absurd (cached missing)
      | inr (it, found) ↦ rw (found, bc_write) refl
    ]

    pub bc_write-IsEdit : IsEdit less_block im b (view buffers im b) (bc_write buffers b false im)
    bc_write-IsEdit =
        subst (IsEdit less_block im b (view buffers im b)) (sym bc_write-marked) marked-IsEdit
