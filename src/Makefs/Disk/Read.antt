-- ===== src/Makefs/Disk/Read.antt =====
-- makefs/mkfs.c: what `bc_read` gives, and what it keeps
use mathlib.Core.Path.{subst}
use gas_filesystem.Base.{
  ℕ, ◌^◌, ◌<◌, ◌≡◌, refl, sym, ap, ◌∙◌, inl, inr, Option, none, some, ◌==◌, Bool, true, false,
  if◌then◌else◌, Bool-cases, Option-cases, ==→eq, eq→==,
}
use gas_filesystem.Makefs.Disk.{Buffers, BlkCache, Image, read_block, bc_insert, bc_find, bc_read}
use gas_filesystem.Makefs.Disk.View.{view, find, IsSteady, IsCached, IsDirty, seen}

module _ (buffers : Buffers) where
  open buffers use {Data}

  -- What `bc_read` of a block gives, and what it keeps
  pub record IsRead (pending : ℕ → Bool) (im : Image buffers) (b : ℕ) (r : Data × Image buffers)
      : Type 0 where
    pub steady : IsSteady buffers pending r.1
    pub value : r.0 ≡ view buffers im b
    pub same : (x : ℕ) → view buffers r.1 x ≡ view buffers im x
    pub cached : IsCached buffers b r.1
    pub kept : (x : ℕ) → IsCached buffers x im → IsCached buffers x r.1
    pub dirty_kept : (x : ℕ) → IsDirty buffers x im → IsDirty buffers x r.1

  fresh_entry : ℕ → Image buffers → BlkCache buffers
  fresh_entry b im = record { dirty = false; blk_id = b; block = im.disk b }

  module _ (pending : ℕ → Bool) (im : Image buffers) (b : ℕ) (steady : IsSteady buffers pending im)
      (near : b < 2 ^ 19) where
    inserted :
        find buffers b im.cache ≡ none
        → IsRead pending im b (im.disk b, bc_insert buffers (fresh_entry b im) im)
    unfolding bc_insert fresh_entry bc_find
    inserted missing = record {
      steady = record {
        distinct = ((missing, near), steady.distinct);
        saved = λ x it settled found clean. elim (Bool-cases (b == x)) [
          | inl e ↦ here x it (==→eq b x e) (rw (e, bc_find) at found)
          | inr ne ↦ steady.saved x it settled (rw (ne, bc_find) at found) clean
        ];
      };
      value = rw missing refl;
      same = λ x. elim (Bool-cases (b == x)) [
        | inl e ↦ at_block x (==→eq b x e) e
        | inr ne ↦ rw (ne, bc_find) refl
      ];
      cached = rw (eq→== b b refl, bc_find) (λ e. absurd (cc (e)));
      kept = λ x is. elim (Bool-cases (b == x)) [
        | inl e ↦ rw (e, bc_find) (λ e. absurd (cc (e)))
        | inr ne ↦ rw (ne, bc_find) is
      ];
      dirty_kept = λ x (it, found, dirty). elim (Bool-cases (b == x)) [
        | inl e ↦
            absurd (cc (found, missing, ap (λ (k : ℕ). find buffers k im.cache) (==→eq b x e)))
        | inr ne ↦ (it, rw (ne, bc_find) found, dirty)
      ];
    }
      where
        here :
            (x : ℕ) (it : BlkCache buffers)
            → b ≡ x
            → some (fresh_entry b im) ≡ some it
            → it.block ≡ im.disk x
        here x it e found =
            ap (λ (o : Option (BlkCache buffers)). seen buffers im.disk b o) (sym found)
            ∙ ap im.disk e

        at_block :
            (x : ℕ)
            → b ≡ x
            → (b == x) ≡ true
            → seen buffers im.disk x
                (if b == x then some (fresh_entry b im) else find buffers x im.cache)
              ≡ view buffers im x
        at_block x e t =
            let gone : find buffers x im.cache ≡ none =
              subst (λ (k : ℕ). find buffers k im.cache ≡ none) e missing in
            rw (t, gone) (ap im.disk e)

    hit :
        (it : BlkCache buffers)
        → find buffers b im.cache ≡ some it
        → IsRead pending im b (it.block, im)
    hit it found = record {
      steady = steady;
      value = rw found refl;
      same = λ x. refl;
      cached = λ e. absurd (cc (e, found));
      kept = λ x is. is;
      dirty_kept = λ x is. is;
    }

    pub bc_read-IsRead : IsRead pending im b (bc_read buffers b im)
    unfolding bc_read read_block fresh_entry
    bc_read-IsRead = elim (Option-cases (find buffers b im.cache)) [
      | inl missing ↦
          rw (missing, bc_read)
            (subst (λ (k : ℕ). IsRead pending im b (im.disk k, bc_insert buffers (entry k) im))
              (sym (buffers.place_lem b near)) (inserted missing))
      | inr (it, found) ↦ rw (found, bc_read) (hit it found)
    ]
      where
        entry : ℕ → BlkCache buffers
        entry k = record { dirty = false; blk_id = b; block = im.disk k }
