-- ===== src/Makefs/Disk/Holds.antt =====
-- makefs/mkfs.c: what the program sees of the image after each operation of the cache
use mathlib.Core.Path.{subst}
use gas_filesystem.Base.{
  ℕ, ◌^◌, ◌<◌, ◌≡◌, ◌⊎◌, refl, sym, ap, ◌∙◌, inl, inr, arith, Option, some, [], ◌==◌, ◌&&◌, ◌||◌,
  not, Bool, true, false, if◌then◌else◌, Bool-cases, Option-cases, ==→eq, ==→ne, eq→==,
}
use gas_filesystem.Makefs.Disk.{
  Buffers, BlkCache, Image, bc_sync, bc_find, bc_read, change, poke, bc_write,
}
use gas_filesystem.Makefs.Disk.View.{
  view, find, seen, IsCached, IsDirty, IsSteady, find-change_self, find-change_other, bc_sync-view,
}
use gas_filesystem.Makefs.Disk.Read.{bc_read-IsRead}
use gas_filesystem.Makefs.Disk.Edit.{with_block, with_dirty, is_dirty, poke-IsEdit, bc_write-IsEdit}

-- A store at one block
abbrev pub put {ℓ} : {A : Type ℓ} → ℕ → A → (ℕ → A) → ℕ → A
put b d v x = if x == b then d else v x

-- The second of two stores at one block counts, and sees the first.
pub put-put {ℓ} :
    {A : Type ℓ} (b : ℕ) (f : A → A) (d : A) (v : ℕ → A) (x : ℕ)
    → put b (f (put b d v b)) (put b d v) x ≡ put b (f d) v x
put-put b f d v x =
    let self : (b == b) ≡ true = eq→== b b refl in
    elim (Bool-cases (x == b)) [ inl at ↦ rw (at, self) refl | inr apart ↦ rw apart refl ]

module _ (buffers : Buffers) where
  open buffers use {Data}

  -- The program sees `seen_as`. The blocks of `cached` are in the cache, and those of `dirty` are marked; a
  -- clean block of the cache is as on the disk, but for those of `pending`.
  pub record Holds (pending cached dirty : ℕ → Bool) (seen_as : ℕ → Data) (im : Image buffers)
      : Type 0 where
    pub steady : IsSteady buffers pending im
    pub sees : (x : ℕ) → view buffers im x ≡ seen_as x
    pub is_cached : (x : ℕ) → cached x ≡ true → IsCached buffers x im
    pub is_dirty : (x : ℕ) → dirty x ≡ true → IsDirty buffers x im

  -- `bc_write` of a block marks it, and keeps the other marks.
  bc_write-IsDirty :
      (b : ℕ) (im : Image buffers)
      → IsCached buffers b im
      → (x : ℕ) → (x ≡ b) ⊎ IsDirty buffers x im
      → IsDirty buffers x (bc_write buffers b false im)
  unfolding bc_write
  bc_write-IsDirty b im cached x which = elim (Option-cases (find buffers b im.cache)) [
    | inl missing ↦ absurd (cached missing)
    | inr (p, found) ↦
        rw (found, bc_write)
          (elim (Bool-cases (x == b)) [
            | inl e ↦ rw (==→eq x b e) (
              with_dirty buffers true p,
              find-change_self buffers b (with_dirty buffers true) im.cache (λ it. refl)
                  ∙ (rw found refl),
              refl,
            )
            | inr ne ↦ elim which [
              | inl same ↦ absurd (==→ne x b ne same)
              | inr (it, at, is) ↦ (
                it,
                find-change_other buffers b x (with_dirty buffers true) im.cache (λ it. refl)
                      (==→ne x b ne)
                    ∙ at,
                is,
              )
            ]
          ])
  ]

  abbrev pub add : ℕ → (ℕ → Bool) → ℕ → Bool
  add b p x = p x || x == b

  module _ (pending cached dirty : ℕ → Bool) (v : ℕ → Data) (im : Image buffers)
      (holds : Holds pending cached dirty v im) where
    pub read-Holds :
        (b : ℕ)
        → b < 2 ^ 19
        → ((bc_read buffers b im).0 ≡ v b)
          × Holds pending (add b cached) dirty v ((bc_read buffers b im).1)
    read-Holds b near =
        let r = bc_read-IsRead buffers pending im b holds.steady near in
        (
          r.value ∙ holds.sees b,
          record {
            steady = r.steady;
            sees = λ x. r.same x ∙ holds.sees x;
            is_cached = λ x is. elim (Bool-cases (x == b)) [
              | inl e ↦
                  subst (λ (k : ℕ). IsCached buffers k ((bc_read buffers b im).1))
                    (sym (==→eq x b e)) r.cached
              | inr ne ↦ r.kept x (holds.is_cached x (ground arith))
            ];
            is_dirty = λ x is. r.dirty_kept x (holds.is_dirty x is);
          },
        )

    dirty-change :
        (b : ℕ) (f : BlkCache buffers → BlkCache buffers)
        → ((it : BlkCache buffers) → (f it).blk_id ≡ it.blk_id)
        → ((it : BlkCache buffers) → it.dirty ≡ true → (f it).dirty ≡ true)
        → (x : ℕ) → IsDirty buffers x im
        → IsDirty buffers x (record im { cache = change buffers b f im.cache })
    dirty-change b f keeps marks x (it, found, is) = elim (Bool-cases (x == b)) [
      | inl e ↦
          let at : find buffers b im.cache ≡ some it =
            subst (λ (k : ℕ). find buffers k im.cache ≡ some it) (==→eq x b e) found in
          let changed : find buffers b (change buffers b f im.cache) ≡ some (f it) =
            find-change_self buffers b f im.cache keeps ∙ (rw at refl) in
          subst (λ (k : ℕ). IsDirty buffers k (record im { cache = change buffers b f im.cache }))
            (sym (==→eq x b e)) (f it, changed, marks it is)
      | inr ne ↦ (it, find-change_other buffers b x f im.cache keeps (==→ne x b ne) ∙ found, is)
    ]

    module _ (b : ℕ) (in_cache : cached b ≡ true) where
      pub deref-Holds :
          (it : BlkCache buffers) → bc_find buffers b im.cache ≡ some it → it.block ≡ v b
      deref-Holds it found = ap (seen buffers im.disk b) (sym found) ∙ holds.sees b

      -- A store through a pointer: the mark of the block is pending.
      pub poke-Holds :
          (f : Data → Data)
          → Holds (add b pending) cached dirty (put b (f (v b)) v) (poke buffers b f im)
      unfolding poke
      poke-Holds f =
          let e = poke-IsEdit buffers pending im b holds.steady (holds.is_cached b in_cache) f in
          record {
            steady = e.steady;
            sees = λ x. elim (Bool-cases (x == b)) [
              | inl t ↦ rw t (
                  subst (λ (k : ℕ). view buffers (poke buffers b f im) k ≡ f (v b))
                    (sym (==→eq x b t)) (e.here ∙ ap f (holds.sees b)))
              | inr t ↦ rw t (e.others x (==→ne x b t) ∙ holds.sees x)
            ];
            is_cached = λ x is. e.kept x (holds.is_cached x is);
            is_dirty = λ x is.
                dirty-change b (with_block buffers f) (λ it. refl) (λ it is. is) x
                  (holds.is_dirty x is);
          }

      -- A store into a block that is marked dirty
      pub dirty_poke-Holds :
          (f : Data → Data)
          → dirty b ≡ true
          → Holds pending cached dirty (put b (f (v b)) v) (poke buffers b f im)
      unfolding poke
      dirty_poke-Holds f marked =
          let h = poke-Holds f in
          record {
            steady = record {
              distinct = h.steady.distinct;
              saved = λ x it settled found clean. elim (Bool-cases (x == b)) [
                | inl e ↦
                    let (it', found', is) =
                      h.is_dirty x (subst (λ (k : ℕ). dirty k ≡ true) (sym (==→eq x b e)) marked) in
                    absurd (both it it' found found' clean is)
                | inr ne ↦ h.steady.saved x it (ground arith) found clean
              ];
            };
            sees = h.sees;
            is_cached = h.is_cached;
            is_dirty = h.is_dirty;
          }
        where
          both :
              {o : Option (BlkCache buffers)} (it it' : BlkCache buffers)
              → o ≡ some it
              → o ≡ some it'
              → it.dirty ≡ false
              → it'.dirty ≡ true
              → ⊥
          both it it' e e' clean is = cc (ap (is_dirty buffers) (sym e ∙ e'), clean, is)

      -- `bc_write` without `sync`: the block is marked.
      pub write-Holds :
          Holds
            (λ x. pending x && not (x == b))
            cached
            (add b dirty)
            v
            (bc_write buffers b false im)
      write-Holds =
          let e = bc_write-IsEdit buffers pending im b holds.steady (holds.is_cached b in_cache) in
          record {
            steady = e.steady;
            sees = λ x. elim (Bool-cases (x == b)) [
              | inl t ↦
                  subst (λ (k : ℕ). view buffers (bc_write buffers b false im) k ≡ v k)
                    (sym (==→eq x b t)) (e.here ∙ holds.sees b)
              | inr t ↦ e.others x (==→ne x b t) ∙ holds.sees x
            ];
            is_cached = λ x is. e.kept x (holds.is_cached x is);
            is_dirty = λ x is.
                bc_write-IsDirty b im (holds.is_cached b in_cache) x (elim (Bool-cases (x == b)) [
                  | inl t ↦ inl (==→eq x b t)
                  | inr t ↦ inr (holds.is_dirty x (ground arith))
                ]);
          }

    pub weaken-Holds :
        (pending' cached' dirty' : ℕ → Bool)
        → ((x : ℕ) → pending' x ≡ false → pending x ≡ false)
        → ((x : ℕ) → cached' x ≡ true → cached x ≡ true)
        → ((x : ℕ) → dirty' x ≡ true → dirty x ≡ true)
        → Holds pending' cached' dirty' v im
    weaken-Holds pending' cached' dirty' p c d = record {
      steady = record {
        distinct = holds.steady.distinct;
        saved = λ x it settled found clean. holds.steady.saved x it (p x settled) found clean;
      };
      sees = holds.sees;
      is_cached = λ x is. holds.is_cached x (c x is);
      is_dirty = λ x is. holds.is_dirty x (d x is);
    }

    pub reseen-Holds : (v' : ℕ → Data) → ((x : ℕ) → v x ≡ v' x) → Holds pending cached dirty v' im
    reseen-Holds v' same = record {
      steady = holds.steady;
      sees = λ x. holds.sees x ∙ same x;
      is_cached = holds.is_cached;
      is_dirty = holds.is_dirty;
    }

    -- `bc_sync` when no mark is pending
    pub sync-Holds : ((x : ℕ) → pending x ≡ false) → (b : ℕ) → (bc_sync buffers im).disk b ≡ v b
    sync-Holds settled b =
        bc_sync-view buffers im
          (record {
            distinct = holds.steady.distinct;
            saved = λ x it _ found clean. holds.steady.saved x it (settled x) found clean;
          })
          b
        ∙ holds.sees b

  -- No mark is pending, or no block is known to be in the cache or marked.
  abbrev pub nothing : ℕ → Bool
  nothing x = false

  -- What the operations of the program do with a block: `bc_read`, a store, `bc_write`
  abbrev pub edit : ℕ → (Data → Data) → Image buffers → Image buffers
  edit b f im = bc_write buffers b false (poke buffers b f ((bc_read buffers b im).1))

  module _ (cached dirty : ℕ → Bool) (v : ℕ → Data) (im : Image buffers)
      (holds : Holds nothing cached dirty v im) where
    pub edit-Holds :
        (b : ℕ) (f : Data → Data)
        → b < 2 ^ 19
        → Holds nothing (add b cached) (add b dirty) (put b (f (v b)) v) (edit b f im)
    edit-Holds b f near =
        let (_, read) = read-Holds nothing cached dirty v im holds b near in
        let stored =
          poke-Holds nothing (add b cached) dirty v _ read b (ground (arith, eq→== b b refl)) f in
        let written =
          write-Holds (add b nothing) (add b cached) dirty (put b (f (v b)) v) _ stored b
            (ground (arith, eq→== b b refl)) in
        weaken-Holds _ _ _ _ _ written nothing (add b cached) (add b dirty)
          (λ x _. settled (x == b)) (λ x is. is) (λ x is. is)
      where
        settled : (t : Bool) → ((false || t) && not t) ≡ false
        settled true = refl
        settled false = refl

  -- With an empty cache the program sees the disk.
  pub empty-Holds : (im : Image buffers) → im.cache ≡ [] → Holds nothing nothing nothing im.disk im
  unfolding bc_find
  empty-Holds im empty = record {
    steady = record {
      distinct = rw empty tt;
      saved = λ x it _ found _. absurd (gone x it (ap (find buffers x) (sym empty) ∙ found));
    };
    sees = λ x. rw empty refl;
    is_cached = λ x is. absurd (cc (is));
    is_dirty = λ x is. absurd (cc (is));
  }
    where
      gone : (x : ℕ) (it : BlkCache buffers) → find buffers x [] ≡ some it → ⊥
      gone x it e = cc (e)
