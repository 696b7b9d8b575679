-- ===== src/Kern/Branch/Loop.antt =====
-- The loop of `alloc_branch` of kern/gas_itree.c
use gas_filesystem.Base.{
  ℕ, ◌≡◌, ◌≤◌, ◌<◌, refl, sym, ◌∙◌, ◌≢◌, inl, arith, Bool, true, false, ◌==◌, if◌then◌else◌, List,
  [], ◌∷◌, ◌++◌, length, Option, ne→==, eq→==,
}
use gas_filesystem.Kern.Types.{GasSbInfo, Errno}
use gas_filesystem.Kern.BitOps.{BitOps}
use gas_filesystem.Kern.Bitmap.{Bitmap}
use gas_filesystem.Kern.Bitmap.Blocks.{NewBlock, allocated, no_space, gas_new_block-NewBlock}
use gas_filesystem.Kern.Branch.{Indirect, Tree, init_block, alloc_loop, top_key}
use gas_filesystem.Kern.Branch.Follow.{follow}
use gas_filesystem.Kern.Branch.Alloc.{IsUsed, IsGood, Kept, Grown, step-Kept, step-Grown}

module _ (ops : BitOps) (blocksize_bits : ℕ) (sbi : GasSbInfo)
    (past_super : 0 < sbi.s_data_block_start) where
  abbrev bits : ℕ
  bits = sbi.s_bits_per_block

  -- What the loop returns
  pub record Allocated (offsets : List ℕ) (parent : ℕ) (tree : Tree ops)
      (result : Bool × List Indirect × Tree ops) : Type 0 where
    pub kept : Kept ops blocksize_bits sbi parent tree result.2
    pub grown :
        result.0 ≡ true
        → Grown ops blocksize_bits sbi offsets parent tree result.2
            (top_key ops blocksize_bits sbi result.1)

  pub alloc_loop-Allocated :
      (offsets : List ℕ) (parent : ℕ) (got : List Indirect) (tree : Tree ops)
      → IsGood ops blocksize_bits sbi tree.map
      → IsUsed ops bits tree.map parent
      → parent ≢ 0
      → top_key ops blocksize_bits sbi got ≡ parent
      → Allocated offsets parent tree (alloc_loop ops blocksize_bits sbi offsets parent got tree)
  unfolding alloc_loop init_block
  alloc_loop-Allocated [] parent got tree good parent_used nonzero top = record {
    kept = record { good = good; used = λ b is. is; same = λ b is ne i. refl };
    grown = λ _. record {
      at_end = unfold follow in (sym top);
      nonzero = λ e. nonzero (sym top ∙ e);
      on_path = λ r le ne. ([], only r le);
      new = λ r le ne. inl (empty r le);
      distinct = λ r s lr ls ne e. empty r lr ∙ sym (empty s ls);
    };
  }
    where
      empty : (r : List ℕ) → length r ≤ 0 → r ≡ []
      empty [] le = refl
      empty (k ∷ r) le = absurd (omega arith)

      only : (r : List ℕ) → length r ≤ 0 → r ++ [] ≡ []
      only [] le = refl
      only (k ∷ r) le = absurd (omega arith)
  alloc_loop-Allocated (o ∷ offsets) parent got tree good parent_used nonzero top =
      at_block _ (gas_new_block-NewBlock ops blocksize_bits sbi tree.map good)
        λ nr tree' good' used' ne.
          alloc_loop-Allocated offsets nr (record { place = parent; index = o; key = nr } ∷ got)
            tree' good' used' ne refl
    where
      after : ℕ → Bitmap ops → Tree ops
      after nr map' = init_block ops parent o nr (record tree { map = map' })

      Result : Bool × List Indirect × Tree ops → Type 0
      Result r = Allocated (o ∷ offsets) parent tree r

      at_block :
          (r : Option Errno × ℕ × Bitmap ops)
          → NewBlock ops blocksize_bits sbi tree.map good r
          → ((nr : ℕ) (tree' : Tree ops)
              → IsGood ops blocksize_bits sbi tree'.map
              → IsUsed ops bits tree'.map nr
              → nr ≢ 0
              → Allocated offsets nr tree' (
                  alloc_loop ops blocksize_bits sbi offsets nr
                    (record { place = parent; index = o; key = nr } ∷ got)
                    tree'))
          → Allocated (o ∷ offsets) parent tree (
              if r.1 == 0
              then (false, got, record tree { map = r.2 })
              else alloc_loop ops blocksize_bits sbi offsets
                  (r.1)
                  (record { place = parent; index = o; key = r.1 } ∷ got)
                  (init_block ops parent o (r.1) (record tree { map = r.2 })))
      at_block r (no_space all) rest = record {
        kept = record { good = good; used = λ b is. is; same = λ b is ne i. refl };
        grown = λ e. absurd (cc);
      }
      at_block r (allocated {n = nr} {map' = map'} ge lt free change keeps) rest =
          let nr_nonzero : nr ≢ 0 = omega arith in
          let a = rest nr (after nr map') keeps change.here nr_nonzero in
          rw (ne→== nr 0 nr_nonzero) (record {
            kept =
                step-Kept ops blocksize_bits sbi parent o nr tree (after nr map') _ parent_used free
                  change nr_nonzero (apart nr map') (child nr map') a.kept;
            grown = λ e.
                step-Grown ops blocksize_bits sbi parent o nr tree (after nr map') _ parent_used
                  free change nr_nonzero (apart nr map') (child nr map') a.kept offsets _
                  (a.grown e);
          })
        where
          apart :
              (nr : ℕ) (map' : Bitmap ops) (b : ℕ)
              → b ≢ parent
              → (i : ℕ) → (after nr map').cell b i ≡ tree.cell b i
          apart nr map' b ne i = rw (ne→== b parent ne) refl

          child :
              (nr : ℕ) (map' : Bitmap ops) (i : ℕ)
              → (after nr map').cell parent i ≡ (if i == o then nr else 0)
          child nr map' i = rw (eq→== parent parent refl) refl
