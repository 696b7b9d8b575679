-- ===== src/Kern/Branch/Alloc.antt =====
-- `alloc_branch` of kern/gas_itree.c: the chain of new blocks, and what stays as it is
use mathlib.Core.Path.{subst}
use gas_filesystem.Base.{
  ℕ, suc, ◌≡◌, ◌≤◌, refl, sym, ◌∙◌, ◌≢◌, ◌⊎◌, inl, inr, ap, arith, true, false, ◌==◌, if◌then◌else◌,
  List, [], ◌∷◌, length, some, Bool-cases, ==→eq, ==→ne, ne→==, eq→==,
}
use gas_filesystem.Kern.Types.{GasSbInfo}
use gas_filesystem.Kern.BitOps.{BitOps}
use gas_filesystem.Kern.Bitmap.{Bitmap}
use gas_filesystem.Kern.Bitmap.Blocks.{block_bit, IsValid, BlockChanged}
use gas_filesystem.Kern.Branch.{Tree}
use gas_filesystem.Kern.Branch.Follow.{follow, Starts}

module _ (ops : BitOps) (bits : ℕ) where
  -- The block is marked in the bitmap.
  abbrev pub IsUsed : Bitmap ops → ℕ → Type 0
  IsUsed map b = block_bit ops bits map b ≡ some true

module _ (ops : BitOps) (blocksize_bits : ℕ) (sbi : GasSbInfo) where
  abbrev bits : ℕ
  bits = sbi.s_bits_per_block

  abbrev pub IsGood : Bitmap ops → Type 0
  IsGood map = IsValid ops blocksize_bits sbi map

  -- What the loop makes of `tree`, whether it comes to the end or not: blocks in use keep what they hold
  pub record Kept (parent : ℕ) (tree tree' : Tree ops) : Type 0 where
    pub good : IsGood tree'.map
    pub used : (b : ℕ) → IsUsed ops bits tree.map b → IsUsed ops bits tree'.map b
    pub same :
        (b : ℕ) → IsUsed ops bits tree.map b → b ≢ parent → (i : ℕ) → tree'.cell b i ≡ tree.cell b i

  -- If it comes to the end, the offsets lead from `parent` to the last key, and nothing else hangs
  -- below `parent`.
  pub record Grown (offsets : List ℕ) (parent : ℕ) (tree tree' : Tree ops) (last : ℕ) : Type 0 where
    pub at_end : follow tree'.cell parent offsets ≡ last
    pub nonzero : last ≢ 0
    pub on_path :
        (r : List ℕ) → length r ≤ length offsets → follow tree'.cell parent r ≢ 0 → Starts r offsets
    pub new :
        (r : List ℕ)
        → length r ≤ length offsets
        → follow tree'.cell parent r ≢ 0
        → (r ≡ [])
          ⊎ ((block_bit ops bits tree.map (follow tree'.cell parent r) ≡ some false)
              × IsUsed ops bits tree'.map (follow tree'.cell parent r))
    pub distinct :
        (r s : List ℕ)
        → length r ≤ length offsets
        → length s ≤ length offsets
        → follow tree'.cell parent r ≢ 0
        → follow tree'.cell parent r ≡ follow tree'.cell parent s
        → r ≡ s

  -- One block more: `nr` was free in `tree` and is a child of `parent` in `mid`.
  module _ (parent o nr : ℕ) (tree mid tree' : Tree ops)
      (parent_used : IsUsed ops bits tree.map parent)
      (free : block_bit ops bits tree.map nr ≡ some false)
      (change : BlockChanged ops bits tree.map nr true mid.map) (nr_nonzero : nr ≢ 0)
      (apart : (b : ℕ) → b ≢ parent → (i : ℕ) → mid.cell b i ≡ tree.cell b i)
      (child : (i : ℕ) → mid.cell parent i ≡ (if i == o then nr else 0))
      (kept : Kept nr mid tree') where
    parent-ne-nr : parent ≢ nr
    parent-ne-nr e = absurd (cc (parent_used, free, ap (block_bit ops bits tree.map) e))

    mid-IsUsed : (b : ℕ) → IsUsed ops bits tree.map b → IsUsed ops bits mid.map b
    mid-IsUsed b is = elim (Bool-cases (b == nr)) [
      | inl e ↦ subst (IsUsed ops bits mid.map) (sym (==→eq b nr e)) change.here
      | inr ne ↦ change.others b (==→ne b nr ne) ∙ is
    ]

    pub step-Kept : Kept parent tree tree'
    step-Kept = record {
      good = kept.good;
      used = λ b is. kept.used b (mid-IsUsed b is);
      same = λ b is ne i.
          kept.same b (mid-IsUsed b is)
            (λ e. absurd (cc (is, free, ap (block_bit ops bits tree.map) e))) i
          ∙ apart b ne i;
    }

    -- The block `parent` in the end
    parent_cell : (i : ℕ) → tree'.cell parent i ≡ (if i == o then nr else 0)
    parent_cell i = kept.same parent (mid-IsUsed parent parent_used) parent-ne-nr i ∙ child i

    module _ (offsets : List ℕ) (last : ℕ) (grown : Grown offsets nr mid tree' last) where
      -- A path that is not empty goes on from `nr`.
      onward :
          (k : ℕ) (r : List ℕ)
          → follow tree'.cell parent (k ∷ r) ≢ 0
          → (k ≡ o) × (follow tree'.cell parent (k ∷ r) ≡ follow tree'.cell nr r)
      unfolding follow
      onward k r ne = elim (Bool-cases (k == o)) [
        | inr off ↦ absurd (ne (rw (parent_cell k, off) refl))
        | inl on ↦ (==→eq k o on, rw (parent_cell k, on, ne→== nr 0 nr_nonzero) refl)
      ]

      down : (r : List ℕ) → follow tree'.cell parent (o ∷ r) ≡ follow tree'.cell nr r
      unfolding follow
      down r = rw (parent_cell o, eq→== o o refl, ne→== nr 0 nr_nonzero) refl

      free_before :
          (b : ℕ)
          → block_bit ops bits mid.map b ≡ some false
          → block_bit ops bits tree.map b ≡ some false
      free_before b is =
          sym (
            change.others b (λ e. absurd (cc (is, change.here, ap (block_bit ops bits mid.map) e))))
          ∙ is

      step_new :
          (k : ℕ) (r : List ℕ)
          → length r ≤ length offsets
          → follow tree'.cell parent (k ∷ r) ≢ 0
          → (block_bit ops bits tree.map (follow tree'.cell parent (k ∷ r)) ≡ some false)
            × IsUsed ops bits tree'.map (follow tree'.cell parent (k ∷ r))
      step_new k r le ne =
          let (on, same) = onward k r ne in
          subst (λ b. (block_bit ops bits tree.map b ≡ some false) × IsUsed ops bits tree'.map b)
            (sym same)
            (elim (grown.new r le (λ e. ne (same ∙ e))) [
              | inl none_left ↦ at_nr r none_left
              | inr (is, now) ↦ (free_before _ is, now)
            ])
        where
          at_nr :
              (r : List ℕ)
              → r ≡ []
              → (block_bit ops bits tree.map (follow tree'.cell nr r) ≡ some false)
                × IsUsed ops bits tree'.map (follow tree'.cell nr r)
          at_nr r e =
              subst
                (λ r.
                  (block_bit ops bits tree.map (follow tree'.cell nr r) ≡ some false)
                  × IsUsed ops bits tree'.map (follow tree'.cell nr r))
                (sym e) (unfold follow in (free, kept.used nr change.here))

      step_distinct :
          (r s : List ℕ)
          → length r ≤ suc (length offsets)
          → length s ≤ suc (length offsets)
          → follow tree'.cell parent r ≢ 0
          → follow tree'.cell parent r ≡ follow tree'.cell parent s
          → r ≡ s
      step_distinct [] [] lr ls ne e = refl
      step_distinct [] (k ∷ s) lr ls ne e =
          let parent_end : follow tree'.cell parent [] ≡ parent = unfold follow in refl in
          absurd (
            cc (
              (step_new k s (omega arith) (λ z. ne (e ∙ z))).0,
              ap (block_bit ops bits tree.map) (sym parent_end ∙ e),
              parent_used,
            ))
      step_distinct (k ∷ r) [] lr ls ne e =
          let parent_end : follow tree'.cell parent [] ≡ parent = unfold follow in refl in
          absurd (
            cc (
              (step_new k r (omega arith) ne).0,
              ap (block_bit ops bits tree.map) (e ∙ parent_end),
              parent_used,
            ))
      step_distinct (k ∷ r) (l ∷ s) lr ls ne e =
          let (on, same) = onward k r ne in
          let (on', same') = onward l s (λ z. ne (e ∙ z)) in
          let tails : r ≡ s =
            grown.distinct r s (omega arith) (omega arith) (λ z. ne (same ∙ z))
              (sym same ∙ (e ∙ same')) in
          cc (on, on', tails)

      pub step-Grown : Grown (o ∷ offsets) parent tree tree' last
      step-Grown = record {
        at_end = down offsets ∙ grown.at_end;
        nonzero = grown.nonzero;
        on_path = λ r. path r;
        new = λ r. fresh r;
        distinct = step_distinct;
      }
        where
          path :
              (r : List ℕ)
              → length r ≤ suc (length offsets)
              → follow tree'.cell parent r ≢ 0
              → Starts r (o ∷ offsets)
          path [] le ne = (o ∷ offsets, refl)
          path (k ∷ r) le ne =
              let (on, same) = onward k r ne in
              let (s, e) = grown.on_path r (omega arith) (λ z. ne (same ∙ z)) in (s, cc (on, e))

          fresh :
              (r : List ℕ)
              → length r ≤ suc (length offsets)
              → follow tree'.cell parent r ≢ 0
              → (r ≡ [])
                ⊎ ((block_bit ops bits tree.map (follow tree'.cell parent r) ≡ some false)
                    × IsUsed ops bits tree'.map (follow tree'.cell parent r))
          fresh [] le ne = inl refl
          fresh (k ∷ r) le ne = inr (step_new k r (omega arith) ne)
