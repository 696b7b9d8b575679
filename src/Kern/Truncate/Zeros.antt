-- ===== src/Kern/Truncate/Zeros.antt =====
-- Truncation in kern/gas_itree.c: the keys that it sets to 0
use gas_filesystem.Base.{
  ℕ, zero, suc, ◌+◌, ◌-◌, ◌≡◌, ◌≤◌, ◌<◌, inl, inr, ◌∙◌, ◌==◌, Bool, true, arith, Bool-cases, ==→eq,
  ==→ne,
}
use gas_filesystem.Kern.Types.{GasSbInfo}
use gas_filesystem.Kern.BitOps.{BitOps}
use gas_filesystem.Kern.Bitmap.Blocks.{IsValid}
use gas_filesystem.Kern.Itree.{dircount, depth}
use gas_filesystem.Kern.Branch.{store_key, Tree}
use gas_filesystem.Kern.Truncate.{store, free_range, do_indirects}
use gas_filesystem.Kern.Truncate.Shrunk.{
  Shrunk, store-Shrunk, mark-Shrunk, free_key-Shrunk, free_range-Shrunk, do_indirects-Shrunk,
}

module _ (ops : BitOps) (blocksize_bits : ℕ) (sbi : GasSbInfo) where
  pub zero_kept :
      (t u : Tree ops)
      → Shrunk ops blocksize_bits sbi t u
      → (b i : ℕ) → t.cell b i ≡ 0
      → u.cell b i ≡ 0
  zero_kept t u s b i e = elim (s.cells b i) [ inl same ↦ same ∙ e | inr gone ↦ gone ]

  abbrev IsGood : Tree ops → Type 0
  IsGood tree = IsValid ops blocksize_bits sbi tree.map

  stored_zero : (place i : ℕ) (tree : Tree ops) → (store ops place i 0 tree).cell place i ≡ 0
  unfolding store_key
  stored_zero place i tree = ground arith

  pub free_range_zero :
      (free : ℕ → Tree ops → Tree ops)
      → ((nr : ℕ) (tree : Tree ops)
          → IsGood tree
          → Shrunk ops blocksize_bits sbi tree (free nr tree))
      → (place from n : ℕ) (tree : Tree ops) → IsGood tree
      → (i : ℕ) → from ≤ i
      → i < from + n
      → (free_range ops free place from n tree).cell place i ≡ 0
  unfolding free_range
  free_range_zero free each place from zero tree good i ge lt = absurd (omega arith)
  free_range_zero free each place from (suc n) tree good i ge lt =
      let again : (t : Tree ops)
          → IsGood t
          → from + 1 ≤ i
          → (free_range ops free place (from + 1) n t).cell place i ≡ 0 =
        λ t good' le. free_range_zero free each place (from + 1) n t good' i le (omega arith) in
      elim (Bool-cases (tree.cell place from == 0)) [
        | inl empty ↦ rw (empty, free_range) (next again tree good (==→eq _ 0 empty))
        | inr there ↦
            let kept = store-Shrunk ops blocksize_bits sbi place from tree good in
            let freed = each (tree.cell place from) (store ops place from 0 tree) kept.good in
            rw (there, free_range)
              (next again _ freed.good
                (zero_kept _ _ freed place from (stored_zero place from tree)))
      ]
    where
      next :
          ((t : Tree ops)
            → IsGood t
            → from + 1 ≤ i
            → (free_range ops free place (from + 1) n t).cell place i ≡ 0)
          → (t : Tree ops) → IsGood t
          → t.cell place from ≡ 0
          → (free_range ops free place (from + 1) n t).cell place i ≡ 0
      next again t good' empty = elim (Bool-cases (i == from)) [
        | inl e ↦ rw (==→eq i from e) (
            zero_kept _ _
              (free_range-Shrunk ops blocksize_bits sbi free each place (from + 1) n t good') place
              from empty)
        | inr ne ↦ again t good' (omega (arith, ==→ne i from ne))
      ]

  module _ (reads : ℕ → Bool) (ptrs : ℕ) where
    pub do_indirects_zero :
        (rounds : ℕ) (tree : Tree ops)
        → IsGood tree
        → rounds ≤ 3
        → (i : ℕ) → 9 ≤ i + rounds
        → i < 9
        → (do_indirects ops blocksize_bits sbi reads ptrs rounds tree).cell 0 i ≡ 0
    unfolding do_indirects
    do_indirects_zero zero tree good le i ge lt = absurd (omega arith)
    do_indirects_zero (suc rounds) tree good le i ge lt =
        let again : (t : Tree ops)
            → IsGood t
            → 9 ≤ i + rounds
            → (do_indirects ops blocksize_bits sbi reads ptrs rounds t).cell 0 i ≡ 0 =
          λ t good' ge'. do_indirects_zero rounds t good' (omega arith) i ge' lt in
        elim (Bool-cases (tree.cell 0 at == 0)) [
          | inl empty ↦ rw (empty, do_indirects) (next again tree good (==→eq _ 0 empty))
          | inr there ↦
              let kept = store-Shrunk ops blocksize_bits sbi 0 at tree good in
              let marked = mark-Shrunk ops blocksize_bits sbi 0 true _ kept.good in
              let freed =
                free_key-Shrunk ops blocksize_bits sbi reads ptrs (depth - 1 - suc rounds + 1)
                  (tree.cell 0 at) _ marked.good in
              rw (there, do_indirects)
                (next again _ freed.good (
                  zero_kept _ _ freed 0 at
                    (zero_kept (store ops 0 at 0 tree) _ marked 0 at (stored_zero 0 at tree))))
        ]
      where
        at : ℕ
        at = dircount + (depth - 1 - suc rounds)

        next :
            ((t : Tree ops)
              → IsGood t
              → 9 ≤ i + rounds
              → (do_indirects ops blocksize_bits sbi reads ptrs rounds t).cell 0 i ≡ 0)
            → (t : Tree ops) → IsGood t
            → t.cell 0 at ≡ 0
            → (do_indirects ops blocksize_bits sbi reads ptrs rounds t).cell 0 i ≡ 0
        next again t good' empty = elim (Bool-cases (i == at)) [
          | inl e ↦ rw (==→eq i at e) (
              zero_kept _ _ (do_indirects-Shrunk ops blocksize_bits sbi reads ptrs rounds t good') 0
                at empty)
          | inr ne ↦ again t good' (omega (arith, ==→ne i at ne))
        ]
