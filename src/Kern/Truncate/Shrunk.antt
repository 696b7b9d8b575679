-- ===== src/Kern/Truncate/Shrunk.antt =====
-- Truncation in kern/gas_itree.c: what becomes of the keys and of the bitmap
use mathlib.Core.Path.{subst}
use gas_filesystem.Base.{
  ℕ, zero, suc, ◌+◌, ◌-◌, ◌≡◌, ◌≤◌, ◌<◌, ◌⊎◌, inl, inr, refl, sym, ◌∙◌, List, [], ◌∷◌, length, ◌==◌,
  ◌&&◌, ◌||◌, not, ltb, leb, Bool, true, false, if◌then◌else◌, some, arith, Bool-cases, ==→eq,
  ==→ne,
}
use gas_filesystem.Kern.Types.{GasSbInfo}
use gas_filesystem.Kern.BitOps.{BitOps}
use gas_filesystem.Kern.Bitmap.{gas_free_block}
use gas_filesystem.Kern.Bitmap.Blocks.{
  block_bit, IsValid, gas_free_block-BlockChanged, gas_free_block_outside,
}
use gas_filesystem.Kern.Itree.{dircount, depth}
use gas_filesystem.Kern.Branch.{Indirect, store_key, get_branch, Tree, mark}
use gas_filesystem.Kern.Truncate.{
  climb, chain_of, shorten, store, find_shared, free_range, free_key, free_branches, clear_ends,
  do_indirects, truncate_shared,
}

module _ (ops : BitOps) (blocksize_bits : ℕ) (sbi : GasSbInfo) where
  abbrev bits : ℕ
  bits = sbi.s_bits_per_block

  -- Keys stay or become 0, and blocks become free only.
  pub record Shrunk (tree tree' : Tree ops) : Type 0 where
    pub good : IsValid ops blocksize_bits sbi tree'.map
    pub cells : (b i : ℕ) → (tree'.cell b i ≡ tree.cell b i) ⊎ (tree'.cell b i ≡ 0)
    pub freed :
        (n : ℕ)
        → (block_bit ops bits tree'.map n ≡ block_bit ops bits tree.map n)
          ⊎ (block_bit ops bits tree'.map n ≡ some false)

  abbrev IsGood : Tree ops → Type 0
  IsGood tree = IsValid ops blocksize_bits sbi tree.map

  -- A step that keeps a valid bitmap valid
  abbrev Shrinks : (Tree ops → Tree ops) → Type 0
  Shrinks f = (tree : Tree ops) → IsGood tree → Shrunk tree (f tree)

  pub Shrunk-refl : (tree : Tree ops) → IsGood tree → Shrunk tree tree
  Shrunk-refl tree good = record { good = good; cells = λ b i. inl refl; freed = λ n. inl refl }

  pub Shrunk-trans : (s t u : Tree ops) → Shrunk s t → Shrunk t u → Shrunk s u
  Shrunk-trans s t u st tu = record {
    good = tu.good;
    cells = λ b i. elim (tu.cells b i) [
      | inr e ↦ inr e
      | inl e ↦ elim (st.cells b i) [ inr d ↦ inr (e ∙ d) | inl d ↦ inl (e ∙ d) ]
    ];
    freed = λ n. elim (tu.freed n) [
      | inr e ↦ inr e
      | inl e ↦ elim (st.freed n) [ inr d ↦ inr (e ∙ d) | inl d ↦ inl (e ∙ d) ]
    ];
  }

  pub store-Shrunk : (place index : ℕ) → Shrinks (store ops place index 0)
  unfolding store_key
  store-Shrunk place index tree good = record {
    good = good;
    cells = λ b i. elim (Bool-cases ((b == place) && (i == index))) [
      | inl here ↦ inr (rw here refl)
      | inr apart ↦ inl (rw apart refl)
    ];
    freed = λ n. inl refl;
  }

  -- A step that changes neither keys nor the bitmap
  pub kept-Shrunk :
      (tree tree' : Tree ops)
      → tree'.cell ≡ tree.cell
      → tree'.map ≡ tree.map
      → IsGood tree
      → Shrunk tree tree'
  kept-Shrunk tree tree' cells map good = record {
    good = rw map good;
    cells = λ b i. inl (rw cells refl);
    freed = λ n. inl (rw map refl);
  }

  pub mark-Shrunk : (place : ℕ) (v : Bool) → Shrinks (mark ops place v)
  unfolding mark
  mark-Shrunk place v tree good = kept-Shrunk tree (mark ops place v tree) refl refl good

  abbrev free_block : ℕ → Tree ops → Tree ops
  free_block nr tree = record tree { map = gas_free_block ops blocksize_bits sbi tree.map nr }

  free_block-Shrunk : (nr : ℕ) → Shrinks (free_block nr)
  free_block-Shrunk nr tree good =
      elim (Bool-cases (ltb nr sbi.s_data_block_start || leb sbi.s_nblocks nr)) [
        | inl outside ↦
            kept-Shrunk tree (free_block nr tree) refl
              (gas_free_block_outside ops blocksize_bits sbi tree.map good nr (out outside)) good
        | inr inside ↦
            let (change, keeps) =
              gas_free_block-BlockChanged ops blocksize_bits sbi tree.map good nr (ground arith)
                (ground arith) in
            record {
              good = keeps;
              cells = λ b i. inl refl;
              freed = λ n. elim (Bool-cases (n == nr)) [
                | inl e ↦ inr (
                    subst (λ m. block_bit ops bits (free_block nr tree).map m ≡ some false)
                      (sym (==→eq n nr e)) change.here)
                | inr ne ↦ inl (change.others n (==→ne n nr ne))
              ];
            }
      ]
    where
      out :
          (ltb nr sbi.s_data_block_start || leb sbi.s_nblocks nr) ≡ true
          → (nr < sbi.s_data_block_start) ⊎ (sbi.s_nblocks ≤ nr)
      out e = elim (Bool-cases (ltb nr sbi.s_data_block_start)) [
        | inl lt ↦ inl (ground arith)
        | inr ge ↦ inr (ground arith)
      ]

  pub free_range-Shrunk :
      (free : ℕ → Tree ops → Tree ops)
      → ((nr : ℕ) → Shrinks (free nr))
      → (place from n : ℕ) → Shrinks (free_range ops free place from n)
  unfolding free_range
  free_range-Shrunk free each place from zero tree good = Shrunk-refl tree good
  free_range-Shrunk free each place from (suc n) tree good =
      elim (Bool-cases (tree.cell place from == 0)) [
        | inl empty ↦ rw empty (free_range-Shrunk free each place (from + 1) n tree good)
        | inr there ↦
            let stored = store-Shrunk place from tree good in
            let freed = each (tree.cell place from) (store ops place from 0 tree) stored.good in
            rw there (
              Shrunk-trans _ _ _ stored (
                Shrunk-trans _ _ _ freed
                  (free_range-Shrunk free each place (from + 1) n _ freed.good)))
      ]

  module _ (reads : ℕ → Bool) (ptrs : ℕ) where
    pub free_key-Shrunk :
        (depth nr : ℕ) → Shrinks (free_key ops blocksize_bits sbi reads ptrs depth nr)
    unfolding free_key
    free_key-Shrunk zero nr tree good = free_block-Shrunk nr tree good
    free_key-Shrunk (suc depth) nr tree good = elim (Bool-cases (reads nr)) [
      | inr unread ↦ rw unread (Shrunk-refl tree good)
      | inl read ↦
          let range = free_range-Shrunk _ (free_key-Shrunk depth) nr 0 ptrs tree good in
          let marked = mark-Shrunk nr false _ range.good in
          let freed = free_block-Shrunk nr _ marked.good in
          rw read (
            Shrunk-trans _ _ _ range (
              Shrunk-trans _ _ _ marked
                (Shrunk-trans _ _ _ freed (mark-Shrunk 0 true _ freed.good))))
    ]

    pub free_branches-Shrunk :
        (depth place from n : ℕ)
        → Shrinks (free_branches ops blocksize_bits sbi reads ptrs depth place from n)
    unfolding free_branches
    free_branches-Shrunk depth place from n =
        free_range-Shrunk _ (free_key-Shrunk depth) place from n

    clear_ends-Shrunk :
        (n : ℕ) (chain : List Indirect)
        → Shrinks (clear_ends ops blocksize_bits sbi reads ptrs n chain)
    unfolding clear_ends
    clear_ends-Shrunk n [] tree good = Shrunk-refl tree good
    clear_ends-Shrunk n (p ∷ []) tree good = Shrunk-refl tree good
    clear_ends-Shrunk n (p ∷ q ∷ above) tree good =
        let ends =
          free_branches-Shrunk (n - (length above + 2)) p.place (p.index + 1) (ptrs - (p.index + 1))
            tree good in
        let marked = mark-Shrunk p.place true _ ends.good in
        Shrunk-trans _ _ _ ends
          (Shrunk-trans _ _ _ marked (clear_ends-Shrunk n (q ∷ above) _ marked.good))

    pub do_indirects-Shrunk :
        (rounds : ℕ) → Shrinks (do_indirects ops blocksize_bits sbi reads ptrs rounds)
    unfolding do_indirects
    do_indirects-Shrunk zero tree good = Shrunk-refl tree good
    do_indirects-Shrunk (suc rounds) tree good =
        let at = dircount + (depth - 1 - suc rounds) in
        elim (Bool-cases (tree.cell 0 at == 0)) [
          | inl empty ↦ rw empty (do_indirects-Shrunk rounds tree good)
          | inr there ↦
              let stored = store-Shrunk 0 at tree good in
              let marked = mark-Shrunk 0 true _ stored.good in
              let freed =
                free_key-Shrunk (depth - 1 - suc rounds + 1) (tree.cell 0 at) _ marked.good in
              rw there (
                Shrunk-trans _ _ _ stored (
                  Shrunk-trans _ _ _ marked
                    (Shrunk-trans _ _ _ freed (do_indirects-Shrunk rounds _ freed.good))))
        ]

    find_shared-Shrunk :
        (offsets : List ℕ) → Shrinks (λ tree. (find_shared ops reads offsets tree).2)
    unfolding find_shared
    find_shared-Shrunk offsets tree good =
        by_chain (chain_of (get_branch reads (λ _. tree.cell) (shorten offsets)))
      where
        by_top :
            (higher : List Indirect)
            → Shrunk tree (
                (elim higher as (λ _. List Indirect × ℕ × Tree ops) [
                  | [] ↦ ([], 0, tree)
                  | p ∷ above ↦
                      if (length above + 1 == length (shorten offsets)) && ltb 0 (length above)
                      then (record p { index = p.index - 1 } ∷ above, 0, tree)
                      else (p ∷ above, tree.cell p.place p.index, store ops p.place p.index 0 tree)
                ]).2)
        by_top [] = Shrunk-refl tree good
        by_top (p ∷ above) =
            elim (Bool-cases
              ((length above + 1 == length (shorten offsets)) && ltb 0 (length above))) [
                | inl bottom ↦ rw bottom (Shrunk-refl tree good)
                | inr top ↦ rw top (store-Shrunk p.place p.index tree good)
              ]

        by_chain :
            (chain : List Indirect)
            → Shrunk tree (
                (elim chain as (λ _. List Indirect × ℕ × Tree ops) [
                  | [] ↦ ([], 0, tree)
                  | last ∷ rest ↦
                      if last.key == 0 && not (tree.cell last.place last.index == 0)
                      then (last ∷ rest, 0, tree)
                      else elim (climb tree.cell (last ∷ rest)) [
                        | [] ↦ ([], 0, tree)
                        | p ∷ above ↦
                            if (length above + 1 == length (shorten offsets))
                              && ltb 0 (length above)
                            then (record p { index = p.index - 1 } ∷ above, 0, tree)
                            else (
                              p ∷ above,
                              tree.cell p.place p.index,
                              store ops p.place p.index 0 tree,
                            )
                      ]
                ]).2)
        by_chain [] = Shrunk-refl tree good
        by_chain (last ∷ rest) =
            elim (Bool-cases (last.key == 0 && not (tree.cell last.place last.index == 0))) [
              | inl changed ↦ rw changed (Shrunk-refl tree good)
              | inr same ↦ rw same (by_top (climb tree.cell (last ∷ rest)))
            ]

    pub truncate_shared-Shrunk :
        (offsets : List ℕ) → Shrinks (truncate_shared ops blocksize_bits sbi reads ptrs offsets)
    unfolding truncate_shared
    truncate_shared-Shrunk offsets tree good =
        by_top (find_shared ops reads offsets tree) (find_shared-Shrunk offsets tree good)
      where
        by_top :
            (r : List Indirect × ℕ × Tree ops)
            → Shrunk tree r.2
            → Shrunk tree (
                let place : ℕ = elim (r.0) [ [] ↦ 0 | p ∷ above ↦ p.place ] in
                clear_ends ops blocksize_bits sbi reads ptrs (length offsets) r.0 (
                  if r.1 == 0
                  then r.2
                  else free_key ops blocksize_bits sbi reads ptrs
                      (length offsets - length r.0)
                      r.1
                      (mark ops place true r.2)))
        by_top (chain, nr, tree') found = elim (Bool-cases (nr == 0)) [
          | inl empty ↦
              rw empty (
                Shrunk-trans _ _ _ found
                  (clear_ends-Shrunk (length offsets) chain tree' found.good))
          | inr there ↦
              let place : ℕ = elim chain [ [] ↦ 0 | p ∷ above ↦ p.place ] in
              let marked = mark-Shrunk place true tree' found.good in
              let freed = free_key-Shrunk (length offsets - length chain) nr _ marked.good in
              rw there (
                Shrunk-trans _ _ _ found (
                  Shrunk-trans _ _ _ marked (
                    Shrunk-trans _ _ _ freed
                      (clear_ends-Shrunk (length offsets) chain _ freed.good))))
        ]
