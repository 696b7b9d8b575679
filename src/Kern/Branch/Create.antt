-- ===== src/Kern/Branch/Create.antt =====
-- `gas_get_block` of kern/gas_itree.c with `create`, when nobody else changes the tree
use mathlib.Core.Path.{subst}
use mathlib.Core.List.{append_assoc, append-nil}
use gas_filesystem.Base.{
  ℕ, suc, ◌+◌, ◌≡◌, ◌<◌, refl, sym, ◌∙◌, ◌≢◌, ap, arith, Bool, true, false, ◌==◌, if◌then◌else◌,
  List, [], ◌∷◌, ◌++◌, length, drop, Option, none, some, ne→==,
}
use gas_filesystem.Kern.Types.{GasSbInfo, Errno, enospc}
use gas_filesystem.Kern.BitOps.{BitOps}
use gas_filesystem.Kern.Bitmap.{Bitmap, gas_new_block}
use gas_filesystem.Kern.Bitmap.Blocks.{
  block_bit, BlockChanged, NewBlock, allocated, no_space, gas_new_block-NewBlock,
}
use gas_filesystem.Kern.Branch.{
  Cells, Indirect, Tree, Mapping, mapped, failed, quiet, store_key, verify_chain, mark, forget,
  free_keys, alloc_loop, alloc_branch, splice_branch, create_block, top_key,
}
use gas_filesystem.Kern.Branch.Follow.{follow, follow-append, Reaches, Starts}
use gas_filesystem.Kern.Branch.Lookup.{IsStable}
use gas_filesystem.Kern.Branch.Loop.{Allocated, alloc_loop-Allocated}
use gas_filesystem.Kern.Branch.Node.{IsWhole, IsTree, IsWhole-IsNode, IsNode-Starts}
use gas_filesystem.Kern.Branch.Splice.{place_kept, node_kept}
use gas_filesystem.Kern.Branch.Spliced.{new_end, others_kept, spliced-IsTree}

drop-append :
    (pre : List ℕ) (ix : ℕ) (rest : List ℕ) → drop (length pre + 1) (pre ++ ix ∷ rest) ≡ rest
drop-append [] ix rest = refl
drop-append (k ∷ pre) ix rest =
    let e : suc (length pre) + 1 ≡ suc (length pre + 1) = omega arith in
    rw e (drop-append pre ix rest)

module _ (ops : BitOps) (blocksize_bits : ℕ) (sbi : GasSbInfo) where
  free_keys-cell :
      (got : List Indirect) (t : Tree ops) → (free_keys ops blocksize_bits sbi got t).cell ≡ t.cell
  unfolding free_keys
  free_keys-cell [] t = refl
  free_keys-cell (p ∷ above) t = free_keys-cell above t

  forget-cell :
      (got : List Indirect) (t : Tree ops) → (forget ops blocksize_bits sbi got t).cell ≡ t.cell
  unfolding forget mark
  forget-cell [] t = refl
  forget-cell (p ∷ []) t = refl
  forget-cell (p ∷ q ∷ above) t = forget-cell (q ∷ above) t

module _ (ops : BitOps) (blocksize_bits : ℕ) (sbi : GasSbInfo)
    (super_used : 0 < sbi.s_data_block_start) (now : ℕ) (path : List ℕ) (whole : IsWhole path)
    (tree : Tree ops) (is_tree : IsTree ops blocksize_bits sbi tree) where
  abbrev bits : ℕ
  bits = sbi.s_bits_per_block

  abbrev Answer : Type 0
  Answer = Option (Mapping ops blocksize_bits sbi × Tree ops)

  -- What `gas_get_block` does with the block of a path: it is there, it is added, or there is no space.
  pub data Created : Answer → Type 0 where
    present :
        follow tree.cell 0 path ≢ 0 → Created (some (mapped (follow tree.cell 0 path) false, tree))
    added :
        (nr : ℕ) (tree' : Tree ops)
        → follow tree.cell 0 path ≡ 0
        → follow tree'.cell 0 path ≡ nr
        → nr ≢ 0
        → ((q : List ℕ) → IsWhole q → q ≢ path → follow tree'.cell 0 q ≡ follow tree.cell 0 q)
        → IsTree ops blocksize_bits sbi tree'
        → Created (some (mapped nr true, tree'))
    no_room :
        (tree' : Tree ops)
        → follow tree.cell 0 path ≡ 0
        → ((q : List ℕ) → IsWhole q → follow tree'.cell 0 q ≡ follow tree.cell 0 q)
        → Created (some (failed enospc, tree'))

  -- The steps of `create_block` behind the first new block, for what `gas_new_block` returns
  abbrev mid : Option Errno × ℕ × Bitmap ops → Tree ops
  mid r = record tree { map = r.2 }

  abbrev chosen :
      (r : Option Errno × ℕ × Bitmap ops)
      → Bool × List Indirect × Tree ops
      → Option Errno × List Indirect × Tree ops
  chosen r a = if r.1 == 0 then (some enospc, [], mid r) else if a.0 then (none, a.1, a.2) else (
    some enospc,
    a.1,
    free_keys ops blocksize_bits sbi a.1 (forget ops blocksize_bits sbi a.1 a.2),
  )

  abbrev given :
      (Tree ops → Answer)
      → Option Errno × List Indirect × Tree ops
      → Option Errno × Tree ops
      → Answer
  given again x s = elim (x.0) [
    | some e ↦ some (failed e, x.2)
    | none ↦ elim (s.0) [
      | some _ ↦ again s.1
      | none ↦ some (mapped (top_key ops blocksize_bits sbi x.1) true, s.1)
    ]
  ]

  abbrev finish :
      (above : List Indirect)
      → Indirect
      → (Tree ops → Answer)
      → Option Errno × List Indirect × Tree ops
      → Answer
  finish above first again x =
      given again x (splice_branch ops blocksize_bits sbi now above first x.1 x.2)

  abbrev spliced_tree : Indirect → Tree ops → Tree ops
  spliced_tree first t = mark ops 0 true (
      mark ops first.place true
        (record t { cell = store_key t.cell first.place first.index first.key; i_ctime = now }))

  splice_ok :
      (above : List Indirect) (first : Indirect) (got : List Indirect) (t : Tree ops)
      → verify_chain t.cell above ≡ true
      → t.cell first.place first.index ≡ 0
      → splice_branch ops blocksize_bits sbi now above first got t ≡ (none, spliced_tree first t)
  unfolding splice_branch
  splice_ok above first got t verified vacant = rw (verified, vacant) refl

  spliced_cells :
      (first : Indirect) (t : Tree ops)
      → ((spliced_tree first t).cell ≡ store_key t.cell first.place first.index first.key)
        × ((spliced_tree first t).map ≡ t.map)
  unfolding mark
  spliced_cells first t = (refl, refl)

  module _ (p : Indirect) (above : List Indirect) (pre rest : List ℕ)
      (parts : pre ++ p.index ∷ rest ≡ path) (place : p.place ≡ follow tree.cell 0 pre)
      (reach : Reaches tree.cell 0 pre) (empty : tree.cell p.place p.index ≡ 0)
      (stable : IsStable tree.cell pre above) (again : Tree ops → Answer) where
    absent : follow tree.cell 0 path ≡ 0
    unfolding follow
    absent =
        ap (follow tree.cell 0) (sym parts)
        ∙ (follow-append tree.cell 0 pre (p.index ∷ rest) reach
            ∙ at_empty (follow tree.cell 0 pre) (sym place))
      where
        at_empty : (b : ℕ) → b ≡ p.place → follow tree.cell b (p.index ∷ rest) ≡ 0
        at_empty b e = rw (e, empty) refl

    -- The loop has run from the first new block `top`.
    by_loop :
        (top : ℕ) (map' : Bitmap ops) (a : Bool × List Indirect × Tree ops)
        → block_bit ops bits tree.map top ≡ some false
        → BlockChanged ops bits tree.map top true map'
        → top ≢ 0
        → Allocated ops blocksize_bits sbi super_used rest top (mid (none, top, map')) a
        → Created (finish above (record p { key = top }) again (chosen (none, top, map') a))
    by_loop top map' (false, got, after) free change ne alloc = rw (ne→== top 0 ne) (
        no_room _ absent λ q is.
          ap (λ (c : Cells). follow c 0 q)
            (free_keys-cell ops blocksize_bits sbi got (forget ops blocksize_bits sbi got after)
              ∙ forget-cell ops blocksize_bits sbi got after)
          ∙ node_kept ops blocksize_bits sbi tree (mid (none, top, map')) after is_tree super_used
              top (λ b i. refl) free change alloc.kept q (IsWhole-IsNode q is))
    by_loop top map' (true, got, after) free change ne alloc = rw (ne→== top 0 ne) (
        subst (λ s. Created (given again (none, got, after) s))
          (sym (splice_ok above (record p { key = top }) got after verified vacant))
          (added (top_key ops blocksize_bits sbi got) _ absent
            (ap (λ (c : Cells). follow c 0 path) cells
              ∙ (ap (follow new_cells 0) (sym parts)
                  ∙ new_end ops blocksize_bits sbi tree before after is_tree super_used top
                      (λ b i. refl) free change alloc.kept pre rest p.index _ whole' reach empty' ne
                      (alloc.grown refl)))
            ((alloc.grown refl).nonzero)
            (λ q is q_ne.
              ap (λ (c : Cells). follow c 0 q) cells
              ∙ others_kept ops blocksize_bits sbi tree before after is_tree super_used top
                  (λ b i. refl) free change alloc.kept pre rest p.index _ whole' reach empty' ne
                  (alloc.grown refl) q is (λ e. q_ne (e ∙ parts)))
            (spliced-IsTree ops blocksize_bits sbi tree before after is_tree super_used top
              (λ b i. refl) free change alloc.kept pre rest p.index _ whole' reach empty' ne
              (alloc.grown refl) _ cells maps)))
      where
        before : Tree ops
        before = mid (none, top, map')

        whole' : IsWhole (pre ++ p.index ∷ rest)
        whole' = subst IsWhole (sym parts) whole

        empty' : tree.cell (follow tree.cell 0 pre) p.index ≡ 0
        empty' = subst (λ b. tree.cell b p.index ≡ 0) place empty

        new_cells : Cells
        new_cells = store_key after.cell (follow tree.cell 0 pre) p.index top

        longer : (w r : List ℕ) → w ++ r ≡ pre → Starts w path
        longer w r e = (
          r ++ p.index ∷ rest,
          sym (append_assoc w r (p.index ∷ rest))
              ∙ (ap (λ (x : List ℕ). x ++ p.index ∷ rest) e ∙ parts),
        )

        kept_at :
            (w : List ℕ)
            → Starts w pre
            → Reaches tree.cell 0 w
            → (i : ℕ) → after.cell (follow tree.cell 0 w) i ≡ tree.cell (follow tree.cell 0 w) i
        kept_at w (r, e) reaches i =
            place_kept ops blocksize_bits sbi tree before after is_tree super_used top (λ b i. refl)
              free change alloc.kept w
              (λ w_ne. IsNode-Starts w _ (longer w r e) w_ne (IsWhole-IsNode path whole)) reaches i

        verified : verify_chain after.cell above ≡ true
        verified = stable after.cell kept_at

        vacant : after.cell p.place p.index ≡ 0
        vacant =
            subst (λ (b : ℕ). after.cell b p.index ≡ 0) (sym place)
              (kept_at pre ([], append-nil pre) reach p.index ∙ empty')

        cells : (spliced_tree (record p { key = top }) after).cell ≡ new_cells
        cells =
            (spliced_cells (record p { key = top }) after).0
            ∙ ap (λ (b : ℕ). store_key after.cell b p.index top) place

        maps : (spliced_tree (record p { key = top }) after).map ≡ after.map
        maps = (spliced_cells (record p { key = top }) after).1

    by_block :
        (r : Option Errno × ℕ × Bitmap ops)
        → NewBlock ops blocksize_bits sbi tree.map is_tree.good r
        → Created (
            finish above
              (record p { key = r.1 })
              again
              (chosen r
                (alloc_loop ops blocksize_bits sbi rest r.1 (record p { key = r.1 } ∷ []) (mid r))))
    by_block r (no_space full) = no_room _ absent (λ q is. refl)
    by_block r (allocated {n = top} {map' = map'} ge lt free change keeps) =
        let ne : top ≢ 0 = λ e. omega (arith, ge, super_used, e) in
        by_loop top map' _ free change ne (
          alloc_loop-Allocated ops blocksize_bits sbi super_used rest top
            (record p { key = top } ∷ []) (mid (none, top, map')) keeps change.here ne refl)

    behind : length above ≡ length pre → drop (length above + 1) path ≡ rest
    behind len = rw (len, sym parts) (drop-append pre p.index rest)

    unfolded :
        create_block ops blocksize_bits sbi now
          (quiet ops blocksize_bits sbi)
          path
          p
          above
          again
          tree
        ≡ finish above
            (record p { key = (gas_new_block ops sbi tree.map).1 })
            again
            (chosen (gas_new_block ops sbi tree.map) (
              alloc_loop ops blocksize_bits sbi
                (drop (length above + 1) path)
                (gas_new_block ops sbi tree.map).1
                (record p { key = (gas_new_block ops sbi tree.map).1 } ∷ [])
                (mid (gas_new_block ops sbi tree.map))))
    unfolding create_block alloc_branch
    unfolded = refl

    pub create_block-Created :
        length above ≡ length pre
        → Created (
            create_block ops blocksize_bits sbi now
              (quiet ops blocksize_bits sbi)
              path
              p
              above
              again
              tree)
    create_block-Created len = rw unfolded (
        rw (behind len)
          (by_block _ (gas_new_block-NewBlock ops blocksize_bits sbi tree.map is_tree.good)))
