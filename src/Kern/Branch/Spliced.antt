-- ===== src/Kern/Branch/Spliced.antt =====
-- The tree of kern/gas_itree.c with a new chain: it is a tree, and only one block of the file is new.
use mathlib.Core.Path.{subst}
use mathlib.Core.List.{append-nil}
use gas_filesystem.Base.{
  ℕ, ◌≡◌, ◌≤◌, ◌<◌, refl, sym, ◌∙◌, ◌≢◌, ◌⊎◌, inl, inr, ap, arith, true, false, ◌==◌, List, [], ◌∷◌,
  ◌++◌, length, length-append, some, Bool-cases, ==→eq, ==→ne,
}
use gas_filesystem.Kern.Types.{GasSbInfo}
use gas_filesystem.Kern.BitOps.{BitOps}
use gas_filesystem.Kern.Bitmap.Blocks.{block_bit, BlockChanged}
use gas_filesystem.Kern.Branch.{Cells, Tree, store_key}
use gas_filesystem.Kern.Branch.Follow.{follow, Reaches, Starts}
use gas_filesystem.Kern.Branch.Alloc.{IsUsed, Kept, Grown}
use gas_filesystem.Kern.Branch.Node.{IsNode, IsWhole, IsTree, IsWhole-IsNode, node_bound}
use gas_filesystem.Kern.Branch.Splice.{View, old, new, view, below, used_apart, IsUsed-mid}

module _ (ops : BitOps) (blocksize_bits : ℕ) (sbi : GasSbInfo) (tree mid after : Tree ops)
    (is_tree : IsTree ops blocksize_bits sbi tree) (super_used : 0 < sbi.s_data_block_start)
    (top : ℕ) (same_cells : (b i : ℕ) → mid.cell b i ≡ tree.cell b i)
    (free : block_bit ops sbi.s_bits_per_block tree.map top ≡ some false)
    (change : BlockChanged ops sbi.s_bits_per_block tree.map top true mid.map)
    (kept : Kept ops blocksize_bits sbi top mid after) (pre rest : List ℕ) (ix last : ℕ)
    (whole : IsWhole (pre ++ ix ∷ rest)) (reach : Reaches tree.cell 0 pre)
    (empty : tree.cell (follow tree.cell 0 pre) ix ≡ 0) (top_nonzero : top ≢ 0)
    (grown : Grown ops blocksize_bits sbi rest top mid after last) where
  abbrev spliced : Cells
  spliced = store_key after.cell (follow tree.cell 0 pre) ix top

  abbrev bits : ℕ
  bits = sbi.s_bits_per_block

  abbrev Viewed : List ℕ → Type 0
  Viewed =
      View ops blocksize_bits sbi tree mid after is_tree super_used top same_cells free change kept
        pre rest ix last whole reach empty top_nonzero grown

  viewed : (u : List ℕ) → IsNode u → Viewed u
  viewed =
      view ops blocksize_bits sbi tree mid after is_tree super_used top same_cells free change kept
        pre rest ix last whole reach empty top_nonzero grown

  pub new_end : follow spliced 0 (pre ++ ix ∷ rest) ≡ last
  new_end =
      below ops blocksize_bits sbi tree mid after is_tree super_used top same_cells free change kept
        pre rest ix last whole reach empty top_nonzero grown rest (omega arith)
      ∙ grown.at_end

  same_length : (r s : List ℕ) → Starts r s → length s ≤ length r → r ≡ s
  same_length r s (t, e) le = over t e
    where
      over : (t : List ℕ) → r ++ t ≡ s → r ≡ s
      over [] e = sym (append-nil r) ∙ e
      over (k ∷ t) e = absurd (omega (arith, ap length e, length-append r (k ∷ t)))

  -- Every other block of the file is where it was.
  pub others_kept :
      (q : List ℕ) → IsWhole q → q ≢ pre ++ ix ∷ rest → follow spliced 0 q ≡ follow tree.cell 0 q
  others_kept q is ne = by_view (viewed q (IsWhole-IsNode q is))
    where
      whole_length : (r : List ℕ) → pre ++ ix ∷ r ≡ q → length rest ≤ length r
      whole_length r e =
          node_bound pre ix rest r (IsWhole-IsNode _ whole) (subst IsWhole (sym e) is)

      by_view : Viewed q → follow spliced 0 q ≡ follow tree.cell 0 q
      by_view (old e) = e
      by_view (new r e le now before) = elim (Bool-cases (follow after.cell top r == 0)) [
        | inl gone ↦ now ∙ (==→eq _ 0 gone ∙ sym before)
        | inr there ↦
            let starts = grown.on_path r le (==→ne _ 0 there) in
            absurd (
              ne (
                sym e
                ∙ ap (λ (r : List ℕ). pre ++ ix ∷ r)
                    (same_length r rest starts (whole_length r e))))
      ]

  -- Where a block of the new tree is marked, and whether it was free before
  marked_after :
      (u : List ℕ)
      → IsNode u
      → follow spliced 0 u ≢ 0
      → IsUsed ops bits after.map (follow spliced 0 u)
  marked_after u node ne = by_view (viewed u node)
    where
      by_view : Viewed u → IsUsed ops bits after.map (follow spliced 0 u)
      by_view (old e) = rw e (kept.used _ (IsUsed-mid' _ (is_tree.marked u node (λ z. ne (e ∙ z)))))
        where
          IsUsed-mid' : (b : ℕ) → IsUsed ops bits tree.map b → IsUsed ops bits mid.map b
          IsUsed-mid' b is =
              IsUsed-mid ops blocksize_bits sbi tree mid after is_tree super_used top same_cells
                free change kept b is
      by_view (new r e le now before) = rw now (by_new r (grown.new r le (λ z. ne (now ∙ z))))
        where
          by_new :
              (r : List ℕ)
              → (r ≡ [])
                ⊎ ((block_bit ops bits mid.map (follow after.cell top r) ≡ some false)
                    × IsUsed ops bits after.map (follow after.cell top r))
              → IsUsed ops bits after.map (follow after.cell top r)
          by_new r (inl e) =
              subst (λ r. IsUsed ops bits after.map (follow after.cell top r)) (sym e)
                (unfold follow in (kept.used top change.here))
          by_new r (inr (is, used)) = used

  -- No block of the old tree is in the new chain.
  clash :
      (b : ℕ) (r : List ℕ)
      → IsUsed ops bits tree.map b
      → length r ≤ length rest
      → follow after.cell top r ≡ b
      → b ≢ 0
      → ⊥
  clash b r used le e ne = by_new r e (grown.new r le (λ z. ne (sym e ∙ z)))
    where
      apart : b ≢ top
      apart =
          used_apart ops blocksize_bits sbi tree mid after is_tree super_used top same_cells free
            change kept b used

      in_mid : IsUsed ops bits mid.map b
      in_mid =
          IsUsed-mid ops blocksize_bits sbi tree mid after is_tree super_used top same_cells free
            change kept b used

      by_new :
          (r : List ℕ)
          → follow after.cell top r ≡ b
          → (r ≡ [])
            ⊎ ((block_bit ops bits mid.map (follow after.cell top r) ≡ some false)
                × IsUsed ops bits after.map (follow after.cell top r))
          → ⊥
      by_new r e (inl z) = apart (sym e ∙ (ap (follow after.cell top) z ∙ (unfold follow in refl)))
      by_new r e (inr (is, _)) = cc (is, in_mid, ap (block_bit ops bits mid.map) e)

  distinct_after :
      (u v : List ℕ)
      → IsNode u
      → IsNode v
      → follow spliced 0 u ≢ 0
      → follow spliced 0 u ≡ follow spliced 0 v
      → u ≡ v
  distinct_after u v nu nv ne e = by_views (viewed u nu) (viewed v nv)
    where
      by_views : Viewed u → Viewed v → u ≡ v
      by_views (old a) (old b) = is_tree.distinct u v nu nv (λ z. ne (a ∙ z)) (sym a ∙ (e ∙ b))
      by_views (old a) (new s es le now before) = absurd (
          clash _ s (is_tree.marked u nu (λ z. ne (a ∙ z))) le (sym now ∙ (sym e ∙ a))
            (λ z. ne (a ∙ z)))
      by_views (new r er le now before) (old b) = absurd (
          clash _ r (is_tree.marked v nv (λ z. ne (e ∙ (b ∙ z)))) le (sym now ∙ (e ∙ b))
            (λ z. ne (e ∙ (b ∙ z))))
      by_views (new r er lr now_r before_r) (new s es ls now_s before_s) =
          let same : r ≡ s =
            grown.distinct r s lr ls (λ z. ne (now_r ∙ z)) (sym now_r ∙ (e ∙ now_s)) in
          sym er ∙ (ap (λ (r : List ℕ). pre ++ ix ∷ r) same ∙ es)

  -- A tree with these cells and this bitmap
  pub spliced-IsTree :
      (new_tree : Tree ops)
      → new_tree.cell ≡ spliced
      → new_tree.map ≡ after.map
      → IsTree ops blocksize_bits sbi new_tree
  spliced-IsTree new_tree cells maps = record {
    good = rw maps kept.good;
    marked = rw (cells, maps) marked_after;
    distinct = rw cells distinct_after;
  }
