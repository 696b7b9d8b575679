-- ===== src/Kern/Branch/Splice.antt =====
-- A new chain in the tree of kern/gas_itree.c: what every path leads to before and after.
use mathlib.Core.Path.{subst}
use gas_filesystem.Base.{
  ℕ, ◌≡◌, ◌≤◌, ◌<◌, refl, sym, ◌∙◌, ◌≢◌, ◌⊎◌, inl, inr, ap, arith, true, false, List, [], ◌∷◌, ◌++◌,
  length, length-append, some, List-cases, ne→==, eq→==,
}
use gas_filesystem.Kern.Types.{GasSbInfo}
use gas_filesystem.Kern.BitOps.{BitOps}
use gas_filesystem.Kern.Bitmap.Blocks.{block_bit, BlockChanged}
use gas_filesystem.Kern.Branch.{Cells, Tree, store_key}
use gas_filesystem.Kern.Branch.Follow.{
  follow, follow_there, Reaches, Passes, follow-append, follow-agree, follow-store_key,
}
use gas_filesystem.Kern.Branch.Alloc.{IsUsed, Kept, Grown}
use gas_filesystem.Kern.Branch.Node.{
  IsNode, IsWhole, IsTree, IsWhole-IsNode, IsNode-Starts, node_bound,
}

store_key_self : (cell : Cells) (pl ix key b : ℕ) → b ≡ pl → store_key cell pl ix key b ix ≡ key
unfolding store_key
store_key_self cell pl ix key b e = rw (eq→== b pl e, eq→== ix ix refl) refl

-- `tree` is before, `mid` has the first new block `top` marked, and `after` all new blocks.
module _ (ops : BitOps) (blocksize_bits : ℕ) (sbi : GasSbInfo) (tree mid after : Tree ops)
    (is_tree : IsTree ops blocksize_bits sbi tree) (super_used : 0 < sbi.s_data_block_start)
    (top : ℕ) (same_cells : (b i : ℕ) → mid.cell b i ≡ tree.cell b i)
    (free : block_bit ops sbi.s_bits_per_block tree.map top ≡ some false)
    (change : BlockChanged ops sbi.s_bits_per_block tree.map top true mid.map)
    (kept : Kept ops blocksize_bits sbi top mid after) where
  abbrev bits : ℕ
  bits = sbi.s_bits_per_block

  pub used_apart : (b : ℕ) → IsUsed ops bits tree.map b → b ≢ top
  used_apart b is e = absurd (cc (is, free, ap (block_bit ops bits tree.map) e))

  pub IsUsed-mid : (b : ℕ) → IsUsed ops bits tree.map b → IsUsed ops bits mid.map b
  IsUsed-mid b is = change.others b (used_apart b is) ∙ is

  zero-IsUsed : IsUsed ops bits tree.map 0
  zero-IsUsed = is_tree.good.metadata 0 super_used

  -- The places on paths to nodes are in use, and keep their keys.
  place-IsUsed :
      (w : List ℕ)
      → (w ≢ [] → IsNode w)
      → Reaches tree.cell 0 w
      → IsUsed ops bits tree.map (follow tree.cell 0 w)
  place-IsUsed [] node reach = unfold follow in zero-IsUsed
  place-IsUsed (k ∷ w) node (inl e) = absurd (cc)
  place-IsUsed (k ∷ w) node (inr ne) = is_tree.marked (k ∷ w) (node (λ z. absurd (cc))) ne

  pub place_kept :
      (w : List ℕ)
      → (w ≢ [] → IsNode w)
      → Reaches tree.cell 0 w
      → (i : ℕ) → after.cell (follow tree.cell 0 w) i ≡ tree.cell (follow tree.cell 0 w) i
  place_kept w node reach i =
      let used = place-IsUsed w node reach in
      kept.same _ (IsUsed-mid _ used) (used_apart _ used) i ∙ same_cells _ i

  pub node_kept : (u : List ℕ) → IsNode u → follow after.cell 0 u ≡ follow tree.cell 0 u
  node_kept u node =
      follow-agree tree.cell after.cell 0 u
        λ w starts reach i. place_kept w (λ ne. IsNode-Starts w u starts ne node) reach i

  -- The cell at which the path to the new block breaks off
  module _ (pre rest : List ℕ) (ix last : ℕ) (whole : IsWhole (pre ++ ix ∷ rest))
      (reach : Reaches tree.cell 0 pre) (empty : tree.cell (follow tree.cell 0 pre) ix ≡ 0)
      (top_nonzero : top ≢ 0) (grown : Grown ops blocksize_bits sbi rest top mid after last) where
    abbrev pub pl : ℕ
    pl = follow tree.cell 0 pre

    abbrev pub spliced : Cells
    spliced = store_key after.cell pl ix top

    path-IsNode : IsNode (pre ++ ix ∷ rest)
    path-IsNode = IsWhole-IsNode _ whole

    pre-IsNode : pre ≢ [] → IsNode pre
    pre-IsNode ne = IsNode-Starts pre _ (ix ∷ rest, refl) ne path-IsNode

    empty_after : after.cell pl ix ≡ 0
    empty_after = place_kept pre pre-IsNode reach ix ∙ empty

    pl-IsUsed : IsUsed ops bits tree.map pl
    pl-IsUsed = place-IsUsed pre pre-IsNode reach

    -- Only one path comes to the place.
    unique :
        (w v : List ℕ)
        → (w ≢ [] → IsNode w)
        → (v ≢ [] → IsNode v)
        → Reaches after.cell 0 w
        → Reaches tree.cell 0 v
        → follow after.cell 0 w ≡ follow tree.cell 0 v
        → w ≡ v
    unique [] [] nw nv rw_ rv e = refl
    unique [] (k ∷ v) nw nv rw_ (inl z) e = absurd (cc)
    unique [] (k ∷ v) nw nv rw_ (inr ne) e = absurd (ne (sym e ∙ (unfold follow in refl)))
    unique (k ∷ w) [] nw nv (inl z) rv e = absurd (cc)
    unique (k ∷ w) [] nw nv (inr ne) rv e = absurd (ne (e ∙ (unfold follow in refl)))
    unique (k ∷ w) (l ∷ v) nw nv rw_ (inl z) e = absurd (cc)
    unique (k ∷ w) (l ∷ v) nw nv rw_ (inr ne) e =
        let node : IsNode (k ∷ w) = nw (λ z. absurd (cc)) in
        let same : follow tree.cell 0 (k ∷ w) ≡ follow tree.cell 0 (l ∷ v) =
          sym (node_kept (k ∷ w) node) ∙ e in
        is_tree.distinct (k ∷ w) (l ∷ v) node (nv (λ z. absurd (cc))) (λ z. ne (sym same ∙ z)) same

    -- A node through the cell lies below it.
    Passes-below :
        (u : List ℕ) → IsNode u → Passes after.cell 0 pl ix u → (r : List ℕ) × (pre ++ ix ∷ r ≡ u)
    Passes-below u node p =
        let same : p.w ≡ pre =
          unique p.w pre (λ ne. IsNode-Starts p.w u (ix ∷ p.r, p.parts) ne node) pre-IsNode p.reach
            reach p.at_place in
        (p.r, ap (λ (w : List ℕ). w ++ ix ∷ p.r) (sym same) ∙ p.parts)

    -- The way to the cell is as before.
    pre_kept : (follow spliced 0 pre ≡ pl) × Reaches spliced 0 pre
    pre_kept = elim (List-cases pre) [
      | inl e ↦
          subst (λ v. (follow spliced 0 v ≡ follow tree.cell 0 v) × Reaches spliced 0 v) (sym e)
            (unfold follow in (refl, inl refl))
      | inr (k, v, e) ↦ nonempty (λ z. absurd (cc (e, z)))
    ]
      where
        nonempty : pre ≢ [] → (follow spliced 0 pre ≡ pl) × Reaches spliced 0 pre
        nonempty ne = elim (follow-store_key after.cell pl ix top 0 pre empty_after) [
          | inr same ↦
              let e : follow spliced 0 pre ≡ pl = same ∙ node_kept pre (pre-IsNode ne) in
              (e, reached e reach)
          | inl p ↦ absurd (longer (Passes-below pre (pre-IsNode ne) p))
        ]
          where
            longer : (r : List ℕ) × (pre ++ ix ∷ r ≡ pre) → ⊥
            longer (r, e) = omega (arith, ap length e, length-append pre (ix ∷ r))

            reached : follow spliced 0 pre ≡ pl → Reaches tree.cell 0 pre → Reaches spliced 0 pre
            reached e (inl z) = inl z
            reached e (inr z) = inr λ y. z (sym e ∙ y)

    -- The new chain does not come back to the cell.
    not_below : (r : List ℕ) → length r ≤ length rest → Passes after.cell top pl ix r → ⊥
    not_below r le p = by_new (grown.new p.w short (nonzero p.w p.reach))
      where
        short : length p.w ≤ length rest
        short = omega (arith, ap length p.parts, length-append p.w (ix ∷ p.r))

        nonzero : (w : List ℕ) → Reaches after.cell top w → follow after.cell top w ≢ 0
        nonzero w (inl e) =
            subst (λ w. follow after.cell top w ≢ 0) (sym e) (unfold follow in top_nonzero)
        nonzero w (inr ne) = ne

        at_top : (w : List ℕ) → w ≡ [] → follow after.cell top w ≡ pl → pl ≡ top
        at_top w e at = sym at ∙ (ap (follow after.cell top) e ∙ (unfold follow in refl))

        by_new :
            (p.w ≡ [])
              ⊎ ((block_bit ops bits mid.map (follow after.cell top p.w) ≡ some false)
                  × IsUsed ops bits after.map (follow after.cell top p.w))
            → ⊥
        by_new (inl e) = used_apart pl pl-IsUsed (at_top p.w e p.at_place)
        by_new (inr (is_free, used)) =
            cc (is_free, IsUsed-mid pl pl-IsUsed, ap (block_bit ops bits mid.map) p.at_place)

    -- Below the cell hangs what hangs below the first new block.
    pub below :
        (r : List ℕ)
        → length r ≤ length rest
        → follow spliced 0 (pre ++ ix ∷ r) ≡ follow after.cell top r
    below r le = elim (follow-store_key after.cell pl ix top top r empty_after) [
      | inl p ↦ absurd (not_below r le p)
      | inr same ↦
          follow-append spliced 0 pre (ix ∷ r) pre_kept.1
          ∙ (step (follow spliced 0 pre) pre_kept.0 ∙ same)
    ]
      where
        step : (b : ℕ) → b ≡ pl → follow spliced b (ix ∷ r) ≡ follow spliced top r
        step b e =
            let cell : spliced b ix ≡ top = store_key_self after.cell pl ix top b e in
            follow_there spliced b ix r (rw cell (ne→== top 0 top_nonzero))
            ∙ ap (λ (k : ℕ). follow spliced k r) cell

    -- What a node of the new tree is: one of the old tree, or one of the new chain, where the old tree
    -- had nothing
    pub data View (u : List ℕ) : Type 0 where
      old : follow spliced 0 u ≡ follow tree.cell 0 u → View u
      new :
          (r : List ℕ)
          → pre ++ ix ∷ r ≡ u
          → length r ≤ length rest
          → follow spliced 0 u ≡ follow after.cell top r
          → follow tree.cell 0 u ≡ 0
          → View u

    nothing_below : (r : List ℕ) → follow tree.cell 0 (pre ++ ix ∷ r) ≡ 0
    unfolding follow
    nothing_below r = follow-append tree.cell 0 pre (ix ∷ r) reach ∙ rw empty refl

    pub view : (u : List ℕ) → IsNode u → View u
    view u node = elim (follow-store_key after.cell pl ix top 0 u empty_after) [
      | inr same ↦ old (same ∙ node_kept u node)
      | inl p ↦ through (Passes-below u node p)
    ]
      where
        through : (r : List ℕ) × (pre ++ ix ∷ r ≡ u) → View u
        through (r, e) =
            let le : length r ≤ length rest =
              node_bound pre ix r rest (subst IsNode (sym e) node) whole in
            new r e le (ap (follow spliced 0) (sym e) ∙ below r le)
              (ap (follow tree.cell 0) (sym e) ∙ nothing_below r)
