-- ===== src/Kern/Branch/Lookup.antt =====
-- `get_branch` of kern/gas_itree.c on a tree that does not change meanwhile
use mathlib.Core.Path.{subst}
use mathlib.Core.List.{append_assoc, append-nil}
use gas_filesystem.Base.{
  ℕ, ◌+◌, ◌≡◌, refl, sym, ◌∙◌, ◌≢◌, inl, inr, ap, arith, Bool, true, ◌==◌, List, [], ◌∷◌, ◌++◌,
  length, length-append, none, Bool-cases, ==→eq, ==→ne, eq→==,
}
use gas_filesystem.Kern.Branch.{
  Cells, Indirect, add_chain, verify_chain, Branch, complete, partial, branch_loop, get_branch,
}
use gas_filesystem.Kern.Branch.Follow.{follow, Reaches, Starts, follow-snoc}

-- The chain is verified in all cells that agree on the way to the end of a path.
abbrev pub IsStable : Cells → List ℕ → List Indirect → Type 0
IsStable cell pre chain =
    (cell' : Cells)
    → ((w : List ℕ)
        → Starts w pre
        → Reaches cell 0 w
        → (i : ℕ) → cell' (follow cell 0 w) i ≡ cell (follow cell 0 w) i)
    → verify_chain cell' chain ≡ true

IsStable-snoc :
    (cell : Cells) (pre : List ℕ) (o : ℕ) (p : Indirect) (chain : List Indirect)
    → p.place ≡ follow cell 0 pre
    → p.key ≡ cell p.place p.index
    → Reaches cell 0 pre
    → IsStable cell pre chain
    → IsStable cell (pre ++ o ∷ []) (p ∷ chain)
unfolding verify_chain
IsStable-snoc cell pre o p chain place key reach stable = λ cell' same.
    let here : cell' p.place p.index ≡ cell p.place p.index =
      subst (λ (b : ℕ). cell' b p.index ≡ cell b p.index) (sym place)
        (same pre (o ∷ [], refl) reach p.index) in
    let rest : verify_chain cell' chain ≡ true =
      stable cell' λ w starts reaches i. same w (longer w starts) reaches i in
    ground (arith, rest, eq→== p.key (cell' p.place p.index) (key ∙ sym here))
  where
    longer : (w : List ℕ) → Starts w pre → Starts w (pre ++ o ∷ [])
    longer w (r, e) =
        (r ++ o ∷ [], sym (append_assoc w r (o ∷ [])) ∙ ap (λ (x : List ℕ). x ++ o ∷ []) e)

-- What `get_branch` finds: the key at the end of the path, or the first empty cell on it.
pub data Looked (cell : Cells) (path : List ℕ) : Branch → Type 0 where
  found :
      (p : Indirect) (above : List Indirect)
      → p.key ≡ follow cell 0 path
      → p.key ≢ 0
      → Looked cell path (complete (p ∷ above))
  missing :
      (p : Indirect) (above : List Indirect) (pre rest : List ℕ)
      → pre ++ p.index ∷ rest ≡ path
      → length above ≡ length pre
      → p.place ≡ follow cell 0 pre
      → Reaches cell 0 pre
      → cell p.place p.index ≡ 0
      → IsStable cell pre above
      → Looked cell path (partial none (p ∷ above))

module _ (reads : ℕ → Bool) (cell : Cells) (all_read : (b : ℕ) → reads b ≡ true) where
  branch_loop-Looked :
      (level : ℕ) (offsets pre : List ℕ) (p : Indirect) (above : List Indirect)
      → verify_chain cell (p ∷ above) ≡ true
      → p.key ≡ follow cell 0 pre
      → p.key ≢ 0
      → length above + 1 ≡ length pre
      → IsStable cell pre (p ∷ above)
      → Looked cell (pre ++ offsets) (branch_loop reads (λ _. cell) level offsets p above)
  unfolding branch_loop
  branch_loop-Looked level [] pre p above verified at_end ne len stable =
      subst (λ path. Looked cell path (complete (p ∷ above))) (sym (append-nil pre))
        (found p above at_end ne)
  branch_loop-Looked level (o ∷ offsets) pre p above verified at_end ne len stable =
      rw (all_read p.key, verified)
        (elim (Bool-cases (cell p.key o == 0)) [
          | inl empty ↦ rw empty (
              missing (add_chain cell p.key o) (p ∷ above) pre offsets refl (omega arith) at_end
                (inr λ e. ne (at_end ∙ e)) (==→eq (cell p.key o) 0 empty) stable)
          | inr there ↦ rw there (
              subst
                (λ path. Looked cell path (
                  branch_loop reads (λ _. cell) (level + 1) offsets (add_chain cell p.key o)
                    (p ∷ above)))
                (append_assoc pre (o ∷ []) offsets)
                (branch_loop-Looked (level + 1) offsets (pre ++ o ∷ []) (add_chain cell p.key o)
                  (p ∷ above) (ground (arith, verified, eq→== (cell p.key o) (cell p.key o) refl))
                  (sym (
                    follow-snoc cell 0 pre o (inr λ e. ne (at_end ∙ e))
                    ∙ ap (λ (k : ℕ). cell k o) (sym at_end)))
                  (==→ne (cell p.key o) 0 there) (omega (arith, length-append pre (o ∷ [])))
                  (IsStable-snoc cell pre o (add_chain cell p.key o) (p ∷ above) at_end refl
                    (inr λ e. ne (at_end ∙ e)) stable)))
        ])

  pub get_branch-Looked :
      (o : ℕ) (offsets : List ℕ)
      → Looked cell (o ∷ offsets) (get_branch reads (λ _. cell) (o ∷ offsets))
  unfolding get_branch verify_chain follow
  get_branch-Looked o offsets = elim (Bool-cases (cell 0 o == 0)) [
    | inl empty ↦
        rw (empty, get_branch)
          (missing (add_chain cell 0 o) [] [] offsets refl refl refl (inl refl)
            (==→eq (cell 0 o) 0 empty) (λ cell' same. refl))
    | inr there ↦
        rw (there, get_branch)
          (branch_loop-Looked 1 offsets (o ∷ []) (add_chain cell 0 o) []
            (ground (arith, eq→== (cell 0 o) (cell 0 o) refl))
            (sym (follow-snoc cell 0 [] o (inl refl))) (==→ne (cell 0 o) 0 there) (omega arith)
            (IsStable-snoc cell [] o (add_chain cell 0 o) [] refl refl (inl refl)
              (λ cell' same. refl)))
  ]
