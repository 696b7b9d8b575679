-- ===== src/Kern/Branch/Verified.antt =====
-- `get_branch` of kern/gas_itree.c while others change the tree
use gas_filesystem.Base.{
  ℕ, ◌+◌, ◌≡◌, refl, inl, inr, arith, Bool, true, ◌==◌, List, [], ◌∷◌, none, some, Bool-cases,
  eq→==,
}
use gas_filesystem.Kern.Branch.{
  Cells, Indirect, add_chain, verify_chain, Branch, complete, partial, branch_loop, get_branch,
}

-- All keys of the chain stood in the tree at one and the same time.
abbrev pub Together : (ℕ → Cells) → List Indirect → Type 0
Together view chain = (level : ℕ) × (verify_chain (view level) chain ≡ true)

-- What a branch says of the tree unless it reports an error
abbrev pub Verified : (ℕ → Cells) → Branch → Type 0
Verified view (complete chain) = Together view chain
Verified view (partial none chain) = Together view chain
Verified view (partial (some e) chain) = Unit {0}

module _ (reads : ℕ → Bool) (view : ℕ → Cells) where
  branch_loop-Verified :
      (level : ℕ) (offsets : List ℕ) (p : Indirect) (above : List Indirect)
      → Together view (p ∷ above)
      → Verified view (branch_loop reads view level offsets p above)
  unfolding branch_loop
  branch_loop-Verified level [] p above together = together
  branch_loop-Verified level (o ∷ offsets) p above together = elim (Bool-cases (reads p.key)) [
    | inr unread ↦ rw unread tt
    | inl read ↦ rw read (elim (Bool-cases (verify_chain (view level) (p ∷ above))) [
      | inr changed ↦ rw changed tt
      | inl same ↦
          let now : verify_chain (view level) (add_chain (view level) p.key o ∷ p ∷ above) ≡ true =
            ground (arith, same, eq→== (view level p.key o) (view level p.key o) refl) in
          rw same (elim (Bool-cases (view level p.key o == 0)) [
            | inl empty ↦ rw empty (level, now)
            | inr there ↦ rw there (
                branch_loop-Verified (level + 1) offsets (add_chain (view level) p.key o)
                  (p ∷ above) (level, now))
          ])
    ])
  ]

  -- Whatever others do to the tree between the reads, if `get_branch` returns NULL or stops at an
  -- empty key without an error, then all keys of the chain that it filled in stood in the tree at
  -- one of the times at which it read.
  pub get_branch-Verified : (offsets : List ℕ) → Verified view (get_branch reads view offsets)
  unfolding get_branch verify_chain
  get_branch-Verified [] = (0, refl)
  get_branch-Verified (o ∷ offsets) =
      let now : verify_chain (view 0) (add_chain (view 0) 0 o ∷ []) ≡ true =
        ground (arith, eq→== (view 0 0 o) (view 0 0 o) refl) in
      elim (Bool-cases (view 0 0 o == 0)) [
        | inl empty ↦ rw (empty, get_branch) (0, now)
        | inr there ↦
            rw (there, get_branch)
              (branch_loop-Verified 1 offsets (add_chain (view 0) 0 o) [] (0, now))
      ]
