-- ===== src/Kern/Branch/Follow.antt =====
-- The keys along a path: a reference for the tree that kern/gas_itree.c keeps.
use mathlib.Core.Path.{subst}
use gas_filesystem.Base.{
  ℕ, ◌≡◌, refl, sym, ◌∙◌, ◌≢◌, ◌⊎◌, inl, inr, ap, arith, false, ◌==◌, ◌&&◌, if◌then◌else◌, List, [],
  ◌∷◌, ◌++◌, Bool-cases, ==→ne,
}
use gas_filesystem.Kern.Branch.{Cells, store_key}

-- The key at the end of a path from place `b`, or 0 where the path breaks off
unfoldable pub follow : Cells → ℕ → List ℕ → ℕ
follow cell b [] = b
follow cell b (o ∷ path) = if cell b o == 0 then 0 else follow cell (cell b o) path

-- A path that is in `w` to its end, or is empty
abbrev pub Reaches : Cells → ℕ → List ℕ → Type 0
Reaches cell b w = (w ≡ []) ⊎ (follow cell b w ≢ 0)

module _ (cell : Cells) where
  pub follow-append :
      (b : ℕ) (u v : List ℕ)
      → Reaches cell b u
      → follow cell b (u ++ v) ≡ follow cell (follow cell b u) v
  unfolding follow
  follow-append b [] v reach = refl
  follow-append b (o ∷ u) v (inl e) = absurd (cc)
  follow-append b (o ∷ u) v (inr ne) = elim (Bool-cases (cell b o == 0)) [
    | inl gone ↦ absurd (ne (rw gone refl))
    | inr there ↦ rw there (follow-append (cell b o) u v (inr (rw (there, follow) at ne)))
  ]

  pub follow-snoc :
      (b : ℕ) (u : List ℕ) (o : ℕ)
      → Reaches cell b u
      → follow cell b (u ++ o ∷ []) ≡ cell (follow cell b u) o
  unfolding follow
  follow-snoc b u o reach = follow-append b u (o ∷ []) reach ∙ ground arith

  pub Reaches-snoc :
      (b : ℕ) (u : List ℕ) (o : ℕ)
      → Reaches cell b u
      → cell (follow cell b u) o ≢ 0
      → Reaches cell b (u ++ o ∷ [])
  Reaches-snoc b u o reach ne = inr λ e. ne (sym (follow-snoc b u o reach) ∙ e)

  pub follow_there :
      (b o : ℕ) (w : List ℕ)
      → (cell b o == 0) ≡ false
      → follow cell b (o ∷ w) ≡ follow cell (cell b o) w
  unfolding follow
  follow_there b o w there = rw there refl

  pub Reaches-cons :
      (b o : ℕ) (w : List ℕ)
      → (cell b o == 0) ≡ false
      → Reaches cell (cell b o) w
      → Reaches cell b (o ∷ w)
  unfolding follow
  Reaches-cons b o w there (inl e) = inr (rw (e, there, follow) (==→ne (cell b o) 0 there))
  Reaches-cons b o w there (inr ne) = inr (rw (there, follow) ne)

-- A part of the path that starts it
abbrev pub Starts : List ℕ → List ℕ → Type 0
Starts w u = (r : List ℕ) × (w ++ r ≡ u)

-- Cells that differ only at places where a path does not come give it the same end.
pub follow-agree :
    (cell cell' : Cells) (b : ℕ) (u : List ℕ)
    → ((w : List ℕ)
        → Starts w u
        → Reaches cell b w
        → (i : ℕ) → cell' (follow cell b w) i ≡ cell (follow cell b w) i)
    → follow cell' b u ≡ follow cell b u
unfolding follow
follow-agree cell cell' b [] same = refl
follow-agree cell cell' b (o ∷ u) same =
    rw (same [] (o ∷ u, refl) (inl refl) o) (elim (Bool-cases (cell b o == 0)) [
      | inl gone ↦ rw gone refl
      | inr there ↦ rw there (
          follow-agree cell cell' (cell b o) u λ w (r, e) reach i.
            subst (λ k. cell' k i ≡ cell k i) (follow_there cell b o w there)
              (same (o ∷ w) (r, ap (λ (x : List ℕ). o ∷ x) e) (Reaches-cons cell b o w there reach)
                i))
    ])

-- The path comes to place `pl` and goes on by `ix` there.
pub record Passes (cell : Cells) (b pl ix : ℕ) (u : List ℕ) : Type 0 where
  pub w : List ℕ
  pub r : List ℕ
  pub parts : w ++ ix ∷ r ≡ u
  pub at_place : follow cell b w ≡ pl
  pub reach : Reaches cell b w

-- A store into an empty cell changes only paths that pass it.
pub follow-store_key :
    (cell : Cells) (pl ix key b : ℕ) (u : List ℕ)
    → cell pl ix ≡ 0
    → Passes cell b pl ix u ⊎ (follow (store_key cell pl ix key) b u ≡ follow cell b u)
unfolding follow store_key
follow-store_key cell pl ix key b [] empty = inr refl
follow-store_key cell pl ix key b (o ∷ u) empty = elim (Bool-cases ((b == pl) && (o == ix))) [
  | inl here ↦ inl (record {
    w = [];
    r = u;
    parts = ground (arith);
    at_place = ground (arith);
    reach = inl refl;
  })
  | inr apart ↦ elim (Bool-cases (cell b o == 0)) [
    | inl gone ↦ inr (rw (apart, gone) refl)
    | inr there ↦ onward apart there (follow-store_key cell pl ix key (cell b o) u empty)
  ]
]
  where
    stored : Cells
    stored = store_key cell pl ix key

    onward :
        ((b == pl) && (o == ix)) ≡ false
        → (cell b o == 0) ≡ false
        → Passes cell (cell b o) pl ix u
          ⊎ (follow (store_key cell pl ix key) (cell b o) u ≡ follow cell (cell b o) u)
        → Passes cell b pl ix (o ∷ u)
          ⊎ (follow (store_key cell pl ix key) b (o ∷ u) ≡ follow cell b (o ∷ u))
    onward apart there (inl p) = inl (record {
      w = o ∷ p.w;
      r = p.r;
      parts = ap (λ (x : List ℕ). o ∷ x) p.parts;
      at_place = follow_there cell b o p.w there ∙ p.at_place;
      reach = Reaches-cons cell b o p.w there p.reach;
    })
    onward apart there (inr e) =
        let same : stored b o ≡ cell b o = rw (apart, store_key) refl in
        inr (
          follow_there stored b o u (rw same there)
          ∙ (ap (λ (k : ℕ). follow stored k u) same ∙ (e ∙ sym (follow_there cell b o u there))))
