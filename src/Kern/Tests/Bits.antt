-- ===== src/Kern/Tests/Bits.antt =====
-- Bit operations on a function, as the parameter of kern/bitmap.c
use gas_filesystem.Base.{
  ℕ, zero, suc, ◌≤◌, ◌<◌, ◌≡◌, refl, ◌∙◌, ap, inl, inr, Bool, true, false, ◌==◌, if◌then◌else◌,
  arith, ltb, ltb→lt, Bool-cases, ==→eq, ==→ne,
}
use gas_filesystem.Kern.BitOps.{BitOps}

unfoldable pub first_zero : (ℕ → Bool) → ℕ → ℕ
first_zero d zero = 0
first_zero d (suc n) = let r = first_zero d n in if ltb r n then r else if d n then suc n else n

module _ (d : ℕ → Bool) where
  pub first_zero_le : (n : ℕ) → first_zero d n ≤ n
  unfolding first_zero
  first_zero_le zero = omega arith
  first_zero_le (suc n) = ground (arith, first_zero_le n)

  pub first_zero_unset : (n : ℕ) → first_zero d n < n → d (first_zero d n) ≡ false
  unfolding first_zero
  first_zero_unset zero lt = absurd (omega arith)
  first_zero_unset (suc n) lt = elim (Bool-cases (ltb (first_zero d n) n)) [
    | inl old ↦ rw old (first_zero_unset n (ltb→lt _ _ old))
    | inr new ↦ elim (Bool-cases (d n)) [
      | inl set ↦ absurd (ground arith)
      | inr unset ↦ rw (new, unset) unset
    ]
  ]

  pub first_zero_below : (n i : ℕ) → i < first_zero d n → d i ≡ true
  unfolding first_zero
  first_zero_below zero i lt = absurd (omega arith)
  first_zero_below (suc n) i lt = elim (Bool-cases (i == n)) [
    | inl e ↦ ap d (==→eq i n e) ∙ last (==→eq i n e)
    | inr ne ↦ first_zero_below n i (ground (arith, first_zero_le n, ==→ne i n ne))
  ]
    where
      last : i ≡ n → d n ≡ true
      last e = elim (Bool-cases (d n)) [ inl set ↦ set | inr unset ↦ absurd (ground arith) ]

abbrev pub function_bits : BitOps
function_bits = record {
  Data = ℕ → Bool;
  test_bit = λ d j. d j;
  find_first_zero_bit = first_zero;
  set_bit = λ i d j. if j == i then true else d j;
  clear_bit = λ i d j. if j == i then false else d j;
  first_zero_within = first_zero_le;
  first_zero_clear = first_zero_unset;
  first_zero_first = first_zero_below;
  test-set = λ i j d. refl;
  test-clear = λ i j d. refl;
}
