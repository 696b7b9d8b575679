-- ===== src/Makefs/Bitmap/Ffs.antt =====
-- makefs/bitmap.c: `__ffs`, stage by stage
use Prim.Native.Nat.{bit_and}
use native.Mathlib.Nat.{mod-lt, one-le-pow}
use gas_filesystem.Base.{
  ℕ, zero, suc, ◌+◌, ◌-◌, ◌%◌, ◌^◌, ◌≤◌, ◌<◌, ◌≡◌, sym, ◌∙◌, ◌≢◌, inl, inr, true, false, ◌==◌,
  if◌then◌else◌, arith, Bool-cases, ltb, ltb→le, ◌↔◌, ap, ==→eq, ==→ne, ltb→lt,
}
use gas_filesystem.Base.Bits.{
  test_bit, test_bit-mod, test_bit-shr, test_bit-zero, and-mask, eq_zero_of_bits, same_bit,
}
use gas_filesystem.Makefs.Bitmap.{ffs_stage, ffs, shr_64}

-- Bits below `k` are all clear.
abbrev Clear : ℕ → ℕ → Type 0
Clear k w = (i : ℕ) → i < k → test_bit w i ≡ false

-- What the stages keep: `num` clear bits of the word were skipped, and of the next `k` one is set.
record Skipped (word k : ℕ) (s : ℕ × ℕ) : Type 0 where
  same : (i : ℕ) → test_bit s.0 i ≡ test_bit word (i + s.1)
  below : Clear s.1 word
  left : s.1 + k ≤ 64
  some_set : ¬ Clear k s.0

Clear-iff_mod : (k w : ℕ) → (w % 2 ^ k ≡ 0) ↔ Clear k w
Clear-iff_mod k w = (to, from)
  where
    to : w % 2 ^ k ≡ 0 → Clear k w
    to e i h = ground (arith, test_bit-mod w k i, same_bit (w % 2 ^ k) 0 i e, test_bit-zero i)

    from : Clear k w → w % 2 ^ k ≡ 0
    from clear =
        eq_zero_of_bits k (w % 2 ^ k) (mod-lt w (one-le-pow k 2 (omega arith)))
          λ i h. ground (arith, test_bit-mod w k i, clear i h)

-- One stage halves the window that holds a set bit.
stage-Skipped : (word k : ℕ) (s : ℕ × ℕ) → Skipped word (k + k) s → Skipped word k (ffs_stage k s)
unfolding ffs_stage
stage-Skipped word k (w, num) v = elim (Bool-cases (bit_and w (2 ^ k - 1) == 0)) [
  | inl skip ↦
      let low : Clear k w = (Clear-iff_mod k w).0 (sym (and-mask k w) ∙ ==→eq _ 0 skip) in
      rw skip (record {
        same = λ i. test_bit-shr w k i ∙ (v.same (i + k) ∙ ap (test_bit word) (omega arith));
        below = λ i h. below_shift low i h;
        left = omega (arith, v.left);
        some_set = λ clear. v.some_set λ i h. elim (Bool-cases (ltb i k)) [
          | inl lt ↦ low i (ltb→lt i k lt)
          | inr ge ↦ shifted clear i h (ltb→le i k ge)
        ];
      })
  | inr stay ↦ rw stay (record {
    same = v.same;
    below = v.below;
    left = omega (arith, v.left);
    some_set = λ clear. ==→ne _ 0 stay (and-mask k w ∙ (Clear-iff_mod k w).1 clear);
  })
]
  where
    below_shift : Clear k w → (i : ℕ) → i < num + k → test_bit word i ≡ false
    below_shift low i h = elim (Bool-cases (ltb i num)) [
      | inl lt ↦ v.below i (ltb→lt i num lt)
      | inr ge ↦
          let le : num ≤ i = ltb→le i num ge in
          let back : i - num + num ≡ i = omega arith in
          sym (v.same (i - num) ∙ ap (test_bit word) back) ∙ low (i - num) (omega arith)
    ]

    shifted : Clear k (shr_64 w k) → (i : ℕ) → i < k + k → k ≤ i → test_bit w i ≡ false
    shifted clear i h le =
        let back : i - k + k ≡ i = omega arith in
        sym (test_bit-shr w k (i - k) ∙ ap (test_bit w) back) ∙ clear (i - k) (omega arith)

-- What `__ffs` promises of its result.
pub record IsLowest (word r : ℕ) : Type 0 where
  pub small : r < 64
  pub hit : test_bit word r ≡ true
  pub below : (i : ℕ) → i < r → test_bit word i ≡ false

Skipped-IsLowest : (word : ℕ) (s : ℕ × ℕ) → Skipped word 1 s → IsLowest word s.1
Skipped-IsLowest word (w, num) v = record {
  small = omega (arith, v.left);
  hit = elim (Bool-cases (test_bit word num)) [
    | inl set ↦ set
    | inr unset ↦ absurd (v.some_set (only unset))
  ];
  below = v.below;
}
  where
    only : test_bit word num ≡ false → Clear 1 w
    only unset zero h = v.same 0 ∙ (ap (test_bit word) (omega arith) ∙ unset)
    only unset (suc i) h = absurd (omega arith)

last-IsLowest :
    (word : ℕ) (s : ℕ × ℕ)
    → Skipped word 2 s
    → IsLowest word (if bit_and s.0 0x1 == 0 then s.1 + 1 else s.1)
unfolding ffs_stage
last-IsLowest word (w, num) v =
    rw same_count (Skipped-IsLowest word _ (stage-Skipped word 1 (w, num) v))
  where
    same_count : (if bit_and w 0x1 == 0 then num + 1 else num) ≡ (ffs_stage 1 (w, num)).1
    same_count = ground arith

-- For a 64-bit word other than 0, `__ffs` returns the number of its lowest set bit.
pub ffs-IsLowest : (word : ℕ) → word < 2 ^ 64 → word ≢ 0 → IsLowest word (ffs word)
unfolding ffs
ffs-IsLowest word small nonzero = last-IsLowest word _ (
    stage-Skipped word 2 _ (
      stage-Skipped word 4 _
        (stage-Skipped word 8 _ (stage-Skipped word 16 _ (stage-Skipped word 32 (word, 0) start)))))
  where
    start : Skipped word 64 (word, 0)
    start = record {
      same = λ i. ap (test_bit word) (omega arith);
      below = λ i h. absurd (omega arith);
      left = omega arith;
      some_set = λ clear. nonzero (eq_zero_of_bits 64 word small clear);
    }
