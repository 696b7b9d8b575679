-- ===== src/Base/Bits.antt =====
-- The bits of a native number, and the laws of the operators `&`, `|`, `~`, `<<` and `>>` of C in
-- terms of single bits, at every width.
use Prim.Native.Nat.{
  ℕ, zero, suc, ◌+◌, ◌-◌, ◌*◌, ◌/◌, ◌%◌, ◌^◌, ◌≤◌, ◌<◌, min, max, bit_and, bit_or, digits,
  bit_and-bitwise, bit_or-bitwise,
}
use native.Mathlib.Nat.{pow-suc, one-le-pow, div-div-eq-div-mul, div-add-mod}
use native.Mathlib.Omega.{arith}
use mathlib.Core.Path.{◌≡◌, refl, sym, ap, ◌∙◌}
use mathlib.Core.Bool.{Bool, false, not, ◌&&◌, ◌||◌}
use gas_filesystem.Base.Tests.{ltb, ◌==◌, if◌then◌else◌}

-- `digits` does not depend on its fuel once there is enough of it.
module _ (base : ℕ → ℕ) (op : ℕ → ℕ → ℕ) where
  digits_stable : (n m a b : ℕ) → a ≤ n → a ≤ m → digits base op n a b ≡ digits base op m a b
  digits_stable n m zero b p q = stable_zero n m
    where
      stable_zero : (n m : ℕ) → digits base op n zero b ≡ digits base op m zero b
      stable_zero zero zero = refl
      stable_zero zero (suc m) = refl
      stable_zero (suc n) zero = refl
      stable_zero (suc n) (suc m) = refl
  digits_stable zero m (suc a) b p q = absurd (omega arith)
  digits_stable (suc n) zero (suc a) b p q = absurd (omega arith)
  digits_stable (suc n) (suc m) (suc a) b p q =
      ap (λ (t : ℕ). t * 2 + op (suc a % 2) (b % 2))
        (digits_stable n m (suc a / 2) (b / 2) (omega arith) (omega arith))

-- One binary digit of `a & b`.
pub and_digit : (a b : ℕ) → bit_and a b ≡ bit_and (a / 2) (b / 2) * 2 + min (a % 2) (b % 2)
and_digit zero b = omega (arith, bit_and-bitwise 0 b, bit_and-bitwise 0 (b / 2))
and_digit (suc a) b = omega (
  arith,
  bit_and-bitwise (suc a) b,
  bit_and-bitwise (suc a / 2) (b / 2),
  digits_stable (λ _. zero) min a (suc a / 2) (suc a / 2) (b / 2) (omega arith) (omega arith),
)

-- One binary digit of `a | b`.
pub or_digit : (a b : ℕ) → bit_or a b ≡ bit_or (a / 2) (b / 2) * 2 + max (a % 2) (b % 2)
or_digit zero b = omega (arith, bit_or-bitwise 0 b, bit_or-bitwise 0 (b / 2))
or_digit (suc a) b = omega (
  arith,
  bit_or-bitwise (suc a) b,
  bit_or-bitwise (suc a / 2) (b / 2),
  digits_stable (λ y. y) max a (suc a / 2) (suc a / 2) (b / 2) (omega arith) (omega arith),
)

-- Bit `i` of `x`.
unfoldable pub test_bit : ℕ → ℕ → Bool
test_bit x zero = x % 2 == 1
test_bit x (suc i) = test_bit (x / 2) i

pub test_bit-and : (a b i : ℕ) → test_bit (bit_and a b) i ≡ (test_bit a i && test_bit b i)
unfolding test_bit
test_bit-and a b zero = ground (arith, and_digit a b)
test_bit-and a b (suc i) =
    ap (λ (x : ℕ). test_bit x i) (omega (arith, and_digit a b)) ∙ test_bit-and (a / 2) (b / 2) i

pub test_bit-or : (a b i : ℕ) → test_bit (bit_or a b) i ≡ (test_bit a i || test_bit b i)
unfolding test_bit
test_bit-or a b zero = ground (arith, or_digit a b)
test_bit-or a b (suc i) =
    ap (λ (x : ℕ). test_bit x i) (omega (arith, or_digit a b)) ∙ test_bit-or (a / 2) (b / 2) i

pub test_bit-zero : (i : ℕ) → test_bit 0 i ≡ false
unfolding test_bit
test_bit-zero zero = refl
test_bit-zero (suc i) = test_bit-zero i

pub same_bit : (x y i : ℕ) → x ≡ y → test_bit x i ≡ test_bit y i
same_bit x y i e = ap (λ (t : ℕ). test_bit t i) e

bit_at : (x i j : ℕ) → i ≡ j → test_bit x i ≡ test_bit x j
bit_at x i j e = ap (test_bit x) e

pub mul-pow-suc : (x k : ℕ) → x * 2 ^ suc k ≡ 2 * (x * 2 ^ k)
mul-pow-suc x k = omega (arith, ap (λ (t : ℕ). x * t) (pow-suc 2 k))

-- `x << k`
pub test_bit-shl :
    (x k i : ℕ) → test_bit (x * 2 ^ k) i ≡ (if ltb i k then false else test_bit x (i - k))
unfolding test_bit
test_bit-shl x zero i =
    same_bit _ x i (omega arith) ∙ ground (arith, bit_at x i (i - 0) (omega arith))
test_bit-shl x (suc k) zero = ground (arith, mul-pow-suc x k)
test_bit-shl x (suc k) (suc i) =
    same_bit _ (x * 2 ^ k) i (omega (arith, mul-pow-suc x k))
    ∙ (test_bit-shl x k i ∙ ground (arith, bit_at x (i - k) (suc i - suc k) (omega arith)))

div-pow-suc : (x k : ℕ) → x / 2 ^ suc k ≡ x / 2 / 2 ^ k
div-pow-suc x k =
    let double : 2 ^ suc k ≡ 2 * 2 ^ k = omega (arith, pow-suc 2 k) in
    ap (λ (t : ℕ). x / t) double ∙ sym (div-div-eq-div-mul x 2 (2 ^ k))

-- `x >> k`
pub test_bit-shr : (x k i : ℕ) → test_bit (x / 2 ^ k) i ≡ test_bit x (i + k)
unfolding test_bit
test_bit-shr x zero i = same_bit _ x i (omega arith) ∙ bit_at x i (i + 0) (omega arith)
test_bit-shr x (suc k) i =
    same_bit _ _ i (div-pow-suc x k)
    ∙ (test_bit-shr (x / 2) k i ∙ bit_at x (suc (i + k)) (i + suc k) (omega arith))

-- `x % 2 ^ n`, the value of `x` in an `n`-bit word
mod-pow_digit : (x n : ℕ) → x % 2 ^ suc n ≡ 2 * (x / 2 % 2 ^ n) + x % 2
mod-pow_digit x n = omega (
  arith,
  div-add-mod x (2 ^ suc n),
  div-add-mod (x / 2) (2 ^ n),
  div-pow-suc x n,
  ap (λ (t : ℕ). t * (x / 2 ^ suc n)) (pow-suc 2 n),
  ap (λ (t : ℕ). 2 ^ n * t) (div-pow-suc x n),
)

pub test_bit-mod : (x n i : ℕ) → test_bit (x % 2 ^ n) i ≡ (ltb i n && test_bit x i)
unfolding test_bit
test_bit-mod x zero i = same_bit _ _ i (omega arith) ∙ (test_bit-zero i ∙ ground arith)
test_bit-mod x (suc n) zero = ground (arith, mod-pow_digit x n)
test_bit-mod x (suc n) (suc i) =
    same_bit _ _ i (omega (arith, mod-pow_digit x n)) ∙ (test_bit-mod (x / 2) n i ∙ ground arith)

-- `~x` in an `n`-bit word
pub test_bit-not :
    (n x i : ℕ) → x < 2 ^ n → test_bit (2 ^ n - 1 - x) i ≡ (ltb i n && not (test_bit x i))
unfolding test_bit
test_bit-not zero x i h = same_bit _ _ i (omega arith) ∙ (test_bit-zero i ∙ ground arith)
test_bit-not (suc n) x zero h = ground (arith, pow-suc 2 n, one-le-pow n 2)
test_bit-not (suc n) x (suc i) h =
    same_bit _ _ i (omega (arith, pow-suc 2 n, one-le-pow n 2 (omega arith)))
    ∙ (test_bit-not n (x / 2) i (omega (arith, pow-suc 2 n)) ∙ ground arith)

-- A word whose bits are all clear is 0.
pub eq_zero_of_bits : (n x : ℕ) → x < 2 ^ n → ((i : ℕ) → i < n → test_bit x i ≡ false) → x ≡ 0
unfolding test_bit
eq_zero_of_bits zero x h all = omega arith
eq_zero_of_bits (suc n) x h all =
    let low : (x % 2 == 1) ≡ false = all 0 (omega arith) in
    let high : x / 2 ≡ 0 =
      eq_zero_of_bits n (x / 2) (omega (arith, pow-suc 2 n)) (λ i p. all (suc i) (omega arith)) in
    ground arith

and_zero : (n x : ℕ) → x ≤ n → bit_and x 0 ≡ 0
and_zero n zero h = bit_and-bitwise 0 0
and_zero zero (suc x) h = absurd (omega arith)
and_zero (suc n) (suc x) h =
    omega (arith, and_digit (suc x) 0, and_zero n (suc x / 2) (omega arith))

zero_and : (x : ℕ) → bit_and 0 x ≡ 0
zero_and x = bit_and-bitwise 0 x

zero_or : (x : ℕ) → bit_or 0 x ≡ x
zero_or x = bit_or-bitwise 0 x

pub and-lt : (n a b : ℕ) → a < 2 ^ n → bit_and a b < 2 ^ n
and-lt zero zero b h = omega (arith, zero_and b)
and-lt zero (suc a) b h = absurd (omega arith)
and-lt (suc n) a b h =
    omega (arith, and_digit a b, pow-suc 2 n, and-lt n (a / 2) (b / 2) (omega (arith, pow-suc 2 n)))

pub or-lt : (n a b : ℕ) → a < 2 ^ n → b < 2 ^ n → bit_or a b < 2 ^ n
or-lt zero zero b h k = omega (arith, zero_or b)
or-lt zero (suc a) b h k = absurd (omega arith)
or-lt (suc n) a b h k = omega (
  arith,
  or_digit a b,
  pow-suc 2 n,
  or-lt n (a / 2) (b / 2) (omega (arith, pow-suc 2 n)) (omega (arith, pow-suc 2 n)),
)

-- `x & (2 ^ k - 1)`
pub and-mask : (k x : ℕ) → bit_and x (2 ^ k - 1) ≡ x % 2 ^ k
and-mask zero x = omega (arith, and_zero x x (omega arith))
and-mask (suc k) x = omega (
  arith,
  and_digit x (2 ^ suc k - 1),
  pow-suc 2 k,
  one-le-pow k 2 (omega arith),
  mod-pow_digit x k,
  and-mask k (x / 2),
  ap (λ (t : ℕ). bit_and (x / 2) t) (half k),
)
  where
    half : (k : ℕ) → (2 ^ suc k - 1) / 2 ≡ 2 ^ k - 1
    half k = omega (arith, pow-suc 2 k, one-le-pow k 2 (omega arith))

-- A word is determined by its bits.
pub bits_ext :
    (n x y : ℕ) → x < 2 ^ n → y < 2 ^ n → ((i : ℕ) → i < n → test_bit x i ≡ test_bit y i) → x ≡ y
unfolding test_bit
bits_ext zero x y h k same = omega arith
bits_ext (suc n) x y h k same =
    let low : (x % 2 == 1) ≡ (y % 2 == 1) = same 0 (omega arith) in
    let high : x / 2 ≡ y / 2 =
      bits_ext n (x / 2) (y / 2) (omega (arith, pow-suc 2 n)) (omega (arith, pow-suc 2 n))
        (λ i p. same (suc i) (omega arith)) in
    ground arith
