-- ===== src/Prelude/Bits.antt =====
-- Bitwise `|` of a prefix with a word that begins with that prefix.
use Prim.Native.Nat.{
  ℕ, zero, suc, ◌+◌, ◌*◌, ◌/◌, ◌%◌, ◌^◌, ◌≤◌, ◌<◌, max, bit_or, digits, bit_or-bitwise,
}
use mathlib.Core.Path.{◌≡◌, refl, ap}
use native.Mathlib.Nat.{pow-suc}
use native.Mathlib.Omega.{arith}

-- What `bit_or` stands for: one binary digit at a time, at most `n` of them.
abbrev or_digits : ℕ → ℕ → ℕ → ℕ
or_digits n a b = digits (λ c. c) max n a b

-- More rounds than digits make no difference.
or_digits_stable : (n m a b : ℕ) → a ≤ n → a ≤ m → or_digits n a b ≡ or_digits m a b
or_digits_stable zero zero a b p q = refl
or_digits_stable zero (suc m) zero b p q = refl
or_digits_stable zero (suc m) (suc a) b p q = absurd (omega arith)
or_digits_stable (suc n) zero zero b p q = refl
or_digits_stable (suc n) zero (suc a) b p q = absurd (omega arith)
or_digits_stable (suc n) (suc m) zero b p q = refl
or_digits_stable (suc n) (suc m) (suc a) b p q =
    omega (arith, or_digits_stable n m (suc a / 2) (b / 2) (omega arith) (omega arith))

zero-bit_or : (b : ℕ) → bit_or 0 b ≡ b
zero-bit_or b = bit_or-bitwise 0 b

bit_or_halves : (a b : ℕ) → bit_or a b ≡ bit_or (a / 2) (b / 2) * 2 + max (a % 2) (b % 2)
bit_or_halves zero b = omega (arith, zero-bit_or b, zero-bit_or (b / 2))
bit_or_halves (suc a) b = omega (
  arith,
  bit_or-bitwise (suc a) b,
  bit_or-bitwise (suc a / 2) (b / 2),
  or_digits_stable a (suc a / 2) (suc a / 2) (b / 2) (omega arith) (omega arith),
)

double : (p k : ℕ) → p * 2 ^ suc k ≡ 2 * (p * 2 ^ k)
double p k = omega (arith, ap (λ (t : ℕ). p * t) (pow-suc 2 k))

-- The prefix `p`, shifted left by `k` bits, adds nothing to a word that begins with it.
pub bit_or_prefix :
    (k p r : ℕ) → bit_or p p ≡ p → r < 2 ^ k → bit_or (p * 2 ^ k) (p * 2 ^ k + r) ≡ p * 2 ^ k + r
bit_or_prefix zero p r h lt =
    let left : p * 2 ^ 0 ≡ p = omega arith in
    let none_left : p * 2 ^ 0 + r ≡ p = omega arith in rw (none_left, left) h
bit_or_prefix (suc k) p r h lt =
    let halved = bit_or_prefix k p (r / 2) h (omega (arith, pow-suc 2 k)) in
    let left : p * 2 ^ suc k / 2 ≡ p * 2 ^ k = omega (arith, double p k) in
    let right : (p * 2 ^ suc k + r) / 2 ≡ p * 2 ^ k + r / 2 = omega (arith, double p k) in
    let whole : bit_or (p * 2 ^ suc k / 2) ((p * 2 ^ suc k + r) / 2) ≡ p * 2 ^ k + r / 2 =
      rw (left, right) halved in
    omega (arith, bit_or_halves (p * 2 ^ suc k) (p * 2 ^ suc k + r), double p k, whole)
