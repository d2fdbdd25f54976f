-- ===== src/Prelude/Bits.antt =====
-- `|` and `&` at variables, where the fields are disjoint or the mask is a run of low bits.
use Prim.Native.Nat.{ℕ, zero, suc, ◌+◌, ◌-◌, ◌*◌, ◌/◌, ◌%◌, ◌^◌, ◌≤◌, ◌<◌, min, max}
use Prim.Native.Nat.{bit_or, bit_and, digits, bit_or-bitwise, bit_and-bitwise}
use mathlib.Core.Path.{◌≡◌, refl, ap, ◌∙◌}
use native.Mathlib.Nat.{
  pow-suc, one-le-pow, div-div-eq-div-mul, mod-lt, mod-eq_of_lt, div-add-mod',
  add-mul-mod_self_right,
}
use native.Mathlib.Omega.{arith}

-- The native operations are a recursion on binary digits with fuel; more fuel changes nothing.
module _ (rest : ℕ → ℕ) (op : ℕ → ℕ → ℕ) where
  fuel_irrelevant : (n m a b : ℕ) → a ≤ n → a ≤ m → digits rest op n a b ≡ digits rest op m a b
  fuel_irrelevant zero zero a b p q = refl
  fuel_irrelevant zero (suc m) zero b p q = refl
  fuel_irrelevant (suc n) zero zero b p q = refl
  fuel_irrelevant (suc n) (suc m) zero b p q = refl
  fuel_irrelevant zero (suc m) (suc a) b p q = absurd (omega arith)
  fuel_irrelevant (suc n) zero (suc a) b p q = absurd (omega arith)
  fuel_irrelevant (suc n) (suc m) (suc a) b p q =
      omega (arith, fuel_irrelevant n m (suc a / 2) (b / 2) (omega arith) (omega arith))

-- The lowest digit of `a | b`, and the others.
low_digit_or : (a b : ℕ) → bit_or a b ≡ 2 * bit_or (a / 2) (b / 2) + max (a % 2) (b % 2)
low_digit_or zero b = omega (arith, bit_or-bitwise 0 b, bit_or-bitwise 0 (b / 2))
low_digit_or (suc a) b = omega (
  arith,
  bit_or-bitwise (suc a) b,
  bit_or-bitwise (suc a / 2) (b / 2),
  fuel_irrelevant (λ y. y) max a (suc a / 2) (suc a / 2) (b / 2) (omega arith) (omega arith),
)

low_digit_and : (a b : ℕ) → bit_and a b ≡ 2 * bit_and (a / 2) (b / 2) + min (a % 2) (b % 2)
low_digit_and zero b = omega (arith, bit_and-bitwise 0 b, bit_and-bitwise 0 (b / 2))
low_digit_and (suc a) b = omega (
  arith,
  bit_and-bitwise (suc a) b,
  bit_and-bitwise (suc a / 2) (b / 2),
  fuel_irrelevant (λ y. 0) min a (suc a / 2) (suc a / 2) (b / 2) (omega arith) (omega arith),
)

-- `a` is read with `n` digits, at least as many as it has.
or_zero_digits : (n a : ℕ) → a ≤ n → bit_or a 0 ≡ a
or_zero_digits n zero h = refl
or_zero_digits zero (suc a) h = absurd (omega arith)
or_zero_digits (suc n) (suc a) h =
    omega (arith, low_digit_or (suc a) 0, or_zero_digits n (suc a / 2) (omega arith))

and_zero_digits : (n a : ℕ) → a ≤ n → bit_and a 0 ≡ 0
and_zero_digits n zero h = refl
and_zero_digits zero (suc a) h = absurd (omega arith)
and_zero_digits (suc n) (suc a) h =
    omega (arith, low_digit_and (suc a) 0, and_zero_digits n (suc a / 2) (omega arith))

double_shift : (a k : ℕ) → a * 2 ^ suc k ≡ 2 * (a * 2 ^ k)
double_shift a k = omega (arith, ap (λ (t : ℕ). a * t) (pow-suc 2 k))

-- `(high << k) | low` is a sum where `low` has `k` bits.
or_shifted : (k high low : ℕ) → low < 2 ^ k → bit_or (high * 2 ^ k) low ≡ high * 2 ^ k + low
or_shifted zero high zero h = omega (arith, or_zero_digits (high * 1) (high * 1) (omega arith))
or_shifted zero high (suc low) h = absurd (omega arith)
or_shifted (suc k) high low h = ground (
  arith,
  pow-suc 2 k,
  double_shift high k,
  low_digit_or (high * 2 ^ suc k) low,
  or_shifted k high (low / 2) (halved (pow-suc 2 k)),
)
  where
    halved : 2 ^ suc k ≡ 2 ^ k * 2 → low / 2 < 2 ^ k
    halved e = omega arith

-- The same, with the upper field given by its divisibility.
pub bit_or_disjoint : (k a low : ℕ) → a % 2 ^ k ≡ 0 → low < 2 ^ k → bit_or a low ≡ a + low
bit_or_disjoint k a low e h = ground (arith, or_shifted k (a / 2 ^ k) low, div-add-mod' a (2 ^ k))

mod_double : (a p : ℕ) → 0 < p → a % (p * 2) ≡ 2 * (a / 2 % p) + a % 2
mod_double a p h =
    ap (λ (t : ℕ). t % (p * 2)) split
    ∙ add-mul-mod_self_right (2 * (a / 2 % p) + a % 2) (a / 2 / p) (p * 2)
    ∙ mod-eq_of_lt small
  where
    split : a ≡ 2 * (a / 2 % p) + a % 2 + a / 2 / p * (p * 2)
    split = omega (arith, div-add-mod' (a / 2) p)

    small : 2 * (a / 2 % p) + a % 2 < p * 2
    small = omega (arith, mod-lt (a / 2) h)

-- `& (2 ^ k - 1)` is the remainder by `2 ^ k`.
pub bit_and_mask : (k a : ℕ) → bit_and a (2 ^ k - 1) ≡ a % 2 ^ k
bit_and_mask zero a = omega (arith, and_zero_digits a a (omega arith))
bit_and_mask (suc k) a = ground (
  arith,
  pow-suc 2 k,
  one-le-pow k 2,
  low_digit_and a (2 ^ suc k - 1),
  bit_and_mask k (a / 2),
  mod_double a (2 ^ k),
)

-- The mirror image of `or_shifted`.
pub bit_or_below : (k high low : ℕ) → low < 2 ^ k → bit_or low (high * 2 ^ k) ≡ low + high * 2 ^ k
bit_or_below zero high zero h = omega (arith, bit_or-bitwise 0 (high * 1))
bit_or_below zero high (suc low) h = absurd (omega arith)
bit_or_below (suc k) high low h = ground (
  arith,
  pow-suc 2 k,
  double_shift high k,
  low_digit_or low (high * 2 ^ suc k),
  bit_or_below k high (low / 2) (halved (pow-suc 2 k)),
)
  where
    halved : 2 ^ suc k ≡ 2 ^ k * 2 → low / 2 < 2 ^ k
    halved e = omega arith

-- `&` with a mask above the lowest `k` bits.
pub bit_and_shifted : (k a m : ℕ) → bit_and a (m * 2 ^ k) ≡ bit_and (a / 2 ^ k) m * 2 ^ k
bit_and_shifted zero a m =
    let e : m * 2 ^ zero ≡ m = omega arith in
    let f : a / 2 ^ zero ≡ a = omega arith in
    omega (arith, ap (bit_and a) e, ap (λ t. bit_and t m) f)
bit_and_shifted (suc k) a m =
    let e : m * 2 ^ suc k / 2 ≡ m * 2 ^ k = omega (arith, double_shift m k) in
    let f : a / 2 / 2 ^ k ≡ a / 2 ^ suc k =
      div-div-eq-div-mul a 2 (2 ^ k) ∙ ap (λ t. a / t) (omega (arith, pow-suc 2 k)) in
    omega (
      arith,
      low_digit_and a (m * 2 ^ suc k),
      double_shift m k,
      double_shift (bit_and (a / 2 ^ suc k) m) k,
      ap (bit_and (a / 2)) e,
      bit_and_shifted k (a / 2) m,
      ap (λ t. bit_and t m * 2 ^ k) f,
    )
