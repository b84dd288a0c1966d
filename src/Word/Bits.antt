-- ===== src/Word/Bits.antt =====
-- math/big's Or with a shifted field, and And with a mask, as arithmetic.
use Prim.Native.Nat.{max, digits, bit_and, bit_or, bit_and-bitwise, bit_or-bitwise}
use native.Mathlib.Nat.{pow-suc, one-le-pow}
use davinci_node.Common.{
  ℕ, zero, suc, ◌+◌, ◌-◌, ◌*◌, ◌/◌, ◌%◌, ◌^◌, ◌≤◌, ◌<◌, ◌≡◌, refl, ap, arith, min,
}

-- The recursion on digits, for an operation on digits, does not depend on the fuel.
module _ (rest : ℕ → ℕ) (op : ℕ → ℕ → ℕ) where
  abbrev by_digits : ℕ → ℕ → ℕ → ℕ
  by_digits fuel a b = digits rest op fuel a b

  enough_digits :
      (fuel more a b : ℕ) → a ≤ fuel → a ≤ more → by_digits fuel a b ≡ by_digits more a b
  enough_digits zero zero a b p q = refl
  enough_digits zero (suc more) zero b p q = refl
  enough_digits zero (suc more) (suc a) b p q = absurd (omega arith)
  enough_digits (suc fuel) zero zero b p q = refl
  enough_digits (suc fuel) zero (suc a) b p q = absurd (omega arith)
  enough_digits (suc fuel) (suc more) zero b p q = refl
  enough_digits (suc fuel) (suc more) (suc a) b p q =
      omega (arith, enough_digits fuel more (suc a / 2) (b / 2) (omega arith) (omega arith))

or_lowest : (a b : ℕ) → bit_or a b ≡ bit_or (a / 2) (b / 2) * 2 + max (a % 2) (b % 2)
or_lowest zero b = omega (arith, bit_or-bitwise 0 b, bit_or-bitwise 0 (b / 2))
or_lowest (suc a) b = omega (
  arith,
  bit_or-bitwise (suc a) b,
  bit_or-bitwise (suc a / 2) (b / 2),
  enough_digits (λ y. y) max a (suc a / 2) (suc a / 2) (b / 2) (omega arith) (omega arith),
)

and_lowest : (a b : ℕ) → bit_and a b ≡ bit_and (a / 2) (b / 2) * 2 + min (a % 2) (b % 2)
and_lowest zero b = omega (arith, bit_and-bitwise 0 b, bit_and-bitwise 0 (b / 2))
and_lowest (suc a) b = omega (
  arith,
  bit_and-bitwise (suc a) b,
  bit_and-bitwise (suc a / 2) (b / 2),
  enough_digits (λ y. 0) min a (suc a / 2) (suc a / 2) (b / 2) (omega arith) (omega arith),
)

double_shift : (a k : ℕ) → a * 2 ^ suc k ≡ 2 * (a * 2 ^ k)
double_shift a k = omega (arith, ap (λ (t : ℕ). a * t) (pow-suc 2 k))

-- A field above all bits of a number is added by Or.
pub bit_or_above : (k low high : ℕ) → low < 2 ^ k → bit_or low (high * 2 ^ k) ≡ low + high * 2 ^ k
bit_or_above zero low high fits = ground (arith, bit_or-bitwise 0 high)
bit_or_above (suc k) low high fits = ground (
  arith,
  or_lowest low (high * 2 ^ suc k),
  double_shift high k,
  pow-suc 2 k,
  bit_or_above k (low / 2) high (omega (arith, pow-suc 2 k)),
)

and_none : (fuel a : ℕ) → a ≤ fuel → bit_and a 0 ≡ 0
and_none fuel zero h = refl
and_none zero (suc a) h = absurd (omega arith)
and_none (suc fuel) (suc a) h =
    omega (arith, and_lowest (suc a) 0, and_none fuel (suc a / 2) (omega arith))

-- The mask of k low bits.
pub bit_and_low : (k high low : ℕ) → low < 2 ^ k → bit_and (low + high * 2 ^ k) (2 ^ k - 1) ≡ low
bit_and_low zero high low fits =
    omega (arith, and_none (low + high * 1) (low + high * 1) (omega arith))
bit_and_low (suc k) high low fits = ground (
  arith,
  and_lowest (low + high * 2 ^ suc k) (2 ^ suc k - 1),
  double_shift high k,
  pow-suc 2 k,
  one-le-pow k 2,
  bit_and_low k high (low / 2) (omega (arith, pow-suc 2 k)),
)
