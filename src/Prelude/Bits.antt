-- ===== src/Prelude/Bits.antt =====
-- Masks and shifts of unsigned words as arithmetic, for every width.
use Prim.Native.Nat.{
  ℕ, zero, suc, ◌+◌, ◌-◌, ◌*◌, ◌/◌, ◌%◌, ◌^◌, ◌≤◌, ◌<◌, min, digits, max, bit_and, bit_and-bitwise,
  bit_or, bit_or-bitwise,
}
use mathlib.Core.Logic.{◌↔◌}
use mathlib.Core.Path.{◌≡◌, refl, ap, sym, ◌∙◌}
use native.Mathlib.Nat.{
  two-pow-succ, one-le-pow, div-div-eq-div-mul, mod-add-div', mul-add-mod_self_right, mod-eq_of_lt,
  mod-lt, div-one, mul-one, one-mul,
}
use native.Mathlib.Decide.{ℕ_discrete}
use native.Mathlib.Omega.{arith}

-- What the operations stand for: `digits` with a bound on the number of digits. Any bound from the
-- first number on gives the same.
module _ (z : ℕ → ℕ) (f : ℕ → ℕ → ℕ) where
  digits-suc : (bound x y : ℕ) → x ≤ bound → digits z f (suc bound) x y ≡ digits z f bound x y
  digits-suc zero zero y le = refl
  digits-suc (suc bound) zero y le = refl
  digits-suc zero (suc x) y le = absurd (omega arith)
  digits-suc (suc bound) (suc x) y le =
      ap (λ t. t * 2 + f (suc x % 2) (y % 2)) (digits-suc bound (suc x / 2) (y / 2) (omega arith))

  digits-bound : (bound x y : ℕ) → x ≤ bound → digits z f bound x y ≡ digits z f x x y
  digits-bound zero x y le = rw none_left refl
    where
      none_left : x ≡ 0
      none_left = omega arith
  digits-bound (suc bound) x y le = elim (ℕ_discrete x (suc bound)) [
    | yes last ↦ rw (sym last) refl
    | no earlier ↦ digits-suc bound x y (omega arith) ∙ digits-bound bound x y (omega arith)
  ]

-- The law for the lowest digit.
pub bit_and-halves : (x y : ℕ) → bit_and x y ≡ bit_and (x / 2) (y / 2) * 2 + min (x % 2) (y % 2)
bit_and-halves zero y = omega (arith, bit_and-bitwise 0 (y / 2), bit_and-bitwise 0 y)
bit_and-halves (suc x) y = omega (
  arith,
  digits-bound (λ _. zero) min x (suc x / 2) (y / 2) (omega arith),
  bit_and-bitwise (suc x / 2) (y / 2),
  bit_and-bitwise (suc x) y,
)

pub bit_or-halves : (x y : ℕ) → bit_or x y ≡ bit_or (x / 2) (y / 2) * 2 + max (x % 2) (y % 2)
bit_or-halves zero y = omega (arith, bit_or-bitwise 0 (y / 2), bit_or-bitwise 0 y)
bit_or-halves (suc x) y = omega (
  arith,
  digits-bound (λ b. b) max x (suc x / 2) (y / 2) (omega arith),
  bit_or-bitwise (suc x / 2) (y / 2),
  bit_or-bitwise (suc x) y,
)

pub bit_or-zero : (x : ℕ) → bit_or x 0 ≡ x
bit_or-zero x = below x x (omega arith)
  where
    below : (bound y : ℕ) → y ≤ bound → bit_or y 0 ≡ y
    below bound zero le = refl
    below zero (suc y) le = absurd (omega arith)
    below (suc bound) (suc y) le =
        omega (arith, below bound (suc y / 2) (omega arith), bit_or-halves (suc y) 0)

-- With zero, by strong induction on a bound.
pub bit_and-zero : (x : ℕ) → bit_and x 0 ≡ 0
bit_and-zero x = below x x (omega arith)
  where
    below : (bound y : ℕ) → y ≤ bound → bit_and y 0 ≡ 0
    below bound zero le = refl
    below zero (suc y) le = absurd (omega arith)
    below (suc bound) (suc y) le =
        omega (arith, below bound (suc y / 2) (omega arith), bit_and-halves (suc y) 0)

-- `x % (2 * m)` from its lowest digit and the rest.
mod-double : (x m : ℕ) → 1 ≤ m → x % (m + m) ≡ x / 2 % m * 2 + x % 2
mod-double x m h =
    ap (λ y. y % (m + m)) split ∙ mul-add-mod_self_right (x / 2 / m) (m + m) _ ∙ mod-eq_of_lt small
  where
    split : x ≡ x / 2 / m * (m + m) + (x / 2 % m * 2 + x % 2)
    split = omega (arith, mod-add-div' (x / 2) m)

    small : x / 2 % m * 2 + x % 2 < m + m
    small = omega (arith, mod-lt (x / 2) h)

pub two-pow-pos : (m : ℕ) → 1 ≤ 2 ^ m
two-pow-pos m = one-le-pow m 2 (omega arith)

-- A mask of `m` ones keeps the low `m` digits.
pub bit_and-low : (x m : ℕ) → bit_and x (2 ^ m - 1) ≡ x % 2 ^ m
bit_and-low x zero = omega (arith, bit_and-zero x)
bit_and-low x (suc m) =
    rw (two-pow-succ m, mod-double x (2 ^ m) (two-pow-pos m), bit_and-halves, half)
      (omega (arith, bit_and-low (x / 2) m, two-pow-pos m))
  where
    half : (2 ^ m + 2 ^ m - 1) / 2 ≡ 2 ^ m - 1
    half = omega (arith, two-pow-pos m)

-- A mask of `m` ones above `k` zeros.
pub bit_and-high : (x m k : ℕ) → bit_and x ((2 ^ m - 1) * 2 ^ k) ≡ x / 2 ^ k % 2 ^ m * 2 ^ k
bit_and-high x m zero =
    ap (bit_and x) (mul-one (2 ^ m - 1))
    ∙ bit_and-low x m
    ∙ ap (λ y. y % 2 ^ m) (sym (div-one x))
    ∙ sym (mul-one (x / 2 ^ 0 % 2 ^ m))
bit_and-high x m (suc k) =
    rw
      (
        two-pow-succ k,
        bit_and-halves,
        half,
        bit_and-high (x / 2) m k,
        div-div-eq-div-mul,
        twice,
        even,
      )
      (omega arith)
  where
    twice : 2 * 2 ^ k ≡ 2 ^ k + 2 ^ k
    twice = omega arith

    even : (2 ^ m - 1) * (2 ^ k + 2 ^ k) % 2 ≡ 0
    even = omega arith

    half : (2 ^ m - 1) * (2 ^ k + 2 ^ k) / 2 ≡ (2 ^ m - 1) * 2 ^ k
    half = omega arith

-- One bit is tested.
pub bit_and-power : (x k : ℕ) → bit_and x (2 ^ k) ≡ x / 2 ^ k % 2 * 2 ^ k
bit_and-power x k = ap (bit_and x) (sym (one-mul (2 ^ k))) ∙ bit_and-high x 1 k

-- One bit is set.
pub bit_or-power : (x k : ℕ) → bit_or x (2 ^ k) ≡ x + (1 - x / 2 ^ k % 2) * 2 ^ k
bit_or-power x zero = omega (arith, bit_or-halves x 1, bit_or-zero (x / 2))
bit_or-power x (suc k) =
    rw
      (two-pow-succ k, bit_or-halves, half, bit_or-power (x / 2) k, div-div-eq-div-mul, twice, even)
      (omega arith)
  where
    twice : 2 * 2 ^ k ≡ 2 ^ k + 2 ^ k
    twice = omega arith

    even : (2 ^ k + 2 ^ k) % 2 ≡ 0
    even = omega arith

    half : (2 ^ k + 2 ^ k) / 2 ≡ 2 ^ k
    half = omega arith

-- Zeros at the low end of one number.
pub bit_or-low : (x y k : ℕ) → bit_or (x * 2 ^ k) y ≡ bit_or x (y / 2 ^ k) * 2 ^ k + y % 2 ^ k
bit_or-low x y zero = rw (mul-one x, div-one y) (omega arith)
bit_or-low x y (suc k) =
    rw
      (
        two-pow-succ k,
        bit_or-halves,
        half,
        bit_or-low x (y / 2) k,
        even,
        div-div-eq-div-mul,
        twice,
        mod-double y (2 ^ k) (two-pow-pos k),
      )
      (omega arith)
  where
    twice : 2 * 2 ^ k ≡ 2 ^ k + 2 ^ k
    twice = omega arith

    half : x * (2 ^ k + 2 ^ k) / 2 ≡ x * 2 ^ k
    half = omega arith

    even : x * (2 ^ k + 2 ^ k) % 2 ≡ 0
    even = omega arith

-- A number or the other has a low digit.
pub bit_or-aligned : (x y k : ℕ) → (bit_or x y % 2 ^ k ≡ 0) ↔ (x % 2 ^ k ≡ 0) × (y % 2 ^ k ≡ 0)
bit_or-aligned x y zero = (λ h. (omega arith, omega arith), λ h. omega arith)
bit_or-aligned x y (suc k) =
    rw
      (
        two-pow-succ k,
        mod-double x (2 ^ k) (two-pow-pos k),
        mod-double y (2 ^ k) (two-pow-pos k),
        mod-double (bit_or x y) (2 ^ k) (two-pow-pos k),
        half,
      )
      (
        λ h. (
          omega (arith, digit, (bit_or-aligned (x / 2) (y / 2) k).0 (omega arith)),
          omega (arith, digit, (bit_or-aligned (x / 2) (y / 2) k).0 (omega arith)),
        ),
        λ h. omega (arith, digit, (bit_or-aligned (x / 2) (y / 2) k).1 (omega arith, omega arith)),
      )
  where
    digit : bit_or x y % 2 ≡ max (x % 2) (y % 2)
    digit = omega (arith, bit_or-halves x y)

    half : bit_or x y / 2 ≡ bit_or (x / 2) (y / 2)
    half = omega (arith, bit_or-halves x y)
