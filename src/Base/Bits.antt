-- ===== src/Base/Bits.antt =====
-- `|`, `&` and `<<` on words, as arithmetic. The native operations stand for `bitwise`, a recursion
-- on the binary digits of its first argument with that argument as fuel.
use Prim.Native.Nat.{ℕ, zero, suc, ◌+◌, ◌*◌, ◌/◌, ◌%◌, ◌^◌, ◌-◌, ◌≤◌, ◌<◌, min, max}
use Prim.Native.Nat.{bit_and, bit_or, digits, bit_and-bitwise, bit_or-bitwise}
use mathlib.Core.Path.{◌≡◌, refl, ap, ◌∙◌}
use native.Mathlib.Omega.{arith}
use native.Mathlib.Nat.{
  pow-suc, mod-eq_of_lt, div-add-mod, div-div-eq-div-mul, div-eq_of_lt, mul_comm,
}

-- Two amounts of fuel that both cover the first number give the same digits.
same_digits :
    (z : ℕ → ℕ) (op : ℕ → ℕ → ℕ) (f g x y : ℕ)
    → x ≤ f
    → x ≤ g
    → digits z op f x y ≡ digits z op g x y
same_digits z op zero zero zero y p q = refl
same_digits z op zero (suc g) zero y p q = refl
same_digits z op (suc f) zero zero y p q = refl
same_digits z op (suc f) (suc g) zero y p q = refl
same_digits z op zero g (suc x) y p q = absurd (omega arith)
same_digits z op (suc f) zero (suc x) y p q = absurd (omega arith)
same_digits z op (suc f) (suc g) (suc x) y p q =
    ap (λ (d : ℕ). d * 2 + op (suc x % 2) (y % 2))
      (same_digits z op f g (suc x / 2) (y / 2) (omega arith) (omega arith))

-- One equation for the lowest digit.
or_digit : (x y : ℕ) → bit_or x y ≡ bit_or (x / 2) (y / 2) * 2 + max (x % 2) (y % 2)
or_digit zero y = omega (arith, bit_or-bitwise 0 y, bit_or-bitwise 0 (y / 2))
or_digit (suc x) y = omega (
  arith,
  bit_or-bitwise (suc x) y,
  bit_or-bitwise (suc x / 2) (y / 2),
  same_digits (λ b. b) max x (suc x / 2) (suc x / 2) (y / 2) (omega arith) (omega arith),
)

and_digit : (x y : ℕ) → bit_and x y ≡ bit_and (x / 2) (y / 2) * 2 + min (x % 2) (y % 2)
and_digit zero y = omega (arith, bit_and-bitwise 0 y, bit_and-bitwise 0 (y / 2))
and_digit (suc x) y = omega (
  arith,
  bit_and-bitwise (suc x) y,
  bit_and-bitwise (suc x / 2) (y / 2),
  same_digits (λ b. zero) min x (suc x / 2) (suc x / 2) (y / 2) (omega arith) (omega arith),
)

or_zero_fuel : (f x : ℕ) → x ≤ f → bit_or x 0 ≡ x
or_zero_fuel f zero h = refl
or_zero_fuel zero (suc x) h = absurd (omega arith)
or_zero_fuel (suc f) (suc x) h =
    omega (arith, or_digit (suc x) 0, or_zero_fuel f (suc x / 2) (omega arith))

and_zero_fuel : (f x : ℕ) → x ≤ f → bit_and x 0 ≡ 0
and_zero_fuel f zero h = refl
and_zero_fuel zero (suc x) h = absurd (omega arith)
and_zero_fuel (suc f) (suc x) h =
    omega (arith, and_digit (suc x) 0, and_zero_fuel f (suc x / 2) (omega arith))

pub zero-and : (y : ℕ) → bit_and 0 y ≡ 0
zero-and y = bit_and-bitwise 0 y

pub zero-or : (y : ℕ) → bit_or 0 y ≡ y
zero-or y = bit_or-bitwise 0 y

-- One more binary digit of a power, a quotient and a remainder.
double_power : (m k : ℕ) → m * 2 ^ suc k ≡ m * 2 ^ k * 2
double_power m k = omega (arith, ap (λ (t : ℕ). m * t) (pow-suc 2 k))

pub pow_pos : (k : ℕ) → 0 < 2 ^ k
pow_pos zero = omega arith
pow_pos (suc k) = omega (arith, pow-suc 2 k, pow_pos k)

pub div_digit : (x k : ℕ) → x / 2 ^ suc k ≡ x / 2 / 2 ^ k
div_digit x k = omega (
  arith,
  div-div-eq-div-mul x 2 (2 ^ k),
  ap (λ (t : ℕ). x / t) (pow-suc 2 k ∙ mul_comm (2 ^ k) 2),
)

mod_digit : (x k : ℕ) → x % 2 ^ suc k ≡ x / 2 % 2 ^ k * 2 + x % 2
mod_digit x k = omega (
  arith,
  div-add-mod x (2 ^ suc k),
  div-add-mod (x / 2) (2 ^ k),
  ap (λ (t : ℕ). 2 ^ suc k * t) (div_digit x k),
  ap (λ (t : ℕ). t * (x / 2 / 2 ^ k)) (pow-suc 2 k),
)

-- A number whose low `k` digits are 0 meets only the high digits of the other.
pub or_high : (k x m : ℕ) → bit_or x (m * 2 ^ k) ≡ bit_or (x / 2 ^ k) m * 2 ^ k + x % 2 ^ k
or_high zero x m = rw (whole, once) (omega arith)
  where
    whole : x / 2 ^ 0 ≡ x
    whole = omega arith

    once : m * 2 ^ 0 ≡ m
    once = omega arith
or_high (suc k) x m = rw (double_power m k) (
    omega (
      arith,
      or_digit x (m * 2 ^ k * 2),
      ap (λ (t : ℕ). bit_or (x / 2) t) half,
      or_high k (x / 2) m,
      mod_digit x k,
      double_power (bit_or (x / 2 / 2 ^ k) m) k,
      ap (λ (t : ℕ). bit_or t m * 2 ^ suc k) (div_digit x k),
    ))
  where
    half : m * 2 ^ k * 2 / 2 ≡ m * 2 ^ k
    half = omega arith

pub and_high : (k x m : ℕ) → bit_and x (m * 2 ^ k) ≡ bit_and (x / 2 ^ k) m * 2 ^ k
and_high zero x m = rw (whole, once) (omega arith)
  where
    whole : x / 2 ^ 0 ≡ x
    whole = omega arith

    once : m * 2 ^ 0 ≡ m
    once = omega arith
and_high (suc k) x m = rw (double_power m k) (
    omega (
      arith,
      and_digit x (m * 2 ^ k * 2),
      ap (λ (t : ℕ). bit_and (x / 2) t) half,
      and_high k (x / 2) m,
      double_power (bit_and (x / 2 / 2 ^ k) m) k,
      ap (λ (t : ℕ). bit_and t m * 2 ^ suc k) (div_digit x k),
    ))
  where
    half : m * 2 ^ k * 2 / 2 ≡ m * 2 ^ k
    half = omega arith

-- `low | (high << k)` is a sum when `low` fits in `k` bits.
pub or_shifted : (k low high : ℕ) → low < 2 ^ k → bit_or low (high * 2 ^ k) ≡ low + high * 2 ^ k
or_shifted k low high h = rw (or_high, div-eq_of_lt h, mod-eq_of_lt h, zero-or) (omega arith)

-- `x & (2^k - 1)` is the remainder.
pub and_mask : (k x : ℕ) → bit_and x (2 ^ k - 1) ≡ x % 2 ^ k
and_mask zero x = omega (arith, and_zero_fuel x x (omega arith))
and_mask (suc k) x = omega (
  arith,
  and_digit x (2 ^ suc k - 1),
  ap (λ (t : ℕ). bit_and (x / 2) t) half_mask,
  pow-suc 2 k,
  pow_pos k,
  and_mask k (x / 2),
  mod_digit x k,
)
  where
    half_mask : (2 ^ suc k - 1) / 2 ≡ 2 ^ k - 1
    half_mask = omega (arith, pow-suc 2 k, pow_pos k)

-- The top bit of a byte, tested and set.
pub and_top_bit : (b : ℕ) → bit_and b 0x80 ≡ b / 128 % 2 * 128
and_top_bit b = omega (arith, and_high 7 b 1, and_mask 1 (b / 128))

pub or_top_bit : (x : ℕ) → bit_or x 0x80 % 256 ≡ x % 128 + 128
or_top_bit x =
    omega
      (arith, or_high 7 x 1, or_digit (x / 128) 1, or_zero_fuel (x / 256) (x / 256) (omega arith))
