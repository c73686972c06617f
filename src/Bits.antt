-- ===== src/Bits.antt =====
-- Bit masks at variables: a mask of contiguous ones selects a field, read by `/` and `%`.
use Prim.Native.Nat.{min, digits, bit_and-bitwise}
use native.Mathlib.Nat.{pow-suc, pow-succ', div-add-mod, div-div-eq-div-mul, mul_comm}
use l4rdma.Prelude.{
  ℕ, zero, suc, ◌+◌, ◌*◌, ◌/◌, ◌%◌, ◌^◌, ◌≤◌, ◌≡◌, refl, sym, ap, ◌∙◌, arith, bit_and,
}

-- The digit recursion of the native operation does not depend on its fuel.
abbrev by_digits : ℕ → ℕ → ℕ → ℕ
by_digits = digits (λ b. zero) min

enough_digits : (n m a b : ℕ) → a ≤ n → a ≤ m → by_digits n a b ≡ by_digits m a b
enough_digits zero zero a b p q = refl
enough_digits zero (suc m) zero b p q = refl
enough_digits zero (suc m) (suc a) b p q = absurd (omega arith)
enough_digits (suc n) zero zero b p q = refl
enough_digits (suc n) zero (suc a) b p q = absurd (omega arith)
enough_digits (suc n) (suc m) zero b p q = refl
enough_digits (suc n) (suc m) (suc a) b p q =
    omega (arith, enough_digits n m (suc a / 2) (b / 2) (omega arith) (omega arith))

zero-bit_and : (b : ℕ) → bit_and 0 b ≡ 0
zero-bit_and b = bit_and-bitwise 0 b

-- The lowest bit, and the rest.
low_bit : (a b : ℕ) → bit_and a b ≡ bit_and (a / 2) (b / 2) * 2 + min (a % 2) (b % 2)
low_bit zero b = omega (arith, zero-bit_and b, zero-bit_and (b / 2))
low_bit (suc a) b = omega (
  arith,
  bit_and-bitwise (suc a) b,
  bit_and-bitwise (suc a / 2) (b / 2),
  enough_digits a (suc a / 2) (suc a / 2) (b / 2) (omega arith) (omega arith),
)

and_zero_fuel : (n a : ℕ) → a ≤ n → bit_and a 0 ≡ 0
and_zero_fuel n zero h = refl
and_zero_fuel zero (suc a) h = absurd (omega arith)
and_zero_fuel (suc n) (suc a) h =
    omega (arith, low_bit (suc a) 0, and_zero_fuel n (suc a / 2) (omega arith))

bit_and_zero : (a : ℕ) → bit_and a 0 ≡ 0
bit_and_zero a = and_zero_fuel a a (omega arith)

-- `k` ones, and `m` shifted left by `k`.
abbrev ones : ℕ → ℕ
ones zero = 0
ones (suc k) = ones k * 2 + 1

abbrev shifted : ℕ → ℕ → ℕ
shifted m zero = m
shifted m (suc k) = shifted m k * 2

pub mod-double : (x p : ℕ) → x % (p * 2) ≡ (x / 2) % p * 2 + x % 2
mod-double x p = omega (
  arith,
  div-add-mod x (p * 2),
  div-add-mod (x / 2) p,
  div-add-mod x 2,
  ap (λ (n : ℕ). n * p) (div-div-eq-div-mul x 2 p),
  ap (λ (n : ℕ). x / n * p) (mul_comm 2 p),
)

half_odd : (n : ℕ) → (n * 2 + 1) / 2 ≡ n
half_odd n = omega arith

half_even : (n : ℕ) → n * 2 / 2 ≡ n
half_even n = omega arith

bit_and-odd : (x n : ℕ) → bit_and x (n * 2 + 1) ≡ bit_and (x / 2) n * 2 + x % 2
bit_and-odd x n = omega (arith, low_bit x (n * 2 + 1), ap (bit_and (x / 2)) (half_odd n))

bit_and-even : (x n : ℕ) → bit_and x (n * 2) ≡ bit_and (x / 2) n * 2
bit_and-even x n = omega (arith, low_bit x (n * 2), ap (bit_and (x / 2)) (half_even n))

-- A mask of the `k` lowest bits is the remainder by `2 ^ k`.
pub bit_and-ones : (k x : ℕ) → bit_and x (ones k) ≡ x % 2 ^ k
bit_and-ones zero x = omega (arith, bit_and_zero x)
bit_and-ones (suc k) x = omega (
  arith,
  bit_and-odd x (ones k),
  bit_and-ones k (x / 2),
  mod-double x (2 ^ k),
  ap (λ (n : ℕ). x % n) (pow-suc 2 k),
)

-- A shifted mask leaves the lowest `k` bits out.
pub bit_and-shifted : (k m x : ℕ) → bit_and x (shifted m k) ≡ bit_and (x / 2 ^ k) m * 2 ^ k
bit_and-shifted zero m x =
    let same : x / 1 ≡ x = omega arith in omega (arith, ap (λ (n : ℕ). bit_and n m) same)
bit_and-shifted (suc k) m x =
    let above : x / 2 / 2 ^ k ≡ x / 2 ^ suc k =
      div-div-eq-div-mul x 2 (2 ^ k) ∙ ap (λ (n : ℕ). x / n) (sym (pow-succ' 2 k)) in
    let low : bit_and x (shifted m (suc k)) ≡ bit_and (x / 2) (shifted m k) * 2 =
      bit_and-even x (shifted m k) in
    omega (
      arith,
      low,
      bit_and-shifted k m (x / 2),
      ap (λ (n : ℕ). bit_and n m * 2 ^ k) above,
      ap (λ (n : ℕ). bit_and (x / 2 ^ suc k) m * n) (pow-suc 2 k),
    )

-- The field of `w` bits above the lowest `k`.
pub bit_and-field : (k w x : ℕ) → bit_and x (shifted (ones w) k) ≡ x / 2 ^ k % 2 ^ w * 2 ^ k
bit_and-field k w x = rw (bit_and-shifted k (ones w) x, bit_and-ones w (x / 2 ^ k))

-- The masks of the source.
pub bit_and-low16 : (x : ℕ) → bit_and x 0xffff ≡ x % 2 ^ 16
bit_and-low16 x = bit_and-ones 16 x

pub bit_and-low1 : (x : ℕ) → bit_and x 1 ≡ x % 2
bit_and-low1 x = bit_and-ones 1 x

pub bit_and-status : (x : ℕ) → bit_and x 0xfe ≡ x / 2 % 2 ^ 7 * 2
bit_and-status x = bit_and-field 1 7 x

pub bit_and-high8 : (x : ℕ) → bit_and x 0xff000000 ≡ x / 2 ^ 24 % 2 ^ 8 * 2 ^ 24
bit_and-high8 x = bit_and-field 24 8 x

pub bit_and-high16 : (x : ℕ) → bit_and x 0xffff0000 ≡ x / 2 ^ 16 % 2 ^ 16 * 2 ^ 16
bit_and-high16 x = bit_and-field 16 16 x

pub bit_and-mailbox : (x : ℕ) → bit_and x 0xfffffe00 ≡ x / 2 ^ 9 % 2 ^ 23 * 2 ^ 9
bit_and-mailbox x = bit_and-field 9 23 x

pub bit_and-high28 : (x : ℕ) → bit_and x 0xfffffff0 ≡ x / 2 ^ 4 % 2 ^ 28 * 2 ^ 4
bit_and-high28 x = bit_and-field 4 28 x

pub bit_and-high30 : (x : ℕ) → bit_and x 0xfffffffc ≡ x / 2 ^ 2 % 2 ^ 30 * 2 ^ 2
bit_and-high30 x = bit_and-field 2 30 x

pub bit_and-bit2 : (x : ℕ) → bit_and x 0x4 ≡ x / 2 ^ 2 % 2 ^ 1 * 2 ^ 2
bit_and-bit2 x = bit_and-field 2 1 x

pub bit_and-pointer : (x : ℕ) → bit_and x 0xfc ≡ x / 2 ^ 2 % 2 ^ 6 * 2 ^ 2
bit_and-pointer x = bit_and-field 2 6 x

pub bit_and-low3 : (x : ℕ) → bit_and x 0x7 ≡ x % 2 ^ 3
bit_and-low3 x = bit_and-ones 3 x

pub bit_and-low11 : (x : ℕ) → bit_and x 0x7ff ≡ x % 2 ^ 11
bit_and-low11 x = bit_and-ones 11 x

pub bit_and-offset : (x : ℕ) → bit_and x 0xfff8 ≡ x / 2 ^ 3 % 2 ^ 13 * 2 ^ 3
bit_and-offset x = bit_and-field 3 13 x
