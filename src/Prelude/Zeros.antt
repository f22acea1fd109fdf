-- ===== src/Prelude/Zeros.antt =====
-- When `|` and `^` give zero.
use baleforgit.Prelude.Bits.{bit_or_lowest, lowest_digit}
use Prim.Native.Nat.{
  bit_or, bit_or-bitwise, bit_xor, bit_xor-bitwise, differ, max, suc, zero, ℕ, ◌%◌, ◌*◌, ◌+◌, ◌/◌,
  ◌<◌, ◌^◌, ◌≤◌,
}
use mathlib.Core.Path.{ap, refl, sym, ◌∙◌, ◌≡◌}
use native.Mathlib.Nat.{pow-succ'}
use native.Mathlib.Omega.{arith}

bit_xor_lowest : (a b : ℕ) → bit_xor a b ≡ bit_xor (a / 2) (b / 2) * 2 + differ (a % 2) (b % 2)
bit_xor_lowest zero b = simp bit_xor-bitwise (omega arith)
bit_xor_lowest (suc a) b = simp bit_xor-bitwise (lowest_digit (λ y. y) differ a b)

differ_zero : (x y : ℕ) → differ x y ≡ 0 → x ≡ y
differ_zero zero y h = sym h
differ_zero (suc x) zero h = absurd (omega arith)
differ_zero (suc x) (suc y) h = ap suc (differ_zero x y h)

differ_self : (x : ℕ) → differ x x ≡ 0
differ_self zero = refl
differ_self (suc x) = differ_self x

differ-digit : (x y : ℕ) → x < 2 → y < 2 → differ x y < 2
differ-digit zero y h k = k
differ-digit (suc x) zero h k = h
differ-digit (suc x) (suc y) h k = differ-digit x y (omega arith) (omega arith)

bit_or_zero_below : (n a b : ℕ) → a ≤ n → bit_or a b ≡ 0 → (a ≡ 0) × (b ≡ 0)
bit_or_zero_below n zero b h e = (refl, sym (bit_or-bitwise 0 b) ∙ e)
bit_or_zero_below zero (suc a) b h e = absurd (omega arith)
bit_or_zero_below (suc n) (suc a) b h e =
    let low : bit_or (suc a) b ≡ bit_or (suc a / 2) (b / 2) * 2 + max (suc a % 2) (b % 2) =
      bit_or_lowest (suc a) b in
    let (p, q) = bit_or_zero_below n (suc a / 2) (b / 2) (omega arith) (omega (arith, low, e)) in
    (omega (arith, low, e, p), omega (arith, low, e, q))

pub bit_or_zero : (a b : ℕ) → bit_or a b ≡ 0 → (a ≡ 0) × (b ≡ 0)
bit_or_zero a b e = bit_or_zero_below a a b (omega arith) e

bit_xor_zero_below : (n a b : ℕ) → a ≤ n → bit_xor a b ≡ 0 → a ≡ b
bit_xor_zero_below n zero b h e = sym (sym (bit_xor-bitwise 0 b) ∙ e)
bit_xor_zero_below zero (suc a) b h e = absurd (omega arith)
bit_xor_zero_below (suc n) (suc a) b h e =
    let low = bit_xor_lowest (suc a) b in
    let halves : suc a / 2 ≡ b / 2 =
      bit_xor_zero_below n (suc a / 2) (b / 2) (omega arith) (omega (arith, low, e)) in
    let digit : suc a % 2 ≡ b % 2 = differ_zero (suc a % 2) (b % 2) (omega (arith, low, e)) in
    omega (arith, halves, digit)

pub bit_xor_zero : (a b : ℕ) → bit_xor a b ≡ 0 → a ≡ b
bit_xor_zero a b e = bit_xor_zero_below a a b (omega arith) e

bit_xor_self_below : (n a : ℕ) → a ≤ n → bit_xor a a ≡ 0
bit_xor_self_below n zero h = bit_xor-bitwise 0 0
bit_xor_self_below zero (suc a) h = absurd (omega arith)
bit_xor_self_below (suc n) (suc a) h = omega (
  arith,
  bit_xor_lowest (suc a) (suc a),
  bit_xor_self_below n (suc a / 2) (omega arith),
  differ_self (suc a % 2),
)

pub bit_xor_self : (a : ℕ) → bit_xor a a ≡ 0
bit_xor_self a = bit_xor_self_below a a (omega arith)

-- As many digits as the operands have are enough for `^`.
pub bit_xor-lt : (k a b : ℕ) → a < 2 ^ k → b < 2 ^ k → bit_xor a b < 2 ^ k
bit_xor-lt zero a b h k =
    let p : a ≡ 0 = omega arith in let q : b ≡ 0 = omega arith in rw (p, q) (omega arith)
bit_xor-lt (suc k) a b h l = omega (
  arith,
  pow-succ' 2 k,
  bit_xor_lowest a b,
  bit_xor-lt k (a / 2) (b / 2) (omega (arith, pow-succ' 2 k)) (omega (arith, pow-succ' 2 k)),
  differ-digit (a % 2) (b % 2) (omega arith) (omega arith),
)

pub bit_or_of_zero : (b : ℕ) → bit_or 0 b ≡ b
bit_or_of_zero b = bit_or-bitwise 0 b
