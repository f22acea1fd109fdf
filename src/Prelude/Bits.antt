-- ===== src/Prelude/Bits.antt =====
-- Bit operations: on small numbers by tables that are checked by evaluation, and at every width
-- from the digit recursion that the native operations stand for.
use baleforgit.Prelude.Tests.{==_iff, ◌==◌}
use Prim.Native.Nat.{
  bit_or, bit_or-bitwise, digits, max, suc, zero, ℕ, ◌%◌, ◌*◌, ◌+◌, ◌-◌, ◌/◌, ◌<◌, ◌^◌, ◌≤◌,
}
use mathlib.Core.Bool.{Bool, true, ◌&&◌}
use mathlib.Core.Path.{ap, refl, ◌∙◌, ◌≡◌}
use native.Mathlib.Nat.{pow-succ'}
use native.Mathlib.Omega.{arith}

nibbles_join : ℕ → Bool
nibbles_join zero = true
nibbles_join (suc x) = nibbles_join x && bit_or (x / 16 * 16) (x % 16) == x

nibbles_join-each :
    (x n : ℕ) → x < n → nibbles_join n ≡ true → (bit_or (x / 16 * 16) (x % 16) == x) ≡ true
unfolding nibbles_join
nibbles_join-each x zero lt h = absurd (omega arith)
nibbles_join-each x (suc n) lt h = ground (arith, nibbles_join-each x n)

nibbles_join_256 : nibbles_join 256 ≡ true
unfolding nibbles_join
nibbles_join_256 = refl

-- `(hi << 4) | lo` puts a byte together from its nibbles.
pub bit_or_nibbles : (x : ℕ) → x < 256 → bit_or (x / 16 * 16) (x % 16) ≡ x
bit_or_nibbles x h =
    (==_iff (bit_or (x / 16 * 16) (x % 16)) x).0 (nibbles_join-each x 256 h nibbles_join_256)

-- One more unit of fuel than the first number needs changes nothing.
spare_fuel :
    (z : ℕ → ℕ) (f : ℕ → ℕ → ℕ) (n a b : ℕ) → a ≤ n → digits z f (suc n) a b ≡ digits z f n a b
spare_fuel z f zero zero b h = refl
spare_fuel z f zero (suc a) b h = absurd (omega arith)
spare_fuel z f (suc n) zero b h = refl
spare_fuel z f (suc n) (suc a) b h =
    ap (λ (d : ℕ). d * 2 + f (suc a % 2) (b % 2))
      (spare_fuel z f n (suc a / 2) (b / 2) (omega arith))

digits_enough : (z : ℕ → ℕ) (f : ℕ → ℕ → ℕ) (k a b : ℕ) → digits z f (k + a) a b ≡ digits z f a a b
digits_enough z f zero a b = ap (λ (n : ℕ). digits z f n a b) (omega arith)
digits_enough z f (suc k) a b =
    ap (λ (n : ℕ). digits z f n a b) (suc_shift k a)
    ∙ spare_fuel z f (k + a) a b (omega arith)
    ∙ digits_enough z f k a b
  where
    suc_shift : (k a : ℕ) → suc k + a ≡ suc (k + a)
    suc_shift k a = omega arith

pub lowest_digit :
    (z : ℕ → ℕ) (f : ℕ → ℕ → ℕ) (a b : ℕ)
    → digits z f (suc a) (suc a) b
      ≡ digits z f (suc a / 2) (suc a / 2) (b / 2) * 2 + f (suc a % 2) (b % 2)
lowest_digit z f a b =
    let split : a ≡ (a - suc a / 2) + suc a / 2 = omega arith in
    ap (λ (d : ℕ). d * 2 + f (suc a % 2) (b % 2))
      (ap (λ (n : ℕ). digits z f n (suc a / 2) (b / 2)) split
        ∙ digits_enough z f (a - suc a / 2) (suc a / 2) (b / 2))

pub bit_or_lowest : (a b : ℕ) → bit_or a b ≡ bit_or (a / 2) (b / 2) * 2 + max (a % 2) (b % 2)
bit_or_lowest zero b = simp bit_or-bitwise (omega arith)
bit_or_lowest (suc a) b = simp bit_or-bitwise (lowest_digit (λ y. y) max a b)

twice_shift : (b k : ℕ) → b * 2 ^ suc k ≡ 2 * (b * 2 ^ k)
twice_shift b k = omega (arith, ap (λ (p : ℕ). b * p) (pow-succ' 2 k))

-- `a | (b << k)` is a sum, where `a` has at most `k` bits.
pub bit_or_shifted : (k a b : ℕ) → a < 2 ^ k → bit_or a (b * 2 ^ k) ≡ a + b * 2 ^ k
bit_or_shifted zero a b h =
    let none : a ≡ 0 = omega arith in rw none (bit_or-bitwise 0 (b * 2 ^ 0) ∙ omega arith)
bit_or_shifted (suc k) a b h =
    let double : b * 2 ^ suc k ≡ 2 * (b * 2 ^ k) = twice_shift b k in
    let half : b * 2 ^ suc k / 2 ≡ b * 2 ^ k = omega arith in
    let low : b * 2 ^ suc k % 2 ≡ 0 = omega arith in
    let small : a / 2 < 2 ^ k = omega (arith, pow-succ' 2 k) in
    bit_or_lowest a (b * 2 ^ suc k)
    ∙ rw (half, low, bit_or_shifted k (a / 2) b small) (omega (arith, double))
