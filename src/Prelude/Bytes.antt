-- ===== src/Prelude/Bytes.antt =====
-- Bytes, and Rust's `to_le_bytes` and `from_le_bytes` at any width.
use baleforgit.Prelude.Lists.{All, length}
use Prim.Native.Nat.{suc, zero, ℕ, ◌%◌, ◌*◌, ◌+◌, ◌/◌, ◌<◌, ◌^◌}
use mathlib.Core.List.{List, [], ◌∷◌}
use mathlib.Core.Path.{ap, refl, ◌≡◌}
use native.Mathlib.Omega.{arith}
use native.Mathlib.Nat.{pow-succ'}

abbrev pub IsByte : ℕ → Type 0
IsByte b = b < 256

abbrev pub IsU32 : ℕ → Type 0
IsU32 v = v < 2 ^ 32

abbrev pub IsU64 : ℕ → Type 0
IsU64 v = v < 2 ^ 64

-- `v.to_le_bytes()` of an unsigned integer of `k` bytes
unfoldable pub to_le_bytes : ℕ → ℕ → List ℕ
to_le_bytes zero v = []
to_le_bytes (suc k) v = (v % 256) ∷ to_le_bytes k (v / 256)

unfoldable pub from_le_bytes : List ℕ → ℕ
from_le_bytes [] = 0
from_le_bytes (b ∷ bs) = b + 256 * from_le_bytes bs

pub length-to_le_bytes : (k v : ℕ) → length (to_le_bytes k v) ≡ k
unfolding to_le_bytes
length-to_le_bytes zero v = refl
length-to_le_bytes (suc k) v = ap suc (length-to_le_bytes k (v / 256))

pub to_le_bytes-IsByte : (k v : ℕ) → All IsByte (to_le_bytes k v)
unfolding to_le_bytes
to_le_bytes-IsByte zero v = tt
to_le_bytes-IsByte (suc k) v = (omega arith, to_le_bytes-IsByte k (v / 256))

below_div : (k v : ℕ) → v < 256 ^ suc k → v / 256 < 256 ^ k
below_div k v h = grind (arith)

pub from_le_bytes-to_le_bytes : (k v : ℕ) → v < 256 ^ k → from_le_bytes (to_le_bytes k v) ≡ v
unfolding to_le_bytes from_le_bytes
from_le_bytes-to_le_bytes zero v h = omega arith
from_le_bytes-to_le_bytes (suc k) v h =
    omega (arith, from_le_bytes-to_le_bytes k (v / 256) (below_div k v h))

pub from_le_bytes-lt : (xs : List ℕ) → All IsByte xs → from_le_bytes xs < 256 ^ length xs
unfolding from_le_bytes
from_le_bytes-lt [] h = omega arith
from_le_bytes-lt (x ∷ xs) h = omega (arith, pow-succ' 256 (length xs), h.0, from_le_bytes-lt xs h.1)
