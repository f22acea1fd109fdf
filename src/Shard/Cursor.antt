-- ===== src/Shard/Cursor.antt =====
-- `Cursor` of crates/bale-server-shard/src/lib.rs. A method that advances the cursor is an action of
-- `Reader`: it returns its value with the new cursor, or the error.
use baleforgit.Prelude.{Result, drop, err, if◌then◌else◌, length, ltb, ok, stuck, take, ℕ, ◌+◌, ◌-◌}
use baleforgit.Core.{Bytes, Hash32, hash_len}
use baleforgit.Prelude.Bytes.{from_le_bytes}
use baleforgit.Shard.{ShardError, truncated}

pub record Cursor : Type 0 where
  pub buf : Bytes
  pub pos : ℕ

abbrev pub Reader {ℓ} : Type ℓ → Type ℓ
Reader A = Cursor → Result ShardError (A × Cursor)

unfoldable pub pure {ℓ} : {A : Type ℓ} → A → Reader A
pure a c = ok (a, c)

unfoldable pub fail {ℓ} : {A : Type ℓ} → ShardError → Reader A
fail e c = err e

infixl 5 ◌>>=◌ ◌>>◌
unfoldable pub ◌>>=◌ {ℓ κ} : {A : Type ℓ} {B : Type κ} → Reader A → (A → Reader B) → Reader B
unfolding pure fail
◌>>=◌ m f c = elim (m c) [ ok (a, c') ↦ f a c' | err e ↦ err e | stuck ↦ stuck ]

abbrev pub ◌>>◌ {κ} : {B : Type κ} → Reader (Unit {0}) → Reader B → Reader B
m >> k = m >>= λ _. k

-- `Cursor::remaining`
abbrev pub remaining : Cursor → ℕ
remaining c = length c.buf - c.pos

-- `Cursor::need`
unfoldable pub need : ℕ → Cursor → Result ShardError (Unit {0})
need n c =
    if ltb (length c.buf - c.pos) n
    then err (truncated c.pos (n - (length c.buf - c.pos)))
    else ok tt

-- `Cursor::take`
unfoldable pub take_bytes : ℕ → Reader Bytes
unfolding need
take_bytes n c = elim (need n c) [
  | ok _ ↦ ok (take n (drop c.pos c.buf), record c { pos = c.pos + n })
  | err e ↦ err e
  | stuck ↦ stuck
]

unfoldable pub read_u32 : Reader ℕ
unfolding ◌>>=◌ take_bytes from_le_bytes
read_u32 = do s ← take_bytes 4; pure (from_le_bytes s)

unfoldable pub read_u64 : Reader ℕ
unfolding ◌>>=◌ take_bytes from_le_bytes
read_u64 = do s ← take_bytes 8; pure (from_le_bytes s)

unfoldable pub read_hash : Reader Hash32
unfolding ◌>>=◌ take_bytes
read_hash = take_bytes hash_len

unfoldable pub skip : ℕ → Reader (Unit {0})
unfolding ◌>>=◌ take_bytes
skip n = do _ ← take_bytes n; pure tt
