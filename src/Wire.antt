-- ===== src/Wire.antt =====
-- crates/bale-server-wire/src/lib.rs: hashes as text. Each group of eight bytes is a little-endian
-- number in hexadecimal, so its bytes are written last one first.
pub mod RoundTrip
use baleforgit.Prelude.{
  ℕ, zero, suc, ◌+◌, ◌-◌, ◌*◌, ◌/◌, ◌%◌, List, [], ◌∷◌, ◌++◌, ltb, leb, ◌==◌, ◌&&◌,
}
use baleforgit.Prelude.{
  if◌then◌else◌, bit_or, length, take, drop, Result, ok, err, ◌>>=◌, ◌>>◌, ensure,
}
use baleforgit.Core.{Hash32, Text}
use mathlib.Core.List.{reverse, flat_map}

pub data HexError : Type 0 where
  bad_length bad_hex : HexError

-- one digit of `{:02x}`
abbrev pub hex_digit : ℕ → ℕ
hex_digit n = if ltb n 10 then 48 + n else 87 + n

-- `write!(out, "{:02x}", b)`
abbrev pub hex_byte : ℕ → Text
hex_byte b = hex_digit (b / 16) ∷ hex_digit (b % 16) ∷ []

unfoldable pub hex_bytes : List ℕ → Text
hex_bytes [] = []
hex_bytes (b ∷ bs) = hex_byte b ++ hex_bytes bs

-- `for group in 0..n`: the bytes `8 * group .. 8 * group + 8`, the last one first
unfoldable pub encode_groups : ℕ → Hash32 → Text
encode_groups zero h = []
encode_groups (suc n) h = hex_bytes (reverse (take 8 h)) ++ encode_groups n (drop 8 h)

unfoldable pub encode_hash : Hash32 → Text
encode_hash h = encode_groups 4 h

unfoldable pub hex_nibble : ℕ → Result HexError ℕ
hex_nibble c =
    if leb b'0' c && leb c b'9'
    then ok (c - b'0')
    else if leb b'a' c && leb c b'f'
    then ok (c - b'a' + 10)
    else err bad_hex

-- `n` pairs of digits from the front of `s`. The pairs of a group are stored from index 7 down, so
-- each byte goes in front of those before it. The catch-all is not reached: `s` has 64 bytes.
unfoldable pub decode_group : ℕ → List ℕ → Text → Result HexError (List ℕ × Text)
decode_group zero group s = ok (group, s)
decode_group (suc n) group (c ∷ d ∷ s) = do
  hi ← hex_nibble c
  lo ← hex_nibble d
  decode_group n (bit_or (hi * 16) lo ∷ group) s
decode_group (suc n) group _ = err bad_length

unfoldable pub decode_groups : ℕ → Text → Result HexError Hash32
decode_groups zero s = ok []
decode_groups (suc n) s = do
  (group, rest) ← decode_group 8 [] s
  others ← decode_groups n rest
  ok (group ++ others)

unfoldable pub decode_hash : Text → Result HexError Hash32
decode_hash s = do ensure (length s == 64) bad_length; decode_groups 4 s
