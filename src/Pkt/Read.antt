-- ===== src/Pkt/Read.antt =====
-- `PktReader` of crates/git-bale/src/pktline.rs.
use baleforgit.Prelude.{
  Bool, List, Option, Result, [], drop, err, false, if◌then◌else◌, leb, length, ltb, min, none, ok,
  some, stuck, suc, take, true, zero, ℕ, ◌&&◌, ◌*◌, ◌++◌, ◌+◌, ◌-◌, ◌==◌, ◌>>=◌, ◌^◌, ◌∷◌,
}
use baleforgit.Core.{Bytes, Text}
use baleforgit.Pkt.{
  Packet, PktError, bad_header, delim, flush, not_utf8, over_cap, packet, pkt_header_len,
  response_end, undersized, unexpected_eof, unexpected_packet,
}
use baleforgit.Prelude.Utf8.{is_utf8}

abbrev pub PktReader {ℓ} : Type ℓ → Type ℓ
PktReader A = Bytes → Result PktError (A × Bytes)

unfoldable pub read_exact : ℕ → PktReader Bytes
read_exact n s = if ltb (length s) n then err unexpected_eof else ok (take n s, drop n s)

-- one digit of `from_str_radix(_, 16)`, in either case
unfoldable pub hex_value : ℕ → Option ℕ
hex_value c =
    if leb b'0' c && leb c b'9'
    then some (c - b'0')
    else if leb b'a' c && leb c b'f'
    then some (c - b'a' + 10)
    else if leb b'A' c && leb c b'F'
    then some (c - b'A' + 10)
    else none

abbrev pub add_digit : ℕ → Option ℕ → Option ℕ
add_digit n none = none
add_digit n (some d) = some (n * 16 + d)

unfoldable pub hex_digits : Option ℕ → Bytes → Option ℕ
unfolding hex_value
hex_digits none s = none
hex_digits (some n) [] = some n
hex_digits (some n) (c ∷ s) = hex_digits (add_digit n (hex_value c)) s

-- `u16::from_str_radix(header, 16)` of four bytes: like Rust's parser it takes a leading `+`. Four
-- digits fit an `u16`, and what is no UTF-8 has no digits either.
unfoldable pub parse_hex_len : Bytes → Option ℕ
unfolding hex_digits
parse_hex_len [] = none
parse_hex_len (c ∷ s) = if c == b'+' then hex_digits (some 0) s else hex_digits (some 0) (c ∷ s)

-- The match on the length; the last branch is a data packet.
unfoldable pub read_payload : Option ℕ → PktReader Packet
unfolding read_exact
read_payload none s = err bad_header
read_payload (some n) s =
    if n == 0
    then ok (flush, s)
    else if n == 1
    then ok (delim, s)
    else if n == 2
    then ok (response_end, s)
    else if ltb n pkt_header_len
    then err (undersized n)
    else (read_exact (n - pkt_header_len) s >>= λ r. ok (packet r.0, r.1))

unfoldable pub read_packet : PktReader Packet
unfolding read_payload parse_hex_len
read_packet s = read_exact pkt_header_len s >>= λ r. read_payload (parse_hex_len r.0) r.1

-- `if bytes.last() == Some(&b'\n') { bytes.pop(); }`
unfoldable pub pop_newline : Bytes → Bytes
pop_newline [] = []
pop_newline (c ∷ []) = if c == 10 then [] else c ∷ []
pop_newline (c ∷ d ∷ s) = c ∷ pop_newline (d ∷ s)

unfoldable pub text_of : Packet → Result PktError Text
unfolding pop_newline is_utf8
text_of (packet bytes) =
    let line = pop_newline bytes in if is_utf8 line then ok line else err not_utf8
text_of _ = err unexpected_packet

unfoldable pub read_text : PktReader Text
unfolding read_packet text_of
read_text s = do (p, rest) ← read_packet s; line ← text_of p; ok (line, rest)

abbrev pub is_flush : Packet → Bool
is_flush flush = true
is_flush _ = false

-- The loop takes four bytes at least in a round.
unfoldable pub text_list_loop : ℕ → PktReader (List Text)
unfolding read_packet text_of
text_list_loop zero s = stuck
text_list_loop (suc fuel) s = do
  (p, rest) ← read_packet s
  if is_flush p
      then ok ([], rest)
      else do line ← text_of p; (lines, rest') ← text_list_loop fuel rest; ok (line ∷ lines, rest')

unfoldable pub read_text_list : PktReader (List Text)
unfolding text_list_loop
read_text_list s = text_list_loop (suc (length s)) s

-- `out` comes back beside the result: what was written before an error stays written.
abbrev pub Sink : Type 0
Sink = Bytes × Result PktError (ℕ × Bytes)

-- `total.saturating_add(n)` of `u64`
abbrev pub saturating_add : ℕ → ℕ → ℕ
saturating_add a b = min (a + b) (2 ^ 64 - 1)

unfoldable pub binary_loop : ℕ → ℕ → Bytes → Bytes → ℕ → Sink
unfolding read_packet
binary_loop zero cap s out total = (out, stuck)
binary_loop (suc fuel) cap s out total = elim (read_packet s) [
  | ok (flush, rest) ↦ (out, ok (total, rest))
  | ok (packet bytes, rest) ↦
      let more = binary_loop fuel cap rest (out ++ bytes) (total + length bytes) in
      if ltb cap (saturating_add total (length bytes)) then (out, err over_cap) else more
  | ok (_, rest) ↦ (out, err unexpected_packet)
  | err e ↦ (out, err e)
  | stuck ↦ (out, stuck)
]

unfoldable pub read_binary_to : ℕ → Bytes → Bytes → Sink
unfolding binary_loop
read_binary_to cap s out = binary_loop (suc (length s)) cap s out 0
