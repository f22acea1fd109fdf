-- ===== src/Pkt/Write.antt =====
-- `PktWriter` of crates/git-bale/src/pktline.rs.
use baleforgit.Prelude.{
  List, Result, [], drop, err, if◌then◌else◌, length, ltb, min, ok, stuck, suc, take, zero, ℕ, ◌%◌,
  ◌++◌, ◌+◌, ◌/◌, ◌>>=◌, ◌∷◌,
}
use baleforgit.Core.{Bytes, Text}
use baleforgit.Pkt.{PktError, max_pkt_payload, pkt_header_len, text_too_long}
use baleforgit.Wire.{hex_digit}

-- `{n:04x}`, of a number below 65536
unfoldable pub hex_len : ℕ → Bytes
hex_len n =
    hex_digit (n / 4096)
    ∷ hex_digit (n / 256 % 16)
    ∷ hex_digit (n / 16 % 16)
    ∷ hex_digit (n % 16)
    ∷ []

abbrev pub flush_packet : Bytes
flush_packet = b'0' ∷ b'0' ∷ b'0' ∷ b'0' ∷ []

unfoldable pub write_text : Text → Result PktError Bytes
unfolding hex_len
write_text line =
    if ltb max_pkt_payload (length line + 1)
    then err text_too_long
    else ok (hex_len (length line + 1 + pkt_header_len) ++ (line ++ 10 ∷ []))

unfoldable pub write_text_list : List Text → Result PktError Bytes
unfolding write_text
write_text_list [] = ok flush_packet
write_text_list (line ∷ lines) = do
  bytes ← write_text line
  rest ← write_text_list lines
  ok (bytes ++ rest)

-- `Write::write`: one packet, and how many bytes of `buf` it took
unfoldable pub write_bytes : Bytes → Bytes × ℕ
unfolding hex_len
write_bytes buf =
    let n = min (length buf) max_pkt_payload in (hex_len (n + pkt_header_len) ++ take n buf, n)

-- The loop of `write_binary`: a round takes a byte at least.
unfoldable pub binary_packets : ℕ → Bytes → Result PktError Bytes
unfolding hex_len
binary_packets fuel [] = ok []
binary_packets zero (b ∷ bs) = stuck
binary_packets (suc fuel) (b ∷ bs) = do
  let n = min (length (b ∷ bs)) max_pkt_payload
  rest ← binary_packets fuel (drop n (b ∷ bs))
  ok (hex_len (n + pkt_header_len) ++ (take n (b ∷ bs) ++ rest))

unfoldable pub write_binary : Bytes → Result PktError Bytes
unfolding binary_packets
write_binary bytes = binary_packets (length bytes) bytes

unfoldable pub write_all_then_flush : Bytes → Result PktError Bytes
unfolding write_binary
write_all_then_flush bytes = do packets ← write_binary bytes; ok (packets ++ flush_packet)
