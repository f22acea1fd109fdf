-- ===== src/Pkt/Framing.antt =====
-- A packet as the writer puts it down is the packet that the reader takes off.
use baleforgit.Prelude.{
  ==_ne, [], ap, arith, drop-append, false, length, length-append, le→ltb_false, ok, refl, some,
  subst, take-append, ℕ, ◌%◌, ◌*◌, ◌++◌, ◌+◌, ◌-◌, ◌/◌, ◌<◌, ◌==◌, ◌∙◌, ◌∷◌, ◌≡◌, ◌≤◌,
}
use baleforgit.Core.{Bytes}
use baleforgit.Pkt.{flush, max_pkt_payload, packet, pkt_header_len}
use baleforgit.Pkt.Read.{
  add_digit, hex_digits, hex_value, parse_hex_len, read_exact, read_packet, read_payload,
}
use baleforgit.Pkt.Write.{flush_packet, hex_len}
use baleforgit.Wire.{hex_digit}

hex_value-hex_digit : (n : ℕ) → n < 16 → hex_value (hex_digit n) ≡ some n
unfolding hex_value
hex_value-hex_digit n h = ground arith

hex_digit-not_plus : (n : ℕ) → n < 16 → (hex_digit n == b'+') ≡ false
hex_digit-not_plus n h = ground arith

hex_digits-digit :
    (acc n : ℕ) (s : Bytes)
    → n < 16
    → hex_digits (some acc) (hex_digit n ∷ s) ≡ hex_digits (some (acc * 16 + n)) s
unfolding hex_digits
hex_digits-digit acc n s h = ap (λ o. hex_digits (add_digit acc o) s) (hex_value-hex_digit n h)

parse_hex_len-hex_len : (n : ℕ) → n < 65536 → parse_hex_len (hex_len n) ≡ some n
unfolding parse_hex_len hex_digits hex_len
parse_hex_len-hex_len n h =
    let value : (((0 * 16 + n / 4096) * 16 + n / 256 % 16) * 16 + n / 16 % 16) * 16 + n % 16 ≡ n =
      omega arith in
    let d0 : ℕ = n / 4096 in
    let d1 : ℕ = n / 256 % 16 in
    let d2 : ℕ = n / 16 % 16 in
    let d3 : ℕ = n % 16 in
    rw (hex_digit-not_plus (n / 4096) (omega arith)) (
      hex_digits-digit 0 (n / 4096) (hex_digit d1 ∷ hex_digit d2 ∷ hex_digit d3 ∷ []) (omega arith)
      ∙ hex_digits-digit (0 * 16 + d0) d1 (hex_digit d2 ∷ hex_digit d3 ∷ []) (omega arith)
      ∙ hex_digits-digit ((0 * 16 + d0) * 16 + d1) d2 (hex_digit d3 ∷ []) (omega arith)
      ∙ hex_digits-digit (((0 * 16 + d0) * 16 + d1) * 16 + d2) d3 [] (omega arith)
      ∙ ap some value)

pub read_exact-append :
    (n : ℕ) (xs rest : Bytes) → length xs ≡ n → read_exact n (xs ++ rest) ≡ ok (xs, rest)
unfolding read_exact
read_exact-append n xs rest e =
    subst (λ (k : ℕ). read_exact k (xs ++ rest) ≡ ok (xs, rest)) e
      (rw
        (
          le→ltb_false (length (xs ++ rest)) (length xs) (omega (arith, length-append xs rest)),
          take-append xs rest,
          drop-append xs rest,
        )
        refl)

read_payload-data :
    (n : ℕ) (payload rest : Bytes)
    → length payload ≡ n
    → read_payload (some (n + pkt_header_len)) (payload ++ rest) ≡ ok (packet payload, rest)
unfolding read_payload
read_payload-data n payload rest e =
    let not_0 : (n + pkt_header_len == 0) ≡ false = ==_ne (omega arith) in
    let not_1 : (n + pkt_header_len == 1) ≡ false = ==_ne (omega arith) in
    let not_2 : (n + pkt_header_len == 2) ≡ false = ==_ne (omega arith) in
    simp (
      not_0,
      not_1,
      not_2,
      le→ltb_false (n + pkt_header_len) pkt_header_len (omega arith),
      read_exact-append (n + pkt_header_len - pkt_header_len) payload rest (omega arith),
    )

pub length-hex_len : (n : ℕ) → length (hex_len n) ≡ 4
unfolding hex_len
length-hex_len n = refl

pub read_packet-data :
    (payload rest : Bytes)
    → length payload ≤ max_pkt_payload
    → read_packet (hex_len (length payload + pkt_header_len) ++ (payload ++ rest))
      ≡ ok (packet payload, rest)
unfolding read_packet
read_packet-data payload rest h =
    rw
      (
        read_exact-append pkt_header_len (hex_len (length payload + pkt_header_len))
            (payload ++ rest) (length-hex_len (length payload + pkt_header_len)),
        parse_hex_len-hex_len (length payload + pkt_header_len) (omega arith),
      )
      (read_payload-data (length payload) payload rest refl)

pub read_packet-flush : (rest : Bytes) → read_packet (flush_packet ++ rest) ≡ ok (flush, rest)
unfolding read_packet parse_hex_len hex_digits hex_value read_payload read_exact
read_packet-flush rest = rw (read_exact-append pkt_header_len flush_packet rest refl) refl
