-- ===== src/Pkt/Blob.antt =====
-- A blob through `write_all_then_flush` and `read_binary_to`, and what the reader's cap guarantees.
use baleforgit.Prelude.{
  [], ap, append-nil, append_assoc, arith, drop, false, length, length-append, length-drop,
  length-take, le→ltb_false, ltb, min, ok, refl, subst, suc, take, take-append-drop, zero, ℕ, ◌++◌,
  ◌+◌, ◌<◌, ◌∙◌, ◌∷◌, ◌≡◌, ◌≤◌,
}
use baleforgit.Core.{Bytes}
use baleforgit.Pkt.{flush, max_pkt_payload, packet, pkt_header_len}
use baleforgit.Pkt.Framing.{length-hex_len, read_packet-data, read_packet-flush}
use baleforgit.Pkt.Read.{binary_loop, read_binary_to, read_packet, saturating_add}
use baleforgit.Pkt.Write.{binary_packets, flush_packet, hex_len, write_all_then_flush, write_binary}

loop_flush :
    (fuel limit total : ℕ) (s out rest : Bytes)
    → read_packet s ≡ ok (flush, rest)
    → binary_loop (suc fuel) limit s out total ≡ (out, ok (total, rest))
unfolding binary_loop
loop_flush fuel limit total s out rest e = rw (e, binary_loop) refl

loop_packet :
    (fuel limit total : ℕ) (s out chunk rest : Bytes)
    → read_packet s ≡ ok (packet chunk, rest)
    → total + length chunk ≤ limit
    → binary_loop (suc fuel) limit s out total
      ≡ binary_loop fuel limit rest (out ++ chunk) (total + length chunk)
unfolding binary_loop
loop_packet fuel limit total s out chunk rest e h =
    let room : ltb limit (saturating_add total (length chunk)) ≡ false =
      le→ltb_false limit (saturating_add total (length chunk)) (omega arith) in
    rw (e, room, binary_loop) refl

-- What the packets of a blob do to the reader, whatever it has written before.
Sent : Bytes → Bytes → Type 0
Sent blob packets =
    (fuel limit total : ℕ) (out rest : Bytes)
    → length packets < fuel
    → total + length blob ≤ limit
    → binary_loop fuel limit (packets ++ (flush_packet ++ rest)) out total
      ≡ (out ++ blob, ok (total + length blob, rest))

Sent-nothing : Sent [] []
unfolding Sent
Sent-nothing zero limit total out rest lt h = absurd (omega arith)
Sent-nothing (suc fuel) limit total out rest lt h =
    let same : total + 0 ≡ total = omega arith in
    loop_flush fuel limit total (flush_packet ++ rest) out rest (read_packet-flush rest)
    ∙ rw (append-nil out, same) refl

Sent-more :
    (chunk blob packets : Bytes)
    → length chunk ≤ max_pkt_payload
    → Sent blob packets
    → Sent (chunk ++ blob) (hex_len (length chunk + pkt_header_len) ++ (chunk ++ packets))
unfolding Sent
Sent-more chunk blob packets h sent zero limit total out rest lt k = absurd (omega arith)
Sent-more chunk blob packets h sent (suc fuel) limit total out rest lt k =
    let header = hex_len (length chunk + pkt_header_len) in
    let size : length (chunk ++ blob) ≡ length chunk + length blob = length-append chunk blob in
    let sum : total + length chunk + length blob ≡ total + length (chunk ++ blob) = omega arith in
    let framed : header ++ (chunk ++ packets) ++ (flush_packet ++ rest)
        ≡ header ++ (chunk ++ (packets ++ (flush_packet ++ rest))) =
      append_assoc header (chunk ++ packets) (flush_packet ++ rest)
      ∙ ap (λ t. header ++ t) (append_assoc chunk packets (flush_packet ++ rest)) in
    let ih =
      sent fuel limit (total + length chunk) (out ++ chunk) rest
        (omega (
          arith,
          length-hex_len (length chunk + pkt_header_len),
          length-append header (chunk ++ packets),
          length-append chunk packets,
        ))
        (omega arith) in
    ap (λ s. binary_loop (suc fuel) limit s out total) framed
    ∙ loop_packet fuel limit total (header ++ (chunk ++ (packets ++ (flush_packet ++ rest)))) out
        chunk (packets ++ (flush_packet ++ rest))
        (read_packet-data chunk (packets ++ (flush_packet ++ rest)) h) (omega arith)
    ∙ ih
    ∙ rw (append_assoc out chunk blob, sum) refl

binary_packets-Sent :
    (fuel : ℕ) (blob : Bytes)
    → length blob ≤ fuel
    → (packets : Bytes) × (binary_packets fuel blob ≡ ok packets) × Sent blob packets
unfolding binary_packets
binary_packets-Sent fuel [] h = ([], refl, Sent-nothing)
binary_packets-Sent zero (b ∷ bs) h = absurd (omega arith)
binary_packets-Sent (suc fuel) (b ∷ bs) h =
    let n : ℕ = min (length (b ∷ bs)) max_pkt_payload in
    let chunk : Bytes = take n (b ∷ bs) in
    let more : Bytes = drop n (b ∷ bs) in
    let size : length chunk ≡ n = length-take n (b ∷ bs) ∙ omega arith in
    let (packets, e, sent) =
      binary_packets-Sent fuel more (omega (arith, length-drop n (b ∷ bs))) in
    let whole : chunk ++ more ≡ b ∷ bs = take-append-drop n (b ∷ bs) in
    let sent' : Sent (chunk ++ more)
        (hex_len (length chunk + pkt_header_len) ++ (chunk ++ packets)) =
      Sent-more chunk more packets (omega arith) sent in
    (
      hex_len (n + pkt_header_len) ++ (chunk ++ packets),
      rw e refl,
      subst (λ s. Sent s (hex_len (n + pkt_header_len) ++ (chunk ++ packets))) whole
          (subst
            (λ (k : ℕ). Sent (chunk ++ more) (hex_len (k + pkt_header_len) ++ (chunk ++ packets)))
            size sent'),
    )

-- A blob that the limit admits arrives whole, after what the sink holds, with its length as the
-- total, and the reader stands behind the flush packet.
pub read_binary_to-write_all_then_flush :
    (limit : ℕ) (blob out rest : Bytes)
    → length blob ≤ limit
    → (packets : Bytes) × (write_all_then_flush blob ≡ ok packets)
      × (read_binary_to limit (packets ++ rest) out ≡ (out ++ blob, ok (length blob, rest)))
unfolding write_all_then_flush write_binary read_binary_to Sent
read_binary_to-write_all_then_flush limit blob out rest h =
    let (packets, e, sent) = binary_packets-Sent (length blob) blob (omega arith) in
    let fuel : ℕ = suc (length ((packets ++ flush_packet) ++ rest)) in
    (
      packets ++ flush_packet,
      rw e refl,
      ap (λ s. binary_loop fuel limit s out 0) (append_assoc packets flush_packet rest)
          ∙ sent fuel limit 0 out rest
              (omega (
                arith,
                length-append (packets ++ flush_packet) rest,
                length-append packets flush_packet,
              ))
              (omega arith)
          ∙ ap (λ (k : ℕ). (out ++ blob, ok (k, rest))) (omega arith),
    )
