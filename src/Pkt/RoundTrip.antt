-- ===== src/Pkt/RoundTrip.antt =====
-- What the writer sends, the reader returns: a list of lines, and a blob that the cap admits.
use baleforgit.Prelude.{
  All, List, [], ap, append_assoc, arith, length, length-append, le→ltb_false, ok, refl, subst, suc,
  true, zero, ℕ, ◌++◌, ◌+◌, ◌<◌, ◌>>=◌, ◌∙◌, ◌∷◌, ◌≡◌, ◌≤◌,
}
use baleforgit.Core.{Bytes, Text}
use baleforgit.Pkt.{max_pkt_payload, packet, pkt_header_len}
use baleforgit.Pkt.Framing.{read_packet-data, read_packet-flush}
use baleforgit.Pkt.Read.{
  pop_newline, read_packet, read_text, read_text_list, text_list_loop, text_of,
}
use baleforgit.Pkt.Write.{flush_packet, hex_len, write_text, write_text_list}
use baleforgit.Prelude.Utf8.{is_utf8}

pop_newline-append : (line : Bytes) → pop_newline (line ++ 10 ∷ []) ≡ line
unfolding pop_newline
pop_newline-append [] = refl
pop_newline-append (c ∷ []) = refl
pop_newline-append (c ∷ d ∷ s) = ap (λ t. c ∷ t) (pop_newline-append (d ∷ s))

-- A line that the writer accepts and `String::from_utf8` too.
abbrev pub IsLine : Text → Type 0
IsLine line = (length line < max_pkt_payload) × (is_utf8 line ≡ true)

line_packet : Text → Bytes
unfolding hex_len
line_packet line = hex_len (length line + 1 + pkt_header_len) ++ (line ++ 10 ∷ [])

write_text-line : (line : Text) → IsLine line → write_text line ≡ ok (line_packet line)
unfolding write_text line_packet
write_text-line line h = rw (le→ltb_false max_pkt_payload (length line + 1) (omega arith)) refl

read_packet-line :
    (line : Text) (rest : Bytes)
    → IsLine line
    → read_packet (line_packet line ++ rest) ≡ ok (packet (line ++ 10 ∷ []), rest)
unfolding line_packet
read_packet-line line rest h =
    let size : length (line ++ 10 ∷ []) ≡ length line + 1 = length-append line (10 ∷ []) in
    let framed = read_packet-data (line ++ 10 ∷ []) rest (omega arith) in
    subst
      (λ (n : ℕ).
        read_packet (hex_len (n + pkt_header_len) ++ ((line ++ 10 ∷ []) ++ rest))
        ≡ ok (packet (line ++ 10 ∷ []), rest))
      size framed

text_of-line : (line : Text) → IsLine line → text_of (packet (line ++ 10 ∷ [])) ≡ ok line
unfolding text_of
text_of-line line h = rw (pop_newline-append line, h.1) refl

-- A line comes back without its newline, and the reader stands behind its packet.
pub read_text-write_text :
    (line : Text) (rest : Bytes)
    → IsLine line
    → (write_text line >>= λ out. read_text (out ++ rest)) ≡ ok (line, rest)
unfolding read_text
read_text-write_text line rest h =
    rw (write_text-line line h, read_packet-line line rest h, text_of-line line h) refl

lines_bytes : List Text → Bytes
unfolding line_packet
lines_bytes [] = flush_packet
lines_bytes (line ∷ lines) = line_packet line ++ lines_bytes lines

write_text_list-lines :
    (lines : List Text) → All IsLine lines → write_text_list lines ≡ ok (lines_bytes lines)
unfolding write_text_list lines_bytes
write_text_list-lines [] h = refl
write_text_list-lines (line ∷ lines) h =
    rw (write_text-line line h.0, write_text_list-lines lines h.1) refl

length-lines_bytes : (lines : List Text) → length lines ≤ length (lines_bytes lines)
unfolding lines_bytes line_packet hex_len
length-lines_bytes [] = omega arith
length-lines_bytes (line ∷ lines) =
    omega (arith, length-append (line_packet line) (lines_bytes lines), length-lines_bytes lines)

text_list_loop-line :
    (fuel : ℕ) (s bytes line rest rest' : Bytes) (lines : List Text)
    → read_packet s ≡ ok (packet bytes, rest)
    → text_of (packet bytes) ≡ ok line
    → text_list_loop fuel rest ≡ ok (lines, rest')
    → text_list_loop (suc fuel) s ≡ ok (line ∷ lines, rest')
unfolding text_list_loop
text_list_loop-line fuel s bytes line rest rest' lines e f g = rw (e, f, g) refl

text_list_loop-lines :
    (fuel : ℕ) (lines : List Text) (rest : Bytes)
    → All IsLine lines
    → length lines < fuel
    → text_list_loop fuel (lines_bytes lines ++ rest) ≡ ok (lines, rest)
unfolding text_list_loop lines_bytes
text_list_loop-lines zero lines rest h lt = absurd (omega arith)
text_list_loop-lines (suc fuel) [] rest h lt = rw (read_packet-flush rest) refl
text_list_loop-lines (suc fuel) (line ∷ lines) rest h lt =
    ap (text_list_loop (suc fuel)) (append_assoc (line_packet line) (lines_bytes lines) rest)
    ∙ text_list_loop-line fuel (line_packet line ++ (lines_bytes lines ++ rest)) (line ++ 10 ∷ [])
        line (lines_bytes lines ++ rest) rest lines
        (read_packet-line line (lines_bytes lines ++ rest) h.0) (text_of-line line h.0)
        (text_list_loop-lines fuel lines rest h.1 (omega arith))

-- The lines come back in their order, and the reader stands behind the flush packet.
pub read_text_list-write_text_list :
    (lines : List Text) (rest : Bytes)
    → All IsLine lines
    → (write_text_list lines >>= λ out. read_text_list (out ++ rest)) ≡ ok (lines, rest)
unfolding read_text_list
read_text_list-write_text_list lines rest h = rw (write_text_list-lines lines h) (
    text_list_loop-lines (suc (length (lines_bytes lines ++ rest))) lines rest h
      (omega (arith, length-append (lines_bytes lines) rest, length-lines_bytes lines)))
