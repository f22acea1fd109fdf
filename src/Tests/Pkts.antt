-- ===== src/Tests/Pkts.antt =====
-- crates/git-bale/src/pktline.rs on a list of two lines and a small blob.
use baleforgit.Prelude.{All, [], arith, ok, refl, stuck, ◌++◌, ◌>>=◌, ◌∷◌, ◌≡◌, ◌≢◌}
use baleforgit.Core.{Bytes, Text}
use baleforgit.Pkt.Blob.{read_binary_to-write_all_then_flush}
use baleforgit.Pkt.Cap.{Capped, read_binary_to-Capped}
use baleforgit.Pkt.Read.{read_binary_to, read_text, read_text_list}
use baleforgit.Pkt.RoundTrip.{IsLine, read_text-write_text, read_text_list-write_text_list}
use baleforgit.Pkt.Steps.{read_text_list-ne-stuck}
use baleforgit.Pkt.Write.{write_all_then_flush, write_text, write_text_list}
use baleforgit.Prelude.Utf8.{is_utf8}

abbrev hello : Text
hello = b'h' ∷ b'i' ∷ []

-- ends in a two-byte character
abbrev accented : Text
accented = b'e' ∷ 0xc3 ∷ 0xa9 ∷ []

lines-IsLine : All IsLine (hello ∷ accented ∷ [])
unfolding is_utf8
lines-IsLine = ((omega arith, refl), ((omega arith, refl), tt))

read_text-write_text_example :
    (write_text accented >>= λ out. read_text (out ++ hello)) ≡ ok (accented, hello)
read_text-write_text_example = read_text-write_text accented hello lines-IsLine.1.0

read_text_list-write_text_list_example :
    (write_text_list (hello ∷ accented ∷ []) >>= λ out. read_text_list (out ++ hello))
    ≡ ok (hello ∷ accented ∷ [], hello)
read_text_list-write_text_list_example =
    read_text_list-write_text_list (hello ∷ accented ∷ []) hello lines-IsLine

read_binary_to-write_all_then_flush_example :
    (packets : Bytes) × (write_all_then_flush (1 ∷ 2 ∷ 3 ∷ []) ≡ ok packets)
    × (read_binary_to 3 (packets ++ hello) (7 ∷ []) ≡ ((7 ∷ []) ++ 1 ∷ 2 ∷ 3 ∷ [], ok (3, hello)))
read_binary_to-write_all_then_flush_example =
    read_binary_to-write_all_then_flush 3 (1 ∷ 2 ∷ 3 ∷ []) (7 ∷ []) hello (omega arith)

read_text_list-ne-stuck_example : read_text_list hello ≢ stuck
read_text_list-ne-stuck_example = read_text_list-ne-stuck hello

-- a packet of two bytes, and no flush after it
abbrev cut_input : Bytes
cut_input = b'0' ∷ b'0' ∷ b'0' ∷ b'6' ∷ 1 ∷ 2 ∷ []

read_binary_to-Capped_example : Capped 10 0 (7 ∷ []) (read_binary_to 10 cut_input (7 ∷ []))
read_binary_to-Capped_example = read_binary_to-Capped 10 cut_input (7 ∷ []) (omega arith)
