-- ===== src/Pkt/Steps.antt =====
-- Each read ends, and what it leaves of the input is shorter by what it took.
use baleforgit.Prelude.{
  Bool-cases, List, Option, Result, [], ap, arith, drop, err, if-both, if◌then◌else◌, inl, inr,
  length, length-drop, length-take, ltb, ltb_false→le, none, ok, ok-injective, refl, some, stuck,
  suc, take, zero, ℕ, ◌+◌, ◌-◌, ◌<◌, ◌==◌, ◌>>=◌, ◌∷◌, ◌≡◌, ◌≢◌, ◌≤◌,
}
use baleforgit.Core.{Bytes, Text}
use baleforgit.Pkt.{
  Packet, PktError, bad_header, delim, flush, packet, pkt_header_len, response_end, undersized,
  unexpected_eof,
}
use baleforgit.Pkt.Read.{
  is_flush, parse_hex_len, pop_newline, read_exact, read_packet, read_payload, read_text_list,
  text_list_loop, text_of,
}
use baleforgit.Prelude.Utf8.{is_utf8}

read_exact-ok :
    (n : ℕ) (s xs rest : Bytes)
    → read_exact n s ≡ ok (xs, rest)
    → (length rest + n ≡ length s) × (length xs ≡ n)
unfolding read_exact
read_exact-ok n s xs rest h = elim (Bool-cases (ltb (length s) n)) [
  | inl short ↦
      let p : ◌≡◌ {A = Result PktError (Bytes × Bytes)} (err unexpected_eof) (ok (xs, rest)) =
        rw short at h in
      cc
  | inr enough ↦
      let p : ok (take n s, drop n s) ≡ ok (xs, rest) = rw enough at h in
      let q : (take n s, drop n s) ≡ (xs, rest) = ok-injective p in
      let le : n ≤ length s = ltb_false→le (length s) n enough in
      (
        omega (arith, length-drop n s, ap (λ r. length r.1) q),
        omega (arith, length-take n s, ap (λ r. length r.0) q),
      )
]

read_exact-ne-stuck : (n : ℕ) (s : Bytes) → read_exact n s ≢ stuck
unfolding read_exact
read_exact-ne-stuck n s h = ground arith

-- A step of the reader: it ends, and what it leaves is shorter by `n` at least.
unfoldable pub Step {ℓ} : {A : Type ℓ} → ℕ → Bytes → Result PktError (A × Bytes) → Type ℓ
Step {A = A} n s r =
    (r ≢ stuck) × ((a : A) (rest : Bytes) → r ≡ ok (a, rest) → length rest + n ≤ length s)

Step-ok {ℓ} : {A : Type ℓ} (s : Bytes) (a : A) → Step 0 s (ok (a, s))
unfolding Step
Step-ok s a = (λ p. cc, λ b rest p. omega (arith, ap (λ r. length r.1) (ok-injective p)))

Step-err {ℓ} : (A : Type ℓ) (n : ℕ) (s : Bytes) (e : PktError) → Step {A = A} n s (err e)
unfolding Step
Step-err A n s e = (λ p. cc, λ b rest p. cc)

Step->>= {ℓ κ} :
    {A : Type ℓ} {B : Type κ} (n m : ℕ) (s : Bytes) (r : Result PktError (A × Bytes))
    (f : A × Bytes → Result PktError (B × Bytes))
    → Step n s r
    → ((a : A) (rest : Bytes) → length rest + n ≤ length s → Step m rest (f (a, rest)))
    → Step (n + m) s (r >>= f)
unfolding Step
Step->>= n m s (ok (a, rest)) f h k =
    let le : length rest + n ≤ length s = h.1 a rest refl in
    ((k a rest le).0, λ b rest' p. omega (arith, le, (k a rest le).1 b rest' p))
Step->>= n m s (err e) f h k = (λ p. cc, λ b rest p. cc)
Step->>= n m s stuck f h k = absurd (h.0 refl)

read_exact-Step : (n : ℕ) (s : Bytes) → Step n s (read_exact n s)
unfolding Step
read_exact-Step n s =
    (read_exact-ne-stuck n s, λ xs rest p. omega (arith, read_exact-ok n s xs rest p))

Step-le {ℓ} :
    {A : Type ℓ} (n : ℕ) (s : Bytes) (r : Result PktError (A × Bytes)) → Step n s r → Step 0 s r
unfolding Step
Step-le n s r h = (h.0, λ a rest p. omega (arith, h.1 a rest p))

read_payload-Step : (o : Option ℕ) (s : Bytes) → Step 0 s (read_payload o s)
unfolding read_payload
read_payload-Step none s = Step-err Packet 0 s bad_header
read_payload-Step (some n) s = if-both (Step 0 s) (n == 0) (Step-ok s flush) (
    if-both (Step 0 s) (n == 1) (Step-ok s delim) (
      if-both (Step 0 s) (n == 2) (Step-ok s response_end) (
        if-both (Step 0 s) (ltb n pkt_header_len) (Step-err Packet 0 s (undersized n)) (
          Step-le (n - pkt_header_len + 0) s _ (
            Step->>= (n - pkt_header_len) 0 s (read_exact (n - pkt_header_len) s)
              (λ r. ok (packet r.0, r.1)) (read_exact-Step (n - pkt_header_len) s)
              (λ xs rest le. Step-ok rest (packet xs)))))))

-- Each packet takes its header at least.
pub read_packet-Step : (s : Bytes) → Step 4 s (read_packet s)
unfolding read_packet
read_packet-Step s =
    Step->>= 4 0 s (read_exact pkt_header_len s) (λ r. read_payload (parse_hex_len r.0) r.1)
      (read_exact-Step 4 s) (λ xs rest le. read_payload-Step (parse_hex_len xs) rest)

-- A packet that is no text ends the read; one that is leaves the rest.
text_of-ne-stuck : (p : Packet) → text_of p ≢ stuck
unfolding text_of
text_of-ne-stuck (packet bytes) =
    if-both (λ r. r ≢ stuck) (is_utf8 (pop_newline bytes)) (λ p. cc) (λ p. cc)
text_of-ne-stuck flush = λ p. cc
text_of-ne-stuck delim = λ p. cc
text_of-ne-stuck response_end = λ p. cc

text_of->>= {ℓ} :
    (A : Type ℓ) (p : Packet) (s : Bytes) (f : Text → Result PktError (A × Bytes))
    → ((line : Text) → Step 0 s (f line))
    → Step 0 s (text_of p >>= f)
text_of->>= A p s f h = go (text_of p) (text_of-ne-stuck p)
  where
    go : (r : Result PktError Text) → r ≢ stuck → Step 0 s (r >>= f)
    go (ok line) e = h line
    go (err e') e = Step-err A 0 s e'
    go stuck e = absurd (e refl)

text_list_loop-Step : (fuel : ℕ) (s : Bytes) → length s < fuel → Step 0 s (text_list_loop fuel s)
unfolding text_list_loop
text_list_loop-Step zero s h = absurd (omega arith)
text_list_loop-Step (suc fuel) s h = Step-le 4 s (text_list_loop (suc fuel) s) (
    Step->>= 4 0 s (read_packet s) (λ x. round x.0 x.1) (read_packet-Step s)
      (λ p rest le. round-Step p rest (text_list_loop-Step fuel rest (omega arith))))
  where
    round : Packet → Bytes → Result PktError (List Text × Bytes)
    round p rest = if is_flush p then ok ([], rest) else do
      line ← text_of p
      (lines, rest') ← text_list_loop fuel rest
      ok (line ∷ lines, rest')

    round-Step :
        (p : Packet) (rest : Bytes)
        → Step 0 rest (text_list_loop fuel rest)
        → Step 0 rest (round p rest)
    round-Step p rest st = if-both (Step 0 rest) (is_flush p) (Step-ok rest []) (
        text_of->>= (List Text) p rest _ (λ line.
          Step->>= 0 0 rest (text_list_loop fuel rest) (λ r. ok (line ∷ r.0, r.1)) st
            (λ lines rest' le. Step-ok rest' (line ∷ lines))))

-- The loop of `read_text_list` ends on every input.
pub read_text_list-ne-stuck : (s : Bytes) → read_text_list s ≢ stuck
unfolding read_text_list Step
read_text_list-ne-stuck s = (text_list_loop-Step (suc (length s)) s (omega arith)).0
