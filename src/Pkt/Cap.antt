-- ===== src/Pkt/Cap.antt =====
-- The cap of `read_binary_to`: whatever arrives, it ends, and it writes no more than it may.
-- What `read_binary_to` did to a sink that held `out`, when `total` bytes had been counted.
use baleforgit.Prelude.{
  Bool-cases, Result, [], append-nil, append_assoc, arith, err, if◌then◌else◌, inl, inr, length,
  length-append, ltb, ltb_false→le, ok, refl, stuck, suc, sym, zero, ℕ, ◌++◌, ◌+◌, ◌-◌, ◌<◌, ◌^◌,
  ◌∙◌, ◌≡◌, ◌≢◌, ◌≤◌,
}
use baleforgit.Core.{Bytes}
use baleforgit.Pkt.{
  Packet, PktError, delim, flush, over_cap, packet, response_end, unexpected_packet,
}
use baleforgit.Pkt.Read.{Sink, binary_loop, read_binary_to, read_packet, saturating_add}
use baleforgit.Pkt.Steps.{Step, read_packet-Step}

pub record Capped (limit total : ℕ) (out : Bytes) (sink : Sink) : Type 0 where
  written : Bytes
  appended : sink.0 ≡ out ++ written
  bounded : total + length written ≤ limit
  ends : sink.1 ≢ stuck
  counted : (n : ℕ) (rest : Bytes) → sink.1 ≡ ok (n, rest) → n ≡ total + length written

Capped-here :
    (limit total : ℕ) (out : Bytes) (r : Result PktError (ℕ × Bytes))
    → total ≤ limit
    → r ≢ stuck
    → ((n : ℕ) (rest : Bytes) → r ≡ ok (n, rest) → n ≡ total)
    → Capped limit total out (out, r)
Capped-here limit total out r h e k = record {
  written = [];
  appended = sym (append-nil out);
  bounded = omega arith;
  ends = e;
  counted = λ n rest p. omega (arith, k n rest p);
}

Capped-more :
    (limit total : ℕ) (out chunk : Bytes) (sink : Sink)
    → Capped limit (total + length chunk) (out ++ chunk) sink
    → Capped limit total out sink
Capped-more limit total out chunk sink c =
    let size : length (chunk ++ c.written) ≡ length chunk + length c.written =
      length-append chunk c.written in
    record {
      written = chunk ++ c.written;
      appended = c.appended ∙ append_assoc out chunk c.written;
      bounded = omega (arith, c.bounded);
      ends = c.ends;
      counted = λ n rest p. omega (arith, c.counted n rest p);
    }

binary_loop-Capped :
    (fuel limit total : ℕ) (s out : Bytes)
    → limit < 2 ^ 64 - 1
    → total ≤ limit
    → length s < fuel
    → Capped limit total out (binary_loop fuel limit s out total)
unfolding binary_loop Step
binary_loop-Capped zero limit total s out u h lt = absurd (omega arith)
binary_loop-Capped (suc fuel) limit total s out u h lt =
    after (read_packet s) (read_packet-Step s)
      (λ rest out' total'. binary_loop-Capped fuel limit total' rest out' u)
  where
    after :
        (r : Result PktError (Packet × Bytes))
        → Step 4 s r
        → ((rest out' : Bytes) (total' : ℕ)
            → total' ≤ limit
            → length rest < fuel
            → Capped limit total' out' (binary_loop fuel limit rest out' total'))
        → Capped limit total out (elim r [
          | ok (flush, rest) ↦ (out, ok (total, rest))
          | ok (packet bytes, rest) ↦
              let more = binary_loop fuel limit rest (out ++ bytes) (total + length bytes) in
              if ltb limit (saturating_add total (length bytes)) then (out, err over_cap) else more
          | ok (_, rest) ↦ (out, err unexpected_packet)
          | err e ↦ (out, err e)
          | stuck ↦ (out, stuck)
        ])
    after (ok (flush, rest)) st ih =
        Capped-here limit total out (ok (total, rest)) h (λ p. cc) (λ n r p. cc)
    after (ok (packet bytes, rest)) st ih =
        elim (Bool-cases (ltb limit (saturating_add total (length bytes)))) [
          | inl over ↦
              rw over (Capped-here limit total out (err over_cap) h (λ p. cc) (λ n r p. cc))
          | inr fits ↦
              let room : saturating_add total (length bytes) ≤ limit = ltb_false→le limit _ fits in
              rw fits (
                Capped-more limit total out bytes
                  (binary_loop fuel limit rest (out ++ bytes) (total + length bytes))
                  (ih rest (out ++ bytes) (total + length bytes) (omega arith)
                    (omega (arith, st.1 (packet bytes) rest refl))))
        ]
    after (ok (delim, rest)) st ih =
        Capped-here limit total out (err unexpected_packet) h (λ p. cc) (λ n r p. cc)
    after (ok (response_end, rest)) st ih =
        Capped-here limit total out (err unexpected_packet) h (λ p. cc) (λ n r p. cc)
    after (err e) st ih = Capped-here limit total out (err e) h (λ p. cc) (λ n r p. cc)
    after stuck st ih = absurd (st.0 refl)

-- The sink grows by no more than the limit whether or not there is an error, the reader ends, and
-- the total it returns is what it wrote. A limit of `u64::MAX` is none: the sum saturates there.
pub read_binary_to-Capped :
    (limit : ℕ) (s out : Bytes)
    → limit < 2 ^ 64 - 1
    → Capped limit 0 out (read_binary_to limit s out)
unfolding read_binary_to
read_binary_to-Capped limit s out u =
    binary_loop-Capped (suc (length s)) limit 0 s out u (omega arith) (omega arith)
