-- ===== src/Filter/Drained.antt =====
-- `drain_clean_payload` reads what `read_binary_to` reads.
use baleforgit.Prelude.{
  Bool-cases, Result, [], ap, err, if-both, inl, inr, length, ltb, ok, ok-injective, refl, stuck,
  suc, zero, ℕ, ◌++◌, ◌+◌, ◌≡◌, ◌≤◌,
}
use baleforgit.Core.{Bytes}
use baleforgit.Filter.Clean.{
  CleanPayload, clean_payload_cap, drain_clean_payload, drain_loop, extended, in_memory,
  payload_bytes, spilled,
}
use baleforgit.Pkt.{
  Packet, PktError, delim, flush, over_cap, packet, response_end, unexpected_packet,
}
use baleforgit.Pkt.Blob.{read_binary_to-write_all_then_flush}
use baleforgit.Pkt.Read.{binary_loop, read_binary_to, read_packet, saturating_add}
use baleforgit.Pkt.Write.{write_all_then_flush}

extended-bytes :
    (max_inline : ℕ) (p : CleanPayload) (bytes : Bytes)
    → payload_bytes (extended max_inline p bytes) ≡ payload_bytes p ++ bytes
extended-bytes max_inline (spilled f) bytes = refl
extended-bytes max_inline (in_memory buf) bytes =
    if-both (λ q. payload_bytes q ≡ buf ++ bytes)
      (ltb max_inline (saturating_add (length buf) (length bytes))) refl refl

-- A drained payload of these bytes.
abbrev Drained : Bytes → ℕ → Bytes → Result PktError (CleanPayload × ℕ × Bytes) → Type 0
Drained out total rest r = (p : CleanPayload) × (payload_bytes p ≡ out) × (r ≡ ok (p, total, rest))

module _ (max_inline : ℕ) (out rest : Bytes) (final : ℕ) where
  abbrev Follows : ℕ → Type 0
  Follows fuel =
      (s : Bytes) (p : CleanPayload) (total : ℕ)
      → binary_loop fuel clean_payload_cap s (payload_bytes p) total ≡ (out, ok (final, rest))
      → Drained out final rest (drain_loop fuel max_inline s p total)

  drain_step :
      (fuel : ℕ) (s : Bytes) (p : CleanPayload) (total : ℕ) (r : Result PktError (Packet × Bytes))
      → Follows fuel
      → read_packet s ≡ r
      → binary_loop (suc fuel) clean_payload_cap s (payload_bytes p) total ≡ (out, ok (final, rest))
      → Drained out final rest (drain_loop (suc fuel) max_inline s p total)
  unfolding binary_loop drain_loop
  drain_step fuel s p total (ok (flush, rest')) ih e h =
      let q : (payload_bytes p, ok (total, rest')) ≡ (out, ok (final, rest)) =
        rw (e, binary_loop) at h in
      let at_end : (total, rest') ≡ (final, rest) = ok-injective (ap (λ x. x.1) q) in
      (p, ap (λ x. x.0) q, rw (e, drain_loop) (ap (λ (x : ℕ × Bytes). ok (p, x.0, x.1)) at_end))
  drain_step fuel s p total (ok (packet bytes, rest')) ih e h =
      elim (Bool-cases (ltb clean_payload_cap (saturating_add total (length bytes)))) [
        | inl full ↦
            let q : (payload_bytes p, err over_cap) ≡ (out, ok (final, rest)) =
              rw (e, full, binary_loop) at h in
            absurd (cc (ap (λ x. x.1) q))
        | inr fits ↦
            let q : binary_loop fuel clean_payload_cap rest' (payload_bytes p ++ bytes)
                  (total + length bytes)
                ≡ (out, ok (final, rest)) =
              rw (e, fits, binary_loop) at h in
            let more : Drained out final rest (
                drain_loop fuel max_inline rest' (extended max_inline p bytes)
                  (total + length bytes)) =
              ih rest' (extended max_inline p bytes) (total + length bytes)
                (rw (extended-bytes max_inline p bytes) q) in
            (more.0, more.1, rw (e, fits, drain_loop) more.2)
      ]
  drain_step fuel s p total (ok (delim, rest')) ih e h =
      let q : (payload_bytes p, err unexpected_packet) ≡ (out, ok (final, rest)) =
        rw (e, binary_loop) at h in
      absurd (cc (ap (λ x. x.1) q))
  drain_step fuel s p total (ok (response_end, rest')) ih e h =
      let q : (payload_bytes p, err unexpected_packet) ≡ (out, ok (final, rest)) =
        rw (e, binary_loop) at h in
      absurd (cc (ap (λ x. x.1) q))
  drain_step fuel s p total (err c) ih e h =
      let q : (payload_bytes p, err c) ≡ (out, ok (final, rest)) = rw (e, binary_loop) at h in
      absurd (cc (ap (λ x. x.1) q))
  drain_step fuel s p total stuck ih e h =
      let q : (payload_bytes p, stuck) ≡ (out, ok (final, rest)) = rw (e, binary_loop) at h in
      absurd (cc (ap (λ x. x.1) q))

  drain_loop-Follows : (fuel : ℕ) → Follows fuel
  unfolding binary_loop
  drain_loop-Follows zero s p total h = absurd (cc (ap (λ x. x.1) h))
  drain_loop-Follows (suc fuel) s p total h =
      drain_step fuel s p total (read_packet s) (drain_loop-Follows fuel) refl h

-- A payload within the cap is drained whole, and the reader stands behind its flush packet.
pub drain_clean_payload-write_all_then_flush :
    (max_inline : ℕ) (content rest : Bytes)
    → length content ≤ clean_payload_cap
    → (packets : Bytes) × (p : CleanPayload) × (write_all_then_flush content ≡ ok packets)
      × (payload_bytes p ≡ content)
      × (drain_clean_payload max_inline (packets ++ rest) ≡ ok (p, length content, rest))
unfolding drain_clean_payload read_binary_to
drain_clean_payload-write_all_then_flush max_inline content rest h =
    let (packets, e, sent) =
      read_binary_to-write_all_then_flush clean_payload_cap content [] rest h in
    let (p, same, drained) =
      drain_loop-Follows max_inline content rest (length content) (suc (length (packets ++ rest)))
        (packets ++ rest) (in_memory []) 0 sent in
    (packets, p, e, same, drained)
