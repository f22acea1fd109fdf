-- ===== src/Xorb/Contents.antt =====
-- What the frames of a xorb hold: `verify_xorb_body` and `decompress_xorb_chunks_into` on a whole body
-- and on the bytes of a range of its frames.
use baleforgit.Prelude.{
  ==_eq, >>=-eq-ok, All, Bool, List, Result, [], ap, append-nil, append_assoc, arith, drop,
  drop-drop, ensure, err, false, length, le→ltb_false, ok, ok-injective, refl, some, stuck, sym,
  take-append, true, ℕ, ◌++◌, ◌+◌, ◌-◌, ◌∙◌, ◌∷◌, ◌≡◌, ◌≤◌,
}
use baleforgit.Core.{Bytes, Hash32, eq_bytes}
use baleforgit.Prelude.Bytes.{IsByte}
use baleforgit.Xorb.{
  Codec, XorbChunkFrame, XorbParseError, XorbVerifyError, decompress_loop, frame_contents,
  hash_entries, hash_mismatch, header_len, parse_xorb_frames, parsed, slice, u32_max,
  verify_xorb_body,
}
use baleforgit.Xorb.Accepted.{Parsed, parse_xorb_frames-Parsed}
use baleforgit.Xorb.Frames.{IsRaw, RawFrame, drop_frame, layout, raws_bytes}

-- `Vec::concat`
abbrev pub join : List Bytes → Bytes
join [] = []
join (d ∷ ds) = d ++ join ds

module _ (codec : Codec) where
  -- The payloads of `rs` decompress to `ds`, each of the length that its header declares.
  abbrev pub Decodes : List RawFrame → List Bytes → Type 0
  Decodes [] [] = Unit
  Decodes [] (d ∷ ds) = ⊥
  Decodes (r ∷ rs) [] = ⊥
  Decodes (r ∷ rs) (d ∷ ds) =
      (codec.decompress r.scheme r.payload ≡ some d) × (length d ≡ r.uncompressed) × Decodes rs ds

  abbrev pub entries_of : List Bytes → List (Hash32 × ℕ)
  entries_of [] = []
  entries_of (d ∷ ds) = (codec.data_hash d, length d) ∷ entries_of ds

abbrev frame_at : ℕ → RawFrame → XorbChunkFrame
frame_at pos r = record {
  on_disk_start = pos;
  on_disk_len = header_len + length r.payload;
  uncompressed_len = r.uncompressed;
  compression_scheme = r.scheme;
}

payload_at :
    (body t : Bytes) (pos : ℕ) (r : RawFrame) (rs : List RawFrame)
    → drop pos body ≡ raws_bytes (r ∷ rs) ++ t
    → slice body (pos + header_len) (pos + (header_len + length r.payload)) ≡ r.payload
unfolding raws_bytes
payload_at body t pos r rs e =
    let size : pos + (8 + length r.payload) - (pos + 8) ≡ length r.payload = omega arith in
    let front : drop (pos + 8) body ≡ r.payload ++ (raws_bytes rs ++ t) =
      drop-drop pos 8 body ∙ ap (drop 8) e ∙ append_assoc r.payload (raws_bytes rs) t in
    rw (size, front) (take-append r.payload (raws_bytes rs ++ t))

module _ (codec : Codec) (body t : Bytes) where
  module _ (pos : ℕ) (r : RawFrame) (rs : List RawFrame)
      (e : drop pos body ≡ raws_bytes (r ∷ rs) ++ t) where
    frame_contents-decoded :
        (i : ℕ) (d : Bytes)
        → r.scheme ≤ 2
        → codec.decompress r.scheme r.payload ≡ some d
        → length d ≡ r.uncompressed
        → frame_contents codec body i (frame_at pos r) ≡ ok d
    unfolding frame_contents
    frame_contents-decoded i d s p q =
        rw (payload_at body t pos r rs e, le→ltb_false 2 r.scheme s, p, ==_eq q, frame_contents)

    frame_contents_ok :
        (i : ℕ) (d : Bytes)
        → frame_contents codec body i (frame_at pos r) ≡ ok d
        → (codec.decompress r.scheme r.payload ≡ some d) × (length d ≡ r.uncompressed)
    unfolding frame_contents
    frame_contents_ok i d h = ground (arith, payload_at body t pos r rs e)

  pub decompress_loop-layout :
      (pos i : ℕ) (rs : List RawFrame) (ds : List Bytes) (out : Bytes)
      → drop pos body ≡ raws_bytes rs ++ t
      → All IsRaw rs
      → Decodes codec rs ds
      → decompress_loop codec body i (layout pos rs) out ≡ ok (out ++ join ds)
  unfolding decompress_loop
  decompress_loop-layout pos i [] [] out e v w = ap ok (sym (append-nil out))
  decompress_loop-layout pos i [] (d ∷ ds) out e v w = absurd w
  decompress_loop-layout pos i (r ∷ rs) [] out e v w = absurd w
  decompress_loop-layout pos i (r ∷ rs) (d ∷ ds) out e v w =
      rw (frame_contents-decoded pos r rs e i d v.0.scheme w.0 w.1, decompress_loop)
        (decompress_loop-layout (pos + (header_len + length r.payload)) (i + 1) rs ds (out ++ d)
            (drop_frame body t pos r rs e) v.1 w.2
          ∙ ap ok (append_assoc out d (join ds)))

  record Hashed (rs : List RawFrame) (entries : List (Hash32 × ℕ)) : Type 0 where
    chunks : List Bytes
    decodes : Decodes codec rs chunks
    hashes : entries ≡ entries_of codec chunks

  hash_entries-layout :
      (pos i : ℕ) (rs : List RawFrame) (entries : List (Hash32 × ℕ))
      → drop pos body ≡ raws_bytes rs ++ t
      → hash_entries codec body i (layout pos rs) ≡ ok entries
      → Hashed rs entries
  unfolding hash_entries
  hash_entries-layout pos i [] entries e h = record {
    chunks = [];
    decodes = tt;
    hashes = sym (ok-injective h);
  }
  hash_entries-layout pos i (r ∷ rs) entries e h =
      let (d, p, h₁) = >>=-eq-ok (frame_contents codec body i (frame_at pos r)) _ h in
      let later : ℕ = pos + (header_len + length r.payload) in
      let (es, q, h₂) = >>=-eq-ok (hash_entries codec body (i + 1) (layout later rs)) _ h₁ in
      let rest : Hashed rs es =
        hash_entries-layout later (i + 1) rs es (drop_frame body t pos r rs e) q in
      let own : (codec.decompress r.scheme r.payload ≡ some d) × (length d ≡ r.uncompressed) =
        frame_contents_ok pos r rs e i d p in
      record {
        chunks = d ∷ rest.chunks;
        decodes = (own.0, own.1, rest.decodes);
        hashes = sym (ok-injective h₂) ∙ ap (λ x. (codec.data_hash d, length d) ∷ x) rest.hashes;
      }

-- What a body holds that was verified: its frames, the chunks that they decompress to, and the hash.
pub record Verified (codec : Codec) (body expected : Bytes) (fs : List XorbChunkFrame)
    : Type 0 where
  pub parsed_body : Parsed body 0 fs
  pub chunks : List Bytes
  pub decodes : Decodes codec parsed_body.raws chunks
  pub hash : eq_bytes (codec.xorb_hash (entries_of codec chunks)) expected ≡ true
  pub fits : length body ≤ u32_max

module _ (codec : Codec) (body expected : Bytes) where
  parsed_ok :
      (r : Result XorbParseError (List XorbChunkFrame)) (fs : List XorbChunkFrame)
      → parsed r ≡ ok fs
      → r ≡ ok fs
  parsed_ok (ok gs) fs h = ap ok (ok-injective h)
  parsed_ok (err e) fs h = cc
  parsed_ok stuck fs h = cc

  ensured : (b : Bool) (e : XorbVerifyError) → ensure b e ≡ ok tt → b ≡ true
  ensured true e h = refl
  ensured false e h = cc

  -- A body of bytes that is accepted parses, and its frames decompress to chunks of the declared
  -- lengths whose xorb hash is the expected one.
  pub verify_xorb_body-Verified :
      All IsByte body
      → verify_xorb_body codec body expected ≡ ok tt
      → (fs : List XorbChunkFrame) × (parse_xorb_frames body ≡ ok fs)
        × Verified codec body expected fs
  unfolding verify_xorb_body
  verify_xorb_body-Verified all h =
      let (fs, p, h₁) = >>=-eq-ok (parsed (parse_xorb_frames body)) _ h in
      let (es, q, h₂) = >>=-eq-ok (hash_entries codec body 0 fs) _ h₁ in
      let frames : parse_xorb_frames body ≡ ok fs = parsed_ok (parse_xorb_frames body) fs p in
      let (whole, some_frame, small) = parse_xorb_frames-Parsed body fs all frames in
      let hashed : Hashed codec body whole.rest whole.raws es =
        hash_entries-layout codec body whole.rest 0 0 whole.raws es whole.bytes
          (rw whole.frames at q) in
      (
        fs,
        frames,
        record {
          parsed_body = whole;
          chunks = hashed.chunks;
          decodes = hashed.decodes;
          hash = rw (← hashed.hashes) (ensured _ hash_mismatch h₂);
          fits = small;
        },
      )
