-- ===== src/Http/Fetched.antt =====
-- A xorb from its upload to the download of a term.
use baleforgit.Prelude.{
  All, Bool, List, Result, [], ap, arith, drop, err, false, get_elem?, leb, length, length-append,
  le→leb, le→ltb_false, ltb, min, ok, ok-injective, refl, some, stuck, subst, sym, take, true, ℕ,
  ◌+◌, ◌-◌, ◌<◌, ◌∙◌, ◌∷◌, ◌≡◌, ◌≤◌,
}
use baleforgit.Core.{Bytes, CoreError, FileTerm, Hash32, Text, TokenClaims, XorbFrameRow}
use baleforgit.Http.{layout_rows}
use baleforgit.Http.Downloads.{fetch_and_decompress_term, max_term_unpacked_bytes, no_layout}
use baleforgit.Http.Replies.{and_then-eq-ok}
use baleforgit.Http.Requests.{CheckedXorb, check_xorb-CheckedXorb}
use baleforgit.Http.Transfer.{RowAt, length-layout_rows, row_at}
use baleforgit.Http.Uploads.{Service, check_xorb, store_xorb, upload_xorb, xorb_put}
use baleforgit.Meta.Layouts.{Numbered, has_frames, xorb_frame_layout-register_xorb_layout}
use baleforgit.Meta.Xorbs.{register_xorb_layout, xorb_frame_layout}
use baleforgit.Prelude.Bytes.{IsByte}
use baleforgit.Storage.{MemBlobStore, get_range, get_xorb_range, put_xorb}
use baleforgit.Storage.Puts.{XorbPut, put_xorb-ok, stored}
use baleforgit.Table.{get, get-insert}
use baleforgit.Wire.{decode_hash}
use baleforgit.Xorb.{Codec, XorbChunkFrame, parsed, verify_xorb_body}
use baleforgit.Xorb.Bounds.{frame_bounds}
use baleforgit.Xorb.Contents.{Verified, join, verify_xorb_body-Verified}
use baleforgit.Xorb.Frames.{layout, raws_bytes}
use baleforgit.Xorb.Ranges.{decompress_range}

layout_rows-Numbered : (i : ℕ) (fs : List XorbChunkFrame) → Numbered i (layout_rows i fs)
unfolding layout_rows
layout_rows-Numbered i [] = tt
layout_rows-Numbered i (f ∷ fs) = (refl, layout_rows-Numbered (i + 1) fs)

-- The service holds a verified body and its layout under a hash.
pub record Holds (codec : Codec) (hash : Hash32) (body : Bytes) (svc : Service) : Type 0 where
  pub frames : List XorbChunkFrame
  pub verified : Verified codec body hash frames
  pub stored_as : get hash svc.blobs.xorbs ≡ some body
  pub layout_is : xorb_frame_layout hash svc.meta ≡ layout_rows 0 frames

xorb_put-stored :
    (svc svc' : Service) (hash body : Bytes)
    → xorb_put svc (put_xorb hash body svc.blobs) ≡ (svc', ok true)
    → (svc'.meta ≡ svc.meta) × (get hash svc'.blobs.xorbs ≡ some body)
xorb_put-stored svc svc' hash body h = inserted (put_xorb hash body svc.blobs) refl h
  where
    there : (s s' : MemBlobStore) → XorbPut hash body s true s' → get hash s'.xorbs ≡ some body
    there s s' (stored r e q) = get-insert hash body r.xorbs

    inserted :
        (r : Result CoreError (Bool × MemBlobStore))
        → put_xorb hash body svc.blobs ≡ r
        → xorb_put svc r ≡ (svc', ok true)
        → (svc'.meta ≡ svc.meta) × (get hash svc'.blobs.xorbs ≡ some body)
    inserted (err e) p k = absurd (cc (ap (λ q. q.1) k))
    inserted stuck p k = absurd (cc (ap (λ q. q.1) k))
    inserted (ok (b, blobs)) p k =
        let new : b ≡ true = ok-injective (ap (λ q. q.1) k) in
        let put : put_xorb hash body svc.blobs ≡ ok (true, blobs) =
          p ∙ ap (λ b. ok (b, blobs)) new in
        let after : record svc { blobs = blobs } ≡ svc' = ap (λ q. q.0) k in
        (
          ap (λ s. s.meta) (sym after),
          subst (λ s. get hash s.blobs.xorbs ≡ some body) after
              (there svc.blobs blobs (put_xorb-ok hash body true svc.blobs blobs put)),
        )

upload_xorb-Holds :
    (codec : Codec) (svc svc' : Service) (claims : TokenClaims) (hash_hex : Text) (body : Bytes)
    (hash : Hash32)
    → All IsByte body
    → decode_hash hash_hex ≡ ok hash
    → has_frames hash svc.meta.xorb_frames ≡ false
    → upload_xorb codec svc claims hash_hex body ≡ (svc', ok true)
    → Holds codec hash body svc'
unfolding upload_xorb store_xorb
upload_xorb-Holds codec svc svc' claims hash_hex body hash bytes d n h =
    let (c, e, k) = and_then-eq-ok svc (check_xorb codec svc claims hash_hex body) _ h in
    let checked : CheckedXorb codec hash_hex body c.0 c.1 =
      check_xorb-CheckedXorb codec svc claims hash_hex body c.0 c.1 e in
    let same : c.0 ≡ hash = ok-injective (sym checked.decoded ∙ d) in
    let k' : xorb_put (record svc { meta = register_xorb_layout hash c.1 svc.meta })
          (put_xorb hash body svc.blobs)
        ≡ (svc', ok true) =
      subst
        (λ h.
          xorb_put (record svc { meta = register_xorb_layout h c.1 svc.meta })
            (put_xorb h body svc.blobs)
          ≡ (svc', ok true))
        same k in
    let (meta, there) =
      xorb_put-stored (record svc { meta = register_xorb_layout hash c.1 svc.meta }) svc' hash body
        k' in
    let (fs, parsed, v) =
      verify_xorb_body-Verified codec body hash bytes
        (subst (λ h. verify_xorb_body codec body h ≡ ok tt) same checked.verified) in
    let frames : checked.frames ≡ fs = ok-injective (sym checked.parsed ∙ parsed) in
    let rows : c.1 ≡ layout_rows 0 fs = sym checked.rows ∙ ap (layout_rows 0) frames in
    record {
      frames = fs;
      verified = v;
      stored_as = there;
      layout_is =
          ap (xorb_frame_layout hash) meta
          ∙ ap (λ l. xorb_frame_layout hash (register_xorb_layout hash l svc.meta)) rows
          ∙ xorb_frame_layout-register_xorb_layout hash (layout_rows 0 fs) svc.meta
              (layout_rows-Numbered 0 fs) n;
    }

range_bounds :
    (codec : Codec) (hash body : Bytes) (fs : List XorbChunkFrame) (v : Verified codec body hash fs)
    (t : FileTerm)
    → t.chunk_idx_start < t.chunk_idx_end
    → (p : RowAt fs (layout_rows 0 fs) t.chunk_idx_start)
    → (q : RowAt fs (layout_rows 0 fs) (t.chunk_idx_end - 1))
    → (p.frame.on_disk_start ≤ q.frame.on_disk_start + q.frame.on_disk_len)
      × (q.frame.on_disk_start + q.frame.on_disk_len ≤ length body)
range_bounds codec hash body fs v t less p q =
    let raws = v.parsed_body.raws in
    let p' : get_elem? (layout 0 raws) t.chunk_idx_start ≡ some p.frame =
      rw (← v.parsed_body.frames) p.is_frame in
    let q' : get_elem? (layout 0 raws) (t.chunk_idx_end - 1) ≡ some q.frame =
      rw (← v.parsed_body.frames) q.is_frame in
    let bounds =
      frame_bounds raws t.chunk_idx_start (t.chunk_idx_end - 1) p.frame q.frame (omega arith) p'
        q' in
    let size : length (raws_bytes raws) ≤ length body =
      omega (
        arith,
        ap length v.parsed_body.bytes,
        length-append (raws_bytes raws) v.parsed_body.rest,
      ) in
    (omega (arith, bounds), omega (arith, bounds, size))

fetch_and_decompress_term-Holds :
    (codec : Codec) (hash body : Bytes) (svc : Service) (v : Holds codec hash body svc)
    (t : FileTerm)
    → t.xorb ≡ hash
    → t.chunk_idx_start < t.chunk_idx_end
    → t.chunk_idx_end ≤ length v.frames
    → t.unpacked_segment_bytes ≤ max_term_unpacked_bytes
    → fetch_and_decompress_term codec svc t
      ≡ ok (
          join
            (take (t.chunk_idx_end - t.chunk_idx_start) (drop t.chunk_idx_start v.verified.chunks)))
unfolding fetch_and_decompress_term get_xorb_range get_range
fetch_and_decompress_term-Holds codec hash body svc v t own less within small =
    let fs : List XorbChunkFrame = v.frames in
    let p : RowAt fs (layout_rows 0 fs) t.chunk_idx_start =
      row_at 0 t.chunk_idx_start fs (omega arith) in
    let q : RowAt fs (layout_rows 0 fs) (t.chunk_idx_end - 1) =
      row_at 0 (t.chunk_idx_end - 1) fs (omega arith) in
    let first : ℕ = p.frame.on_disk_start in
    let last : ℕ = q.frame.on_disk_start + q.frame.on_disk_len in
    let bounds = range_bounds codec hash body fs v.verified t less p q in
    let rows : xorb_frame_layout t.xorb svc.meta ≡ layout_rows 0 fs =
      ap (λ h. xorb_frame_layout h svc.meta) own ∙ v.layout_is in
    let there : get t.xorb svc.blobs.xorbs ≡ some body =
      ap (λ h. get h svc.blobs.xorbs) own ∙ v.stored_as in
    let some_row : no_layout (layout_rows 0 fs) ≡ false =
      not_empty (layout_rows 0 fs) (omega (arith, length-layout_rows 0 fs, less, within)) in
    let in_order : leb t.chunk_idx_end t.chunk_idx_start ≡ false = ground arith in
    let in_layout : ltb (length (layout_rows 0 fs)) t.chunk_idx_end ≡ false =
      le→ltb_false _ _ (omega (arith, length-layout_rows 0 fs, within)) in
    let whole : min last (length body) ≡ last = omega (arith, bounds) in
    let forward : ltb last first ≡ false = le→ltb_false last first (omega (arith, bounds)) in
    let inside : ltb (length body) first ≡ false =
      le→ltb_false (length body) first (omega (arith, bounds)) in
    rw
      (
        rows,
        some_row,
        in_order,
        in_layout,
        p.is_row,
        q.is_row,
        p.start,
        q.start,
        q.len,
        le→leb t.unpacked_segment_bytes max_term_unpacked_bytes small,
        forward,
        there,
        inside,
        whole,
        decompress_range codec body hash [] fs t.chunk_idx_start t.chunk_idx_end p.frame q.frame
            v.verified less p.is_frame q.is_frame,
      )
      refl
  where
    not_empty : (rows : List XorbFrameRow) → 0 < length rows → no_layout rows ≡ false
    not_empty [] h = absurd (omega arith)
    not_empty (r ∷ rows) h = refl

-- After an upload that stored a xorb of which no frame was registered, each term within the xorb and
-- the cap of 128 MiB is fetched as just the chunks of its range, which are those of a body verified
-- under that hash: the one that was uploaded.
pub fetch_and_decompress_term-upload_xorb :
    (codec : Codec) (svc svc' : Service) (claims : TokenClaims) (hash_hex : Text) (body : Bytes)
    (hash : Hash32)
    → All IsByte body
    → decode_hash hash_hex ≡ ok hash
    → has_frames hash svc.meta.xorb_frames ≡ false
    → upload_xorb codec svc claims hash_hex body ≡ (svc', ok true)
    → (v : Holds codec hash body svc') × ((t : FileTerm)
        → t.xorb ≡ hash
        → t.chunk_idx_start < t.chunk_idx_end
        → t.chunk_idx_end ≤ length v.frames
        → t.unpacked_segment_bytes ≤ max_term_unpacked_bytes
        → fetch_and_decompress_term codec svc' t
          ≡ ok (
              join (
                take
                  (t.chunk_idx_end - t.chunk_idx_start)
                  (drop t.chunk_idx_start v.verified.chunks))))
fetch_and_decompress_term-upload_xorb codec svc svc' claims hash_hex body hash bytes d n h =
    let v : Holds codec hash body svc' =
      upload_xorb-Holds codec svc svc' claims hash_hex body hash bytes d n h in
    (v, fetch_and_decompress_term-Holds codec hash body svc' v)
