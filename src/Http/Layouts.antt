-- ===== src/Http/Layouts.antt =====
-- Each stored xorb has a layout, after any uploads.
use baleforgit.Prelude.{
  >>=-eq-ok, Bool, Bool-cases, List, Option, Result, [], ap, err, false, inl, inr, length, ltb,
  none, ok, ok-injective, refl, some, stuck, subst, suc, sym, true, ℕ, ◌>>=◌, ◌>>◌, ◌∙◌, ◌∷◌, ◌≡◌,
  ◌≢◌,
}
use baleforgit.Core.{
  Bytes, CoreError, FileTerm, Hash32, RepoRef, Text, TokenClaims, XorbFrameRow, eq_bytes,
}
use baleforgit.Http.{layout_rows}
use baleforgit.Http.Rejected.{Unchanged, with_blocks-Unchanged}
use baleforgit.Http.Replies.{and_then-either}
use baleforgit.Http.Requests.{
  CheckedXorb, HasLayouts, Requests, check_xorb-CheckedXorb, none_yet, then_shard, then_xorb,
}
use baleforgit.Http.ShardUploads.{
  Faults, check_registration, check_shard, commit_files, registered, shard_put, store_shard,
  unfailed, upload_shard, with_blocks,
}
use baleforgit.Http.Uploads.{Reply, Service, check_xorb, store_xorb, upload_xorb, xorb_put}
use baleforgit.Meta.{MetaStore, register_files, write_file_in_tx}
use baleforgit.Meta.Layouts.{
  has_frames, has_frames-register_xorb_layout, has_frames-xorb_frame_layout,
  register_xorb_layout-has_frames,
}
use baleforgit.Meta.Xorbs.{register_xorb_layout, xorb_frame_layout}
use baleforgit.Storage.{MemBlobStore, is_some, put_shard, put_xorb, xorb_exists}
use baleforgit.Storage.Puts.{
  ShardPut, XorbPut, added, kept, put_shard-ok, put_xorb-ok, replaced, stored,
}
use baleforgit.Table.{eq_bytes_sound, get, get-insert_other}
use baleforgit.Xorb.{
  Codec, XorbChunkFrame, body_too_large, frames_loop, nonempty, parse_xorb_frames, u32_max,
}

frames_exist :
    (body : Bytes) (fs : List XorbChunkFrame)
    → parse_xorb_frames body ≡ ok fs
    → (f : XorbChunkFrame) × (rest : List XorbChunkFrame) × (fs ≡ f ∷ rest)
unfolding parse_xorb_frames
frames_exist body fs h = elim (Bool-cases (ltb u32_max (length body))) [
  | inl e ↦ absurd (refused (rw e at h))
  | inr e ↦
      let p : (frames_loop (suc (length body)) body 0 0 >>= nonempty) ≡ ok fs = rw e at h in
      let (gs, q, h₁) = >>=-eq-ok (frames_loop (suc (length body)) body 0 0) nonempty p in
      some_frame gs h₁
]
  where
    refused : err (body_too_large (length body) u32_max) ≡ ok fs → ⊥
    refused p = cc p

    some_frame :
        (gs : List XorbChunkFrame)
        → nonempty gs ≡ ok fs
        → (f : XorbChunkFrame) × (rest : List XorbChunkFrame) × (fs ≡ f ∷ rest)
    some_frame [] q = absurd (cc q)
    some_frame (g ∷ gs) q = (g, gs, sym (ok-injective q))

-- A xorb that is there after a put was there before, or is the one put.
xorb_exists-put_xorb :
    (key hash body : Bytes) (b : Bool) (s s' : MemBlobStore)
    → XorbPut hash body s b s'
    → xorb_exists key s' ≡ true
    → eq_bytes key hash ≡ false
    → xorb_exists key s ≡ true
unfolding xorb_exists
xorb_exists-put_xorb key hash body b s s' (kept old e) h n = h
xorb_exists-put_xorb key hash body b s s' (stored r e q) h n =
    ap (λ o. is_some o)
      (ap (get key) (sym q.xorbs) ∙ sym (get-insert_other key hash body r.xorbs n))
    ∙ h

store_xorb-HasLayouts :
    (hash : Hash32) (f : XorbFrameRow) (fs : List XorbFrameRow) (body : Bytes) (svc : Service)
    → HasLayouts svc
    → HasLayouts (store_xorb hash (f ∷ fs) body svc).0
unfolding store_xorb
store_xorb-HasLayouts hash f fs body svc v = put (put_xorb hash body svc.blobs) refl
  where
    svc₁ : Service
    svc₁ = record svc { meta = register_xorb_layout hash (f ∷ fs) svc.meta }

    put :
        (r : Result CoreError (Bool × MemBlobStore))
        → put_xorb hash body svc.blobs ≡ r
        → HasLayouts (xorb_put svc₁ r).0
    put (err e) p key h = register_xorb_layout-has_frames key hash (f ∷ fs) svc.meta (v key h)
    put stuck p key h = register_xorb_layout-has_frames key hash (f ∷ fs) svc.meta (v key h)
    put (ok (b, blobs)) p key h = elim (Bool-cases (eq_bytes key hash)) [
      | inl e ↦
          let same : key ≡ hash = eq_bytes_sound key hash e in
          rw same (has_frames-register_xorb_layout hash f fs svc.meta)
      | inr e ↦ register_xorb_layout-has_frames key hash (f ∷ fs) svc.meta (
          v key (
            xorb_exists-put_xorb key hash body b svc.blobs blobs
              (put_xorb-ok hash body b svc.blobs blobs p) h e))
    ]

upload_xorb-HasLayouts :
    (codec : Codec) (svc : Service) (claims : TokenClaims) (hash_hex : Text) (body : Bytes)
    {reply : Reply Bool}
    → upload_xorb codec svc claims hash_hex body ≡ reply
    → HasLayouts svc
    → HasLayouts reply.0
unfolding upload_xorb layout_rows
upload_xorb-HasLayouts codec svc claims hash_hex body h v =
    and_then-either HasLayouts svc (check_xorb codec svc claims hash_hex body) _ h v (λ c e k.
      let checked : CheckedXorb codec hash_hex body c.0 c.1 =
        check_xorb-CheckedXorb codec svc claims hash_hex body c.0 c.1 e in
      let (f, fs, shape₀) = frames_exist body checked.frames checked.parsed in
      let (row, rows, shape) = row_exists 0 f fs in
      let layout : c.1 ≡ row ∷ rows = sym checked.rows ∙ ap (layout_rows 0) shape₀ ∙ shape in
      subst (λ q. HasLayouts q.0) k
        (subst (λ l. HasLayouts (store_xorb c.0 l body svc).0) (sym layout)
          (store_xorb-HasLayouts c.0 row rows body svc v)))
  where
    row_exists :
        (i : ℕ) (f : XorbChunkFrame) (fs : List XorbChunkFrame)
        → (row : XorbFrameRow) × (rows : List XorbFrameRow) × (layout_rows i (f ∷ fs) ≡ row ∷ rows)
    row_exists i f fs = (_, _, refl)

-- The xorbs and the frames are those before.
record SameXorbs (svc svc' : Service) : Type 0 where
  xorbs : svc'.blobs.xorbs ≡ svc.blobs.xorbs
  frames : svc'.meta.xorb_frames ≡ svc.meta.xorb_frames

SameXorbs-HasLayouts : (svc svc' : Service) → SameXorbs svc svc' → HasLayouts svc → HasLayouts svc'
unfolding xorb_exists
SameXorbs-HasLayouts svc svc' q v hash h =
    ap (has_frames hash) q.frames
    ∙ v hash (ap (λ (m : List (Hash32 × Bytes)). is_some (get hash m)) (sym q.xorbs) ∙ h)

xorb_frames-register_files :
    (repo : RepoRef) (fs : List (Hash32 × List FileTerm)) (db : MetaStore)
    → (register_files repo fs db).xorb_frames ≡ db.xorb_frames
unfolding register_files write_file_in_tx
xorb_frames-register_files repo [] db = refl
xorb_frames-register_files repo (f ∷ fs) db =
    xorb_frames-register_files repo fs (write_file_in_tx f.0 repo f.1 db)

put_shard-xorbs :
    (hash body : Bytes) (s s' : MemBlobStore) → ShardPut hash body s s' → s'.xorbs ≡ s.xorbs
put_shard-xorbs hash body s s' (replaced old e) = refl
put_shard-xorbs hash body s s' (added r e q) = q.xorbs

upload_shard-SameXorbs :
    (blake3 : Bytes → Hash32) (faults : Faults) (svc : Service) (claims : TokenClaims)
    (body : Bytes) {reply : Reply ℕ}
    → upload_shard blake3 faults svc claims body ≡ reply
    → SameXorbs svc reply.0
unfolding upload_shard store_shard commit_files
upload_shard-SameXorbs blake3 faults svc claims body {reply} h =
    and_then-either (SameXorbs svc) svc (check_shard svc body) _ h
      (record { xorbs = refl; frames = refl })
      (λ parsed _ k.
        let svc₁ : Service = with_blocks faults.blocks parsed.cas_blocks svc in
        let kept : Unchanged svc svc₁ = with_blocks-Unchanged faults.blocks parsed.cas_blocks svc in
        let same : SameXorbs svc svc₁ = record {
          xorbs = ap (λ b. b.xorbs) kept.blobs;
          frames = kept.meta.xorb_frames;
        } in
        and_then-either (SameXorbs svc) svc₁
          (unfailed faults.blocks >> check_registration svc₁ claims parsed.files) _ k same
          (λ files _ p.
            subst (λ q. SameXorbs svc q.0) p
              (stored_shard svc₁ same files (put_shard (blake3 body) body svc₁.blobs) refl)))
  where
    stored_shard :
        (svc₁ : Service)
        → SameXorbs svc svc₁
        → (files : List (Hash32 × List FileTerm)) → (r : Result CoreError MemBlobStore)
        → put_shard (blake3 body) body svc₁.blobs ≡ r
        → SameXorbs svc (shard_put svc₁ claims.repo files faults.files r).0
    stored_shard svc₁ same files (err e) p = same
    stored_shard svc₁ same files stuck p = same
    stored_shard svc₁ same files (ok blobs) p = committed faults.files
      where
        put : blobs.xorbs ≡ svc.blobs.xorbs
        put =
            put_shard-xorbs (blake3 body) body svc₁.blobs blobs
              (put_shard-ok (blake3 body) body svc₁.blobs blobs p)
            ∙ same.xorbs

        committed :
            (fault : Option CoreError)
            → SameXorbs svc
                (registered
                  (record svc₁ { blobs = blobs })
                  (commit_files fault claims.repo files svc₁.meta)).0
        committed (some e) = record { xorbs = put; frames = same.frames }
        committed none = record {
          xorbs = put;
          frames = xorb_frames-register_files claims.repo files svc₁.meta ∙ same.frames;
        }

Requests-HasLayouts :
    (codec : Codec) (blake3 : Bytes → Hash32) (svc s : Service)
    → Requests codec blake3 svc s
    → HasLayouts svc
    → HasLayouts s
Requests-HasLayouts codec blake3 svc _ (none_yet _) v = v
Requests-HasLayouts codec blake3 svc _ (then_xorb _ s s' claims hash_hex body r q h) v =
    upload_xorb-HasLayouts codec s claims hash_hex body h
      (Requests-HasLayouts codec blake3 svc s q v)
Requests-HasLayouts codec blake3 svc _ (then_shard faults _ s s' claims body r q h) v =
    SameXorbs-HasLayouts s s' (upload_shard-SameXorbs blake3 faults s claims body h)
      (Requests-HasLayouts codec blake3 svc s q v)

-- Where each stored xorb has frames registered, each has a layout that is not empty after any
-- sequence of uploads, accepted or refused.
pub xorb_frame_layout-Requests :
    (codec : Codec) (blake3 : Bytes → Hash32) (svc s : Service) (hash : Hash32)
    → Requests codec blake3 svc s
    → HasLayouts svc
    → xorb_exists hash s.blobs ≡ true
    → xorb_frame_layout hash s.meta ≢ []
xorb_frame_layout-Requests codec blake3 svc s hash q v h =
    has_frames-xorb_frame_layout hash s.meta (Requests-HasLayouts codec blake3 svc s q v hash h)
