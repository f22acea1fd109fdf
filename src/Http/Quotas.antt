-- ===== src/Http/Quotas.antt =====
-- What a shard upload with a quota comes to.
use baleforgit.Prelude.{
  >>=-eq-ok, All, All-append, All-take, Bool, List, Option, Result, [], ap, arith, ensure,
  ensure-ok, err, if-both, leb, length, ltb, map, none, not, ok, ok-injective, refl, some, stuck,
  sym, true, ℕ, ◌++◌, ◌+◌, ◌<◌, ◌==◌, ◌>>◌, ◌^◌, ◌||◌, ◌∙◌, ◌∷◌, ◌≡◌, ◌≤◌,
}
use baleforgit.Core.{
  Bytes, CoreError, FileTerm, Hash32, RepoRef, Text, TokenClaims, XorbFrameRow, XorbInfo, owner,
}
use baleforgit.Http.{from_core, malformed, status}
use baleforgit.Http.Rejected.{Unchanged, with_blocks-Unchanged}
use baleforgit.Http.Replies.{and_then-eq-ok, from_core-ok, malformed-ok}
use baleforgit.Http.ShardUploads.{
  Faults, block_info, candidates, check_blocks, check_files, check_registration, check_shard,
  chunk_rows, commit_files, entry_terms, files_to_register, is_empty, on_disk_sum, reached,
  register_blocks, shard_put, shard_quota, shard_within, store_shard, sum_or_zero, unfailed,
  upload_shard, with_blocks,
}
use baleforgit.Http.Uploads.{Service, effective_quota, max_body_bytes, saturating_add}
use baleforgit.Meta.{MetaStore, register_files}
use baleforgit.Meta.Accounting.{AreNew, stored_bytes_for_owner-register_files, xorbs_of_files}
use baleforgit.Meta.Sums.{IsU32Xorbs}
use baleforgit.Meta.Usage.{
  get_owner_quota, stored_bytes_for_owner, unaccounted_xorb_bytes_for_owner,
}
use baleforgit.Meta.Xorbs.{insert_xorb, register_xorb, xorb_frame_layouts, xorb_there}
use baleforgit.Prelude.Bytes.{IsByte, IsU32}
use baleforgit.Shard.{FileTermEntry, ParsedCasBlock, ParsedFile, ParsedShard}
use baleforgit.Shard.Canonical.{IsBlock, IsCanonical}
use baleforgit.Shard.Parse.{parse}
use baleforgit.Shard.Total.{parse-IsCanonical}
use baleforgit.Storage.{MemBlobStore, new, put_shard}
use baleforgit.Table.{get}

check_shard-parsed :
    (svc : Service) (body : Bytes) (parsed : ParsedShard)
    → check_shard svc body ≡ ok parsed
    → parse body ≡ ok parsed
unfolding check_shard
check_shard-parsed svc body parsed h =
    let (_, _, h₁) = >>=-eq-ok (ensure (leb (length body) max_body_bytes) (status 400)) _ h in
    let (s, p, h₂) = >>=-eq-ok (malformed (parse body)) _ h₁ in
    let (_, _, h₃) = >>=-eq-ok (check_blocks svc.blobs s.cas_blocks) _ h₂ in
    let (_, _, h₄) = >>=-eq-ok (check_files svc.blobs s.files) _ h₃ in
    malformed-ok (parse body) p ∙ ap (λ s. ok s) (ok-injective h₄)

entry_xorbs :
    (has : Bool) (vs : List Hash32) (idx : ℕ) (es : List FileTermEntry)
    → map (λ t. t.xorb) (entry_terms has vs idx es) ≡ map (λ e. e.xorb) es
unfolding entry_terms
entry_xorbs has vs idx [] = refl
entry_xorbs has vs idx (e ∷ es) = ap (λ l. e.xorb ∷ l) (entry_xorbs has vs (idx + 1) es)

-- The candidates of the quota are the xorbs of the files that are registered.
candidates-files_to_register :
    (fs : List ParsedFile) (files : List (Hash32 × List FileTerm))
    → files_to_register fs ≡ ok files
    → candidates fs ≡ xorbs_of_files files
unfolding candidates files_to_register
candidates-files_to_register [] files h = ap xorbs_of_files (ok-injective h)
candidates-files_to_register (f ∷ fs) files h =
    let counts : Bool = is_empty f.verifications || length f.verifications == length f.entries in
    let (_, _, h₁) = >>=-eq-ok (ensure counts (status 400)) _ h in
    let (rest, p, h₂) = >>=-eq-ok (files_to_register fs) _ h₁ in
    let terms : List FileTerm =
      entry_terms (not (is_empty f.verifications)) f.verifications 0 f.entries in
    let all : (f.file_hash, terms) ∷ rest ≡ files = ok-injective h₂ in
    ap (λ l. map (λ e. e.xorb) f.entries ++ l) (candidates-files_to_register fs rest p)
    ∙ ap (λ l. l ++ xorbs_of_files rest)
        (sym (entry_xorbs (not (is_empty f.verifications)) f.verifications 0 f.entries))
    ∙ ap xorbs_of_files all

block_info-IsU32 :
    (layouts : List (Hash32 × List XorbFrameRow)) (cb : ParsedCasBlock)
    → IsU32 cb.num_bytes_on_disk
    → IsU32 (block_info layouts cb).num_bytes_on_disk
unfolding block_info on_disk_sum
block_info-IsU32 layouts cb h =
    if-both IsU32 (ltb 0 (sum_or_zero (get cb.xorb layouts))) (wrapped (get cb.xorb layouts)) h
  where
    summed : (fs : List XorbFrameRow) → IsU32 (on_disk_sum fs)
    summed [] = omega arith
    summed (f ∷ fs) = omega arith

    wrapped : (o : Option (List XorbFrameRow)) → IsU32 (sum_or_zero o)
    wrapped none = omega arith
    wrapped (some fs) = summed fs

insert_xorb-IsU32Xorbs :
    (x : XorbInfo) (rows : List XorbInfo)
    → IsU32 x.num_bytes_on_disk
    → IsU32Xorbs rows
    → IsU32Xorbs (insert_xorb x rows)
unfolding insert_xorb
insert_xorb-IsU32Xorbs x rows h k =
    if-both IsU32Xorbs (xorb_there x.xorb rows) k
      (All-append (λ x. IsU32 x.num_bytes_on_disk) rows (x ∷ []) k (h, tt))

register_blocks-IsU32Xorbs :
    (layouts : List (Hash32 × List XorbFrameRow)) (cbs : List ParsedCasBlock) (db : MetaStore)
    → All IsBlock cbs
    → IsU32Xorbs db.xorbs
    → IsU32Xorbs (register_blocks layouts cbs db).xorbs
unfolding register_blocks register_xorb
register_blocks-IsU32Xorbs layouts [] db h k = k
register_blocks-IsU32Xorbs layouts (cb ∷ cbs) db h k =
    register_blocks-IsU32Xorbs layouts cbs
      (register_xorb (block_info layouts cb) (chunk_rows 0 cb.chunks) db) h.1
      (insert_xorb-IsU32Xorbs (block_info layouts cb) db.xorbs
        (block_info-IsU32 layouts cb h.0.on_disk) k)

-- An accepted quota check has the projected usage within the quota.
record Projected (name : Text) (xorbs : List Hash32) (db : MetaStore) (quota : ℕ) : Type 0 where
  used : ℕ
  delta : ℕ
  is_used : stored_bytes_for_owner name db ≡ ok used
  is_delta : unaccounted_xorb_bytes_for_owner name xorbs db ≡ ok delta
  within : used + delta ≤ quota

shard_quota-Projected :
    (name : Text) (xorbs : List Hash32) (svc : Service) (quota : ℕ) (u : Unit {0})
    → effective_quota name svc ≡ ok (some quota)
    → quota < 2 ^ 63
    → shard_quota name xorbs svc ≡ ok u
    → Projected name xorbs svc.meta quota
unfolding shard_quota
shard_quota-Projected name xorbs svc quota u e small h =
    let p : shard_within name xorbs svc.meta (some quota) ≡ ok u = rw e at h in
    let (used, p₁, h₁) = >>=-eq-ok (from_core (stored_bytes_for_owner name svc.meta)) _ p in
    let (delta, p₂, h₂) =
      >>=-eq-ok (from_core (unaccounted_xorb_bytes_for_owner name xorbs svc.meta)) _ h₁ in
    let fits : not (ltb quota (saturating_add used delta)) ≡ true =
      ensure-ok (not (ltb quota (saturating_add used delta))) (status 429) u h₂ in
    record {
      used = used;
      delta = delta;
      is_used = from_core-ok (stored_bytes_for_owner name svc.meta) p₁;
      is_delta = from_core-ok (unaccounted_xorb_bytes_for_owner name xorbs svc.meta) p₂;
      within = bounded used delta quota small fits;
    }
  where
    bounded : (a b q : ℕ) → q < 2 ^ 63 → not (ltb q (saturating_add a b)) ≡ true → a + b ≤ q
    bounded a b q lt h = ground arith

effective_quota-same :
    (name : Text) (svc svc' : Service)
    → svc'.meta.owner_quotas ≡ svc.meta.owner_quotas
    → svc'.default_quota_bytes ≡ svc.default_quota_bytes
    → effective_quota name svc' ≡ effective_quota name svc
unfolding effective_quota get_owner_quota
effective_quota-same name svc svc' p q = rw (p, q) refl

store_shard-registered :
    (hash : Hash32) (body : Bytes) (repo : RepoRef) (files : List (Hash32 × List FileTerm))
    (fault : Option CoreError) (svc svc' : Service) (n : ℕ)
    → store_shard hash body repo files fault svc ≡ (svc', ok n)
    → svc'.meta ≡ register_files repo files svc.meta
unfolding store_shard commit_files
store_shard-registered hash body repo files fault svc svc' n h =
    done fault (put_shard hash body svc.blobs) h
  where
    done :
        (fault : Option CoreError) (r : Result CoreError MemBlobStore)
        → shard_put svc repo files fault r ≡ (svc', ok n)
        → svc'.meta ≡ register_files repo files svc.meta
    done none (ok blobs) p = ap (λ q. q.0.meta) (sym p)
    done (some c) (ok blobs) p = absurd (cc (ap (λ q. q.1) p))
    done fault (err c) p = absurd (cc (ap (λ q. q.1) p))
    done fault stuck p = absurd (cc (ap (λ q. q.1) p))

reached-All :
    (P : ParsedCasBlock → Type 0) (fault : Option (ℕ × CoreError)) (cbs : List ParsedCasBlock)
    → All P cbs
    → All P (reached fault cbs)
reached-All P none cbs h = h
reached-All P (some (n, e)) cbs h = All-take P n cbs h

-- After a shard upload that succeeded under a quota, which is below 2 ^ 63, the bytes that the owner
-- stores are within the quota, if the shard's files are new and all different.
pub upload_shard-within_quota :
    (blake3 : Bytes → Hash32) (faults : Faults) (svc svc' : Service) (claims : TokenClaims)
    (body : Bytes) (parsed : ParsedShard) (files : List (Hash32 × List FileTerm)) (quota n : ℕ)
    → All IsByte body
    → IsU32Xorbs svc.meta.xorbs
    → effective_quota (owner claims.repo) svc ≡ ok (some quota)
    → quota < 2 ^ 63
    → parse body ≡ ok parsed
    → files_to_register parsed.files ≡ ok files
    → AreNew files svc.meta.file_terms
    → upload_shard blake3 faults svc claims body ≡ (svc', ok n)
    → (used : ℕ) × (stored_bytes_for_owner (owner claims.repo) svc'.meta ≡ ok used) × (used ≤ quota)
unfolding upload_shard with_blocks check_registration
upload_shard-within_quota blake3 faults svc svc' claims body parsed files quota n bytes u32 q small
      p fs new h =
    let name : Text = owner claims.repo in
    let (s, c, h₁) = and_then-eq-ok svc (check_shard svc body) _ h in
    let same : s ≡ parsed = ok-injective (sym (check_shard-parsed svc body s c) ∙ p) in
    let svc₁ : Service = with_blocks faults.blocks s.cas_blocks svc in
    let kept : Unchanged svc svc₁ = with_blocks-Unchanged faults.blocks s.cas_blocks svc in
    let (files', r, h₂) =
      and_then-eq-ok svc₁ (unfailed faults.blocks >> check_registration svc₁ claims s.files) _ h₁ in
    let (_, _, checked) = >>=-eq-ok (unfailed faults.blocks) _ r in
    let (u, r₁, r₂) = >>=-eq-ok (shard_quota name (candidates s.files) svc₁) _ checked in
    let same' : files' ≡ files =
      ok-injective (sym r₂ ∙ ap (λ (s : ParsedShard). files_to_register s.files) same ∙ fs) in
    let j : Projected name (candidates s.files) svc₁.meta quota =
      shard_quota-Projected name (candidates s.files) svc₁ quota u
        (effective_quota-same name svc svc₁ kept.meta.owner_quotas refl ∙ q) small r₁ in
    let named : candidates s.files ≡ xorbs_of_files files' =
      candidates-files_to_register s.files files' r₂ in
    let canonical : IsCanonical s =
      (parse-IsCanonical body s bytes (check_shard-parsed svc body s c)).0 in
    let wide : IsU32Xorbs svc₁.meta.xorbs =
      register_blocks-IsU32Xorbs (xorb_frame_layouts (map (λ cb. cb.xorb) s.cas_blocks) svc.meta)
        (reached faults.blocks s.cas_blocks) svc.meta
        (reached-All IsBlock faults.blocks s.cas_blocks canonical.blocks) u32 in
    let new' : AreNew files' svc₁.meta.file_terms = rw (same', kept.meta.file_terms) new in
    let total : stored_bytes_for_owner name (register_files claims.repo files' svc₁.meta)
        ≡ ok (j.used + j.delta) =
      stored_bytes_for_owner-register_files claims.repo files' svc₁.meta j.used j.delta wide new'
        j.is_used (rw (← named) j.is_delta) (omega (arith, j.within, small)) in
    (
      j.used + j.delta,
      ap (stored_bytes_for_owner name) (
            store_shard-registered (blake3 body) body claims.repo files' faults.files svc₁ svc' n
              h₂)
          ∙ total,
      j.within,
    )
