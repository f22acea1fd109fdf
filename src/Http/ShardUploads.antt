-- ===== src/Http/ShardUploads.antt =====
-- crates/bale-server-http/src/lib.rs: `upload_shard`, from the claims of the token on. The hash of a
-- shard's bytes is BLAKE3's, a parameter.
use baleforgit.Prelude.{
  Bool, List, Option, Result, [], ensure, err, false, get_elem?, if◌then◌else◌, leb, length, ltb,
  map, none, not, ok, some, stuck, take, true, ℕ, ◌%◌, ◌++◌, ◌+◌, ◌==◌, ◌>>=◌, ◌>>◌, ◌^◌, ◌||◌, ◌∷◌,
}
use baleforgit.Core.{
  Bytes, ChunkRow, CoreError, FileTerm, Hash32, RepoRef, Text, TokenClaims, XorbFrameRow, XorbInfo,
  owner,
}
use baleforgit.Http.{ApiError, code_of, from_core, malformed, status}
use baleforgit.Http.Uploads.{
  Reply, Service, and_then, effective_quota, max_body_bytes, within_quota,
}
use baleforgit.Meta.{MetaStore, register_files}
use baleforgit.Meta.Usage.{stored_bytes_for_owner, unaccounted_xorb_bytes_for_owner}
use baleforgit.Meta.Xorbs.{register_xorb, xorb_frame_layouts}
use baleforgit.Shard.{CasChunkEntry, FileTermEntry, ParsedCasBlock, ParsedFile, ParsedShard}
use baleforgit.Shard.Parse.{parse}
use baleforgit.Storage.{MemBlobStore, put_shard, xorb_exists}
use baleforgit.Table.{get}
use baleforgit.Xorb.{parsed}

unfoldable pub check_blocks : MemBlobStore → List ParsedCasBlock → Result ApiError (Unit {0})
unfolding xorb_exists
check_blocks blobs [] = ok tt
check_blocks blobs (cb ∷ cbs) =
    ensure (xorb_exists cb.xorb blobs) (status 400) >> check_blocks blobs cbs

unfoldable pub check_entries : MemBlobStore → List FileTermEntry → Result ApiError (Unit {0})
unfolding xorb_exists
check_entries blobs [] = ok tt
check_entries blobs (e ∷ es) =
    ensure (xorb_exists e.xorb blobs) (status 400)
    >> ensure (ltb e.chunk_idx_start e.chunk_idx_end) (status 400)
    >> check_entries blobs es

unfoldable pub check_files : MemBlobStore → List ParsedFile → Result ApiError (Unit {0})
unfolding check_entries
check_files blobs [] = ok tt
check_files blobs (f ∷ fs) = check_entries blobs f.entries >> check_files blobs fs

-- The sum of an `u32`, which wraps.
unfoldable pub on_disk_sum : List XorbFrameRow → ℕ
on_disk_sum [] = 0
on_disk_sum (f ∷ fs) = (f.on_disk_len + on_disk_sum fs) % 2 ^ 32

abbrev pub sum_or_zero : Option (List XorbFrameRow) → ℕ
unfolding on_disk_sum
sum_or_zero none = 0
sum_or_zero (some frames) = on_disk_sum frames

unfoldable pub block_info : List (Hash32 × List XorbFrameRow) → ParsedCasBlock → XorbInfo
unfolding get on_disk_sum
block_info layouts cb =
    let derived = sum_or_zero (get cb.xorb layouts) in
    record {
      xorb = cb.xorb;
      num_chunks = length cb.chunks % 2 ^ 32;
      num_bytes_in_cas = cb.num_bytes_in_cas;
      num_bytes_on_disk = if ltb 0 derived then derived else cb.num_bytes_on_disk;
    }

unfoldable pub chunk_rows : ℕ → List CasChunkEntry → List ChunkRow
chunk_rows idx [] = []
chunk_rows idx (c ∷ cs) =
    record {
      chunk_hash = c.chunk_hash;
      chunk_index = idx % 2 ^ 32;
      byte_start = c.byte_start;
      unpacked_segment_bytes = c.unpacked_segment_bytes;
    }
    ∷ chunk_rows (idx + 1) cs

unfoldable pub register_blocks :
    List (Hash32 × List XorbFrameRow) → List ParsedCasBlock → MetaStore → MetaStore
unfolding block_info chunk_rows register_xorb
register_blocks layouts [] db = db
register_blocks layouts (cb ∷ cbs) db =
    register_blocks layouts cbs (register_xorb (block_info layouts cb) (chunk_rows 0 cb.chunks) db)

unfoldable pub candidates : List ParsedFile → List Hash32
candidates [] = []
candidates (f ∷ fs) = map (λ e. e.xorb) f.entries ++ candidates fs

abbrev pub shard_within : Text → List Hash32 → MetaStore → Option ℕ → Result ApiError (Unit {0})
unfolding stored_bytes_for_owner unaccounted_xorb_bytes_for_owner
shard_within name xorbs db none = ok tt
shard_within name xorbs db (some quota) = do
  used ← from_core (stored_bytes_for_owner name db)
  delta ← from_core (unaccounted_xorb_bytes_for_owner name xorbs db)
  within_quota quota used delta

unfoldable pub shard_quota : Text → List Hash32 → Service → Result ApiError (Unit {0})
unfolding effective_quota stored_bytes_for_owner unaccounted_xorb_bytes_for_owner
shard_quota name xorbs svc = do
  quota ← effective_quota name svc
  shard_within name xorbs svc.meta quota

-- The terms of a file, from the entry of index `idx` on, which is in range of the verifications.
unfoldable pub entry_terms : Bool → List Hash32 → ℕ → List FileTermEntry → List FileTerm
entry_terms has_verification verifications idx [] = []
entry_terms has_verification verifications idx (e ∷ es) =
    record {
      xorb = e.xorb;
      chunk_idx_start = e.chunk_idx_start;
      chunk_idx_end = e.chunk_idx_end;
      unpacked_segment_bytes = e.unpacked_segment_bytes;
      verification = if has_verification then get_elem? verifications idx else none;
    }
    ∷ entry_terms has_verification verifications (idx + 1) es

abbrev pub is_empty : List Hash32 → Bool
is_empty [] = true
is_empty (v ∷ vs) = false

unfoldable pub files_to_register : List ParsedFile → Result ApiError (List (Hash32 × List FileTerm))
unfolding entry_terms
files_to_register [] = ok []
files_to_register (f ∷ fs) = do
  ensure (is_empty f.verifications || length f.verifications == length f.entries) (status 400)
  rest ← files_to_register fs
  ok (
      (f.file_hash, entry_terms (not (is_empty f.verifications)) f.verifications 0 f.entries)
      ∷ rest)

-- The checks of `upload_shard` before its first write.
unfoldable pub check_shard : Service → Bytes → Result ApiError ParsedShard
unfolding parse check_blocks check_files
check_shard svc body = do
  ensure (leb (length body) max_body_bytes) (status 400)
  parsed ← malformed (parse body)
  check_blocks svc.blobs parsed.cas_blocks
  check_files svc.blobs parsed.files
  ok parsed

-- What the database fails at: a statement after some of the xorbs are registered, the layouts and the
-- sums of the quota among them, and the transaction that registers the files.
pub record Faults : Type 0 where
  pub blocks : Option (ℕ × CoreError)
  pub files : Option CoreError

abbrev pub no_faults : Faults
no_faults = record { blocks = none; files = none }

abbrev pub reached : Option (ℕ × CoreError) → List ParsedCasBlock → List ParsedCasBlock
reached none cbs = cbs
reached (some (n, e)) cbs = take n cbs

abbrev pub unfailed : Option (ℕ × CoreError) → Result ApiError (Unit {0})
unfailed none = ok tt
unfailed (some (n, e)) = err (status (code_of e))

-- The service once the xorbs of a shard are registered, up to the one where the database fails.
unfoldable pub with_blocks : Option (ℕ × CoreError) → List ParsedCasBlock → Service → Service
unfolding xorb_frame_layouts register_blocks
with_blocks fault cbs svc =
    let layouts = xorb_frame_layouts (map (λ cb. cb.xorb) cbs) svc.meta in
    record svc { meta = register_blocks layouts (reached fault cbs) svc.meta }

-- What `upload_shard` checks after that.
unfoldable pub check_registration :
    Service → TokenClaims → List ParsedFile → Result ApiError (List (Hash32 × List FileTerm))
unfolding shard_quota candidates files_to_register owner
check_registration svc claims files =
    shard_quota (owner claims.repo) (candidates files) svc >> files_to_register files

-- `register_files`, one transaction: a fault rolls it back.
unfoldable pub commit_files :
    Option CoreError
    → RepoRef
    → List (Hash32 × List FileTerm)
    → MetaStore
    → Result CoreError MetaStore
unfolding register_files
commit_files none repo files db = ok (register_files repo files db)
commit_files (some e) repo files db = err e

abbrev pub registered : Service → Result CoreError MetaStore → Reply ℕ
registered svc (ok db) = (record svc { meta = db }, ok 1)
registered svc (err e) = (svc, err (status (code_of e)))
registered svc stuck = (svc, stuck)

abbrev pub shard_put :
    Service
    → RepoRef
    → List (Hash32 × List FileTerm)
    → Option CoreError
    → Result CoreError MemBlobStore
    → Reply ℕ
unfolding commit_files
shard_put svc repo files fault (ok blobs) =
    registered (record svc { blobs = blobs }) (commit_files fault repo files svc.meta)
shard_put svc repo files fault (err e) = (svc, err (status (code_of e)))
shard_put svc repo files fault stuck = (svc, stuck)

-- The shard is put before its files are registered, and stays where that fails.
unfoldable pub store_shard :
    Hash32 → Bytes → RepoRef → List (Hash32 × List FileTerm) → Option CoreError → Service → Reply ℕ
unfolding put_shard commit_files
store_shard shard_hash body repo files fault svc =
    shard_put svc repo files fault (put_shard shard_hash body svc.blobs)

-- The result is that of `UploadShardResponse`.
unfoldable pub upload_shard : (Bytes → Hash32) → Faults → Service → TokenClaims → Bytes → Reply ℕ
unfolding check_shard with_blocks check_registration store_shard
upload_shard blake3 faults svc claims body =
    and_then svc (check_shard svc body) (λ (parsed : ParsedShard).
      let svc' : Service = with_blocks faults.blocks parsed.cas_blocks svc in
      and_then svc' (unfailed faults.blocks >> check_registration svc' claims parsed.files)
        (λ (files : List (Hash32 × List FileTerm)).
          store_shard (blake3 body) body claims.repo files faults.files svc'))
