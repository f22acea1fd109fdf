-- ===== src/Tests/ShardUploads.antt =====
-- crates/bale-server-http/src/lib.rs: a shard with one file is uploaded under a quota.
use baleforgit.Prelude.{
  All, Bool, List, [], arith, err, leb, length, ltb, none, ok, refl, replicate, some, true, ℕ, ◌&&◌,
  ◌∷◌, ◌≡◌, ◌≤◌,
}
use baleforgit.Core.{Bytes, FileTerm, Hash32, RepoType, Scope, TokenClaims, internal, owner}
use baleforgit.Http.{status}
use baleforgit.Http.Quotas.{upload_shard-within_quota}
use baleforgit.Http.ShardUploads.{Faults, files_to_register, no_faults, upload_shard, with_blocks}
use baleforgit.Http.Uploads.{Service, effective_quota, max_body_bytes}
use baleforgit.Meta.{MetaStore, XorbFrame, register_files, terms_exist}
use baleforgit.Meta.Accounting.{AreNew, stored_bytes_for_owner-register_files, xorbs_of_files}
use baleforgit.Meta.Usage.{stored_bytes_for_owner, unaccounted_xorb_bytes_for_owner}
use baleforgit.Prelude.Bytes.{IsByte}
use baleforgit.Shard.{ParsedCasBlock, ParsedFile, ParsedShard}
use baleforgit.Shard.Cursor.{read_hash, read_u32, read_u64, skip, ◌>>=◌}
use baleforgit.Shard.Parse.{parse}
use baleforgit.Shard.Serialize.{serialize}
use baleforgit.Storage.{new}

abbrev nines : Hash32
nines = replicate 32 9

abbrev rows : List XorbFrame
rows =
    record {
      xorb_hash = nines;
      frame = record { frame_index = 0; on_disk_start = 0; on_disk_len = 11; uncompressed_len = 3 };
    }
    ∷ record {
      xorb_hash = nines;
      frame = record {
        frame_index = 1;
        on_disk_start = 11;
        on_disk_len = 10;
        uncompressed_len = 2;
      };
    }
    ∷ []

abbrev service : ℕ → Service
service quota = record {
  meta = record {
    xorbs = [];
    chunks = [];
    xorb_frames = rows;
    files = [];
    file_terms = [];
    owner_quotas = [];
  };
  blobs = record new { xorbs = (nines, []) ∷ [] };
  default_quota_bytes = some quota;
}

abbrev claims : TokenClaims
claims = record {
  user = b'u' ∷ [];
  repo = record { repo_type = RepoType.model; repo_id = b'a' ∷ b'/' ∷ b'x' ∷ []; revision = [] };
  scope = Scope.write;
  expires_at = 0;
}

abbrev a_file : ParsedFile
a_file = record {
  file_hash = replicate 32 7;
  file_flags = 0;
  entries =
      record {
        xorb = nines;
        cas_flags = 0;
        unpacked_segment_bytes = 5;
        chunk_idx_start = 0;
        chunk_idx_end = 2;
      }
      ∷ [];
  verifications = [];
  sha256 = none;
}

abbrev a_block : ParsedCasBlock
a_block = record {
  xorb = nines;
  cas_flags = 0;
  num_bytes_in_cas = 5;
  num_bytes_on_disk = 0;
  chunks = [];
}

abbrev a_shard : ParsedShard
a_shard = record {
  header = record { tag = replicate 32 1; version = 2; footer_size = 0 };
  files = a_file ∷ [];
  cas_blocks = a_block ∷ [];
  footer = none;
}

abbrev shard_body : Bytes
shard_body = serialize a_shard

abbrev a_registration : List (Hash32 × List FileTerm)
a_registration =
    (
      a_file.file_hash,
      record {
        xorb = nines;
        chunk_idx_start = 0;
        chunk_idx_end = 2;
        unpacked_segment_bytes = 5;
        verification = none;
      }
          ∷ [],
    )
    ∷ []

shard_parses : parse shard_body ≡ ok a_shard
unfolding parse serialize ◌>>=◌ read_hash read_u64 read_u32 skip
shard_parses = refl

abbrev is_byte : ℕ → Bool
is_byte b = ltb b 256

abbrev all_bytes : Bytes → Bool
all_bytes [] = true
all_bytes (b ∷ bs) = is_byte b && all_bytes bs

bytes_of : (bs : Bytes) → all_bytes bs ≡ true → All IsByte bs
bytes_of [] h = tt
bytes_of (b ∷ bs) h = ground (arith, bytes_of bs)

shard_bytes : All IsByte shard_body
unfolding serialize
shard_bytes = bytes_of shard_body refl

shard_small : leb (length shard_body) max_body_bytes ≡ true
unfolding serialize
shard_small = refl

abbrev sample_blake3 : Bytes → Hash32
sample_blake3 bytes = replicate 32 1

abbrev after_shard : Service
after_shard =
    let svc = with_blocks none (a_block ∷ []) (service 30) in
    record svc {
      meta = register_files claims.repo a_registration svc.meta;
      blobs = record svc.blobs { shards = (replicate 32 1, shard_body) ∷ [] };
    }

shard_uploaded :
    upload_shard sample_blake3 no_faults (service 30) claims shard_body ≡ (after_shard, ok 1)
unfolding upload_shard
shard_uploaded = rw (shard_small, shard_parses) refl

quota_of_service : effective_quota (owner claims.repo) (service 30) ≡ ok (some 30)
unfolding effective_quota
quota_of_service = refl

registration : files_to_register (a_file ∷ []) ≡ ok a_registration
unfolding files_to_register
registration = refl

file_is_new : AreNew a_registration []
unfolding terms_exist
file_is_new = (refl, tt, tt)

upload_shard-within_quota_example :
    (used : ℕ) × (stored_bytes_for_owner (owner claims.repo) after_shard.meta ≡ ok used)
    × (used ≤ 30)
upload_shard-within_quota_example =
    upload_shard-within_quota sample_blake3 no_faults (service 30) after_shard claims shard_body
      a_shard a_registration 30 1 shard_bytes tt quota_of_service (omega arith) shard_parses
      registration file_is_new shard_uploaded

abbrev after_refusal : Service
after_refusal = with_blocks none (a_block ∷ []) (service 20)

-- 21 bytes are above the quota.
shard_refused :
    upload_shard sample_blake3 no_faults (service 20) claims shard_body
    ≡ (after_refusal, err (status 429))
unfolding upload_shard
shard_refused = rw (shard_small, shard_parses) refl

-- The database fails at the files, when the shard is stored.
abbrev failing : Faults
failing = record { blocks = none; files = some internal }

abbrev orphaned : Service
orphaned =
    let svc = with_blocks none (a_block ∷ []) (service 30) in
    record svc { blobs = record svc.blobs { shards = (replicate 32 1, shard_body) ∷ [] } }

abbrev known_xorb : MetaStore
known_xorb = record (service 30).meta {
  xorbs =
      record { xorb = nines; num_chunks = 0; num_bytes_in_cas = 5; num_bytes_on_disk = 21 } ∷ [];
}

stored_nothing : stored_bytes_for_owner (owner claims.repo) known_xorb ≡ ok 0
unfolding stored_bytes_for_owner
stored_nothing = refl

adds_xorb :
    unaccounted_xorb_bytes_for_owner (owner claims.repo) (xorbs_of_files a_registration) known_xorb
    ≡ ok 21
unfolding unaccounted_xorb_bytes_for_owner owner
adds_xorb = refl

stored_bytes_for_owner-register_files_example :
    stored_bytes_for_owner
      (owner claims.repo)
      (register_files claims.repo a_registration known_xorb)
    ≡ ok 21
stored_bytes_for_owner-register_files_example =
    stored_bytes_for_owner-register_files claims.repo a_registration known_xorb 0 21
      (omega arith, tt) file_is_new stored_nothing adds_xorb (omega arith)
