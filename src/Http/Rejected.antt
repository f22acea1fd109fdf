-- ===== src/Http/Rejected.antt =====
-- What a shard upload leaves alone.
use baleforgit.Prelude.{List, Option, [], map, ok, refl, some, ℕ, ◌∷◌, ◌≡◌, ◌⊎◌}
use baleforgit.Core.{Bytes, CoreError, Hash32, XorbFrameRow}
use baleforgit.Http.ShardUploads.{
  Faults, block_info, chunk_rows, reached, register_blocks, with_blocks,
}
use baleforgit.Http.Uploads.{Service}
use baleforgit.Meta.{MetaStore}
use baleforgit.Meta.Xorbs.{register_xorb, xorb_frame_layouts}
use baleforgit.Shard.{ParsedCasBlock}
use baleforgit.Storage.{put_shard}

-- The tables that the registration of xorbs does not write.
pub record SameFiles (db db' : MetaStore) : Type 0 where
  pub files : db'.files ≡ db.files
  pub file_terms : db'.file_terms ≡ db.file_terms
  pub xorb_frames : db'.xorb_frames ≡ db.xorb_frames
  pub owner_quotas : db'.owner_quotas ≡ db.owner_quotas

pub register_blocks-SameFiles :
    (layouts : List (Hash32 × List XorbFrameRow)) (cbs : List ParsedCasBlock) (db : MetaStore)
    → SameFiles db (register_blocks layouts cbs db)
unfolding register_blocks register_xorb
register_blocks-SameFiles layouts [] db = record {
  files = refl;
  file_terms = refl;
  xorb_frames = refl;
  owner_quotas = refl;
}
register_blocks-SameFiles layouts (cb ∷ cbs) db =
    let rest =
      register_blocks-SameFiles layouts cbs
        (register_xorb (block_info layouts cb) (chunk_rows 0 cb.chunks) db) in
    record {
      files = rest.files;
      file_terms = rest.file_terms;
      xorb_frames = rest.xorb_frames;
      owner_quotas = rest.owner_quotas;
    }

-- The files, their terms, the layouts, the quotas and the blobs are those before.
pub record Unchanged (svc svc' : Service) : Type 0 where
  pub meta : SameFiles svc.meta svc'.meta
  pub blobs : svc'.blobs ≡ svc.blobs

pub with_blocks-Unchanged :
    (fault : Option (ℕ × CoreError)) (cbs : List ParsedCasBlock) (svc : Service)
    → Unchanged svc (with_blocks fault cbs svc)
unfolding with_blocks
with_blocks-Unchanged fault cbs svc = record {
  meta =
      register_blocks-SameFiles (xorb_frame_layouts (map (λ cb. cb.xorb) cbs) svc.meta)
        (reached fault cbs) svc.meta;
  blobs = refl;
}

-- What a refused shard upload leaves: the files, their terms, the layouts and the quotas are those
-- before, and the blobs too, or else the shard alone was put and the database failed at its files.
pub record Refused (blake3 : Bytes → Hash32) (faults : Faults) (body : Bytes) (svc svc' : Service)
    : Type 0 where
  pub meta : SameFiles svc.meta svc'.meta
  pub blobs :
      (svc'.blobs ≡ svc.blobs)
      ⊎ ((c : CoreError) × (faults.files ≡ some c)
          × (put_shard (blake3 body) body svc.blobs ≡ ok svc'.blobs))
