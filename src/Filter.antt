-- ===== src/Filter.antt =====
-- The clean and the smudge of git-bale's long-running filter, in one repository. What the crates of
-- xet-core, blake3, xxh3 and serde_json do is the parameter `Xet`. The clock, file modes and the
-- marker's time are not modelled, and the file system does not fail.
pub mod Pointer
pub mod CleanCache
pub mod Clean
pub mod Smudge
pub mod Drained
pub mod RoundTrip
use baleforgit.Prelude.{Bool, List, Option, [], ℕ, ◌∷◌}
use baleforgit.Core.{Bytes, Text}

-- `xet_data::processing::XetFileInfo`
pub record XetFileInfo : Type 0 where
  pub hash : Text
  pub file_size : Option ℕ

-- crates/git-bale/src/clean_cache.rs
pub record Chunk : Type 0 where
  pub start : ℕ
  pub end : ℕ
  pub hash : Text

pub record CacheEntry : Type 0 where
  pub size : ℕ
  pub chunks : List Chunk
  pub pointer : Text

-- crates/git-bale/src/manifest_cache.rs
pub record CachedTerm : Type 0 where
  pub xorb_hash : Text
  pub chunk_start : ℕ
  pub chunk_end : ℕ
  pub unpacked_length : ℕ

pub record Xet (Objects : Type 0) : Type 0 where
  -- `clean_bytes` or `clean_file` in a session over the local store, finalized
  pub clean_bytes : Bytes → Objects → Option (XetFileInfo × Objects)
  -- `download_to_writer` of the range `0..file_size` in a session over a local store
  pub download_local : XetFileInfo → ℕ → Objects → Option Bytes
  -- the same in a session over the server, with its authentication
  pub download_cold : XetFileInfo → ℕ → Option Bytes
  -- `fetch_manifest`
  pub fetch_manifest : XetFileInfo → Option (List CachedTerm)
  -- a lookup in the chunk cache; `none` where the hash is malformed
  pub chunk_cache_get : Text → ℕ → ℕ → Option (Option Bytes)
  -- the directory of a store that was just created
  pub no_objects : Objects
  -- `serde_json::to_string_pretty` and `from_str`
  pub to_json : XetFileInfo → Text
  pub from_json : Text → Option XetFileInfo
  -- blake3 of the path name, and xxh3-64
  pub path_key : Text → Text
  pub chunk_hash : Bytes → ℕ

pub record RawConfig : Type 0 where
  pub local_mode : Bool
  pub max_inline : ℕ

-- The files below the git directory, and the object store, where its directory exists. In server mode
-- the object store is the staging area.
pub record Repo (Objects : Type 0) : Type 0 where
  pub markers : List (Text × ℕ)
  pub store : Option Objects
  pub clean_cache : List (Text × CacheEntry)
  pub manifests : List (Text × List CachedTerm)

-- What a request leaves: the repository, the input to come, the output, and whether the request
-- failed once its payload was read, so that the loop answers it with an error.
pub record Turn (Objects : Type 0) : Type 0 where
  pub repo : Repo Objects
  pub rest : Bytes
  pub out : Bytes
  pub failed : Bool

abbrev pub status_success : Text
status_success =
    b's' ∷ b't' ∷ b'a' ∷ b't' ∷ b'u' ∷ b's' ∷ b'=' ∷ b's' ∷ b'u' ∷ b'c' ∷ b'c' ∷ b'e' ∷ b's' ∷ b's'
    ∷ []
