-- ===== src/Core.antt =====
-- crates/bale-server-core/src/lib.rs: the domain types. A Rust string is the list of its UTF-8
-- bytes, and a hash the list of its 32 bytes; the newtypes over `Hash32` are synonyms.
use baleforgit.Prelude.{
  All, Bool, List, Option, [], false, if◌then◌else◌, length, none, replicate, some, true, ℕ, ◌&&◌,
  ◌==◌, ◌∷◌, ◌≡◌,
}
use baleforgit.Prelude.Bytes.{IsByte}

abbrev pub Bytes : Type 0
Bytes = List ℕ

abbrev pub Text : Type 0
Text = List ℕ

abbrev pub hash_len : ℕ
hash_len = 32

abbrev pub Hash32 : Type 0
Hash32 = List ℕ

pub record IsHash (h : Hash32) : Type 0 where
  pub size : length h ≡ 32
  pub bytes : All IsByte h

abbrev pub zero_hash : Hash32
zero_hash = replicate 32 0

-- `==` on byte slices, strings and hashes
unfoldable pub eq_bytes : Bytes → Bytes → Bool
eq_bytes [] [] = true
eq_bytes [] (y ∷ ys) = false
eq_bytes (x ∷ xs) [] = false
eq_bytes (x ∷ xs) (y ∷ ys) = x == y && eq_bytes xs ys

-- `s.strip_prefix(p)`
unfoldable pub drop_prefix : Text → Text → Option Text
drop_prefix [] s = some s
drop_prefix (p ∷ ps) [] = none
drop_prefix (p ∷ ps) (c ∷ s) = let rest = drop_prefix ps s in if p == c then rest else none

pub data Scope : Type 0 where
  read write : Scope

pub data RepoType : Type 0 where
  model dataset space : RepoType

pub record RepoRef : Type 0 where
  pub repo_type : RepoType
  pub repo_id : Text
  pub revision : Text

-- `s.split_once(c)`, its first part, and the whole of `s` where `c` is not in it
unfoldable pub before_slash : Text → Text
before_slash [] = []
before_slash (c ∷ s) = let rest = before_slash s in if c == b'/' then [] else c ∷ rest

unfoldable pub owner : RepoRef → Text
unfolding before_slash
owner r = before_slash r.repo_id

pub record TokenClaims : Type 0 where
  pub user : Text
  pub repo : RepoRef
  pub scope : Scope
  pub expires_at : ℕ

pub record FileTerm : Type 0 where
  pub xorb : Hash32
  pub chunk_idx_start : ℕ
  pub chunk_idx_end : ℕ
  pub unpacked_segment_bytes : ℕ
  pub verification : Option Hash32

pub record ChunkRow : Type 0 where
  pub chunk_hash : Hash32
  pub chunk_index : ℕ
  pub byte_start : ℕ
  pub unpacked_segment_bytes : ℕ

pub record XorbInfo : Type 0 where
  pub xorb : Hash32
  pub num_chunks : ℕ
  pub num_bytes_in_cas : ℕ
  pub num_bytes_on_disk : ℕ

pub record XorbFrameRow : Type 0 where
  pub frame_index : ℕ
  pub on_disk_start : ℕ
  pub on_disk_len : ℕ
  pub uncompressed_len : ℕ

-- The messages are not modelled.
pub data CoreError : Type 0 where
  not_found conflict bad_request unauthorized forbidden internal : CoreError
