-- ===== src/Meta.antt =====
-- crates/bale-server-meta-sqlite/src/lib.rs: `SqliteMetadataStore`, and here its files and their
-- terms. A table is the list of its rows and a statement what it does to that list: `INSERT OR REPLACE` and
-- `INSERT OR IGNORE` by the table's primary key. A transaction is one step, as SQLite has one writer.
-- The column `created_at` is left out, and no statement fails.
pub mod Access
pub mod Terms
pub mod Lookups
pub mod Hashes
pub mod Xorbs
pub mod Usage
pub mod Layouts
pub mod Sums
pub mod References
pub mod Accounting
use baleforgit.Prelude.{
  Bool, List, Option, Result, [], ensure, err, false, if◌then◌else◌, leb, ltb, map, none, ok, some,
  ℕ, ◌&&◌, ◌++◌, ◌+◌, ◌==◌, ◌>>=◌, ◌>>◌, ◌^◌, ◌||◌, ◌∷◌,
}
use baleforgit.Core.{
  owner, ChunkRow, CoreError, FileTerm, Hash32, RepoRef, RepoType, Text, XorbFrameRow, XorbInfo,
  eq_bytes, internal,
}

-- A row of `files`, whose primary key is the hash with the repository. `total_bytes` is the 64-bit
-- word that `as i64` binds.
pub record FileRow : Type 0 where
  pub file_hash : Hash32
  pub repo_type : RepoType
  pub repo_id : Text
  pub revision : Text
  pub total_bytes : ℕ
  pub owner : Text

-- A row of `file_terms`, whose primary key is the hash with the index.
pub record TermRow : Type 0 where
  pub file_hash : Hash32
  pub term_index : ℕ
  pub term : FileTerm

-- A row of `xorbs` is an `XorbInfo`, whose hash is the key. A row of `chunks`, whose primary key is
-- the hash of the chunk with that of the xorb.
pub record XorbChunk : Type 0 where
  pub xorb_hash : Hash32
  pub chunk : ChunkRow

-- A row of `xorb_frames`, whose primary key is the hash with the index.
pub record XorbFrame : Type 0 where
  pub xorb_hash : Hash32
  pub frame : XorbFrameRow

-- `owner_quotas` has the owner as its key.
pub record MetaStore : Type 0 where
  pub xorbs : List XorbInfo
  pub chunks : List XorbChunk
  pub xorb_frames : List XorbFrame
  pub files : List FileRow
  pub file_terms : List TermRow
  pub owner_quotas : List (Text × ℕ)

-- A sum of fewer than 2 ^ 32 numbers below 2 ^ 32 fits an `u64`.
unfoldable pub term_sum : List FileTerm → ℕ
term_sum [] = 0
term_sum (t ∷ ts) = t.unpacked_segment_bytes + term_sum ts

unfoldable pub nonneg_i64_to_u64 : ℕ → Result CoreError ℕ
nonneg_i64_to_u64 n = if ltb n (2 ^ 63) then ok n else err internal

unfoldable pub is_file : Hash32 → Text → FileRow → Bool
unfolding eq_bytes
is_file hash repo_id row = eq_bytes hash row.file_hash && eq_bytes repo_id row.repo_id

unfoldable pub insert_or_replace : FileRow → List FileRow → List FileRow
unfolding is_file
insert_or_replace row [] = row ∷ []
insert_or_replace row (r ∷ rows) =
    let rest = insert_or_replace row rows in
    if is_file row.file_hash row.repo_id r then rest else r ∷ rest

unfoldable pub terms_exist : Hash32 → List TermRow → Bool
unfolding eq_bytes
terms_exist hash [] = false
terms_exist hash (r ∷ rows) = eq_bytes hash r.file_hash || terms_exist hash rows

unfoldable pub term_there : Hash32 → ℕ → List TermRow → Bool
unfolding eq_bytes
term_there hash i [] = false
term_there hash i (r ∷ rows) =
    (eq_bytes hash r.file_hash && i == r.term_index) || term_there hash i rows

-- The batches of `INSERT OR IGNORE`, from index `i` on.
unfoldable pub insert_terms : Hash32 → ℕ → List FileTerm → List TermRow → List TermRow
unfolding term_there
insert_terms hash i [] rows = rows
insert_terms hash i (t ∷ ts) rows =
    let ignored = insert_terms hash (i + 1) ts rows in
    let inserted =
      insert_terms hash (i + 1) ts
        (rows ++ record { file_hash = hash; term_index = i; term = t } ∷ []) in
    if term_there hash i rows then ignored else inserted

unfoldable pub file_row : Hash32 → RepoRef → List FileTerm → FileRow
unfolding term_sum owner
file_row hash repo terms = record {
  file_hash = hash;
  repo_type = repo.repo_type;
  repo_id = repo.repo_id;
  revision = repo.revision;
  total_bytes = term_sum terms;
  owner = owner repo;
}

-- Where there are terms, `return Ok(())` comes before the insertion of the new ones.
unfoldable pub write_file_in_tx : Hash32 → RepoRef → List FileTerm → MetaStore → MetaStore
unfolding insert_or_replace terms_exist insert_terms file_row
write_file_in_tx hash repo terms db = record db {
  files = insert_or_replace (file_row hash repo terms) db.files;
  file_terms =
      if terms_exist hash db.file_terms
      then db.file_terms
      else insert_terms hash 0 terms db.file_terms;
}

abbrev pub register_file : Hash32 → RepoRef → List FileTerm → MetaStore → MetaStore
register_file hash repo terms db = write_file_in_tx hash repo terms db

-- One transaction for all files.
unfoldable pub register_files : RepoRef → List (Hash32 × List FileTerm) → MetaStore → MetaStore
unfolding write_file_in_tx
register_files repo [] db = db
register_files repo (f ∷ fs) db = register_files repo fs (write_file_in_tx f.0 repo f.1 db)

unfoldable pub file_in_rows : Hash32 → Text → List FileRow → Bool
unfolding is_file
file_in_rows hash repo_id [] = false
file_in_rows hash repo_id (r ∷ rows) = is_file hash repo_id r || file_in_rows hash repo_id rows

unfoldable pub file_in_repo : Hash32 → Text → MetaStore → Bool
unfolding file_in_rows
file_in_repo hash repo_id db = file_in_rows hash repo_id db.files

-- `WHERE file_hash = ?`
unfoldable pub terms_of : Hash32 → List TermRow → List TermRow
unfolding eq_bytes
terms_of hash [] = []
terms_of hash (r ∷ rows) =
    let rest = terms_of hash rows in if eq_bytes hash r.file_hash then r ∷ rest else rest

unfoldable pub insert_in_order : TermRow → List TermRow → List TermRow
insert_in_order r [] = r ∷ []
insert_in_order r (q ∷ rows) =
    let rest = insert_in_order r rows in
    if leb r.term_index q.term_index then r ∷ q ∷ rows else q ∷ rest

-- `ORDER BY term_index ASC`
unfoldable pub order_by_index : List TermRow → List TermRow
unfolding insert_in_order
order_by_index [] = []
order_by_index (r ∷ rows) = insert_in_order r (order_by_index rows)

unfoldable pub select_terms : Hash32 → MetaStore → List FileTerm
unfolding terms_of order_by_index
select_terms hash db = map (λ r. r.term) (order_by_index (terms_of hash db.file_terms))

unfoldable pub totals_of : Hash32 → List FileRow → List ℕ
unfolding eq_bytes
totals_of hash [] = []
totals_of hash (r ∷ rows) =
    let rest = totals_of hash rows in
    if eq_bytes hash r.file_hash then r.total_bytes ∷ rest else rest

-- The comparison of the terms' sum with the recorded size, where one is recorded.
unfoldable pub check_total : Option ℕ → List FileTerm → Result CoreError (Option (List FileTerm))
unfolding nonneg_i64_to_u64 term_sum
check_total none terms = ok (some terms)
check_total (some n) terms = do
  total ← nonneg_i64_to_u64 n
  ensure (term_sum terms == total) internal
  ok (some terms)

-- `limit_1` is the row that the engine returns of a `LIMIT 1` without an order.
unfoldable pub serve_terms :
    (List ℕ → Option ℕ) → List ℕ → List FileTerm → Result CoreError (Option (List FileTerm))
unfolding check_total
serve_terms limit_1 totals [] = ok none
serve_terms limit_1 totals (t ∷ ts) = check_total (limit_1 totals) (t ∷ ts)

unfoldable pub lookup_file :
    (List ℕ → Option ℕ) → Hash32 → MetaStore → Result CoreError (Option (List FileTerm))
unfolding serve_terms select_terms totals_of
lookup_file limit_1 hash db = serve_terms limit_1 (totals_of hash db.files) (select_terms hash db)
