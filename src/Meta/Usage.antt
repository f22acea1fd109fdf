-- ===== src/Meta/Usage.antt =====
-- crates/bale-server-meta-sqlite/src/lib.rs: the quotas of owners, and how many bytes an owner or a
-- repository stores.
use baleforgit.Prelude.{
  Bool, List, Option, Result, [], err, false, if◌then◌else◌, leb, ltb, none, not, ok, some, ℕ, ◌%◌,
  ◌&&◌, ◌+◌, ◌>>=◌, ◌^◌, ◌||◌, ◌∷◌,
}
use baleforgit.Core.{CoreError, Hash32, Text, XorbInfo, before_slash, eq_bytes, internal}
use baleforgit.Meta.{FileRow, MetaStore, TermRow, nonneg_i64_to_u64}
use baleforgit.Meta.Hashes.{dedup_sorted_xorbs, is_in}
use baleforgit.Table.{get, insert}

-- `SUM` of a column of 64-bit integers, which are here their words of two's complement. It fails where
-- the sum overflows.
unfoldable pub sum_i64 : ℕ → List ℕ → Result CoreError ℕ
sum_i64 acc [] = ok acc
sum_i64 acc (v ∷ vs) =
    let next = (acc + v) % 2 ^ 64 in
    let rest = sum_i64 next vs in
    if (ltb acc (2 ^ 63) && ltb v (2 ^ 63) && leb (2 ^ 63) next)
      || (leb (2 ^ 63) acc && leb (2 ^ 63) v && ltb next (2 ^ 63))
    then err internal
    else rest

-- `COALESCE(SUM(…), 0)`, read as an `u64`
unfoldable pub sum_u64 : List ℕ → Result CoreError ℕ
unfolding sum_i64 nonneg_i64_to_u64
sum_u64 vs = do n ← sum_i64 0 vs; nonneg_i64_to_u64 n

unfoldable pub total_bytes_of : (FileRow → Bool) → List FileRow → List ℕ
total_bytes_of p [] = []
total_bytes_of p (r ∷ rows) =
    let rest = total_bytes_of p rows in if p r then r.total_bytes ∷ rest else rest

-- The join of a term with the files of its hash: one of them has `p`.
unfoldable pub joined : (FileRow → Bool) → Hash32 → List FileRow → Bool
unfolding eq_bytes
joined p hash [] = false
joined p hash (r ∷ rows) = (eq_bytes r.file_hash hash && p r) || joined p hash rows

-- `xorb IN (SELECT DISTINCT ft.xorb_hash FROM file_terms ft JOIN files f … WHERE …)`
unfoldable pub referenced : (FileRow → Bool) → List FileRow → Hash32 → List TermRow → Bool
unfolding joined eq_bytes
referenced p files xorb [] = false
referenced p files xorb (r ∷ rows) =
    (eq_bytes xorb r.term.xorb && joined p r.file_hash files) || referenced p files xorb rows

-- `SELECT num_bytes_on_disk FROM xorbs WHERE …`
unfoldable pub on_disk_of : (Hash32 → Bool) → List XorbInfo → List ℕ
on_disk_of p [] = []
on_disk_of p (x ∷ rows) =
    let rest = on_disk_of p rows in if p x.xorb then x.num_bytes_on_disk ∷ rest else rest

abbrev pub of_owner : Text → FileRow → Bool
of_owner name r = eq_bytes r.owner name

abbrev pub of_repo : Text → FileRow → Bool
of_repo repo_id r = eq_bytes r.repo_id repo_id

abbrev pub of_sibling : Text → Text → FileRow → Bool
of_sibling name repo_id r = eq_bytes r.owner name && not (eq_bytes r.repo_id repo_id)

unfoldable pub raw_bytes_for_owner : Text → MetaStore → Result CoreError ℕ
unfolding sum_u64 total_bytes_of eq_bytes
raw_bytes_for_owner name db = sum_u64 (total_bytes_of (of_owner name) db.files)

unfoldable pub stored_bytes_for_owner : Text → MetaStore → Result CoreError ℕ
unfolding sum_u64 on_disk_of referenced eq_bytes
stored_bytes_for_owner name db =
    sum_u64 (on_disk_of (λ x. referenced (of_owner name) db.files x db.file_terms) db.xorbs)

unfoldable pub raw_bytes_for_repo : Text → MetaStore → Result CoreError ℕ
unfolding sum_u64 total_bytes_of eq_bytes
raw_bytes_for_repo repo_id db = sum_u64 (total_bytes_of (of_repo repo_id) db.files)

unfoldable pub stored_bytes_for_repo : Text → MetaStore → Result CoreError ℕ
unfolding sum_u64 on_disk_of referenced eq_bytes
stored_bytes_for_repo repo_id db =
    sum_u64 (on_disk_of (λ x. referenced (of_repo repo_id) db.files x db.file_terms) db.xorbs)

unfoldable pub exclusive_stored_bytes_for_repo : Text → MetaStore → Result CoreError ℕ
unfolding sum_u64 on_disk_of referenced eq_bytes before_slash
exclusive_stored_bytes_for_repo repo_id db =
    let name = before_slash repo_id in
    sum_u64 (
      on_disk_of
        (λ x.
          referenced (of_repo repo_id) db.files x db.file_terms
          && not (referenced (of_sibling name repo_id) db.files x db.file_terms))
        db.xorbs)

abbrev pub unaccounted_bytes : Text → List Hash32 → MetaStore → Result CoreError ℕ
unaccounted_bytes name uniq db = sum_u64 (
    on_disk_of (λ x. is_in x uniq && not (referenced (of_owner name) db.files x db.file_terms))
      db.xorbs)

unfoldable pub unaccounted_xorb_bytes_for_owner :
    Text → List Hash32 → MetaStore → Result CoreError ℕ
unfolding sum_u64 on_disk_of referenced eq_bytes is_in dedup_sorted_xorbs
unaccounted_xorb_bytes_for_owner name [] db = ok 0
unaccounted_xorb_bytes_for_owner name (x ∷ xs) db =
    unaccounted_bytes name (dedup_sorted_xorbs (x ∷ xs)) db

abbrev pub read_quota : Option ℕ → Result CoreError (Option ℕ)
read_quota none = ok none
read_quota (some n) = do limit ← nonneg_i64_to_u64 n; ok (some limit)

-- A quota is stored as the 64-bit word that `as i64` binds.
unfoldable pub get_owner_quota : Text → MetaStore → Result CoreError (Option ℕ)
unfolding get nonneg_i64_to_u64
get_owner_quota name db = read_quota (get name db.owner_quotas)

-- `DELETE FROM owner_quotas WHERE owner = ?`
unfoldable pub delete_quota : Text → List (Text × ℕ) → List (Text × ℕ)
unfolding eq_bytes
delete_quota name [] = []
delete_quota name (e ∷ rows) =
    let rest = delete_quota name rows in if eq_bytes name e.0 then rest else e ∷ rest

unfoldable pub set_owner_quota : Text → Option ℕ → MetaStore → MetaStore
unfolding insert delete_quota
set_owner_quota name none db = record db { owner_quotas = delete_quota name db.owner_quotas }
set_owner_quota name (some n) db = record db { owner_quotas = insert name n db.owner_quotas }
