-- ===== src/Tests/Metas.antt =====
-- crates/bale-server-meta-sqlite/src/lib.rs on a store with one file, and on an empty one.
use baleforgit.Prelude.{
  List, Option, [], arith, err, none, ok, refl, replicate, some, ℕ, ◌&&◌, ◌||◌, ◌∷◌, ◌≡◌,
}
use baleforgit.Core.{FileTerm, Hash32, RepoRef, RepoType, eq_bytes, internal}
use baleforgit.Meta.{
  MetaStore, file_in_repo, lookup_file, register_file, register_files, select_terms, term_sum,
  terms_exist, totals_of, write_file_in_tx,
}
use baleforgit.Meta.Access.{file_in_repo-register_files, registers}
use baleforgit.Meta.Lookups.{IsLimit1, lookup_file-register_file, other_rows}
use baleforgit.Meta.Terms.{select_terms-register_files}

abbrev a_file : Hash32
a_file = replicate 32 1

abbrev b_file : Hash32
b_file = replicate 32 2

abbrev ours : RepoRef
ours = record { repo_type = RepoType.model; repo_id = b'a' ∷ b'/' ∷ b'x' ∷ []; revision = [] }

abbrev theirs : RepoRef
theirs = record { repo_type = RepoType.model; repo_id = b'b' ∷ b'/' ∷ b'y' ∷ []; revision = [] }

abbrev a_term : FileTerm
a_term = record {
  xorb = replicate 32 9;
  chunk_idx_start = 0;
  chunk_idx_end = 2;
  unpacked_segment_bytes = 100;
  verification = none;
}

abbrev longer : FileTerm
longer = record a_term { unpacked_segment_bytes = 150 }

abbrev empty_db : MetaStore
empty_db = record {
  xorbs = [];
  chunks = [];
  xorb_frames = [];
  files = [];
  file_terms = [];
  owner_quotas = [];
}

abbrev with_file : MetaStore
with_file = register_file a_file ours (a_term ∷ a_term ∷ []) empty_db

abbrev first_row : List ℕ → Option ℕ
first_row [] = none
first_row (x ∷ xs) = some x

first_row-IsLimit1 : IsLimit1 first_row
first_row-IsLimit1 = record { a_row = λ x xs. (0, x, refl, refl) }

-- the file was registered without terms before, in the same repository
abbrev without_terms : MetaStore
without_terms = register_file a_file ours [] empty_db

lookup_file-register_file_example :
    lookup_file first_row a_file (register_file a_file ours (a_term ∷ a_term ∷ []) without_terms)
    ≡ ok (some (a_term ∷ a_term ∷ []))
unfolding totals_of terms_exist term_sum other_rows write_file_in_tx
lookup_file-register_file_example =
    lookup_file-register_file first_row a_file ours a_term (a_term ∷ []) without_terms
      first_row-IsLimit1 refl tt (omega arith)

select_terms-register_files_example :
    select_terms a_file (register_files theirs ((a_file, longer ∷ []) ∷ []) with_file)
    ≡ select_terms a_file with_file
unfolding terms_exist write_file_in_tx
select_terms-register_files_example =
    select_terms-register_files a_file theirs ((a_file, longer ∷ []) ∷ []) with_file refl

-- Registered again with terms of another sum, the file has the old terms and the new size, and every
-- lookup of it is refused.
lookup_refused :
    lookup_file first_row a_file (register_file a_file ours (longer ∷ []) with_file) ≡ err internal
unfolding lookup_file write_file_in_tx
lookup_refused = refl

file_in_repo-register_files_example :
    file_in_repo b_file theirs.repo_id
      (register_files theirs ((a_file, a_term ∷ []) ∷ []) with_file)
    ≡ ((eq_bytes theirs.repo_id theirs.repo_id && registers b_file ((a_file, a_term ∷ []) ∷ []))
        || file_in_repo b_file theirs.repo_id with_file)
file_in_repo-register_files_example =
    file_in_repo-register_files b_file theirs.repo_id theirs ((a_file, a_term ∷ []) ∷ []) with_file
