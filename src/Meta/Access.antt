-- ===== src/Meta/Access.antt =====
-- Which repositories a file is in: a token of a repository reads only the files that have a row there.
use baleforgit.Prelude.{
  Bool, Bool-cases, List, [], ap, false, inl, inr, or_swap, refl, true, ◌&&◌, ◌||◌, ◌∙◌, ◌∷◌, ◌≡◌,
}
use baleforgit.Core.{FileTerm, Hash32, RepoRef, Text, eq_bytes}
use baleforgit.Meta.{
  FileRow, MetaStore, file_in_repo, file_in_rows, file_row, insert_or_replace, is_file,
  register_files, write_file_in_tx,
}
use baleforgit.Table.{eq_bytes_sound}

module _ (hash : Hash32) (repo_id : Text) where
  -- a row with the key of `row` counts for the same files and repositories as `row`
  is_file-same_key :
      (row r : FileRow)
      → is_file row.file_hash row.repo_id r ≡ true
      → is_file hash repo_id r ≡ is_file hash repo_id row
  unfolding is_file
  is_file-same_key row r h =
      let both = and_true (eq_bytes row.file_hash r.file_hash) (eq_bytes row.repo_id r.repo_id) h in
      let p : row.file_hash ≡ r.file_hash = eq_bytes_sound row.file_hash r.file_hash both.0 in
      let q : row.repo_id ≡ r.repo_id = eq_bytes_sound row.repo_id r.repo_id both.1 in
      rw (p, q) refl
    where
      and_true : (a b : Bool) → (a && b) ≡ true → (a ≡ true) × (b ≡ true)
      and_true true true e = (refl, refl)
      and_true true false e = absurd (cc e)
      and_true false b e = absurd (cc e)

  file_in_rows-insert_or_replace :
      (row : FileRow) (rows : List FileRow)
      → file_in_rows hash repo_id (insert_or_replace row rows)
        ≡ (is_file hash repo_id row || file_in_rows hash repo_id rows)
  unfolding file_in_rows insert_or_replace
  file_in_rows-insert_or_replace row [] = refl
  file_in_rows-insert_or_replace row (r ∷ rows) =
      elim (Bool-cases (is_file row.file_hash row.repo_id r)) [
        | inl e ↦
            rw (e, insert_or_replace)
              (file_in_rows-insert_or_replace row rows
                ∙ rw (is_file-same_key row r e)
                    (once (is_file hash repo_id row) (file_in_rows hash repo_id rows)))
        | inr e ↦
            rw (e, insert_or_replace)
              (ap (λ b. is_file hash repo_id r || b) (file_in_rows-insert_or_replace row rows)
                ∙ or_swap (is_file hash repo_id r) (is_file hash repo_id row)
                    (file_in_rows hash repo_id rows))
      ]
    where
      once : (a b : Bool) → (a || b) ≡ (a || (a || b))
      once true b = refl
      once false b = refl

-- A file of this hash is among those registered.
abbrev pub registers : Hash32 → List (Hash32 × List FileTerm) → Bool
registers hash [] = false
registers hash (f ∷ fs) = eq_bytes hash f.0 || registers hash fs

-- After a registration a file is in a repository if it was before, or if the registration was for
-- that repository and had the file, and only then.
pub file_in_repo-register_files :
    (hash : Hash32) (repo_id : Text) (repo : RepoRef) (fs : List (Hash32 × List FileTerm))
    (db : MetaStore)
    → file_in_repo hash repo_id (register_files repo fs db)
      ≡ ((eq_bytes repo_id repo.repo_id && registers hash fs) || file_in_repo hash repo_id db)
unfolding file_in_repo register_files write_file_in_tx is_file file_row
file_in_repo-register_files hash repo_id repo [] db =
    none_new (eq_bytes repo_id repo.repo_id) (file_in_rows hash repo_id db.files)
  where
    none_new : (a b : Bool) → b ≡ ((a && false) || b)
    none_new true b = refl
    none_new false b = refl
file_in_repo-register_files hash repo_id repo (f ∷ fs) db =
    let row : FileRow = file_row f.0 repo f.1 in
    file_in_repo-register_files hash repo_id repo fs (write_file_in_tx f.0 repo f.1 db)
    ∙ ap (λ b. (eq_bytes repo_id repo.repo_id && registers hash fs) || b)
        (file_in_rows-insert_or_replace hash repo_id row db.files)
    ∙ regroup (eq_bytes repo_id repo.repo_id) (registers hash fs) (eq_bytes hash f.0)
        (file_in_rows hash repo_id db.files)
  where
    regroup : (a b c d : Bool) → ((a && b) || ((c && a) || d)) ≡ ((a && (c || b)) || d)
    regroup true true true d = refl
    regroup true true false d = refl
    regroup true false true d = refl
    regroup true false false d = refl
    regroup false b true d = refl
    regroup false b false d = refl
