-- ===== src/Meta/Terms.antt =====
-- The terms of a file are written once, and whole.
-- The rows of `ts` for a hash, from index `i` on.
use baleforgit.Prelude.{
  Bool-cases, List, [], ap, append-nil, false, inl, inr, map, refl, subst, sym, true, ℕ, ◌++◌, ◌+◌,
  ◌∙◌, ◌∷◌, ◌≡◌,
}
use baleforgit.Core.{FileTerm, Hash32, RepoRef, eq_bytes}
use baleforgit.Meta.{
  MetaStore, TermRow, insert_terms, order_by_index, register_files, select_terms, term_there,
  terms_exist, terms_of, write_file_in_tx,
}
use baleforgit.Table.{eq_bytes_sound}

abbrev pub rows_of : Hash32 → ℕ → List FileTerm → List TermRow
rows_of hash i [] = []
rows_of hash i (t ∷ ts) =
    record { file_hash = hash; term_index = i; term = t } ∷ rows_of hash (i + 1) ts

module _ (hash : Hash32) where
  pub terms_of-append :
      (rows more : List TermRow)
      → terms_of hash (rows ++ more) ≡ terms_of hash rows ++ terms_of hash more
  unfolding terms_of
  terms_of-append [] more = refl
  terms_of-append (r ∷ rows) more = elim (Bool-cases (eq_bytes hash r.file_hash)) [
    | inl e ↦ rw (e, terms_of) (ap (λ t. r ∷ t) (terms_of-append rows more))
    | inr e ↦ rw (e, terms_of) (terms_of-append rows more)
  ]

  -- Rows for another hash do not show.
  terms_of-other :
      (key : Hash32) (i : ℕ) (ts : List FileTerm) (rows : List TermRow)
      → eq_bytes hash key ≡ false
      → terms_of hash (insert_terms key i ts rows) ≡ terms_of hash rows
  unfolding terms_of insert_terms
  terms_of-other key i [] rows n = refl
  terms_of-other key i (t ∷ ts) rows n = elim (Bool-cases (term_there key i rows)) [
    | inl e ↦ rw (e, insert_terms) (terms_of-other key (i + 1) ts rows n)
    | inr e ↦
        let row : TermRow = record { file_hash = key; term_index = i; term = t } in
        let hidden : terms_of hash (row ∷ []) ≡ [] = rw (n, terms_of) refl in
        rw (e, insert_terms)
          (terms_of-other key (i + 1) ts (rows ++ row ∷ []) n
            ∙ terms_of-append rows (row ∷ [])
            ∙ rw (hidden, append-nil (terms_of hash rows)) refl)
  ]

  -- A transaction for a hash leaves the terms that it finds.
  terms_of-write_file_in_tx :
      (key : Hash32) (repo : RepoRef) (ts : List FileTerm) (db : MetaStore)
      → terms_exist hash db.file_terms ≡ true
      → terms_of hash (write_file_in_tx key repo ts db).file_terms ≡ terms_of hash db.file_terms
  unfolding write_file_in_tx
  terms_of-write_file_in_tx key repo ts db h = elim (Bool-cases (terms_exist key db.file_terms)) [
    | inl e ↦ rw e refl
    | inr e ↦
        let other : eq_bytes hash key ≡ false = elim (Bool-cases (eq_bytes hash key)) [
          | inl same ↦
              let p : key ≡ hash = sym (eq_bytes_sound hash key same) in
              let q : true ≡ false = sym h ∙ subst (λ k. terms_exist k db.file_terms ≡ false) p e in
              absurd (cc q)
          | inr diff ↦ diff
        ] in
        rw e (terms_of-other key 0 ts db.file_terms other)
  ]

  terms_exist-of :
      (rows : List TermRow)
      → terms_exist hash rows ≡ elim (terms_of hash rows) [ [] ↦ false | r ∷ rs ↦ true ]
  unfolding terms_exist terms_of
  terms_exist-of [] = refl
  terms_exist-of (r ∷ rows) = elim (Bool-cases (eq_bytes hash r.file_hash)) [
    | inl e ↦ rw (e, terms_of) refl
    | inr e ↦ rw (e, terms_of) (terms_exist-of rows)
  ]

  -- Where a file has terms, registrations of any files in any repository leave its term list as it
  -- is.
  pub select_terms-register_files :
      (repo : RepoRef) (fs : List (Hash32 × List FileTerm)) (db : MetaStore)
      → terms_exist hash db.file_terms ≡ true
      → select_terms hash (register_files repo fs db) ≡ select_terms hash db
  unfolding register_files select_terms
  select_terms-register_files repo [] db h = refl
  select_terms-register_files repo (f ∷ fs) db h =
      let next : MetaStore = write_file_in_tx f.0 repo f.1 db in
      let same : terms_of hash next.file_terms ≡ terms_of hash db.file_terms =
        terms_of-write_file_in_tx f.0 repo f.1 db h in
      let still : terms_exist hash next.file_terms ≡ true =
        terms_exist-of next.file_terms
        ∙ ap (λ (rs : List TermRow). elim rs [ [] ↦ false | r ∷ rs ↦ true ]) same
        ∙ sym (terms_exist-of db.file_terms)
        ∙ h in
      select_terms-register_files repo fs next still
      ∙ ap (λ rs. map (λ (r : TermRow). r.term) (order_by_index rs)) same
