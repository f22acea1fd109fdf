-- ===== src/Meta/References.antt =====
-- Which xorbs the files of an owner reference, before and after a registration.
use baleforgit.Prelude.{
  Bool, Bool-cases, List, [], ap, false, inl, inr, map, refl, subst, sym, true, ℕ, ◌&&◌, ◌++◌, ◌+◌,
  ◌||◌, ◌∙◌, ◌∷◌, ◌≡◌,
}
use baleforgit.Core.{FileTerm, Hash32, RepoRef, eq_bytes}
use baleforgit.Meta.{
  FileRow, MetaStore, TermRow, file_row, insert_or_replace, is_file, terms_exist, write_file_in_tx,
}
use baleforgit.Meta.Hashes.{is_in}
use baleforgit.Meta.Lookups.{insert_terms-new}
use baleforgit.Meta.Terms.{rows_of}
use baleforgit.Meta.Usage.{joined, referenced}
use baleforgit.Table.{eq_bytes_refl, eq_bytes_sound}

or_assoc : (a b c : Bool) → ((a || b) || c) ≡ (a || (b || c))
or_assoc true b c = refl
or_assoc false true c = refl
or_assoc false false c = refl

and_false : (a : Bool) → (a && false) ≡ false
and_false true = refl
and_false false = refl

module _ (p : FileRow → Bool) where
  pub joined-own :
      (row : FileRow) (rows : List FileRow)
      → p row ≡ true
      → joined p row.file_hash (insert_or_replace row rows) ≡ true
  unfolding joined insert_or_replace
  joined-own row [] h = rw (eq_bytes_refl row.file_hash, h) refl
  joined-own row (r ∷ rows) h = elim (Bool-cases (is_file row.file_hash row.repo_id r)) [
    | inl e ↦ rw (e, insert_or_replace) (joined-own row rows h)
    | inr e ↦
        rw (e, insert_or_replace)
          (rw (joined-own row rows h, joined) (either (eq_bytes r.file_hash row.file_hash && p r)))
  ]
    where
      either : (a : Bool) → (a || true) ≡ true
      either true = refl
      either false = refl

  joined-other :
      (row : FileRow) (rows : List FileRow) (hash : Hash32)
      → eq_bytes row.file_hash hash ≡ false
      → joined p hash (insert_or_replace row rows) ≡ joined p hash rows
  unfolding joined insert_or_replace is_file
  joined-other row [] hash n = rw n refl
  joined-other row (r ∷ rows) hash n = elim (Bool-cases (is_file row.file_hash row.repo_id r)) [
    | inl e ↦
        let same : row.file_hash ≡ r.file_hash =
          eq_bytes_sound row.file_hash r.file_hash
            (first (eq_bytes row.file_hash r.file_hash) (eq_bytes row.repo_id r.repo_id) e) in
        let foreign : eq_bytes r.file_hash hash ≡ false =
          subst (λ (h : Hash32). eq_bytes h hash ≡ false) same n in
        rw (e, insert_or_replace) (joined-other row rows hash n ∙ rw (foreign, joined) refl)
    | inr e ↦
        rw (e, insert_or_replace)
          (ap (λ b. (eq_bytes r.file_hash hash && p r) || b) (joined-other row rows hash n))
  ]
    where
      first : (a b : Bool) → (a && b) ≡ true → a ≡ true
      first true b h = refl
      first false b h = absurd (cc h)

  module _ (files : List FileRow) (xorb : Hash32) where
    pub referenced-append :
        (rows more : List TermRow)
        → referenced p files xorb (rows ++ more)
          ≡ (referenced p files xorb rows || referenced p files xorb more)
    unfolding referenced
    referenced-append [] more = refl
    referenced-append (r ∷ rows) more = rw (referenced-append rows more) (
        sym (
          or_assoc (eq_bytes xorb r.term.xorb && joined p r.file_hash files)
            (referenced p files xorb rows) (referenced p files xorb more)))

    -- The terms of a file with `p` reference their xorbs.
    referenced-rows_of :
        (hash : Hash32) (i : ℕ) (ts : List FileTerm)
        → joined p hash files ≡ true
        → referenced p files xorb (rows_of hash i ts) ≡ is_in xorb (map (λ t. t.xorb) ts)
    unfolding referenced is_in
    referenced-rows_of hash i [] h = refl
    referenced-rows_of hash i (t ∷ ts) h =
        rw (h, referenced-rows_of hash (i + 1) ts h)
          (ap (λ b. b || is_in xorb (map (λ t. t.xorb) ts)) (and_true (eq_bytes xorb t.xorb)))
      where
        and_true : (a : Bool) → (a && true) ≡ a
        and_true true = refl
        and_true false = refl

  -- A file that no term is of joins no term.
  referenced-insert_or_replace :
      (row : FileRow) (files : List FileRow) (xorb : Hash32) (rows : List TermRow)
      → terms_exist row.file_hash rows ≡ false
      → referenced p (insert_or_replace row files) xorb rows ≡ referenced p files xorb rows
  unfolding referenced terms_exist
  referenced-insert_or_replace row files xorb [] h = refl
  referenced-insert_or_replace row files xorb (r ∷ rows) h =
      let (n, m) =
        or_false (eq_bytes row.file_hash r.file_hash) (terms_exist row.file_hash rows) h in
      rw (joined-other row files r.file_hash n, referenced-insert_or_replace row files xorb rows m)
        refl
    where
      or_false : (a b : Bool) → (a || b) ≡ false → (a ≡ false) × (b ≡ false)
      or_false false false e = (refl, refl)
      or_false false true e = absurd (cc e)
      or_false true b e = absurd (cc e)

  -- A new file that has `p` adds the xorbs of its terms to those referenced.
  pub referenced-write_file_in_tx :
      (hash : Hash32) (repo : RepoRef) (ts : List FileTerm) (db : MetaStore) (xorb : Hash32)
      → p (file_row hash repo ts) ≡ true
      → terms_exist hash db.file_terms ≡ false
      → referenced p
          (write_file_in_tx hash repo ts db).files
          xorb
          (write_file_in_tx hash repo ts db).file_terms
        ≡ (referenced p db.files xorb db.file_terms || is_in xorb (map (λ t. t.xorb) ts))
  unfolding write_file_in_tx file_row
  referenced-write_file_in_tx hash repo ts db xorb own h =
      let row : FileRow = file_row hash repo ts in
      let files : List FileRow = insert_or_replace row db.files in
      rw (h, insert_terms-new hash ts db.file_terms h)
        (referenced-append files xorb db.file_terms (rows_of hash 0 ts)
          ∙ rw
              (
                referenced-insert_or_replace row db.files xorb db.file_terms h,
                referenced-rows_of files xorb hash 0 ts (joined-own row db.files own),
              )
              refl)
