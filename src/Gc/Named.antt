-- ===== src/Gc/Named.antt =====
-- `reachable_hashes` against what the index and the commits name.
use baleforgit.Prelude.{
  Bool-cases, List, Option, [], get_elem?, inl, inr, some, subst, suc, true, zero, ℕ, ◌∷◌, ◌≡◌,
}
use baleforgit.Core.{Bytes, Text}
use baleforgit.Gc.{
  Entry, Git, Walk, all_found, consider_entries, no_tips, pointer_at, reachable_hashes,
  walk_commits,
}
use baleforgit.Gc.Walks.{
  AllCovered, Covers, Good, consider_entries-Walked, found_all, walk_commits-Found,
}
use baleforgit.Meta.Hashes.{is_in}

module _ (git : Git) (want : List Text) where
  -- The index, or a commit of the walk, has a file with this hash.
  pub data Names (h : Text) (cs : List (Option (List Entry))) : Type 0 where
    in_index :
        (i : ℕ) (e : Entry)
        → get_elem? git.index i ≡ some e
        → e.is_file ≡ true
        → pointer_at git e.oid ≡ some h
        → Names h cs
    in_commit :
        (i j : ℕ) (es : List Entry) (e : Entry)
        → get_elem? cs i ≡ some (some es)
        → get_elem? es j ≡ some e
        → e.is_file ≡ true
        → pointer_at git e.oid ≡ some h
        → Names h cs

  covered_at :
      (w : Walk) (es : List Entry) (i : ℕ) (e : Entry)
      → AllCovered git want w es
      → get_elem? es i ≡ some e
      → e.is_file ≡ true
      → Covers git want w e.oid
  covered_at w [] i e a k f = absurd (cc k)
  covered_at w (d ∷ es) zero e a k f =
      let same : d ≡ e = cc k in
      subst (λ (x : Entry). x.is_file ≡ true → Covers git want w x.oid) same a.0 f
  covered_at w (d ∷ es) (suc i) e a k f = covered_at w es i e a.1 k f

  abbrev start : Walk
  start = record { seen_blobs = []; live = [] }

  start-Good : Good git want start
  unfolding is_in
  start-Good = record { distinct = tt; wanted = tt; seen = λ oid e. absurd (cc e) }

  in_index_walk :
      (i : ℕ) (e : Entry) (h : Text)
      → get_elem? git.index i ≡ some e
      → e.is_file ≡ true
      → pointer_at git e.oid ≡ some h
      → is_in h want ≡ true
      → is_in h (consider_entries git want git.index start).live ≡ true
  in_index_walk i e h g f p k =
      let v = consider_entries-Walked git want git.index start start-Good in
      covered_at (consider_entries git want git.index start) git.index i e v.covers g f h p k

  in_walk :
      (cs : List (Option (List Entry))) (h : Text)
      → Names h cs
      → is_in h want ≡ true
      → is_in h (walk_commits git want cs (consider_entries git want git.index start)).live ≡ true
  in_walk cs h (in_index i e g f p) k =
      let w : Walk = consider_entries git want git.index start in
      let v = consider_entries-Walked git want git.index start start-Good in
      (walk_commits-Found git want cs w v.good).more h (in_index_walk i e h g f p k)
  in_walk cs h (in_commit i j es e c g f p) k =
      let w : Walk = consider_entries git want git.index start in
      let v = consider_entries-Walked git want git.index start start-Good in
      covered_at (walk_commits git want cs w) es j e
        ((walk_commits-Found git want cs w v.good).covers i es c) g f h p k

  -- With no commits, it is the index that has the file.
  in_index_only :
      (h : Text)
      → Names h []
      → is_in h want ≡ true
      → is_in h (consider_entries git want git.index start).live ≡ true
  in_index_only h (in_index i e g f p) k = in_index_walk i e h g f p k
  in_index_only h (in_commit i j es e c g f p) k = absurd (cc c)

  in_full :
      (w : Walk) (cs : List (Option (List Entry))) (h : Text)
      → Good git want w
      → all_found git want w ≡ true
      → Names h cs
      → is_in h want ≡ true
      → is_in h w.live ≡ true
  in_full w cs h v full (in_index i e g f p) k = found_all git want w e.oid v full h p k
  in_full w cs h v full (in_commit i j es e c g f p) k = found_all git want w e.oid v full h p k

  no_commits :
      (tips hidden : List Bytes) (cs : List (Option (List Entry)))
      → no_tips tips ≡ true
      → git.rev_walk tips hidden ≡ some cs
      → git.rev_walk [] hidden ≡ some []
      → cs ≡ []
  no_commits [] hidden cs n walk empty = cc (walk, empty)
  no_commits (t ∷ ts) hidden cs n walk empty = absurd (cc n)

  -- Each wanted hash that the index or the walk from the tips names is reachable; a walk from no tips
  -- has no commits.
  pub reachable_hashes-Names :
      (tips hidden : List Bytes) (cs : List (Option (List Entry))) (h : Text)
      → git.rev_walk tips hidden ≡ some cs
      → git.rev_walk [] hidden ≡ some []
      → Names h cs
      → is_in h want ≡ true
      → is_in h (reachable_hashes git want tips hidden) ≡ true
  unfolding reachable_hashes
  reachable_hashes-Names tips hidden cs h walk empty n k =
      let w : Walk = consider_entries git want git.index start in
      let v = consider_entries-Walked git want git.index start start-Good in
      elim (Bool-cases (all_found git want w)) [
        | inl full ↦ rw (full, reachable_hashes) (in_full w cs h v.good full n k)
        | inr go_on ↦ elim (Bool-cases (no_tips tips)) [
          | inl none_left ↦
              let none_walked : Names h [] =
                subst (Names h) (no_commits tips hidden cs none_left walk empty) n in
              rw (go_on, none_left, reachable_hashes) (in_index_only h none_walked k)
          | inr tip ↦ rw (go_on, tip, walk, reachable_hashes) (in_walk cs h n k)
        ]
      ]
