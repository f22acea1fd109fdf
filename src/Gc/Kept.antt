-- ===== src/Gc/Kept.antt =====
-- What `reconcile` keeps.
use baleforgit.Prelude.{
  Bool, Bool-cases, List, Option, [], ap, false, if-both, if◌then◌else◌, inl, inr, not, refl, some,
  subst, sym, true, ℕ, ◌&&◌, ◌++◌, ◌||◌, ◌∙◌, ◌∷◌, ◌≡◌, ◌⊎◌,
}
use baleforgit.Core.{Bytes, Text, eq_bytes}
use baleforgit.Gc.{
  Entry, GcConfig, Git, Staging, is_64_lower_hex, list_staged_files, reachable_hashes,
}
use baleforgit.Gc.Named.{Names, reachable_hashes-Names}
use baleforgit.Gc.Reconcile.{
  age_exceeds, dead_hashes, forget_hashes, live_hashes, marker_mtime, orphaned_hashes, reclaim,
  reconcile, remove_markers, swept,
}
use baleforgit.Meta.Hashes.{is_in}
use baleforgit.Table.{eq_bytes_sound}

list_staged_files-mtime :
    (h : Text) (ms : List (Text × ℕ)) (t : ℕ)
    → is_64_lower_hex h ≡ true
    → marker_mtime h ms ≡ some t
    → is_in h (list_staged_files ms) ≡ true
unfolding list_staged_files marker_mtime is_in
list_staged_files-mtime h [] t x e = absurd (cc e)
list_staged_files-mtime h (m ∷ ms) t x e = elim (Bool-cases (eq_bytes h m.0)) [
  | inl same ↦
      let p : h ≡ m.0 = eq_bytes_sound h m.0 same in
      let y : is_64_lower_hex m.0 ≡ true = subst (λ k. is_64_lower_hex k ≡ true) p x in
      rw (y, list_staged_files) (rw (same, is_in) refl)
  | inr other ↦
      let rest : marker_mtime h ms ≡ some t = rw (other, marker_mtime) at e in
      let ih : is_in h (list_staged_files ms) ≡ true = list_staged_files-mtime h ms t x rest in
      if-both (λ l. is_in h l ≡ true) (is_64_lower_hex m.0) (rw (other, is_in) ih) ih
]

dead_hashes-Safe :
    (cfg : GcConfig) (markers : List (Text × ℕ)) (live want : List Text) (h : Text)
    → (not (is_in h live) && age_exceeds cfg.grace cfg.now (marker_mtime h markers)) ≡ false
    → is_in h (dead_hashes cfg markers live want) ≡ false
unfolding dead_hashes is_in
dead_hashes-Safe cfg markers live [] h s = refl
dead_hashes-Safe cfg markers live (x ∷ want) h s =
    let ih : is_in h (dead_hashes cfg markers live want) ≡ false =
      dead_hashes-Safe cfg markers live want h s in
    elim (Bool-cases
      (not (is_in x live) && age_exceeds cfg.grace cfg.now (marker_mtime x markers))) [
        | inr kept ↦ rw (kept, dead_hashes) ih
        | inl dies ↦ elim (Bool-cases (eq_bytes h x)) [
          | inl same ↦
              let p : h ≡ x = eq_bytes_sound h x same in
              let q : (not (is_in x live) && age_exceeds cfg.grace cfg.now (marker_mtime x markers))
                  ≡ false =
                subst
                  (λ k.
                    (not (is_in k live) && age_exceeds cfg.grace cfg.now (marker_mtime k markers))
                    ≡ false)
                  p s in
              let r : true ≡ false = sym dies ∙ q in absurd (cc r)
          | inr other ↦ rw (dies, dead_hashes) (rw (other, is_in) ih)
        ]
      ]

marker_mtime-remove_markers :
    (h : Text) (dead : List Text) (ms : List (Text × ℕ))
    → is_in h dead ≡ false
    → marker_mtime h (remove_markers dead ms) ≡ marker_mtime h ms
unfolding marker_mtime remove_markers
marker_mtime-remove_markers h dead [] n = refl
marker_mtime-remove_markers h dead (m ∷ ms) n = elim (Bool-cases (is_in m.0 dead)) [
  | inl gone ↦ elim (Bool-cases (eq_bytes h m.0)) [
    | inl same ↦
        let p : h ≡ m.0 = eq_bytes_sound h m.0 same in
        let q : is_in h dead ≡ true = subst (λ k. is_in k dead ≡ true) (sym p) gone in
        let r : true ≡ false = sym q ∙ n in absurd (cc r)
    | inr other ↦
        rw (gone, remove_markers)
          (marker_mtime-remove_markers h dead ms n ∙ rw (other, marker_mtime) refl)
  ]
  | inr stays ↦
      rw (stays, remove_markers)
        (ap (λ o. if eq_bytes h m.0 then some m.1 else o) (marker_mtime-remove_markers h dead ms n))
]

swept-some : (h : Text) (hs : List Text) (st : Staging) → is_in h hs ≡ true → swept hs st ≡ st
unfolding swept is_in
swept-some h [] st e = absurd (cc e)
swept-some h (x ∷ hs) st e = refl

-- The marker stays with its time, and so do all objects.
pub record Kept (h : Text) (t : ℕ) (st st' : Staging) : Type 0 where
  pub marker : marker_mtime h st'.markers ≡ some t
  pub objects : st'.objects ≡ st.objects

reclaim-Kept :
    (cfg : GcConfig) (git : Git) (want dead : List Text) (st : Staging) (h : Text) (t : ℕ)
    → is_64_lower_hex h ≡ true
    → marker_mtime h st.markers ≡ some t
    → is_in h dead ≡ false
    → Kept h t st (reclaim cfg git want dead st)
unfolding reclaim
reclaim-Kept cfg git want [] st h t x e n = record { marker = e; objects = refl }
reclaim-Kept cfg git want (d ∷ ds) st h t x e n =
    let markers : List (Text × ℕ) = remove_markers (d ∷ ds) st.markers in
    let there : marker_mtime h markers ≡ some t =
      marker_mtime-remove_markers h (d ∷ ds) st.markers n ∙ e in
    let st' : Staging = record st {
      markers = markers;
      clean_cache = forget_hashes (orphaned_hashes cfg git want (d ∷ ds)) st.clean_cache;
    } in
    let same : swept (list_staged_files markers) st' ≡ st' =
      swept-some h (list_staged_files markers) st' (list_staged_files-mtime h markers t x there) in
    record {
      marker = ap (λ s. marker_mtime h s.markers) same ∙ there;
      objects = ap (λ s. s.objects) same;
    }

-- The tips that the walk starts from, and those that it hides.
abbrev pub tips_of : GcConfig → Git → List Bytes
tips_of cfg git = if cfg.local_mode then git.local_tips ++ git.remote_tips else git.local_tips

abbrev pub hidden_of : GcConfig → Git → List Bytes
hidden_of cfg git = if cfg.local_mode then [] else git.remote_tips

live_hashes-tips :
    (cfg : GcConfig) (git : Git) (want : List Text)
    → live_hashes cfg git want ≡ reachable_hashes git want (tips_of cfg git) (hidden_of cfg git)
unfolding live_hashes
live_hashes-tips cfg git want = elim (Bool-cases cfg.local_mode) [
  | inl e ↦ rw (e, live_hashes) refl
  | inr e ↦ rw (e, live_hashes) refl
]

-- A staged file that the index or a commit of the walk names, or whose marker is not older than the
-- grace, keeps its marker, and no object is removed; this where the walk over the commits can start,
-- and a walk from no tips has no commits.
pub reconcile-Kept :
    (cfg : GcConfig) (git : Git) (st : Staging) (h : Text) (t : ℕ) (cs : List (Option (List Entry)))
    → is_64_lower_hex h ≡ true
    → marker_mtime h st.markers ≡ some t
    → git.rev_walk (tips_of cfg git) (hidden_of cfg git) ≡ some cs
    → git.rev_walk [] (hidden_of cfg git) ≡ some []
    → Names git (list_staged_files st.markers) h cs
      ⊎ (age_exceeds cfg.grace cfg.now (some t) ≡ false)
    → Kept h t st (reconcile cfg git st)
unfolding reconcile
reconcile-Kept cfg git st h t cs x e walk empty why =
    let want : List Text = list_staged_files st.markers in
    let live : List Text = live_hashes cfg git want in
    let wanted : is_in h want ≡ true = list_staged_files-mtime h st.markers t x e in
    let young_or_live : (not (is_in h live)
          && age_exceeds cfg.grace cfg.now (marker_mtime h st.markers))
        ≡ false =
      elim why [
        | inl named ↦
            let r : is_in h live ≡ true =
              ap (is_in h) (live_hashes-tips cfg git want)
              ∙ reachable_hashes-Names git want (tips_of cfg git) (hidden_of cfg git) cs h walk
                  empty named wanted in
            rw r refl
        | inr young ↦ rw (e, young) (never (not (is_in h live)))
      ] in
    if-both (Kept h t st)
      ((cfg.local_mode && cfg.local_shared) || cfg.locked || git.git_op_in_flight)
      (record { marker = e; objects = refl })
      (reclaim-Kept cfg git want (dead_hashes cfg st.markers live want) st h t x e
        (dead_hashes-Safe cfg st.markers live want h young_or_live))
  where
    never : (b : Bool) → (b && false) ≡ false
    never true = refl
    never false = refl
