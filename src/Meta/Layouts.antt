-- ===== src/Meta/Layouts.antt =====
-- What the table of frames holds after a registration of a layout.
use baleforgit.Prelude.{
  ==_ne, Bool, Bool-cases, List, [], ap, append-nil, append_assoc, arith, false, if-both, inl, inr,
  leb, le→leb, refl, sym, true, ℕ, ◌&&◌, ◌++◌, ◌+◌, ◌<◌, ◌==◌, ◌||◌, ◌∙◌, ◌∷◌, ◌≡◌, ◌≢◌, ◌≤◌,
}
use baleforgit.Core.{Hash32, XorbFrameRow, eq_bytes}
use baleforgit.Meta.{MetaStore, XorbFrame}
use baleforgit.Meta.Xorbs.{
  frame_there, frames_of, insert_frame_in_order, insert_frames, order_by_frame,
  register_xorb_layout, xorb_frame_layout,
}
use baleforgit.Table.{eq_bytes_refl}

-- The frames are numbered from `i` on.
abbrev pub Numbered : ℕ → List XorbFrameRow → Type 0
Numbered i [] = Unit
Numbered i (f ∷ fs) = (f.frame_index ≡ i) × Numbered (i + 1) fs

-- Some frame of the xorb is registered.
abbrev pub has_frames : Hash32 → List XorbFrame → Bool
has_frames hash [] = false
has_frames hash (r ∷ rows) = eq_bytes hash r.xorb_hash || has_frames hash rows

module _ (hash : Hash32) where
  no_frames : (rows : List XorbFrame) → has_frames hash rows ≡ false → frames_of hash rows ≡ []
  unfolding frames_of
  no_frames [] h = refl
  no_frames (r ∷ rows) h = elim (Bool-cases (eq_bytes hash r.xorb_hash)) [
    | inl e ↦ let p : true ≡ false = rw e at h in absurd (cc p)
    | inr e ↦
        let p : has_frames hash rows ≡ false = rw e at h in rw (e, frames_of) (no_frames rows p)
  ]

  some_frames : (rows : List XorbFrame) → has_frames hash rows ≡ true → frames_of hash rows ≢ []
  unfolding frames_of
  some_frames [] h = λ p. cc h
  some_frames (r ∷ rows) h = elim (Bool-cases (eq_bytes hash r.xorb_hash)) [
    | inl e ↦ rw (e, frames_of) (λ p. cc p)
    | inr e ↦
        let p : has_frames hash rows ≡ true = rw e at h in rw (e, frames_of) (some_frames rows p)
  ]

  frame_unused :
      (i : ℕ) (rows : List XorbFrame)
      → has_frames hash rows ≡ false
      → frame_there hash i rows ≡ false
  unfolding frame_there
  frame_unused i [] h = refl
  frame_unused i (r ∷ rows) h = elim (Bool-cases (eq_bytes hash r.xorb_hash)) [
    | inl e ↦ let p : true ≡ false = rw e at h in absurd (cc p)
    | inr e ↦
        let p : has_frames hash rows ≡ false = rw e at h in
        rw (e, frame_there) (frame_unused i rows p)
  ]

  has_frames-append :
      (rows more : List XorbFrame)
      → has_frames hash (rows ++ more) ≡ (has_frames hash rows || has_frames hash more)
  has_frames-append [] more = refl
  has_frames-append (r ∷ rows) more =
      rw (has_frames-append rows more)
        (assoc (eq_bytes hash r.xorb_hash) (has_frames hash rows) (has_frames hash more))
    where
      assoc : (a b c : Bool) → (a || (b || c)) ≡ ((a || b) || c)
      assoc true b c = refl
      assoc false true c = refl
      assoc false false c = refl

  -- Registered frames stay.
  has_frames-insert_frames :
      (key : Hash32) (fs : List XorbFrameRow) (rows : List XorbFrame)
      → has_frames hash rows ≡ true
      → has_frames hash (insert_frames key fs rows) ≡ true
  unfolding insert_frames
  has_frames-insert_frames key [] rows h = h
  has_frames-insert_frames key (f ∷ fs) rows h =
      let row : XorbFrame = record { xorb_hash = key; frame = f } in
      let more : has_frames hash (rows ++ row ∷ []) ≡ true =
        has_frames-append rows (row ∷ []) ∙ ap (λ b. b || has_frames hash (row ∷ [])) h in
      if-both (λ rs. has_frames hash rs ≡ true) (frame_there key f.frame_index rows)
        (has_frames-insert_frames key fs rows h)
        (has_frames-insert_frames key fs (rows ++ row ∷ []) more)

  there-has_frames :
      (i : ℕ) (rows : List XorbFrame) → frame_there hash i rows ≡ true → has_frames hash rows ≡ true
  unfolding frame_there
  there-has_frames i [] h = h
  there-has_frames i (r ∷ rows) h = elim (Bool-cases (eq_bytes hash r.xorb_hash)) [
    | inl e ↦ rw e refl
    | inr e ↦ let p : frame_there hash i rows ≡ true = rw e at h in rw e (there-has_frames i rows p)
  ]

  insert_frames-has_frames :
      (f : XorbFrameRow) (fs : List XorbFrameRow) (rows : List XorbFrame)
      → has_frames hash (insert_frames hash (f ∷ fs) rows) ≡ true
  unfolding insert_frames
  insert_frames-has_frames f fs rows = elim (Bool-cases (frame_there hash f.frame_index rows)) [
    | inl e ↦
        rw (e, insert_frames)
          (has_frames-insert_frames hash fs rows (there-has_frames f.frame_index rows e))
    | inr e ↦
        let row : XorbFrame = record { xorb_hash = hash; frame = f } in
        let last : has_frames hash (row ∷ []) ≡ true = rw (eq_bytes_refl hash) refl in
        let there : has_frames hash (rows ++ row ∷ []) ≡ true =
          has_frames-append rows (row ∷ []) ∙ rw last (either (has_frames hash rows)) in
        rw (e, insert_frames) (has_frames-insert_frames hash fs (rows ++ row ∷ []) there)
  ]
    where
      either : (b : Bool) → (b || true) ≡ true
      either true = refl
      either false = refl

  frame_after :
      (j : ℕ) (f : XorbFrameRow) (rows : List XorbFrame)
      → f.frame_index < j
      → frame_there hash j rows ≡ false
      → frame_there hash j (rows ++ record { xorb_hash = hash; frame = f } ∷ []) ≡ false
  unfolding frame_there
  frame_after j f [] lt h =
      let ne : (j == f.frame_index) ≡ false = ==_ne (omega arith) in
      rw (eq_bytes_refl hash, ne) refl
  frame_after j f (r ∷ rows) lt h =
      let (p, q) =
        or_false (eq_bytes hash r.xorb_hash && j == r.frame.frame_index) (frame_there hash j rows)
          h in
      rw (p, frame_after j f rows lt q) refl
    where
      or_false : (a b : Bool) → (a || b) ≡ false → (a ≡ false) × (b ≡ false)
      or_false false false e = (refl, refl)
      or_false false true e = absurd (cc e)
      or_false true b e = absurd (cc e)

  frames_of-append :
      (rows more : List XorbFrame)
      → frames_of hash (rows ++ more) ≡ frames_of hash rows ++ frames_of hash more
  unfolding frames_of
  frames_of-append [] more = refl
  frames_of-append (r ∷ rows) more = elim (Bool-cases (eq_bytes hash r.xorb_hash)) [
    | inl e ↦ rw (e, frames_of) (ap (λ l. r.frame ∷ l) (frames_of-append rows more))
    | inr e ↦ rw (e, frames_of) (frames_of-append rows more)
  ]

  frames_of-insert_frames :
      (i : ℕ) (fs : List XorbFrameRow) (rows : List XorbFrame)
      → Numbered i fs
      → ((j : ℕ) → i ≤ j → frame_there hash j rows ≡ false)
      → frames_of hash (insert_frames hash fs rows) ≡ frames_of hash rows ++ fs
  unfolding frames_of insert_frames
  frames_of-insert_frames i [] rows n h = sym (append-nil (frames_of hash rows))
  frames_of-insert_frames i (f ∷ fs) rows n h =
      let row : XorbFrame = record { xorb_hash = hash; frame = f } in
      let shown : frames_of hash (row ∷ []) ≡ f ∷ [] = rw (eq_bytes_refl hash, frames_of) refl in
      let free : frame_there hash f.frame_index rows ≡ false =
        h f.frame_index (omega (arith, n.0)) in
      rw (free, insert_frames)
        (frames_of-insert_frames (i + 1) fs (rows ++ row ∷ []) n.1
            (λ j le. frame_after j f rows (omega (arith, n.0)) (h j (omega arith)))
          ∙ ap (λ l. l ++ fs) (frames_of-append rows (row ∷ []) ∙ rw shown refl)
          ∙ append_assoc (frames_of hash rows) (f ∷ []) fs)

order_by_frame-Numbered : (i : ℕ) (fs : List XorbFrameRow) → Numbered i fs → order_by_frame fs ≡ fs
unfolding order_by_frame insert_frame_in_order
order_by_frame-Numbered i [] h = refl
order_by_frame-Numbered i (f ∷ []) h = refl
order_by_frame-Numbered i (f ∷ g ∷ fs) h =
    rw (order_by_frame-Numbered (i + 1) (g ∷ fs) h.1)
      (rw (le→leb f.frame_index g.frame_index (omega (arith, h.0, h.1.0))) refl)

-- A layout that is numbered from 0 is read back as it was registered, if no frame of the xorb was
-- registered before.
pub xorb_frame_layout-register_xorb_layout :
    (hash : Hash32) (fs : List XorbFrameRow) (db : MetaStore)
    → Numbered 0 fs
    → has_frames hash db.xorb_frames ≡ false
    → xorb_frame_layout hash (register_xorb_layout hash fs db) ≡ fs
unfolding xorb_frame_layout register_xorb_layout order_by_frame
xorb_frame_layout-register_xorb_layout hash [] db n h = rw (no_frames hash db.xorb_frames h) refl
xorb_frame_layout-register_xorb_layout hash (f ∷ fs) db n h =
    let rows : frames_of hash (insert_frames hash (f ∷ fs) db.xorb_frames) ≡ f ∷ fs =
      frames_of-insert_frames hash 0 (f ∷ fs) db.xorb_frames n
        (λ j le. frame_unused hash j db.xorb_frames h)
      ∙ ap (λ l. l ++ f ∷ fs) (no_frames hash db.xorb_frames h) in
    ap order_by_frame rows ∙ order_by_frame-Numbered 0 (f ∷ fs) n

ordered_some : (f : XorbFrameRow) (fs : List XorbFrameRow) → insert_frame_in_order f fs ≢ []
unfolding insert_frame_in_order
ordered_some f [] = λ p. cc p
ordered_some f (g ∷ fs) =
    if-both (λ (l : List XorbFrameRow). l ≢ []) (leb f.frame_index g.frame_index) (λ p. cc p)
      (λ p. cc p)

pub has_frames-xorb_frame_layout :
    (hash : Hash32) (db : MetaStore)
    → has_frames hash db.xorb_frames ≡ true
    → xorb_frame_layout hash db ≢ []
unfolding xorb_frame_layout order_by_frame
has_frames-xorb_frame_layout hash db h =
    sorted (frames_of hash db.xorb_frames) (some_frames hash db.xorb_frames h)
  where
    sorted : (fs : List XorbFrameRow) → fs ≢ [] → order_by_frame fs ≢ []
    sorted [] n = absurd (n refl)
    sorted (f ∷ fs) n = ordered_some f (order_by_frame fs)

pub register_xorb_layout-has_frames :
    (hash key : Hash32) (fs : List XorbFrameRow) (db : MetaStore)
    → has_frames hash db.xorb_frames ≡ true
    → has_frames hash (register_xorb_layout key fs db).xorb_frames ≡ true
unfolding register_xorb_layout
register_xorb_layout-has_frames hash key [] db h = h
register_xorb_layout-has_frames hash key (f ∷ fs) db h =
    has_frames-insert_frames hash key (f ∷ fs) db.xorb_frames h

pub has_frames-register_xorb_layout :
    (hash : Hash32) (f : XorbFrameRow) (fs : List XorbFrameRow) (db : MetaStore)
    → has_frames hash (register_xorb_layout hash (f ∷ fs) db).xorb_frames ≡ true
unfolding register_xorb_layout
has_frames-register_xorb_layout hash f fs db = insert_frames-has_frames hash f fs db.xorb_frames
