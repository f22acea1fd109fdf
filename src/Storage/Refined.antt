-- ===== src/Storage/Refined.antt =====
-- `MemBlobStore` against what a blob store promises: of each xorb the first body that was put, of each
-- shard the last.
use baleforgit.Prelude.{
  Bool-cases, List, Option, Option-cases, [], ap, false, if◌then◌else◌, inl, inr, none, refl, some,
  subst, sym, true, ◌∙◌, ◌∷◌, ◌≡◌,
}
use baleforgit.Core.{Bytes, Hash32, eq_bytes}
use baleforgit.Storage.{
  MemBlobStore, found, get_shard, get_xorb_range, is_some, new, put_shard, put_xorb, reserve_below,
  xorb_exists,
}
use baleforgit.Storage.Abstract.{
  Answer, Event, Op, accepted, add_shard, add_xorb, answer, answers, ask_xorb, bytes_read,
  first_xorb, inserted, last_shard, or_else, promise, promised_shard, promises, read_range,
  read_shard, shard_event, there, was_put, xorb_event,
}
use baleforgit.Storage.Ranges.{get_range-promised_range}
use baleforgit.Table.{eq_bytes_sound, get, get-insert, get-insert_other, insert}

-- The store without a limit has what was put.
record Agrees (s : MemBlobStore) (es : List Event) : Type 0 where
  xorbs : (h : Hash32) → get h s.xorbs ≡ first_xorb h es
  shards : (h : Hash32) → get h s.shards ≡ last_shard h es
  no_limit : s.max_bytes ≡ none

same_or_else : (o : Option Bytes) (old : Bytes) (x : Option Bytes) → o ≡ some old → or_else o x ≡ o
same_or_else none old x h = absurd (cc h)
same_or_else (some a) old x h = refl

or_else-none : (o : Option Bytes) → or_else o none ≡ o
or_else-none none = refl
or_else-none (some a) = refl

first_xorb-known :
    (h body k old : Bytes) (es : List Event)
    → first_xorb h es ≡ some old
    → first_xorb k (xorb_event h body ∷ es) ≡ first_xorb k es
unfolding first_xorb
first_xorb-known h body k old es f = elim (Bool-cases (eq_bytes k h)) [
  | inl e ↦
      let here : first_xorb k es ≡ some old =
        ap (λ x. first_xorb x es) (eq_bytes_sound k h e) ∙ f in
      same_or_else (first_xorb k es) old (if eq_bytes k h then some body else none) here
  | inr e ↦ rw e (or_else-none (first_xorb k es))
]

get-first_xorb :
    (h body k : Bytes) (xs : List (Hash32 × Bytes)) (es : List Event)
    → ((x : Hash32) → get x xs ≡ first_xorb x es)
    → first_xorb h es ≡ none
    → get k (insert h body xs) ≡ first_xorb k (xorb_event h body ∷ es)
unfolding first_xorb
get-first_xorb h body k xs es v f = elim (Bool-cases (eq_bytes k h)) [
  | inl e ↦
      let same : k ≡ h = eq_bytes_sound k h e in
      let here : first_xorb k es ≡ none = ap (λ x. first_xorb x es) same ∙ f in
      rw (e, here) (ap (λ x. get x (insert h body xs)) same ∙ get-insert h body xs)
  | inr e ↦ rw e (get-insert_other k h body xs e ∙ v k ∙ sym (or_else-none (first_xorb k es)))
]

get-last_shard :
    (h body k : Bytes) (xs : List (Hash32 × Bytes)) (es : List Event)
    → ((x : Hash32) → get x xs ≡ last_shard x es)
    → get k (insert h body xs) ≡ last_shard k (shard_event h body ∷ es)
unfolding last_shard
get-last_shard h body k xs es v = elim (Bool-cases (eq_bytes k h)) [
  | inl e ↦ rw e (ap (λ x. get x (insert h body xs)) (eq_bytes_sound k h e) ∙ get-insert h body xs)
  | inr e ↦ rw e (get-insert_other k h body xs e ∙ v k)
]

-- One step keeps the agreement and has the promised answer.
record Stepped (op : Op) (s : MemBlobStore) (es : List Event) : Type 0 where
  agrees : Agrees (answer op s).0 (promise op es).0
  same : (answer op s).1 ≡ (promise op es).1

stepped :
    (op : Op) (s s' : MemBlobStore) (a : Answer) (es : List Event)
    → answer op s ≡ (s', a)
    → Agrees s' (promise op es).0
    → a ≡ (promise op es).1
    → Stepped op s es
stepped op s s' a es e v p = record {
  agrees = subst (λ t. Agrees t (promise op es).0) (sym (ap (λ r. r.0) e)) v;
  same = ap (λ r. r.1) e ∙ p;
}

add_xorb-Stepped :
    (h body : Bytes) (s : MemBlobStore) (es : List Event)
    → Agrees s es
    → Stepped (add_xorb h body) s es
unfolding answer put_xorb promise first_xorb reserve_below
add_xorb-Stepped h body s es v = elim (Option-cases (get h s.xorbs)) [
  | inr (old, e) ↦
      let f : first_xorb h es ≡ some old = sym (v.xorbs h) ∙ e in
      stepped (add_xorb h body) s s (inserted false) es (rw e refl)
        (record {
          xorbs = λ k. v.xorbs k ∙ sym (first_xorb-known h body k old es f);
          shards = v.shards;
          no_limit = v.no_limit;
        })
        (rw f refl)
  | inl e ↦
      let f : first_xorb h es ≡ none = sym (v.xorbs h) ∙ e in
      stepped (add_xorb h body) s (record s { xorbs = insert h body s.xorbs }) (inserted true) es
        (rw (e, v.no_limit) refl)
        (record {
          xorbs = λ k. get-first_xorb h body k s.xorbs es v.xorbs f;
          shards = v.shards;
          no_limit = v.no_limit;
        })
        (rw f refl)
]

add_shard-Stepped :
    (h body : Bytes) (s : MemBlobStore) (es : List Event)
    → Agrees s es
    → Stepped (add_shard h body) s es
unfolding answer put_shard promise last_shard first_xorb reserve_below
add_shard-Stepped h body s es v =
    stepped (add_shard h body) s (record s { shards = insert h body s.shards }) accepted es put
      (record {
        xorbs = v.xorbs;
        shards = λ k. get-last_shard h body k s.shards es v.shards;
        no_limit = v.no_limit;
      })
      refl
  where
    put : answer (add_shard h body) s ≡ (record s { shards = insert h body s.shards }, accepted)
    put = elim (Option-cases (get h s.shards)) [
      | inr (old, e) ↦ rw e refl
      | inl e ↦ rw (e, v.no_limit) refl
    ]

is_some-was_put : (o : Option Bytes) → is_some o ≡ was_put o
is_some-was_put none = refl
is_some-was_put (some body) = refl

found-promised_shard : (o : Option Bytes) → found o ≡ promised_shard o
found-promised_shard none = refl
found-promised_shard (some body) = refl

answer-Stepped : (op : Op) (s : MemBlobStore) (es : List Event) → Agrees s es → Stepped op s es
unfolding answer promise get_xorb_range get_shard xorb_exists
answer-Stepped (add_xorb h body) s es v = add_xorb-Stepped h body s es v
answer-Stepped (add_shard h body) s es v = add_shard-Stepped h body s es v
answer-Stepped (read_range h start end) s es v = record {
  agrees = v;
  same = rw (v.xorbs h) (ap bytes_read (get_range-promised_range start end (first_xorb h es)));
}
answer-Stepped (read_shard h) s es v = record {
  agrees = v;
  same = rw (v.shards h) (ap bytes_read (found-promised_shard (last_shard h es)));
}
answer-Stepped (ask_xorb h) s es v = record {
  agrees = v;
  same = rw (v.xorbs h) (ap there (is_some-was_put (first_xorb h es)));
}

answers-promises :
    (ops : List Op) (s : MemBlobStore) (es : List Event)
    → Agrees s es
    → answers ops s ≡ promises ops es
unfolding answers promises
answers-promises [] s es v = refl
answers-promises (op ∷ ops) s es v =
    let r : Stepped op s es = answer-Stepped op s es v in
    rw r.same (
      ap (λ rest. (promise op es).1 ∷ rest)
        (answers-promises ops (answer op s).0 (promise op es).0 r.agrees))

-- Whatever sequence of puts and reads a new store is asked, the answers are those of the abstract
-- store, which remembers only what was put: a xorb put is new when no xorb was put under its hash
-- before, a range read is the bytes of the first body put under its hash whose indices are in the range,
-- and a shard read is the last body put under it. A hash that was never put is not found, and an
-- inverted range, or one that starts behind the body, is a bad request.
pub answers-new : (ops : List Op) → answers ops new ≡ promises ops []
unfolding get first_xorb last_shard
answers-new ops =
    answers-promises ops new [] (record { xorbs = λ h. refl; shards = λ h. refl; no_limit = refl })
