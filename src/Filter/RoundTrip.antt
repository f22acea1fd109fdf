-- ===== src/Filter/RoundTrip.antt =====
-- A file from its clean to the smudge of its pointer.
use baleforgit.Prelude.{
  ==_refl, Bool-cases, [], ap, append-nil, arith, drop-nil, false, inl, inr, length, le→leb, none,
  ok, refl, some, subst, sym, true, ℕ, ◌++◌, ◌∙◌, ◌∷◌, ◌≡◌, ◌≤◌,
}
use baleforgit.Core.{Bytes, Text}
use baleforgit.Filter.{RawConfig, Repo, Turn, Xet, XetFileInfo}
use baleforgit.Filter.Clean.{
  cache_hit, clean_payload_cap, do_clean, handle_clean, or_empty, success_reply,
}
use baleforgit.Filter.CleanCache.{compute_chunks_from_slice}
use baleforgit.Filter.Drained.{drain_clean_payload-write_all_then_flush}
use baleforgit.Filter.Pointer.{
  contains, encode_pointer_string, parse_pointer, pointer_max_bytes, pointer_sentinel, trim,
}
use baleforgit.Filter.Smudge.{
  finish_smudge, handle_smudge, is_safe_file_id, populate_clean_cache, smudge_bytes, smudge_info,
  smudge_payload_cap,
}
use baleforgit.Pkt.Blob.{read_binary_to-write_all_then_flush}
use baleforgit.Pkt.Write.{write_all_then_flush}
use baleforgit.Prelude.Utf8.{is_utf8}
use baleforgit.Table.{get, get-insert, insert}

module _ {Objects : Type 0} (xet : Xet Objects) where
  -- What the session over the local store, and the printer and parser of JSON do with a file: the
  -- session has its hash in lower-case hexadecimal and its size, and gives the file back; the pointer
  -- is short, and what was printed is parsed.
  pub record Cleaned (content : Bytes) (before : Objects) (info : XetFileInfo) (objects : Objects)
      : Type 0 where
    pub stored : xet.clean_bytes content before ≡ some (info, objects)
    pub size : info.file_size ≡ some (length content)
    pub hex : is_safe_file_id info.hash ≡ true
    pub kept : xet.download_local info (length content) objects ≡ some content
    pub short : length (encode_pointer_string xet info) ≤ pointer_max_bytes
    pub text : is_utf8 (encode_pointer_string xet info) ≡ true
    pub key : contains pointer_sentinel (encode_pointer_string xet info) ≡ true
    pub json : xet.from_json (trim (encode_pointer_string xet info)) ≡ some info

  parse_pointer-encode_pointer_string :
      (content : Bytes) (before : Objects) (info : XetFileInfo) (objects : Objects)
      → Cleaned content before info objects
      → parse_pointer xet.from_json (encode_pointer_string xet info) ≡ ok info
  unfolding parse_pointer
  parse_pointer-encode_pointer_string content before info objects v =
      rw
        (
          le→leb (length (encode_pointer_string xet info)) pointer_max_bytes v.short,
          v.text,
          v.key,
          v.json,
        )
        refl

  -- An answer with the content, to a request whose payload was read to its end.
  pub record Answered (content rest : Bytes) (turn : Turn Objects) : Type 0 where
    pub reply : success_reply content ≡ ok turn.out
    pub behind : turn.rest ≡ rest
    pub fine : turn.failed ≡ false

  -- The list of the one status line, as it is sent.
  abbrev status_list : Bytes
  status_list =
      b'0' ∷ b'0' ∷ b'1' ∷ b'3' ∷ b's' ∷ b't' ∷ b'a' ∷ b't' ∷ b'u' ∷ b's' ∷ b'=' ∷ b's' ∷ b'u'
      ∷ b'c' ∷ b'c' ∷ b'e' ∷ b's' ∷ b's' ∷ 10 ∷ b'0' ∷ b'0' ∷ b'0' ∷ b'0' ∷ []

  success_reply-ok : (content : Bytes) → (out : Bytes) × (success_reply content ≡ ok out)
  unfolding success_reply
  success_reply-ok content =
      let (body, p, sent) =
        read_binary_to-write_all_then_flush (length content) content [] [] (omega arith) in
      (status_list ++ (body ++ status_list), rw p refl)

  -- The repository after the clean of a file.
  abbrev pub cleaned_repo : Text → Bytes → XetFileInfo → Objects → Repo Objects → Repo Objects
  unfolding insert encode_pointer_string compute_chunks_from_slice
  cleaned_repo pathname content info objects repo = record repo {
    store = some objects;
    markers = insert info.hash (length content) repo.markers;
    clean_cache =
        insert (xet.path_key pathname)
          (record {
            size = length content;
            chunks = compute_chunks_from_slice xet content;
            pointer = encode_pointer_string xet info;
          })
          repo.clean_cache;
  }

  module _ (cfg : RawConfig) (repo : Repo Objects) (pathname : Text) (content : Bytes)
      (info : XetFileInfo) (objects : Objects)
      (v : Cleaned content (or_empty xet repo.store) info objects) where
    do_clean-Answered :
        (rest : Bytes)
        → length content ≤ clean_payload_cap
        → cache_hit xet (get (xet.path_key pathname) repo.clean_cache) content (length content)
          ≡ false
        → (packets : Bytes) × (turn : Turn Objects) × (write_all_then_flush content ≡ ok packets)
          × (do_clean xet cfg repo pathname (packets ++ rest) ≡ ok turn)
          × Answered (encode_pointer_string xet info) rest turn
          × (turn.repo ≡ cleaned_repo pathname content info objects repo)
    unfolding do_clean handle_clean
    do_clean-Answered rest small miss_here =
        let (packets, p, e, same, drained) =
          drain_clean_payload-write_all_then_flush cfg.max_inline content rest small in
        let (out, reply) = success_reply-ok (encode_pointer_string xet info) in
        (
          packets,
          record {
            repo = cleaned_repo pathname content info objects repo;
            rest = rest;
            out = out;
            failed = false;
          },
          e,
          rw (drained, same, miss_here, v.stored, reply) refl,
          record { reply = reply; behind = refl; fine = refl },
          refl,
        )

    smudge_bytes-cleaned :
        get info.hash repo.manifests ≡ none
        → smudge_bytes xet cfg
            (cleaned_repo pathname content info objects repo)
            info
            (length content)
          ≡ (cleaned_repo pathname content info objects repo, some content)
    unfolding smudge_bytes cleaned_repo
    smudge_bytes-cleaned cold = elim (Bool-cases cfg.local_mode) [
      | inl e ↦ rw (cold, e, v.kept, ==_refl (length content), smudge_bytes) refl
      | inr e ↦
          rw
            (
              cold,
              e,
              get-insert info.hash (length content) repo.markers,
              v.kept,
              drop-nil {A = ℕ} (length content),
              smudge_bytes,
            )
            (rw (append-nil content) refl)
    ]

    handle_smudge-Answered :
        (rest : Bytes)
        → get info.hash repo.manifests ≡ none
        → (packets : Bytes) × (turn : Turn Objects) × (write_all_then_flush
              (encode_pointer_string xet info)
            ≡ ok packets)
          × (handle_smudge xet cfg
                (cleaned_repo pathname content info objects repo)
                pathname
                (packets ++ rest)
              ≡ ok turn)
          × Answered content rest turn
    unfolding handle_smudge smudge_info finish_smudge
    handle_smudge-Answered rest cold =
        let pointer : Bytes = encode_pointer_string xet info in
        let after : Repo Objects = cleaned_repo pathname content info objects repo in
        let (packets, e, sent) =
          read_binary_to-write_all_then_flush smudge_payload_cap pointer [] rest
            (omega (arith, v.short)) in
        let (out, reply) = success_reply-ok content in
        (
          packets,
          record {
            repo = populate_clean_cache xet pathname content pointer (length content) after;
            rest = rest;
            out = out;
            failed = false;
          },
          e,
          rw
              (
                sent,
                parse_pointer-encode_pointer_string content (or_empty xet repo.store) info objects
                    v,
              )
              (ap (λ o. smudge_info xet cfg after pathname pointer rest info o) v.size
                ∙ rw v.hex (
                    ap (finish_smudge xet pathname pointer (length content) rest)
                      (smudge_bytes-cleaned cold)
                    ∙ rw reply refl)),
          record { reply = reply; behind = refl; fine = refl },
        )

  -- The clean of a content, the smudge of its pointer, and what the filter was sent for them.
  pub record Restored (cfg : RawConfig) (repo : Repo Objects) (pathname : Text) (content : Bytes)
      (pointer : Text) (rest rest' : Bytes) : Type 0 where
    pub content_packets : Bytes
    pub pointer_packets : Bytes
    pub cleaned : Turn Objects
    pub smudged : Turn Objects
    pub content_sent : write_all_then_flush content ≡ ok content_packets
    pub pointer_sent : write_all_then_flush pointer ≡ ok pointer_packets
    pub clean : do_clean xet cfg repo pathname (content_packets ++ rest) ≡ ok cleaned
    pub smudge : handle_smudge xet cfg cleaned.repo pathname (pointer_packets ++ rest') ≡ ok smudged
    pub clean_answer : Answered pointer rest cleaned
    pub smudge_answer : Answered content rest' smudged

-- A content within the cap that the clean cache does not hold for its path, and of whose hash no
-- manifest is cached, is cleaned to its pointer, and the smudge of that pointer in the repository as
-- the clean left it, in local mode and in server mode, answers with just the content. Of the session
-- over the local store and of the JSON library that takes what `Cleaned` says.
pub handle_smudge-do_clean :
    {Objects : Type 0} (xet : Xet Objects) (cfg : RawConfig) (repo : Repo Objects) (pathname : Text)
    (content rest rest' : Bytes) (info : XetFileInfo) (objects : Objects)
    → Cleaned xet content (or_empty xet repo.store) info objects
    → length content ≤ clean_payload_cap
    → cache_hit xet (get (xet.path_key pathname) repo.clean_cache) content (length content) ≡ false
    → get info.hash repo.manifests ≡ none
    → Restored xet cfg repo pathname content (encode_pointer_string xet info) rest rest'
handle_smudge-do_clean xet cfg repo pathname content rest rest' info objects v small no_hit cold =
    let (packets, turn, e, run, answer, after) =
      do_clean-Answered xet cfg repo pathname content info objects v rest small no_hit in
    let (packets', turn', e', run', answer') =
      handle_smudge-Answered xet cfg repo pathname content info objects v rest' cold in
    record {
      content_packets = packets;
      pointer_packets = packets';
      cleaned = turn;
      smudged = turn';
      content_sent = e;
      pointer_sent = e';
      clean = run;
      smudge =
          subst (λ (r : Repo _). handle_smudge xet cfg r pathname (packets' ++ rest') ≡ ok turn')
            (sym after) run';
      clean_answer = answer;
      smudge_answer = answer';
    }
