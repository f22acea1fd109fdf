-- ===== src/Pkt.antt =====
-- crates/git-bale/src/pktline.rs: git's packet lines. The reader's input is the list of the bytes to
-- come, and a read past its end is the error `unexpected_eof`; the writer's output is what it appends.
pub mod Read
pub mod Write
pub mod Framing
pub mod RoundTrip
pub mod Blob
pub mod Steps
pub mod Cap
use baleforgit.Prelude.{ℕ}
use baleforgit.Core.{Bytes}

abbrev pub max_pkt_payload : ℕ
max_pkt_payload = 65516

abbrev pub pkt_header_len : ℕ
pkt_header_len = 4

pub data Packet : Type 0 where
  flush delim response_end : Packet
  packet : Bytes → Packet

pub data PktError : Type 0 where
  unexpected_eof bad_header not_utf8 unexpected_packet over_cap text_too_long : PktError
  undersized : ℕ → PktError
