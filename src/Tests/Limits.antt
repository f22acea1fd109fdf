-- ===== src/Tests/Limits.antt =====
-- The quota endpoint of crates/bale-server-http/src/lib.rs with a short admin token.
use baleforgit.Prelude.{
  Bool-cases, Option, [], ap, arith, if◌then◌else◌, inl, inr, length, none, ok, refl, some, ◌++◌,
  ◌<◌, ◌^◌, ◌∷◌, ◌≡◌,
}
use baleforgit.Core.{Bytes, Text, eq_bytes}
use baleforgit.Http.Auth.{bearer}
use baleforgit.Http.Limits.{QuotaSet, put_owner_quota-QuotaSet}
use baleforgit.Http.Uploads.{Service}
use baleforgit.Http.Usage.{put_owner_quota}
use baleforgit.Meta.Usage.{set_owner_quota}

-- the hex form of one byte
abbrev one_byte : Text → Option Bytes
unfolding eq_bytes
one_byte t = if eq_bytes t (b'0' ∷ b'7' ∷ []) then some (7 ∷ []) else none

one_byte_short : (t : Text) (b : Bytes) → one_byte t ≡ some b → length b < 2 ^ 32
unfolding one_byte
one_byte_short t b h = elim (Bool-cases (eq_bytes t (b'0' ∷ b'7' ∷ []))) [
  | inl e ↦
      let p : some (7 ∷ []) ≡ some b = rw e at h in
      let q : 7 ∷ [] ≡ b = cc p in let n : 1 ≡ length b = ap length q in omega arith
  | inr e ↦ let p : none ≡ some b = rw e at h in absurd (cc p)
]

abbrev admin_header : Option Text
admin_header = some (bearer ++ b' ' ∷ b'0' ∷ b'7' ∷ [])

abbrev owner_a : Text
owner_a = b'a' ∷ []

abbrev empty : Service
empty = record {
  meta = record {
    xorbs = [];
    chunks = [];
    xorb_frames = [];
    files = [];
    file_terms = [];
    owner_quotas = [];
  };
  blobs = record { xorbs = []; shards = []; stored_bytes = 0; max_bytes = none };
  default_quota_bytes = none;
}

abbrev limited_service : Service
unfolding set_owner_quota
limited_service = record empty { meta = set_owner_quota owner_a (some 9) empty.meta }

quota_put :
    put_owner_quota one_byte (some (7 ∷ [])) admin_header owner_a (some 9) empty
    ≡ ok limited_service
unfolding put_owner_quota limited_service one_byte
quota_put = refl

put_owner_quota-QuotaSet_example :
    QuotaSet one_byte (some (7 ∷ [])) admin_header owner_a 9 empty limited_service
put_owner_quota-QuotaSet_example =
    put_owner_quota-QuotaSet one_byte (some (7 ∷ [])) admin_header owner_a 9 empty limited_service
      one_byte_short short (omega arith) quota_put
  where
    short : (b : Bytes) → some (7 ∷ []) ≡ some b → length b < 2 ^ 32
    short b h = let q : 7 ∷ [] ≡ b = cc h in let n : 1 ≡ length b = ap length q in omega arith
