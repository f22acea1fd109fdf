-- ===== src/Http/Signed.antt =====
-- What a request must carry for a range of a xorb to be served.
use baleforgit.Prelude.{
  >>=-eq-ok, Option, Result, ap, arith, ensure, ensure-ok, err, leb, leb→le, length, none, ok,
  ok-injective, some, stuck, true, ℕ, ◌&&◌, ◌+◌, ◌<◌, ◌==◌, ◌^◌, ◌∙◌, ◌≡◌, ◌≤◌,
}
use baleforgit.Authz.{ct_eq}
use baleforgit.Authz.CtEq.{ct_eq_sound}
use baleforgit.Core.{Bytes, CoreError, Hash32, Text}
use baleforgit.Http.{TransferQuery, from_core, get_xorb_transfer, malformed, range_header, status}
use baleforgit.Storage.{MemBlobStore, get_xorb_range}
use baleforgit.Wire.{HexError, decode_hash}
use mathlib.Core.Path.{ap₂}

pub record Checked (sign : Text → ℕ → ℕ → ℕ → Text) (now : ℕ) (blobs : MemBlobStore)
    (hash_hex : Text) (q : TransferQuery) (header : Option (Option (ℕ × ℕ))) (bytes : Bytes)
    : Type 0 where
  pub hash : Hash32
  pub named : decode_hash hash_hex ≡ ok hash
  pub authentic : sign hash_hex q.s q.e q.x ≡ q.sig
  pub fresh : now ≤ q.x
  pub asked : header ≡ some (some (q.s, q.e))
  pub stored : get_xorb_range hash q.s (q.e + 1) blobs ≡ ok bytes

malformed-ok : {A : Type 0} (r : Result HexError A) (a : A) → malformed r ≡ ok a → r ≡ ok a
malformed-ok (ok b) a h = ap ok (ok-injective h)
malformed-ok (err e) a h = cc
malformed-ok stuck a h = cc

pub from_core-ok : {A : Type 0} (r : Result CoreError A) (a : A) → from_core r ≡ ok a → r ≡ ok a
from_core-ok (ok b) a h = ap ok (ok-injective h)
from_core-ok (err e) a h = cc
from_core-ok stuck a h = cc

range_header-ok :
    (header : Option (Option (ℕ × ℕ))) (r : ℕ × ℕ)
    → range_header header ≡ ok r
    → header ≡ some (some r)
range_header-ok none r h = absurd (cc h)
range_header-ok (some none) r h = absurd (cc h)
range_header-ok (some (some p)) r h = ap (λ x. some (some x)) (ok-injective h)

both_same : (a b c d : ℕ) → (a == c && b == d) ≡ true → (a ≡ c) × (b ≡ d)
both_same a b c d h = ground arith

-- A range is served only where the hash is well-formed, the signature is the server's for just that
-- hash, range and time, the time has not passed and the range header asks for just that range; and it
-- is the stored xorb's range.
pub get_xorb_transfer-Checked :
    (sign : Text → ℕ → ℕ → ℕ → Text) (now : ℕ) (blobs : MemBlobStore) (hash_hex : Text)
    (q : TransferQuery) (header : Option (Option (ℕ × ℕ))) (bytes : Bytes)
    → length (sign hash_hex q.s q.e q.x) < 2 ^ 32
    → length q.sig < 2 ^ 32
    → get_xorb_transfer sign now blobs hash_hex q header ≡ ok bytes
    → Checked sign now blobs hash_hex q header bytes
unfolding get_xorb_transfer
get_xorb_transfer-Checked sign now blobs hash_hex q header bytes short short' h =
    let (hash, p₁, h₁) = >>=-eq-ok (malformed (decode_hash hash_hex)) _ h in
    let (u, p₂, h₂) =
      >>=-eq-ok (ensure (ct_eq (sign hash_hex q.s q.e q.x) q.sig) (status 401)) _ h₁ in
    let (w, p₃, h₃) = >>=-eq-ok (ensure (leb now q.x) (status 401)) _ h₂ in
    let (r, p₄, h₄) = >>=-eq-ok (range_header header) _ h₃ in
    let (z, p₅, h₅) = >>=-eq-ok (ensure (r.0 == q.s && r.1 == q.e) (status 401)) _ h₄ in
    let (same_start, same_end) = both_same r.0 r.1 q.s q.e (ensure-ok _ _ z p₅) in
    record {
      hash = hash;
      named = malformed-ok (decode_hash hash_hex) hash p₁;
      authentic = ct_eq_sound (sign hash_hex q.s q.e q.x) q.sig short short' (ensure-ok _ _ u p₂);
      fresh = leb→le now q.x (ensure-ok _ _ w p₃);
      asked =
          range_header-ok header r p₄ ∙ ap₂ (λ (x y : ℕ). some (some (x, y))) same_start same_end;
      stored = from_core-ok (get_xorb_range hash q.s (q.e + 1) blobs) bytes h₅;
    }
