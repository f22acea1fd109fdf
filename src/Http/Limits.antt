-- ===== src/Http/Limits.antt =====
-- Who sets a quota, and what it is then.
use baleforgit.Prelude.{
  >>=-eq-ok, Bool-cases, Option, ap, ensure, ensure-ok, if◌then◌else◌, inl, inr, length, lt→ltb,
  none, ok, ok-injective, refl, some, sym, ℕ, ◌++◌, ◌<◌, ◌^◌, ◌∙◌, ◌≡◌,
}
use baleforgit.Authz.{ct_eq}
use baleforgit.Authz.CtEq.{ct_eq_sound}
use baleforgit.Core.{Bytes, Text, eq_bytes}
use baleforgit.Filter.Pointer.{trim}
use baleforgit.Http.{status}
use baleforgit.Http.Auth.{bearer, drop_prefix-some}
use baleforgit.Http.Uploads.{Service, effective_quota}
use baleforgit.Http.Usage.{put_owner_quota, some_or, strip_bearer}
use baleforgit.Meta.{nonneg_i64_to_u64}
use baleforgit.Meta.Usage.{get_owner_quota, set_owner_quota}
use baleforgit.Table.{eq_bytes_sound, get, get-insert, get-insert_other, insert}

pub record QuotaSet (hex_decode : Text → Option Bytes) (admin_token : Option Bytes)
    (header : Option Text) (name : Text) (n : ℕ) (svc svc' : Service) : Type 0 where
  pub admin : Bytes
  pub token : Text
  pub configured : admin_token ≡ some admin
  pub sent : header ≡ some (bearer ++ token)
  pub authentic : hex_decode (trim token) ≡ some admin
  pub limited :
      (other : Text)
      → effective_quota other svc'
        ≡ (if eq_bytes other name then ok (some n) else effective_quota other svc)
  pub same_blobs : svc'.blobs ≡ svc.blobs

some_or-ok : {A : Type 0} (code : ℕ) (o : Option A) (a : A) → some_or code o ≡ ok a → o ≡ some a
some_or-ok code none a h = absurd (cc h)
some_or-ok code (some b) a h = ap some (ok-injective h)

strip_bearer-some :
    (header : Option Text) (token : Text)
    → strip_bearer header ≡ some token
    → header ≡ some (bearer ++ token)
unfolding strip_bearer
strip_bearer-some none token h = absurd (cc h)
strip_bearer-some (some raw) token h = ap some (drop_prefix-some bearer raw token h)

effective_quota-set_owner_quota :
    (other name : Text) (n : ℕ) (svc : Service)
    → n < 2 ^ 63
    → effective_quota other (record svc { meta = set_owner_quota name (some n) svc.meta })
      ≡ (if eq_bytes other name then ok (some n) else effective_quota other svc)
unfolding effective_quota get_owner_quota set_owner_quota nonneg_i64_to_u64
effective_quota-set_owner_quota other name n svc small = elim (Bool-cases (eq_bytes other name)) [
  | inl e ↦
      let found : get other (insert name n svc.meta.owner_quotas) ≡ some n =
        ap (λ x. get x (insert name n svc.meta.owner_quotas)) (eq_bytes_sound other name e)
        ∙ get-insert name n svc.meta.owner_quotas in
      rw (found, e) (rw (lt→ltb n (2 ^ 63) small, nonneg_i64_to_u64) refl)
  | inr e ↦ rw (get-insert_other other name n svc.meta.owner_quotas e, e) refl
]

-- With an admin token and presented tokens shorter than 4 GiB: a limit below 2^63 is set as an owner's
-- quota only where an admin token is configured and the request's header is "Bearer " and that token in
-- hex. Then the quota in effect for the owner is the limit, for every other owner it is as before, and
-- the stored blobs are too.
pub put_owner_quota-QuotaSet :
    (hex_decode : Text → Option Bytes) (admin_token : Option Bytes) (header : Option Text)
    (name : Text) (n : ℕ) (svc svc' : Service)
    → ((t : Text) (b : Bytes) → hex_decode t ≡ some b → length b < 2 ^ 32)
    → ((b : Bytes) → admin_token ≡ some b → length b < 2 ^ 32)
    → n < 2 ^ 63
    → put_owner_quota hex_decode admin_token header name (some n) svc ≡ ok svc'
    → QuotaSet hex_decode admin_token header name n svc svc'
unfolding put_owner_quota
put_owner_quota-QuotaSet hex_decode admin_token header name n svc svc' short short' small h =
    let (admin, p₁, h₁) = >>=-eq-ok (some_or 404 admin_token) _ h in
    let (token, p₂, h₂) = >>=-eq-ok (some_or 401 (strip_bearer header)) _ h₁ in
    let (presented, p₃, h₃) = >>=-eq-ok (some_or 401 (hex_decode (trim token))) _ h₂ in
    let (u, p₄, h₄) = >>=-eq-ok (ensure (ct_eq presented admin) (status 401)) _ h₃ in
    let same : record svc { meta = set_owner_quota name (some n) svc.meta } ≡ svc' =
      ok-injective h₄ in
    let configured : admin_token ≡ some admin = some_or-ok 404 admin_token admin p₁ in
    let decoded : hex_decode (trim token) ≡ some presented =
      some_or-ok 401 (hex_decode (trim token)) presented p₃ in
    record {
      admin = admin;
      token = token;
      configured = configured;
      sent = strip_bearer-some header token (some_or-ok 401 (strip_bearer header) token p₂);
      authentic =
          decoded
          ∙ ap some (
              ct_eq_sound presented admin (short (trim token) presented decoded)
                (short' admin configured) (ensure-ok (ct_eq presented admin) (status 401) u p₄));
      limited = λ other.
          ap (effective_quota other) (sym same)
          ∙ effective_quota-set_owner_quota other name n svc small;
      same_blobs = ap (λ s. s.blobs) (sym same);
    }
