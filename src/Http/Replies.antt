-- ===== src/Http/Replies.antt =====
-- How a handler comes to its reply.
use baleforgit.Prelude.{
  Bool, Result, ap, err, false, ok, ok-injective, refl, stuck, subst, true, ◌≡◌,
}
use baleforgit.Core.{CoreError}
use baleforgit.Http.{ApiError, from_core, malformed}
use baleforgit.Http.Uploads.{Reply, Service, and_then}

pub from_core-ok : {A : Type 0} (r : Result CoreError A) {a : A} → from_core r ≡ ok a → r ≡ ok a
from_core-ok (ok b) h = ap (λ b. ok b) (ok-injective h)
from_core-ok (err e) h = absurd (cc h)
from_core-ok stuck h = absurd (cc h)

pub malformed-ok : {E A : Type 0} (r : Result E A) {a : A} → malformed r ≡ ok a → r ≡ ok a
malformed-ok (ok b) h = ap (λ b. ok b) (ok-injective h)
malformed-ok (err e) h = absurd (cc h)
malformed-ok stuck h = absurd (cc h)

abbrev not_ok : {A : Type 0} → Result ApiError A → Bool
not_ok (ok a) = false
not_ok (err e) = true
not_ok stuck = true

module _ {A B : Type 0} where
  pub and_then-eq-ok :
      (svc : Service) (r : Result ApiError A) (f : A → Reply B) {svc' : Service} {b : B}
      → and_then svc r f ≡ (svc', ok b)
      → (a : A) × (r ≡ ok a) × (f a ≡ (svc', ok b))
  and_then-eq-ok svc (ok a) f h = (a, refl, h)
  and_then-eq-ok svc (err e) f h = absurd (clash (ap (λ p. not_ok p.1) h))
    where
      clash : true ≡ false → ⊥
      clash p = cc p
  and_then-eq-ok svc stuck f h = absurd (clash (ap (λ p. not_ok p.1) h))
    where
      clash : true ≡ false → ⊥
      clash p = cc p

  -- What holds where the first part stops, and after the rest, holds at the end.
  pub and_then-either {κ} :
      (P : Service → Type κ) (svc : Service) (r : Result ApiError A) (f : A → Reply B)
      {reply : Reply B}
      → and_then svc r f ≡ reply
      → P svc
      → ((a : A) → r ≡ ok a → f a ≡ reply → P reply.0)
      → P reply.0
  and_then-either P svc (ok a) f h p k = k a refl h
  and_then-either P svc (err e) f h p k = subst (λ q. P q.0) h p
  and_then-either P svc stuck f h p k = subst (λ q. P q.0) h p
