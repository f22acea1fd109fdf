-- ===== src/Prelude/Outcome.antt =====
-- Rust's `Result<A, E>`. The constructor `stuck` is no Rust value: the fuel of a loop ran out; each
-- loop that takes fuel has a theorem that it does not.
use mathlib.Core.Bool.{Bool, false, true}
use mathlib.Core.Logic.{◌≢◌}
use mathlib.Core.Path.{refl, ◌≡◌}

pub data Result {ℓ} (E : Type 0) (A : Type ℓ) : Type ℓ where
  ok : A → Result E A
  err : E → Result E A
  stuck : Result E A

infixl 5 ◌>>=◌ ◌>>◌
abbrev pub ◌>>=◌ {ℓ κ} :
    {E : Type 0} {A : Type ℓ} {B : Type κ} → Result E A → (A → Result E B) → Result E B
stuck >>= f = stuck
err e >>= f = err e
ok a >>= f = f a

abbrev pub ◌>>◌ {κ} : {E : Type 0} {B : Type κ} → Result E (Unit {0}) → Result E B → Result E B
r >> s = r >>= (λ done. s)

-- `if !b { return Err(e) }`
abbrev pub ensure : {E : Type 0} → Bool → E → Result E (Unit {0})
ensure false e = err e
ensure true e = ok tt

-- How a chain returns `b`: its first part returns a value, and the rest returns `b` from that.
abbrev pub Passed {ℓ κ} :
    {E : Type 0} {A : Type ℓ} {B : Type κ} → Result E A → (A → Result E B) → B → Type (ℓ ⊔ κ)
Passed {A = A} r f b = (a : A) × (r ≡ ok a) × (f a ≡ ok b)

pub >>=-eq-ok {ℓ κ} :
    {E : Type 0} {A : Type ℓ} {B : Type κ} (r : Result E A) (f : A → Result E B) {b : B}
    → (r >>= f) ≡ ok b
    → Passed r f b
>>=-eq-ok stuck f h = cc
>>=-eq-ok (err e) f h = cc
>>=-eq-ok (ok a) f h = (a, refl, h)

pub >>=-ne-stuck {ℓ κ} :
    {E : Type 0} {A : Type ℓ} {B : Type κ} (m : Result E A) (f : A → Result E B)
    → m ≢ stuck
    → ((a : A) → m ≡ ok a → f a ≢ stuck)
    → (m >>= f) ≢ stuck
>>=-ne-stuck (ok a) f h k = k a refl
>>=-ne-stuck (err e) f h k = λ p. cc
>>=-ne-stuck stuck f h k = absurd (h refl)

pub ok-injective {ℓ} :
    {E : Type 0} {A : Type ℓ} {a b : A} → ◌≡◌ {A = Result E A} (ok a) (ok b) → a ≡ b
ok-injective h = cc

pub ensure-ok : {E : Type 0} (b : Bool) (e : E) (u : Unit {0}) → ensure b e ≡ ok u → b ≡ true
ensure-ok true e u h = refl
ensure-ok false e u h = cc
