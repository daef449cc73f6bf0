-- ===== src/Shared/Outcome.antt =====
-- Rust's `Result<T, E>`, its `?` as a bind, and the inversion of a bind that succeeds.
use mathlib.Core.Path.{◌≡◌, refl}
use mathlib.Core.Bool.{Bool, true, false}
use twinleaf_rust.Shared.Tests.{if◌then◌else◌}
use mathlib.Core.Logic.{◌⊎◌, inl, inr}

pub data Result {ℓ κ} (T : Type ℓ) (F : Type κ) : Type (ℓ ⊔ κ) where
  ok : T → Result T F
  err : F → Result T F

infixl 5 ◌>>=◌
abbrev pub ◌>>=◌ {ℓ κ ι} :
    {T : Type ℓ} {U : Type κ} {F : Type ι} → Result T F → (T → Result U F) → Result U F
ok found >>= next = next found
err failure >>= next = err failure

pub >>=-eq-ok {ℓ κ ι} :
    {T : Type ℓ} {U : Type κ} {F : Type ι} (first : Result T F) (next : T → Result U F) {end : U}
    → (first >>= next) ≡ ok end
    → (mid : T) × (first ≡ ok mid) × (next mid ≡ ok end)
>>=-eq-ok (ok mid) next done = (mid, refl, done)
>>=-eq-ok (err failure) next done = cc

pub Result-cases {ℓ κ} :
    {A : Type ℓ} {E : Type κ} (r : Result A E) → ((a : A) × (r ≡ ok a)) ⊎ ((e : E) × (r ≡ err e))
Result-cases (ok a) = inl (a, refl)
Result-cases (err e) = inr (e, refl)

infixl 5 ◌>>◌
abbrev pub ◌>>◌ {κ ι} : {U : Type κ} {F : Type ι} → Result (Unit {0}) F → Result U F → Result U F
first >> next = first >>= λ done. next

-- `if refused { return Err(e); }`
abbrev pub refuse {ι} : {E : Type ι} → Bool → E → Result (Unit {0}) E
refuse true e = err e
refuse false e = ok tt

pub refuse_then {ℓ ι} :
    {A : Type ℓ} {E : Type ι} (c : Bool) (e : E) (m : Result A E)
    → (refuse c e >> m) ≡ (if c then err e else m)
refuse_then true e m = refl
refuse_then false e m = refl

-- The second succeeds wherever the first does, with the same value. They may fail differently.
abbrev pub Agrees {ℓ ι} : {A : Type ℓ} {E : Type ι} → Result A E → Result A E → Type (ℓ ⊔ ι)
Agrees {A} r r' = (a : A) → r ≡ ok a → r' ≡ ok a

module _ {ℓ κ ι} {A : Type ℓ} {B : Type κ} {E : Type ι} where
  pub Agrees-bind :
      (m m' : Result A E) (k k' : A → Result B E)
      → Agrees m m'
      → ((a : A) → Agrees (k a) (k' a))
      → Agrees (m >>= k) (m' >>= k')
  Agrees-bind (ok x) m' k k' hm hk b e = rw (hm x refl) (hk x b e)
  Agrees-bind (err x) m' k k' hm hk b e = cc

pub Agrees-refuse {ι} : {E : Type ι} (c : Bool) (e e' : E) → Agrees (refuse c e) (refuse c e')
Agrees-refuse true e e' a h = cc
Agrees-refuse false e e' a h = h
