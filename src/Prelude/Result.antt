-- ===== src/Prelude/Result.antt =====
-- A value, or the error that a check answers with.
use mathlib.Core.Bool.{Bool, true, false}
use mathlib.Core.Option.{Option, none, some}
use mathlib.Core.Path.{◌≡◌, refl}

pub data Result {ℓ κ} (E : Type ℓ) (A : Type κ) : Type (ℓ ⊔ κ) where
  err : E → Result E A
  ok : A → Result E A

module _ {ℓ κ} {E : Type ℓ} {B : Type κ} where
  infixl 5 ◌>>◌ ◌>>=◌
  -- What comes after a check is reached only if the check passes.
  abbrev pub ◌>>◌ : Result E (Unit {0}) → Result E B → Result E B
  err e >> next = err e
  ok passed >> next = next

  abbrev pub ◌>>=◌ {μ} : {A : Type μ} → Result E A → (A → Result E B) → Result E B
  err e >>= next = err e
  ok value >>= next = next value

  -- Where a chain succeeds, its first part did.
  pub >>=-eq-ok {μ} :
      {A : Type μ} (first : Result E A) (next : A → Result E B) {result : B}
      → (first >>= next) ≡ ok result
      → (value : A) × (first ≡ ok value) × (next value ≡ ok result)
  >>=-eq-ok (err e) next h = cc
  >>=-eq-ok (ok value) next h = (value, refl, h)

module _ {ℓ} {E : Type ℓ} where
  -- `if (!b) return e;`
  abbrev pub guard : (b : Bool) (e : E) → Result E (Unit {0})
  guard false e = err e
  guard true e = ok tt

  -- `if (position == npos) return e;`
  abbrev pub or_fail {κ} : {A : Type κ} → Option A → E → Result E A
  or_fail none e = err e
  or_fail (some a) e = ok a
