-- ===== src/Prelude/Results.antt =====
-- `Result`, with the chaining that `?` does.
use mathlib.Core.Path.{◌≡◌, refl}
use mathlib.Core.Logic.{◌⊎◌, inl, inr}
use mathlib.Core.Option.{Option, none, some}

pub data Result {ℓ κ} (A : Type ℓ) (E : Type κ) : Type (ℓ ⊔ κ) where
  ok : A → Result A E
  err : E → Result A E

module _ {ℓ κ μ} {A : Type ℓ} {B : Type κ} {E : Type μ} where
  infixl 5 ◌>>=◌
  -- What `?` does with the rest of a function.
  abbrev pub ◌>>=◌ : Result A E → (A → Result B E) → Result B E
  err cause >>= rest = err cause
  ok value >>= rest = rest value

  -- A chain that succeeds, succeeds at both links.
  pub >>=-ok :
      (m : Result A E) (rest : A → Result B E) {b : B}
      → (m >>= rest) ≡ ok b
      → (value : A) × (rest value ≡ ok b) × (m ≡ ok value)
  >>=-ok (err cause) rest h = cc
  >>=-ok (ok value) rest h = (value, h, refl)

-- `ok_or`
abbrev pub ok_or {ℓ κ} : {A : Type ℓ} {E : Type κ} → Option A → E → Result A E
ok_or none e = err e
ok_or (some a) e = ok a

pub ok_injective {ℓ κ} :
    {A : Type ℓ} {E : Type κ} {a b : A} → ◌≡◌ {A = Result A E} (ok a) (ok b) → a ≡ b
ok_injective e = cc

pub Result-cases {ℓ κ} :
    {A : Type ℓ} {E : Type κ} (r : Result A E) → ((a : A) × (r ≡ ok a)) ⊎ ((e : E) × (r ≡ err e))
Result-cases (ok a) = inl (a, refl)
Result-cases (err e) = inr (e, refl)
