-- ===== src/Prelude/Results.antt =====
-- Rust's `Result`, with the bind that `?` is.
use mathlib.Core.Path.{◌≡◌, refl}
use mathlib.Core.Option.{Option, none, some}

pub data Result {ℓ κ} (A : Type ℓ) (E : Type κ) : Type (ℓ ⊔ κ) where
  ok : A → Result A E
  err : E → Result A E

-- `?`: an error ends the chain.
abbrev pub ◌>>=◌ {ℓ κ μ} :
    {A : Type ℓ} {B : Type κ} {E : Type μ} → Result A E → (A → Result B E) → Result B E
err failure >>= next = err failure
ok value >>= next = next value

infixl 5 ◌>>=◌
abbrev pub to_option {ℓ κ} : {A : Type ℓ} {E : Type κ} → Result A E → Option A
to_option (ok a) = some a
to_option (err e) = none

pub ok-injective {ℓ κ} :
    {A : Type ℓ} {E : Type κ} (a b : A) → ◌≡◌ {A = Result A E} (ok a) (ok b) → a ≡ b
ok-injective a b h = cc

-- A chain that ends well passed a value on.
pub bind-ok {ℓ κ μ} :
    {A : Type ℓ} {B : Type κ} {E : Type μ} (r : Result A E) (f : A → Result B E) (b : B)
    → (r >>= f) ≡ ok b
    → (a : A) × (r ≡ ok a) × (f a ≡ ok b)
bind-ok (ok a) f b h = (a, refl, h)
bind-ok (err e) f b h = cc

pub err_not_ok {ℓ κ} :
    {A : Type ℓ} {E : Type κ} {e : E} {a : A} → ◌≡◌ {A = Result A E} (err e) (ok a) → ⊥
err_not_ok h = cc
