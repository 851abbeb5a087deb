-- ===== src/Prelude/Outcomes.antt =====
-- What a piece of kernel code does: it returns, it panics (`unwrap`, `expect`, a checked
-- subtraction), or it goes on for ever (the fuel of a loop ran out).
use mathlib.Core.Path.{◌≡◌, refl}
use mathlib.Core.Logic.{◌⊎◌, inl, inr}
use mathlib.Core.Bool.{Bool, true, false}
use mathlib.Core.Option.{Option, none, some}

pub data Outcome {ℓ} (A : Type ℓ) : Type ℓ where
  ok : A → Outcome A
  panic : Outcome A
  endless : Outcome A

-- `r.unwrap()` and `r.expect(..)` on an `Option`.
abbrev pub unwrap {ℓ} : {A : Type ℓ} → Option A → Outcome A
unwrap none = panic
unwrap (some a) = ok a

infixl 5 ◌>>=◌
abbrev pub ◌>>=◌ : {A B : Type 0} → Outcome A → (A → Outcome B) → Outcome B
endless >>= go = endless
panic >>= go = panic
ok a >>= go = go a

-- A `do` block that returns: its first action has returned.
pub >>=_inv :
    {A B : Type 0} {r : B} (m : Outcome A) (go : A → Outcome B)
    → (m >>= go) ≡ ok r
    → (got : A) × (go got ≡ ok r) × (m ≡ ok got)
>>=_inv endless go e = cc
>>=_inv panic go e = cc
>>=_inv (ok got) go e = (got, e, refl)

pub ok_inj {ℓ} : {A : Type ℓ} {a b : A} → ok a ≡ ok b → a ≡ b
ok_inj e = cc

pub some_inj {ℓ} : {A : Type ℓ} {a b : A} → some a ≡ some b → a ≡ b
some_inj e = cc

abbrev pub is_some {ℓ} : {A : Type ℓ} → Option A → Bool
is_some none = false
is_some (some a) = true

abbrev pub is_none {ℓ} : {A : Type ℓ} → Option A → Bool
is_none none = true
is_none (some a) = false

-- Rust's `Result`, a value that the code goes on with.
pub data Result {ℓ κ} (A : Type ℓ) (E : Type κ) : Type (ℓ ⊔ κ) where
  okay : A → Result A E
  error : E → Result A E

pub Result-cases {ℓ κ} :
    {A : Type ℓ} {E : Type κ} (r : Result A E)
    → ((a : A) × (r ≡ okay a)) ⊎ ((e : E) × (r ≡ error e))
Result-cases (okay a) = inl (a, refl)
Result-cases (error e) = inr (e, refl)

abbrev pub map_okay {ℓ κ μ} :
    {A : Type ℓ} {B : Type κ} {E : Type μ} → (A → B) → Result A E → Result B E
map_okay f (okay a) = okay (f a)
map_okay f (error e) = error e

-- `r.unwrap()` on a `Result`.
abbrev pub unwrap_okay : {A E : Type 0} → Result A E → Outcome A
unwrap_okay (okay a) = ok a
unwrap_okay (error e) = panic
