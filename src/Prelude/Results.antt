-- ===== src/Prelude/Results.antt =====
-- Fallible code: Rust's `Result`, its combinators, and the panics that unwind through it.
use mathlib.Core.Path.{◌≡◌, refl}
use mathlib.Core.Logic.{◌⊎◌, inl, inr}
use mathlib.Core.Option.{Option, none, some}

pub data Result {ℓ κ} (E : Type ℓ) (A : Type κ) : Type (ℓ ⊔ κ) where
  ok : A → Result E A
  err : E → Result E A

infixl 5 ◌>>=◌ ◌>>◌
abbrev pub ◌>>=◌ {ℓ κ μ} :
    {E : Type ℓ} {A : Type κ} {B : Type μ} → Result E A → (A → Result E B) → Result E B
err failure >>= next_step = err failure
ok x >>= next_step = next_step x

abbrev pub ◌>>◌ {ℓ κ} : {E : Type ℓ} {B : Type κ} → Result E (Unit {0}) → Result E B → Result E B
first_step >> next_step = first_step >>= λ done. next_step

-- `map_err`.
abbrev pub map_err {ℓ κ μ} :
    {E : Type ℓ} {F : Type κ} {A : Type μ} → (E → F) → Result E A → Result F A
map_err f (ok a) = ok a
map_err f (err e) = err (f e)

-- `ok_or` and `ok_or_else`.
abbrev pub ok_or {ℓ κ} : {E : Type ℓ} {A : Type κ} → E → Option A → Result E A
ok_or e (some a) = ok a
ok_or e none = err e

-- An error of the code, or a panic: a failed `expect`, or a call that the callee refuses.
pub data Fault {ℓ} (E : Type ℓ) : Type ℓ where
  error : E → Fault E
  panic : Fault E

abbrev pub map_fault {ℓ κ} : {E : Type ℓ} {F : Type κ} → (E → F) → Fault E → Fault F
map_fault f (error e) = error (f e)
map_fault f panic = panic

-- `expect` and the like.
abbrev pub expect {ℓ κ} : {E : Type ℓ} {A : Type κ} → Option A → Result (Fault E) A
expect (some a) = ok a
expect none = err panic

-- A fallible call that cannot panic, inside code that can.
abbrev pub lift {ℓ κ} : {E : Type ℓ} {A : Type κ} → Result E A → Result (Fault E) A
lift = map_err error

pub Result-cases {ℓ κ} :
    {E : Type ℓ} {A : Type κ} (r : Result E A) → ((a : A) × (r ≡ ok a)) ⊎ ((e : E) × (r ≡ err e))
Result-cases (ok a) = inl (a, refl)
Result-cases (err e) = inr (e, refl)

-- A successful chain had a successful first step.
pub >>=-eq-ok {ℓ κ μ} :
    {E : Type ℓ} {A : Type κ} {B : Type μ} (first_step : Result E A) (next_step : A → Result E B)
    {y : B}
    → (first_step >>= next_step) ≡ ok y
    → (x : A) × (first_step ≡ ok x) × (next_step x ≡ ok y)
>>=-eq-ok (err failure) next_step answered = cc
>>=-eq-ok (ok x) next_step answered = (x, refl, answered)

-- `map_err` does not touch a success.
pub map_err-eq-ok {ℓ κ μ} :
    {E : Type ℓ} {F : Type κ} {A : Type μ} (f : E → F) (r : Result E A) {a : A}
    → map_err f r ≡ ok a
    → r ≡ ok a
map_err-eq-ok f (ok a) h = cc
map_err-eq-ok f (err e) h = cc

-- An option that is there was `some`.
pub ok_or-eq-ok {ℓ κ} :
    {E : Type ℓ} {A : Type κ} (e : E) (o : Option A) {a : A} → ok_or e o ≡ ok a → o ≡ some a
ok_or-eq-ok e none answered = cc
ok_or-eq-ok e (some x) answered = cc
