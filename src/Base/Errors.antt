-- ===== src/Base/Errors.antt =====
-- The business errors of src/backend/app/core/exceptions.py as values: an operation that may raise
-- `APIError(code, message, http)` returns a `Result`; the message texts are left out.

use mathlib.Core.Path.{◌≡◌, refl, ap, subst}
use mathlib.Core.Logic.{◌⊎◌, inl, inr}
use mathlib.Core.Bool.{Bool, true, false}

pub data Code : Type 0 where
  param_format_invalid auth_not_logged_in auth_forbidden resource_not_found : Code
  resource_state_conflict resource_duplicate system_upstream_failure : Code

pub data Result {ℓ} (A : Type ℓ) : Type ℓ where
  ok : A → Result A
  err : Code → Result A

infixl 5 ◌>>=◌ ◌>>◌
abbrev pub ◌>>=◌ {ℓ κ} : {A : Type ℓ} {B : Type κ} → Result A → (A → Result B) → Result B
ok a >>= f = f a
err c >>= f = err c

abbrev pub ◌>>◌ {ℓ} : {B : Type ℓ} → Result (Unit {0}) → Result B → Result B
m >> k = m >>= λ _. k

-- `if bad: raise APIError(code, ...)`
abbrev pub refuse_if : Bool → Code → Result (Unit {0})
refuse_if true c = err c
refuse_if false c = ok tt

-- the operation does not raise
abbrev pub succeeds {ℓ} : {A : Type ℓ} → Result A → Bool
succeeds (ok a) = true
succeeds (err e) = false

pub Result-cases {ℓ} :
    {A : Type ℓ} (m : Result A) → ((e : Code) × (m ≡ err e)) ⊎ ((a : A) × (m ≡ ok a))
Result-cases (ok a) = inr (a, refl)
Result-cases (err e) = inl (e, refl)

-- what is returned, if no error is raised, satisfies a predicate
unfoldable pub Gives {ℓ κ} : {A : Type ℓ} → (A → Type κ) → Result A → Type κ
Gives P (ok a) = P a
Gives P (err c) = Unit

pub refuse_if-Gives {ℓ κ} :
    {A : Type ℓ} (P : A → Type κ) (bad : Bool) (c : Code) (k : Result A)
    → (bad ≡ false → Gives P k)
    → Gives P (refuse_if bad c >> k)
unfolding Gives
refuse_if-Gives P true c k h = tt
refuse_if-Gives P false c k h = h refl

pub bind-Gives {ℓ κ μ} :
    {A : Type ℓ} {B : Type κ} (P : B → Type μ) (m : Result A) (f : A → Result B)
    → ((a : A) → m ≡ ok a → Gives P (f a))
    → Gives P (m >>= f)
unfolding Gives
bind-Gives P (ok a) f h = h a refl
bind-Gives P (err c) f h = tt

result_or {ℓ} : {A : Type ℓ} → A → Result A → A
result_or d (ok a) = a
result_or d (err c) = d

pub ok-injective {ℓ} : {A : Type ℓ} (a b : A) → ok a ≡ ok b → a ≡ b
unfolding result_or
ok-injective a b h = ap (result_or a) h

pub given {ℓ κ} : {A : Type ℓ} (P : A → Type κ) (m : Result A) (a : A) → Gives P m → m ≡ ok a → P a
unfolding Gives
given P (ok b) a h e = subst P (ok-injective b a e) h
given P (err c) a h e = cc

pub ok-Gives {ℓ κ} : {A : Type ℓ} (P : A → Type κ) (a : A) → P a → Gives P (ok a)
unfolding Gives
ok-Gives P a h = h

pub err-Gives {ℓ κ} : {A : Type ℓ} (P : A → Type κ) (c : Code) → Gives P (err c)
unfolding Gives
err-Gives P c = tt

pub Gives-map {ℓ κ μ} :
    {A : Type ℓ} (P : A → Type κ) (Q : A → Type μ) (m : Result A)
    → ((a : A) → P a → Q a)
    → Gives P m
    → Gives Q m
unfolding Gives
Gives-map P Q (ok a) f h = f a h
Gives-map P Q (err c) f h = tt
