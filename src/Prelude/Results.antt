-- ===== src/Prelude/Results.antt =====
-- Fallible storage code. A dispatchable is `#[transactional]`: an error rolls the storage back, so
-- a call is a function from the storage to an error or to a result with the new storage.
use mathlib.Core.Path.{◌≡◌, refl, ap}
use native.Mathlib.Omega.{arith}
use mathlib.Core.Logic.{◌⊎◌, inl, inr}
use mathlib.Core.Bool.{Bool, true, false}
use mathlib.Core.Option.{Option, none, some}
use mathlib.Core.List.{List, [], ◌∷◌}

pub data Result {ℓ κ} (E : Type ℓ) (A : Type κ) : Type (ℓ ⊔ κ) where
  ok : A → Result E A
  err : E → Result E A

abbrev pub Call : Type 0 → Type 0 → Type 0 → Type 0
Call S E A = S → Result E (A × S)

abbrev pub pure : {S E A : Type 0} → A → Call S E A
pure a s = ok (a, s)

abbrev pub fail : {S E A : Type 0} → E → Call S E A
fail e s = err e

infixl 5 ◌>>=◌ ◌>>◌
abbrev pub ◌>>=◌ : {S E A B : Type 0} → Call S E A → (A → Call S E B) → Call S E B
◌>>=◌ m f s = elim (m s) [ ok (a, s') ↦ f a s' | err e ↦ err e ]

abbrev pub ◌>>◌ : {S E A B : Type 0} → Call S E A → Call S E B → Call S E B
m >> k = m >>= λ _. k

abbrev pub gets : {S E A : Type 0} → (S → A) → Call S E A
gets f s = ok (f s, s)

abbrev pub modify : {S E : Type 0} → (S → S) → Call S E (Unit {0})
modify f s = ok (tt, f s)

-- `ensure!(test, error)`
abbrev pub ensure : {S E : Type 0} → Bool → E → Call S E (Unit {0})
ensure true e s = ok (tt, s)
ensure false e s = err e

-- `if test { body }`
abbrev pub only_if : {S E : Type 0} → Bool → Call S E (Unit {0}) → Call S E (Unit {0})
only_if true body s = body s
only_if false body s = ok (tt, s)

-- `option.ok_or(error)?`
abbrev pub ok_or : {S E A : Type 0} → Option A → E → Call S E A
ok_or none e s = err e
ok_or (some a) e s = ok (a, s)

-- The storage after a dispatch: rolled back on an error.
abbrev pub settle : {S E A : Type 0} → S → Result E (A × S) → S
settle s (ok (a, s')) = s'
settle s (err e) = s

-- A `for` loop whose body may return early with an error.
abbrev pub for_each : {S E A : Type 0} → (A → Call S E (Unit {0})) → List A → Call S E (Unit {0})
for_each body [] = pure tt
for_each body (x ∷ xs) = body x >> for_each body xs

-- A property of the storage after a dispatch: it held before, and a success establishes it.
pub settle_cases {ℓ} :
    {S E A : Type 0} (P : S → Type ℓ) (s : S) (r : Result E (A × S))
    → P s
    → ((a : A) (s' : S) → r ≡ ok (a, s') → P s')
    → P (settle s r)
settle_cases P s (ok (a, s')) same changed = changed a s' refl
settle_cases P s (err e) same changed = same

pub Result-cases {ℓ κ} :
    {E : Type ℓ} {A : Type κ} (r : Result E A) → ((a : A) × (r ≡ ok a)) ⊎ ((e : E) × (r ≡ err e))
Result-cases (ok a) = inl (a, refl)
Result-cases (err e) = inr (e, refl)

-- A success of a sequence of two calls, taken apart.
pub bind-ok :
    {S E A B : Type 0} (m : Call S E A) (f : A → Call S E B) (s : S) (b : B) (s' : S)
    → (m >>= f) s ≡ ok (b, s')
    → (a : A) × (s₁ : S) × (m s ≡ ok (a, s₁)) × (f a s₁ ≡ ok (b, s'))
bind-ok m f s b s' h = elim (Result-cases (m s)) [
  | inl ((a, s₁), e) ↦ (a, s₁, e, ground arith)
  | inr (e, e') ↦ absurd (ground arith)
]

pub bind-step :
    {S E A B : Type 0} (m : Call S E A) (f : A → Call S E B) (s : S) (a : A) (s₁ : S)
    → m s ≡ ok (a, s₁)
    → (m >>= f) s ≡ f a s₁
bind-step m f s a s₁ h = ap (λ r. elim r [ ok (b, s') ↦ f b s' | err e ↦ err e ]) h
