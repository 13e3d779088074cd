-- ===== src/Prelude/Errors.antt =====
-- Python exceptions as values.
use mathlib.Core.List.{List, [], ◌∷◌}
use cirradio.Prelude.Lists.{All}

pub data Exception : Type 0 where
  index_error key_error value_error struct_error type_error zero_division_error : Exception

pub data Result {ℓ} (A : Type ℓ) : Type ℓ where
  ok : A → Result A
  raised : Exception → Result A

module _ {ℓ κ} {A : Type ℓ} {B : Type κ} where
  infixl 5 ◌>>=◌
  abbrev pub ◌>>=◌ : Result A → (A → Result B) → Result B
  ok a >>= f = f a
  raised e >>= f = raised e

-- A result that is no exception has the property.
abbrev pub IfOk {ℓ κ} : {A : Type ℓ} → (A → Type κ) → Result A → Type κ
IfOk P (ok a) = P a
IfOk P (raised e) = Unit

pub IfOk-bind {ℓ κ μ ν} :
    {A : Type ℓ} {B : Type κ} (P : A → Type μ) (Q : B → Type ν) (m : Result A) (f : A → Result B)
    → IfOk P m
    → ((a : A) → P a → IfOk Q (f a))
    → IfOk Q (m >>= f)
IfOk-bind P Q (ok a) f p h = h a p
IfOk-bind P Q (raised e) f p h = tt

pub IfOk-tt {ℓ} : {A : Type ℓ} (m : Result A) → IfOk (λ a. Unit {0}) m
IfOk-tt (ok a) = tt
IfOk-tt (raised e) = tt

module _ {ℓ κ} {A : Type ℓ} {S : Type κ} where
  -- for x in xs: s = step(x, s), where a step may raise
  unfoldable pub for_each : (A → S → Result S) → List A → S → Result S
  for_each step [] s = ok s
  for_each step (x ∷ xs) s = do t ← step x s; for_each step xs t

  -- What every step that returns keeps, on the items with a property, the loop keeps.
  pub for_each-IfOk {μ ν} :
      (Q : A → Type ν) (P : S → Type μ) (step : A → S → Result S)
      → ((x : A) (s : S) → Q x → P s → IfOk P (step x s))
      → (xs : List A) (s : S) → All Q xs
      → P s
      → IfOk P (for_each step xs s)
  unfolding for_each
  for_each-IfOk Q P step keep [] s q p = p
  for_each-IfOk Q P step keep (x ∷ xs) s q p =
      IfOk-bind P P (step x s) (for_each step xs) (keep x s q.0 p)
        (λ t h. for_each-IfOk Q P step keep xs t q.1 h)
