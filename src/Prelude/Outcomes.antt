-- ===== src/Prelude/Outcomes.antt =====
-- A run of a handler: it ends, or the browser throws, or a cursor coordinate becomes `NaN`.

pub data Fault : Type 0 where
  -- a property of `undefined` is read or written
  type_error : Fault
  -- arithmetic on `undefined`; the model follows the state no further
  not_a_number : Fault

pub data Outcome {ℓ} (A : Type ℓ) : Type ℓ where
  ok : A → Outcome A
  fault : Fault → Outcome A

infixl 5 ◌>>=◌
abbrev pub ◌>>=◌ {ℓ κ} : {A : Type ℓ} {B : Type κ} → Outcome A → (A → Outcome B) → Outcome B
ok a >>= f = f a
fault e >>= f = fault e

-- The run ends, in a state with the property.
abbrev pub Ends : {A : Type 0} → (A → Type 0) → Outcome A → Type 0
Ends P (ok a) = P a
Ends P (fault e) = ⊥

pub Ends-bind :
    {A B : Type 0} (P : A → Type 0) (Q : B → Type 0) (m : Outcome A) (f : A → Outcome B)
    → Ends P m
    → ((a : A) → P a → Ends Q (f a))
    → Ends Q (m >>= f)
Ends-bind P Q (ok a) f h k = k a h
Ends-bind P Q (fault e) f h k = absurd h

pub Ends-map :
    {A : Type 0} (P Q : A → Type 0) (m : Outcome A) → Ends P m → ((a : A) → P a → Q a) → Ends Q m
Ends-map P Q (ok a) h k = k a h
Ends-map P Q (fault e) h k = absurd h

pub Ends-both :
    {A : Type 0} (P Q : A → Type 0) (m : Outcome A) → Ends P m → Ends Q m → Ends (λ a. P a × Q a) m
Ends-both P Q (ok a) h k = (h, k)
Ends-both P Q (fault e) h k = absurd h
