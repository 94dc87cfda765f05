-- ===== src/Prelude/Predicates.antt =====
-- A predicate on all elements of a list, and the array operations that keep it.
use Prim.Native.Nat.{ℕ, zero, suc, ◌-◌, ◌<◌, ◌≤◌}
use mathlib.Core.Path.{◌≡◌, subst, refl}
use native.Mathlib.Omega.{arith}
use mathlib.Core.List.{List, [], ◌∷◌, ◌++◌}
use mathlib.Core.Option.{some, some-injective}
use genie_tangle.Prelude.Tests.{◌==◌, if-both}
use genie_tangle.Prelude.Lists.{length, get_elem?, set, drop, take, replicate}
use genie_tangle.Prelude.Arrays.{insert_at, erase_at, pop, slice_last, assign}

module _ {A : Type 0} where
  abbrev pub All : (A → Type 0) → List A → Type 0
  All P [] = Unit {0}
  All P (x ∷ xs) = P x × All P xs

  pub All-insert_at :
      (P : A → Type 0) (xs : List A) (i : ℕ) (v : A) → All P xs → P v → All P (insert_at xs i v)
  unfolding insert_at
  All-insert_at P xs zero v h p = (p, h)
  All-insert_at P [] (suc i) v h p = (p, tt)
  All-insert_at P (x ∷ xs) (suc i) v h p = (h.0, All-insert_at P xs i v h.1 p)

  pub All-erase_at : (P : A → Type 0) (xs : List A) (i : ℕ) → All P xs → All P (erase_at xs i)
  unfolding erase_at
  All-erase_at P [] i h = tt
  All-erase_at P (x ∷ xs) zero h = h.1
  All-erase_at P (x ∷ xs) (suc i) h = (h.0, All-erase_at P xs i h.1)

  pub All-pop : (P : A → Type 0) (xs : List A) → All P xs → All P (pop xs)
  unfolding pop
  All-pop P [] h = tt
  All-pop P (x ∷ []) h = tt
  All-pop P (x ∷ y ∷ xs) h = (h.0, All-pop P (y ∷ xs) h.1)

  pub All-drop : (P : A → Type 0) (n : ℕ) (xs : List A) → All P xs → All P (drop n xs)
  All-drop P zero xs h = h
  All-drop P (suc n) [] h = tt
  All-drop P (suc n) (x ∷ xs) h = All-drop P n xs h.1

  pub All-slice_last : (P : A → Type 0) (n : ℕ) (xs : List A) → All P xs → All P (slice_last n xs)
  unfolding slice_last
  All-slice_last P n xs h = if-both (All P) (n == 0) h (All-drop P (length xs - n) xs h)

  pub All-append : (P : A → Type 0) (xs ys : List A) → All P xs → All P ys → All P (xs ++ ys)
  All-append P [] ys h k = k
  All-append P (x ∷ xs) ys h k = (h.0, All-append P xs ys h.1 k)

  pub All-replicate : (P : A → Type 0) (n : ℕ) (x : A) → P x → All P (replicate n x)
  All-replicate P zero x p = tt
  All-replicate P (suc n) x p = (p, All-replicate P n x p)

  pub All-set : (P : A → Type 0) (xs : List A) (i : ℕ) (v : A) → All P xs → P v → All P (set xs i v)
  All-set P [] i v h p = tt
  All-set P (x ∷ xs) zero v h p = (p, h.1)
  All-set P (x ∷ xs) (suc i) v h p = (h.0, All-set P xs i v h.1 p)

  pub All-get_elem? :
      (P : A → Type 0) (xs : List A) (i : ℕ) {x : A} → All P xs → get_elem? xs i ≡ some x → P x
  All-get_elem? P [] i h e = cc
  All-get_elem? P (x ∷ xs) zero h e = subst P (some-injective _ _ e) h.0
  All-get_elem? P (x ∷ xs) (suc i) h e = All-get_elem? P xs i h.1 e

  pub All-map : (P Q : A → Type 0) (xs : List A) → ((x : A) → P x → Q x) → All P xs → All Q xs
  All-map P Q [] f h = tt
  All-map P Q (x ∷ xs) f h = (f x h.0, All-map P Q xs f h.1)

  pub All-from :
      (P : A → Type 0) (xs : List A)
      → ((i : ℕ) (x : A) → i < length xs → get_elem? xs i ≡ some x → P x)
      → All P xs
  All-from P [] f = tt
  All-from P (x ∷ xs) f =
      (f 0 x (omega arith) refl, All-from P xs (λ i y h e. f (suc i) y (omega (arith, h)) e))

  pub All-take : (P : A → Type 0) (n : ℕ) (xs : List A) → All P xs → All P (take n xs)
  All-take P zero xs h = tt
  All-take P (suc n) [] h = tt
  All-take P (suc n) (x ∷ xs) h = (h.0, All-take P n xs h.1)

  -- An assignment that leaves no place between.
  pub All-assign :
      (P : A → Type 0) (hole : A) (xs : List A) (i : ℕ) (v : A)
      → i ≤ length xs
      → All P xs
      → P v
      → All P (assign hole xs i v)
  unfolding assign
  All-assign P hole [] zero v k h p = (p, tt)
  All-assign P hole [] (suc i) v k h p = absurd (omega (arith, k))
  All-assign P hole (x ∷ xs) zero v k h p = (p, h.1)
  All-assign P hole (x ∷ xs) (suc i) v k h p =
      (h.0, All-assign P hole xs i v (omega (arith, k)) h.1 p)
