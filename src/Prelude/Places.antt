-- ===== src/Prelude/Places.antt =====
-- What stands at a place of a list after a write.
use Prim.Native.Nat.{ℕ, zero, suc, ◌<◌, ◌≤◌}
use mathlib.Core.Path.{◌≡◌, refl, ◌∙◌}
use mathlib.Core.List.{List, [], ◌∷◌}
use mathlib.Core.Bool.{false}
use mathlib.Core.Option.{some, none}
use native.Mathlib.Omega.{arith}
use genie_tangle.Prelude.Tests.{◌==◌, if◌then◌else◌}
use genie_tangle.Prelude.Lists.{length, get_or, get_elem?, set}
use genie_tangle.Prelude.Arrays.{assign, push}

module _ {ℓ} {A : Type ℓ} where
  -- What stands at a place after an assignment; the places past the end read as `hole`.
  pub get_or-assign :
      (hole : A) (xs : List A) (i k : ℕ) (v : A)
      → get_or (assign hole xs i v) k hole ≡ (if k == i then v else get_or xs k hole)
  unfolding assign
  get_or-assign hole [] zero zero v = refl
  get_or-assign hole [] zero (suc k) v = ground arith
  get_or-assign hole [] (suc i) zero v = ground arith
  get_or-assign hole [] (suc i) (suc k) v = get_or-assign hole [] i k v ∙ ground arith
  get_or-assign hole (x ∷ xs) zero zero v = refl
  get_or-assign hole (x ∷ xs) zero (suc k) v = ground arith
  get_or-assign hole (x ∷ xs) (suc i) zero v = ground arith
  get_or-assign hole (x ∷ xs) (suc i) (suc k) v = get_or-assign hole xs i k v ∙ ground arith

  pub get_or-set :
      (d : A) (xs : List A) (i k : ℕ) (v : A)
      → i < length xs
      → get_or (set xs i v) k d ≡ (if k == i then v else get_or xs k d)
  get_or-set d [] i k v h = elim h [ ]
  get_or-set d (x ∷ xs) zero zero v h = refl
  get_or-set d (x ∷ xs) zero (suc k) v h = ground arith
  get_or-set d (x ∷ xs) (suc i) zero v h = ground arith
  get_or-set d (x ∷ xs) (suc i) (suc k) v h = get_or-set d xs i k v (omega arith) ∙ ground arith

  pub get_elem?-get_or :
      (d : A) (xs : List A) (i : ℕ) → i < length xs → get_elem? xs i ≡ some (get_or xs i d)
  get_elem?-get_or d [] i h = elim h [ ]
  get_elem?-get_or d (x ∷ xs) zero h = refl
  get_elem?-get_or d (x ∷ xs) (suc i) h = get_elem?-get_or d xs i (omega arith)

  pub get_elem?-none : (xs : List A) (i : ℕ) → length xs ≤ i → get_elem? xs i ≡ none
  get_elem?-none [] i h = refl
  get_elem?-none (x ∷ xs) zero h = absurd (omega (arith, h))
  get_elem?-none (x ∷ xs) (suc i) h = get_elem?-none xs i (omega (arith, h))

  pub get_or-set_self :
      (d : A) (xs : List A) (i : ℕ) (v : A) → i < length xs → get_or (set xs i v) i d ≡ v
  get_or-set_self d [] i v h = elim h [ ]
  get_or-set_self d (x ∷ xs) zero v h = refl
  get_or-set_self d (x ∷ xs) (suc i) v h = get_or-set_self d xs i v (omega arith)

  pub get_or-set_ne :
      (d : A) (xs : List A) (i k : ℕ) (v : A)
      → (k == i) ≡ false
      → get_or (set xs i v) k d ≡ get_or xs k d
  get_or-set_ne d [] i k v h = refl
  get_or-set_ne d (x ∷ xs) zero zero v h = absurd (ground arith)
  get_or-set_ne d (x ∷ xs) zero (suc k) v h = refl
  get_or-set_ne d (x ∷ xs) (suc i) zero v h = refl
  get_or-set_ne d (x ∷ xs) (suc i) (suc k) v h = get_or-set_ne d xs i k v (ground arith)

  -- A write that keeps what `g` reads keeps it at every place.
  pub get_or-set_keep {κ} :
      {B : Type κ} (g : A → B) (f : A → A) (d : A) (xs : List A) (i k : ℕ)
      → ((x : A) → g (f x) ≡ g x)
      → g (get_or (set xs i (f (get_or xs i d))) k d) ≡ g (get_or xs k d)
  get_or-set_keep g f d [] i k h = refl
  get_or-set_keep g f d (x ∷ xs) zero zero h = h x
  get_or-set_keep g f d (x ∷ xs) zero (suc k) h = refl
  get_or-set_keep g f d (x ∷ xs) (suc i) zero h = refl
  get_or-set_keep g f d (x ∷ xs) (suc i) (suc k) h = get_or-set_keep g f d xs i k h

  pub get_or-set_both {κ} :
      (P : A → Type κ) (d : A) (xs : List A) (i k : ℕ) (v : A)
      → P v
      → P (get_or xs k d)
      → P (get_or (set xs i v) k d)
  get_or-set_both P d [] i k v a b = b
  get_or-set_both P d (x ∷ xs) zero zero v a b = a
  get_or-set_both P d (x ∷ xs) zero (suc k) v a b = b
  get_or-set_both P d (x ∷ xs) (suc i) zero v a b = b
  get_or-set_both P d (x ∷ xs) (suc i) (suc k) v a b = get_or-set_both P d xs i k v a b

  pub get_or-push_both {κ} :
      (P : A → Type κ) (d : A) (xs : List A) (k : ℕ) (v : A)
      → P v
      → P d
      → P (get_or xs k d)
      → P (get_or (push xs v) k d)
  get_or-push_both P d [] zero v a b c = a
  get_or-push_both P d [] (suc k) v a b c = b
  get_or-push_both P d (x ∷ xs) zero v a b c = c
  get_or-push_both P d (x ∷ xs) (suc k) v a b c = get_or-push_both P d xs k v a b c
