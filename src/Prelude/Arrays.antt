-- ===== src/Prelude/Arrays.antt =====
-- The array operations of JavaScript that the sources use, on lists.
use Prim.Native.Nat.{ℕ, zero, suc, ◌+◌, ◌-◌, ◌<◌, ◌≤◌}
use mathlib.Core.Path.{◌≡◌, refl, ap, ◌∙◌}
use mathlib.Core.List.{List, [], ◌∷◌, ◌++◌}
use native.Mathlib.Omega.{arith}
use genie_tangle.Prelude.Tests.{◌==◌, if◌then◌else◌}
use genie_tangle.Prelude.Lists.{length, drop, take, length-drop}

module _ {ℓ} {A : Type ℓ} where
  -- `xs.splice(i, 0, v)`: an index past the end inserts at the end.
  unfoldable pub insert_at : List A → ℕ → A → List A
  insert_at xs zero v = v ∷ xs
  insert_at [] (suc i) v = v ∷ []
  insert_at (x ∷ xs) (suc i) v = x ∷ insert_at xs i v

  -- `xs.splice(i, 1)`: an index past the end removes nothing.
  unfoldable pub erase_at : List A → ℕ → List A
  erase_at [] i = []
  erase_at (x ∷ xs) zero = xs
  erase_at (x ∷ xs) (suc i) = x ∷ erase_at xs i

  -- `xs.pop()`, whose result is not used.
  unfoldable pub pop : List A → List A
  pop [] = []
  pop (x ∷ []) = []
  pop (x ∷ y ∷ xs) = x ∷ pop (y ∷ xs)

  -- `xs.push(v)`.
  abbrev pub push : List A → A → List A
  push xs v = xs ++ (v ∷ [])

  -- `xs.slice(-n)`: all of the array for n = 0, and where it is no longer than n.
  unfoldable pub slice_last : ℕ → List A → List A
  slice_last n xs = if n == 0 then xs else drop (length xs - n) xs

  -- `xs[i] = v`: past the end the places between are `hole`, which reads as `undefined`.
  unfoldable pub assign : A → List A → ℕ → A → List A
  assign hole [] zero v = v ∷ []
  assign hole [] (suc i) v = hole ∷ assign hole [] i v
  assign hole (x ∷ xs) zero v = v ∷ xs
  assign hole (x ∷ xs) (suc i) v = x ∷ assign hole xs i v

  pub length-insert_at : (xs : List A) (i : ℕ) (v : A) → length (insert_at xs i v) ≡ suc (length xs)
  unfolding insert_at
  length-insert_at xs zero v = refl
  length-insert_at [] (suc i) v = refl
  length-insert_at (x ∷ xs) (suc i) v = ap suc (length-insert_at xs i v)

  pub length-erase_at :
      (xs : List A) (i : ℕ) → i < length xs → suc (length (erase_at xs i)) ≡ length xs
  unfolding erase_at
  length-erase_at [] i h = elim h [ ]
  length-erase_at (x ∷ xs) zero h = refl
  length-erase_at (x ∷ xs) (suc i) h = ap suc (length-erase_at xs i (omega arith))

  -- At most one element goes.
  pub length-le-erase_at : (xs : List A) (i : ℕ) → length xs ≤ suc (length (erase_at xs i))
  unfolding erase_at
  length-le-erase_at [] i = omega arith
  length-le-erase_at (x ∷ xs) zero = omega arith
  length-le-erase_at (x ∷ xs) (suc i) = omega (arith, length-le-erase_at xs i)

  pub length-pop : (xs : List A) → length (pop xs) ≡ length xs - 1
  unfolding pop
  length-pop [] = omega arith
  length-pop (x ∷ []) = omega arith
  length-pop (x ∷ y ∷ xs) = omega (arith, length-pop (y ∷ xs))

  pub length-slice_last :
      (n : ℕ) (xs : List A) → 0 < n → n ≤ length xs → length (slice_last n xs) ≡ n
  unfolding slice_last
  length-slice_last n xs h k = ground (arith, length-drop (length xs - n) xs)

  -- An assignment never shortens, and reaches its index.
  pub length-assign :
      (hole : A) (xs : List A) (i : ℕ) (v : A)
      → (length xs ≤ length (assign hole xs i v)) × (i < length (assign hole xs i v))
  unfolding assign
  length-assign hole [] zero v = omega arith
  length-assign hole [] (suc i) v = omega (arith, length-assign hole [] i v)
  length-assign hole (x ∷ xs) zero v = omega arith
  length-assign hole (x ∷ xs) (suc i) v = omega (arith, length-assign hole xs i v)

  -- Within the array an assignment keeps the length.
  pub length-assign_within :
      (hole : A) (xs : List A) (i : ℕ) (v : A)
      → i < length xs
      → length (assign hole xs i v) ≡ length xs
  unfolding assign
  length-assign_within hole [] i v h = elim h [ ]
  length-assign_within hole (x ∷ xs) zero v h = refl
  length-assign_within hole (x ∷ xs) (suc i) v h =
      ap suc (length-assign_within hole xs i v (omega arith))

  -- At the end and past it an assignment sets the length.
  pub length-assign_past :
      (hole : A) (xs : List A) (i : ℕ) (v : A) → length xs ≤ i → length (assign hole xs i v) ≡ suc i
  unfolding assign
  length-assign_past hole [] zero v h = refl
  length-assign_past hole [] (suc i) v h = ap suc (length-assign_past hole [] i v (omega arith))
  length-assign_past hole (x ∷ xs) zero v h = absurd (omega (arith, h))
  length-assign_past hole (x ∷ xs) (suc i) v h =
      ap suc (length-assign_past hole xs i v (omega (arith, h)))

  -- Below the index that `splice` works at, and behind it.
  pub drop-insert_at :
      (k : ℕ) (xs : List A) (i : ℕ) (v : A)
      → k + i ≤ length xs
      → drop k (insert_at xs (k + i) v) ≡ insert_at (drop k xs) i v
  unfolding insert_at
  drop-insert_at zero xs i v h =
      let e : zero + i ≡ i = omega arith in ap (λ (t : ℕ). insert_at xs t v) e
  drop-insert_at (suc k) [] i v h = absurd (omega arith)
  drop-insert_at (suc k) (x ∷ xs) i v h =
      let e : suc k + i ≡ suc (k + i) = omega arith in
      ap (λ (t : ℕ). drop (suc k) (insert_at (x ∷ xs) t v)) e
      ∙ drop-insert_at k xs i v (omega arith)

  pub drop-erase_at :
      (k : ℕ) (xs : List A) (i : ℕ) → drop k (erase_at xs (k + i)) ≡ erase_at (drop k xs) i
  unfolding erase_at
  drop-erase_at zero xs i = let e : zero + i ≡ i = omega arith in ap (λ (t : ℕ). erase_at xs t) e
  drop-erase_at (suc k) [] i = refl
  drop-erase_at (suc k) (x ∷ xs) i =
      let e : suc k + i ≡ suc (k + i) = omega arith in
      ap (λ (t : ℕ). drop (suc k) (erase_at (x ∷ xs) t)) e ∙ drop-erase_at k xs i

  pub drop-drop : (j k : ℕ) (xs : List A) → drop j (drop k xs) ≡ drop (k + j) xs
  drop-drop j zero xs = let e : j ≡ zero + j = omega arith in ap (λ (t : ℕ). drop t xs) e
  drop-drop zero (suc k) [] = let e : suc k + zero ≡ suc k = omega arith in rw e refl
  drop-drop (suc j) (suc k) [] = let e : suc k + suc j ≡ suc (k + suc j) = omega arith in rw e refl
  drop-drop j (suc k) (x ∷ xs) =
      let e : suc (k + j) ≡ suc k + j = omega arith in
      drop-drop j k xs ∙ ap (λ (t : ℕ). drop t (x ∷ xs)) e

  -- Removing at `i` and inserting at `j` commute to the right of `i`.
  pub erase_at-insert_at :
      (xs : List A) (i j : ℕ) (v : A)
      → i ≤ j
      → i < length xs
      → erase_at (insert_at xs (suc j) v) i ≡ insert_at (erase_at xs i) j v
  unfolding insert_at erase_at
  erase_at-insert_at [] i j v h k = elim k [ ]
  erase_at-insert_at (x ∷ xs) zero j v h k = refl
  erase_at-insert_at (x ∷ xs) (suc i) zero v h k = absurd (omega arith)
  erase_at-insert_at (x ∷ xs) (suc i) (suc j) v h k =
      ap (x ∷◌) (erase_at-insert_at xs i j v (omega arith) (omega arith))

  -- The places below the index stay.
  pub take-insert_at :
      (k : ℕ) (xs : List A) (i : ℕ) (v : A)
      → k ≤ length xs
      → take k (insert_at xs (k + i) v) ≡ take k xs
  unfolding insert_at
  take-insert_at zero xs i v h = refl
  take-insert_at (suc k) [] i v h = absurd (omega arith)
  take-insert_at (suc k) (x ∷ xs) i v h =
      let e : suc k + i ≡ suc (k + i) = omega arith in
      ap (λ (t : ℕ). take (suc k) (insert_at (x ∷ xs) t v)) e
      ∙ ap (x ∷◌) (take-insert_at k xs i v (omega arith))

  pub take-erase_at : (k : ℕ) (xs : List A) (i : ℕ) → take k (erase_at xs (k + i)) ≡ take k xs
  unfolding erase_at
  take-erase_at zero xs i = refl
  take-erase_at (suc k) [] i = refl
  take-erase_at (suc k) (x ∷ xs) i =
      let e : suc k + i ≡ suc (k + i) = omega arith in
      ap (λ (t : ℕ). take (suc k) (erase_at (x ∷ xs) t)) e ∙ ap (x ∷◌) (take-erase_at k xs i)

  pub take-suc : (k : ℕ) (xs : List A) → take (suc k) xs ≡ take k xs ++ take 1 (drop k xs)
  take-suc zero xs = refl
  take-suc (suc k) [] = refl
  take-suc (suc k) (x ∷ xs) = ap (x ∷◌) (take-suc k xs)

  pub insert_at_end : (xs : List A) (v : A) → insert_at xs (length xs) v ≡ push xs v
  unfolding insert_at
  insert_at_end [] v = refl
  insert_at_end (x ∷ xs) v = ap (x ∷◌) (insert_at_end xs v)

  pub erase_at_zero : (xs : List A) → erase_at xs 0 ≡ drop 1 xs
  unfolding erase_at
  erase_at_zero [] = refl
  erase_at_zero (x ∷ xs) = refl
