-- ===== src/Screen/Cells/Places.antt =====
-- The cells of a row after `pop`, `splice` and `push`.
use genie_tangle.Screen.Buffer.{hole, Cell, Row}
use genie_tangle.Prelude.{
  erase_at, ◌≤◌, insert_at, ◌≡◌, length, if◌then◌else◌, ◌<◌, ltb, ◌∙◌, suc, if◌then◌else◌, ◌+◌, ℕ,
  push, get_or, ◌∷◌, arith, ◌==◌, refl, [], pop, zero, ◌-◌, if◌then◌else◌,
}

pub get_or-pop : (xs : Row) (k : ℕ) → k + 1 < length xs → get_or (pop xs) k hole ≡ get_or xs k hole
unfolding pop
get_or-pop [] k h = refl
get_or-pop (x ∷ []) k h = absurd (omega (arith, h))
get_or-pop (x ∷ y ∷ xs) zero h = refl
get_or-pop (x ∷ y ∷ xs) (suc k) h = get_or-pop (y ∷ xs) k (omega (arith, h))

pub get_or-insert_at :
    (xs : Row) (i k : ℕ) (v : Cell)
    → i ≤ length xs
    → get_or (insert_at xs i v) k hole
      ≡ (if ltb k i then get_or xs k hole else if k == i then v else get_or xs (k - 1) hole)
unfolding insert_at
get_or-insert_at xs zero zero v h = ground arith
get_or-insert_at xs zero (suc k) v h = ground arith
get_or-insert_at [] (suc i) k v h = absurd (omega (arith, h))
get_or-insert_at (x ∷ xs) (suc i) zero v h = ground arith
get_or-insert_at (x ∷ xs) (suc i) (suc zero) v h =
    get_or-insert_at xs i zero v (omega (arith, h)) ∙ ground arith
get_or-insert_at (x ∷ xs) (suc i) (suc (suc k)) v h =
    get_or-insert_at xs i (suc k) v (omega (arith, h)) ∙ ground arith

pub get_or-erase_at :
    (xs : Row) (i k : ℕ)
    → get_or (erase_at xs i) k hole ≡ (if ltb k i then get_or xs k hole else get_or xs (k + 1) hole)
unfolding erase_at
get_or-erase_at [] i k = ground arith
get_or-erase_at (x ∷ xs) zero k = ground arith
get_or-erase_at (x ∷ xs) (suc i) zero = ground arith
get_or-erase_at (x ∷ xs) (suc i) (suc k) = get_or-erase_at xs i k ∙ ground arith

pub get_or-push :
    (xs : Row) (k : ℕ) (v : Cell)
    → get_or (push xs v) k hole
      ≡ (if ltb k (length xs) then get_or xs k hole else if k == length xs then v else hole)
get_or-push [] zero v = ground arith
get_or-push [] (suc k) v = ground arith
get_or-push (x ∷ xs) zero v = ground arith
get_or-push (x ∷ xs) (suc k) v = get_or-push xs k v ∙ ground arith
