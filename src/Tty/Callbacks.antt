-- ===== src/Tty/Callbacks.antt =====
-- `fayep` and `fayec`: callbacks under names of their own, and the replies to them. A reply names
-- a callback by the text that `fayep` gave out; other properties of `window` are left out, which
-- `fayec` would call and delete just the same.
use genie_tangle.Prelude.{
  if◌then◌else◌, some, ◌==◌, none, ◌∷◌, Option, ℕ, [], if◌then◌else◌, if◌then◌else◌, List, suc,
}

-- `callbackID`, and the callbacks on `window`, by the number in their name `callback_…`
pub record Callbacks : Type 0 where
  pub next : ℕ
  pub waiting : List (ℕ × ℕ)

-- `fayep(callback)`: the number of the name, and the registry with it
unfoldable pub fayep : ℕ → Callbacks → ℕ × Callbacks
fayep callback r = (r.next, record { next = suc r.next; waiting = (r.next, callback) ∷ r.waiting })

unfoldable pub callback_at : ℕ → List (ℕ × ℕ) → Option ℕ
callback_at name [] = none
callback_at name ((other, callback) ∷ rs) =
    let rest = callback_at name rs in if other == name then some callback else rest

unfoldable pub forget : ℕ → List (ℕ × ℕ) → List (ℕ × ℕ)
forget name [] = []
forget name ((other, callback) ∷ rs) =
    let rest = forget name rs in if other == name then rest else (other, callback) ∷ rest

-- `fayec(reply)`: the callback that is called, if any, and the registry without it
unfoldable pub fayec : ℕ → Callbacks → Option ℕ × Callbacks
fayec name r = (callback_at name r.waiting, record r { waiting = forget name r.waiting })
