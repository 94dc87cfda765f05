-- ===== src/Tty/Replies.antt =====
-- Callbacks, and the replies to their names.

use genie_tangle.Tty.Callbacks.{fayep, fayec, forget, callback_at, Callbacks}
use genie_tangle.Prelude.{
  false, ℕ, ◌≡◌, inl, ◌==◌, none, Bool-cases, [], ◌<◌, inr, if-both, some, All, suc, ◌∷◌, List,
  arith, refl, true, ◌∙◌, if◌then◌else◌, if◌then◌else◌, if◌then◌else◌,
}

-- The names that wait were given out.
abbrev pub IsFresh : Callbacks → Type 0
IsFresh r = All (λ n. n.0 < r.next) r.waiting

waiting-weaken : (n : ℕ) (rs : List (ℕ × ℕ)) → All (λ k. k.0 < n) rs → All (λ k. k.0 < suc n) rs
waiting-weaken n [] h = tt
waiting-weaken n (r ∷ rs) (h, hs) = (omega (arith, h), waiting-weaken n rs hs)

callback_at-forget : (name : ℕ) (rs : List (ℕ × ℕ)) → callback_at name (forget name rs) ≡ none
unfolding callback_at forget
callback_at-forget name [] = refl
callback_at-forget name (r ∷ rs) = elim (Bool-cases (r.0 == name)) [
  | inl e ↦ rw e (callback_at-forget name rs)
  | inr e ↦ rw (e, callback_at, e) (callback_at-forget name rs)
]

callback_at-other :
    (other name : ℕ) (rs : List (ℕ × ℕ))
    → (other == name) ≡ false
    → callback_at other (forget name rs) ≡ callback_at other rs
unfolding callback_at forget
callback_at-other other name [] h = refl
callback_at-other other name (r ∷ rs) h = elim (Bool-cases (r.0 == name)) [
  | inl e ↦
      let d : (r.0 == other) ≡ false = ground arith in rw (e, d) (callback_at-other other name rs h)
  | inr e ↦ rw (e, callback_at-other other name rs h) refl
]

forget-IsFresh :
    (n name : ℕ) (rs : List (ℕ × ℕ)) → All (λ k. k.0 < n) rs → All (λ k. k.0 < n) (forget name rs)
unfolding forget
forget-IsFresh n name [] h = tt
forget-IsFresh n name (r ∷ rs) (h, hs) =
    let rest = forget-IsFresh n name rs hs in
    if-both (All (λ k. k.0 < n)) (r.0 == name) rest (h, rest)

-- Registrations and replies, in the order in which they come.
pub data Call : Type 0 where
  registers replies : ℕ → Call

abbrev pub run_calls : List Call → Callbacks → Callbacks
run_calls [] r = r
run_calls (registers callback ∷ cs) r = run_calls cs (fayep callback r).1
run_calls (replies name ∷ cs) r = run_calls cs (fayec name r).1

-- None of the replies is to the name.
abbrev pub Spares : ℕ → List Call → Type 0
Spares name [] = Unit {0}
Spares name (registers callback ∷ cs) = Spares name cs
Spares name (replies other ∷ cs) = ((name == other) ≡ false) × Spares name cs

-- The callback waits under the name, and the names that wait were given out.
abbrev Waits : ℕ → ℕ → Callbacks → Type 0
Waits name callback r = IsFresh r × (name < r.next) × (callback_at name r.waiting ≡ some callback)

fresh-none : (n : ℕ) (rs : List (ℕ × ℕ)) → All (λ k. k.0 < n) rs → callback_at n rs ≡ none
unfolding callback_at
fresh-none n [] h = refl
fresh-none n (r ∷ rs) (h, hs) =
    let d : (r.0 == n) ≡ false = ground arith in rw d (fresh-none n rs hs)

run_calls-Waits :
    (cs : List Call) (name callback : ℕ) (r : Callbacks)
    → Spares name cs
    → Waits name callback r
    → Waits name callback (run_calls cs r)
unfolding fayep fayec callback_at
run_calls-Waits [] name callback r s w = w
run_calls-Waits (registers c ∷ cs) name callback r s (f, b, e) =
    let d : (r.next == name) ≡ false = ground arith in
    run_calls-Waits cs name callback _ s
      ((omega arith, waiting-weaken r.next r.waiting f), omega (arith, b), rw d e)
run_calls-Waits (replies n ∷ cs) name callback r (d, s) (f, b, e) =
    run_calls-Waits cs name callback _ s
      (forget-IsFresh r.next n r.waiting f, b, callback_at-other name n r.waiting d ∙ e)

-- Where the names that wait were given out before, a callback is registered under a name that does not
-- wait. After any registrations and any replies to other names, the reply to this name gets just
-- this callback, and the next one to it gets none; a reply to another name gets what it would have
-- got before, and the names that wait are still some that were given out.
pub fayec-once :
    (callback other : ℕ) (calls : List Call) (r : Callbacks)
    → IsFresh r
    → Spares r.next calls
    → let (name, r1) = fayep callback r in
      let r2 = run_calls calls r1 in
      let (called, r3) = fayec name r2 in
      (callback_at name r.waiting ≡ none)
      × (called ≡ some callback)
      × IsFresh r3
      × ((fayec other r3).0 ≡ (if other == name then none else (fayec other r2).0))
unfolding fayep fayec
fayec-once callback other calls r h s =
    let self : (r.next == r.next) ≡ true = ground arith in
    let r1 = (fayep callback r).1 in
    let r2 = run_calls calls r1 in
    let first : callback_at r.next r1.waiting ≡ some callback =
      unfold callback_at in rw self refl in
    let (f, b, e) =
      run_calls-Waits calls r.next callback r1 s
        ((omega arith, waiting-weaken r.next r.waiting h), omega arith, first) in
    (
      fresh-none r.next r.waiting h,
      e,
      forget-IsFresh r2.next r.next r2.waiting f,
      elim (Bool-cases (other == r.next)) [
        | inl q ↦
            let d : other ≡ r.next = ground arith in
            rw (q, d) (callback_at-forget r.next r2.waiting)
        | inr q ↦ rw q (callback_at-other other r.next r2.waiting q)
      ],
    )
