-- ===== src/Terminal/Sequences/Chunks.antt =====
-- The loop of `write` over a text that comes in parts.
use genie_tangle.Terminal.State.{Terminal}
use genie_tangle.Terminal.Write.{step, feed}
use genie_tangle.Prelude.{
  true, ◌++◌, fault, ok, false, ◌≡◌, Outcome, ◌>>=◌, Bool, ℕ, [], refl, List, ◌∷◌,
}

-- The loop over two texts is the loop over the first and then, from the state and the skip that it
-- ends in, over the second; where the first faults, so does the whole.
feed-append :
    (skip : Bool) (xs ys : List ℕ) (t : Terminal)
    → feed skip (xs ++ ys) t ≡ (feed skip xs t >>= λ r. feed (r.1) ys (r.0))
unfolding feed
feed-append skip [] ys t = refl
feed-append true (x ∷ xs) ys t = feed-append false xs ys t
feed-append false (x ∷ xs) ys t = go (step x t) (λ u b. feed-append b xs ys u)
  where
    go :
        (m : Outcome (Terminal × Bool))
        → ((u : Terminal) (b : Bool)
            → feed b (xs ++ ys) u ≡ (feed b xs u >>= λ r. feed (r.1) ys (r.0)))
        → (m >>= λ r. feed (r.1) (xs ++ ys) (r.0))
          ≡ ((m >>= λ r. feed (r.1) xs (r.0)) >>= λ r. feed (r.1) ys (r.0))
    go (ok r) h = h r.0 r.1
    go (fault e) h = refl

-- One step that skips nothing, then the rest.
pub feed-step :
    (ch : ℕ) (chs : List ℕ) (t u : Terminal)
    → step ch t ≡ ok (u, false)
    → feed false (ch ∷ chs) t ≡ feed false chs u
unfolding feed
feed-step ch chs t u e = rw e refl
