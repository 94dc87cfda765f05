-- ===== src/Tty/Loops.antt =====
-- The calls for each tab, on a property of the page.
use genie_tangle.Tty.Sizes.{each}
use genie_tangle.Tty.State.{frame_of, Tty, for_some}
use genie_tangle.Prelude.{some, Option, get_elem?, none, zero, suc, ℕ}

pub for_some-keeps :
    (P : Tty → Type 0) (f : ℕ → Tty → Tty) (o : Option ℕ) (p : Tty)
    → ((j : ℕ) (q : Tty) → P q → P (f j q))
    → P p
    → P (for_some f o p)
for_some-keeps P f none p k h = h
for_some-keeps P f (some j) p k h = k j p h

pub each-keeps :
    (P : Tty → Type 0) (f : ℕ → Tty → Tty) (w n : ℕ) (p : Tty)
    → ((j : ℕ) (q : Tty) → P q → P (f j q))
    → P p
    → P (each f w n p)
unfolding each
each-keeps P f w zero p k h = h
each-keeps P f w (suc n) p k h =
    each-keeps P f w n _ k (for_some-keeps P f (get_elem? (frame_of w p).inner.tabs n) p k h)
