-- ===== src/Tty/Registered.antt =====
-- The registry of terminals, after `ready` and after `destroy`.

use genie_tangle.Windows.{splice}
use genie_tangle.Tty.Socket.{failed_at, receive_at, publish_failed, receive}
use genie_tangle.Tty.Loops.{for_some-keeps, each-keeps}
use genie_tangle.Tty.Output.{tab_write}
use genie_tangle.Tty.Titles.{connected}
use genie_tangle.Tty.Ending.{tab_destroy, destroy_with, first_window, take_out, window_destroy}
use genie_tangle.Tty.Focus.{window_focus}
use genie_tangle.Tty.Making.{register, ready, registered, unregister}
use genie_tangle.Tty.Sizes.{tab_resize, each_tab, minimize, window_resize, minimize_to}
use genie_tangle.Tty.State.{publish, killed, Tty, on_frame, frame_of, tab_of}
use genie_tangle.Tty.Stays.{
  Stays, window_focus_tab-Stays, named-Stays, window_focus-Stays, Stays-refl,
}
use genie_tangle.Prelude.{
  true, arith, refl, text_eq, codes, ◌==◌, ℕ, type_error, [], some, inl, ◌∙◌, Bool-cases, sym,
  if-both, false, Option, inr, ap, List, fault, ok, subst, is_empty, if-false, ◌∷◌, ◌≡◌, none,
}

text_eq_refl : (a : List ℕ) → text_eq a a ≡ true
text_eq_refl [] = refl
text_eq_refl (c ∷ cs) = let e : (c == c) ≡ true = ground arith in rw (e, text_eq_refl cs) refl

text_eq-eq : (a b : List ℕ) → text_eq a b ≡ true → a ≡ b
text_eq-eq [] [] e = refl
text_eq-eq [] (d ∷ ds) e = cc
text_eq-eq (c ∷ cs) [] e = cc
text_eq-eq (c ∷ cs) (d ∷ ds) e = ground (arith, text_eq-eq cs ds)

registered-register :
    (id : List ℕ) (i : ℕ) (terms : List (List ℕ × ℕ)) → registered id (register id i terms) ≡ some i
unfolding registered register
registered-register id i [] = rw (text_eq_refl id) refl
registered-register id i ((other, j) ∷ terms) = elim (Bool-cases (text_eq other id)) [
  | inl e ↦ rw (e, registered, text_eq_refl id) refl
  | inr e ↦ rw (e, registered, e) (registered-register id i terms)
]

registered-unregister :
    (id : List ℕ) (terms : List (List ℕ × ℕ)) → registered id (unregister id terms) ≡ none
unfolding registered unregister
registered-unregister id [] = refl
registered-unregister id ((other, j) ∷ terms) = elim (Bool-cases (text_eq other id)) [
  | inl e ↦ rw e (registered-unregister id terms)
  | inr e ↦ rw (e, registered, e) (registered-unregister id terms)
]

-- An id that is not registered stays so when another one goes.
unregister-none :
    (id gone : List ℕ) (terms : List (List ℕ × ℕ))
    → registered id terms ≡ none
    → registered id (unregister gone terms) ≡ none
unfolding registered unregister
unregister-none id gone [] h = refl
unregister-none id gone ((other, j) ∷ terms) h = elim (Bool-cases (text_eq other id)) [
  | inl e ↦ let n : some j ≡ none = rw e at h in cc
  | inr e ↦
      let n : registered id terms ≡ none = rw e at h in
      let rest = unregister-none id gone terms n in
      elim (Bool-cases (text_eq other gone)) [
        | inl f ↦ rw f rest
        | inr f ↦ rw (f, registered, e) rest
      ]
]

-- The id is not registered.
abbrev IsGone : List ℕ → Tty → Type 0
IsGone id p = registered id p.terms ≡ none

Stays-IsGone : (id : List ℕ) {p q : Tty} → Stays p q → IsGone id p → IsGone id q
Stays-IsGone id h g = rw h.same_terms g

minimize-IsGone : (id : List ℕ) (w : ℕ) (p : Tty) → IsGone id p → IsGone id (minimize w p)
unfolding minimize window_resize each_tab tab_resize
minimize-IsGone id w p h = minimized (frame_of w p).minimize
  where
    minimized : (o : Option (ℕ × ℕ)) → IsGone id (minimize_to o w p)
    minimized none = h
    minimized (some m) = each-keeps (IsGone id) (tab_resize (m.0) (m.1)) w _ _ (λ j q g. g) h

take_out-IsGone : (id : List ℕ) (i : ℕ) (p : Tty) → IsGone id p → IsGone id (take_out i p)
unfolding take_out
take_out-IsGone id i p h =
    let w = (tab_of i p).window in
    let g = unregister-none id (tab_of i p).id p.terms h in
    if-both (IsGone id) _ (Stays-IsGone id (window_focus_tab-Stays false w _) g) g

own_id-IsGone : (i : ℕ) (p : Tty) → IsGone (tab_of i p).id (take_out i p)
unfolding take_out
own_id-IsGone i p =
    let id = (tab_of i p).id in
    let w = (tab_of i p).window in
    let g = registered-unregister id p.terms in
    if-both (IsGone id) _ (Stays-IsGone id (window_focus_tab-Stays false w _) g) g

destroy_with-IsGone :
    (id : List ℕ) (close : ℕ → Tty → Tty) (i : ℕ) (p : Tty)
    → ((w : ℕ) (q : Tty) → IsGone id q → IsGone id (close w q))
    → IsGone id p
    → IsGone id (destroy_with close i p)
destroy_with-IsGone id close i p k h =
    let q = take_out i (publish (killed (tab_of i p).id) p) in
    let g = take_out-IsGone id i (publish (killed (tab_of i p).id) p) h in
    if-both (IsGone id) (tab_of i p).destroyed h (
      if-both (IsGone id) (is_empty (frame_of (tab_of i p).window q).inner.tabs)
        (k (tab_of i p).window q g) g)

window_destroy-IsGone :
    (id : List ℕ) (w : ℕ) (p : Tty) → IsGone id p → IsGone id (window_destroy w p)
unfolding window_destroy each_tab
window_destroy-IsGone id w p h =
    let q = minimize w (on_frame w (λ f. record f { closed = true }) p) in
    let g = minimize-IsGone id w (on_frame w (λ f. record f { closed = true }) p) h in
    let r = first_window (record q { windows = splice q.windows w }) in
    if-both (IsGone id) (frame_of w p).closed h (
      each-keeps (IsGone id) (destroy_with (λ _ s. s)) w _ r
        (λ j s k. destroy_with-IsGone id (λ _ s. s) j s (λ v u m. m) k)
        (for_some-keeps (IsGone id) window_focus _ (record q { windows = splice q.windows w })
          (λ j s k. Stays-IsGone id (window_focus-Stays j s) k) g))

connected-Stays : (i : ℕ) (p : Tty) → Stays p (connected i p)
unfolding connected
connected-Stays i p =
    if-both (Stays p) (tab_of i p).destroyed (Stays-refl p)
      (if-both (Stays p) (tab_of i p).pty (named-Stays (codes "Connected") i p) (Stays-refl p))

ready-registered : (id : List ℕ) (i : ℕ) (p : Tty) → registered id (ready id i p).terms ≡ some i
unfolding ready
ready-registered id i p =
    ap (registered id) (connected-Stays i _).same_terms ∙ registered-register id i p.terms

tab_destroy-IsGone :
    (j : ℕ) (p : Tty) → (tab_of j p).destroyed ≡ false → IsGone (tab_of j p).id (tab_destroy j p)
unfolding tab_destroy
tab_destroy-IsGone j p e =
    let id = (tab_of j p).id in
    let w = (tab_of j p).window in
    let q = take_out j (publish (killed id) p) in
    let g = own_id-IsGone j (publish (killed id) p) in
    subst (IsGone id) (sym (if-false (tab_of j p).destroyed p _ e))
      (if-both (IsGone id) (is_empty (frame_of w q).inner.tabs) (window_destroy-IsGone id w q g) g)

-- What the server sends for an id goes to the tab that became ready with it last. Once a tab that was not
-- destroyed before is destroyed, whatever else its end destroys, what comes for its id changes
-- nothing.
pub receive-registered :
    (id text : List ℕ) (i j : ℕ) (p : Tty)
    → (tab_of j p).destroyed ≡ false
    → (receive id text (ready id i p) ≡ tab_write text i (ready id i p))
      × (receive (tab_of j p).id text (tab_destroy j p) ≡ ok (tab_destroy j p))
unfolding receive
receive-registered id text i j p e = (
  ap (λ (o : Option ℕ). receive_at o text (ready id i p)) (ready-registered id i p),
  ap (λ (o : Option ℕ). receive_at o text (tab_destroy j p)) (tab_destroy-IsGone j p e),
)

-- A publication that fails after its tab was destroyed throws: the handler of the failure takes for
-- granted that the tab is still registered.
pub publish_failed-fault :
    (j : ℕ) (p : Tty)
    → (tab_of j p).destroyed ≡ false
    → publish_failed (tab_of j p).id (tab_destroy j p) ≡ fault type_error
unfolding publish_failed
publish_failed-fault j p e =
    ap (λ (o : Option ℕ). failed_at o (tab_destroy j p)) (tab_destroy-IsGone j p e)
