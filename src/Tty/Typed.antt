-- ===== src/Tty/Typed.antt =====
-- What a key sends to the server.
use genie_tangle.Terminal.{repaint, show_cursor, refresh, output, Terminal, Effect}
use genie_tangle.Screen.Scroll.{scroll_disp_down, scroll_disp_up}
use genie_tangle.Tty.Output.{hand_on, tab_key_down, perform_all, run_tab}
use genie_tangle.Terminal.Keys.{
  key_action, KeyEvent, act, typed, key_down, view_down, view_up, untyped, hand_over, KeyAction,
}
use genie_tangle.Tty.State.{no_tab, input, on_term, Message, Tty, Tab, tab_of}
use genie_tangle.Prelude.{
  ap, ◌∙◌, ℕ, if-true, if-false, Bool-cases, ◌-◌, push, drop, false, get_or-set_keep, Bool, length,
  ◌++◌, List, Ends, append_assoc, [], inl, append-nil, refl, inr, true, ◌∷◌, ◌≡◌, sym,
}

drop-append : {A : Type 0} (xs ys : List A) → drop (length xs) (xs ++ ys) ≡ ys
drop-append [] ys = refl
drop-append (x ∷ xs) ys = drop-append xs ys

-- The messages of a key.
abbrev pub messages : List ℕ → KeyAction → List Message
messages id (typed text) = input id text ∷ []
messages id (view_up n) = []
messages id (view_down n) = []
messages id untyped = []

module _ (i : ℕ) (p : Tty) (live : (tab_of i p).destroyed ≡ false) where
  abbrev put : Terminal → Tty
  put u = on_term i (λ _. u) p

  same_id : (u : Terminal) → (tab_of i (put u)).id ≡ (tab_of i p).id
  same_id u =
      get_or-set_keep (λ (t : Tab). t.id) (λ t. record t { term = u }) no_tab p.tabs i i (λ t. refl)

  still_live : (u : Terminal) → (tab_of i (put u)).destroyed ≡ false
  still_live u =
      get_or-set_keep (λ (t : Tab). t.destroyed) (λ t. record t { term = u }) no_tab p.tabs i i
        (λ t. refl)
      ∙ live

  handed_on :
      (text : List ℕ) (u : Terminal)
      → (hand_on text i (put u)).published ≡ p.published ++ (input (tab_of i p).id text ∷ [])
  handed_on text u =
      ap (λ (q : Tty). q.published) (if-false (tab_of i (put u)).destroyed (put u) _ (still_live u))
      ∙ ap (λ (d : List ℕ). p.published ++ (input d text ∷ [])) (same_id u)

  -- A run that adds the calls `es`.
  abbrev run_published : Terminal → List Message
  run_published u =
      (perform_all (drop (length (tab_of i p).term.io.effects) u.io.effects) i (put u)).published

  with_calls :
      (u : Terminal) (es : List Effect)
      → u.io.effects ≡ (tab_of i p).term.io.effects ++ es
      → run_published u ≡ (perform_all es i (put u)).published
  with_calls u es e =
      ap
        (λ (fs : List Effect).
          (perform_all (drop (length (tab_of i p).term.io.effects) fs) i (put u)).published)
        e
      ∙ ap (λ (fs : List Effect). (perform_all fs i (put u)).published)
          (drop-append (tab_of i p).term.io.effects es)

  act-published :
      (a : KeyAction)
      → run_published (act a (tab_of i p).term) ≡ p.published ++ messages (tab_of i p).id a
  unfolding act refresh perform_all hand_over show_cursor
  act-published (view_up n) =
      with_calls _ (repaint 0 ((scroll_disp_up n (tab_of i p).term.scr).rows - 1) ∷ []) refl
      ∙ sym (append-nil p.published)
  act-published (view_down n) =
      with_calls _ (repaint 0 ((scroll_disp_down n (tab_of i p).term.scr).rows - 1) ∷ []) refl
      ∙ sym (append-nil p.published)
  act-published (typed text) =
      let t = (tab_of i p).term in
      let add = λ (u : Terminal). push u.io.effects (output text) in
      let shown = refresh t.scr.y t.scr.y (record t { cursor_state = true }) in
      elim (Bool-cases t.cursor_state) [
        | inl e ↦
            with_calls (hand_over text t) (output text ∷ [])
              (ap add (if-true t.cursor_state t shown e))
            ∙ handed_on text (hand_over text t)
        | inr e ↦
            with_calls (hand_over text t) (repaint t.scr.y t.scr.y ∷ output text ∷ []) (
              ap add (if-false t.cursor_state t shown e)
              ∙ append_assoc t.io.effects (repaint t.scr.y t.scr.y ∷ []) (output text ∷ []))
            ∙ handed_on text (hand_over text t)
      ]
  act-published untyped =
      with_calls (tab_of i p).term [] (sym (append-nil (tab_of i p).term.io.effects))
      ∙ sym (append-nil p.published)

-- A key, in a tab that is not destroyed, publishes for the server just the text that the key types, under
-- the id of this tab, behind what was published before; a key that only scrolls publishes nothing.
pub tab_key_down-published :
    (mac : Bool) (ev : KeyEvent) (i : ℕ) (p : Tty)
    → (tab_of i p).destroyed ≡ false
    → Ends
        (λ q.
          q.published
          ≡ p.published ++ messages (tab_of i p).id (key_action mac ev (tab_of i p).term))
        (tab_key_down mac ev i p)
unfolding tab_key_down run_tab key_down
tab_key_down-published mac ev i p live =
    act-published i p live (key_action mac ev (tab_of i p).term)
