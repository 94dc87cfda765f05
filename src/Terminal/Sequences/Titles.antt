-- ===== src/Terminal/Sequences/Titles.antt =====
-- OSC: the title that a string sets.
use genie_tangle.Terminal.Esc.{escape_of, run_escape}
use genie_tangle.Terminal.Sequences.Params.{escape_step}
use genie_tangle.Terminal.Sequences.Chunks.{feed-step}
use genie_tangle.Terminal.State.{State, retitle, Terminal, effect, set_state}
use genie_tangle.Terminal.Strings.{run_osc, is_end, set_title, end_osc}
use genie_tangle.Terminal.Write.{step, feed, step_in}
use genie_tangle.Prelude.{
  ℕ, refl, List, ok, All, ◌+◌, ◌∷◌, ◌≡◌, ◌≤◌, false, push, append_assoc, append-nil, ◌++◌, [], ◌∙◌,
  is_digit, true, ◌<◌, leb, ◌-◌, arith, ◌*◌,
}

-- The parser in an OSC behind its number and the `;`, with the text so far.
abbrev in_title : ℕ → List ℕ → Terminal → Terminal
in_title n text t = record t {
  parser = record (t.parser) {
    state = State.osc;
    params = n ∷ [];
    current_param = n;
    current_text = text;
  };
}

-- No character that ends a string.
abbrev pub IsTitle : List ℕ → Type 0
IsTitle text = All (λ ch. is_end ch ≡ false) text

title_char :
    (n ch : ℕ) (text : List ℕ) (t : Terminal)
    → is_end ch ≡ false
    → step ch (in_title n text t) ≡ ok (in_title n (push text ch) t, false)
unfolding step step_in run_osc
title_char n ch text t e = rw e refl

feed-text :
    (n : ℕ) (text more rest : List ℕ) (t : Terminal)
    → IsTitle more
    → feed false (more ++ rest) (in_title n text t) ≡ feed false rest (in_title n (text ++ more) t)
feed-text n text [] rest t h = rw (append-nil text) refl
feed-text n text (c ∷ cs) rest t (h, hs) =
    rw (← append_assoc text (c ∷ []) cs)
      (feed-step c _ _ _ (title_char n c text t h) ∙ feed-text n (push text c) cs rest t hs)

-- The parser in an OSC, in its number.
abbrev in_number : ℕ → Terminal → Terminal
in_number n t = record t {
  parser = record (t.parser) {
    state = State.osc;
    params = [];
    current_param = n;
    current_text = [];
  };
}

osc_open : (t : Terminal) → step b']' (set_state State.escaped t) ≡ ok (in_number 0 t, false)
unfolding step step_in escape_of run_escape
osc_open t = refl

osc_digit :
    (n : ℕ) (t : Terminal) → n < 10 → step (n + 48) (in_number 0 t) ≡ ok (in_number n t, false)
unfolding step step_in run_osc
osc_digit n t h =
    let a : is_end (n + 48) ≡ false = ground arith in
    let b : is_digit (n + 48) ≡ true = ground arith in
    let c : 0 * 10 + (n + 48) - 48 ≡ n = omega arith in rw (a, b, c) refl

osc_semicolon : (n : ℕ) (t : Terminal) → step b';' (in_number n t) ≡ ok (in_title n [] t, false)
unfolding step step_in run_osc
osc_semicolon n t = refl

title_end :
    (n ch : ℕ) (text : List ℕ) (t : Terminal)
    → n ≤ 2
    → feed false (7 ∷ []) (in_title n (ch ∷ text) t)
      ≡ ok (
        record (effect (retitle (ch ∷ text)) t) {
          io = record (t.io) {
            title = ch ∷ text;
            effects = push t.io.effects (retitle (ch ∷ text));
          };
          parser = record (t.parser) {
            state = State.normal;
            params = [];
            current_param = 0;
            current_text = [];
          };
        },
        false,
      )
unfolding feed step step_in run_osc end_osc set_title
title_end n ch text t h = let e : leb n 2 ≡ true = ground arith in rw e refl

-- `ESC ] n ; text BEL` in the state `normal`, for `n` from 0 to 2 and a text that is not empty and
-- has no BEL or ESC, is read without a fault: the title is the text, the page is told, the screen
-- is as it was, and the parser is in `normal` again.
feed-title :
    (n ch : ℕ) (text : List ℕ) (t : Terminal)
    → n ≤ 2
    → t.parser.state ≡ State.normal
    → IsTitle (ch ∷ text)
    → (u : Terminal) × (feed false (27 ∷ b']' ∷ (n + 48) ∷ b';' ∷ ((ch ∷ text) ++ (7 ∷ []))) t
        ≡ ok (u, false))
      × (u.scr ≡ t.scr)
      × (u.io.title ≡ ch ∷ text)
      × (u.io.effects ≡ push t.io.effects (retitle (ch ∷ text)))
      × (u.parser.state ≡ State.normal)
feed-title n ch text t h e w = (
  _,
  feed-step 27 _ t _ (escape_step t e)
      ∙ feed-step b']' _ _ _ (osc_open t)
      ∙ feed-step (n + 48) _ _ _ (osc_digit n t (omega (arith, h)))
      ∙ feed-step b';' _ _ _ (osc_semicolon n t)
      ∙ feed-text n [] (ch ∷ text) (7 ∷ []) t w
      ∙ title_end n ch text t h,
  refl,
  refl,
  refl,
  refl,
)
