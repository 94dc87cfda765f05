-- ===== src/Terminal/Strings.antt =====
-- The states `osc`, `dcs` and `ignore` of `write`: strings up to ESC \ or BEL. The flag of a
-- result says that the next character is skipped (`i++`).
use genie_tangle.Prelude.{
  ℕ, ◌+◌, ◌-◌, ◌*◌, Bool, false, List, [], ◌∷◌, ◌++◌, leb, ◌==◌, ◌&&◌, ◌||◌, not, if◌then◌else◌,
  length, push, codes, text_eq, is_empty, is_digit, decimal,
}
use genie_tangle.Screen.{first}
use genie_tangle.Terminal.State.{State, Terminal, retitle, effect, set_state, send}
use genie_tangle.Terminal.Csi.{on_parser}

abbrev pub is_end : ℕ → Bool
is_end ch = ch == 27 || ch == 7

-- `params[0]` is 0, 1 or 2, and `params[1]` is a text that is not empty. All other numbers do
-- nothing.
unfoldable pub set_title : Terminal → Terminal
set_title t =
    if leb (first t.parser.params) 2 && not (is_empty t.parser.current_text)
    then effect (retitle t.parser.current_text)
        (record t { io = record (t.io) { title = t.parser.current_text } })
    else t

-- The end of an OSC: the current parameter is pushed; behind a `;` it is the text, else the number,
-- and then there is no `params[1]`.
unfoldable pub end_osc : Terminal → Terminal
end_osc t =
    let u = if is_empty t.parser.params then t else set_title t in
    on_parser
      (λ p. record p { params = []; current_param = 0; current_text = []; state = State.normal }) u

unfoldable pub run_osc : ℕ → Terminal → Terminal × Bool
run_osc ch t =
    if is_end ch
    then (end_osc t, ch == 27)
    else if is_empty t.parser.params
    then (
      if is_digit ch
          then on_parser (λ p. record p { current_param = p.current_param * 10 + ch - 48 }) t
          else if ch == b';'
          then on_parser
              (λ p. record p { params = push p.params p.current_param; current_text = [] }) t
          else t,
      false,
    )
    else (on_parser (λ p. record p { current_text = push p.current_text ch }) t, false)

-- The answer to DECRQSS: `valid` is false, and `+valid` is 0.
unfoldable pub status_string : List ℕ → Terminal → List ℕ
status_string pt t =
    if text_eq pt (34 ∷ b'q' ∷ [])
    then b'0' ∷ 34 ∷ b'q' ∷ []
    else if text_eq pt (34 ∷ b'p' ∷ [])
    then b'6' ∷ b'1' ∷ 34 ∷ b'p' ∷ []
    else if text_eq pt (b'r' ∷ [])
    then decimal (t.scr.scroll_top + 1)
      ++ (b';' ∷ (decimal (t.scr.scroll_bottom + 1) ++ (b'r' ∷ [])))
    else if text_eq pt (b'm' ∷ [])
    then b'0' ∷ b'm' ∷ []
    else []

-- A `currentParam` that is still the number 0 is written as such.
abbrev pub text_or_zero : List ℕ → List ℕ
text_or_zero [] = b'0' ∷ []
text_or_zero (c ∷ cs) = c ∷ cs

unfoldable pub answer_dcs : Terminal → Terminal
answer_dcs t =
    if text_eq t.parser.prefix (codes "$q")
    then send ((27 ∷ codes "P0$r") ++ (status_string t.parser.current_text t ++ (27 ∷ 92 ∷ []))) t
    else if text_eq t.parser.prefix (codes "+q")
    then send ((27 ∷ codes "P0+r") ++ (text_or_zero t.parser.current_text ++ (27 ∷ 92 ∷ []))) t
    else t

unfoldable pub run_dcs : ℕ → Terminal → Terminal × Bool
run_dcs ch t =
    if is_end ch
    then (
      on_parser
          (λ p. record p {
            current_param = 0;
            current_text = [];
            prefix = [];
            state = State.normal;
          })
          (answer_dcs t),
      ch == 27,
    )
    else if is_empty t.parser.current_text
    then (
      if is_empty t.parser.prefix && not (ch == b'$') && not (ch == b'+')
          then on_parser (λ p. record p { current_text = ch ∷ [] }) t
          else if length t.parser.prefix == 2
          then on_parser (λ p. record p { current_text = ch ∷ [] }) t
          else on_parser (λ p. record p { prefix = push p.prefix ch }) t,
      false,
    )
    else (on_parser (λ p. record p { current_text = push p.current_text ch }) t, false)

unfoldable pub run_ignore : ℕ → Terminal → Terminal × Bool
run_ignore ch t = if is_end ch then (set_state State.normal t, ch == 27) else (t, false)
