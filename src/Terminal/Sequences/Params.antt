-- ===== src/Terminal/Sequences/Params.antt =====
-- Control sequences: the numbers in the text, and those that a handler gets.
use genie_tangle.Terminal.Esc.{run_control, escape_of, run_escape, control_of}
use genie_tangle.Terminal.Sequences.Chunks.{feed-step}
use genie_tangle.Terminal.Write.{step, feed, step_in, and_go_on}
use genie_tangle.Terminal.State.{State, Terminal, set_state}
use genie_tangle.Terminal.Csi.{
  is_postfix, run_csi, finish, is_prefix, clear_marks, command_of, run_command,
}
use genie_tangle.Prelude.{
  true, not, ◌||◌, ◌*◌, ◌++◌, ok, decimal, is_digit, Bool-cases, Bool, [], List, decimal_within,
  arith, false, ◌<◌, ltb, push, ◌∙◌, inr, suc, ◌≡◌, zero, ◌+◌, ◌>>=◌, ◌==◌, inl, ℕ, refl, ◌∷◌, ◌/◌,
  ap, ◌%◌, ◌-◌, ltb→lt, append_assoc, fault, Outcome,
}

-- The parser behind `ESC [`, with the parameters that are complete and the current one.
abbrev pub at_csi : List ℕ → ℕ → Terminal → Terminal
at_csi ps n t = record t {
  parser = record (t.parser) {
    state = State.csi;
    params = ps;
    current_param = n;
    current_text = [];
  };
}

csi_digit :
    (d n : ℕ) (ps : List ℕ) (t : Terminal)
    → d < 10
    → step (d + 48) (at_csi ps n t) ≡ ok (at_csi ps (n * 10 + d) t, false)
unfolding step step_in run_csi
csi_digit d n ps t h =
    let e : is_prefix (d + 48) ≡ false = ground arith in
    let e' : is_digit (d + 48) ≡ true = ground arith in
    let n' : n * 10 + (d + 48) - 48 ≡ n * 10 + d = omega arith in rw (e, e', n') refl

csi_semicolon :
    (n : ℕ) (ps : List ℕ) (t : Terminal)
    → step b';' (at_csi ps n t) ≡ ok (at_csi (push ps n) 0 t, false)
unfolding step step_in run_csi
csi_semicolon n ps t = refl

-- A number in decimal becomes the current parameter.
zero_times : {n : ℕ} → 0 * 10 + n ≡ n
zero_times = omega arith

feed-decimal_within :
    (f n : ℕ) (ps rest : List ℕ) (t : Terminal)
    → n < f
    → feed false (decimal_within f n ++ rest) (at_csi ps 0 t) ≡ feed false rest (at_csi ps n t)
unfolding decimal_within
feed-decimal_within zero n ps rest t h = absurd (omega (arith, h))
feed-decimal_within (suc f) n ps rest t h = elim (Bool-cases (ltb n 10)) [
  | inl e ↦ rw e (
      feed-step (n + 48) rest _ _ (csi_digit n 0 ps t (ltb→lt n 10 e))
      ∙ ap (λ (k : ℕ). feed false rest (at_csi ps k t)) zero_times)
  | inr e ↦
      let m : n / 10 * 10 + n % 10 ≡ n = omega arith in
      rw (e, append_assoc (decimal_within f (n / 10)) ((n % 10 + 48) ∷ []) rest)
        (feed-decimal_within f (n / 10) ps ((n % 10 + 48) ∷ rest) t (ground arith)
          ∙ feed-step (n % 10 + 48) rest _ _ (csi_digit (n % 10) (n / 10) ps t (omega arith))
          ∙ ap (λ (k : ℕ). feed false rest (at_csi ps k t)) m)
]

feed-decimal :
    (n : ℕ) (ps rest : List ℕ) (t : Terminal)
    → feed false (decimal n ++ rest) (at_csi ps 0 t) ≡ feed false rest (at_csi ps n t)
unfolding decimal
feed-decimal n ps rest t = feed-decimal_within (suc n) n ps rest t (omega arith)

-- The text of the parameters.
abbrev pub params_text : ℕ → List ℕ → List ℕ
params_text p [] = decimal p
params_text p (q ∷ qs) = decimal p ++ (b';' ∷ params_text q qs)

-- A final character.
abbrev pub is_final : ℕ → Bool
is_final ch = not (is_prefix ch || is_digit ch || is_postfix ch || ch == b';')

after_go_on : (m : Outcome Terminal) → (and_go_on m >>= λ r. ok (r.0, r.1)) ≡ and_go_on m
after_go_on (ok u) = refl
after_go_on (fault e) = refl

csi_final :
    (ch p : ℕ) (ps : List ℕ) (t : Terminal)
    → is_final ch ≡ true
    → feed false (ch ∷ []) (at_csi ps p t) ≡ and_go_on (finish ch (at_csi (push ps p) 0 t))
unfolding feed step step_in run_csi
csi_final ch p ps t h =
    let (a, b, c, d) = not_special ch h in
    rw (a, b, c, d) (after_go_on (finish ch (at_csi (push ps p) 0 t)))
  where
    not_special :
        (ch : ℕ)
        → is_final ch ≡ true
        → (is_prefix ch ≡ false)
          × (is_digit ch ≡ false)
          × (is_postfix ch ≡ false)
          × ((ch == b';') ≡ false)
    not_special ch h = ground arith

feed-params :
    (p : ℕ) (qs ps : List ℕ) (ch : ℕ) (t : Terminal)
    → is_final ch ≡ true
    → feed false (params_text p qs ++ (ch ∷ [])) (at_csi ps 0 t)
      ≡ and_go_on (finish ch (at_csi (ps ++ (p ∷ qs)) 0 t))
feed-params p [] ps ch t h = feed-decimal p ps (ch ∷ []) t ∙ csi_final ch p ps t h
feed-params p (q ∷ qs) ps ch t h =
    rw
      (
        append_assoc (decimal p) (b';' ∷ params_text q qs) (ch ∷ []),
        ← append_assoc ps (p ∷ []) (q ∷ qs),
      )
      (feed-decimal p ps (b';' ∷ (params_text q qs ++ (ch ∷ []))) t
        ∙ feed-step b';' _ _ _ (csi_semicolon p ps t)
        ∙ feed-params q qs (push ps p) ch t h)

pub escape_step :
    (t : Terminal)
    → t.parser.state ≡ State.normal
    → step 27 t ≡ ok (set_state State.escaped t, false)
unfolding step step_in control_of run_control
escape_step t e = rw e refl

csi_open : (t : Terminal) → step b'[' (set_state State.escaped t) ≡ ok (at_csi [] 0 t, false)
unfolding step step_in escape_of run_escape
csi_open t = refl

-- `ESC [`, parameters in decimal and a final character, from the state `normal`: the handler of the
-- final character runs, in the state `normal`, with just those parameters, and then the prefix and
-- the postfix are cleared; where the handler faults, so does the text.
pub feed-control_sequence :
    (p : ℕ) (qs : List ℕ) (ch : ℕ) (t : Terminal)
    → t.parser.state ≡ State.normal
    → is_final ch ≡ true
    → feed false (27 ∷ b'[' ∷ (params_text p qs ++ (ch ∷ []))) t
      ≡ and_go_on (
          run_command (command_of ch) (p ∷ qs) (set_state State.normal (at_csi (p ∷ qs) 0 t))
          >>= λ u. ok (clear_marks u))
unfolding finish
feed-control_sequence p qs ch t e h =
    feed-step 27 _ t _ (escape_step t e)
    ∙ feed-step b'[' _ _ _ (csi_open t)
    ∙ feed-params p qs [] ch t h
