-- ===== src/Terminal/Write.antt =====
-- `write`: the loop over the characters, and the repaint at its end.
use genie_tangle.Prelude.{
  ℕ, Bool, true, false, List, [], ◌∷◌, ◌++◌, ◌==◌, if◌then◌else◌, Outcome, ok, ◌>>=◌,
}
use genie_tangle.Screen.{Screen, update_range, max_range}
use genie_tangle.Terminal.State.{
  State, normal, escaped, csi, osc, charset, dcs, ignore, Terminal, on_screen, refresh, settle,
}
use genie_tangle.Terminal.Esc.{control_of, run_control, escape_of, run_escape, run_charset}
use genie_tangle.Terminal.Csi.{run_csi}
use genie_tangle.Terminal.Strings.{run_osc, run_dcs, run_ignore}

-- no character is skipped behind this one
abbrev pub and_go_on : Outcome Terminal → Outcome (Terminal × Bool)
and_go_on m = m >>= λ t. ok (t, false)

-- `switch (this.state)`
unfoldable pub step_in : State → ℕ → Terminal → Outcome (Terminal × Bool)
step_in normal ch t = and_go_on (run_control (control_of ch) t)
step_in escaped ch t = ok (run_escape (escape_of ch) t)
step_in charset ch t = ok (run_charset ch t)
step_in osc ch t = ok (run_osc ch t)
step_in csi ch t = and_go_on (run_csi ch t)
step_in dcs ch t = ok (run_dcs ch t)
step_in ignore ch t = ok (run_ignore ch t)

unfoldable pub step : ℕ → Terminal → Outcome (Terminal × Bool)
step ch t = step_in t.parser.state ch t

-- The loop, from a place where a character may have to be skipped; so the result says, too.
unfoldable pub feed : Bool → List ℕ → Terminal → Outcome (Terminal × Bool)
feed skip [] t = ok (t, skip)
feed true (ch ∷ chs) t = feed false chs t
feed false (ch ∷ chs) t = step ch t >>= λ r. feed (r.1) chs (r.0)

-- The head of `write`.
unfoldable pub start_write : Screen → Screen
start_write s =
    let t = record s { refresh_start = s.y; refresh_end = s.y } in
    if s.ybase == s.ydisp then t else max_range (record t { ydisp = s.ybase })

-- The end of `write`; a skip that is still due is forgotten.
unfoldable pub end_write : Terminal → Terminal
end_write t =
    let u = on_screen (λ s. update_range s.y s) t in refresh u.scr.refresh_start u.scr.refresh_end u

unfoldable pub write : List ℕ → Terminal → Outcome Terminal
write text t = feed false text (on_screen start_write t) >>= λ r. settle (end_write (r.0))

unfoldable pub writeln : List ℕ → Terminal → Outcome Terminal
writeln text t = write (text ++ (13 ∷ 10 ∷ [])) t
