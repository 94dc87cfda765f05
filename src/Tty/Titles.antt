-- ===== src/Tty/Titles.antt =====
-- `handleTitle` and `setProcessName` of `Tab`.
use genie_tangle.Windows.{sanitize}
use genie_tangle.Prelude.{codes, ℕ, if◌then◌else◌, List, is_empty, if◌then◌else◌, if◌then◌else◌}
use genie_tangle.Tty.State.{holds_focus, Tty, tab_of, on_frame, on_tab}

unfoldable pub handle_title : List ℕ → ℕ → Tty → Tty
handle_title title i p =
    if is_empty title
    then p
    else let text = sanitize title in
      let w = (tab_of i p).window in
      let q = on_tab i (λ t. record t { title = text }) p in
      if holds_focus w i q then on_frame w (λ f. record f { tip = text }) q else q

-- The event `process` has no listener in the code.
unfoldable pub set_process_name : List ℕ → ℕ → Tty → Tty
set_process_name name i p =
    let text = sanitize name in
    let w = (tab_of i p).window in
    let q = on_tab i (λ t. record t { process = text }) p in
    if holds_focus w i q then on_frame w (λ f. record f { heading = text }) q else q

-- `emit('connected')` and `emit('disconnected')`, with the listeners of the tab; `destroy` of the terminal
-- takes the listeners away.
unfoldable pub connected : ℕ → Tty → Tty
connected i p =
    if (tab_of i p).destroyed
    then p
    else if (tab_of i p).pty
    then set_process_name (codes "Connected") i p
    else p

unfoldable pub disconnected : ℕ → Tty → Tty
disconnected i p = if (tab_of i p).destroyed then p else set_process_name (codes "Disconnected") i p
