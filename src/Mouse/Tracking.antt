-- ===== src/Mouse/Tracking.antt =====
-- The listeners: what a click sends, and what it leaves bound.
use genie_tangle.Screen.{Screen}
use genie_tangle.Mouse.Reports.{Locators, report, send_event}
use genie_tangle.Mouse.Listeners.{
  Setting, send_move, Mouse, up, remember, on_mousemove, send_button, run_ups, on_mousedown,
  move_sent, on_mouseup, button_sent,
}
use genie_tangle.Mouse.Buttons.{
  wheel, EventType, Position, mouseup, MouseEvent, get_coords, get_button, mousedown, modifiers,
  mousemove,
}
use genie_tangle.Terminal.{effect, take_focus, Terminal, send}
use genie_tangle.Prelude.{
  ◌≡◌, Option, if◌then◌else◌, false, none, arith, if-false, ◌+◌, append-nil, [], ◌&&◌, inr, if-true,
  some, ltb, zero, refl, sym, List, Bool-cases, ◌∙◌, ◌-◌, ap, if◌then◌else◌, ℕ, true, append_assoc,
  if◌then◌else◌, suc, Bool, not, ◌++◌, inl, Option-cases,
}

-- The text of a report, empty where nothing is sent.
abbrev pub text_of : Option (List ℕ) → List ℕ
text_of none = []
text_of (some text) = text

-- What an event with a position adds to the queue.
abbrev pub event_text : Setting → MouseEvent → Position → Terminal → List ℕ
event_text st ev pos t = text_of (report st.locators t (get_button st.msie t ev) pos)

-- The listeners change the queue, the timers and the effects alone.
abbrev pub SameScreen : Terminal → Terminal → Type 0
SameScreen t u = (u.scr ≡ t.scr) × (u.modes ≡ t.modes) × (u.normal ≡ t.normal)

send_event-queue :
    (l : Locators) (b : ℕ) (pos : Position) (t : Terminal)
    → ((send_event l b pos t).io.queue ≡ t.io.queue ++ text_of (report l t b pos))
      × SameScreen t (send_event l b pos t)
unfolding send_event send
send_event-queue l b pos t = elim (Option-cases (report l t b pos)) [
  | inl e ↦ rw e (sym (append-nil t.io.queue), (refl, refl, refl))
  | inr (text, e) ↦ rw e (refl, (refl, refl, refl))
]

-- The terminal has the same screen and modes, and the listeners that are bound are the same.
abbrev pub Unbound : Mouse × Terminal → Mouse × Terminal → Type 0
Unbound (m, t) (m', t') = SameScreen t t' × (m'.moving ≡ m.moving) × (m'.ups ≡ m.ups)

remember-listeners :
    (k : EventType) (b : ℕ) (m : Mouse)
    → ((remember k b m).moving ≡ m.moving) × ((remember k b m).ups ≡ m.ups)
unfolding remember
remember-listeners mousedown b m = (refl, refl)
remember-listeners mouseup b m = (refl, refl)
remember-listeners mousemove b m = (refl, refl)
remember-listeners wheel b m = (refl, refl)

button_sent-Unbound :
    (st : Setting) (ev : MouseEvent) (m : Mouse) (t : Terminal) (o : Option Position)
    → Unbound (m, t) (button_sent st ev m t o)
button_sent-Unbound st ev m t none = ((refl, refl, refl), refl, refl)
button_sent-Unbound st ev m t (some pos) =
    let b = get_button st.msie t ev in
    let (moving, ups) = remember-listeners ev.type b m in
    ((send_event-queue st.locators b pos t).1, moving, ups)

send_button-Unbound :
    (st : Setting) (ev : MouseEvent) (m : Mouse) (t : Terminal)
    → Unbound (m, t) (send_button st ev (m, t))
unfolding send_button
send_button-Unbound st ev m t = button_sent-Unbound st ev m t (get_coords t.scr ev)

-- What one listener `up` leaves bound.
abbrev stays : Bool → Bool → Bool
stays normal moving = if normal then false else moving

normal_same : (t u : Terminal) → SameScreen t u → u.modes.normal_mouse ≡ t.modes.normal_mouse
normal_same t u (s, e, n) = rw e refl

up-listeners :
    (st : Setting) (ev : MouseEvent) (m : Mouse) (t : Terminal)
    → SameScreen t (up st ev (m, t)).1
      × ((up st ev (m, t)).0.ups ≡ m.ups - 1)
      × ((up st ev (m, t)).0.moving ≡ stays t.modes.normal_mouse m.moving)
unfolding up
up-listeners st ev m t =
    let (same, a, b) = send_button-Unbound st ev m t in
    let t' = (send_button st ev (m, t)).1 in
    (
      same,
      ap (λ (k : ℕ). k - 1) b,
      ap (λ (x : Bool). stays t'.modes.normal_mouse x) a
          ∙ ap (λ (x : Bool). stays x m.moving) (normal_same t t' same),
    )

stays_twice :
    (normal moving k : Bool)
    → stays (normal && k) (stays normal moving) ≡ stays (normal && true) moving
stays_twice true moving true = refl
stays_twice true moving false = refl
stays_twice false moving k = refl

run_ups-listeners :
    (n : ℕ) (st : Setting) (ev : MouseEvent) (m : Mouse) (t : Terminal)
    → SameScreen t (run_ups n st ev (m, t)).1
      × ((run_ups n st ev (m, t)).0.ups ≡ m.ups - n)
      × ((run_ups n st ev (m, t)).0.moving ≡ stays (t.modes.normal_mouse && ltb 0 n) m.moving)
unfolding run_ups
run_ups-listeners zero st ev m t = (
  (refl, refl, refl),
  omega arith,
  elim (Bool-cases t.modes.normal_mouse) [ inl e ↦ rw e refl | inr e ↦ rw e refl ],
)
run_ups-listeners (suc n) st ev m t =
    let (c, a, b) = up-listeners st ev m t in
    let ((x, y, z), e, f) = run_ups-listeners n st ev (up st ev (m, t)).0 (up st ev (m, t)).1 in
    let normal = t.modes.normal_mouse in
    let positive : ltb 0 (suc n) ≡ true = ground arith in
    (
      (x ∙ c.0, y ∙ c.1, z ∙ c.2),
      e ∙ omega (arith, a),
      f
          ∙ ap (λ (q : Bool). stays (q && ltb 0 n) (up st ev (m, t)).0.moving)
              (normal_same t (up st ev (m, t)).1 c)
          ∙ ap (λ (q : Bool). stays (normal && ltb 0 n) q) b
          ∙ stays_twice normal m.moving (ltb 0 n)
          ∙ ap (λ (q : Bool). stays (normal && q) m.moving) (sym positive),
    )

-- After a `mouseup` no listener `up` is bound, however many presses came before it. `sendMove` is unbound
-- where there was one and the mode is one of those above 1000, and stays as it was otherwise.
on_mouseup-unbound :
    (st : Setting) (ev : MouseEvent) (m : Mouse) (t : Terminal)
    → ((on_mouseup st ev (m, t)).0.ups ≡ 0)
      × ((on_mouseup st ev (m, t)).0.moving
          ≡ (if t.modes.normal_mouse && ltb 0 m.ups then false else m.moving))
unfolding on_mouseup
on_mouseup-unbound st ev m t =
    let (c, a, b) = run_ups-listeners m.ups st ev m t in (a ∙ omega arith, b)

-- A program that leaves the mouse mode while a button is held leaves `sendMove` bound: the `mouseup`
-- that follows does not take it away, and a move after it is still sent.
pub move-leaks :
    (st : Setting) (ev move : MouseEvent) (pos : Position) (m : Mouse) (t : Terminal)
    → t.modes.normal_mouse ≡ false
    → m.moving ≡ true
    → get_coords t.scr move ≡ some pos
    → let (m', t') = on_mouseup st ev (m, t) in
      (t'.modes ≡ t.modes)
      × (m'.moving ≡ true)
      × ((on_mousemove st move (m', t')).1.io.queue
          ≡ t'.io.queue ++ text_of (report st.locators t' (m'.pressed + 32) pos))
unfolding on_mouseup on_mousemove send_move
move-leaks st ev move pos m t n h c =
    let ((s, o, q), a, b) = run_ups-listeners m.ups st ev m t in
    let (m', t') = on_mouseup st ev (m, t) in
    let moving : m'.moving ≡ true = b ∙ rw n h in
    let there : get_coords t'.scr move ≡ some pos = ap (λ (x : Screen). get_coords x move) s ∙ c in
    (
      o,
      moving,
      ap (λ (r : Mouse × Terminal). r.1.io.queue)
            (if-true m'.moving (send_move st move (m', t')) (m', t') moving
              ∙ ap (λ (p : Option Position). move_sent st m' t' p) there)
          ∙ (send_event-queue st.locators (m'.pressed + 32) pos t').0,
    )

-- What `sendButton` queues and remembers, for an event with a position.
send_button-queue :
    (st : Setting) (ev : MouseEvent) (pos : Position) (m : Mouse) (t : Terminal)
    → get_coords t.scr ev ≡ some pos
    → ((send_button st ev (m, t)).1.io.queue ≡ t.io.queue ++ event_text st ev pos t)
      × ((send_button st ev (m, t)).0 ≡ remember ev.type (get_button st.msie t ev) m)
unfolding send_button
send_button-queue st ev pos m t c =
    let e = ap (λ (p : Option Position). button_sent st ev m t p) c in
    (
      ap (λ (r : Mouse × Terminal). r.1.io.queue) e
          ∙ (send_event-queue st.locators (get_button st.msie t ev) pos t).0,
      ap (λ (r : Mouse × Terminal). r.0) e,
    )

-- The text of an event reads the modes alone.
same_text :
    (st : Setting) (ev : MouseEvent) (pos : Position) (t u : Terminal)
    → SameScreen t u
    → event_text st ev pos u ≡ event_text st ev pos t
unfolding report get_button modifiers
same_text st ev pos t u (s, o, n) = ap (λ md. event_text st ev pos (record t { modes = md })) o

-- In the mode 1000 a button that is pressed at a place of the page is reported at once as pressed and as
-- released, in this order, and no listener is bound.
vt200_click-queue :
    (st : Setting) (ev : MouseEvent) (pos : Position) (m : Mouse) (t : Terminal)
    → t.modes.mouse_events ≡ true
    → t.modes.vt200_mouse ≡ true
    → get_coords t.scr ev ≡ some pos
    → let (m', t') = on_mousedown st ev (m, t) in
      (t'.io.queue
        ≡ t.io.queue
          ++ (event_text st ev pos t ++ event_text st (record ev { type = mouseup }) pos t))
      × (m'.moving ≡ m.moving)
      × (m'.ups ≡ m.ups)
unfolding on_mousedown get_coords
vt200_click-queue st ev pos m t e v c =
    let (m1, t1) = send_button st ev (m, t) in
    let t2 = effect take_focus t1 in
    let release = record ev { type = mouseup } in
    let ((s, o, n), a, b) = send_button-Unbound st ev m t in
    let mode : t2.modes.vt200_mouse ≡ true = ap (λ md. md.vt200_mouse) o ∙ v in
    let whole : on_mousedown st ev (m, t) ≡ send_button st release (m1, t2) =
      if-false (not t.modes.mouse_events) _ _ (ap not e) ∙ if-true t2.modes.vt200_mouse _ _ mode in
    let there : get_coords t2.scr release ≡ some pos = ap (λ (x : Screen). get_coords x ev) s ∙ c in
    let (q, r) = send_button-queue st release pos m1 t2 there in
    let (w, a', b') = send_button-Unbound st release m1 t2 in
    (
      ap (λ (z : Mouse × Terminal). z.1.io.queue) whole
          ∙ q
          ∙ ap (λ (x : List ℕ). x ++ event_text st release pos t2)
              (send_button-queue st ev pos m t c).0
          ∙ ap (λ (x : List ℕ). (t.io.queue ++ event_text st ev pos t) ++ x)
              (same_text st release pos t t2 (s, o, n))
          ∙ append_assoc t.io.queue (event_text st ev pos t) (event_text st release pos t),
      ap (λ (z : Mouse × Terminal). z.0.moving) whole ∙ a' ∙ a,
      ap (λ (z : Mouse × Terminal). z.0.ups) whole ∙ b' ∙ b,
    )
