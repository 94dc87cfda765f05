-- ===== src/Terminal/Answers.antt =====
-- `send` and its timer: what was sent, and what is queued.
use genie_tangle.Terminal.State.{
  flush, output, Terminal, send, Effect, retitle, repaint, flash, take_focus,
}
use genie_tangle.Prelude.{
  ℕ, ◌∷◌, is_empty, ◌<◌, List, push, false, ◌≡◌, ◌∙◌, sym, [], append-nil, ap, append_assoc, ◌++◌,
  if◌then◌else◌, if◌then◌else◌, if◌then◌else◌, arith, suc, refl,
}

-- What was handed to `handler`, in order.
abbrev pub sent : List Effect → List ℕ
sent [] = []
sent (output text ∷ es) = text ++ sent es
sent (repaint a b ∷ es) = sent es
sent (retitle text ∷ es) = sent es
sent (flash ∷ es) = sent es
sent (take_focus ∷ es) = sent es

-- All that was sent so far, handed over or still queued.
abbrev pub sent_or_queued : Terminal → List ℕ
sent_or_queued t = sent t.io.effects ++ t.io.queue

-- Where something is queued, a timer is due.
abbrev pub IsServed : Terminal → Type 0
IsServed t = is_empty t.io.queue ≡ false → 0 < t.io.timers

pub sent-push : (es : List Effect) (text : List ℕ) → sent (push es (output text)) ≡ sent es ++ text
sent-push [] text = append-nil text
sent-push (output a ∷ es) text =
    ap (λ (r : List ℕ). a ++ r) (sent-push es text) ∙ sym (append_assoc a (sent es) text)
sent-push (repaint a b ∷ es) text = sent-push es text
sent-push (retitle a ∷ es) text = sent-push es text
sent-push (flash ∷ es) text = sent-push es text
sent-push (take_focus ∷ es) text = sent-push es text

served :
    (text queue : List ℕ) (timers : ℕ)
    → (is_empty queue ≡ false → 0 < timers)
    → is_empty (queue ++ text) ≡ false
    → 0 < (if is_empty queue then suc timers else timers)
served text [] timers h e = omega arith
served text (c ∷ cs) timers h e = h refl

-- Where a timer is due if something is queued: `send` puts its text behind all that was sent or
-- queued, and a timer is due if something is queued then.
pub send-queued :
    (text : List ℕ) (t : Terminal)
    → IsServed t
    → (sent_or_queued (send text t) ≡ sent_or_queued t ++ text) × IsServed (send text t)
unfolding send
send-queued text t h =
    (sym (append_assoc (sent t.io.effects) t.io.queue text), served text t.io.queue t.io.timers h)

-- The timer hands over just what was queued: nothing is lost, nothing is sent twice, the order stays,
-- and nothing is queued any more.
flush-queued :
    (t : Terminal)
    → (sent_or_queued (flush t) ≡ sent_or_queued t)
      × ((flush t).io.queue ≡ [])
      × (sent (flush t).io.effects ≡ sent_or_queued t)
unfolding flush
flush-queued t = let e = sent-push t.io.effects t.io.queue in (append-nil _ ∙ e, refl, e)
