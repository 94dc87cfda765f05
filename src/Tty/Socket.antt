-- ===== src/Tty/Socket.antt =====
-- The listeners of the socket in `tty.open`.
use genie_tangle.Tty.Titles.{connected, disconnected}
use genie_tangle.Tty.Making.{registered}
use genie_tangle.Tty.State.{Tty, for_some}
use genie_tangle.Tty.Output.{tab_write}
use genie_tangle.Prelude.{fault, some, Outcome, ok, ℕ, [], ◌∷◌, none, Option, List, type_error}

-- `data`: for an id that is not registered nothing happens.
abbrev pub receive_at : Option ℕ → List ℕ → Tty → Outcome Tty
receive_at none text p = ok p
receive_at (some i) text p = tab_write text i p

unfoldable pub receive : List ℕ → List ℕ → Tty → Outcome Tty
receive id text p = receive_at (registered id p.terms) text p

-- `kill`, from the server
unfoldable pub receive_kill : List ℕ → Tty → Tty
receive_kill id p = for_some disconnected (registered id p.terms) p

-- `$.each(tty.terms, …)`. The model goes through them in the order in which they were registered, and
-- a browser may go through them in another; for each a tab of its own is renamed.
unfoldable pub for_terms : (ℕ → Tty → Tty) → List (List ℕ × ℕ) → Tty → Tty
for_terms f [] p = p
for_terms f ((id, i) ∷ terms) p = for_terms f terms (f i p)

unfoldable pub transport_up : Tty → Tty
transport_up p = for_terms connected p.terms p

unfoldable pub transport_down : Tty → Tty
transport_down p = for_terms disconnected p.terms p

-- The handler of a failed publication, which finds the tab by the id of the message.
abbrev pub failed_at : Option ℕ → Tty → Outcome Tty
failed_at none p = fault type_error
failed_at (some i) p = ok (disconnected i p)

unfoldable pub publish_failed : List ℕ → Tty → Outcome Tty
publish_failed id p = failed_at (registered id p.terms) p
