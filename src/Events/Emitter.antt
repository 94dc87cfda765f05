-- ===== src/Events/Emitter.antt =====
-- `EventEmitter`: the listeners by the type of the event. A function is known by its identity, a
-- number; what a listener does when it is called is outside of the model, and so are the arguments.
use genie_tangle.Prelude.{
  Bool, ◌>>=◌, if◌then◌else◌, type_error, if◌then◌else◌, zero, Option, ok, fault, ℕ, if◌then◌else◌,
  erase_at, length, ◌==◌, suc, none, get_elem?, ◌||◌, text_eq, some, push, [], List, ◌+◌, Outcome,
}

-- A listener that was added, or the function that `once` makes (its own identity first) with the
-- listener that it calls.
pub data Listener : Type 0 where
  direct : ℕ → Listener
  wrapper : ℕ → ℕ → Listener

-- `this._events`
abbrev pub Events : Type 0
Events = List ℕ → Option (List Listener)

abbrev pub no_events : Events
no_events type = none

abbrev pub put : List ℕ → Option (List Listener) → Events → Events
put type obj events other = if text_eq other type then obj else events other

-- `this._events[type] || []`
abbrev pub listeners_or_none : Option (List Listener) → List Listener
listeners_or_none none = []
listeners_or_none (some obj) = obj

unfoldable pub add_listener : List ℕ → Listener → Events → Events
add_listener type listener events =
    put type (some (push (listeners_or_none (events type)) listener)) events

-- `obj[i] === listener || obj[i].listener === listener`
abbrev pub is_listener : ℕ → Listener → Bool
is_listener id (direct n) = n == id
is_listener id (wrapper w n) = w == id || n == id

-- `while (i--) { if (…) { obj.splice(i, 1); return; } }`, with `i` rounds left
unfoldable pub remove_from : ℕ → ℕ → List Listener → List Listener
remove_from zero id obj = obj
remove_from (suc i) id obj =
    let rest = remove_from i id obj in
    elim (get_elem? obj i) [
      | none ↦ rest
      | some l ↦ (if is_listener id l then erase_at obj i else rest)
    ]

unfoldable pub remove_listener : List ℕ → ℕ → Events → Events
remove_listener type id events = elim (events type) [
  | none ↦ events
  | some obj ↦ put type (some (remove_from (length obj) id obj)) events
]

-- `delete this._events[type]`
unfoldable pub remove_all_listeners : List ℕ → Events → Events
remove_all_listeners type events = put type none events

-- `once`, with the identity `w` of the function that it makes
unfoldable pub once : List ℕ → ℕ → ℕ → Events → Events
once type w id events = add_listener type (wrapper w id) events

-- The listener that a call runs in the end.
abbrev pub target : Listener → ℕ
target (direct n) = n
target (wrapper w n) = n

-- What a call does to the array: the function that `once` made removes itself.
abbrev pub call : Listener → List Listener → List Listener
call (direct n) obj = obj
call (wrapper w n) obj = remove_from (length obj) w obj

-- `for (; i < l; i++) obj[i].apply(this, args);` with the rounds left and the calls so far. The array
-- is the one that `removeListener` changes, and `l` is its length at the start.
unfoldable pub emit_from : ℕ → ℕ → List Listener → List ℕ → Outcome (List Listener × List ℕ)
emit_from zero i obj calls = ok (obj, calls)
emit_from (suc n) i obj calls = elim (get_elem? obj i) [
  | none ↦ fault type_error
  | some l ↦ emit_from n (i + 1) (call l obj) (push calls (target l))
]

-- `emit(type)`: the new state, and the listeners that were called, in order
unfoldable pub emit : List ℕ → Events → Outcome (Events × List ℕ)
emit type events = elim (events type) [
  | none ↦ ok (events, [])
  | some obj ↦ emit_from (length obj) 0 obj [] >>= λ r. ok (put type (some (r.0)) events, r.1)
]
