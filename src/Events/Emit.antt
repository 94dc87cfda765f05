-- ===== src/Events/Emit.antt =====
-- What `emit` calls, and where it throws.
use genie_tangle.Events.Emitter.{
  remove_from, direct, Listener, is_listener, put, emit_from, wrapper, target, emit, Events, call,
}
use genie_tangle.Prelude.{
  ◌≡◌, List, arith, zero, true, ℕ, All, ◌≤◌, length, get_elem?, refl, ◌+◌, some, ok, type_error,
  ◌∷◌, ◌<◌, ◌++◌, suc, fault, [], get_elem?_total, ◌||◌, ◌==◌, subst, ◌∙◌, inr, length-append,
  Bool-cases, ltb, if-both, sym, push, append_assoc, erase_at, get_elem?-none, append-nil,
  Option-cases, length-erase_at, inl,
}

abbrev pub IsDirect : Listener → Type 0
IsDirect (direct n) = Unit {0}
IsDirect (wrapper w n) = ⊥

-- The listeners that the calls run in the end.
abbrev pub targets : List Listener → List ℕ
targets [] = []
targets (l ∷ ls) = target l ∷ targets ls

here :
    (xs : List Listener) (l : Listener) (ys : List Listener)
    → get_elem? (xs ++ (l ∷ ys)) (length xs) ≡ some l
here [] l ys = refl
here (x ∷ xs) l ys = here xs l ys

call-direct : (l : Listener) (obj : List Listener) → IsDirect l → call l obj ≡ obj
call-direct (direct n) obj h = refl
call-direct (wrapper w n) obj h = absurd h

emit_step :
    (n i : ℕ) (l : Listener) (obj : List Listener) (calls : List ℕ)
    → get_elem? obj i ≡ some l
    → emit_from (suc n) i obj calls ≡ emit_from n (i + 1) (call l obj) (push calls (target l))
unfolding emit_from
emit_step n i l obj calls e = rw (emit_from, e) refl

-- The rounds over direct listeners, with any rounds behind them.
emit_from-direct :
    (n : ℕ) (xs ys zs : List Listener) (calls : List ℕ)
    → All IsDirect ys
    → emit_from (length ys + n) (length xs) (xs ++ (ys ++ zs)) calls
      ≡ emit_from n (length xs + length ys) (xs ++ (ys ++ zs)) (calls ++ targets ys)
emit_from-direct n xs [] zs calls h =
    let m : 0 + n ≡ n = omega arith in
    let k : length xs + 0 ≡ length xs = omega arith in rw (m, k, append-nil calls) refl
emit_from-direct n xs (y ∷ ys) zs calls (h, hs) =
    let m : suc (length ys) + n ≡ suc (length ys + n) = omega arith in
    let k : length xs + 1 ≡ length (push xs y) = sym (length-append xs (y ∷ [])) in
    let k' : length (push xs y) + length ys ≡ length xs + suc (length ys) =
      omega (arith, length-append xs (y ∷ [])) in
    let obj = xs ++ (y ∷ (ys ++ zs)) in
    let rest : emit_from (length ys + n) (length xs + 1) (call y obj) (push calls (target y))
        ≡ emit_from n (length xs + suc (length ys)) obj (calls ++ (target y ∷ targets ys)) =
      rw
        (
          call-direct y obj h,
          k,
          ← append_assoc xs (y ∷ []) (ys ++ zs),
          ← append_assoc calls (target y ∷ []) (targets ys),
          ← k',
        )
        (emit_from-direct n (push xs y) ys zs (push calls (target y)) hs) in
    rw m (emit_step (length ys + n) (length xs) y obj calls (here xs y (ys ++ zs)) ∙ rest)

every_call :
    (obj : List Listener)
    → All IsDirect obj
    → emit_from (length obj) 0 obj [] ≡ ok (obj, targets obj)
unfolding emit_from
every_call obj h =
    let k : length obj + 0 ≡ length obj = omega arith in
    subst (λ (n : ℕ). emit_from n 0 obj [] ≡ ok (obj, targets obj)) k
      (subst (λ (ls : List Listener). emit_from (length obj + 0) 0 ls [] ≡ ok (ls, targets obj))
        (append-nil obj) (emit_from-direct 0 [] obj [] [] h))

-- Where the type has listeners and none was added by `once`, `emit` calls all of them, in the
-- order in which they were added, and leaves the listeners as they are.
emit-in_order :
    (type : List ℕ) (events : Events) (obj : List Listener)
    → events type ≡ some obj
    → All IsDirect obj
    → emit type events ≡ ok (put type (some obj) events, targets obj)
unfolding emit
emit-in_order type events obj e h = let run = every_call obj h in rw (emit, e, run) refl

-- A removal that finds its listener makes the array shorter by one.
length-remove_from :
    (i j id : ℕ) (l : Listener) (obj : List Listener)
    → j < i
    → i ≤ length obj
    → get_elem? obj j ≡ some l
    → is_listener id l ≡ true
    → suc (length (remove_from i id obj)) ≡ length obj
unfolding remove_from
length-remove_from zero j id l obj h k e m = absurd (omega (arith, h))
length-remove_from (suc i) j id l obj h k e m = elim (Bool-cases (j == i)) [
  | inl same ↦
      let p : i ≡ j = ground arith in
      let found : get_elem? obj i ≡ some l =
        subst (λ (t : ℕ). get_elem? obj t ≡ some l) (sym p) e in
      rw (remove_from, found, m) (length-erase_at obj i (omega (arith, k)))
  | inr other ↦
      let (l', e') = get_elem?_total obj i (omega (arith, k)) in
      let rest = length-remove_from i j id l obj (ground (arith, h)) (omega (arith, k)) e m in
      rw (remove_from, e')
        (if-both (λ (ls : List Listener). suc (length ls) ≡ length obj) (is_listener id l')
          (length-erase_at obj i (omega (arith, k))) rest)
]

length-le-erase : (obj : List Listener) (i : ℕ) → length (erase_at obj i) ≤ length obj
unfolding erase_at
length-le-erase [] i = omega arith
length-le-erase (x ∷ xs) zero = omega arith
length-le-erase (x ∷ xs) (suc i) = omega (arith, length-le-erase xs i)

length-le-remove_from :
    (i id : ℕ) (obj : List Listener) → length (remove_from i id obj) ≤ length obj
unfolding remove_from
length-le-remove_from zero id obj = omega arith
length-le-remove_from (suc i) id obj = elim (Option-cases (get_elem? obj i)) [
  | inl e ↦ rw (remove_from, e) (length-le-remove_from i id obj)
  | inr (l, e) ↦
      rw (remove_from, e)
        (if-both (λ (ls : List Listener). length ls ≤ length obj) (is_listener id l)
          (length-le-erase obj i) (length-le-remove_from i id obj))
]

length-call : (l : Listener) (obj : List Listener) → length (call l obj) ≤ length obj
length-call (direct n) obj = omega arith
length-call (wrapper w n) obj = length-le-remove_from (length obj) w obj

-- Where the array is shorter than the rounds that are left, a round finds nothing to call.
nothing_there :
    (n i : ℕ) (obj : List Listener) (calls : List ℕ)
    → length obj ≤ i
    → emit_from (suc n) i obj calls ≡ fault type_error
unfolding emit_from
nothing_there n i obj calls h = rw (emit_from, get_elem?-none obj i h) refl

emit_from-short :
    (n i : ℕ) (obj : List Listener) (calls : List ℕ)
    → length obj < i + suc n
    → emit_from (suc n) i obj calls ≡ fault type_error
emit_from-short zero i obj calls h = nothing_there zero i obj calls (omega (arith, h))
emit_from-short (suc n) i obj calls h = elim (Bool-cases (ltb i (length obj))) [
  | inl e ↦
      let (l, found) = get_elem?_total obj i (ground arith) in
      emit_step (suc n) i l obj calls found
      ∙ emit_from-short n (i + 1) (call l obj) _ (omega (arith, length-call l obj, h))
  | inr e ↦ nothing_there (suc n) i obj calls (ground arith)
]

-- A listener that was added by `once`, with only direct listeners before it, removes itself while
-- `emit` runs over the array; where another listener stands behind it, `emit` throws.
pub emit-fault :
    (type : List ℕ) (events : Events) (xs : List Listener) (w n : ℕ) (y : Listener)
    (ys : List Listener)
    → events type ≡ some (xs ++ (wrapper w n ∷ y ∷ ys))
    → All IsDirect xs
    → emit type events ≡ fault type_error
unfolding emit
emit-fault type events xs w n y ys e h = rw (emit, e, faults) refl
  where
    obj : List Listener
    obj = xs ++ (wrapper w n ∷ y ∷ ys)

    size : length obj ≡ length xs + suc (suc (length ys))
    size = length-append xs (wrapper w n ∷ y ∷ ys)

    at_start : 0 + length xs ≡ length xs
    at_start = omega arith

    itself : (w == w || n == w) ≡ true
    itself = ground arith

    shorter : suc (length (remove_from (length obj) w obj)) ≡ length obj
    shorter =
        length-remove_from (length obj) (length xs) w (wrapper w n) obj (omega (arith, size))
          (omega arith) (here xs (wrapper w n) (y ∷ ys)) itself

    from_wrapper :
        emit_from (suc (suc (length ys))) (0 + length xs) obj (targets xs) ≡ fault type_error
    from_wrapper = rw at_start (
        emit_step (suc (length ys)) (length xs) (wrapper w n) obj (targets xs)
          (here xs (wrapper w n) (y ∷ ys))
        ∙ emit_from-short (length ys) (length xs + 1) (remove_from (length obj) w obj) _
            (omega (arith, size, shorter)))

    faults : emit_from (length obj) 0 obj [] ≡ fault type_error
    faults =
        rw size (
          emit_from-direct (suc (suc (length ys))) [] xs (wrapper w n ∷ y ∷ ys) [] h ∙ from_wrapper)
