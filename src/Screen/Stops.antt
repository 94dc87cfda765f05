-- ===== src/Screen/Stops.antt =====
-- Tab stops: where the tabulations go, and where the constructor and `resize` set stops.

use genie_tangle.Screen.Size.{resize_cols, resize_rows, resize}
use genie_tangle.Screen.Buffer.{Screen}
use genie_tangle.Screen.Tabs.{
  prev_stop_from, mark_stops, next_stop_from, stop_rounds, setup_stops, no_stops, prev_stop,
  next_stop, clamp_stop,
}
use genie_tangle.Prelude.{
  ◌*◌, ◌<◌, Bool-cases, ◌≤◌, suc, true, false, ◌+◌, inl, inr, ℕ, arith, zero, ◌≡◌, Bool, leb, ◌-◌,
  none, ◌%◌, ◌||◌, ltb, ◌∙◌, ◌==◌, ◌&&◌, refl,
}

-- What the scan to the right promises of the place `r` that it stops at: behind `x`, at a stop or
-- at `cols`, with no stop between.
pub record IsNext (cols x : ℕ) (tabs : ℕ → Bool) (r : ℕ) : Type 0 where
  pub behind : x < r
  pub inside : r ≤ cols
  pub at_stop : r < cols → tabs r ≡ true
  pub none_between : (k : ℕ) → x < k → k < r → tabs k ≡ false

the_same : (k x : ℕ) → (k == x) ≡ true → k ≡ x
the_same k x h = ground arith

stop_here :
    (cols x : ℕ) (tabs : ℕ → Bool)
    → x < cols
    → (x + 1 < cols → tabs (x + 1) ≡ true)
    → IsNext cols x tabs (x + 1)
stop_here cols x tabs h e = record {
  behind = omega arith;
  inside = omega (arith, h);
  at_stop = e;
  none_between = λ k p q. absurd (omega (arith, p, q));
}

go_on :
    (cols x : ℕ) (tabs : ℕ → Bool) (r : ℕ)
    → tabs (x + 1) ≡ false
    → IsNext cols (x + 1) tabs r
    → IsNext cols x tabs r
go_on cols x tabs r e v = record {
  behind = omega (arith, v.behind);
  inside = v.inside;
  at_stop = v.at_stop;
  none_between = λ k p q. elim (Bool-cases (k == x + 1)) [
    | inl same ↦ rw (the_same k (x + 1) same) e
    | inr other ↦ v.none_between k (ground arith) q
  ];
}

next_stop_from-IsNext :
    (n : ℕ) (cols x : ℕ) (tabs : ℕ → Bool)
    → x < cols
    → cols ≤ n + x
    → IsNext cols x tabs (next_stop_from n cols tabs x)
unfolding next_stop_from
next_stop_from-IsNext zero cols x tabs h k = absurd (omega (arith, h, k))
next_stop_from-IsNext (suc n) cols x tabs h k = elim (Bool-cases (tabs (x + 1))) [
  | inl e ↦ rw e (stop_here cols x tabs h (λ l. e))
  | inr e ↦ elim (Bool-cases (leb cols (x + 1))) [
    | inl l ↦ rw (e, l) (stop_here cols x tabs h (λ l'. absurd (ground arith)))
    | inr l ↦
        rw (e, l)
          (go_on cols x tabs _ e
            (next_stop_from-IsNext n cols (x + 1) tabs (ground arith) (omega (arith, k))))
  ]
]

-- What the scan to the left promises: before `x`, at a stop or at the first column.
pub record IsPrev (x : ℕ) (tabs : ℕ → Bool) (r : ℕ) : Type 0 where
  pub before : r ≤ x - 1
  pub at_stop : 0 < r → tabs r ≡ true
  pub none_between : (k : ℕ) → r < k → k < x → tabs k ≡ false

prev_stop_from-IsPrev : (x : ℕ) (tabs : ℕ → Bool) → IsPrev x tabs (prev_stop_from tabs x)
unfolding prev_stop_from
prev_stop_from-IsPrev zero tabs = record {
  before = omega arith;
  at_stop = λ h. absurd (omega (arith, h));
  none_between = λ k h h'. absurd (omega (arith, h, h'));
}
prev_stop_from-IsPrev (suc x) tabs = elim (Bool-cases (tabs x)) [
  | inl e ↦ rw e (record {
    before = omega arith;
    at_stop = λ h. e;
    none_between = λ k p q. absurd (omega (arith, p, q));
  })
  | inr e ↦
      let r = prev_stop_from-IsPrev x tabs in
      rw e (record {
        before = omega (arith, r.before);
        at_stop = r.at_stop;
        none_between = λ k p q. elim (Bool-cases (k == x)) [
          | inl same ↦ rw (the_same k x same) e
          | inr other ↦ r.none_between k p (ground arith)
        ];
      })
]

-- `k` is one of the `n` places from `i` on, in steps of 8.
abbrev marked : ℕ → ℕ → ℕ → Bool
marked n i k = leb i k && ((k - i) % 8 == 0) && ltb (k - i) (8 * n)

mark_stops-marked : (n i k : ℕ) (tabs : ℕ → Bool) → mark_stops n i tabs k ≡ (marked n i k || tabs k)
unfolding mark_stops
mark_stops-marked zero i k tabs = ground arith
mark_stops-marked (suc n) i k tabs = mark_stops-marked n (i + 8) k _ ∙ ground arith

-- The constructor sets a stop at every eighth column of the screen, from the first, and no other.
setup_stops-eighth :
    (s : Screen) (k : ℕ) → (setup_stops none s).tabs k ≡ ((k % 8 == 0) && ltb k s.cols)
unfolding setup_stops
setup_stops-eighth s k = mark_stops-marked (stop_rounds s.cols 0) 0 k no_stops ∙ ground arith

clamp_stop-IsNext :
    (cols x r : ℕ) (tabs : ℕ → Bool)
    → x + 1 < cols
    → IsNext cols x tabs r
    → (x < clamp_stop cols r)
      × (clamp_stop cols r < cols)
      × (clamp_stop cols r + 1 < cols → tabs (clamp_stop cols r) ≡ true)
      × ((k : ℕ) → x < k → k < clamp_stop cols r → tabs k ≡ false)
clamp_stop-IsNext cols x r tabs h v = elim (Bool-cases (leb cols r)) [
  | inl e ↦ rw e (
    omega (arith, h),
    omega (arith, h),
    λ p. absurd (omega (arith, p, h)),
    λ k p q. v.none_between k p (ground arith),
  )
  | inr e ↦ rw e (v.behind, ground arith, λ p. v.at_stop (omega (arith, p)), v.none_between)
]

-- The marks of the stops end at the width.
marked_beyond : (cols start k : ℕ) → cols ≤ k → marked (stop_rounds cols start) start k ≡ false
marked_beyond cols start k h = ground arith

-- The place `r` lies right of `x` on the screen, at a stop or in the last column, with no stop
-- between.
abbrev pub IsNextStop : Screen → ℕ → ℕ → Type 0
IsNextStop s x r =
    (x < r)
    × (r < s.cols)
    × (r + 1 < s.cols → s.tabs r ≡ true)
    × ((k : ℕ) → x < k → k < r → s.tabs k ≡ false)

-- The tabulation from a column of the screen left of the last goes to the next stop, and where no
-- stop of the screen is left, to the last column; no stop between is passed over.
pub next_stop-IsNext : (s : Screen) (x : ℕ) → x + 1 < s.cols → IsNextStop s x (next_stop s x)
unfolding next_stop
next_stop-IsNext s x h =
    clamp_stop-IsNext s.cols x _ s.tabs h
      (next_stop_from-IsNext (suc (s.cols - x)) s.cols x s.tabs (omega (arith, h)) (omega arith))

-- The tabulation back, from a column that is at most the width of the screen, goes to the nearest
-- stop on the left, or to the first column where there is none.
prev_stop-IsPrev : (s : Screen) (x : ℕ) → x ≤ s.cols → IsPrev x s.tabs (prev_stop s x)
unfolding prev_stop
prev_stop-IsPrev s x h =
    let v = prev_stop_from-IsPrev x s.tabs in
    let e : clamp_stop s.cols (prev_stop_from s.tabs x) ≡ prev_stop_from s.tabs x =
      ground (arith, v.before) in
    rw e v

-- `resize`, to any size, leaves the tab stops from the old width on as they were: it sets none in
-- the columns that it adds.
tabs-resize : (x y k : ℕ) (s : Screen) → s.cols ≤ k → (resize x y s).tabs k ≡ s.tabs k
unfolding resize resize_rows resize_cols setup_stops
tabs-resize x y k s h = mark_stops-marked _ _ k s.tabs ∙ rw (marked_beyond s.cols _ k h) refl
