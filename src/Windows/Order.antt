-- ===== src/Windows/Order.antt =====
-- `indexOf` and `splice` on a list in which no tab stands twice.
use genie_tangle.Windows.Tabs.{index_of, index_from, splice}
use genie_tangle.Prelude.{
  if◌then◌else◌, false, if◌then◌else◌, [], ℕ, ◌==◌, List, ◌≡◌, All, ◌∷◌, if◌then◌else◌, refl, inr,
  sym, length, none, suc, ◌⊎◌, arith, ◌<◌, ◌≤◌, true, Bool-cases, zero, get_or, ap, erase_at, some,
  inl,
}

-- The tab does not stand in the list.
abbrev pub IsAbsent : ℕ → List ℕ → Type 0
IsAbsent tab tabs = All (λ t. (t == tab) ≡ false) tabs

-- No tab stands twice.
abbrev pub IsDistinct : List ℕ → Type 0
IsDistinct [] = Unit {0}
IsDistinct (t ∷ ts) = IsAbsent t ts × IsDistinct ts

abbrev pub without : ℕ → List ℕ → List ℕ
without tab [] = []
without tab (t ∷ ts) = if t == tab then without tab ts else t ∷ without tab ts

pub same_tab : (a b : ℕ) → (a == b) ≡ true → a ≡ b
same_tab a b e = ground arith

-- The last place at which the tab stands is the one that is found.
index_from-last :
    (n j : ℕ) (tabs : List ℕ) (tab : ℕ)
    → j < n
    → (get_or tabs j 0 == tab) ≡ true
    → ((k : ℕ) → j < k → k < n → (get_or tabs k 0 == tab) ≡ false)
    → index_from n tabs tab ≡ some j
unfolding index_from
index_from-last zero j tabs tab h e q = absurd (omega (arith, h))
index_from-last (suc n) j tabs tab h e q = elim (Bool-cases (j == n)) [
  | inl same ↦ rw (same_tab n j (ground arith), e) refl
  | inr other ↦
      rw (q n (ground arith) (omega arith))
        (index_from-last n j tabs tab (ground arith) e (λ k p p'. q k p (omega (arith, p'))))
]

absent-get_or :
    (tab k : ℕ) (tabs : List ℕ)
    → IsAbsent tab tabs
    → k < length tabs
    → (get_or tabs k 0 == tab) ≡ false
absent-get_or tab k [] h i = absurd (omega (arith, i))
absent-get_or tab zero (t ∷ ts) (h, hs) i = h
absent-get_or tab (suc k) (t ∷ ts) (h, hs) i = absent-get_or tab k ts hs (omega (arith, i))

distinct-get_or :
    (tabs : List ℕ) (j k : ℕ)
    → IsDistinct tabs
    → j < k
    → k < length tabs
    → (get_or tabs k 0 == get_or tabs j 0) ≡ false
distinct-get_or [] j k d h i = absurd (omega (arith, i))
distinct-get_or (t ∷ ts) zero (suc k) (a, d) h i = absent-get_or t k ts a (omega (arith, i))
distinct-get_or (t ∷ ts) zero zero d h i = absurd (omega (arith, h))
distinct-get_or (t ∷ ts) (suc j) zero d h i = absurd (omega (arith, h))
distinct-get_or (t ∷ ts) (suc j) (suc k) (a, d) h i =
    distinct-get_or ts j k d (omega (arith, h)) (omega (arith, i))

-- `indexOf` finds the place of a tab of the list.
pub index_of-get_or :
    (tabs : List ℕ) (j : ℕ)
    → IsDistinct tabs
    → j < length tabs
    → index_of tabs (get_or tabs j 0) ≡ some j
unfolding index_of
index_of-get_or tabs j d i =
    index_from-last (length tabs) j tabs (get_or tabs j 0) i (ground arith)
      (λ k p p'. distinct-get_or tabs j k d p p')

index_from-absent :
    (n : ℕ) (tabs : List ℕ) (tab : ℕ)
    → n ≤ length tabs
    → IsAbsent tab tabs
    → index_from n tabs tab ≡ none
unfolding index_from
index_from-absent zero tabs tab h a = refl
index_from-absent (suc n) tabs tab h a =
    rw (absent-get_or tab n tabs a h) (index_from-absent n tabs tab (omega (arith, h)) a)

pub index_of-absent : (tabs : List ℕ) (tab : ℕ) → IsAbsent tab tabs → index_of tabs tab ≡ none
unfolding index_of
index_of-absent tabs tab a = index_from-absent (length tabs) tabs tab (omega arith) a

-- A tab stands in the list or not.
position :
    (tabs : List ℕ) (tab : ℕ)
    → IsAbsent tab tabs ⊎ ((j : ℕ) × (j < length tabs) × (get_or tabs j 0 ≡ tab))
position [] tab = inl tt
position (t ∷ ts) tab = elim (Bool-cases (t == tab)) [
  | inl e ↦ inr (0, omega arith, same_tab t tab e)
  | inr e ↦ elim (position ts tab) [
    | inl a ↦ inl (e, a)
    | inr (j, i, p) ↦ inr (suc j, omega (arith, i), p)
  ]
]

without-absent : (tabs : List ℕ) (tab : ℕ) → IsAbsent tab tabs → without tab tabs ≡ tabs
without-absent [] tab a = refl
without-absent (t ∷ ts) tab (e, a) = rw e (ap (t ∷◌) (without-absent ts tab a))

erase_at-without :
    (tabs : List ℕ) (j : ℕ)
    → IsDistinct tabs
    → j < length tabs
    → erase_at tabs j ≡ without (get_or tabs j 0) tabs
unfolding erase_at
erase_at-without [] j d i = absurd (omega (arith, i))
erase_at-without (t ∷ ts) zero (a, d) i =
    let e : (t == t) ≡ true = ground arith in rw e (sym (without-absent ts t a))
erase_at-without (t ∷ ts) (suc j) (a, d) i =
    let h : j < length ts = omega (arith, i) in
    let p = absent-get_or t j ts a h in
    let e : (t == get_or ts j 0) ≡ false = ground arith in
    rw e (ap (t ∷◌) (erase_at-without ts j d h))

-- On a list in which no tab stands twice, `splice` takes out the tab, if it is there, and keeps the
-- others in their order.
pub splice-without :
    (tabs : List ℕ) (tab : ℕ) → IsDistinct tabs → splice tabs tab ≡ without tab tabs
unfolding splice
splice-without tabs tab d = elim (position tabs tab) [
  | inl a ↦ rw (index_of-absent tabs tab a) (sym (without-absent tabs tab a))
  | inr (j, i, p) ↦ rw (← p, index_of-get_or tabs j d i) (erase_at-without tabs j d i)
]
