-- ===== src/Dtree/Lookup.antt =====
-- The watch cache as a map from watch descriptors to pathnames.
use mathlib.Core.Path.{subst}
use mathlib.Core.Option.{some-injective}
use tlpi_exercises.Base.{
  ℕ, zero, suc, ◌+◌, ◌≡◌, ◌≢◌, refl, ap, ◌∙◌, inl, inr, Bool-cases, Option-cases, true, Option,
  none, some, List, [], ◌∷◌, ◌++◌, arith, ◌==◌, if◌then◌else◌, get_elem?,
}
use tlpi_exercises.Dtree.{
  Text, Watch, unused, same_wd, find_from, find_watch, set, replicate, mark_cache_slot_empty,
}

-- The pathname of a watch descriptor, where a slot has it.
unfoldable pub view : List Watch → ℕ → Option Text
view [] x = none
view (w ∷ cache) x = let rest = view cache x in if same_wd w.wd (some x) then some w.path else rest

unfoldable pub Fresh : Option ℕ → List Watch → Type 0
Fresh none cache = Unit
Fresh (some x) cache = view cache x ≡ none

-- No two slots have the same watch descriptor.
unfoldable pub Distinct : List Watch → Type 0
Distinct [] = Unit
Distinct (w ∷ cache) = Fresh w.wd cache × Distinct cache

pub same_wd_iff : (a : Option ℕ) (x : ℕ) → same_wd a (some x) ≡ true → a ≡ some x
unfolding same_wd
same_wd_iff none x e = absurd (cc)
same_wd_iff (some a) x e = let h : a ≡ x = ground arith in ap some h

pub same_wd_self : (x : ℕ) → same_wd (some x) (some x) ≡ true
unfolding same_wd
same_wd_self x = ground arith

-- Where the search finds a slot, that slot has the descriptor, and the map has its pathname.
find_from-some :
    (j : ℕ) (x slot : ℕ) (cache : List Watch)
    → find_from j (some x) cache ≡ some slot
    → (i : ℕ) × (w : Watch) × (slot ≡ j + i)
      × (get_elem? cache i ≡ some w)
      × (w.wd ≡ some x)
      × (view cache x ≡ some w.path)
unfolding find_from view
find_from-some j x slot [] e = absurd (cc)
find_from-some j x slot (w ∷ cache) e = elim (Bool-cases (same_wd w.wd (some x))) [
  | inl s ↦ (0, w, ground arith, refl, same_wd_iff w.wd x s, rw (s) refl)
  | inr s ↦
      let (i, v, a, b, c, d) = find_from-some (j + 1) x slot cache (ground arith) in
      (suc i, v, omega arith, b, c, rw (s) d)
]

pub find_watch-some :
    (x slot : ℕ) (cache : List Watch)
    → find_watch (some x) cache ≡ some slot
    → (w : Watch) × (get_elem? cache slot ≡ some w) × (w.wd ≡ some x) × (view cache x ≡ some w.path)
unfolding find_watch
find_watch-some x slot cache e =
    let (i, w, a, b, c, d) = find_from-some 0 x slot cache e in
    let same : slot ≡ i = omega arith in (w, ap (λ (n : ℕ). get_elem? cache n) same ∙ b, c, d)

find_from-none :
    (j : ℕ) (x : ℕ) (cache : List Watch) → find_from j (some x) cache ≡ none → view cache x ≡ none
unfolding find_from view
find_from-none j x [] e = refl
find_from-none j x (w ∷ cache) e = ground (arith, find_from-none (j + 1) x cache)

pub find_watch-none :
    (x : ℕ) (cache : List Watch) → find_watch (some x) cache ≡ none → view cache x ≡ none
unfolding find_watch
find_watch-none x cache e = find_from-none 0 x cache e

find_from-unused :
    (j slot : ℕ) (cache : List Watch)
    → find_from j none cache ≡ some slot
    → (i : ℕ) × (w : Watch) × (slot ≡ j + i) × (get_elem? cache i ≡ some w) × (w.wd ≡ none)
unfolding find_from same_wd
find_from-unused j slot [] e = absurd (cc)
find_from-unused j slot (w ∷ cache) e = elim (Option-cases w.wd) [
  | inl s ↦ (0, w, ground arith, refl, s)
  | inr (a, s) ↦
      let (i, v, b, c, d) = find_from-unused (j + 1) slot cache (rw (s, same_wd) at e) in
      (suc i, v, omega arith, c, d)
]

-- The slot that is free has no watch descriptor.
pub find_watch-unused :
    (slot : ℕ) (cache : List Watch)
    → find_watch none cache ≡ some slot
    → (w : Watch) × (get_elem? cache slot ≡ some w) × (w.wd ≡ none)
unfolding find_watch
find_watch-unused slot cache e =
    let (i, w, a, b, c) = find_from-unused 0 slot cache e in
    let same : slot ≡ i = omega arith in (w, ap (λ (n : ℕ). get_elem? cache n) same ∙ b, c)

-- the first slot, by what it holds
pub view-unused :
    (w : Watch) (cache : List Watch) (x : ℕ) → w.wd ≡ none → view (w ∷ cache) x ≡ view cache x
unfolding view same_wd
view-unused w cache x e = rw (e) refl

pub view-used :
    (w : Watch) (cache : List Watch) (a x : ℕ)
    → w.wd ≡ some a
    → view (w ∷ cache) x ≡ (if a == x then some w.path else view cache x)
unfolding view same_wd
view-used w cache a x e = rw (e) refl

-- a watch put into a free slot
pub view-set :
    (cache : List Watch) (slot : ℕ) (w : Watch) (x y : ℕ) (path : Text)
    → get_elem? cache slot ≡ some w
    → w.wd ≡ none
    → view cache x ≡ none
    → view (set cache slot (record { wd = some x; path = path })) y
      ≡ (if x == y then some path else view cache y)
view-set [] slot w x y path g u f = absurd (cc)
view-set (v ∷ cache) zero w x y path g u f =
    let e : v.wd ≡ none = ap (λ (z : Watch). z.wd) (some-injective _ _ g) ∙ u in
    view-used (record { wd = some x; path = path }) cache x y refl
    ∙ rw (view-unused v cache y e) refl
view-set (v ∷ cache) (suc slot) w x y path g u f =
    let next = set cache slot (record { wd = some x; path = path }) in
    elim (Option-cases v.wd) [
      | inl e ↦
          rw (view-unused v cache y e, view-unused v next y e)
            (view-set cache slot w x y path g u (rw (view-unused v cache x e) at f))
      | inr (a, e) ↦ ground (
        arith,
        view-used v cache a x e,
        view-used v cache a y e,
        view-used v next a y e,
        view-set cache slot w x y path g u,
      )
    ]

-- free slots at the end
pub view-append :
    (cache : List Watch) (n x : ℕ) → view (cache ++ replicate n unused) x ≡ view cache x
unfolding view
view-append [] zero x = refl
view-append [] (suc n) x = view-unused unused (replicate n unused) x refl ∙ view-append [] n x
view-append (w ∷ cache) n x = ground (arith, view-append cache n x)

view-Fresh :
    (w : Watch) (cache : List Watch) (x : ℕ)
    → Fresh w.wd cache
    → w.wd ≡ some x
    → view cache x ≡ none
unfolding Fresh
view-Fresh w cache x f e = subst (λ (o : Option ℕ). Fresh o cache) e f

-- a descriptor in a slot has a pathname
view-present :
    (cache : List Watch) (slot : ℕ) (w : Watch) (x : ℕ)
    → get_elem? cache slot ≡ some w
    → w.wd ≡ some x
    → view cache x ≢ none
view-present [] slot w x g u = absurd (cc)
view-present (v ∷ cache) zero w x g u =
    let e : v.wd ≡ some x = ap (λ (z : Watch). z.wd) (some-injective _ _ g) ∙ u in
    ground (arith, view-used v cache x x e)
view-present (v ∷ cache) (suc slot) w x g u = elim (Option-cases v.wd) [
  | inl e ↦ rw (view-unused v cache x e) (view-present cache slot w x g u)
  | inr (a, e) ↦ ground (arith, view-used v cache a x e, view-present cache slot w x g u)
]

-- a slot that is emptied
pub view-mark_empty :
    (cache : List Watch) (slot : ℕ) (w : Watch) (x y : ℕ)
    → Distinct cache
    → get_elem? cache slot ≡ some w
    → w.wd ≡ some x
    → view (mark_cache_slot_empty slot cache) y ≡ (if x == y then none else view cache y)
unfolding Distinct mark_cache_slot_empty
view-mark_empty [] slot w x y d g u = absurd (cc)
view-mark_empty (v ∷ cache) zero w x y d g u =
    let e : v.wd ≡ some x = ap (λ (z : Watch). z.wd) (some-injective _ _ g) ∙ u in
    let f = view-Fresh v cache x d.0 e in
    ground (arith, view-unused unused cache y refl, view-used v cache x y e)
view-mark_empty (v ∷ cache) (suc slot) w x y d g u =
    let next = mark_cache_slot_empty slot cache in
    let ih = view-mark_empty cache slot w x y d.1 g u in
    elim (Option-cases v.wd) [
      | inl e ↦ rw (view-unused v cache y e) (view-unused v next y e ∙ ih)
      | inr (a, e) ↦
          let f = view-Fresh v cache a d.0 e in
          let p = view-present cache slot w x g u in
          ground (arith, view-used v cache a y e, view-used v next a y e)
    ]
