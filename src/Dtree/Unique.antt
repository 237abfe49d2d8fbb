-- ===== src/Dtree/Unique.antt =====
-- No two slots of the cache have the same watch descriptor: what each change of the cache keeps.
use mathlib.Core.Path.{subst}
use mathlib.Core.Option.{some-injective}
use tlpi_exercises.Base.{
  ℕ, zero, suc, ◌≡◌, refl, sym, ap, ◌∙◌, inl, inr, Option-cases, Option, none, some, List, [], ◌∷◌,
  ◌++◌, map, arith, if◌then◌else◌, length, drop, get_elem?,
}
use tlpi_exercises.Dtree.{Text, Watch, unused, set, replicate, mark_cache_slot_empty}
use tlpi_exercises.Dtree.Lookup.{
  view, Fresh, Distinct, view-unused, view-used, view-set, view-append,
}
use tlpi_exercises.Dtree.Watching.{cut_path, in_subtree, rewrite_watch}

-- a free slot is fresh, and so is a descriptor that the map does not have
pub Fresh-of_view :
    (o : Option ℕ) (cache : List Watch)
    → ((a : ℕ) → o ≡ some a → view cache a ≡ none)
    → Fresh o cache
unfolding Fresh
Fresh-of_view none cache h = tt
Fresh-of_view (some a) cache h = h a refl

pub view-of_Fresh :
    (o : Option ℕ) (cache : List Watch) (a : ℕ) → Fresh o cache → o ≡ some a → view cache a ≡ none
unfolding Fresh
view-of_Fresh o cache a f e = subst (λ (z : Option ℕ). Fresh z cache) e f

-- a change of the slots behind that keeps what the map does not have
pub Distinct-cons :
    (w : Watch) (cache next : List Watch)
    → Fresh w.wd cache
    → Distinct next
    → ((y : ℕ) → w.wd ≡ some y → view cache y ≡ none → view next y ≡ none)
    → Distinct (w ∷ next)
unfolding Distinct
Distinct-cons w cache next f d h =
    (Fresh-of_view w.wd next (λ a e. h a e (view-of_Fresh w.wd cache a f e)), d)

pub view-tail :
    (v : Watch) (cache : List Watch) (x : ℕ) → view (v ∷ cache) x ≡ none → view cache x ≡ none
view-tail v cache x h = elim (Option-cases v.wd) [
  | inl e ↦ sym (view-unused v cache x e) ∙ h
  | inr (a, e) ↦ ground (arith, view-used v cache a x e)
]

pub Distinct-set :
    (cache : List Watch) (slot : ℕ) (w : Watch) (x : ℕ) (path : Text)
    → Distinct cache
    → get_elem? cache slot ≡ some w
    → w.wd ≡ none
    → view cache x ≡ none
    → Distinct (set cache slot (record { wd = some x; path = path }))
unfolding Distinct
Distinct-set [] slot w x path d g u f = absurd (cc)
Distinct-set (v ∷ cache) zero w x path d g u f =
    let e : v.wd ≡ none = ap (λ (z : Watch). z.wd) (some-injective _ _ g) ∙ u in
    (
      Fresh-of_view (some x) cache (λ a i.
          let is : x ≡ a = some-injective _ _ i in
          ap (λ (z : ℕ). view cache z) (sym is) ∙ view-tail v cache x f),
      d.1,
    )
Distinct-set (v ∷ cache) (suc slot) w x path d g u f =
    let fx = view-tail v cache x f in
    let next = set cache slot (record { wd = some x; path = path }) in
    Distinct-cons v cache next d.0 (Distinct-set cache slot w x path d.1 g u fx)
      (λ y e h. ground (arith, view-used v cache y x e, view-set cache slot w x y path g u fx))

pub view-mark-none :
    (cache : List Watch) (slot y : ℕ)
    → view cache y ≡ none
    → view (mark_cache_slot_empty slot cache) y ≡ none
unfolding mark_cache_slot_empty
view-mark-none [] slot y e = e
view-mark-none (v ∷ cache) zero y e = view-unused unused cache y refl ∙ view-tail v cache y e
view-mark-none (v ∷ cache) (suc slot) y e =
    let next = mark_cache_slot_empty slot cache in
    let ih = view-mark-none cache slot y (view-tail v cache y e) in
    elim (Option-cases v.wd) [
      | inl h ↦ view-unused v next y h ∙ ih
      | inr (a, h) ↦ ground (arith, view-used v cache a y h, view-used v next a y h)
    ]

pub Distinct-mark :
    (cache : List Watch) (slot : ℕ) → Distinct cache → Distinct (mark_cache_slot_empty slot cache)
unfolding Distinct mark_cache_slot_empty Fresh
Distinct-mark [] slot d = d
Distinct-mark (v ∷ cache) zero d = (tt, d.1)
Distinct-mark (v ∷ cache) (suc slot) d =
    Distinct-cons v cache (mark_cache_slot_empty slot cache) d.0 (Distinct-mark cache slot d.1)
      (λ y e h. view-mark-none cache slot y h)

pub Distinct-append :
    (cache : List Watch) (n : ℕ) → Distinct cache → Distinct (cache ++ replicate n unused)
unfolding Distinct Fresh
Distinct-append [] zero d = tt
Distinct-append [] (suc n) d = (tt, Distinct-append [] n d)
Distinct-append (v ∷ cache) n d =
    Distinct-cons v cache (cache ++ replicate n unused) d.0 (Distinct-append cache n d.1)
      (λ y e h. view-append cache n y ∙ h)

-- the pathname after a rename
unfoldable pub renamed : Text → Text → Text → Text
renamed full_path new_prefix path =
    if in_subtree full_path path
    then cut_path (new_prefix ++ drop (length full_path) path)
    else path

abbrev pub map_path : (Text → Text) → Option Text → Option Text
map_path f none = none
map_path f (some p) = some (f p)

rewrite_watch-wd : (f n : Text) (w : Watch) → (rewrite_watch f n w).wd ≡ w.wd
unfolding rewrite_watch
rewrite_watch-wd f n w = ground arith

rewrite_watch-path : (f n : Text) (w : Watch) → (rewrite_watch f n w).path ≡ renamed f n w.path
unfolding rewrite_watch renamed
rewrite_watch-path f n w = ground arith

pub view-rewrite :
    (f n : Text) (cache : List Watch) (y : ℕ)
    → view (map (rewrite_watch f n) cache) y ≡ map_path (renamed f n) (view cache y)
unfolding view
view-rewrite f n [] y = refl
view-rewrite f n (w ∷ cache) y =
    let r = rewrite_watch f n w in
    let next = map (rewrite_watch f n) cache in
    let ih = view-rewrite f n cache y in
    elim (Option-cases w.wd) [
      | inl e ↦
          view-unused r next y (rewrite_watch-wd f n w ∙ e)
          ∙ ih
          ∙ ap (map_path (renamed f n)) (sym (view-unused w cache y e))
      | inr (a, e) ↦
          ap (λ (o : Option Text). o) (view-used r next a y (rewrite_watch-wd f n w ∙ e))
          ∙ ground (arith, rewrite_watch-path f n w)
          ∙ ap (map_path (renamed f n)) (sym (view-used w cache a y e))
    ]

pub Distinct-rewrite :
    (f n : Text) (cache : List Watch) → Distinct cache → Distinct (map (rewrite_watch f n) cache)
unfolding Distinct
Distinct-rewrite f n [] d = d
Distinct-rewrite f n (w ∷ cache) d =
    let next = map (rewrite_watch f n) cache in
    let kept = rewrite_watch-wd f n w in
    (
      Fresh-of_view (rewrite_watch f n w).wd next (λ a e.
          view-rewrite f n cache a
          ∙ ap (map_path (renamed f n)) (view-of_Fresh w.wd cache a d.0 (sym kept ∙ e))),
      Distinct-rewrite f n cache d.1,
    )
