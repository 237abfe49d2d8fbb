-- ===== src/Dtree/Zap.antt =====
-- What `zapSubtree` does to the cache.
use mathlib.Core.Path.{subst}
use tlpi_exercises.Base.{
  ℕ, ◌+◌, ◌≡◌, refl, sym, ap, ◌∙◌, ◌⊎◌, inl, inr, Bool-cases, Option-cases, Bool, true, false,
  length, has, Option, none, some, List, [], ◌∷◌, arith, if◌then◌else◌,
}
use tlpi_exercises.Dtree.{Text, Watch, unused, Kernel}
use tlpi_exercises.Dtree.Lookup.{view, Fresh, Distinct, view-unused, view-used}
use tlpi_exercises.Dtree.Unique.{Distinct-cons, view-tail}
use tlpi_exercises.Dtree.Watching.{in_subtree, zap_slot, zap_loop}

-- what stays of an entry where the subtree is taken out
abbrev pub outside : Text → Option Text → Option Text
outside pn none = none
outside pn (some path) = if in_subtree pn path then none else some path

-- the watches of a directory and of those below it, in the order of the cache
abbrev pub add_removal : Option ℕ → Bool → List ℕ → List ℕ
add_removal none inside wds = wds
add_removal (some wd) true wds = wd ∷ wds
add_removal (some wd) false wds = wds

abbrev pub removals : Text → List Watch → List ℕ
removals pn [] = []
removals pn (w ∷ cache) = add_removal w.wd (in_subtree pn w.path) (removals pn cache)

-- inotify_rm_watch(2) for each of them
abbrev pub remove_each : (k : Kernel) → ℕ → List ℕ → k.Os → k.Os
remove_each k fd [] o = o
remove_each k fd (wd ∷ wds) o = remove_each k fd wds (k.inotify_rm_watch o fd wd).1

module _ (k : Kernel) (fd : ℕ) (pn : Text) where
  abbrev zap : List Watch → k.Os → Option ℕ × List Watch × k.Os
  zap cache o = zap_loop k fd pn cache o

  abbrev one_more : Option ℕ → Option ℕ
  one_more none = none
  one_more (some n) = some (n + 1)

  -- What becomes of the first slot: it is kept, the call for it fails, or it is emptied.
  data Step (w : Watch) (cache : List Watch) (o : k.Os) : Type 0 where
    kept :
        (w.wd ≡ none) ⊎ (in_subtree pn w.path ≡ false)
        → zap (w ∷ cache) o ≡ ((zap cache o).0, w ∷ (zap cache o).1, (zap cache o).2)
        → Step w cache o
    failed :
        (wd : ℕ)
        → w.wd ≡ some wd
        → in_subtree pn w.path ≡ true
        → (k.inotify_rm_watch o fd wd).0 ≡ false
        → zap (w ∷ cache) o ≡ (none, w ∷ cache, (k.inotify_rm_watch o fd wd).1)
        → Step w cache o
    emptied :
        (wd : ℕ) (o1 : k.Os)
        → (k.inotify_rm_watch o fd wd).1 ≡ o1
        → w.wd ≡ some wd
        → in_subtree pn w.path ≡ true
        → (k.inotify_rm_watch o fd wd).0 ≡ true
        → zap (w ∷ cache) o
          ≡ (one_more (zap cache o1).0, unused ∷ (zap cache o1).1, (zap cache o1).2)
        → Step w cache o

  zap_slot-Step :
      (x : Option ℕ) (w : Watch) (cache : List Watch) (o : k.Os)
      → w.wd ≡ x
      → zap (w ∷ cache) o ≡ zap_slot k fd pn x w cache (zap cache) o
      → Step w cache o
  unfolding zap_slot
  zap_slot-Step none w cache o e z = kept (inl e) z
  zap_slot-Step (some wd) w cache o e z = elim (Bool-cases (in_subtree pn w.path)) [
    | inr s ↦ kept (inr s) (z ∙ rw (s) refl)
    | inl s ↦ elim (Bool-cases ((k.inotify_rm_watch o fd wd).0)) [
      | inr r ↦ failed wd e s r (z ∙ rw (s, r) refl)
      | inl r ↦
          let o1 = (k.inotify_rm_watch o fd wd).1 in emptied wd o1 refl e s r (z ∙ rw (s, r) refl)
    ]
  ]

  step : (w : Watch) (cache : List Watch) (o : k.Os) → Step w cache o
  unfolding zap_loop
  step w cache o = zap_slot-Step w.wd w cache o refl refl

  Distinct-of : {a b : Option ℕ × List Watch × k.Os} → a ≡ b → Distinct b.1 → Distinct a.1
  Distinct-of e d = subst (λ (r : Option ℕ × List Watch × k.Os). Distinct r.1) (sym e) d

  Fresh-unused : (cache : List Watch) → Fresh none cache
  unfolding Fresh
  Fresh-unused cache = tt

  -- a watch that is not there is not there afterwards
  zap-none :
      (cache : List Watch) (o : k.Os) (y : ℕ) → view cache y ≡ none → view (zap cache o).1 y ≡ none
  unfolding zap_loop
  zap-none [] o y e = e
  zap-none (w ∷ cache) o y e =
      let tail = view-tail w cache y e in
      elim (step w cache o) [
        | kept c z ↦
            ap (λ (r : Option ℕ × List Watch × k.Os). view r.1 y) z ∙ elim (Option-cases w.wd) [
              | inl h ↦ view-unused w (zap cache o).1 y h ∙ zap-none cache o y tail
              | inr (a, h) ↦ ground (
                arith,
                view-used w cache a y h,
                view-used w (zap cache o).1 a y h,
                zap-none cache o y tail,
              )
            ]
        | failed wd h s r z ↦ ap (λ (r : Option ℕ × List Watch × k.Os). view r.1 y) z ∙ e
        | emptied wd o1 g h s r z ↦
            ap (λ (r : Option ℕ × List Watch × k.Os). view r.1 y) z
            ∙ view-unused unused (zap cache o1).1 y refl
            ∙ zap-none cache o1 y tail
      ]

  pub zap-Distinct : (cache : List Watch) (o : k.Os) → Distinct cache → Distinct (zap cache o).1
  unfolding zap_loop Distinct
  zap-Distinct [] o d = d
  zap-Distinct (w ∷ cache) o d = elim (step w cache o) [
    | kept c z ↦ Distinct-of z (
        Distinct-cons w cache (zap cache o).1 d.0 (zap-Distinct cache o d.1)
          (λ y e h. zap-none cache o y h))
    | failed wd h s r z ↦ Distinct-of z d
    | emptied wd o1 g h s r z ↦
        Distinct-of z (Fresh-unused (zap cache o1).1, zap-Distinct cache o1 d.1)
  ]

  -- a watch whose removal failed and left the state `o2`
  abbrev pub RemovalFailed : List ℕ → k.Os → Type 0
  RemovalFailed wds o2 =
      (o1 : k.Os) × (wd : ℕ) × (has wd wds ≡ true)
      × ((k.inotify_rm_watch o1 fd wd).0 ≡ false)
      × ((k.inotify_rm_watch o1 fd wd).1 ≡ o2)

  -- How the loop ends: with all watches removed, or at the first call that fails.
  abbrev Ends : List ℕ → k.Os → Option ℕ × List Watch × k.Os → Type 0
  Ends wds o (r, cache, o2) =
      ((r ≡ some (length wds)) × (o2 ≡ remove_each k fd wds o))
      ⊎ ((r ≡ none) × RemovalFailed wds o2)
