-- ===== src/Dtree/Rename.antt =====
-- What a rename within the watched trees does to the cache.
use tlpi_exercises.Base.{
  ℕ, ◌+◌, ◌<◌, ◌≡◌, ◌≢◌, refl, ap, ◌∙◌, inl, inr, Bool-cases, Option-cases, Bool, true, false,
  Option, none, some, List, [], ◌∷◌, ◌++◌, arith, ◌==◌, length, drop, ltb_of_lt,
}
use tlpi_exercises.Dtree.{Text, Watch, done, Event, Kernel, State, same_wd, find_watch}
use tlpi_exercises.Dtree.Lookup.{view, find_watch-some, find_watch-none}
use tlpi_exercises.Dtree.Unique.{renamed, map_path, view-rewrite}
use tlpi_exercises.Dtree.Watching.{cut_path, slash, join, in_subtree, rewrite_cached_paths}
use tlpi_exercises.Dtree.Events.{
  size, path_at, finish, on_rename, on_moved_from, dispatch, process_next_inotify_event,
}

-- What follows a directory's name in the pathname of the directory or of a file below it.
abbrev pub AtBoundary : Text → Type 0
AtBoundary [] = Unit
AtBoundary (b ∷ rest) = b ≡ slash

-- `q` is the pathname `p` after the rename of the directory `old` to `new`, cut to what an array of
-- `PATH_MAX` characters holds.
pub data Renamed (old new p q : Text) : Type 0 where
  moved :
      (rest : Text)
      → AtBoundary rest
      → p ≡ old ++ rest
      → q ≡ cut_path (new ++ rest)
      → Renamed old new p q
  other : ((rest : Text) → AtBoundary rest → p ≢ old ++ rest) → q ≡ p → Renamed old new p q

in_subtree-append : (dir rest : Text) → AtBoundary rest → in_subtree dir (dir ++ rest) ≡ true
unfolding in_subtree
in_subtree-append [] [] h = refl
in_subtree-append [] (b ∷ rest) h = ground arith
in_subtree-append (c ∷ dir) rest h = ground (arith, in_subtree-append dir rest h)

in_subtree-rest :
    (dir path : Text)
    → in_subtree dir path ≡ true
    → (path ≡ dir ++ drop (length dir) path) × AtBoundary (drop (length dir) path)
unfolding in_subtree
in_subtree-rest [] [] e = (refl, tt)
in_subtree-rest [] (b ∷ path) e = (refl, ground arith)
in_subtree-rest (c ∷ dir) [] e = absurd (cc)
in_subtree-rest (c ∷ dir) (b ∷ path) e =
    let (p, q) = in_subtree-rest dir path (ground arith) in
    let same : b ≡ c = ground arith in
    (ap (λ (l : Text). b ∷ l) p ∙ ap (λ (x : ℕ). x ∷ (dir ++ drop (length dir) path)) same, q)

renamed-Renamed : (old new p : Text) → Renamed old new p (renamed old new p)
unfolding renamed
renamed-Renamed old new p = elim (Bool-cases (in_subtree old p)) [
  | inl s ↦ let (a, b) = in_subtree-rest old p s in moved (drop (length old) p) b a (rw (s) refl)
  | inr s ↦
      other
        (λ rest h e.
          let t = in_subtree-append old rest h in
          let u : in_subtree old p ≡ true = ap (in_subtree old) e ∙ t in cc)
        (rw (s) refl)
]

-- where the map has a pathname the search finds a slot with it
pub view-path_at :
    (cache : List Watch) (x : ℕ) (path : Text)
    → view cache x ≡ some path
    → (slot : ℕ) × (find_watch (some x) cache ≡ some slot) × (path_at (some slot) cache ≡ done path)
unfolding path_at
view-path_at cache x path e = elim (Option-cases (find_watch (some x) cache)) [
  | inl n ↦ let z = find_watch-none x cache n in absurd (cc)
  | inr (slot, f) ↦
      let (w, g, u, v) = find_watch-some x slot cache f in
      let same : w.path ≡ path = ground arith in
      (slot, f, rw (path_at, g) (ap (λ (t : Text). done t) same))
]

module _ (k : Kernel) where
  finish-plain : (n : ℕ) (s : State k) → s.check_cache ≡ false → finish k n s ≡ done (some n, s)
  unfolding finish
  finish-plain n s e = rw (e) refl

  -- a directory's IN_MOVED_FROM goes to its branch
  dispatch-moved_from :
      (first_try : Bool) (left : ℕ) (slot : Option ℕ) (ev : Event) (rest : List Event) (s : State k)
      → ev.mask.in_isdir ≡ true
      → ev.mask.in_moved_from ≡ true
      → ev.mask.in_create ≡ false
      → ev.mask.in_moved_to ≡ false
      → ev.mask.in_delete_self ≡ false
      → dispatch k first_try left slot ev rest s ≡ on_moved_from k first_try left slot ev rest s
  unfolding dispatch
  dispatch-moved_from first_try left slot ev rest s a b c d e = simp (a, b, c, d, e) refl

  process_next-found :
      (first_try : Bool) (left x slot : ℕ) (ev : Event) (rest : List Event) (s : State k)
      → ev.wd ≡ some x
      → ev.mask.in_ignored ≡ false
      → find_watch (some x) s.wl_cache ≡ some slot
      → process_next_inotify_event k first_try left ev rest s
        ≡ dispatch k first_try left (some slot) ev rest s
  unfolding process_next_inotify_event same_wd
  process_next-found first_try left x slot ev rest s a b c = simp (a, b, c) refl

  on_rename-done :
      (slot slot' : ℕ) (ev next_ev : Event) (y : ℕ) (old_dir new_dir : Text) (s : State k)
      → next_ev.wd ≡ some y
      → find_watch (some y) s.wl_cache ≡ some slot'
      → path_at (some slot) s.wl_cache ≡ done old_dir
      → path_at (some slot') s.wl_cache ≡ done new_dir
      → s.check_cache ≡ false
      → on_rename k (some slot) ev next_ev s
        ≡ done (
          some (size ev + size next_ev),
          record s {
            wl_cache = rewrite_cached_paths old_dir ev.name new_dir next_ev.name s.wl_cache;
          },
        )
  unfolding on_rename
  on_rename-done slot slot' ev next_ev y old_dir new_dir s a b c d e =
      let next : find_watch next_ev.wd s.wl_cache ≡ some slot' =
        ap (λ (o : Option ℕ). find_watch o s.wl_cache) a ∙ b in
      rw (on_rename, next, c, d) (finish-plain (size ev + size next_ev) _ e)

  on_moved_from-pair :
      (first_try : Bool) (left : ℕ) (slot : Option ℕ) (ev next_ev : Event) (rest : List Event)
      (s : State k)
      → size ev < left
      → next_ev.mask.in_moved_to ≡ true
      → next_ev.cookie ≡ ev.cookie
      → on_moved_from k first_try left slot ev (next_ev ∷ rest) s ≡ on_rename k slot ev next_ev s
  unfolding on_moved_from
  on_moved_from-pair first_try left slot ev next_ev rest s lt to c =
      let behind = ltb_of_lt (size ev) left lt in
      let same : (next_ev.cookie == ev.cookie) ≡ true = ground arith in simp (behind, to, same) refl

  -- An IN_MOVED_FROM event for a directory, with the IN_MOVED_TO event of the same rename behind it,
  -- both for watches of the cache: where the cache is not checked after each event, both events are
  -- taken, every watch stays and no other comes, and the cached pathnames are changed as the rename
  -- does: those of the directory and of what is below it, and no others. The two names of the
  -- directory, and each new pathname, are cut to `PATH_MAX - 1` characters.
  pub process_next-rename :
      (first_try : Bool) (left a b : ℕ) (ev next_ev : Event) (rest : List Event)
      (old_dir new_dir : Text) (s : State k)
      → ev.wd ≡ some a
      → view s.wl_cache a ≡ some old_dir
      → next_ev.wd ≡ some b
      → view s.wl_cache b ≡ some new_dir
      → ev.mask.in_isdir ≡ true
      → ev.mask.in_moved_from ≡ true
      → ev.mask.in_create ≡ false
      → ev.mask.in_moved_to ≡ false
      → ev.mask.in_delete_self ≡ false
      → ev.mask.in_ignored ≡ false
      → next_ev.mask.in_moved_to ≡ true
      → next_ev.cookie ≡ ev.cookie
      → size ev < left
      → s.check_cache ≡ false
      → (s1 : State k) × (process_next_inotify_event k first_try left ev (next_ev ∷ rest) s
          ≡ done (some (size ev + size next_ev), s1))
        × ((x : ℕ) → view s.wl_cache x ≡ none → view s1.wl_cache x ≡ none)
        × ((x : ℕ) (p : Text)
            → view s.wl_cache x ≡ some p
            → (q : Text) × (view s1.wl_cache x ≡ some q)
              × Renamed
                  (cut_path (join old_dir ev.name))
                  (cut_path (join new_dir next_ev.name))
                  p
                  q)
  unfolding rewrite_cached_paths
  process_next-rename first_try left a b ev next_ev rest old_dir new_dir s wa va wb vb m1 m2 m3 m4
        m5 m6 to c lt plain =
      let (slot, f, p) = view-path_at s.wl_cache a old_dir va in
      let (slot', f', p') = view-path_at s.wl_cache b new_dir vb in
      let old = cut_path (join old_dir ev.name) in
      let new = cut_path (join new_dir next_ev.name) in
      (
        _,
        process_next-found first_try left a slot ev (next_ev ∷ rest) s wa m6 f
            ∙ dispatch-moved_from first_try left (some slot) ev (next_ev ∷ rest) s m1 m2 m3 m4 m5
            ∙ on_moved_from-pair first_try left (some slot) ev next_ev rest s lt to c
            ∙ on_rename-done slot slot' ev next_ev b old_dir new_dir s wb f' p p' plain,
        λ x e. view-rewrite old new s.wl_cache x ∙ ap (map_path (renamed old new)) e,
        λ x q e. (
          renamed old new q,
          view-rewrite old new s.wl_cache x ∙ ap (map_path (renamed old new)) e,
          renamed-Renamed old new q,
        ),
      )
