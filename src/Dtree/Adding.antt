-- ===== src/Dtree/Adding.antt =====
-- What adding watches does to the cache.
use mathlib.Core.Path.{subst}
use tlpi_exercises.Base.{
  ℕ, suc, ◌+◌, ◌*◌, ◌≡◌, refl, sym, ap, ◌∙◌, inl, inr, Bool-cases, Option-cases, Bool, true, false,
  not, Option, none, some, List, [], ◌∷◌, ◌++◌, arith, ◌==◌, if◌then◌else◌, length, get_elem?,
}
use tlpi_exercises.Dtree.{
  Text, Watch, unused, Run, done, exits, ◌>>=◌, exit_failure, Added, watched, add_failed, Kernel,
  State, find_watch, set, replicate, alloc_incr, is_root_dir_path, find_empty_cache_slot,
  add_watch_to_cache,
}
use tlpi_exercises.Dtree.Ensures.{Ensures, Ensures-bind, Ensures-weaken, Ensures-if, Ensures-option}
use tlpi_exercises.Dtree.Lookup.{
  view, Distinct, view-append, view-set, find_watch-none, find_watch-some, find_watch-unused,
}
use tlpi_exercises.Dtree.Unique.{Distinct-append, Distinct-set}
use tlpi_exercises.Dtree.Watching.{
  enoent, after_add_watch, traverse_tree, traverse_all, watch_dir, watch_subtree,
}

get_elem?-new :
    (cache : List Watch) (n : ℕ)
    → get_elem? (cache ++ replicate (suc n) unused) (length cache) ≡ some unused
get_elem?-new [] n = refl
get_elem?-new (w ∷ cache) n = get_elem?-new cache n

-- the first pathname that comes with a watch
abbrev pub first : ℕ → List (ℕ × Text) → Option Text
first y [] = none
first y ((wd, path) ∷ watches) = if wd == y then some path else first y watches

abbrev pub or_else : Option Text → Option Text → Option Text
or_else none o = o
or_else (some p) o = some p

or_else-none : (o : Option Text) → or_else o none ≡ o
or_else-none none = refl
or_else-none (some p) = refl

or_else_assoc : (a b c : Option Text) → or_else (or_else a b) c ≡ or_else a (or_else b c)
or_else_assoc none b c = refl
or_else_assoc (some p) b c = refl

first-append : (y : ℕ) (a b : List (ℕ × Text)) → first y (a ++ b) ≡ or_else (first y a) (first y b)
first-append y [] b = refl
first-append y ((wd, path) ∷ a) b = elim (Bool-cases (wd == y)) [
  | inl t ↦ rw (t) refl
  | inr t ↦ rw (t) (first-append y a b)
]

added-new :
    (wd y : ℕ) (path : Text) (m : ℕ → Option Text)
    → m wd ≡ none
    → (if wd == y then some path else m y) ≡ or_else (m y) (first y ((wd, path) ∷ []))
added-new wd y path m e = elim (Bool-cases (wd == y)) [
  | inl t ↦
      let is : wd ≡ y = ground arith in let n : m y ≡ none = ap m (sym is) ∙ e in rw (t, n) refl
  | inr t ↦ rw (t) (sym (or_else-none (m y)))
]

added-old :
    (wd y : ℕ) (path p : Text) (m : ℕ → Option Text)
    → m wd ≡ some p
    → m y ≡ or_else (m y) (first y ((wd, path) ∷ []))
added-old wd y path p m e = elim (Bool-cases (wd == y)) [
  | inl t ↦
      let is : wd ≡ y = ground arith in let n : m y ≡ some p = ap m (sym is) ∙ e in rw (t, n) refl
  | inr t ↦ rw (t) (sym (or_else-none (m y)))
]

-- the watch that a call gives, if it does
abbrev given : Added → Text → List (ℕ × Text) → List (ℕ × Text)
given (watched wd) path rest = (wd, path) ∷ rest
given (add_failed err) path rest = rest

given-append :
    (added : Added) (path : Text) (rest : List (ℕ × Text))
    → given added path [] ++ rest ≡ given added path rest
given-append (watched wd) path rest = refl
given-append (add_failed err) path rest = refl

module _ (k : Kernel) where
  -- the state with a free slot, and the same map
  record HasSlot (s : State k) (r : ℕ × State k) : Type 0 where
    distinct : Distinct r.1.wl_cache
    unchanged : (y : ℕ) → view r.1.wl_cache y ≡ view s.wl_cache y
    slot : (w : Watch) × (get_elem? r.1.wl_cache r.0 ≡ some w) × (w.wd ≡ none)
    roots : r.1.root_dir_paths ≡ s.root_dir_paths
    os : r.1.os ≡ s.os

  find_empty_cache_slot-HasSlot :
      (s : State k) → Distinct s.wl_cache → Ensures (HasSlot s) (find_empty_cache_slot k s)
  unfolding find_empty_cache_slot
  find_empty_cache_slot-HasSlot s d =
      let grown : Run (ℕ × State k) = done (
        length s.wl_cache,
        record s {
          wl_cache = s.wl_cache ++ replicate alloc_incr unused;
          free = (k.realloc s.free ((length s.wl_cache + alloc_incr) * 4100)).1;
        },
      ) in
      Ensures-option (HasSlot s) (find_watch none s.wl_cache)
        (if not (k.realloc s.free ((length s.wl_cache + alloc_incr) * 4100)).0
          then exits exit_failure
          else grown)
        (λ j. done (j, s))
        (λ e.
          Ensures-if (HasSlot s)
            (not (k.realloc s.free ((length s.wl_cache + alloc_incr) * 4100)).0)
            (exits exit_failure) grown tt
            (record {
              distinct = Distinct-append s.wl_cache alloc_incr d;
              unchanged = λ y. view-append s.wl_cache alloc_incr y;
              slot = (unused, get_elem?-new s.wl_cache 199, refl);
              roots = refl;
              os = refl;
            }))
        (λ j e. record {
          distinct = d;
          unchanged = λ y. refl;
          slot = find_watch-unused j s.wl_cache e;
          roots = refl;
          os = refl;
        })

  -- the state where the watch `wd` has come
  record HasWatch (wd : ℕ) (path : Text) (s s1 : State k) : Type 0 where
    distinct : Distinct s1.wl_cache
    added : (y : ℕ) → view s1.wl_cache y ≡ (if wd == y then some path else view s.wl_cache y)
    roots : s1.root_dir_paths ≡ s.root_dir_paths
    os : s1.os ≡ s.os

  add_watch_to_cache-HasWatch :
      (wd : ℕ) (path : Text) (s : State k)
      → Distinct s.wl_cache
      → view s.wl_cache wd ≡ none
      → Ensures (λ (r : ℕ × State k). HasWatch wd path s r.1) (add_watch_to_cache k wd path s)
  unfolding add_watch_to_cache
  add_watch_to_cache-HasWatch wd path s d f =
      Ensures-bind (HasSlot s) (λ (r : ℕ × State k). HasWatch wd path s r.1)
        (find_empty_cache_slot k s)
        (λ (slot, s1). done (
          slot,
          record s1 { wl_cache = set s1.wl_cache slot (record { wd = some wd; path = path }) },
        ))
        (find_empty_cache_slot-HasSlot s d)
        (λ r h.
          let (w, g, u) = h.slot in
          let fr = h.unchanged wd ∙ f in
          record {
            distinct = Distinct-set r.1.wl_cache r.0 w wd path h.distinct g u fr;
            added = λ y.
                view-set r.1.wl_cache r.0 w wd y path g u fr
                ∙ ap (λ (o : Option Text). if wd == y then some path else o) (h.unchanged y);
            roots = h.roots;
            os = h.os;
          })

  -- The watches that the kernel gives for the directories among the files of a walk, and the system
  -- afterwards.
  unfoldable pub answers :
      ℕ → List (Option Text) → List (Text × Bool) → k.Os → List (ℕ × Text) × k.Os
  answers fd roots [] o = ([], o)
  answers fd roots ((path, false) ∷ files) o = answers fd roots files o
  answers fd roots ((path, true) ∷ files) o =
      let (added, o1) = k.inotify_add_watch o fd path (is_root_dir_path path roots) in
      let (rest, o') = answers fd roots files o1 in (given added path rest, o')

  -- the state where all of these watches have come, unless they were there
  pub record Refines (watches : List (ℕ × Text)) (o : k.Os) (s s1 : State k) : Type 0 where
    pub distinct : Distinct s1.wl_cache
    pub map : (y : ℕ) → view s1.wl_cache y ≡ or_else (view s.wl_cache y) (first y watches)
    pub roots : s1.root_dir_paths ≡ s.root_dir_paths
    pub os : s1.os ≡ o

  pub Refines-none : (s : State k) → Distinct s.wl_cache → Refines [] s.os s s
  Refines-none s d = record {
    distinct = d;
    map = λ y. elim (Option-cases (view s.wl_cache y)) [
      | inl e ↦ rw (e) refl
      | inr (p, e) ↦ rw (e) refl
    ];
    roots = refl;
    os = refl;
  }

  after_add_watch-Refines :
      (added : Added) (path : Text) (s : State k)
      → Distinct s.wl_cache
      → Ensures (Refines (given added path []) s.os s) (after_add_watch k added path s)
  unfolding after_add_watch
  after_add_watch-Refines (add_failed err) path s d =
      Ensures-if (Refines [] s.os s) (err == enoent) (done s) (exits exit_failure)
        (Refines-none s d) tt
  after_add_watch-Refines (watched wd) path s d =
      let s0 : State k = record s { dir_cnt = s.dir_cnt + 1 } in
      let P = Refines ((wd, path) ∷ []) s.os s in
      Ensures-option P (find_watch (some wd) s.wl_cache)
        (add_watch_to_cache k wd path s0 >>= λ (slot, s1). done s1) (λ slot. done s)
        (λ e.
          let fresh = find_watch-none wd s.wl_cache e in
          Ensures-bind (λ (r : ℕ × State k). HasWatch wd path s0 r.1) P
            (add_watch_to_cache k wd path s0) (λ (slot, s1). done s1)
            (add_watch_to_cache-HasWatch wd path s0 d fresh)
            (λ r h. record {
              distinct = h.distinct;
              map = λ y. h.added y ∙ added-new wd y path (view s.wl_cache) fresh;
              roots = h.roots;
              os = h.os;
            }))
        (λ slot e.
          let (w, g, u, v) = find_watch-some wd slot s.wl_cache e in
          record {
            distinct = d;
            map = λ y. added-old wd y path w.path (view s.wl_cache) v;
            roots = refl;
            os = refl;
          })

  pub Refines-trans :
      (a b : List (ℕ × Text)) (o o' : k.Os) (s s1 s2 : State k)
      → Refines a o s s1
      → Refines b o' s1 s2
      → Refines (a ++ b) o' s s2
  Refines-trans a b o o' s s1 s2 h g = record {
    distinct = g.distinct;
    map = λ y.
        g.map y
        ∙ ap (λ (m : Option Text). or_else m (first y b)) (h.map y)
        ∙ or_else_assoc (view s.wl_cache y) (first y a) (first y b)
        ∙ ap (or_else (view s.wl_cache y)) (sym (first-append y a b));
    roots = g.roots ∙ h.roots;
    os = g.os;
  }

  -- the watches that come with a list of files
  RefinesFiles : ℕ → List (Text × Bool) → State k → State k → Type 0
  RefinesFiles fd files s =
      Refines (answers fd s.root_dir_paths files s.os).0 (answers fd s.root_dir_paths files s.os).1
        s

  traverse_all-Refines :
      (fd : ℕ) (files : List (Text × Bool)) (s : State k)
      → Distinct s.wl_cache
      → Ensures (RefinesFiles fd files s) (traverse_all k fd files s)
  unfolding traverse_all traverse_tree answers RefinesFiles
  traverse_all-Refines fd [] s d = Refines-none s d
  traverse_all-Refines fd ((path, false) ∷ files) s d = traverse_all-Refines fd files s d
  traverse_all-Refines fd ((path, true) ∷ files) s d =
      let roots = s.root_dir_paths in
      let call = k.inotify_add_watch s.os fd path (is_root_dir_path path roots) in
      let s0 : State k = record s { os = call.1 } in
      let rest = answers fd roots files call.1 in
      Ensures-bind (Refines (given call.0 path []) call.1 s0)
        (Refines (given call.0 path rest.0) rest.1 s) (after_add_watch k call.0 path s0)
        (λ s1. traverse_all k fd files s1) (after_add_watch-Refines call.0 path s0 d)
        (λ s1 h.
          let same : answers fd s1.root_dir_paths files s1.os ≡ rest =
            ap (λ (l : List (Option Text)). answers fd l files s1.os) h.roots
            ∙ ap (λ (o : k.Os). answers fd roots files o) h.os in
          let first_part : Refines (given call.0 path []) call.1 s s1 = record {
            distinct = h.distinct;
            map = h.map;
            roots = h.roots;
            os = h.os;
          } in
          Ensures-weaken (RefinesFiles fd files s1) (Refines (given call.0 path rest.0) rest.1 s)
            (traverse_all k fd files s1) (traverse_all-Refines fd files s1 h.distinct)
            (λ s2 g.
              subst (λ (l : List (ℕ × Text)). Refines l rest.1 s s2)
                (given-append call.0 path rest.0)
                (Refines-trans (given call.0 path []) rest.0 call.1 rest.1 s s1 s2 first_part
                  (subst (λ (r : List (ℕ × Text) × k.Os). Refines r.0 r.1 s1 s2) same g))))

  -- the watches that come with a subtree
  unfoldable pub walk : ℕ → List (Option Text) → Text → k.Os → List (ℕ × Text) × k.Os
  walk fd roots path o = let (files, o1) = k.nftw o path in answers fd roots files o1

  unfoldable pub walks : ℕ → List (Option Text) → List (Option Text) → k.Os → List (ℕ × Text) × k.Os
  walks fd roots [] o = ([], o)
  walks fd roots (none ∷ paths) o = walks fd roots paths o
  walks fd roots (some path ∷ paths) o =
      let (a, o1) = walk fd roots path o in let (b, o2) = walks fd roots paths o1 in (a ++ b, o2)

  pub watch_subtree-Refines :
      (fd : ℕ) (path : Text) (s : State k)
      → Distinct s.wl_cache
      → Ensures
          (Refines (walk fd s.root_dir_paths path s.os).0 (walk fd s.root_dir_paths path s.os).1 s)
          (watch_subtree k fd path s)
  unfolding watch_subtree watch_dir walk RefinesFiles
  watch_subtree-Refines fd path s d =
      let (files, o1) = k.nftw s.os path in
      let s0 : State k = record s { os = o1; dir_cnt = 0 } in
      Ensures-weaken (RefinesFiles fd files s0) _ (traverse_all k fd files s0)
        (traverse_all-Refines fd files s0 d)
        (λ s1 h. record { distinct = h.distinct; map = h.map; roots = h.roots; os = h.os })
