-- ===== src/Dtree/Total.antt =====
-- Watching subtrees comes to its end where memory is there and directories can be watched.
use mathlib.Core.Path.{subst}
use tlpi_exercises.Base.{
  ℕ, ◌+◌, ◌*◌, ◌≡◌, refl, ap, ◌∙◌, inl, inr, Option-cases, Bool, true, false, none, some, List, [],
  ◌∷◌, ◌++◌, length,
}
use tlpi_exercises.Dtree.{
  Text, Run, done, ◌>>=◌, Added, watched, add_failed, Kernel, State, find_watch, alloc_incr,
  replicate, unused, is_root_dir_path, find_empty_cache_slot, add_watch_to_cache,
}
use tlpi_exercises.Dtree.Adding.{Refines, walk, watch_subtree-Refines}
use tlpi_exercises.Dtree.Ensures.{Ensures}
use tlpi_exercises.Dtree.Lookup.{Distinct}
use tlpi_exercises.Dtree.Watching.{
  enoent, after_add_watch, traverse_tree, traverse_all, watch_dir, watch_subtree,
}

-- A part of the program that goes on.
abbrev Goes {ℓ} : {A : Type ℓ} → Run A → Type ℓ
Goes {A = A} m = (a : A) × (m ≡ done a)

Goes-bind {ℓ κ} :
    {A : Type ℓ} {B : Type κ} (m : Run A) (f : A → Run B)
    → Goes m
    → ((a : A) → Goes (f a))
    → Goes (m >>= f)
Goes-bind m f (a, e) g = let (b, h) = g a in (b, ap (λ r. r >>= f) e ∙ h)

Ensures-Goes {ℓ κ} :
    {A : Type ℓ} (P : A → Type κ) (m : Run A) → Ensures P m → Goes m → (a : A) × (m ≡ done a) × P a
Ensures-Goes P m h (a, e) = (a, e, subst (λ r. Ensures P r) e h)

-- The heap grows, and a directory that is there can be watched.
pub record Serves (k : Kernel) : Type 0 where
  pub grows : (f : k.Free) (n : ℕ) → (k.realloc f n).0 ≡ true
  pub watches :
      (o : k.Os) (fd err : ℕ) (path : Text) (root : Bool)
      → (k.inotify_add_watch o fd path root).0 ≡ add_failed err
      → err ≡ enoent

module _ (k : Kernel) (law : Serves k) where
  find_empty_cache_slot-Goes : (s : State k) → Goes (find_empty_cache_slot k s)
  unfolding find_empty_cache_slot
  find_empty_cache_slot-Goes s =
      let g = law.grows s.free ((length s.wl_cache + alloc_incr) * 4100) in
      elim (Option-cases (find_watch none s.wl_cache)) [
        | inl e ↦ (
          (
            length s.wl_cache,
            record s {
              wl_cache = s.wl_cache ++ replicate alloc_incr unused;
              free = (k.realloc s.free ((length s.wl_cache + alloc_incr) * 4100)).1;
            },
          ),
          rw (find_empty_cache_slot, e, g) refl,
        )
        | inr (j, e) ↦ ((j, s), rw (find_empty_cache_slot, e) refl)
      ]

  add_watch_to_cache-Goes :
      (wd : ℕ) (path : Text) (s : State k) → Goes (add_watch_to_cache k wd path s)
  unfolding add_watch_to_cache
  add_watch_to_cache-Goes wd path s =
      Goes-bind (find_empty_cache_slot k s) _ (find_empty_cache_slot-Goes s) (λ r. (_, refl))

  after_add_watch-Goes :
      (added : Added) (path : Text) (s : State k)
      → ((err : ℕ) → added ≡ add_failed err → err ≡ enoent)
      → Goes (after_add_watch k added path s)
  unfolding after_add_watch
  after_add_watch-Goes (add_failed err) path s h =
      (s, let e : err ≡ enoent = h err refl in rw (e) refl)
  after_add_watch-Goes (watched wd) path s h =
      elim (Option-cases (find_watch (some wd) s.wl_cache)) [
        | inl e ↦
            let s0 : State k = record s { dir_cnt = s.dir_cnt + 1 } in
            let (r, f) = add_watch_to_cache-Goes wd path s0 in
            (r.1, rw (after_add_watch, e, f) refl)
        | inr (slot, e) ↦ (s, rw (after_add_watch, e) refl)
      ]

  traverse_all-Goes :
      (fd : ℕ) (files : List (Text × Bool)) (s : State k) → Goes (traverse_all k fd files s)
  unfolding traverse_all traverse_tree
  traverse_all-Goes fd [] s = (s, refl)
  traverse_all-Goes fd ((path, false) ∷ files) s = traverse_all-Goes fd files s
  traverse_all-Goes fd ((path, true) ∷ files) s =
      let root = is_root_dir_path path s.root_dir_paths in
      let call = k.inotify_add_watch s.os fd path root in
      Goes-bind (after_add_watch k call.0 path (record s { os = call.1 }))
        (λ s1. traverse_all k fd files s1)
        (after_add_watch-Goes call.0 path (record s { os = call.1 })
          (λ err e. law.watches s.os fd err path root e))
        (λ s1. traverse_all-Goes fd files s1)

  watch_subtree-Goes : (fd : ℕ) (path : Text) (s : State k) → Goes (watch_subtree k fd path s)
  unfolding watch_subtree watch_dir
  watch_subtree-Goes fd path s =
      traverse_all-Goes fd (k.nftw s.os path).0
        (record s { os = (k.nftw s.os path).1; dir_cnt = 0 })

  -- From a cache in which no two slots have the same watch descriptor, where memory is there and
  -- directories that are there can be watched, `watchSubtree` goes on. The cache then has the
  -- watches that it had, with their pathnames, and each watch that inotify_add_watch(2) gave for a
  -- directory of the walk and that was not there, with the pathname for which it came first. No
  -- two slots have the same watch descriptor.
  pub watch_subtree-adds :
      (fd : ℕ) (path : Text) (s : State k)
      → Distinct s.wl_cache
      → (s1 : State k) × (watch_subtree k fd path s ≡ done s1)
        × Refines k
            (walk k fd s.root_dir_paths path s.os).0
            (walk k fd s.root_dir_paths path s.os).1
            s
            s1
  watch_subtree-adds fd path s d =
      let w = walk k fd s.root_dir_paths path s.os in
      Ensures-Goes (Refines k w.0 w.1 s) (watch_subtree k fd path s)
        (watch_subtree-Refines k fd path s d) (watch_subtree-Goes fd path s)
