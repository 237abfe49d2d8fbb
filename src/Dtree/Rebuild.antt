-- ===== src/Dtree/Rebuild.antt =====
-- What `reinitialize` makes of the cache.
use mathlib.Core.Path.{subst}
use mathlib.Core.Option.{some-injective}
use tlpi_exercises.Base.{ℕ, ◌+◌, ◌≡◌, refl, sym, ap, ◌∙◌, Option, none, some, List, [], ◌∷◌, ◌++◌}
use tlpi_exercises.Dtree.{Text, exits, exit_failure, Kernel, State}
use tlpi_exercises.Dtree.Adding.{
  first, or_else, Refines, Refines-none, Refines-trans, walk, walks, watch_subtree-Refines,
}
use tlpi_exercises.Dtree.Ensures.{Ensures, Ensures-bind, Ensures-weaken, Ensures-option}
use tlpi_exercises.Dtree.Lookup.{view, Distinct}
use tlpi_exercises.Dtree.Watching.{watch_subtree, watch_roots, reinitialize}

module _ (k : Kernel) where
  watch_roots-Refines :
      (fd : ℕ) (paths : List (Option Text)) (s : State k)
      → Distinct s.wl_cache
      → Ensures
          (Refines k
            (walks k fd s.root_dir_paths paths s.os).0
            (walks k fd s.root_dir_paths paths s.os).1
            s)
          (watch_roots k fd paths s)
  unfolding watch_roots walks
  watch_roots-Refines fd [] s d = Refines-none k s d
  watch_roots-Refines fd (none ∷ paths) s d = watch_roots-Refines fd paths s d
  watch_roots-Refines fd (some path ∷ paths) s d =
      let roots = s.root_dir_paths in
      let a = walk k fd roots path s.os in
      let b = walks k fd roots paths a.1 in
      Ensures-bind (Refines k a.0 a.1 s) (Refines k (a.0 ++ b.0) b.1 s) (watch_subtree k fd path s)
        (λ s1. watch_roots k fd paths s1) (watch_subtree-Refines k fd path s d)
        (λ s1 h.
          let b1 = walks k fd s1.root_dir_paths paths s1.os in
          let same : b1 ≡ b =
            ap (λ (l : List (Option Text)). walks k fd l paths s1.os) h.roots
            ∙ ap (λ (o : k.Os). walks k fd roots paths o) h.os in
          Ensures-weaken (Refines k b1.0 b1.1 s1) (Refines k (a.0 ++ b.0) b.1 s)
            (watch_roots k fd paths s1) (watch_roots-Refines fd paths s1 h.distinct)
            (λ s2 g.
              Refines-trans k a.0 b.0 a.1 b.1 s s1 s2 h
                (subst (λ (r : List (ℕ × Text) × k.Os). Refines k r.0 r.1 s1 s2) same g)))

  -- The new instance has the descriptor `fd`, and the system is then in state `o`.
  pub record Rebuilt (fd : ℕ) (o : k.Os) (roots : List (Option Text)) (s1 : State k) : Type 0 where
    pub distinct : Distinct s1.wl_cache
    pub map : (y : ℕ) → view s1.wl_cache y ≡ first y (walks k fd roots roots o).0
    pub kept : s1.root_dir_paths ≡ roots

  Distinct-nil : Distinct []
  unfolding Distinct
  Distinct-nil = tt

  view-nil : (y : ℕ) → view [] y ≡ none
  unfolding view
  view-nil y = refl

  start-Rebuilt :
      (fd : ℕ) (o : k.Os) (s : State k)
      → Ensures
          (Rebuilt fd o s.root_dir_paths)
          (watch_roots k fd s.root_dir_paths (record s { os = o; wl_cache = []; inotify_fd = fd }))
  start-Rebuilt fd o s =
      let s0 : State k = record s { os = o; wl_cache = []; inotify_fd = fd } in
      let w = walks k fd s.root_dir_paths s.root_dir_paths o in
      Ensures-weaken (Refines k w.0 w.1 s0) (Rebuilt fd o s.root_dir_paths)
        (watch_roots k fd s.root_dir_paths s0)
        (watch_roots-Refines fd s.root_dir_paths s0 Distinct-nil)
        (λ s1 h. record {
          distinct = h.distinct;
          map = λ y. h.map y ∙ ap (λ (m : Option Text). or_else m (first y w.0)) (view-nil y);
          kept = h.roots;
        })

  pub reinitialize-Rebuilt :
      (fd new_fd : ℕ) (s : State k)
      → (k.inotify_init (k.close s.os fd)).0 ≡ some new_fd
      → Ensures
          (Rebuilt new_fd (k.inotify_init (k.close s.os fd)).1 s.root_dir_paths)
          (reinitialize k (some fd) s)
  unfolding reinitialize
  reinitialize-Rebuilt fd new_fd s e =
      let os1 = k.close s.os fd in
      let o = (k.inotify_init os1).1 in
      let s1 : State k = record s { os = os1; reinit_cnt = s.reinit_cnt + 1 } in
      let P = Rebuilt new_fd o s.root_dir_paths in
      Ensures-option P (k.inotify_init os1).0 (exits exit_failure)
        (λ f.
          watch_roots k f s.root_dir_paths (record s1 { os = o; wl_cache = []; inotify_fd = f }))
        (λ n. tt)
        (λ f g.
          let same : f ≡ new_fd = some-injective _ _ (sym g ∙ e) in
          subst
            (λ (z : ℕ). Ensures P (
              watch_roots k z s.root_dir_paths
                (record s1 { os = o; wl_cache = []; inotify_fd = z })))
            (sym same) (start-Rebuilt new_fd o s1))

  open-Distinct :
      (s1 : State k)
      → Ensures
          (λ (s2 : State k). Distinct s2.wl_cache)
          (elim (k.inotify_init s1.os).0 [
            | none ↦ exits exit_failure
            | some f ↦
                watch_roots k f s1.root_dir_paths
                  (record s1 { os = (k.inotify_init s1.os).1; wl_cache = []; inotify_fd = f })
          ])
  open-Distinct s1 =
      let o = (k.inotify_init s1.os).1 in
      Ensures-option (λ (s2 : State k). Distinct s2.wl_cache) (k.inotify_init s1.os).0
        (exits exit_failure)
        (λ f.
          watch_roots k f s1.root_dir_paths (record s1 { os = o; wl_cache = []; inotify_fd = f }))
        (λ n. tt)
        (λ f g.
          Ensures-weaken (Rebuilt f o s1.root_dir_paths) (λ (s2 : State k). Distinct s2.wl_cache)
            (watch_roots k f s1.root_dir_paths
              (record s1 { os = o; wl_cache = []; inotify_fd = f }))
            (start-Rebuilt f o s1) (λ s2 h. h.distinct))

  pub reinitialize-Distinct :
      (old : Option ℕ) (s : State k)
      → Ensures (λ (s1 : State k). Distinct s1.wl_cache) (reinitialize k old s)
  unfolding reinitialize
  reinitialize-Distinct none s = open-Distinct (record s { reinit_cnt = 0 })
  reinitialize-Distinct (some fd) s =
      open-Distinct (record s { os = k.close s.os fd; reinit_cnt = s.reinit_cnt + 1 })
