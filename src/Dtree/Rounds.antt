-- ===== src/Dtree/Rounds.antt =====
-- tlpi-dist/inotify/inotify_dtree.c: what each event does to the loop over the buffer.
use tlpi_exercises.Base.{
  ℕ, ◌+◌, ◌<◌, ◌≡◌, refl, ◌⊎◌, inl, inr, Bool, true, false, not, ◌&&◌, ◌||◌, Option, none, some,
  List, [], ◌∷◌, ◌==◌, if◌then◌else◌, ltb, arith,
}
use tlpi_exercises.Dtree.Ensures.{
  Ensures, Ensures-weaken, Ensures-if, Ensures-option, Ensures-after,
}
use tlpi_exercises.Dtree.Events.{
  size, path_at, mark_slot, inotify_read_buf_len, check_cache_consistency, rebuild, lost_watch,
  finish, on_create, on_delete_self, on_rename, on_moved_out, on_moved_from, on_overflow,
  on_unmount, on_move_self, dispatch, process_next_inotify_event,
}
use tlpi_exercises.Dtree.Watching.{join, reinitialize}
use tlpi_exercises.Dtree.{
  Run, done, aborts, Event, Kernel, State, same_wd, find_watch, is_root_dir_path, pathname_in_cache,
  zap_root_dir_path,
}

module _ (k : Kernel) where
  -- a length that moves the program on
  abbrev pub Takes : Option ℕ × State k → Type 0
  Takes r = (n : ℕ) × (r.0 ≡ some n) × (0 < n)

  -- or -1, on the first try only
  abbrev pub Goes : Bool → Option ℕ × State k → Type 0
  Goes first_try r = Takes r ⊎ ((r.0 ≡ none) × (first_try ≡ true))

  finish-Takes : (n : ℕ) (s : State k) → 0 < n → Ensures Takes (finish k n s)
  unfolding finish
  finish-Takes n s pos =
      Ensures-if Takes s.check_cache _ _
        (Ensures-after Takes (check_cache_consistency k s) _ (λ x. (n, refl, pos))) (n, refl, pos)

  finish-size-Takes : (ev : Event) (s : State k) → Ensures Takes (finish k (size ev) s)
  finish-size-Takes ev s = finish-Takes (size ev) s (omega arith)

  rebuild-Takes : (s : State k) → Ensures Takes (rebuild k s)
  unfolding rebuild
  rebuild-Takes s =
      Ensures-after Takes (reinitialize k (some s.inotify_fd) s)
        (λ s1. done (some inotify_read_buf_len, s1))
        (λ s1. (inotify_read_buf_len, refl, omega arith))

  lost_watch-Takes : (s : State k) → Ensures Takes (lost_watch k s)
  unfolding lost_watch
  lost_watch-Takes s =
      Ensures-if Takes s.abort_on_cache_problem aborts (rebuild k s) tt (rebuild-Takes s)

  zapped-Takes :
      (ev : Event) (r : Option ℕ × State k)
      → Ensures Takes (elim r.0 [ none ↦ rebuild k r.1 | some m ↦ finish k (size ev) r.1 ])
  zapped-Takes ev r =
      Ensures-option Takes r.0 _ _ (λ e. rebuild-Takes r.1) (λ m e. finish-size-Takes ev r.1)

  on_create-Takes :
      (slot : Option ℕ) (ev : Event) (s : State k) → Ensures Takes (on_create k slot ev s)
  unfolding on_create
  on_create-Takes slot ev s = Ensures-after Takes (path_at slot s.wl_cache) _ (λ dir.
      Ensures-if Takes (not (pathname_in_cache (join dir ev.name) s.wl_cache)) _ _
        (Ensures-after Takes _ _ (λ s1. finish-size-Takes ev s1)) (finish-size-Takes ev s))

  on_delete_self-Takes :
      (slot : Option ℕ) (ev : Event) (s : State k) → Ensures Takes (on_delete_self k slot ev s)
  unfolding on_delete_self
  on_delete_self-Takes slot ev s = Ensures-after Takes (path_at slot s.wl_cache) _ (λ path.
      Ensures-after Takes _ _ (λ s1.
        Ensures-after Takes (mark_slot slot s1.wl_cache) _ (λ cache. finish-size-Takes ev _)))

  on_rename-Takes :
      (slot : Option ℕ) (ev next_ev : Event) (s : State k)
      → Ensures Takes (on_rename k slot ev next_ev s)
  unfolding on_rename
  on_rename-Takes slot ev next_ev s =
      Ensures-option Takes (find_watch next_ev.wd s.wl_cache) _ _ (λ e. lost_watch-Takes s)
        (λ next_slot e. Ensures-after Takes (path_at slot s.wl_cache) _ (λ old_dir.
          Ensures-after Takes (path_at (some next_slot) s.wl_cache) _
            (λ new_dir. finish-Takes (size ev + size next_ev) _ (omega arith))))

  on_moved_out-Takes :
      (slot : Option ℕ) (ev : Event) (s : State k) → Ensures Takes (on_moved_out k slot ev s)
  unfolding on_moved_out
  on_moved_out-Takes slot ev s =
      Ensures-after Takes (path_at slot s.wl_cache) _ (λ dir. zapped-Takes ev _)

  on_overflow-Takes : (s : State k) → Ensures Takes (on_overflow k s)
  unfolding on_overflow
  on_overflow-Takes s =
      Ensures-after Takes _ _ (λ s1. finish-Takes inotify_read_buf_len s1 (omega arith))

  on_unmount-Takes :
      (slot : Option ℕ) (ev : Event) (s : State k) → Ensures Takes (on_unmount k slot ev s)
  unfolding on_unmount
  on_unmount-Takes slot ev s =
      Ensures-after Takes (mark_slot slot s.wl_cache) _ (λ cache. finish-size-Takes ev _)

  on_move_self-Takes :
      (slot : Option ℕ) (ev : Event) (s : State k) → Ensures Takes (on_move_self k slot ev s)
  unfolding on_move_self
  on_move_self-Takes slot ev s = Ensures-after Takes (path_at slot s.wl_cache) _ (λ path.
      Ensures-if Takes (not (is_root_dir_path path s.root_dir_paths)) _ _ (finish-size-Takes ev s)
        (Ensures-after Takes (zap_root_dir_path k path s) _ (λ s1. zapped-Takes ev _)))

  goes :
      (first_try : Bool) (m : Run (Option ℕ × State k))
      → Ensures Takes m
      → Ensures (Goes first_try) m
  goes first_try m h = Ensures-weaken Takes (Goes first_try) m h (λ r t. inl t)

  last-Goes :
      (first_try : Bool) (slot : Option ℕ) (ev : Event) (s : State k)
      → Ensures (Goes first_try) (if first_try then done (none, s) else on_moved_out k slot ev s)
  last-Goes true slot ev s = inr (refl, refl)
  last-Goes false slot ev s = goes false _ (on_moved_out-Takes slot ev s)

  on_moved_from-Goes :
      (first_try : Bool) (left : ℕ) (slot : Option ℕ) (ev : Event) (rest : List Event) (s : State k)
      → Ensures (Goes first_try) (on_moved_from k first_try left slot ev rest s)
  unfolding on_moved_from
  on_moved_from-Goes first_try left slot ev [] s =
      Ensures-if (Goes first_try) (ltb (size ev) left) _ _ tt (last-Goes first_try slot ev s)
  on_moved_from-Goes first_try left slot ev (next_ev ∷ more) s =
      Ensures-if (Goes first_try) (ltb (size ev) left) _ _
        (Ensures-if (Goes first_try) (next_ev.mask.in_moved_to && (next_ev.cookie == ev.cookie)) _ _
          (goes first_try _ (on_rename-Takes slot ev next_ev s))
          (goes first_try _ (on_moved_out-Takes slot ev s)))
        (last-Goes first_try slot ev s)

  dispatch-Goes :
      (first_try : Bool) (left : ℕ) (slot : Option ℕ) (ev : Event) (rest : List Event) (s : State k)
      → Ensures (Goes first_try) (dispatch k first_try left slot ev rest s)
  unfolding dispatch
  dispatch-Goes first_try left slot ev rest s =
      let m = ev.mask in
      let G = Goes first_try in
      Ensures-if G (m.in_isdir && (m.in_create || m.in_moved_to)) _ _
        (goes first_try _ (on_create-Takes slot ev s))
        (Ensures-if G m.in_delete_self _ _ (goes first_try _ (on_delete_self-Takes slot ev s)) (
          Ensures-if G (m.in_moved_from && m.in_isdir) _ _
            (on_moved_from-Goes first_try left slot ev rest s)
            (Ensures-if G m.in_q_overflow _ _ (goes first_try _ (on_overflow-Takes s)) (
              Ensures-if G m.in_unmount _ _ (goes first_try _ (on_unmount-Takes slot ev s)) (
                Ensures-if G m.in_move_self _ _ (goes first_try _ (on_move_self-Takes slot ev s))
                  (goes first_try _ (finish-size-Takes ev s)))))))

  pub process_next-Goes :
      (first_try : Bool) (left : ℕ) (ev : Event) (rest : List Event) (s : State k)
      → Ensures (Goes first_try) (process_next_inotify_event k first_try left ev rest s)
  unfolding process_next_inotify_event
  process_next-Goes first_try left ev rest s =
      Ensures-if (Goes first_try) (not (same_wd ev.wd none) && not ev.mask.in_ignored) _ _
        (Ensures-option (Goes first_try) (find_watch ev.wd s.wl_cache) _ _
          (λ e. goes first_try _ (lost_watch-Takes s))
          (λ slot e. dispatch-Goes first_try left (some slot) ev rest s))
        (dispatch-Goes first_try left none ev rest s)
