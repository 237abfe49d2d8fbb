-- ===== src/Dtree/Invariant.antt =====
-- The whole program keeps the watch descriptors of the cache apart.
use tlpi_exercises.Base.{
  ℕ, zero, suc, ◌+◌, ◌-◌, Bool, true, false, not, ◌&&◌, ◌||◌, Option, none, some, List, [], ◌∷◌,
  ◌==◌, length, if◌then◌else◌, ltb,
}
use tlpi_exercises.Dtree.{
  Text, Watch, Run, done, aborts, ◌>>=◌, Event, Fetched, fetched, read_failed, Kernel, State,
  same_wd, find_watch, pathname_in_cache, is_root_dir_path, zap_root_dir_path,
}
use tlpi_exercises.Dtree.Adding.{watch_subtree-Refines, Refines, walk}
use tlpi_exercises.Dtree.Ensures.{
  Ensures, Ensures-bind, Ensures-weaken, Ensures-if, Ensures-option, Ensures-after, Returns,
  Returns-bind, Returns-if, Returns-option,
}
use tlpi_exercises.Dtree.Events.{
  ◌>>=?◌, size, behind, path_at, mark_slot, inotify_read_buf_len, check_cache_consistency, rebuild,
  lost_watch, finish, on_create, on_delete_self, on_rename, on_moved_out, on_moved_from,
  on_overflow, on_unmount, on_move_self, dispatch, process_next_inotify_event, total, read_more,
  after_read_more, process_loop, process_fetched, process_inotify_events, eintr,
}
use tlpi_exercises.Dtree.Lookup.{Distinct}
use tlpi_exercises.Dtree.Rebuild.{reinitialize-Distinct}
use tlpi_exercises.Dtree.Unique.{Distinct-mark, Distinct-rewrite}
use tlpi_exercises.Dtree.Watching.{
  cut_path, join, rewrite_cached_paths, watch_subtree, zap_subtree, reinitialize,
}
use tlpi_exercises.Dtree.Zap.{zap-Distinct}

module _ (k : Kernel) where
  abbrev pub IsGood : State k → Type 0
  IsGood s = Distinct s.wl_cache

  -- the result of an event
  abbrev pub IsGoodNext : Option ℕ × State k → Type 0
  IsGoodNext r = Distinct r.1.wl_cache

  pub watch_subtree-IsGood :
      (fd : ℕ) (path : Text) (s : State k) → IsGood s → Ensures IsGood (watch_subtree k fd path s)
  watch_subtree-IsGood fd path s d =
      Ensures-weaken
        (Refines k (walk k fd s.root_dir_paths path s.os).0 (walk k fd s.root_dir_paths path s.os).1
          s)
        IsGood (watch_subtree k fd path s) (watch_subtree-Refines k fd path s d)
        (λ s1 h. h.distinct)

  finish-IsGood : (n : ℕ) (s : State k) → IsGood s → Ensures IsGoodNext (finish k n s)
  unfolding finish
  finish-IsGood n s d =
      Ensures-if IsGoodNext s.check_cache
        (check_cache_consistency k s >>= λ failures. done (some n, s)) (done (some n, s))
        (Ensures-after IsGoodNext (check_cache_consistency k s) (λ failures. done (some n, s))
          (λ x. d))
        d

  rebuild-IsGood : (s : State k) → Ensures IsGoodNext (rebuild k s)
  unfolding rebuild
  rebuild-IsGood s =
      Ensures-bind IsGood IsGoodNext (reinitialize k (some s.inotify_fd) s)
        (λ s1. done (some inotify_read_buf_len, s1)) (reinitialize-Distinct k (some s.inotify_fd) s)
        (λ s1 d. d)

  lost_watch-IsGood : (s : State k) → Ensures IsGoodNext (lost_watch k s)
  unfolding lost_watch
  lost_watch-IsGood s =
      Ensures-if IsGoodNext s.abort_on_cache_problem aborts (rebuild k s) tt (rebuild-IsGood s)

  on_create-IsGood :
      (slot : Option ℕ) (ev : Event) (s : State k)
      → IsGood s
      → Ensures IsGoodNext (on_create k slot ev s)
  unfolding on_create
  on_create-IsGood slot ev s d =
      Ensures-after IsGoodNext (path_at slot s.wl_cache)
        (λ dir.
          if not (pathname_in_cache (join dir ev.name) s.wl_cache)
          then (watch_subtree k s.inotify_fd (join dir ev.name) s >>= λ s1. finish k (size ev) s1)
          else finish k (size ev) s)
        (λ dir.
          Ensures-if IsGoodNext (not (pathname_in_cache (join dir ev.name) s.wl_cache))
            (watch_subtree k s.inotify_fd (join dir ev.name) s >>= λ s1. finish k (size ev) s1)
            (finish k (size ev) s)
            (Ensures-bind IsGood IsGoodNext (watch_subtree k s.inotify_fd (join dir ev.name) s)
              (λ s1. finish k (size ev) s1)
              (watch_subtree-IsGood s.inotify_fd (join dir ev.name) s d)
              (λ s1 e. finish-IsGood (size ev) s1 e))
            (finish-IsGood (size ev) s d))

  zap_root_dir_path-IsGood :
      (path : Text) (s : State k) → IsGood s → Ensures IsGood (zap_root_dir_path k path s)
  unfolding zap_root_dir_path
  zap_root_dir_path-IsGood path s d =
      Ensures-if IsGood (not (is_root_dir_path path s.root_dir_paths)) _ _ tt
        (Ensures-if IsGood (s.ignore_root_dirs + 1 == length s.root_dir_paths) _ _ tt d)

  -- a slot that is emptied
  mark_slot-IsGood :
      (slot : Option ℕ) (cache : List Watch)
      → Distinct cache
      → Ensures Distinct (mark_slot slot cache)
  unfolding mark_slot
  mark_slot-IsGood none cache d = tt
  mark_slot-IsGood (some slot) cache d = Distinct-mark cache slot d

  emptied-IsGood :
      (slot : Option ℕ) (n : ℕ) (s : State k)
      → IsGood s
      → Ensures IsGoodNext
          (mark_slot slot s.wl_cache >>= λ cache. finish k n (record s { wl_cache = cache }))
  emptied-IsGood slot n s d =
      Ensures-bind Distinct IsGoodNext (mark_slot slot s.wl_cache)
        (λ cache. finish k n (record s { wl_cache = cache })) (mark_slot-IsGood slot s.wl_cache d)
        (λ cache e. finish-IsGood n (record s { wl_cache = cache }) e)

  -- a subtree that is zapped, and a new instance if that failed
  zapped-IsGood :
      (fd n : ℕ) (path : Text) (s : State k)
      → IsGood s
      → let r = zap_subtree k fd path s in
        Ensures IsGoodNext (elim r.0 [ none ↦ rebuild k r.1 | some m ↦ finish k n r.1 ])
  unfolding zap_subtree
  zapped-IsGood fd n path s d =
      let r = zap_subtree k fd path s in
      Ensures-option IsGoodNext r.0 (rebuild k r.1) (λ m. finish k n r.1) (λ e. rebuild-IsGood r.1)
        (λ m e. finish-IsGood n r.1 (zap-Distinct k fd path s.wl_cache s.os d))

  on_delete_self-IsGood :
      (slot : Option ℕ) (ev : Event) (s : State k)
      → IsGood s
      → Ensures IsGoodNext (on_delete_self k slot ev s)
  unfolding on_delete_self
  on_delete_self-IsGood slot ev s d =
      let zapping = λ (path : Text).
        if is_root_dir_path path s.root_dir_paths then zap_root_dir_path k path s else done s in
      let emptying = λ (s1 : State k). mark_slot slot s1.wl_cache >>= λ cache.
      finish k (size ev) (record s1 { wl_cache = cache }) in
      Ensures-after IsGoodNext (path_at slot s.wl_cache) (λ path. zapping path >>= emptying)
        (λ path.
          Ensures-bind IsGood IsGoodNext (zapping path) emptying
            (Ensures-if IsGood (is_root_dir_path path s.root_dir_paths) (zap_root_dir_path k path s)
              (done s) (zap_root_dir_path-IsGood path s d) d)
            (λ s1 e. emptied-IsGood slot (size ev) s1 e))

  on_rename-IsGood :
      (slot : Option ℕ) (ev next_ev : Event) (s : State k)
      → IsGood s
      → Ensures IsGoodNext (on_rename k slot ev next_ev s)
  unfolding on_rename rewrite_cached_paths
  on_rename-IsGood slot ev next_ev s d =
      let renaming = λ (old_dir new_dir : Text). finish k (size ev + size next_ev) (record s {
        wl_cache = rewrite_cached_paths old_dir ev.name new_dir next_ev.name s.wl_cache;
      }) in
      Ensures-option IsGoodNext (find_watch next_ev.wd s.wl_cache) (lost_watch k s)
        (λ next_slot. path_at slot s.wl_cache >>= λ old_dir.
          path_at (some next_slot) s.wl_cache >>= renaming old_dir)
        (λ e. lost_watch-IsGood s)
        (λ next_slot e.
          Ensures-after IsGoodNext (path_at slot s.wl_cache)
            (λ old_dir. path_at (some next_slot) s.wl_cache >>= renaming old_dir)
            (λ old_dir.
              Ensures-after IsGoodNext (path_at (some next_slot) s.wl_cache) (renaming old_dir)
                (λ new_dir. finish-IsGood (size ev + size next_ev) _ (
                  Distinct-rewrite (cut_path (join old_dir ev.name))
                    (cut_path (join new_dir next_ev.name)) s.wl_cache d))))

  on_moved_out-IsGood :
      (slot : Option ℕ) (ev : Event) (s : State k)
      → IsGood s
      → Ensures IsGoodNext (on_moved_out k slot ev s)
  unfolding on_moved_out
  on_moved_out-IsGood slot ev s d =
      Ensures-after IsGoodNext (path_at slot s.wl_cache) _
        (λ dir. zapped-IsGood s.inotify_fd (size ev) (join dir ev.name) s d)

  on_moved_from-IsGood :
      (first_try : Bool) (left : ℕ) (slot : Option ℕ) (ev : Event) (rest : List Event) (s : State k)
      → IsGood s
      → Ensures IsGoodNext (on_moved_from k first_try left slot ev rest s)
  unfolding on_moved_from
  on_moved_from-IsGood first_try left slot ev [] s d =
      Ensures-if IsGoodNext (ltb (size ev) left) _ _ tt
        (Ensures-if IsGoodNext first_try _ _ d (on_moved_out-IsGood slot ev s d))
  on_moved_from-IsGood first_try left slot ev (next_ev ∷ more) s d =
      Ensures-if IsGoodNext (ltb (size ev) left) _ _
        (Ensures-if IsGoodNext (next_ev.mask.in_moved_to && (next_ev.cookie == ev.cookie)) _ _
          (on_rename-IsGood slot ev next_ev s d) (on_moved_out-IsGood slot ev s d))
        (Ensures-if IsGoodNext first_try _ _ d (on_moved_out-IsGood slot ev s d))

  on_overflow-IsGood : (s : State k) → Ensures IsGoodNext (on_overflow k s)
  unfolding on_overflow
  on_overflow-IsGood s =
      let s0 : State k = record s { overflow_cnt = s.overflow_cnt + 1 } in
      Ensures-bind IsGood IsGoodNext (reinitialize k (some s.inotify_fd) s0)
        (λ s1. finish k inotify_read_buf_len s1) (reinitialize-Distinct k (some s.inotify_fd) s0)
        (λ s1 d. finish-IsGood inotify_read_buf_len s1 d)

  on_move_self-IsGood :
      (slot : Option ℕ) (ev : Event) (s : State k)
      → IsGood s
      → Ensures IsGoodNext (on_move_self k slot ev s)
  unfolding on_move_self
  on_move_self-IsGood slot ev s d = Ensures-after IsGoodNext (path_at slot s.wl_cache) _ (λ path.
      Ensures-if IsGoodNext (not (is_root_dir_path path s.root_dir_paths)) _ _
        (finish-IsGood (size ev) s d)
        (Ensures-bind IsGood IsGoodNext (zap_root_dir_path k path s) _
          (zap_root_dir_path-IsGood path s d)
          (λ s1 e. zapped-IsGood s1.inotify_fd (size ev) path s1 e)))

  dispatch-IsGood :
      (first_try : Bool) (left : ℕ) (slot : Option ℕ) (ev : Event) (rest : List Event) (s : State k)
      → IsGood s
      → Ensures IsGoodNext (dispatch k first_try left slot ev rest s)
  unfolding dispatch on_unmount
  dispatch-IsGood first_try left slot ev rest s d =
      let m = ev.mask in
      Ensures-if IsGoodNext (m.in_isdir && (m.in_create || m.in_moved_to)) _ _
        (on_create-IsGood slot ev s d)
        (Ensures-if IsGoodNext m.in_delete_self _ _ (on_delete_self-IsGood slot ev s d) (
          Ensures-if IsGoodNext (m.in_moved_from && m.in_isdir) _ _
            (on_moved_from-IsGood first_try left slot ev rest s d)
            (Ensures-if IsGoodNext m.in_q_overflow _ _ (on_overflow-IsGood s) (
              Ensures-if IsGoodNext m.in_unmount _ _ (emptied-IsGood slot (size ev) s d) (
                Ensures-if IsGoodNext m.in_move_self _ _ (on_move_self-IsGood slot ev s d)
                  (finish-IsGood (size ev) s d))))))

  process_next-IsGood :
      (first_try : Bool) (left : ℕ) (ev : Event) (rest : List Event) (s : State k)
      → IsGood s
      → Ensures IsGoodNext (process_next_inotify_event k first_try left ev rest s)
  unfolding process_next_inotify_event
  process_next-IsGood first_try left ev rest s d =
      Ensures-if IsGoodNext (not (same_wd ev.wd none) && not ev.mask.in_ignored) _ _
        (Ensures-option IsGoodNext (find_watch ev.wd s.wl_cache) (lost_watch k s)
          (λ slot. dispatch k first_try left (some slot) ev rest s) (λ e. lost_watch-IsGood s)
          (λ slot e. dispatch-IsGood first_try left (some slot) ev rest s d))
        (dispatch-IsGood first_try left none ev rest s d)

  after_read_more-IsGood :
      (got : Fetched) (evs : List Event) (left : ℕ) (s : State k)
      → IsGood s
      → Ensures (λ (r : List Event × ℕ × State k). IsGood r.2) (after_read_more k got evs left s)
  unfolding after_read_more
  after_read_more-IsGood (read_failed err) evs left s d =
      Ensures-if (λ (r : List Event × ℕ × State k). IsGood r.2) (err == eintr) _ _ d tt
  after_read_more-IsGood (fetched []) evs left s d = tt
  after_read_more-IsGood (fetched (ev ∷ more)) evs left s d = d

  loop_rest-IsGood :
      (evs : List Event) (left : ℕ) (s : State k)
      (f : List Event × ℕ × State k → Option (Run (State k)))
      → IsGood s
      → ((q : List Event × ℕ × State k) → IsGood q.2 → Returns IsGood (f q))
      → Returns IsGood (read_more k evs left s >>=? f)
  unfolding read_more
  loop_rest-IsGood evs left s f d h =
      let call = k.read s.os s.inotify_fd (inotify_read_buf_len - left) in
      Returns-bind (λ (q : List Event × ℕ × State k). IsGood q.2) IsGood (read_more k evs left s) f
        (after_read_more-IsGood call.0 evs left (record s { os = call.1 }) d) h

  process_loop-IsGood :
      (fuel : ℕ) (first_try : Bool) (evs : List Event) (left : ℕ) (s : State k)
      → IsGood s
      → Returns IsGood (process_loop k fuel first_try evs left s)
  unfolding process_loop
  process_loop-IsGood zero first_try evs left s d = tt
  process_loop-IsGood (suc fuel) first_try [] left s d = Ensures-if IsGood (left == 0) _ _ d tt
  process_loop-IsGood (suc fuel) first_try (ev ∷ rest) left s d =
      Returns-if IsGood (left == 0) _ _ d (
        Returns-bind IsGoodNext IsGood (process_next_inotify_event k first_try left ev rest s) _
          (process_next-IsGood first_try left ev rest s d)
          (λ r e.
            Returns-option IsGood r.0 _ _
              (λ no.
                loop_rest-IsGood (ev ∷ rest) left r.1 _ e
                  (λ q f. process_loop-IsGood fuel false q.0 q.1 q.2 f))
              (λ n yes_n. process_loop-IsGood fuel true (behind n (ev ∷ rest)) (left - n) r.1 e)))

  process_fetched-IsGood :
      (fuel : ℕ) (got : Fetched) (s : State k)
      → IsGood s
      → Returns IsGood (process_fetched k fuel got s)
  unfolding process_fetched
  process_fetched-IsGood fuel (read_failed err) s d = tt
  process_fetched-IsGood fuel (fetched []) s d = tt
  process_fetched-IsGood fuel (fetched (ev ∷ evs)) s d =
      process_loop-IsGood fuel true (ev ∷ evs) (total (ev ∷ evs)) s d

  -- Whatever events come and whatever the system answers, where `processInotifyEvents` returns from
  -- a cache in which no two slots have the same watch descriptor, it leaves such a cache.
  pub process_inotify_events-IsGood :
      (fuel read_buffer_size : ℕ) (s : State k)
      → Distinct s.wl_cache
      → Returns
          (λ (s1 : State k). Distinct s1.wl_cache)
          (process_inotify_events k fuel read_buffer_size s)
  unfolding process_inotify_events
  process_inotify_events-IsGood fuel read_buffer_size s d =
      let call =
        k.read s.os s.inotify_fd
          (if ltb 0 read_buffer_size then read_buffer_size else inotify_read_buf_len) in
      process_fetched-IsGood fuel call.0 (record s { os = call.1 }) d
