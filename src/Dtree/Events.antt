-- ===== src/Dtree/Events.antt =====
-- tlpi-dist/inotify/inotify_dtree.c: what the program does with the events that it reads. The buffer
-- is the list of the events in it from the current one on, with the number of bytes that are left
-- by the program's count. The slot of an event that names no watch is not set, `none`.
use tlpi_exercises.Base.{
  ℕ, zero, suc, ◌+◌, ◌-◌, ◌*◌, Bool, true, false, not, ◌&&◌, ◌||◌, Option, none, some, List, [],
  ◌∷◌, ◌++◌, get_elem?, ltb, ◌==◌, if◌then◌else◌,
}
use tlpi_exercises.Dtree.{
  Text, Watch, Run, done, exits, aborts, undefined, ◌>>=◌, exit_failure, Event, Fetched, fetched,
  read_failed, Kernel, State, same_wd, find_watch, mark_cache_slot_empty, pathname_in_cache,
  is_root_dir_path, zap_root_dir_path,
}
use tlpi_exercises.Dtree.Watching.{
  join, rewrite_cached_paths, watch_subtree, zap_subtree, reinitialize,
}

abbrev pub eintr : ℕ
eintr = 4

-- `INOTIFY_READ_BUF_LEN`, with a `struct inotify_event` of 16 bytes and names of up to 255
abbrev pub inotify_read_buf_len : ℕ
inotify_read_buf_len = 100 * (16 + 255 + 1)

abbrev pub size : Event → ℕ
size ev = 16 + ev.len

-- the bytes of a list of events
unfoldable pub total : List Event → ℕ
total [] = 0
total (ev ∷ evs) = size ev + total evs

-- the events behind the first `n` bytes
unfoldable pub behind : ℕ → List Event → List Event
behind n [] = []
behind n (ev ∷ evs) = let rest = behind (n - size ev) evs in if n == 0 then ev ∷ evs else rest

-- `wd >= 0`
unfoldable pub is_used : Option ℕ → Bool
is_used none = false
is_used (some x) = true

-- `wlCache[slot].path`
unfoldable pub path_at : Option ℕ → List Watch → Run Text
path_at none cache = undefined
path_at (some slot) cache = elim (get_elem? cache slot) [ none ↦ undefined | some w ↦ done w.path ]

unfoldable pub mark_slot : Option ℕ → List Watch → Run (List Watch)
mark_slot none cache = undefined
mark_slot (some slot) cache = done (mark_cache_slot_empty slot cache)

-- what follows a part of the loop, which may not end
infixl 5 ◌>>=?◌
abbrev pub ◌>>=?◌ : {A B : Type 0} → Run A → (A → Option (Run B)) → Option (Run B)
done a >>=? f = f a
exits ok >>=? f = some (exits ok)
aborts >>=? f = some aborts
undefined >>=? f = some undefined

module _ (k : Kernel) where
  open k use {Os, lstat, read}

  -- `sb` is what the last lstat(2) that succeeded told, `none` before the first.
  unfoldable pub check_loop : Os → Option Bool → List Watch → ℕ → Run ℕ
  check_loop o sb [] failures = done failures
  check_loop o sb (w ∷ cache) failures =
      let next = check_loop o sb cache failures in
      if is_used w.wd
      then elim (lstat o w.path) [
        | none ↦ check_loop o sb cache (failures + 1)
        | some is_dir ↦ check_loop o (some is_dir) cache failures
      ]
      else elim sb [ none ↦ undefined | some is_dir ↦ if is_dir then next else exits exit_failure ]

  unfoldable pub check_cache_consistency : State k → Run ℕ
  check_cache_consistency s = check_loop s.os none s.wl_cache 0

  -- A new inotify instance, and the rest of the buffer is left out.
  unfoldable pub rebuild : State k → Run (Option ℕ × State k)
  rebuild s = reinitialize k (some s.inotify_fd) s >>= λ s1. done (some inotify_read_buf_len, s1)

  -- `findWatchChecked` found nothing
  unfoldable pub lost_watch : State k → Run (Option ℕ × State k)
  lost_watch s = if s.abort_on_cache_problem then aborts else rebuild s

  -- `checkCache`, and the return
  unfoldable pub finish : ℕ → State k → Run (Option ℕ × State k)
  finish ev_len s =
      if s.check_cache
      then (check_cache_consistency s >>= λ failures. done (some ev_len, s))
      else done (some ev_len, s)

  unfoldable pub on_create : Option ℕ → Event → State k → Run (Option ℕ × State k)
  on_create slot ev s = path_at slot s.wl_cache >>= λ dir.
      if not (pathname_in_cache (join dir ev.name) s.wl_cache)
      then (watch_subtree k s.inotify_fd (join dir ev.name) s >>= λ s1. finish (size ev) s1)
      else finish (size ev) s

  unfoldable pub on_delete_self : Option ℕ → Event → State k → Run (Option ℕ × State k)
  on_delete_self slot ev s = path_at slot s.wl_cache >>= λ path.
      (if is_root_dir_path path s.root_dir_paths then zap_root_dir_path k path s else done s)
      >>= λ s1.
          mark_slot slot s1.wl_cache >>= λ cache. finish (size ev) (record s1 { wl_cache = cache })

  unfoldable pub on_rename : Option ℕ → Event → Event → State k → Run (Option ℕ × State k)
  on_rename slot ev next_ev s = elim (find_watch next_ev.wd s.wl_cache) [
    | none ↦ lost_watch s
    | some next_slot ↦ path_at slot s.wl_cache >>= λ old_dir.
        path_at (some next_slot) s.wl_cache >>= λ new_dir.
        finish (size ev + size next_ev) (record s {
          wl_cache = rewrite_cached_paths old_dir ev.name new_dir next_ev.name s.wl_cache;
        })
  ]

  unfoldable pub on_moved_out : Option ℕ → Event → State k → Run (Option ℕ × State k)
  on_moved_out slot ev s = path_at slot s.wl_cache >>= λ dir.
      let (cnt, s1) = zap_subtree k s.inotify_fd (join dir ev.name) s in
      elim cnt [ none ↦ rebuild s1 | some n ↦ finish (size ev) s1 ]

  -- `rest` are the events behind this one, and `left` is `bufSize`. The result `none` is -1.
  unfoldable pub on_moved_from :
      Bool → ℕ → Option ℕ → Event → List Event → State k → Run (Option ℕ × State k)
  on_moved_from first_try left slot ev rest s =
      if ltb (size ev) left
      then elim rest [
        | [] ↦ undefined
        | next_ev ∷ more ↦
            if next_ev.mask.in_moved_to && (next_ev.cookie == ev.cookie)
            then on_rename slot ev next_ev s
            else on_moved_out slot ev s
      ]
      else if first_try
      then done (none, s)
      else on_moved_out slot ev s

  unfoldable pub on_overflow : State k → Run (Option ℕ × State k)
  on_overflow s =
      reinitialize k (some s.inotify_fd) (record s { overflow_cnt = s.overflow_cnt + 1 }) >>= λ s1.
      finish inotify_read_buf_len s1

  unfoldable pub on_unmount : Option ℕ → Event → State k → Run (Option ℕ × State k)
  on_unmount slot ev s =
      mark_slot slot s.wl_cache >>= λ cache. finish (size ev) (record s { wl_cache = cache })

  unfoldable pub on_move_self : Option ℕ → Event → State k → Run (Option ℕ × State k)
  on_move_self slot ev s = path_at slot s.wl_cache >>= λ path.
      if not (is_root_dir_path path s.root_dir_paths)
      then finish (size ev) s
      else (zap_root_dir_path k path s >>= λ s1.
          let (cnt, s2) = zap_subtree k s1.inotify_fd path s1 in
          elim cnt [ none ↦ rebuild s2 | some n ↦ finish (size ev) s2 ])

  -- the branches, by the mask
  unfoldable pub dispatch :
      Bool → ℕ → Option ℕ → Event → List Event → State k → Run (Option ℕ × State k)
  dispatch first_try left slot ev rest s =
      if ev.mask.in_isdir && (ev.mask.in_create || ev.mask.in_moved_to)
      then on_create slot ev s
      else if ev.mask.in_delete_self
      then on_delete_self slot ev s
      else if ev.mask.in_moved_from && ev.mask.in_isdir
      then on_moved_from first_try left slot ev rest s
      else if ev.mask.in_q_overflow
      then on_overflow s
      else if ev.mask.in_unmount
      then on_unmount slot ev s
      else if ev.mask.in_move_self
      then on_move_self slot ev s
      else finish (size ev) s

  unfoldable pub process_next_inotify_event :
      Bool → ℕ → Event → List Event → State k → Run (Option ℕ × State k)
  process_next_inotify_event first_try left ev rest s =
      if not (same_wd ev.wd none) && not ev.mask.in_ignored
      then elim (find_watch ev.wd s.wl_cache) [
        | none ↦ lost_watch s
        | some slot ↦ dispatch first_try left (some slot) ev rest s
      ]
      else dispatch first_try left none ev rest s

  -- from the return of the second read(2) on: EINTR takes one from the count
  unfoldable pub after_read_more :
      Fetched → List Event → ℕ → State k → Run (List Event × ℕ × State k)
  after_read_more (read_failed err) evs left s =
      if err == eintr then done (evs, left - 1, s) else exits exit_failure
  after_read_more (fetched []) evs left s = exits exit_failure
  after_read_more (fetched (ev ∷ more)) evs left s =
      done (evs ++ ev ∷ more, left + total (ev ∷ more), s)

  unfoldable pub read_more : List Event → ℕ → State k → Run (List Event × ℕ × State k)
  read_more evs left s =
      let (got, o1) = read s.os s.inotify_fd (inotify_read_buf_len - left) in
      after_read_more got evs left (record s { os = o1 })

  -- The outer `none` is a loop that has not ended. A length that is not -1 is positive.
  unfoldable pub process_loop : ℕ → Bool → List Event → ℕ → State k → Option (Run (State k))
  process_loop zero first_try evs left s = none
  process_loop (suc fuel) first_try [] left s = some (if left == 0 then done s else undefined)
  process_loop (suc fuel) first_try (ev ∷ rest) left s =
      if left == 0
      then some (done s)
      else (process_next_inotify_event first_try left ev rest s >>=? λ (len, s1). elim len [
        | some n ↦ process_loop fuel true (behind n (ev ∷ rest)) (left - n) s1
        | none ↦ read_more (ev ∷ rest) left s1 >>=? λ (evs, left1, s2).
            process_loop fuel false evs left1 s2
      ])

  -- from the return of the first read(2) on
  unfoldable pub process_fetched : ℕ → Fetched → State k → Option (Run (State k))
  process_fetched fuel (read_failed err) s = some (exits exit_failure)
  process_fetched fuel (fetched []) s = some (exits exit_failure)
  process_fetched fuel (fetched (ev ∷ evs)) s =
      process_loop fuel true (ev ∷ evs) (total (ev ∷ evs)) s

  unfoldable pub process_inotify_events : ℕ → ℕ → State k → Option (Run (State k))
  process_inotify_events fuel read_buffer_size s =
      let (got, o1) =
        read s.os s.inotify_fd
          (if ltb 0 read_buffer_size then read_buffer_size else inotify_read_buf_len) in
      process_fetched fuel got (record s { os = o1 })
