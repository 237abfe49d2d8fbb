-- ===== src/Dtree/Watching.antt =====
-- tlpi-dist/inotify/inotify_dtree.c: watches and cache entries for whole subtrees.
use tlpi_exercises.Base.{
  take, ◌-◌, ℕ, ◌+◌, Bool, true, false, not, ◌&&◌, Option, none, some, List, [], ◌∷◌, ◌++◌, map,
  ◌==◌, if◌then◌else◌, length, drop,
}
use tlpi_exercises.Dtree.{
  Text, Watch, unused, Run, done, exits, ◌>>=◌, exit_failure, Added, watched, add_failed, Kernel,
  State, find_watch, add_watch_to_cache, is_root_dir_path,
}

abbrev pub enoent : ℕ
enoent = 2

abbrev pub slash : ℕ
slash = b'/'

-- `"%s/%s"`
abbrev pub join : Text → Text → Text
join dir name = dir ++ slash ∷ name

-- `strncmp(dir, path, len) == 0 && (path[len] == '/' || path[len] == '\0')`
unfoldable pub in_subtree : Text → Text → Bool
in_subtree [] [] = true
in_subtree [] (b ∷ path) = b == slash
in_subtree (c ∷ dir) [] = false
in_subtree (c ∷ dir) (b ∷ path) = b == c && in_subtree dir path

-- `PATH_MAX`
abbrev pub path_max : ℕ
path_max = 4096

-- what snprintf(3) leaves of a text in an array of `PATH_MAX` characters, with a closing 0
unfoldable pub cut_path : Text → Text
cut_path path = take (path_max - 1) path

unfoldable pub rewrite_watch : Text → Text → Watch → Watch
rewrite_watch full_path new_prefix w =
    if in_subtree full_path w.path
    then record w { path = cut_path (new_prefix ++ drop (length full_path) w.path) }
    else w

unfoldable pub rewrite_cached_paths : Text → Text → Text → Text → List Watch → List Watch
rewrite_cached_paths old_path_prefix old_name new_path_prefix new_name cache =
    map
      (rewrite_watch (cut_path (join old_path_prefix old_name))
        (cut_path (join new_path_prefix new_name)))
      cache

module _ (k : Kernel) where
  open k use {Os, inotify_init, inotify_add_watch, inotify_rm_watch, close, nftw}

  -- from the return of inotify_add_watch(2) on
  unfoldable pub after_add_watch : Added → Text → State k → Run (State k)
  after_add_watch (add_failed err) pathname s = if err == enoent then done s else exits exit_failure
  after_add_watch (watched wd) pathname s = elim (find_watch (some wd) s.wl_cache) [
    | none ↦
        add_watch_to_cache k wd pathname (record s { dir_cnt = s.dir_cnt + 1 }) >>= λ (slot, s1).
        done s1
    | some slot ↦ done s
  ]

  unfoldable pub traverse_tree : ℕ → Text → Bool → State k → Run (State k)
  traverse_tree ifd pathname is_dir s =
      if not is_dir
      then done s
      else (let (added, os1) =
            inotify_add_watch s.os ifd pathname (is_root_dir_path pathname s.root_dir_paths) in
          after_add_watch added pathname (record s { os = os1 }))

  -- the calls that nftw(3) makes
  unfoldable pub traverse_all : ℕ → List (Text × Bool) → State k → Run (State k)
  traverse_all ifd [] s = done s
  traverse_all ifd ((pathname, is_dir) ∷ files) s =
      traverse_tree ifd pathname is_dir s >>= λ s1. traverse_all ifd files s1

  unfoldable pub watch_dir : ℕ → Text → State k → Run (State k)
  watch_dir inotify_fd pathname s =
      let (files, os1) = nftw s.os pathname in
      traverse_all inotify_fd files (record s { os = os1; dir_cnt = 0 })

  unfoldable pub watch_subtree : ℕ → Text → State k → Run (State k)
  watch_subtree inotify_fd path s = watch_dir inotify_fd path s

  -- The number of entries that are zapped, or `none` for -1, the cache and the system: for one slot,
  -- with its watch descriptor, and `next` for the slots behind it, and for all.
  unfoldable pub zap_slot :
      ℕ
      → Text
      → Option ℕ
      → Watch
      → List Watch
      → (Os → Option ℕ × List Watch × Os)
      → Os
      → Option ℕ × List Watch × Os
  zap_slot inotify_fd pn none w cache next o = let (n, rest, o') = next o in (n, w ∷ rest, o')
  zap_slot inotify_fd pn (some wd) w cache next o =
      let (n, rest, o') = next o in
      if not (in_subtree pn w.path)
      then (n, w ∷ rest, o')
      else (let (ok, o1) = inotify_rm_watch o inotify_fd wd in
          let (n1, rest1, o2) = next o1 in
          if not ok
          then (none, w ∷ cache, o1)
          else (elim n1 [ none ↦ none | some m ↦ some (m + 1) ], unused ∷ rest1, o2))

  unfoldable pub zap_loop : ℕ → Text → List Watch → Os → Option ℕ × List Watch × Os
  zap_loop inotify_fd pn [] o = (some 0, [], o)
  zap_loop inotify_fd pn (w ∷ cache) o =
      zap_slot inotify_fd pn w.wd w cache (zap_loop inotify_fd pn cache) o

  unfoldable pub zap_subtree : ℕ → Text → State k → Option ℕ × State k
  zap_subtree inotify_fd path s =
      let (cnt, cache, o) = zap_loop inotify_fd path s.wl_cache s.os in
      (cnt, record s { wl_cache = cache; os = o })

  unfoldable pub watch_roots : ℕ → List (Option Text) → State k → Run (State k)
  watch_roots inotify_fd [] s = done s
  watch_roots inotify_fd (none ∷ roots) s = watch_roots inotify_fd roots s
  watch_roots inotify_fd (some path ∷ roots) s =
      watch_subtree inotify_fd path s >>= λ s1. watch_roots inotify_fd roots s1

  -- The old descriptor `none` is -1.
  unfoldable pub reinitialize : Option ℕ → State k → Run (State k)
  reinitialize old_inotify_fd s =
      let s1 : State k = elim old_inotify_fd [
        | some fd ↦ record s { os = close s.os fd; reinit_cnt = s.reinit_cnt + 1 }
        | none ↦ record s { reinit_cnt = 0 }
      ] in
      let (fd, os2) = inotify_init s1.os in
      elim fd [
        | none ↦ exits exit_failure
        | some inotify_fd ↦
            watch_roots inotify_fd s1.root_dir_paths
              (record s1 { os = os2; wl_cache = []; inotify_fd = inotify_fd })
      ]
