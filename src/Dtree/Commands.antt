-- ===== src/Dtree/Commands.antt =====
-- tlpi-dist/inotify/inotify_dtree.c: the commands from the keyboard, and the main loop. A command is
-- its letter and its argument, as sscanf(3) finds them; `none` is an argument that is not there.
-- `atoi` and `fopen` are parameters.
use tlpi_exercises.Base.{
  ℕ, ◌+◌, ◌≡◌, Bool, true, false, not, ◌||◌, Option, none, some, List, [], ◌∷◌, ◌==◌, if◌then◌else◌,
}
use tlpi_exercises.Dtree.{
  Text, Watch, Run, done, exits, undefined, ◌>>=◌, exit_failure, Kernel, State,
}
use tlpi_exercises.Dtree.Events.{is_used, process_inotify_events}
use tlpi_exercises.Dtree.Watching.{watch_subtree, zap_subtree, reinitialize}

unfoldable pub need : Option Text → Run Text
need none = undefined
need (some arg) = done arg

module _ (k : Kernel) (atoi : Text → ℕ) (fopen : k.Os → Text → Bool) where
  -- `c`: the number of entries that are directories; another file ends the program
  unfoldable pub verify_loop : k.Os → List Watch → ℕ → Run ℕ
  verify_loop o [] cnt = done cnt
  verify_loop o (w ∷ cache) cnt =
      let next = verify_loop o cache cnt in
      if not (is_used w.wd) then next else elim (k.lstat o w.path) [
        | none ↦ next
        | some is_dir ↦ elim is_dir [
          | true ↦ verify_loop o cache (cnt + 1)
          | false ↦ exits exit_failure
        ]
      ]

  unfoldable pub add_command : Option Text → State k → Run (State k)
  add_command arg s =
      need arg >>= λ path. watch_subtree k s.inotify_fd path (zap_subtree k s.inotify_fd path s).1

  unfoldable pub zap_command : Option Text → State k → Run (State k)
  zap_command arg s = need arg >>= λ path. done (zap_subtree k s.inotify_fd path s).1

  unfoldable pub verbose_command : Option Text → State k → Run (State k)
  verbose_command none s = done (record s { verbose_mask = if s.verbose_mask == 0 then 1 else 0 })
  verbose_command (some arg) s = done (record s { verbose_mask = atoi arg })

  -- where fopen(3) fails the program writes through `NULL`
  unfoldable pub write_command : Option Text → State k → Run (State k)
  write_command arg s = need arg >>= λ path. if fopen s.os path then done s else undefined

  -- `l` and the letters that are no command only print.
  unfoldable pub execute_command : ℕ → Option Text → State k → Run (State k)
  execute_command cmd arg s =
      if cmd == b'a'
      then add_command arg s
      else if (cmd == b'c') || (cmd == b'C')
      then (verify_loop s.os s.wl_cache 0 >>= λ cnt. done s)
      else if cmd == b'q'
      then exits true
      else if cmd == b'v'
      then verbose_command arg s
      else if cmd == b'd'
      then done (record s { dump_cache = not s.dump_cache })
      else if cmd == b'x'
      then done (record s { check_cache = not s.check_cache })
      else if cmd == b'w'
      then write_command arg s
      else if cmd == b'z'
      then zap_command arg s
      else if cmd == b'0'
      then reinitialize k none (record s { os = k.close s.os s.inotify_fd })
      else done s

  -- One round of the main loop, for either of the descriptors that are ready.
  pub data Step (s s1 : State k) : Type 0 where
    command : (cmd : ℕ) (arg : Option Text) → execute_command cmd arg s ≡ done s1 → Step s s1
    events :
        (fuel read_buffer_size : ℕ)
        → process_inotify_events k fuel read_buffer_size s ≡ some (done s1)
        → Step s s1

  -- The states of the main loop, after the first build of the cache from `s`.
  pub data Reach (s : State k) : State k → Type 0 where
    start : {s1 : State k} → reinitialize k none s ≡ done s1 → Reach s s1
    next : {s1 s2 : State k} → Reach s s1 → Step s1 s2 → Reach s s2
