-- ===== src/Dtree/Main.antt =====
-- The invariant of the main loop.
use mathlib.Core.Path.{subst}
use tlpi_exercises.Base.{ℕ, ◌≡◌, ◌||◌, Bool, Option, none, some, ◌==◌}
use tlpi_exercises.Dtree.{Text, Run, done, Kernel, State}
use tlpi_exercises.Dtree.Commands.{
  need, verify_loop, add_command, zap_command, verbose_command, write_command, execute_command,
  command, events, Reach, start, next,
}
use tlpi_exercises.Dtree.Ensures.{Ensures, Ensures-if, Ensures-after, Returns}
use tlpi_exercises.Dtree.Invariant.{IsGood, watch_subtree-IsGood, process_inotify_events-IsGood}
use tlpi_exercises.Dtree.Lookup.{Distinct}
use tlpi_exercises.Dtree.Rebuild.{reinitialize-Distinct}
use tlpi_exercises.Dtree.Watching.{zap_subtree}
use tlpi_exercises.Dtree.Zap.{zap-Distinct}

module _ (k : Kernel) (atoi : Text → ℕ) (fopen : k.Os → Text → Bool) where
  zap_subtree-IsGood :
      (fd : ℕ) (path : Text) (s : State k) → IsGood k s → IsGood k (zap_subtree k fd path s).1
  unfolding zap_subtree
  zap_subtree-IsGood fd path s d = zap-Distinct k fd path s.wl_cache s.os d

  verbose_command-IsGood :
      (arg : Option Text) (s : State k)
      → IsGood k s
      → Ensures (IsGood k) (verbose_command k atoi fopen arg s)
  unfolding verbose_command
  verbose_command-IsGood none s d = d
  verbose_command-IsGood (some arg) s d = d

  execute_command-IsGood :
      (cmd : ℕ) (arg : Option Text) (s : State k)
      → IsGood k s
      → Ensures (IsGood k) (execute_command k atoi fopen cmd arg s)
  unfolding execute_command add_command zap_command write_command
  execute_command-IsGood cmd arg s d =
      let P = IsGood k in
      Ensures-if P (cmd == b'a') _ _
        (Ensures-after P (need arg) _ (λ path.
          watch_subtree-IsGood k s.inotify_fd path (zap_subtree k s.inotify_fd path s).1
            (zap_subtree-IsGood s.inotify_fd path s d)))
        (Ensures-if P ((cmd == b'c') || (cmd == b'C')) _ _
          (Ensures-after P (verify_loop k atoi fopen s.os s.wl_cache 0) _ (λ cnt. d))
          (Ensures-if P (cmd == b'q') _ _ tt (
            Ensures-if P (cmd == b'v') _ _ (verbose_command-IsGood arg s d) (
              Ensures-if P (cmd == b'd') _ _ d (
                Ensures-if P (cmd == b'x') _ _ d (
                  Ensures-if P (cmd == b'w') _ _
                    (Ensures-after P (need arg) _ (λ path. Ensures-if P (fopen s.os path) _ _ d tt))
                    (Ensures-if P (cmd == b'z') _ _
                      (Ensures-after P (need arg) _
                        (λ path. zap_subtree-IsGood s.inotify_fd path s d))
                      (Ensures-if P (cmd == b'0') _ _
                        (reinitialize-Distinct k none (record s { os = k.close s.os s.inotify_fd }))
                        d))))))))

  done-IsGood :
      {m : Run (State k)} {s1 : State k} → Ensures (IsGood k) m → m ≡ done s1 → IsGood k s1
  done-IsGood h e = subst (λ (r : Run (State k)). Ensures (IsGood k) r) e h

  some-IsGood :
      {m : Option (Run (State k))} {s1 : State k}
      → Returns (IsGood k) m
      → m ≡ some (done s1)
      → IsGood k s1
  some-IsGood h e = subst (λ (r : Option (Run (State k))). Returns (IsGood k) r) e h

  -- Whatever commands and events come, and whatever the system answers, the main loop has a cache in
  -- which no two slots have the same watch descriptor each time that it waits.
  pub Reach-IsGood : {s s1 : State k} → Reach k atoi fopen s s1 → Distinct s1.wl_cache
  Reach-IsGood {s} (start e) = done-IsGood (reinitialize-Distinct k none s) e
  Reach-IsGood {s} (next {s1} r (command cmd arg e)) =
      done-IsGood (execute_command-IsGood cmd arg s1 (Reach-IsGood r)) e
  Reach-IsGood {s} (next {s1} r (events fuel size e)) =
      some-IsGood (process_inotify_events-IsGood k fuel size s1 (Reach-IsGood r)) e
