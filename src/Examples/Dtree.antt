-- ===== src/Examples/Dtree.antt =====
-- tlpi-dist/inotify/inotify_dtree.c over a small kernel.
use tlpi_exercises.Base.{
  ℕ, ◌+◌, ◌≡◌, refl, Bool, true, false, none, some, List, [], ◌∷◌, ◌++◌, arith,
}
use tlpi_exercises.Dtree.{
  Text, Watch, unused, done, Mask, Event, watched, fetched, read_failed, Run, Kernel, State,
  same_wd, find_from, find_watch, replicate, find_empty_cache_slot, add_watch_to_cache,
}
use tlpi_exercises.Dtree.Adding.{Refines, walk}
use tlpi_exercises.Dtree.Commands.{start, next, command, need, zap_command, execute_command}
use tlpi_exercises.Dtree.Consistency.{missing, check_cache_consistency-blind}
use tlpi_exercises.Dtree.Events.{
  is_used, check_cache_consistency, process_next_inotify_event, process_fetched,
}
use tlpi_exercises.Dtree.Lookup.{view, Fresh, Distinct}
use tlpi_exercises.Dtree.Main.{Reach-IsGood}
use tlpi_exercises.Dtree.Progress.{Quiet, process_fetched-ends}
use tlpi_exercises.Dtree.Rename.{Renamed, process_next-rename}
use tlpi_exercises.Dtree.Total.{Serves, watch_subtree-adds}
use tlpi_exercises.Dtree.Watching.{
  cut_path, join, in_subtree, after_add_watch, traverse_tree, traverse_all, watch_dir,
  watch_subtree, zap_slot, zap_loop, zap_subtree, watch_roots, reinitialize,
}

-- Watch descriptors count up; each walk finds a directory and one in it, and no event comes.
abbrev small : Kernel
small = record {
  Os = ℕ;
  Free = ℕ;
  realloc = λ f n. (true, f + n);
  inotify_init = λ o. (some 5, o);
  inotify_add_watch = λ o fd path root. (watched o, o + 1);
  inotify_rm_watch = λ o fd wd. (true, o);
  close = λ o fd. o;
  nftw = λ o path.
      ((path, true) ∷ (path ++ b'/' ∷ b'x' ∷ [], true) ∷ (path ++ b'/' ∷ b'f' ∷ [], false) ∷ [], o);
  lstat = λ o path. some false;
  read = λ o fd n. (read_failed 4, o);
}

small-Serves : Serves small
small-Serves = record { grows = λ f n. refl; watches = λ o fd err path root e. absurd (cc) }

abbrev top : Text
top = b't' ∷ []

-- t, t/a, t/a/b and t/ab
abbrev four : List Watch
four =
    record { wd = some 1; path = top }
    ∷ record { wd = some 2; path = b't' ∷ b'/' ∷ b'a' ∷ [] }
    ∷ record { wd = some 3; path = b't' ∷ b'/' ∷ b'a' ∷ b'/' ∷ b'b' ∷ [] }
    ∷ record { wd = some 4; path = b't' ∷ b'/' ∷ b'a' ∷ b'b' ∷ [] }
    ∷ []

abbrev state_of : List Watch → State small
state_of cache = record {
  wl_cache = cache;
  root_dir_paths = some top ∷ [];
  ignore_root_dirs = 0;
  dir_cnt = 0;
  inotify_fd = 5;
  reinit_cnt = 0;
  overflow_cnt = 0;
  check_cache = false;
  dump_cache = false;
  verbose_mask = 0;
  abort_on_cache_problem = false;
  os = 5;
  free = 0;
}

abbrev no_bits : Mask
no_bits = record {
  in_isdir = false;
  in_create = false;
  in_delete_self = false;
  in_move_self = false;
  in_moved_from = false;
  in_moved_to = false;
  in_ignored = false;
  in_q_overflow = false;
  in_unmount = false;
}

abbrev moved_from_event : Event
moved_from_event = record {
  wd = some 1;
  mask = record no_bits { in_isdir = true; in_moved_from = true };
  cookie = 9;
  len = 16;
  name = b'a' ∷ [];
}

abbrev moved_to_event : Event
moved_to_event = record {
  wd = some 4;
  mask = record no_bits { in_isdir = true; in_moved_to = true };
  cookie = 9;
  len = 16;
  name = b'c' ∷ [];
}

four-Distinct : Distinct four
unfolding Distinct Fresh view same_wd
four-Distinct = (refl, (refl, (refl, (refl, tt))))

abbrev subtree : Text
subtree = b't' ∷ b'/' ∷ b'a' ∷ []

-- The pathname t/a/b becomes t/ab/c/b, and t/ab stays.
process_next-rename_example :
    (s1 : State small) × (process_next_inotify_event small true 64 moved_from_event
        (moved_to_event ∷ [])
        (state_of four)
      ≡ done (some 64, s1))
    × ((x : ℕ) → view four x ≡ none → view s1.wl_cache x ≡ none)
    × ((x : ℕ) (p : Text)
        → view four x ≡ some p
        → (q : Text) × (view s1.wl_cache x ≡ some q)
          × Renamed
              (cut_path (join top (b'a' ∷ [])))
              (cut_path (join (b't' ∷ b'/' ∷ b'a' ∷ b'b' ∷ []) (b'c' ∷ [])))
              p
              q)
unfolding view same_wd
process_next-rename_example =
    process_next-rename small true 64 1 4 moved_from_event moved_to_event [] top
      (b't' ∷ b'/' ∷ b'a' ∷ b'b' ∷ []) (state_of four) refl refl refl refl refl refl refl refl refl
      refl refl refl (omega arith) refl

watch_subtree-adds_example :
    (s1 : State small) × (watch_subtree small 5 (b'u' ∷ []) (state_of four) ≡ done s1)
    × Refines small
        (walk small 5 (some top ∷ []) (b'u' ∷ []) 5).0
        (walk small 5 (some top ∷ []) (b'u' ∷ []) 5).1
        (state_of four)
        s1
watch_subtree-adds_example =
    watch_subtree-adds small small-Serves 5 (b'u' ∷ []) (state_of four) four-Distinct

-- None of the files is a directory.
check_cache_consistency-blind_example :
    check_cache_consistency small (state_of four) ≡ done (missing small 5 four)
unfolding is_used
check_cache_consistency-blind_example =
    check_cache_consistency-blind small (state_of four) (refl, (refl, (refl, (refl, tt))))

abbrev no_number : Text → ℕ
no_number arg = 0

abbrev opens : ℕ → Text → Bool
opens o path = true

abbrev two : List Watch
two =
    record { wd = some 5; path = top }
    ∷ record { wd = some 6; path = b't' ∷ b'/' ∷ b'x' ∷ [] }
    ∷ replicate 198 unused

abbrev one : List Watch
one = record { wd = some 5; path = top } ∷ replicate 199 unused

abbrev built_state : State small
built_state = record (state_of two) { os = 7; free = 820000; dir_cnt = 2 }

built : reinitialize small none (state_of four) ≡ done built_state
unfolding reinitialize watch_roots watch_subtree watch_dir traverse_all traverse_tree
    after_add_watch add_watch_to_cache find_empty_cache_slot find_watch find_from same_wd
built = refl

-- the command `z t/x`
zapped :
    execute_command small no_number opens b'z' (some (b't' ∷ b'/' ∷ b'x' ∷ [])) built_state
    ≡ done (record built_state { wl_cache = one })
unfolding execute_command zap_command need zap_subtree zap_loop zap_slot in_subtree
zapped = refl

Reach-IsGood_example : Distinct one
Reach-IsGood_example = Reach-IsGood small no_number opens (
    next {s1 = built_state} {s2 = record built_state { wl_cache = one }}
      (start {s1 = built_state} built) (command b'z' (some (b't' ∷ b'/' ∷ b'x' ∷ [])) zapped))

-- no event comes from this kernel
small-Quiet : Quiet small
small-Quiet o fd n ev more e = absurd (cc)

process_fetched-ends_example :
    (r : Run (State small)) × (process_fetched small 4
        (fetched (moved_from_event ∷ []))
        (state_of four)
      ≡ some r)
process_fetched-ends_example =
    process_fetched-ends small (moved_from_event ∷ []) (state_of four) small-Quiet
