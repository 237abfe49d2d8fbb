-- ===== src/Dtree.antt =====
-- tlpi-dist/inotify/inotify_dtree.c: the watch cache, and the directories of the command line.
-- `wlCache` is a list, its length `cacheSize`. Pathnames are lists of bytes without the closing 0,
-- and none is cut: the source does not handle those longer than PATH_MAX. Log messages are left
-- out. The kernel and the C library are the parameter `Kernel`.
pub mod Adding
pub mod Commands
pub mod Consistency
pub mod Ensures
pub mod Events
pub mod Invariant
pub mod Lookup
pub mod Main
pub mod Progress
pub mod Rebuild
pub mod Rename
pub mod Rounds
pub mod Total
pub mod Unique
pub mod Watching
pub mod Zap
use tlpi_exercises.Base.{
  same_text, ℕ, zero, suc, ◌+◌, ◌*◌, Bool, true, false, not, ◌&&◌, Option, none, some, List, [],
  ◌∷◌, ◌++◌, ◌==◌, if◌then◌else◌, length,
}

abbrev pub Text : Type 0
Text = List ℕ

-- `struct watch`; the watch descriptor `none` is -1, an unused slot.
pub record Watch : Type 0 where
  pub wd : Option ℕ
  pub path : Text

abbrev pub unused : Watch
unused = record { wd = none; path = [] }

-- A part of the program goes on, exits with a status, aborts, or reads a variable that was not set.
pub data Run {ℓ} (A : Type ℓ) : Type ℓ where
  done : A → Run A
  exits : Bool → Run A
  aborts : Run A
  undefined : Run A

abbrev pub exit_failure : Bool
exit_failure = false

infixl 5 ◌>>=◌
abbrev pub ◌>>=◌ {ℓ κ} : {A : Type ℓ} {B : Type κ} → Run A → (A → Run B) → Run B
done a >>= f = f a
exits ok >>= f = exits ok
aborts >>= f = aborts
undefined >>= f = undefined

-- The bits of an event's mask that the program tests.
pub record Mask : Type 0 where
  pub in_isdir : Bool
  pub in_create : Bool
  pub in_delete_self : Bool
  pub in_move_self : Bool
  pub in_moved_from : Bool
  pub in_moved_to : Bool
  pub in_ignored : Bool
  pub in_q_overflow : Bool
  pub in_unmount : Bool

-- `struct inotify_event`; `len` counts the bytes of the name with its padding.
pub record Event : Type 0 where
  pub wd : Option ℕ
  pub mask : Mask
  pub cookie : ℕ
  pub len : ℕ
  pub name : Text

-- inotify_add_watch(2) and read(2) fail with the number of an error.
pub data Added : Type 0 where
  watched : ℕ → Added
  add_failed : ℕ → Added

pub data Fetched : Type 0 where
  fetched : List Event → Fetched
  read_failed : ℕ → Fetched

-- `inotify_add_watch` is told whether IN_MOVE_SELF is among the flags. `nftw` gives the files that
-- its walk visits, each with whether it is a directory. `lstat` tells whether a file is one. `Free`
-- is the state of the heap.
pub record Kernel : Type 1 where
  pub Os : Type 0
  pub Free : Type 0
  pub realloc : Free → ℕ → Bool × Free
  pub inotify_init : Os → Option ℕ × Os
  pub inotify_add_watch : Os → ℕ → Text → Bool → Added × Os
  pub inotify_rm_watch : Os → ℕ → ℕ → Bool × Os
  pub close : Os → ℕ → Os
  pub nftw : Os → Text → List (Text × Bool) × Os
  pub lstat : Os → Text → Option Bool
  pub read : Os → ℕ → ℕ → Fetched × Os

unfoldable pub same_wd : Option ℕ → Option ℕ → Bool
same_wd none none = true
same_wd none (some b) = false
same_wd (some a) none = false
same_wd (some a) (some b) = a == b

-- The slot number, or `none` for -1.
unfoldable pub find_from : ℕ → Option ℕ → List Watch → Option ℕ
find_from j wd [] = none
find_from j wd (w ∷ cache) =
    let rest = find_from (j + 1) wd cache in if same_wd w.wd wd then some j else rest

unfoldable pub find_watch : Option ℕ → List Watch → Option ℕ
find_watch wd cache = find_from 0 wd cache

-- `wlCache[slot] = w`
abbrev pub set : List Watch → ℕ → Watch → List Watch
set [] slot w = []
set (x ∷ cache) zero w = w ∷ cache
set (x ∷ cache) (suc slot) w = x ∷ set cache slot w

unfoldable pub mark_cache_slot_empty : ℕ → List Watch → List Watch
mark_cache_slot_empty slot cache = set cache slot unused

abbrev pub replicate : ℕ → Watch → List Watch
replicate zero w = []
replicate (suc n) w = w ∷ replicate n w

-- `ALLOC_INCR`
abbrev pub alloc_incr : ℕ
alloc_incr = 200

unfoldable pub path_from : ℕ → Text → List Watch → Option ℕ
path_from j pathname [] = none
path_from j pathname (w ∷ cache) =
    let rest = path_from (j + 1) pathname cache in
    if not (same_wd w.wd none) && same_text w.path pathname then some j else rest

unfoldable pub pathname_to_cache_slot : Text → List Watch → Option ℕ
pathname_to_cache_slot pathname cache = path_from 0 pathname cache

unfoldable pub pathname_in_cache : Text → List Watch → Bool
pathname_in_cache pathname cache = elim (pathname_to_cache_slot pathname cache) [
  | none ↦ false
  | some j ↦ true
]

-- `none` is a pathname that has been zapped.
unfoldable pub is_root_dir_path : Text → List (Option Text) → Bool
is_root_dir_path path [] = false
is_root_dir_path path (none ∷ roots) = is_root_dir_path path roots
is_root_dir_path path (some p ∷ roots) =
    let rest = is_root_dir_path path roots in if same_text path p then true else rest

-- `*findRootDirPath(path) = NULL`
unfoldable pub zap_first : Text → List (Option Text) → List (Option Text)
zap_first path [] = []
zap_first path (none ∷ roots) = none ∷ zap_first path roots
zap_first path (some p ∷ roots) =
    let rest = zap_first path roots in if same_text path p then none ∷ roots else some p ∷ rest

module _ (k : Kernel) where
  open k use {Os, Free, realloc}

  pub record State : Type 0 where
    pub wl_cache : List Watch
    pub root_dir_paths : List (Option Text)
    pub ignore_root_dirs : ℕ
    pub dir_cnt : ℕ
    pub inotify_fd : ℕ
    pub reinit_cnt : ℕ
    pub overflow_cnt : ℕ
    pub check_cache : Bool
    pub dump_cache : Bool
    pub verbose_mask : ℕ
    pub abort_on_cache_problem : Bool
    pub os : Os
    pub free : Free

  -- `struct watch` has 4 + 4096 bytes.
  unfoldable pub find_empty_cache_slot : State → Run (ℕ × State)
  find_empty_cache_slot s = elim (find_watch none s.wl_cache) [
    | some j ↦ done (j, s)
    | none ↦
        let size = length s.wl_cache in
        let (ok, free1) = realloc s.free ((size + alloc_incr) * 4100) in
        if not ok
        then exits exit_failure
        else done
            (size, record s { wl_cache = s.wl_cache ++ replicate alloc_incr unused; free = free1 })
  ]

  unfoldable pub add_watch_to_cache : ℕ → Text → State → Run (ℕ × State)
  add_watch_to_cache wd pathname s = find_empty_cache_slot s >>= λ (slot, s1). done (
    slot,
    record s1 { wl_cache = set s1.wl_cache slot (record { wd = some wd; path = pathname }) },
  )

  unfoldable pub zap_root_dir_path : Text → State → Run State
  zap_root_dir_path path s =
      if not (is_root_dir_path path s.root_dir_paths)
      then exits exit_failure
      else if s.ignore_root_dirs + 1 == length s.root_dir_paths
      then exits true
      else done (record s {
        root_dir_paths = zap_first path s.root_dir_paths;
        ignore_root_dirs = s.ignore_root_dirs + 1;
      })
