-- ===== src/Dtree/Consistency.antt =====
-- What `checkCacheConsistency` finds out.
use tlpi_exercises.Base.{
  ℕ, ◌+◌, ◌≡◌, refl, ap, ◌∙◌, inl, inr, Bool, true, Option, none, some, Option-cases, List, [], ◌∷◌,
  All, arith,
}
use tlpi_exercises.Dtree.{Watch, done, Kernel, State}
use tlpi_exercises.Dtree.Events.{is_used, check_loop, check_cache_consistency}

abbrev pub IsUsed : Watch → Type 0
IsUsed w = is_used w.wd ≡ true

module _ (k : Kernel) where
  -- the pathnames that lstat(2) does not find
  unfoldable pub missing : k.Os → List Watch → ℕ
  missing o [] = 0
  missing o (w ∷ cache) = elim (k.lstat o w.path) [
    | none ↦ missing o cache + 1
    | some is_dir ↦ missing o cache
  ]

  check_loop-missing :
      (o : k.Os) (sb : Option Bool) (cache : List Watch) (n : ℕ)
      → All IsUsed cache
      → check_loop k o sb cache n ≡ done (n + missing o cache)
  unfolding check_loop missing
  check_loop-missing o sb [] n u = ap (λ (x : ℕ). done x) (omega arith)
  check_loop-missing o sb (w ∷ cache) n u = elim (Option-cases (k.lstat o w.path)) [
    | inl e ↦
        let m : missing o (w ∷ cache) ≡ missing o cache + 1 = rw (missing, e) refl in
        rw (u.0, e)
          (check_loop-missing o sb cache (n + 1) u.1 ∙ ap (λ (x : ℕ). done x) (omega arith))
    | inr (is_dir, e) ↦
        let m : missing o (w ∷ cache) ≡ missing o cache = rw (missing, e) refl in
        rw (u.0, e)
          (check_loop-missing o (some is_dir) cache n u.1 ∙ ap (λ (x : ℕ). done x) (omega arith))
  ]

  -- Where every slot is in use `checkCacheConsistency` goes on, with the number of pathnames that
  -- lstat(2) does not find, whether or not the files that it finds are directories.
  pub check_cache_consistency-blind :
      (s : State k)
      → All IsUsed s.wl_cache
      → check_cache_consistency k s ≡ done (missing s.os s.wl_cache)
  unfolding check_cache_consistency
  check_cache_consistency-blind s u =
      check_loop-missing s.os none s.wl_cache 0 u ∙ ap (λ (x : ℕ). done x) (omega arith)
