-- ===== src/Sems/Moves.antt =====
-- tlpi-dist/svsem/binary_sems.c: what a round of `reserveSem` and a `releaseSem` do to the values.
use tlpi_exercises.Base.{
  ℕ, suc, ◌≡◌, ◌≢◌, refl, sym, Bool, true, false, not, ◌||◌, ◌==◌, if◌then◌else◌,
}
use tlpi_exercises.Sems.{
  ok, failed, Semaphores, IsSemaphores, Reserved, again, returns, reserve_next, reserve_op,
  release_op, release_next, Reserve, Release, eintr,
}

not_taken : (b : Bool) → (if b then returns false else again) ≢ returns true
not_taken true e = cc
not_taken false e = cc

module _ {Os : Type 0} (s : Semaphores Os) (law : IsSemaphores s) (retry undo : Bool) where
  abbrev pub Same : Os → Os → Type 0
  Same o o' = (n : ℕ) → s.value o' n ≡ s.value o n

  pub Reserve-taken :
      {o o' : Os} {n : ℕ}
      → Reserve s retry undo o n (returns true) o'
      → (s.value o n ≡ suc (s.value o' n)) × ((k : ℕ) → k ≢ n → s.value o' k ≡ s.value o k)
  unfolding reserve_next reserve_op
  Reserve-taken (ok, c, e) = law.down_ok refl c
  Reserve-taken (failed err, c, e) = absurd (not_taken (not (err == eintr) || not retry) e)

  pub Reserve-Same :
      {o o' : Os} (n : ℕ) {x : Reserved}
      → x ≢ returns true
      → Reserve s retry undo o n x o'
      → Same o o'
  unfolding reserve_next reserve_op
  Reserve-Same n ne (ok, c, e) = absurd (ne (sym e))
  Reserve-Same n ne (failed err, c, e) = law.semop_failed c

  pub Release-given :
      {o o' : Os} {n : ℕ}
      → Release s undo o n true o'
      → (s.value o' n ≡ suc (s.value o n)) × ((k : ℕ) → k ≢ n → s.value o' k ≡ s.value o k)
  unfolding release_next release_op
  Release-given (ok, c, e) = law.up_ok refl c
  Release-given (failed err, c, e) = absurd (cc)

  pub Release-Same : {o o' : Os} (n : ℕ) → Release s undo o n false o' → Same o o'
  unfolding release_next release_op
  Release-Same n (ok, c, e) = absurd (cc)
  Release-Same n (failed err, c, e) = law.semop_failed c
