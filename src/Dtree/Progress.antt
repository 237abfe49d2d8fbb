-- ===== src/Dtree/Progress.antt =====
-- tlpi-dist/inotify/inotify_dtree.c: the loop over the buffer ends.
use tlpi_exercises.Base.{
  ℕ, zero, suc, ◌+◌, ◌-◌, ◌*◌, ◌≤◌, ◌<◌, ◌≡◌, ◌≢◌, refl, ap, inl, inr, Bool, true, false, Option,
  none, some, List, [], ◌∷◌, ◌==◌, length, if◌then◌else◌, arith,
}
use tlpi_exercises.Dtree.Ensures.{Ensures, Ensures-if}
use tlpi_exercises.Dtree.Events.{
  ◌>>=?◌, size, behind, inotify_read_buf_len, process_next_inotify_event, total, read_more,
  after_read_more, process_loop, process_fetched, eintr,
}
use tlpi_exercises.Dtree.Rounds.{Goes, process_next-Goes}
use tlpi_exercises.Dtree.{
  Run, done, exits, aborts, undefined, exit_failure, Event, Fetched, fetched, read_failed, Kernel,
  State,
}

-- what is behind at least one byte is fewer events
length-behind : (n : ℕ) (evs : List Event) → length (behind n evs) ≤ length evs
unfolding behind
length-behind n [] = omega arith
length-behind n (ev ∷ evs) = ground (arith, length-behind (n - size ev) evs)

behind-fewer :
    (n : ℕ) (ev : Event) (evs : List Event) → 0 < n → length (behind n (ev ∷ evs)) ≤ length evs
unfolding behind
behind-fewer n ev evs pos = ground (arith, length-behind (n - size ev) evs)

-- the loop does not run out of fuel
abbrev Ends : {A : Type 0} → Option (Run A) → Type 0
Ends {A} m = (r : Run A) × (m ≡ some r)

Ends-bind {μ} :
    {A B : Type 0} (P : A → Type μ) (m : Run A) (f : A → Option (Run B))
    → Ensures P m
    → ((a : A) → P a → Ends (f a))
    → Ends (m >>=? f)
Ends-bind P (done a) f h g = g a h
Ends-bind P (exits ok) f h g = (exits ok, refl)
Ends-bind P aborts f h g = (aborts, refl)
Ends-bind P undefined f h g = (undefined, refl)

Ends-if :
    {A : Type 0} (b : Bool) (x y : Option (Run A)) → Ends x → Ends y → Ends (if b then x else y)
Ends-if true x y h g = h
Ends-if false x y h g = g

Ends-option {κ} :
    {A : Type κ} {B : Type 0} (o : Option A) (n : Option (Run B)) (f : A → Option (Run B))
    → (o ≡ none → Ends n)
    → ((a : A) → o ≡ some a → Ends (f a))
    → Ends (elim o [ none ↦ n | some a ↦ f a ])
Ends-option none n f h g = h refl
Ends-option (some a) n f h g = g a refl

module _ (k : Kernel) where
  first_only :
      (first_try : Bool) (r : Option ℕ × State k)
      → Goes k first_try r
      → r.0 ≡ none
      → first_try ≡ true
  first_only first_try r (inl (n, e, pos)) is_none = absurd (cc)
  first_only first_try r (inr (e, t)) is_none = t

  some_taken :
      (first_try : Bool) (r : Option ℕ × State k) (n : ℕ)
      → Goes k first_try r
      → r.0 ≡ some n
      → 0 < n
  some_taken first_try r n (inl (a, e, pos)) is_some = let same : a ≡ n = cc in omega arith
  some_taken first_try r n (inr (e, t)) is_some = absurd (cc)

  -- No read gives more events: each fails, or gives nothing.
  abbrev pub Quiet : Type 0
  Quiet =
      (o : k.Os) (fd n : ℕ) (ev : Event) (more : List Event)
      → (k.read o fd n).0 ≢ fetched (ev ∷ more)

  after_read_more-quiet :
      (got : Fetched) (evs : List Event) (left : ℕ) (s : State k)
      → ((ev : Event) (more : List Event) → got ≢ fetched (ev ∷ more))
      → Ensures (λ (q : List Event × ℕ × State k). q.0 ≡ evs) (after_read_more k got evs left s)
  unfolding after_read_more
  after_read_more-quiet (read_failed err) evs left s h =
      Ensures-if (λ (q : List Event × ℕ × State k). q.0 ≡ evs) (err == eintr) _ _ refl tt
  after_read_more-quiet (fetched []) evs left s h = tt
  after_read_more-quiet (fetched (ev ∷ more)) evs left s h = absurd (h ev more refl)

  read_more-quiet :
      (evs : List Event) (left : ℕ) (s : State k)
      → Quiet
      → Ensures (λ (q : List Event × ℕ × State k). q.0 ≡ evs) (read_more k evs left s)
  unfolding read_more
  read_more-quiet evs left s quiet =
      let call = k.read s.os s.inotify_fd (inotify_read_buf_len - left) in
      after_read_more-quiet call.0 evs left (record s { os = call.1 })
        (quiet s.os s.inotify_fd (inotify_read_buf_len - left))

  -- the rounds that are left at most, before the one that finds the end
  abbrev rounds : Bool → List Event → ℕ
  rounds first_try evs = 2 * length evs + (if first_try then 1 else 0)

  process_loop-Ends :
      (fuel : ℕ) (first_try : Bool) (evs : List Event) (left : ℕ) (s : State k)
      → Quiet
      → rounds first_try evs < fuel
      → Ends (process_loop k fuel first_try evs left s)
  unfolding process_loop
  process_loop-Ends zero first_try evs left s quiet h = absurd (omega arith)
  process_loop-Ends (suc fuel) first_try [] left s quiet h = (_, refl)
  process_loop-Ends (suc fuel) first_try (ev ∷ rest) left s quiet h =
      Ends-if (left == 0) _ _ (_, refl)
        (Ends-bind (Goes k first_try) (process_next_inotify_event k first_try left ev rest s) _
          (process_next-Goes k first_try left ev rest s)
          (λ r g.
            Ends-option r.0 _ _
              (λ is_none.
                Ends-bind (λ (q : List Event × ℕ × State k). q.0 ≡ ev ∷ rest)
                  (read_more k (ev ∷ rest) left r.1) _ (read_more-quiet (ev ∷ rest) left r.1 quiet)
                  (λ q same. process_loop-Ends fuel false q.0 q.1 q.2 quiet (
                    let t =
                      ap {B = ℕ} (λ (b : Bool). if b then 1 else 0)
                        (first_only first_try r g is_none) in
                    let l = ap (λ (x : List Event). length x) same in omega (arith, t, l))))
              (λ n is_some.
                process_loop-Ends fuel true (behind n (ev ∷ rest)) (left - n) r.1 quiet (
                  let pos = some_taken first_try r n g is_some in
                  omega (arith, behind-fewer n ev rest pos)))))

  -- If no read gives more events, the loop over the events of one read of `processInotifyEvents` ends,
  -- with fuel for two rounds for each event and two more.
  pub process_fetched-ends :
      (evs : List Event) (s : State k)
      → Quiet
      → (r : Run (State k)) × (process_fetched k (2 * length evs + 2) (fetched evs) s ≡ some r)
  unfolding process_fetched
  process_fetched-ends [] s quiet = (exits exit_failure, refl)
  process_fetched-ends (ev ∷ evs) s quiet =
      process_loop-Ends (2 * length (ev ∷ evs) + 2) true (ev ∷ evs) (total (ev ∷ evs)) s quiet
        (omega arith)
