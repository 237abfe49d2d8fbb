-- ===== src/Xfer/Progress.antt =====
-- tlpi-dist/svshm/svshm_xfr_writer.c and svshm_xfr_reader.c: the transfer gets on and ends.
use mathlib.Core.Path.{subst}
use tlpi_exercises.Base.{
  ℕ, zero, suc, ◌<◌, ◌≡◌, ◌≢◌, refl, ◌⊎◌, inl, inr, Bool, true, false, ◌||◌, Option, some, List, [],
  ◌∷◌, length, ltb, arith,
}
use tlpi_exercises.Io.{peek}
use tlpi_exercises.Io.Gather.{length-peek}
use tlpi_exercises.Sems.{
  Semaphores, IsSemaphores, ok, Sembuf, down, up, returns, reserve_next, reserve_op, release_next,
  release_op,
}
use tlpi_exercises.Xfer.Order.{exclusive, Reach-whole}
use tlpi_exercises.Xfer.Phase.{
  Facts, facts, Holds, Phase, ready, fetching, filled, offered, taken, putting, put, drained, over,
  clearing, done, writer_stopped, reader_stopped, Turn, End,
}
use tlpi_exercises.Xfer.Rank.{
  rank, is_fresh, is_handing, is_releasing, WriterStep-rank, ReaderStep-rank,
}
use tlpi_exercises.Xfer.Reachable.{Reach-Phase}
use tlpi_exercises.Xfer.{
  Files, IsFiles, IsApart, Shared, Writer, gone, Reader, checking, left, write_sem, read_sem,
  use_sem_undo, buf_size, MayReserve, MayRelease, WriterStep, ReaderStep, State, Step, by_writer,
  by_reader, Reach, next, got,
}

-- No call has to fail: a call that need not wait may succeed.
pub record Serves {Os : Type 0} (s : Semaphores Os) (f : Files Os) : Type 0 where
  pub can_down :
      (o : Os) (sops : Sembuf)
      → sops.sem_op ≡ down
      → 0 < s.value o sops.sem_num
      → (o' : Os) × s.semop o sops ok o'
  pub can_up : (o : Os) (sops : Sembuf) → sops.sem_op ≡ up → (o' : Os) × s.semop o sops ok o'
  pub can_read : (o : Os) (n : ℕ) → (bs : List ℕ) × (o' : Os) × f.read o n (got bs) o'
  pub can_write : (o : Os) (bs : List ℕ) → (o' : Os) × f.write o bs (some (length bs)) o'
  pub can_remove : (o : Os) → (o' : Os) × s.semctl_rmid o true o'

-- The program has not failed.
abbrev pub writer_sound : Writer → Bool
writer_sound (gone success b x) = success
writer_sound w = true

abbrev pub reader_sound : Reader → Bool
reader_sound (left success b x) = success
reader_sound r = true

Turn-not_releasing : {cnt : Option ℕ} {n : ℕ} {w : Writer} → Turn cnt n w → is_releasing w ≡ false
Turn-not_releasing (Turn.tests b c e) = refl
Turn-not_releasing Turn.waits = refl
Turn-not_releasing Turn.stopped = refl

stale : (n : ℕ) (b : Bool) → n ≡ 0 → b ≡ false → (ltb 0 n || b) ≡ false
stale n b e g = ground arith

handing-stale :
    {all : List ℕ} {a : Facts} {w : Writer} {r : Reader}
    → Phase all a w r
    → is_handing r ≡ true
    → is_fresh a.turn_r w ≡ false
handing-stale {a = a} {w = w} (put shut split len t) h =
    let z = shut.1 in let n = Turn-not_releasing t in stale a.turn_r (is_releasing w) z n
handing-stale (ready one zer split len t) h = absurd (cc)
handing-stale (fetching shut split len) h = absurd (cc)
handing-stale (filled shut bs holds split len) h = absurd (cc)
handing-stale (offered zer one bs holds split len t) h = absurd (cc)
handing-stale (taken shut bs holds split len t) h = absurd (cc)
handing-stale (putting shut bs holds ne split len k t) h = absurd (cc)
handing-stale (drained shut split len t) h = absurd (cc)
handing-stale (over one split len t) h = absurd (cc)
handing-stale (clearing split len) h = absurd (cc)
handing-stale (done split len same) h = absurd (cc)
handing-stale (writer_stopped zer rest split) h = absurd (cc)
handing-stale (reader_stopped rest split) h = absurd (cc)

-- a sequence of steps
pub data Run {Os : Type 0} (s : Semaphores Os) (f : Files Os) : State s f → State s f → Type 0 where
  here : {a : State s f} → Run s f a a
  then : {a b c : State s f} → Step s f a b → Run s f b c → Run s f a c

abbrev pub Finished : Writer → Reader → Type 0
Finished w r = (b : ℕ) × (x : ℕ) × (c : ℕ) × (y : ℕ) × (w ≡ gone true b x) × (r ≡ left true c y)

module _ {Os : Type 0} (s : Semaphores Os) (f : Files Os) where
  abbrev pub rank_of : State s f → ℕ
  rank_of a = rank s f a.shared a.writer a.reader

  -- Each step makes the rank smaller, or is an interruption, after which the programs stand where
  -- they stood.
  abbrev pub GetsOn : State s f → State s f → Type 0
  GetsOn a a' =
      (rank_of a' < rank_of a)
      ⊎ ((rank_of a' ≡ rank_of a) × (a'.writer ≡ a.writer) × (a'.reader ≡ a.reader))

  -- The programs have not failed.
  abbrev pub Sound : State s f → Type 0
  Sound a = (writer_sound a.writer ≡ true) × (reader_sound a.reader ≡ true)

module _ {Os : Type 0} (s : Semaphores Os) (f : Files Os) (law : IsSemaphores s) (files : IsFiles f)
    (apart : IsApart s f) where
  Step-GetsOn :
      {all : List ℕ} {a a' : State s f}
      → Phase all (facts s f a.shared) a.writer a.reader
      → Step s f a a'
      → GetsOn s f a a'
  Step-GetsOn {a = a} p (by_writer st) =
      elim (WriterStep-rank s f law files apart a.reader ((exclusive p).1) st) [
        | inl l ↦ inl l
        | inr (e, g) ↦ inr (e, g, refl)
      ]
  Step-GetsOn {a = a} p (by_reader st) =
      elim (ReaderStep-rank s f law files apart a.writer (handing-stale p) st) [
        | inl l ↦ inl l
        | inr (e, g) ↦ inr (e, refl, g)
      ]

  module _ (serves : Serves s f) where
    may_reserve :
        (o : Os) (n : ℕ) → 0 < s.value o n → (o' : Os) × MayReserve s f o n (returns true) o'
    unfolding reserve_next reserve_op
    may_reserve o n pos =
        let (o', c) = serves.can_down o (reserve_op use_sem_undo n) refl pos in (o', (ok, c, refl))

    may_release : (o : Os) (n : ℕ) → (o' : Os) × MayRelease s f o n true o'
    unfolding release_next release_op
    may_release o n =
        let (o', c) = serves.can_up o (release_op use_sem_undo n) refl in (o', (ok, c, refl))

    -- a step of a program that goes on
    abbrev Moves : Shared Os → Writer → Reader → Type 0
    Moves m w r =
        ((m' : Shared Os) × (w' : Writer) × WriterStep s f m w m' w'
          × (w' ≢ w)
          × (writer_sound w' ≡ true))
        ⊎ ((m' : Shared Os) × (r' : Reader) × ReaderStep s f m r m' r'
            × (r' ≢ r)
            × (reader_sound r' ≡ true))

    Turn-Moves :
        {n : ℕ} {w : Writer} (m : Shared Os) (r : Reader)
        → 0 < s.value m.os write_sem
        → writer_sound w ≡ true
        → Turn m.cnt n w
        → Moves m w r
    Turn-Moves m r pos sw (Turn.tests b c e) = inl (_, _, WriterStep.goes_on c, (λ g. cc), refl)
    Turn-Moves m r pos sw Turn.waits =
        let (o, c) = may_reserve m.os write_sem pos in
        inl (_, _, WriterStep.reserved c, (λ g. cc), refl)
    Turn-Moves m r pos sw Turn.stopped = absurd (cc)

    End-Moves :
        {n : ℕ} {w : Writer} (m : Shared Os) (r : Reader)
        → 0 < s.value m.os write_sem
        → writer_sound w ≡ true
        → End m.cnt n w
        → Moves m w r
    End-Moves m r pos sw (End.tests z) = inl (_, _, WriterStep.at_eof z, (λ g. cc), refl)
    End-Moves m r pos sw End.ends =
        let (o, c) = may_reserve m.os write_sem pos in
        inl (_, _, WriterStep.last_reserved c, (λ g. cc), refl)
    End-Moves m r pos sw End.stopped = absurd (cc)

    check-Moves :
        (m : Shared Os) (w : Writer) (bs : List ℕ) (b x : ℕ)
        → Holds (facts s f m) bs
        → Moves m w (checking b x)
    check-Moves m w [] b x h = inr (_, _, ReaderStep.at_eof h.count, (λ g. cc), refl)
    check-Moves m w (c ∷ bs) b x h = inr (_, _, ReaderStep.goes_on h.count, (λ g. cc), refl)

    moves :
        {all : List ℕ} {w : Writer} {r : Reader} (m : Shared Os)
        → Phase all (facts s f m) w r
        → writer_sound w ≡ true
        → reader_sound r ≡ true
        → Finished w r ⊎ Moves m w r
    moves m (ready one zer split len t) sw sr = inr (Turn-Moves m _ (omega arith) sw t)
    moves m (fetching shut split len) sw sr =
        let (bs, o, c) = serves.can_read m.os buf_size in
        inr (inl (_, _, WriterStep.read c, (λ g. cc), refl))
    moves m (filled shut bs holds split len) sw sr =
        let (o, c) = may_release m.os read_sem in
        inr (inl (_, _, WriterStep.released c, (λ g. cc), refl))
    moves m (offered zer one bs holds split len t) sw sr =
        let (o, c) = may_reserve m.os read_sem (omega arith) in
        inr (inr (_, _, ReaderStep.reserved c, (λ g. cc), refl))
    moves {w = w} m (taken shut bs holds split len t) sw sr = inr (check-Moves m w bs _ _ holds)
    moves m (putting shut bs holds ne split len k t) sw sr =
        let (o, c) = serves.can_write m.os (peek m.buf 0 (length bs)) in
        let whole =
          subst (λ l. f.write m.os (peek m.buf 0 (length bs)) (some l) o)
            (length-peek m.buf 0 (length bs)) c in
        inr (inr (_, _, ReaderStep.written holds.count whole, (λ g. cc), refl))
    moves m (put shut split len t) sw sr =
        let (o, c) = may_release m.os write_sem in
        inr (inr (_, _, ReaderStep.released c, (λ g. cc), refl))
    moves m (drained shut split len t) sw sr =
        let (o, c) = may_release m.os write_sem in
        inr (inr (_, _, ReaderStep.finished c, (λ g. cc), refl))
    moves m (over one split len t) sw sr = inr (End-Moves m _ (omega arith) sw t)
    moves m (clearing split len) sw sr =
        let (o, c) = serves.can_remove m.os in
        inr (inl (_, _, WriterStep.removes c, (λ g. cc), refl))
    moves m (done {ok = true} split len same) sw sr = inl (_, _, _, _, refl, refl)
    moves m (done {ok = false} split len same) sw sr = absurd (cc)
    moves m (writer_stopped zer rest split) sw sr = absurd (cc)
    moves m (reader_stopped rest split) sw sr = absurd (cc)

    -- a step that lowers the rank, or the end
    lowers :
        {all : List ℕ} (a : State s f)
        → Phase all (facts s f a.shared) a.writer a.reader
        → Sound s f a
        → Finished a.writer a.reader
          ⊎ ((a' : State s f) × Step s f a a' × (rank_of s f a' < rank_of s f a) × Sound s f a')
    lowers a p (sw, sr) = elim (moves a.shared p sw sr) [
      | inl done_both ↦ inl done_both
      | inr (inl (m', w', st, ne, sound)) ↦
          elim (WriterStep-rank s f law files apart a.reader ((exclusive p).1) st) [
            | inl l ↦ inr (
              record { shared = m'; writer = w'; reader = a.reader },
              by_writer st,
              l,
              (sound, sr),
            )
            | inr (e, same) ↦ absurd (ne same)
          ]
      | inr (inr (m', r', st, ne, sound)) ↦
          elim (ReaderStep-rank s f law files apart a.writer (handing-stale p) st) [
            | inl l ↦ inr (
              record { shared = m'; writer = a.writer; reader = r' },
              by_reader st,
              l,
              (sw, sound),
            )
            | inr (e, same) ↦ absurd (ne same)
          ]
    ]

    finishes :
        (fuel : ℕ) {o : Os} (a : State s f)
        → f.output o ≡ []
        → Reach s f o a
        → rank_of s f a < fuel
        → Sound s f a
        → (a' : State s f) × Run s f a a'
          × Finished a'.writer a'.reader
          × (f.output a'.shared.os ≡ f.input o)
    finishes zero a empty r l sound = absurd (omega arith)
    finishes (suc fuel) {o} a empty r l sound =
        elim (lowers a (Reach-Phase s f law files apart empty r) sound) [
          | inl (b, x, c, y, ew, er) ↦
              let whole = Reach-whole s f law files apart empty r er in
              (a, Run.here, (b, x, c, y, ew, er), whole)
          | inr (a1, st, less, sound1) ↦
              let (a', run, end, whole) = finishes fuel a1 empty (next r st) (omega arith) sound1 in
              (a', Run.then st run, end, whole)
        ]

    -- With no output at the start, from every state that the programs reach without a failure,
    -- where calls that need not wait can succeed, some further steps lead to the state where both
    -- have exited with success and the whole input is written. Each step on the way, whichever
    -- program takes it, makes the rank smaller or is an interruption, so the programs cannot go
    -- on for ever without one.
    pub Reach-finishes :
        {o : Os} {a : State s f}
        → f.output o ≡ []
        → Reach s f o a
        → ((a' : State s f) → Step s f a a' → GetsOn s f a a')
          × (Sound s f a
              → (a' : State s f) × Run s f a a'
                × Finished a'.writer a'.reader
                × (f.output a'.shared.os ≡ f.input o))
    Reach-finishes {a = a} empty r = (
      λ a' st. Step-GetsOn (Reach-Phase s f law files apart empty r) st,
      λ sound. finishes (suc (rank_of s f a)) a empty r (omega arith) sound,
    )
