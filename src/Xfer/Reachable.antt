-- ===== src/Xfer/Reachable.antt =====
-- tlpi-dist/svshm/svshm_xfr_writer.c and svshm_xfr_reader.c: what holds in every state that the two
-- programs reach, in whatever order they take their steps.
use mathlib.Core.List.{append-nil}
use mathlib.Core.Option.{some-injective}
use mathlib.Core.Path.{subst}
use tlpi_exercises.Base.{
  ℕ, suc, ◌+◌, ◌≡◌, ◌≢◌, refl, sym, ap, ◌∙◌, Bool, true, false, not, none, some, List, [], ◌++◌,
  length, arith, if◌then◌else◌,
}
use tlpi_exercises.Io.Scatter.{peek-poke}
use tlpi_exercises.Sems.{
  Semaphores, IsSemaphores, Reserved, returns, init_sem_available, init_sem_in_use,
}
use tlpi_exercises.Sems.Moves.{Reserve-taken, Reserve-Same, Release-given, Release-Same}
use tlpi_exercises.Xfer.Phase.{facts, Turn, Phase, ready, Still}
use tlpi_exercises.Xfer.Reading.{
  stop_reader, reader_got_turn, checked_eof, checked_on, wrote, stopped_writing, gave_turn_back,
  gave_last_turn,
}
use tlpi_exercises.Xfer.Writing.{
  stop, tested_eof, tested_on, got_turn, got_last_turn, filled_segment, gave_turn, removed,
  stop_reading,
}
use tlpi_exercises.Xfer.{
  Files, IsFiles, IsApart, Shared, Writer, Reader, write_sem, read_sem, retry_on_eintr,
  use_sem_undo, MayReserve, MayRelease, WriterStep, ReaderStep, State, Step, by_writer, by_reader,
  Reach, start, next, set_up, wrap,
}

both_set :
    {A : Type 0} (a b : Bool) (x y : A)
    → (if not a then none else if b then some x else none) ≡ some y
    → (a ≡ true) × (b ≡ true) × (x ≡ y)
both_set true true x y e = (refl, refl, some-injective x y e)
both_set true false x y e = absurd (cc)
both_set false b x y e = absurd (cc)

module _ {Os : Type 0} (s : Semaphores Os) (f : Files Os) (law : IsSemaphores s) (files : IsFiles f)
    (apart : IsApart s f) where
  abbrev Kept : Os → Os → Type 0
  Kept o o' = (n : ℕ) → s.value o' n ≡ s.value o n

  still :
      (m : Shared Os) (o : Os)
      → (f.input o ≡ f.input m.os) × (f.output o ≡ f.output m.os)
      → Still (facts s f m) (facts s f (record m { os = o }))
  still m o (i, u) = record { input_same = i; output_same = u; cnt_same = refl; buf_same = refl }

  -- a call that leaves all of it as it was
  kept :
      {all : List ℕ} {w : Writer} {r : Reader} (m : Shared Os) (o : Os)
      → Kept m.os o
      → (f.input o ≡ f.input m.os) × (f.output o ≡ f.output m.os)
      → Phase all (facts s f m) w r
      → Phase all (facts s f (record m { os = o })) w r
  kept {all} {w} {r} m o v (i, u) p =
      let e : facts s f (record m { os = o }) ≡ facts s f m =
        rw (v write_sem, v read_sem, i, u) refl in
      subst (λ a. Phase all a w r) (sym e) p

  reserve-kept :
      {all : List ℕ} {w : Writer} {r : Reader} {x : Reserved} (m : Shared Os) (o : Os) (n : ℕ)
      → x ≢ returns true
      → MayReserve s f m.os n x o
      → Phase all (facts s f m) w r
      → Phase all (facts s f (record m { os = o })) w r
  reserve-kept m o n ne c =
      kept m o (Reserve-Same s law retry_on_eintr use_sem_undo n ne c) (apart.semop_files c.1)

  release-kept :
      {all : List ℕ} {w : Writer} {r : Reader} (m : Shared Os) (o : Os) (n : ℕ)
      → MayRelease s f m.os n false o
      → Phase all (facts s f m) w r
      → Phase all (facts s f (record m { os = o })) w r
  release-kept m o n c =
      kept m o (Release-Same s law retry_on_eintr use_sem_undo n c) (apart.semop_files c.1)

  taken_turn :
      {o o' : Os} (n k : ℕ)
      → k ≢ n
      → MayReserve s f o n (returns true) o'
      → (s.value o n ≡ suc (s.value o' n)) × (s.value o' k ≡ s.value o k)
  taken_turn n k ne c =
      let (took, others) = Reserve-taken s law retry_on_eintr use_sem_undo c in (took, others k ne)

  given_turn :
      {o o' : Os} (n k : ℕ)
      → k ≢ n
      → MayRelease s f o n true o'
      → (s.value o' n ≡ suc (s.value o n)) × (s.value o' k ≡ s.value o k)
  given_turn n k ne c =
      let (gave, others) = Release-given s law retry_on_eintr use_sem_undo c in (gave, others k ne)

  apart_sems : write_sem ≢ read_sem
  apart_sems e = omega arith

  WriterStep-Phase :
      {all : List ℕ} {m m' : Shared Os} {w w' : Writer} {r : Reader}
      → WriterStep s f m w m' w'
      → Phase all (facts s f m) w r
      → Phase all (facts s f m') w' r
  WriterStep-Phase {m = m} (WriterStep.reserved {o = o} c) p =
      let (took, other) = taken_turn write_sem read_sem (λ e. apart_sems (sym e)) c in
      got_turn (still m o (apart.semop_files c.1)) took other p
  WriterStep-Phase {m = m} (WriterStep.interrupted {o = o} c) p =
      reserve-kept m o write_sem (λ e. cc) c p
  WriterStep-Phase {m = m} (WriterStep.reserve_failed {o = o} c) p =
      stop (reserve-kept m o write_sem (λ e. cc) c p)
  WriterStep-Phase {m = m} (WriterStep.read {bs = bs} {o = o} c) p =
      let (le, split, nil, out) = files.read_some c in
      let v = apart.read_value c in
      filled_segment bs (v write_sem) (v read_sem) out split
        (record {
          count = refl;
          bytes = peek-poke m.buf 0 bs (length bs) refl;
          last = λ e. sym (split ∙ ap (λ l. l ++ f.input o) e) ∙ nil e (omega arith);
        })
        p
  WriterStep-Phase {m = m} (WriterStep.read_failed {o = o} c) p =
      let v = apart.read_value c in stop_reading (files.read_none c).1 (v read_sem) p
  WriterStep-Phase {m = m} (WriterStep.released {o = o} c) p =
      let (gave, other) = given_turn read_sem write_sem apart_sems c in
      gave_turn (still m o (apart.semop_files c.1)) gave other p
  WriterStep-Phase {m = m} (WriterStep.release_failed {o = o} c) p =
      stop (release-kept m o read_sem c p)
  WriterStep-Phase (WriterStep.at_eof z) p = tested_eof z p
  WriterStep-Phase (WriterStep.goes_on {x = x} {c = c} z) p = tested_on c (wrap (x + 1)) z p
  WriterStep-Phase {m = m} (WriterStep.last_reserved {o = o} c) p =
      let (took, other) = taken_turn write_sem read_sem (λ e. apart_sems (sym e)) c in
      got_last_turn (still m o (apart.semop_files c.1)) took p
  WriterStep-Phase {m = m} (WriterStep.last_interrupted {o = o} c) p =
      reserve-kept m o write_sem (λ e. cc) c p
  WriterStep-Phase {m = m} (WriterStep.last_failed {o = o} c) p =
      stop (reserve-kept m o write_sem (λ e. cc) c p)
  WriterStep-Phase {m = m} (WriterStep.removes {o = o} c) p =
      removed (still m o (apart.rmid_files c)) p

  ReaderStep-Phase :
      {all : List ℕ} {m m' : Shared Os} {w : Writer} {r r' : Reader}
      → ReaderStep s f m r m' r'
      → Phase all (facts s f m) w r
      → Phase all (facts s f m') w r'
  ReaderStep-Phase {m = m} (ReaderStep.reserved {o = o} c) p =
      let (took, other) = taken_turn read_sem write_sem apart_sems c in
      reader_got_turn (still m o (apart.semop_files c.1)) took other p
  ReaderStep-Phase {m = m} (ReaderStep.interrupted {o = o} c) p =
      reserve-kept m o read_sem (λ e. cc) c p
  ReaderStep-Phase {m = m} (ReaderStep.reserve_failed {o = o} c) p =
      stop_reader (reserve-kept m o read_sem (λ e. cc) c p)
  ReaderStep-Phase (ReaderStep.at_eof z) p = checked_eof z p
  ReaderStep-Phase (ReaderStep.goes_on {c = c} z) p = checked_on c z p
  ReaderStep-Phase {m = m} (ReaderStep.written {c = c} {o = o} z h) p =
      let (_, out, inp) = files.write_some h in
      let v = apart.write_value h in wrote c z (v write_sem) (v read_sem) refl inp out p
  ReaderStep-Phase {m = m} (ReaderStep.partly_written {c = c} {r = none} z h ne) p =
      stopped_writing c 0 z ((files.write_none h).0 ∙ sym (append-nil _)) p
  ReaderStep-Phase {m = m} (ReaderStep.partly_written {c = c} {r = some k} z h ne) p =
      stopped_writing c k z (files.write_some h).1 p
  ReaderStep-Phase {m = m} (ReaderStep.released {o = o} c) p =
      let (gave, other) = given_turn write_sem read_sem (λ e. apart_sems (sym e)) c in
      gave_turn_back (still m o (apart.semop_files c.1)) gave other p
  ReaderStep-Phase {m = m} (ReaderStep.release_failed {o = o} c) p =
      stop_reader (release-kept m o write_sem c p)
  ReaderStep-Phase {m = m} (ReaderStep.finished {ok = true} {o = o} c) p =
      let (gave, other) = given_turn write_sem read_sem (λ e. apart_sems (sym e)) c in
      gave_last_turn (still m o (apart.semop_files c.1)) gave p
  ReaderStep-Phase {m = m} (ReaderStep.finished {ok = false} {o = o} c) p =
      stop_reader (release-kept m o write_sem c p)

  pub Step-Phase :
      {all : List ℕ} {a a' : State s f}
      → Step s f a a'
      → Phase all (facts s f a.shared) a.writer a.reader
      → Phase all (facts s f a'.shared) a'.writer a'.reader
  Step-Phase (by_writer st) p = WriterStep-Phase st p
  Step-Phase (by_reader st) p = ReaderStep-Phase st p

  -- the values that the writer gives the semaphores at first
  set_up-values :
      (o o1 : Os)
      → set_up s f o ≡ some o1
      → (s.value o1 write_sem ≡ 1)
        × (s.value o1 read_sem ≡ 0)
        × (f.input o1 ≡ f.input o)
        × (f.output o1 ≡ f.output o)
  unfolding set_up init_sem_available init_sem_in_use
  set_up-values o o1 e =
      let o0 = (s.semctl o write_sem 1).1 in
      let (a, b, same) =
        both_set (s.semctl o write_sem 1).0 (s.semctl o0 read_sem 0).0 (s.semctl o0 read_sem 0).1 o1
          e in
      let (w, kept_r) = law.semctl_true o write_sem 1 a in
      let (r, kept_w) = law.semctl_true o0 read_sem 0 b in
      let (i0, u0) = apart.semctl_files o write_sem 1 in
      let (i1, u1) = apart.semctl_files o0 read_sem 0 in
      (
        ap (λ x. s.value x write_sem) (sym same) ∙ kept_w write_sem apart_sems ∙ w,
        ap (λ x. s.value x read_sem) (sym same) ∙ r,
        ap (λ x. f.input x) (sym same) ∙ i1 ∙ i0,
        ap (λ x. f.output x) (sym same) ∙ u1 ∙ u0,
      )

  pub Reach-Phase :
      {o : Os} {a : State s f}
      → f.output o ≡ []
      → Reach s f o a
      → Phase (f.input o) (facts s f a.shared) a.writer a.reader
  Reach-Phase {o} empty (start {o1 = o1} e) =
      let (w, r, i, u) = set_up-values o o1 e in
      let nil = u ∙ empty in
      ready w r (sym i ∙ ap (λ l. l ++ f.input o1) (sym nil)) (sym (ap length nil)) Turn.waits
  Reach-Phase empty (next r st) = Step-Phase st (Reach-Phase empty r)
