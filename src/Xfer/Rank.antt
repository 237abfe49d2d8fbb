-- ===== src/Xfer/Rank.antt =====
-- tlpi-dist/svshm/svshm_xfr_writer.c and svshm_xfr_reader.c: a number that each step makes smaller.
use tlpi_exercises.Base.{
  ℕ, zero, suc, ◌+◌, ◌*◌, ◌≤◌, ◌<◌, ◌≡◌, ◌≢◌, refl, ap, ◌∙◌, ◌⊎◌, inl, inr, Bool, true, false, ◌||◌,
  Option, none, some, [], ◌∷◌, length, length-append, ltb, arith, if◌then◌else◌,
}
use tlpi_exercises.Sems.{Semaphores, IsSemaphores, Reserved, returns}
use tlpi_exercises.Sems.Moves.{Reserve-taken, Reserve-Same, Release-given}
use tlpi_exercises.Xfer.Order.{removes, has_left}
use tlpi_exercises.Xfer.{
  Files, IsFiles, IsApart, Shared, Writer, reserving, reading, releasing, testing, last_turn,
  removing, gone, Reader, waiting, checking, writing, handing, finishing, left, write_sem, read_sem,
  retry_on_eintr, use_sem_undo, MayReserve, WriterStep, ReaderStep,
}

abbrev is_zero : Option ℕ → Bool
is_zero none = false
is_zero (some zero) = true
is_zero (some (suc n)) = false

-- the steps that a program takes at most before it needs another block
abbrev writer_rank : Option ℕ → Writer → ℕ
writer_rank cnt (reserving b x) = 14
writer_rank cnt (reading b x) = 13
writer_rank cnt (releasing b x) = if is_zero cnt then 4 else 16
writer_rank cnt (testing b x) = if is_zero cnt then 3 else 15
writer_rank cnt (last_turn b x) = 2
writer_rank cnt (removing b x) = 1
writer_rank cnt (gone ok b x) = 0

abbrev pub is_releasing : Writer → Bool
is_releasing (releasing b x) = true
is_releasing w = false

-- whether a block waits for the reader
abbrev pub is_fresh : ℕ → Writer → Bool
is_fresh turn_r w = ltb 0 turn_r || is_releasing w

abbrev reader_rank : Bool → Reader → ℕ
reader_rank fresh (waiting b x) = if fresh then 7 else 3
reader_rank fresh (checking b x) = 6
reader_rank fresh (writing b x) = 5
reader_rank fresh (handing b x) = 4
reader_rank fresh (finishing b x) = 2
reader_rank fresh (left ok b x) = 0

reader_rank-close : (g h : Bool) (r : Reader) → reader_rank g r ≤ reader_rank h r + 4
reader_rank-close g h (waiting b x) = ground arith
reader_rank-close g h (checking b x) = omega arith
reader_rank-close g h (writing b x) = omega arith
reader_rank-close g h (handing b x) = omega arith
reader_rank-close g h (finishing b x) = omega arith
reader_rank-close g h (left ok b x) = omega arith

reader_rank-top : (g : Bool) (r : Reader) → reader_rank g r ≤ reader_rank true r
reader_rank-top g (waiting b x) = ground arith
reader_rank-top g (checking b x) = omega arith
reader_rank-top g (writing b x) = omega arith
reader_rank-top g (handing b x) = omega arith
reader_rank-top g (finishing b x) = omega arith
reader_rank-top g (left ok b x) = omega arith

reader_rank-left : (g h : Bool) (r : Reader) → has_left r ≡ true → reader_rank g r ≡ reader_rank h r
reader_rank-left g h (left ok b x) e = refl
reader_rank-left g h (waiting b x) e = absurd (cc)
reader_rank-left g h (checking b x) e = absurd (cc)
reader_rank-left g h (writing b x) e = absurd (cc)
reader_rank-left g h (handing b x) e = absurd (cc)
reader_rank-left g h (finishing b x) e = absurd (cc)

waiting-positive : (g : Bool) → 3 ≤ (if g then 7 else 3)
waiting-positive g = ground arith

-- the reader is about to hand the turn back
abbrev pub is_handing : Reader → Bool
is_handing (handing b x) = true
is_handing r = false

-- the choice by the count
chosen-zero : (cnt : Option ℕ) (a b : ℕ) → cnt ≡ some 0 → (if is_zero cnt then a else b) ≡ a
chosen-zero cnt a b e = rw (e) refl

chosen-some : (cnt : Option ℕ) (a b c : ℕ) → cnt ≡ some (suc c) → (if is_zero cnt then a else b) ≡ b
chosen-some cnt a b c e = rw (e) refl

fresh-or : (n : ℕ) → (ltb 0 n || true) ≡ true
fresh-or n = ground arith

fresh-suc : (n k : ℕ) (b : Bool) → n ≡ suc k → (ltb 0 n || b) ≡ true
fresh-suc n k b e = ground arith

fresh-same :
    (n k : ℕ) (b : Bool) (r : Reader)
    → n ≡ k
    → reader_rank (ltb 0 n || b) r ≡ reader_rank (ltb 0 k || b) r
fresh-same n k b r e = ap (λ x. reader_rank (ltb 0 x || b) r) e

module _ {Os : Type 0} (s : Semaphores Os) (f : Files Os) where
  abbrev pub rank : Shared Os → Writer → Reader → ℕ
  rank m w r =
      20 * length (f.input m.os)
      + writer_rank m.cnt w
      + reader_rank (is_fresh (s.value m.os read_sem) w) r

  module _ (law : IsSemaphores s) (files : IsFiles f) (apart : IsApart s f) where
    -- what a call that returns without the semaphore leaves
    reserve-still :
        {o o' : Os} {x : Reserved} (n : ℕ)
        → x ≢ returns true
        → MayReserve s f o n x o'
        → (s.value o' read_sem ≡ s.value o read_sem) × (length (f.input o') ≡ length (f.input o))
    reserve-still n ne c = (
      Reserve-Same s law retry_on_eintr use_sem_undo n ne c read_sem,
      ap length ((apart.semop_files c.1).0),
    )

    pub WriterStep-rank :
        {m m' : Shared Os} {w w' : Writer} (r : Reader)
        → (removes w ≡ true → has_left r ≡ true)
        → WriterStep s f m w m' w'
        → (rank m' w' r < rank m w r) ⊎ ((rank m' w' r ≡ rank m w r) × (w' ≡ w))
    WriterStep-rank {m = m} r h (WriterStep.reserved {o = o} c) =
        let (_, others) = Reserve-taken s law retry_on_eintr use_sem_undo c in
        let i = ap length ((apart.semop_files c.1).0) in
        let v =
          fresh-same (s.value o read_sem) (s.value m.os read_sem) false r
            (others read_sem (λ e. omega arith)) in
        inl (omega (arith, i, v))
    WriterStep-rank {m = m} r h (WriterStep.interrupted {o = o} c) =
        let (v, i) = reserve-still write_sem (λ e. cc) c in
        let same = fresh-same (s.value o read_sem) (s.value m.os read_sem) false r v in
        inr (omega (arith, i, same), refl)
    WriterStep-rank {m = m} r h (WriterStep.reserve_failed {o = o} c) =
        let (v, i) = reserve-still write_sem (λ e. cc) c in
        let same = fresh-same (s.value o read_sem) (s.value m.os read_sem) false r v in
        inl (omega (arith, i, same))
    WriterStep-rank {m = m} r h (WriterStep.read {bs = []} {o = o} c) =
        let (_, inp, _, _) = files.read_some c in
        let close =
          reader_rank-close (ltb 0 (s.value o read_sem) || true)
            (ltb 0 (s.value m.os read_sem) || false) r in
        inl (omega (arith, ap length inp, close))
    WriterStep-rank {m = m} r h (WriterStep.read {bs = b ∷ bs} {o = o} c) =
        let (_, inp, _, _) = files.read_some c in
        let close =
          reader_rank-close (ltb 0 (s.value o read_sem) || true)
            (ltb 0 (s.value m.os read_sem) || false) r in
        inl (omega (arith, ap length inp, length-append (b ∷ bs) (f.input o), close))
    WriterStep-rank {m = m} r h (WriterStep.read_failed {o = o} c) =
        let i = ap length ((files.read_none c).0) in
        let same =
          fresh-same (s.value o read_sem) (s.value m.os read_sem) false r
            (apart.read_value c read_sem) in
        inl (omega (arith, i, same))
    WriterStep-rank {m = m} r h (WriterStep.released {o = o} c) =
        let i = ap length ((apart.semop_files c.1).0) in
        let (gave, _) = Release-given s law retry_on_eintr use_sem_undo c in
        let now = ap (λ g. reader_rank g r) (fresh-suc (s.value o read_sem) _ false gave) in
        let before = ap (λ g. reader_rank g r) (fresh-or (s.value m.os read_sem)) in
        inl (ground (arith, i, now, before))
    WriterStep-rank {m = m} r h (WriterStep.release_failed {o = o} c) =
        let i = ap length ((apart.semop_files c.1).0) in
        let top = reader_rank-top (ltb 0 (s.value o read_sem) || false) r in
        let before = ap (λ g. reader_rank g r) (fresh-or (s.value m.os read_sem)) in
        inl (ground (arith, i, top, before))
    WriterStep-rank {m = m} r h (WriterStep.at_eof z) =
        let e = chosen-zero m.cnt 3 15 z in inl (omega (arith, e))
    WriterStep-rank {m = m} r h (WriterStep.goes_on {c = c} z) =
        let e = chosen-some m.cnt 3 15 c z in inl (omega (arith, e))
    WriterStep-rank {m = m} r h (WriterStep.last_reserved {o = o} c) =
        let (_, others) = Reserve-taken s law retry_on_eintr use_sem_undo c in
        let i = ap length ((apart.semop_files c.1).0) in
        let v =
          fresh-same (s.value o read_sem) (s.value m.os read_sem) false r
            (others read_sem (λ e. omega arith)) in
        inl (omega (arith, i, v))
    WriterStep-rank {m = m} r h (WriterStep.last_interrupted {o = o} c) =
        let (v, i) = reserve-still write_sem (λ e. cc) c in
        let same = fresh-same (s.value o read_sem) (s.value m.os read_sem) false r v in
        inr (omega (arith, i, same), refl)
    WriterStep-rank {m = m} r h (WriterStep.last_failed {o = o} c) =
        let (v, i) = reserve-still write_sem (λ e. cc) c in
        let same = fresh-same (s.value o read_sem) (s.value m.os read_sem) false r v in
        inl (omega (arith, i, same))
    WriterStep-rank {m = m} r h (WriterStep.removes {o = o} c) =
        let i = ap length ((apart.rmid_files c).0) in
        let gone_by =
          reader_rank-left (ltb 0 (s.value o read_sem) || false)
            (ltb 0 (s.value m.os read_sem) || false) r (h refl) in
        inl (omega (arith, i, gone_by))

    pub ReaderStep-rank :
        {m m' : Shared Os} {r r' : Reader} (w : Writer)
        → (is_handing r ≡ true → is_fresh (s.value m.os read_sem) w ≡ false)
        → ReaderStep s f m r m' r'
        → (rank m' w r' < rank m w r) ⊎ ((rank m' w r' ≡ rank m w r) × (r' ≡ r))
    ReaderStep-rank {m = m} w h (ReaderStep.reserved {b = b} {x = x} {o = o} c) =
        let i = ap length ((apart.semop_files c.1).0) in
        let (took, _) = Reserve-taken s law retry_on_eintr use_sem_undo c in
        let before =
          ap (λ g. reader_rank g (waiting b x))
            (fresh-suc (s.value m.os read_sem) _ (is_releasing w) took) in
        inl (omega (arith, i, before))
    ReaderStep-rank {m = m} w h (ReaderStep.interrupted {b = b} {x = x} {o = o} c) =
        let (v, i) = reserve-still read_sem (λ e. cc) c in
        let same =
          fresh-same (s.value o read_sem) (s.value m.os read_sem) (is_releasing w) (waiting b x)
            v in
        inr (omega (arith, i, same), refl)
    ReaderStep-rank {m = m} w h (ReaderStep.reserve_failed {b = b} {x = x} {o = o} c) =
        let (v, i) = reserve-still read_sem (λ e. cc) c in
        let more = waiting-positive (is_fresh (s.value m.os read_sem) w) in
        inl (omega (arith, i, more))
    ReaderStep-rank w h (ReaderStep.at_eof z) = inl (omega arith)
    ReaderStep-rank w h (ReaderStep.goes_on z) = inl (omega arith)
    ReaderStep-rank w h (ReaderStep.written z c) =
        let i = ap length ((files.write_some c).2) in inl (omega (arith, i))
    ReaderStep-rank w h (ReaderStep.partly_written {r = none} z c ne) =
        let i = ap length ((files.write_none c).1) in inl (omega (arith, i))
    ReaderStep-rank w h (ReaderStep.partly_written {r = some k} z c ne) =
        let i = ap length ((files.write_some c).2) in inl (omega (arith, i))
    ReaderStep-rank {m = m} w h (ReaderStep.released {b = b} {x = x} {o = o} c) =
        let i = ap length ((apart.semop_files c.1).0) in
        let (_, others) = Release-given s law retry_on_eintr use_sem_undo c in
        let v = others read_sem (λ e. omega arith) in
        let now = ap (λ g. reader_rank g (waiting b x)) (ap (λ n. is_fresh n w) v ∙ h refl) in
        inl (omega (arith, i, now))
    ReaderStep-rank {m = m} w h (ReaderStep.release_failed {o = o} c) =
        let i = ap length ((apart.semop_files c.1).0) in inl (omega (arith, i))
    ReaderStep-rank {m = m} w h (ReaderStep.finished {o = o} c) =
        let i = ap length ((apart.semop_files c.1).0) in inl (omega (arith, i))
