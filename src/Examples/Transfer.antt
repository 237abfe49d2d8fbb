-- ===== src/Examples/Transfer.antt =====
-- tlpi-dist/svshm/svshm_xfr_writer.c and svshm_xfr_reader.c over a small system, whose reads give two
-- bytes at most.
use mathlib.Core.Option.{some-injective}
use tlpi_exercises.Base.{
  ℕ, zero, suc, ◌≤◌, ◌<◌, ◌≡◌, ◌≢◌, refl, sym, ap, ◌∙◌, ◌⊎◌, inl, inr, true, false, none, some,
  List, [], ◌∷◌, ◌++◌, length, take, drop, min, length-take, take-append-drop, take-all, ◌==◌,
  if◌then◌else◌, arith,
}
use tlpi_exercises.Io.{peek}
use tlpi_exercises.Sems.{
  Returned, ok, failed, Sembuf, down, up, Semaphores, IsSemaphores, eintr, reserve_next,
  release_next, reserve_op, release_op, init_sem_available, init_sem_in_use,
}
use tlpi_exercises.Xfer.Order.{fills, empties, removes, has_left, Reach-in_order, Reach-exclusive}
use tlpi_exercises.Xfer.Progress.{Serves, GetsOn, Sound, Run, Finished, Reach-finishes}
use tlpi_exercises.Xfer.{
  Files, IsFiles, IsApart, got, Shared, State, Writer, gone, Reader, left, WriterStep, ReaderStep,
  Step, by_writer, by_reader, Reach, start, next, set_up,
}

record Host : Type 0 where
  values : ℕ → ℕ
  stdin : List ℕ
  stdout : List ℕ

abbrev set : (ℕ → ℕ) → ℕ → ℕ → ℕ → ℕ
set v n k m = if m == n then k else v m

data Operated (o : Host) (sops : Sembuf) : Returned → Host → Type 0 where
  took :
      (k : ℕ)
      → sops.sem_op ≡ down
      → o.values sops.sem_num ≡ suc k
      → Operated o sops ok (record o { values = set o.values sops.sem_num k })
  gave :
      sops.sem_op ≡ up
      → Operated o sops ok
          (record o { values = set o.values sops.sem_num (suc (o.values sops.sem_num)) })
  signalled : Operated o sops (failed eintr) o

abbrev host_sems : Semaphores Host
host_sems = record {
  value = λ o. o.values;
  semop = Operated;
  semctl = λ o n v. (true, record o { values = set o.values n v });
  semctl_rmid = λ o b o'. (b ≡ true) × (o' ≡ o);
}

abbrev host_files : Files Host
host_files = record {
  input = λ o. o.stdin;
  output = λ o. o.stdout;
  read = λ o n r o'.
      (r ≡ got (take (min n 2) o.stdin)) × (o' ≡ record o { stdin = drop (min n 2) o.stdin });
  write = λ o bs r o'. (r ≡ some (length bs)) × (o' ≡ record o { stdout = o.stdout ++ bs });
}

set-same : (v : ℕ → ℕ) (n k : ℕ) → set v n k n ≡ k
set-same v n k = ground arith

set-other : (v : ℕ → ℕ) (n k m : ℕ) → m ≢ n → set v n k m ≡ v m
set-other v n k m ne = ground arith

down_law :
    {o : Host} {sops : Sembuf} {r : Returned} {o' : Host}
    → sops.sem_op ≡ down
    → r ≡ ok
    → Operated o sops r o'
    → (o.values sops.sem_num ≡ suc (o'.values sops.sem_num))
      × ((n : ℕ) → n ≢ sops.sem_num → o'.values n ≡ o.values n)
down_law {o} {sops = sops} e f (took k d h) = (
  h ∙ ap suc (sym (set-same o.values sops.sem_num k)),
  λ n ne. set-other o.values sops.sem_num k n ne,
)
down_law e f (gave d) = absurd (cc)
down_law e f signalled = absurd (cc)

up_law :
    {o : Host} {sops : Sembuf} {r : Returned} {o' : Host}
    → sops.sem_op ≡ up
    → r ≡ ok
    → Operated o sops r o'
    → (o'.values sops.sem_num ≡ suc (o.values sops.sem_num))
      × ((n : ℕ) → n ≢ sops.sem_num → o'.values n ≡ o.values n)
up_law {o} {sops = sops} e f (gave d) =
    (set-same o.values sops.sem_num _, λ n ne. set-other o.values sops.sem_num _ n ne)
up_law e f (took k d h) = absurd (cc)
up_law e f signalled = absurd (cc)

failed_law :
    {o : Host} {sops : Sembuf} {r : Returned} {o' : Host} (err : ℕ)
    → r ≡ failed err
    → Operated o sops r o'
    → (n : ℕ) → o'.values n ≡ o.values n
failed_law err f (took k d h) = absurd (cc)
failed_law err f (gave d) = absurd (cc)
failed_law err f signalled = λ n. refl

host-IsSemaphores : IsSemaphores host_sems
host-IsSemaphores = record {
  down_ok = λ e c. down_law e refl c;
  up_ok = λ e c. up_law e refl c;
  semop_failed = λ {o} {o'} {sops} {err} c. failed_law err refl c;
  semctl_true = λ o n v e. (set-same o.values n v, λ k ne. set-other o.values n v k ne);
}

operated_files :
    {o : Host} {sops : Sembuf} {r : Returned} {o' : Host}
    → Operated o sops r o'
    → (o'.stdin ≡ o.stdin) × (o'.stdout ≡ o.stdout)
operated_files (took k d h) = (refl, refl)
operated_files (gave d) = (refl, refl)
operated_files signalled = (refl, refl)

host-IsApart : IsApart host_sems host_files
host-IsApart = record {
  semop_files = λ c. operated_files c;
  rmid_files = λ (e, c). (ap (λ x. x.stdin) c, ap (λ x. x.stdout) c);
  semctl_files = λ o n v. (refl, refl);
  read_value = λ (e, c) k. ap (λ x. x.values k) c;
  write_value = λ (e, c) k. ap (λ x. x.values k) c;
}

-- a read of something gives nothing only at the end
take-nil : (n : ℕ) (xs : List ℕ) → take n xs ≡ [] → (n ≡ 0) ⊎ (xs ≡ [])
take-nil zero xs e = inl refl
take-nil (suc n) [] e = inr refl
take-nil (suc n) (x ∷ xs) e = absurd (cc)

read_law :
    {i o' : List ℕ} {n : ℕ} {bs : List ℕ}
    → bs ≡ take (min n 2) i
    → o' ≡ drop (min n 2) i
    → (length bs ≤ n) × (i ≡ bs ++ o') × (bs ≡ [] → 0 < n → i ≡ [])
read_law {i} {o'} {n} {bs} e c = (
  omega (arith, length-take (min n 2) i, ap (λ (x : List ℕ). length x) e),
  sym (
      ap (λ (x : List ℕ). x ++ o') e
      ∙ ap (λ (x : List ℕ). take (min n 2) i ++ x) c
      ∙ take-append-drop (min n 2) i),
  λ z pos. elim (take-nil (min n 2) i (sym e ∙ z)) [ inl h ↦ absurd (omega arith) | inr h ↦ h ],
)

got-injective : {xs ys : List ℕ} → got xs ≡ got ys → xs ≡ ys
got-injective e = cc

host-IsFiles : IsFiles host_files
host-IsFiles = record {
  read_some = λ (e, c).
      let (short, split, end) = read_law (got-injective e) (ap (λ x. x.stdin) c) in
      (short, split, end, ap (λ x. x.stdout) c);
  read_none = λ (e, c). absurd (cc);
  write_some = λ {o} {o'} {bs} {n} (e, c).
      let k : n ≡ length bs = some-injective _ _ e in
      (
        omega arith,
        ap (λ x. x.stdout) c
            ∙ ap (λ (x : List ℕ). o.stdout ++ x) (sym (take-all n bs (omega arith))),
        ap (λ x. x.stdin) c,
      );
  write_none = λ (e, c). absurd (cc);
}

positive : (n : ℕ) → 0 < n → (k : ℕ) × (n ≡ suc k)
positive zero h = absurd (omega arith)
positive (suc n) h = (n, refl)

host-Serves : Serves host_sems host_files
host-Serves = record {
  can_down = λ o sops e h. let (k, g) = positive _ h in (_, took k e g);
  can_up = λ o sops e. (_, gave e);
  can_read = λ o n. (_, _, (refl, refl));
  can_write = λ o bs. (_, (refl, refl));
  can_remove = λ o. (_, (refl, refl));
}

-- one byte goes from the input to the output
abbrev before : Host
before = record { values = λ n. 5; stdin = 65 ∷ []; stdout = [] }

abbrev Reached : Type 0
Reached = (a : State host_sems host_files) × Reach host_sems host_files before a

abbrev then_writer :
    (a : Reached) {m : Shared Host} {w : Writer}
    → WriterStep host_sems host_files a.0.shared a.0.writer m w
    → Reached
then_writer a st = (_, next a.1 (by_writer st))

abbrev then_reader :
    (a : Reached) {m : Shared Host} {r : Reader}
    → ReaderStep host_sems host_files a.0.shared a.0.reader m r
    → Reached
then_reader a st = (_, next a.1 (by_reader st))

abbrev started : Reached
unfolding set_up init_sem_available init_sem_in_use
started = (_, start {cnt = none} {buf = λ p. 0} refl)

abbrev offered_once : Reached
unfolding started reserve_op release_op reserve_next release_next
offered_once =
    let a = then_writer started (WriterStep.reserved (ok, took 0 refl refl, refl)) in
    let b = then_writer a (WriterStep.read {bs = 65 ∷ []} (refl, refl)) in
    let c = then_writer b (WriterStep.released (ok, gave refl, refl)) in
    then_writer c (WriterStep.goes_on refl)

abbrev passed_once : Reached
unfolding offered_once started reserve_op release_op reserve_next release_next peek
passed_once =
    let a = then_reader offered_once (ReaderStep.reserved (ok, took 0 refl refl, refl)) in
    let b = then_reader a (ReaderStep.goes_on refl) in
    let c = then_reader b (ReaderStep.written refl (refl, refl)) in
    then_reader c (ReaderStep.released (ok, gave refl, refl))

abbrev offered_end : Reached
unfolding passed_once offered_once started reserve_op release_op reserve_next release_next peek
offered_end =
    let a = then_writer passed_once (WriterStep.reserved (ok, took 0 refl refl, refl)) in
    let b = then_writer a (WriterStep.read {bs = []} (refl, refl)) in
    let c = then_writer b (WriterStep.released (ok, gave refl, refl)) in
    then_writer c (WriterStep.at_eof refl)

abbrev read_all : Reached
unfolding offered_end passed_once offered_once started reserve_op release_op reserve_next
    release_next peek
read_all =
    let a = then_reader offered_end (ReaderStep.reserved (ok, took 0 refl refl, refl)) in
    let b = then_reader a (ReaderStep.at_eof refl) in
    then_reader b (ReaderStep.finished (ok, gave refl, refl))

abbrev cleared : Reached
unfolding read_all offered_end passed_once offered_once started reserve_op release_op reserve_next
    release_next peek
cleared =
    let a = then_writer read_all (WriterStep.last_reserved (ok, took 0 refl refl, refl)) in
    then_writer a (WriterStep.removes (refl, refl))

Reach-in_order_example :
    ((rest : List ℕ) × (65 ∷ [] ≡ cleared.0.shared.os.stdout ++ rest))
    × ((b y : ℕ)
        → cleared.0.reader ≡ left true b y
        → (cleared.0.shared.os.stdout ≡ 65 ∷ [])
          × (b ≡ 1)
          × ((c x : ℕ) → cleared.0.writer ≡ gone true c x → c ≡ 1))
Reach-in_order_example =
    Reach-in_order host_sems host_files host-IsSemaphores host-IsFiles host-IsApart refl
      (omega arith) cleared.1

Reach-exclusive_example :
    (fills offered_end.0.writer ≡ true → empties offered_end.0.reader ≡ false)
    × (removes offered_end.0.writer ≡ true → has_left offered_end.0.reader ≡ true)
Reach-exclusive_example =
    Reach-exclusive host_sems host_files host-IsSemaphores host-IsFiles host-IsApart refl
      offered_end.1

Reach-finishes_example :
    ((a : State host_sems host_files)
      → Step host_sems host_files offered_once.0 a
      → GetsOn host_sems host_files offered_once.0 a)
    × (Sound host_sems host_files offered_once.0
        → (a : State host_sems host_files) × Run host_sems host_files offered_once.0 a
          × Finished a.writer a.reader
          × (a.shared.os.stdout ≡ 65 ∷ []))
Reach-finishes_example =
    Reach-finishes host_sems host_files host-IsSemaphores host-IsFiles host-IsApart host-Serves refl
      offered_once.1
