-- ===== src/Xfer.antt =====
-- tlpi-dist/svshm/svshm_xfr_writer.c and tlpi-dist/svshm/svshm_xfr_reader.c: two programs that pass
-- the input of one to the output of the other, in a shared segment of memory that two semaphores
-- guard. The programs take their steps in any order. read(2) and write(2) are the system's: `Files`
-- stands for them. The messages and the calls that create, attach, detach and remove the segment are
-- left out. The counters wrap modulo 2 ^ 32: what an `int` holds as long as they stay below 2 ^ 31,
-- and beyond that one of the results that C leaves open.
pub mod Order
pub mod Phase
pub mod Writing
pub mod Reading
pub mod Rank
pub mod Reachable
pub mod Progress
use tlpi_exercises.Base.{
  ℕ, zero, suc, ◌+◌, ◌%◌, ◌^◌, ◌≤◌, ◌<◌, ◌≡◌, ◌≢◌, Bool, true, false, not, Option, none, some, List,
  [], ◌++◌, length, take, ◌==◌, if◌then◌else◌,
}
use tlpi_exercises.Io.{Memory, poke, peek}
use tlpi_exercises.Sems.{
  Semaphores, Sembuf, Returned, Reserved, Reserve, Release, again, returns, init_sem_available,
  init_sem_in_use,
}

-- `WRITE_SEM`, `READ_SEM`, `BUF_SIZE`
abbrev pub write_sem : ℕ
write_sem = 0

abbrev pub read_sem : ℕ
read_sem = 1

abbrev pub buf_size : ℕ
buf_size = 1024

-- a counter after an addition
abbrev pub wrap : ℕ → ℕ
wrap n = n % 2 ^ 32

pub data Got : Type 0 where
  got : List ℕ → Got
  not_read : Got

-- `read o n r o'`: read(2) of at most `n` bytes from the standard input may give `r`. `write` to the
-- standard output gives a count, or `none` for -1.
pub record Files (Os : Type 0) : Type 1 where
  pub input : Os → List ℕ
  pub output : Os → List ℕ
  pub read : Os → ℕ → Got → Os → Type 0
  pub write : Os → List ℕ → Option ℕ → Os → Type 0

-- read(2) takes a prefix of the input, empty only at its end; write(2) appends a prefix of the bytes.
pub record IsFiles {Os : Type 0} (f : Files Os) : Type 0 where
  pub read_some :
      {o o' : Os} {n : ℕ} {bs : List ℕ}
      → f.read o n (got bs) o'
      → (length bs ≤ n)
        × (f.input o ≡ bs ++ f.input o')
        × (bs ≡ [] → 0 < n → f.input o ≡ [])
        × (f.output o' ≡ f.output o)
  pub read_none :
      {o o' : Os} {n : ℕ}
      → f.read o n not_read o'
      → (f.input o' ≡ f.input o) × (f.output o' ≡ f.output o)
  pub write_some :
      {o o' : Os} {bs : List ℕ} {n : ℕ}
      → f.write o bs (some n) o'
      → (n ≤ length bs) × (f.output o' ≡ f.output o ++ take n bs) × (f.input o' ≡ f.input o)
  pub write_none :
      {o o' : Os} {bs : List ℕ}
      → f.write o bs none o'
      → (f.output o' ≡ f.output o) × (f.input o' ≡ f.input o)

-- The semaphores and the files have nothing to do with each other.
pub record IsApart {Os : Type 0} (s : Semaphores Os) (f : Files Os) : Type 0 where
  pub semop_files :
      {o o' : Os} {sops : Sembuf} {r : Returned}
      → s.semop o sops r o'
      → (f.input o' ≡ f.input o) × (f.output o' ≡ f.output o)
  pub rmid_files :
      {o o' : Os} {b : Bool}
      → s.semctl_rmid o b o'
      → (f.input o' ≡ f.input o) × (f.output o' ≡ f.output o)
  pub semctl_files :
      (o : Os) (n v : ℕ)
      → (f.input (s.semctl o n v).1 ≡ f.input o) × (f.output (s.semctl o n v).1 ≡ f.output o)
  pub read_value :
      {o o' : Os} {n : ℕ} {r : Got} → f.read o n r o' → (k : ℕ) → s.value o' k ≡ s.value o k
  pub write_value :
      {o o' : Os} {bs : List ℕ} {r : Option ℕ}
      → f.write o bs r o'
      → (k : ℕ) → s.value o' k ≡ s.value o k

-- Where a program stands, with its `bytes` and `xfrs`; `gone` has whether it exits with success.
pub data Writer : Type 0 where
  reserving : ℕ → ℕ → Writer
  reading : ℕ → ℕ → Writer
  releasing : ℕ → ℕ → Writer
  testing : ℕ → ℕ → Writer
  last_turn : ℕ → ℕ → Writer
  removing : ℕ → ℕ → Writer
  gone : Bool → ℕ → ℕ → Writer

pub data Reader : Type 0 where
  waiting : ℕ → ℕ → Reader
  checking : ℕ → ℕ → Reader
  writing : ℕ → ℕ → Reader
  handing : ℕ → ℕ → Reader
  finishing : ℕ → ℕ → Reader
  left : Bool → ℕ → ℕ → Reader

-- `struct shmseg`, where `none` is -1, and the system
pub record Shared (Os : Type 0) : Type 0 where
  pub os : Os
  pub cnt : Option ℕ
  pub buf : Memory

-- `bsRetryOnEintr` and `bsUseSemUndo` keep their first values.
abbrev pub retry_on_eintr : Bool
retry_on_eintr = true

abbrev pub use_sem_undo : Bool
use_sem_undo = false

module _ {Os : Type 0} (s : Semaphores Os) (f : Files Os) where
  abbrev pub MayReserve : Os → ℕ → Reserved → Os → Type 0
  MayReserve = Reserve s retry_on_eintr use_sem_undo

  abbrev pub MayRelease : Os → ℕ → Bool → Os → Type 0
  MayRelease = Release s use_sem_undo

  -- One step of the writer. It tests `cnt` after the reader got its turn.
  pub data WriterStep (m : Shared Os) : Writer → Shared Os → Writer → Type 0 where
    reserved :
        {b x : ℕ} {o : Os}
        → MayReserve m.os write_sem (returns true) o
        → WriterStep m (reserving b x) (record m { os = o }) (reading b x)
    interrupted :
        {b x : ℕ} {o : Os}
        → MayReserve m.os write_sem again o
        → WriterStep m (reserving b x) (record m { os = o }) (reserving b x)
    reserve_failed :
        {b x : ℕ} {o : Os}
        → MayReserve m.os write_sem (returns false) o
        → WriterStep m (reserving b x) (record m { os = o }) (gone false b x)
    read :
        {b x : ℕ} {bs : List ℕ} {o : Os}
        → f.read m.os buf_size (got bs) o
        → WriterStep m
            (reading b x)
            (record m { os = o; cnt = some (length bs); buf = poke m.buf 0 bs })
            (releasing b x)
    read_failed :
        {b x : ℕ} {o : Os}
        → f.read m.os buf_size not_read o
        → WriterStep m (reading b x) (record m { os = o; cnt = none }) (gone false b x)
    released :
        {b x : ℕ} {o : Os}
        → MayRelease m.os read_sem true o
        → WriterStep m (releasing b x) (record m { os = o }) (testing b x)
    release_failed :
        {b x : ℕ} {o : Os}
        → MayRelease m.os read_sem false o
        → WriterStep m (releasing b x) (record m { os = o }) (gone false b x)
    at_eof : {b x : ℕ} → m.cnt ≡ some 0 → WriterStep m (testing b x) m (last_turn b x)
    goes_on :
        {b x c : ℕ}
        → m.cnt ≡ some (suc c)
        → WriterStep m (testing b x) m (reserving (wrap (b + suc c)) (wrap (x + 1)))
    last_reserved :
        {b x : ℕ} {o : Os}
        → MayReserve m.os write_sem (returns true) o
        → WriterStep m (last_turn b x) (record m { os = o }) (removing b x)
    last_interrupted :
        {b x : ℕ} {o : Os}
        → MayReserve m.os write_sem again o
        → WriterStep m (last_turn b x) (record m { os = o }) (last_turn b x)
    last_failed :
        {b x : ℕ} {o : Os}
        → MayReserve m.os write_sem (returns false) o
        → WriterStep m (last_turn b x) (record m { os = o }) (gone false b x)
    removes :
        {b x : ℕ} {ok : Bool} {o : Os}
        → s.semctl_rmid m.os ok o
        → WriterStep m (removing b x) (record m { os = o }) (gone ok b x)

  -- One step of the reader. It writes `cnt` bytes, and any other count is fatal.
  pub data ReaderStep (m : Shared Os) : Reader → Shared Os → Reader → Type 0 where
    reserved :
        {b x : ℕ} {o : Os}
        → MayReserve m.os read_sem (returns true) o
        → ReaderStep m (waiting b x) (record m { os = o }) (checking b x)
    interrupted :
        {b x : ℕ} {o : Os}
        → MayReserve m.os read_sem again o
        → ReaderStep m (waiting b x) (record m { os = o }) (waiting b x)
    reserve_failed :
        {b x : ℕ} {o : Os}
        → MayReserve m.os read_sem (returns false) o
        → ReaderStep m (waiting b x) (record m { os = o }) (left false b x)
    at_eof : {b x : ℕ} → m.cnt ≡ some 0 → ReaderStep m (checking b x) m (finishing b x)
    goes_on :
        {b x c : ℕ}
        → m.cnt ≡ some (suc c)
        → ReaderStep m (checking b x) m (writing (wrap (b + suc c)) x)
    written :
        {b x c : ℕ} {o : Os}
        → m.cnt ≡ some c
        → f.write m.os (peek m.buf 0 c) (some c) o
        → ReaderStep m (writing b x) (record m { os = o }) (handing b x)
    partly_written :
        {b x c : ℕ} {r : Option ℕ} {o : Os}
        → m.cnt ≡ some c
        → f.write m.os (peek m.buf 0 c) r o
        → r ≢ some c
        → ReaderStep m (writing b x) (record m { os = o }) (left false b x)
    released :
        {b x : ℕ} {o : Os}
        → MayRelease m.os write_sem true o
        → ReaderStep m (handing b x) (record m { os = o }) (waiting b (wrap (x + 1)))
    release_failed :
        {b x : ℕ} {o : Os}
        → MayRelease m.os write_sem false o
        → ReaderStep m (handing b x) (record m { os = o }) (left false b x)
    finished :
        {b x : ℕ} {ok : Bool} {o : Os}
        → MayRelease m.os write_sem ok o
        → ReaderStep m (finishing b x) (record m { os = o }) (left ok b x)

  pub record State : Type 0 where
    pub shared : Shared Os
    pub writer : Writer
    pub reader : Reader

  pub data Step (a : State) : State → Type 0 where
    by_writer :
        {m : Shared Os} {w : Writer}
        → WriterStep a.shared a.writer m w
        → Step a (record { shared = m; writer = w; reader = a.reader })
    by_reader :
        {m : Shared Os} {r : Reader}
        → ReaderStep a.shared a.reader m r
        → Step a (record { shared = m; writer = a.writer; reader = r })

  -- The writer gives both semaphores a value before the reader starts; the segment may hold anything.
  unfoldable pub set_up : Os → Option Os
  set_up o =
      let (available, o1) = init_sem_available s o write_sem in
      let (in_use, o2) = init_sem_in_use s o1 read_sem in
      if not available then none else if in_use then some o2 else none

  pub data Reach (o : Os) : State → Type 0 where
    start :
        {o1 : Os} {cnt : Option ℕ} {buf : Memory}
        → set_up o ≡ some o1
        → Reach o (record {
          shared = record { os = o1; cnt = cnt; buf = buf };
          writer = reserving 0 0;
          reader = waiting 0 0;
        })
    next : {a a' : State} → Reach o a → Step a a' → Reach o a'
