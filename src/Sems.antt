-- ===== src/Sems.antt =====
-- tlpi-dist/svsem/binary_sems.c: binary semaphores over the semaphore sets of System V. semop(2) and
-- semctl(2) are the system's: `Semaphores` stands for them. A call of semop is one step; it has a
-- relation and not a function, since a call may wait, and a signal may interrupt it.
pub mod Moves
use tlpi_exercises.Base.{ℕ, suc, ◌≡◌, ◌≢◌, Bool, true, false, not, ◌||◌, ◌==◌, if◌then◌else◌}

-- `errno` where a call returns -1
pub data Returned : Type 0 where
  ok : Returned
  failed : ℕ → Returned

-- the `sem_op` values -1 and 1
pub data Change : Type 0 where
  down : Change
  up : Change

pub record Sembuf : Type 0 where
  pub sem_num : ℕ
  pub sem_op : Change
  pub sem_undo : Bool

abbrev pub eintr : ℕ
eintr = 4

-- `semop o sops r o'`: in the state `o` the call may return `r`, and leaves the state `o'`.
-- `semctl` sets a value; `semctl_rmid` removes the set.
pub record Semaphores (Os : Type 0) : Type 1 where
  pub value : Os → ℕ → ℕ
  pub semop : Os → Sembuf → Returned → Os → Type 0
  pub semctl : Os → ℕ → ℕ → Bool × Os
  pub semctl_rmid : Os → Bool → Os → Type 0

-- A value never goes below 0, so a call that takes one from 0 waits. A call that fails changes nothing.
pub record IsSemaphores {Os : Type 0} (s : Semaphores Os) : Type 0 where
  pub down_ok :
      {o o' : Os} {sops : Sembuf}
      → sops.sem_op ≡ down
      → s.semop o sops ok o'
      → (s.value o sops.sem_num ≡ suc (s.value o' sops.sem_num))
        × ((n : ℕ) → n ≢ sops.sem_num → s.value o' n ≡ s.value o n)
  pub up_ok :
      {o o' : Os} {sops : Sembuf}
      → sops.sem_op ≡ up
      → s.semop o sops ok o'
      → (s.value o' sops.sem_num ≡ suc (s.value o sops.sem_num))
        × ((n : ℕ) → n ≢ sops.sem_num → s.value o' n ≡ s.value o n)
  pub semop_failed :
      {o o' : Os} {sops : Sembuf} {err : ℕ}
      → s.semop o sops (failed err) o'
      → (n : ℕ) → s.value o' n ≡ s.value o n
  pub semctl_true :
      (o : Os) (n v : ℕ)
      → (s.semctl o n v).0 ≡ true
      → (s.value (s.semctl o n v).1 n ≡ v)
        × ((k : ℕ) → k ≢ n → s.value (s.semctl o n v).1 k ≡ s.value o k)

-- How the loop of `reserveSem` goes on behind a call: it calls again, or returns 0 or -1.
pub data Reserved : Type 0 where
  again : Reserved
  returns : Bool → Reserved

-- The flags are `bsRetryOnEintr` and `bsUseSemUndo`.
unfoldable pub reserve_next : Bool → Returned → Reserved
reserve_next retry_on_eintr ok = returns true
reserve_next retry_on_eintr (failed err) =
    if not (err == eintr) || not retry_on_eintr then returns false else again

unfoldable pub reserve_op : Bool → ℕ → Sembuf
reserve_op use_sem_undo n = record { sem_num = n; sem_op = down; sem_undo = use_sem_undo }

unfoldable pub release_op : Bool → ℕ → Sembuf
release_op use_sem_undo n = record { sem_num = n; sem_op = up; sem_undo = use_sem_undo }

unfoldable pub release_next : Returned → Bool
release_next ok = true
release_next (failed err) = false

module _ {Os : Type 0} (s : Semaphores Os) where
  unfoldable pub init_sem_available : Os → ℕ → Bool × Os
  init_sem_available o n = s.semctl o n 1

  unfoldable pub init_sem_in_use : Os → ℕ → Bool × Os
  init_sem_in_use o n = s.semctl o n 0

  -- one round of the loop of `reserveSem`
  abbrev pub Reserve : Bool → Bool → Os → ℕ → Reserved → Os → Type 0
  Reserve retry_on_eintr use_sem_undo o n next o' =
      (r : Returned) × s.semop o (reserve_op use_sem_undo n) r o'
      × (reserve_next retry_on_eintr r ≡ next)

  -- `releaseSem`, which returns 0 (`true`) or -1
  abbrev pub Release : Bool → Os → ℕ → Bool → Os → Type 0
  Release use_sem_undo o n b o' =
      (r : Returned) × s.semop o (release_op use_sem_undo n) r o' × (release_next r ≡ b)
