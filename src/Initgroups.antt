-- ===== src/Initgroups.antt =====
-- tlpi-solutions/ex09-3/initgroups.c: `xinitgroups`. The group file is the list of entries that
-- getgrent(3) gives. `malloc`, `seteuid` and `setgroups` are a parameter, `Libc`; `NGROUPS_MAX`
-- is its field `ngroups_max`.
pub mod Restore
use tlpi_exercises.Base.{
  ℕ, zero, suc, ◌+◌, ◌*◌, ◌≡◌, Bool, true, false, not, ◌&&◌, Option, none, some, List, [], ◌∷◌,
  ◌++◌, ltb, ◌==◌, if◌then◌else◌, length,
}

pub record Group : Type 0 where
  pub gr_gid : ℕ
  pub gr_mem : List (List ℕ)

pub record Process : Type 0 where
  pub euid : ℕ
  pub groups : List ℕ
  pub errno : ℕ

-- A call returns, 0 for `true` and -1 for `false`, or writes behind the end of its array.
pub data Outcome : Type 0 where
  returned : Bool → Process → Outcome
  overrun : Outcome

pub record Libc : Type 0 where
  pub ngroups_max : ℕ
  pub malloc : Process → ℕ → Bool
  pub seteuid : Process → ℕ → Bool × Process
  pub setgroups : Process → List ℕ → Bool × Process

-- seteuid(2) sets the effective user id and setgroups(2) the groups, or they change neither.
pub record IsLibc (c : Libc) : Type 0 where
  pub seteuid_some :
      (p : Process) (u : ℕ)
      → (c.seteuid p u).0 ≡ true
      → ((c.seteuid p u).1.euid ≡ u) × ((c.seteuid p u).1.groups ≡ p.groups)
  pub seteuid_none :
      (p : Process) (u : ℕ)
      → (c.seteuid p u).0 ≡ false
      → ((c.seteuid p u).1.euid ≡ p.euid) × ((c.seteuid p u).1.groups ≡ p.groups)
  pub setgroups_some :
      (p : Process) (gs : List ℕ)
      → (c.setgroups p gs).0 ≡ true
      → ((c.setgroups p gs).1.euid ≡ p.euid) × ((c.setgroups p gs).1.groups ≡ gs)
  pub setgroups_none :
      (p : Process) (gs : List ℕ)
      → (c.setgroups p gs).0 ≡ false
      → ((c.setgroups p gs).1.euid ≡ p.euid) × ((c.setgroups p gs).1.groups ≡ p.groups)

abbrev pub enomem : ℕ
enomem = 12

-- `!strcmp(s, t)`
unfoldable pub same : List ℕ → List ℕ → Bool
same [] [] = true
same [] (c ∷ t) = false
same (b ∷ s) [] = false
same (b ∷ s) (c ∷ t) = b == c && same s t

module _ (c : Libc) where
  open c use {ngroups_max, malloc, seteuid, setgroups}

  -- `groups[nr_groups++] = gid`, where the array has `NGROUPS_MAX + 1` places
  unfoldable pub store : ℕ → List ℕ → Option (List ℕ)
  store gid gs = if ltb (length gs) (ngroups_max + 1) then some (gs ++ gid ∷ []) else none

  unfoldable pub member_loop : List ℕ → ℕ → List (List ℕ) → List ℕ → Option (List ℕ)
  member_loop user gid [] gs = some gs
  member_loop user gid (name ∷ mem) gs =
      if same name user
      then elim (store gid gs) [ none ↦ none | some gs1 ↦ member_loop user gid mem gs1 ]
      else member_loop user gid mem gs

  unfoldable pub group_loop : List ℕ → List Group → List ℕ → Option (List ℕ)
  group_loop user [] gs = some gs
  group_loop user (g ∷ file) gs = elim (member_loop user g.gr_gid g.gr_mem gs) [
    | none ↦ none
    | some gs1 ↦ group_loop user file gs1
  ]

  -- from `geteuid()` on
  unfoldable pub install : List ℕ → Process → Outcome
  install gs p =
      let euid = p.euid in
      let (raised, p1) = if euid == 0 then (true, p) else seteuid p 0 in
      if not raised
      then returned false p1
      else (let (installed, p2) = setgroups p1 gs in
          if not installed then returned false p2 else returned true (seteuid p2 euid).1)

  unfoldable pub xinitgroups : List ℕ → ℕ → List Group → Process → Outcome
  xinitgroups user group file p =
      if not (malloc p ((ngroups_max + 1) * 4))
      then returned false (record p { errno = enomem })
      else elim (group_loop user file []) [
        | none ↦ overrun
        | some gs ↦ elim (store group gs) [ none ↦ overrun | some all ↦ install all p ]
      ]
