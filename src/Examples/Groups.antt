-- ===== src/Examples/Groups.antt =====
-- tlpi-solutions/ex09-3/initgroups.c with a small group file.
use tlpi_exercises.Base.{ℕ, ◌≡◌, refl, Bool, true, false, List, [], ◌∷◌, ◌++◌, arith, if◌then◌else◌}
use tlpi_exercises.Initgroups.{
  Group, Process, returned, overrun, Libc, IsLibc, same, store, member_loop, group_loop, install,
  xinitgroups,
}
use tlpi_exercises.Initgroups.Restore.{member_of, memberships, xinitgroups-groups}

-- room for `most` groups; `setgroups` answers `ok`
abbrev libc_of : ℕ → Bool → Libc
libc_of most ok = record {
  ngroups_max = most;
  malloc = λ p n. true;
  seteuid = λ p u. (true, record p { euid = u });
  setgroups = λ p gs. (ok, if ok then record p { groups = gs } else p);
}

libc_of-IsLibc : (most : ℕ) (ok : Bool) → IsLibc (libc_of most ok)
libc_of-IsLibc most true = record {
  seteuid_some = λ p u e. (refl, refl);
  seteuid_none = λ p u e. absurd (cc);
  setgroups_some = λ p gs e. (refl, refl);
  setgroups_none = λ p gs e. absurd (cc);
}
libc_of-IsLibc most false = record {
  seteuid_some = λ p u e. (refl, refl);
  seteuid_none = λ p u e. absurd (cc);
  setgroups_some = λ p gs e. absurd (cc);
  setgroups_none = λ p gs e. (refl, refl);
}

abbrev ann : List ℕ
ann = b'a' ∷ b'n' ∷ b'n' ∷ []

abbrev joe : List ℕ
joe = b'j' ∷ b'o' ∷ b'e' ∷ []

abbrev group_file : List Group
group_file =
    record { gr_gid = 10; gr_mem = ann ∷ joe ∷ [] }
    ∷ record { gr_gid = 20; gr_mem = joe ∷ [] }
    ∷ record { gr_gid = 30; gr_mem = ann ∷ [] }
    ∷ []

abbrev user_process : Process
user_process = record { euid = 1000; groups = 1000 ∷ []; errno = 0 }

set_groups :
    xinitgroups (libc_of 8 true) ann 5 group_file user_process
    ≡ returned true (record user_process { groups = 10 ∷ 30 ∷ 5 ∷ [] })
unfolding xinitgroups group_loop member_loop store install same
set_groups = refl

-- an array for one group and the given one
too_many : xinitgroups (libc_of 1 true) ann 5 group_file user_process ≡ overrun
unfolding xinitgroups group_loop member_loop store install same
too_many = refl

xinitgroups-groups_example :
    (p1 : Process) × (xinitgroups (libc_of 8 true) ann 5 group_file user_process ≡ returned true p1)
    × (p1.groups ≡ memberships ann group_file ++ 5 ∷ [])
    × (p1.euid ≡ 1000)
unfolding memberships member_of same
xinitgroups-groups_example =
    xinitgroups-groups (libc_of 8 true) (libc_of-IsLibc 8 true) ann 5 group_file user_process refl
      (omega arith) (omega arith) refl (λ q e. refl) (λ q gs e l. refl)
