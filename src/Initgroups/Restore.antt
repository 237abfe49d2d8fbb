-- ===== src/Initgroups/Restore.antt =====
-- The groups that `xinitgroups` sets, and the privileges it leaves.
use tlpi_exercises.Base.{
  ℕ, suc, ◌+◌, ◌*◌, ◌≡◌, ◌≢◌, ◌≤◌, ◌<◌, refl, ◌∙◌, sym, ap, inl, inr, Bool-cases, true, false,
  Option, none, some, List, [], ◌∷◌, ◌++◌, arith, ltb, ◌==◌, if◌then◌else◌, length, length-append,
  ltb_of_lt,
}
use mathlib.Core.List.{append_assoc, append-nil}
use tlpi_exercises.Initgroups.{
  Group, Process, returned, Libc, IsLibc, same, store, member_loop, group_loop, install,
  xinitgroups,
}

-- The groups of the file that name the user, once for each time that they do.
unfoldable pub member_of : List ℕ → ℕ → List (List ℕ) → List ℕ
member_of user gid [] = []
member_of user gid (name ∷ mem) =
    if same name user then gid ∷ member_of user gid mem else member_of user gid mem

unfoldable pub memberships : List ℕ → List Group → List ℕ
memberships user [] = []
memberships user (g ∷ file) = member_of user g.gr_gid g.gr_mem ++ memberships user file

module _ (c : Libc) where
  -- the array with more entries, if they fit
  abbrev fit : List ℕ → List ℕ → Option (List ℕ)
  fit gs more = if ltb (c.ngroups_max + 1) (length (gs ++ more)) then none else some (gs ++ more)

  store-fits :
      (gid : ℕ) (gs : List ℕ)
      → length gs < c.ngroups_max + 1
      → store c gid gs ≡ some (gs ++ gid ∷ [])
  unfolding store
  store-fits gid gs h = rw (ltb_of_lt (length gs) (c.ngroups_max + 1) h) refl

  member_loop-fits :
      (user : List ℕ) (gid : ℕ) (mem : List (List ℕ)) (gs : List ℕ)
      → length gs + length (member_of user gid mem) ≤ c.ngroups_max + 1
      → member_loop c user gid mem gs ≡ some (gs ++ member_of user gid mem)
  unfolding member_loop member_of
  member_loop-fits user gid [] gs h = ap some (sym (append-nil gs))
  member_loop-fits user gid (name ∷ mem) gs h = elim (Bool-cases (same name user)) [
    | inl s ↦
        let bound : length gs + suc (length (member_of user gid mem)) ≤ c.ngroups_max + 1 =
          rw (s) at h in
        let len = length-append gs (gid ∷ []) in
        rw (s, store-fits gid gs (omega arith))
          (member_loop-fits user gid mem (gs ++ gid ∷ []) (omega arith)
            ∙ ap some (append_assoc gs (gid ∷ []) (member_of user gid mem)))
    | inr s ↦ rw (s) (member_loop-fits user gid mem gs (rw (s) at h))
  ]

  group_loop-fits :
      (user : List ℕ) (file : List Group) (gs : List ℕ)
      → length gs + length (memberships user file) ≤ c.ngroups_max + 1
      → group_loop c user file gs ≡ some (gs ++ memberships user file)
  unfolding group_loop memberships
  group_loop-fits user [] gs h = ap some (sym (append-nil gs))
  group_loop-fits user (g ∷ file) gs h =
      let here = member_of user g.gr_gid g.gr_mem in
      let l1 = length-append here (memberships user file) in
      let l2 = length-append gs here in
      rw (group_loop, member_loop-fits user g.gr_gid g.gr_mem gs (omega arith))
        (group_loop-fits user file (gs ++ here) (omega arith)
          ∙ ap some (append_assoc gs here (memberships user file)))

  xinitgroups-install :
      (user : List ℕ) (group : ℕ) (file : List Group) (p : Process)
      → c.malloc p ((c.ngroups_max + 1) * 4) ≡ true
      → length (memberships user file) ≤ c.ngroups_max
      → xinitgroups c user group file p ≡ install c (memberships user file ++ group ∷ []) p
  unfolding xinitgroups
  xinitgroups-install user group file p m h =
      rw
        (
          m,
          group_loop-fits user file [] (omega arith),
          store-fits group (memberships user file) (omega arith),
        )
        refl

  module _ (law : IsLibc c) (user : List ℕ) (group : ℕ) (file : List Group) (p : Process)
      (memory : c.malloc p ((c.ngroups_max + 1) * 4) ≡ true)
      (fits : length (memberships user file) ≤ c.ngroups_max) where
    -- Where the groups are at most `NGROUPS_MAX`, `setgroups` succeeds for so many at the effective
    -- user id 0, and a process with the effective user id 0, and this one, may change the effective
    -- user id to 0 and back, `xinitgroups` returns 0; the groups of the process are then those of
    -- the file that name the user and the given group, and its effective user id is as before.
    pub xinitgroups-groups :
        length (memberships user file) < c.ngroups_max
        → (c.seteuid p 0).0 ≡ true
        → ((q : Process) → q.euid ≡ 0 → (c.seteuid q p.euid).0 ≡ true)
        → ((q : Process) (gs : List ℕ)
            → q.euid ≡ 0
            → length gs ≤ c.ngroups_max
            → (c.setgroups q gs).0 ≡ true)
        → (p1 : Process) × (xinitgroups c user group file p ≡ returned true p1)
          × (p1.groups ≡ memberships user file ++ group ∷ [])
          × (p1.euid ≡ p.euid)
    unfolding install
    xinitgroups-groups below raise restore sg =
        let gs = memberships user file ++ group ∷ [] in
        let set = xinitgroups-install user group file p memory fits in
        let len = length-append (memberships user file) (group ∷ []) in
        let few : length gs ≤ c.ngroups_max = omega arith in
        elim (Bool-cases (p.euid == 0)) [
          | inl z ↦
              let root : p.euid ≡ 0 = ground arith in
              let done = sg p gs root few in
              let p2 = (c.setgroups p gs).1 in
              let (e, f) = law.setgroups_some p gs done in
              let (a, b) = law.seteuid_some p2 p.euid (restore p2 (e ∙ root)) in
              ((c.seteuid p2 p.euid).1, set ∙ rw (z, done) refl, b ∙ f, a)
          | inr z ↦
              let p1 = (c.seteuid p 0).1 in
              let (root, kept) = law.seteuid_some p 0 raise in
              let done = sg p1 gs root few in
              let p2 = (c.setgroups p1 gs).1 in
              let (e, f) = law.setgroups_some p1 gs done in
              let (a, b) = law.seteuid_some p2 p.euid (restore p2 (e ∙ root)) in
              ((c.seteuid p2 p.euid).1, set ∙ rw (z, raise, done) refl, b ∙ f, a)
        ]

    -- Where the process is not privileged, the groups fit, and the effective user id can be set to
    -- 0, but setting the groups fails, `xinitgroups` returns -1 and leaves the effective user id 0.
    pub xinitgroups-keeps_root :
        p.euid ≢ 0
        → (c.seteuid p 0).0 ≡ true
        → (c.setgroups (c.seteuid p 0).1 (memberships user file ++ group ∷ [])).0 ≡ false
        → (p1 : Process) × (xinitgroups c user group file p ≡ returned false p1)
          × (p1.groups ≡ p.groups)
          × (p1.euid ≡ 0)
    unfolding install
    xinitgroups-keeps_root ne su sg =
        let gs = memberships user file ++ group ∷ [] in
        let p1 = (c.seteuid p 0).1 in
        let z : (p.euid == 0) ≡ false = ground arith in
        let (a, b) = law.seteuid_some p 0 su in
        let (e, f) = law.setgroups_none p1 gs sg in
        (
          (c.setgroups p1 gs).1,
          xinitgroups-install user group file p memory fits ∙ rw (z, su, sg) refl,
          f ∙ b,
          e ∙ a,
        )
