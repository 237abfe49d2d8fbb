-- ===== src/Acl/Updating.antt =====
-- tlpi-dist/acl/acl_update.c: what `updateACL` makes of the ACL of a file.
use mathlib.Core.Option.{some-injective}
use mathlib.Core.Path.{subst}
use tlpi_exercises.Base.{
  ℕ, ◌≡◌, ◌<◌, length, refl, sym, ap, ◌∙◌, ◌↔◌, ◌⊎◌, inl, inr, Bool, true, false, not, All, Option,
  none, some, List, [], ◌∷◌, if◌then◌else◌,
}
use tlpi_exercises.Acl.{Text, Tag, Perms, Entry, parse_acl}
use tlpi_exercises.Acl.Checks.{EntryFits, has_perms, parse_acl-ends}
use tlpi_exercises.Acl.Outcome.{
  Counts, Updated, Rejects, Stopped, call_failed, rejected, Exits, not_read, in_loop, not_freed,
}
use tlpi_exercises.Acl.Applying.{FoundIn, Ready, apply_entry-Applied}
use tlpi_exercises.Acl.Finding.{Found, find_entry-Found, Same-matches}
use tlpi_exercises.Acl.Settling.{
  Right-when, Right-lift, Settles-lift, Right, Settles, Right-bind, Right-need, Settles-bind,
  Settles-const, Settles-weaken,
}
use tlpi_exercises.Acl.Granted.{After, AfterAll, AfterAll-same, Applied, Applied-Has}
use tlpi_exercises.Acl.Library.{
  CallFails, not_masked, Item, LibAcl, IsLibAcl, IsUnique, In, Has, Same,
}
use tlpi_exercises.Acl.Update.{
  gives, exits, need, ◌>>=◌, Operation, modify_entries, remove_entries, find_entry, apply_entry,
  update_round, update_loop, update_acl,
}

through : {X Y Z : Type 0} → X ↔ Y → Y ↔ Z → X ↔ Z
through (f, g) (f', g') = (λ x. f' (f x), λ z. g (g' z))

turn : {X Y : Type 0} → X ↔ Y → Y ↔ X
turn (f, g) = (g, f)

module _ {Os Acl : Type 0} (lib : LibAcl Os Acl) (law : IsLibAcl lib) where
  Found-FoundIn :
      (acl a : Acl) (t : Tag) (q : ℕ) (found : Option ℕ)
      → Found lib law acl (lib.entries acl) t q (found, a)
      → FoundIn lib a t q found × Same lib acl a
  Found-FoundIn acl a t q (some h) (i, m, same) =
      ((subst (In h) (sym (same.0)) i, Same-matches lib law acl a t q h same ∙ m), same)
  Found-FoundIn acl a t q none (none_here, same) =
      (λ k i. Same-matches lib law acl a t q k same ∙ none_here k (subst (In k) (same.0) i), same)

  Same-Has :
      (acl a : Acl)
      → Same lib acl a
      → (t : Tag) (q : ℕ) (p : Perms) → Has lib a t q p ↔ Has lib acl t q p
  Same-Has acl a (e, same) t q p = (
    λ (k, i, m, g). (
      k,
      subst (In k) e i,
      sym (Same-matches lib law acl a t q k (e, same)) ∙ m,
      ap (λ (x : Item). x.perms) (sym (same k)) ∙ g,
    ),
    λ (k, i, m, g). (
      k,
      subst (In k) (sym e) i,
      Same-matches lib law acl a t q k (e, same) ∙ m,
      ap (λ (x : Item). x.perms) (same k) ∙ g,
    ),
  )

  Same-IsUnique : (acl a : Acl) → Same lib acl a → IsUnique lib acl → IsUnique lib a
  Same-IsUnique acl a (e, same) unique h k i j t q m n =
      unique h k (subst (In h) e i) (subst (In k) e j) t q
        (sym (Same-matches lib law acl a t q h (e, same)) ∙ m)
        (sym (Same-matches lib law acl a t q k (e, same)) ∙ n)

  abbrev SameGrants : Bool → Acl → Acl → Type 0
  SameGrants r b c = (t : Tag) (q : ℕ) (p : Perms) → Counts r t → Has lib c t q p ↔ Has lib b t q p

  masked_if :
      (r : Bool) (b : Acl)
      → Right (CallFails lib) (SameGrants r b) (if r then need (lib.calc_mask b) else gives b)
  masked_if true b =
      Right-need (CallFails lib) _ (lib.calc_mask b) (λ n. not_masked n)
        (λ c e t q p counts. law.masked e t q p (counts refl))
  masked_if false b = λ t q p counts. (λ x. x, λ x. x)

  module _ (file : Text) (use_default_acl : Bool) (operation : Operation) (recalc_mask : Bool) where
    abbrev Holds : Os → Acl → Type 0
    Holds o acl =
        IsUnique lib acl
        × ((t : Tag) (q : ℕ) (p : Perms)
            → lib.stored o file use_default_acl t q p ↔ Has lib acl t q p)

    abbrev Round : Entry → Acl → Acl × Os → Type 0
    Round ace acl (c, o1) =
        Holds o1 c
        × ((t : Tag) (q : ℕ) (p : Perms)
            → Counts recalc_mask t
            → Has lib c t q p ↔ After operation ace (Has lib acl) t q p)

    -- A round exits at a call on an entry, or with an ACL that is not valid or cannot be set.
    abbrev RoundFails : Entry → Acl → Type 0
    RoundFails ace acl =
        CallFails lib
        ⊎ ((c : Acl) × ((t : Tag) (q : ℕ) (p : Perms)
              → Counts recalc_mask t
              → Has lib c t q p ↔ After operation ace (Has lib acl) t q p)
            × Rejects lib file use_default_acl operation recalc_mask c)

    set_step :
        (ace : Entry) (acl c : Acl) (o : Os) (v : Bool)
        → lib.valid c ≡ v
        → ((t : Tag) (q : ℕ) (p : Perms)
            → Counts recalc_mask t
            → Has lib c t q p ↔ After operation ace (Has lib acl) t q p)
        → Right (RoundFails ace acl) (Round ace acl) (
            if not v
            then exits
            else (need (lib.set_file o file use_default_acl c) >>= λ o1. gives (c, o1)))
    set_step ace acl c o false e h = inr (c, h, inl e)
    set_step ace acl c o true e h =
        Right-bind (RoundFails ace acl)
          (λ o1.
            (t : Tag) (q : ℕ) (p : Perms)
            → lib.stored o1 file use_default_acl t q p ↔ Has lib c t q p)
          _ (need (lib.set_file o file use_default_acl c)) _
          (Right-need (RoundFails ace acl) _ (lib.set_file o file use_default_acl c)
            (λ n. inr (c, h, inr (o, n))) (λ o1 f. law.file_set f))
          (λ o1 s. ((law.is_valid e, s), h))

    update_round-Round :
        (acl : Acl) (ace : Entry) (o : Os)
        → IsUnique lib acl
        → Ready operation ace
        → Settles
            (RoundFails ace acl)
            (λ k. update_round lib file use_default_acl operation recalc_mask k acl ace o)
            (Round ace acl)
    unfolding update_round
    update_round-Round acl ace o unique ready =
        Settles-bind (RoundFails ace acl) (Found lib law acl (lib.entries acl) ace.tag ace.qual)
          (Round ace acl) (λ k. find_entry lib k acl ace.tag ace.qual) _
          (Settles-lift (CallFails lib) (RoundFails ace acl) _ _ (λ n. inl n)
            (find_entry-Found lib law acl ace.tag ace.qual))
          (λ (found, a) f.
            let (found_in, same) = Found-FoundIn acl a ace.tag ace.qual found f in
            Settles-const (RoundFails ace acl) (Round ace acl) _ (
              Right-bind (RoundFails ace acl) (Applied lib operation ace a) _
                (apply_entry lib operation found a ace) _
                (Right-lift (CallFails lib) (RoundFails ace acl) (Applied lib operation ace a) _
                  (λ n. inl n)
                  (apply_entry-Applied lib law operation found a ace
                    (Same-IsUnique acl a same unique) found_in ready))
                (λ b applied.
                  Right-bind (RoundFails ace acl) (SameGrants recalc_mask b) _
                    (if recalc_mask then need (lib.calc_mask b) else gives b) _
                    (Right-lift (CallFails lib) (RoundFails ace acl) (SameGrants recalc_mask b) _
                      (λ n. inl n) (masked_if recalc_mask b))
                    (λ c masked. set_step ace acl c o (lib.valid c) refl (λ t q p counts.
                      through (masked t q p counts) (
                        through (Applied-Has lib operation ace a b t q p applied) (
                          AfterAll-same operation (ace ∷ []) (Has lib a) (Has lib acl) t q p
                            (Same-Has acl a same t q p))))))))

    -- A round makes of the ACL of the file what its entry says.
    abbrev RoundLink : Entry → Os → Os → Type 0
    RoundLink ace o o1 =
        (t : Tag) (q : ℕ) (p : Perms)
        → Counts recalc_mask t
        → lib.stored o1 file use_default_acl t q p
          ↔ After operation ace (lib.stored o file use_default_acl) t q p

    from_stored :
        (ace : Entry) (acl : Acl) (o : Os)
        → Holds o acl
        → (t : Tag) (q : ℕ) (p : Perms)
        → After operation ace (Has lib acl) t q p
          ↔ After operation ace (lib.stored o file use_default_acl) t q p
    from_stored ace acl o (unique, holds) t q p =
        AfterAll-same operation (ace ∷ []) (Has lib acl) (lib.stored o file use_default_acl) t q p
          (turn (holds t q p))

    onward :
        (X : Type 0) (ace : Entry) (aclist : List Entry) (o o1 : Os)
        → RoundLink ace o o1
        → (t : Tag) (q : ℕ) (p : Perms) → Counts recalc_mask t
        → X ↔ AfterAll operation aclist (lib.stored o1 file use_default_acl) t q p
        → X ↔ AfterAll operation (ace ∷ aclist) (lib.stored o file use_default_acl) t q p
    onward X ace aclist o o1 link t q p counts h =
        through h (AfterAll-same operation aclist _ _ t q p (link t q p counts))

    abbrev LoopStopped : List Entry → Os → Type 0
    LoopStopped = Stopped lib file use_default_acl operation recalc_mask

    abbrev MayExit : List Entry → Os → Type 0
    MayExit = Exits lib file use_default_acl operation recalc_mask

    stopped_here :
        (ace : Entry) (aclist : List Entry) (acl : Acl) (o : Os)
        → Holds o acl
        → RoundFails ace acl
        → LoopStopped (ace ∷ aclist) o
    stopped_here ace aclist acl o holds (inl n) = call_failed n
    stopped_here ace aclist acl o holds (inr (c, h, why)) =
        rejected ace [] aclist c refl
          (λ t q p counts. through (h t q p counts) (from_stored ace acl o holds t q p)) why

    stopped_later :
        (ace : Entry) (aclist : List Entry) (o o1 : Os)
        → RoundLink ace o o1
        → LoopStopped aclist o1
        → LoopStopped (ace ∷ aclist) o
    stopped_later ace aclist o o1 link (call_failed n) = call_failed n
    stopped_later ace aclist o o1 link (rejected first more left c e h why) =
        rejected ace (first ∷ more) left c (ap (λ l. ace ∷ l) e)
          (λ t q p counts. onward _ ace (first ∷ more) o o1 link t q p counts (h t q p counts)) why

    abbrev AllUpdated : List Entry → Os → Os → Type 0
    AllUpdated = Updated lib file use_default_acl operation recalc_mask

    update_loop-Updated :
        (aclist : List Entry) (acl : Acl) (o : Os)
        → Holds o acl
        → All (Ready operation) aclist
        → Settles
            (LoopStopped aclist o)
            (λ k. update_loop lib file use_default_acl operation recalc_mask k acl aclist o)
            (λ (a, o1). AllUpdated aclist o o1)
    unfolding update_loop
    update_loop-Updated [] acl o holds ready =
        Settles-const (LoopStopped [] o) (λ (a, o1). AllUpdated [] o o1) (gives (acl, o))
          (λ t q p counts. (λ x. x, λ x. x))
    update_loop-Updated (ace ∷ aclist) acl o holds (ready, later) =
        Settles-bind (LoopStopped (ace ∷ aclist) o) (Round ace acl)
          (λ (a, o1). AllUpdated (ace ∷ aclist) o o1)
          (λ k. update_round lib file use_default_acl operation recalc_mask k acl ace o) _
          (Settles-lift (RoundFails ace acl) _ _ _ (stopped_here ace aclist acl o holds)
            (update_round-Round acl ace o holds.0 ready))
          (λ (c, o1) (holds1, step).
            let link : RoundLink ace o o1 = λ t q p counts.
              through (holds1.1 t q p)
                (through (step t q p counts) (from_stored ace acl o holds t q p)) in
            Settles-weaken (LoopStopped (ace ∷ aclist) o) (λ (a, o2). AllUpdated aclist o1 o2)
              (λ (a, o2). AllUpdated (ace ∷ aclist) o o2) _
              (λ (a, o2) h t q p counts.
                onward _ ace aclist o o1 link t q p counts (h t q p counts))
              (Settles-lift (LoopStopped aclist o1) _ _ _ (stopped_later ace aclist o o1 link)
                (update_loop-Updated aclist c o1 holds1 later)))

    pub update_acl-Updated :
        (aclist : List Entry) (o : Os)
        → All (Ready operation) aclist
        → Settles
            (MayExit aclist o)
            (λ k. update_acl lib file use_default_acl operation recalc_mask k aclist o)
            (AllUpdated aclist o)
    unfolding update_acl
    update_acl-Updated aclist o ready =
        Settles-bind (MayExit aclist o) (Holds o) (AllUpdated aclist o)
          (λ k. need (lib.get_file o file use_default_acl)) _
          (Settles-const (MayExit aclist o) _ _ (
            Right-need (MayExit aclist o) _ (lib.get_file o file use_default_acl) (λ n. not_read n)
              (λ acl e. law.got_file e)))
          (λ acl holds.
            Settles-bind (MayExit aclist o) (λ (a, o1). AllUpdated aclist o o1)
              (AllUpdated aclist o)
              (λ k. update_loop lib file use_default_acl operation recalc_mask k acl aclist o) _
              (Settles-lift (LoopStopped aclist o) (MayExit aclist o) _ _ (λ n. in_loop n)
                (update_loop-Updated aclist acl o holds ready))
              (λ (a, o1) u. Settles-const (MayExit aclist o) (AllUpdated aclist o) _ (
                Right-when (MayExit aclist o) (AllUpdated aclist o) (lib.free_acl a) o1
                  (λ n. not_freed o1 a u n) u)))

abbrev pub is_modify : Operation → Bool
is_modify modify_entries = true
is_modify remove_entries = false

given_perms : (perms : Option Perms) → has_perms perms ≡ true → (p : Perms) × (perms ≡ some p)
given_perms none e = absurd (cc)
given_perms (some p) e = (p, refl)

fits-Ready :
    (operation : Operation) (aclist : List Entry)
    → All (EntryFits (is_modify operation)) aclist
    → All (Ready operation) aclist
fits-Ready operation [] fits = fits
fits-Ready operation (ace ∷ aclist) ((q, given), later) =
    (λ e. given_perms ace.perms (given ∙ ap is_modify e), fits-Ready operation aclist later)

module _ {Os Acl : Type 0} (lib : LibAcl Os Acl) (law : IsLibAcl lib) (file : Text)
    (use_default_acl : Bool) (operation : Operation) (recalc_mask : Bool)
    (user_id group_id : Text → ℕ) where
  -- For a list of entries that `parseACL` gave for the operation, `updateACL` ends with enough fuel: it
  -- exits or it returns. It exits only where a call of libacl fails: the ACL of the file is not
  -- read, a call fails on what the calls before it gave, the ACL that the entries up to one of the
  -- list make is not valid or the file does not take it, or memory is not freed. Where it returns,
  -- the ACL of the file grants to each tag and qualifier what the entries make of what it granted
  -- before, one after the other: an entry to modify grants exactly its permissions to its own tag
  -- and qualifier, an entry to remove leaves nothing for them, and all others keep what they had.
  -- This leaves out the tag of the mask where the mask is computed anew.
  pub parsed-Updated :
      (fuel : ℕ) (acl_str : Text) (aclist : List Entry)
      → length acl_str < fuel
      → parse_acl user_id group_id fuel (is_modify operation) acl_str ≡ some (some aclist)
      → (o : Os) (t : Tag) (q : ℕ) (p : Perms) → Counts recalc_mask t
      → Settles
          (Exits lib file use_default_acl operation recalc_mask aclist o)
          (λ k. update_acl lib file use_default_acl operation recalc_mask k aclist o)
          (λ o'.
            lib.stored o' file use_default_acl t q p
            ↔ AfterAll operation aclist (lib.stored o file use_default_acl) t q p)
  parsed-Updated fuel acl_str aclist below e o t q p counts =
      let (res, parsed, fits) =
        parse_acl-ends user_id group_id fuel (is_modify operation) acl_str below in
      let (entries_fit, bound, some_entry) = fits aclist (some-injective _ _ (sym parsed ∙ e)) in
      Settles-weaken (Exits lib file use_default_acl operation recalc_mask aclist o)
        (Updated lib file use_default_acl operation recalc_mask aclist o) _ _
        (λ o' updated. updated t q p counts)
        (update_acl-Updated lib law file use_default_acl operation recalc_mask aclist o
          (fits-Ready operation aclist entries_fit))
