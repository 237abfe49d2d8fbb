-- ===== src/Acl/Checks.antt =====
-- tlpi-dist/acl/acl_update.c: what `parseEntrySpec` and `parseACL` let through, and the end of the loop.
use mathlib.Core.Path.{subst}
use tlpi_exercises.Base.{
  ℕ, zero, suc, ◌+◌, ◌≤◌, ◌<◌, ◌≡◌, ◌≢◌, refl, sym, Bool, true, false, not, ◌&&◌, Option, none,
  some, List, [], ◌∷◌, length, All, arith, ltb, ◌==◌, if◌then◌else◌, Option-cases, inl, inr,
}
use tlpi_exercises.Acl.Holds.{Holds, Holds-some, Holds-bind, Holds-if, Holds-any}
use tlpi_exercises.Acl.Cut.{cut-shorter}
use tlpi_exercises.Acl.{
  Text, colon, comma, no_id, Tag, user_obj, user, group_obj, group, other, mask, Perms, no_perms,
  Entry, cut, starts_qual, is_given, tag_of, parse_perms, perms_of, qual_of, entry_of, parse_rest,
  parse_entry_spec, max_entries, parse_loop, parse_acl,
}

-- only a user or a group has a qualifier, and it is not -1
abbrev pub QualFits : Tag → ℕ → Type 0
QualFits user_obj q = q ≡ 0
QualFits user q = q ≢ no_id
QualFits group_obj q = q ≡ 0
QualFits group q = q ≢ no_id
QualFits other q = q ≡ 0
QualFits mask q = q ≡ 0

abbrev pub has_perms : Option Perms → Bool
has_perms none = false
has_perms (some p) = true

-- an entry with permissions exactly where they are required
abbrev pub EntryFits : Bool → Entry → Type 0
EntryFits perms_reqd e = QualFits e.tag e.qual × (has_perms e.perms ≡ perms_reqd)

same_of_tests : (a b : Bool) → (a && not b) ≡ false → (not a && b) ≡ false → a ≡ b
same_of_tests true true e f = refl
same_of_tests true false e f = e
same_of_tests false true e f = sym f
same_of_tests false false e f = refl

-- at most `max_entries` entries and at least one, each of them as it must be
abbrev pub ListFits : Bool → ℕ → List Entry → Type 0
ListFits r n es = All (EntryFits r) es × (n + length es ≤ max_entries) × (0 < length es)

-- the result of a round from the next entry and from the rounds that follow
abbrev round : Bool → Option Entry → Option (Option (List Entry)) → Option (Option (List Entry))
round below spec later = if not below then some none else elim spec [
  | none ↦ some none
  | some ace ↦ elim later [
    | none ↦ none
    | some res ↦ elim res [ none ↦ some none | some aclist ↦ some (some (ace ∷ aclist)) ]
  ]
]

round-fits :
    (r : Bool) (n : ℕ) (below : Bool) (spec : Option Entry) (later : Option (Option (List Entry)))
    → (below ≡ true → n < max_entries)
    → Holds (EntryFits r) spec
    → (below ≡ true
        → Holds (Holds (λ es. All (EntryFits r) es × (n + 1 + length es ≤ max_entries))) later)
    → Holds (Holds (ListFits r n)) (round below spec later)
round-fits r n false spec later b h k = tt
round-fits r n true none later b h k = tt
round-fits r n true (some ace) none b h k = tt
round-fits r n true (some ace) (some none) b h k = tt
round-fits r n true (some ace) (some (some es)) b h k =
    let (fits, bound) = k refl in ((h, fits), omega arith, omega arith)

weaker :
    (r : Bool) (n : ℕ) (o : Option (Option (List Entry)))
    → Holds (Holds (ListFits r n)) o
    → Holds (Holds (λ es. All (EntryFits r) es × (n + length es ≤ max_entries))) o
weaker r n none h = tt
weaker r n (some none) h = tt
weaker r n (some (some es)) (fits, bound, more) = (fits, bound)

later-fits :
    (r : Bool) (n : ℕ) (behind : Option Text) (loop : Text → Option (Option (List Entry)))
    → n < max_entries
    → ((t : Text) → Holds (Holds (ListFits r (n + 1))) (loop t))
    → Holds
        (Holds (λ es. All (EntryFits r) es × (n + 1 + length es ≤ max_entries)))
        (elim behind [ none ↦ some (some []) | some s ↦ loop s ])
later-fits r n none loop b h = (tt, omega arith)
later-fits r n (some t) loop b h = weaker r (n + 1) (loop t) (h t)

round-ends :
    (below : Bool) (spec : Option Entry) (later : Option (Option (List Entry)))
    → (x : Option (List Entry)) × (later ≡ some x)
    → (x : Option (List Entry)) × (round below spec later ≡ some x)
round-ends false spec later h = (none, refl)
round-ends true none later h = (none, refl)
round-ends true (some ace) later (none, e) = (none, rw (e) refl)
round-ends true (some ace) later (some es, e) = (some (ace ∷ es), rw (e) refl)

module _ (user_id group_id : Text → ℕ) where
  qual_of-fits : (k : Tag) (s : Text) → Holds (QualFits k) (qual_of user_id group_id k s)
  unfolding qual_of
  qual_of-fits user_obj s = refl
  qual_of-fits user s =
      Holds-if (QualFits user) (user_id s == no_id) none (some (user_id s)) (λ e. tt)
        (λ e. ground arith)
  qual_of-fits group_obj s = refl
  qual_of-fits group s =
      Holds-if (QualFits group) (group_id s == no_id) none (some (group_id s)) (λ e. tt)
        (λ e. ground arith)
  qual_of-fits other s = refl
  qual_of-fits mask s = refl

  perms_of-given :
      (perms : Option Text) → Holds (λ p. has_perms p ≡ is_given perms) (perms_of perms)
  unfolding perms_of is_given
  perms_of-given none = refl
  perms_of-given (some []) = refl
  perms_of-given (some (c ∷ s)) =
      Holds-bind (λ p. Unit {0}) (λ p. has_perms p ≡ true) (parse_perms no_perms (c ∷ s)) _
        (Holds-any (parse_perms no_perms (c ∷ s))) (λ p u. refl)

  entry_of-fits :
      (t : Option Tag) (q : Text) (perms : Option Text)
      → Holds (EntryFits (is_given perms)) (entry_of user_id group_id t q perms)
  unfolding entry_of
  entry_of-fits none q perms = tt
  entry_of-fits (some k) q perms =
      Holds-bind (QualFits k) _ (qual_of user_id group_id k q) _ (qual_of-fits k q) (λ x h.
        Holds-bind (λ p. has_perms p ≡ is_given perms) _ (perms_of perms) _ (perms_of-given perms)
          (λ p g. (h, g)))

  parse_rest-fits :
      (r : Bool) (t rest : Text) → Holds (EntryFits r) (parse_rest user_id group_id r t rest)
  unfolding parse_rest
  parse_rest-fits r t rest =
      let perms = (cut colon rest).1 in
      let given = is_given perms in
      Holds-if (EntryFits r) (given && not r) none _ (λ e. tt)
        (λ e.
          Holds-if (EntryFits r) (not given && r) none _ (λ f. tt)
            (λ f.
              subst
                (λ b. Holds (EntryFits b) (
                  entry_of user_id group_id (tag_of t (starts_qual rest)) (cut colon rest).0 perms))
                (same_of_tests given r e f) (entry_of-fits _ _ perms)))

  parse_entry_spec-fits :
      (r : Bool) (s : Text) → Holds (EntryFits r) (parse_entry_spec user_id group_id r s)
  unfolding parse_entry_spec
  parse_entry_spec-fits r s =
      Holds-bind (λ t. Unit {0}) (EntryFits r) (cut colon s).1 _ (Holds-any _)
        (λ t u. parse_rest-fits r _ t)

  loop-fits :
      (fuel : ℕ) (r : Bool) (s : Text) (n : ℕ)
      → Holds (Holds (ListFits r n)) (parse_loop user_id group_id fuel r s n)
  unfolding parse_loop
  loop-fits zero r s n = tt
  loop-fits (suc fuel) r s n =
      round-fits r n (ltb n max_entries) _ _ (λ b. ground arith)
        (parse_entry_spec-fits r (cut comma s).0)
        (λ b.
          later-fits r n (cut comma s).1 (λ t. parse_loop user_id group_id fuel r t (n + 1))
            (ground arith) (λ t. loop-fits fuel r t (n + 1)))

  loop-ends :
      (fuel : ℕ) (r : Bool) (s : Text) (n : ℕ)
      → length s < fuel
      → (res : Option (List Entry)) × (parse_loop user_id group_id fuel r s n ≡ some res)
  unfolding parse_loop
  loop-ends zero r s n h = absurd (omega arith)
  loop-ends (suc fuel) r s n h =
      round-ends (ltb n max_entries) (parse_entry_spec user_id group_id r (cut comma s).0) _
        (elim (Option-cases (cut comma s).1) [
          | inl e ↦ (some [], rw (e) refl)
          | inr (t, e) ↦
              let short = cut-shorter comma s t e in
              let (x, f) = loop-ends fuel r t (n + 1) (omega arith) in (x, rw (e) f)
        ])

  -- With more fuel than the text has characters, `parseACL` ends, with -1 or with a list of entries.
  -- A list has at least one entry and at most `max_entries`. Each entry has permissions exactly where
  -- they are required; the qualifier of a user or a group is not -1, and the others have the qualifier 0.
  pub parse_acl-ends :
      (fuel : ℕ) (perms_reqd : Bool) (acl_str : Text)
      → length acl_str < fuel
      → (res : Option (List Entry)) × (parse_acl user_id group_id fuel perms_reqd acl_str
          ≡ some res)
        × ((es : List Entry) → res ≡ some es → ListFits perms_reqd 0 es)
  unfolding parse_acl
  parse_acl-ends fuel perms_reqd acl_str h =
      let (res, e) = loop-ends fuel perms_reqd acl_str 0 h in
      let fits = Holds-some _ _ res (loop-fits fuel perms_reqd acl_str 0) e in
      (res, e, λ es g. Holds-some (ListFits perms_reqd 0) res es fits g)
