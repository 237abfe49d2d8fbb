-- ===== src/Acl/Applying.antt =====
-- tlpi-dist/acl/acl_update.c: what `setPerms` and the creation and removal of an entry do to the ACL.
use mathlib.Core.Path.{subst}
use tlpi_exercises.Base.{
  ℕ, ◌≡◌, ◌≢◌, refl, sym, ap, ◌∙◌, ◌↔◌, ◌⊎◌, inl, inr, Bool, true, false, ◌&&◌, ◌||◌, not,
  Bool-cases, Option, none, some, ◌==◌, if◌then◌else◌, arith,
}
use tlpi_exercises.Acl.{Tag, Perms, Entry, no_perms}
use tlpi_exercises.Acl.Settling.{Right, Right-bind, Right-need, Right-weaken}
use tlpi_exercises.Acl.Granted.{Modified, Removed, Applied}
use tlpi_exercises.Acl.Library.{
  CallFails, not_created, not_deleted, tag_not_set, qualifier_not_set, no_permset, not_cleared,
  not_added, permset_not_set, LibAcl, IsLibAcl, IsUnique, In, Beside, SameKey, matches, same_key,
  value, has_qualifier, Perm, acl_read, acl_write, acl_execute, add,
}
use tlpi_exercises.Acl.Update.{
  gives, need, given, ◌>>=◌, Operation, modify_entries, remove_entries, add_if, set_perms,
  make_entry, apply_entry,
}

key_here :
    (v w q r : ℕ)
    → w ≡ v
    → (((v == 2) || (v == 8)) ≡ true → r ≡ q)
    → ((v == w) && (not ((v == 2) || (v == 8)) || (q == r))) ≡ true
key_here v w q r e h = ground arith

abbrev adds : Bool → Perm → Perms → Perms
adds true perm x = add perm x
adds false perm x = x

adds-all :
    (r w x : Bool)
    → adds x acl_execute (adds w acl_write (adds r acl_read no_perms))
      ≡ record { read = r; write = w; execute = x }
adds-all true true true = refl
adds-all true true false = refl
adds-all true false true = refl
adds-all true false false = refl
adds-all false true true = refl
adds-all false true false = refl
adds-all false false true = refl
adds-all false false false = refl

-- An entry to modify has permissions.
abbrev pub Ready : Operation → Entry → Type 0
Ready operation ace = operation ≡ modify_entries → (p : Perms) × (ace.perms ≡ some p)

module _ {Os Acl : Type 0} (lib : LibAcl Os Acl) where
  -- what a search found
  abbrev pub FoundIn : Acl → Tag → ℕ → Option ℕ → Type 0
  FoundIn a t q (some h) = In h (lib.entries a) × (matches lib t q a h ≡ true)
  FoundIn a t q none = (k : ℕ) → In k (lib.entries a) → matches lib t q a k ≡ false

module _ {Os Acl : Type 0} (lib : LibAcl Os Acl) (law : IsLibAcl lib) where
  Beside-trans : (h : ℕ) (a b c : Acl) → Beside lib h a b → Beside lib h b c → Beside lib h a c
  Beside-trans h a b c (m, i) (m', i') =
      (λ k. (λ x. (m k).0 ((m' k).0 x), λ x. (m' k).1 ((m k).1 x)), λ k ne. i' k ne ∙ i k ne)

  SameKey-trans : (h : ℕ) (a b c : Acl) → SameKey lib h a b → SameKey lib h b c → SameKey lib h a c
  SameKey-trans h a b c (t, q) (t', q') = (t' ∙ t, q' ∙ q)

  -- The set of permissions, which belongs to an entry, changed to `x`.
  abbrev Worked : ℕ → Perms → Acl → Acl → Type 0
  Worked s x a b =
      (lib.perms_in b s ≡ x) × SameKey lib (lib.owner s) a b × Beside lib (lib.owner s) a b

  add_if-Worked :
      (yes_add : Bool) (a b : Acl) (h s : ℕ) (perm : Perm) (x : Perms)
      → lib.get_permset a h ≡ some s
      → Worked s x a b
      → Right (CallFails lib) (Worked s (adds yes_add perm x) a) (add_if lib yes_add b s perm)
  unfolding add_if
  add_if-Worked true a b h s perm x got (e, key, beside) =
      Right-need (CallFails lib) _ (lib.add_perm b s perm) (λ n. not_added got n)
        (λ c f.
          let (e', key', beside') = law.added f in
          (
            e' ∙ ap (add perm) e,
            SameKey-trans (lib.owner s) a b c key key',
            Beside-trans (lib.owner s) a b c beside beside',
          ))
  add_if-Worked false a b h s perm x got w = w

  abbrev SetTo : ℕ → Perms → Acl → Acl → Type 0
  SetTo h p a a' = ((lib.item a' h).perms ≡ p) × SameKey lib h a a' × Beside lib h a a'

  set_perms-SetTo :
      (a : Acl) (h : ℕ) (p : Perms)
      → In h (lib.entries a)
      → Right (CallFails lib) (SetTo h p a) (set_perms lib a h p)
  unfolding set_perms
  set_perms-SetTo a h p i =
      Right-bind (CallFails lib) (λ s. (lib.owner s ≡ h) × (lib.get_permset a h ≡ some s)) _
        (need (lib.get_permset a h)) _
        (Right-need (CallFails lib) _ (lib.get_permset a h) (λ n. no_permset i n)
          (λ s e. (law.permset e, e)))
        (λ s (own, got).
          Right-bind (CallFails lib) (Worked s no_perms a) _ (need (lib.clear_perms a s)) _
            (Right-need (CallFails lib) _ (lib.clear_perms a s) (λ n. not_cleared got n)
              (λ b e. law.cleared e))
            (λ b w.
              Right-bind (CallFails lib) _ _ (add_if lib p.read b s acl_read) _
                (add_if-Worked p.read a b h s acl_read no_perms got w)
                (λ c w.
                  Right-bind (CallFails lib) _ _ (add_if lib p.write c s acl_write) _
                    (add_if-Worked p.write a c h s acl_write _ got w)
                    (λ d w.
                      Right-bind (CallFails lib) _ _ (add_if lib p.execute d s acl_execute) _
                        (add_if-Worked p.execute a d h s acl_execute _ got w)
                        (λ d (e, key, beside).
                          Right-need (CallFails lib) _ (lib.set_permset d h s)
                            (λ n. permset_not_set got n)
                            (λ a' f.
                              let (e', key', beside') = law.permset_set f in
                              (
                                e' ∙ e ∙ adds-all p.read p.write p.execute,
                                SameKey-trans h a d a' (subst (λ x. SameKey lib x a d) own key)
                                    key',
                                Beside-trans h a d a' (subst (λ x. Beside lib x a d) own beside)
                                    beside',
                              )))))))

  -- a new entry for a tag and a qualifier
  abbrev NewEntry : Tag → ℕ → Acl → ℕ × Acl → Type 0
  NewEntry t q a (h, a') =
      (In h (lib.entries a) → true ≡ false)
      × ((k : ℕ) → In k (lib.entries a') ↔ ((k ≡ h) ⊎ In k (lib.entries a)))
      × ((k : ℕ) → k ≢ h → lib.item a' k ≡ lib.item a k)
      × (matches lib t q a' h ≡ true)

  here :
      (t : Tag) (q : ℕ) (a : Acl) (h : ℕ)
      → (lib.item a h).tag ≡ t
      → (has_qualifier t ≡ true → (lib.item a h).qual ≡ q)
      → matches lib t q a h ≡ true
  here t q a h e f =
      key_here (value t) (value (lib.item a h).tag) q (lib.item a h).qual (ap value e) f

  new_tail :
      (t : Tag) (q : ℕ) (a a1 b : Acl) (h : ℕ) (with_qualifier : Bool)
      → has_qualifier t ≡ with_qualifier
      → (In h (lib.entries a) → true ≡ false)
      → ((k : ℕ) → In k (lib.entries b) ↔ ((k ≡ h) ⊎ In k (lib.entries a)))
      → ((k : ℕ) → k ≢ h → lib.item b k ≡ lib.item a k)
      → (lib.item b h).tag ≡ t
      → lib.set_tag_type a1 h t ≡ some b
      → Right (CallFails lib) (NewEntry t q a) (
          if with_qualifier
          then (need (lib.set_qualifier b h q) >>= λ c. gives (h, c))
          else gives (h, b))
  new_tail t q a a1 b h true e fresh members same tag set =
      Right-bind (CallFails lib)
        (λ c.
          ((lib.item c h).tag ≡ (lib.item b h).tag) × ((lib.item c h).qual ≡ q) × Beside lib h b c)
        _ (need (lib.set_qualifier b h q)) _
        (Right-need (CallFails lib) _ (lib.set_qualifier b h q) (λ n. qualifier_not_set set e n)
          (λ c f. law.qualifier_set f))
        (λ c (et, eq, (m, i)). (
          fresh,
          λ k. (λ x. (members k).0 ((m k).0 x), λ x. (m k).1 ((members k).1 x)),
          λ k ne. i k ne ∙ same k ne,
          here t q c h (et ∙ tag) (λ z. eq),
        ))
  new_tail t q a a1 b h false e fresh members same tag set =
      (fresh, members, same, here t q b h tag (λ z. absurd (cc)))

  make_entry-NewEntry :
      (a : Acl) (t : Tag) (q : ℕ) → Right (CallFails lib) (NewEntry t q a) (make_entry lib a t q)
  unfolding make_entry
  make_entry-NewEntry a t q =
      Right-bind (CallFails lib)
        (λ (h, b).
          (In h (lib.entries a) → true ≡ false)
          × ((k : ℕ) → In k (lib.entries b) ↔ ((k ≡ h) ⊎ In k (lib.entries a)))
          × ((k : ℕ) → k ≢ h → lib.item b k ≡ lib.item a k)
          × (lib.create_entry a ≡ some (h, b)))
        _ (need (lib.create_entry a)) _
        (Right-need (CallFails lib) _ (lib.create_entry a) (λ n. not_created n)
          (λ (h, b) e. let (fresh, members, same) = law.created e in (fresh, members, same, e)))
        (λ (h, b) (fresh, members, same, made).
          Right-bind (CallFails lib)
            (λ c. ((lib.item c h).tag ≡ t) × Beside lib h b c × (lib.set_tag_type b h t ≡ some c)) _
            (need (lib.set_tag_type b h t)) _
            (Right-need (CallFails lib) _ (lib.set_tag_type b h t) (λ n. tag_not_set made n)
              (λ c e. let (tag, beside) = law.tag_set e in (tag, beside, e)))
            (λ c (tag, (m, i), set).
              new_tail t q a b c h (has_qualifier t) refl fresh
                (λ k. (λ x. (members k).0 ((m k).0 x), λ x. (m k).1 ((members k).1 x)))
                (λ k ne. i k ne ∙ same k ne) tag set))

  SetTo-matches :
      (h : ℕ) (p : Perms) (a a' : Acl) (t : Tag) (q : ℕ)
      → SetTo h p a a'
      → matches lib t q a' h ≡ matches lib t q a h
  SetTo-matches h p a a' t q (e, (et, eq), beside) =
      ap (λ x. same_key t q x (lib.item a' h).qual) et ∙ ap (same_key t q (lib.item a h).tag) eq

  new-Modified :
      (t : Tag) (q : ℕ) (p : Perms) (a b a' : Acl) (h : ℕ)
      → ((k : ℕ) → In k (lib.entries a) → matches lib t q a k ≡ false)
      → NewEntry t q a (h, b)
      → SetTo h p b a'
      → Modified lib t q p a a'
  new-Modified t q p a b a' h none_here (fresh, members, same, match) set = record {
    entry = h;
    there = (set.2.0 h).1 ((members h).1 (inl refl));
    for_key = SetTo-matches h p b a' t q set ∙ match;
    granted = set.0;
    stays = λ k ne. (
      λ x. elim ((members k).0 ((set.2.0 k).0 x)) [ inl e ↦ absurd (ne e) | inr i ↦ i ],
      λ i. (set.2.0 k).1 ((members k).1 (inr i)),
    );
    unchanged = λ k ne. set.2.1 k ne ∙ same k ne;
    only = λ k i m. let n = none_here k i in absurd (cc);
    was = λ i. let c = fresh i in absurd (cc);
  }

  old-Modified :
      (t : Tag) (q : ℕ) (p : Perms) (a a' : Acl) (h : ℕ)
      → IsUnique lib a
      → In h (lib.entries a)
      → matches lib t q a h ≡ true
      → SetTo h p a a'
      → Modified lib t q p a a'
  old-Modified t q p a a' h unique i match set = record {
    entry = h;
    there = (set.2.0 h).1 i;
    for_key = SetTo-matches h p a a' t q set ∙ match;
    granted = set.0;
    stays = λ k ne. set.2.0 k;
    unchanged = λ k ne. set.2.1 k ne;
    only = λ k j m. unique k h j i t q m match;
    was = λ j. match;
  }

  modified_old :
      (perms : Option Perms) (p : Perms) (a : Acl) (ace : Entry) (h : ℕ)
      → perms ≡ some p
      → ace.perms ≡ some p
      → IsUnique lib a
      → FoundIn lib a ace.tag ace.qual (some h)
      → Right
          (CallFails lib)
          (Applied lib modify_entries ace a)
          (given perms >>= λ perms. set_perms lib a h perms)
  modified_old none p a ace h e g unique found = absurd (cc)
  modified_old (some p') p a ace h e g unique (i, match) =
      Right-weaken (CallFails lib) (SetTo h p' a) _ (set_perms lib a h p')
        (λ a' set. (p', g ∙ sym e, old-Modified ace.tag ace.qual p' a a' h unique i match set))
        (set_perms-SetTo a h p' i)

  modified_new :
      (perms : Option Perms) (p : Perms) (a b : Acl) (ace : Entry) (h : ℕ)
      → perms ≡ some p
      → ace.perms ≡ some p
      → FoundIn lib a ace.tag ace.qual none
      → NewEntry ace.tag ace.qual a (h, b)
      → Right
          (CallFails lib)
          (Applied lib modify_entries ace a)
          (given perms >>= λ perms. set_perms lib b h perms)
  modified_new none p a b ace h e g none_here new = absurd (cc)
  modified_new (some p') p a b ace h e g none_here new =
      let (_, members, _, _) = new in
      Right-weaken (CallFails lib) (SetTo h p' b) _ (set_perms lib b h p')
        (λ a' set. (p', g ∙ sym e, new-Modified ace.tag ace.qual p' a b a' h none_here new set))
        (set_perms-SetTo b h p' ((members h).1 (inl refl)))

  removed :
      (a a' : Acl) (t : Tag) (q h : ℕ)
      → IsUnique lib a
      → FoundIn lib a t q (some h)
      → lib.delete_entry a h ≡ some a'
      → Removed lib t q a a'
  removed a a' t q h unique (i, match) e =
      let (members, same) = law.deleted e in
      record {
        stays = λ k. (
          λ x.
              let (j, ne) = (members k).0 x in
              (
                j,
                elim (Bool-cases (matches lib t q a k)) [
                  | inl m ↦ absurd (ne (unique k h j i t q m match))
                  | inr m ↦ m
                ],
              ),
          λ (j, m).
              (members k).1 (j, λ e. let m' = subst (λ x. matches lib t q a x ≡ false) e m in cc),
        );
        unchanged = λ k x. same k ((members k).0 x).1;
      }

  pub apply_entry-Applied :
      (operation : Operation) (found : Option ℕ) (a : Acl) (ace : Entry)
      → IsUnique lib a
      → FoundIn lib a ace.tag ace.qual found
      → Ready operation ace
      → Right (CallFails lib) (Applied lib operation ace a) (apply_entry lib operation found a ace)
  unfolding apply_entry
  apply_entry-Applied remove_entries none a ace unique f ready = record {
    stays = λ k. (λ i. (i, f k i), λ (i, m). i);
    unchanged = λ k i. refl;
  }
  apply_entry-Applied remove_entries (some h) a ace unique f ready =
      Right-need (CallFails lib) _ (lib.delete_entry a h) (λ n. not_deleted f.0 n)
        (λ a' e. removed a a' ace.tag ace.qual h unique f e)
  apply_entry-Applied modify_entries none a ace unique f ready =
      let (p, g) = ready refl in
      Right-bind (CallFails lib) (NewEntry ace.tag ace.qual a) _ (make_entry lib a ace.tag ace.qual)
        _ (make_entry-NewEntry a ace.tag ace.qual)
        (λ (h, b) new. modified_new ace.perms p a b ace h g g f new)
  apply_entry-Applied modify_entries (some h) a ace unique f ready =
      let (p, g) = ready refl in modified_old ace.perms p a ace h g g unique f
