-- ===== src/Acl/Granted.antt =====
-- tlpi-dist/acl/acl_update.c: what the ACL grants after an entry is modified or removed.
use mathlib.Core.Option.{some-injective}
use mathlib.Core.Path.{subst}
use tlpi_exercises.Base.{
  ℕ, ◌≡◌, ◌≢◌, refl, sym, ap, ◌∙◌, ◌↔◌, ◌⊎◌, inl, inr, Bool, true, false, ◌&&◌, ◌||◌, not,
  Bool-cases, some, List, [], ◌∷◌, ◌==◌, if◌then◌else◌, arith,
}
use tlpi_exercises.Acl.{Tag, Perms, Entry}
use tlpi_exercises.Acl.Library.{Item, LibAcl, In, Has, matches, same_key, value}
use tlpi_exercises.Acl.Update.{Operation, modify_entries, remove_entries}

-- What a tag and a qualifier are granted
abbrev pub Grants : Type 1
Grants = Tag → ℕ → Perms → Type 0

abbrev pub Now : Operation → Entry → Perms → Type 0
Now modify_entries ace p = ace.perms ≡ some p
Now remove_entries ace p = true ≡ false

-- The permissions of the entry, or none, take the place of what was granted to its tag and qualifier.
abbrev pub After : Operation → Entry → Grants → Grants
After operation ace grants t q p =
    if same_key ace.tag ace.qual t q then Now operation ace p else grants t q p

abbrev pub AfterAll : Operation → List Entry → Grants → Grants
AfterAll operation [] grants = grants
AfterAll operation (ace ∷ aclist) grants = AfterAll operation aclist (After operation ace grants)

If-same : (b : Bool) (N X Y : Type 0) → X ↔ Y → (if b then N else X) ↔ (if b then N else Y)
If-same true N X Y h = (λ n. n, λ n. n)
If-same false N X Y h = h

pub AfterAll-same :
    (operation : Operation) (aclist : List Entry) (g g' : Grants) (t : Tag) (q : ℕ) (p : Perms)
    → g t q p ↔ g' t q p
    → AfterAll operation aclist g t q p ↔ AfterAll operation aclist g' t q p
AfterAll-same operation [] g g' t q p h = h
AfterAll-same operation (ace ∷ aclist) g g' t q p h =
    AfterAll-same operation aclist (After operation ace g) (After operation ace g') t q p
      (If-same (same_key ace.tag ace.qual t q) _ _ _ h)

-- the same tests, of the values
key_join :
    (v q v' q' w r : ℕ)
    → ((v == w) && (not ((v == 2) || (v == 8)) || (q == r))) ≡ true
    → ((v' == w) && (not ((v' == 2) || (v' == 8)) || (q' == r))) ≡ true
    → ((v == v') && (not ((v == 2) || (v == 8)) || (q == q'))) ≡ true
key_join v q v' q' w r h g = ground arith

pub key_pass :
    (v q v' q' w r : ℕ)
    → ((v == v') && (not ((v == 2) || (v == 8)) || (q == q'))) ≡ true
    → ((v == w) && (not ((v == 2) || (v == 8)) || (q == r))) ≡ true
    → ((v' == w) && (not ((v' == 2) || (v' == 8)) || (q' == r))) ≡ true
key_pass v q v' q' w r h g = ground arith

key_back :
    (v q v' q' w r : ℕ)
    → ((v == v') && (not ((v == 2) || (v == 8)) || (q == q'))) ≡ true
    → ((v' == w) && (not ((v' == 2) || (v' == 8)) || (q' == r))) ≡ true
    → ((v == w) && (not ((v == 2) || (v == 8)) || (q == r))) ≡ true
key_back v q v' q' w r h g = ground arith

pub alike : (k h : ℕ) → (k ≡ h) ⊎ (k ≢ h)
alike k h = elim (Bool-cases (k == h)) [
  | inl at ↦ inl (ground arith)
  | inr apart ↦ inr (λ e. ground arith)
]

module _ {Os Acl : Type 0} (lib : LibAcl Os Acl) where
  same_of_both :
      (t : Tag) (q : ℕ) (t' : Tag) (q' : ℕ) (a : Acl) (k : ℕ)
      → matches lib t q a k ≡ true
      → matches lib t' q' a k ≡ true
      → same_key t q t' q' ≡ true
  same_of_both t q t' q' a k h g =
      key_join (value t) q (value t') q' (value (lib.item a k).tag) (lib.item a k).qual h g

  pass :
      (t : Tag) (q : ℕ) (t' : Tag) (q' : ℕ) (a : Acl) (k : ℕ)
      → same_key t q t' q' ≡ true
      → matches lib t q a k ≡ true
      → matches lib t' q' a k ≡ true
  pass t q t' q' a k h g =
      key_pass (value t) q (value t') q' (value (lib.item a k).tag) (lib.item a k).qual h g

  back :
      (t : Tag) (q : ℕ) (t' : Tag) (q' : ℕ) (a : Acl) (k : ℕ)
      → same_key t q t' q' ≡ true
      → matches lib t' q' a k ≡ true
      → matches lib t q a k ≡ true
  back t q t' q' a k h g =
      key_back (value t) q (value t') q' (value (lib.item a k).tag) (lib.item a k).qual h g

  -- One entry for the tag and the qualifier, with the permissions; the others stay.
  pub record Modified (t : Tag) (q : ℕ) (p : Perms) (a a' : Acl) : Type 0 where
    pub entry : ℕ
    pub there : In entry (lib.entries a')
    pub for_key : matches lib t q a' entry ≡ true
    pub granted : (lib.item a' entry).perms ≡ p
    pub stays : (k : ℕ) → k ≢ entry → In k (lib.entries a') ↔ In k (lib.entries a)
    pub unchanged : (k : ℕ) → k ≢ entry → lib.item a' k ≡ lib.item a k
    pub only : (k : ℕ) → In k (lib.entries a) → matches lib t q a k ≡ true → k ≡ entry
    pub was : In entry (lib.entries a) → matches lib t q a entry ≡ true

  pub record Removed (t : Tag) (q : ℕ) (a a' : Acl) : Type 0 where
    pub stays :
        (k : ℕ) → In k (lib.entries a') ↔ (In k (lib.entries a) × (matches lib t q a k ≡ false))
    pub unchanged : (k : ℕ) → In k (lib.entries a') → lib.item a' k ≡ lib.item a k

  same_match :
      (a a' : Acl) (t : Tag) (q k : ℕ)
      → lib.item a' k ≡ lib.item a k
      → matches lib t q a' k ≡ matches lib t q a k
  same_match a a' t q k e = ap (λ (i : Item). same_key t q i.tag i.qual) e

  Modified-Has :
      (t : Tag) (q : ℕ) (p : Perms) (a a' : Acl) (t' : Tag) (q' : ℕ) (p' : Perms) (b : Bool)
      → Modified t q p a a'
      → same_key t q t' q' ≡ b
      → Has lib a' t' q' p' ↔ (if b then some p ≡ some p' else Has lib a t' q' p')
  Modified-Has t q p a a' t' q' p' true m e = (
    λ (k, i, match, granted). elim (alike k m.entry) [
      | inl at ↦ ap some (sym m.granted ∙ ap (λ x. (lib.item a' x).perms) (sym at) ∙ granted)
      | inr ne ↦
          let before = sym (same_match a a' t' q' k (m.unchanged k ne)) ∙ match in
          absurd (ne (m.only k ((m.stays k ne).0 i) (back t q t' q' a k e before)))
    ],
    λ h.
        (m.entry, m.there, pass t q t' q' a' m.entry e m.for_key, m.granted ∙ some-injective _ _ h),
  )
  Modified-Has t q p a a' t' q' p' false m e = (
    λ (k, i, match, granted). elim (alike k m.entry) [
      | inl at ↦
          let both =
            same_of_both t q t' q' a' m.entry m.for_key
              (subst (λ x. matches lib t' q' a' x ≡ true) at match) in
          absurd (cc)
      | inr ne ↦ (
        k,
        (m.stays k ne).0 i,
        sym (same_match a a' t' q' k (m.unchanged k ne)) ∙ match,
        ap (λ (x : Item). x.perms) (sym (m.unchanged k ne)) ∙ granted,
      )
    ],
    λ (k, i, match, granted). elim (alike k m.entry) [
      | inl at ↦
          let both =
            same_of_both t q t' q' a m.entry (m.was (subst (λ x. In x (lib.entries a)) at i))
              (subst (λ x. matches lib t' q' a x ≡ true) at match) in
          absurd (cc)
      | inr ne ↦ (
        k,
        (m.stays k ne).1 i,
        same_match a a' t' q' k (m.unchanged k ne) ∙ match,
        ap (λ (x : Item). x.perms) (m.unchanged k ne) ∙ granted,
      )
    ],
  )

  Removed-Has :
      (t : Tag) (q : ℕ) (a a' : Acl) (t' : Tag) (q' : ℕ) (p' : Perms) (b : Bool)
      → Removed t q a a'
      → same_key t q t' q' ≡ b
      → Has lib a' t' q' p' ↔ (if b then true ≡ false else Has lib a t' q' p')
  Removed-Has t q a a' t' q' p' true m e = (
    λ (k, i, match, granted).
        let (before, apart) = (m.stays k).0 i in
        let known =
          back t q t' q' a k e (sym (same_match a a' t' q' k (m.unchanged k i)) ∙ match) in
        absurd (cc),
    λ h. absurd (cc),
  )
  Removed-Has t q a a' t' q' p' false m e = (
    λ (k, i, match, granted). (
      k,
      ((m.stays k).0 i).0,
      sym (same_match a a' t' q' k (m.unchanged k i)) ∙ match,
      ap (λ (x : Item). x.perms) (sym (m.unchanged k i)) ∙ granted,
    ),
    λ (k, i, match, granted). elim (Bool-cases (matches lib t q a k)) [
      | inl yes_match ↦ let both = same_of_both t q t' q' a k yes_match match in absurd (cc)
      | inr no_match ↦
          let there = (m.stays k).1 (i, no_match) in
          (
            k,
            there,
            same_match a a' t' q' k (m.unchanged k there) ∙ match,
            ap (λ (x : Item). x.perms) (m.unchanged k there) ∙ granted,
          )
    ],
  )

  -- What one entry of the list did to the ACL.
  abbrev pub Applied : Operation → Entry → Acl → Acl → Type 0
  Applied modify_entries ace a a' =
      (p : Perms) × (ace.perms ≡ some p) × Modified ace.tag ace.qual p a a'
  Applied remove_entries ace a a' = Removed ace.tag ace.qual a a'

  pub Applied-Has :
      (operation : Operation) (ace : Entry) (a a' : Acl) (t : Tag) (q : ℕ) (p : Perms)
      → Applied operation ace a a'
      → Has lib a' t q p ↔ After operation ace (Has lib a) t q p
  Applied-Has modify_entries ace a a' t q p (p1, e, m) =
      subst
        (λ x.
          Has lib a' t q p
          ↔ (if same_key ace.tag ace.qual t q then x ≡ some p else Has lib a t q p))
        (sym e) (Modified-Has ace.tag ace.qual p1 a a' t q p (same_key ace.tag ace.qual t q) m refl)
  Applied-Has remove_entries ace a a' t q p m =
      Removed-Has ace.tag ace.qual a a' t q p (same_key ace.tag ace.qual t q) m refl
