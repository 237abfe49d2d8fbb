-- ===== src/Acl/Finding.antt =====
-- tlpi-dist/acl/acl_update.c: what `findEntry` finds.
use mathlib.Core.Path.{subst}
use tlpi_exercises.Base.{
  arith, ℕ, ◌≡◌, refl, sym, ap, ◌∙◌, inl, inr, Bool, true, false, ◌&&◌, ◌||◌, not, Option, none,
  some, List, [], ◌∷◌, ◌==◌, if◌then◌else◌,
}
use tlpi_exercises.Acl.{Tag}
use tlpi_exercises.Acl.Library.{
  CallFails, no_entry, no_tag_type, no_qualifier, qualifier_not_freed, Fetched, fetched, no_more,
  not_fetched, Item, LibAcl, IsLibAcl, In, Same, matches, same_key, has_qualifier, value,
}
use tlpi_exercises.Acl.Update.{Run, gives, exits, need, ◌>>=◌, is_entry, find_loop, find_entry}
use tlpi_exercises.Acl.Settling.{
  Right, Settles, Right-bind, Right-need, Right-when, Settles-const, Settles-bind, Settles-weaken,
  Settles-suc,
}

is_entry_tests :
    (F : Type 0) (b c : Bool) (o : Option ℕ) (free : ℕ → Bool) (q q' : ℕ)
    → (b ≡ true → c ≡ true → o ≡ none → F)
    → ((id : ℕ) → o ≡ some id → free id ≡ false → F)
    → ((id : ℕ) → o ≡ some id → id ≡ q')
    → Right F
        (λ x. x ≡ (b && (not c || (q == q'))))
        (if not b
          then gives false
          else if c
          then (need o >>= λ id. if free id then gives (q == id) else exits)
          else gives true)
is_entry_tests F false c o free q q' fail kept h = refl
is_entry_tests F true false o free q q' fail kept h = refl
is_entry_tests F true true o free q q' fail kept h =
    Right-bind F (λ id. o ≡ some id) _ (need o) _ (Right-need F _ o (fail refl refl) (λ id e. e))
      (λ id e. Right-when F _ (free id) (q == id) (kept id e) (ap (λ x. q == x) (h id e)))

qualified :
    (t u : Tag) → (value t == value u) ≡ true → has_qualifier t ≡ true → has_qualifier u ≡ true
qualified t u e g =
    let same : value u ≡ value t = ground arith in ap (λ v. (v == 2) || (v == 8)) same ∙ g

module _ {Os Acl : Type 0} (lib : LibAcl Os Acl) (law : IsLibAcl lib) where
  is_entry-matches :
      (a0 a : Acl) (first : Bool) (t : Tag) (q h : ℕ)
      → lib.get_entry a0 first ≡ (fetched h, a)
      → Right (CallFails lib) (λ b. b ≡ matches lib t q a h) (is_entry lib a t q h)
  unfolding is_entry
  is_entry-matches a0 a first t q h got =
      Right-bind (CallFails lib)
        (λ tag. (tag ≡ (lib.item a h).tag) × (lib.get_tag_type a h ≡ some tag)) _
        (need (lib.get_tag_type a h)) _
        (Right-need (CallFails lib) _ (lib.get_tag_type a h) (λ n. no_tag_type got n)
          (λ tag e. (law.tag_type e, e)))
        (λ tag (e, typed).
          subst
            (λ g.
              Right (CallFails lib) (λ x. x ≡ same_key t q g (lib.item a h).qual)
                (if not (value t == value tag)
                  then gives false
                  else if has_qualifier t
                  then (need (lib.get_qualifier a h) >>= λ id.
                      if lib.free_qualifier a id then gives (q == id) else exits)
                  else gives true))
            e
            (is_entry_tests (CallFails lib) (value t == value tag) (has_qualifier t)
              (lib.get_qualifier a h) (lib.free_qualifier a) q (lib.item a h).qual
              (λ b c n. no_qualifier typed (qualified t tag b c) n)
              (λ id f n. qualifier_not_freed f n) (λ id f. law.qualifier f)))

  abbrev pub rest : Bool → Acl → List ℕ
  rest true a = lib.entries a
  rest false a = lib.upcoming a

  abbrev pub Found : Acl → List ℕ → Tag → ℕ → Option ℕ × Acl → Type 0
  Found a xs t q (some h, a') = In h xs × (matches lib t q a h ≡ true) × Same lib a a'
  Found a xs t q (none, a') = ((k : ℕ) → In k xs → matches lib t q a k ≡ false) × Same lib a a'

  fetched_law :
      (first : Bool) (acl a : Acl) (h : ℕ)
      → lib.get_entry acl first ≡ (fetched h, a)
      → (rest first acl ≡ h ∷ rest false a) × Same lib acl a
  fetched_law true acl a h e = law.get_first e
  fetched_law false acl a h e = law.get_next e

  no_more_law :
      (first : Bool) (acl a : Acl)
      → lib.get_entry acl first ≡ (no_more, a)
      → (rest first acl ≡ []) × Same lib acl a
  no_more_law true acl a e = law.no_first e
  no_more_law false acl a e = law.no_next e

  pub Same-matches :
      (a a' : Acl) (t : Tag) (q h : ℕ) → Same lib a a' → matches lib t q a' h ≡ matches lib t q a h
  Same-matches a a' t q h (e, same) = ap (λ (i : Item). same_key t q i.tag i.qual) (same h)

  Same-trans : (a b c : Acl) → Same lib a b → Same lib b c → Same lib a c
  Same-trans a b c (e, same) (e', same') = (e' ∙ e, λ k. same' k ∙ same k)

  Found-later :
      (acl a : Acl) (x : ℕ) (ys : List ℕ) (t : Tag) (q : ℕ)
      → Same lib acl a
      → matches lib t q a x ≡ false
      → (r : Option ℕ × Acl) → Found a ys t q r
      → Found acl (x ∷ ys) t q r
  Found-later acl a x ys t q same no_match (some h, a') (i, m, s) =
      (inr i, sym (Same-matches acl a t q h same) ∙ m, Same-trans acl a a' same s)
  Found-later acl a x ys t q same no_match (none, a') (none_here, s) = (
    λ k i. elim i [
      | inl e ↦ ap (matches lib t q acl) e ∙ sym (Same-matches acl a t q x same) ∙ no_match
      | inr j ↦ sym (Same-matches acl a t q k same) ∙ none_here k j
    ],
    Same-trans acl a a' same s,
  )

  fetched_case :
      (acl a : Acl) (first : Bool) (x : ℕ) (ys : List ℕ) (t : Tag) (q : ℕ)
      → lib.get_entry acl first ≡ (fetched x, a)
      → Same lib acl a
      → Settles (CallFails lib) (λ k. find_loop lib k false a t q) (Found a ys t q)
      → Settles
          (CallFails lib)
          (λ k. is_entry lib a t q x >>= λ found. elim found [
            | true ↦ gives (some x, a)
            | false ↦ find_loop lib k false a t q
          ])
          (Found acl (x ∷ ys) t q)
  fetched_case acl a first x ys t q got same later =
      Settles-bind (CallFails lib) (λ b. b ≡ matches lib t q a x) (Found acl (x ∷ ys) t q)
        (λ k. is_entry lib a t q x) _
        (Settles-const (CallFails lib) _ _ (is_entry-matches acl a first t q x got))
        (λ found e.
          elim found
              as (λ b.
                b ≡ matches lib t q a x
                → Settles (CallFails lib)
                    (λ k. elim b as (λ c. Run (Option ℕ × Acl)) [
                      | true ↦ gives (some x, a)
                      | false ↦ find_loop lib k false a t q
                    ])
                    (Found acl (x ∷ ys) t q)) [
                      | true ↦ λ h.
                          Settles-const (CallFails lib) _ _
                            (inl refl, sym (Same-matches acl a t q x same) ∙ sym h, same)
                      | false ↦ λ h.
                          Settles-weaken (CallFails lib) _ _ _
                            (Found-later acl a x ys t q same (sym h)) later
                    ]
            e)

  get_case :
      (xs : List ℕ) (first : Bool) (acl a : Acl) (t : Tag) (q : ℕ) (s : Fetched)
      → lib.get_entry acl first ≡ (s, a)
      → rest first acl ≡ xs
      → ((x : ℕ)
          → xs ≡ x ∷ rest false a
          → Settles (CallFails lib) (λ k. find_loop lib k false a t q) (Found a (rest false a) t q))
      → Settles
          (CallFails lib)
          (λ k. elim s as (λ c. Run (Option ℕ × Acl)) [
            | not_fetched ↦ exits
            | no_more ↦ gives (none, a)
            | fetched entry ↦ is_entry lib a t q entry >>= λ found. elim found [
              | true ↦ gives (some entry, a)
              | false ↦ find_loop lib k false a t q
            ]
          ])
          (Found acl xs t q)
  get_case xs first acl a t q not_fetched e r ih =
      Settles-const (CallFails lib) _ exits (no_entry e)
  get_case xs first acl a t q no_more e r ih =
      let (empty, same) = no_more_law first acl a e in
      Settles-const (CallFails lib) (Found acl xs t q) (gives (none, a)) (
        subst (λ ys. (k : ℕ) → In k ys → matches lib t q acl k ≡ false) (sym empty ∙ r)
            (λ k i. absurd (cc)),
        same,
      )
  get_case xs first acl a t q (fetched h) e r ih =
      let (cons, same) = fetched_law first acl a h e in
      subst
        (λ ys.
          Settles (CallFails lib)
            (λ k. is_entry lib a t q h >>= λ found. elim found [
              | true ↦ gives (some h, a)
              | false ↦ find_loop lib k false a t q
            ])
            (Found acl ys t q))
        (sym cons ∙ r) (fetched_case acl a first h (rest false a) t q e same (ih h (sym r ∙ cons)))

  find_loop-Found-at :
      (ys : List ℕ) (a : Acl) (t : Tag) (q : ℕ)
      → lib.upcoming a ≡ ys
      → Settles (CallFails lib) (λ k. find_loop lib k false a t q) (Found a ys t q)
      → Settles (CallFails lib) (λ k. find_loop lib k false a t q) (Found a (rest false a) t q)
  find_loop-Found-at ys a t q e h =
      subst (λ zs. Settles (CallFails lib) (λ k. find_loop lib k false a t q) (Found a zs t q))
        (sym e) h

  find_loop-Found :
      (xs : List ℕ) (first : Bool) (acl : Acl) (t : Tag) (q : ℕ)
      → rest first acl ≡ xs
      → Settles (CallFails lib) (λ k. find_loop lib k first acl t q) (Found acl xs t q)
  unfolding find_loop
  find_loop-Found [] first acl t q e = Settles-suc (CallFails lib) _ _ (
      get_case [] first acl (lib.get_entry acl first).1 t q (lib.get_entry acl first).0 refl e
        (λ x c. absurd (cc)))
  find_loop-Found (y ∷ ys) first acl t q e = Settles-suc (CallFails lib) _ _ (
      get_case (y ∷ ys) first acl (lib.get_entry acl first).1 t q (lib.get_entry acl first).0 refl e
        (λ x c.
          let tail : lib.upcoming (lib.get_entry acl first).1 ≡ ys = cc in
          find_loop-Found-at ys _ t q tail
            (find_loop-Found ys false (lib.get_entry acl first).1 t q tail)))

  pub find_entry-Found :
      (acl : Acl) (t : Tag) (q : ℕ)
      → Settles (CallFails lib) (λ k. find_entry lib k acl t q) (Found acl (lib.entries acl) t q)
  unfolding find_entry
  find_entry-Found acl t q = find_loop-Found (lib.entries acl) true acl t q refl
