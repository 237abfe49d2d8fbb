-- ===== src/Examples/Store.antt =====
-- For tlpi-dist/acl/acl_update.c, a small library, with one ACL for all files.
use mathlib.Core.Option.{some-injective}
use mathlib.Core.Path.{subst}
use tlpi_exercises.Acl.Granted.{key_pass, alike}
use tlpi_exercises.Acl.Library.{
  Fetched, fetched, no_more, add, Item, value, same_key, In, LibAcl, IsLibAcl, IsUnique, Has,
  SameKey, Beside,
}
use tlpi_exercises.Acl.{Tag, other, Perms, no_perms}
use tlpi_exercises.Base.{
  ℕ, suc, ◌+◌, ◌≤◌, ◌≡◌, ◌≢◌, refl, sym, ap, ◌∙◌, ◌↔◌, ◌⊎◌, inl, inr, Bool, true, false, not, ◌&&◌,
  ◌||◌, none, some, List, [], ◌∷◌, ◌==◌, if◌then◌else◌, arith,
}

pub record Store : Type 0 where
  pub handles : List ℕ
  pub later : List ℕ
  pub items : ℕ → Item

abbrev put : (ℕ → Item) → ℕ → Item → ℕ → Item
put items h item k = if k == h then item else items k

put-at : (items : ℕ → Item) (h : ℕ) (item : Item) → put items h item h ≡ item
put-at items h item = ground arith

put-beside : (items : ℕ → Item) (h : ℕ) (item : Item) (k : ℕ) → k ≢ h → put items h item k ≡ items k
put-beside items h item k ne = ground arith

abbrev same_entries : Item → Item → Bool
same_entries x y = same_key x.tag x.qual y.tag y.qual

abbrev apart : (ℕ → Item) → ℕ → List ℕ → Bool
apart items h [] = true
apart items h (k ∷ ks) = (h == k || not (same_entries (items h) (items k))) && apart items h ks

abbrev all_apart : (ℕ → Item) → List ℕ → List ℕ → Bool
all_apart items ks [] = true
all_apart items ks (h ∷ hs) = apart items h ks && all_apart items ks hs

and_both : (a b : Bool) → (a && b) ≡ true → (a ≡ true) × (b ≡ true)
and_both true b e = (refl, e)
and_both false b e = absurd (cc)

both_fail : (a b : Bool) → a ≡ false → b ≡ true → (a || not b) ≡ true → true ≡ false
both_fail false true e f h = sym h
both_fail false false e f h = sym f
both_fail true b e f h = e

apart_at :
    (items : ℕ → Item) (h k : ℕ) (ks : List ℕ)
    → apart items h ks ≡ true
    → In k ks
    → same_entries (items h) (items k) ≡ true
    → h ≡ k
apart_at items h k [] e i s = absurd (cc)
apart_at items h k (x ∷ ks) e i s =
    let (here, there) =
      and_both (h == x || not (same_entries (items h) (items x))) (apart items h ks) e in
    elim i [
      | inl at ↦ elim (alike h x) [
        | inl same ↦ same ∙ sym at
        | inr ne ↦
            let differ : (h == x) ≡ false = ground arith in
            let same = ap (λ y. same_entries (items h) (items y)) (sym at) ∙ s in
            let c = both_fail (h == x) (same_entries (items h) (items x)) differ same here in
            absurd (cc)
      ]
      | inr j ↦ apart_at items h k ks there j s
    ]

all_apart_at :
    (items : ℕ → Item) (ks hs : List ℕ) (h k : ℕ)
    → all_apart items ks hs ≡ true
    → In h hs
    → In k ks
    → same_entries (items h) (items k) ≡ true
    → h ≡ k
all_apart_at items ks [] h k e i j s = absurd (cc)
all_apart_at items ks (x ∷ hs) h k e i j s =
    let (here, there) = and_both (apart items x ks) (all_apart items ks hs) e in
    elim i [
      | inl at ↦
          at
          ∙ apart_at items x k ks here j (ap (λ y. same_entries (items y) (items k)) (sym at) ∙ s)
      | inr l ↦ all_apart_at items ks hs h k there l j s
    ]

abbrev total : List ℕ → ℕ
total [] = 0
total (x ∷ xs) = x + total xs

In-total : (k : ℕ) (xs : List ℕ) → In k xs → k ≤ total xs
In-total k [] i = absurd (cc)
In-total k (x ∷ xs) i = elim i [
  | inl e ↦ omega arith
  | inr j ↦ let l = In-total k xs j in omega arith
]

abbrev without : ℕ → List ℕ → List ℕ
without h [] = []
without h (x ∷ xs) = if x == h then without h xs else x ∷ without h xs

without_step :
    (h k x : ℕ) (xs : List ℕ) (b : Bool)
    → (x == h) ≡ b
    → In k (without h xs) ↔ (In k xs × (k ≢ h))
    → In k (if b then without h xs else x ∷ without h xs) ↔ (((k ≡ x) ⊎ In k xs) × (k ≢ h))
without_step h k x xs true e (f, g) = (
  λ i. let (j, ne) = f i in (inr j, ne),
  λ (i, ne). elim i [
    | inl at ↦ let same : x ≡ h = ground arith in absurd (ne (at ∙ same))
    | inr j ↦ g (j, ne)
  ],
)
without_step h k x xs false e (f, g) = (
  λ i. elim i [
    | inl at ↦ (inl at, λ same. ground arith)
    | inr l ↦ let (j, ne) = f l in (inr j, ne)
  ],
  λ (i, ne). elim i [ inl at ↦ inl at | inr j ↦ inr (g (j, ne)) ],
)

without-In : (h k : ℕ) (xs : List ℕ) → In k (without h xs) ↔ (In k xs × (k ≢ h))
without-In h k [] = (λ i. absurd (cc), λ (i, ne). i)
without-In h k (x ∷ xs) = without_step h k x xs (x == h) refl (without-In h k xs)

abbrev valid_store : Store → Bool
valid_store a = all_apart a.items a.handles a.handles

abbrev with_item : Store → ℕ → Item → Store
with_item a h item = record a { items = put a.items h item }

abbrev fetch : Store → List ℕ → Fetched × Store
fetch a [] = (no_more, a)
fetch a (h ∷ hs) = (fetched h, record a { later = hs })

abbrev made : Item
made = record { tag = other; qual = 0; perms = no_perms }

abbrev pub store_lib : LibAcl Store Store
store_lib = record {
  entries = λ a. a.handles;
  upcoming = λ a. a.later;
  item = λ a. a.items;
  perms_in = λ a s. (a.items s).perms;
  owner = λ s. s;
  stored = λ o file d t q p.
      (h : ℕ) × In h o.handles
      × (same_key t q (o.items h).tag (o.items h).qual ≡ true)
      × ((o.items h).perms ≡ p);
  get_file = λ o file d. if valid_store o then some o else none;
  set_file = λ o file d a. some a;
  get_entry = λ a first. if first then fetch a a.handles else fetch a a.later;
  get_tag_type = λ a h. some (a.items h).tag;
  get_qualifier = λ a h. some (a.items h).qual;
  free_qualifier = λ a q. true;
  create_entry = λ a. some (
    suc (total a.handles),
    record a {
      handles = suc (total a.handles) ∷ a.handles;
      items = put a.items (suc (total a.handles)) made;
    },
  );
  delete_entry = λ a h. some (record a { handles = without h a.handles });
  set_tag_type = λ a h t. some (with_item a h (record (a.items h) { tag = t }));
  set_qualifier = λ a h q. some (with_item a h (record (a.items h) { qual = q }));
  get_permset = λ a h. some h;
  clear_perms = λ a s. some (with_item a s (record (a.items s) { perms = no_perms }));
  add_perm = λ a s p. some (with_item a s (record (a.items s) { perms = add p (a.items s).perms }));
  set_permset = λ a h s. some (with_item a h (record (a.items h) { perms = (a.items s).perms }));
  calc_mask = λ a. some a;
  valid = valid_store;
  free_acl = λ a. true;
}

from_some : {A : Type 0} (P : A → Type 0) {x y : A} → some x ≡ some y → P x → P y
from_some P e p = subst P (some-injective _ _ e) p

first_of : {x h : ℕ} → fetched x ≡ fetched h → x ≡ h
first_of e = cc

abbrev SameStore : Store → Store → Type 0
SameStore a a' = (a'.handles ≡ a.handles) × ((k : ℕ) → a'.items k ≡ a.items k)

fetched_law :
    (a a' : Store) (h : ℕ) (xs : List ℕ)
    → fetch a xs ≡ (fetched h, a')
    → (xs ≡ h ∷ a'.later) × SameStore a a'
fetched_law a a' h [] e = let c = ap (λ r. r.0) e in absurd (cc)
fetched_law a a' h (x ∷ xs) e = (
  ap (λ y. y ∷ xs) (first_of (ap (λ r. r.0) e)) ∙ ap (λ l. h ∷ l) (ap (λ r. r.1.later) e),
  (sym (ap (λ r. r.1.handles) e), λ k. sym (ap (λ r. r.1.items k) e)),
)

no_more_law : (a a' : Store) (xs : List ℕ) → fetch a xs ≡ (no_more, a') → (xs ≡ []) × SameStore a a'
no_more_law a a' [] e = (refl, (sym (ap (λ r. r.1.handles) e), λ k. sym (ap (λ r. r.1.items k) e)))
no_more_law a a' (x ∷ xs) e = let c = ap (λ r. r.0) e in absurd (cc)

with_item-Beside : (a : Store) (h : ℕ) (item : Item) → Beside store_lib h a (with_item a h item)
with_item-Beside a h item = (λ k. (λ i. i, λ i. i), λ k ne. put-beside a.items h item k ne)

valid_store-IsUnique : (a : Store) → valid_store a ≡ true → IsUnique store_lib a
valid_store-IsUnique a e h k i j t q m n = all_apart_at a.items a.handles a.handles h k e i j (
    key_pass (value t) q (value (a.items h).tag) (a.items h).qual (value (a.items k).tag)
      (a.items k).qual m n)

got_valid :
    (o a : Store) (b : Bool)
    → valid_store o ≡ b
    → (if b then some o else none) ≡ some a
    → (valid_store o ≡ true) × (o ≡ a)
got_valid o a true e g = (e, some-injective _ _ g)
got_valid o a false e g = absurd (cc)

perms_law :
    (a a' : Store) (h : ℕ) (p : Perms)
    → some (with_item a h (record (a.items h) { perms = p })) ≡ some a'
    → ((a'.items h).perms ≡ p) × SameKey store_lib h a a' × Beside store_lib h a a'
perms_law a a' h p e =
    from_some (λ b. ((b.items h).perms ≡ p) × SameKey store_lib h a b × Beside store_lib h a b) e
      (
        ap (λ (i : Item). i.perms) (put-at a.items h _),
        (
          ap (λ (i : Item). i.tag) (put-at a.items h _),
          ap (λ (i : Item). i.qual) (put-at a.items h _),
        ),
        with_item-Beside a h _,
      )

abbrev IsCreated : Store → ℕ × Store → Type 0
IsCreated a (h, b) =
    (In h a.handles → true ≡ false)
    × ((k : ℕ) → In k b.handles ↔ ((k ≡ h) ⊎ In k a.handles))
    × ((k : ℕ) → k ≢ h → b.items k ≡ a.items k)

create_entry-IsCreated :
    (a : Store) (r : ℕ × Store) → store_lib.create_entry a ≡ some r → IsCreated a r
create_entry-IsCreated a r e = from_some (IsCreated a) e (
  λ i. let l = In-total _ a.handles i in absurd (omega arith),
  λ k. (λ i. i, λ i. i),
  λ k ne. put-beside a.items _ made k ne,
)

pub store_lib-IsLibAcl : IsLibAcl store_lib
store_lib-IsLibAcl = record {
  get_first = λ {a} {a'} {h} e. fetched_law a a' h a.handles e;
  no_first = λ {a} {a'} e. no_more_law a a' a.handles e;
  get_next = λ {a} {a'} {h} e. fetched_law a a' h a.later e;
  no_next = λ {a} {a'} e. no_more_law a a' a.later e;
  tag_type = λ e. sym (some-injective _ _ e);
  qualifier = λ e. sym (some-injective _ _ e);
  created = λ {a} {a'} {h} e. create_entry-IsCreated a (h, a') e;
  deleted = λ {a} {a'} {h} e.
      from_some
        (λ b.
          ((k : ℕ) → In k b.handles ↔ (In k a.handles × (k ≢ h)))
          × ((k : ℕ) → k ≢ h → b.items k ≡ a.items k))
        e (λ k. without-In h k a.handles, λ k ne. refl);
  tag_set = λ {a} {a'} {h} {t} e.
      from_some (λ b. ((b.items h).tag ≡ t) × Beside store_lib h a b) e
        (ap (λ (i : Item). i.tag) (put-at a.items h _), with_item-Beside a h _);
  qualifier_set = λ {a} {a'} {h} {q} e.
      from_some
        (λ b. ((b.items h).tag ≡ (a.items h).tag) × ((b.items h).qual ≡ q) × Beside store_lib h a b)
        e
        (
          ap (λ (i : Item). i.tag) (put-at a.items h _),
          ap (λ (i : Item). i.qual) (put-at a.items h _),
          with_item-Beside a h _,
        );
  permset = λ e. sym (some-injective _ _ e);
  cleared = λ {a} {a'} {s} e. perms_law a a' s no_perms e;
  added = λ {a} {a'} {s} {p} e. perms_law a a' s _ e;
  permset_set = λ {a} {a'} {h} {s} e. perms_law a a' h _ e;
  masked = λ {a} {a'} e t q p ne.
      from_some (λ b. Has store_lib b t q p ↔ Has store_lib a t q p) e (λ x. x, λ x. x);
  got_file = λ {o} {file} {d} {a} e.
      let (valid, same) = got_valid o a (valid_store o) refl e in
      subst
        (λ b.
          IsUnique store_lib b
          × ((t : Tag) (q : ℕ) (p : Perms)
              → store_lib.stored o file d t q p ↔ Has store_lib b t q p))
        same (valid_store-IsUnique o valid, λ t q p. (λ x. x, λ x. x));
  file_set = λ {o} {o'} {file} {d} {a} e t q p.
      from_some (λ b. store_lib.stored b file d t q p ↔ Has store_lib a t q p) e (λ x. x, λ x. x);
  is_valid = λ {a} e. valid_store-IsUnique a e;
}
