-- ===== src/Acl/Library.antt =====
-- What tlpi-dist/acl/acl_update.c uses of libacl. An ACL in memory is a value that the calls replace; an
-- entry and a set of permissions are numbers that stand for their handles. `none` and `false` are -1
-- or NULL.
use tlpi_exercises.Base.{
  ℕ, ◌≡◌, ◌≢◌, ◌↔◌, ◌⊎◌, Bool, true, false, ◌&&◌, ◌||◌, not, Option, none, some, List, [], ◌∷◌,
  ◌==◌,
}
use tlpi_exercises.Acl.{Text, Tag, user_obj, user, group_obj, group, other, mask, Perms, no_perms}

-- 1, 0 or -1, with the entry
pub data Fetched : Type 0 where
  fetched : ℕ → Fetched
  no_more : Fetched
  not_fetched : Fetched

-- a permission
pub data Perm : Type 0 where
  acl_read : Perm
  acl_write : Perm
  acl_execute : Perm

abbrev pub add : Perm → Perms → Perms
add acl_read p = record p { read = true }
add acl_write p = record p { write = true }
add acl_execute p = record p { execute = true }

pub record Item : Type 0 where
  pub tag : Tag
  pub qual : ℕ
  pub perms : Perms

-- the values of the tag types
abbrev pub value : Tag → ℕ
value user_obj = 1
value user = 2
value group_obj = 4
value group = 8
value mask = 16
value other = 32

-- Only the entries of a user and of a group have a qualifier.
abbrev pub has_qualifier : Tag → Bool
has_qualifier t = (value t == 2) || (value t == 8)

abbrev pub same_key : Tag → ℕ → Tag → ℕ → Bool
same_key t q t' q' = (value t == value t') && (not (has_qualifier t) || (q == q'))

abbrev pub In : ℕ → List ℕ → Type 0
In h [] = true ≡ false
In h (k ∷ ks) = (h ≡ k) ⊎ In h ks

-- `entries` has the handles in the order of acl_get_entry(3), and `upcoming` those that it still gives.
-- `stored` is what the ACL of a file grants, and `owner` the entry of a set of permissions.
pub record LibAcl (Os Acl : Type 0) : Type 1 where
  pub entries : Acl → List ℕ
  pub upcoming : Acl → List ℕ
  pub item : Acl → ℕ → Item
  pub perms_in : Acl → ℕ → Perms
  pub owner : ℕ → ℕ
  pub stored : Os → Text → Bool → Tag → ℕ → Perms → Type 0
  pub get_file : Os → Text → Bool → Option Acl
  pub set_file : Os → Text → Bool → Acl → Option Os
  pub get_entry : Acl → Bool → Fetched × Acl
  pub get_tag_type : Acl → ℕ → Option Tag
  pub get_qualifier : Acl → ℕ → Option ℕ
  pub free_qualifier : Acl → ℕ → Bool
  pub create_entry : Acl → Option (ℕ × Acl)
  pub delete_entry : Acl → ℕ → Option Acl
  pub set_tag_type : Acl → ℕ → Tag → Option Acl
  pub set_qualifier : Acl → ℕ → ℕ → Option Acl
  pub get_permset : Acl → ℕ → Option ℕ
  pub clear_perms : Acl → ℕ → Option Acl
  pub add_perm : Acl → ℕ → Perm → Option Acl
  pub set_permset : Acl → ℕ → ℕ → Option Acl
  pub calc_mask : Acl → Option Acl
  pub valid : Acl → Bool
  pub free_acl : Acl → Bool

module _ {Os Acl : Type 0} (lib : LibAcl Os Acl) where
  abbrev pub matches : Tag → ℕ → Acl → ℕ → Bool
  matches t q a h = same_key t q (lib.item a h).tag (lib.item a h).qual

  -- The ACL grants the permissions to the tag and the qualifier.
  abbrev pub Has : Acl → Tag → ℕ → Perms → Type 0
  Has a t q p =
      (h : ℕ) × In h (lib.entries a) × (matches t q a h ≡ true) × ((lib.item a h).perms ≡ p)

  -- No two entries are for the same tag and qualifier.
  abbrev pub IsUnique : Acl → Type 0
  IsUnique a =
      (h k : ℕ)
      → In h (lib.entries a)
      → In k (lib.entries a)
      → (t : Tag) (q : ℕ) → matches t q a h ≡ true
      → matches t q a k ≡ true
      → h ≡ k

  abbrev pub Same : Acl → Acl → Type 0
  Same a a' = (lib.entries a' ≡ lib.entries a) × ((k : ℕ) → lib.item a' k ≡ lib.item a k)

  -- At most the entry `h` is different, and is there before and after.
  abbrev pub Beside : ℕ → Acl → Acl → Type 0
  Beside h a a' =
      ((k : ℕ) → In k (lib.entries a') ↔ In k (lib.entries a))
      × ((k : ℕ) → k ≢ h → lib.item a' k ≡ lib.item a k)

  abbrev pub SameKey : ℕ → Acl → Acl → Type 0
  SameKey h a a' =
      ((lib.item a' h).tag ≡ (lib.item a h).tag) × ((lib.item a' h).qual ≡ (lib.item a h).qual)

  -- A call on an entry or an ACL that fails, where what it works on comes from the calls before it.
  pub data CallFails : Type 0 where
    no_entry : {a a' : Acl} {first : Bool} → lib.get_entry a first ≡ (not_fetched, a') → CallFails
    no_tag_type :
        {a a' : Acl} {first : Bool} {h : ℕ}
        → lib.get_entry a first ≡ (fetched h, a')
        → lib.get_tag_type a' h ≡ none
        → CallFails
    no_qualifier :
        {a : Acl} {h : ℕ} {t : Tag}
        → lib.get_tag_type a h ≡ some t
        → has_qualifier t ≡ true
        → lib.get_qualifier a h ≡ none
        → CallFails
    qualifier_not_freed :
        {a : Acl} {h q : ℕ}
        → lib.get_qualifier a h ≡ some q
        → lib.free_qualifier a q ≡ false
        → CallFails
    not_created : {a : Acl} → lib.create_entry a ≡ none → CallFails
    not_deleted : {a : Acl} {h : ℕ} → In h (lib.entries a) → lib.delete_entry a h ≡ none → CallFails
    tag_not_set :
        {a b : Acl} {h : ℕ} {t : Tag}
        → lib.create_entry a ≡ some (h, b)
        → lib.set_tag_type b h t ≡ none
        → CallFails
    qualifier_not_set :
        {a b : Acl} {h q : ℕ} {t : Tag}
        → lib.set_tag_type a h t ≡ some b
        → has_qualifier t ≡ true
        → lib.set_qualifier b h q ≡ none
        → CallFails
    no_permset : {a : Acl} {h : ℕ} → In h (lib.entries a) → lib.get_permset a h ≡ none → CallFails
    not_cleared :
        {a : Acl} {h s : ℕ} → lib.get_permset a h ≡ some s → lib.clear_perms a s ≡ none → CallFails
    not_added :
        {a b : Acl} {h s : ℕ} {p : Perm}
        → lib.get_permset a h ≡ some s
        → lib.add_perm b s p ≡ none
        → CallFails
    permset_not_set :
        {a b : Acl} {h s : ℕ}
        → lib.get_permset a h ≡ some s
        → lib.set_permset b h s ≡ none
        → CallFails
    not_masked : {a : Acl} → lib.calc_mask a ≡ none → CallFails

  -- What the manual pages say of the calls. The order of the entries is left open.
  pub record IsLibAcl : Type 0 where
    pub get_first :
        {a a' : Acl} {h : ℕ}
        → lib.get_entry a true ≡ (fetched h, a')
        → (lib.entries a ≡ h ∷ lib.upcoming a') × Same a a'
    pub no_first :
        {a a' : Acl} → lib.get_entry a true ≡ (no_more, a') → (lib.entries a ≡ []) × Same a a'
    pub get_next :
        {a a' : Acl} {h : ℕ}
        → lib.get_entry a false ≡ (fetched h, a')
        → (lib.upcoming a ≡ h ∷ lib.upcoming a') × Same a a'
    pub no_next :
        {a a' : Acl} → lib.get_entry a false ≡ (no_more, a') → (lib.upcoming a ≡ []) × Same a a'
    pub tag_type :
        {a : Acl} {h : ℕ} {t : Tag} → lib.get_tag_type a h ≡ some t → t ≡ (lib.item a h).tag
    pub qualifier : {a : Acl} {h q : ℕ} → lib.get_qualifier a h ≡ some q → q ≡ (lib.item a h).qual
    pub created :
        {a a' : Acl} {h : ℕ}
        → lib.create_entry a ≡ some (h, a')
        → (In h (lib.entries a) → true ≡ false)
          × ((k : ℕ) → In k (lib.entries a') ↔ ((k ≡ h) ⊎ In k (lib.entries a)))
          × ((k : ℕ) → k ≢ h → lib.item a' k ≡ lib.item a k)
    pub deleted :
        {a a' : Acl} {h : ℕ}
        → lib.delete_entry a h ≡ some a'
        → ((k : ℕ) → In k (lib.entries a') ↔ (In k (lib.entries a) × (k ≢ h)))
          × ((k : ℕ) → k ≢ h → lib.item a' k ≡ lib.item a k)
    pub tag_set :
        {a a' : Acl} {h : ℕ} {t : Tag}
        → lib.set_tag_type a h t ≡ some a'
        → ((lib.item a' h).tag ≡ t) × Beside h a a'
    pub qualifier_set :
        {a a' : Acl} {h q : ℕ}
        → lib.set_qualifier a h q ≡ some a'
        → ((lib.item a' h).tag ≡ (lib.item a h).tag) × ((lib.item a' h).qual ≡ q) × Beside h a a'
    pub permset : {a : Acl} {h s : ℕ} → lib.get_permset a h ≡ some s → lib.owner s ≡ h
    pub cleared :
        {a a' : Acl} {s : ℕ}
        → lib.clear_perms a s ≡ some a'
        → (lib.perms_in a' s ≡ no_perms) × SameKey (lib.owner s) a a' × Beside (lib.owner s) a a'
    pub added :
        {a a' : Acl} {s : ℕ} {p : Perm}
        → lib.add_perm a s p ≡ some a'
        → (lib.perms_in a' s ≡ add p (lib.perms_in a s))
          × SameKey (lib.owner s) a a'
          × Beside (lib.owner s) a a'
    pub permset_set :
        {a a' : Acl} {h s : ℕ}
        → lib.set_permset a h s ≡ some a'
        → ((lib.item a' h).perms ≡ lib.perms_in a s) × SameKey h a a' × Beside h a a'
    -- Only the entry of the mask is changed or made.
    pub masked :
        {a a' : Acl}
        → lib.calc_mask a ≡ some a'
        → (t : Tag) (q : ℕ) (p : Perms) → t ≢ mask
        → Has a' t q p ↔ Has a t q p
    pub got_file :
        {o : Os} {file : Text} {d : Bool} {a : Acl}
        → lib.get_file o file d ≡ some a
        → IsUnique a × ((t : Tag) (q : ℕ) (p : Perms) → lib.stored o file d t q p ↔ Has a t q p)
    pub file_set :
        {o o' : Os} {file : Text} {d : Bool} {a : Acl}
        → lib.set_file o file d a ≡ some o'
        → (t : Tag) (q : ℕ) (p : Perms) → lib.stored o' file d t q p ↔ Has a t q p
    pub is_valid : {a : Acl} → lib.valid a ≡ true → IsUnique a
