-- ===== src/Acl.antt =====
-- tlpi-dist/acl/acl_update.c: the text form of an access control list, `parseEntrySpec` and
-- `parseACL`; and `userIdFromName` and `groupIdFromName` of tlpi-dist/users_groups/ugid_functions.c.
-- strtol(3), getpwnam(3) and getgrnam(3) are parameters. The messages are left out.
pub mod Cut
pub mod Holds
pub mod Ids
pub mod Print
pub mod Checks
pub mod RoundTrip
pub mod Library
pub mod Update
pub mod Granted
pub mod Applying
pub mod Outcome
pub mod Updating
pub mod Finding
pub mod Settling
use tlpi_exercises.Base.{
  ℕ, zero, suc, ◌+◌, ◌-◌, ◌%◌, ◌^◌, Bool, true, false, not, ◌&&◌, ◌||◌, Option, none, some, List,
  [], ◌∷◌, ltb, ◌==◌, if◌then◌else◌, same_text,
}
use tlpi_exercises.GetNum.{ℤ, pos, negsuc, Conversion, at_end}

abbrev pub Text : Type 0
Text = List ℕ

abbrev pub colon : ℕ
colon = b':'

abbrev pub comma : ℕ
comma = b','

-- `(uid_t) -1`
abbrev pub no_id : ℕ
no_id = 2 ^ 32 - 1

-- a `long` in a `uid_t`
abbrev pub to_id : ℤ → ℕ
to_id (pos n) = n % 2 ^ 32
to_id (negsuc n) = 2 ^ 32 - 1 - n % 2 ^ 32

-- `userIdFromName` and `groupIdFromName`, which differ in the file that they search
unfoldable pub id_from_name : (Text → ℕ → Conversion) → (Text → Option ℕ) → Option Text → ℕ
id_from_name strtol search_file none = no_id
id_from_name strtol search_file (some []) = no_id
id_from_name strtol search_file (some (c ∷ name)) =
    let u = strtol (c ∷ name) 10 in
    if at_end u.endptr
    then to_id u.res
    else elim (search_file (c ∷ name)) [ none ↦ no_id | some id ↦ id ]

-- `ACL_USER_OBJ`, `ACL_USER`, `ACL_GROUP_OBJ`, `ACL_GROUP`, `ACL_OTHER`, `ACL_MASK`
pub data Tag : Type 0 where
  user_obj : Tag
  user : Tag
  group_obj : Tag
  group : Tag
  other : Tag
  mask : Tag

-- The bits `ACL_READ`, `ACL_WRITE` and `ACL_EXECUTE`.
pub record Perms : Type 0 where
  pub read : Bool
  pub write : Bool
  pub execute : Bool

abbrev pub no_perms : Perms
no_perms = record { read = false; write = false; execute = false }

-- `struct AccessControlEntry`; permissions that were not given are not set.
pub record Entry : Type 0 where
  pub tag : Tag
  pub qual : ℕ
  pub perms : Option Perms

-- `strchr(s, c)`: the text before it and that behind it
unfoldable pub cut : ℕ → Text → Text × Option Text
cut c [] = ([], none)
cut c (b ∷ s) =
    let (before, behind) = cut c s in if b == c then ([], some s) else (b ∷ before, behind)

unfoldable pub starts_qual : Text → Bool
starts_qual [] = false
starts_qual (b ∷ s) = not (b == colon)

unfoldable pub is_given : Option Text → Bool
is_given none = false
is_given (some []) = false
is_given (some (b ∷ s)) = true

unfoldable pub tag_of : Text → Bool → Option Tag
tag_of s has_qual =
    if same_text s (b'u' ∷ []) || same_text s (b'u' ∷ b's' ∷ b'e' ∷ b'r' ∷ [])
    then some (if has_qual then user else user_obj)
    else if same_text s (b'g' ∷ []) || same_text s (b'g' ∷ b'r' ∷ b'o' ∷ b'u' ∷ b'p' ∷ [])
    then some (if has_qual then group else group_obj)
    else if same_text s (b'o' ∷ []) || same_text s (b'o' ∷ b't' ∷ b'h' ∷ b'e' ∷ b'r' ∷ [])
    then some other
    else if same_text s (b'm' ∷ []) || same_text s (b'm' ∷ b'a' ∷ b's' ∷ b'k' ∷ [])
    then some mask
    else none

unfoldable pub parse_perms : Perms → Text → Option Perms
parse_perms p [] = some p
parse_perms p (c ∷ s) =
    let r = parse_perms (record p { read = true }) s in
    let w = parse_perms (record p { write = true }) s in
    let x = parse_perms (record p { execute = true }) s in
    let skip = parse_perms p s in
    if c == b'r'
    then r
    else if c == b'w'
    then w
    else if c == b'x'
    then x
    else if c == b'-'
    then skip
    else none

-- the permissions, if the entry has some
unfoldable pub perms_of : Option Text → Option (Option Perms)
perms_of none = some none
perms_of (some []) = some none
perms_of (some (c ∷ s)) = elim (parse_perms no_perms (c ∷ s)) [
  | none ↦ none
  | some p ↦ some (some p)
]

-- `MAX_ENTRIES`
abbrev pub max_entries : ℕ
max_entries = 10000

module _ (user_id group_id : Text → ℕ) where
  -- the qualifier, or `none` for a bad one
  unfoldable pub qual_of : Tag → Text → Option ℕ
  qual_of user_obj s = some 0
  qual_of user s = if user_id s == no_id then none else some (user_id s)
  qual_of group_obj s = some 0
  qual_of group s = if group_id s == no_id then none else some (group_id s)
  qual_of other s = some 0
  qual_of mask s = some 0

  -- from the test of the tag on
  unfoldable pub entry_of : Option Tag → Text → Option Text → Option Entry
  entry_of none qualifier perms = none
  entry_of (some tag) qualifier perms = elim (qual_of tag qualifier) [
    | none ↦ none
    | some q ↦ elim (perms_of perms) [
      | none ↦ none
      | some p ↦ some (record { tag = tag; qual = q; perms = p })
    ]
  ]

  -- from the first colon on
  unfoldable pub parse_rest : Bool → Text → Text → Option Entry
  parse_rest perms_reqd tag_text rest =
      let (qualifier, perms) = cut colon rest in
      if is_given perms && not perms_reqd
      then none
      else if not (is_given perms) && perms_reqd
      then none
      else entry_of (tag_of tag_text (starts_qual rest)) qualifier perms

  unfoldable pub parse_entry_spec : Bool → Text → Option Entry
  parse_entry_spec perms_reqd entry_str =
      let (tag_text, rest) = cut colon entry_str in
      elim rest [ none ↦ none | some s ↦ parse_rest perms_reqd tag_text s ]

  -- Each round has the text from `nextEntry` on, and the entries so far.
  unfoldable pub parse_loop : ℕ → Bool → Text → ℕ → Option (Option (List Entry))
  parse_loop zero perms_reqd next_entry n = none
  parse_loop (suc fuel) perms_reqd next_entry n =
      let (entry_str, behind) = cut comma next_entry in
      let later : Option (Option (List Entry)) = elim behind [
        | none ↦ some (some [])
        | some s ↦ parse_loop fuel perms_reqd s (n + 1)
      ] in
      if not (ltb n max_entries) then some none else elim (parse_entry_spec perms_reqd entry_str) [
        | none ↦ some none
        | some ace ↦ elim later [
          | none ↦ none
          | some none ↦ some none
          | some (some aclist) ↦ some (some (ace ∷ aclist))
        ]
      ]

  -- The list of entries, or `none` for -1; the outer `none` is a loop that has not ended.
  unfoldable pub parse_acl : ℕ → Bool → Text → Option (Option (List Entry))
  parse_acl fuel perms_reqd acl_str = parse_loop fuel perms_reqd acl_str 0
