-- ===== src/Acl/Print.antt =====
-- tlpi-dist/acl/acl_update.c: entries that are written out as `parseACL` reads them.
use tlpi_exercises.Base.{ℕ, ◌≡◌, ◌≢◌, false, some, List, [], ◌∷◌, ◌++◌, has, if◌then◌else◌}
use tlpi_exercises.Acl.{
  Text, colon, comma, no_id, Tag, user_obj, user, group_obj, group, other, mask, Perms, Entry,
}

-- An entry to write out: the name of its user or group, the ID that it stands for, and its permissions.
pub record Item : Type 0 where
  pub kind : Tag
  pub name : Text
  pub id : ℕ
  pub allowed : Perms

abbrev pub tag_text : Tag → Text
tag_text user_obj = b'u' ∷ b's' ∷ b'e' ∷ b'r' ∷ []
tag_text user = b'u' ∷ b's' ∷ b'e' ∷ b'r' ∷ []
tag_text group_obj = b'g' ∷ b'r' ∷ b'o' ∷ b'u' ∷ b'p' ∷ []
tag_text group = b'g' ∷ b'r' ∷ b'o' ∷ b'u' ∷ b'p' ∷ []
tag_text other = b'o' ∷ b't' ∷ b'h' ∷ b'e' ∷ b'r' ∷ []
tag_text mask = b'm' ∷ b'a' ∷ b's' ∷ b'k' ∷ []

abbrev pub perms_text : Perms → Text
perms_text p =
    (if p.read then b'r' else b'-')
    ∷ (if p.write then b'w' else b'-')
    ∷ (if p.execute then b'x' else b'-')
    ∷ []

abbrev pub print : Item → Text
print i = tag_text i.kind ++ colon ∷ (i.name ++ colon ∷ perms_text i.allowed)

-- the texts of the items, with commas between them
abbrev pub print_acl : Item → List Item → Text
print_acl i [] = print i
print_acl i (j ∷ js) = print i ++ comma ∷ print_acl j js

abbrev pub entry : Item → Entry
entry i = record { tag = i.kind; qual = i.id; perms = some i.allowed }

-- a name of a user or a group, which the files have
abbrev pub Named : (Text → ℕ) → Text → ℕ → Type 0
Named id_of name id =
    (name ≢ [])
    × (has colon name ≡ false)
    × (has comma name ≡ false)
    × (id_of name ≡ id)
    × (id ≢ no_id)

abbrev pub Nameless : Text → ℕ → Type 0
Nameless name id = (name ≡ []) × (id ≡ 0)
