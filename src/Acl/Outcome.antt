-- ===== src/Acl/Outcome.antt =====
-- tlpi-dist/acl/acl_update.c: what it means that `updateACL` has updated the ACL of a file, and why it
-- exits.
use tlpi_exercises.Base.{ℕ, ◌≡◌, ◌≢◌, ◌↔◌, ◌⊎◌, ◌++◌, Bool, true, false, none, List, ◌∷◌}
use tlpi_exercises.Acl.{Text, Tag, mask, Perms, Entry}
use tlpi_exercises.Acl.Granted.{AfterAll}
use tlpi_exercises.Acl.Library.{CallFails, LibAcl, Has}
use tlpi_exercises.Acl.Update.{Operation}

-- The mask is left out where it is computed.
abbrev pub Counts : Bool → Tag → Type 0
Counts recalc_mask t = recalc_mask ≡ true → t ≢ mask

module _ {Os Acl : Type 0} (lib : LibAcl Os Acl) (file : Text) (use_default_acl : Bool)
    (operation : Operation) (recalc_mask : Bool) where
  -- The ACL of the file is what the entries of the list, one after the other, make of it.
  abbrev pub Updated : List Entry → Os → Os → Type 0
  Updated aclist o o' =
      (t : Tag) (q : ℕ) (p : Perms)
      → Counts recalc_mask t
      → lib.stored o' file use_default_acl t q p
        ↔ AfterAll operation aclist (lib.stored o file use_default_acl) t q p

  -- The ACL grants what the entries of the list make of the ACL of the file.
  abbrev pub Makes : List Entry → Os → Acl → Type 0
  Makes aclist o c =
      (t : Tag) (q : ℕ) (p : Perms)
      → Counts recalc_mask t
      → Has lib c t q p ↔ AfterAll operation aclist (lib.stored o file use_default_acl) t q p

  -- The ACL is not valid, or the file does not take it.
  abbrev pub Rejects : Acl → Type 0
  Rejects c = (lib.valid c ≡ false) ⊎ ((o1 : Os) × (lib.set_file o1 file use_default_acl c ≡ none))

  -- Why the loop exits: a call on an entry fails, or the ACL that the entries up to one of the list
  -- make is rejected.
  pub data Stopped (aclist : List Entry) (o : Os) : Type 0 where
    call_failed : CallFails lib → Stopped aclist o
    rejected :
        (ace : Entry) (more left : List Entry) (c : Acl)
        → aclist ≡ (ace ∷ more) ++ left
        → Makes (ace ∷ more) o c
        → Rejects c
        → Stopped aclist o

  -- Why `updateACL` exits.
  pub data Exits (aclist : List Entry) (o : Os) : Type 0 where
    not_read : lib.get_file o file use_default_acl ≡ none → Exits aclist o
    in_loop : Stopped aclist o → Exits aclist o
    not_freed : (o' : Os) (a : Acl) → Updated aclist o o' → lib.free_acl a ≡ false → Exits aclist o
