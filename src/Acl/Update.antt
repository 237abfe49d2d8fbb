-- ===== src/Acl/Update.antt =====
-- tlpi-dist/acl/acl_update.c: `findEntry`, `setPerms` and `updateACL`, over libacl.
use tlpi_exercises.Base.{
  ℕ, zero, suc, Bool, true, false, not, Option, none, some, List, [], ◌∷◌, ◌==◌, if◌then◌else◌,
}
use tlpi_exercises.Acl.{Text, Tag, Perms, Entry}
use tlpi_exercises.Acl.Library.{
  fetched, no_more, not_fetched, Perm, acl_read, acl_write, acl_execute, value, has_qualifier,
  LibAcl,
}

-- A call of `errExit` ends the program. `not_given` is a read of permissions that were not given.
pub data Run (A : Type 0) : Type 0 where
  gives : A → Run A
  exits : Run A
  not_given : Run A
  out_of_fuel : Run A

infixl 5 ◌>>=◌
abbrev pub ◌>>=◌ : {A B : Type 0} → Run A → (A → Run B) → Run B
gives a >>= f = f a
exits >>= f = exits
not_given >>= f = not_given
out_of_fuel >>= f = out_of_fuel

-- `errExit` where a call fails
abbrev pub need : {A : Type 0} → Option A → Run A
need none = exits
need (some a) = gives a

abbrev pub given : Option Perms → Run Perms
given none = not_given
given (some perms) = gives perms

-- `modifyEntries` and `removeEntries`
pub data Operation : Type 0 where
  modify_entries : Operation
  remove_entries : Operation

module _ {Os Acl : Type 0} (lib : LibAcl Os Acl) where
  -- the tests of one entry
  unfoldable pub is_entry : Acl → Tag → ℕ → ℕ → Run Bool
  is_entry a tag qual entry = need (lib.get_tag_type a entry) >>= λ entry_tag.
      if not (value tag == value entry_tag)
      then gives false
      else if has_qualifier tag
      then (need (lib.get_qualifier a entry) >>= λ id.
          if lib.free_qualifier a id then gives (qual == id) else exits)
      else gives true

  -- `first` is ACL_FIRST_ENTRY, and then ACL_NEXT_ENTRY.
  unfoldable pub find_loop : ℕ → Bool → Acl → Tag → ℕ → Run (Option ℕ × Acl)
  find_loop zero first acl tag qual = out_of_fuel
  find_loop (suc fuel) first acl tag qual =
      let (s, a) = lib.get_entry acl first in
      elim s [
        | not_fetched ↦ exits
        | no_more ↦ gives (none, a)
        | fetched entry ↦ is_entry a tag qual entry >>= λ found. elim found [
          | true ↦ gives (some entry, a)
          | false ↦ find_loop fuel false a tag qual
        ]
      ]

  unfoldable pub find_entry : ℕ → Acl → Tag → ℕ → Run (Option ℕ × Acl)
  find_entry fuel acl tag qual = find_loop fuel true acl tag qual

  unfoldable pub add_if : Bool → Acl → ℕ → Perm → Run Acl
  add_if given acl permset perm = if given then need (lib.add_perm acl permset perm) else gives acl

  unfoldable pub set_perms : Acl → ℕ → Perms → Run Acl
  set_perms acl entry perms = need (lib.get_permset acl entry) >>= λ permset.
      need (lib.clear_perms acl permset) >>= λ a. add_if perms.read a permset acl_read >>= λ b.
      add_if perms.write b permset acl_write >>= λ c.
      add_if perms.execute c permset acl_execute >>= λ d. need (lib.set_permset d entry permset)

  -- a new entry with the tag and the qualifier
  unfoldable pub make_entry : Acl → Tag → ℕ → Run (ℕ × Acl)
  make_entry acl tag qual = need (lib.create_entry acl) >>= λ (entry, a).
      need (lib.set_tag_type a entry tag) >>= λ b.
      if has_qualifier tag
      then (need (lib.set_qualifier b entry qual) >>= λ c. gives (entry, c))
      else gives (entry, b)

  unfoldable pub apply_entry : Operation → Option ℕ → Acl → Entry → Run Acl
  apply_entry remove_entries none acl ace = gives acl
  apply_entry remove_entries (some entry) acl ace = need (lib.delete_entry acl entry)
  apply_entry modify_entries none acl ace = make_entry acl ace.tag ace.qual >>= λ (entry, a).
      given ace.perms >>= λ perms. set_perms a entry perms
  apply_entry modify_entries (some entry) acl ace =
      given ace.perms >>= λ perms. set_perms acl entry perms

  module _ (file : Text) (use_default_acl : Bool) (operation : Operation) (recalc_mask : Bool) where
    -- Each round sets the ACL of the file.
    unfoldable pub update_round : ℕ → Acl → Entry → Os → Run (Acl × Os)
    update_round fuel acl ace o = find_entry fuel acl ace.tag ace.qual >>= λ (found, a).
        apply_entry operation found a ace >>= λ b.
        (if recalc_mask then need (lib.calc_mask b) else gives b) >>= λ c.
        if not (lib.valid c)
        then exits
        else (need (lib.set_file o file use_default_acl c) >>= λ o1. gives (c, o1))

    unfoldable pub update_loop : ℕ → Acl → List Entry → Os → Run (Acl × Os)
    update_loop fuel acl [] o = gives (acl, o)
    update_loop fuel acl (ace ∷ aclist) o =
        update_round fuel acl ace o >>= λ (a, o1). update_loop fuel a aclist o1

    unfoldable pub update_acl : ℕ → List Entry → Os → Run Os
    update_acl fuel aclist o = need (lib.get_file o file use_default_acl) >>= λ acl.
        update_loop fuel acl aclist o >>= λ (a, o1). if lib.free_acl a then gives o1 else exits
