-- ===== src/Examples/Access.antt =====
-- tlpi-dist/acl/acl_update.c over a small library, with one ACL for all files.
use tlpi_exercises.Acl.Library.{Item}
use tlpi_exercises.Acl.Update.{modify_entries, update_acl}
use tlpi_exercises.Acl.Updating.{parsed-Updated}
use tlpi_exercises.Acl.Outcome.{Exits}
use tlpi_exercises.Acl.Settling.{Settles}
use tlpi_exercises.Acl.{
  Text, user_obj, user, group_obj, Perms, Entry, parse_acl, parse_loop, parse_entry_spec, cut,
  parse_rest, starts_qual, is_given, tag_of, entry_of, qual_of, perms_of, parse_perms,
}
use tlpi_exercises.Base.{
  ℕ, ◌≡◌, ◌↔◌, refl, Bool, true, false, some, [], ◌∷◌, ◌==◌, if◌then◌else◌, arith, same_text,
}
use tlpi_exercises.Examples.Store.{Store, store_lib, store_lib-IsLibAcl}

-- The ACL of a file grants rw- to the owner and r-- to the group, and "u:7:rx" is to be added.
abbrev may : Bool → Bool → Bool → Perms
may r w x = record { read = r; write = w; execute = x }

abbrev items_before : ℕ → Item
items_before k =
    if k == 1
    then record { tag = user_obj; qual = 0; perms = may true true false }
    else record { tag = group_obj; qual = 0; perms = may true false false }

abbrev before : Store
before = record { handles = 1 ∷ 2 ∷ []; later = []; items = items_before }

abbrev spec : Text
spec = b'u' ∷ b':' ∷ b'7' ∷ b':' ∷ b'r' ∷ b'x' ∷ []

abbrev file : Text
file = b'f' ∷ []

abbrev added : Entry
added = record { tag = user; qual = 7; perms = some (may true false true) }

parsed : parse_acl (λ s. 7) (λ s. 7) 7 true spec ≡ some (some (added ∷ []))
unfolding parse_acl parse_loop parse_entry_spec cut parse_rest starts_qual is_given same_text tag_of
    entry_of qual_of perms_of parse_perms
parsed = refl

parsed-Updated_example :
    Settles
      (Exits store_lib file false modify_entries true (added ∷ []) before)
      (λ k. update_acl store_lib file false modify_entries true k (added ∷ []) before)
      (λ o.
        store_lib.stored o file false user 7 (may true false true)
        ↔ (some (may true false true) ≡ some (may true false true)))
parsed-Updated_example =
    parsed-Updated store_lib store_lib-IsLibAcl file false modify_entries true (λ s. 7) (λ s. 7) 7
      spec (added ∷ []) (omega arith) parsed before user 7 (may true false true)
      (λ e f. absurd (cc))
