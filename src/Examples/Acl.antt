-- ===== src/Examples/Acl.antt =====
-- tlpi-dist/acl/acl_update.c over files with no names, where strtol(3) reads unsigned decimal digits.
use tlpi_exercises.Base.{
  ℕ, ◌≡◌, refl, true, false, Option, none, some, List, [], ◌∷◌, same_text, arith,
}
use tlpi_exercises.Examples.Arguments.{digits, decimal}
use tlpi_exercises.Acl.Checks.{ListFits, parse_acl-ends}
use tlpi_exercises.Acl.Print.{Item, print_acl, entry}
use tlpi_exercises.Acl.RoundTrip.{parse_acl-print}
use tlpi_exercises.Acl.{
  Text, user, mask, Entry, id_from_name, cut, starts_qual, is_given, tag_of, entry_of, parse_rest,
  parse_entry_spec, parse_loop, parse_acl,
}

no_file : Text → Option ℕ
no_file s = none

abbrev id : Text → ℕ
id s = id_from_name decimal no_file (some s)

abbrev two_to_32 : Text
two_to_32 = b'4' ∷ b'2' ∷ b'9' ∷ b'4' ∷ b'9' ∷ b'6' ∷ b'7' ∷ b'2' ∷ b'9' ∷ b'6' ∷ []

root_by_wrap : id two_to_32 ≡ 0
unfolding id_from_name digits decimal
root_by_wrap = refl

-- "user:7:rw-,mask::r--"
abbrev item : Item
item = record {
  kind = user;
  name = b'7' ∷ [];
  id = 7;
  allowed = record { read = true; write = true; execute = false };
}

abbrev mask_item : Item
mask_item = record {
  kind = mask;
  name = [];
  id = 0;
  allowed = record { read = true; write = false; execute = false };
}

parse_acl-print_example :
    parse_acl id id 2 true (print_acl item (mask_item ∷ []))
    ≡ some (some (entry item ∷ entry mask_item ∷ []))
unfolding id_from_name digits decimal
parse_acl-print_example =
    parse_acl-print id id item (mask_item ∷ [])
      (((λ e. ground arith), refl, refl, refl, (λ e. omega arith)), ((refl, refl), tt))
      (omega arith)

-- "u::" where permissions must not be given
abbrev own : Text
own = b'u' ∷ b':' ∷ b':' ∷ []

parse_acl-ends_example :
    (res : Option (List Entry)) × (parse_acl id id 4 false own ≡ some res)
    × ((es : List Entry) → res ≡ some es → ListFits false 0 es)
parse_acl-ends_example = parse_acl-ends id id 4 false own (omega arith)

bad_tag : parse_acl id id 6 true (b'x' ∷ b':' ∷ b':' ∷ b'r' ∷ []) ≡ some none
unfolding parse_acl parse_loop parse_entry_spec cut parse_rest starts_qual is_given same_text tag_of
    entry_of
bad_tag = refl
