-- ===== src/Acl/Ids.antt =====
-- tlpi-dist/users_groups/ugid_functions.c: `userIdFromName` on numbers.
use tlpi_exercises.Base.{ℕ, ◌+◌, ◌*◌, ◌^◌, ◌≡◌, arith, Option, some, [], ◌∷◌}
use tlpi_exercises.GetNum.{pos, Conversion}
use tlpi_exercises.Acl.{Text, id_from_name}

-- Numbers are cut to 32 bits without a test: where strtol(3) reads all of two texts, as `n` and as
-- `n + k * 2 ^ 32`, both give the same ID.
pub id_from_name-wraps :
    (strtol : Text → ℕ → Conversion) (search_file : Text → Option ℕ) (b : ℕ) (s : Text) (c : ℕ)
    (t : Text) (n k : ℕ)
    → (strtol (b ∷ s) 10).endptr ≡ []
    → (strtol (b ∷ s) 10).res ≡ pos n
    → (strtol (c ∷ t) 10).endptr ≡ []
    → (strtol (c ∷ t) 10).res ≡ pos (n + k * 2 ^ 32)
    → id_from_name strtol search_file (some (c ∷ t))
      ≡ id_from_name strtol search_file (some (b ∷ s))
unfolding id_from_name
id_from_name-wraps strtol search_file b s c t n k eb vb ec vc = rw (eb, vb, ec, vc) (omega arith)
