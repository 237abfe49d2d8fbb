-- ===== src/Acl/Cut.antt =====
-- tlpi-dist/acl/acl_update.c: strchr(3) on a text that is put together from parts.
use tlpi_exercises.Base.{
  ℕ, suc, ◌≤◌, ◌≡◌, refl, false, none, some, [], ◌∷◌, ◌++◌, length, has, arith,
}
use tlpi_exercises.Acl.{Text, cut}

pub has-append : (c : ℕ) (s t : Text) → has c s ≡ false → has c t ≡ false → has c (s ++ t) ≡ false
has-append c [] t h k = k
has-append c (b ∷ s) t h k = ground (arith, has-append c s t)

pub cut-append : (c : ℕ) (s t : Text) → has c s ≡ false → cut c (s ++ c ∷ t) ≡ (s, some t)
unfolding cut
cut-append c [] t h = ground arith
cut-append c (b ∷ s) t h = ground (arith, cut-append c s t)

pub cut-none : (c : ℕ) (s : Text) → has c s ≡ false → cut c s ≡ (s, none)
unfolding cut
cut-none c [] h = refl
cut-none c (b ∷ s) h = ground (arith, cut-none c s)

-- what is behind the character is shorter than the text
pub cut-shorter : (c : ℕ) (s t : Text) → (cut c s).1 ≡ some t → suc (length t) ≤ length s
unfolding cut
cut-shorter c [] t h = ground arith
cut-shorter c (b ∷ s) t h = grind (arith, cut-shorter c s t)
