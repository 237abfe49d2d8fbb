-- ===== src/Examples/Arguments.antt =====
-- tlpi-dist/lib/get_num.c over a conversion that reads unsigned decimal digits.
use tlpi_exercises.Base.{
  ℕ, ◌+◌, ◌-◌, ◌*◌, ◌≡◌, ◌≢◌, ◌↔◌, refl, List, [], ◌∷◌, some, ◌&&◌, leb, if◌then◌else◌,
}
use tlpi_exercises.GetNum.{
  pos, gives, exits, not_positive, nonnumeric_characters, out_of_range, Conversion, gn_gt_0,
  has_flag, base_of, check_num, get_num, get_int,
}
use tlpi_exercises.GetNum.Accept.{Passes, InInt, get_int_iff}

unfoldable pub digits : ℕ → List ℕ → Conversion
digits n [] = record { res = pos n; endptr = []; errno = 0 }
digits n (c ∷ s) =
    let rest = digits (n * 10 + (c - 48)) s in
    if leb 48 c && leb c 57 then rest else record { res = pos n; endptr = c ∷ s; errno = 0 }

unfoldable pub decimal : List ℕ → ℕ → Conversion
decimal s base = digits 0 s

forty_two : get_int decimal (some (b'4' ∷ b'2' ∷ [])) gn_gt_0 ≡ gives (pos 42)
unfolding get_int get_num check_num has_flag decimal digits
forty_two = refl

zero_is_not_positive : get_int decimal (some (b'0' ∷ [])) gn_gt_0 ≡ exits not_positive
unfolding get_int get_num check_num has_flag decimal digits
zero_is_not_positive = refl

not_a_number : get_int decimal (some (b'4' ∷ b'x' ∷ [])) 0 ≡ exits nonnumeric_characters
unfolding get_int get_num check_num has_flag decimal digits
not_a_number = refl

two_to_31 :
    get_int decimal
      (some (b'2' ∷ b'1' ∷ b'4' ∷ b'7' ∷ b'4' ∷ b'8' ∷ b'3' ∷ b'6' ∷ b'4' ∷ b'8' ∷ []))
      0
    ≡ exits out_of_range
unfolding get_int get_num check_num has_flag decimal digits
two_to_31 = refl

get_int_iff_example : (get_int decimal (some (b'4' ∷ b'2' ∷ [])) gn_gt_0 ≡ gives (pos 42)) ↔ (
    (t : List ℕ) × (some (b'4' ∷ b'2' ∷ []) ≡ some t)
    × (t ≢ [])
    × Passes gn_gt_0 (decimal t (base_of gn_gt_0)) (pos 42)
    × InInt (pos 42))
get_int_iff_example = get_int_iff decimal (some (b'4' ∷ b'2' ∷ [])) gn_gt_0 (pos 42)
