-- ===== src/GetNum.antt =====
-- tlpi-dist/lib/get_num.c: the numbers on the command line. strtol(3) is the parameter `strtol`. A
-- call of `gnFail` prints and exits: `exits`, with the reason that it prints. A `long` has 64 bits.
pub mod Accept
use tlpi_exercises.Base.{
  ℕ, zero, suc, ◌+◌, ◌-◌, ◌*◌, ◌/◌, ◌%◌, ◌^◌, Bool, true, false, not, ◌&&◌, ◌||◌, Option, none,
  some, List, [], ◌∷◌, ltb, leb, ◌==◌, if◌then◌else◌,
}

-- `negsuc n` is -1 - n.
pub data ℤ : Type 0 where
  pos : ℕ → ℤ
  negsuc : ℕ → ℤ

pub data Reason : Type 0 where
  null_or_empty : Reason
  strtol_failed : Reason
  nonnumeric_characters : Reason
  negative_value : Reason
  not_positive : Reason
  out_of_range : Reason

pub data Number : Type 0 where
  gives : ℤ → Number
  exits : Reason → Number

-- What strtol(3) leaves: its result, the text from `endptr` on, and `errno`.
pub record Conversion : Type 0 where
  pub res : ℤ
  pub endptr : List ℕ
  pub errno : ℕ

-- `GN_NONNEG`, `GN_GT_0`, `GN_ANY_BASE`, `GN_BASE_8`, `GN_BASE_16`, as the bits of the flags
abbrev pub gn_nonneg : ℕ
gn_nonneg = 1

abbrev pub gn_gt_0 : ℕ
gn_gt_0 = 2

abbrev pub gn_any_base : ℕ
gn_any_base = 64

abbrev pub gn_base_8 : ℕ
gn_base_8 = 128

abbrev pub gn_base_16 : ℕ
gn_base_16 = 256

-- `flags & bit`, for a `bit` that is a power of two
unfoldable pub has_flag : ℕ → ℕ → Bool
has_flag flags bit = (flags / bit) % 2 == 1

unfoldable pub base_of : ℕ → ℕ
base_of flags =
    if has_flag flags gn_any_base
    then 0
    else if has_flag flags gn_base_8
    then 8
    else if has_flag flags gn_base_16
    then 16
    else 10

abbrev pub is_negative : ℤ → Bool
is_negative (pos n) = false
is_negative (negsuc n) = true

abbrev pub is_positive : ℤ → Bool
is_positive (pos n) = ltb 0 n
is_positive (negsuc n) = false

-- `res > INT_MAX || res < INT_MIN`
abbrev pub exceeds_int : ℤ → Bool
exceeds_int (pos n) = ltb (2 ^ 31 - 1) n
exceeds_int (negsuc n) = ltb (2 ^ 31 - 1) n

abbrev pub at_end : List ℕ → Bool
at_end [] = true
at_end (c ∷ s) = false

module _ (strtol : List ℕ → ℕ → Conversion) where
  -- the tests of the result
  unfoldable pub check_num : ℕ → Conversion → Number
  check_num flags r =
      if not (r.errno == 0)
      then exits strtol_failed
      else if not (at_end r.endptr)
      then exits nonnumeric_characters
      else if has_flag flags gn_nonneg && is_negative r.res
      then exits negative_value
      else if has_flag flags gn_gt_0 && not (is_positive r.res)
      then exits not_positive
      else gives r.res

  unfoldable pub get_num : Option (List ℕ) → ℕ → Number
  get_num none flags = exits null_or_empty
  get_num (some []) flags = exits null_or_empty
  get_num (some (c ∷ s)) flags = check_num flags (strtol (c ∷ s) (base_of flags))

  unfoldable get_long : Option (List ℕ) → ℕ → Number
  get_long arg flags = get_num arg flags

  unfoldable pub get_int : Option (List ℕ) → ℕ → Number
  get_int arg flags = elim (get_num arg flags) [
    | exits why ↦ exits why
    | gives res ↦ if exceeds_int res then exits out_of_range else gives res
  ]
