-- ===== src/GetNum/Accept.antt =====
-- Which arguments `getInt` takes.
use mathlib.Core.Path.{subst}
use tlpi_exercises.Base.{
  ℕ, ◌≡◌, ◌≢◌, refl, ◌∙◌, sym, ap, inl, inr, Bool-cases, ◌⊎◌, ◌↔◌, Bool, true, false, not, ◌&&◌,
  Option, none, some, List, [], ◌∷◌, arith, ◌<◌, ◌^◌, if◌then◌else◌,
}
use tlpi_exercises.GetNum.{
  ℤ, pos, negsuc, Number, gives, exits, Reason, out_of_range, Conversion, gn_nonneg, gn_gt_0,
  has_flag, base_of, is_negative, is_positive, exceeds_int, at_end, check_num, get_num, get_int,
}

-- The tests that a conversion passes.
pub record Passes (flags : ℕ) (r : Conversion) (z : ℤ) : Type 0 where
  pub value : r.res ≡ z
  pub no_error : r.errno ≡ 0
  pub whole : r.endptr ≡ []
  pub nonneg : has_flag flags gn_nonneg ≡ true → is_negative z ≡ false
  pub positive : has_flag flags gn_gt_0 ≡ true → is_positive z ≡ true

-- The values of an `int`.
abbrev pub InInt : ℤ → Type 0
InInt (pos n) = n < 2 ^ 31
InInt (negsuc n) = n < 2 ^ 31

and_false : (b : Bool) → (b && false) ≡ false
and_false true = refl
and_false false = refl

Number-cases : (n : Number) → ((w : ℤ) × (n ≡ gives w)) ⊎ ((why : Reason) × (n ≡ exits why))
Number-cases (gives w) = inl (w, refl)
Number-cases (exits why) = inr (why, refl)

gives-injective : (w z : ℤ) → gives w ≡ gives z → w ≡ z
gives-injective w z e = cc

at_end-nil : (s : List ℕ) → at_end s ≡ true → s ≡ []
at_end-nil [] e = refl
at_end-nil (c ∷ s) e = absurd (cc)

module _ (strtol : List ℕ → ℕ → Conversion) where
  check_num-Passes :
      (flags : ℕ) (r : Conversion) (z : ℤ) → check_num strtol flags r ≡ gives z → Passes flags r z
  unfolding check_num
  check_num-Passes flags r z e = record {
    value = grind arith;
    no_error = grind arith;
    whole = at_end-nil r.endptr (grind arith);
    nonneg = λ h. grind arith;
    positive = λ h. grind arith;
  }

  Passes-check_num :
      (flags : ℕ) (r : Conversion) (z : ℤ) → Passes flags r z → check_num strtol flags r ≡ gives z
  unfolding check_num
  Passes-check_num flags r z p =
      let a = p.value in
      let b = p.no_error in
      let c = p.whole in
      let d : (has_flag flags gn_nonneg && is_negative r.res) ≡ false =
        rw (a) (elim (Bool-cases (has_flag flags gn_nonneg)) [
          | inl h ↦ rw (p.nonneg h) (and_false (has_flag flags gn_nonneg))
          | inr h ↦ rw (h) refl
        ]) in
      let f : (has_flag flags gn_gt_0 && not (is_positive r.res)) ≡ false =
        rw (a) (elim (Bool-cases (has_flag flags gn_gt_0)) [
          | inl h ↦ rw (p.positive h) (and_false (has_flag flags gn_gt_0))
          | inr h ↦ rw (h) refl
        ]) in
      rw (b, c, d, f) (ap (λ (x : ℤ). gives x) a)

  exceeds_int-InInt : (z : ℤ) → exceeds_int z ≡ false → InInt z
  exceeds_int-InInt (pos n) e = ground arith
  exceeds_int-InInt (negsuc n) e = ground arith

  InInt-exceeds_int : (z : ℤ) → InInt z → exceeds_int z ≡ false
  InInt-exceeds_int (pos n) e = ground arith
  InInt-exceeds_int (negsuc n) e = ground arith

  get_int-exits :
      (arg : Option (List ℕ)) (flags : ℕ) (why : Reason)
      → get_num strtol arg flags ≡ exits why
      → get_int strtol arg flags ≡ exits why
  unfolding get_int
  get_int-exits arg flags why e = rw (get_int, e) refl

  get_int-range :
      (arg : Option (List ℕ)) (flags : ℕ) (w : ℤ)
      → get_num strtol arg flags ≡ gives w
      → get_int strtol arg flags ≡ (if exceeds_int w then exits out_of_range else gives w)
  unfolding get_int
  get_int-range arg flags w e = rw (get_int, e) refl

  get_int-gives :
      (arg : Option (List ℕ)) (flags : ℕ) (z : ℤ)
      → get_int strtol arg flags ≡ gives z
      → (get_num strtol arg flags ≡ gives z) × InInt z
  get_int-gives arg flags z e = elim (Number-cases (get_num strtol arg flags)) [
    | inl (w, h) ↦
        let r = get_int-range arg flags w h in
        elim (Bool-cases (exceeds_int w)) [
          | inl x ↦ absurd (cc)
          | inr x ↦
              let is : w ≡ z = gives-injective w z (rw (x) refl ∙ sym r ∙ e) in
              (
                h ∙ ap (λ (k : ℤ). gives k) is,
                subst (λ (k : ℤ). InInt k) is (exceeds_int-InInt w x),
              )
        ]
    | inr (why, h) ↦ let r = get_int-exits arg flags why h in absurd (cc)
  ]

  get_num-given :
      (t : List ℕ) (flags : ℕ)
      → t ≢ []
      → get_num strtol (some t) flags ≡ check_num strtol flags (strtol t (base_of flags))
  unfolding get_num
  get_num-given [] flags n = absurd (n refl)
  get_num-given (c ∷ s) flags n = refl

  given :
      (arg : Option (List ℕ)) (flags : ℕ) (z : ℤ)
      → get_num strtol arg flags ≡ gives z
      → (t : List ℕ) × (arg ≡ some t) × (t ≢ [])
  unfolding get_num
  given none flags z e = absurd (cc)
  given (some []) flags z e = absurd (cc)
  given (some (c ∷ s)) flags z e = (c ∷ s, refl, λ h. cc)

  -- `getInt` returns a number exactly where the argument is there and not empty, strtol(3) in the
  -- base of the flags reads all of it without an error, the number is in the range of an `int`, not
  -- negative if the flags ask for that, and positive if they ask for that. Otherwise the program
  -- exits.
  pub get_int_iff :
      (arg : Option (List ℕ)) (flags : ℕ) (z : ℤ)
      → (get_int strtol arg flags ≡ gives z) ↔ (
          (t : List ℕ) × (arg ≡ some t)
          × (t ≢ [])
          × Passes flags (strtol t (base_of flags)) z
          × InInt z)
  get_int_iff arg flags z = (
    λ e.
        let (n, range) = get_int-gives arg flags z e in
        let (t, is, ne) = given arg flags z n in
        (
          t,
          is,
          ne,
          check_num-Passes flags (strtol t (base_of flags)) z
              (sym (get_num-given t flags ne) ∙ ap (λ a. get_num strtol a flags) (sym is) ∙ n),
          range,
        ),
    λ (t, is, ne, passes, range).
        let n =
          ap (λ a. get_num strtol a flags) is
          ∙ get_num-given t flags ne
          ∙ Passes-check_num flags (strtol t (base_of flags)) z passes in
        get_int-range arg flags z n ∙ rw (InInt-exceeds_int z range) refl,
  )
