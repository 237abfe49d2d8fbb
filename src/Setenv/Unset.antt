-- ===== src/Setenv/Unset.antt =====
-- What `xunsetenv` does to the variables of the environment.
use tlpi_exercises.Base.{
  ◌≡◌, ◌≢◌, refl, sym, ◌∙◌, ap, inl, inr, Bool-cases, Option-cases, true, false, ◌&&◌, Option, none,
  some, List, [], ◌∷◌, arith, ◌==◌, if◌then◌else◌, has,
}
use tlpi_exercises.Setenv.{
  Ptr, Text, equals, Env, success, starts, bad_name, put_text, unset_loop, unset, xunsetenv,
}

-- The value in an entry `name=value`, and that of the first such entry, as `getenv` finds it.
unfoldable pub entry_value : Text → Text → Option Text
entry_value [] [] = none
entry_value [] (b ∷ s) = if b == equals then some s else none
entry_value (c ∷ name) [] = none
entry_value (c ∷ name) (b ∷ s) = if b == c then entry_value name s else none

unfoldable pub value_of : Text → List Ptr → (Ptr → Text) → Option Text
value_of name [] f = none
value_of name (p ∷ ps) f = elim (entry_value name (f p)) [
  | some v ↦ some v
  | none ↦ value_of name ps f
]

-- Each string of the environment that begins with the name becomes empty, and no other string
-- changes.
unset_loop-text :
    (name : Text) (ps : List Ptr) (f : Ptr → Text) (q : Ptr)
    → unset_loop name ps f q ≡ (if has q ps && starts name (f q) then [] else f q)
unfolding unset_loop
unset_loop-text name [] f q = refl
unset_loop-text name (p ∷ ps) f q =
    ground (arith, unset_loop-text name ps (if starts name (f p) then put_text p [] f else f) q)

-- An entry of a variable begins with a name that has no '=' exactly where the variable's name does.
starts-entry :
    (name other s v : Text)
    → has equals name ≡ false
    → entry_value other s ≡ some v
    → starts name s ≡ starts name other
unfolding starts entry_value
starts-entry [] other s v h e = refl
starts-entry (c ∷ name) [] [] v h e = refl
starts-entry (c ∷ name) [] (b ∷ s) v h e = ground arith
starts-entry (c ∷ name) (d ∷ other) [] v h e = absurd (cc)
starts-entry (c ∷ name) (d ∷ other) (b ∷ s) v h e = ground (arith, starts-entry name other s v)

entry_value-nil : (name : Text) → entry_value name [] ≡ none
unfolding entry_value
entry_value-nil [] = refl
entry_value-nil (c ∷ name) = refl

erased-none :
    (name other : Text) (all : List Ptr) (f : Ptr → Text) (p : Ptr)
    → has p all ≡ true
    → entry_value other (f p) ≡ none
    → entry_value other (unset_loop name all f p) ≡ none
erased-none name other all f p here e =
    let e0 = entry_value-nil other in
    elim (Bool-cases (starts name (f p))) [
      | inl s ↦ rw (unset_loop-text name all f p, here, s) e0
      | inr s ↦ rw (unset_loop-text name all f p, here, s) e
    ]

erased-some :
    (name other : Text) (all : List Ptr) (f : Ptr → Text) (p : Ptr) (v : Text)
    → has equals name ≡ false
    → has p all ≡ true
    → entry_value other (f p) ≡ some v
    → entry_value other (unset_loop name all f p) ≡ (if starts name other then none else some v)
erased-some name other all f p v h here e =
    let e0 = entry_value-nil other in
    let st = starts-entry name other (f p) v h e in
    elim (Bool-cases (starts name other)) [
      | inl s ↦ rw (unset_loop-text name all f p, here, st, s) e0
      | inr s ↦ rw (unset_loop-text name all f p, here, st, s) e
    ]

value_of-none :
    (name : Text) (p : Ptr) (ps : List Ptr) (f : Ptr → Text)
    → entry_value name (f p) ≡ none
    → value_of name (p ∷ ps) f ≡ value_of name ps f
unfolding value_of
value_of-none name p ps f e = rw (value_of, e) refl

value_of-some :
    (name : Text) (p : Ptr) (ps : List Ptr) (f : Ptr → Text) (v : Text)
    → entry_value name (f p) ≡ some v
    → value_of name (p ∷ ps) f ≡ some v
unfolding value_of
value_of-some name p ps f v e = rw (value_of, e) refl

value_of-nil : (name : Text) (f : Ptr → Text) → value_of name [] f ≡ none
unfolding value_of
value_of-nil name f = refl

value_of-erased :
    (name other : Text) (all ps : List Ptr) (f : Ptr → Text)
    → has equals name ≡ false
    → ((q : Ptr) → has q ps ≡ true → has q all ≡ true)
    → value_of other ps (unset_loop name all f)
      ≡ (if starts name other then none else value_of other ps f)
value_of-erased name other all [] f h sub =
    ground (arith, value_of-nil other f, value_of-nil other (unset_loop name all f))
value_of-erased name other all (p ∷ ps) f h sub =
    let ih = value_of-erased name other all ps f h (λ q m. sub q (ground arith)) in
    let here = sub p (ground arith) in
    let g = unset_loop name all f in
    elim (Option-cases (entry_value other (f p))) [
      | inl e ↦
          value_of-none other p ps g (erased-none name other all f p here e)
          ∙ ih
          ∙ sym (
              ap (λ (o : Option Text). if starts name other then none else o)
                (value_of-none other p ps f e))
      | inr (v, e) ↦
          let es = erased-some name other all f p v h here e in
          elim (Bool-cases (starts name other)) [
            | inl s ↦ value_of-none other p ps g (es ∙ rw (s) refl) ∙ ih ∙ rw (s) refl
            | inr s ↦
                value_of-some other p ps g v (es ∙ rw (s) refl)
                ∙ sym (value_of-some other p ps f v e)
                ∙ rw (s) refl
          ]
    ]

-- After `xunsetenv` of a name that is not empty and has no '=', no variable whose own name begins
-- with that name has a value, and every other variable has the value that it had. The call returns
-- 0, and nothing but the strings changes.
pub xunsetenv-value :
    (name other : Text) (e : Env)
    → has equals name ≡ false
    → name ≢ []
    → (e1 : Env) × (xunsetenv (some name) e ≡ success e1)
      × (e1 ≡ record e { text = e1.text })
      × (value_of other e1.environ e1.text
          ≡ (if starts name other then none else value_of other e.environ e.text))
unfolding xunsetenv bad_name unset
xunsetenv-value [] other e h n = absurd (n refl)
xunsetenv-value (c ∷ name) other e h n = (
  unset (c ∷ name) e,
  rw (h) refl,
  refl,
  value_of-erased (c ∷ name) other e.environ e.environ e.text h (λ q m. m),
)
