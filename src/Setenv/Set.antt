-- ===== src/Setenv/Set.antt =====
-- What `xsetenv` does to a variable that is there already.
use tlpi_exercises.Base.{
  ℕ, suc, ◌≡◌, ◌≢◌, ◌<◌, ◌≤◌, refl, ◌∙◌, ap, inl, inr, Bool-cases, true, false, Option, none, some,
  List, [], ◌∷◌, ◌++◌, arith, ◌+◌, if◌then◌else◌, has, length, take, ltb, ltb_of_lt,
}
use tlpi_exercises.Setenv.{
  Ptr, Text, equals, Env, Outcome, null_access, success, starts, bad_name, put_text, after_equals,
  write_at, Libc, over, replace, search_loop, set, xsetenv,
}

-- The first string that begins with the name.
unfoldable pub first_entry : Text → List Ptr → (Ptr → Text) → Option Ptr
first_entry name [] f = none
first_entry name (p ∷ ps) f =
    let rest = first_entry name ps f in if starts name (f p) then some p else rest

bad_name-valid : (name : Text) → has equals name ≡ false → name ≢ [] → bad_name (some name) ≡ false
unfolding bad_name
bad_name-valid [] h n = absurd (n refl)
bad_name-valid (c ∷ name) h n = h

-- an entry splits at its first '='
after_equals-entry :
    (name v : Text) → has equals name ≡ false → after_equals (name ++ equals ∷ v) ≡ some v
unfolding after_equals
after_equals-entry [] v h = refl
after_equals-entry (c ∷ name) v h = ground (arith, after_equals-entry name v)

-- a name that is longer, in an entry
after_equals-longer :
    (name more v : Text) (ch : ℕ)
    → has equals (name ++ ch ∷ more) ≡ false
    → after_equals (name ++ ch ∷ (more ++ equals ∷ v)) ≡ some v
unfolding after_equals
after_equals-longer [] more v ch h = ground (arith, after_equals-entry more v)
after_equals-longer (c ∷ name) more v ch h = ground (arith, after_equals-longer name more v ch)

-- all but the name and one more character is replaced
take-suc_name :
    (name rest value : Text) (ch : ℕ)
    → take (suc (length name)) (name ++ ch ∷ rest) ++ value ≡ name ++ ch ∷ value
take-suc_name [] rest value ch = refl
take-suc_name (c ∷ name) rest value ch = ap (λ (t : Text). c ∷ t) (take-suc_name name rest value ch)

take-name :
    (name rest value : Text) (ch : ℕ)
    → take (length name + 1) (name ++ ch ∷ rest) ++ value ≡ name ++ ch ∷ value
take-name name rest value ch =
    let one : length name + 1 ≡ suc (length name) = omega arith in
    rw (one) (take-suc_name name rest value ch)

ltb_of_le : (a b : ℕ) → b ≤ a → ltb a b ≡ false
ltb_of_le a b h = ground arith

module _ (c : Libc) where
  open c use {getenv}

  search_loop-first :
      (done ps : List Ptr) (name value : Text) (e : Env) (p : Ptr)
      → first_entry name ps e.text ≡ some p
      → (before : List Ptr) × (rest : List Ptr) × (search_loop c done ps name value e
          ≡ replace c before p rest name value e)
  unfolding first_entry search_loop
  search_loop-first done [] name value e p h = absurd (cc)
  search_loop-first done (q ∷ ps) name value e p h = elim (Bool-cases (starts name (e.text q))) [
    | inl s ↦
        let same : q ≡ p = ground arith in
        (done, ps, rw (s) (ap (λ x. replace c done x ps name value e) same))
    | inr s ↦
        let (before, rest, l) =
          search_loop-first (done ++ q ∷ []) ps name value e p (ground arith) in
        (before, rest, rw (s) l)
  ]

  replace-shorter :
      (before rest : List Ptr) (name value old : Text) (e : Env) (p : Ptr)
      → after_equals (e.text p) ≡ some old
      → length value < length old
      → replace c before p rest name value e
        ≡ over (success (record e { text = write_at p (length name + 1) value e.text }))
  unfolding replace
  replace-shorter before rest name value old e p a l =
      rw (replace, a, ltb_of_lt (length value) (length old) l) refl

  replace-null_access :
      (before rest : List Ptr) (name value old : Text) (e : Env) (p : Ptr)
      → after_equals (e.text p) ≡ some old
      → length old ≤ length value
      → e.env_list ≡ none
      → replace c before p rest name value e ≡ over null_access
  unfolding replace
  replace-null_access before rest name value old e p a l n =
      rw (replace, a, ltb_of_le (length value) (length old) l, n) refl

  -- `xsetenv` with an old value to overwrite is the search
  xsetenv-over :
      (name value : Text) (e : Env) (o : Outcome)
      → has equals name ≡ false
      → name ≢ []
      → getenv e name ≡ true
      → search_loop c [] e.environ name value e ≡ over o
      → xsetenv c (some name) value true e ≡ o
  unfolding xsetenv set
  xsetenv-over name value e o h n g s = rw (bad_name-valid name h n, g, s) refl

  xsetenv-shorter :
      (name value rest old : Text) (ch : ℕ) (e : Env) (p : Ptr)
      → has equals name ≡ false
      → name ≢ []
      → getenv e name ≡ true
      → first_entry name e.environ e.text ≡ some p
      → e.text p ≡ name ++ ch ∷ rest
      → after_equals (e.text p) ≡ some old
      → length value < length old
      → xsetenv c (some name) value true e
        ≡ success (record e { text = put_text p (name ++ ch ∷ value) e.text })
  unfolding write_at
  xsetenv-shorter name value rest old ch e p h n g f t a l =
      let (before, after, s) = search_loop-first [] e.environ name value e p f in
      xsetenv-over name value e _ h n g (s ∙ replace-shorter before after name value old e p a l)
      ∙ ap (λ (x : Text). success (record e { text = put_text p x e.text }))
          (ap (λ (x : Text). take (length name + 1) x ++ value) t ∙ take-name name rest value ch)

  -- Where the variable is there, may be overwritten, and its old value is longer than the new one,
  -- `xsetenv` returns 0 and the first string of the environment that begins with the name holds
  -- the name, '=' and the new value, if it held the name, '=' and the old value. Nothing else
  -- changes.
  pub xsetenv-in_place :
      (name value old : Text) (e : Env) (p : Ptr)
      → has equals name ≡ false
      → name ≢ []
      → getenv e name ≡ true
      → first_entry name e.environ e.text ≡ some p
      → e.text p ≡ name ++ equals ∷ old
      → length value < length old
      → xsetenv c (some name) value true e
        ≡ success (record e { text = put_text p (name ++ equals ∷ value) e.text })
  xsetenv-in_place name value old e p h n g f t l =
      xsetenv-shorter name value old old equals e p h n g f t
        (ap after_equals t ∙ after_equals-entry name old h) l

  -- Where the variable is there, may be overwritten, and its old value is not longer than the new
  -- one, and `xsetenv` has not made a variable yet, the call reads through the null pointer
  -- `EnvList`.
  pub xsetenv-null_access :
      (name value old : Text) (e : Env) (p : Ptr)
      → has equals name ≡ false
      → name ≢ []
      → getenv e name ≡ true
      → first_entry name e.environ e.text ≡ some p
      → e.text p ≡ name ++ equals ∷ old
      → length old ≤ length value
      → e.env_list ≡ none
      → xsetenv c (some name) value true e ≡ null_access
  xsetenv-null_access name value old e p h n g f t l en =
      let (before, after, s) = search_loop-first [] e.environ name value e p f in
      xsetenv-over name value e null_access h n g (
        s
        ∙ replace-null_access before after name value old e p
            (ap after_equals t ∙ after_equals-entry name old h) l en)

  -- Where the variable is there and may be overwritten, but the first string of the environment
  -- that begins with the name is an entry of a variable with a longer name, and the old value of
  -- that variable is longer than the new one, `xsetenv` returns 0 and has changed that string and
  -- nothing else: it keeps of the longer name one character more than the name, and the new value
  -- follows at once.
  pub xsetenv-other_variable :
      (name value more old : Text) (ch : ℕ) (e : Env) (p : Ptr)
      → has equals name ≡ false
      → name ≢ []
      → getenv e name ≡ true
      → first_entry name e.environ e.text ≡ some p
      → has equals (name ++ ch ∷ more) ≡ false
      → e.text p ≡ name ++ ch ∷ (more ++ equals ∷ old)
      → length value < length old
      → xsetenv c (some name) value true e
        ≡ success (record e { text = put_text p (name ++ ch ∷ value) e.text })
  xsetenv-other_variable name value more old ch e p h n g f o t l =
      xsetenv-shorter name value (more ++ equals ∷ old) old ch e p h n g f t
        (ap after_equals t ∙ after_equals-longer name more old ch o) l
