-- ===== src/Examples/Environment.antt =====
-- tlpi-solutions/ex06-3/setenv.c over a small C library.
use tlpi_exercises.Base.{
  ◌≡◌, refl, true, false, Option, none, some, List, [], ◌∷◌, ◌++◌, arith, ◌==◌, if◌then◌else◌,
}
use tlpi_exercises.Setenv.{
  Ptr, Text, equals, Env, Outcome, returned, null_access, success, starts, bad_name, put_text,
  unset_loop, unset, xunsetenv, Libc, prepare_list, grow_list, add_entry, new_entry, set, xsetenv,
}
use tlpi_exercises.Setenv.Set.{first_entry, xsetenv-in_place, xsetenv-other_variable}
use tlpi_exercises.Setenv.Unset.{entry_value, value_of, xunsetenv-value}

-- Every variable is found as `value_of` does, `putenv` adds the entry at the end, and every
-- allocation is at the same fresh address.
abbrev small_libc : Libc
small_libc = record {
  getenv = λ e name. elim (value_of name e.environ e.text) [ none ↦ false | some v ↦ true ];
  putenv = λ e p. (false, record e { environ = e.environ ++ p ∷ [] });
  malloc = λ e n. (some 900, e);
  realloc = λ e p n. (some 901, e);
}

abbrev foo : Text
foo = b'F' ∷ b'O' ∷ b'O' ∷ []

abbrev foobar : Text
foobar = foo ++ b'B' ∷ b'A' ∷ b'R' ∷ []

-- FOOBAR=123 at 10, and FOO=12 at 20
abbrev two_texts : Ptr → Text
two_texts p =
    if p == 10
    then foobar ++ equals ∷ b'1' ∷ b'2' ∷ b'3' ∷ []
    else if p == 20
    then foo ++ equals ∷ b'1' ∷ b'2' ∷ []
    else []

abbrev env_of : List Ptr → Env
env_of ps = record {
  environ = ps;
  text = two_texts;
  env_list = none;
  env_list_at = 0;
  next_env_var = 0;
  env_list_capacity = 1024;
  errno = 0;
}

-- What a variable is after a call.
abbrev value_after : Outcome → Text → Option Text
value_after (returned ok e) name = value_of name e.environ e.text
value_after null_access name = none

unset_foo : value_after (xunsetenv (some foo) (env_of (10 ∷ 20 ∷ []))) foo ≡ none
unfolding xunsetenv bad_name unset unset_loop starts value_of entry_value
unset_foo = refl

xunsetenv-value_example :
    (e1 : Env) × (xunsetenv (some foo) (env_of (10 ∷ 20 ∷ [])) ≡ success e1)
    × (e1 ≡ record (env_of (10 ∷ 20 ∷ [])) { text = e1.text })
    × (value_of foobar e1.environ e1.text
        ≡ (if starts foo foobar then none else value_of foobar (10 ∷ 20 ∷ []) two_texts))
xunsetenv-value_example = xunsetenv-value foo foobar (env_of (10 ∷ 20 ∷ [])) refl (λ e. cc)

-- FOO is overwritten where it comes first
xsetenv-in_place_example :
    xsetenv small_libc (some foo) (b'7' ∷ []) true (env_of (20 ∷ 10 ∷ []))
    ≡ success (record (env_of (20 ∷ 10 ∷ [])) {
      text = put_text 20 (foo ++ equals ∷ b'7' ∷ []) two_texts;
    })
unfolding value_of first_entry starts entry_value
xsetenv-in_place_example =
    xsetenv-in_place small_libc foo (b'7' ∷ []) (b'1' ∷ b'2' ∷ []) (env_of (20 ∷ 10 ∷ [])) 20 refl
      (λ e. cc) refl refl refl (omega arith)

xsetenv-other_variable_example :
    xsetenv small_libc (some foo) (b'7' ∷ []) true (env_of (10 ∷ 20 ∷ []))
    ≡ success
        (record (env_of (10 ∷ 20 ∷ [])) { text = put_text 10 (foo ++ b'B' ∷ b'7' ∷ []) two_texts })
unfolding value_of first_entry starts entry_value
xsetenv-other_variable_example =
    xsetenv-other_variable small_libc foo (b'7' ∷ []) (b'A' ∷ b'R' ∷ []) (b'1' ∷ b'2' ∷ b'3' ∷ [])
      b'B' (env_of (10 ∷ 20 ∷ [])) 10 refl (λ e. cc) refl refl refl refl (omega arith)

-- a new variable
set_new :
    value_after (xsetenv small_libc (some foobar) (b'9' ∷ []) false (env_of (20 ∷ []))) foobar
    ≡ some (b'9' ∷ [])
unfolding xsetenv bad_name set new_entry prepare_list grow_list add_entry value_of entry_value
set_new = refl
