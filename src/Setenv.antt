-- ===== src/Setenv.antt =====
-- tlpi-solutions/ex06-3/setenv.c: `xunsetenv` and `xsetenv`. The strings of the environment are
-- lists of bytes at addresses, without the closing 0. `getenv`, `putenv`, `malloc` and `realloc`
-- are the C library's, a parameter. The address 0 is `NULL`.
pub mod Set
pub mod Unset
use tlpi_exercises.Base.{
  ℕ, zero, suc, ◌+◌, ◌-◌, ◌*◌, ◌%◌, ◌^◌, Bool, true, false, not, ◌&&◌, ◌||◌, Option, none, some,
  List, [], ◌∷◌, ◌++◌, ltb, ◌==◌, if◌then◌else◌, has, length, take, drop,
}

abbrev pub Ptr : Type 0
Ptr = ℕ

abbrev pub Text : Type 0
Text = List ℕ

-- '='
abbrev pub equals : ℕ
equals = b'='

abbrev pub einval : ℕ
einval = 22

abbrev pub enomem : ℕ
enomem = 12

-- The process: `environ` up to its closing `NULL`, the strings, and the static variables of the
-- file. `env_list` is what `EnvList` points to, up to its closing `NULL`, and `env_list_at` its
-- address.
pub record Env : Type 0 where
  pub environ : List Ptr
  pub text : Ptr → Text
  pub env_list : Option (List Ptr)
  pub env_list_at : Ptr
  pub next_env_var : ℕ
  pub env_list_capacity : ℕ
  pub errno : ℕ

-- A call returns an `int`, or reads through `NULL`.
pub data Outcome : Type 0 where
  returned : Bool → Env → Outcome
  null_access : Outcome

-- `returned true` is 0 and `returned false` is -1.
abbrev pub success : Env → Outcome
success e = returned true e

abbrev pub failure : Env → Outcome
failure e = returned false e

-- `!strncmp(s, name, strlen(name))`
unfoldable pub starts : Text → Text → Bool
starts [] s = true
starts (c ∷ name) [] = false
starts (c ∷ name) (b ∷ s) = b == c && starts name s

-- `!name || !strlen(name) || strchr(name, '=')`, where `none` is `NULL`
unfoldable pub bad_name : Option Text → Bool
bad_name none = true
bad_name (some []) = true
bad_name (some (c ∷ name)) = has equals (c ∷ name)

abbrev pub put_text : Ptr → Text → (Ptr → Text) → Ptr → Text
put_text p t f q = if q == p then t else f q

-- the strings that begin with the name become empty
unfoldable pub unset_loop : Text → List Ptr → (Ptr → Text) → Ptr → Text
unset_loop name [] f = f
unset_loop name (p ∷ ps) f = unset_loop name ps (if starts name (f p) then put_text p [] f else f)

unfoldable pub unset : Text → Env → Env
unset name e = record e { text = unset_loop name e.environ e.text }

unfoldable pub xunsetenv : Option Text → Env → Outcome
xunsetenv none e = failure (record e { errno = einval })
xunsetenv (some name) e =
    if bad_name (some name) then failure (record e { errno = einval }) else success (unset name e)

-- `strchr(s, '=') + 1`
unfoldable pub after_equals : Text → Option Text
after_equals [] = none
after_equals (b ∷ s) = if b == equals then some s else after_equals s

-- `strcpy(p + n, value)`
unfoldable pub write_at : Ptr → ℕ → Text → (Ptr → Text) → Ptr → Text
write_at p n value f = put_text p (take n (f p) ++ value) f

-- an entry of an array set
unfoldable pub set_first : Ptr → Ptr → List Ptr → List Ptr
set_first p q [] = []
set_first p q (x ∷ xs) = if x == p then q ∷ xs else x ∷ set_first p q xs

-- `realloc` hands the old text on to the new address, which the model leaves to it.
pub record Libc : Type 0 where
  pub getenv : Env → Text → Bool
  pub putenv : Env → Ptr → Bool × Env
  pub malloc : Env → ℕ → Option Ptr × Env
  pub realloc : Env → Ptr → ℕ → Option Ptr × Env

-- What the search for an old entry comes to: the call is over, or a new entry is made.
pub data Search : Type 0 where
  over : Outcome → Search
  make_new : Env → Search

module _ (c : Libc) where
  open c use {getenv, putenv, malloc, realloc}

  -- the entry `p`, at the place after `done`, was allocated here: make it larger
  unfoldable pub enlarge : List Ptr → Ptr → List Ptr → List Ptr → Text → Text → Env → Outcome
  enlarge done p rest list name value e =
      let (got, e1) = realloc e p (length name + length value + 2) in
      elim got [
        | none ↦ failure (record e1 { environ = done; errno = enomem })
        | some q ↦
            let e2 : Env = record e1 {
              environ = done ++ q ∷ rest;
              env_list = some (set_first p q list);
              text = write_at q (length name + 1) value e1.text;
            } in
            success (putenv e2 q).1
      ]

  unfoldable pub replace : List Ptr → Ptr → List Ptr → Text → Text → Env → Search
  replace done p rest name value e = elim (after_equals (e.text p)) [
    | none ↦ over null_access
    | some existing_value ↦
        if ltb (length value) (length existing_value)
        then over (success (record e { text = write_at p (length name + 1) value e.text }))
        else elim e.env_list [
          | none ↦ over null_access
          | some list ↦
              if has p list
              then over (enlarge done p rest list name value e)
              else make_new (unset name e)
        ]
  ]

  -- `done` are the entries before, `ps` those from `ep` on
  unfoldable pub search_loop : List Ptr → List Ptr → Text → Text → Env → Search
  search_loop done [] name value e = make_new e
  search_loop done (p ∷ ps) name value e =
      let next = search_loop (done ++ p ∷ []) ps name value e in
      if starts name (e.text p) then replace done p ps name value e else next

  -- `EnvList` is there, or is allocated now; `false` is the return of -1.
  unfoldable pub prepare_list : Env → Bool × Env
  prepare_list e = elim e.env_list [
    | some list ↦ (true, e)
    | none ↦
        let (got, e1) = malloc e (e.env_list_capacity * 8) in
        elim got [
          | none ↦ (false, record e1 { errno = enomem })
          | some p ↦ (true, record e1 { env_list = some []; env_list_at = p; next_env_var = 0 })
        ]
  ]

  -- The array is full: twice the capacity. Where `realloc` fails `EnvList` is `NULL` afterwards.
  unfoldable pub grow_list : Env → Bool × Env
  grow_list e =
      if e.next_env_var == e.env_list_capacity - 1
      then (let capacity = (e.env_list_capacity * 2) % 2 ^ 64 in
          let (got, e1) =
            realloc (record e { env_list_capacity = capacity }) e.env_list_at (capacity * 8) in
          elim got [
            | none ↦ (false, record e1 { env_list = none; errno = enomem })
            | some p ↦ (true, record e1 { env_list_at = p })
          ])
      else (true, e)

  -- the string `name=value` at its new address, on the list and in the environment
  unfoldable pub add_entry : Ptr → Text → Text → Env → Outcome
  add_entry p name value e = elim e.env_list [
    | none ↦ null_access
    | some list ↦
        let e1 : Env = record e {
          env_list = some (list ++ p ∷ []);
          next_env_var = e.next_env_var + 1;
          text = put_text p (name ++ equals ∷ value) e.text;
        } in
        let (failed, e2) = putenv e1 p in returned (not failed) e2
  ]

  unfoldable pub new_entry : Text → Text → Env → Outcome
  new_entry name value e =
      let (ready, e1) = prepare_list e in
      if not ready
      then failure e1
      else (let (got, e2) = malloc e1 (length name + length value + 2) in
          elim got [
            | none ↦ failure (record e2 { errno = enomem })
            | some p ↦
                let (room, e3) = grow_list e2 in
                if not room then failure e3 else add_entry p name value e3
          ])

  unfoldable pub set : Text → Text → Bool → Env → Outcome
  set name value overwrite e =
      let exists = getenv e name in
      if exists && not overwrite
      then success e
      else elim (if exists then search_loop [] e.environ name value e else make_new e) [
        | over o ↦ o
        | make_new e1 ↦ new_entry name value e1
      ]

  unfoldable pub xsetenv : Option Text → Text → Bool → Env → Outcome
  xsetenv none value overwrite e = failure (record e { errno = einval })
  xsetenv (some name) value overwrite e =
      if bad_name (some name)
      then failure (record e { errno = einval })
      else set name value overwrite e
