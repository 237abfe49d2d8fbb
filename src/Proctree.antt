-- ===== src/Proctree.antt =====
-- tlpi-solutions/ex12-2/proctree.c: `proctree_build_tree`, over an array of processes. A process is its
-- place in the array; `pid` and `ppid` are only read, so they are parameters, and a `Tree` has the other
-- fields, a map for each. `room` is the size of the memory that `children` points to, in bytes, and a
-- pointer takes 8. The ids are numbers below 2 ^ 31. bsearch(3) and realloc(3) are parameters.
pub mod Linking
pub mod Compare
pub mod Entries
pub mod Building
use tlpi_exercises.Base.{
  ℕ, zero, suc, ◌+◌, ◌-◌, ◌*◌, ◌%◌, ◌^◌, ◌<◌, ◌≡◌, ◌≢◌, Bool, true, false, not, Option, none, some,
  ltb, leb, ◌==◌, if◌then◌else◌,
}
use tlpi_exercises.GetNum.{ℤ, pos, negsuc}

-- `CHILD_MAX`
abbrev pub child_max : ℕ
child_max = 10

-- `_proc_cmp`, of two ids
unfoldable pub proc_cmp : ℕ → ℕ → ℤ
proc_cmp x y = if leb y x then pos (x - y) else negsuc (y - x - 1)

abbrev pub set {ℓ} : {A : Type ℓ} → (ℕ → A) → ℕ → A → ℕ → A
set f i v k = if k == i then v else f k

pub record Tree : Type 0 where
  pub parent : ℕ → Option ℕ
  pub children : ℕ → ℕ → ℕ
  pub nr_child : ℕ → ℕ
  pub max_child : ℕ → ℕ
  pub room : ℕ → ℕ

-- What follows the test of the parent: the links are made, or realloc(3) fails. `overrun` is a pointer
-- stored behind the memory of `children`.
pub data Linked (Os : Type 0) : Type 0 where
  linked : Tree → Os → Linked Os
  no_memory : Tree → Os → Linked Os
  overrun : Linked Os

-- The function returns `root`, here `none` for `NULL`; or `NULL` without memory, or it stops.
pub data Built (Os : Type 0) : Type 0 where
  returns : Option ℕ → Tree → Os → Built Os
  returns_null : Tree → Os → Built Os
  assert_failed : Built Os
  invalid_write : Built Os

abbrev pub and_then : {Os : Type 0} → Linked Os → (Tree → Os → Built Os) → Built Os
and_then (linked t o) rest = rest t o
and_then (no_memory t o) rest = returns_null t o
and_then overrun rest = invalid_write

-- bsearch(3) of `n` elements, where `compar i` is the comparison of the key with the one at `i`
abbrev pub Bsearch : Type 0
Bsearch = (ℕ → ℤ) → ℕ → Option ℕ

abbrev pub is_negative : ℤ → Bool
is_negative (pos k) = false
is_negative (negsuc k) = true

abbrev pub is_positive : ℤ → Bool
is_positive (pos zero) = false
is_positive (pos (suc k)) = true
is_positive (negsuc k) = false

-- First the elements that the key is greater than, then those that it is equal to, then the others.
abbrev pub IsOrdered : (ℕ → ℤ) → ℕ → Type 0
IsOrdered compar n =
    (i j : ℕ)
    → i < j
    → j < n
    → (is_negative (compar i) ≡ true → is_negative (compar j) ≡ true)
      × (is_positive (compar j) ≡ true → is_positive (compar i) ≡ true)

pub record IsBsearch (bsearch : Bsearch) : Type 0 where
  pub found :
      (compar : ℕ → ℤ) (n i : ℕ)
      → IsOrdered compar n
      → bsearch compar n ≡ some i
      → (i < n) × (compar i ≡ pos 0)
  pub missed :
      (compar : ℕ → ℤ) (n : ℕ)
      → IsOrdered compar n
      → bsearch compar n ≡ none
      → (i : ℕ) → i < n
      → compar i ≢ pos 0

module _ {Os : Type 0} (realloc : Os → ℕ → Bool × Os) where
  -- `parent->children[parent->nr_child++] = &procs[i]`
  unfoldable pub add_child : Tree → ℕ → ℕ → Os → Linked Os
  add_child t parent i o =
      if ltb (t.room parent) (8 * (t.nr_child parent + 1))
      then overrun
      else linked
          (record t {
            children = set t.children parent (set (t.children parent) (t.nr_child parent) i);
            nr_child = set t.nr_child parent ((t.nr_child parent + 1) % 2 ^ 64);
          })
          o

  -- Expand the children array.
  unfoldable pub expand : Tree → ℕ → ℕ → Os → Linked Os
  expand t parent i o =
      let new_max_child = (t.max_child parent * 2) % 2 ^ 64 in
      let size = (new_max_child * 8) % 2 ^ 64 in
      let (given, o1) = realloc o size in
      if not given
      then no_memory t o1
      else add_child
          (record t {
            max_child = set t.max_child parent new_max_child;
            room = set t.room parent size;
          })
          parent i o1

  -- the links of the process at `i` and of its parent
  unfoldable pub link : Tree → ℕ → ℕ → Os → Linked Os
  link t parent i o =
      let t1 = record t { parent = set t.parent i (some parent) } in
      if t.nr_child parent == t.max_child parent
      then expand t1 parent i o
      else add_child t1 parent i o

  module _ (bsearch : Bsearch) (pid ppid : ℕ → ℕ) (nr_procs : ℕ) where
    -- The rounds of the loop from `i` on, of which `rounds` are left.
    unfoldable pub build_loop : ℕ → ℕ → Option ℕ → Tree → Os → Built Os
    build_loop zero i root t o = returns root t o
    build_loop (suc rounds) i root t o =
        let of_init =
          build_loop rounds (suc i) (some i) (record t { parent = set t.parent i none }) o in
        let of_kernel = build_loop rounds (suc i) root t o in
        if pid i == 1
        then of_init
        else if ppid i == 0
        then of_kernel
        else elim (bsearch (λ k. proc_cmp (ppid i) (pid k)) nr_procs) [
          | none ↦ assert_failed
          | some parent ↦
              and_then (link t parent i o) (λ t1 o1. build_loop rounds (suc i) root t1 o1)
        ]

    unfoldable pub proctree_build_tree : Tree → Os → Built Os
    proctree_build_tree t o = build_loop nr_procs 0 none t o
