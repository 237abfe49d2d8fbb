-- ===== src/Examples/Proctree.antt =====
-- tlpi-solutions/ex12-2/proctree.c with a search from the front, and memory that is always given.
use mathlib.Core.Option.{some-injective}
use tlpi_exercises.Base.{
  ℕ, zero, suc, ◌+◌, ◌*◌, ◌<◌, ◌≡◌, ◌≢◌, refl, sym, ap, ◌∙◌, ◌⊎◌, inl, inr, Bool, true, false,
  Bool-cases, Option, none, some, ◌==◌, if◌then◌else◌, arith,
}
use tlpi_exercises.GetNum.{ℤ, pos, negsuc}
use tlpi_exercises.Proctree.{
  Tree, Built, returns, proc_cmp, Bsearch, IsBsearch, link, add_child, expand, build_loop,
  proctree_build_tree, child_max,
}
use tlpi_exercises.Proctree.Building.{IsSorted, proctree_build_tree-IsTree}
use tlpi_exercises.Proctree.Entries.{IsTree, is_child, apart_of_test}
use tlpi_exercises.Proctree.Linking.{equal_of_test}

abbrev is_zero : ℤ → Bool
is_zero (pos zero) = true
is_zero (pos (suc k)) = false
is_zero (negsuc k) = false

abbrev search : Bsearch
search compar zero = none
search compar (suc n) = elim (search compar n) [
  | some i ↦ some i
  | none ↦ if is_zero (compar n) then some n else none
]

zero_of : (z : ℤ) → is_zero z ≡ true → z ≡ pos 0
zero_of (pos zero) h = refl
zero_of (pos (suc k)) h = absurd (cc)
zero_of (negsuc k) h = absurd (cc)

found_step :
    (o : Option ℕ) (b : Bool) (n i : ℕ)
    → elim o [ some j ↦ some j | none ↦ if b then some n else none ] ≡ some i
    → (o ≡ some i) ⊎ ((b ≡ true) × (i ≡ n))
found_step (some j) b n i e = inl e
found_step none true n i e = inr (refl, sym (some-injective _ _ e))
found_step none false n i e = absurd (cc)

missed_step :
    (o : Option ℕ) (b : Bool) (n : ℕ)
    → elim o [ some j ↦ some j | none ↦ if b then some n else none ] ≡ none
    → (o ≡ none) × (b ≡ false)
missed_step (some j) b n e = absurd (cc)
missed_step none true n e = absurd (cc)
missed_step none false n e = (refl, refl)

search_found : (compar : ℕ → ℤ) (n i : ℕ) → search compar n ≡ some i → (i < n) × (compar i ≡ pos 0)
search_found compar zero i e = absurd (cc)
search_found compar (suc n) i e = elim (found_step (search compar n) (is_zero (compar n)) n i e) [
  | inl before ↦ let (l, z) = search_found compar n i before in (omega arith, z)
  | inr (here, at) ↦ (omega arith, ap compar at ∙ zero_of (compar n) here)
]

not_zero : (z : ℤ) → is_zero z ≡ false → z ≢ pos 0
not_zero z h e = let zero_too = ap is_zero e in cc

search_missed :
    (compar : ℕ → ℤ) (n : ℕ) → search compar n ≡ none → (i : ℕ) → i < n → compar i ≢ pos 0
search_missed compar zero e i l = absurd (omega arith)
search_missed compar (suc n) e i l =
    let (before, here) = missed_step (search compar n) (is_zero (compar n)) n e in
    elim (Bool-cases (i == n)) [
      | inl at ↦ λ z. not_zero (compar n) here (ap compar (sym (equal_of_test i n at)) ∙ z)
      | inr apart ↦
          let ne = apart_of_test i n apart in search_missed compar n before i (omega arith)
    ]

search-IsBsearch : IsBsearch search
search-IsBsearch = record {
  found = λ compar n i o e. search_found compar n i e;
  missed = λ compar n o e. search_missed compar n e;
}

-- The init process has twelve children.
abbrev pid : ℕ → ℕ
pid k = suc k

abbrev ppid : ℕ → ℕ
ppid zero = 0
ppid (suc k) = 1

abbrev fresh : Tree
fresh = record {
  parent = λ k. none;
  children = λ k m. 0;
  nr_child = λ k. 0;
  max_child = λ k. child_max;
  room = λ k. 8 * child_max;
}

named : (i : ℕ) → is_child pid ppid i ≡ true → (j : ℕ) × (j < 13) × (pid j ≡ ppid i)
named zero c = absurd (cc)
named (suc k) c = (0, omega arith, refl)

processes-IsSorted : IsSorted pid ppid 13
processes-IsSorted = record { ascending = λ i j l m. omega arith; known = λ i l c. named i c }

abbrev given : ℕ → ℕ → Bool × ℕ
given o size = (true, o + size)

proctree_build_tree-IsTree_example :
    IsTree pid ppid 13 given (proctree_build_tree given search pid ppid 13 fresh 0)
proctree_build_tree-IsTree_example =
    proctree_build_tree-IsTree pid ppid 13 processes-IsSorted given search search-IsBsearch
      (omega arith) fresh 0
      (λ k l. record { no_parent = refl; no_child = refl; max_child = refl; room = refl })

-- The array of the init process grows once.
abbrev tree_of : {Os : Type 0} → Built Os → Tree
tree_of (returns root t o) = t
tree_of r = fresh

children_of_init :
    let t = tree_of (proctree_build_tree given search pid ppid 13 fresh 0) in
    (t.nr_child 0 ≡ 12) × (t.max_child 0 ≡ 20) × (t.children 0 11 ≡ 12) × (t.parent 12 ≡ some 0)
unfolding proctree_build_tree build_loop link add_child expand proc_cmp
children_of_init = (refl, refl, refl, refl)
