-- ===== src/Proctree/Building.antt =====
-- tlpi-solutions/ex12-2/proctree.c: the whole tree, against the processes that name each as their parent.
use mathlib.Core.Option.{some-injective}
use mathlib.Core.Path.{subst}
use tlpi_exercises.Base.{
  ℕ, zero, suc, ◌+◌, ◌*◌, ◌<◌, ◌^◌, ◌≡◌, refl, sym, ap, ◌∙◌, inl, inr, Bool, true, false, not, ◌&&◌,
  Bool-cases, Option-cases, Option, none, some, ◌==◌, arith,
}
use tlpi_exercises.Proctree.{
  Tree, Linked, linked, no_memory, overrun, Built, and_then, proc_cmp, Bsearch, IsBsearch,
  IsOrdered, link, build_loop, proctree_build_tree, child_max,
}
use tlpi_exercises.Proctree.Linking.{
  first, Joined, Made, link-Made, either, equal_of_test, set-at, set-beside,
}
use tlpi_exercises.Proctree.Compare.{
  cmp_zero, cmp_same, cmp_negative, cmp_less, cmp_positive, cmp_greater,
}
use tlpi_exercises.Proctree.Entries.{
  IsTree, is_child, Upto, IsRoot, Upto-skips, Upto-joins, apart_of_test,
}

at_some {ℓ} :
    {A B : Type 0} (P : B → Type ℓ) (x : B) (f : A → B) (o : Option A) (a : A)
    → o ≡ some a
    → P (f a)
    → P (elim o [ none ↦ x | some b ↦ f b ])
at_some P x f none a e p = absurd (cc)
at_some P x f (some b) a e p = subst (λ c. P (f c)) (sym (some-injective _ _ e)) p

not_init : (pid ppid : ℕ → ℕ) (i : ℕ) → (pid i == 1) ≡ true → is_child pid ppid i ≡ false
not_init pid ppid i h = ap (λ b. not b && not (ppid i == 0)) h

not_kernel : (b c : Bool) → c ≡ true → (not b && not c) ≡ false
not_kernel true c h = refl
not_kernel false c h = ap not h

child_of : (b c : Bool) → b ≡ false → c ≡ false → (not b && not c) ≡ true
child_of b c h g = ap (λ x. not x && not c) h ∙ ap not g

-- No process names one that the array does not hold, and the ids ascend.
pub record IsSorted (pid ppid : ℕ → ℕ) (n : ℕ) : Type 0 where
  pub ascending : (i j : ℕ) → i < j → j < n → pid i < pid j
  pub known : (i : ℕ) → i < n → is_child pid ppid i ≡ true → (j : ℕ) × (j < n) × (pid j ≡ ppid i)

-- a new entry, as `main` makes it
pub record IsFresh (t : Tree) (k : ℕ) : Type 0 where
  pub no_parent : t.parent k ≡ none
  pub no_child : t.nr_child k ≡ 0
  pub max_child : t.max_child k ≡ child_max
  pub room : t.room k ≡ 8 * child_max

module _ (pid ppid : ℕ → ℕ) (n : ℕ) (sorted : IsSorted pid ppid n) where
  distinct : (k j : ℕ) → k < n → j < n → pid k ≡ pid j → k ≡ j
  distinct k j l m e =
      let forth = sorted.ascending k j in let back = sorted.ascending j k in ground arith

  ordered : (key : ℕ) → IsOrdered (λ k. proc_cmp key (pid k)) n
  ordered key i j l m =
      let up = sorted.ascending i j l m in
      (
        λ h. let c = cmp_negative key (pid i) h in cmp_less key (pid j) (omega arith),
        λ h. let c = cmp_positive key (pid j) h in cmp_greater key (pid i) (omega arith),
      )

  fresh-Upto : (t : Tree) → ((k : ℕ) → k < n → IsFresh t k) → Upto pid ppid n t 0
  fresh-Upto t fresh k l =
      let f = fresh k l in
      let zero_child = f.no_child in
      let max_child = f.max_child in
      let room = f.room in
      record {
        listed = ap (first (t.children k)) zero_child;
        few = omega arith;
        fits = omega arith;
        sized = omega arith;
        positive = omega arith;
        has_parent = λ less c. absurd (omega arith);
        no_parent = λ c. f.no_parent;
      }

  module _ {Os : Type 0} (realloc : Os → ℕ → Bool × Os) (bsearch : Bsearch)
      (law : IsBsearch bsearch) (bounded : n < 2 ^ 59) where
    search :
        (i : ℕ)
        → i < n
        → is_child pid ppid i ≡ true
        → (j : ℕ) × (bsearch (λ k. proc_cmp (ppid i) (pid k)) n ≡ some j)
          × (j < n)
          × (pid j ≡ ppid i)
    search i l child = elim (Option-cases (bsearch (λ k. proc_cmp (ppid i) (pid k)) n)) [
      | inl e ↦
          let (j, below, same) = sorted.known i l child in
          absurd (
            law.missed (λ k. proc_cmp (ppid i) (pid k)) n (ordered (ppid i)) e j below
              (cmp_same _ _ (sym same)))
      | inr (j, e) ↦
          let (below, same) = law.found (λ k. proc_cmp (ppid i) (pid k)) n j (ordered (ppid i)) e in
          (j, e, below, sym (cmp_zero _ _ same))
    ]

    IsRoot-next :
        (root : Option ℕ) (i : ℕ)
        → IsRoot pid ppid n root i
        → (pid i == 1) ≡ false
        → IsRoot pid ppid n root (suc i)
    IsRoot-next none i r h = λ k l. elim (Bool-cases (k == i)) [
      | inl at ↦
          let e = equal_of_test k i at in
          let ne = apart_of_test (pid i) 1 h in λ g. ne (ap pid (sym e) ∙ g)
      | inr apart ↦ let ne = apart_of_test k i apart in r k (omega arith)
    ]
    IsRoot-next (some j) i r h = let l = r.0 in (omega arith, r.1)

    -- The rest of the loop behind the links.
    and_then-IsTree :
        (t : Tree) (i parent : ℕ) (l : Linked Os) (rest : Tree → Os → Built Os)
        → ((t1 : Tree) (o1 : Os) → Joined t t1 parent i → IsTree pid ppid n realloc (rest t1 o1))
        → Made realloc t parent i l
        → IsTree pid ppid n realloc (and_then l rest)
    and_then-IsTree t i parent (linked t1 o1) rest f made = f t1 o1 made
    and_then-IsTree t i parent (no_memory t1 o1) rest f made = made
    and_then-IsTree t i parent overrun rest f made = made

    build_loop-IsTree :
        (rounds i : ℕ) (root : Option ℕ) (t : Tree) (o : Os)
        → rounds + i ≡ n
        → Upto pid ppid n t i
        → IsRoot pid ppid n root i
        → IsTree pid ppid n realloc (build_loop realloc bsearch pid ppid n rounds i root t o)
    unfolding build_loop
    build_loop-IsTree zero i root t o e upto r =
        let at : i ≡ n = omega arith in
        (subst (Upto pid ppid n t) at upto, subst (IsRoot pid ppid n root) at r)
    build_loop-IsTree (suc rounds) i root t o e upto r =
        let below : i < n = omega arith in
        let left : rounds + suc i ≡ n = omega arith in
        either (IsTree pid ppid n realloc) (pid i == 1)
          (λ h.
            build_loop-IsTree rounds (suc i) (some i) _ o left
              (Upto-skips pid ppid n t i _ upto (not_init pid ppid i h)
                (λ k ne. set-beside t.parent i none k ne) (set-at t.parent i none))
              (omega arith, equal_of_test _ _ h))
          (λ h.
            let root_next = IsRoot-next root i r h in
            either (IsTree pid ppid n realloc) (ppid i == 0)
              (λ g.
                let other = not_kernel (pid i == 1) (ppid i == 0) g in
                build_loop-IsTree rounds (suc i) root t o left
                  (Upto-skips pid ppid n t i t.parent upto other (λ k ne. refl)
                    ((upto i below).no_parent other))
                  root_next)
              (λ g.
                let child = child_of (pid i == 1) (ppid i == 0) h g in
                let (j, found, has, same) = search i below child in
                let node = upto j has in
                let few = node.few in
                at_some (IsTree pid ppid n realloc) _
                  (λ parent.
                    and_then (link realloc t parent i o)
                      (λ t1 o1. build_loop realloc bsearch pid ppid n rounds (suc i) root t1 o1))
                  (bsearch (λ k. proc_cmp (ppid i) (pid k)) n) j found
                  (and_then-IsTree t i j (link realloc t j i o) _
                    (λ t1 o1 joined.
                      build_loop-IsTree rounds (suc i) root t1 o1 left
                        (Upto-joins pid ppid n t t1 i j distinct upto below child has same joined)
                        root_next)
                    (link-Made realloc t j i (omega arith) o node.positive node.fits node.sized))))

    -- For an array of fewer than 2 ^ 59 processes whose ids ascend, none of which names a parent
    -- that the array does not hold, and of new entries, `proctree_build_tree` neither fails its
    -- `assert` nor stores a pointer behind the memory of `children`. It returns `NULL` early only
    -- where realloc(3) has failed. Otherwise each process but the init process and those of the
    -- kernel has the parent that it names, these have none, and the children of each are exactly
    -- the processes that name it, in the order of the array, in memory that holds them; the root is
    -- the init process, if there is one.
    pub proctree_build_tree-IsTree :
        (t : Tree) (o : Os)
        → ((k : ℕ) → k < n → IsFresh t k)
        → IsTree pid ppid n realloc (proctree_build_tree realloc bsearch pid ppid n t o)
    unfolding proctree_build_tree
    proctree_build_tree-IsTree t o fresh =
        build_loop-IsTree n 0 none t o (omega arith) (fresh-Upto t fresh)
          (λ k l. absurd (omega arith))
