-- ===== src/Proctree/Entries.antt =====
-- tlpi-solutions/ex12-2/proctree.c: the entries of the array, after some processes have their links.
use mathlib.Core.Path.{subst}
use tlpi_exercises.Base.{
  ℕ, zero, suc, ◌*◌, ◌≤◌, ◌<◌, ◌≡◌, ◌≢◌, refl, sym, ap, ◌∙◌, inl, inr, Bool, true, false, not, ◌&&◌,
  Bool-cases, Option, none, some, List, [], ◌∷◌, ◌++◌, ◌==◌, if◌then◌else◌, arith,
}
use tlpi_exercises.Proctree.{Tree, Built, returns, returns_null, assert_failed, invalid_write}
use tlpi_exercises.Proctree.Linking.{first, Joined, equal_of_test}

-- The process has a parent in the tree: it is neither the init process nor one of the kernel's.
abbrev pub is_child : (ℕ → ℕ) → (ℕ → ℕ) → ℕ → Bool
is_child pid ppid k = not (pid k == 1) && not (ppid k == 0)

-- The processes below `i` whose parent has the id `of`, in order.
abbrev pub kids : (ℕ → ℕ) → (ℕ → ℕ) → ℕ → ℕ → List ℕ
kids pid ppid of zero = []
kids pid ppid of (suc i) =
    if is_child pid ppid i && (ppid i == of)
    then kids pid ppid of i ++ (i ∷ [])
    else kids pid ppid of i

pub apart_of_test : (k i : ℕ) → (k == i) ≡ false → k ≢ i
apart_of_test k i h e = ground arith

module _ (pid ppid : ℕ → ℕ) (n : ℕ) where
  -- The entry at `k`, after the processes below `i` have their links.
  pub record Node (t : Tree) (i k : ℕ) : Type 0 where
    pub listed : first (t.children k) (t.nr_child k) ≡ kids pid ppid (pid k) i
    pub few : t.nr_child k ≤ i
    pub fits : t.nr_child k ≤ t.max_child k
    pub sized : t.room k ≡ 8 * t.max_child k
    pub positive : 0 < t.max_child k
    pub has_parent :
        k < i
        → is_child pid ppid k ≡ true
        → (j : ℕ) × (j < n) × (pid j ≡ ppid k) × (t.parent k ≡ some j)
    pub no_parent : is_child pid ppid k ≡ false → t.parent k ≡ none

  abbrev pub Upto : Tree → ℕ → Type 0
  Upto t i = (k : ℕ) → k < n → Node t i k

  abbrev pub IsRoot : Option ℕ → ℕ → Type 0
  IsRoot none i = (k : ℕ) → k < i → pid k ≢ 1
  IsRoot (some r) i = (r < i) × (pid r ≡ 1)

  kids-skips :
      (of i : ℕ)
      → (is_child pid ppid i && (ppid i == of)) ≡ false
      → kids pid ppid of (suc i) ≡ kids pid ppid of i
  kids-skips of i e =
      ap (λ (b : Bool). if b then kids pid ppid of i ++ (i ∷ []) else kids pid ppid of i) e

  kids-adds :
      (of i : ℕ)
      → (is_child pid ppid i && (ppid i == of)) ≡ true
      → kids pid ppid of (suc i) ≡ kids pid ppid of i ++ (i ∷ [])
  kids-adds of i e =
      ap (λ (b : Bool). if b then kids pid ppid of i ++ (i ∷ []) else kids pid ppid of i) e

  Node-next :
      (t t' : Tree) (i k : ℕ)
      → Node t i k
      → (is_child pid ppid i && (ppid i == pid k)) ≡ false
      → t'.children k ≡ t.children k
      → t'.nr_child k ≡ t.nr_child k
      → t'.max_child k ≡ t.max_child k
      → t'.room k ≡ t.room k
      → (k < suc i
          → is_child pid ppid k ≡ true
          → (j : ℕ) × (j < n) × (pid j ≡ ppid k) × (t'.parent k ≡ some j))
      → (is_child pid ppid k ≡ false → t'.parent k ≡ none)
      → Node t' (suc i) k
  Node-next t t' i k node skip e_children e_nr e_max e_room some_parent none_parent = record {
    listed =
        ap (λ f. first f (t'.nr_child k)) e_children
        ∙ ap (first (t.children k)) e_nr
        ∙ node.listed
        ∙ sym (kids-skips (pid k) i skip);
    few = let l = node.few in omega arith;
    fits = let l = node.fits in omega arith;
    sized = let l = node.sized in omega arith;
    positive = let l = node.positive in omega arith;
    has_parent = some_parent;
    no_parent = none_parent;
  }

  unlike : (i k : ℕ) → is_child pid ppid i ≡ false → is_child pid ppid k ≡ true → k ≢ i
  unlike i k h g e = let same = ap (is_child pid ppid) e in cc

  pub Upto-skips :
      (t : Tree) (i : ℕ) (parent : ℕ → Option ℕ)
      → Upto t i
      → is_child pid ppid i ≡ false
      → ((k : ℕ) → k ≢ i → parent k ≡ t.parent k)
      → parent i ≡ none
      → Upto (record t { parent = parent }) (suc i)
  Upto-skips t i parent upto not_child same none_here k l =
      let node = upto k l in
      let fails = ap (λ b. b && (ppid i == pid k)) not_child in
      Node-next t (record t { parent = parent }) i k node fails refl refl refl refl
        (λ less child.
          let ne = unlike i k not_child child in
          let (j, below, e, p) = node.has_parent (omega arith) child in
          (j, below, e, same k ne ∙ p))
        (λ other. elim (Bool-cases (k == i)) [
          | inl at ↦ let e = equal_of_test k i at in ap parent e ∙ none_here
          | inr apart ↦ same k (apart_of_test k i apart) ∙ node.no_parent other
        ])

  tests : (b : Bool) (x y : ℕ) → b ≡ true → x ≡ y → (b && (x == y)) ≡ true
  tests b x y h e = ground arith

  tests_not : (b : Bool) (x y : ℕ) → x ≢ y → (b && (x == y)) ≡ false
  tests_not b x y ne = ground arith

  pub Upto-joins :
      (t t' : Tree) (i parent : ℕ)
      → ((k j : ℕ) → k < n → j < n → pid k ≡ pid j → k ≡ j)
      → Upto t i
      → i < n
      → is_child pid ppid i ≡ true
      → parent < n
      → pid parent ≡ ppid i
      → Joined t t' parent i
      → Upto t' (suc i)
  Upto-joins t t' i parent distinct upto below child has same joined k l =
      let node = upto k l in
      let some_parent : k < suc i
          → is_child pid ppid k ≡ true
          → (j : ℕ) × (j < n) × (pid j ≡ ppid k) × (t'.parent k ≡ some j) =
        λ less c. elim (Bool-cases (k == i)) [
          | inl at ↦
              let e = equal_of_test k i at in
              (parent, has, same ∙ ap ppid (sym e), ap t'.parent e ∙ joined.its_parent)
          | inr apart ↦
              let ne = apart_of_test k i apart in
              let (j, b, e, p) = node.has_parent (omega arith) c in
              (j, b, e, joined.other_parents k ne ∙ p)
        ] in
      let none_parent : is_child pid ppid k ≡ false → t'.parent k ≡ none = λ other.
        joined.other_parents k (λ e. unlike k i other child (sym e)) ∙ node.no_parent other in
      elim (Bool-cases (k == parent)) [
        | inl at ↦
            let e = equal_of_test k parent at in
            let here = subst (λ p. Joined t t' p i) (sym e) joined in
            let adds =
              tests (is_child pid ppid i) (ppid i) (pid k) child (sym same ∙ ap pid (sym e)) in
            let counted = here.counted in
            let fits = here.fits in
            record {
              listed =
                  here.listed
                  ∙ ap (λ x. x ++ (i ∷ [])) node.listed
                  ∙ sym (kids-adds (pid k) i adds);
              few = let l = node.few in omega arith;
              fits = fits;
              sized = here.sized;
              positive = omega arith;
              has_parent = some_parent;
              no_parent = none_parent;
            }
        | inr apart ↦
            let ne = apart_of_test k parent apart in
            let skips =
              tests_not (is_child pid ppid i) (ppid i) (pid k)
                (λ e. ne (distinct k parent l has (sym e ∙ sym same))) in
            let (e_children, e_nr, e_max, e_room) = joined.others k ne in
            Node-next t t' i k node skips e_children e_nr e_max e_room some_parent none_parent
      ]

module _ (pid ppid : ℕ → ℕ) (n : ℕ) {Os : Type 0} (realloc : Os → ℕ → Bool × Os) where
  -- The tree has the links of all processes, or realloc(3) has failed.
  abbrev pub IsTree : Built Os → Type 0
  IsTree (returns root t o) = Upto pid ppid n t n × IsRoot pid ppid n root n
  IsTree (returns_null t o) = (o1 : Os) × (size : ℕ) × ((realloc o1 size).0 ≡ false)
  IsTree assert_failed = true ≡ false
  IsTree invalid_write = true ≡ false
