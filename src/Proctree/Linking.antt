-- ===== src/Proctree/Linking.antt =====
-- tlpi-solutions/ex12-2/proctree.c: what the links of one process do to the tree.
use mathlib.Core.Path.{subst}
use tlpi_exercises.Base.{
  ℕ, zero, suc, ◌+◌, ◌*◌, ◌%◌, ◌≤◌, ◌<◌, ◌^◌, ◌≡◌, ◌≢◌, refl, sym, ap, ◌∙◌, Bool, true, false, not,
  some, List, [], ◌∷◌, ◌++◌, ltb, ◌==◌, if◌then◌else◌, arith,
}
use tlpi_exercises.Proctree.{Tree, Linked, linked, no_memory, overrun, set, add_child, expand, link}

-- the first `n` elements of an array
abbrev pub first : (ℕ → ℕ) → ℕ → List ℕ
first f zero = []
first f (suc n) = first f n ++ (f n ∷ [])

pub first-agree : (f g : ℕ → ℕ) (n : ℕ) → ((k : ℕ) → k < n → f k ≡ g k) → first f n ≡ first g n
first-agree f g zero h = refl
first-agree f g (suc n) h =
    let e = first-agree f g n (λ k l. h k (omega arith)) in
    let e' = h n (omega arith) in ap (λ x. x ++ (f n ∷ [])) e ∙ ap (λ x. first g n ++ (x ∷ [])) e'

pub set-at {ℓ} : {A : Type ℓ} (f : ℕ → A) (i : ℕ) (v : A) → set f i v i ≡ v
set-at f i v = ground arith

pub set-beside {ℓ} : {A : Type ℓ} (f : ℕ → A) (i : ℕ) (v : A) (k : ℕ) → k ≢ i → set f i v k ≡ f k
set-beside f i v k ne = ground arith

first-set : (f : ℕ → ℕ) (n v : ℕ) → first (set f n v) (suc n) ≡ first f n ++ (v ∷ [])
first-set f n v =
    ap (λ x. x ++ (set f n v n ∷ []))
      (first-agree (set f n v) f n (λ k l. set-beside f n v k (omega arith)))
    ∙ ap (λ x. first f n ++ (x ∷ [])) (set-at f n v)

-- What the links of the process at `i` change.
pub record Joined (t t' : Tree) (parent i : ℕ) : Type 0 where
  pub listed :
      first (t'.children parent) (t'.nr_child parent)
      ≡ first (t.children parent) (t.nr_child parent) ++ (i ∷ [])
  pub counted : t'.nr_child parent ≡ t.nr_child parent + 1
  pub fits : t'.nr_child parent ≤ t'.max_child parent
  pub sized : t'.room parent ≡ 8 * t'.max_child parent
  pub others :
      (k : ℕ)
      → k ≢ parent
      → (t'.children k ≡ t.children k)
        × (t'.nr_child k ≡ t.nr_child k)
        × (t'.max_child k ≡ t.max_child k)
        × (t'.room k ≡ t.room k)
  pub its_parent : t'.parent i ≡ some parent
  pub other_parents : (k : ℕ) → k ≢ i → t'.parent k ≡ t.parent k

abbrev grown_tree : Tree → ℕ → ℕ → (ℕ → ℕ) → (ℕ → ℕ) → Tree
grown_tree t parent i max_child room = record t {
  parent = set t.parent i (some parent);
  max_child = max_child;
  room = room;
}

abbrev pushed : Tree → ℕ → ℕ → Tree
pushed t parent i = record t {
  children = set t.children parent (set (t.children parent) (t.nr_child parent) i);
  nr_child = set t.nr_child parent ((t.nr_child parent + 1) % 2 ^ 64);
}

small : (n : ℕ) → n < 2 ^ 60 → (n + 1) % 2 ^ 64 ≡ n + 1
small n h = omega arith

enough : (r m n : ℕ) → r ≡ 8 * m → n < m → ltb r (8 * (n + 1)) ≡ false
enough r m n e l = ground arith

module _ (t : Tree) (parent i : ℕ) (max_child room : ℕ → ℕ)
    (below : t.nr_child parent < max_child parent) (sized : room parent ≡ 8 * max_child parent)
    (few : t.nr_child parent < 2 ^ 60) where
  pushed-listed :
      first
        ((pushed (grown_tree t parent i max_child room) parent i).children parent)
        ((pushed (grown_tree t parent i max_child room) parent i).nr_child parent)
      ≡ first (t.children parent) (t.nr_child parent) ++ (i ∷ [])
  pushed-listed =
      let n = t.nr_child parent in
      let next : n + 1 ≡ suc n = omega arith in
      ap (λ x. first x (set t.nr_child parent ((n + 1) % 2 ^ 64) parent))
        (set-at t.children parent (set (t.children parent) n i))
      ∙ ap (first (set (t.children parent) n i))
          (set-at t.nr_child parent ((n + 1) % 2 ^ 64) ∙ small n few ∙ next)
      ∙ first-set (t.children parent) n i

  pushed-Joined :
      ((k : ℕ) → k ≢ parent → (max_child k ≡ t.max_child k) × (room k ≡ t.room k))
      → Joined t (pushed (grown_tree t parent i max_child room) parent i) parent i
  pushed-Joined rest =
      let n = t.nr_child parent in
      let count = set-at t.nr_child parent ((n + 1) % 2 ^ 64) ∙ small n few in
      record {
        listed = pushed-listed;
        counted = count;
        fits = omega arith;
        sized = sized;
        others = λ k ne.
            let (same_max, same_room) = rest k ne in
            (
              set-beside t.children parent _ k ne,
              set-beside t.nr_child parent _ k ne,
              same_max,
              same_room,
            );
        its_parent = set-at t.parent i (some parent);
        other_parents = λ k ne. set-beside t.parent i (some parent) k ne;
      }

  module _ {Os : Type 0} (realloc : Os → ℕ → Bool × Os) where
    add_child-pushed :
        (o : Os)
        → add_child realloc (grown_tree t parent i max_child room) parent i o
          ≡ linked (pushed (grown_tree t parent i max_child room) parent i) o
    unfolding add_child
    add_child-pushed o =
        ap
          (λ (b : Bool).
            if b
            then overrun
            else linked (pushed (grown_tree t parent i max_child room) parent i) o)
          (enough (room parent) (max_child parent) (t.nr_child parent) sized below)

pub either {ℓ κ} :
    {A : Type ℓ} (P : A → Type κ) (b : Bool) {x y : A}
    → (b ≡ true → P x)
    → (b ≡ false → P y)
    → P (if b then x else y)
either P true f g = f refl
either P false f g = g refl

not_given : (b : Bool) → not b ≡ true → b ≡ false
not_given true h = absurd (cc)
not_given false h = refl

pub equal_of_test : (n m : ℕ) → (n == m) ≡ true → n ≡ m
equal_of_test n m h = ground arith

less_of_test : (n m : ℕ) → n ≤ m → (n == m) ≡ false → n < m
less_of_test n m l h = ground arith

doubled : (n : ℕ) → n < 2 ^ 59 → (n * 2) % 2 ^ 64 ≡ 2 * n
doubled n h = omega arith

sized_for : (n : ℕ) → n < 2 ^ 60 → (n * 8) % 2 ^ 64 ≡ 8 * n
sized_for n h = omega arith

module _ {Os : Type 0} (realloc : Os → ℕ → Bool × Os) where
  -- The links are made, or realloc(3) has failed.
  abbrev pub Made : Tree → ℕ → ℕ → Linked Os → Type 0
  Made t parent i (linked t' o') = Joined t t' parent i
  Made t parent i (no_memory t' o') = (o : Os) × (size : ℕ) × ((realloc o size).0 ≡ false)
  Made t parent i overrun = true ≡ false

  module _ (t : Tree) (parent i : ℕ) (few : t.nr_child parent < 2 ^ 59) where
    expand-Made :
        (o : Os)
        → 0 < t.max_child parent
        → t.nr_child parent ≡ t.max_child parent
        → Made t parent i
            (expand realloc (record t { parent = set t.parent i (some parent) }) parent i o)
    unfolding expand
    expand-Made o pos full =
        let m = (t.max_child parent * 2) % 2 ^ 64 in
        let size = (m * 8) % 2 ^ 64 in
        let max_child = set t.max_child parent m in
        let room = set t.room parent size in
        let e : max_child parent ≡ 2 * t.nr_child parent =
          set-at t.max_child parent m
          ∙ doubled (t.max_child parent) (omega arith)
          ∙ ap (λ x. 2 * x) (sym full) in
        let em : m ≡ max_child parent = sym (set-at t.max_child parent m) in
        let r : room parent ≡ 8 * max_child parent =
          set-at t.room parent size ∙ sized_for m (omega arith) ∙ ap (λ x. 8 * x) em in
        let below : t.nr_child parent < max_child parent = omega arith in
        either (Made t parent i) (not (realloc o size).0) (λ h. (o, size, not_given _ h))
          (λ h.
            subst (Made t parent i)
              (sym (add_child-pushed t parent i max_child room below r (omega arith) realloc _))
              (pushed-Joined t parent i max_child room below r (omega arith) (λ k ne.
                (set-beside t.max_child parent m k ne, set-beside t.room parent size k ne))))

    pub link-Made :
        (o : Os)
        → 0 < t.max_child parent
        → t.nr_child parent ≤ t.max_child parent
        → t.room parent ≡ 8 * t.max_child parent
        → Made t parent i (link realloc t parent i o)
    unfolding link
    link-Made o pos fits sized =
        either (Made t parent i) (t.nr_child parent == t.max_child parent)
          (λ h. expand-Made o pos (equal_of_test _ _ h))
          (λ h.
            let below = less_of_test _ _ fits h in
            subst (Made t parent i)
              (sym (
                add_child-pushed t parent i t.max_child t.room below sized (omega arith) realloc o))
              (pushed-Joined t parent i t.max_child t.room below sized (omega arith)
                (λ k ne. (refl, refl))))
