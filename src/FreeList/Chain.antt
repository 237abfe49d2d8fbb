-- ===== src/FreeList/Chain.antt =====
-- What a list of free blocks stands for: the addresses of its nodes, in ascending order, linked
-- both ways.
use tlpi_exercises.Base.{
  ◌<◌, ◌≤◌, ◌≡◌, refl, ◌∙◌, true, false, ◌||◌, List, [], ◌∷◌, ◌++◌, arith, has,
}
use tlpi_exercises.FreeList.{Ptr, null, Heap, update}

-- From `p`, whose `prev` is `q`, the links lead through `xs` to `NULL`.
abbrev pub Dll : (prev next : Ptr → Ptr) → Ptr → Ptr → List Ptr → Type 0
Dll prev next q p [] = p ≡ null
Dll prev next q p (x ∷ xs) = (p ≡ x) × (prev x ≡ q) × Dll prev next x (next x) xs

-- All above `q`, each above the one before.
abbrev pub Ascending : Ptr → List Ptr → Type 0
Ascending q [] = Unit
Ascending q (x ∷ xs) = (q < x) × Ascending x xs

-- The free list of `h` is `xs`.
pub record IsFreeList (h : Heap) (xs : List Ptr) : Type 0 where
  pub chain : Dll h.prev h.next null h.free_list xs
  pub order : Ascending null xs

pub not-has-Ascending : (xs : List Ptr) (q a : Ptr) → Ascending q xs → a ≤ q → has a xs ≡ false
not-has-Ascending [] q a s h = refl
not-has-Ascending (x ∷ xs) q a s h = ground (arith, not-has-Ascending xs x a s.1)

-- A list survives a change that spares its nodes.
pub Dll-frame :
    (xs : List Ptr) {prev next prev' next' : Ptr → Ptr} (q p : Ptr)
    → Dll prev next q p xs
    → ((a : Ptr) → has a xs ≡ true → (prev' a ≡ prev a) × (next' a ≡ next a))
    → Dll prev' next' q p xs
Dll-frame [] q p d same = d
Dll-frame (x ∷ xs) {next} {next'} q p d same =
    let here = same x (ground arith) in
    (d.0, here.0 ∙ d.1, rw here.1 (Dll-frame xs x (next x) d.2 λ a i. same a (ground arith)))

-- The same for what stands behind a node.
pub Dll-frame_tail :
    (xs : List Ptr) {prev next prev' next' : Ptr → Ptr} (x : Ptr)
    → Dll prev next x (next x) xs
    → next' x ≡ next x
    → ((a : Ptr) → has a xs ≡ true → (prev' a ≡ prev a) × (next' a ≡ next a))
    → Dll prev' next' x (next' x) xs
Dll-frame_tail xs {next} x d e same = rw e (Dll-frame xs x (next x) d same)

-- The writes of one field at a node that is not on the list.
pub Dll-update_prev :
    (xs : List Ptr) (prev next : Ptr → Ptr) (q p b v : Ptr)
    → Dll prev next q p xs
    → has b xs ≡ false
    → Dll (update prev b v) next q p xs
Dll-update_prev xs prev next q p b v d out = Dll-frame xs q p d λ a i. ground arith

pub Dll-update_next :
    (xs : List Ptr) (prev next : Ptr → Ptr) (q p b v : Ptr)
    → Dll prev next q p xs
    → has b xs ≡ false
    → Dll prev (update next b v) q p xs
Dll-update_next xs prev next q p b v d out = Dll-frame xs q p d λ a i. ground arith

-- A list cut at the node `b`: what stands behind it, and the list with that part put anew.
pub Dll-behind :
    (xs : List Ptr) (prev next : Ptr → Ptr) (q p b : Ptr) (ys : List Ptr)
    → Dll prev next q p (xs ++ b ∷ ys)
    → Dll prev next b (next b) ys
Dll-behind [] prev next q p b ys d = d.2
Dll-behind (x ∷ xs) prev next q p b ys d = Dll-behind xs prev next x (next x) b ys d.2

pub Dll-splice :
    (xs : List Ptr) {prev next prev' next' : Ptr → Ptr} (q p b : Ptr) (ys zs : List Ptr)
    → Dll prev next q p (xs ++ b ∷ ys)
    → ((a : Ptr) → has a xs ≡ true → (prev' a ≡ prev a) × (next' a ≡ next a))
    → prev' b ≡ prev b
    → Dll prev' next' b (next' b) zs
    → Dll prev' next' q p (xs ++ b ∷ zs)
Dll-splice [] q p b ys zs d same e t = (d.0, e ∙ d.1, t)
Dll-splice (x ∷ xs) {next} q p b ys zs d same e t =
    let here = same x (ground arith) in
    (
      d.0,
      here.0 ∙ d.1,
      rw here.1 (Dll-splice xs x (next x) b ys zs d.2 (λ a i. same a (ground arith)) e t),
    )

pub Ascending-behind :
    (xs : List Ptr) (q b : Ptr) (ys : List Ptr)
    → Ascending q (xs ++ b ∷ ys)
    → (q < b) × Ascending b ys
Ascending-behind [] q b ys s = s
Ascending-behind (x ∷ xs) q b ys s = let (l, t) = Ascending-behind xs x b ys s.1 in (omega arith, t)

pub Ascending-splice :
    (xs : List Ptr) (q b : Ptr) (ys zs : List Ptr)
    → Ascending q (xs ++ b ∷ ys)
    → Ascending b zs
    → Ascending q (xs ++ b ∷ zs)
Ascending-splice [] q b ys zs s t = (s.0, t)
Ascending-splice (x ∷ xs) q b ys zs s t = (s.0, Ascending-splice xs x b ys zs s.1 t)

pub Ascending-weaken : (xs : List Ptr) (q b : Ptr) → Ascending b xs → q ≤ b → Ascending q xs
Ascending-weaken [] q b s h = tt
Ascending-weaken (x ∷ xs) q b s h = (omega arith, s.1)

pub Ascending-drop :
    (xs : List Ptr) (q b : Ptr) (ys : List Ptr)
    → Ascending q (xs ++ b ∷ ys)
    → Ascending q (xs ++ ys)
Ascending-drop [] q b ys s = Ascending-weaken ys q b s.1 (omega arith)
Ascending-drop (x ∷ xs) q b ys s = (s.0, Ascending-drop xs x b ys s.1)

-- The nodes before `b` lie below it.
pub lt_of_has :
    (xs : List Ptr) (q b : Ptr) (ys : List Ptr) (a : Ptr)
    → Ascending q (xs ++ b ∷ ys)
    → has a xs ≡ true
    → (q < a) × (a < b)
lt_of_has [] q b ys a s i = absurd (cc)
lt_of_has (x ∷ xs) q b ys a s i =
    ground (arith, lt_of_has xs x b ys a s.1, Ascending-behind xs x b ys s.1)

pub gt_of_has : (xs : List Ptr) (q a : Ptr) → Ascending q xs → has a xs ≡ true → q < a
gt_of_has [] q a s i = absurd (cc)
gt_of_has (x ∷ xs) q a s i = ground (arith, gt_of_has xs x a s.1)

pub has-append : (xs ys : List Ptr) (a : Ptr) → has a (xs ++ ys) ≡ (has a xs || has a ys)
has-append [] ys a = refl
has-append (x ∷ xs) ys a = rw (has-append xs ys a) (ground arith)

pub not-has-cut :
    (xs : List Ptr) (q b : Ptr) (ys : List Ptr)
    → Ascending q (xs ++ b ∷ ys)
    → has b (xs ++ ys) ≡ false
not-has-cut [] q b ys s = not-has-Ascending ys b b s.1 (omega arith)
not-has-cut (x ∷ xs) q b ys s =
    ground (arith, not-has-cut xs x b ys s.1, Ascending-behind xs x b ys s.1)

-- The `next` links alone lead through the nodes `xs` to `NULL`.
abbrev pub Forward : (Ptr → Ptr) → Ptr → List Ptr → Type 0
Forward next p [] = p ≡ null
Forward next p (x ∷ xs) = (p ≡ x) × (null < x) × Forward next (next x) xs

pub Dll-Forward :
    (xs : List Ptr) (prev next : Ptr → Ptr) (q p : Ptr)
    → Dll prev next q p xs
    → Ascending q xs
    → Forward next p xs
Dll-Forward [] prev next q p d s = d
Dll-Forward (x ∷ xs) prev next q p d s =
    (d.0, omega arith, Dll-Forward xs prev next x (next x) d.2 s.1)

-- The link back from a node behind `b`.
pub Dll-prev_behind :
    (xs : List Ptr) (prev next : Ptr → Ptr) (q p b y : Ptr) (ys : List Ptr)
    → Dll prev next q p (xs ++ b ∷ y ∷ ys)
    → prev y ≡ b
Dll-prev_behind xs prev next q p b y ys d = (Dll-behind xs prev next q p b (y ∷ ys) d).1
