-- ===== src/FreeList/Remove.antt =====
-- `freelist_remove` takes one node out of the list.
use tlpi_exercises.Base.{◌<◌, ◌≤◌, ◌≡◌, ◌≢◌, refl, List, [], ◌∷◌, ◌++◌, arith, ◌==◌, if◌then◌else◌}
use tlpi_exercises.FreeList.{Ptr, null, Heap, freelist_remove}
use tlpi_exercises.FreeList.Chain.{
  Dll, Ascending, IsFreeList, Dll-frame, Dll-frame_tail, Dll-behind, Ascending-behind,
  Ascending-drop, not-has-Ascending,
}

-- the links with the node `b` left out
abbrev pub prev_without : Ptr → Heap → Ptr → Ptr
prev_without b h a =
    if h.next b == null then h.prev a else (if a == h.next b then h.prev b else h.prev a)

abbrev pub next_without : Ptr → Heap → Ptr → Ptr
next_without b h a =
    if h.prev b == null then h.next a else (if a == h.prev b then h.next b else h.next a)

pub remove-prev : (b : Ptr) (h : Heap) (a : Ptr) → (freelist_remove b h).prev a ≡ prev_without b h a
unfolding freelist_remove
remove-prev b h a = ground arith

pub remove-next : (b : Ptr) (h : Heap) (a : Ptr) → (freelist_remove b h).next a ≡ next_without b h a
unfolding freelist_remove
remove-next b h a = ground arith

pub remove-head :
    (b : Ptr) (h : Heap)
    → (freelist_remove b h).free_list ≡ (if h.prev b == null then h.next b else h.free_list)
unfolding freelist_remove
remove-head b h = ground arith

-- `freelist_remove` leaves the lengths alone.
pub length-freelist_remove : (b : Ptr) (h : Heap) → (freelist_remove b h).length ≡ h.length
unfolding freelist_remove
length-freelist_remove b h = ground arith

-- what stands behind `b`, seen from the node before it
behind-without :
    (b : Ptr) (h : Heap) (ys : List Ptr)
    → Dll h.prev h.next b (h.next b) ys
    → Ascending b ys
    → h.prev b < b
    → Dll (prev_without b h) (next_without b h) (h.prev b) (h.next b) ys
behind-without b h [] d s l = d
behind-without b h (y ∷ ys) d s l =
    let y_out = not-has-Ascending ys y y s.1 (omega arith) in
    let p_out = not-has-Ascending ys y (h.prev b) s.1 (omega arith) in
    (d.0, ground arith, Dll-frame_tail ys y d.2 (ground arith) λ a i. (ground arith, ground arith))

prev_bounds :
    (xs : List Ptr) (h : Heap) (q p b : Ptr) (ys : List Ptr)
    → Dll h.prev h.next q p (xs ++ b ∷ ys)
    → Ascending q (xs ++ b ∷ ys)
    → (q ≤ h.prev b) × (h.prev b < b)
prev_bounds [] h q p b ys d s = omega arith
prev_bounds (x ∷ xs) h q p b ys d s =
    let (l, t) = prev_bounds xs h x (h.next x) b ys d.2 s.1 in (omega arith, t)

next_bound :
    (xs : List Ptr) (h : Heap) (q p b : Ptr) (ys : List Ptr)
    → Dll h.prev h.next q p (xs ++ b ∷ ys)
    → Ascending q (xs ++ b ∷ ys)
    → (h.next b ≢ null)
    → b < h.next b
next_bound xs h q p b [] d s ne = absurd (ne (Dll-behind xs h.prev h.next q p b [] d))
next_bound xs h q p b (y ∷ ys) d s ne = omega (
  arith,
  (Dll-behind xs h.prev h.next q p b (y ∷ ys) d).0,
  (Ascending-behind xs q b (y ∷ ys) s).1.0,
)

-- The first node behind `q`: `b` itself is gone.
abbrev first : Ptr → Ptr → List Ptr → Ptr
first p nx [] = nx
first p nx (x ∷ xs) = p

next_without-first :
    (xs : List Ptr) (h : Heap) (x b : Ptr) (ys : List Ptr)
    → Dll h.prev h.next x (h.next x) (xs ++ b ∷ ys)
    → Ascending x (xs ++ b ∷ ys)
    → null < x
    → next_without b h x ≡ first (h.next x) (h.next b) xs
next_without-first [] h x b ys d s pos = ground arith
next_without-first (y ∷ xs) h x b ys d s pos =
    ground (arith, prev_bounds xs h y (h.next y) b ys d.2 s.1)

without-Dll :
    (xs : List Ptr) (h : Heap) (q p b : Ptr) (ys : List Ptr)
    → Dll h.prev h.next q p (xs ++ b ∷ ys)
    → Ascending q (xs ++ b ∷ ys)
    → Dll (prev_without b h) (next_without b h) q (first p (h.next b) xs) (xs ++ ys)
without-Dll [] h q p b ys d s = rw (← d.1) (behind-without b h ys d.2 s.1 (omega arith))
without-Dll (x ∷ xs) h q p b ys d s = (
  d.0,
  ground (arith, Ascending-behind xs x b ys s.1, next_bound xs h x (h.next x) b ys d.2 s.1),
  rw (next_without-first xs h x b ys d.2 s.1 (omega arith))
      (without-Dll xs h x (h.next x) b ys d.2 s.1),
)

first-null :
    (xs : List Ptr) (h : Heap) (q p b : Ptr) (ys : List Ptr)
    → Dll h.prev h.next q p (xs ++ b ∷ ys)
    → Ascending q (xs ++ b ∷ ys)
    → q ≡ null
    → (if h.prev b == null then h.next b else p) ≡ first p (h.next b) xs
first-null [] h q p b ys d s e = ground arith
first-null (x ∷ xs) h q p b ys d s e = ground (arith, prev_bounds xs h x (h.next x) b ys d.2 s.1)

-- `freelist_remove` of a node of the list leaves the list of the others, linked both ways.
pub freelist_remove-IsFreeList :
    (h : Heap) (xs : List Ptr) (b : Ptr) (ys : List Ptr)
    → IsFreeList h (xs ++ b ∷ ys)
    → IsFreeList (freelist_remove b h) (xs ++ ys)
freelist_remove-IsFreeList h xs b ys f = record {
  chain =
      rw (remove-head b h, first-null xs h null h.free_list b ys f.chain f.order refl)
        (Dll-frame (xs ++ ys) null _ (without-Dll xs h null h.free_list b ys f.chain f.order)
          λ a i. (remove-prev b h a, remove-next b h a));
  order = Ascending-drop xs null b ys f.order;
}
