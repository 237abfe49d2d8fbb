-- ===== src/FreeList/Merge.antt =====
-- `block_merge` of two blocks of the list that touch.
use tlpi_exercises.Base.{
  ℕ, ◌+◌, ◌<◌, ◌≤◌, ◌≡◌, ◌≢◌, refl, ◌∙◌, true, List, [], ◌∷◌, ◌++◌, arith, has, ◌==◌, if◌then◌else◌,
}
use tlpi_exercises.FreeList.{Ptr, null, header, Heap, add_size, block_merge}
use tlpi_exercises.FreeList.Bytes.{covers, covers-append, covers-frame}
use tlpi_exercises.FreeList.Chain.{
  Dll, Ascending, Dll-frame_tail, Dll-behind, Dll-splice, Ascending-behind, lt_of_has, gt_of_has,
  not-has-Ascending,
}
use tlpi_exercises.FreeList.Layout.{
  Layout, IsValid, IsValid-IsFreeList, Layout-behind, Layout-splice, Layout-weaken, Layout-frame,
  Layout-le,
}

-- The fields after the merge.
record Merged (l r : Ptr) (h h' : Heap) : Type 0 where
  head : h'.free_list ≡ h.free_list
  prev :
      (a : Ptr)
      → h'.prev a ≡ (
          if a == r
          then null
          else if h.next r == null
          then h.prev a
          else if a == h.next r
          then l
          else h.prev a)
  next : (a : Ptr) → h'.next a ≡ (if a == r then null else if a == l then h.next r else h.next a)
  length :
      (a : Ptr)
      → h'.length a ≡ (
          if a == r
          then 0
          else if a == l
          then add_size (h.length l) (add_size (h.length r) header)
          else h.length a)

block_merge-Merged : (l r : Ptr) (h : Heap) → l ≢ r → Merged l r h (block_merge l r h).1
unfolding block_merge
block_merge-Merged l r h ne = record {
  head = ground arith;
  prev = λ a. ground arith;
  next = λ a. ground arith;
  length = λ a. ground arith;
}

behind-Merged :
    (ys : List Ptr) (l r : Ptr) (h h' : Heap)
    → Merged l r h h'
    → l < r
    → Dll h.prev h.next r (h.next r) ys
    → Ascending r ys
    → Dll h'.prev h'.next l (h'.next l) ys
behind-Merged [] l r h h' m lt d s = ground (arith, m.next l)
behind-Merged (y ∷ ys) l r h h' m lt d s =
    let y_out = not-has-Ascending ys y y s.1 (omega arith) in
    (
      ground (arith, m.next l),
      ground (arith, m.prev y),
      Dll-frame_tail ys y d.2 (ground (arith, m.next y)) λ a i.
          let above = gt_of_has ys y a s.1 i in
          (ground (arith, m.prev a), ground (arith, m.next a)),
    )

next_above :
    (ys : List Ptr) (h : Heap) (r : Ptr)
    → Dll h.prev h.next r (h.next r) ys
    → Ascending r ys
    → h.next r ≢ null
    → r < h.next r
next_above [] h r d s ne = absurd (ne d)
next_above (y ∷ ys) h r d s ne = omega (arith, d.0, s.0)

module _ (h h' : Heap) (hi : ℕ) (xs : List Ptr) (l r : Ptr) (ys : List Ptr)
    (v : IsValid h hi (xs ++ l ∷ r ∷ ys)) (touch : l + header + h.length l ≡ r)
    (m : Merged l r h h') where
  order : Ascending null (xs ++ l ∷ r ∷ ys)
  order = (IsValid-IsFreeList v).order

  above : Ascending r ys
  above = (Ascending-behind xs null l (r ∷ ys) order).1.1

  links : Dll h.prev h.next r (h.next r) ys
  links = (Dll-behind xs h.prev h.next null h.free_list l (r ∷ ys) v.chain).2

  rest : Layout h.length (r + header + h.length r) hi ys
  rest = (Layout-behind h.length xs 1 hi l (r ∷ ys) v.layout).1.1

  length-left : h'.length l ≡ h.length l + header + h.length r
  length-left =
      let top = Layout-le h.length ys (r + header + h.length r) hi rest in
      let e : add_size (h.length l) (add_size (h.length r) header)
          ≡ h.length l + header + h.length r =
        omega (arith, v.bound) in
      ground (arith, m.length l)

  length-other : (a : Ptr) → a ≢ l → a ≢ r → h'.length a ≡ h.length a
  length-other a nl nr = ground (arith, m.length a)

  -- The nodes up to `l` keep their links back, and those before it their links on.
  prev_same : (a : Ptr) → a ≤ l → h'.prev a ≡ h.prev a
  prev_same a le = ground (arith, m.prev a, next_above ys h r links above)

  next_same : (a : Ptr) → a < l → h'.next a ≡ h.next a
  next_same a lt = ground (arith, m.next a)

  Merged-IsValid : IsValid h' hi (xs ++ l ∷ ys)
  Merged-IsValid = record {
    chain = rw m.head (
        Dll-splice xs null h.free_list l (r ∷ ys) ys v.chain
          (λ a i.
            let lt = lt_of_has xs null l (r ∷ ys) a order i in
            (prev_same a (omega arith), next_same a (omega arith)))
          (prev_same l (omega arith)) (behind-Merged ys l r h h' m (omega arith) links above));
    layout =
        Layout-splice h.length h'.length xs 1 hi l (r ∷ ys) (l ∷ ys) v.layout
          (λ a i.
            let lt = lt_of_has xs null l (r ∷ ys) a order i in
            length-other a (omega arith) (omega arith))
          (
            omega arith,
            Layout-weaken h'.length ys (r + header + h.length r) (l + header + h'.length l) hi
                (Layout-frame h.length h'.length ys (r + header + h.length r) hi rest λ a i.
                  let gt = gt_of_has ys r a above i in length-other a (omega arith) (omega arith))
                (omega (arith, length-left)),
          );
    bound = v.bound;
  }

-- `block_merge` of a block `l` and the next one `r`, which begins where `l` ends, leaves the valid
-- list without `r`: `l` has taken in the bytes of `r` and its header, the header of `r` is reset,
-- and no other length changes.
pub block_merge-IsValid :
    (h : Heap) (hi : ℕ) (xs : List Ptr) (l r : Ptr) (ys : List Ptr)
    → IsValid h hi (xs ++ l ∷ r ∷ ys)
    → l + header + h.length l ≡ r
    → let (b, h') = block_merge l r h in
      (b ≡ l)
      × IsValid h' hi (xs ++ l ∷ ys)
      × (h'.length l ≡ h.length l + header + h.length r)
      × (h'.prev r ≡ null)
      × (h'.next r ≡ null)
      × ((a : Ptr) → a ≢ l → a ≢ r → h'.length a ≡ h.length a)
unfolding block_merge
block_merge-IsValid h hi xs l r ys v touch =
    let h' = (block_merge l r h).1 in
    let m = block_merge-Merged l r h (omega arith) in
    (
      refl,
      Merged-IsValid h h' hi xs l r ys v touch m,
      length-left h h' hi xs l r ys v touch m,
      m.prev r ∙ ground arith,
      m.next r ∙ ground arith,
      length-other h h' hi xs l r ys v touch m,
    )

covers-Merged :
    (len len' : Ptr → ℕ) (xs : List Ptr) (l r : Ptr) (ys : List Ptr) (a : Ptr)
    → ((x : Ptr) → has x xs ≡ true → len' x ≡ len x)
    → ((x : Ptr) → has x ys ≡ true → len' x ≡ len x)
    → l + header + len l ≡ r
    → len' l ≡ len l + header + len r
    → covers len' (xs ++ l ∷ ys) a ≡ covers len (xs ++ l ∷ r ∷ ys) a
covers-Merged len len' xs l r ys a before behind touch merged = ground (
  arith,
  covers-append len' xs (l ∷ ys) a,
  covers-append len xs (l ∷ r ∷ ys) a,
  covers-frame len len' xs a before,
  covers-frame len len' ys a behind,
)

-- `block_merge` of two blocks that touch leaves the bytes of the list as they are.
pub covers-block_merge :
    (h : Heap) (hi : ℕ) (xs : List Ptr) (l r : Ptr) (ys : List Ptr) (a : Ptr)
    → IsValid h hi (xs ++ l ∷ r ∷ ys)
    → l + header + h.length l ≡ r
    → covers (block_merge l r h).1.length (xs ++ l ∷ ys) a ≡ covers h.length (xs ++ l ∷ r ∷ ys) a
covers-block_merge h hi xs l r ys a v touch =
    let (_, _, n, _, _, other) = block_merge-IsValid h hi xs l r ys v touch in
    let order = (IsValid-IsFreeList v).order in
    let up = (Ascending-behind xs null l (r ∷ ys) order).1.1 in
    covers-Merged h.length (block_merge l r h).1.length xs l r ys a
      (λ x i.
        let lt = lt_of_has xs null l (r ∷ ys) x order i in other x (omega arith) (omega arith))
      (λ x i. let gt = gt_of_has ys r x up i in other x (omega arith) (omega arith)) touch n

-- The merge keeps the link on from the second block.
pub next-block_merge : (h : Heap) (l r : Ptr) → l ≢ r → (block_merge l r h).1.next l ≡ h.next r
next-block_merge h l r ne = (block_merge-Merged l r h ne).next l ∙ ground arith
