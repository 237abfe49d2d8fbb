-- ===== src/Xmalloc/Release.antt =====
-- `xfree` as a whole: the block's bytes go to the free list or, with the last block, to the system.
use tlpi_exercises.Base.{
  ℕ, zero, suc, ◌+◌, ◌<◌, ◌≤◌, ◌≡◌, ◌≢◌, refl, ◌∙◌, sym, ap, ◌⊎◌, inl, inr, Bool-cases, Bool, true,
  false, ◌||◌, List, [], ◌∷◌, ◌++◌, arith, has, leb, length, ◌==◌,
}
use tlpi_exercises.FreeList.{Ptr, null, header, Heap, ok, freelist_insert, freelist_remove}
use tlpi_exercises.FreeList.Bytes.{in_block, covers, covers-place, covers-out}
use tlpi_exercises.FreeList.Chain.{Dll, Ascending, Ascending-behind}
use tlpi_exercises.FreeList.Insert.{place, freelist_insert-IsFreeList}
use tlpi_exercises.FreeList.Layout.{
  Layout, IsValid, IsValid-IsFreeList, Layout-Ascending, Layout-behind, Layout-le, Layout-splice,
}
use tlpi_exercises.FreeList.Remove.{freelist_remove-IsFreeList, length-freelist_remove}
use tlpi_exercises.Xmalloc.{
  ProgramBreak, IsProgramBreak, State, min_heap_free_size, last_loop, shrink, xfree, malloc_addr,
  merge_neighbours,
}
use tlpi_exercises.Xmalloc.Free.{
  merge_neighbours-Keeps, merge_neighbours-alone, snoc-cases, place-split, length-place,
}

-- a block that is handed out: off the list, with no links, and clear of the free blocks
pub record IsLive (h : Heap) (hi : ℕ) (xs : List Ptr) (b : Ptr) : Type 0 where
  pub off : has b xs ≡ false
  pub unlinked : (h.prev b ≡ null) × (h.next b ≡ null)
  pub room : Layout h.length 1 hi (place b xs)

abbrev pub last : Ptr → List Ptr → Ptr
last q [] = q
last q (x ∷ xs) = last x xs

last-snoc : (q : Ptr) (xs : List Ptr) (l : Ptr) → last q (xs ++ l ∷ []) ≡ l
last-snoc q [] l = refl
last-snoc q (x ∷ xs) l = last-snoc x xs l

last_loop-last :
    (k : ℕ) (h : Heap) (q p : Ptr) (xs : List Ptr)
    → Dll h.prev h.next q p xs
    → Ascending q xs
    → length xs < k
    → last_loop k q p h ≡ ok (last q xs)
unfolding last_loop
last_loop-last zero h q p xs d s fuel = absurd (omega arith)
last_loop-last (suc k) h q p [] d s fuel = ground arith
last_loop-last (suc k) h q p (x ∷ xs) d s fuel =
    ground (arith, last_loop-last k h x (h.next x) xs d.2 s.1)

before-last :
    (ys : List Ptr) (q l : Ptr)
    → Ascending q (ys ++ l ∷ [])
    → (y : Ptr) → has y (ys ++ []) ≡ true
    → y < l
before-last [] q l s y i = absurd (cc)
before-last (x ∷ xs) q l s y i = elim (Bool-cases (y == x)) [
  | inl e ↦ let above = (Ascending-behind xs x l [] s.1).0 in ground arith
  | inr e ↦ before-last xs x l s.1 y (ground arith)
]

-- The list after a call: the last block stays, with fewer than 8192 bytes, or no block is free; or the
-- last block `l`, with so many bytes or more, went to the system.
pub data Freed (p : ProgramBreak) (os : p.Os) (before : Ptr → Bool) (hi : ℕ) (s' : State p)
    : Type 0 where
  kept :
      (ys : List Ptr)
      → IsValid s'.heap hi ys
      → ((a : Ptr) → covers s'.heap.length ys a ≡ before a)
      → s'.os ≡ os
      → (ys ≢ [] → s'.heap.length (last null ys) < min_heap_free_size)
      → Freed p os before hi s'
  returned :
      (ys : List Ptr) (l : Ptr)
      → IsValid s'.heap hi ys
      → ((a : Ptr) → (in_block l (s'.heap.length l) a || covers s'.heap.length ys a) ≡ before a)
      → min_heap_free_size ≤ s'.heap.length l
      → ((y : Ptr) → has y ys ≡ true → y < l)
      → s'.os ≡ p.brk os l
      → Freed p os before hi s'

shrink-Freed_snoc :
    (p : ProgramBreak) (k : ℕ) (s : State p) (hi : ℕ) (ys : List Ptr) (l : Ptr)
    (before : Ptr → Bool)
    → IsValid s.heap hi (ys ++ l ∷ [])
    → ((a : Ptr) → covers s.heap.length (ys ++ l ∷ []) a ≡ before a)
    → length (ys ++ l ∷ []) < k
    → (s' : State p) × (shrink p k s ≡ ok s') × Freed p s.os before hi s'
unfolding shrink
shrink-Freed_snoc p k s hi ys l before v c fuel =
    let free = IsValid-IsFreeList v in
    let e =
      last_loop-last k s.heap null s.heap.free_list (ys ++ l ∷ []) v.chain free.order fuel
      ∙ ap ok (last-snoc null ys l) in
    let pos = (Ascending-behind ys null l [] free.order).0 in
    let ne : (l == null) ≡ false = ground arith in
    let len = length-freelist_remove l s.heap in
    elim (Bool-cases (leb min_heap_free_size (s.heap.length l))) [
      | inl large ↦
          let h' = freelist_remove l s.heap in
          let low =
            Layout-le s.heap.length [] (l + header + s.heap.length l) hi
              (Layout-behind s.heap.length ys 1 hi l [] v.layout).1 in
          (
            record s { heap = h'; os = p.brk s.os l },
            rw (e, ne, large),
            returned (ys ++ []) l
                (record {
                  chain = (freelist_remove-IsFreeList s.heap ys l [] free).chain;
                  layout =
                      Layout-splice s.heap.length h'.length ys 1 hi l [] [] v.layout
                        (λ a i. ap (λ (f : Ptr → ℕ). f a) len) (omega arith);
                  bound = v.bound;
                })
                (λ a. rw len ((sym (covers-out s.heap.length ys l [] a)) ∙ c a))
                (rw len (ground arith)) (before-last ys null l free.order) refl,
          )
      | inr small ↦ (
        s,
        rw (e, ne, small),
        kept (ys ++ l ∷ []) v c refl
            (λ ne'. let at = last-snoc null ys l in let size = ap s.heap.length at in ground arith),
      )
    ]

shrink-Freed :
    (p : ProgramBreak) (k : ℕ) (s : State p) (hi : ℕ) (xs : List Ptr) (before : Ptr → Bool)
    → IsValid s.heap hi xs
    → ((a : Ptr) → covers s.heap.length xs a ≡ before a)
    → length xs < k
    → (s' : State p) × (shrink p k s ≡ ok s') × Freed p s.os before hi s'
unfolding shrink
shrink-Freed p k s hi [] before v c fuel =
    let e =
      last_loop-last k s.heap null s.heap.free_list [] v.chain (IsValid-IsFreeList v).order fuel in
    (s, rw e, kept [] v c refl (λ ne. absurd (ne refl)))
shrink-Freed p k s hi (x ∷ xs) before v c fuel =
    let (ys, l, e) = snoc-cases x xs in
    let (s', e', f) =
      shrink-Freed_snoc p k s hi ys l before (rw e at v)
        (λ a. ap (λ (t : List Ptr). covers s.heap.length t a) (sym e) ∙ c a)
        (omega (arith, ap (λ (t : List Ptr). length t) e)) in
    (s', e', f)

merged-Freed :
    (p : ProgramBreak) (k : ℕ) (s : State p) (h1 : Heap) (hi : ℕ) (xs : List Ptr) (b : Ptr)
    → IsValid h1 hi (place b xs)
    → has b xs ≡ false
    → h1.length ≡ s.heap.length
    → length xs + 1 < k
    → (s' : State p) × (shrink p k (record s { heap = merge_neighbours b h1 }) ≡ ok s')
      × Freed p s.os (λ a. in_block b (s.heap.length b) a || covers s.heap.length xs a) hi s'
merged-Freed p k s h1 hi xs b v off len fuel =
    let (pre, post, e, f) = place-split xs b off in
    let (zs, keeps) = merge_neighbours-Keeps h1 hi pre b post (rw e at v) in
    let n = ap (λ (t : List Ptr). length t) e in
    shrink-Freed p k (record s { heap = merge_neighbours b h1 }) hi zs _ keeps.valid
      (λ a.
        keeps.bytes a
        ∙ ap (λ (t : List Ptr). covers h1.length t a) (sym e)
        ∙ covers-place h1.length xs b a off
        ∙ ap (λ (f : Ptr → ℕ). in_block b (f b) a || covers f xs a) len)
      (omega (arith, keeps.shorter, length-place xs b, n))

-- `xfree` of a live block returns, with a valid list: it covers the bytes that it covered and those
-- of the block, except that the last free block, above all others, is taken off where it has 8192
-- bytes or more, and the program break set to its address. If nothing is taken off, the last free
-- block has fewer, or there is none, and the program break is not touched.
pub xfree-Freed :
    (p : ProgramBreak) (k : ℕ) (s : State p) (hi : ℕ) (xs : List Ptr) (b : Ptr)
    → IsValid s.heap hi xs
    → IsLive s.heap hi xs b
    → length xs + 1 < k
    → (s' : State p) × (xfree p k (b + header) s ≡ ok s')
      × Freed p s.os (λ a. in_block b (s.heap.length b) a || covers s.heap.length xs a) hi s'
unfolding xfree
xfree-Freed p k s hi xs b v live fuel =
    let order = Layout-Ascending s.heap.length (place b xs) 1 hi null live.room (omega arith) in
    let (pre, post, e, f) = place-split xs b live.off in
    let room = rw e at live.room in
    let (low, behind) = Layout-behind s.heap.length pre 1 hi b post room in
    let top = Layout-le s.heap.length post (b + header + s.heap.length b) hi behind in
    let (h1, ins, free, len) =
      freelist_insert-IsFreeList k s.heap b xs (IsValid-IsFreeList v) (omega arith) live.off
        live.unlinked.0 live.unlinked.1 (omega arith) in
    let v1 : IsValid h1 hi (place b xs) = record {
      chain = free.chain;
      layout = rw len live.room;
      bound = v.bound;
    } in
    let (s', e', g) = merged-Freed p k s h1 hi xs b v1 live.off len (omega arith) in
    let ma : malloc_addr (b + header) ≡ b = omega (arith, v.bound) in
    let ne : (b + header == null) ≡ false = ground arith in (s', rw (ne, ma, ins) e', g)

-- `xfree` of a block of 8192 bytes or more, where no other block is free, sets the program break to
-- the block's header, whatever lies above it: a block at `c` above it, below the old break, is
-- beyond the new break, unless `brk` failed.
pub xfree-below_live :
    (p : ProgramBreak) (law : IsProgramBreak p) (k : ℕ) (s : State p) (hi : ℕ) (b c : Ptr)
    → IsValid s.heap hi []
    → IsLive s.heap hi [] b
    → min_heap_free_size ≤ s.heap.length b
    → b + header + s.heap.length b ≤ c
    → c < p.current s.os
    → 2 < k
    → (s' : State p) × (xfree p k (b + header) s ≡ ok s')
      × (s'.os ≡ p.brk s.os b)
      × ((p.current s'.os < c) ⊎ (p.current s'.os ≡ p.current s.os))
unfolding xfree shrink freelist_insert place
xfree-below_live p law k s hi b c v live large above below fuel =
    let h1 = record (s.heap) { free_list = b } in
    let pos : null < b = omega arith in
    let n : (s.heap.free_list == null) ≡ true = ground arith in
    let ma : malloc_addr (b + header) ≡ b = omega (arith, v.bound) in
    let ne : (b + header == null) ≡ false = ground arith in
    let nb : (b == null) ≡ false = ground arith in
    let big : leb min_heap_free_size (s.heap.length b) ≡ true = ground arith in
    let alone = merge_neighbours-alone h1 b live.unlinked.0 live.unlinked.1 in
    let e =
      last_loop-last k h1 null b (b ∷ []) (refl, live.unlinked.0, live.unlinked.1) (pos, tt)
        (omega arith) in
    (
      record s { heap = freelist_remove b h1; os = p.brk s.os b },
      rw (ne, ma, n, alone, e, nb, big),
      refl,
      elim (law.brk_moves s.os b) [ inl m ↦ inl (omega arith) | inr m ↦ inr m ],
    )
