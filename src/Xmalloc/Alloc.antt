-- ===== src/Xmalloc/Alloc.antt =====
-- What `xmalloc` returns and what it leaves, on each of its ways out.
use tlpi_exercises.Base.{
  ℕ, ◌+◌, ◌^◌, ◌<◌, ◌≤◌, ◌≡◌, ◌⊎◌, none, some, List, [], ◌∷◌, ◌++◌, arith, length,
}
use tlpi_exercises.FreeList.{Ptr, null, header, add_size, Heap, ok}
use tlpi_exercises.FreeList.FirstFit.{Fits, HandsOut, first_fit-HandsOut}
use tlpi_exercises.FreeList.Layout.{IsValid, IsValid-IsFreeList, Layout-behind, Layout-le}
use tlpi_exercises.FreeList.Search.{AllSmaller, get_free_block-null}
use tlpi_exercises.Xmalloc.{
  ProgramBreak, min_heap_alloc_size, enomem, xmax, State, extend, grow, xmalloc,
}

-- a block of a valid list is above the header's size from the ends of the address space
block-bounds :
    (h : Heap) (hi b : ℕ) (xs ys : List Ptr)
    → IsValid h hi (xs ++ b ∷ ys)
    → (null < b) × (b + header + h.length b ≤ hi)
block-bounds h hi b xs ys v =
    let (low, behind) = Layout-behind h.length xs 1 hi b ys v.layout in
    (omega arith, Layout-le h.length ys (b + header + h.length b) hi behind)

HandsOut-bounds :
    (h : Heap) (xs : List Ptr) (hi size : ℕ) (b : Ptr) (h' : Heap) (ys : List Ptr)
    → HandsOut h xs hi size b h' ys
    → hi < 2 ^ 64
HandsOut-bounds h xs hi size b h' ys o = o.valid.bound

module _ (p : ProgramBreak) (k size : ℕ) (s : State p) where
  abbrev pub asked : ℕ
  asked = xmax (add_size size header) min_heap_alloc_size

  grow-none :
      (p.sbrk s.os asked).0 ≡ none
      → grow p k size s ≡ ok (null, record s { os = (p.sbrk s.os asked).1; errno = enomem })
  unfolding grow
  grow-none e = rw (e, grow)

  pub grow-some :
      (a : Ptr)
      → (p.sbrk s.os asked).0 ≡ some a
      → grow p k size s ≡ extend p k size a (record s { os = (p.sbrk s.os asked).1 })
  unfolding grow
  grow-some a e = rw (e, grow)

module _ (p : ProgramBreak) (k size : ℕ) (s : State p) where
  -- Where a free block is large enough, and the search keeps the list valid, `xmalloc` returns the
  -- address behind the header of the first such block, with at least `size` bytes there that the
  -- free list no longer covers, and leaves the program break alone.
  pub xmalloc-reuse :
      (hi : ℕ) (xs : List Ptr) (b : Ptr) (ys : List Ptr)
      → Fits s.heap hi size xs b ys
      → (s.heap.length b < size + header) ⊎ (ys ≡ [])
      → length xs < k
      → (h' : Heap) × (zs : List Ptr) × (xmalloc p k size s
          ≡ ok (b + header, record s { heap = h' }))
        × HandsOut s.heap (xs ++ b ∷ ys) hi size b h' zs
  unfolding xmalloc
  xmalloc-reuse hi xs b ys f c fuel =
      let (h', zs, e, o) = first_fit-HandsOut k s.heap hi size xs b ys f c fuel in
      let (pos, top) = block-bounds s.heap hi b xs ys f.valid in
      let e' : (b + header) ≡ add_size b header = omega (arith, f.valid.bound) in
      (h', zs, rw e (ground (arith)), o)

  -- Where no free block is large enough and the system grants no memory, `xmalloc` returns `NULL`,
  -- sets `errno` to `ENOMEM` and leaves the free list as it was.
  pub xmalloc-enomem :
      (hi : ℕ) (xs : List Ptr)
      → IsValid s.heap hi xs
      → AllSmaller s.heap.length size xs
      → size + header < 2 ^ 64
      → length xs < k
      → (p.sbrk s.os (xmax (size + header) min_heap_alloc_size)).0 ≡ none
      → xmalloc p k size s
        ≡ ok (
          null,
          record s {
            os = (p.sbrk s.os (xmax (size + header) min_heap_alloc_size)).1;
            errno = enomem;
          },
        )
  unfolding xmalloc
  xmalloc-enomem hi xs v small bound fuel e =
      let n =
        get_free_block-null k s.heap s.heap.free_list null size xs v.chain
          (IsValid-IsFreeList v).order small bound fuel in
      let a : add_size size header ≡ size + header = omega arith in
      rw (n, ← a) (grow-none p k size s (rw a e))
