-- ===== src/Xmalloc.antt =====
-- tlpi-solutions/ex07-2/xmalloc.c: `xmalloc` and `xfree` over the free list and the program break.
-- `sbrk` and `brk` are the C library's: a `ProgramBreak` stands for them, and what their manual
-- page says of them is the hypothesis `IsProgramBreak`.
pub mod Alloc
pub mod Extend
pub mod Free
pub mod Release
use tlpi_exercises.Base.{
  ℕ, zero, suc, ◌+◌, ◌^◌, ◌<◌, ◌≡◌, ◌⊎◌, Bool, true, false, not, ◌&&◌, Option, none, some, ltb, leb,
  ◌==◌, if◌then◌else◌,
}
use tlpi_exercises.FreeList.{
  Ptr, null, header, add_size, sub_size, Run, ok, assert_failed, out_of_fuel, ◌>>=◌, update, Heap,
  block_init, block_merge, freelist_remove, freelist_insert, freelist_get_free_block,
}

-- The address space of a process, as far as its break goes. `none` is `(void *) -1`, and `current`
-- is `sbrk(0)`.
pub record ProgramBreak : Type 1 where
  pub Os : Type 0
  pub current : Os → Ptr
  pub sbrk : Os → ℕ → Option Ptr × Os
  pub brk : Os → Ptr → Os

-- An increment moves the break up and returns where it was, or fails and moves nothing. `brk` sets
-- the break, or fails and moves nothing.
pub record IsProgramBreak (p : ProgramBreak) : Type 0 where
  pub in_range : (o : p.Os) → p.current o < 2 ^ 64
  pub sbrk_some :
      (o : p.Os) (n : ℕ) (a : Ptr)
      → n < 2 ^ 63
      → (p.sbrk o n).0 ≡ some a
      → (a ≡ p.current o) × (p.current (p.sbrk o n).1 ≡ a + n)
  pub sbrk_none :
      (o : p.Os) (n : ℕ) → (p.sbrk o n).0 ≡ none → p.current (p.sbrk o n).1 ≡ p.current o
  pub brk_moves :
      (o : p.Os) (a : Ptr) → (p.current (p.brk o a) ≡ a) ⊎ (p.current (p.brk o a) ≡ p.current o)

-- `MIN_HEAP_ALLOC_SIZE`, `MIN_HEAP_FREE_SIZE`
abbrev pub min_heap_alloc_size : ℕ
min_heap_alloc_size = 4096

abbrev pub min_heap_free_size : ℕ
min_heap_free_size = 8192

abbrev pub enomem : ℕ
enomem = 12

abbrev pub user_addr : Ptr → Ptr
user_addr block = add_size block header

abbrev pub malloc_addr : Ptr → Ptr
malloc_addr block = sub_size block header

-- `XMAX` of mylib.h
abbrev pub xmax : ℕ → ℕ → ℕ
xmax a b = if ltb b a then a else b

-- The last node of the list that begins at `fp`.
unfoldable pub last_loop : ℕ → Ptr → Ptr → Heap → Run Ptr
last_loop zero last fp h = out_of_fuel
last_loop (suc fuel) last fp h =
    let rest = last_loop fuel fp (h.next fp) h in if fp == null then ok last else rest

-- The two merges of `xfree`, with the block before and then with the block behind.
unfoldable pub merge_before : Ptr → Ptr → Heap → Ptr × Heap
merge_before before block h =
    if not (before == null) && (add_size (add_size before (h.length before)) header == block)
    then block_merge before block h
    else (block, h)

unfoldable pub merge_behind : Ptr → Ptr → Heap → Heap
merge_behind block behind h =
    if not (behind == null) && (add_size (add_size block (h.length block)) header == behind)
    then (block_merge block behind h).1
    else h

unfoldable pub merge_neighbours : Ptr → Heap → Heap
merge_neighbours block h =
    let before = h.prev block in
    let behind = h.next block in
    let (block', h1) = merge_before before block h in merge_behind block' behind h1

module _ (p : ProgramBreak) where
  open p use {Os, current, sbrk, brk}

  pub record State : Type 0 where
    pub heap : Heap
    pub os : Os
    pub errno : ℕ

  -- The new block that `sbrk` returned, with its header, is put on the list and searched first.
  unfoldable pub extend : ℕ → ℕ → Ptr → State → Run (Ptr × State)
  extend fuel size new_block s =
      let h1 = block_init new_block s.heap in
      let len = sub_size (sub_size (current s.os) new_block) header in
      freelist_insert fuel new_block (record h1 { length = update h1.length new_block len })
      >>= λ h2. freelist_get_free_block fuel new_block size h2 >>= λ (block, h3).
          if block == null then assert_failed else ok (user_addr block, record s { heap = h3 })

  unfoldable pub grow : ℕ → ℕ → State → Run (Ptr × State)
  grow fuel size s =
      let (new_block, os1) = sbrk s.os (xmax (add_size size header) min_heap_alloc_size) in
      elim new_block [
        | none ↦ ok (null, record s { os = os1; errno = enomem })
        | some a ↦ extend fuel size a (record s { os = os1 })
      ]

  unfoldable pub xmalloc : ℕ → ℕ → State → Run (Ptr × State)
  xmalloc fuel size s = freelist_get_free_block fuel s.heap.free_list size s.heap >>= λ (block, h1).
      if not (block == null)
      then ok (user_addr block, record s { heap = h1 })
      else grow fuel size (record s { heap = h1 })

  -- Gives the last free block back to the system, if it is large.
  unfoldable pub shrink : ℕ → State → Run State
  shrink fuel s = last_loop fuel null s.heap.free_list s.heap >>= λ last.
      if not (last == null) && leb min_heap_free_size (s.heap.length last)
      then ok (record s { heap = freelist_remove last s.heap; os = brk s.os last })
      else ok s

  unfoldable pub xfree : ℕ → Ptr → State → Run State
  xfree fuel ptr s =
      if ptr == null
      then ok s
      else (freelist_insert fuel (malloc_addr ptr) s.heap >>= λ h1.
          shrink fuel (record s { heap = merge_neighbours (malloc_addr ptr) h1 }))
