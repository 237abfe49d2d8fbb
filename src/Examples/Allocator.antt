-- ===== src/Examples/Allocator.antt =====
-- tlpi-solutions/ex07-2/xmalloc.c at small heaps.
use tlpi_exercises.Base.{
  ℕ, ◌+◌, ◌^◌, ◌<◌, ◌≡◌, ◌↔◌, ◌≢◌, refl, ◌⊎◌, inl, Bool, true, false, ◌||◌, ◌&&◌, Option, none,
  some, List, [], ◌∷◌, arith, ltb, if◌then◌else◌,
}
use tlpi_exercises.FreeList.{
  Ptr, null, Heap, Run, ok, update, block_init, block_split, split_blocks, block_merge,
  freelist_remove, freelist_insert, freelist_get_free_block, take_part, take_whole, freelist_size,
  freelist_item, is_freelist_sane,
}
use tlpi_exercises.FreeList.Bytes.{in_block, covers}
use tlpi_exercises.FreeList.Chain.{Dll, IsFreeList}
use tlpi_exercises.FreeList.FirstFit.{Fits, HandsOut, first_fit-broken}
use tlpi_exercises.FreeList.Insert.{place, freelist_insert-IsFreeList}
use tlpi_exercises.FreeList.Layout.{IsValid, IsValid-IsFreeList}
use tlpi_exercises.FreeList.Merge.{block_merge-IsValid}
use tlpi_exercises.FreeList.Remove.{freelist_remove-IsFreeList}
use tlpi_exercises.FreeList.Sane.{item, is_freelist_sane_iff, size-item}
use tlpi_exercises.Xmalloc.{ProgramBreak, IsProgramBreak, State, xmalloc, xfree, extend, grow}
use tlpi_exercises.Xmalloc.Alloc.{xmalloc-reuse, xmalloc-enomem}
use tlpi_exercises.Xmalloc.Extend.{Grown, xmalloc-grow}
use tlpi_exercises.Xmalloc.Release.{IsLive, Freed, xfree-Freed, xfree-below_live}

abbrev limit : ℕ
limit = 2 ^ 64

-- a system with memory up to a bound
abbrev plain_break : ℕ → ProgramBreak
plain_break top = record {
  Os = ℕ;
  current = λ o. if ltb o limit then o else 0;
  sbrk = λ o n.
      if ltb o limit && (ltb (o + n) limit && ltb (o + n) top) then (some o, o + n) else (none, o);
  brk = λ o a. if ltb a limit then a else o;
}

plain_break-IsProgramBreak : (top : ℕ) → IsProgramBreak (plain_break top)
plain_break-IsProgramBreak top = record {
  in_range = λ o. ground arith;
  sbrk_some = λ o n a small e. ground arith;
  sbrk_none = λ o n e. ground arith;
  brk_moves = λ o a. ground arith;
}

-- free blocks at 1000 and 2000, and a live one at 8000
abbrev two_free : Heap
two_free = record {
  free_list = 1000;
  prev = update (λ _. 0) 2000 1000;
  next = update (λ _. 0) 1000 2000;
  length = update (update (update (λ _. 0) 1000 200) 2000 5000) 8000 100;
}

abbrev two_state : State (plain_break 100000)
two_state = record { heap = two_free; os = 10000; errno = 0 }

two_free-IsValid : IsValid two_free 10000 (1000 ∷ 2000 ∷ [])
two_free-IsValid = record {
  chain = (refl, refl, (refl, refl, refl));
  layout = omega arith;
  bound = omega arith;
}

abbrev address : {A : Type 0} → Run (Ptr × A) → Option Ptr
address (ok (a, s)) = some a
address r = none

abbrev low_state : State (plain_break 12000)
low_state = record { heap = two_free; os = 10000; errno = 0 }

-- first fit: 190 bytes fit the first block whole, 300 bytes only the second
xmalloc_first_fit :
    (address (xmalloc (plain_break 100000) 5 190 two_state) ≡ some 1024)
    × (address (xmalloc (plain_break 100000) 5 300 two_state) ≡ some 2024)
    × (address (xmalloc (plain_break 100000) 5 6000 two_state) ≡ some 10024)
    × (address (xmalloc (plain_break 12000) 5 6000 low_state) ≡ some null)
unfolding xmalloc freelist_get_free_block take_part take_whole block_split split_blocks
    freelist_remove block_init grow extend freelist_insert
xmalloc_first_fit = (refl, refl, refl, refl)

two-IsLive : IsLive two_free 10000 (1000 ∷ 2000 ∷ []) 8000
unfolding place
two-IsLive = record { off = refl; unlinked = (refl, refl); room = omega arith }

xfree-Freed_example :
    (s' : State (plain_break 100000)) × (xfree (plain_break 100000) 5 8024 two_state ≡ ok s')
    × Freed
        (plain_break 100000)
        10000
        (λ a. in_block 8000 100 a || covers two_free.length (1000 ∷ 2000 ∷ []) a)
        10000
        s'
xfree-Freed_example =
    xfree-Freed (plain_break 100000) 5 two_state 10000 (1000 ∷ 2000 ∷ []) 8000 two_free-IsValid
      two-IsLive (omega arith)

xmalloc-grow_example :
    (s' : State (plain_break 100000)) × (zs : List Ptr) × (xmalloc
        (plain_break 100000)
        5
        6000
        two_state
      ≡ ok (10024, s'))
    × Grown (plain_break 100000) two_state (1000 ∷ 2000 ∷ []) 6000 10000 s' zs
xmalloc-grow_example =
    xmalloc-grow (plain_break 100000) (plain_break-IsProgramBreak 100000) 5 6000 two_state 10000
      (1000 ∷ 2000 ∷ []) 10000 two_free-IsValid (omega arith) (omega arith) (omega arith)
      (omega arith) (omega arith) refl

Fits-whole : Fits two_free 10000 190 [] 1000 (2000 ∷ [])
Fits-whole = record { valid = two_free-IsValid; smaller = tt; large = omega arith }

xmalloc-reuse_example :
    (h' : Heap) × (zs : List Ptr) × (xmalloc (plain_break 100000) 5 190 two_state
      ≡ ok (1024, record two_state { heap = h' }))
    × HandsOut two_free (1000 ∷ 2000 ∷ []) 10000 190 1000 h' zs
xmalloc-reuse_example =
    xmalloc-reuse (plain_break 100000) 5 190 two_state 10000 [] 1000 (2000 ∷ []) Fits-whole
      (inl (omega arith)) (omega arith)

Fits-part : Fits two_free 10000 100 [] 1000 (2000 ∷ [])
Fits-part = record { valid = two_free-IsValid; smaller = tt; large = omega arith }

first_fit-broken_example :
    (h' : Heap) × (freelist_get_free_block 5 1000 100 two_free ≡ ok (1000, h'))
    × (h'.prev 2000 ≡ 1000)
    × (is_freelist_sane 5 h' ≡ ok false)
    × IsValid (record h' { prev = update h'.prev 2000 1124 }) 10000 (1124 ∷ 2000 ∷ [])
first_fit-broken_example =
    first_fit-broken 5 two_free 10000 100 [] 1000 2000 [] Fits-part (omega arith) (omega arith)

xmalloc-enomem_example :
    xmalloc (plain_break 12000) 5 6000 (record { heap = two_free; os = 10000; errno = 0 })
    ≡ ok (null, record { heap = two_free; os = 10000; errno = 12 })
xmalloc-enomem_example =
    xmalloc-enomem (plain_break 12000) 5 6000 (record { heap = two_free; os = 10000; errno = 0 })
      10000 (1000 ∷ 2000 ∷ []) two_free-IsValid (omega arith) (omega arith) (omega arith) refl

-- one live block of 9000 bytes, with another one above it
abbrev none_free : Heap
none_free = record {
  free_list = 0;
  prev = λ _. 0;
  next = λ _. 0;
  length = update (update (λ _. 0) 1000 9000) 12000 5000;
}

abbrev none_state : State (plain_break 100000)
none_state = record { heap = none_free; os = 20000; errno = 0 }

none_free-IsValid : IsValid none_free 20000 []
none_free-IsValid = record { chain = refl; layout = omega arith; bound = omega arith }

none-IsLive : IsLive none_free 20000 [] 1000
unfolding place
none-IsLive = record { off = refl; unlinked = (refl, refl); room = omega arith }

xfree-below_live_example :
    (s' : State (plain_break 100000)) × (xfree (plain_break 100000) 5 1024 none_state ≡ ok s')
    × (s'.os ≡ 1000)
    × ((ProgramBreak.current (plain_break 100000) s'.os < 12000)
        ⊎ (ProgramBreak.current (plain_break 100000) s'.os ≡ 20000))
xfree-below_live_example =
    xfree-below_live (plain_break 100000) (plain_break-IsProgramBreak 100000) 5 none_state 20000
      1000 12000 none_free-IsValid none-IsLive (omega arith) (omega arith) (omega arith)
      (omega arith)

two_IsFreeList : IsFreeList two_free (1000 ∷ 2000 ∷ [])
two_IsFreeList = IsValid-IsFreeList two_free-IsValid

freelist_insert-IsFreeList_example :
    (h' : Heap) × (freelist_insert 5 1500 two_free ≡ ok h')
    × IsFreeList h' (1000 ∷ 1500 ∷ 2000 ∷ [])
    × (h'.length ≡ two_free.length)
unfolding place
freelist_insert-IsFreeList_example =
    freelist_insert-IsFreeList 5 two_free 1500 (1000 ∷ 2000 ∷ []) two_IsFreeList (omega arith) refl
      refl refl (omega arith)

freelist_remove-IsFreeList_example : IsFreeList (freelist_remove 1000 two_free) (2000 ∷ [])
freelist_remove-IsFreeList_example =
    freelist_remove-IsFreeList two_free [] 1000 (2000 ∷ []) two_IsFreeList

-- two free blocks that touch
abbrev touching : Heap
touching = record {
  free_list = 1000;
  prev = update (λ _. 0) 1124 1000;
  next = update (λ _. 0) 1000 1124;
  length = update (update (λ _. 0) 1000 100) 1124 50;
}

touching-IsValid : IsValid touching 10000 (1000 ∷ 1124 ∷ [])
touching-IsValid = record {
  chain = (refl, refl, (refl, refl, refl));
  layout = omega arith;
  bound = omega arith;
}

block_merge-IsValid_example :
    let (b, h') = block_merge 1000 1124 touching in
    (b ≡ 1000)
    × IsValid h' 10000 (1000 ∷ [])
    × (h'.length 1000 ≡ 174)
    × (h'.prev 1124 ≡ null)
    × (h'.next 1124 ≡ null)
    × ((a : Ptr) → a ≢ 1000 → a ≢ 1124 → h'.length a ≡ touching.length a)
block_merge-IsValid_example =
    block_merge-IsValid touching 10000 [] 1000 1124 [] touching-IsValid refl

is_freelist_sane_iff_example :
    (b : Bool) × (is_freelist_sane 5 two_free ≡ ok b)
    × ((b ≡ true) ↔ Dll two_free.prev two_free.next null 1000 (1000 ∷ 2000 ∷ []))
is_freelist_sane_iff_example =
    is_freelist_sane_iff 5 two_free (1000 ∷ 2000 ∷ []) (omega arith) (omega arith)

size-item_example :
    (freelist_size 5 two_free ≡ ok 2)
    × ((index : ℕ) → freelist_item 5 index two_free ≡ ok (item (1000 ∷ 2000 ∷ []) index))
size-item_example = size-item 5 two_free (1000 ∷ 2000 ∷ []) (omega arith) (omega arith)
