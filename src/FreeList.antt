-- ===== src/FreeList.antt =====
-- tlpi-solutions/ex07-2/xmalloc.c: the headers of the blocks and the list of free blocks.
-- A heap is what the headers hold, a field at a time, and the variable `FreeList`. Addresses and
-- `size_t` are numbers below 2 ^ 64, `NULL` is 0, and `sizeof(freelist_node_t)` is 24, as on the
-- 64-bit systems that the program is built for. The walks of the list run on fuel.
pub mod Bytes
pub mod Chain
pub mod FirstFit
pub mod Insert
pub mod Layout
pub mod Merge
pub mod Remove
pub mod Search
pub mod Sane
pub mod Split
use tlpi_exercises.Base.{
  ℕ, zero, suc, ◌+◌, ◌-◌, ◌%◌, ◌^◌, Bool, true, false, not, ltb, leb, ◌==◌, if◌then◌else◌,
}

abbrev pub Ptr : Type 0
Ptr = ℕ

abbrev pub null : Ptr
null = 0

-- `sizeof(freelist_node_t)`
abbrev pub header : ℕ
header = 24

-- `size_t` arithmetic wraps round
abbrev pub add_size : ℕ → ℕ → ℕ
add_size a b = (a + b) % 2 ^ 64

abbrev pub sub_size : ℕ → ℕ → ℕ
sub_size a b = (a + 2 ^ 64 - b) % 2 ^ 64

-- A call returns, or stops at a failed `assert`. `overlapping` is a split whose right header would lie
-- on the left one, which a heap of separate fields cannot follow further. `out_of_fuel` is a walk
-- that has not ended.
pub data Run (A : Type 0) : Type 0 where
  ok : A → Run A
  assert_failed : Run A
  overlapping : Run A
  out_of_fuel : Run A

infixl 5 ◌>>=◌
abbrev pub ◌>>=◌ : {A B : Type 0} → Run A → (A → Run B) → Run B
ok a >>= f = f a
assert_failed >>= f = assert_failed
overlapping >>= f = overlapping
out_of_fuel >>= f = out_of_fuel

abbrev pub update : (Ptr → ℕ) → Ptr → ℕ → Ptr → ℕ
update f p v a = if a == p then v else f a

pub record Heap : Type 0 where
  pub free_list : Ptr
  pub prev : Ptr → Ptr
  pub next : Ptr → Ptr
  pub length : Ptr → ℕ

unfoldable pub block_init : Ptr → Heap → Heap
block_init block h = record h {
  prev = update h.prev block null;
  next = update h.next block null;
  length = update h.length block 0;
}

-- the writes of `block_split`
unfoldable pub split_blocks : Ptr → Ptr → ℕ → Heap → Heap
split_blocks block right size h =
    let left_part = sub_size (sub_size (h.length block) size) header in
    let h1 : Heap = record h { length = update h.length right left_part } in
    let h2 : Heap = record h1 { length = update h1.length block size } in
    let h3 : Heap = record h2 { prev = update h2.prev right block } in
    let h4 : Heap = record h3 { next = update h3.next right (h3.next block) } in
    record h4 { next = update h4.next block right }

-- `*left` and `*right`, and the heap. Where `size + sizeof(freelist_node_t)` wraps round and passes
-- the `assert`, the right header starts less than 24 bytes behind the left one.
unfoldable pub block_split : Ptr → ℕ → Heap → Run (Ptr × Ptr × Heap)
block_split block size h =
    let right = add_size (add_size block header) size in
    if leb (add_size size header) (h.length block)
    then (if ltb (add_size size header) size
        then overlapping
        else ok (block, right, split_blocks block right size h))
    else assert_failed

-- Returns the left block, which has taken the right one in.
unfoldable pub block_merge : Ptr → Ptr → Heap → Ptr × Heap
unfolding block_init
block_merge left right h =
    let merged = add_size (h.length left) (add_size (h.length right) header) in
    let h1 : Heap = record h { length = update h.length left merged } in
    let h2 : Heap = record h1 { next = update h1.next left (h1.next right) } in
    let behind = h2.next right in
    let h3 : Heap =
      if behind == null then h2 else record h2 { prev = update h2.prev behind left } in
    (left, block_init right h3)

unfoldable pub freelist_remove : Ptr → Heap → Heap
freelist_remove block h =
    let before = h.prev block in
    let behind = h.next block in
    if not (before == null)
    then (if not (behind == null)
        then record h { next = update h.next before behind; prev = update h.prev behind before }
        else record h { next = update h.next before null })
    else (if not (behind == null)
        then record h { free_list = behind; prev = update h.prev behind null }
        else record h { free_list = null })

-- `block->next = fn; ...; fn->prev = block`, and the link from the node before
link_before : Ptr → Ptr → Ptr → Heap → Heap
link_before block last fn h =
    let h1 : Heap = record h { next = update h.next block fn } in
    let h2 : Heap = record h1 { prev = update h1.prev block (h1.prev fn) } in
    let h3 : Heap = record h2 { prev = update h2.prev fn block } in
    if not (last == null)
    then record h3 { next = update h3.next last block }
    else record h3 { free_list = block }

link_last : Ptr → Ptr → Heap → Heap
link_last block last h = record h {
  next = update (update h.next last block) block null;
  prev = update h.prev block last;
}

insert_loop : ℕ → Ptr → Ptr → Ptr → Heap → Run Heap
unfolding link_before link_last
insert_loop zero block last fn h = out_of_fuel
insert_loop (suc fuel) block last fn h =
    let rest = insert_loop fuel block fn (h.next fn) h in
    if fn == null
    then ok (link_last block last h)
    else if block == fn
    then ok h
    else if ltb block fn
    then ok (link_before block last fn h)
    else rest

unfoldable pub freelist_insert : ℕ → Ptr → Heap → Run Heap
unfolding insert_loop
freelist_insert fuel block h =
    if h.free_list == null
    then ok (record h { free_list = block })
    else insert_loop fuel block null h.free_list h

-- the branch that cuts the block in two
unfoldable pub take_part : Ptr → ℕ → Heap → Run (Ptr × Heap)
unfolding block_split freelist_remove block_init
take_part free_block size h = block_split free_block size h >>= λ (left, right, h1).
    let h2 = block_init left (freelist_remove left h1) in
    ok (left, record h2 { length = update h2.length left size })

-- the branch that hands the block out whole
unfoldable pub take_whole : Ptr → Heap → Ptr × Heap
unfolding freelist_remove block_init
take_whole free_block h =
    let h1 = block_init free_block (freelist_remove free_block h) in
    (free_block, record h1 { length = update h1.length free_block (h.length free_block) })

-- `NULL` where no block is large enough
unfoldable pub freelist_get_free_block : ℕ → Ptr → ℕ → Heap → Run (Ptr × Heap)
freelist_get_free_block zero start size h = out_of_fuel
freelist_get_free_block (suc fuel) start size h =
    let rest = freelist_get_free_block fuel (h.next start) size h in
    if start == null
    then ok (null, h)
    else if leb (add_size size header) (h.length start)
    then take_part start size h
    else if leb size (h.length start)
    then ok (take_whole start h)
    else rest

size_loop : ℕ → Ptr → ℕ → Heap → Run ℕ
size_loop zero fp ret h = out_of_fuel
size_loop (suc fuel) fp ret h =
    let rest = size_loop fuel (h.next fp) (ret + 1) h in if fp == null then ok ret else rest

unfoldable pub freelist_size : ℕ → Heap → Run ℕ
unfolding size_loop
freelist_size fuel h = size_loop fuel h.free_list 0 h

item_loop : ℕ → ℕ → Ptr → ℕ → Heap → Run Ptr
item_loop zero index fp i h = out_of_fuel
item_loop (suc fuel) index fp i h =
    let rest = item_loop fuel index (h.next fp) (i + 1) h in
    if fp == null then ok null else if i == index then ok fp else rest

unfoldable pub freelist_item : ℕ → ℕ → Heap → Run Ptr
unfolding item_loop
freelist_item fuel index h = item_loop fuel index h.free_list 0 h

sane_loop : ℕ → Ptr → Ptr → Heap → Run Bool
sane_loop zero last fp h = out_of_fuel
sane_loop (suc fuel) last fp h =
    let rest = sane_loop fuel fp (h.next fp) h in
    if fp == null then ok true else if h.prev fp == last then rest else ok false

unfoldable pub is_freelist_sane : ℕ → Heap → Run Bool
unfolding sane_loop
is_freelist_sane fuel h = sane_loop fuel null h.free_list h
