-- ===== src/FreeList/Insert.antt =====
-- `freelist_insert` puts a block at its place in the order of addresses.
use tlpi_exercises.Base.{
  ℕ, zero, suc, ◌<◌, ◌≡◌, ◌≢◌, refl, inl, inr, Bool-cases, true, false, List, [], ◌∷◌, arith, ltb,
  ◌==◌, if◌then◌else◌, has, length,
}
use tlpi_exercises.FreeList.{
  Ptr, null, Heap, ok, insert_loop, link_before, link_last, freelist_insert,
}
use tlpi_exercises.FreeList.Chain.{Dll, Ascending, IsFreeList, Dll-frame_tail, not-has-Ascending}

-- the ascending list with one more address
unfoldable pub place : Ptr → List Ptr → List Ptr
place b [] = b ∷ []
place b (x ∷ xs) = if b == x then x ∷ xs else if ltb b x then b ∷ x ∷ xs else x ∷ place b xs

place-Ascending : (xs : List Ptr) (q b : Ptr) → Ascending q xs → q < b → Ascending q (place b xs)
unfolding place
place-Ascending [] q b s h = ground arith
place-Ascending (x ∷ xs) q b s h = ground (arith, place-Ascending xs x b s.1)

-- what the loop has done when it stops: `last` stands before the nodes `xs`
record Inserted (h : Heap) (last : Ptr) (xs : List Ptr) (b : Ptr) (h' : Heap) : Type 0 where
  chain : Dll h'.prev h'.next last (h'.next last) (place b xs)
  head : h'.free_list ≡ h.free_list
  prev_same : (a : Ptr) → has a xs ≡ false → a ≢ b → h'.prev a ≡ h.prev a
  next_same : (a : Ptr) → has a xs ≡ false → a ≢ b → a ≢ last → h'.next a ≡ h.next a
  lengths : h'.length ≡ h.length

place-before : (b x : Ptr) (xs : List Ptr) → ltb b x ≡ true → place b (x ∷ xs) ≡ b ∷ x ∷ xs
unfolding place
place-before b x xs h = ground arith

link_before-Inserted :
    (h : Heap) (b last fn x : Ptr) (xs : List Ptr)
    → Dll h.prev h.next last fn (x ∷ xs)
    → Ascending last (x ∷ xs)
    → null < last
    → last < b
    → has b (x ∷ xs) ≡ false
    → ltb b x ≡ true
    → Inserted h last (x ∷ xs) b (link_before b last fn h)
unfolding link_before
link_before-Inserted h b last fn x xs d s l lb out before =
    let x_out = not-has-Ascending xs x x s.1 (omega arith) in
    let last_out = not-has-Ascending xs x last s.1 (omega arith) in
    record {
      chain = rw (place-before b x xs before) (
        ground arith,
        ground arith,
        (
          ground arith,
          ground arith,
          Dll-frame_tail xs x d.2 (ground arith) λ a i. (ground arith, ground arith),
        ),
      );
      head = ground arith;
      prev_same = λ a o. ground arith;
      next_same = λ a o. ground arith;
      lengths = ground arith;
    }

later :
    (h h' : Heap) (b last x : Ptr) (xs : List Ptr)
    → Ascending last (x ∷ xs)
    → last < b
    → has b (x ∷ xs) ≡ false
    → ltb b x ≡ false
    → h.prev x ≡ last
    → h.next last ≡ x
    → Inserted h x xs b h'
    → Inserted h last (x ∷ xs) b h'
unfolding place
later h h' b last x xs s lb out after e n i =
    let x_out = not-has-Ascending xs x x s.1 (omega arith) in
    let last_out = not-has-Ascending xs x last s.1 (omega arith) in
    record {
      chain = ground (arith, i.chain, i.prev_same x, i.next_same last, x_out, last_out);
      head = i.head;
      prev_same = λ a o. ground (arith, i.prev_same a);
      next_same = λ a o. ground (arith, i.next_same a);
      lengths = i.lengths;
    }

insert_loop-Inserted :
    (k : ℕ) (h : Heap) (b last fn : Ptr) (xs : List Ptr)
    → Dll h.prev h.next last fn xs
    → h.next last ≡ fn
    → Ascending last xs
    → null < last
    → last < b
    → has b xs ≡ false
    → length xs < k
    → (h' : Heap) × (insert_loop k b last fn h ≡ ok h') × Inserted h last xs b h'
unfolding insert_loop place
insert_loop-Inserted zero h b last fn xs d n s l lb out fuel = absurd (omega arith)
insert_loop-Inserted (suc k) h b last fn [] d n s l lb out fuel = (
  link_last b last h,
  ground arith,
  record {
    chain = (ground arith, ground arith, ground arith);
    head = ground arith;
    prev_same = ground arith;
    next_same = ground arith;
    lengths = refl;
  },
)
insert_loop-Inserted (suc k) h b last fn (x ∷ xs) d n s l lb out fuel =
    elim (Bool-cases (ltb b x)) [
      | inl before ↦ (
        link_before b last fn h,
        ground arith,
        link_before-Inserted h b last fn x xs d s l lb out before,
      )
      | inr after ↦
          let (h', e, i) =
            insert_loop-Inserted k h b x (h.next x) xs d.2 refl s.1 (ground arith) (ground arith)
              (ground arith) (omega arith) in
          (h', ground arith, later h h' b last x xs s lb out after d.1 (ground arith) i)
    ]

first-Dll :
    (h : Heap) (b x : Ptr) (xs : List Ptr)
    → IsFreeList h (x ∷ xs)
    → null < b
    → has b (x ∷ xs) ≡ false
    → ltb b x ≡ true
    → Dll
        (link_before b null h.free_list h).prev
        (link_before b null h.free_list h).next
        null
        (link_before b null h.free_list h).free_list
        (place b (x ∷ xs))
unfolding link_before
first-Dll h b x xs f pos out before =
    let x_out = not-has-Ascending xs x x f.order.1 (omega arith) in
    rw (place-before b x xs before) (
      ground arith,
      ground arith,
      (
        ground arith,
        ground arith,
        Dll-frame_tail xs x f.chain.2 (ground arith) λ a i. (ground arith, ground arith),
      ),
    )

-- `freelist_insert` of a new block keeps the list ascending and linked both ways: it then holds the
-- block's address at its place in the order. The block's own links are `NULL` beforehand.
pub freelist_insert-IsFreeList :
    (k : ℕ) (h : Heap) (b : Ptr) (xs : List Ptr)
    → IsFreeList h xs
    → null < b
    → has b xs ≡ false
    → h.prev b ≡ null
    → h.next b ≡ null
    → length xs < k
    → (h' : Heap) × (freelist_insert k b h ≡ ok h')
      × IsFreeList h' (place b xs)
      × (h'.length ≡ h.length)
unfolding freelist_insert insert_loop place
freelist_insert-IsFreeList k h b [] f pos out p n fuel = (
  record h { free_list = b },
  ground arith,
  record { chain = ground arith; order = ground arith },
  refl,
)
freelist_insert-IsFreeList zero h b (x ∷ xs) f pos out p n fuel = absurd (omega arith)
freelist_insert-IsFreeList (suc k) h b (x ∷ xs) f pos out p n fuel = elim (Bool-cases (ltb b x)) [
  | inl before ↦ (
    link_before b null h.free_list h,
    ground arith,
    record {
      chain = first-Dll h b x xs f pos out before;
      order = place-Ascending (x ∷ xs) null b f.order pos;
    },
    ground arith,
  )
  | inr after ↦
      let (h', e, i) =
        insert_loop-Inserted k h b x (h.next x) xs f.chain.2 refl f.order.1 f.order.0 (ground arith)
          (ground arith) (omega arith) in
      (
        h',
        ground arith,
        record {
          chain = ground (arith, i.chain, i.prev_same x, not-has-Ascending xs x x f.order.1);
          order = place-Ascending (x ∷ xs) null b f.order pos;
        },
        i.lengths,
      )
]
