-- ===== src/FreeList/Sane.antt =====
-- The functions that inspect the list: `is_freelist_sane`, `freelist_size`, `freelist_item`.
use tlpi_exercises.Base.{
  ℕ, zero, suc, ◌+◌, ◌<◌, ◌≡◌, ◌↔◌, refl, ◌∙◌, ap, inl, inr, Bool-cases, Bool, true, false, List,
  [], ◌∷◌, arith, ◌==◌, length,
}
use tlpi_exercises.FreeList.{
  Ptr, null, Heap, ok, sane_loop, is_freelist_sane, size_loop, freelist_size, item_loop,
  freelist_item,
}
use tlpi_exercises.FreeList.Chain.{Dll, Forward}

sane_loop-total :
    (k : ℕ) (last p : Ptr) (h : Heap) (xs : List Ptr)
    → Forward h.next p xs
    → length xs < k
    → (b : Bool) × (sane_loop k last p h ≡ ok b) × ((b ≡ true) ↔ Dll h.prev h.next last p xs)
unfolding sane_loop
sane_loop-total zero last p h xs f fuel = absurd (omega arith)
sane_loop-total (suc k) last p h [] f fuel = (true, ground arith, (λ _. f, λ _. refl))
sane_loop-total (suc k) last p h (x ∷ xs) f fuel = elim (Bool-cases (h.prev x == last)) [
  | inl fits ↦
      let (b, e, i) = sane_loop-total k x (h.next x) h xs f.2 (omega arith) in
      (b, ground arith, (λ t. (f.0, ground arith, i.0 t), λ d. i.1 d.2))
  | inr off ↦ (false, ground arith, (λ t. absurd (cc), λ d. absurd (ground arith)))
]

-- On a list whose `next` links are whole, `is_freelist_sane` returns, and it says `true` exactly
-- when each `prev` link leads back to the node before.
pub is_freelist_sane_iff :
    (k : ℕ) (h : Heap) (xs : List Ptr)
    → Forward h.next h.free_list xs
    → length xs < k
    → (b : Bool) × (is_freelist_sane k h ≡ ok b)
      × ((b ≡ true) ↔ Dll h.prev h.next null h.free_list xs)
unfolding is_freelist_sane
is_freelist_sane_iff k h xs f fuel = sane_loop-total k null h.free_list h xs f fuel

pub is_freelist_sane-false :
    (k : ℕ) (h : Heap) (xs : List Ptr)
    → Forward h.next h.free_list xs
    → length xs < k
    → ¬ (Dll h.prev h.next null h.free_list xs)
    → is_freelist_sane k h ≡ ok false
is_freelist_sane-false k h xs f fuel broken =
    let (b, e, i) = is_freelist_sane_iff k h xs f fuel in
    elim (Bool-cases b) [ inl t ↦ absurd (broken (i.0 t)) | inr t ↦ e ∙ ap ok t ]

size_loop-length :
    (k : ℕ) (p : Ptr) (n : ℕ) (h : Heap) (xs : List Ptr)
    → Forward h.next p xs
    → length xs < k
    → size_loop k p n h ≡ ok (n + length xs)
unfolding size_loop
size_loop-length zero p n h xs f fuel = absurd (omega arith)
size_loop-length (suc k) p n h [] f fuel = ground arith
size_loop-length (suc k) p n h (x ∷ xs) f fuel =
    ground (arith, size_loop-length k (h.next x) (n + 1) h xs f.2)

-- the address at an index, `NULL` past the end
abbrev pub item : List Ptr → ℕ → Ptr
item [] i = null
item (x ∷ xs) zero = x
item (x ∷ xs) (suc i) = item xs i

item_loop-item :
    (k index : ℕ) (p : Ptr) (i : ℕ) (h : Heap) (xs : List Ptr)
    → Forward h.next p xs
    → length xs < k
    → item_loop k (i + index) p i h ≡ ok (item xs index)
unfolding item_loop
item_loop-item zero index p i h xs f fuel = absurd (omega arith)
item_loop-item (suc k) index p i h [] f fuel = ground arith
item_loop-item (suc k) zero p i h (x ∷ xs) f fuel = ground arith
item_loop-item (suc k) (suc index) p i h (x ∷ xs) f fuel =
    let e : i + suc index ≡ i + 1 + index = omega arith in
    ground (arith, item_loop-item k index (h.next x) (i + 1) h xs f.2, e)

-- `freelist_size` returns the number of nodes, and `freelist_item` the node at an index or `NULL`
-- past the end of the list.
pub size-item :
    (k : ℕ) (h : Heap) (xs : List Ptr)
    → Forward h.next h.free_list xs
    → length xs < k
    → (freelist_size k h ≡ ok (length xs))
      × ((index : ℕ) → freelist_item k index h ≡ ok (item xs index))
unfolding freelist_size freelist_item
size-item k h xs f fuel = (
  size_loop-length k h.free_list 0 h xs f fuel ∙ ap ok (omega arith),
  λ index.
      let e : 0 + index ≡ index = omega arith in
      rw e at (item_loop-item k index h.free_list 0 h xs f fuel),
)
