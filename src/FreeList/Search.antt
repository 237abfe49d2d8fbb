-- ===== src/FreeList/Search.antt =====
-- `freelist_get_free_block`: the first block that is large enough, whole or in part.
use tlpi_exercises.Base.{
  ℕ, zero, suc, ◌+◌, ◌^◌, ◌<◌, ◌≤◌, ◌≡◌, ◌∙◌, sym, List, [], ◌∷◌, ◌++◌, arith, length, All,
}
use tlpi_exercises.FreeList.{
  Ptr, null, header, Heap, ok, take_part, take_whole, freelist_get_free_block,
}
use tlpi_exercises.FreeList.Chain.{Dll, Ascending, Ascending-behind}

-- every block of the list is too small
abbrev pub AllSmaller : (Ptr → ℕ) → ℕ → List Ptr → Type 0
AllSmaller len size xs = All (λ x. len x < size) xs

-- The search passes over the blocks that are too small.
skip :
    (xs : List Ptr) (k : ℕ) (h : Heap) (q p size b : ℕ) (ys : List Ptr)
    → Dll h.prev h.next q p (xs ++ b ∷ ys)
    → Ascending q (xs ++ b ∷ ys)
    → AllSmaller h.length size xs
    → size + header < 2 ^ 64
    → length xs < k
    → (j : ℕ) × (freelist_get_free_block k p size h ≡ freelist_get_free_block (suc j) b size h)
unfolding freelist_get_free_block
skip xs zero h q p size b ys d s small bound fuel = absurd (omega arith)
skip [] (suc k) h q p size b ys d s small bound fuel = (k, rw d.0)
skip (x ∷ xs) (suc k) h q p size b ys d s small bound fuel =
    let (j, e) = skip xs k h x (h.next x) size b ys d.2 s.1 small.1 bound (omega arith) in
    (j, ground (arith, d.0, small.0))

-- Where every block is too small the search returns `NULL` and changes nothing.
pub get_free_block-null :
    (k : ℕ) (h : Heap) (p q size : ℕ) (xs : List Ptr)
    → Dll h.prev h.next q p xs
    → Ascending q xs
    → AllSmaller h.length size xs
    → size + header < 2 ^ 64
    → length xs < k
    → freelist_get_free_block k p size h ≡ ok (null, h)
unfolding freelist_get_free_block
get_free_block-null zero h p q size xs d s small bound fuel = absurd (omega arith)
get_free_block-null (suc k) h p q size [] d s small bound fuel = ground arith
get_free_block-null (suc k) h p q size (x ∷ xs) d s small bound fuel =
    ground (arith, get_free_block-null k h (h.next x) x size xs d.2 s.1)

-- Where the first block of at least `size` bytes is large enough to cut, the search cuts it.
pub get_free_block-part :
    (k : ℕ) (h : Heap) (q p size b : ℕ) (xs ys : List Ptr)
    → Dll h.prev h.next q p (xs ++ b ∷ ys)
    → Ascending q (xs ++ b ∷ ys)
    → AllSmaller h.length size xs
    → size + header ≤ h.length b
    → size + header < 2 ^ 64
    → length xs < k
    → freelist_get_free_block k p size h ≡ take_part b size h
unfolding freelist_get_free_block
get_free_block-part k h q p size b xs ys d s small fits bound fuel =
    let (j, e) = skip xs k h q p size b ys d s small bound fuel in
    e ∙ ground (arith, Ascending-behind xs q b ys s)

-- Where it is large enough and not large enough to cut, the search hands it out whole.
pub get_free_block-whole :
    (k : ℕ) (h : Heap) (q p size b : ℕ) (xs ys : List Ptr)
    → Dll h.prev h.next q p (xs ++ b ∷ ys)
    → Ascending q (xs ++ b ∷ ys)
    → AllSmaller h.length size xs
    → size ≤ h.length b
    → h.length b < size + header
    → size + header < 2 ^ 64
    → length xs < k
    → freelist_get_free_block k p size h ≡ ok (take_whole b h)
unfolding freelist_get_free_block
get_free_block-whole k h q p size b xs ys d s small fits tight bound fuel =
    let (j, e) = skip xs k h q p size b ys d s small bound fuel in
    e ∙ ground (arith, Ascending-behind xs q b ys s)

-- A search that begins at the block itself ends there at once.
pub get_free_block-here :
    (k j : ℕ) (h : Heap) (b size : ℕ)
    → null < b
    → size ≤ h.length b
    → size + header < 2 ^ 64
    → freelist_get_free_block (suc k) b size h ≡ freelist_get_free_block (suc j) b size h
unfolding freelist_get_free_block
get_free_block-here k j h b size pos large bound = ground arith

pub get_free_block-skip :
    (k : ℕ) (h : Heap) (q p size b : ℕ) (xs ys : List Ptr)
    → Dll h.prev h.next q p (xs ++ b ∷ ys)
    → Ascending q (xs ++ b ∷ ys)
    → AllSmaller h.length size xs
    → size ≤ h.length b
    → size + header < 2 ^ 64
    → freelist_get_free_block (suc k) b size h ≡ freelist_get_free_block (suc (length xs)) p size h
get_free_block-skip k h q p size b xs ys d s small large bound =
    let (j, e) = skip xs (suc (length xs)) h q p size b ys d s small bound (omega arith) in
    let (l, _) = Ascending-behind xs q b ys s in
    get_free_block-here k j h b size (omega arith) large bound ∙ sym e
