-- ===== src/FreeList/Bytes.antt =====
-- The abstract view of a free list: the set of bytes that its blocks take up, headers included.
use tlpi_exercises.Base.{
  ℕ, ◌+◌, ◌≤◌, ◌<◌, ◌≡◌, refl, Bool, true, false, ◌&&◌, ◌||◌, List, [], ◌∷◌, ◌++◌, arith, leb, ltb,
  has,
}
use tlpi_exercises.FreeList.{Ptr, header}
use tlpi_exercises.FreeList.Insert.{place}
use tlpi_exercises.FreeList.Layout.{Layout, Layout-le, Layout-behind}

-- The byte `a` belongs to the block at `b` with `len` bytes.
abbrev pub in_block : Ptr → ℕ → Ptr → Bool
in_block b len a = leb b a && ltb a (b + header + len)

abbrev pub covers : (Ptr → ℕ) → List Ptr → Ptr → Bool
covers len [] a = false
covers len (x ∷ xs) a = in_block x (len x) a || covers len xs a

pub covers-append :
    (len : Ptr → ℕ) (xs ys : List Ptr) (a : Ptr)
    → covers len (xs ++ ys) a ≡ (covers len xs a || covers len ys a)
covers-append len [] ys a = refl
covers-append len (x ∷ xs) ys a = rw (covers-append len xs ys a) (ground arith)

pub covers-frame :
    (len len' : Ptr → ℕ) (xs : List Ptr) (a : Ptr)
    → ((x : Ptr) → has x xs ≡ true → len' x ≡ len x)
    → covers len' xs a ≡ covers len xs a
covers-frame len len' [] a same = refl
covers-frame len len' (x ∷ xs) a same =
    rw (same x (ground arith), covers-frame len len' xs a λ y i. same y (ground arith))

-- Putting a block on the list adds its bytes.
pub covers-place :
    (len : Ptr → ℕ) (xs : List Ptr) (b a : Ptr)
    → has b xs ≡ false
    → covers len (place b xs) a ≡ (in_block b (len b) a || covers len xs a)
unfolding place
covers-place len [] b a out = refl
covers-place len (x ∷ xs) b a out = ground (arith, covers-place len xs b a)

-- Taking a block out splits its bytes off.
pub covers-out :
    (len : Ptr → ℕ) (xs : List Ptr) (b : Ptr) (ys : List Ptr) (a : Ptr)
    → covers len (xs ++ b ∷ ys) a ≡ (in_block b (len b) a || covers len (xs ++ ys) a)
covers-out len [] b ys a = refl
covers-out len (x ∷ xs) b ys a = rw (covers-out len xs b ys a) (ground arith)

-- Two blocks that touch take up the bytes of one.
pub in_block-touch :
    (b n m a : ℕ)
    → (in_block b n a || in_block (b + header + n) m a) ≡ in_block b (n + header + m) a
in_block-touch b n m a = ground arith

pub covers-ge :
    (len : Ptr → ℕ) (ys : List Ptr) (lo hi a : ℕ)
    → Layout len lo hi ys
    → covers len ys a ≡ true
    → (lo ≤ a) × (a < hi)
covers-ge len [] lo hi a l c = absurd (cc)
covers-ge len (x ∷ xs) lo hi a l c = ground (
  arith,
  covers-ge len xs (x + header + len x) hi a l.1,
  Layout-le len xs (x + header + len x) hi l.1,
)

pub covers-lt :
    (len : Ptr → ℕ) (xs : List Ptr) (lo hi b : ℕ) (ys : List Ptr) (a : Ptr)
    → Layout len lo hi (xs ++ b ∷ ys)
    → covers len xs a ≡ true
    → a < b
covers-lt len [] lo hi b ys a l c = absurd (cc)
covers-lt len (x ∷ xs) lo hi b ys a l c = ground (
  arith,
  covers-lt len xs (x + header + len x) hi b ys a l.1,
  Layout-behind len xs (x + header + len x) hi b ys l.1,
)
