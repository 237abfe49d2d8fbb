-- ===== src/FreeList/Layout.antt =====
-- Where the free blocks lie: in ascending order and apart, each a header and its bytes.
use tlpi_exercises.Base.{◌+◌, ◌<◌, ◌≤◌, ◌^◌, ◌≡◌, true, List, [], ◌∷◌, ◌++◌, arith, has}
use tlpi_exercises.Base.{ℕ}
use tlpi_exercises.FreeList.{Ptr, null, header, Heap}
use tlpi_exercises.FreeList.Chain.{Dll, Ascending, IsFreeList}

-- The blocks `xs` lie one behind the other in the bytes from `lo` to `hi`.
abbrev pub Layout : (Ptr → ℕ) → ℕ → ℕ → List Ptr → Type 0
Layout len lo hi [] = lo ≤ hi
Layout len lo hi (x ∷ xs) = (lo ≤ x) × Layout len (x + header + len x) hi xs

-- The free list of `h` is `xs`, and its blocks lie apart below the address `hi`.
pub record IsValid (h : Heap) (hi : ℕ) (xs : List Ptr) : Type 0 where
  pub chain : Dll h.prev h.next null h.free_list xs
  pub layout : Layout h.length 1 hi xs
  pub bound : hi < 2 ^ 64

pub Layout-le : (len : Ptr → ℕ) (xs : List Ptr) (lo hi : ℕ) → Layout len lo hi xs → lo ≤ hi
Layout-le len [] lo hi l = l
Layout-le len (x ∷ xs) lo hi l = omega (arith, Layout-le len xs (x + header + len x) hi l.1)

pub Layout-weaken :
    (len : Ptr → ℕ) (xs : List Ptr) (lo lo' hi : ℕ)
    → Layout len lo hi xs
    → lo' ≤ lo
    → Layout len lo' hi xs
Layout-weaken len [] lo lo' hi l h = omega arith
Layout-weaken len (x ∷ xs) lo lo' hi l h = (omega arith, l.1)

pub Layout-frame :
    (len len' : Ptr → ℕ) (xs : List Ptr) (lo hi : ℕ)
    → Layout len lo hi xs
    → ((a : Ptr) → has a xs ≡ true → len' a ≡ len a)
    → Layout len' lo hi xs
Layout-frame len len' [] lo hi l same = l
Layout-frame len len' (x ∷ xs) lo hi l same = (
  l.0,
  Layout-weaken len' xs (x + header + len x) (x + header + len' x) hi
      (Layout-frame len len' xs (x + header + len x) hi l.1 λ a i. same a (ground arith))
      (omega (arith, same x (ground arith))),
)

pub Layout-Ascending :
    (len : Ptr → ℕ) (xs : List Ptr) (lo hi q : ℕ) → Layout len lo hi xs → q < lo → Ascending q xs
Layout-Ascending len [] lo hi q l h = tt
Layout-Ascending len (x ∷ xs) lo hi q l h =
    (omega arith, Layout-Ascending len xs (x + header + len x) hi x l.1 (omega arith))

-- The part from the block `b` on, and the layout with that part put anew.
pub Layout-behind :
    (len : Ptr → ℕ) (xs : List Ptr) (lo hi b : ℕ) (ys : List Ptr)
    → Layout len lo hi (xs ++ b ∷ ys)
    → (lo ≤ b) × Layout len (b + header + len b) hi ys
Layout-behind len [] lo hi b ys l = l
Layout-behind len (x ∷ xs) lo hi b ys l =
    let (h, t) = Layout-behind len xs (x + header + len x) hi b ys l.1 in (omega arith, t)

pub Layout-splice :
    (len len' : Ptr → ℕ) (xs : List Ptr) (lo hi b : ℕ) (ys zs : List Ptr)
    → Layout len lo hi (xs ++ b ∷ ys)
    → ((a : Ptr) → has a xs ≡ true → len' a ≡ len a)
    → Layout len' b hi zs
    → Layout len' lo hi (xs ++ zs)
Layout-splice len len' [] lo hi b ys zs l same t = Layout-weaken len' zs b lo hi t l.0
Layout-splice len len' (x ∷ xs) lo hi b ys zs l same t = (
  l.0,
  Layout-weaken len' (xs ++ zs) (x + header + len x) (x + header + len' x) hi
      (Layout-splice len len' xs (x + header + len x) hi b ys zs l.1 (λ a i. same a (ground arith))
        t)
      (omega (arith, same x (ground arith))),
)

pub IsValid-IsFreeList : {h : Heap} {hi : ℕ} {xs : List Ptr} → IsValid h hi xs → IsFreeList h xs
IsValid-IsFreeList {h} {hi} {xs} v = record {
  chain = v.chain;
  order = Layout-Ascending h.length xs 1 hi null v.layout (omega arith);
}
