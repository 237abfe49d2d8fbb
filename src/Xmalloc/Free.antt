-- ===== src/Xmalloc/Free.antt =====
-- What `xfree` leaves: the block is on the list, merged with the neighbours that it touches.
use tlpi_exercises.Base.{
  ℕ, ◌+◌, ◌^◌, ◌<◌, ◌≤◌, ◌≡◌, refl, ◌∙◌, ap, inl, inr, Bool-cases, false, List, [], ◌∷◌, ◌++◌,
  arith, has, ltb, length, length-append, ◌==◌,
}
use mathlib.Core.List.{append_assoc}
use tlpi_exercises.FreeList.{Ptr, null, header, add_size, Heap, block_merge}
use tlpi_exercises.FreeList.Bytes.{covers}
use tlpi_exercises.FreeList.Chain.{Dll-behind}
use tlpi_exercises.FreeList.Insert.{place}
use tlpi_exercises.FreeList.Layout.{IsValid, Layout-behind, Layout-le}
use tlpi_exercises.FreeList.Merge.{block_merge-IsValid, covers-block_merge, next-block_merge}
use tlpi_exercises.Xmalloc.{merge_before, merge_behind, merge_neighbours}

-- The list with one block more, cut at that block.
pub place-split :
    (xs : List Ptr) (b : Ptr)
    → has b xs ≡ false
    → (pre post : List Ptr) × (place b xs ≡ pre ++ b ∷ post) × (xs ≡ pre ++ post)
unfolding place
place-split [] b out = ([], [], refl, refl)
place-split (x ∷ xs) b out = elim (Bool-cases (ltb b x)) [
  | inl before ↦ ([], x ∷ xs, ground arith, refl)
  | inr after ↦
      let (pre, post, e, f) = place-split xs b (ground arith) in
      (x ∷ pre, post, ground arith, ap (λ r. x ∷ r) f)
]

pub length-place : (xs : List Ptr) (b : Ptr) → length (place b xs) ≤ length xs + 1
unfolding place
length-place [] b = omega arith
length-place (x ∷ xs) b = ground (arith, length-place xs b)

pub snoc-cases : (x : Ptr) (xs : List Ptr) → (ys : List Ptr) × (y : Ptr) × (x ∷ xs ≡ ys ++ y ∷ [])
snoc-cases x [] = ([], x, refl)
snoc-cases x (z ∷ zs) = let (ys, y, e) = snoc-cases z zs in (x ∷ ys, y, ap (λ r. x ∷ r) e)

-- What both merges keep: a valid list of the same bytes, with no more nodes.
pub record Keeps (h : Heap) (hi : ℕ) (xs : List Ptr) (h' : Heap) (ys : List Ptr) : Type 0 where
  pub valid : IsValid h' hi ys
  pub bytes : (a : Ptr) → covers h'.length ys a ≡ covers h.length xs a
  pub shorter : length ys ≤ length xs

Keeps-refl : (h : Heap) (hi : ℕ) (xs : List Ptr) → IsValid h hi xs → Keeps h hi xs h xs
Keeps-refl h hi xs v = record { valid = v; bytes = λ a. refl; shorter = omega arith }

Keeps-merge :
    (h : Heap) (hi : ℕ) (xs : List Ptr) (l r : Ptr) (ys : List Ptr)
    → IsValid h hi (xs ++ l ∷ r ∷ ys)
    → l + header + h.length l ≡ r
    → Keeps h hi (xs ++ l ∷ r ∷ ys) (block_merge l r h).1 (xs ++ l ∷ ys)
Keeps-merge h hi xs l r ys v touch = record {
  valid = (block_merge-IsValid h hi xs l r ys v touch).1;
  bytes = λ a. covers-block_merge h hi xs l r ys a v touch;
  shorter = omega (arith, length-append xs (l ∷ ys), length-append xs (l ∷ r ∷ ys));
}

Keeps-trans :
    (h h' h'' : Heap) (hi : ℕ) (xs ys zs : List Ptr)
    → Keeps h hi xs h' ys
    → Keeps h' hi ys h'' zs
    → Keeps h hi xs h'' zs
Keeps-trans h h' h'' hi xs ys zs k l = record {
  valid = l.valid;
  bytes = λ a. l.bytes a ∙ k.bytes a;
  shorter = omega (arith, k.shorter, l.shorter);
}

-- The test of the code, at addresses that do not wrap round.
touches :
    (b y : Ptr) (h : Heap)
    → b + header + h.length b < 2 ^ 64
    → add_size (add_size b (h.length b)) header ≡ b + header + h.length b
touches b y h bound = omega arith

merge_behind-yes :
    (b y : Ptr) (h : Heap)
    → null < y
    → add_size (add_size b (h.length b)) header ≡ y
    → merge_behind b y h ≡ (block_merge b y h).1
unfolding merge_behind
merge_behind-yes b y h pos t = ground arith

merge_behind-no :
    (b y : Ptr) (h : Heap)
    → (add_size (add_size b (h.length b)) header == y) ≡ false
    → merge_behind b y h ≡ h
unfolding merge_behind
merge_behind-no b y h t = ground arith

merge_behind-null : (b : Ptr) (h : Heap) → merge_behind b null h ≡ h
unfolding merge_behind
merge_behind-null b h = refl

merge_before-yes :
    (l b : Ptr) (h : Heap)
    → null < l
    → add_size (add_size l (h.length l)) header ≡ b
    → merge_before l b h ≡ block_merge l b h
unfolding merge_before
merge_before-yes l b h pos t = ground arith

merge_before-no :
    (l b : Ptr) (h : Heap)
    → (add_size (add_size l (h.length l)) header == b) ≡ false
    → merge_before l b h ≡ (b, h)
unfolding merge_before
merge_before-no l b h t = ground arith

merge_before-null : (b : Ptr) (h : Heap) → merge_before null b h ≡ (b, h)
unfolding merge_before
merge_before-null b h = refl

-- two neighbours on a valid list
pair-bounds :
    (h : Heap) (hi : ℕ) (xs : List Ptr) (l r : Ptr) (ys : List Ptr)
    → IsValid h hi (xs ++ l ∷ r ∷ ys)
    → (null < l) × (l + header + h.length l ≤ r) × (r ≤ hi)
pair-bounds h hi xs l r ys v =
    let (low, b) = Layout-behind h.length xs 1 hi l (r ∷ ys) v.layout in
    (omega arith, b.0, omega (arith, Layout-le h.length ys (r + header + h.length r) hi b.1))

merge_behind-Keeps :
    (h : Heap) (hi : ℕ) (xs : List Ptr) (b : Ptr) (ys : List Ptr)
    → IsValid h hi (xs ++ b ∷ ys)
    → (zs : List Ptr) × Keeps h hi (xs ++ b ∷ ys) (merge_behind b (h.next b) h) zs
merge_behind-Keeps h hi xs b [] v =
    let d : h.next b ≡ null = Dll-behind xs h.prev h.next null h.free_list b [] v.chain in
    (xs ++ b ∷ [], rw (d, merge_behind-null b h) (Keeps-refl h hi (xs ++ b ∷ []) v))
merge_behind-Keeps h hi xs b (y ∷ ys) v =
    let d : h.next b ≡ y = (Dll-behind xs h.prev h.next null h.free_list b (y ∷ ys) v.chain).0 in
    let (pos, low, top) = pair-bounds h hi xs b y ys v in
    elim (Bool-cases (add_size (add_size b (h.length b)) header == y)) [
      | inl touch ↦
          let t : add_size (add_size b (h.length b)) header ≡ y = ground arith in
          (
            xs ++ b ∷ ys,
            rw (d, merge_behind-yes b y h (omega arith) t)
                (Keeps-merge h hi xs b y ys v (omega (arith, v.bound))),
          )
      | inr off ↦ (
        xs ++ b ∷ y ∷ ys,
        rw (d, merge_behind-no b y h off) (Keeps-refl h hi (xs ++ b ∷ y ∷ ys) v),
      )
    ]

merge_neighbours-null :
    (h : Heap) (b : Ptr) → h.prev b ≡ null → merge_neighbours b h ≡ merge_behind b (h.next b) h
unfolding merge_neighbours
merge_neighbours-null h b d = rw (d, merge_before-null b h)

merge_neighbours-no :
    (h : Heap) (l b : Ptr)
    → h.prev b ≡ l
    → (add_size (add_size l (h.length l)) header == b) ≡ false
    → merge_neighbours b h ≡ merge_behind b (h.next b) h
unfolding merge_neighbours
merge_neighbours-no h l b d off = rw (d, merge_before-no l b h off)

merge_neighbours-yes :
    (h : Heap) (l b : Ptr)
    → h.prev b ≡ l
    → null < l
    → l < b
    → add_size (add_size l (h.length l)) header ≡ b
    → (block_merge l b h).0 ≡ l
    → let h' = (block_merge l b h).1 in merge_neighbours b h ≡ merge_behind l (h'.next l) h'
unfolding merge_neighbours
merge_neighbours-yes h l b d pos lt t f =
    rw (d, merge_before-yes l b h pos t, f, next-block_merge h l b (omega arith))

merge_neighbours-Keeps_first :
    (h : Heap) (hi : ℕ) (b : Ptr) (ys : List Ptr)
    → IsValid h hi (b ∷ ys)
    → (zs : List Ptr) × Keeps h hi (b ∷ ys) (merge_neighbours b h) zs
merge_neighbours-Keeps_first h hi b ys v =
    rw (merge_neighbours-null h b v.chain.1) (merge_behind-Keeps h hi [] b ys v)

merge_neighbours-Keeps_second :
    (h : Heap) (hi : ℕ) (xs : List Ptr) (l b : Ptr) (ys : List Ptr)
    → IsValid h hi (xs ++ l ∷ b ∷ ys)
    → (zs : List Ptr) × Keeps h hi (xs ++ l ∷ b ∷ ys) (merge_neighbours b h) zs
merge_neighbours-Keeps_second h hi xs l b ys v =
    let d : h.prev b ≡ l = (Dll-behind xs h.prev h.next null h.free_list l (b ∷ ys) v.chain).1 in
    let (pos, low, top) = pair-bounds h hi xs l b ys v in
    elim (Bool-cases (add_size (add_size l (h.length l)) header == b)) [
      | inl touch ↦
          let t : add_size (add_size l (h.length l)) header ≡ b = ground arith in
          let h' = (block_merge l b h).1 in
          let meet : l + header + h.length l ≡ b = omega (arith, v.bound) in
          let f = (block_merge-IsValid h hi xs l b ys v meet).0 in
          let first = Keeps-merge h hi xs l b ys v meet in
          let (zs, second) = merge_behind-Keeps h' hi xs l ys first.valid in
          (
            zs,
            rw (merge_neighbours-yes h l b d pos (omega arith) t f) (
                Keeps-trans h h' (merge_behind l (h'.next l) h') hi (xs ++ l ∷ b ∷ ys)
                  (xs ++ l ∷ ys) zs first second),
          )
      | inr off ↦
          let e = append_assoc xs (l ∷ []) (b ∷ ys) in
          let (zs, second) = merge_behind-Keeps h hi (xs ++ l ∷ []) b ys (rw e v) in
          (zs, rw (merge_neighbours-no h l b d off) (rw e at second))
    ]

-- The merges of `xfree` keep the list valid, and the bytes that it covers.
pub merge_neighbours-Keeps :
    (h : Heap) (hi : ℕ) (xs : List Ptr) (b : Ptr) (ys : List Ptr)
    → IsValid h hi (xs ++ b ∷ ys)
    → (zs : List Ptr) × Keeps h hi (xs ++ b ∷ ys) (merge_neighbours b h) zs
merge_neighbours-Keeps h hi [] b ys v = merge_neighbours-Keeps_first h hi b ys v
merge_neighbours-Keeps h hi (x ∷ xs) b ys v =
    let (zs, l, e) = snoc-cases x xs in
    let e' : (x ∷ xs) ++ b ∷ ys ≡ zs ++ l ∷ b ∷ ys =
      ap (λ (t : List Ptr). t ++ b ∷ ys) e ∙ append_assoc zs (l ∷ []) (b ∷ ys) in
    rw e' (merge_neighbours-Keeps_second h hi zs l b ys (rw e' at v))

pub merge_neighbours-alone :
    (h : Heap) (b : Ptr) → h.prev b ≡ null → h.next b ≡ null → merge_neighbours b h ≡ h
merge_neighbours-alone h b d n =
    merge_neighbours-null h b d ∙ ap (λ (t : Ptr). merge_behind b t h) n ∙ merge_behind-null b h
