-- ===== src/FreeList/FirstFit.antt =====
-- What `freelist_get_free_block` does to a valid free list: first fit.
use tlpi_exercises.Base.{
  ℕ, ◌+◌, ◌-◌, ◌<◌, ◌≤◌, ◌≡◌, ◌≢◌, refl, ◌||◌, ◌⊎◌, leb, ◌∙◌, ap, inl, inr, Bool-cases, true, false,
  List, [], ◌∷◌, ◌++◌, arith, ne_of_has, length, length-append,
}
use tlpi_exercises.FreeList.{
  Ptr, null, header, Heap, ok, update, freelist_remove, take_whole, freelist_get_free_block,
  is_freelist_sane,
}
use tlpi_exercises.FreeList.Chain.{Dll-frame, not-has-cut, lt_of_has, Dll-Forward, Dll-prev_behind}
use tlpi_exercises.FreeList.Bytes.{
  in_block, covers, covers-append, covers-frame, covers-out, covers-ge, covers-lt,
}
use tlpi_exercises.FreeList.Layout.{
  Layout, IsValid, IsValid-IsFreeList, Layout-behind, Layout-splice, Layout-weaken, Layout-frame,
  Layout-le,
}
use tlpi_exercises.FreeList.Remove.{freelist_remove-IsFreeList, length-freelist_remove}
use tlpi_exercises.FreeList.Sane.{is_freelist_sane-false}
use tlpi_exercises.FreeList.Search.{AllSmaller, get_free_block-part, get_free_block-whole}
use tlpi_exercises.FreeList.Split.{
  right_of, taken_part, take_part-taken, take_part-IsValid, take_part-headers, taken-prev_behind,
}

-- the first block of at least `size` bytes is `b`, between `xs` and `ys`
pub record Fits (h : Heap) (hi size : ℕ) (xs : List Ptr) (b : Ptr) (ys : List Ptr) : Type 0 where
  pub valid : IsValid h hi (xs ++ b ∷ ys)
  pub smaller : AllSmaller h.length size xs
  pub large : size ≤ h.length b

block_end :
    (h : Heap) (hi b : ℕ) (xs ys : List Ptr)
    → IsValid h hi (xs ++ b ∷ ys)
    → b + header + h.length b ≤ hi
block_end h hi b xs ys v =
    Layout-le h.length ys (b + header + h.length b) hi
      (Layout-behind h.length xs 1 hi b ys v.layout).1

take_whole-block : (b : Ptr) (h : Heap) → ok (take_whole b h) ≡ ok (b, (take_whole b h).1)
unfolding take_whole
take_whole-block b h = refl

take_whole-fields :
    (b : Ptr) (h : Heap)
    → let t = (take_whole b h).1 in
      ((a : Ptr)
        → a ≢ b
        → (t.prev a ≡ (freelist_remove b h).prev a) × (t.next a ≡ (freelist_remove b h).next a))
      × (t.free_list ≡ (freelist_remove b h).free_list)
      × ((a : Ptr) → t.length a ≡ h.length a)
      × (t.prev b ≡ null)
      × (t.next b ≡ null)
unfolding take_whole
take_whole-fields b h = (
  (λ a ne. (ground arith, ground arith)),
  ground arith,
  (λ a. ground (arith, ap (λ (f : Ptr → ℕ). f a) (length-freelist_remove b h))),
  ground arith,
  ground arith,
)

-- Where the first block of at least `size` bytes has no room for a header behind them, the search
-- hands out the whole block: it returns that block, unlinked and with its length kept, and the
-- valid list of the other blocks; no length changes.
pub first_fit-whole :
    (k : ℕ) (h : Heap) (hi size : ℕ) (xs : List Ptr) (b : Ptr) (ys : List Ptr)
    → Fits h hi size xs b ys
    → h.length b < size + header
    → length xs < k
    → (h' : Heap) × (freelist_get_free_block k h.free_list size h ≡ ok (b, h'))
      × IsValid h' hi (xs ++ ys)
      × (h'.prev b ≡ null)
      × (h'.next b ≡ null)
      × ((a : Ptr) → h'.length a ≡ h.length a)
first_fit-whole k h hi size xs b ys f tight fuel =
    let free = IsValid-IsFreeList f.valid in
    let low = block_end h hi b xs ys f.valid in
    let (same, head, len, p, n) = take_whole-fields b h in
    let h' = (take_whole b h).1 in
    (
      h',
      get_free_block-whole k h null h.free_list size b xs ys f.valid.chain free.order f.smaller
            f.large tight (omega (arith, f.valid.bound)) fuel
          ∙ take_whole-block b h,
      record {
        chain = rw head (
            Dll-frame (xs ++ ys) null _ (freelist_remove-IsFreeList h xs b ys free).chain
              λ a i. same a (ne_of_has (xs ++ ys) a b i (not-has-cut xs null b ys free.order)));
        layout =
            Layout-splice h.length h'.length xs 1 hi b ys ys f.valid.layout (λ a i. len a)
              (Layout-weaken h'.length ys (b + header + h.length b) b hi
                (Layout-frame h.length h'.length ys (b + header + h.length b) hi
                  (Layout-behind h.length xs 1 hi b ys f.valid.layout).1 λ a i. len a)
                (omega arith));
        bound = f.valid.bound;
      },
      p,
      n,
      len,
    )

-- Where the first block of at least `size` bytes has room for a header behind them and is the last
-- of the list, the search cuts it: it returns the block with length `size`, unlinked, and the valid
-- list in which the rest of the block, less a header, stands in its place.
pub first_fit-part :
    (k : ℕ) (h : Heap) (hi size : ℕ) (xs : List Ptr) (b : Ptr)
    → Fits h hi size xs b []
    → size + header ≤ h.length b
    → length xs < k
    → (h' : Heap) × (freelist_get_free_block k h.free_list size h ≡ ok (b, h'))
      × IsValid h' hi (xs ++ right_of b size ∷ [])
      × (h'.length b ≡ size)
      × (h'.prev b ≡ null)
      × (h'.next b ≡ null)
      × (h'.length (right_of b size) ≡ h.length b - size - header)
      × ((a : Ptr) → a ≢ b → a ≢ right_of b size → h'.length a ≡ h.length a)
first_fit-part k h hi size xs b f room fuel =
    let free = IsValid-IsFreeList f.valid in
    let low = block_end h hi b xs [] f.valid in
    let (l, p, n, right, other) = take_part-headers h hi b size xs [] f.valid room in
    (
      taken_part b size h,
      get_free_block-part k h null h.free_list size b xs [] f.valid.chain free.order f.smaller room
            (omega (arith, f.valid.bound)) fuel
          ∙ take_part-taken h hi b size xs [] f.valid room,
      take_part-IsValid h hi b size xs [] f.valid room,
      l,
      p,
      n,
      right,
      other,
    )

-- Where the block that is cut has a successor `y`, the link back from `y` is left as it was: it
-- leads to the block handed out, and `is_freelist_sane` answers `false`. With that one link set to
-- the rest of the block the list would be valid.
pub first_fit-broken :
    (k : ℕ) (h : Heap) (hi size : ℕ) (xs : List Ptr) (b y : Ptr) (ys : List Ptr)
    → Fits h hi size xs b (y ∷ ys)
    → size + header ≤ h.length b
    → length (xs ++ b ∷ y ∷ ys) < k
    → (h' : Heap) × (freelist_get_free_block k h.free_list size h ≡ ok (b, h'))
      × (h'.prev y ≡ b)
      × (is_freelist_sane k h' ≡ ok false)
      × IsValid
          (record h' { prev = update h'.prev y (right_of b size) })
          hi
          (xs ++ right_of b size ∷ y ∷ ys)
first_fit-broken k h hi size xs b y ys f room fuel =
    let free = IsValid-IsFreeList f.valid in
    let low = block_end h hi b xs (y ∷ ys) f.valid in
    let h' = taken_part b size h in
    let stale = taken-prev_behind h hi b size xs y ys f.valid room in
    let v = take_part-IsValid h hi b size xs (y ∷ ys) f.valid room in
    let fwd =
      Dll-Forward (xs ++ right_of b size ∷ y ∷ ys) _ h'.next null h'.free_list v.chain
        (IsValid-IsFreeList v).order in
    (
      h',
      get_free_block-part k h null h.free_list size b xs (y ∷ ys) f.valid.chain free.order f.smaller
            room (omega (arith, f.valid.bound)) (omega (arith, length-append xs (b ∷ y ∷ ys)))
          ∙ take_part-taken h hi b size xs (y ∷ ys) f.valid room,
      stale,
      is_freelist_sane-false k h' (xs ++ right_of b size ∷ y ∷ ys) fwd
          (omega
            (arith, length-append xs (b ∷ y ∷ ys), length-append xs (right_of b size ∷ y ∷ ys)))
          (λ d. absurd (
            omega (
              arith,
              stale,
              Dll-prev_behind xs h'.prev h'.next null h'.free_list (right_of b size) y ys d,
            ))),
      v,
    )

-- What a successful search does to the free list: `b` is off it, and its bytes with it.
pub record HandsOut (h : Heap) (xs : List Ptr) (hi size : ℕ) (b : Ptr) (h' : Heap) (ys : List Ptr)
    : Type 0 where
  pub valid : IsValid h' hi ys
  pub large : size ≤ h'.length b
  pub unlinked : (h'.prev b ≡ null) × (h'.next b ≡ null)
  pub bytes :
      (a : Ptr) → covers h.length xs a ≡ (in_block b (h'.length b) a || covers h'.length ys a)
  pub apart : (a : Ptr) → in_block b (h'.length b) a ≡ true → covers h'.length ys a ≡ false
  pub others : (a : Ptr) → covers h.length xs a ≡ false → h'.length a ≡ h.length a

apart_whole :
    (len : Ptr → ℕ) (xs : List Ptr) (lo hi b : ℕ) (ys : List Ptr) (a : Ptr)
    → Layout len lo hi (xs ++ b ∷ ys)
    → in_block b (len b) a ≡ true
    → covers len (xs ++ ys) a ≡ false
apart_whole len xs lo hi b ys a l i =
    let behind = (Layout-behind len xs lo hi b ys l).1 in
    ground (
      arith,
      covers-append len xs ys a,
      covers-lt len xs lo hi b ys a l,
      covers-ge len ys (b + header + len b) hi a behind,
    )

first_fit-HandsOut_whole :
    (k : ℕ) (h : Heap) (hi size : ℕ) (xs : List Ptr) (b : Ptr) (ys : List Ptr)
    → Fits h hi size xs b ys
    → h.length b < size + header
    → length xs < k
    → (h' : Heap) × (freelist_get_free_block k h.free_list size h ≡ ok (b, h'))
      × HandsOut h (xs ++ b ∷ ys) hi size b h' (xs ++ ys)
first_fit-HandsOut_whole k h hi size xs b ys f tight fuel =
    let (h', e, v, p, n, len) = first_fit-whole k h hi size xs b ys f tight fuel in
    (
      h',
      e,
      record {
        valid = v;
        large = omega (arith, len b, f.large);
        unlinked = (p, n);
        bytes = λ a.
            rw (len b, covers-frame h.length h'.length (xs ++ ys) a (λ x i. len x))
              (covers-out h.length xs b ys a);
        apart = λ a i.
            rw (covers-frame h.length h'.length (xs ++ ys) a (λ x i. len x))
              (apart_whole h.length xs 1 hi b ys a f.valid.layout (rw (len b) at i));
        others = λ a c. len a;
      },
    )

first_fit-HandsOut_part :
    (k : ℕ) (h : Heap) (hi size : ℕ) (xs : List Ptr) (b : Ptr)
    → Fits h hi size xs b []
    → size + header ≤ h.length b
    → length xs < k
    → (h' : Heap) × (freelist_get_free_block k h.free_list size h ≡ ok (b, h'))
      × HandsOut h (xs ++ b ∷ []) hi size b h' (xs ++ right_of b size ∷ [])
first_fit-HandsOut_part k h hi size xs b f room fuel =
    let (h', e, v, lb, p, n, lr, other) = first_fit-part k h hi size xs b f room fuel in
    let order = (IsValid-IsFreeList f.valid).order in
    let same : (a : Ptr) → covers h'.length xs a ≡ covers h.length xs a = λ a.
      covers-frame h.length h'.length xs a
        λ x i. let l = lt_of_has xs null b [] x order i in other x (omega arith) (omega arith) in
    (
      h',
      e,
      record {
        valid = v;
        large = omega arith;
        unlinked = (p, n);
        bytes = λ a. ground (
          arith,
          covers-append h.length xs (b ∷ []) a,
          covers-append h'.length xs (right_of b size ∷ []) a,
          same a,
        );
        apart = λ a i. ground (
          arith,
          covers-append h'.length xs (right_of b size ∷ []) a,
          same a,
          covers-lt h.length xs 1 hi b [] a f.valid.layout,
        );
        others = λ a c. ground (arith, other a, covers-append h.length xs (b ∷ []) a);
      },
    )

-- Where the block is not cut, or has no successor, the search keeps the list valid: it hands out
-- the first block of at least `size` bytes, unlinked, and the bytes of the list are those of that
-- block and those of the new list, with nothing in common. No other header changes its length.
pub first_fit-HandsOut :
    (k : ℕ) (h : Heap) (hi size : ℕ) (xs : List Ptr) (b : Ptr) (ys : List Ptr)
    → Fits h hi size xs b ys
    → (h.length b < size + header) ⊎ (ys ≡ [])
    → length xs < k
    → (h' : Heap) × (zs : List Ptr) × (freelist_get_free_block k h.free_list size h ≡ ok (b, h'))
      × HandsOut h (xs ++ b ∷ ys) hi size b h' zs
first_fit-HandsOut k h hi size xs b ys f (inl tight) fuel =
    let (h', e, o) = first_fit-HandsOut_whole k h hi size xs b ys f tight fuel in
    (h', xs ++ ys, e, o)
first_fit-HandsOut k h hi size xs b [] f (inr last) fuel =
    elim (Bool-cases (leb (size + header) (h.length b))) [
      | inl room ↦
          let (h', e, o) = first_fit-HandsOut_part k h hi size xs b f (ground arith) fuel in
          (h', xs ++ right_of b size ∷ [], e, o)
      | inr tight ↦
          let (h', e, o) = first_fit-HandsOut_whole k h hi size xs b [] f (ground arith) fuel in
          (h', xs ++ [], e, o)
    ]
first_fit-HandsOut k h hi size xs b (y ∷ ys) f (inr last) fuel = absurd (cc)
