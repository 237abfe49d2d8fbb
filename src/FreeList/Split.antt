-- ===== src/FreeList/Split.antt =====
-- The search's branch that cuts a block in two: `block_split`, then `freelist_remove` of the left
-- part.
use tlpi_exercises.Base.{
  ltb, ℕ, ◌+◌, ◌-◌, ◌^◌, ◌<◌, ◌≤◌, ◌≡◌, ◌≢◌, refl, ◌∙◌, ap, inl, inr, Bool-cases, false, List, [],
  ◌∷◌, ◌++◌, arith, leb_of_le, has, ne_of_has,
}
use tlpi_exercises.FreeList.{
  Ptr, null, header, Heap, ok, update, add_size, sub_size, block_init, block_split, split_blocks,
  freelist_remove, take_part,
}
use tlpi_exercises.FreeList.Chain.{
  Dll, Ascending, IsFreeList, Dll-frame, Dll-frame_tail, Dll-behind, Dll-splice, Ascending-splice,
  lt_of_has, gt_of_has, has-append, not-has-Ascending,
}
use tlpi_exercises.FreeList.Layout.{
  Layout, IsValid, Layout-behind, Layout-frame, Layout-weaken, Layout-splice, Layout-le,
  Layout-Ascending,
}
use tlpi_exercises.FreeList.Remove.{
  freelist_remove-IsFreeList, remove-prev, remove-next, remove-head, length-freelist_remove,
}

-- where the right part begins
abbrev pub right_of : Ptr → ℕ → Ptr
right_of b size = b + header + size

-- The heap after `block_split` of `b`.
abbrev pub cut : Ptr → ℕ → Heap → Heap
cut b size h = record h {
  prev = update h.prev (right_of b size) b;
  next = update (update h.next (right_of b size) (h.next b)) b (right_of b size);
  length = update (update h.length (right_of b size) (h.length b - size - header)) b size;
}

-- What the branch leaves: the left part is off the list and its header is set anew.
abbrev pub taken_part : Ptr → ℕ → Heap → Heap
taken_part b size h =
    let h2 = block_init b (freelist_remove b (cut b size h)) in
    record h2 { length = update h2.length b size }

block_split-cut :
    (b size : ℕ) (h : Heap)
    → size + header ≤ h.length b
    → b + header + h.length b < 2 ^ 64
    → block_split b size h ≡ ok (b, right_of b size, cut b size h)
unfolding block_split split_blocks
block_split-cut b size h fits bound =
    let e1 : add_size (add_size b header) size ≡ right_of b size = omega arith in
    let e2 : sub_size (sub_size (h.length b) size) header ≡ h.length b - size - header =
      omega arith in
    let e3 : add_size size header ≡ size + header = omega arith in
    let e4 : ltb (size + header) size ≡ false = ground arith in
    simp (e3, e1, e2, e4, leb_of_le _ _ fits)

-- The write that `block_split` leaves out: the `prev` link of the node behind the right part.
abbrev pub relink_prev : List Ptr → Ptr → (Ptr → Ptr) → Ptr → Ptr
relink_prev [] r prev = prev
relink_prev (y ∷ ys) r prev = update prev y r

abbrev pub relink : List Ptr → Ptr → Heap → Heap
relink ys r h = record h { prev = relink_prev ys r h.prev }

relink_prev_ne :
    (ys : List Ptr) (r : Ptr) (prev : Ptr → Ptr) (b a : Ptr)
    → Ascending b ys
    → a ≤ b
    → relink_prev ys r prev a ≡ prev a
relink_prev_ne [] r prev b a s l = refl
relink_prev_ne (y ∷ ys) r prev b a s l = ground arith

behind-relink :
    (ys : List Ptr) (prev next prev' next' : Ptr → Ptr) (b r : Ptr)
    → Dll prev next b (next b) ys
    → Ascending r ys
    → next' r ≡ next b
    → ((a : Ptr) → r < a → (prev' a ≡ prev a) × (next' a ≡ next a))
    → Dll (relink_prev ys r prev') next' r (next' r) ys
behind-relink [] prev next prev' next' b r d s e same = ground arith
behind-relink (y ∷ ys) prev next prev' next' b r d s e same =
    let y_out = not-has-Ascending ys y y s.1 (omega arith) in
    (
      ground arith,
      ground arith,
      Dll-frame_tail ys y d.2 (same y s.0).1 λ a i. (
        ground (arith, gt_of_has ys y a s.1, same a),
        ground (arith, gt_of_has ys y a s.1, same a),
      ),
    )

-- Taking `b` out and the missing write commute.
remove-relink_prev :
    (ys : List Ptr) (h : Heap) (b r a : Ptr)
    → Ascending r ys
    → b < r
    → h.next b ≡ r
    → a ≢ b
    → relink_prev ys r (update (freelist_remove b h).prev b null) a
      ≡ (freelist_remove b (relink ys r h)).prev a
remove-relink_prev [] h b r a s l n ne = ground arith
remove-relink_prev (y ∷ ys) h b r a s l n ne =
    ground (arith, remove-prev b h a, remove-prev b (relink (y ∷ ys) r h) a)

module _ (h : Heap) (hi b size : ℕ) (xs ys : List Ptr) (v : IsValid h hi (xs ++ b ∷ ys))
    (fits : size + header ≤ h.length b) where
  abbrev r : Ptr
  r = right_of b size

  rest : Layout h.length (b + header + h.length b) hi ys
  rest = (Layout-behind h.length xs 1 hi b ys v.layout).1

  order : Ascending null (xs ++ b ∷ ys)
  order = Layout-Ascending h.length (xs ++ b ∷ ys) 1 hi null v.layout (omega arith)

  below_hi : b + header + h.length b < 2 ^ 64
  below_hi = omega (arith, Layout-le h.length ys (b + header + h.length b) hi rest, v.bound)

  ys_above : Ascending r ys
  ys_above = Layout-Ascending h.length ys (b + header + h.length b) hi r rest (omega arith)

  -- After the missing write the list holds both parts.
  cut-IsFreeList : IsFreeList (relink ys r (cut b size h)) (xs ++ b ∷ r ∷ ys)
  cut-IsFreeList = record {
    chain =
        Dll-splice xs null h.free_list b ys (r ∷ ys) v.chain
          (λ a i.
            let l = (lt_of_has xs null b ys a order i).1 in
            (
              relink_prev_ne ys r (cut b size h).prev r a ys_above (omega arith) ∙ ground arith,
              ground arith,
            ))
          (relink_prev_ne ys r (cut b size h).prev r b ys_above (omega arith) ∙ ground arith)
          (
            ground arith,
            relink_prev_ne ys r (cut b size h).prev r r ys_above (omega arith) ∙ ground arith,
            behind-relink ys h.prev h.next _ _ b r
                (Dll-behind xs h.prev h.next null h.free_list b ys v.chain) ys_above (ground arith)
                λ a i. (ground arith, ground arith),
          );
    order = Ascending-splice xs null b ys (r ∷ ys) order (omega arith, ys_above);
  }

  abbrev taken : Heap
  taken = taken_part b size h

  pub take_part-taken : take_part b size h ≡ ok (b, taken_part b size h)
  unfolding take_part
  take_part-taken = rw (block_split-cut b size h fits below_hi)

  taken-prev :
      (a : Ptr)
      → a ≢ b
      → (relink ys r taken).prev a ≡ (freelist_remove b (relink ys r (cut b size h))).prev a
  unfolding block_init
  taken-prev a ne =
      remove-relink_prev ys (cut b size h) b r a ys_above (omega arith) (ground arith) ne

  taken-next :
      (a : Ptr)
      → a ≢ b
      → (relink ys r taken).next a ≡ (freelist_remove b (relink ys r (cut b size h))).next a
  unfolding block_init
  taken-next a ne = ground (
    arith,
    remove-next b (cut b size h) a,
    remove-next b (relink ys r (cut b size h)) a,
    relink_prev_ne ys r (cut b size h).prev r b ys_above (omega arith),
  )

  taken-head : taken.free_list ≡ (freelist_remove b (relink ys r (cut b size h))).free_list
  unfolding block_init
  taken-head = ground (
    arith,
    remove-head b (cut b size h),
    remove-head b (relink ys r (cut b size h)),
    relink_prev_ne ys r (cut b size h).prev r b ys_above (omega arith),
  )

  off : has b (xs ++ r ∷ ys) ≡ false
  off = elim (Bool-cases (has b xs)) [
    | inl i ↦ absurd (omega (arith, lt_of_has xs null b ys b order i))
    | inr o ↦ ground (arith, has-append xs (r ∷ ys) b, not-has-Ascending ys r b ys_above)
  ]

  taken-IsFreeList : IsFreeList (relink ys r taken) (xs ++ r ∷ ys)
  taken-IsFreeList =
      let f =
        freelist_remove-IsFreeList (relink ys r (cut b size h)) xs b (r ∷ ys) cut-IsFreeList in
      record {
        chain = rw taken-head (
            Dll-frame (xs ++ r ∷ ys) null _ f.chain λ a i.
              let ne = ne_of_has (xs ++ r ∷ ys) a b i off in (taken-prev a ne, taken-next a ne));
        order = f.order;
      }

  -- the lengths: the left part has `size` bytes, the right part what is left behind its header
  taken-length : (a : Ptr) → taken.length a ≡ (cut b size h).length a
  unfolding block_init
  taken-length a =
      ground (arith, ap (λ (f : Ptr → ℕ). f a) (length-freelist_remove b (cut b size h)))

  length-other : (a : Ptr) → a ≢ b → a ≢ r → taken.length a ≡ h.length a
  length-other a nb nr = taken-length a ∙ ground arith

  length-right : taken.length r ≡ h.length b - size - header
  length-right = taken-length r ∙ ground arith

  taken-Layout : Layout taken.length 1 hi (xs ++ r ∷ ys)
  taken-Layout =
      Layout-splice h.length taken.length xs 1 hi b ys (r ∷ ys) v.layout
        (λ a i.
          let l = (lt_of_has xs null b ys a order i).1 in
          length-other a (omega arith) (omega arith))
        (
          omega arith,
          Layout-weaken taken.length ys (b + header + h.length b) (r + header + taken.length r) hi
              (Layout-frame h.length taken.length ys (b + header + h.length b) hi rest λ a i.
                let l = gt_of_has ys r a ys_above i in length-other a (omega arith) (omega arith))
              (omega (arith, length-right)),
        )

  pub take_part-IsValid : IsValid (relink ys r taken) hi (xs ++ r ∷ ys)
  take_part-IsValid = record {
    chain = taken-IsFreeList.chain;
    layout = taken-Layout;
    bound = v.bound;
  }

  -- The block handed out has `size` bytes and no links; the rest of the block it was cut from,
  -- less a header, is the right part, and no other length changes.
  pub take_part-headers :
      (taken.length b ≡ size)
      × (taken.prev b ≡ null)
      × (taken.next b ≡ null)
      × (taken.length r ≡ h.length b - size - header)
      × ((a : Ptr) → a ≢ b → a ≢ r → taken.length a ≡ h.length a)
  unfolding block_init
  take_part-headers = (ground arith, ground arith, ground arith, length-right, length-other)

-- The node behind the block still points back at it: `block_split` does not write that link.
pub taken-prev_behind :
    (h : Heap) (hi b size : ℕ) (xs : List Ptr) (y : Ptr) (ys : List Ptr)
    → IsValid h hi (xs ++ b ∷ y ∷ ys)
    → size + header ≤ h.length b
    → (taken_part b size h).prev y ≡ b
unfolding block_init
taken-prev_behind h hi b size xs y ys v fits =
    let d = Dll-behind xs h.prev h.next null h.free_list b (y ∷ ys) v.chain in
    let a = ys_above h hi b size xs (y ∷ ys) v fits in
    ground (arith, remove-prev b (cut b size h) y)
