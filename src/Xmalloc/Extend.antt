-- ===== src/Xmalloc/Extend.antt =====
-- A block that `sbrk` returned is put on the free list, above all others.
use tlpi_exercises.Base.{
  ℕ, suc, ◌&&◌, leb, ltb, ◌==◌, ◌+◌, ◌-◌, ◌^◌, ◌<◌, ◌≤◌, ◌≡◌, ◌≢◌, refl, ◌∙◌, sym, ap, inr, true,
  false, ◌||◌, some, List, [], ◌∷◌, ◌++◌, arith, has, ne_of_has, length,
}
use tlpi_exercises.FreeList.{
  Ptr, null, header, sub_size, add_size, update, Heap, ok, block_init, freelist_insert,
  freelist_get_free_block,
}
use tlpi_exercises.FreeList.Bytes.{in_block, covers, covers-frame, covers-append}
use tlpi_exercises.FreeList.Chain.{Dll-frame, IsFreeList}
use tlpi_exercises.FreeList.FirstFit.{Fits, HandsOut, first_fit-HandsOut}
use tlpi_exercises.FreeList.Insert.{place, freelist_insert-IsFreeList}
use tlpi_exercises.FreeList.Layout.{Layout, IsValid, IsValid-IsFreeList, Layout-frame, Layout-le}
use tlpi_exercises.FreeList.Search.{AllSmaller, get_free_block-skip, get_free_block-null}
use tlpi_exercises.Xmalloc.{ProgramBreak, IsProgramBreak, State, extend, xmalloc}
use tlpi_exercises.Xmalloc.Alloc.{asked, grow-some}

not-has-above :
    (len : Ptr → ℕ) (xs : List Ptr) (lo hi a : ℕ) → Layout len lo hi xs → hi ≤ a → has a xs ≡ false
not-has-above len [] lo hi a l h = refl
not-has-above len (x ∷ xs) lo hi a l h = ground (
  arith,
  not-has-above len xs (x + header + len x) hi a l.1,
  Layout-le len xs (x + header + len x) hi l.1,
)

place-above :
    (len : Ptr → ℕ) (xs : List Ptr) (lo hi a : ℕ)
    → Layout len lo hi xs
    → hi ≤ a
    → place a xs ≡ xs ++ a ∷ []
unfolding place
place-above len [] lo hi a l h = refl
place-above len (x ∷ xs) lo hi a l h = ground (
  arith,
  place-above len xs (x + header + len x) hi a l.1,
  Layout-le len xs (x + header + len x) hi l.1,
)

Layout-snoc :
    (len : Ptr → ℕ) (xs : List Ptr) (lo hi a hi' : ℕ)
    → Layout len lo hi xs
    → hi ≤ a
    → a + header + len a ≤ hi'
    → Layout len lo hi' (xs ++ a ∷ [])
Layout-snoc len [] lo hi a hi' l h t = omega arith
Layout-snoc len (x ∷ xs) lo hi a hi' l h t =
    (l.0, Layout-snoc len xs (x + header + len x) hi a hi' l.1 h t)

-- `block_init` and the length of the new block
abbrev fresh : Ptr → ℕ → Heap → Heap
fresh a len h = let h1 = block_init a h in record h1 { length = update h1.length a len }

fresh-fields :
    (a : Ptr) (len : ℕ) (h : Heap)
    → let h1 = fresh a len h in
      (h1.free_list ≡ h.free_list)
      × (h1.prev a ≡ null)
      × (h1.next a ≡ null)
      × (h1.length a ≡ len)
      × ((x : Ptr)
          → x ≢ a
          → (h1.prev x ≡ h.prev x) × (h1.next x ≡ h.next x) × (h1.length x ≡ h.length x))
unfolding block_init
fresh-fields a len h = (
  refl,
  ground arith,
  ground arith,
  ground arith,
  λ x ne. (ground arith, ground arith, ground arith),
)

-- Inserting it gives a valid list up to its end.
insert-fresh :
    (k : ℕ) (h : Heap) (hi a len hi' : ℕ) (xs : List Ptr)
    → IsValid h hi xs
    → null < hi
    → hi ≤ a
    → a + header + len ≤ hi'
    → hi' < 2 ^ 64
    → length xs < k
    → (h2 : Heap) × (freelist_insert k a (fresh a len h) ≡ ok h2)
      × IsValid h2 hi' (xs ++ a ∷ [])
      × (h2.length a ≡ len)
      × ((x : Ptr) → x ≢ a → h2.length x ≡ h.length x)
insert-fresh k h hi a len hi' xs v pos above fits bound fuel =
    let (e1, e2, e3, e4, same) = fresh-fields a len h in
    let out = not-has-above h.length xs 1 hi a v.layout above in
    let h1 = fresh a len h in
    let free : IsFreeList h1 xs = record {
      chain = rw e1 (
          Dll-frame xs null h.free_list v.chain
            λ x i. let s = same x (ne_of_has xs x a i out) in (s.0, s.1));
      order = (IsValid-IsFreeList v).order;
    } in
    let (h2, e, f, l) = freelist_insert-IsFreeList k h1 a xs free (omega arith) out e2 e3 fuel in
    let len2 : (x : Ptr) → h2.length x ≡ h1.length x = λ x. ap (λ (g : Ptr → ℕ). g x) l in
    let other : (x : Ptr) → x ≢ a → h2.length x ≡ h.length x = λ x ne. len2 x ∙ (same x ne).2 in
    (
      h2,
      e,
      record {
        chain = rw (place-above h.length xs 1 hi a v.layout above) at f.chain;
        layout =
            Layout-snoc h2.length xs 1 hi a hi'
              (Layout-frame h.length h2.length xs 1 hi v.layout
                λ x i. other x (ne_of_has xs x a i out))
              above (omega (arith, len2 a, e4));
        bound = bound;
      },
      len2 a ∙ e4,
      other,
    )

AllSmaller-frame :
    (len len' : Ptr → ℕ) (size : ℕ) (xs : List Ptr)
    → AllSmaller len size xs
    → ((x : Ptr) → has x xs ≡ true → len' x ≡ len x)
    → AllSmaller len' size xs
AllSmaller-frame len len' size [] all same = tt
AllSmaller-frame len len' size (x ∷ xs) all same = (
  omega (arith, same x (ground arith), all.0),
  AllSmaller-frame len len' size xs all.1 λ y i. same y (ground arith),
)

-- What a call that had to move the program break leaves: the block at `a` is handed out, and its
-- bytes and those of the list are those of the old list and those below the new break.
pub record Grown (p : ProgramBreak) (s : State p) (xs : List Ptr) (size : ℕ) (a : Ptr)
    (s' : State p) (zs : List Ptr) : Type 0 where
  pub at_break : a ≡ p.current s.os
  pub valid : IsValid s'.heap (p.current s'.os) zs
  pub large : size ≤ s'.heap.length a
  pub unlinked : (s'.heap.prev a ≡ null) × (s'.heap.next a ≡ null)
  pub bytes :
      (x : Ptr)
      → (covers s.heap.length xs x || (leb a x && ltb x (p.current s'.os)))
        ≡ (in_block a (s'.heap.length a) x || covers s'.heap.length zs x)
  pub apart :
      (x : Ptr) → in_block a (s'.heap.length a) x ≡ true → covers s'.heap.length zs x ≡ false

-- The call on the heap with the new block in place.
hand_out-fresh :
    (k : ℕ) (h : Heap) (hi hi' a len size : ℕ) (xs : List Ptr)
    → IsValid h hi xs
    → null < hi
    → hi ≤ a
    → a + header + len ≤ hi'
    → hi' < 2 ^ 64
    → AllSmaller h.length size xs
    → size ≤ len
    → length xs < k
    → (h' : Heap) × (zs : List Ptr) × (h2 : Heap) × (freelist_insert k a (fresh a len h) ≡ ok h2)
      × (freelist_get_free_block k a size h2 ≡ ok (a, h'))
      × HandsOut h2 (xs ++ a ∷ []) hi' size a h' zs
      × ((x : Ptr) → covers h2.length (xs ++ a ∷ []) x ≡ (covers h.length xs x || in_block a len x))
hand_out-fresh k h hi hi' a len size xs v pos above fits bound small large fuel =
    let (h2, e, v2, la, other) = insert-fresh k h hi a len hi' xs v pos above fits bound fuel in
    let out = not-has-above h.length xs 1 hi a v.layout above in
    let same : (x : Ptr) → has x xs ≡ true → h2.length x ≡ h.length x =
      λ x i. other x (ne_of_has xs x a i out) in
    let small2 = AllSmaller-frame h.length h2.length size xs small same in
    let f : Fits h2 hi' size xs a [] = record {
      valid = v2;
      smaller = small2;
      large = omega arith;
    } in
    let (h', zs, e', o) =
      first_fit-HandsOut (suc (length xs)) h2 hi' size xs a [] f (inr refl) (omega arith) in
    let here =
      get_free_block-skip (k - 1) h2 null h2.free_list size a xs [] v2.chain
        (IsValid-IsFreeList v2).order small2 (omega arith) (omega arith) in
    let ek : suc (k - 1) ≡ k = omega arith in
    (
      h',
      zs,
      h2,
      e,
      (rw ek at here) ∙ e',
      o,
      λ x.
          ground (
            arith,
            covers-append h2.length xs (a ∷ []) x,
            covers-frame h.length h2.length xs x same,
          ),
    )

extend-fresh :
    (p : ProgramBreak) (k size a len : ℕ) (s : State p) (h2 h' : Heap)
    → sub_size (sub_size (p.current s.os) a) header ≡ len
    → freelist_insert k a (fresh a len s.heap) ≡ ok h2
    → freelist_get_free_block k a size h2 ≡ ok (a, h')
    → null < a
    → a + header < 2 ^ 64
    → extend p k size a s ≡ ok (a + header, record s { heap = h' })
unfolding extend
extend-fresh p k size a len s h2 h' el e1 e2 pos top =
    let ne : (a == null) ≡ false = ground arith in
    let eu : add_size a header ≡ a + header = omega arith in rw (el, e1, e2, ne, eu)

module _ (p : ProgramBreak) (law : IsProgramBreak p) (k size : ℕ) (s : State p) where
  -- Where no free block is large enough and the system moves the break, `xmalloc` returns the
  -- address behind a header at the old break, with at least `size` bytes there; the list stays
  -- valid, below the new break, and covers what it covered and the rest of the new bytes.
  pub xmalloc-grow :
      (hi : ℕ) (xs : List Ptr) (a : Ptr)
      → IsValid s.heap hi xs
      → null < hi
      → hi ≤ p.current s.os
      → AllSmaller s.heap.length size xs
      → size + header < 2 ^ 63
      → length xs < k
      → (p.sbrk s.os (asked p k size s)).0 ≡ some a
      → (s' : State p) × (zs : List Ptr) × (xmalloc p k size s ≡ ok (a + header, s'))
        × Grown p s xs size a s' zs
  unfolding xmalloc
  xmalloc-grow hi xs a v pos low small bound fuel e =
      let n =
        get_free_block-null k s.heap s.heap.free_list null size xs v.chain
          (IsValid-IsFreeList v).order small (omega arith) fuel in
      let (at, moved) = law.sbrk_some s.os (asked p k size s) a (ground arith) e in
      let o1 = (p.sbrk s.os (asked p k size s)).1 in
      let top = law.in_range o1 in
      let wide : size + header ≤ asked p k size s = ground arith in
      let el : sub_size (sub_size (p.current o1) a) header ≡ asked p k size s - header =
        ground arith in
      let (h', zs, h2, i, g, o, c) =
        hand_out-fresh k s.heap hi (p.current o1) a (asked p k size s - header) size xs v pos
          (omega arith) (omega arith) top small (omega arith) fuel in
      let s1 = record s { os = o1 } in
      let top_eq : p.current o1 ≡ a + header + (asked p k size s - header) = omega arith in
      (
        record s { heap = h'; os = o1 },
        zs,
        rw n (
            grow-some p k size s a e
            ∙ extend-fresh p k size a (asked p k size s - header) s1 h2 h' el i g (omega arith)
                (omega arith)),
        record {
          at_break = at;
          valid = o.valid;
          large = o.large;
          unlinked = o.unlinked;
          bytes = λ x.
              ap (λ (t : ℕ). covers s.heap.length xs x || (leb a x && ltb x t)) top_eq
              ∙ sym (c x)
              ∙ o.bytes x;
          apart = o.apart;
        },
      )
