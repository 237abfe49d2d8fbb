-- ===== src/Sockets/Read.antt =====
-- What `readn` stores.
use mathlib.Core.Path.{subst}
use tlpi_exercises.Base.{
  ℕ, zero, suc, ◌+◌, ◌-◌, ◌≤◌, ◌<◌, ◌≡◌, refl, ◌∙◌, sym, ap, ◌⊎◌, inl, inr, Bool-cases, true, false,
  if◌then◌else◌, Option, none, some, List, [], ◌∷◌, ◌++◌, arith, ltb, ◌==◌, length, length-append,
}
use mathlib.Core.List.{append_assoc}
use tlpi_exercises.Io.{Memory, poke}
use tlpi_exercises.Sockets.{got, read_failed, eintr, Streams, IsStream, readn_loop, readn}
use tlpi_exercises.Sockets.Line.{Got-cases, ReadFailed}
use tlpi_exercises.Sockets.Write.{lt_or_eq}

poke-append :
    (buf t : ℕ) (xs ys : List ℕ) (m : Memory)
    → poke (poke m (buf + t) xs) (buf + (t + length xs)) ys ≡ poke m (buf + t) (xs ++ ys)
unfolding poke
poke-append buf t [] ys m = let e : buf + (t + 0) ≡ buf + t = omega arith in rw (e) refl
poke-append buf t (x ∷ xs) ys m =
    let e : buf + (t + suc (length xs)) ≡ buf + (t + 1 + length xs) = omega arith in
    let f : buf + t + 1 ≡ buf + (t + 1) = omega arith in
    let m1 : Memory = λ y. if y == buf + t then x else m y in
    ap (λ (a : ℕ). poke (poke m1 (buf + t + 1) xs) a ys) e
    ∙ ap (λ (a : ℕ). poke (poke m1 a xs) (buf + (t + 1 + length xs)) ys) f
    ∙ poke-append buf (t + 1) xs ys m1
    ∙ ap (λ (a : ℕ). poke m1 a (xs ++ ys)) (sym f)

-- A call took `bs` from the input and stored it behind `t` bytes; it returns -1, or the bytes are
-- all that were asked for or all that there are.
pub record Taken (d : Streams) (fd buf n t : ℕ) (m : Memory) (o : d.Os) (r : Option ℕ) (m' : Memory)
    (o' : d.Os) (bs : List ℕ) : Type 0 where
  pub taken : d.input o fd ≡ bs ++ d.input o' fd
  pub memory : m' ≡ poke m (buf + t) bs
  pub within : t + length bs ≤ n
  pub result :
      ((r ≡ some (t + length bs)) × ((t + length bs ≡ n) ⊎ (d.input o' fd ≡ [])))
      ⊎ ((r ≡ none) × (t + length bs < n) × ReadFailed d fd (n - (t + length bs)) o')

module _ (d : Streams) (law : IsStream d) (fd buf n : ℕ) where
  readn_loop-done :
      (fuel : ℕ) (m : Memory) (o : d.Os)
      → readn_loop d (suc fuel) fd buf n n m o ≡ some (some n, m, o)
  unfolding readn_loop
  readn_loop-done fuel m o = let e : ltb n n ≡ false = ground arith in rw (e) refl

  readn_loop-end :
      (fuel t : ℕ) (m : Memory) (o : d.Os)
      → t < n
      → (d.read o fd (n - t)).0 ≡ got []
      → readn_loop d (suc fuel) fd buf n t m o ≡ some (some t, m, (d.read o fd (n - t)).1)
  unfolding readn_loop
  readn_loop-end fuel t m o lt e =
      let more : ltb t n ≡ true = ground arith in rw (more, e, readn_loop) refl

  readn_loop-more :
      (fuel t b : ℕ) (bs : List ℕ) (m : Memory) (o : d.Os)
      → t < n
      → (d.read o fd (n - t)).0 ≡ got (b ∷ bs)
      → readn_loop d (suc fuel) fd buf n t m o
        ≡ readn_loop d fuel fd buf n
            (t + length (b ∷ bs))
            (poke m (buf + t) (b ∷ bs))
            (d.read o fd (n - t)).1
  unfolding readn_loop
  readn_loop-more fuel t b bs m o lt e =
      let more : ltb t n ≡ true = ground arith in rw (more, e, readn_loop) refl

  readn_loop-failed :
      (fuel t err : ℕ) (m : Memory) (o : d.Os)
      → t < n
      → (d.read o fd (n - t)).0 ≡ read_failed err
      → readn_loop d (suc fuel) fd buf n t m o ≡ (
          if err == eintr
          then readn_loop d fuel fd buf n t m (d.read o fd (n - t)).1
          else some (none, m, (d.read o fd (n - t)).1))
  unfolding readn_loop
  readn_loop-failed fuel t err m o lt e =
      let more : ltb t n ≡ true = ground arith in rw (more, e, readn_loop) refl

  -- the bytes of one call, and what the others bring
  Taken-more :
      (t : ℕ) (xs ys : List ℕ) (m m' : Memory) (o o1 o' : d.Os) (r : Option ℕ)
      → d.input o fd ≡ xs ++ d.input o1 fd
      → Taken d fd buf n (t + length xs) (poke m (buf + t) xs) o1 r m' o' ys
      → Taken d fd buf n t m o r m' o' (xs ++ ys)
  Taken-more t xs ys m m' o o1 o' r e h =
      let len = length-append xs ys in
      let sum : t + length xs + length ys ≡ t + length (xs ++ ys) = omega arith in
      record {
        taken = e ∙ ap (λ (l : List ℕ). xs ++ l) h.taken ∙ sym (append_assoc xs ys (d.input o' fd));
        memory = h.memory ∙ poke-append buf t xs ys m;
        within = let w = h.within in omega arith;
        result = rw (sum) at h.result;
      }

  Taken-none :
      (t : ℕ) (m : Memory) (o o' : d.Os)
      → t < n
      → ReadFailed d fd (n - t) o'
      → d.input o' fd ≡ d.input o fd
      → Taken d fd buf n t m o none m o' []
  unfolding poke
  Taken-none t m o o' lt failed e = record {
    taken = sym e;
    memory = refl;
    within = omega arith;
    result =
        let z : n - t ≡ n - (t + 0) = omega arith in
        inr (refl, omega arith, subst (λ x. ReadFailed d fd x o') z failed);
  }

  Taken-all :
      (t : ℕ) (m : Memory) (o o' : d.Os)
      → t ≤ n
      → d.input o fd ≡ d.input o' fd
      → (t ≡ n) ⊎ (d.input o' fd ≡ [])
      → Taken d fd buf n t m o (some t) m o' []
  unfolding poke
  Taken-all t m o o' le e h = record {
    taken = e;
    memory = refl;
    within = omega arith;
    result = inl (ap some (omega arith), elim h [ inl g ↦ inl (omega arith) | inr g ↦ inr g ]);
  }

  readn_loop-Taken :
      (fuel t : ℕ) (m : Memory) (o : d.Os)
      → t ≤ n
      → n - t + d.interrupts o < fuel
      → (r : Option ℕ) × (m' : Memory) × (o' : d.Os) × (bs : List ℕ) × (readn_loop d fuel fd buf n t
            m o
          ≡ some (r, m', o'))
        × Taken d fd buf n t m o r m' o' bs
  readn_loop-Taken zero t m o le enough = absurd (omega arith)
  readn_loop-Taken (suc fuel) t m o le enough = elim (lt_or_eq t n le) [
    | inr e ↦ (
      some t,
      m,
      o,
      [],
      ap (λ (x : ℕ). readn_loop d (suc fuel) fd buf n x m o) e
          ∙ readn_loop-done fuel m o
          ∙ ap (λ (x : ℕ). some (some x, m, o)) (sym e),
      Taken-all t m o o le refl (inl e),
    )
    | inl lt ↦
        let o1 = (d.read o fd (n - t)).1 in
        elim (Got-cases (d.read o fd (n - t)).0) [
          | inl e ↦
              let (a, b, c, f) = law.read_some o fd (n - t) [] e in
              let nil = c refl (omega arith) in
              (
                some t,
                m,
                o1,
                [],
                readn_loop-end fuel t m o lt e,
                Taken-all t m o o1 le b (inr (sym b ∙ nil)),
              )
          | inr (inl (b, bs, e)) ↦
              let (a, c, _, f) = law.read_some o fd (n - t) (b ∷ bs) e in
              let (r, m', o', ys, e', h) =
                readn_loop-Taken fuel (t + length (b ∷ bs)) (poke m (buf + t) (b ∷ bs)) o1
                  (omega arith) (omega arith) in
              (
                r,
                m',
                o',
                b ∷ bs ++ ys,
                readn_loop-more fuel t b bs m o lt e ∙ e',
                Taken-more t (b ∷ bs) ys m m' o o1 o' r c h,
              )
          | inr (inr (err, e)) ↦
              let (a, b) = law.read_none o fd (n - t) err e in
              elim (Bool-cases (err == eintr)) [
                | inl i ↦
                    let lower = b (ground arith) in
                    let (r, m', o', ys, e', h) = readn_loop-Taken fuel t m o1 le (omega arith) in
                    (
                      r,
                      m',
                      o',
                      ys,
                      readn_loop-failed fuel t err m o lt e ∙ rw (i) e',
                      record {
                        taken = sym a ∙ h.taken;
                        memory = h.memory;
                        within = h.within;
                        result = h.result;
                      },
                    )
                | inr i ↦ (
                  none,
                  m,
                  o1,
                  [],
                  readn_loop-failed fuel t err m o lt e ∙ rw (i) refl,
                  Taken-none t m o o1 lt (o, err, refl, e, λ is. ground arith) a,
                )
              ]
        ]
  ]

  -- Where interruptions come to an end, `readn` returns. It has then taken at most `n` bytes from
  -- the input and stored them in the buffer in order, and it returns their number, which is `n`
  -- unless the input is at its end. It returns -1 only if fewer than `n` are stored and the last
  -- read(2), which was for the others, failed otherwise than with EINTR.
  pub readn-Taken :
      (m : Memory) (o : d.Os)
      → (r : Option ℕ) × (m' : Memory) × (o' : d.Os) × (bs : List ℕ) × (readn d
            (suc (n + d.interrupts o))
            fd
            buf
            n
            m
            o
          ≡ some (r, m', o'))
        × (d.input o fd ≡ bs ++ d.input o' fd)
        × (m' ≡ poke m buf bs)
        × (length bs ≤ n)
        × (((r ≡ some (length bs)) × ((length bs ≡ n) ⊎ (d.input o' fd ≡ [])))
            ⊎ ((r ≡ none) × (length bs < n) × ReadFailed d fd (n - length bs) o'))
  unfolding readn
  readn-Taken m o =
      let (r, m', o', bs, e, h) =
        readn_loop-Taken (suc (n + d.interrupts o)) 0 m o (omega arith) (omega arith) in
      let z : 0 + length bs ≡ length bs = omega arith in
      let y : buf + 0 ≡ buf = omega arith in
      (r, m', o', bs, e, h.taken, h.memory ∙ rw (y) refl, rw (z) at h.within, rw (z) at h.result)
