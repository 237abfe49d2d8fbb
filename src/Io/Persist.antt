-- ===== src/Io/Persist.antt =====
-- What `writep` sends: prefixes of the buffer.
use mathlib.Core.Path.{subst}
use mathlib.Core.List.{append_assoc, append-nil}
use tlpi_exercises.Base.{
  ℕ, zero, suc, ◌+◌, ◌-◌, ◌≤◌, ◌<◌, ◌≡◌, refl, ◌∙◌, sym, ap, ◌⊎◌, inl, inr, Bool-cases,
  Option-cases, true, false, Option, none, some, List, [], ◌∷◌, ◌++◌, arith, ltb, length, take,
  length-take, take-take,
}
use tlpi_exercises.Io.{Descriptors, IsPosix, writep_loop, writep}

-- the prefixes of the given sizes, one after the other
unfoldable pub prefixes : List ℕ → List ℕ → List ℕ
prefixes buf [] = []
prefixes buf (n ∷ ns) = take n buf ++ prefixes buf ns

unfoldable pub total : List ℕ → ℕ
total [] = 0
total (n ∷ ns) = n + total ns

-- The last write(2), for at most `most` bytes from the start of the buffer, failed. It left the
-- state `o'`.
abbrev pub WriteFailed : (d : Descriptors) → ℕ → List ℕ → ℕ → d.Os → Type 0
WriteFailed d fd buf most o' =
    (o1 : d.Os) × ((d.write o1 fd (take most buf)).1 ≡ o')
    × ((d.write o1 fd (take most buf)).0 ≡ none)

-- A call sent prefixes of sizes `ns`: they make up the count, or a write(2) for what is left of it
-- failed and -1 is returned.
pub record Sent (d : Descriptors) (fd : ℕ) (buf : List ℕ) (left : ℕ) (o : d.Os) (r : Option ℕ)
    (full : ℕ) (o' : d.Os) (ns : List ℕ) : Type 0 where
  pub bytes : d.written o' fd ≡ d.written o fd ++ prefixes buf ns
  pub result :
      ((r ≡ some full) × (total ns ≡ left))
      ⊎ ((r ≡ none) × (total ns < left) × WriteFailed d fd buf (left - total ns) o')

module _ (d : Descriptors) (law : IsPosix d) (fd : ℕ) (buf : List ℕ) (count : ℕ)
    (room : count ≤ length buf) where
  writep_loop-step :
      (k t n : ℕ) (o : d.Os)
      → ltb t count ≡ true
      → (d.write o fd (take (count - t) buf)).0 ≡ some n
      → writep_loop d (suc k) fd buf count t o
        ≡ writep_loop d k fd buf count (t + n) (d.write o fd (take (count - t) buf)).1
  unfolding writep_loop
  writep_loop-step k t n o more e = rw (more, e, writep_loop)

  writep_loop-done :
      (k : ℕ) (o : d.Os) → writep_loop d (suc k) fd buf count count o ≡ some (some count, o)
  unfolding writep_loop
  writep_loop-done k o = let e : ltb count count ≡ false = ground arith in rw e

  writep_loop-Sent :
      (k t : ℕ) (o : d.Os)
      → t ≤ count
      → count - t < k
      → (r : Option ℕ) × (o' : d.Os) × (ns : List ℕ) × (writep_loop d k fd buf count t o
          ≡ some (r, o'))
        × Sent d fd buf (count - t) o r count o' ns
  unfolding writep_loop prefixes total
  writep_loop-Sent zero t o le fuel = absurd (omega arith)
  writep_loop-Sent (suc k) t o le fuel = elim (Bool-cases (ltb t count)) [
    | inr done ↦ (
      some t,
      o,
      [],
      rw done,
      record {
        bytes = sym (append-nil (d.written o fd));
        result = inl (ground arith, ground arith);
      },
    )
    | inl more ↦
        let w = d.write o fd (take (count - t) buf) in
        elim (Option-cases (w.0)) [
          | inl e ↦ (
            none,
            w.1,
            [],
            rw (more, e, writep_loop),
            record {
              bytes =
                  law.write_none o fd (take (count - t) buf) e ∙ sym (append-nil (d.written o fd));
              result =
                  let z : count - t - 0 ≡ count - t = omega arith in
                  inr (refl, ground arith, (o, rw z refl, rw z e));
            },
          )
          | inr (n, e) ↦
              let (le_n, pos, wr) = law.write_some o fd (take (count - t) buf) n e in
              let len = length-take (count - t) buf in
              let lt : t < count = ground arith in
              let pos' : 0 < n = pos (omega arith) in
              let (r, o', ns, e', s) = writep_loop-Sent k (t + n) w.1 (omega arith) (omega arith) in
              (
                r,
                o',
                n ∷ ns,
                writep_loop-step k t n o more e ∙ e',
                record {
                  bytes =
                      s.bytes
                      ∙ ap (λ (x : List ℕ). x ++ prefixes buf ns) wr
                      ∙ append_assoc (d.written o fd) (take n (take (count - t) buf))
                          (prefixes buf ns)
                      ∙ ap (λ (x : List ℕ). d.written o fd ++ (x ++ prefixes buf ns))
                          (take-take n (count - t) buf (omega arith));
                  result =
                      let z : count - (t + n) - total ns ≡ count - t - (n + total ns) =
                        omega arith in
                      elim s.result [
                        | inl h ↦ inl (h.0, omega arith)
                        | inr (none_there, below, failed) ↦ inr (
                          none_there,
                          omega arith,
                          subst (λ x. WriteFailed d fd buf x o') z failed,
                        )
                      ];
                },
              )
        ]
  ]

  -- `writep` returns, with -1 or the whole count, where the system makes progress on each call. It
  -- has then sent prefixes of the buffer, each from the start of the buffer. Their sizes make up the
  -- count, or it returns -1 and the last write(2), for what was left of the count, has failed.
  pub writep-Sent :
      (o : d.Os)
      → (r : Option ℕ) × (o' : d.Os) × (ns : List ℕ) × (writep d (suc count) fd buf count o
          ≡ some (r, o'))
        × Sent d fd buf count o r count o' ns
  unfolding writep
  writep-Sent o =
      let (r, o', ns, e, s) = writep_loop-Sent (suc count) 0 o (omega arith) (omega arith) in
      let z : count - 0 ≡ count = omega arith in
      (r, o', ns, e, subst (λ x. Sent d fd buf x o r count o' ns) z s)

  -- Where the system takes the first `n` bytes, fewer than the count, and then all that it is
  -- offered, `writep` reports the whole count and has sent the first `n` bytes and then again the
  -- first `count - n`: the rest of the buffer is never sent.
  pub writep-short :
      (o : d.Os) (n : ℕ)
      → let w = d.write o fd (take count buf) in
        let v = d.write w.1 fd (take (count - n) buf) in
        n < count
        → w.0 ≡ some n
        → v.0 ≡ some (count - n)
        → (writep d (suc count) fd buf count o ≡ some (some count, v.1))
          × (d.written v.1 fd ≡ d.written o fd ++ (take n buf ++ take (count - n) buf))
  unfolding writep
  writep-short o n lt e e' =
      let (a, pos, w1) = law.write_some o fd (take count buf) n e in
      let (b, _, w2) =
        law.write_some (d.write o fd (take count buf)).1 fd (take (count - n) buf) (count - n) e' in
      let z : count - 0 ≡ count = omega arith in
      let zn : 0 + n ≡ n = omega arith in
      let zc : n + (count - n) ≡ count = omega arith in
      let some_n : 0 < n = pos (omega (arith, length-take count buf)) in
      let k1 : suc (suc (count - 2)) ≡ count = omega arith in
      let s1 =
        rw (z, zn) at (writep_loop-step (suc (suc (count - 2))) 0 n o (ground arith) (rw z e)) in
      let s2 = rw zc at (
        writep_loop-step (suc (count - 2)) n (count - n) (d.write o fd (take count buf)).1
          (ground arith) e') in
      let s3 =
        writep_loop-done (count - 2)
          (d.write (d.write o fd (take count buf)).1 fd (take (count - n) buf)).1 in
      (
        ap (λ (k : ℕ). writep_loop d (suc k) fd buf count 0 o) (sym k1) ∙ s1 ∙ s2 ∙ s3,
        w2
            ∙ ap (λ (x : List ℕ). x ++ take (count - n) (take (count - n) buf)) w1
            ∙ append_assoc (d.written o fd) (take n (take count buf))
                (take (count - n) (take (count - n) buf))
            ∙ ap (λ (x : List ℕ). d.written o fd ++ (x ++ take (count - n) (take (count - n) buf)))
                (take-take n count buf (omega arith))
            ∙ ap (λ (x : List ℕ). d.written o fd ++ (take n buf ++ x))
                (take-take (count - n) (count - n) buf (omega arith)),
      )
