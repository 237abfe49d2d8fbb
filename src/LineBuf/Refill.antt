-- ===== src/LineBuf/Refill.antt =====
-- tlpi-dist/sockets/read_line_buf.c: the characters that are still to come, and how the buffer is filled.
use mathlib.Core.Path.{subst}
use tlpi_exercises.Base.{
  ℕ, suc, ◌+◌, ◌-◌, ◌≡◌, refl, ◌∙◌, sym, ap, inl, inr, Bool-cases, true, false, Option, none, some,
  List, [], ◌∷◌, ◌++◌, arith, ltb, length,
}
use tlpi_exercises.Io.{Memory, poke, peek}
use tlpi_exercises.Io.Scatter.{peek-poke}
use tlpi_exercises.Sockets.Line.{Got-cases}
use tlpi_exercises.Sockets.{got, read_failed, Streams, IsStream}
use tlpi_exercises.LineBuf.{
  rl_max_buf, ReadLineBuf, has_unread, step_over, Refilled, ready, ended, failed, refill,
}

abbrev unread_from : Memory → ℕ → Option ℕ → List ℕ
unread_from buf next none = []
unread_from buf next (some l) = peek buf next (l - next)

-- the characters in the buffer that were not taken yet
abbrev pub unread : ReadLineBuf → List ℕ
unread rlbuf = unread_from rlbuf.buf rlbuf.next rlbuf.len

unread_from-nil :
    (buf : Memory) (next : ℕ) (len : Option ℕ)
    → elim len [ none ↦ false | some l ↦ ltb next l ] ≡ false
    → unread_from buf next len ≡ []
unfolding peek
unread_from-nil buf next none e = refl
unread_from-nil buf next (some l) e = let z : l - next ≡ 0 = ground arith in rw (z) refl

unread_from-cons :
    (buf : Memory) (next : ℕ) (len : Option ℕ)
    → elim len [ none ↦ false | some l ↦ ltb next l ] ≡ true
    → unread_from buf next len ≡ buf next ∷ unread_from buf (next + 1) len
unfolding peek
unread_from-cons buf next none e = absurd (ground arith)
unread_from-cons buf next (some l) e =
    let z : l - next ≡ suc (l - (next + 1)) = ground arith in rw (z) refl

unread_from-poke : (m : Memory) (bs : List ℕ) → unread_from (poke m 0 bs) 0 (some (length bs)) ≡ bs
unread_from-poke m bs =
    let z : length bs - 0 ≡ length bs = omega arith in rw (z) (peek-poke m 0 bs (length bs) refl)

module _ (d : Streams) where
  -- all the characters still to come
  abbrev pub pending : ReadLineBuf → d.Os → List ℕ
  pending rlbuf o = unread rlbuf ++ d.input o rlbuf.fd

  -- What `refill` leaves: characters neither come nor go.
  pub data Fill (rlbuf : ReadLineBuf) (o : d.Os) : Refilled × d.Os → Type 0 where
    fills :
        (rl : ReadLineBuf) (o1 : d.Os)
        → rl.fd ≡ rlbuf.fd
        → pending rlbuf o ≡ rl.buf rl.next ∷ pending (step_over rl) o1
        → Fill rlbuf o (ready rl, o1)
    ends :
        (rl : ReadLineBuf) (o1 : d.Os)
        → rl.fd ≡ rlbuf.fd
        → pending rlbuf o ≡ []
        → pending rl o1 ≡ []
        → Fill rlbuf o (ended rl, o1)
    fails :
        (rl : ReadLineBuf) (o1 : d.Os) (err : ℕ)
        → (d.read o rlbuf.fd rl_max_buf).0 ≡ read_failed err
        → Fill rlbuf o (failed rl, o1)

  refill-full : (rl : ReadLineBuf) (o : d.Os) → has_unread rl ≡ true → refill d rl o ≡ (ready rl, o)
  unfolding refill
  refill-full rl o h = rw (h) refl

  refill-end :
      (rl : ReadLineBuf) (o : d.Os)
      → has_unread rl ≡ false
      → (d.read o rl.fd rl_max_buf).0 ≡ got []
      → refill d rl o ≡ (ended (record rl { len = some 0 }), (d.read o rl.fd rl_max_buf).1)
  unfolding refill
  refill-end rl o h e = rw (h, e) refl

  refill-failed :
      (rl : ReadLineBuf) (o : d.Os) (err : ℕ)
      → has_unread rl ≡ false
      → (d.read o rl.fd rl_max_buf).0 ≡ read_failed err
      → refill d rl o ≡ (failed (record rl { len = none }), (d.read o rl.fd rl_max_buf).1)
  unfolding refill
  refill-failed rl o err h e = rw (h, e) refl

  refill-more :
      (rl : ReadLineBuf) (o : d.Os) (b : ℕ) (bs : List ℕ)
      → has_unread rl ≡ false
      → (d.read o rl.fd rl_max_buf).0 ≡ got (b ∷ bs)
      → refill d rl o ≡ (
        ready (record rl { len = some (length (b ∷ bs)); buf = poke rl.buf 0 (b ∷ bs); next = 0 }),
        (d.read o rl.fd rl_max_buf).1,
      )
  unfolding refill
  refill-more rl o b bs h e = rw (h, e) refl

  module _ (law : IsStream d) where
    Fill-empty : (rl : ReadLineBuf) (o : d.Os) → has_unread rl ≡ false → Fill rl o (refill d rl o)
    unfolding has_unread
    Fill-empty rl o h =
        let o1 = (d.read o rl.fd rl_max_buf).1 in
        let empty : pending rl o ≡ d.input o rl.fd =
          ap (λ (l : List ℕ). l ++ d.input o rl.fd) (unread_from-nil rl.buf rl.next rl.len h) in
        elim (Got-cases (d.read o rl.fd rl_max_buf).0) [
          | inl e ↦
              let (_, all, nil, _) = law.read_some o rl.fd rl_max_buf [] e in
              let done = nil refl (omega arith) in
              subst (Fill rl o) (sym (refill-end rl o h e)) (
                ends _ o1 refl (empty ∙ done) (
                  ap (λ (l : List ℕ). l ++ d.input o1 rl.fd)
                    (unread_from-nil rl.buf rl.next (some 0) (ground arith))
                  ∙ (sym all ∙ done)))
          | inr (inl (b, bs, e)) ↦
              let (_, all, _, _) = law.read_some o rl.fd rl_max_buf (b ∷ bs) e in
              subst (Fill rl o) (sym (refill-more rl o b bs h e)) (
                fills _ o1 refl (
                  empty
                  ∙ all
                  ∙ ap (λ (l : List ℕ). l ++ d.input o1 rl.fd)
                      (sym (unread_from-poke rl.buf (b ∷ bs))
                        ∙ unread_from-cons (poke rl.buf 0 (b ∷ bs)) 0 (some (length (b ∷ bs)))
                            (ground arith))))
          | inr (inr (err, e)) ↦
              subst (Fill rl o) (sym (refill-failed rl o err h e)) (fails _ o1 err e)
        ]

    pub refill-Fill : (rl : ReadLineBuf) (o : d.Os) → Fill rl o (refill d rl o)
    unfolding has_unread
    refill-Fill rl o = elim (Bool-cases (has_unread rl)) [
      | inl h ↦ subst (Fill rl o) (sym (refill-full rl o h)) (
          fills rl o refl
            (ap (λ l. l ++ d.input o rl.fd) (unread_from-cons rl.buf rl.next rl.len h)))
      | inr h ↦ Fill-empty rl o h
    ]
