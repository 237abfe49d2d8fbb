-- ===== src/LineBuf/Line.antt =====
-- tlpi-dist/sockets/read_line_buf.c: `readLineBuf` takes one line.
use mathlib.Core.Path.{subst}
use tlpi_exercises.Base.{
  ℕ, zero, suc, ◌+◌, ◌-◌, ◌≤◌, ◌<◌, ◌≡◌, refl, ◌∙◌, sym, ap, ◌⊎◌, inl, inr, Bool-cases, true, false,
  ◌||◌, Option, none, some, List, [], ◌∷◌, ◌++◌, arith, ltb, ◌==◌, if◌then◌else◌, length, take,
  take-nil,
}
use tlpi_exercises.Io.{Memory, poke}
use tlpi_exercises.Sockets.Line.{first_line, first_line-more, first_line-newline, poke-cons}
use tlpi_exercises.Sockets.{read_failed, newline, Streams, IsStream}
use tlpi_exercises.LineBuf.Refill.{pending, Fill, fills, ends, fails, refill-Fill}
use tlpi_exercises.LineBuf.{
  rl_max_buf, ReadLineBuf, step_over, Refilled, ready, ended, failed, buf_loop, read_line_buf,
}

module _ (buffer n : ℕ) where
  -- the part of a line that fits behind `cnt` characters, and memory with it
  abbrev fitting : ℕ → List ℕ → List ℕ
  fitting cnt line = take (n - cnt) line

  abbrev stored : ℕ → List ℕ → Memory → Memory
  stored cnt line m = poke m (buffer + cnt) (fitting cnt line)

  abbrev count_after : ℕ → ℕ
  count_after cnt = if ltb cnt n then cnt + 1 else cnt

  abbrev memory_after : ℕ → ℕ → Memory → Memory
  memory_after cnt c m = if ltb cnt n then poke m (buffer + cnt) (c ∷ []) else m

  fitting-room :
      (cnt c : ℕ) (line : List ℕ) → cnt < n → fitting cnt (c ∷ line) ≡ c ∷ fitting (cnt + 1) line
  fitting-room cnt c line lt = let e : n - cnt ≡ suc (n - (cnt + 1)) = omega arith in rw (e) refl

  fitting-full : (cnt : ℕ) (line : List ℕ) → n ≤ cnt → fitting cnt line ≡ []
  fitting-full cnt line le = let e : n - cnt ≡ 0 = omega arith in rw (e) refl

  stored-char :
      (cnt c : ℕ) (line : List ℕ) (m : Memory)
      → stored (count_after cnt) line (memory_after cnt c m) ≡ stored cnt (c ∷ line) m
  stored-char cnt c line m = elim (Bool-cases (ltb cnt n)) [
    | inl room ↦
        rw (room, fitting-room cnt c line (ground arith))
          (sym (poke-cons buffer cnt c (fitting (cnt + 1) line) m))
    | inr full ↦
        rw (full, fitting-full cnt (c ∷ line) (ground arith), fitting-full cnt line (ground arith))
          refl
  ]

  count-char :
      (cnt c : ℕ) (line : List ℕ)
      → count_after cnt + length (fitting (count_after cnt) line)
        ≡ cnt + length (fitting cnt (c ∷ line))
  count-char cnt c line = elim (Bool-cases (ltb cnt n)) [
    | inl room ↦ rw (room, fitting-room cnt c line (ground arith)) omega arith
    | inr full ↦
        rw (full, fitting-full cnt (c ∷ line) (ground arith), fitting-full cnt line (ground arith))
          refl
  ]

  module _ (d : Streams) where
    -- The outcome of a call: a line was taken, or a `read` failed.
    pub data Outcome (fd : ℕ) (s : List ℕ) (cnt : ℕ) (m : Memory)
        : Option ℕ × ReadLineBuf × Memory × d.Os → Type 0 where
      took :
          (rl : ReadLineBuf) (r : ℕ) (m1 : Memory) (o1 : d.Os)
          → rl.fd ≡ fd
          → s ≡ first_line s ++ pending d rl o1
          → r ≡ cnt + length (fitting cnt (first_line s))
          → m1 ≡ stored cnt (first_line s) m
          → Outcome fd s cnt m (some r, rl, m1, o1)
      stopped :
          (rl : ReadLineBuf) (m1 : Memory) (o o1 : d.Os) (err : ℕ)
          → (d.read o fd rl_max_buf).0 ≡ read_failed err
          → Outcome fd s cnt m (none, rl, m1, o1)

    -- the characters behind the first one
    Outcome-more :
        (fd c : ℕ) (s : List ℕ) (cnt : ℕ) (m : Memory) (x : Option ℕ × ReadLineBuf × Memory × d.Os)
        → (c == newline) ≡ false
        → Outcome fd s (count_after cnt) (memory_after cnt c m) x
        → Outcome fd (c ∷ s) cnt m x
    Outcome-more fd c s cnt m x nl (took rl r m1 o1 same split count mem) =
        let e = first_line-more c s nl in
        took rl r m1 o1 same (rw (e) (ap (λ (l : List ℕ). c ∷ l) split))
          (rw (e) (count ∙ count-char cnt c (first_line s)))
          (rw (e) (mem ∙ stored-char cnt c (first_line s) m))
    Outcome-more fd c s cnt m x nl (stopped rl m1 o o1 err e) = stopped rl m1 o o1 err e

    Outcome-newline :
        (fd c : ℕ) (rl : ReadLineBuf) (o1 : d.Os) (cnt : ℕ) (m : Memory)
        → (c == newline) ≡ true
        → rl.fd ≡ fd
        → Outcome fd
            (c ∷ pending d rl o1)
            cnt
            m
            (some (count_after cnt), rl, memory_after cnt c m, o1)
    unfolding poke
    Outcome-newline fd c rl o1 cnt m nl same =
        let e = first_line-newline c (pending d rl o1) nl in
        let nil = take-nil {A = ℕ} (n - count_after cnt) in
        let none_more : length (fitting (count_after cnt) []) ≡ 0 = ap length nil in
        took rl _ _ o1 same (rw (e) refl) (rw (e) (omega (arith, count-char cnt c [], none_more))) (
          rw (e) (
            ap (λ l. poke (memory_after cnt c m) (buffer + count_after cnt) l) (sym nil)
            ∙ stored-char cnt c [] m))

    Outcome-end :
        (fd : ℕ) (rl : ReadLineBuf) (o1 : d.Os) (cnt : ℕ) (m : Memory)
        → rl.fd ≡ fd
        → pending d rl o1 ≡ []
        → Outcome fd [] cnt m (some cnt, rl, m, o1)
    unfolding first_line poke
    Outcome-end fd rl o1 cnt m same nil =
        let none_more : length (fitting cnt []) ≡ 0 = ap length (take-nil {A = ℕ} (n - cnt)) in
        took rl _ _ o1 same (sym nil) (omega (arith, none_more))
          (ap (λ l. poke m (buffer + cnt) l) (sym (take-nil (n - cnt))))

    loop_step : ℕ → ℕ → Memory → Refilled × d.Os → Option (Option ℕ × ReadLineBuf × Memory × d.Os)
    loop_step fuel cnt m f = elim f.0 [
      | failed rl ↦ some (none, rl, m, f.1)
      | ended rl ↦ some (some cnt, rl, m, f.1)
      | ready rl ↦
          let c = rl.buf rl.next in
          let more =
            buf_loop d fuel (step_over rl) buffer n (count_after cnt) (memory_after cnt c m) f.1 in
          if c == newline
          then some (some (count_after cnt), step_over rl, memory_after cnt c m, f.1)
          else more
    ]

    -- A `read` failed, and the result is -1; or the result is the length of as much of the first line of
    -- `s` as fits, memory has that much of it and is otherwise as it was, and behind the line nothing
    -- was taken.
    abbrev pub Result : ℕ → List ℕ → Memory → Option ℕ → ReadLineBuf → Memory → d.Os → Type 0
    Result fd s m r rl m1 o1 =
        ((r ≡ none) × ((o2 : d.Os) × (err : ℕ) × ((d.read o2 fd rl_max_buf).0 ≡ read_failed err)))
        ⊎ ((r ≡ some (length (take n (first_line s))))
            × (s ≡ first_line s ++ pending d rl o1)
            × (m1 ≡ poke m buffer (take n (first_line s)))
            × (rl.fd ≡ fd))

    Outcome-Result :
        (fd : ℕ) (s : List ℕ) (m : Memory) (x : Option ℕ × ReadLineBuf × Memory × d.Os)
        → Outcome fd s 0 m x
        → Result fd s m x.0 x.1 x.2 x.3
    Outcome-Result fd s m x (stopped rl m1 o o1 err e) = inl (refl, (o, err, e))
    Outcome-Result fd s m x (took rl r m1 o1 same split count mem) =
        let z : n - 0 ≡ n = omega arith in
        let y : buffer + 0 ≡ buffer = omega arith in
        inr (ap some (count ∙ rw (z) (omega arith)), split, mem ∙ rw (z, y) refl, same)

    module _ (law : IsStream d) where
      abbrev Ends :
          ℕ → List ℕ → ℕ → Memory → Option (Option ℕ × ReadLineBuf × Memory × d.Os) → Type 0
      Ends fd s cnt m res =
          (x : Option ℕ × ReadLineBuf × Memory × d.Os) × (res ≡ some x) × Outcome fd s cnt m x

      step-Ends :
          (fuel cnt : ℕ) (m : Memory) (rl : ReadLineBuf) (o : d.Os) (f : Refilled × d.Os)
          → Fill d rl o f
          → length (pending d rl o) < suc fuel
          → ((rl1 : ReadLineBuf) (cnt1 : ℕ) (m1 : Memory) (o1 : d.Os)
              → length (pending d rl1 o1) < fuel
              → Ends rl1.fd (pending d rl1 o1) cnt1 m1 (buf_loop d fuel rl1 buffer n cnt1 m1 o1))
          → Ends rl.fd (pending d rl o) cnt m (loop_step fuel cnt m f)
      unfolding loop_step
      step-Ends fuel cnt m rl o f (fails rl1 o1 err e) h later = (_, refl, stopped rl1 m o o1 err e)
      step-Ends fuel cnt m rl o f (ends rl1 o1 same nil nil1) h later = (
        _,
        refl,
        subst (λ s. Outcome rl.fd s cnt m (some cnt, rl1, m, o1)) (sym nil)
            (Outcome-end rl.fd rl1 o1 cnt m same nil1),
      )
      step-Ends fuel cnt m rl o f (fills rl1 o1 same split) h later =
          let c = rl1.buf rl1.next in
          let rl2 = step_over rl1 in
          let s1 = pending d rl2 o1 in
          let shorter : length (pending d rl o) ≡ suc (length s1) = ap length split in
          elim (Bool-cases (c == newline)) [
            | inl nl ↦ (
              (some (count_after cnt), rl2, memory_after cnt c m, o1),
              rw (nl) refl,
              subst
                  (λ s.
                    Outcome rl.fd s cnt m (some (count_after cnt), rl2, memory_after cnt c m, o1))
                  (sym split) (Outcome-newline rl.fd c rl2 o1 cnt m nl same),
            )
            | inr nl ↦
                let (x, e, out) =
                  later rl2 (count_after cnt) (memory_after cnt c m) o1 (omega (arith, shorter)) in
                let out1 =
                  subst (λ fd. Outcome fd s1 (count_after cnt) (memory_after cnt c m) x) same out in
                (
                  x,
                  rw (nl) e,
                  subst (λ s. Outcome rl.fd s cnt m x) (sym split)
                      (Outcome-more rl.fd c s1 cnt m x nl out1),
                )
          ]

      buf_loop-Ends :
          (fuel : ℕ) (rl : ReadLineBuf) (cnt : ℕ) (m : Memory) (o : d.Os)
          → length (pending d rl o) < fuel
          → Ends rl.fd (pending d rl o) cnt m (buf_loop d fuel rl buffer n cnt m o)
      unfolding buf_loop loop_step
      buf_loop-Ends zero rl cnt m o h = absurd (omega arith)
      buf_loop-Ends (suc fuel) rl cnt m o h =
          step-Ends fuel cnt m rl o _ (refill-Fill d law rl o) h
            (λ rl1 cnt1 m1 o1 h1. buf_loop-Ends fuel rl1 cnt1 m1 o1 h1)

      -- Into a buffer that is not `NULL` and has room for at least one character, `readLineBuf`
      -- ends, with more fuel than characters are to come, in the buffer of the structure and in the
      -- input. It returns -1 only if a `read` failed. If not, it has taken the first of the lines
      -- to come and no more, up to its newline if it has one, and memory has as much of that line
      -- as fits and is otherwise as it was; the result is the number of these characters.
      pub read_line_buf-first :
          (fuel : ℕ) (rl : ReadLineBuf) (m : Memory) (o : d.Os)
          → 0 < n
          → 0 < buffer
          → length (pending d rl o) < fuel
          → (r : Option ℕ) × (rl1 : ReadLineBuf) × (m1 : Memory) × (o1 : d.Os) × (read_line_buf d
                fuel rl buffer n m o
              ≡ some (r, rl1, m1, o1))
            × Result rl.fd (pending d rl o) m r rl1 m1 o1
      unfolding read_line_buf
      read_line_buf-first fuel rl m o pos buf_pos h =
          let ok : ((n == 0) || (buffer == 0)) ≡ false = ground arith in
          let (x, e, out) = buf_loop-Ends fuel rl 0 m o h in
          (x.0, x.1, x.2, x.3, rw (ok) e, Outcome-Result rl.fd (pending d rl o) m x out)
