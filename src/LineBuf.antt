-- ===== src/LineBuf.antt =====
-- tlpi-dist/sockets/read_line_buf.c: `readLineBufInit` and `readLineBuf`. `read` is that of the
-- `Streams` of Sockets. The `errno` that a call leaves is not kept.
pub mod Line
pub mod Refill
pub mod Same
use tlpi_exercises.Base.{
  ℕ, zero, suc, ◌+◌, Bool, false, ◌||◌, Option, none, some, List, [], ◌∷◌, ltb, ◌==◌, if◌then◌else◌,
  length,
}
use tlpi_exercises.Io.{Memory, poke}
use tlpi_exercises.Sockets.{got, read_failed, newline, Streams}

-- `RL_MAX_BUF`
abbrev pub rl_max_buf : ℕ
rl_max_buf = 10

-- `struct ReadLineBuf`: its array as a map from the indices; the length -1 is `none`.
pub record ReadLineBuf : Type 0 where
  pub fd : ℕ
  pub buf : Memory
  pub next : ℕ
  pub len : Option ℕ

unfoldable pub read_line_buf_init : ℕ → ReadLineBuf → ReadLineBuf
read_line_buf_init fd rlbuf = record rlbuf { fd = fd; len = some 0; next = 0 }

-- `!(rlbuf->next >= rlbuf->len)`
unfoldable pub has_unread : ReadLineBuf → Bool
has_unread rlbuf = elim rlbuf.len [ none ↦ false | some l ↦ ltb rlbuf.next l ]

-- `rlbuf->next++`
abbrev pub step_over : ReadLineBuf → ReadLineBuf
step_over rlbuf = record rlbuf { next = rlbuf.next + 1 }

-- How the first `if` of the loop goes on: with a character to take, to the `break`, or to `return -1`.
pub data Refilled : Type 0 where
  ready : ReadLineBuf → Refilled
  ended : ReadLineBuf → Refilled
  failed : ReadLineBuf → Refilled

module _ (d : Streams) where
  open d use {Os, read}

  unfoldable pub refill : ReadLineBuf → Os → Refilled × Os
  refill rlbuf o =
      let (num_read, o1) = read o rlbuf.fd rl_max_buf in
      if has_unread rlbuf then (ready rlbuf, o) else elim num_read [
        | read_failed err ↦ (failed (record rlbuf { len = none }), o1)
        | got [] ↦ (ended (record rlbuf { len = some 0 }), o1)
        | got (b ∷ bs) ↦ (
          ready (record rlbuf {
            len = some (length (b ∷ bs));
            buf = poke rlbuf.buf 0 (b ∷ bs);
            next = 0;
          }),
          o1,
        )
      ]

  -- The outer `none` is a loop that has not ended, the inner one the return value -1.
  unfoldable pub buf_loop :
      ℕ → ReadLineBuf → ℕ → ℕ → ℕ → Memory → Os → Option (Option ℕ × ReadLineBuf × Memory × Os)
  buf_loop zero rlbuf buffer n cnt m o = none
  buf_loop (suc fuel) rlbuf buffer n cnt m o =
      let (refilled, o1) = refill rlbuf o in
      elim refilled [
        | failed rlbuf1 ↦ some (none, rlbuf1, m, o1)
        | ended rlbuf1 ↦ some (some cnt, rlbuf1, m, o1)
        | ready rlbuf1 ↦
            let c = rlbuf1.buf rlbuf1.next in
            let room = ltb cnt n in
            let cnt1 = if room then cnt + 1 else cnt in
            let m1 = if room then poke m (buffer + cnt) (c ∷ []) else m in
            let more = buf_loop fuel (step_over rlbuf1) buffer n cnt1 m1 o1 in
            if c == newline then some (some cnt1, step_over rlbuf1, m1, o1) else more
      ]

  -- The address 0 is `NULL`.
  unfoldable pub read_line_buf :
      ℕ → ReadLineBuf → ℕ → ℕ → Memory → Os → Option (Option ℕ × ReadLineBuf × Memory × Os)
  read_line_buf fuel rlbuf buffer n m o =
      if (n == 0) || (buffer == 0)
      then some (none, rlbuf, m, o)
      else buf_loop fuel rlbuf buffer n 0 m o
