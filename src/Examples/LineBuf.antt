-- ===== src/Examples/LineBuf.antt =====
-- tlpi-dist/sockets/read_line_buf.c over the system of Examples.Streams, which moves two bytes at most.
use tlpi_exercises.Base.{ℕ, ◌≡◌, refl, ◌⊎◌, Option, none, some, List, [], ◌∷◌, arith}
use tlpi_exercises.Examples.Streams.{Pipe, signalled, signalled-IsStream, blank}
use tlpi_exercises.Io.{Memory, peek, poke}
use tlpi_exercises.LineBuf.Line.{Result, read_line_buf-first}
use tlpi_exercises.LineBuf.Refill.{pending}
use tlpi_exercises.LineBuf.Same.{Agree, read_line_buf-read_line}
use tlpi_exercises.LineBuf.{
  rl_max_buf, ReadLineBuf, read_line_buf_init, has_unread, refill, buf_loop, read_line_buf,
}
use tlpi_exercises.Sockets.Line.{ReadFailed}
use tlpi_exercises.Sockets.{read_failed, read_line}

abbrev quiet : Pipe
quiet = record { sent = []; left = 1 ∷ 2 ∷ 10 ∷ 4 ∷ 5 ∷ []; signals = 0 }

-- a buffer with one character that was not taken
abbrev started : ReadLineBuf
started = record { fd = 3; buf = λ x. 9; next = 0; len = some 1 }

abbrev ahead : Pipe
ahead = record { sent = []; left = 9 ∷ 1 ∷ 2 ∷ 10 ∷ 4 ∷ 5 ∷ []; signals = 1 }

bytes_at : ℕ → ℕ → Option (Option ℕ × ReadLineBuf × Memory × Pipe) → Option ℕ × List ℕ
bytes_at a n none = (none, [])
bytes_at a n (some (r, rl, m, o)) = (r, peek m a n)

-- the call after the one that gave this outcome
again :
    Option (Option ℕ × ReadLineBuf × Memory × Pipe)
    → Option (Option ℕ × ReadLineBuf × Memory × Pipe)
unfolding read_line_buf
again none = none
again (some (r, rl, m, o)) = read_line_buf signalled 9 rl 100 9 m o

first_line_of_four :
    bytes_at 100 5 (read_line_buf signalled 9 started 100 9 blank quiet)
    ≡ (some 4, 9 ∷ 1 ∷ 2 ∷ 10 ∷ 0 ∷ [])
unfolding read_line_buf buf_loop refill has_unread peek poke bytes_at
first_line_of_four = refl

room_for_two :
    bytes_at 100 5 (read_line_buf signalled 9 started 100 2 blank quiet)
    ≡ (some 2, 9 ∷ 1 ∷ 0 ∷ 0 ∷ 0 ∷ [])
unfolding read_line_buf buf_loop refill has_unread peek poke bytes_at
room_for_two = refl

second_line :
    bytes_at 100 2
      (again (read_line_buf signalled 9 (read_line_buf_init 3 started) 100 9 blank quiet))
    ≡ (some 2, 4 ∷ 5 ∷ [])
unfolding read_line_buf read_line_buf_init buf_loop refill has_unread peek poke bytes_at again
second_line = refl

-- a signal makes the call fail
not_restarted :
    bytes_at 100 1 (read_line_buf signalled 9 (read_line_buf_init 3 started) 100 9 blank ahead)
    ≡ (none, 0 ∷ [])
unfolding read_line_buf read_line_buf_init buf_loop refill has_unread peek poke bytes_at
not_restarted = refl

read_line_buf-first_example :
    (r : Option ℕ) × (rl1 : ReadLineBuf) × (m1 : Memory) × (o1 : Pipe) × (read_line_buf signalled 7
        started 100 2 blank quiet
      ≡ some (r, rl1, m1, o1))
    × Result 100 2 signalled 3 (pending signalled started quiet) blank r rl1 m1 o1
unfolding peek
read_line_buf-first_example =
    read_line_buf-first 100 2 signalled signalled-IsStream 7 started blank quiet (omega arith)
      (omega arith) (omega arith)

read_line_buf-read_line_example :
    (r1 : Option ℕ) × (rl' : ReadLineBuf) × (m1' : Memory) × (o1' : Pipe) × (r2 : Option ℕ)
    × (m2' : Memory) × (o2' : Pipe) × (read_line_buf signalled 7 started 100 4 blank quiet
        ≡ some (r1, rl', m1', o1'))
    × (read_line signalled 8 3 100 5 blank ahead ≡ some (r2, m2', o2'))
    × (((r1 ≡ none)
          × ((o : Pipe) × (err : ℕ) × ((signalled.read o 3 rl_max_buf).0 ≡ read_failed err)))
        ⊎ (((r2 ≡ none) × ReadFailed signalled 3 1 o2')
            ⊎ Agree 100 r1 m1' (pending signalled rl' o1') r2 m2' o2'.left))
unfolding peek
read_line_buf-read_line_example =
    read_line_buf-read_line signalled signalled-IsStream 100 4 3 started blank blank quiet ahead
      (omega arith) (omega arith) refl
