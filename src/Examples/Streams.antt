-- ===== src/Examples/Streams.antt =====
-- tlpi-dist/sockets/rdwrn.c and tlpi-dist/sockets/read_line.c over a system that interrupts calls and
-- moves two bytes at most.
use tlpi_exercises.Base.{
  ℕ, zero, suc, ◌-◌, ◌≤◌, ◌<◌, ◌≡◌, ◌≢◌, refl, ◌∙◌, sym, ap, ◌⊎◌, Option, none, some, List, [], ◌∷◌,
  ◌++◌, arith, length, take, drop, min, length-take, take-append-drop,
}
use tlpi_exercises.Io.{Memory, peek, poke}
use tlpi_exercises.Sockets.{
  Written, wrote, write_failed, Got, got, read_failed, eintr, Streams, IsStream, writen_loop,
  writen, readn_loop, readn, close_line, line_loop, read_line,
}
use tlpi_exercises.Sockets.Line.{first_line, read_line-first, ReadFailed}
use tlpi_exercises.Sockets.Read.{readn-Taken}
use tlpi_exercises.Sockets.Write.{writen-Sent, Refused}

pub record Pipe : Type 0 where
  pub sent : List ℕ
  pub left : List ℕ
  pub signals : ℕ

abbrev pub two_at_most : List ℕ → ℕ → Pipe → Written × Pipe
two_at_most bs zero o =
    (wrote (min 2 (length bs)), record o { sent = o.sent ++ take (min 2 (length bs)) bs })
two_at_most bs (suc k) o = (write_failed eintr, record o { signals = k })

abbrev pub take_two : ℕ → ℕ → Pipe → Got × Pipe
take_two n zero o = (got (take (min 2 n) o.left), record o { left = drop (min 2 n) o.left })
take_two n (suc k) o = (read_failed eintr, record o { signals = k })

abbrev pub signalled : Streams
signalled = record {
  Os = Pipe;
  written = λ o fd. o.sent;
  input = λ o fd. o.left;
  interrupts = λ o. o.signals;
  write = λ o fd bs. two_at_most bs o.signals o;
  read = λ o fd n. take_two n o.signals o;
}

abbrev five : List ℕ
five = 1 ∷ 2 ∷ 10 ∷ 4 ∷ 5 ∷ []

abbrev pipe : Pipe
pipe = record { sent = []; left = five; signals = 1 }

abbrev pub blank : Memory
blank x = 0

write_five :
    writen signalled 7 3 five 5 pipe ≡ some (some 5, record pipe { sent = five; signals = 0 })
unfolding writen writen_loop
write_five = refl

-- what a read returned, and the bytes from an address on
bytes_at : ℕ → ℕ → Option (Option ℕ × Memory × Pipe) → Option ℕ × List ℕ
bytes_at a n none = (none, [])
bytes_at a n (some (r, m, o)) = (r, peek m a n)

-- the first line of three bytes, with its newline and the closing 0
first_three :
    bytes_at 100 5 (read_line signalled 7 3 100 9 blank pipe) ≡ (some 3, 1 ∷ 2 ∷ 10 ∷ 0 ∷ 0 ∷ [])
unfolding read_line line_loop close_line peek poke bytes_at
first_three = refl

-- room for one byte of it
first_one :
    bytes_at 100 5 (read_line signalled 7 3 100 2 blank pipe) ≡ (some 1, 1 ∷ 0 ∷ 0 ∷ 0 ∷ 0 ∷ [])
unfolding read_line line_loop close_line peek poke bytes_at
first_one = refl

read_four :
    bytes_at 100 5 (readn signalled 7 3 100 4 blank pipe) ≡ (some 4, 1 ∷ 2 ∷ 10 ∷ 4 ∷ 0 ∷ [])
unfolding readn readn_loop peek poke bytes_at
read_four = refl

wrote-law :
    (bs : List ℕ) (k n : ℕ) (o : Pipe)
    → (two_at_most bs k o).0 ≡ wrote n
    → (n ≤ length bs)
      × ((two_at_most bs k o).1.sent ≡ o.sent ++ take n bs)
      × ((two_at_most bs k o).1.signals ≤ o.signals)
wrote-law bs zero n o e =
    let is : min 2 (length bs) ≡ n = cc in
    (omega arith, ap (λ (x : ℕ). o.sent ++ take x bs) is, omega arith)
wrote-law bs (suc k) n o e = absurd (cc)

write_failed-law :
    (bs : List ℕ) (k err : ℕ) (o : Pipe)
    → k ≡ o.signals
    → (two_at_most bs k o).0 ≡ write_failed err
    → ((two_at_most bs k o).1.sent ≡ o.sent)
      × (err ≡ eintr → (two_at_most bs k o).1.signals < o.signals)
write_failed-law bs zero err o s e = absurd (cc)
write_failed-law bs (suc k) err o s e = (refl, λ i. omega arith)

take-none : (n : ℕ) (xs : List ℕ) → take (min 2 n) xs ≡ [] → 0 < n → xs ≡ []
take-none n [] e pos = refl
take-none (suc n) (x ∷ xs) e pos =
    let k : min 2 (suc n) ≡ suc (min 1 n) = omega arith in absurd (cc)
take-none zero (x ∷ xs) e pos = absurd (omega arith)

got-law :
    (n k : ℕ) (o : Pipe) (bs : List ℕ)
    → (take_two n k o).0 ≡ got bs
    → (length bs ≤ n)
      × (o.left ≡ bs ++ (take_two n k o).1.left)
      × (bs ≡ [] → 0 < n → o.left ≡ [])
      × ((take_two n k o).1.signals ≤ o.signals)
got-law n zero o bs e =
    let is : take (min 2 n) o.left ≡ bs = cc in
    (
      omega (arith, length-take (min 2 n) o.left, ap (λ (x : List ℕ). length x) is),
      sym (
          ap (λ (x : List ℕ). x ++ drop (min 2 n) o.left) (sym is)
          ∙ take-append-drop (min 2 n) o.left),
      λ z. take-none n o.left (is ∙ z),
      omega arith,
    )
got-law n (suc k) o bs e = absurd (cc)

read_failed-law :
    (n k err : ℕ) (o : Pipe)
    → k ≡ o.signals
    → (take_two n k o).0 ≡ read_failed err
    → ((take_two n k o).1.left ≡ o.left) × (err ≡ eintr → (take_two n k o).1.signals < o.signals)
read_failed-law n zero err o s e = absurd (cc)
read_failed-law n (suc k) err o s e = (refl, λ i. omega arith)

pub signalled-IsStream : IsStream signalled
signalled-IsStream = record {
  write_some = λ o fd n bs e. wrote-law bs o.signals n o e;
  write_none = λ o fd err bs e. write_failed-law bs o.signals err o refl e;
  read_some = λ o fd n bs e. got-law n o.signals o bs e;
  read_none = λ o fd n err e. read_failed-law n o.signals err o refl e;
}

writen-Sent_example :
    (r : Option ℕ) × (o' : Pipe) × (sent : ℕ) × (writen signalled 7 3 five 5 pipe ≡ some (r, o'))
    × (o'.sent ≡ [] ++ take sent five)
    × (((r ≡ some 5) × (sent ≡ 5)) ⊎ ((r ≡ none) × (sent < 5) × Refused signalled 3 five 5 sent o'))
writen-Sent_example = writen-Sent signalled signalled-IsStream 3 five pipe

readn-Taken_example :
    (r : Option ℕ) × (m' : Memory) × (o' : Pipe) × (bs : List ℕ) × (readn signalled 6 3 100 4 blank
        pipe
      ≡ some (r, m', o'))
    × (five ≡ bs ++ o'.left)
    × (m' ≡ poke blank 100 bs)
    × (length bs ≤ 4)
    × (((r ≡ some (length bs)) × ((length bs ≡ 4) ⊎ (o'.left ≡ [])))
        ⊎ ((r ≡ none) × (length bs < 4) × ReadFailed signalled 3 (4 - length bs) o'))
readn-Taken_example = readn-Taken signalled signalled-IsStream 3 100 4 blank pipe

read_line-first_example :
    (r : Option ℕ) × (m' : Memory) × (o' : Pipe) × (read_line signalled 7 3 100 3 blank pipe
      ≡ some (r, m', o'))
    × (((r ≡ none) × ReadFailed signalled 3 1 o')
        ⊎ ((r ≡ some (length (take 2 (first_line five))))
            × (five ≡ first_line five ++ o'.left)
            × (five ≡ [] → m' ≡ blank)
            × (five ≢ [] → m' ≡ poke blank 100 (take 2 (first_line five) ++ 0 ∷ []))))
read_line-first_example =
    read_line-first 100 3 signalled signalled-IsStream 3 (omega arith) blank pipe (omega arith)
