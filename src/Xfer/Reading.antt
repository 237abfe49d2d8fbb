-- ===== src/Xfer/Reading.antt =====
-- tlpi-dist/svshm/svshm_xfr_reader.c: each step of the reader keeps the programs in phase.
use mathlib.Core.List.{append-nil, append_assoc}
use mathlib.Core.Option.{some-injective}
use mathlib.Core.Path.{subst, ap₂}
use tlpi_exercises.Base.{
  ℕ, suc, ◌+◌, ◌≡◌, ◌≢◌, refl, sym, ap, ◌∙◌, true, false, Option, some, List, [], ◌∷◌, ◌++◌, length,
  take, drop, take-append-drop, take-all, length-append, arith,
}
use tlpi_exercises.Io.{peek}
use tlpi_exercises.Io.Gather.{length-peek}
use tlpi_exercises.Xfer.Phase.{
  Facts, Holds, Behind, Turn, End, Phase, ready, fetching, filled, offered, taken, putting, put,
  drained, over, clearing, done, writer_stopped, reader_stopped, Holds-nil, Holds-some, Still,
  Still-split, Still-length, Still-end, Still-Holds, Still-block, Still-Turn, Still-End, wrap_add,
}
use tlpi_exercises.Xfer.{Writer, Reader, waiting, checking, writing, handing, finishing, left, wrap}

-- A reader that fails leaves the bytes where they are.
pub stop_reader :
    {all : List ℕ} {a : Facts} {w : Writer} {r : Reader} {b x : ℕ}
    → Phase all a w r
    → Phase all a w (left false b x)
stop_reader {a = a} (ready one zer split len t) = reader_stopped a.input split
stop_reader {a = a} (fetching shut split len) = reader_stopped a.input split
stop_reader {a = a} (filled shut bs holds split len) = reader_stopped (bs ++ a.input) split
stop_reader {a = a} (offered zer one bs holds split len t) = reader_stopped (bs ++ a.input) split
stop_reader {a = a} (taken shut bs holds split len t) = reader_stopped (bs ++ a.input) split
stop_reader {a = a} (putting shut bs holds ne split len k t) = reader_stopped (bs ++ a.input) split
stop_reader {a = a} (put shut split len t) = reader_stopped a.input split
stop_reader (drained shut split len t) = reader_stopped [] (split ∙ sym (append-nil _))
stop_reader (over one split len t) = reader_stopped [] (split ∙ sym (append-nil _))
stop_reader (clearing split len) = reader_stopped [] (split ∙ sym (append-nil _))
stop_reader (done split len same) = reader_stopped [] (split ∙ sym (append-nil _))
stop_reader (writer_stopped zer rest split) = reader_stopped rest split
stop_reader (reader_stopped rest split) = reader_stopped rest split

pub reader_got_turn :
    {all : List ℕ} {a a' : Facts} {w : Writer} {b x : ℕ}
    → Still a a'
    → a.turn_r ≡ suc a'.turn_r
    → a'.turn_w ≡ a.turn_w
    → Phase all a w (waiting b x)
    → Phase all a' w (checking b x)
reader_got_turn {all} st r w (offered {n = n} zer one bs holds split len t) =
    taken (w ∙ zer, omega arith) bs (Still-Holds st bs holds) (Still-block st all bs split)
      (Still-length st n len) t
reader_got_turn st r w (ready one zer split len t) = absurd (omega arith)
reader_got_turn st r w (fetching shut split len) = let z = shut.1 in absurd (omega arith)
reader_got_turn st r w (filled shut bs holds split len) = let z = shut.1 in absurd (omega arith)
reader_got_turn st r w (writer_stopped zer rest split) = absurd (omega arith)

End-of :
    {n : ℕ} {bs : List ℕ} {w : Writer} (cnt : Option ℕ)
    → cnt ≡ some 0
    → bs ≡ []
    → Behind n bs w
    → End cnt n w
End-of cnt z e Behind.tests = End.tests z
End-of cnt z e (Behind.waits ne) = absurd (ne e)
End-of cnt z e (Behind.ends _) = End.ends
End-of cnt z e Behind.stopped = End.stopped

pub checked_eof :
    {all : List ℕ} {a : Facts} {w : Writer} {b x : ℕ}
    → a.cnt ≡ some 0
    → Phase all a w (checking b x)
    → Phase all a w (finishing b x)
checked_eof {all} {a} z (taken shut bs holds split len t) =
    let e = Holds-nil bs holds z in
    let whole : all ≡ a.output =
      split ∙ ap₂ (λ l k. a.output ++ (l ++ k)) e (holds.last e) ∙ append-nil a.output in
    drained shut whole (len ∙ ap length (sym whole)) (End-of a.cnt z e t)

pub checked_on :
    {all : List ℕ} {a : Facts} {w : Writer} {b x : ℕ} (c : ℕ)
    → a.cnt ≡ some (suc c)
    → Phase all a w (checking b x)
    → Phase all a w (writing (wrap (b + suc c)) x)
checked_on {all} {a} {w} {x = x} c z (taken {n = n} shut bs holds split len t) =
    let (ne, l) = Holds-some c bs holds z in
    subst (λ m. Phase all a w (writing m x)) (ap (λ k. wrap (n + k)) l ∙ sym (wrap_add n (suc c)))
      (putting shut bs holds ne split len refl t)

length-suc : (bs : List ℕ) → bs ≢ [] → (d : ℕ) × (length bs ≡ suc d)
length-suc [] ne = absurd (ne refl)
length-suc (b ∷ bs) ne = (length bs, refl)

Turn-of :
    {n : ℕ} (cnt : Option ℕ) (bs : List ℕ) (d : ℕ) {w : Writer}
    → cnt ≡ some (length bs)
    → length bs ≡ suc d
    → Behind n bs w
    → Turn cnt (n + length bs) w
Turn-of {n} cnt bs d e l Behind.tests = Turn.tests n (e ∙ ap some l) (ap (λ k. n + k) l)
Turn-of cnt bs d e l (Behind.waits _) = Turn.waits
Turn-of cnt bs d e l (Behind.ends z) = absurd (omega (arith, l, ap length z))
Turn-of cnt bs d e l Behind.stopped = Turn.stopped

-- the block that the reader writes
block : {a : Facts} {bs : List ℕ} (c : ℕ) → Holds a bs → a.cnt ≡ some c → peek a.buf 0 c ≡ bs
block {a} {bs} c holds z =
    let same : c ≡ length bs = some-injective _ _ (sym z ∙ holds.count) in
    ap (λ k. peek a.buf 0 k) same ∙ holds.bytes

whole_block :
    {a : Facts} (bs : List ℕ) (c : ℕ) → Holds a bs → a.cnt ≡ some c → take c (peek a.buf 0 c) ≡ bs
whole_block {a} bs c holds z =
    let l = length-peek a.buf 0 c in
    take-all c (peek a.buf 0 c) (omega (arith, l)) ∙ block c holds z

pub wrote :
    {all : List ℕ} {a a' : Facts} {w : Writer} {b x : ℕ} (c : ℕ)
    → a.cnt ≡ some c
    → a'.turn_w ≡ a.turn_w
    → a'.turn_r ≡ a.turn_r
    → a'.cnt ≡ a.cnt
    → a'.input ≡ a.input
    → a'.output ≡ a.output ++ take c (peek a.buf 0 c)
    → Phase all a w (writing b x)
    → Phase all a' w (handing b x)
wrote {all} {a} {a'} {w} c z tw tr same inp out
      (putting {n = n} {k = k} shut bs holds ne split len count t) =
    let (d, l) = length-suc bs ne in
    let out1 : a'.output ≡ a.output ++ bs =
      out ∙ ap (λ x. a.output ++ x) (whole_block bs c holds z) in
    let turn : Turn a.cnt k w =
      subst (λ m. Turn a.cnt m w) (sym count) (Turn-of a.cnt bs d holds.count l t) in
    put (tw ∙ shut.0, tr ∙ shut.1)
      (split ∙ sym (append_assoc a.output bs a.input) ∙ ap₂ ◌++◌ (sym out1) (sym inp))
      (omega (arith, count, len, length-append a.output bs, ap length out1))
      (subst (λ m. Turn m k w) (sym same) turn)

pub stopped_writing :
    {all : List ℕ} {a a' : Facts} {w : Writer} {b y x : ℕ} (c k : ℕ)
    → a.cnt ≡ some c
    → a'.output ≡ a.output ++ take k (peek a.buf 0 c)
    → Phase all a w (writing b x)
    → Phase all a' w (left false y x)
stopped_writing {all} {a} {a'} c k z out (putting shut bs holds ne split len count t) =
    let blk = block c holds z in
    let parts : bs ≡ take k (peek a.buf 0 c) ++ drop k (peek a.buf 0 c) =
      sym blk ∙ sym (take-append-drop k (peek a.buf 0 c)) in
    let p = take k (peek a.buf 0 c) in
    let q = drop k (peek a.buf 0 c) in
    reader_stopped (q ++ a.input) (
      split
      ∙ ap (λ l. a.output ++ (l ++ a.input)) parts
      ∙ ap (λ l. a.output ++ l) (append_assoc p q a.input)
      ∙ sym (append_assoc a.output p (q ++ a.input))
      ∙ ap (λ l. l ++ (q ++ a.input)) (sym out))

pub gave_turn_back :
    {all : List ℕ} {a a' : Facts} {w : Writer} {b x y : ℕ}
    → Still a a'
    → a'.turn_w ≡ suc a.turn_w
    → a'.turn_r ≡ a.turn_r
    → Phase all a w (handing b x)
    → Phase all a' w (waiting b y)
gave_turn_back {all} {w = w} st tw tr (put {n = n} shut split len t) =
    let z = shut.0 in
    ready (omega arith) (tr ∙ shut.1) (Still-split st all split) (Still-length st n len)
      (Still-Turn st n w t)

pub gave_last_turn :
    {all : List ℕ} {a a' : Facts} {w : Writer} {b x : ℕ}
    → Still a a'
    → a'.turn_w ≡ suc a.turn_w
    → Phase all a w (finishing b x)
    → Phase all a' w (left true b x)
gave_last_turn {all} {w = w} st tw (drained {n = n} shut split len t) =
    let z = shut.0 in over (omega arith) (Still-end st all split) len (Still-End st n w t)
