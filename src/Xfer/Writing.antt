-- ===== src/Xfer/Writing.antt =====
-- tlpi-dist/svshm/svshm_xfr_writer.c: each step of the writer keeps the programs in phase.
use mathlib.Core.Path.{subst, ap₂}
use mathlib.Core.Option.{some-injective}
use tlpi_exercises.Base.{
  ℕ, suc, ◌+◌, ◌≡◌, ◌≢◌, refl, sym, ap, ◌∙◌, Bool, false, Option, some, List, [], ◌++◌, length,
  arith,
}
use tlpi_exercises.Xfer.Phase.{
  Facts, Holds, Behind, Turn, End, Phase, ready, fetching, filled, offered, taken, putting, put,
  drained, over, clearing, done, writer_stopped, reader_stopped, Holds-nil, Holds-some, Still,
  Still-split, Still-length, Still-prefix, Still-end, Still-Holds, Still-block, wrap_add,
}
use tlpi_exercises.Xfer.{
  Writer, reserving, reading, releasing, testing, last_turn, removing, gone, Reader, wrap,
}

-- A writer that fails leaves the bytes where they are.
pub stop :
    {all : List ℕ} {a : Facts} {w : Writer} {r : Reader} {b x : ℕ}
    → Phase all a w r
    → Phase all a (gone false b x) r
stop (ready one zer split len turn) = ready one zer split len Turn.stopped
stop {a = a} (fetching shut split len) = writer_stopped shut.1 a.input split
stop {a = a} (filled shut bs holds split len) = writer_stopped shut.1 (bs ++ a.input) split
stop (offered zer one bs holds split len w) = offered zer one bs holds split len Behind.stopped
stop (taken shut bs holds split len w) = taken shut bs holds split len Behind.stopped
stop (putting shut bs holds ne split len k w) = putting shut bs holds ne split len k Behind.stopped
stop (put shut split len w) = put shut split len Turn.stopped
stop (drained shut split len w) = drained shut split len End.stopped
stop (over one split len w) = over one split len End.stopped
stop (clearing split len) = done split len (λ e. absurd (cc))
stop (done split len same) = done split len (λ e. absurd (cc))
stop (writer_stopped zer rest split) = writer_stopped zer rest split
stop (reader_stopped rest split) = reader_stopped rest split

Behind-ends :
    {n : ℕ} {bs : List ℕ} {b x : ℕ}
    → bs ≡ []
    → Behind n bs (testing b x)
    → Behind n bs (last_turn b x)
Behind-ends e Behind.tests = Behind.ends e

-- the test of the count
pub tested_eof :
    {all : List ℕ} {a : Facts} {r : Reader} {b x : ℕ}
    → a.cnt ≡ some 0
    → Phase all a (testing b x) r
    → Phase all a (last_turn b x) r
tested_eof z (ready one zer split len (Turn.tests b c k)) = absurd (cc)
tested_eof z (offered zer one bs holds split len t) =
    offered zer one bs holds split len (Behind-ends (Holds-nil bs holds z) t)
tested_eof z (taken shut bs holds split len t) =
    taken shut bs holds split len (Behind-ends (Holds-nil bs holds z) t)
tested_eof z (putting shut bs holds ne split len k t) = absurd (ne (Holds-nil bs holds z))
tested_eof z (put shut split len (Turn.tests b c k)) = absurd (cc)
tested_eof z (drained shut split len (End.tests c)) = drained shut split len End.ends
tested_eof z (over one split len (End.tests c)) = over one split len End.ends
tested_eof z (reader_stopped rest split) = reader_stopped rest split

some_same : {a b : ℕ} {o : Option ℕ} → o ≡ some a → o ≡ some b → a ≡ b
some_same e g = some-injective _ _ (sym e ∙ g)

-- the bytes that a writer counts on top of `n`
counted_on :
    (n b : ℕ) (cnt : Option ℕ) (c d x : ℕ)
    → cnt ≡ some (suc d)
    → cnt ≡ some (suc c)
    → n ≡ b + suc d
    → Turn cnt n (reserving (wrap (wrap b + suc c)) x)
counted_on n b cnt c d x e z k =
    let l : wrap n ≡ wrap (wrap b + suc c) =
      ap wrap (omega (arith, some_same z e, k)) ∙ sym (wrap_add b (suc c)) in
    subst (λ m. Turn cnt n (reserving m x)) l Turn.waits

waits_on :
    {n : ℕ} (bs : List ℕ) (c x : ℕ)
    → bs ≢ []
    → length bs ≡ suc c
    → Behind n bs (reserving (wrap (wrap n + suc c)) x)
waits_on {n} bs c x ne l =
    subst (λ m. Behind n bs (reserving m x)) (ap (λ m. wrap (n + m)) l ∙ sym (wrap_add n (suc c)))
      (Behind.waits ne)

Behind-waits :
    {n : ℕ} {bs : List ℕ} {b x : ℕ} (c y : ℕ)
    → bs ≢ []
    → length bs ≡ suc c
    → Behind n bs (testing b x)
    → Behind n bs (reserving (wrap (b + suc c)) y)
Behind-waits {bs = bs} c y ne l Behind.tests = waits_on bs c y ne l

pub tested_on :
    {all : List ℕ} {a : Facts} {r : Reader} {b x : ℕ} (c y : ℕ)
    → a.cnt ≡ some (suc c)
    → Phase all a (testing b x) r
    → Phase all a (reserving (wrap (b + suc c)) y) r
tested_on c y z (ready one zer split len (Turn.tests b0 {c = d} e k)) =
    ready one zer split len (counted_on _ b0 _ c d y e z k)
tested_on c y z (offered zer one bs holds split len t) =
    let (ne, l) = Holds-some c bs holds z in
    offered zer one bs holds split len (Behind-waits c y ne l t)
tested_on c y z (taken shut bs holds split len t) =
    let (ne, l) = Holds-some c bs holds z in taken shut bs holds split len (Behind-waits c y ne l t)
tested_on c y z (putting shut bs holds ne split len k t) =
    let (_, l) = Holds-some c bs holds z in
    putting shut bs holds ne split len k (Behind-waits c y ne l t)
tested_on c y z (put shut split len (Turn.tests b0 {c = d} e k)) =
    put shut split len (counted_on _ b0 _ c d y e z k)
tested_on c y z (drained shut split len (End.tests e)) = absurd (cc)
tested_on c y z (over one split len (End.tests e)) = absurd (cc)
tested_on c y z (reader_stopped rest split) = reader_stopped rest split

-- The semaphore `write_sem` is taken: the writer has its turn.
pub got_turn :
    {all : List ℕ} {a a' : Facts} {r : Reader} {b x : ℕ}
    → Still a a'
    → a.turn_w ≡ suc a'.turn_w
    → a'.turn_r ≡ a.turn_r
    → Phase all a (reserving b x) r
    → Phase all a' (reading b x) r
got_turn {all} st w r (ready {n = n} one zer split len Turn.waits) =
    fetching (omega arith, r ∙ zer) (Still-split st all split) (Still-length st n len)
got_turn st w r (offered zer one bs holds split len t) = absurd (omega arith)
got_turn st w r (taken shut bs holds split len t) = let z = shut.0 in absurd (omega arith)
got_turn st w r (putting shut bs holds ne split len k t) = let z = shut.0 in absurd (omega arith)
got_turn st w r (put shut split len t) = let z = shut.0 in absurd (omega arith)
got_turn st w r (drained shut split len t) = elim t [ ]
got_turn st w r (over one split len t) = elim t [ ]
got_turn {all} st w r (reader_stopped rest split) =
    reader_stopped rest (Still-prefix st all rest split)

pub got_last_turn :
    {all : List ℕ} {a a' : Facts} {r : Reader} {b x : ℕ}
    → Still a a'
    → a.turn_w ≡ suc a'.turn_w
    → Phase all a (last_turn b x) r
    → Phase all a' (removing b x) r
got_last_turn st w (ready one zer split len t) = elim t [ ]
got_last_turn st w (offered zer one bs holds split len t) = absurd (omega arith)
got_last_turn st w (taken shut bs holds split len t) = let z = shut.0 in absurd (omega arith)
got_last_turn st w (putting shut bs holds ne split len k t) = let z = shut.0 in absurd (omega arith)
got_last_turn st w (put shut split len t) = elim t [ ]
got_last_turn st w (drained shut split len t) = let z = shut.0 in absurd (omega arith)
got_last_turn {all} st w (over one split len End.ends) = clearing (Still-end st all split) len
got_last_turn {all} st w (reader_stopped rest split) =
    reader_stopped rest (Still-prefix st all rest split)

pub filled_segment :
    {all : List ℕ} {a a' : Facts} {r : Reader} {b x : ℕ} (bs : List ℕ)
    → a'.turn_w ≡ a.turn_w
    → a'.turn_r ≡ a.turn_r
    → a'.output ≡ a.output
    → a.input ≡ bs ++ a'.input
    → Holds a' bs
    → Phase all a (reading b x) r
    → Phase all a' (releasing b x) r
filled_segment bs w r out inp holds (fetching shut split len) =
    filled (w ∙ shut.0, r ∙ shut.1) bs holds (split ∙ ap₂ ◌++◌ (sym out) inp)
      (len ∙ ap length (sym out))
filled_segment bs w r out inp holds (ready one zer split len t) = elim t [ ]
filled_segment bs w r out inp holds (offered zer one bs' holds' split len t) = elim t [ ]
filled_segment bs w r out inp holds (taken shut bs' holds' split len t) = elim t [ ]
filled_segment bs w r out inp holds (putting shut bs' holds' ne split len k t) = elim t [ ]
filled_segment bs w r out inp holds (put shut split len t) = elim t [ ]
filled_segment bs w r out inp holds (drained shut split len t) = elim t [ ]
filled_segment bs w r out inp holds (over one split len t) = elim t [ ]
filled_segment bs w r out inp holds (reader_stopped rest split) =
    reader_stopped rest (split ∙ ap (λ l. l ++ rest) (sym out))

pub gave_turn :
    {all : List ℕ} {a a' : Facts} {r : Reader} {b x : ℕ}
    → Still a a'
    → a'.turn_r ≡ suc a.turn_r
    → a'.turn_w ≡ a.turn_w
    → Phase all a (releasing b x) r
    → Phase all a' (testing b x) r
gave_turn {all} st r w (filled {n = n} shut bs holds split len) =
    let z = shut.1 in
    offered (w ∙ shut.0) (omega arith) bs (Still-Holds st bs holds) (Still-block st all bs split)
      (Still-length st n len) Behind.tests
gave_turn st r w (ready one zer split len t) = elim t [ ]
gave_turn st r w (offered zer one bs' holds' split len t) = elim t [ ]
gave_turn st r w (taken shut bs' holds' split len t) = elim t [ ]
gave_turn st r w (putting shut bs' holds' ne split len k t) = elim t [ ]
gave_turn st r w (put shut split len t) = elim t [ ]
gave_turn st r w (drained shut split len t) = elim t [ ]
gave_turn st r w (over one split len t) = elim t [ ]
gave_turn {all} st r w (reader_stopped rest split) =
    reader_stopped rest (Still-prefix st all rest split)

pub removed :
    {all : List ℕ} {a a' : Facts} {r : Reader} {b x : ℕ} {ok : Bool}
    → Still a a'
    → Phase all a (removing b x) r
    → Phase all a' (gone ok b x) r
removed {all} st (clearing split len) = done (Still-end st all split) len (λ e. refl)
removed st (ready one zer split len t) = elim t [ ]
removed st (offered zer one bs' holds' split len t) = elim t [ ]
removed st (taken shut bs' holds' split len t) = elim t [ ]
removed st (putting shut bs' holds' ne split len k t) = elim t [ ]
removed st (put shut split len t) = elim t [ ]
removed st (drained shut split len t) = elim t [ ]
removed st (over one split len t) = elim t [ ]
removed {all} st (reader_stopped rest split) = reader_stopped rest (Still-prefix st all rest split)

pub stop_reading :
    {all : List ℕ} {a a' : Facts} {r : Reader} {b x : ℕ}
    → a'.output ≡ a.output
    → a'.turn_r ≡ a.turn_r
    → Phase all a (reading b x) r
    → Phase all a' (gone false b x) r
stop_reading {a = a} out t (fetching shut split len) =
    writer_stopped (t ∙ shut.1) a.input (split ∙ ap (λ l. l ++ a.input) (sym out))
stop_reading out t (ready one zer split len e) = elim e [ ]
stop_reading out t (offered zer one bs' holds' split len e) = elim e [ ]
stop_reading out t (taken shut bs' holds' split len e) = elim e [ ]
stop_reading out t (putting shut bs' holds' ne split len k e) = elim e [ ]
stop_reading out t (put shut split len e) = elim e [ ]
stop_reading out t (drained shut split len e) = elim e [ ]
stop_reading out t (over one split len e) = elim e [ ]
stop_reading out t (reader_stopped rest split) =
    reader_stopped rest (split ∙ ap (λ l. l ++ rest) (sym out))
