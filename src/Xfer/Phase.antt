-- ===== src/Xfer/Phase.antt =====
-- tlpi-dist/svshm/svshm_xfr_writer.c and svshm_xfr_reader.c: how the two programs stand to each other.
use mathlib.Core.Path.{subst, ap₂}
use mathlib.Core.Option.{some-injective}
use tlpi_exercises.Base.{
  ℕ, suc, ◌+◌, ◌≡◌, ◌≢◌, refl, sym, ap, ◌∙◌, Bool, true, false, Option, some, List, [], ◌∷◌, ◌++◌,
  length, arith,
}
use tlpi_exercises.Io.{Memory, peek}
use tlpi_exercises.Sems.{Semaphores}
use tlpi_exercises.Xfer.{
  Files, Shared, Writer, reserving, reading, releasing, testing, last_turn, removing, gone, Reader,
  waiting, checking, writing, handing, finishing, left, wrap, write_sem, read_sem,
}

-- what the programs share, as far as the phases see it
pub record Facts : Type 0 where
  pub turn_w : ℕ
  pub turn_r : ℕ
  pub input : List ℕ
  pub output : List ℕ
  pub cnt : Option ℕ
  pub buf : Memory

abbrev pub facts : {Os : Type 0} → Semaphores Os → Files Os → Shared Os → Facts
facts s f m = record {
  turn_w = s.value m.os write_sem;
  turn_r = s.value m.os read_sem;
  input = f.input m.os;
  output = f.output m.os;
  cnt = m.cnt;
  buf = m.buf;
}

-- The segment holds a block.
pub record Holds (a : Facts) (bs : List ℕ) : Type 0 where
  pub count : a.cnt ≡ some (length bs)
  pub bytes : peek a.buf 0 (length bs) ≡ bs
  pub last : bs ≡ [] → a.input ≡ []

-- The writer has offered the block `bs` behind `n` bytes, and the reader has not handed back.
pub data Behind (n : ℕ) (bs : List ℕ) : Writer → Type 0 where
  tests : {x : ℕ} → Behind n bs (testing (wrap n) x)
  waits : {x : ℕ} → bs ≢ [] → Behind n bs (reserving (wrap (n + length bs)) x)
  ends : {x : ℕ} → bs ≡ [] → Behind n bs (last_turn (wrap n) x)
  stopped : {b x : ℕ} → Behind n bs (gone false b x)

-- The writer may have its turn, of which it has counted `n` bytes before.
pub data Turn (cnt : Option ℕ) (n : ℕ) : Writer → Type 0 where
  tests : (b : ℕ) {c x : ℕ} → cnt ≡ some (suc c) → n ≡ b + suc c → Turn cnt n (testing (wrap b) x)
  waits : {x : ℕ} → Turn cnt n (reserving (wrap n) x)
  stopped : {b x : ℕ} → Turn cnt n (gone false b x)

-- The writer has given the reader the empty block.
pub data End (cnt : Option ℕ) (n : ℕ) : Writer → Type 0 where
  tests : {x : ℕ} → cnt ≡ some 0 → End cnt n (testing (wrap n) x)
  ends : {x : ℕ} → End cnt n (last_turn (wrap n) x)
  stopped : {b x : ℕ} → End cnt n (gone false b x)

-- The semaphores of both are 0.
abbrev pub Closed : Facts → Type 0
Closed a = (a.turn_w ≡ 0) × (a.turn_r ≡ 0)

-- The counters of the programs have wrapped what they counted, here in full.
-- Where the programs stand, and how the bytes `all` of the input are spread over the output, the
-- block in the segment and what is left of the input.
pub data Phase (all : List ℕ) (a : Facts) : Writer → Reader → Type 0 where
  ready :
      {n y : ℕ} {w : Writer}
      → a.turn_w ≡ 1
      → a.turn_r ≡ 0
      → all ≡ a.output ++ a.input
      → n ≡ length a.output
      → Turn a.cnt n w
      → Phase all a w (waiting (wrap n) y)
  fetching :
      {n x y : ℕ}
      → Closed a
      → all ≡ a.output ++ a.input
      → n ≡ length a.output
      → Phase all a (reading (wrap n) x) (waiting (wrap n) y)
  filled :
      {n x y : ℕ}
      → Closed a
      → (bs : List ℕ) → Holds a bs
      → all ≡ a.output ++ (bs ++ a.input)
      → n ≡ length a.output
      → Phase all a (releasing (wrap n) x) (waiting (wrap n) y)
  offered :
      {n y : ℕ} {w : Writer}
      → a.turn_w ≡ 0
      → a.turn_r ≡ 1
      → (bs : List ℕ) → Holds a bs
      → all ≡ a.output ++ (bs ++ a.input)
      → n ≡ length a.output
      → Behind n bs w
      → Phase all a w (waiting (wrap n) y)
  taken :
      {n y : ℕ} {w : Writer}
      → Closed a
      → (bs : List ℕ) → Holds a bs
      → all ≡ a.output ++ (bs ++ a.input)
      → n ≡ length a.output
      → Behind n bs w
      → Phase all a w (checking (wrap n) y)
  putting :
      {n k y : ℕ} {w : Writer}
      → Closed a
      → (bs : List ℕ) → Holds a bs
      → bs ≢ []
      → all ≡ a.output ++ (bs ++ a.input)
      → n ≡ length a.output
      → k ≡ n + length bs
      → Behind n bs w
      → Phase all a w (writing (wrap k) y)
  put :
      {n y : ℕ} {w : Writer}
      → Closed a
      → all ≡ a.output ++ a.input
      → n ≡ length a.output
      → Turn a.cnt n w
      → Phase all a w (handing (wrap n) y)
  drained :
      {n y : ℕ} {w : Writer}
      → Closed a
      → all ≡ a.output
      → n ≡ length all
      → End a.cnt n w
      → Phase all a w (finishing (wrap n) y)
  over :
      {n y : ℕ} {w : Writer}
      → a.turn_w ≡ 1
      → all ≡ a.output
      → n ≡ length all
      → End a.cnt n w
      → Phase all a w (left true (wrap n) y)
  clearing :
      {n x y : ℕ}
      → all ≡ a.output
      → n ≡ length all
      → Phase all a (removing (wrap n) x) (left true (wrap n) y)
  done :
      {n b x y : ℕ} {ok : Bool}
      → all ≡ a.output
      → n ≡ length all
      → (ok ≡ true → b ≡ wrap n)
      → Phase all a (gone ok b x) (left true (wrap n) y)
  writer_stopped :
      {b x c y : ℕ}
      → a.turn_r ≡ 0
      → (rest : List ℕ) → all ≡ a.output ++ rest
      → Phase all a (gone false b x) (waiting c y)
  reader_stopped :
      {c y : ℕ} {w : Writer}
      → (rest : List ℕ) → all ≡ a.output ++ rest
      → Phase all a w (left false c y)

-- A count may wrap at any time.
pub wrap_add : (n c : ℕ) → wrap (wrap n + c) ≡ wrap (n + c)
wrap_add n c = omega arith

pub Holds-nil : {a : Facts} (bs : List ℕ) → Holds a bs → a.cnt ≡ some 0 → bs ≡ []
Holds-nil [] h z = refl
Holds-nil (b ∷ bs) h z = let e = h.count in absurd (cc)

pub Holds-some :
    {a : Facts} (c : ℕ) (bs : List ℕ)
    → Holds a bs
    → a.cnt ≡ some (suc c)
    → (bs ≢ []) × (length bs ≡ suc c)
Holds-some c [] h z = let e = h.count in absurd (cc)
Holds-some c (b ∷ bs) h z = (λ e. cc, some-injective _ _ (sym h.count ∙ z))

-- The files and the segment stay as they are; only the semaphores may change.
pub record Still (a a' : Facts) : Type 0 where
  pub input_same : a'.input ≡ a.input
  pub output_same : a'.output ≡ a.output
  pub cnt_same : a'.cnt ≡ a.cnt
  pub buf_same : a'.buf ≡ a.buf

module _ {a a' : Facts} (st : Still a a') where
  pub Still-split : (all : List ℕ) → all ≡ a.output ++ a.input → all ≡ a'.output ++ a'.input
  Still-split all e = e ∙ ap₂ ◌++◌ (sym st.output_same) (sym st.input_same)

  pub Still-block :
      (all bs : List ℕ) → all ≡ a.output ++ (bs ++ a.input) → all ≡ a'.output ++ (bs ++ a'.input)
  Still-block all bs e = e ∙ ap₂ ◌++◌ (sym st.output_same) (ap (λ l. bs ++ l) (sym st.input_same))

  pub Still-length : (n : ℕ) → n ≡ length a.output → n ≡ length a'.output
  Still-length n e = e ∙ ap length (sym st.output_same)

  pub Still-Holds : (bs : List ℕ) → Holds a bs → Holds a' bs
  Still-Holds bs h = record {
    count = st.cnt_same ∙ h.count;
    bytes = ap (λ m. peek m 0 (length bs)) st.buf_same ∙ h.bytes;
    last = λ e. st.input_same ∙ h.last e;
  }

  pub Still-Turn : (n : ℕ) (w : Writer) → Turn a.cnt n w → Turn a'.cnt n w
  Still-Turn n w t = subst (λ c. Turn c n w) (sym st.cnt_same) t

  pub Still-End : (n : ℕ) (w : Writer) → End a.cnt n w → End a'.cnt n w
  Still-End n w t = subst (λ c. End c n w) (sym st.cnt_same) t

  -- the bytes where a program stopped
  pub Still-prefix : (all rest : List ℕ) → all ≡ a.output ++ rest → all ≡ a'.output ++ rest
  Still-prefix all rest e = e ∙ ap (λ l. l ++ rest) (sym st.output_same)

  pub Still-end : (all : List ℕ) → all ≡ a.output → all ≡ a'.output
  Still-end all e = e ∙ sym st.output_same
