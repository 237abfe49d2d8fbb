-- ===== src/Xfer/Order.antt =====
-- tlpi-dist/svshm/svshm_xfr_writer.c and svshm_xfr_reader.c: the bytes arrive in order, and only one of
-- the programs uses the segment at a time.
use mathlib.Core.List.{append-nil}
use mathlib.Core.Path.{subst}
use tlpi_exercises.Base.{
  ℕ, ◌≡◌, refl, sym, ap, ◌∙◌, ◌<◌, ◌^◌, arith, Bool, true, false, Option, List, [], ◌++◌, length,
}
use tlpi_exercises.Sems.{Semaphores, IsSemaphores}
use tlpi_exercises.Xfer.Phase.{
  Facts, facts, Phase, ready, fetching, filled, offered, taken, putting, put, drained, over,
  clearing, done, writer_stopped, reader_stopped, Turn, End, Behind,
}
use tlpi_exercises.Xfer.Reachable.{Reach-Phase}
use tlpi_exercises.Xfer.{
  Files, IsFiles, IsApart, Writer, reading, releasing, removing, gone, Reader, checking, writing,
  handing, left, wrap, State, Reach,
}

-- The programs use the segment: the writer fills it and the reader reads from it.
abbrev pub fills : Writer → Bool
fills (reading b x) = true
fills (releasing b x) = true
fills w = false

abbrev pub empties : Reader → Bool
empties (checking b x) = true
empties (writing b x) = true
empties (handing b x) = true
empties r = false

abbrev pub removes : Writer → Bool
removes (removing b x) = true
removes w = false

abbrev pub has_left : Reader → Bool
has_left (left ok b x) = true
has_left r = false

prefix_of :
    {all : List ℕ} {a : Facts} {w : Writer} {r : Reader}
    → Phase all a w r
    → (rest : List ℕ) × (all ≡ a.output ++ rest)
prefix_of {a = a} (ready one zer split len t) = (a.input, split)
prefix_of {a = a} (fetching shut split len) = (a.input, split)
prefix_of {a = a} (filled shut bs holds split len) = (bs ++ a.input, split)
prefix_of {a = a} (offered zer one bs holds split len t) = (bs ++ a.input, split)
prefix_of {a = a} (taken shut bs holds split len t) = (bs ++ a.input, split)
prefix_of {a = a} (putting shut bs holds ne split len k t) = (bs ++ a.input, split)
prefix_of {a = a} (put shut split len t) = (a.input, split)
prefix_of (drained shut split len t) = ([], split ∙ sym (append-nil _))
prefix_of (over one split len t) = ([], split ∙ sym (append-nil _))
prefix_of (clearing split len) = ([], split ∙ sym (append-nil _))
prefix_of (done split len same) = ([], split ∙ sym (append-nil _))
prefix_of (writer_stopped zer rest split) = (rest, split)
prefix_of (reader_stopped rest split) = (rest, split)

reader_end :
    {all : List ℕ} {a : Facts} {w : Writer} {b y : ℕ}
    → Phase all a w (left true b y)
    → (all ≡ a.output) × (b ≡ wrap (length all))
reader_end (over one split len t) = (split, ap wrap len)
reader_end (clearing split len) = (split, ap wrap len)
reader_end (done split len same) = (split, ap wrap len)

writer_end :
    {all : List ℕ} {a : Facts} {c x b y : ℕ} → Phase all a (gone true c x) (left true b y) → c ≡ b
writer_end (over one split len t) = elim t [ ]
writer_end (done split len same) = same refl

-- Behind an offer the writer does not fill the segment, nor remove the semaphores.
Behind-idle :
    {n : ℕ} {bs : List ℕ} {w : Writer} → Behind n bs w → (fills w ≡ false) × (removes w ≡ false)
Behind-idle Behind.tests = (refl, refl)
Behind-idle (Behind.waits ne) = (refl, refl)
Behind-idle (Behind.ends e) = (refl, refl)
Behind-idle Behind.stopped = (refl, refl)

Turn-idle :
    {cnt : Option ℕ} {n : ℕ} {w : Writer} → Turn cnt n w → (fills w ≡ false) × (removes w ≡ false)
Turn-idle (Turn.tests b c e) = (refl, refl)
Turn-idle Turn.waits = (refl, refl)
Turn-idle Turn.stopped = (refl, refl)

End-idle :
    {cnt : Option ℕ} {n : ℕ} {w : Writer} → End cnt n w → (fills w ≡ false) × (removes w ≡ false)
End-idle (End.tests e) = (refl, refl)
End-idle End.ends = (refl, refl)
End-idle End.stopped = (refl, refl)

pub exclusive :
    {all : List ℕ} {a : Facts} {w : Writer} {r : Reader}
    → Phase all a w r
    → (fills w ≡ true → empties r ≡ false) × (removes w ≡ true → has_left r ≡ true)
exclusive (ready one zer split len t) = let (e, g) = Turn-idle t in (λ h. refl, λ h. absurd (cc))
exclusive (fetching shut split len) = (λ h. refl, λ h. absurd (cc))
exclusive (filled shut bs holds split len) = (λ h. refl, λ h. absurd (cc))
exclusive (offered zer one bs holds split len t) =
    let (e, g) = Behind-idle t in (λ h. refl, λ h. absurd (cc))
exclusive (taken shut bs holds split len t) =
    let (e, g) = Behind-idle t in (λ h. absurd (cc), λ h. absurd (cc))
exclusive (putting shut bs holds ne split len k t) =
    let (e, g) = Behind-idle t in (λ h. absurd (cc), λ h. absurd (cc))
exclusive (put shut split len t) = let (e, g) = Turn-idle t in (λ h. absurd (cc), λ h. absurd (cc))
exclusive (drained shut split len t) = let (e, g) = End-idle t in (λ h. refl, λ h. absurd (cc))
exclusive (over one split len t) = (λ h. refl, λ h. refl)
exclusive (clearing split len) = (λ h. refl, λ h. refl)
exclusive (done split len same) = (λ h. refl, λ h. refl)
exclusive (writer_stopped zer rest split) = (λ h. refl, λ h. absurd (cc))
exclusive (reader_stopped rest split) = (λ h. refl, λ h. refl)

module _ {Os : Type 0} (s : Semaphores Os) (f : Files Os) (law : IsSemaphores s) (files : IsFiles f)
    (apart : IsApart s f) where
  -- a reader that has exited with success
  pub Reach-whole :
      {o : Os} {a : State s f} {b y : ℕ}
      → f.output o ≡ []
      → Reach s f o a
      → a.reader ≡ left true b y
      → f.output a.shared.os ≡ f.input o
  Reach-whole {o} {a} empty r e =
      sym
        (reader_end (
          subst (λ x. Phase (f.input o) (facts s f a.shared) a.writer x) e
            (Reach-Phase s f law files apart empty r))).0

  -- With no output at the start and fewer than 2 ^ 31 bytes of input, which an `int` can count, in
  -- every state that the two programs reach, in whatever order they take their steps and whichever
  -- calls fail or are interrupted, what the reader has written is a prefix of the input of the
  -- writer. Where the reader has exited with success, it is the whole input, and the reader has
  -- counted its bytes; so has a writer that has exited with success.
  pub Reach-in_order :
      {o : Os} {a : State s f}
      → f.output o ≡ []
      → length (f.input o) < 2 ^ 31
      → Reach s f o a
      → ((rest : List ℕ) × (f.input o ≡ f.output a.shared.os ++ rest))
        × ((b y : ℕ)
            → a.reader ≡ left true b y
            → (f.output a.shared.os ≡ f.input o)
              × (b ≡ length (f.input o))
              × ((c x : ℕ) → a.writer ≡ gone true c x → c ≡ length (f.input o)))
  Reach-in_order {o} {a} empty short r =
      let p = Reach-Phase s f law files apart empty r in
      (
        prefix_of p,
        λ b y e.
            let q = subst (λ x. Phase (f.input o) (facts s f a.shared) a.writer x) e p in
            let (whole, wrapped) = reader_end q in
            let count : b ≡ length (f.input o) = omega arith in
            (
              sym whole,
              count,
              λ c x g.
                  writer_end
                    (subst (λ w. Phase (f.input o) (facts s f a.shared) w (left true b y)) g q)
                  ∙ count,
            ),
      )

  -- With no output at the start, in every state that the two programs reach, the reader does not
  -- use the segment while the writer fills it, and the writer removes the semaphores only after
  -- the reader has gone.
  pub Reach-exclusive :
      {o : Os} {a : State s f}
      → f.output o ≡ []
      → Reach s f o a
      → (fills a.writer ≡ true → empties a.reader ≡ false)
        × (removes a.writer ≡ true → has_left a.reader ≡ true)
  Reach-exclusive empty r = exclusive (Reach-Phase s f law files apart empty r)
