-- ===== src/Examples/Transfers.antt =====
-- tlpi-solutions/mylib/mylib.c and tlpi-solutions/ex05-7/rwv.c over a small system.
use mathlib.Core.Option.{some-injective}
use tlpi_exercises.Base.{
  ℕ, zero, suc, ◌<◌, ◌≤◌, ◌≡◌, refl, sym, ap, ◌∙◌, ◌⊎◌, inl, inr, Option, some, List, [], ◌∷◌, ◌++◌,
  arith, length, take, drop, length-take, take-append-drop, min,
}
use tlpi_exercises.Io.{poke, Descriptors, IsPosix, Memory, Iovec, peek, writep, xwritev, xreadv}
use tlpi_exercises.Io.Gather.{gather, room, xwritev-gather}
use tlpi_exercises.Io.Persist.{Sent, writep-Sent}
use tlpi_exercises.Io.Scatter.{Outside, GivesAll, xreadv-scatter}
use tlpi_exercises.Io.Short.{xreadv-three_reads}

-- One file for all descriptors, what was written and what is left to read; `most` says how many of
-- the bytes asked for a call moves.
abbrev plain_files : (ℕ → ℕ) → Descriptors
plain_files most = record {
  Os = List ℕ × List ℕ;
  written = λ o fd. o.0;
  input = λ o fd. o.1;
  write = λ o fd bs. (some (most (length bs)), (o.0 ++ take (most (length bs)) bs, o.1));
  read = λ o fd n. (some (take (most n) o.1), (o.0, drop (most n) o.1));
}

-- a short call moves some bytes
take-nil : (n : ℕ) (xs : List ℕ) → take n xs ≡ [] → (n ≡ 0) ⊎ (xs ≡ [])
take-nil zero xs e = inl refl
take-nil (suc n) [] e = inr refl
take-nil (suc n) (x ∷ xs) e = absurd (cc)

capped-zero : (most : ℕ → ℕ) → ((n : ℕ) → 0 < n → 0 < most n) → (n : ℕ) → most n ≡ 0 → n ≡ 0
capped-zero most pos zero e = refl
capped-zero most pos (suc n) e = let p = pos (suc n) (omega arith) in absurd (omega arith)

plain_files-IsPosix :
    (most : ℕ → ℕ)
    → ((n : ℕ) → most n ≤ n)
    → ((n : ℕ) → 0 < n → 0 < most n)
    → IsPosix (plain_files most)
plain_files-IsPosix most le pos = record {
  write_some = λ o fd bs n e.
      let k : n ≡ most (length bs) = sym (some-injective _ _ e) in
      let l = le (length bs) in
      (
        omega arith,
        λ h. let q = pos (length bs) h in omega arith,
        ap (λ (x : ℕ). o.0 ++ take x bs) (sym k),
      );
  write_none = λ o fd bs e. absurd (cc);
  read_some = λ o fd n bs e.
      let k : bs ≡ take (most n) o.1 = sym (some-injective _ _ e) in
      let l = le n in
      (
        omega (arith, length-take (most n) o.1, ap (λ (x : List ℕ). length x) k),
        sym (ap (λ (x : List ℕ). x ++ drop (most n) o.1) k ∙ take-append-drop (most n) o.1),
        λ z. elim (take-nil (most n) o.1 (sym k ∙ z)) [
          | inl c ↦ inl (capped-zero most pos n c)
          | inr c ↦ inr c
        ],
      );
}

-- one that moves all bytes at once, and one that moves two at most
abbrev whole : Descriptors
whole = plain_files (λ n. n)

abbrev pairs : Descriptors
pairs = plain_files (λ n. min n 2)

whole-IsPosix : IsPosix whole
whole-IsPosix = plain_files-IsPosix (λ n. n) (λ n. omega arith) (λ n h. h)

pairs-IsPosix : IsPosix pairs
pairs-IsPosix = plain_files-IsPosix (λ n. min n 2) (λ n. omega arith) (λ n h. omega arith)

abbrev bytes : List ℕ
bytes = 10 ∷ 20 ∷ 30 ∷ []

writep-Sent_example :
    (r : Option ℕ) × (o' : pairs.Os) × (ns : List ℕ) × (writep pairs 4 1 bytes 3 ([], [])
      ≡ some (r, o'))
    × Sent pairs 1 bytes 3 ([], []) r 3 o' ns
writep-Sent_example = writep-Sent pairs pairs-IsPosix 1 bytes 3 (omega arith) ([], [])

abbrev buffers : List Iovec
buffers = record { iov_base = 100; iov_len = 2 } ∷ record { iov_base = 200; iov_len = 1 } ∷ []

abbrev counting : Memory
counting = λ a. a

xwritev-gather_example :
    (o' : whole.Os) × (xwritev whole 2 1 counting buffers ([], []) ≡ some (some (room buffers), o'))
    × (o'.0 ≡ gather counting buffers)
xwritev-gather_example =
    xwritev-gather whole whole-IsPosix (λ o fd bs. refl) 1 0 counting buffers ([], [])

gather-buffers : gather counting buffers ≡ 100 ∷ 101 ∷ 200 ∷ []
unfolding gather peek
gather-buffers = refl

whole-GivesAll : GivesAll whole
whole-GivesAll = λ o fd n. (take n o.1, refl, length-take n o.1)

xreadv-scatter_example :
    (m' : Memory) × (o' : whole.Os) × (xreadv whole 1 0 buffers counting ([], bytes)
      ≡ some (some (room buffers), m', o'))
    × (bytes ≡ gather m' buffers ++ o'.1)
    × ((x : ℕ) → Outside buffers x → m' x ≡ x)
unfolding room
xreadv-scatter_example =
    xreadv-scatter whole whole-IsPosix whole-GivesAll 0 0 buffers counting ([], bytes)
      ((inl (omega arith), tt), (tt, tt)) (omega arith) (omega arith)

abbrev five : List ℕ
five = 1 ∷ 2 ∷ 3 ∷ 4 ∷ 5 ∷ []

xreadv-three_reads_example :
    (m' : Memory) × (o' : pairs.Os) × (xreadv pairs 3 0
        (record { iov_base = 100; iov_len = 5 } ∷ [])
        counting
        ([], five)
      ≡ some (some 5, m', o'))
    × (m' ≡ poke (poke (poke counting 100 (1 ∷ 2 ∷ [])) 102 (3 ∷ 4 ∷ [])) 102 (5 ∷ []))
    × (m' 104 ≡ 104)
xreadv-three_reads_example =
    xreadv-three_reads pairs 0 100 0 5 counting ([], five) (1 ∷ 2 ∷ []) (3 ∷ 4 ∷ []) (5 ∷ [])
      (omega arith) (omega arith) (omega arith) refl refl refl refl
