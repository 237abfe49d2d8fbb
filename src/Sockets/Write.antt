-- ===== src/Sockets/Write.antt =====
-- What `writen` sends.
use mathlib.Core.Path.{subst}
use mathlib.Core.List.{append_assoc, append-nil}
use tlpi_exercises.Base.{
  ℕ, zero, suc, ◌+◌, ◌-◌, ◌≤◌, ◌<◌, ◌≡◌, ◌≢◌, refl, ◌∙◌, sym, ap, ◌⊎◌, inl, inr, Bool-cases, true,
  if◌then◌else◌, false, Option, none, some, List, [], ◌∷◌, ◌++◌, arith, ltb, ◌==◌, length, take,
  drop, length-take, take-take, take-nil,
}
use tlpi_exercises.Sockets.{
  Written, wrote, write_failed, eintr, Streams, IsStream, writen_loop, writen,
}

-- the bytes from place `t` on, and the first of them
take-suc : (t n : ℕ) (x : ℕ) (xs : List ℕ) → x ∷ take (t + n) xs ≡ take (suc t + n) (x ∷ xs)
take-suc t n x xs = let e : suc t + n ≡ suc (t + n) = omega arith in rw (e) refl

drop-nil : (n : ℕ) → drop {A = ℕ} n [] ≡ []
drop-nil zero = refl
drop-nil (suc n) = refl

take-drop : (t n : ℕ) (xs : List ℕ) → take t xs ++ take n (drop t xs) ≡ take (t + n) xs
take-drop zero n xs = let e : 0 + n ≡ n = omega arith in rw (e) refl
take-drop (suc t) n [] = take-nil n ∙ sym (take-nil (suc t + n))
take-drop (suc t) n (x ∷ xs) = ap (λ (l : List ℕ). x ∷ l) (take-drop t n xs) ∙ take-suc t n x xs

drop-suc : (t n : ℕ) (x : ℕ) (xs : List ℕ) → drop (t + n) xs ≡ drop (suc t + n) (x ∷ xs)
drop-suc t n x xs = let e : suc t + n ≡ suc (t + n) = omega arith in rw (e) refl

drop-drop : (t n : ℕ) (xs : List ℕ) → drop n (drop t xs) ≡ drop (t + n) xs
drop-drop zero n xs = let e : 0 + n ≡ n = omega arith in rw (e) refl
drop-drop (suc t) n [] = drop-nil n ∙ sym (drop-nil (suc t + n))
drop-drop (suc t) n (x ∷ xs) = drop-drop t n xs ∙ drop-suc t n x xs

Written-cases :
    (w : Written)
    → (w ≡ wrote 0) ⊎ (((k : ℕ) × (w ≡ wrote (suc k))) ⊎ ((err : ℕ) × (w ≡ write_failed err)))
Written-cases (wrote zero) = inl refl
Written-cases (wrote (suc k)) = inr (inl (k, refl))
Written-cases (write_failed err) = inr (inr (err, refl))

pub lt_or_eq : (t n : ℕ) → t ≤ n → (t < n) ⊎ (t ≡ n)
lt_or_eq t n le = elim (Bool-cases (ltb t n)) [
  | inl e ↦ inl (ground arith)
  | inr e ↦ inr (ground arith)
]

-- The last call was for the bytes from place `t` on: write(2) took none of them, or failed, and not
-- with EINTR. The call left the state `o'`.
abbrev pub Refused : (d : Streams) → ℕ → List ℕ → ℕ → ℕ → d.Os → Type 0
Refused d fd buf n t o' =
    (o1 : d.Os) × ((d.write o1 fd (take (n - t) (drop t buf))).1 ≡ o')
    × (((d.write o1 fd (take (n - t) (drop t buf))).0 ≡ wrote 0)
        ⊎ ((err : ℕ) × ((d.write o1 fd (take (n - t) (drop t buf))).0 ≡ write_failed err)
            × (err ≢ eintr)))

-- A call sent the bytes from place `t` on: all of them, or those before the ones that write(2) refused.
pub record Sent (d : Streams) (fd : ℕ) (buf : List ℕ) (n t : ℕ) (o : d.Os) (r : Option ℕ)
    (o' : d.Os) (sent : ℕ) : Type 0 where
  pub bytes : d.written o' fd ≡ d.written o fd ++ take sent (drop t buf)
  pub within : t + sent ≤ n
  pub result :
      ((r ≡ some n) × (t + sent ≡ n))
      ⊎ ((r ≡ none) × (t + sent < n) × Refused d fd buf n (t + sent) o')

module _ (d : Streams) (law : IsStream d) (fd : ℕ) (buf : List ℕ) (n : ℕ) where
  -- nothing sent and -1
  Sent-none :
      (t : ℕ) (o o' : d.Os)
      → t < n
      → Refused d fd buf n t o'
      → d.written o' fd ≡ d.written o fd
      → Sent d fd buf n t o none o' 0
  Sent-none t o o' lt refused e = record {
    bytes = e ∙ sym (append-nil (d.written o fd));
    within = omega arith;
    result =
        let z : t ≡ t + 0 = omega arith in
        inr (refl, omega arith, subst (λ x. Refused d fd buf n x o') z refused);
  }

  -- `k` bytes and then the rest
  Sent-more :
      (t k s : ℕ) (o o1 o' : d.Os) (r : Option ℕ)
      → d.written o1 fd ≡ d.written o fd ++ take k (take (n - t) (drop t buf))
      → k ≤ n - t
      → Sent d fd buf n (t + k) o1 r o' s
      → Sent d fd buf n t o r o' (k + s)
  Sent-more t k s o o1 o' r e le h = record {
    bytes =
        h.bytes
        ∙ ap (λ (l : List ℕ). l ++ take s (drop (t + k) buf)) e
        ∙ append_assoc (d.written o fd) _ _
        ∙ ap (λ (l : List ℕ). d.written o fd ++ (l ++ take s (drop (t + k) buf)))
            (take-take k (n - t) (drop t buf) le)
        ∙ ap (λ (l : List ℕ). d.written o fd ++ (take k (drop t buf) ++ take s l))
            (sym (drop-drop t k buf))
        ∙ ap (λ (l : List ℕ). d.written o fd ++ l) (take-drop k s (drop t buf));
    within = let w = h.within in omega arith;
    result =
        let z : t + k + s ≡ t + (k + s) = omega arith in
        elim h.result [
          | inl g ↦ inl (g.0, omega (arith, g.1))
          | inr (none_there, below, refused) ↦
              inr (none_there, omega arith, subst (λ x. Refused d fd buf n x o') z refused)
        ];
  }

  -- one round of the loop, in each case
  next_call : ℕ → d.Os → Written × d.Os
  next_call t o = d.write o fd (take (n - t) (drop t buf))

  writen_loop-done :
      (fuel : ℕ) (o : d.Os) → writen_loop d (suc fuel) fd buf n n o ≡ some (some n, o)
  unfolding writen_loop
  writen_loop-done fuel o = let e : ltb n n ≡ false = ground arith in rw (e) refl

  writen_loop-more :
      (fuel t k : ℕ) (o : d.Os)
      → t < n
      → (next_call t o).0 ≡ wrote (suc k)
      → writen_loop d (suc fuel) fd buf n t o
        ≡ writen_loop d fuel fd buf n (t + suc k) (next_call t o).1
  unfolding writen_loop next_call
  writen_loop-more fuel t k o lt e =
      let more : ltb t n ≡ true = ground arith in rw (more, e, writen_loop) refl

  writen_loop-zero :
      (fuel t : ℕ) (o : d.Os)
      → t < n
      → (next_call t o).0 ≡ wrote 0
      → writen_loop d (suc fuel) fd buf n t o ≡ some (none, (next_call t o).1)
  unfolding writen_loop next_call
  writen_loop-zero fuel t o lt e =
      let more : ltb t n ≡ true = ground arith in rw (more, e, writen_loop) refl

  writen_loop-failed :
      (fuel t err : ℕ) (o : d.Os)
      → t < n
      → (next_call t o).0 ≡ write_failed err
      → writen_loop d (suc fuel) fd buf n t o ≡ (
          if err == eintr
          then writen_loop d fuel fd buf n t (next_call t o).1
          else some (none, (next_call t o).1))
  unfolding writen_loop next_call
  writen_loop-failed fuel t err o lt e =
      let more : ltb t n ≡ true = ground arith in rw (more, e, writen_loop) refl

  writen_loop-Sent :
      (fuel t : ℕ) (o : d.Os)
      → t ≤ n
      → n - t + d.interrupts o < fuel
      → (r : Option ℕ) × (o' : d.Os) × (sent : ℕ) × (writen_loop d fuel fd buf n t o ≡ some (r, o'))
        × Sent d fd buf n t o r o' sent
  unfolding next_call
  writen_loop-Sent zero t o le enough = absurd (omega arith)
  writen_loop-Sent (suc fuel) t o le enough = elim (lt_or_eq t n le) [
    | inr e ↦ (
      some n,
      o,
      0,
      ap (λ (x : ℕ). writen_loop d (suc fuel) fd buf n x o) e ∙ writen_loop-done fuel o,
      record {
        bytes = sym (append-nil (d.written o fd));
        within = omega arith;
        result = inl (refl, omega arith);
      },
    )
    | inl lt ↦
        let o1 = (next_call t o).1 in
        elim (Written-cases (next_call t o).0) [
          | inl e ↦ (
            none,
            o1,
            0,
            writen_loop-zero fuel t o lt e,
            Sent-none t o o1 lt (o, refl, inl e)
                ((law.write_some o fd 0 (take (n - t) (drop t buf)) e).1
                  ∙ append-nil (d.written o fd)),
          )
          | inr (inl (k, e)) ↦
              let (a, b, c) = law.write_some o fd (suc k) (take (n - t) (drop t buf)) e in
              let len = length-take (n - t) (drop t buf) in
              let (r, o', s, e', h) =
                writen_loop-Sent fuel (t + suc k) o1 (omega arith) (omega arith) in
              (
                r,
                o',
                suc k + s,
                writen_loop-more fuel t k o lt e ∙ e',
                Sent-more t (suc k) s o o1 o' r b (omega arith) h,
              )
          | inr (inr (err, e)) ↦
              let (a, b) = law.write_none o fd err (take (n - t) (drop t buf)) e in
              elim (Bool-cases (err == eintr)) [
                | inl i ↦
                    let is : err ≡ eintr = ground arith in
                    let lower = b is in
                    let (r, o', s, e', h) = writen_loop-Sent fuel t o1 le (omega arith) in
                    (
                      r,
                      o',
                      s,
                      writen_loop-failed fuel t err o lt e ∙ rw (i) e',
                      record {
                        bytes = h.bytes ∙ ap (λ (l : List ℕ). l ++ take s (drop t buf)) a;
                        within = h.within;
                        result = h.result;
                      },
                    )
                | inr i ↦ (
                  none,
                  o1,
                  0,
                  writen_loop-failed fuel t err o lt e ∙ rw (i) refl,
                  Sent-none t o o1 lt (o, refl, inr (err, e, λ is. ground arith)) a,
                )
              ]
        ]
  ]

-- Where interruptions come to an end, `writen` returns, with the length of the buffer or with -1.
-- It has then sent the first bytes of the buffer, in order and each once. It returns the length if it
-- has sent all of them, and -1 only if some are left and the last write(2), which was for these, took
-- none or failed otherwise than with EINTR.
pub writen-Sent :
    (d : Streams) (law : IsStream d) (fd : ℕ) (buf : List ℕ) (o : d.Os)
    → (r : Option ℕ) × (o' : d.Os) × (sent : ℕ) × (writen d
          (suc (length buf + d.interrupts o))
          fd
          buf
          (length buf)
          o
        ≡ some (r, o'))
      × (d.written o' fd ≡ d.written o fd ++ take sent buf)
      × (((r ≡ some (length buf)) × (sent ≡ length buf))
          ⊎ ((r ≡ none) × (sent < length buf) × Refused d fd buf (length buf) sent o'))
unfolding writen
writen-Sent d law fd buf o =
    let (r, o', s, e, h) =
      writen_loop-Sent d law fd buf (length buf) (suc (length buf + d.interrupts o)) 0 o
        (omega arith) (omega arith) in
    let z : 0 + s ≡ s = omega arith in
    (
      r,
      o',
      s,
      e,
      h.bytes,
      elim h.result [
        | inl g ↦ inl (g.0, omega (arith, g.1))
        | inr (none_there, below, refused) ↦
            inr (none_there, omega arith, subst (λ x. Refused d fd buf (length buf) x o') z refused)
      ],
    )
