-- ===== src/Acl/Settling.antt =====
-- tlpi-dist/acl/acl_update.c: what it means that a call on fuel ends, and that it gives something right.
use tlpi_exercises.Base.{
  ℕ, zero, suc, ◌+◌, ◌≤◌, ◌≡◌, refl, ap, ◌∙◌, Bool, true, false, Option, none, some, arith,
  if◌then◌else◌,
}
use tlpi_exercises.Acl.Update.{Run, gives, exits, not_given, out_of_fuel, need, ◌>>=◌}

-- The call gives something with the property, or the program exits, which has the cause `F`.
abbrev pub Right : Type 0 → {A : Type 0} → (A → Type 0) → Run A → Type 0
Right F P (gives a) = P a
Right F P exits = F
Right F P not_given = true ≡ false
Right F P out_of_fuel = true ≡ false

-- From some fuel on the call does the same, and that is right.
abbrev pub Settles : Type 0 → {A : Type 0} → (ℕ → Run A) → (A → Type 0) → Type 0
Settles F {A} f P = (m : ℕ) × (r : Run A) × ((k : ℕ) → m ≤ k → f k ≡ r) × Right F P r

pub Right-bind :
    (F : Type 0) {A B : Type 0} (P : A → Type 0) (Q : B → Type 0) (r : Run A) (f : A → Run B)
    → Right F P r
    → ((a : A) → P a → Right F Q (f a))
    → Right F Q (r >>= f)
Right-bind F P Q (gives a) f h g = g a h
Right-bind F P Q exits f h g = h
Right-bind F P Q not_given f h g = h
Right-bind F P Q out_of_fuel f h g = h

pub Right-need :
    (F : Type 0) {A : Type 0} (P : A → Type 0) (o : Option A)
    → (o ≡ none → F)
    → ((a : A) → o ≡ some a → P a)
    → Right F P (need o)
Right-need F P none fail h = fail refl
Right-need F P (some a) fail h = h a refl

pub Settles-const :
    (F : Type 0) {A : Type 0} (P : A → Type 0) (r : Run A) → Right F P r → Settles F (λ k. r) P
Settles-const F P r h = (0, r, (λ k l. refl), h)

Settles-from :
    (F : Type 0) {A B : Type 0} (P : A → Type 0) (Q : B → Type 0) (f : ℕ → Run A)
    (g : ℕ → A → Run B) (m : ℕ) (r : Run A)
    → ((k : ℕ) → m ≤ k → f k ≡ r)
    → Right F P r
    → ((a : A) → P a → Settles F (λ k. g k a) Q)
    → Settles F (λ k. f k >>= g k) Q
Settles-from F P Q f g m (gives a) e p h =
    let (m', r, e', q) = h a p in
    (m + m', r, λ k l. ap (λ x. x >>= g k) (e k (omega arith)) ∙ e' k (omega arith), q)
Settles-from F P Q f g m exits e p h = (m, exits, (λ k l. ap (λ x. x >>= g k) (e k l)), p)
Settles-from F P Q f g m not_given e p h = absurd (cc)
Settles-from F P Q f g m out_of_fuel e p h = absurd (cc)

pub Settles-bind :
    (F : Type 0) {A B : Type 0} (P : A → Type 0) (Q : B → Type 0) (f : ℕ → Run A)
    (g : ℕ → A → Run B)
    → Settles F f P
    → ((a : A) → P a → Settles F (λ k. g k a) Q)
    → Settles F (λ k. f k >>= g k) Q
Settles-bind F P Q f g (m, r, e, p) h = Settles-from F P Q f g m r e p h

pub Right-weaken :
    (F : Type 0) {A : Type 0} (P Q : A → Type 0) (r : Run A)
    → ((a : A) → P a → Q a)
    → Right F P r
    → Right F Q r
Right-weaken F P Q (gives a) h p = h a p
Right-weaken F P Q exits h p = p
Right-weaken F P Q not_given h p = p
Right-weaken F P Q out_of_fuel h p = p

pub Settles-weaken :
    (F : Type 0) {A : Type 0} (P Q : A → Type 0) (f : ℕ → Run A)
    → ((a : A) → P a → Q a)
    → Settles F f P
    → Settles F f Q
Settles-weaken F P Q f h (m, r, e, p) = (m, r, e, Right-weaken F P Q r h p)

pub Settles-suc :
    (F : Type 0) {A : Type 0} (P : A → Type 0) (f : ℕ → Run A)
    → Settles F (λ k. f (suc k)) P
    → Settles F f P
Settles-suc F P f (m, r, e, p) = (suc m, r, steps, p)
  where
    steps : (k : ℕ) → suc m ≤ k → f k ≡ r
    steps zero l = absurd (omega arith)
    steps (suc k) l = e k (omega arith)

pub Right-lift :
    (F G : Type 0) {A : Type 0} (P : A → Type 0) (r : Run A) → (F → G) → Right F P r → Right G P r
Right-lift F G P (gives a) h p = p
Right-lift F G P exits h p = h p
Right-lift F G P not_given h p = p
Right-lift F G P out_of_fuel h p = p

pub Settles-lift :
    (F G : Type 0) {A : Type 0} (P : A → Type 0) (f : ℕ → Run A)
    → (F → G)
    → Settles F f P
    → Settles G f P
Settles-lift F G P f h (m, r, e, p) = (m, r, e, Right-lift F G P r h p)

-- a call that gives nothing, and exits where it fails
pub Right-when :
    (F : Type 0) {A : Type 0} (P : A → Type 0) (b : Bool) (a : A)
    → (b ≡ false → F)
    → P a
    → Right F P (if b then gives a else exits)
Right-when F P true a fail h = h
Right-when F P false a fail h = fail refl
