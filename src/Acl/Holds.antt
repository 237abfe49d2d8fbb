-- ===== src/Acl/Holds.antt =====
-- What holds of the result of a parser of tlpi-dist/acl/acl_update.c where it has one, and the rules
-- for its parts.
use mathlib.Core.Path.{subst}
use tlpi_exercises.Base.{◌≡◌, refl, Bool, true, false, Option, none, some, if◌then◌else◌}

abbrev pub Holds {ℓ κ} : {A : Type ℓ} → (A → Type κ) → Option A → Type κ
Holds P none = Unit
Holds P (some x) = P x

pub Holds-some {ℓ κ} :
    {A : Type ℓ} (P : A → Type κ) (o : Option A) (x : A) → Holds P o → o ≡ some x → P x
Holds-some P o x h e = subst (Holds P) e h

pub Holds-bind {ℓ κ ι μ} :
    {A : Type ℓ} {B : Type κ} (Q : A → Type ι) (P : B → Type μ) (o : Option A) (f : A → Option B)
    → Holds Q o
    → ((a : A) → Q a → Holds P (f a))
    → Holds P (elim o [ none ↦ none | some a ↦ f a ])
Holds-bind Q P none f h k = tt
Holds-bind Q P (some a) f h k = k a h

pub Holds-if {ℓ κ} :
    {A : Type ℓ} (P : A → Type κ) (b : Bool) (x y : Option A)
    → (b ≡ true → Holds P x)
    → (b ≡ false → Holds P y)
    → Holds P (if b then x else y)
Holds-if P true x y h k = h refl
Holds-if P false x y h k = k refl

pub Holds-any {ℓ} : {A : Type ℓ} (o : Option A) → Holds (λ a. Unit {0}) o
Holds-any none = tt
Holds-any (some a) = tt
