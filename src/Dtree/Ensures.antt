-- ===== src/Dtree/Ensures.antt =====
-- What a part of the program ensures where it goes on, and the rules for its parts.
use tlpi_exercises.Base.{◌≡◌, refl, Bool, true, false, Option, none, some, if◌then◌else◌}
use tlpi_exercises.Dtree.Events.{◌>>=?◌}
use tlpi_exercises.Dtree.{Run, done, exits, aborts, undefined, ◌>>=◌}

abbrev pub Ensures {ℓ κ} : {A : Type ℓ} → (A → Type κ) → Run A → Type κ
Ensures P (done a) = P a
Ensures P (exits ok) = Unit
Ensures P aborts = Unit
Ensures P undefined = Unit

pub Ensures-bind {ℓ κ μ ν} :
    {A : Type ℓ} {B : Type κ} (P : A → Type μ) (Q : B → Type ν) (m : Run A) (f : A → Run B)
    → Ensures P m
    → ((a : A) → P a → Ensures Q (f a))
    → Ensures Q (m >>= f)
Ensures-bind P Q (done a) f h g = g a h
Ensures-bind P Q (exits ok) f h g = tt
Ensures-bind P Q aborts f h g = tt
Ensures-bind P Q undefined f h g = tt

pub Ensures-weaken {ℓ μ ν} :
    {A : Type ℓ} (P : A → Type μ) (Q : A → Type ν) (m : Run A)
    → Ensures P m
    → ((a : A) → P a → Q a)
    → Ensures Q m
Ensures-weaken P Q (done a) h g = g a h
Ensures-weaken P Q (exits ok) h g = tt
Ensures-weaken P Q aborts h g = tt
Ensures-weaken P Q undefined h g = tt

pub Ensures-if {ℓ μ} :
    {A : Type ℓ} (P : A → Type μ) (b : Bool) (x y : Run A)
    → Ensures P x
    → Ensures P y
    → Ensures P (if b then x else y)
Ensures-if P true x y h g = h
Ensures-if P false x y h g = g

pub Ensures-option {ℓ κ μ} :
    {A : Type ℓ} {B : Type κ} (P : B → Type μ) (o : Option A) (n : Run B) (f : A → Run B)
    → (o ≡ none → Ensures P n)
    → ((a : A) → o ≡ some a → Ensures P (f a))
    → Ensures P (elim o [ none ↦ n | some a ↦ f a ])
Ensures-option P none n f h g = h refl
Ensures-option P (some a) n f h g = g a refl

-- what every value has
pub Ensures-any {ℓ} : {A : Type ℓ} (m : Run A) → Ensures (λ (x : A). Unit {0}) m
Ensures-any (done a) = tt
Ensures-any (exits ok) = tt
Ensures-any aborts = tt
Ensures-any undefined = tt

-- a part whose value does not matter
pub Ensures-after {ℓ κ ν} :
    {A : Type ℓ} {B : Type κ} (Q : B → Type ν) (m : Run A) (f : A → Run B)
    → ((a : A) → Ensures Q (f a))
    → Ensures Q (m >>= f)
Ensures-after Q m f g = Ensures-bind (λ a. Unit {0}) Q m f (Ensures-any m) (λ a u. g a)

-- the same for the loop, which may not end
abbrev pub Returns {μ} : {A : Type 0} → (A → Type μ) → Option (Run A) → Type μ
Returns P none = Unit
Returns P (some m) = Ensures P m

pub Returns-bind {μ ν} :
    {A B : Type 0} (P : A → Type μ) (Q : B → Type ν) (m : Run A) (f : A → Option (Run B))
    → Ensures P m
    → ((a : A) → P a → Returns Q (f a))
    → Returns Q (m >>=? f)
Returns-bind P Q (done a) f h g = g a h
Returns-bind P Q (exits ok) f h g = tt
Returns-bind P Q aborts f h g = tt
Returns-bind P Q undefined f h g = tt

pub Returns-if {μ} :
    {A : Type 0} (P : A → Type μ) (b : Bool) (x y : Option (Run A))
    → Returns P x
    → Returns P y
    → Returns P (if b then x else y)
Returns-if P true x y h g = h
Returns-if P false x y h g = g

pub Returns-option {κ μ} :
    {A : Type κ} {B : Type 0} (P : B → Type μ) (o : Option A) (n : Option (Run B))
    (f : A → Option (Run B))
    → (o ≡ none → Returns P n)
    → ((a : A) → o ≡ some a → Returns P (f a))
    → Returns P (elim o [ none ↦ n | some a ↦ f a ])
Returns-option P none n f h g = h refl
Returns-option P (some a) n f h g = g a refl
