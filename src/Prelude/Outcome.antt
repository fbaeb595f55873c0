-- ===== src/Prelude/Outcome.antt =====
-- How a call of the program ends: with a value, by `exit(EXIT_FAILURE)`, by `abort()`, by an
-- access outside an object, or not within the rounds that it was given.
use mathlib.Core.Path.{◌≡◌, refl, ap}
use mathlib.Core.Bool.{Bool, true, false}
use risu.Prelude.Tests.{if◌then◌else◌}

pub data Outcome {ℓ} (A : Type ℓ) : Type ℓ where
  done : A → Outcome A
  exits aborts overruns hangs : Outcome A

infixl 5 ◌>>=◌
abbrev pub ◌>>=◌ {ℓ κ} : {A : Type ℓ} {B : Type κ} → Outcome A → (A → Outcome B) → Outcome B
done a >>= f = f a
exits >>= f = exits
aborts >>= f = aborts
overruns >>= f = overruns
hangs >>= f = hangs

pub bind_done {ℓ κ} :
    {A : Type ℓ} {B : Type κ} (m : Outcome A) (f : A → Outcome B) (a : A)
    → m ≡ done a
    → (m >>= f) ≡ f a
bind_done m f a h = ap (λ r. r >>= f) h

-- What holds of the value, if the call ends with one.
abbrev pub Always {ℓ} : {A : Type ℓ} → (A → Type 0) → Outcome A → Type 0
Always P (done a) = P a
Always P exits = Unit {0}
Always P aborts = Unit {0}
Always P overruns = Unit {0}
Always P hangs = Unit {0}

pub Always-bind {ℓ κ} :
    {A : Type ℓ} {B : Type κ} (P : A → Type 0) (Q : B → Type 0) (m : Outcome A) (f : A → Outcome B)
    → Always P m
    → ((a : A) → P a → Always Q (f a))
    → Always Q (m >>= f)
Always-bind P Q (done a) f h k = k a h
Always-bind P Q exits f h k = tt
Always-bind P Q aborts f h k = tt
Always-bind P Q overruns f h k = tt
Always-bind P Q hangs f h k = tt

pub Always-weaken {ℓ} :
    {A : Type ℓ} (P Q : A → Type 0) (m : Outcome A)
    → Always P m
    → ((a : A) → P a → Q a)
    → Always Q m
Always-weaken P Q (done a) h k = k a h
Always-weaken P Q exits h k = tt
Always-weaken P Q aborts h k = tt
Always-weaken P Q overruns h k = tt
Always-weaken P Q hangs h k = tt

pub Always-any {ℓ} : {A : Type ℓ} (m : Outcome A) → Always (λ a. Unit {0}) m
Always-any (done a) = tt
Always-any exits = tt
Always-any aborts = tt
Always-any overruns = tt
Always-any hangs = tt

pub Always-if {ℓ} :
    {A : Type ℓ} (P : A → Type 0) (b : Bool) (x y : Outcome A)
    → (b ≡ true → Always P x)
    → (b ≡ false → Always P y)
    → Always P (if b then x else y)
Always-if P true x y h k = h refl
Always-if P false x y h k = k refl

-- What holds of both branches.
pub if_both {ℓ} :
    {A : Type ℓ} (P : A → Type 0) (b : Bool) (x y : A) → P x → P y → P (if b then x else y)
if_both P true x y h k = h
if_both P false x y h k = k

-- The same, where each branch may use the test.
pub if_cases {ℓ} :
    {A : Type ℓ} (P : A → Type 0) (b : Bool) (x y : A)
    → (b ≡ true → P x)
    → (b ≡ false → P y)
    → P (if b then x else y)
if_cases P true x y h k = h refl
if_cases P false x y h k = k refl
