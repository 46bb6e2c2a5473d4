-- ===== src/Base/Results.antt =====
-- The results of code that reads untrusted bytes: a value, the refusal that the source returns as
-- `false`, a read outside the bytes, or a bound on rounds that was too small.
use mathlib.Core.Bool.{Bool, true, false, true≢false}
use mathlib.Core.Path.{◌≡◌, refl, sym, subst}
use risky.Base.Tests.{if◌then◌else◌}

pub data Outcome {ℓ} (A : Type ℓ) : Type ℓ where
  done : A → Outcome A
  refused : Outcome A
  fault : Outcome A
  spent : Outcome A

infixl 5 ◌>>=◌ ◌>>◌
abbrev pub ◌>>=◌ {ℓ κ} : {A : Type ℓ} {B : Type κ} → Outcome A → (A → Outcome B) → Outcome B
done a >>= f = f a
refused >>= f = refused
fault >>= f = fault
spent >>= f = spent

abbrev pub ◌>>◌ {ℓ} : {B : Type ℓ} → Outcome (Unit {0}) → Outcome B → Outcome B
m >> k = m >>= λ _. k

-- `if (!test) return false;`
abbrev pub guard : Bool → Outcome (Unit {0})
guard true = done tt
guard false = refused

-- The source tests the result of a call, and goes on either way.
abbrev pub attempt {ℓ} : {A : Type ℓ} → Outcome A → Outcome Bool
attempt (done a) = done true
attempt refused = done false
attempt fault = fault
attempt spent = spent

-- `f(...) || g(...)`
abbrev pub or_else {ℓ} : {A : Type ℓ} → Outcome A → Outcome A → Outcome A
or_else (done a) second = done a
or_else refused second = second
or_else fault second = fault
or_else spent second = spent

-- There is no fault, the rounds are enough, and a value has the property.
abbrev pub Returns {ℓ} : {A : Type ℓ} → (A → Type 0) → Outcome A → Type 0
Returns P (done a) = P a
Returns P refused = Unit {0}
Returns P fault = ⊥
Returns P spent = ⊥

-- The rule for a chain; the rest may use that the first part gave `a`.
pub Returns-bind {ℓ κ} :
    {A : Type ℓ} {B : Type κ} (P : A → Type 0) (Q : B → Type 0) (m : Outcome A) (f : A → Outcome B)
    → Returns P m
    → ((a : A) → m ≡ done a → P a → Returns Q (f a))
    → Returns Q (m >>= f)
Returns-bind P Q (done a) f h k = k a refl h
Returns-bind P Q refused f h k = tt
Returns-bind P Q fault f h k = absurd h
Returns-bind P Q spent f h k = absurd h

pub guard-Returns : (test : Bool) → Returns (λ _. test ≡ true) (guard test)
guard-Returns true = refl
guard-Returns false = tt

-- The rules for a test.
pub test-Returns {ℓ} :
    {A : Type ℓ} (P : A → Type 0) (test : Bool) (x y : Outcome A)
    → (test ≡ true → Returns P x)
    → (test ≡ false → Returns P y)
    → Returns P (elim test as (λ _. Outcome A) [ true ↦ x | false ↦ y ])
test-Returns P true x y h k = h refl
test-Returns P false x y h k = k refl

pub if-Returns {ℓ} :
    {A : Type ℓ} (P : A → Type 0) (test : Bool) (x y : Outcome A)
    → (test ≡ true → Returns P x)
    → (test ≡ false → Returns P y)
    → Returns P (if test then x else y)
if-Returns P true x y h k = h refl
if-Returns P false x y h k = k refl

-- The rule for a test that refuses.
pub guard-Returns-bind {ℓ} :
    {B : Type ℓ} (Q : B → Type 0) (test : Bool) (k : Outcome B)
    → (test ≡ true → Returns Q k)
    → Returns Q (guard test >> k)
guard-Returns-bind Q true k h = h refl
guard-Returns-bind Q false k h = tt

pub weaken-Returns {ℓ} :
    {A : Type ℓ} (P Q : A → Type 0) (o : Outcome A)
    → ((a : A) → P a → Q a)
    → Returns P o
    → Returns Q o
weaken-Returns P Q (done a) f h = f a h
weaken-Returns P Q refused f h = tt
weaken-Returns P Q fault f h = h
weaken-Returns P Q spent f h = h

pub or_else-Returns {ℓ} :
    {A : Type ℓ} (P : A → Type 0) (first second : Outcome A)
    → Returns P first
    → Returns P second
    → Returns P (or_else first second)
or_else-Returns P (done a) second h k = h
or_else-Returns P refused second h k = k
or_else-Returns P fault second h k = h
or_else-Returns P spent second h k = h

-- The branch that a test takes.
pub on_true {ℓ} :
    {A : Type ℓ} (test : Bool) (x y : A) {v : A}
    → test ≡ true
    → x ≡ v
    → elim test as (λ _. A) [ true ↦ x | false ↦ y ] ≡ v
on_true true x y e h = h
on_true false x y e h = absurd (true≢false (sym e))

pub on_false {ℓ} :
    {A : Type ℓ} (test : Bool) (x y : A) {v : A}
    → test ≡ false
    → y ≡ v
    → elim test as (λ _. A) [ true ↦ x | false ↦ y ] ≡ v
on_false true x y e h = absurd (true≢false e)
on_false false x y e h = h

pub returned {ℓ} :
    {A : Type ℓ} (P : A → Type 0) (o : Outcome A) {a : A} → Returns P o → o ≡ done a → P a
returned P o h e = subst (Returns P) e h

-- The rounds are enough, and a value has the property; there may be a fault.
abbrev pub Stops {ℓ} : {A : Type ℓ} → (A → Type 0) → Outcome A → Type 0
Stops P (done a) = P a
Stops P refused = Unit {0}
Stops P fault = Unit {0}
Stops P spent = ⊥

pub Stops-bind {ℓ κ} :
    {A : Type ℓ} {B : Type κ} (P : A → Type 0) (Q : B → Type 0) (m : Outcome A) (f : A → Outcome B)
    → Stops P m
    → ((a : A) → P a → Stops Q (f a))
    → Stops Q (m >>= f)
Stops-bind P Q (done a) f h k = k a h
Stops-bind P Q refused f h k = tt
Stops-bind P Q fault f h k = tt
Stops-bind P Q spent f h k = absurd h

pub test-Stops {ℓ} :
    {A : Type ℓ} (P : A → Type 0) (test : Bool) (x y : Outcome A)
    → (test ≡ true → Stops P x)
    → (test ≡ false → Stops P y)
    → Stops P (elim test as (λ _. Outcome A) [ true ↦ x | false ↦ y ])
test-Stops P true x y h k = h refl
test-Stops P false x y h k = k refl
