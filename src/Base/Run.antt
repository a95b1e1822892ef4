-- ===== src/Base/Run.antt =====
-- How a piece of server code ends: with a value, in error(), which terminates the server, or in
-- behaviour that C leaves undefined.
use mathlib.Core.Path.{◌≡◌, refl, subst}
use native.Mathlib.Omega.{arith}
use mathlib.Core.Option.{Option, none, some}
use mathlib.Core.Logic.{◌≢◌, ite}

pub data Run {ℓ} (A : Type ℓ) : Type ℓ where
  ok : A → Run A
  exits : Run A
  fault : Run A

-- `abbrev`, so that a chain computes wherever it stands.
infixl 5 ◌>>=◌ ◌>>◌
abbrev pub ◌>>=◌ {ℓ κ} : {A : Type ℓ} {B : Type κ} → Run A → (A → Run B) → Run B
ok a >>= f = f a
exits >>= f = exits
fault >>= f = fault

abbrev pub ◌>>◌ {ℓ} : {B : Type ℓ} → Run (Unit {0}) → Run B → Run B
m >> k = m >>= λ _. k

-- `if (p == 0) error(...)`.
abbrev pub or_exits {ℓ} : {A : Type ℓ} → Option A → Run A
or_exits none = exits
or_exits (some a) = ok a

-- A use of a pointer that may be null.
abbrev pub or_fault {ℓ} : {A : Type ℓ} → Option A → Run A
or_fault none = fault
or_fault (some a) = ok a

-- The property of the value, where there is one.
abbrev pub Ensures {ℓ κ} : {A : Type ℓ} → (A → Type κ) → Run A → Type κ
Ensures P (ok a) = P a
Ensures P exits = Unit
Ensures P fault = Unit

ok_injective {ℓ} : {A : Type ℓ} {a b : A} → ok a ≡ ok b → a ≡ b
ok_injective e = cc

-- What follows a step need only be right for the value that the step gave.
pub Ensures-step {ℓ κ μ} :
    {A : Type ℓ} {B : Type κ} (Q : B → Type μ) (m : Run A) (f : A → Run B)
    → ((a : A) → m ≡ ok a → Ensures Q (f a))
    → Ensures Q (m >>= f)
Ensures-step Q (ok a) f k = k a refl
Ensures-step Q exits f k = tt
Ensures-step Q fault f k = tt

-- The property of the value that a run gave.
pub Ensures-ok {ℓ κ} :
    {A : Type ℓ} (P : A → Type κ) (m : Run A) {a : A} → Ensures P m → m ≡ ok a → P a
Ensures-ok P (ok b) h e = subst P (ok_injective e) h
Ensures-ok P exits h e = cc
Ensures-ok P fault h e = cc

pub Ensures-mono {ℓ κ μ} :
    {A : Type ℓ} {P : A → Type κ} {Q : A → Type μ} (m : Run A)
    → Ensures P m
    → ((a : A) → P a → Q a)
    → Ensures Q m
Ensures-mono (ok a) h k = k a h
Ensures-mono exits h k = tt
Ensures-mono fault h k = tt

pub Ensures-both {ℓ κ μ} :
    {A : Type ℓ} (P : A → Type κ) (Q : A → Type μ) (m : Run A)
    → Ensures P m
    → Ensures Q m
    → Ensures (λ a. P a × Q a) m
Ensures-both P Q (ok a) h k = (h, k)
Ensures-both P Q exits h k = tt
Ensures-both P Q fault h k = tt

-- A property of every value that a run may give.
pub Ensures-of_ok {ℓ κ} :
    {A : Type ℓ} (P : A → Type κ) (m : Run A) → ((a : A) → m ≡ ok a → P a) → Ensures P m
Ensures-of_ok P (ok a) h = h a refl
Ensures-of_ok P exits h = tt
Ensures-of_ok P fault h = tt

pub or_exits-eq_ok {ℓ} : {A : Type ℓ} (o : Option A) {a : A} → or_exits o ≡ ok a → o ≡ some a
or_exits-eq_ok o e = ground arith

pub or_fault-eq_ok {ℓ} : {A : Type ℓ} (o : Option A) {a : A} → or_fault o ≡ ok a → o ≡ some a
or_fault-eq_ok o e = ground arith

-- A decision, taken each way.
pub Ensures-ite {ℓ κ μ} :
    {P : Type μ} {A : Type ℓ} (Q : A → Type κ) (d : Dec P) (x y : Run A)
    → (P → Ensures Q x)
    → (¬ P → Ensures Q y)
    → Ensures Q (ite d x y)
Ensures-ite Q (yes p) x y h k = h p
Ensures-ite Q (no n) x y h k = k n

-- No undefined behaviour, and the property of the value, where there is one.
abbrev pub Settles {ℓ κ} : {A : Type ℓ} → (A → Type κ) → Run A → Type (ℓ ⊔ κ)
Settles P m = (m ≢ fault) × Ensures P m

pub Settles-step {ℓ κ μ} :
    {A : Type ℓ} {B : Type κ} (Q : B → Type μ) (m : Run A) (f : A → Run B)
    → m ≢ fault
    → ((a : A) → m ≡ ok a → Settles Q (f a))
    → Settles Q (m >>= f)
Settles-step Q (ok a) f d k = k a refl
Settles-step Q exits f d k = (λ e. cc, tt)
Settles-step Q fault f d k = absurd (d refl)
