-- ===== src/Prelude/Results.antt =====
-- What a kernel routine comes to: a value, or a failed ASSERT (`panic` in kernel/panic.c).
use mathlib.Core.Path.{◌≡◌}
use mathlib.Core.Bool.{Bool, true, false}
use mathlib.Core.Option.{Option, none, some}

pub data Outcome {ℓ} (A : Type ℓ) : Type ℓ where
  done : A → Outcome A
  panic : Outcome A

infixl 5 ◌>>=◌ ◌>>◌
abbrev pub ◌>>=◌ {ℓ κ} : {A : Type ℓ} {B : Type κ} → Outcome A → (A → Outcome B) → Outcome B
done a >>= f = f a
panic >>= f = panic

abbrev pub ◌>>◌ {ℓ} : {B : Type ℓ} → Outcome (Unit {0}) → Outcome B → Outcome B
m >> k = m >>= λ _. k

-- ASSERT(c)
abbrev pub ensure : Bool → Outcome (Unit {0})
ensure true = done tt
ensure false = panic

-- The postcondition of a run that must not panic.
abbrev pub Ends {ℓ} : {A : Type ℓ} → Outcome A → (A → Type 0) → Type 0
Ends (done a) P = P a
Ends panic P = ⊥

-- The rule for a step followed by the rest.
pub Ends-bind {ℓ κ} :
    {A : Type ℓ} {B : Type κ} (m : Outcome A) (f : A → Outcome B) (P : A → Type 0) (Q : B → Type 0)
    → Ends m P
    → ((a : A) → P a → Ends (f a) Q)
    → Ends (m >>= f) Q
Ends-bind (done a) f P Q h k = k a h
Ends-bind panic f P Q h k = absurd h

-- The rule for a step whose result is known.
pub bind_run {ℓ κ} :
    {A : Type ℓ} {B : Type κ} (m : Outcome A) (f : A → Outcome B) (a : A) (r : Outcome B)
    → m ≡ done a
    → f a ≡ r
    → (m >>= f) ≡ r
bind_run m f a r e h = rw e h

-- The postcondition of a loop on fuel, which must have enough of it.
abbrev pub Yields {ℓ} : {A : Type ℓ} → Option (Outcome A) → (A → Type 0) → Type 0
Yields none P = ⊥
Yields (some r) P = Ends r P

-- The rule of consequence.
pub Ends-weaken {ℓ} :
    {A : Type ℓ} (m : Outcome A) (P Q : A → Type 0) → Ends m P → ((a : A) → P a → Q a) → Ends m Q
Ends-weaken (done a) P Q h k = k a h
Ends-weaken panic P Q h k = absurd h

pub Yields-weaken {ℓ} :
    {A : Type ℓ} (o : Option (Outcome A)) (P Q : A → Type 0)
    → Yields o P
    → ((a : A) → P a → Q a)
    → Yields o Q
Yields-weaken none P Q h k = absurd h
Yields-weaken (some r) P Q h k = Ends-weaken r P Q h k
