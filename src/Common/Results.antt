-- ===== src/Common/Results.antt =====
-- Partial operations: `none` is a fault. What holds of the result, if there is one.
use mathlib.Core.Option
use mathlib.Core.Option.{Option, none, some}
use mathlib.Core.Path.{◌≡◌, subst}

abbrev pub Holds {ℓ} : {A : Type 0} → (A → Type ℓ) → Option A → Type ℓ
Holds P none = Unit
Holds P (some a) = P a

pub Holds-some {ℓ} :
    {A : Type 0} (P : A → Type ℓ) {o : Option A} {a : A} → Holds P o → o ≡ some a → P a
Holds-some P h e = subst (Holds P) e h

pub Holds-map {ℓ κ} :
    {A B : Type 0} (P : A → Type ℓ) (Q : B → Type κ) (f : A → B) (o : Option A)
    → Holds P o
    → ((a : A) → P a → Q (f a))
    → Holds Q (Option.map f o)
Holds-map P Q f none h step = tt
Holds-map P Q f (some a) h step = step a h

-- The rest of a computation, unless it has faulted already.
infixl 5 ◌>>=◌
abbrev pub ◌>>=◌ {ℓ κ} : {A : Type ℓ} {B : Type κ} → Option A → (A → Option B) → Option B
none >>= f = none
some a >>= f = f a
