-- ===== src/Base/Results.antt =====
-- The result of a C function: it returns, fails an `assert`, meets undefined behaviour, or runs out
-- of the fuel that its loops and recursive calls are given.
use mathlib.Core.Path.{◌≡◌, refl, ap}
use native.Mathlib.Omega.{arith}

pub data Outcome {ℓ} (A : Type ℓ) : Type ℓ where
  done : A → Outcome A
  aborted : Outcome A
  undefined : Outcome A
  out_of_fuel : Outcome A

infixl 5 ◌>>=◌
abbrev pub ◌>>=◌ {ℓ κ} : {A : Type ℓ} {B : Type κ} → Outcome A → (A → Outcome B) → Outcome B
done a >>= f = f a
aborted >>= f = aborted
undefined >>= f = undefined
out_of_fuel >>= f = out_of_fuel

-- A result that fulfils `P`, or a failure of the code; never a lack of fuel.
abbrev pub Ends {ℓ} : {A : Type ℓ} → (A → Type 0) → Outcome A → Type 0
Ends P (done a) = P a
Ends P aborted = Unit {0}
Ends P undefined = Unit {0}
Ends P out_of_fuel = ⊥

pub bind-Ends {ℓ ℓ'} :
    {A : Type ℓ} {B : Type ℓ'} (P : A → Type 0) (Q : B → Type 0) (r : Outcome A) (f : A → Outcome B)
    → Ends P r
    → ((a : A) → P a → Ends Q (f a))
    → Ends Q (r >>= f)
bind-Ends P Q (done a) f h next = next a h
bind-Ends P Q aborted f h next = tt
bind-Ends P Q undefined f h next = tt
bind-Ends P Q out_of_fuel f h next = absurd h

pub map-Ends {ℓ} :
    {A : Type ℓ} (P Q : A → Type 0) (r : Outcome A) → ((a : A) → P a → Q a) → Ends P r → Ends Q r
map-Ends P Q (done a) f h = f a h
map-Ends P Q aborted f h = tt
map-Ends P Q undefined f h = tt
map-Ends P Q out_of_fuel f h = absurd h

-- A chain that returns has a first part that returns.
pub bind-done {ℓ ℓ'} :
    {A : Type ℓ} {B : Type ℓ'} (r : Outcome A) (f : A → Outcome B) (b : B)
    → r >>= f ≡ done b
    → (a : A) × (r ≡ done a) × (f a ≡ done b)
bind-done (done a) f b e = (a, refl, e)
bind-done aborted f b e = ground arith
bind-done undefined f b e = ground arith
bind-done out_of_fuel f b e = ground arith

abbrev done_value {ℓ} : {A : Type ℓ} → A → Outcome A → A
done_value d (done a) = a
done_value d _ = d

pub done_injective {ℓ} : {A : Type ℓ} {a b : A} → done a ≡ done b → a ≡ b
done_injective {a = a} e = ap (done_value a) e
