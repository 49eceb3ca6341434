-- ===== src/Base/Checks.antt =====
-- Go's `error` of a validation: `none` is nil. A check that fails ends the sequence.
use mathlib.Core.Path.{◌≡◌, refl}
use mathlib.Core.Bool.{Bool, true, false}
use mathlib.Core.List.{List, [], ◌∷◌}
use mathlib.Core.Option.{Option, none, some}

infixr 6 ◌then_check◌
abbrev pub ◌then_check◌ {ℓ} : {E : Type ℓ} → Option E → Option E → Option E
none then_check k = k
some e then_check k = some e

abbrev pub reject {ℓ} : {E : Type ℓ} → Bool → E → Option E
reject true e = some e
reject false e = none

-- `for _, x := range xs { if err := f(x); err != nil { return err } }`
abbrev pub check_all {ℓ κ} : {A : Type ℓ} {E : Type κ} → (A → Option E) → List A → Option E
check_all f [] = none
check_all f (x ∷ xs) = f x then_check check_all f xs

pub then_check-none {ℓ} :
    {E : Type ℓ} (a b : Option E) → (a then_check b) ≡ none → (a ≡ none) × (b ≡ none)
then_check-none none b h = (refl, h)
then_check-none (some e) b h = cc

-- What a Go function with an error result returns.
pub data Result {ℓ κ} (E : Type ℓ) (A : Type κ) : Type (ℓ ⊔ κ) where
  ok : A → Result E A
  err : E → Result E A

-- A step that Go does not return from (a nil dereference, an endless loop) is `none`.
infixl 5 ◌>>=◌
abbrev pub ◌>>=◌ {ℓ κ} : {A : Type ℓ} {B : Type κ} → Option A → (A → Option B) → Option B
none >>= f = none
some a >>= f = f a
