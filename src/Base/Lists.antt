-- ===== src/Base/Lists.antt =====
-- Lists measured by native numbers, and lists of ids.
use Prim.Native.Nat.{ℕ, zero, suc, ◌+◌, ◌≤◌}
use mathlib.Core.Path.{◌≡◌, refl}
use mathlib.Core.Bool.{Bool, true, false, ◌||◌}
use mathlib.Core.List.{List, [], ◌∷◌, ◌++◌}
use native.Mathlib.Omega.{arith}
use sysc_notify.Base.Tests.{◌==◌, if◌then◌else◌}

module _ {ℓ} {A : Type ℓ} where
  abbrev pub length : List A → ℕ
  length [] = 0
  length (x ∷ xs) = suc (length xs)

  abbrev pub take : ℕ → List A → List A
  take zero xs = []
  take (suc n) [] = []
  take (suc n) (x ∷ xs) = x ∷ take n xs

  abbrev pub drop : ℕ → List A → List A
  drop zero xs = xs
  drop (suc n) [] = []
  drop (suc n) (x ∷ xs) = drop n xs

  pub length-append : (xs ys : List A) → length (xs ++ ys) ≡ length xs + length ys
  length-append [] ys = omega arith
  length-append (x ∷ xs) ys = omega (arith, length-append xs ys)

  abbrev pub All {κ} : (A → Type κ) → List A → Type κ
  All P [] = Unit
  All P (x ∷ xs) = P x × All P xs

  pub All-append {κ} : (P : A → Type κ) (xs ys : List A) → All P xs → All P ys → All P (xs ++ ys)
  All-append P [] ys hx hy = hy
  All-append P (x ∷ xs) ys hx hy = (hx.0, All-append P xs ys hx.1 hy)

-- Membership and distinctness of ids, as the source's sets answer them.
abbrev pub contains : ℕ → List ℕ → Bool
contains x [] = false
contains x (y ∷ ys) = y == x || contains x ys

abbrev pub Distinct : List ℕ → Type 0
Distinct [] = Unit {0}
Distinct (x ∷ xs) = (contains x xs ≡ false) × Distinct xs

-- The first occurrence goes.
abbrev pub remove_first : ℕ → List ℕ → List ℕ
remove_first x [] = []
remove_first x (y ∷ ys) = let rest = remove_first x ys in if y == x then ys else y ∷ rest

pub contains-append :
    (x : ℕ) (xs ys : List ℕ) → contains x (xs ++ ys) ≡ (contains x xs || contains x ys)
contains-append x [] ys = refl
contains-append x (z ∷ xs) ys = ground (arith, contains-append x xs ys)

pub contains-remove_first :
    (x y : ℕ) (ys : List ℕ) → contains x ys ≡ false → contains x (remove_first y ys) ≡ false
contains-remove_first x y [] h = refl
contains-remove_first x y (z ∷ ys) h = ground (arith, contains-remove_first x y ys)

pub contains-remove_first_other :
    (x y : ℕ) (ys : List ℕ) → (x == y) ≡ false → contains x (remove_first y ys) ≡ contains x ys
contains-remove_first_other x y [] h = refl
contains-remove_first_other x y (z ∷ ys) h = ground (arith, h, contains-remove_first_other x y ys h)

pub remove_first-Distinct : (x : ℕ) (xs : List ℕ) → Distinct xs → Distinct (remove_first x xs)
remove_first-Distinct x [] d = tt
remove_first-Distinct x (y ∷ ys) d =
    ground (arith, remove_first-Distinct x ys d.1, contains-remove_first y x ys d.0)

pub remove_first_gone : (x : ℕ) (xs : List ℕ) → Distinct xs → contains x (remove_first x xs) ≡ false
remove_first_gone x [] d = refl
remove_first_gone x (y ∷ ys) d = ground (arith, remove_first_gone x ys d.1)

pub append_one-Distinct :
    (x : ℕ) (xs : List ℕ) → Distinct xs → contains x xs ≡ false → Distinct (xs ++ x ∷ [])
append_one-Distinct x [] d h = (refl, tt)
append_one-Distinct x (y ∷ ys) d h =
    ground (arith, append_one-Distinct x ys d.1, contains-append y ys (x ∷ []))

pub length-remove_first :
    (x : ℕ) (xs : List ℕ) → contains x xs ≡ true → length (remove_first x xs) + 1 ≡ length xs
length-remove_first x [] h = cc
length-remove_first x (y ∷ ys) h = ground (arith, length-remove_first x ys)

-- No id of the second list stands in the first.
abbrev pub Apart : List ℕ → List ℕ → Type 0
Apart seen = All (λ x. contains x seen ≡ false)

pub Apart-cons :
    (id : ℕ) (seen ids : List ℕ) → Apart seen ids → contains id ids ≡ false → Apart (id ∷ seen) ids
Apart-cons id seen [] a h = tt
Apart-cons id seen (x ∷ ids) a h = (ground arith, Apart-cons id seen ids a.1 (ground arith))

pub Apart-nil : (ids : List ℕ) → Apart [] ids
Apart-nil [] = tt
Apart-nil (x ∷ ids) = (refl, Apart-nil ids)

-- Every id of the second list stands in the first.
abbrev pub Within : List ℕ → List ℕ → Type 0
Within ks = All (λ x. contains x ks ≡ true)

Within-cons : (id : ℕ) (ks ids : List ℕ) → Within ks ids → Within (id ∷ ks) ids
Within-cons id ks [] w = tt
Within-cons id ks (x ∷ ids) w = (ground arith, Within-cons id ks ids w.1)

pub Within-refl : (ids : List ℕ) → Within ids ids
Within-refl [] = tt
Within-refl (x ∷ ids) = (ground arith, Within-cons x ids ids (Within-refl ids))

pub Apart-uncons :
    (id : ℕ) (seen ids : List ℕ)
    → Apart (id ∷ seen) ids
    → (contains id ids ≡ false) × Apart seen ids
Apart-uncons id seen [] a = (refl, tt)
Apart-uncons id seen (x ∷ ids) a = ground (arith, Apart-uncons id seen ids a.1)

pub length-remove_first_le : (x : ℕ) (xs : List ℕ) → length (remove_first x xs) ≤ length xs
length-remove_first_le x [] = omega arith
length-remove_first_le x (y ∷ ys) = ground (arith, length-remove_first_le x ys)
