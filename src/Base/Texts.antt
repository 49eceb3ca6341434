-- ===== src/Base/Texts.antt =====
-- Go strings: sequences of bytes, which need not be UTF-8.
use Prim.Native.Nat.{ℕ, zero, suc}
use Prim.Native.Char.{code}
use Prim.Native.String.{String}
use mathlib.Core.Path.{◌≡◌, refl, subst}
use mathlib.Core.Logic.{◌↔◌}
use mathlib.Core.Bool.{Bool, true, false, ◌&&◌}
use mathlib.Core.List.{List, [], ◌∷◌}
use native.Mathlib.Omega.{arith}
use sysc_notify.Base.Tests.{◌==◌, leb, if◌then◌else◌}

abbrev pub Text : Type 0
Text = List ℕ

-- The bytes of an ASCII literal.
abbrev pub codes : String → Text
codes String.[] = []
codes (String.◌∷◌ c s) = code c ∷ codes s

abbrev pub text_eq : Text → Text → Bool
text_eq [] [] = true
text_eq [] (y ∷ ys) = false
text_eq (x ∷ xs) [] = false
text_eq (x ∷ xs) (y ∷ ys) = x == y && text_eq xs ys

text_eq→eq : (xs ys : Text) → text_eq xs ys ≡ true → xs ≡ ys
text_eq→eq [] [] h = refl
text_eq→eq [] (y ∷ ys) h = cc
text_eq→eq (x ∷ xs) [] h = cc
text_eq→eq (x ∷ xs) (y ∷ ys) h = ground (arith, text_eq→eq xs ys)

pub text_eq_refl : (xs : Text) → text_eq xs xs ≡ true
text_eq_refl [] = refl
text_eq_refl (x ∷ xs) = ground (arith, text_eq_refl xs)

pub text_eq_iff : (xs ys : Text) → (text_eq xs ys ≡ true) ↔ (xs ≡ ys)
text_eq_iff xs ys = (text_eq→eq xs ys, λ e. subst (λ t. text_eq xs t ≡ true) e (text_eq_refl xs))

abbrev pub is_empty : Text → Bool
is_empty [] = true
is_empty (x ∷ xs) = false

-- `utf8.ValidString`: what the next byte may be. `need lo hi k` wants one byte from `lo` to `hi`
-- and then `k` continuation bytes.
pub data Utf8 : Type 0 where
  start bad : Utf8
  need : ℕ → ℕ → ℕ → Utf8

abbrev between : ℕ → ℕ → ℕ → Bool
between lo hi b = leb lo b && leb b hi

utf8_lead : ℕ → Utf8
utf8_lead b =
    if leb b 0x7f
    then start
    else if between 0xc2 0xdf b
    then need 0x80 0xbf 0
    else if b == 0xe0
    then need 0xa0 0xbf 1
    else if b == 0xed
    then need 0x80 0x9f 1
    else if between 0xe1 0xef b
    then need 0x80 0xbf 1
    else if b == 0xf0
    then need 0x90 0xbf 2
    else if between 0xf1 0xf3 b
    then need 0x80 0xbf 2
    else if b == 0xf4
    then need 0x80 0x8f 2
    else bad

utf8_step : Utf8 → ℕ → Utf8
unfolding utf8_lead
utf8_step start b = utf8_lead b
utf8_step bad b = bad
utf8_step (need lo hi zero) b = if between lo hi b then start else bad
utf8_step (need lo hi (suc k)) b = if between lo hi b then need 0x80 0xbf k else bad

utf8_from : Utf8 → Text → Bool
utf8_from start [] = true
utf8_from bad [] = false
utf8_from (need lo hi k) [] = false
utf8_from st (b ∷ bs) = utf8_from (utf8_step st b) bs

unfoldable pub valid_utf8 : Text → Bool
unfolding utf8_from utf8_step
valid_utf8 bs = utf8_from start bs

pub valid_utf8_mixed : valid_utf8 (0x61 ∷ 0xc3 ∷ 0xa9 ∷ 0xe2 ∷ 0x82 ∷ 0xac ∷ []) ≡ true
unfolding valid_utf8
valid_utf8_mixed = refl

pub valid_utf8_surrogate : valid_utf8 (0xed ∷ 0xa0 ∷ 0x80 ∷ []) ≡ false
unfolding valid_utf8
valid_utf8_surrogate = refl
