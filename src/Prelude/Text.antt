-- ===== src/Prelude/Text.antt =====
-- Texts as JavaScript has them: lists of UTF-16 code units, equality, `<`, `includes`, `split`.
use Prim.Native.Nat.{ℕ}
use Prim.Native.Char.{code}
use Prim.Native.String.{String}
use mathlib.Core.Path.{◌≡◌, refl}
use mathlib.Core.Logic.{◌↔◌}
use mathlib.Core.Bool.{Bool, true, false, ◌&&◌, ◌||◌}
use mathlib.Core.List.{List, [], ◌∷◌, ◌++◌}
use native.Mathlib.Omega.{arith}
use fincrypt.Prelude.Tests.{ltb, ◌==◌, if◌then◌else◌}

abbrev pub Str : Type 0
Str = List ℕ

-- The code units of a text literal (ASCII here, so that code points are code units).
abbrev pub codes : String → Str
codes String.[] = []
codes (String.◌∷◌ c s) = code c ∷ codes s

-- `a === b`
unfoldable pub str_eq : Str → Str → Bool
str_eq [] [] = true
str_eq [] (b ∷ t) = false
str_eq (a ∷ s) [] = false
str_eq (a ∷ s) (b ∷ t) = a == b && str_eq s t

pub str_eq_refl : (s : Str) → str_eq s s ≡ true
unfolding str_eq
str_eq_refl [] = refl
str_eq_refl (a ∷ s) = ground (arith, str_eq_refl s)

pub eq_of_str_eq : (s t : Str) → str_eq s t ≡ true → s ≡ t
unfolding str_eq
eq_of_str_eq [] [] h = refl
eq_of_str_eq [] (b ∷ t) h = cc
eq_of_str_eq (a ∷ s) [] h = cc
eq_of_str_eq (a ∷ s) (b ∷ t) h = ground (arith, eq_of_str_eq s t)

pub str_eq_iff : (s t : Str) → (str_eq s t ≡ true) ↔ (s ≡ t)
str_eq_iff s t = (eq_of_str_eq s t, λ e. rw e (str_eq_refl t))

-- `a < b`: the first code unit that differs decides.
unfoldable pub str_lt : Str → Str → Bool
str_lt [] [] = false
str_lt [] (b ∷ t) = true
str_lt (a ∷ s) [] = false
str_lt (a ∷ s) (b ∷ t) = if a == b then str_lt s t else ltb a b

pub str_lt_irrefl : (s : Str) → str_lt s s ≡ false
unfolding str_lt
str_lt_irrefl [] = refl
str_lt_irrefl (a ∷ s) = ground (arith, str_lt_irrefl s)

pub str_lt_trans : (r s t : Str) → str_lt r s ≡ true → str_lt s t ≡ true → str_lt r t ≡ true
unfolding str_lt
str_lt_trans [] [] t h k = cc
str_lt_trans [] (b ∷ s) [] h k = cc
str_lt_trans [] (b ∷ s) (c ∷ t) h k = refl
str_lt_trans (a ∷ r) [] t h k = cc
str_lt_trans (a ∷ r) (b ∷ s) [] h k = cc
str_lt_trans (a ∷ r) (b ∷ s) (c ∷ t) h k = ground (arith, str_lt_trans r s t)

pub str_lt_asymm : (s t : Str) → str_lt s t ≡ true → str_lt t s ≡ false
unfolding str_lt
str_lt_asymm [] [] h = refl
str_lt_asymm [] (b ∷ t) h = refl
str_lt_asymm (a ∷ s) [] h = cc
str_lt_asymm (a ∷ s) (b ∷ t) h = ground (arith, str_lt_asymm s t)

-- Two texts neither of which is less are one text.
pub str_lt_connected : (s t : Str) → str_lt s t ≡ false → str_lt t s ≡ false → s ≡ t
unfolding str_lt
str_lt_connected [] [] h k = refl
str_lt_connected [] (b ∷ t) h k = cc
str_lt_connected (a ∷ s) [] h k = cc
str_lt_connected (a ∷ s) (b ∷ t) h k = ground (arith, str_lt_connected s t)

-- `s.includes(c)` for one code unit.
unfoldable pub includes : ℕ → Str → Bool
includes c [] = false
includes c (a ∷ s) = a == c || includes c s

pub includes-append :
    (c : ℕ) (s t : Str) → includes c s ≡ false → includes c t ≡ false → includes c (s ++ t) ≡ false
unfolding includes
includes-append c [] t h k = k
includes-append c (a ∷ s) t h k = ground (arith, includes-append c s t)

-- Two texts with one separator each are cut at the same place.
pub separator_injective :
    (c : ℕ) (s t x y : Str)
    → includes c s ≡ false
    → includes c t ≡ false
    → s ++ c ∷ x ≡ t ++ c ∷ y
    → (s ≡ t) × (x ≡ y)
unfolding includes
separator_injective c [] [] x y h k e = ground arith
separator_injective c [] (b ∷ t) x y h k e = ground arith
separator_injective c (a ∷ s) [] x y h k e = ground arith
separator_injective c (a ∷ s) (b ∷ t) x y h k e = ground (arith, separator_injective c s t x y)

-- "Not less" is transitive.
pub str_lt_negative_trans :
    (r s t : Str) → str_lt s r ≡ false → str_lt t s ≡ false → str_lt t r ≡ false
unfolding str_lt
str_lt_negative_trans [] s [] h k = refl
str_lt_negative_trans [] [] (c ∷ t) h k = refl
str_lt_negative_trans [] (b ∷ s) (c ∷ t) h k = refl
str_lt_negative_trans (a ∷ r) [] t h k = cc
str_lt_negative_trans (a ∷ r) (b ∷ s) [] h k = cc
str_lt_negative_trans (a ∷ r) (b ∷ s) (c ∷ t) h k = ground (arith, str_lt_negative_trans r s t)
