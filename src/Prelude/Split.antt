-- ===== src/Prelude/Split.antt =====
-- `s.split(sep)` at one code unit, and `s.startsWith(prefix)`.
use Prim.Native.Nat.{ℕ}
use mathlib.Core.Path.{◌≡◌, refl}
use mathlib.Core.Bool.{Bool, true, false, ◌&&◌}
use mathlib.Core.List.{List, [], ◌∷◌, ◌++◌}
use native.Mathlib.Omega.{arith}
use fincrypt.Prelude.Tests.{◌==◌, if◌then◌else◌}
use fincrypt.Prelude.Text.{Str, includes}

-- Put one more code unit before the first part.
abbrev extend : ℕ → List Str → List Str
extend c [] = (c ∷ []) ∷ []
extend c (part ∷ parts) = (c ∷ part) ∷ parts

unfoldable pub split : ℕ → Str → List Str
split sep [] = [] ∷ []
split sep (c ∷ s) = let parts = split sep s in if c == sep then [] ∷ parts else extend c parts

unfoldable pub starts_with : Str → Str → Bool
starts_with [] s = true
starts_with (c ∷ p) [] = false
starts_with (c ∷ p) (d ∷ s) = c == d && starts_with p s

pub starts_with-append : (p s : Str) → starts_with p (p ++ s) ≡ true
unfolding starts_with
starts_with-append [] s = refl
starts_with-append (c ∷ p) s = ground (arith, starts_with-append p s)

pub split-none : (sep : ℕ) (s : Str) → includes sep s ≡ false → split sep s ≡ s ∷ []
unfolding split includes
split-none sep [] h = refl
split-none sep (c ∷ s) h = ground (arith, split-none sep s)

-- A text up to its first separator is the first part.
pub split-first :
    (sep : ℕ) (s t : Str) → includes sep s ≡ false → split sep (s ++ sep ∷ t) ≡ s ∷ split sep t
unfolding split includes
split-first sep [] t h = ground arith
split-first sep (c ∷ s) t h = ground (arith, split-first sep s t)
