-- ===== src/Prelude/Space.antt =====
-- JavaScript's white space: `trim`, and `split(/\s+/).filter(Boolean)`.
use Prim.Native.Nat.{ℕ}
use mathlib.Core.Path.{◌≡◌, refl}
use mathlib.Core.Bool.{Bool, ◌&&◌, ◌||◌}
use mathlib.Core.List.{List, [], ◌∷◌, ◌++◌, reverse}
use fincrypt.Prelude.Tests.{leb, ◌==◌, if◌then◌else◌}
use fincrypt.Prelude.Text.{Str, codes}

-- The code units that `\s` and `trim` take for white space, line terminators included.
unfoldable pub is_space : ℕ → Bool
is_space c =
    leb 9 c && leb c 13
    || c == 0x20
    || c == 0xa0
    || c == 0x1680
    || leb 0x2000 c && leb c 0x200a
    || c == 0x2028
    || c == 0x2029
    || c == 0x202f
    || c == 0x205f
    || c == 0x3000
    || c == 0xfeff

trim_start : Str → Str
trim_start [] = []
trim_start (c ∷ s) = if is_space c then trim_start s else c ∷ s

-- `s.trim()`
unfoldable pub trim : Str → Str
unfolding trim_start is_space
trim s = reverse (trim_start (reverse (trim_start s)))

-- A word that has been read, if it is not empty.
abbrev finish : Str → List Str
finish [] = []
finish (c ∷ w) = (c ∷ w) ∷ []

words_from : Str → Str → List Str
words_from word [] = finish word
words_from word (c ∷ s) =
    let cut = finish word ++ words_from [] s in
    let longer = words_from (word ++ c ∷ []) s in if is_space c then cut else longer

-- `s.split(/\s+/).filter(Boolean)`
unfoldable pub words : Str → List Str
unfolding words_from is_space
words s = words_from [] s

-- `ws.join(sep)`
unfoldable pub join : Str → List Str → Str
join sep [] = []
join sep (w ∷ []) = w
join sep (w ∷ ws) = w ++ (sep ++ join sep ws)

words_test : words (codes "  ab  c ") ≡ codes "ab" ∷ codes "c" ∷ []
unfolding words
words_test = refl
