-- ===== src/Prelude/Json/Quote/RoundTrip.antt =====
-- A text that was quoted is read as it was.
use Prim.Native.Nat.{ℕ, ◌+◌, ◌*◌, ◌/◌, ◌%◌, ◌<◌}
use mathlib.Core.Path.{◌∙◌, ◌≡◌, refl, ap}
use mathlib.Core.Logic.{inl, inr}
use mathlib.Core.Bool.{Bool, true, false, not, ◌&&◌, ◌||◌}
use mathlib.Core.Option.{some}
use mathlib.Core.List.{[], ◌∷◌, ◌++◌, append_assoc}
use native.Mathlib.Omega.{arith}
use fincrypt.Prelude.Tests.{ltb, ◌==◌, Bool-cases, ltb→lt}
use fincrypt.Prelude.Text.{Str}
use fincrypt.Prelude.Unicode.{is_high_surrogate, is_low_surrogate}
use fincrypt.Prelude.Json.Quote.{
  hex_digit, unicode_escape, control, chunk, starts_low, quoted_from, quoted, digit_of, unescaped,
  move_at, with_unit, read_text, plain, emit,
}

digit_of-hex_digit : (d : ℕ) → d < 16 → digit_of (hex_digit d) ≡ some d
unfolding digit_of hex_digit
digit_of-hex_digit d h = ground arith

read_text-unicode_escape :
    (c : ℕ) (u : Str)
    → c < 65536
    → read_text plain (unicode_escape c ++ u) ≡ with_unit c (read_text plain u)
unfolding read_text move_at unescaped
read_text-unicode_escape c u h =
    let whole : (((0 * 16 + c / 4096) * 16 + c / 256 % 16) * 16 + c / 16 % 16) * 16 + c % 16 ≡ c =
      omega arith in
    rw
      (
        digit_of-hex_digit (c / 4096) (omega arith),
        digit_of-hex_digit (c / 256 % 16) (omega arith),
        digit_of-hex_digit (c / 16 % 16) (omega arith),
        digit_of-hex_digit (c % 16) (omega arith),
      )
      (ap (λ x. with_unit x (read_text plain u)) whole)

read_text-short :
    (e d : ℕ) (u : Str)
    → unescaped e ≡ emit d
    → read_text plain (0x5c ∷ e ∷ u) ≡ with_unit d (read_text plain u)
unfolding read_text move_at
read_text-short e d u h = rw h refl

read_text-control :
    (c : ℕ) (u : Str) → c < 32 → read_text plain (control c ++ u) ≡ with_unit c (read_text plain u)
unfolding control unescaped
read_text-control c u h = ground (
  arith,
  read_text-unicode_escape c u (omega arith),
  read_text-short b'b' 8 u refl,
  read_text-short b't' 9 u refl,
  read_text-short b'n' 10 u refl,
  read_text-short b'f' 12 u refl,
  read_text-short b'r' 13 u refl,
)

unescaped-special : (c : ℕ) → (c == 0x22 || c == 0x5c) ≡ true → unescaped c ≡ emit c
unfolding unescaped
unescaped-special c h = ground arith

read_text-plain :
    (c : ℕ) (u : Str)
    → (c == 0x22 || c == 0x5c) ≡ false
    → ltb c 32 ≡ false
    → read_text plain (c ∷ u) ≡ with_unit c (read_text plain u)
unfolding read_text move_at
read_text-plain c u h k = ground arith

lone_bounds :
    (after_high before_low : Bool) (c : ℕ)
    → (is_high_surrogate c && not before_low || is_low_surrogate c && not after_high) ≡ true
    → c < 65536
unfolding is_high_surrogate is_low_surrogate
lone_bounds after_high before_low c h = ground arith

read_text-chunk :
    (after_high before_low : Bool) (c : ℕ) (u : Str)
    → read_text plain (chunk after_high before_low c ++ u) ≡ with_unit c (read_text plain u)
unfolding chunk
read_text-chunk after_high before_low c u = elim (Bool-cases (c == 0x22 || c == 0x5c)) [
  | inl special ↦ rw special (read_text-short c c u (unescaped-special c special))
  | inr usual ↦ elim (Bool-cases (ltb c 32)) [
    | inl low ↦ rw (usual, low) (read_text-control c u (ltb→lt c 32 low))
    | inr printed ↦
        elim (Bool-cases
          (is_high_surrogate c && not before_low || is_low_surrogate c && not after_high)) [
            | inl lone ↦
                rw (usual, printed, lone)
                  (read_text-unicode_escape c u (lone_bounds after_high before_low c lone))
            | inr whole ↦ rw (usual, printed, whole) (read_text-plain c u usual printed)
          ]
  ]
]

read_text-quoted_from :
    (after_high : Bool) (s t : Str)
    → read_text plain (quoted_from after_high s ++ 0x22 ∷ t) ≡ some (s, t)
unfolding quoted_from read_text move_at
read_text-quoted_from after_high [] t = refl
read_text-quoted_from after_high (c ∷ s) t =
    let written = chunk after_high (starts_low s) c in
    let rest = quoted_from (is_high_surrogate c) s in
    ap (read_text plain) (append_assoc written rest (0x22 ∷ t))
    ∙ read_text-chunk after_high (starts_low s) c (rest ++ 0x22 ∷ t)
    ∙ ap (with_unit c) (read_text-quoted_from (is_high_surrogate c) s t)

-- A text that was quoted is read as it was, with whatever follows it left.
pub read_text-quoted :
    (s t : Str) → (r : Str) × (quoted s ++ t ≡ 0x22 ∷ r) × (read_text plain r ≡ some (s, t))
unfolding quoted
read_text-quoted s t = (
  quoted_from false s ++ 0x22 ∷ t,
  ap (λ x. 0x22 ∷ x) (append_assoc (quoted_from false s) (0x22 ∷ []) t),
  read_text-quoted_from false s t,
)
