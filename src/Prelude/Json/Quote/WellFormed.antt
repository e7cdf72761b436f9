-- ===== src/Prelude/Json/Quote/WellFormed.antt =====
-- A string literal is well formed, whatever the text: lone surrogates are escaped.
use Prim.Native.Nat.{ℕ, zero, suc, ◌<◌, ◌+◌, ◌/◌, ◌%◌}
use mathlib.Core.Path.{◌≡◌, refl, ap, ◌∙◌}
use mathlib.Core.Logic.{inl, inr}
use mathlib.Core.Bool.{Bool, true, false, not, ◌&&◌, ◌||◌}
use mathlib.Core.List.{[], ◌∷◌, ◌++◌, append_assoc}
use native.Mathlib.Omega.{arith}
use fincrypt.Prelude.Tests.{ltb, ◌==◌, Bool-cases, ltb→lt}
use fincrypt.Prelude.Text.{Str}
use fincrypt.Prelude.Int.{ℤ, pos, negsuc}
use fincrypt.Prelude.Decimal.{decimal, decimal_from, decimal_ℤ, decimal_append}
use fincrypt.Prelude.Unicode.{
  is_high_surrogate, is_low_surrogate, is_well_formed_from, is_well_formed,
}
use fincrypt.Prelude.Json.Quote.{
  hex_digit, unicode_escape, control, chunk, starts_low, quoted_from, quoted,
}

-- A unit that is no surrogate.
step_plain :
    (c : ℕ) (u : Str) → c < 0xd800 → is_well_formed_from false (c ∷ u) ≡ is_well_formed_from false u
unfolding is_well_formed_from is_high_surrogate is_low_surrogate
step_plain c u h = ground arith

hex_digit_bound : (d : ℕ) → d < 16 → hex_digit d < 0xd800
unfolding hex_digit
hex_digit_bound d h = ground arith

skip_escape :
    (c : ℕ) (u : Str)
    → c < 65536
    → is_well_formed_from false (unicode_escape c ++ u) ≡ is_well_formed_from false u
skip_escape c u h =
    step_plain 0x5c _ (omega arith)
    ∙ step_plain b'u' _ (omega arith)
    ∙ step_plain (hex_digit (c / 4096)) _ (hex_digit_bound (c / 4096) (omega arith))
    ∙ step_plain (hex_digit (c / 256 % 16)) _ (hex_digit_bound (c / 256 % 16) (omega arith))
    ∙ step_plain (hex_digit (c / 16 % 16)) _ (hex_digit_bound (c / 16 % 16) (omega arith))
    ∙ step_plain (hex_digit (c % 16)) u (hex_digit_bound (c % 16) (omega arith))

skip_short :
    (e : ℕ) (u : Str)
    → e < 0xd800
    → is_well_formed_from false (0x5c ∷ e ∷ u) ≡ is_well_formed_from false u
skip_short e u h = step_plain 0x5c (e ∷ u) (omega arith) ∙ step_plain e u h

skip_control :
    (c : ℕ) (u : Str)
    → c < 32
    → is_well_formed_from false (control c ++ u) ≡ is_well_formed_from false u
unfolding control
skip_control c u h = ground (
  arith,
  skip_escape c u (omega arith),
  skip_short b'b' u (omega arith),
  skip_short b't' u (omega arith),
  skip_short b'n' u (omega arith),
  skip_short b'f' u (omega arith),
  skip_short b'r' u (omega arith),
)

not_high : (before_low : Bool) (c : ℕ) → c < 0xd800 → (is_high_surrogate c && before_low) ≡ false
unfolding is_high_surrogate
not_high before_low c h = ground arith

special_bound : (c : ℕ) → (c == 0x22 || c == 0x5c) ≡ true → c < 0xd800
special_bound c h = ground arith

lone_unwaited :
    (after_high before_low : Bool) (c : ℕ)
    → (is_high_surrogate c && not before_low || is_low_surrogate c && not after_high) ≡ true
    → ((is_high_surrogate c && before_low) ≡ false) × (c < 65536)
unfolding is_high_surrogate is_low_surrogate
lone_unwaited after_high before_low c h = ground arith

whole_unwaited :
    (after_high before_low : Bool) (c : ℕ) (u : Str)
    → (is_high_surrogate c && not before_low || is_low_surrogate c && not after_high) ≡ false
    → (after_high && is_low_surrogate c) ≡ false
    → is_well_formed_from false (c ∷ u) ≡ is_well_formed_from (is_high_surrogate c && before_low) u
unfolding is_well_formed_from is_high_surrogate is_low_surrogate
whole_unwaited after_high before_low c u h k = ground arith

-- A unit that is escaped, or that stands for itself.
chunk_unwaited :
    (after_high before_low : Bool) (c : ℕ) (u : Str)
    → (after_high && is_low_surrogate c) ≡ false
    → is_well_formed_from false (chunk after_high before_low c ++ u)
      ≡ is_well_formed_from (is_high_surrogate c && before_low) u
unfolding chunk
chunk_unwaited after_high before_low c u h = elim (Bool-cases (c == 0x22 || c == 0x5c)) [
  | inl special ↦
      let low = special_bound c special in
      rw (special, not_high before_low c low) (skip_short c u low)
  | inr usual ↦ elim (Bool-cases (ltb c 32)) [
    | inl low ↦
        let bound = ltb→lt c 32 low in
        rw (usual, low, not_high before_low c (omega arith)) (skip_control c u bound)
    | inr printed ↦
        elim (Bool-cases
          (is_high_surrogate c && not before_low || is_low_surrogate c && not after_high)) [
            | inl lone ↦
                let (waits, bound) = lone_unwaited after_high before_low c lone in
                rw (usual, printed, lone, waits) (skip_escape c u bound)
            | inr whole ↦
                rw (usual, printed, whole) (whole_unwaited after_high before_low c u whole h)
          ]
  ]
]

-- The second half of a pair.
chunk_waited :
    (before_low : Bool) (c : ℕ) (u : Str)
    → is_low_surrogate c ≡ true
    → is_well_formed_from true (chunk true before_low c ++ u)
      ≡ is_well_formed_from (is_high_surrogate c && before_low) u
unfolding chunk is_well_formed_from is_high_surrogate is_low_surrogate
chunk_waited before_low c u h = ground arith

chunk-append :
    (after_high before_low : Bool) (c : ℕ) (u : Str)
    → is_well_formed_from (after_high && is_low_surrogate c) (chunk after_high before_low c ++ u)
      ≡ is_well_formed_from (is_high_surrogate c && before_low) u
chunk-append false before_low c u = chunk_unwaited false before_low c u refl
chunk-append true before_low c u = elim (Bool-cases (is_low_surrogate c)) [
  | inl low ↦ rw low (chunk_waited before_low c u low)
  | inr other ↦ rw other (chunk_unwaited true before_low c u other)
]

and_false : (b : Bool) → (b && false) ≡ false
and_false true = refl
and_false false = refl

quoted_from-append :
    (after_high : Bool) (s t : Str)
    → is_well_formed_from (after_high && starts_low s) (quoted_from after_high s ++ t)
      ≡ is_well_formed_from false t
unfolding quoted_from
quoted_from-append after_high [] t = rw (and_false after_high) refl
quoted_from-append after_high (c ∷ s) t =
    let written = chunk after_high (starts_low s) c in
    let rest = quoted_from (is_high_surrogate c) s in
    ap (is_well_formed_from (after_high && is_low_surrogate c)) (append_assoc written rest t)
    ∙ chunk-append after_high (starts_low s) c (rest ++ t)
    ∙ quoted_from-append (is_high_surrogate c) s t

-- A literal leaves what follows it as well formed as it was.
pub is_well_formed-quoted : (s t : Str) → is_well_formed (quoted s ++ t) ≡ is_well_formed t
unfolding is_well_formed quoted
is_well_formed-quoted s t =
    step_plain 0x22 ((quoted_from false s ++ 0x22 ∷ []) ++ t) (omega arith)
    ∙ ap (is_well_formed_from false) (append_assoc (quoted_from false s) (0x22 ∷ []) t)
    ∙ quoted_from-append false s (0x22 ∷ t)
    ∙ step_plain 0x22 t (omega arith)

decimal_from-append :
    (fuel n : ℕ) (s : Str)
    → is_well_formed_from false (decimal_from fuel n s) ≡ is_well_formed_from false s
unfolding decimal_from
decimal_from-append zero n s = refl
decimal_from-append (suc fuel) n s = elim (Bool-cases (ltb n 10)) [
  | inl small ↦ let bound = ltb→lt n 10 small in rw small (step_plain (b'0' + n) s (omega arith))
  | inr large ↦ rw large (
      decimal_from-append fuel (n / 10) ((b'0' + n % 10) ∷ s)
      ∙ step_plain (b'0' + n % 10) s (omega arith))
]

pub is_well_formed-decimal_ℤ :
    (z : ℤ) (t : Str) → is_well_formed (decimal_ℤ z ++ t) ≡ is_well_formed t
unfolding is_well_formed decimal
is_well_formed-decimal_ℤ (pos n) t =
    ap (is_well_formed_from false) (decimal_append n t) ∙ decimal_from-append (suc n) n t
is_well_formed-decimal_ℤ (negsuc n) t =
    step_plain b'-' (decimal (suc n) ++ t) (omega arith)
    ∙ ap (is_well_formed_from false) (decimal_append (suc n) t)
    ∙ decimal_from-append (suc (suc n)) (suc n) t
