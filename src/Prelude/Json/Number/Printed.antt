-- ===== src/Prelude/Json/Number/Printed.antt =====
-- An integer that was printed is read as it was.
use Prim.Native.Nat.{ℕ, zero, suc, ◌+◌, ◌-◌, ◌*◌, ◌/◌, ◌%◌, ◌<◌, ◌≤◌}
use mathlib.Core.Path.{sym, ◌≡◌, refl, ap, ◌∙◌}
use mathlib.Core.Logic.{inl, inr}
use mathlib.Core.Bool.{Bool, true, false, ◌&&◌, ◌||◌}
use mathlib.Core.Option.{some}
use mathlib.Core.List.{[], ◌∷◌, ◌++◌}
use native.Mathlib.Omega.{arith}
use fincrypt.Prelude.Tests.{ltb, ◌==◌, Bool-cases, ltb→lt}
use fincrypt.Prelude.Text.{Str, codes}
use fincrypt.Prelude.Int.{ℤ, pos, negsuc, neg}
use fincrypt.Prelude.Decimal.{decimal, decimal_from, decimal_ℤ, decimal_append}
use fincrypt.Prelude.Json.{int}
use fincrypt.Prelude.Json.Number.{
  is_digit, read_digits, leads_zero, signed, after_places, after_whole, unsigned_of, read_number,
  is_after_number,
}

abbrev counted : ℕ → ℕ × ℕ × Str → ℕ × ℕ × Str
counted k (value, count, rest) = (value, k + count, rest)

counted_twice : (k : ℕ) (x : ℕ × ℕ × Str) → counted (suc k) (counted 1 x) ≡ counted (suc (suc k)) x
counted_twice k (value, count, rest) = ap (λ n. (value, n, rest)) (omega arith)

read_digits-digit :
    (m d : ℕ) (t : Str)
    → d < 10
    → read_digits m ((b'0' + d) ∷ t) ≡ counted 1 (read_digits (m * 10 + d) t)
unfolding read_digits
read_digits-digit m d t h =
    let is : is_digit (b'0' + d) ≡ true = ground arith in
    let same : (b'0' + d) - b'0' ≡ d = omega arith in rw (is, same) refl

read_digits-decimal_from :
    (fuel n : ℕ) (t : Str)
    → n < fuel
    → (k : ℕ) × (read_digits 0 (decimal_from fuel n t) ≡ counted (suc k) (read_digits n t))
unfolding decimal_from
read_digits-decimal_from zero n t h = absurd (omega arith)
read_digits-decimal_from (suc fuel) n t h = elim (Bool-cases (ltb n 10)) [
  | inl small ↦
      let whole : 0 * 10 + n ≡ n = omega arith in
      (
        0,
        rw small (
            read_digits-digit 0 n t (ltb→lt n 10 small)
            ∙ ap (λ m. counted 1 (read_digits m t)) whole),
      )
  | inr large ↦
      let bound : 10 ≤ n = ground arith in
      let (k, reads) = read_digits-decimal_from fuel (n / 10) ((b'0' + n % 10) ∷ t) (omega arith) in
      let whole : n / 10 * 10 + n % 10 ≡ n = omega arith in
      (
        suc k,
        rw large (
            reads
            ∙ ap (counted (suc k)) (read_digits-digit (n / 10) (n % 10) t (omega arith))
            ∙ counted_twice k (read_digits (n / 10 * 10 + n % 10) t)
            ∙ ap (λ m. counted (suc (suc k)) (read_digits m t)) whole),
      )
]

-- The first digit: not '0', unless it is the only one.
decimal_from-leads :
    (fuel n : ℕ) (t : Str)
    → n < fuel
    → 0 < n
    → (c : ℕ) × (s : Str) × (decimal_from fuel n t ≡ c ∷ s) × (b'0' < c) × (c ≤ b'9')
unfolding decimal_from
decimal_from-leads zero n t h k = absurd (omega arith)
decimal_from-leads (suc fuel) n t h k = elim (Bool-cases (ltb n 10)) [
  | inl small ↦ (b'0' + n, t, rw small refl, omega arith, omega (arith, ltb→lt n 10 small))
  | inr large ↦
      let bound : 10 ≤ n = ground arith in
      rw large (decimal_from-leads fuel (n / 10) ((b'0' + n % 10) ∷ t) (omega arith) (omega arith))
]

read_digits-after : (n : ℕ) (t : Str) → is_after_number t ≡ true → read_digits n t ≡ (n, 0, t)
unfolding read_digits
read_digits-after n [] h = refl
read_digits-after n (c ∷ t) h = let ends : is_digit c ≡ false = ground arith in rw ends refl

after_whole-after :
    (negative : Bool) (start : Str) (n : ℕ) (t : Str)
    → is_after_number t ≡ true
    → after_whole negative start n t ≡ some (int (signed negative n), t)
unfolding after_whole after_places
after_whole-after negative start n [] h = let one : n * 1 ≡ n = omega arith in rw one refl
after_whole-after negative start n (c ∷ t) h =
    let one : n * 1 ≡ n = omega arith in
    let no_point : (c == b'.') ≡ false = ground arith in
    let no_power : (c == b'e' || c == b'E') ≡ false = ground arith in
    rw (one, no_point, no_power) refl

unsigned_of-read :
    (negative leading : Bool) (start : Str) (n count : ℕ) (t : Str)
    → is_after_number t ≡ true
    → 0 < count
    → (leading && ltb 1 count) ≡ false
    → unsigned_of negative leading start (n, count, t) ≡ some (int (signed negative n), t)
unfolding unsigned_of
unsigned_of-read negative leading start n count t h some_digits lone =
    let counts : (count == 0) ≡ false = ground arith in
    rw (counts, lone) (after_whole-after negative start n t h)

and_false : (a b : Bool) → a ≡ false → (a && b) ≡ false
and_false a b h = rw h refl

-- A natural number as it is printed, with its sign before it or not.
unsigned_of-decimal :
    (negative : Bool) (start : Str) (n : ℕ) (t : Str)
    → is_after_number t ≡ true
    → unsigned_of negative (leads_zero (decimal n ++ t)) start (read_digits 0 (decimal n ++ t))
      ≡ some (int (signed negative n), t)
unsigned_of-decimal negative start n t h = elim (Bool-cases (n == 0)) [
  | inl none_left ↦
      let zero_value : n ≡ 0 = ground arith in
      rw zero_value (
        unfold decimal decimal_from in
        rw (read_digits-digit 0 0 t (omega arith), read_digits-after 0 t h)
          (unsigned_of-read negative true start 0 1 t h (omega arith) refl))
  | inr more ↦
      let (k, reads) = read_digits-decimal_from (suc n) n t (omega arith) in
      let (c, s, leads, above, _) = decimal_from-leads (suc n) n t (omega arith) (ground arith) in
      let whole : decimal n ++ t ≡ decimal_from (suc n) n t =
        unfold decimal in decimal_append n t in
      let read : read_digits 0 (decimal n ++ t) ≡ (n, suc k + 0, t) =
        ap (read_digits 0) whole ∙ reads ∙ ap (counted (suc k)) (read_digits-after n t h) in
      let not_zero : leads_zero (decimal n ++ t) ≡ false =
        ap leads_zero (whole ∙ leads) ∙ (ground arith) in
      rw (read, not_zero)
        (unsigned_of-read negative false start n (suc k + 0) t h (omega arith)
          (and_false false (ltb 1 (suc k + 0)) refl))
]

decimal-leads :
    (n : ℕ) (t : Str) → (c : ℕ) × (s : Str) × (decimal n ++ t ≡ c ∷ s) × (b'0' ≤ c) × (c ≤ b'9')
decimal-leads n t = elim (Bool-cases (n == 0)) [
  | inl none_left ↦
      let zero_value : n ≡ 0 = ground arith in
      rw zero_value (b'0', t, unfold decimal decimal_from in refl, omega arith, omega arith)
  | inr more ↦
      let (c, s, leads, above, below) =
        decimal_from-leads (suc n) n t (omega arith) (ground arith) in
      let whole : decimal n ++ t ≡ decimal_from (suc n) n t =
        unfold decimal in decimal_append n t in
      (c, s, whole ∙ leads, omega arith, below)
]

read_number-digit :
    (u : Str) (c : ℕ) (s : Str)
    → u ≡ c ∷ s
    → b'0' ≤ c
    → read_number u ≡ unsigned_of false (leads_zero u) u (read_digits 0 u)
unfolding read_number
read_number-digit u c s h k =
    let no_sign : (c == b'-') ≡ false = ground arith in rw (h, no_sign) refl

neg-suc : (n : ℕ) → neg (pos (suc n)) ≡ negsuc n
neg-suc n = ground arith

-- An integer that was printed is read as it was, with whatever follows it left, unless that goes on.
pub read_number-decimal_ℤ :
    (z : ℤ) (t : Str)
    → is_after_number t ≡ true
    → (c : ℕ) × (s : Str) × (decimal_ℤ z ++ t ≡ c ∷ s)
      × ((c == b'-' || is_digit c) ≡ true)
      × (read_number (c ∷ s) ≡ some (int z, t))
read_number-decimal_ℤ (pos n) t h =
    let (c, s, leads, above, below) = decimal-leads n t in
    (
      c,
      s,
      leads,
      ground arith,
      ap read_number (sym leads)
          ∙ read_number-digit (decimal n ++ t) c s leads above
          ∙ unsigned_of-decimal false (decimal n ++ t) n t h,
    )
read_number-decimal_ℤ (negsuc n) t h = (
  b'-',
  decimal (suc n) ++ t,
  refl,
  refl,
  unfold read_number in
      unsigned_of-decimal true (codes "-" ++ (decimal (suc n) ++ t)) (suc n) t h
      ∙ ap (λ z. some (int z, t)) (neg-suc n),
)
