-- ===== src/Crypto/Recovery/Indices.antt =====
-- web/src/crypto/recovery.ts.
-- `pickConfirmIndices`: a Fisher–Yates shuffle of 0 … 11. The injected source of randomness is the
-- function `draw`: `draw i` is `Math.floor(rng() * (i + 1))` of the round `i`, any integer.
use Prim.Native.Nat.{min}
use fincrypt.Prelude.{
  ℕ, zero, suc, ◌+◌, ◌<◌, ◌≡◌, ◌≢◌, refl, sym, ap, ◌∙◌, inl, inr, List, [], ◌∷◌, some, arith,
  length, get_elem?, get_or, set, length-set, Bool-cases, ◌==◌, if◌then◌else◌, get_elem?-set_self,
  get_elem?-set_ne, get_elem?-get_or, ==_iff, ℤ, pos_part,
}

abbrev swap : List ℕ → ℕ → ℕ → List ℕ
swap xs i j = set (set xs i (get_or xs j 0)) j (get_or xs i 0)

-- Math.min(Math.max(j, 0), i)
abbrev capped : ℤ → ℕ → ℕ
capped j i = min (pos_part j) i

-- for (let i = …; i > 0; i--)
shuffle_from : (ℕ → ℤ) → ℕ → List ℕ → List ℕ
shuffle_from draw zero indices = indices
shuffle_from draw (suc i) indices =
    shuffle_from draw i (swap indices (suc i) (capped (draw (suc i)) (suc i)))

abbrev all_indices : List ℕ
all_indices = 0 ∷ 1 ∷ 2 ∷ 3 ∷ 4 ∷ 5 ∷ 6 ∷ 7 ∷ 8 ∷ 9 ∷ 10 ∷ 11 ∷ []

unfoldable pub pick_confirm_indices : (ℕ → ℤ) → ℕ × ℕ × ℕ
unfolding shuffle_from
pick_confirm_indices draw =
    let indices = shuffle_from draw 11 all_indices in
    (get_or indices 0 0, get_or indices 1 0, get_or indices 2 0)

-- Where the swap takes the value at `k` from.
abbrev source : ℕ → ℕ → ℕ → ℕ
source i j k = if k == j then i else if k == i then j else k

get_elem?-swap :
    (xs : List ℕ) (i j k : ℕ)
    → i < length xs
    → j < length xs
    → get_elem? (swap xs i j) k ≡ get_elem? xs (source i j k)
get_elem?-swap xs i j k hi hj = elim (Bool-cases (k == j)) [
  | inl e ↦ rw e (
      rw ((==_iff k j).0 e) (
        get_elem?-set_self (set xs i (get_or xs j 0)) j (get_or xs i 0)
          (omega (arith, length-set xs i (get_or xs j 0)))
        ∙ sym (get_elem?-get_or xs i 0 hi)))
  | inr ne ↦
      get_elem?-set_ne (set xs i (get_or xs j 0)) (get_or xs i 0)
        (λ e. cc (ne, (==_iff k j).1 (sym e)))
      ∙ elim (Bool-cases (k == i)) [
        | inl e ↦
            rw (ne, e)
              (rw ((==_iff k i).0 e)
                (get_elem?-set_self xs i (get_or xs j 0) hi ∙ sym (get_elem?-get_or xs j 0 hj)))
        | inr other ↦
            rw (ne, other)
              (get_elem?-set_ne xs (get_or xs j 0) (λ e. cc (other, (==_iff k i).1 (sym e))))
      ]
]

source_injective : (i j a b : ℕ) → source i j a ≡ source i j b → a ≡ b
source_injective i j a b e = ground arith

-- Twelve different indices below 12.
record IsShuffle (xs : List ℕ) : Type 0 where
  size : length xs ≡ 12
  distinct : (a b v : ℕ) → get_elem? xs a ≡ some v → get_elem? xs b ≡ some v → a ≡ b
  below : (a v : ℕ) → get_elem? xs a ≡ some v → v < 12

swap-IsShuffle : (xs : List ℕ) (i j : ℕ) → i < 12 → j < 12 → IsShuffle xs → IsShuffle (swap xs i j)
swap-IsShuffle xs i j hi hj h =
    let gi : i < length xs = omega (arith, h.size) in
    let gj : j < length xs = omega (arith, h.size) in
    record {
      size = length-set _ j _ ∙ length-set xs i _ ∙ h.size;
      distinct = λ a b v p q. source_injective i j a b (
          h.distinct (source i j a) (source i j b) v (sym (get_elem?-swap xs i j a gi gj) ∙ p)
            (sym (get_elem?-swap xs i j b gi gj) ∙ q));
      below = λ a v p. h.below (source i j a) v (sym (get_elem?-swap xs i j a gi gj) ∙ p);
    }

shuffle_from-IsShuffle :
    (draw : ℕ → ℤ) (i : ℕ) (xs : List ℕ)
    → i < 12
    → IsShuffle xs
    → IsShuffle (shuffle_from draw i xs)
unfolding shuffle_from
shuffle_from-IsShuffle draw zero xs hi h = h
shuffle_from-IsShuffle draw (suc i) xs hi h =
    shuffle_from-IsShuffle draw i _ (omega arith)
      (swap-IsShuffle xs (suc i) (capped (draw (suc i)) (suc i)) hi (omega arith) h)

abbrev CountsFrom : ℕ → List ℕ → Type 0
CountsFrom n [] = Unit
CountsFrom n (x ∷ xs) = (x ≡ n) × CountsFrom (suc n) xs

get_elem?-CountsFrom :
    (n a v : ℕ) (xs : List ℕ)
    → CountsFrom n xs
    → get_elem? xs a ≡ some v
    → (v ≡ n + a) × (a < length xs)
get_elem?-CountsFrom n a v [] h e = cc
get_elem?-CountsFrom n zero v (x ∷ xs) h e = ground arith
get_elem?-CountsFrom n (suc a) v (x ∷ xs) h e =
    omega (arith, get_elem?-CountsFrom (suc n) a v xs h.1 e)

all_indices-IsShuffle : IsShuffle all_indices
all_indices-IsShuffle =
    let counts : CountsFrom 0 all_indices = omega arith in
    let at = λ (a v : ℕ). get_elem?-CountsFrom 0 a v all_indices counts in
    record {
      size = refl;
      distinct = λ a b v p q. omega (arith, at a v p, at b v q);
      below = λ a v p. omega (arith, at a v p);
    }

-- Whatever integers the source of randomness gives, the three indices to confirm are different and
-- below 12.
pub pick_confirm_indices_lem :
    (draw : ℕ → ℤ)
    → let (a, b, c) = pick_confirm_indices draw in
      (a < 12) × (b < 12) × (c < 12) × (a ≢ b) × (a ≢ c) × (b ≢ c)
unfolding pick_confirm_indices
pick_confirm_indices_lem draw =
    let xs = shuffle_from draw 11 all_indices in
    let h = shuffle_from-IsShuffle draw 11 all_indices (omega arith) all_indices-IsShuffle in
    let first = get_elem?-get_or xs 0 0 (omega (arith, h.size)) in
    let second = get_elem?-get_or xs 1 0 (omega (arith, h.size)) in
    let third = get_elem?-get_or xs 2 0 (omega (arith, h.size)) in
    (
      h.below 0 _ first,
      h.below 1 _ second,
      h.below 2 _ third,
      λ e. absurd (omega (arith, h.distinct 0 1 _ first (second ∙ ap some (sym e)))),
      λ e. absurd (omega (arith, h.distinct 0 2 _ first (third ∙ ap some (sym e)))),
      λ e. absurd (omega (arith, h.distinct 1 2 _ second (third ∙ ap some (sym e)))),
    )
