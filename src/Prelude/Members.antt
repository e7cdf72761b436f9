-- ===== src/Prelude/Members.antt =====
-- Membership by recursion: it computes to sums, which the tactics take apart.
use mathlib.Core.Path.{◌≡◌, refl}
use mathlib.Core.Logic.{◌⊎◌, inl, inr}
use mathlib.Core.Bool.{Bool, true}
use mathlib.Core.List.{List, [], ◌∷◌, ◌++◌, map}
use native.Mathlib.Omega.{arith}
use fincrypt.Prelude.Lists.{length}
use fincrypt.Prelude.Tests.{Bool-cases, if◌then◌else◌}

module _ {A : Type 0} where
  abbrev pub Member : A → List A → Type 0
  Member a [] = ⊥
  Member a (x ∷ xs) = (a ≡ x) ⊎ Member a xs

  pub Member-append_left : (a : A) (xs ys : List A) → Member a xs → Member a (xs ++ ys)
  Member-append_left a [] ys m = absurd m
  Member-append_left a (x ∷ xs) ys (inl e) = inl e
  Member-append_left a (x ∷ xs) ys (inr m) = inr (Member-append_left a xs ys m)

  pub Member-append_right : (a : A) (xs ys : List A) → Member a ys → Member a (xs ++ ys)
  Member-append_right a [] ys m = m
  Member-append_right a (x ∷ xs) ys m = inr (Member-append_right a xs ys m)

  pub Member-append_cases :
      (a : A) (xs ys : List A) → Member a (xs ++ ys) → Member a xs ⊎ Member a ys
  Member-append_cases a [] ys m = inr m
  Member-append_cases a (x ∷ xs) ys (inl e) = inl (inl e)
  Member-append_cases a (x ∷ xs) ys (inr m) = elim (Member-append_cases a xs ys m) [
    | inl l ↦ inl (inr l)
    | inr r ↦ inr r
  ]

  -- The elements that pass a test, in order.
  abbrev pub keep_if : (A → Bool) → List A → List A
  keep_if p [] = []
  keep_if p (x ∷ xs) = if p x then x ∷ keep_if p xs else keep_if p xs

  pub Member-keep_if :
      (p : A → Bool) (a : A) (xs : List A) → Member a xs → p a ≡ true → Member a (keep_if p xs)
  Member-keep_if p a [] m h = m
  Member-keep_if p a (x ∷ xs) (inl e) h = rw (← e) (rw h (inl refl))
  Member-keep_if p a (x ∷ xs) (inr m) h = elim (Bool-cases (p x)) [
    | inl kept ↦ rw kept (inr (Member-keep_if p a xs m h))
    | inr dropped ↦ rw dropped (Member-keep_if p a xs m h)
  ]

  pub Member-of-keep_if :
      (p : A → Bool) (a : A) (xs : List A) → Member a (keep_if p xs) → Member a xs × (p a ≡ true)
  Member-of-keep_if p a [] m = absurd m
  Member-of-keep_if p a (x ∷ xs) m = elim (Bool-cases (p x)) [
    | inl kept ↦
        let m' : (a ≡ x) ⊎ Member a (keep_if p xs) = rw kept at m in
        elim m' [
          | inl e ↦ (inl e, rw e kept)
          | inr n ↦ let (there, passes) = Member-of-keep_if p a xs n in (inr there, passes)
        ]
    | inr dropped ↦
        let (there, passes) = Member-of-keep_if p a xs (rw dropped at m) in (inr there, passes)
  ]

pub Member-of-map :
    {A B : Type 0} (f : A → B) (y : B) (xs : List A)
    → Member y (map f xs)
    → (x : A) × Member x xs × (y ≡ f x)
Member-of-map f y [] there = absurd there
Member-of-map f y (x ∷ xs) (inl here) = (x, inl refl, here)
Member-of-map f y (x ∷ xs) (inr there) =
    let (z, in_xs, same) = Member-of-map f y xs there in (z, inr in_xs, same)

pub length-map {ℓ κ} :
    {A : Type ℓ} {B : Type κ} (f : A → B) (xs : List A) → length (map f xs) ≡ length xs
length-map f [] = refl
length-map f (x ∷ xs) = omega (arith, length-map f xs)
