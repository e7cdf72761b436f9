-- ===== src/Prelude/Maps.antt =====
-- A JavaScript `Map` with text keys, as its entries in insertion order; and a stable sort.
use Prim.Native.Nat.{ℕ, ◌+◌}
use mathlib.Core.Path.{◌≡◌, refl, sym, ap}
use mathlib.Core.Logic.{◌⊎◌, inl, inr}
use mathlib.Core.Bool.{Bool}
use mathlib.Core.Option.{Option, none, some}
use mathlib.Core.List.{List, [], ◌∷◌}
use native.Mathlib.Omega.{arith}
use fincrypt.Prelude.Tests.{if◌then◌else◌, Bool-cases}
use fincrypt.Prelude.Text.{Str, str_eq, str_eq_iff, str_eq_refl, eq_of_str_eq}
use fincrypt.Prelude.Members.{Member}

module _ {E : Type 0} where
  unfoldable pub lookup : Str → List (Str × E) → Option E
  lookup k [] = none
  lookup k ((j, e) ∷ m) = if str_eq j k then some e else lookup k m

  -- `m.set(k, f(m.get(k)))`
  unfoldable pub upsert : (Option E → E) → Str → List (Str × E) → List (Str × E)
  upsert f k [] = (k, f none) ∷ []
  upsert f k ((j, e) ∷ m) = if str_eq j k then (j, f (some e)) ∷ m else (j, e) ∷ upsert f k m

  abbrev pub values : List (Str × E) → List E
  values [] = []
  values ((k, e) ∷ m) = e ∷ values m

  pub lookup-upsert :
      (f : Option E → E) (k j : Str) (m : List (Str × E))
      → lookup j (upsert f k m) ≡ (if str_eq k j then some (f (lookup k m)) else lookup j m)
  unfolding lookup upsert
  lookup-upsert f k j [] = refl
  lookup-upsert f k j ((i, e) ∷ m) =
      ground (arith, lookup-upsert f k j m, str_eq_iff k j, str_eq_iff i k, str_eq_iff i j)

  -- Each key stands once.
  abbrev pub HasUniqueKeys : List (Str × E) → Type 0
  HasUniqueKeys [] = Unit
  HasUniqueKeys ((k, e) ∷ m) = (lookup k m ≡ none) × HasUniqueKeys m

  pub upsert-HasUniqueKeys :
      (f : Option E → E) (k : Str) (m : List (Str × E))
      → HasUniqueKeys m
      → HasUniqueKeys (upsert f k m)
  unfolding upsert
  upsert-HasUniqueKeys f k [] h = (unfold lookup in refl, tt)
  upsert-HasUniqueKeys f k ((j, e) ∷ m) (fresh, h) = elim (Bool-cases (str_eq j k)) [
    | inl same ↦ rw same (fresh, h)
    | inr other ↦ rw other (
      ground (arith, lookup-upsert f k j m, str_eq_iff k j, str_eq_iff j k),
      upsert-HasUniqueKeys f k m h,
    )
  ]

  -- A value is found under some key.
  pub lookup-of_values :
      (e : E) (m : List (Str × E))
      → HasUniqueKeys m
      → Member e (values m)
      → (k : Str) × (lookup k m ≡ some e)
  unfolding lookup
  lookup-of_values e [] h there = absurd there
  lookup-of_values e ((k, x) ∷ m) (fresh, h) (inl same) =
      (k, rw (str_eq_refl k) (ap some (sym same)))
  lookup-of_values e ((k, x) ∷ m) (fresh, h) (inr there) =
      let (j, found) = lookup-of_values e m h there in (j, ground (arith, eq_of_str_eq k j))

  pub values-of_lookup :
      (k : Str) (e : E) (m : List (Str × E)) → lookup k m ≡ some e → Member e (values m)
  unfolding lookup
  values-of_lookup k e [] found = absurd (cc)
  values-of_lookup k e ((j, x) ∷ m) found = elim (Bool-cases (str_eq j k)) [
    | inl same ↦ inl (ground arith)
    | inr other ↦ inr (values-of_lookup k e m (ground arith))
  ]

abbrev pub sum_by {ℓ} : {A : Type ℓ} → (A → ℕ) → List A → ℕ
sum_by f [] = 0
sum_by f (x ∷ xs) = f x + sum_by f xs

-- A field of the entries, added up over a map, grows by what it grows by under the one key.
pub sum-upsert :
    {E : Type 0} (part : E → ℕ) (f : Option E → E) (d : ℕ)
    → part (f none) ≡ d
    → ((e : E) → part (f (some e)) ≡ part e + d)
    → (k : Str) (m : List (Str × E))
    → sum_by part (values (upsert f k m)) ≡ sum_by part (values m) + d
unfolding upsert
sum-upsert part f d first next k [] = omega arith
sum-upsert part f d first next k ((j, e) ∷ m) =
    ground (arith, sum-upsert part f d first next k m, next e)

-- A stable sort: `later a b` says that `a` has to stand behind `b`.
module _ {A : Type 0} (later : A → A → Bool) where
  pub insert : A → List A → List A
  insert a [] = a ∷ []
  insert a (b ∷ bs) = if later a b then b ∷ insert a bs else a ∷ b ∷ bs

  unfoldable pub sort : List A → List A
  unfolding insert
  sort [] = []
  sort (a ∷ as') = insert a (sort as')

  pub sum-insert : (f : A → ℕ) (a : A) (bs : List A) → sum_by f (insert a bs) ≡ f a + sum_by f bs
  unfolding insert
  sum-insert f a [] = refl
  sum-insert f a (b ∷ bs) = ground (arith, sum-insert f a bs)

  pub sum-sort : (f : A → ℕ) (xs : List A) → sum_by f (sort xs) ≡ sum_by f xs
  unfolding sort
  sum-sort f [] = refl
  sum-sort f (x ∷ xs) = omega (arith, sum-insert f x (sort xs), sum-sort f xs)

  Member-insert : (e a : A) (bs : List A) → Member e (insert a bs) → (e ≡ a) ⊎ Member e bs
  unfolding insert
  Member-insert e a [] m = m
  Member-insert e a (b ∷ bs) m = elim (Bool-cases (later a b)) [
    | inl behind ↦
        let m' : (e ≡ b) ⊎ Member e (insert a bs) = rw behind at m in
        elim m' [
          | inl here ↦ inr (inl here)
          | inr there ↦ elim (Member-insert e a bs there) [
            | inl it ↦ inl it
            | inr old ↦ inr (inr old)
          ]
        ]
    | inr before ↦ rw before at m
  ]

  pub Member-of-sort : (e : A) (xs : List A) → Member e (sort xs) → Member e xs
  unfolding sort
  Member-of-sort e [] m = m
  Member-of-sort e (x ∷ xs) m = elim (Member-insert e x (sort xs) m) [
    | inl here ↦ inl here
    | inr there ↦ inr (Member-of-sort e xs there)
  ]

  Member-insert_self : (a : A) (bs : List A) → Member a (insert a bs)
  unfolding insert
  Member-insert_self a [] = inl refl
  Member-insert_self a (b ∷ bs) = elim (Bool-cases (later a b)) [
    | inl behind ↦ rw behind (inr (Member-insert_self a bs))
    | inr before ↦ rw before (inl refl)
  ]

  Member-insert_old : (e a : A) (bs : List A) → Member e bs → Member e (insert a bs)
  unfolding insert
  Member-insert_old e a [] m = absurd m
  Member-insert_old e a (b ∷ bs) m = elim (Bool-cases (later a b)) [
    | inl behind ↦
        rw behind
          (elim m [ inl here ↦ inl here | inr there ↦ inr (Member-insert_old e a bs there) ])
    | inr before ↦ rw before (inr m)
  ]

  pub Member-sort : (e : A) (xs : List A) → Member e xs → Member e (sort xs)
  unfolding sort
  Member-sort e [] m = m
  Member-sort e (x ∷ xs) (inl here) = rw here (Member-insert_self x (sort xs))
  Member-sort e (x ∷ xs) (inr there) = Member-insert_old e x (sort xs) (Member-sort e xs there)
