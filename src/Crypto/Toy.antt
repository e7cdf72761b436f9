-- ===== src/Crypto/Toy.antt =====
-- A concrete platform for the witnesses: the tag of a ciphertext is two numbers that code its key
-- and its additional data.
use fincrypt.Prelude.{
  ℕ, zero, suc, ◌+◌, ◌-◌, ◌*◌, ◌<◌, ◌≡◌, refl, sym, ap, ◌∙◌, Option, some, none, List, [], ◌∷◌,
  ◌++◌, map, arith, length, take, drop, leb, if◌then◌else◌, Bool-cases, inl, inr, ◌&&◌, str_eq,
  str_eq_refl, eq_of_str_eq, length-append, length-take, take-append, drop-append, take-append-drop,
}
use fincrypt.Crypto.Errors.{plain_error, Result, ok}
use fincrypt.Crypto.Platform.{Platform, IsBinding}

-- 2 ^ x * (2 * y + 1)
pair : ℕ → ℕ → ℕ
pair zero y = 2 * y + 1
pair (suc x) y = 2 * pair x y

pair_injective : (x y u v : ℕ) → pair x y ≡ pair u v → (x ≡ u) × (y ≡ v)
unfolding pair
pair_injective zero y zero v e = omega arith
pair_injective zero y (suc u) v e = absurd (omega arith)
pair_injective (suc x) y zero v e = absurd (omega arith)
pair_injective (suc x) y (suc u) v e = omega (arith, pair_injective x y u v (omega arith))

pair_pos : (x y : ℕ) → 0 < pair x y
unfolding pair
pair_pos zero y = omega arith
pair_pos (suc x) y = omega (arith, pair_pos x y)

number : List ℕ → ℕ
number [] = 0
number (x ∷ xs) = pair x (number xs)

number_injective : (xs ys : List ℕ) → number xs ≡ number ys → xs ≡ ys
unfolding number
number_injective [] [] e = refl
number_injective [] (y ∷ ys) e = absurd (omega (arith, pair_pos y (number ys)))
number_injective (x ∷ xs) [] e = absurd (omega (arith, pair_pos x (number xs)))
number_injective (x ∷ xs) (y ∷ ys) e =
    let (same, rest) = pair_injective x (number xs) y (number ys) e in
    cc (same, number_injective xs ys rest)

zeros : ℕ → List ℕ
zeros zero = []
zeros (suc n) = 0 ∷ zeros n

length-zeros : (n : ℕ) → length (zeros n) ≡ n
unfolding zeros
length-zeros zero = refl
length-zeros (suc n) = ap suc (length-zeros n)

abbrev tag : List ℕ → List ℕ → List ℕ
tag k a = number k ∷ number a ∷ zeros 14

length-tag : (k a : List ℕ) → length (tag k a) ≡ 16
length-tag k a = omega (arith, length-zeros 14)

pub seal : List ℕ → List ℕ → List ℕ → List ℕ → List ℕ
seal k n a p = p ++ tag k a

pub opened : List ℕ → List ℕ → List ℕ → List ℕ → Option (List ℕ)
opened k n a c =
    if str_eq (drop (length c - 16) c) (tag k a) then some (take (length c - 16) c) else none

pub length-seal : (k n a p : List ℕ) → length (seal k n a p) ≡ length p + 16
unfolding seal
length-seal k n a p = omega (arith, length-append p (tag k a), length-tag k a)

drop-seal : (k n a p : List ℕ) → drop (length (seal k n a p) - 16) (seal k n a p) ≡ tag k a
unfolding seal
drop-seal k n a p = drop-append _ p (tag k a) (omega (arith, length-seal k n a p))

take-seal : (k n a p : List ℕ) → take (length (seal k n a p) - 16) (seal k n a p) ≡ p
unfolding seal
take-seal k n a p = take-append _ p (tag k a) (omega (arith, length-seal k n a p))

pub opened-seal : (k n a p : List ℕ) → opened k n a (seal k n a p) ≡ some p
unfolding opened
opened-seal k n a p = rw drop-seal (rw (str_eq_refl (tag k a)) (ap some (take-seal k n a p)))

pub opened_sound : (k n a c p : List ℕ) → opened k n a c ≡ some p → c ≡ seal k n a p
unfolding opened seal
opened_sound k n a c p h = elim (Bool-cases (str_eq (drop (length c - 16) c) (tag k a))) [
  | inl same ↦
      let front : take (length c - 16) c ≡ p = ground arith in
      sym (take-append-drop (length c - 16) c) ∙ rw (front, eq_of_str_eq _ _ same) refl
  | inr other ↦ absurd (ground arith)
]

same_tag :
    (k k' n a a' p p' : List ℕ)
    → seal k n a p ≡ seal k' n a' p'
    → (number k ≡ number k') × (number a ≡ number a')
unfolding seal
same_tag k k' n a a' p p' e =
    let even : length p' ≡ length p = omega (
      arith,
      ap length e,
      length-append p (tag k a),
      length-append p' (tag k' a'),
      length-tag k a,
      length-tag k' a',
    ) in
    let tags : tag k a ≡ tag k' a' =
      sym (drop-append (length p) p (tag k a) refl)
      ∙ ap (drop (length p)) e
      ∙ drop-append (length p) p' (tag k' a') even in
    (cc tags, cc tags)

-- ASCII letters only.
pub lower : ℕ → ℕ
lower c = if leb b'A' c && leb c b'Z' then c + 32 else c

stretch : ℕ → List ℕ → List ℕ
stretch n xs = take n (xs ++ zeros n)

length-stretch : (n : ℕ) (xs : List ℕ) → length (stretch n xs) ≡ n
unfolding stretch
length-stretch n xs =
    omega (arith, length-take n (xs ++ zeros n), length-append xs (zeros n), length-zeros n)

pub toy_hkdf : List ℕ → List ℕ → List ℕ → ℕ → List ℕ
toy_hkdf ikm salt info n = stretch n (length info ∷ ikm)

pub toy_argon : List ℕ → List ℕ → ℕ → ℕ → ℕ → Result (List ℕ)
toy_argon pass salt t p m = ok (stretch 32 (t ∷ p ∷ pass))

pub length-toy_hkdf : (ikm salt info : List ℕ) (n : ℕ) → length (toy_hkdf ikm salt info n) ≡ n
unfolding toy_hkdf
length-toy_hkdf ikm salt info n = length-stretch n _

pub length-toy_argon :
    (pass salt : List ℕ) (t p m : ℕ) (bytes : List ℕ)
    → toy_argon pass salt t p m ≡ ok bytes
    → length bytes ≡ 32
unfolding toy_argon
length-toy_argon pass salt t p m bytes h =
    let same : stretch 32 (t ∷ p ∷ pass) ≡ bytes = cc in sym (ap length same) ∙ length-stretch 32 _

unfoldable pub toy : Platform
unfolding seal opened toy_hkdf toy_argon stretch zeros number pair lower
toy = record {
  CryptoKey = List ℕ;
  import_key = λ raw. raw;
  gcm_seal = seal;
  gcm_open = opened;
  length-gcm_seal = length-seal;
  gcm_open-gcm_seal = opened-seal;
  gcm_open_sound = opened_sound;
  utf8 = λ s. s;
  utf8_injective = λ s t _ _ e. e;
  utf8_nonempty = λ s h. h;
  nfkd = λ s. s;
  to_lower = map lower;
  hkdf_sha256 = toy_hkdf;
  length-hkdf_sha256 = length-toy_hkdf;
  argon2id = toy_argon;
  length-argon2id = length-toy_argon;
  argon2id_rejects = plain_error [];
  validate_mnemonic = λ s. some (leb 1 (length s));
  mnemonic_to_seed = λ s. s;
}

pub toy-IsBinding : IsBinding toy
unfolding toy
toy-IsBinding = record {
  same_key = λ k k' n a a' p p' e. number_injective k k' (same_tag k k' n a a' p p' e).0;
  same_aad = λ k k' n a a' p p' e. number_injective a a' (same_tag k k' n a a' p p' e).1;
}
