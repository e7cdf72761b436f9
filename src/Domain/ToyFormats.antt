-- ===== src/Domain/ToyFormats.antt =====
-- Formats for the witnesses: base64 shifts the codes.
use fincrypt.Prelude.{
  ℕ, ◌+◌, ◌-◌, ◌≡◌, refl, sym, subst, ◌∙◌, ap, false, [], ◌∷◌, Str, map, includes, arith,
}
use fincrypt.Crypto.Errors.{ok, ok-injective}
use fincrypt.Crypto.Toy.{toy}
use fincrypt.Domain.Formats.{Formats}

abbrev pub shift : ℕ → ℕ
shift c = c + 128

abbrev pub shift_back : ℕ → ℕ
shift_back c = c - 128

pub shift_round : (s : Str) → map shift_back (map shift s) ≡ s
shift_round [] = refl
shift_round (c ∷ s) = ground (arith, shift_round s)

pub includes-shift :
    (s : Str) → (includes b'-' (map shift s) ≡ false) × (includes b'_' (map shift s) ≡ false)
unfolding includes
includes-shift [] = (refl, refl)
includes-shift (c ∷ s) = ground (arith, includes-shift s)

unfoldable pub toy_formats : Formats toy
unfolding toy
toy_formats = record {
  utf8_decode = λ s. s;
  utf8_decode-utf8 = λ s h. refl;
  btoa = λ s. ok (map shift s);
  atob = λ s. ok (map shift_back s);
  atob-btoa = λ s b h.
      ap (λ x. ok (map shift_back x)) (sym (ok-injective (map shift s) b h))
      ∙ ap ok (shift_round s);
  includes-btoa = λ s b h.
      subst (λ x. (includes b'-' x ≡ false) × (includes b'_' x ≡ false))
        (ok-injective (map shift s) b h) (includes-shift s);
}
