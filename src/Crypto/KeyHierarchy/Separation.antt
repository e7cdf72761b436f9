-- ===== src/Crypto/KeyHierarchy/Separation.antt =====
-- web/src/crypto/keyHierarchy.ts.
-- The additional data of wraps: which user and kind they name, and that no record has them.
use fincrypt.Prelude.{
  subst, ℕ, ◌≡◌, ◌≢◌, ap, refl, sym, ◌∙◌, true, false, [], ◌∷◌, ◌++◌, arith, Str, codes, drop,
  includes, separator_injective, is_well_formed, is_well_formed-append,
}
use mathlib.Core.List.{append_cancel_right}
use fincrypt.Crypto.Errors.{ok}
use fincrypt.Crypto.Platform.{Platform}
use fincrypt.Crypto.Aead.{RecordType, type_name, aad_text, build_aad}
use fincrypt.Crypto.Aead.Binding.{build_aad-inverse, well_formed-aad_text}
use fincrypt.Crypto.KeyHierarchy.{
  WrapKind, wrapped_dek, wrapped_dek_recovery, kind_name, wrap_aad_text, wrap_aad,
}

last_or : ℕ → Str → ℕ
last_or d [] = d
last_or d (c ∷ s) = last_or c s

last_or-append : (d c : ℕ) (s t : Str) → last_or d (s ++ c ∷ t) ≡ last_or c t
unfolding last_or
last_or-append d c [] t = refl
last_or-append d c (a ∷ s) t = last_or-append a c s t

last_or-wrap_aad_text :
    (user : Str) (kind : WrapKind)
    → last_or 0 (wrap_aad_text user kind) ≡ last_or 0 (kind_name kind)
unfolding last_or
last_or-wrap_aad_text user wrapped_dek = last_or-append b'|' b'|' user (kind_name wrapped_dek)
last_or-wrap_aad_text user wrapped_dek_recovery =
    last_or-append b'|' b'|' user (kind_name wrapped_dek_recovery)

kind_of_last : (k k' : WrapKind) → last_or 0 (kind_name k) ≡ last_or 0 (kind_name k') → k ≡ k'
unfolding last_or
kind_of_last k k' e = ground arith

-- The texts of two wraps agree only for one user and one kind, also where a user id holds bars.
wrap_aad_text_injective :
    (user user' : Str) (kind kind' : WrapKind)
    → wrap_aad_text user kind ≡ wrap_aad_text user' kind'
    → (user ≡ user') × (kind ≡ kind')
wrap_aad_text_injective user user' kind kind' e =
    let kinds = kind_of_last kind kind' (
      sym (last_or-wrap_aad_text user kind)
      ∙ ap (last_or 0) e
      ∙ last_or-wrap_aad_text user' kind') in
    let tails =
      subst (λ k. user ++ (codes "|" ++ kind_name kind) ≡ user' ++ (codes "|" ++ kind_name k))
        (sym kinds) (ap (drop 3) e) in
    (append_cancel_right user user' (codes "|" ++ kind_name kind) tails, kinds)

well_formed-kind_name : (kind : WrapKind) → is_well_formed (codes "|" ++ kind_name kind) ≡ true
unfolding is_well_formed
well_formed-kind_name kind = ground arith

well_formed-wrap_aad_text :
    (user : Str) (kind : WrapKind)
    → is_well_formed user ≡ true
    → is_well_formed (wrap_aad_text user kind) ≡ true
well_formed-wrap_aad_text user kind h =
    is_well_formed-append (codes "v1|") _ (unfold is_well_formed in refl)
      (is_well_formed-append user _ h (well_formed-kind_name kind))

bar-in-tail :
    (type : RecordType) (id : Str) → includes b'|' (type_name type ++ (codes "|" ++ id)) ≡ true
unfolding includes
bar-in-tail type id = ground arith

no_bar-kind_name : (kind : WrapKind) → includes b'|' (kind_name kind) ≡ false
unfolding includes
no_bar-kind_name kind = ground arith

module _ (P : Platform) where
  open P use {utf8_injective}

  -- The additional data of two wraps is the same only for one user and one kind, if the user ids
  -- hold no lone surrogate; bars in the ids make no difference.
  pub wrap_aad_injective :
      (user user' : Str) (kind kind' : WrapKind)
      → is_well_formed user ≡ true
      → is_well_formed user' ≡ true
      → wrap_aad P user kind ≡ wrap_aad P user' kind'
      → (user ≡ user') × (kind ≡ kind')
  wrap_aad_injective user user' kind kind' h h' e = wrap_aad_text_injective user user' kind kind' (
      utf8_injective _ _ (well_formed-wrap_aad_text user kind h)
        (well_formed-wrap_aad_text user' kind' h') e)

  -- No record's additional data is a wrap's, if the wrap's user id holds no bar and neither a user id
  -- nor the record id holds a lone surrogate.
  pub build_aad-ne-wrap_aad :
      (user user' : Str) (type : RecordType) (id : Str) (kind : WrapKind)
      → is_well_formed user ≡ true
      → is_well_formed user' ≡ true
      → is_well_formed id ≡ true
      → includes b'|' user' ≡ false
      → build_aad P user type id ≢ ok (wrap_aad P user' kind)
  build_aad-ne-wrap_aad user user' type id kind wu wu' wi plain' h =
      let (made, plain, _, _, _) = build_aad-inverse P user type id (wrap_aad P user' kind) h in
      let texts =
        utf8_injective (wrap_aad_text user' kind) (aad_text user type id)
          (well_formed-wrap_aad_text user' kind wu') (well_formed-aad_text user type id wu wi)
          made in
      let tails = (separator_injective b'|' user' user _ _ plain' plain (ap (drop 3) texts)).1 in
      let bars = ap (includes b'|') tails in cc (bar-in-tail type id, no_bar-kind_name kind)
