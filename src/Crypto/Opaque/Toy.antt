-- ===== src/Crypto/Opaque/Toy.antt =====
-- A package for the witnesses: the record is the password, and the server's answer to a login holds it.
use fincrypt.Prelude.{
  Option, none, some, [], ◌∷◌, Str, str_eq, str_eq_refl, eq_of_str_eq, if◌then◌else◌, refl, ◌≡◌,
  sym, ap, ◌≢◌, false, Bool-cases, inl, inr,
}
use fincrypt.Crypto.Errors.{Result, ok, ok-injective}
use fincrypt.Crypto.Opaque.{Opaque, IsOpaque, LoginKeys}

abbrev pub keys_of : Str → LoginKeys
keys_of password = record {
  finish_login_request = [];
  export_key = password;
  session_key = [];
  server_static_public_key = [];
}

abbrev pub challenge : Option Str → Str
challenge none = []
challenge (some stored) = 0 ∷ stored

abbrev pub concluded : Str → Str → Option LoginKeys
concluded (mark ∷ stored) password =
    if str_eq stored password then some (keys_of password) else none
concluded _ password = none

abbrev pub toy_opaque : Opaque
toy_opaque = record {
  start_registration = λ coins password. (password, coins);
  finish_registration = λ state response password. ok (password, password);
  start_login = λ coins password. (password, coins);
  finish_login = λ state response password. ok (concluded response password);
  create_registration_response = λ setup user request. ok user;
  respond_login = λ setup stored user request. ok (some (challenge stored));
}

concluded_known :
    (password stored key : Str)
    → ◌≡◌ {A = Result (Str × Str)} (ok (password, password)) (ok (stored, key))
    → (stored ≡ password) × (key ≡ password)
concluded_known password stored key h =
    let same : ◌≡◌ {A = Str × Str} (password, password) (stored, key) = ok-injective _ _ h in
    (sym (ap (λ (x : Str × Str). x.0) same), sym (ap (λ (x : Str × Str). x.1) same))

concluded_other : (password other : Str) → other ≢ password → str_eq password other ≡ false
concluded_other password other differs = elim (Bool-cases (str_eq password other)) [
  | inl same ↦ absurd (differs (sym (eq_of_str_eq password other same)))
  | inr distinct ↦ distinct
]

pub toy_opaque-IsOpaque : IsOpaque toy_opaque
toy_opaque-IsOpaque = record {
  response_of = λ setup user coins password. user;
  registers = λ setup user coins password. refl;
  challenge_of = λ setup stored user request. challenge stored;
  challenges = λ setup stored user request. refl;
  logs_in = λ setup user coins coins' password stored key h.
      let (same, its) = concluded_known password stored key h in
      (keys_of password, rw (same, str_eq_refl password) refl, sym its);
  rejects = λ setup user coins coins' password other stored key h differs.
      let (same, its) = concluded_known password stored key h in
      rw (same, concluded_other password other differs) refl;
  rejects_fake = λ setup user coins password. refl;
}
