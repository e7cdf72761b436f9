-- ===== src/Pages/Confirmation.antt =====
-- web/src/components/RecoveryPhraseModal.tsx: the words that the user has to enter again.
use fincrypt.Prelude.{
  arith, ℕ, suc, Bool, true, not, List, [], ◌∷◌, ◌++◌, Str, codes, trim, length, ltb, ◌==◌, ◌&&◌,
  str_eq, str_eq_iff, eq_of_str_eq, keep_if, decimal, get_or, All, ◌≡◌, ◌↔◌, refl, if◌then◌else◌,
  inl, inr, Bool-cases,
}
use fincrypt.Crypto.Platform.{Platform}

-- `Record<number, string>`: what stands in the input of a word.
abbrev pub Inputs : Type 0
Inputs = List (ℕ × Str)

-- inputs[i] ?? ''
pub input_at : ℕ → Inputs → Str
input_at i [] = []
input_at i ((j, v) ∷ inputs) = if j == i then v else input_at i inputs

-- { ...prev, [i]: value }
abbrev pub set_input : ℕ → Str → Inputs → Inputs
set_input i v inputs = (i, v) ∷ inputs

-- How `confirm` ends: `onConfirmed()`, or the message of `setError`.
pub data Confirmed : Type 0 where
  accepted : Confirmed
  rejected : Str → Confirmed

abbrev pub mismatch : ℕ → Str
mismatch i = codes "Some words do not match — check word " ++ (decimal (suc i) ++ codes ".")

abbrev pub verdict : List ℕ → Confirmed
verdict [] = accepted
verdict (i ∷ wrong) = rejected (mismatch i)

-- allFilled
unfoldable pub all_filled : Inputs → List ℕ → Bool
unfolding input_at
all_filled inputs [] = true
all_filled inputs (i ∷ indices) =
    ltb 0 (length (trim (input_at i inputs))) && all_filled inputs indices

module _ (P : Platform) where
  open P use {to_lower}

  abbrev pub entered : Inputs → ℕ → Str
  entered inputs i = to_lower (trim (input_at i inputs))

  -- (phrase[i] ?? '').toLowerCase()
  abbrev pub expected : List Str → ℕ → Str
  expected phrase i = to_lower (get_or phrase i [])

  abbrev pub is_wrong : List Str → Inputs → ℕ → Bool
  is_wrong phrase inputs i = not (str_eq (entered inputs i) (expected phrase i))

  unfoldable pub confirm : List Str → List ℕ → Inputs → Confirmed
  unfolding input_at
  confirm phrase indices inputs = verdict (keep_if (is_wrong phrase inputs) indices)

  -- `confirm` accepts exactly if every asked word, without space around it and in lower case, is the
  -- word of the phrase in lower case.
  pub confirm-eq_accepted :
      (phrase : List Str) (indices : List ℕ) (inputs : Inputs)
      → (confirm phrase indices inputs ≡ accepted)
        ↔ All (λ i. entered inputs i ≡ expected phrase i) indices
  unfolding confirm
  confirm-eq_accepted phrase [] inputs = (λ h. tt, λ h. refl)
  confirm-eq_accepted phrase (i ∷ indices) inputs =
      let (forth, back) = confirm-eq_accepted phrase indices inputs in
      elim (Bool-cases (str_eq (entered inputs i) (expected phrase i))) [
        | inl same ↦
            (λ h. (eq_of_str_eq _ _ same, forth (rw same at h)), λ (e, rest). rw same (back rest))
        | inr other ↦ (
          λ h.
              let no_word : rejected (mismatch i) ≡ accepted = rw other at h in absurd (cc no_word),
          λ (e, rest). absurd (ground (arith, str_eq_iff (entered inputs i) (expected phrase i))),
        )
      ]
