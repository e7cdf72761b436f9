-- ===== src/Stores/Auth/Machine.antt =====
-- web/src/stores/authStore.ts.
-- The store while calls of register and login are in flight and the other operations come in between.
use fincrypt.Prelude.{
  ℕ, suc, ◌+◌, ◌<◌, arith, false, Option, none, some, Str, ◌≡◌, ◌≢◌, ◌⊎◌, inl, inr, refl,
}
use fincrypt.Crypto.Platform.{Platform}
use fincrypt.Domain.Formats.{Formats}
use fincrypt.Api.Client.{logout, Outcome, answered, refused, failed}
use fincrypt.Stores.Auth.{
  AuthStatus, anonymous, locked, unlocked, AuthState, Me, anonymous_state, kept_status, refresh,
  log_out, mark_unlocked, clear_error, after_logout,
}
use fincrypt.Stores.Auth.Attempts.{Attempt, threw, done}
use fincrypt.Stores.Auth.Register.{RegisterOutcome, begun, signed_in, settle_register}
use fincrypt.Stores.Auth.Login.{
  LoginFinishResponse, LoginUnlockMaterial, settle_login, unlock_material, settle_material,
}

-- The store, and how many calls of `register` and `login` have not ended.
pub record Client : Type 0 where
  pub store : AuthState
  pub in_flight : ℕ

abbrev pub fresh : Client
fresh = record { store = anonymous_state; in_flight = 0 }

module _ (P : Platform) (F : Formats P) where
  pub data Step : Client → Client → Type 0 where
    -- `register` and `login` begin alike, whether or not another call is in flight
    begin : (c : Client) → Step c (record { store = begun c.store; in_flight = c.in_flight + 1 })
    end_register :
        (c : Client) (email : Str) (calls : Attempt RegisterOutcome) (others : ℕ)
        → c.in_flight ≡ suc others
        → Step c (record { store = (settle_register email calls c.store).0; in_flight = others })
    end_login :
        (c : Client) (email : Str) (calls : Attempt (Me × LoginFinishResponse)) (others : ℕ)
        → c.in_flight ≡ suc others
        → Step c (record { store = (settle_login P F email calls c.store).0; in_flight = others })
    refreshes : (c : Client) (me : Option Me) → Step c (record c { store = refresh me c.store })
    logs_out :
        (c : Client) (request : Outcome) → Step c (record c { store = log_out request c.store })
    unlocks : (c : Client) → Step c (record c { store = mark_unlocked c.store })
    clears : (c : Client) → Step c (record c { store = clear_error c.store })

  pub data Reach : Client → Type 0 where
    here : Reach fresh
    next : {c d : Client} → Reach c → Step c d → Reach d

  -- Signed in, or without an identity.
  abbrev pub HoldsNoStranger : AuthState → Type 0
  HoldsNoStranger s = (s.status ≢ anonymous) ⊎ ((s.email ≡ none) × (s.user_id ≡ none))

  -- Busy only while a call is in flight.
  abbrev pub IsBusyInFlight : Client → Type 0
  IsBusyInFlight c = (c.store.busy ≡ false) ⊎ (0 < c.in_flight)

  abbrev pub IsConsistent : Client → Type 0
  IsConsistent c = IsBusyInFlight c × HoldsNoStranger c.store

  locked-ne-anonymous : locked ≢ anonymous
  locked-ne-anonymous h = cc

  kept_status-ne-anonymous : (a : AuthStatus) → kept_status a ≢ anonymous
  kept_status-ne-anonymous unlocked h = cc
  kept_status-ne-anonymous anonymous h = cc
  kept_status-ne-anonymous locked h = cc

  after_logout-IsConsistent :
      (c : Client) (request : Outcome)
      → IsConsistent c
      → IsConsistent (record c { store = after_logout request c.store })
  after_logout-IsConsistent c (answered v) (busy, known) = (busy, inr (refl, refl))
  after_logout-IsConsistent c (refused e) h = h
  after_logout-IsConsistent c (failed e) h = h

  settle_material-IsConsistent :
      (s : AuthState) (email user_id : Str) (material : Attempt LoginUnlockMaterial) (others : ℕ)
      → IsConsistent (record {
        store = (settle_material material (signed_in email user_id s)).0;
        in_flight = others;
      })
  settle_material-IsConsistent s email user_id (threw e) others =
      (inl refl, inl locked-ne-anonymous)
  settle_material-IsConsistent s email user_id (done material) others =
      (inl refl, inl locked-ne-anonymous)

  step-IsConsistent : (c d : Client) → Step c d → IsConsistent c → IsConsistent d
  unfolding refresh log_out mark_unlocked clear_error
  step-IsConsistent c d (begin _) (busy, known) = (inr (omega arith), known)
  step-IsConsistent c d (end_register _ email (threw e) others flying) (busy, known) =
      (inl refl, known)
  step-IsConsistent c d (end_register _ email (done outcome) others flying) h =
      (inl refl, inl locked-ne-anonymous)
  step-IsConsistent c d (end_login _ email (threw e) others flying) (busy, known) =
      (inl refl, known)
  step-IsConsistent c d (end_login _ email (done (me, response)) others flying) h =
      settle_material-IsConsistent c.store me.email me.user_id
        (unlock_material P F email me response) others
  step-IsConsistent c d (refreshes _ none) (busy, known) = (busy, inr (refl, refl))
  step-IsConsistent c d (refreshes _ (some me)) (busy, known) =
      (busy, inl (kept_status-ne-anonymous c.store.status))
  step-IsConsistent c d (logs_out _ request) h = after_logout-IsConsistent c (logout request) h
  step-IsConsistent c d (unlocks _) (busy, known) = (busy, inl (λ h. cc))
  step-IsConsistent c d (clears _) h = h

  -- However calls of register and login, of which any number may be in flight at once, refresh, logout,
  -- the promotion to unlocked and the clearing of the error follow each other, the store is busy only
  -- while a register or a login has not ended, and holds no address and no user id while its status is
  -- anonymous.
  pub Reach-IsConsistent : (c : Client) → Reach c → IsConsistent c
  unfolding anonymous_state
  Reach-IsConsistent c here = (inl refl, inr (refl, refl))
  Reach-IsConsistent d (next {c} r step) = step-IsConsistent c d step (Reach-IsConsistent c r)
