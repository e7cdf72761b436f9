-- ===== src/Crypto/IdleTimer.antt =====
-- web/src/crypto/idleTimer.ts: the timer with the timeouts that wait, by handle and the time at which
-- each is due, and how often `onIdle` was called. A timeout calls back once, when its time has come,
-- unless `clearTimeout` was called with its handle; `setTimeout` gives a new handle each time.
use fincrypt.Prelude.{
  ◌∙◌, List, [], ◌∷◌, All, ◌<◌, ◌≤◌, ◌≡◌, refl, ap, true, false, arith, ℕ, ◌+◌, ◌*◌, Option, none,
  some, leb, ◌==◌, if◌then◌else◌, Bool-cases, inl, inr,
}

pub record Timeout : Type 0 where
  pub handle : ℕ
  pub due : ℕ

pub record IdleTimer : Type 0 where
  pub ms : ℕ
  pub timer : Option ℕ
  pub pending : List Timeout
  pub next_handle : ℕ
  pub calls : ℕ

-- clearTimeout: a handle of no waiting timeout is ignored.
pub clear_timeout : ℕ → List Timeout → List Timeout
clear_timeout handle [] = []
clear_timeout handle (x ∷ xs) =
    let rest = clear_timeout handle xs in if x.handle == handle then rest else x ∷ rest

-- if (timer) clearTimeout(timer)
abbrev pub cleared : Option ℕ → List Timeout → List Timeout
cleared none pending = pending
cleared (some handle) pending = clear_timeout handle pending

abbrev pub arm : ℕ → IdleTimer → IdleTimer
arm now t = record t {
  timer = some t.next_handle;
  pending = record { handle = t.next_handle; due = now + t.ms } ∷ t.pending;
  next_handle = t.next_handle + 1;
}

abbrev unarmed : ℕ → IdleTimer
unarmed minutes = record {
  ms = minutes * 60000;
  timer = none;
  pending = [];
  next_handle = 1;
  calls = 0;
}

unfoldable pub start_idle_timer : ℕ → ℕ → IdleTimer
start_idle_timer minutes now = arm now (unarmed minutes)

unfoldable pub stop : IdleTimer → IdleTimer
unfolding clear_timeout
stop t = record t { pending = cleared t.timer t.pending; timer = none }

unfoldable pub reset : ℕ → IdleTimer → IdleTimer
unfolding clear_timeout
reset now t = arm now (record t { pending = cleared t.timer t.pending })

-- The timeouts that still wait when the clock has come to `now`, and how many have called back.
pub still_pending : ℕ → List Timeout → List Timeout
still_pending now [] = []
still_pending now (x ∷ xs) =
    let rest = still_pending now xs in if leb x.due now then rest else x ∷ rest

pub fired : ℕ → List Timeout → ℕ
fired now [] = 0
fired now (x ∷ xs) = let rest = fired now xs in if leb x.due now then rest + 1 else rest

-- The clock has come to `now`. The code's variable keeps the handle of a timeout that has fired.
unfoldable pub elapse : ℕ → IdleTimer → IdleTimer
unfolding still_pending fired
elapse now t = record t {
  pending = still_pending now t.pending;
  calls = t.calls + fired now t.pending;
}

-- The clock comes to one time after another.
unfoldable pub elapse_all : List ℕ → IdleTimer → IdleTimer
unfolding elapse
elapse_all [] t = t
elapse_all (now ∷ times) t = elapse_all times (elapse now t)

-- What can have become of a timer since it was started.
pub data Run : IdleTimer → Type 0 where
  starts : (minutes now : ℕ) → Run (start_idle_timer minutes now)
  resets : {t : IdleTimer} (now : ℕ) → Run t → Run (reset now t)
  stops : {t : IdleTimer} → Run t → Run (stop t)
  elapses : {t : IdleTimer} (now : ℕ) → Run t → Run (elapse now t)

-- No timeout waits but the one whose handle the timer has.
abbrev IsOwn : Option ℕ → List Timeout → Type 0
IsOwn timer [] = Unit
IsOwn (some handle) (x ∷ []) = x.handle ≡ handle
IsOwn _ _ = ⊥

cleared-IsOwn :
    (timer : Option ℕ) (pending : List Timeout) → IsOwn timer pending → cleared timer pending ≡ []
unfolding clear_timeout
cleared-IsOwn none [] h = refl
cleared-IsOwn (some handle) [] h = refl
cleared-IsOwn (some handle) (x ∷ []) h = ground arith
cleared-IsOwn none (x ∷ xs) h = absurd h
cleared-IsOwn (some handle) (x ∷ y ∷ xs) h = absurd h

still_pending-IsOwn :
    (now : ℕ) (timer : Option ℕ) (pending : List Timeout)
    → IsOwn timer pending
    → IsOwn timer (still_pending now pending)
unfolding still_pending
still_pending-IsOwn now timer [] h = tt
still_pending-IsOwn now (some handle) (x ∷ []) h = elim (Bool-cases (leb x.due now)) [
  | inl reached ↦ rw reached tt
  | inr waits ↦ rw waits h
]
still_pending-IsOwn now none (x ∷ xs) h = absurd h
still_pending-IsOwn now (some handle) (x ∷ y ∷ xs) h = absurd h

Run-IsOwn : {t : IdleTimer} → Run t → IsOwn t.timer t.pending
unfolding start_idle_timer reset stop elapse
Run-IsOwn (starts minutes now) = refl
Run-IsOwn (resets {t} now run) = rw (cleared-IsOwn t.timer t.pending (Run-IsOwn run)) refl
Run-IsOwn (stops {t} run) = rw (cleared-IsOwn t.timer t.pending (Run-IsOwn run)) tt
Run-IsOwn (elapses {t} now run) = still_pending-IsOwn now t.timer t.pending (Run-IsOwn run)

elapse_all-idle :
    (times : List ℕ) (t : IdleTimer) → t.pending ≡ [] → (elapse_all times t).calls ≡ t.calls
unfolding elapse_all elapse still_pending fired
elapse_all-idle [] t h = refl
elapse_all-idle (now ∷ times) t h =
    let none_left : still_pending now t.pending ≡ [] = ap (still_pending now) h in
    let none_fired : fired now t.pending ≡ 0 = ap (fired now) h in
    omega (arith, elapse_all-idle times (elapse now t) none_left, none_fired)

-- While no timeout is due, nothing changes.
elapse_all-early :
    (times : List ℕ) (t : IdleTimer) (x : Timeout)
    → t.pending ≡ x ∷ []
    → All (λ now. now < x.due) times
    → ((elapse_all times t).calls ≡ t.calls)
      × ((elapse_all times t).pending ≡ x ∷ [])
      × ((elapse_all times t).timer ≡ t.timer)
unfolding elapse_all elapse still_pending fired
elapse_all-early [] t x h early = (refl, h, refl)
elapse_all-early (now ∷ times) t x h (first, early) =
    let before : leb x.due now ≡ false = ground arith in
    let waits : still_pending now t.pending ≡ x ∷ [] = ap (still_pending now) h ∙ rw before refl in
    let none_fired : fired now t.pending ≡ 0 = ap (fired now) h ∙ rw before refl in
    let (calls, pending, timer) = elapse_all-early times (elapse now t) x waits early in
    (omega (arith, calls, none_fired), pending, timer)

-- However a timer was started, reset, stopped and run before, after a reset `onIdle` is called once,
-- when the clock has first come to the idle time after the reset, and not before or again, however
-- often the clock is looked at; once stopped, it is not called.
pub reset-fires_once :
    (t : IdleTimer) (now at : ℕ) (before after : List ℕ)
    → Run t
    → All (λ n. n < now + t.ms) before
    → now + t.ms ≤ at
    → ((elapse_all before (reset now t)).calls ≡ t.calls)
      × ((elapse_all after (elapse at (elapse_all before (reset now t)))).calls ≡ t.calls + 1)
      × ((elapse_all after (stop (elapse_all before (reset now t)))).calls ≡ t.calls)
unfolding reset elapse stop still_pending fired clear_timeout
reset-fires_once t now at before after run early late =
    let x : Timeout = record { handle = t.next_handle; due = now + t.ms } in
    let alone : (reset now t).pending ≡ x ∷ [] =
      ap (λ l. x ∷ l) (cleared-IsOwn t.timer t.pending (Run-IsOwn run)) in
    let (calls, waits, owned) = elapse_all-early before (reset now t) x alone early in
    let u = elapse_all before (reset now t) in
    let reached : leb x.due at ≡ true = ground arith in
    let none_left : still_pending at u.pending ≡ [] =
      ap (still_pending at) waits ∙ rw reached refl in
    let one_fired : fired at u.pending ≡ 1 = ap (fired at) waits ∙ rw reached refl in
    let cleared_own : cleared u.timer u.pending ≡ [] =
      rw (waits, owned) (cleared-IsOwn (some x.handle) (x ∷ []) refl) in
    (
      calls,
      omega (arith, elapse_all-idle after (elapse at u) none_left, one_fired, calls),
      elapse_all-idle after (stop u) cleared_own ∙ calls,
    )
