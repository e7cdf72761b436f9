-- ===== src/Sync/Scheduler.antt =====
-- web/src/sync/engine.ts, from "scheduler" on: the timer, the 'online' listeners and the backoff.
-- The module's variables `timer` and `attempts` are fields of the state, with the number of 'online'
-- listeners that the window holds.

use fincrypt.Prelude.{
  ℕ, zero, suc, ◌+◌, ◌*◌, ◌^◌, ◌≤◌, ◌<◌, ◌≡◌, ap, ◌∙◌, min, Bool, true, false, List, [], ◌∷◌, arith,
  if◌then◌else◌,
}
use fincrypt.Cache.{Db, Cache}
use fincrypt.Sync.Engine.{FlushResult, Network, flush}

pub record Scheduler : Type 0 where
  pub timer : Bool
  pub listeners : ℕ
  pub attempts : ℕ

unfoldable pub start_sync : Scheduler → Scheduler
start_sync s = if s.timer then s else record s { timer = true; listeners = s.listeners + 1 }

unfoldable pub stop_sync : Scheduler → Scheduler
stop_sync s = if s.timer then record s { timer = false } else s

abbrev pub max_attempts : ℕ
max_attempts = 6

-- The part of `tick` behind the flush.
unfoldable pub note_result : FlushResult → Scheduler → Scheduler
note_result result s =
    if result.failed
    then record s { attempts = min (s.attempts + 1) max_attempts }
    else record s { attempts = 0 }

unfoldable pub tick : (db : Db) → Network → Cache db → Scheduler → Cache db × Scheduler
tick db net c s = let done = flush db net c in (done.cache, note_result done.result s)

-- `backoffDelay` in units of a 5n-th of a millisecond, where `Math.random()` is k / n.
unfoldable pub backoff_delay : ℕ → ℕ → Scheduler → ℕ
backoff_delay n k s =
    let base = 2 ^ s.attempts * 1000 in min (5 * n * base + k * base) (6 * n * base + 200 * (5 * n))

unfoldable pub note_results : List FlushResult → Scheduler → Scheduler
note_results [] s = s
note_results (r ∷ rs) s = note_results rs (note_result r s)

-- How many flushes at the end of a run failed in a row, on top of `before`.
unfoldable pub failures_in_row : ℕ → List FlushResult → ℕ
failures_in_row before [] = before
failures_in_row before (r ∷ rs) = failures_in_row (if r.failed then before + 1 else 0) rs

attempts-note_result :
    (r : FlushResult) (s : Scheduler) (before : ℕ)
    → s.attempts ≡ min before 6
    → (note_result r s).attempts ≡ min (if r.failed then before + 1 else 0) 6
unfolding note_result
attempts-note_result r s before h = ground arith

-- After any run of ticks, `attempts` is the number of failed flushes since the last one that
-- succeeded, and 6 at most.
pub attempts-note_results :
    (rs : List FlushResult) (s : Scheduler) (before : ℕ)
    → s.attempts ≡ min before 6
    → (note_results rs s).attempts ≡ min (failures_in_row before rs) 6
unfolding note_results failures_in_row
attempts-note_results [] s before h = h
attempts-note_results (r ∷ rs) s before h =
    attempts-note_results rs (note_result r s) _ (attempts-note_result r s before h)

power_bound : (a : ℕ) → a ≤ 6 → 2 ^ a ≤ 64
power_bound zero h = omega arith
power_bound (suc zero) h = omega arith
power_bound (suc (suc zero)) h = omega arith
power_bound (suc (suc (suc zero))) h = omega arith
power_bound (suc (suc (suc (suc zero)))) h = omega arith
power_bound (suc (suc (suc (suc (suc zero))))) h = omega arith
power_bound (suc (suc (suc (suc (suc (suc zero)))))) h = omega arith
power_bound (suc (suc (suc (suc (suc (suc (suc a))))))) h = absurd (omega arith)

delay_bounds :
    (n k b : ℕ)
    → k < n
    → b ≤ 64000
    → (min (5 * n * b + k * b) (6 * n * b + 200 * (5 * n)) ≡ 5 * n * b + k * b)
      × (5 * n * b + k * b ≤ 6 * n * b)
      × (6 * n * b ≤ 76800 * (5 * n))
delay_bounds n k b h small =
    let jitter : k * b ≤ n * b = grind arith in
    let most : n * b ≤ n * 64000 = grind arith in (omega arith, omega arith, omega arith)

-- The delay lies between 2 ^ attempts seconds and a fifth above that, and is at most 76.8 seconds
-- while `attempts` is at most 6. The cap in `Math.min` never cuts it, and no jitter goes below.
pub backoff_delay_bounds :
    (n k : ℕ) (s : Scheduler)
    → k < n
    → s.attempts ≤ 6
    → (backoff_delay n k s ≡ 5 * n * (2 ^ s.attempts * 1000) + k * (2 ^ s.attempts * 1000))
      × (5 * n * (2 ^ s.attempts * 1000) ≤ backoff_delay n k s)
      × (backoff_delay n k s ≤ 6 * n * (2 ^ s.attempts * 1000))
      × (backoff_delay n k s ≤ 76800 * (5 * n))
unfolding backoff_delay
backoff_delay_bounds n k s h small =
    let b = 2 ^ s.attempts * 1000 in
    let (cut, jitter, most) = delay_bounds n k b h (omega (arith, power_bound s.attempts small)) in
    (cut, rw cut (omega arith), rw cut jitter, rw cut (omega arith))

-- A run of `stopSync` and `startSync`, one pair after another.
abbrev pub restarts : ℕ → Scheduler → Scheduler
restarts zero s = s
restarts (suc n) s = restarts n (start_sync (stop_sync s))

restart_adds :
    (s : Scheduler)
    → s.timer ≡ true
    → (start_sync (stop_sync s) ≡ record s { listeners = s.listeners + 1 })
unfolding start_sync stop_sync
restart_adds s h = ground arith

-- `startSync` twice is `startSync` once; but each `stopSync` and `startSync` of a running scheduler
-- leaves one more 'online' listener behind, so that n of them make one event flush n more times.
pub listeners-restarts :
    (n : ℕ) (s : Scheduler)
    → s.timer ≡ true
    → (start_sync (start_sync s) ≡ start_sync s) × ((restarts n s).listeners ≡ s.listeners + n)
unfolding start_sync
listeners-restarts n s h = (ground arith, count n s h)
  where
    count : (n : ℕ) (s : Scheduler) → s.timer ≡ true → (restarts n s).listeners ≡ s.listeners + n
    count zero s h = omega arith
    count (suc n) s h =
        ap (λ x. (restarts n x).listeners) (restart_adds s h)
        ∙ count n (record s { listeners = s.listeners + 1 }) h
        ∙ omega arith
