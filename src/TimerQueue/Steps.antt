-- ===== src/TimerQueue/Steps.antt =====
-- What can happen to the timers of net/TimerQueue.cc, in any order: timers are made in any thread
-- and added in that of the loop, cancelled at any time with any id, also by the callbacks, and the
-- timerfd runs down; `ticks` says what `resetTimerfd` will read as the time.
use cu_ber.Prelude.{ℕ, ◌≤◌, ◌<◌, ◌≡◌, Bool, true, false, Option, none, some, List, [], ◌∷◌}
use cu_ber.TimerQueue.{
  Setting, TimerQueue, new_queue, add_timer, add_timer_in_loop, cancel_in_loop, uintptr_max,
  start_read, run_next, finish_read,
}

pub data Event : Type 0 where
  makes : ℕ → ℕ → ℕ → Bool → Event
  adds runs_callback finishes : Event
  cancels : ℕ → ℕ → Event
  alarms ticks : ℕ → Event

-- The loop takes the first of the calls that wait.
abbrev pub add_next : List ℕ → TimerQueue → TimerQueue
add_next [] q = q
add_next (a ∷ as') q = add_timer_in_loop a (record q { queued = as' })

abbrev pub step : Event → TimerQueue → TimerQueue
step (makes a when interval repeat) q = add_timer a when interval repeat q
step adds q = add_next q.queued q
step (cancels a s) q = cancel_in_loop a s q
step (alarms now) q = start_read now q
step (ticks now) q = record q { clock = now }
step runs_callback q = run_next q.to_run q
step finishes q = finish_read q

abbrev Due : ℕ → Option Setting → Type 0
Due now none = ⊥
Due now (some t) = t.rings ≤ now

-- When it can: a new object gets a free address, below the last one, and its time is valid; the
-- timerfd is read once it has run down, not while callbacks are running, and the clock is valid.
abbrev pub CanHappen : Event → TimerQueue → Type 0
CanHappen (makes a when interval repeat) q = (q.heap a ≡ none) × (a < uintptr_max) × (0 < when)
CanHappen adds q = Unit {0}
CanHappen (cancels a s) q = Unit {0}
CanHappen (alarms now) q = (q.calling_expired_timers ≡ false) × Due now q.armed × (0 < now)
CanHappen (ticks now) q = Unit {0}
CanHappen runs_callback q = Unit {0}
CanHappen finishes q = (q.calling_expired_timers ≡ true) × (q.to_run ≡ [])

pub data Reachable : TimerQueue → Type 0 where
  fresh : Reachable new_queue
  stepped : {q : TimerQueue} (e : Event) → Reachable q → CanHappen e q → Reachable (step e q)

-- The queues that come about later, with what happened.
pub data Later (q : TimerQueue) : TimerQueue → Type 0 where
  here : Later q q
  later : {r : TimerQueue} (e : Event) → Later q r → CanHappen e r → Later q (step e r)
