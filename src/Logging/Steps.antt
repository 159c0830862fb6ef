-- ===== src/Logging/Steps.antt =====
-- What can happen to base/AsyncLogging.cc: the steps of its thread, in order, and the calls of other
-- threads at any time between them. The mutex makes a locked block one step.
use cu_ber.Prelude.{◌≡◌, Bytes}
use cu_ber.Logging.{
  at_top, locking, waiting, writing, AsyncLogging, started, append, stop, enter_round, lock_buffers,
  swap_buffers, write_out,
}

pub data Event : Type 0 where
  enters locks wakes writes stops : Event
  appends : Bytes → Event

abbrev pub step : Event → AsyncLogging → AsyncLogging
step enters l = enter_round l
step locks l = lock_buffers l
step wakes l = swap_buffers l
step writes l = write_out l
step stops l = stop l
step (appends line) l = append line l

-- `wakes` is the return of `waitForSeconds`, for whatever reason.
abbrev pub CanHappen : Event → AsyncLogging → Type 0
CanHappen enters l = l.phase ≡ at_top
CanHappen locks l = l.phase ≡ locking
CanHappen wakes l = l.phase ≡ waiting
CanHappen writes l = l.phase ≡ writing
CanHappen stops l = Unit {0}
CanHappen (appends line) l = Unit {0}

pub data Reachable : AsyncLogging → Type 0 where
  fresh : Reachable started
  stepped : {l : AsyncLogging} (e : Event) → Reachable l → CanHappen e l → Reachable (step e l)
