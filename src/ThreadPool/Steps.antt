-- ===== src/ThreadPool/Steps.antt =====
-- What can happen to base/ThreadPool.cc: the mutex makes each of these one step, and the threads take
-- them in any order.
use cu_ber.Prelude.{ℕ, suc, ◌-◌, ◌<◌, ◌≡◌, false}
use cu_ber.ThreadPool.{ThreadPool, started, run_locked, run, take_locked, stop}

-- A wakeup without a notification is `stirs_worker` or `stirs_caller`. A worker that is busy goes to
-- `take` or, when it sees that the pool is stopped, ends. The task of a caller that has been woken is
-- its own affair.
pub data Event : Type 0 where
  takes wakes_worker stirs_worker leaves stirs_caller stops : Event
  runs wakes_caller : ℕ → Event

abbrev pub step : Event → ThreadPool → ThreadPool
step takes p = take_locked (record p { busy = p.busy - 1 })
step wakes_worker p = take_locked (record p { woken_workers = p.woken_workers - 1 })
step stirs_worker p = record p {
  sleeping_workers = p.sleeping_workers - 1;
  woken_workers = suc p.woken_workers;
}
step leaves p = record p { busy = p.busy - 1; over = suc p.over }
step stirs_caller p = record p {
  sleeping_callers = p.sleeping_callers - 1;
  woken_callers = suc p.woken_callers;
}
step stops p = stop p
step (runs task) p = run task p
step (wakes_caller task) p = run_locked task (record p { woken_callers = p.woken_callers - 1 })

abbrev pub CanHappen : Event → ThreadPool → Type 0
CanHappen takes p = 0 < p.busy
CanHappen wakes_worker p = 0 < p.woken_workers
CanHappen stirs_worker p = 0 < p.sleeping_workers
CanHappen leaves p = (0 < p.busy) × (p.running ≡ false)
CanHappen stirs_caller p = 0 < p.sleeping_callers
CanHappen stops p = Unit {0}
CanHappen (runs task) p = Unit {0}
CanHappen (wakes_caller task) p = 0 < p.woken_callers

pub data Reachable : ThreadPool → Type 0 where
  fresh : (num_threads max_queue_size : ℕ) → Reachable (started num_threads max_queue_size)
  stepped : {p : ThreadPool} (e : Event) → Reachable p → CanHappen e p → Reachable (step e p)
