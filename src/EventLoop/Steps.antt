-- ===== src/EventLoop/Steps.antt =====
-- What can happen to a loop of net/EventLoop.cc: its own steps, in order, and the calls of other
-- threads at any time between them.
use cu_ber.Prelude.{ℕ, zero, suc, ◌≡◌, Bool, true, false, [], if◌then◌else◌}
use cu_ber.EventLoop.{
  Phase, idle, polling, handling, calling, ended, EventLoop, new_loop, start_loop, wakeup,
  queue_in_loop, run_in_loop, quit_loop, poll_returns, handle_read, take_functors, call_functor,
  end_round,
}

pub data Event : Type 0 where
  starts wakes poll_ends reads takes calls ends : Event
  queues runs : Bool → ℕ → Event
  quits : Bool → Event

abbrev pub wake_next : ℕ → EventLoop → EventLoop
wake_next zero l = l
wake_next (suc n) l = wakeup (record l { wakers = n })

abbrev pub step : Event → EventLoop → EventLoop
step starts l = start_loop l
step wakes l = wake_next l.wakers l
step poll_ends l = poll_returns l
step reads l = handle_read l
step takes l = take_functors l
step calls l = call_functor l.functors l
step ends l = end_round l
step (queues in_loop f) l = queue_in_loop in_loop f l
step (runs in_loop f) l = run_in_loop in_loop f l
step (quits in_loop) l = quit_loop in_loop l

-- The code that runs in the thread of the loop is that of channels and functors.
abbrev pub is_active : Phase → Bool
is_active idle = false
is_active polling = false
is_active handling = true
is_active calling = true
is_active ended = false

abbrev pub CanHappen : Event → EventLoop → Type 0
CanHappen starts l = l.phase ≡ idle
CanHappen wakes l = Unit {0}
CanHappen poll_ends l = l.phase ≡ polling
CanHappen reads l = l.phase ≡ handling
CanHappen takes l = l.phase ≡ handling
CanHappen calls l = l.phase ≡ calling
CanHappen ends l = (l.phase ≡ calling) × (l.functors ≡ [])
CanHappen (queues in_loop f) l = if in_loop then is_active l.phase ≡ true else Unit {0}
CanHappen (runs in_loop f) l = if in_loop then is_active l.phase ≡ true else Unit {0}
CanHappen (quits in_loop) l = if in_loop then is_active l.phase ≡ true else Unit {0}

pub data Reachable : EventLoop → Type 0 where
  fresh : Reachable new_loop
  stepped : {l : EventLoop} (e : Event) → Reachable l → CanHappen e l → Reachable (step e l)
