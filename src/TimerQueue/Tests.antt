-- ===== src/TimerQueue/Tests.antt =====
-- Runs of net/TimerQueue.cc, and its theorems at queues that come about.
use cu_ber.Prelude.{
  ℕ, ◌+◌, ◌≡◌, refl, arith, true, false, ◌&&◌, not, none, some, [], ◌∷◌, if◌then◌else◌, ltb, leb,
  length, ◌==◌, ◌↔◌,
}
use cu_ber.Prelude.Pairs.{has, put_in, take_out, before, from, IsRising}
use cu_ber.TimerQueue.{
  Timer, TimerQueue, new_queue, add_timer, insert, add_in_loop, add_timer_in_loop, cancel_in_loop,
  erase_all_active, get_expired, start_read, restart, reset_one, reset_all, arm_next, reset,
  finish_read,
}
use cu_ber.TimerQueue.Steps.{
  makes, adds, runs_callback, finishes, alarms, step, Reachable, fresh, stepped, Later, here, later,
}
use cu_ber.TimerQueue.Reached.{sets_agree}
use cu_ber.TimerQueue.Repeats.{due_timers, due_timers_repeat}
use cu_ber.TimerQueue.Over.{count}
use cu_ber.TimerQueue.Cancelled.{IsCancellable, cancelled_never_runs}

-- A timer for 10 that repeats every 5, and one for 300.
abbrev made : TimerQueue
made = step (makes 200 300 0 false) (step (makes 100 10 5 true) new_queue)

abbrev added : TimerQueue
added = step adds (step adds made)

added-Reachable : Reachable added
unfolding add_timer
added-Reachable =
    stepped adds
      (stepped adds
        (stepped (makes 200 300 0 false)
          (stepped (makes 100 10 5 true) fresh (refl, omega arith, omega arith))
          (refl, omega arith, omega arith))
        tt)
      tt

-- The timerfd runs down, late, and the callback of the first timer is called.
abbrev called : TimerQueue
called = step runs_callback (step (alarms 100) added)

called-Reachable : Reachable called
unfolding add_timer add_timer_in_loop add_in_loop insert put_in
called-Reachable =
    stepped runs_callback (stepped (alarms 100) added-Reachable (refl, omega arith, omega arith)) tt

-- It comes back at 105.
comes_back_run : (finish_read called).timers ≡ (105, 100) ∷ (300, 200) ∷ []
unfolding add_timer add_timer_in_loop add_in_loop insert put_in start_read get_expired
    erase_all_active before from take_out finish_read reset reset_all reset_one restart arm_next has
comes_back_run = refl

-- Not if the callback cancels it.
cancelled_run : (finish_read (cancel_in_loop 100 1 called)).timers ≡ (300, 200) ∷ []
unfolding add_timer add_timer_in_loop add_in_loop insert put_in start_read get_expired
    erase_all_active before from take_out finish_read reset reset_all reset_one restart arm_next has
    cancel_in_loop
cancelled_run = refl

sets_agree_example :
    (length called.timers ≡ length called.active_timers)
    × (called.faulty ≡ false)
    × ((w a : ℕ)
        → (has (w, a) called.timers ≡ true) ↔ (
            (t : Timer) × (called.heap a ≡ some t)
            × (t.expiration ≡ w)
            × (has (a, t.sequence) called.active_timers ≡ true)))
sets_agree_example = sets_agree called-Reachable

due_timers_example :
    let r = start_read 100 added in
    IsRising r.to_run
    × ((w a : ℕ) → has (w, a) r.to_run ≡ (leb w 100 && has (w, a) added.timers))
    × ((w a : ℕ) → has (w, a) r.timers ≡ (ltb 100 w && has (w, a) added.timers))
due_timers_example = due_timers added-Reachable 100

abbrev first : Timer
first = record { expiration = 10; interval = 5; repeat = true; sequence = 1 }

due_timers_repeat_example :
    let back = first.repeat && not (has (100, 1) called.canceling_timers) in
    ((finish_read called).heap 100 ≡ (if back then some (restart called.now first) else none))
    × ((u : ℕ) → has (u, 100) (finish_read called).timers ≡ (back && (called.now + 5 == u)))
unfolding add_timer add_timer_in_loop add_in_loop insert put_in start_read get_expired
    erase_all_active before from take_out has
due_timers_repeat_example = due_timers_repeat called-Reachable 10 100 first refl refl

called-IsCancellable : IsCancellable 100 1 called
unfolding add_timer add_timer_in_loop add_in_loop insert put_in start_read get_expired
    erase_all_active before from take_out has
called-IsCancellable = record {
  made = omega arith;
  its_own = λ b h. ground arith;
  added = λ h. refl;
  not_next = λ w h. refl;
}

abbrev much_later : TimerQueue
much_later = step runs_callback (step (alarms 310) (step finishes (cancel_in_loop 100 1 called)))

much_later-Later : Later (cancel_in_loop 100 1 called) much_later
unfolding add_timer add_timer_in_loop add_in_loop insert put_in start_read get_expired
    erase_all_active before from take_out finish_read reset reset_all reset_one restart arm_next has
    cancel_in_loop
much_later-Later =
    later runs_callback
      (later (alarms 310) (later finishes here (refl, refl)) (refl, omega arith, omega arith)) tt

cancelled_never_runs_example : count 1 much_later.ran ≡ count 1 called.ran
cancelled_never_runs_example =
    cancelled_never_runs 100 1 called-Reachable called-IsCancellable much_later-Later
