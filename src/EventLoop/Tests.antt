-- ===== src/EventLoop/Tests.antt =====
-- A run of net/EventLoop.cc with another thread, and its theorems there.
use cu_ber.Prelude.{◌+◌, ◌<◌, ◌≡◌, ◌≢◌, refl, false, [], ◌∷◌, ◌++◌, inl}
use cu_ber.EventLoop.{
  EventLoop, new_loop, start_loop, queue_in_loop, run_in_loop, poll_returns, handle_read,
  take_functors, call_functor, end_round, wakeup,
}
use cu_ber.EventLoop.Steps.{
  starts, wakes, poll_ends, reads, takes, calls, ends, queues, runs, step, Reachable, fresh,
  stepped,
}
use cu_ber.EventLoop.Functors.{functors_in_order, wakeup_is_due}

abbrev polled : EventLoop
polled =
    step ends
      (step calls (step takes (step poll_ends (step (queues false 1) (step starts new_loop)))))

polled-Reachable : Reachable polled
unfolding start_loop queue_in_loop poll_returns take_functors call_functor end_round
polled-Reachable =
    stepped ends
      (stepped calls
        (stepped takes
          (stepped poll_ends (stepped (queues false 1) (stepped starts fresh refl) tt) refl) refl)
        refl)
      (refl, refl)

-- The other thread has queued a second functor, and not yet woken the loop for either.
abbrev waiting : EventLoop
waiting = step (runs false 2) polled

waiting-Reachable : Reachable waiting
waiting-Reachable = stepped (runs false 2) polled-Reachable tt

woken_run :
    (step calls (step takes (step reads (step poll_ends (step wakes waiting))))).ran ≡ 1 ∷ 2 ∷ []
unfolding start_loop queue_in_loop run_in_loop poll_returns take_functors call_functor end_round
    handle_read wakeup
woken_run = refl

functors_in_order_example :
    waiting.ran ++ (waiting.functors ++ waiting.pending_functors) ≡ waiting.queued
functors_in_order_example = functors_in_order waiting-Reachable

waiting-some : waiting.pending_functors ≢ []
unfolding start_loop queue_in_loop run_in_loop poll_returns take_functors call_functor end_round
waiting-some = λ h. cc

wakeup_is_due_example : 0 < waiting.counter + waiting.wakers
unfolding start_loop queue_in_loop run_in_loop poll_returns take_functors call_functor end_round
wakeup_is_due_example = wakeup_is_due waiting-Reachable refl (inl waiting-some)
