-- ===== src/TimerQueue/Alarm.antt =====
-- The timerfd of net/TimerQueue.cc does not run down long after the first timer.
use cu_ber.Prelude.{ℕ, ◌<◌, ◌≡◌, refl, arith, true, false, Option, List, [], ◌∷◌}
use cu_ber.Prelude.Pairs.{Pair}
use cu_ber.TimerQueue.{Timer, TimerQueue, erase_active, erase_all_active, reset_all}
use cu_ber.TimerQueue.Places.{has_time}
use cu_ber.TimerQueue.Reached.{IsSettled}
use cu_ber.TimerQueue.Timely.{IsTimely}

-- The heap of a reset queue holds valid times.
abbrev AllPositive : (ℕ → Option Timer) → Type 0
AllPositive heap = (a w : ℕ) → has_time w (heap a) ≡ true → 0 < w

-- What the loop of `reset` leaves.
module _ (q : TimerQueue) (s : IsSettled q) (valid : 0 < q.now) (t : IsTimely q) where
  abbrev left : TimerQueue
  left = reset_all q.now q.expired (record q { calling_expired_timers = false })

pub erase_all_heap :
    (es : List Pair) (q : TimerQueue)
    → ((erase_all_active es q).heap ≡ q.heap)
      × ((erase_all_active es q).now ≡ q.now)
      × ((erase_all_active es q).num_created ≡ q.num_created)
      × ((erase_all_active es q).ran ≡ q.ran)
unfolding erase_all_active
erase_all_heap [] q = (refl, refl, refl, refl)
erase_all_heap ((w, a) ∷ es) q = ground (arith, erase_all_heap es (erase_active a (q.heap a) q))
