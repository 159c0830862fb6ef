-- ===== src/TimerQueue/Phases.antt =====
-- The fields of net/TimerQueue.cc that only `handleRead` sets.
use cu_ber.Prelude.{ℕ, ◌≡◌, refl, ◌∙◌, arith, Option, none, some, List, [], ◌∷◌}
use cu_ber.Prelude.Pairs.{Pair}
use cu_ber.TimerQueue.{
  Timer, TimerQueue, insert, add_in_loop, add_timer_in_loop, cancel_active, cancel_in_loop,
  reset_one, reset_all, arm, arm_next, reset,
}

-- The fields that only `handleRead` sets.
pub record IsSamePhase (q r : TimerQueue) : Type 0 where
  pub calling : r.calling_expired_timers ≡ q.calling_expired_timers
  pub running : r.to_run ≡ q.to_run
  pub out : r.expired ≡ q.expired
  pub past : r.ran ≡ q.ran
  pub time : r.now ≡ q.now

phase_refl : (q : TimerQueue) → IsSamePhase q q
phase_refl q = record { calling = refl; running = refl; out = refl; past = refl; time = refl }

phase_trans : {q r s : TimerQueue} → IsSamePhase q r → IsSamePhase r s → IsSamePhase q s
phase_trans h k = record {
  calling = k.calling ∙ h.calling;
  running = k.running ∙ h.running;
  out = k.out ∙ h.out;
  past = k.past ∙ h.past;
  time = k.time ∙ h.time;
}

reset_one-IsSamePhase :
    (now a : ℕ) (o : Option Timer) (q : TimerQueue) → IsSamePhase q (reset_one now a o q)
unfolding reset_one insert
reset_one-IsSamePhase now a none q = ground arith
reset_one-IsSamePhase now a (some t) q = ground arith

reset_all-IsSamePhase :
    (now : ℕ) (es : List Pair) (q : TimerQueue) → IsSamePhase q (reset_all now es q)
unfolding reset_all
reset_all-IsSamePhase now [] q = phase_refl q
reset_all-IsSamePhase now ((w, a) ∷ es) q =
    phase_trans (reset_one-IsSamePhase now a (q.heap a) q)
      (reset_all-IsSamePhase now es (reset_one now a (q.heap a) q))

arm_next-IsSamePhase : (es : List Pair) (q : TimerQueue) → IsSamePhase q (arm_next es q)
unfolding arm_next arm
arm_next-IsSamePhase [] q = phase_refl q
arm_next-IsSamePhase ((w, a) ∷ es) q = ground arith

pub reset-IsSamePhase : (now : ℕ) (es : List Pair) (q : TimerQueue) → IsSamePhase q (reset now es q)
unfolding reset
reset-IsSamePhase now es q =
    phase_trans (reset_all-IsSamePhase now es q)
      (arm_next-IsSamePhase (reset_all now es q).timers (reset_all now es q))

pub add_timer_in_loop-IsSamePhase : (a : ℕ) (q : TimerQueue) → IsSamePhase q (add_timer_in_loop a q)
unfolding add_timer_in_loop add_in_loop insert
add_timer_in_loop-IsSamePhase a q = ground arith

pub cancel_in_loop-IsSamePhase : (a s : ℕ) (q : TimerQueue) → IsSamePhase q (cancel_in_loop a s q)
unfolding cancel_in_loop cancel_active
cancel_in_loop-IsSamePhase a s q = ground arith
