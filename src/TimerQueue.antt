-- ===== src/TimerQueue.antt =====
-- net/Timer.h, Timer.cc, TimerQueue.h and TimerQueue.cc: the timers of a loop. A `Timer*` is an
-- address into a heap, which forgets what has been deleted; time is in microseconds.
pub mod Steps
pub mod Places
pub mod Adding
pub mod Taking
pub mod Resetting
pub mod Phases
pub mod Reached
pub mod Timely
pub mod Alarm
pub mod Repeats
pub mod Over
pub mod Cancelled
mod Tests
use cu_ber.Prelude.{
  ℕ, suc, ◌+◌, ◌-◌, ◌^◌, Bool, true, false, not, ◌&&◌, Option, none, some, List, [], ◌∷◌, ◌++◌, ltb,
  if◌then◌else◌, put,
}
use cu_ber.Prelude.Pairs.{Pair, has, put_in, take_out, before, from}

-- A callback is known by the sequence number of its timer.
pub record Timer : Type 0 where
  pub expiration : ℕ
  pub interval : ℕ
  pub repeat : Bool
  pub sequence : ℕ

-- `Timestamp::invalid()`, which `valid()` tells from the others.
abbrev invalid : ℕ
invalid = 0

pub restart : ℕ → Timer → Timer
restart now t = record t { expiration = if t.repeat then now + t.interval else invalid }

-- `howMuchTimeFromNow`: a hundred microseconds at least, also for a time that has passed.
abbrev pub how_much_time_from_now : ℕ → ℕ → ℕ
how_much_time_from_now now when = if ltb (when - now) 100 then 100 else when - now

-- The time that the timerfd waits for, and when it was set.
pub record Setting : Type 0 where
  pub set_at : ℕ
  pub rings : ℕ

abbrev pub alarm : ℕ → ℕ → Setting
alarm now when = record { set_at = now; rings = now + how_much_time_from_now now when }

-- An `Entry` is the time and the address of a timer, an `ActiveTimer` its address and its sequence.
-- `armed` is what the timerfd was set to, `clock` what `Timestamp::now` says when it is set, `queued`
-- the calls of `addTimerInLoop` that the loop has not made; `now`, `expired` and `to_run` are the
-- local variables of `handleRead`. `ran` are the callbacks that were called, the last one first.
-- `faulty` is set by a use of a deleted timer.
pub record TimerQueue : Type 0 where
  pub heap : ℕ → Option Timer
  pub num_created : ℕ
  pub timers : List Pair
  pub active_timers : List Pair
  pub calling_expired_timers : Bool
  pub canceling_timers : List Pair
  pub armed : Option Setting
  pub clock : ℕ
  pub queued : List ℕ
  pub now : ℕ
  pub expired : List Pair
  pub to_run : List Pair
  pub ran : List ℕ
  pub faulty : Bool

abbrev pub new_queue : TimerQueue
new_queue = record {
  heap = λ a. none;
  num_created = 0;
  timers = [];
  active_timers = [];
  calling_expired_timers = false;
  canceling_timers = [];
  armed = none;
  clock = 0;
  queued = [];
  now = 0;
  expired = [];
  to_run = [];
  ran = [];
  faulty = false;
}

abbrev pub fault : TimerQueue → TimerQueue
fault q = record q { faulty = true }

-- `addTimer`, with the address of the new object.
pub add_timer : ℕ → ℕ → ℕ → Bool → TimerQueue → TimerQueue
add_timer a when interval repeat q = record q {
  heap =
      put a
        (some (record {
          expiration = when;
          interval = interval;
          repeat = repeat;
          sequence = suc q.num_created;
        }))
        q.heap;
  num_created = suc q.num_created;
  queued = q.queued ++ a ∷ [];
}

abbrev pub is_earliest : ℕ → List Pair → Bool
is_earliest when [] = true
is_earliest when ((w, a) ∷ es) = ltb when w

-- `resetTimerfd`
abbrev pub reset_timerfd : ℕ → TimerQueue → TimerQueue
reset_timerfd expiration q = record q { armed = some (alarm q.clock expiration) }

-- `insert`, whose answer is `is_earliest` on the timers before.
unfoldable pub insert : ℕ → Timer → TimerQueue → TimerQueue
insert a t q = record q {
  timers = put_in (t.expiration, a) q.timers;
  active_timers = put_in (a, t.sequence) q.active_timers;
}

pub add_in_loop : ℕ → Option Timer → TimerQueue → TimerQueue
add_in_loop a none q = fault q
add_in_loop a (some t) q =
    if is_earliest t.expiration q.timers
    then reset_timerfd t.expiration (insert a t q)
    else insert a t q

-- `addTimerInLoop`
pub add_timer_in_loop : ℕ → TimerQueue → TimerQueue
unfolding add_in_loop
add_timer_in_loop a q = add_in_loop a (q.heap a) q

pub cancel_active : ℕ → ℕ → Option Timer → TimerQueue → TimerQueue
cancel_active a s none q = fault q
cancel_active a s (some t) q = record q {
  timers = take_out (t.expiration, a) q.timers;
  heap = put a none q.heap;
  active_timers = take_out (a, s) q.active_timers;
}

-- `cancelInLoop`
pub cancel_in_loop : ℕ → ℕ → TimerQueue → TimerQueue
unfolding cancel_active
cancel_in_loop a s q =
    if has (a, s) q.active_timers
    then cancel_active a s (q.heap a) q
    else if q.calling_expired_timers
    then record q { canceling_timers = put_in (a, s) q.canceling_timers }
    else q

abbrev pub uintptr_max : ℕ
uintptr_max = 2 ^ 64 - 1

abbrev pub erase_active : ℕ → Option Timer → TimerQueue → TimerQueue
erase_active a none q = fault q
erase_active a (some t) q = record q { active_timers = take_out (a, t.sequence) q.active_timers }

-- The loop of `getExpired`.
pub erase_all_active : List Pair → TimerQueue → TimerQueue
erase_all_active [] q = q
erase_all_active ((w, a) ∷ es) q = erase_all_active es (erase_active a (q.heap a) q)

-- `getExpired`
pub get_expired : ℕ → TimerQueue → List Pair × TimerQueue
unfolding erase_all_active
get_expired now q =
    let expired = before (now, uintptr_max) q.timers in
    (expired, erase_all_active expired (record q { timers = from (now, uintptr_max) q.timers }))

-- `handleRead` up to the loop of the callbacks; the timerfd has run down.
pub start_read : ℕ → TimerQueue → TimerQueue
unfolding get_expired
start_read now q =
    let (expired, q') = get_expired now (record q { armed = none; now = now }) in
    record q' {
      calling_expired_timers = true;
      canceling_timers = [];
      expired = expired;
      to_run = expired;
    }

abbrev pub run_timer : Option Timer → TimerQueue → TimerQueue
run_timer none q = fault q
run_timer (some t) q = record q { ran = t.sequence ∷ q.ran }

-- One round of the loop that calls the callbacks.
abbrev pub run_next : List Pair → TimerQueue → TimerQueue
run_next [] q = q
run_next ((w, a) ∷ es) q = run_timer (q.heap a) (record q { to_run = es })

pub reset_one : ℕ → ℕ → Option Timer → TimerQueue → TimerQueue
reset_one now a none q = fault q
reset_one now a (some t) q =
    if t.repeat && not (has (a, t.sequence) q.canceling_timers)
    then insert a (restart now t) (record q { heap = put a (some (restart now t)) q.heap })
    else record q { heap = put a none q.heap }

-- The loop of `reset`.
pub reset_all : ℕ → List Pair → TimerQueue → TimerQueue
unfolding reset_one
reset_all now [] q = q
reset_all now ((w, a) ∷ es) q = reset_all now es (reset_one now a (q.heap a) q)

arm : Option Timer → TimerQueue → TimerQueue
arm none q = fault q
arm (some t) q = if ltb invalid t.expiration then reset_timerfd t.expiration q else q

-- The end of `reset`.
pub arm_next : List Pair → TimerQueue → TimerQueue
unfolding arm
arm_next [] q = q
arm_next ((w, a) ∷ es) q = arm (q.heap a) q

-- `reset`
pub reset : ℕ → List Pair → TimerQueue → TimerQueue
unfolding reset_all arm_next
reset now expired q = let q' = reset_all now expired q in arm_next q'.timers q'

-- The end of `handleRead`.
pub finish_read : TimerQueue → TimerQueue
unfolding reset
finish_read q = record (reset q.now q.expired (record q { calling_expired_timers = false })) {
  expired = [];
}
