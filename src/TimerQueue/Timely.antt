-- ===== src/TimerQueue/Timely.antt =====
-- The time that the timerfd of net/TimerQueue.cc waits for, against the times of the timers.
use cu_ber.Prelude.{
  ℕ, ◌+◌, ◌||◌, ◌≤◌, ◌<◌, ◌≡◌, arith, Bool, true, false, Option, none, some, List, [], ◌∷◌,
  if◌then◌else◌, leb, Bool-cases, inl, inr,
}
use cu_ber.Prelude.Pairs.{Pair, has, put_in, Above, IsRising, has-put_in, has-take_out}
use cu_ber.TimerQueue.{
  Timer, Setting, TimerQueue, is_earliest, insert, add_in_loop, cancel_active, cancel_in_loop,
}
use cu_ber.TimerQueue.Places.{has_time}

-- The timerfd runs down by then, or a hundred microseconds after it was set.
abbrev pub in_time : ℕ → Option Setting → Bool
in_time w none = false
in_time w (some t) = leb t.rings w || leb t.rings (t.set_at + 100)

-- The timerfd does not run down after one of the timers, but for that.
abbrev pub AllInTime : List Pair → Option Setting → Type 0
AllInTime xs o = (w a : ℕ) → has (w, a) xs ≡ true → in_time w o ≡ true

pub first_lem :
    (x : Pair) (xs : List Pair) (w a : ℕ) → Above x xs → has (w, a) (x ∷ xs) ≡ true → x.0 ≤ w
unfolding has
first_lem (v, b) [] w a r h = ground arith
first_lem (v, b) ((u, c) ∷ xs) w a r h = ground (arith, first_lem (u, c) xs w a)

earliest_lem :
    (when : ℕ) (xs : List Pair) (w a : ℕ)
    → is_earliest when xs ≡ true
    → IsRising xs
    → has (w, a) xs ≡ true
    → when ≤ w
earliest_lem when [] w a e r h = unfold has in ground arith
earliest_lem when ((v, b) ∷ xs) w a e r h = ground (arith, first_lem (v, b) xs w a r h)

late_lem :
    (when : ℕ) (xs : List Pair) (o : Option Setting)
    → is_earliest when xs ≡ false
    → AllInTime xs o
    → in_time when o ≡ true
unfolding has
late_lem when [] o e all = cc
late_lem when ((v, b) ∷ xs) none e all = ground (arith, all v b)
late_lem when ((v, b) ∷ xs) (some t) e all = ground (arith, all v b)

-- The times of all timers are valid, and the timerfd is right outside `handleRead`.
pub record IsTimely (q : TimerQueue) : Type 0 where
  pub positive : (a w : ℕ) → has_time w (q.heap a) ≡ true → 0 < w
  pub clock : q.calling_expired_timers ≡ true → 0 < q.now
  pub set : q.calling_expired_timers ≡ false → AllInTime q.timers q.armed

pub add_in_loop-IsTimely :
    (a : ℕ) (o : Option Timer) (q : TimerQueue)
    → IsRising q.timers
    → IsTimely q
    → IsTimely (add_in_loop a o q)
unfolding add_in_loop insert
add_in_loop-IsTimely a none q r t = record { positive = t.positive; clock = t.clock; set = t.set }
add_in_loop-IsTimely a (some u) q r t = elim (Bool-cases (is_earliest u.expiration q.timers)) [
  | inl first ↦ rw first (record {
    positive = t.positive;
    clock = t.clock;
    set = λ c w b h. ground (
      arith,
      has-put_in (u.expiration, a) (w, b) q.timers,
      earliest_lem u.expiration q.timers w b first r,
    );
  })
  | inr later ↦ rw later (record {
    positive = t.positive;
    clock = t.clock;
    set = λ c w b h. ground (
      arith,
      has-put_in (u.expiration, a) (w, b) q.timers,
      late_lem u.expiration q.timers q.armed later (t.set c),
      t.set c w b,
    );
  })
]

pub cancel-IsTimely :
    (a s : ℕ) (q : TimerQueue) → IsRising q.timers → IsTimely q → IsTimely (cancel_in_loop a s q)
unfolding cancel_in_loop
cancel-IsTimely a s q r t = elim (Bool-cases (has (a, s) q.active_timers)) [
  | inl on ↦ rw on (found (q.heap a))
  | inr off ↦ rw off (marked q.calling_expired_timers)
]
  where
    found : (o : Option Timer) → IsTimely (cancel_active a s o q)
    found none = record { positive = t.positive; clock = t.clock; set = t.set }
    found (some u) = record {
      positive = λ b w. ground (arith, t.positive b w);
      clock = t.clock;
      set =
          λ c w b h. ground (arith, has-take_out (u.expiration, a) (w, b) q.timers r, t.set c w b);
    }

    marked :
        (b : Bool)
        → IsTimely
            (if b then record q { canceling_timers = put_in (a, s) q.canceling_timers } else q)
    marked true = record { positive = t.positive; clock = t.clock; set = t.set }
    marked false = t
