-- ===== src/TimerQueue/Adding.antt =====
-- Making, adding and cancelling a timer of net/TimerQueue.cc keeps the two sets in step.
use cu_ber.Prelude.{
  ℕ, ◌<◌, ◌≡◌, ap, subst, arith, Bool, true, Option, none, some, List, ◌∷◌, put, Bool-cases, inl,
  inr,
}
use cu_ber.Prelude.Pairs.{
  Pair, has, has-put_in, put_in-IsRising, length-put_in, take_out-IsRising, has-take_out,
  length-take_out,
}
use cu_ber.TimerQueue.{
  Timer, Setting, alarm, TimerQueue, add_timer, insert, add_in_loop, cancel_active, is_earliest,
  uintptr_max,
}
use cu_ber.TimerQueue.Places.{
  Place, absent, waiting, active, mem, IsDistinct, mem-append_last, append_last-IsDistinct, IsSound,
}

pub add_timer-IsSound :
    (a when interval : ℕ) (repeat : Bool) {place : ℕ → Place} {e : List Pair} {q : TimerQueue}
    → IsSound place e q
    → q.heap a ≡ none
    → a < uintptr_max
    → IsSound (put a waiting place) e (add_timer a when interval repeat q)
unfolding add_timer
add_timer-IsSound a when interval repeat {place} {e} {q} v free small = record {
  rising_timers = v.rising_timers;
  rising_active = v.rising_active;
  rising_expired = v.rising_expired;
  sizes = v.sizes;
  times = λ w b. ground (arith, v.times w b, v.alive a);
  ids = λ b s. ground (arith, v.ids b s, v.alive a);
  outs = λ w b. ground (arith, v.outs w b, v.alive a);
  waits = λ b. ground (arith, v.waits b, mem-append_last b a q.queued);
  once = append_last-IsDistinct a q.queued v.once (ground (arith, v.waits a, v.alive a));
  alive = λ b. ground (arith, v.alive b);
  low = λ b h. ground (arith, v.low b);
  old = λ b s h. ground (arith, v.old b s);
  unique = λ b c s h k. ground (arith, v.unique b c s, v.old b s, v.old c s);
  sane = v.sane;
}

-- Nothing depends on the time that the timerfd waits for, or on how far `handleRead` has come.
pub other-IsSound :
    (w : Option Setting) (c : Bool) (k : List Pair) (n : ℕ) (x r : List Pair) (l : List ℕ)
    {place : ℕ → Place} {e : List Pair} {q : TimerQueue}
    → IsSound place e q
    → IsSound place e (record q {
      armed = w;
      calling_expired_timers = c;
      canceling_timers = k;
      now = n;
      expired = x;
      to_run = r;
      ran = l;
    })
other-IsSound w c k n x r l v = record {
  rising_timers = v.rising_timers;
  rising_active = v.rising_active;
  rising_expired = v.rising_expired;
  sizes = v.sizes;
  times = v.times;
  ids = v.ids;
  outs = v.outs;
  waits = v.waits;
  once = v.once;
  alive = v.alive;
  low = v.low;
  old = v.old;
  unique = v.unique;
  sane = v.sane;
}

pub clock-IsSound :
    (n : ℕ) {place : ℕ → Place} {e : List Pair} {q : TimerQueue}
    → IsSound place e q
    → IsSound place e (record q { clock = n })
clock-IsSound n v = record {
  rising_timers = v.rising_timers;
  rising_active = v.rising_active;
  rising_expired = v.rising_expired;
  sizes = v.sizes;
  times = v.times;
  ids = v.ids;
  outs = v.outs;
  waits = v.waits;
  once = v.once;
  alive = v.alive;
  low = v.low;
  old = v.old;
  unique = v.unique;
  sane = v.sane;
}

-- The first of the calls that wait puts its timer into both sets.
module _ (a : ℕ) (rest : List ℕ) (t : Timer) {place : ℕ → Place} {e : List Pair} {q : TimerQueue}
    (v : IsSound place e q) (first : q.queued ≡ a ∷ rest) (at : q.heap a ≡ some t) where
  waits_there : place a ≡ waiting
  waits_there = ground (arith, v.waits a, ap (mem a) first)

  alone : IsDistinct (a ∷ rest)
  alone = subst IsDistinct first v.once

  inserted-IsSound : IsSound (put a active place) e (insert a t (record q { queued = rest }))
  unfolding insert
  inserted-IsSound = record {
    rising_timers = put_in-IsRising (t.expiration, a) q.timers v.rising_timers;
    rising_active = put_in-IsRising (a, t.sequence) q.active_timers v.rising_active;
    rising_expired = v.rising_expired;
    sizes = ground (
      arith,
      v.sizes,
      length-put_in (t.expiration, a) q.timers,
      length-put_in (a, t.sequence) q.active_timers,
      v.times t.expiration a,
      v.ids a t.sequence,
      waits_there,
    );
    times = λ w b.
        ground (arith, has-put_in (t.expiration, a) (w, b) q.timers, v.times w b, waits_there);
    ids = λ b s.
        ground (arith, has-put_in (a, t.sequence) (b, s) q.active_timers, v.ids b s, waits_there);
    outs = λ w b. ground (arith, v.outs w b, waits_there);
    waits = λ b. ground (arith, v.waits b, ap (mem b) first, alone);
    once = alone.1;
    alive = λ b. ground (arith, v.alive b, waits_there);
    low = v.low;
    old = v.old;
    unique = v.unique;
    sane = v.sane;
  }

  pub add_in_loop-IsSound :
      IsSound (put a active place) e (add_in_loop a (some t) (record q { queued = rest }))
  unfolding add_in_loop insert
  add_in_loop-IsSound = elim (Bool-cases (is_earliest t.expiration q.timers)) [
    | inl first' ↦ rw first' (
        other-IsSound (some (alarm q.clock t.expiration)) q.calling_expired_timers
          q.canceling_timers q.now q.expired q.to_run q.ran inserted-IsSound)
    | inr later ↦ rw later inserted-IsSound
  ]

pub cancel_active-IsSound :
    (a s : ℕ) (t : Timer) {place : ℕ → Place} {e : List Pair} {q : TimerQueue}
    → IsSound place e q
    → q.heap a ≡ some t
    → has (a, s) q.active_timers ≡ true
    → IsSound (put a absent place) e (cancel_active a s (some t) q)
unfolding cancel_active
cancel_active-IsSound a s t {place} {e} {q} v at on =
    let there : place a ≡ active = ground (arith, v.ids a s) in
    let same : t.sequence ≡ s = ground (arith, v.ids a s) in
    record {
      rising_timers = take_out-IsRising (t.expiration, a) q.timers v.rising_timers;
      rising_active = take_out-IsRising (a, s) q.active_timers v.rising_active;
      rising_expired = v.rising_expired;
      sizes = ground (
        arith,
        v.sizes,
        length-take_out (t.expiration, a) q.timers,
        length-take_out (a, s) q.active_timers,
        v.times t.expiration a,
      );
      times = λ w b.
          ground
            (arith, has-take_out (t.expiration, a) (w, b) q.timers v.rising_timers, v.times w b);
      ids = λ b r.
          ground (arith, has-take_out (a, s) (b, r) q.active_timers v.rising_active, v.ids b r);
      outs = λ w b. ground (arith, v.outs w b);
      waits = λ b. ground (arith, v.waits b);
      once = v.once;
      alive = λ b. ground (arith, v.alive b);
      low = λ b h. ground (arith, v.low b);
      old = λ b r h. ground (arith, v.old b r);
      unique = λ b c r h k. ground (arith, v.unique b c r);
      sane = v.sane;
    }
