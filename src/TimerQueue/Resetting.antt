-- ===== src/TimerQueue/Resetting.antt =====
-- `reset` of net/TimerQueue.cc deletes the timers that were due, or puts them back into both sets.
use cu_ber.Prelude.{
  ℕ, ◌≡◌, arith, true, false, ◌&&◌, not, none, some, List, [], ◌∷◌, ltb, ◌⊎◌, if◌then◌else◌, put,
  Bool-cases, Option-cases, inl, inr, ◌==◌,
}
use cu_ber.Prelude.Pairs.{
  Pair, has, IsRising-tail, has-Above, has-put_in, put_in-IsRising, length-put_in,
}
use cu_ber.TimerQueue.{
  Timer, alarm, TimerQueue, restart, insert, reset_one, reset_all, arm, arm_next, reset,
  finish_read,
}
use cu_ber.TimerQueue.Places.{Place, absent, active, taken, has_time, taken_at, IsSound}
use cu_ber.TimerQueue.Adding.{other-IsSound}

-- The first of the timers that were taken out.
module _ (now w a : ℕ) (es : List Pair) (t : Timer) {place : ℕ → Place} {q : TimerQueue}
    (v : IsSound place ((w, a) ∷ es) q) (at : q.heap a ≡ some t) where
  was_taken : place a ≡ taken
  was_taken = unfold has in ground (arith, v.outs w a)

  pub outs_tail :
      (u b : ℕ)
      → has (u, b) es ≡ (if b == a then false else taken_at (place b) (has_time u (q.heap b)))
  unfolding has
  outs_tail u b = ground (arith, v.outs u b, v.outs w a, has-Above (w, a) es v.rising_expired)

  deleted-IsSound : IsSound (put a absent place) es (record q { heap = put a none q.heap })
  deleted-IsSound = record {
    rising_timers = v.rising_timers;
    rising_active = v.rising_active;
    rising_expired = IsRising-tail (w, a) es v.rising_expired;
    sizes = v.sizes;
    times = λ u b. ground (arith, v.times u b, was_taken);
    ids = λ b s. ground (arith, v.ids b s, was_taken);
    outs = λ u b. ground (arith, outs_tail u b);
    waits = λ b. ground (arith, v.waits b, was_taken);
    once = v.once;
    alive = λ b. ground (arith, v.alive b);
    low = λ b h. ground (arith, v.low b);
    old = λ b s h. ground (arith, v.old b s);
    unique = λ b c s h k. ground (arith, v.unique b c s);
    sane = v.sane;
  }

  abbrev again : Timer
  again = restart now t

  restarted-IsSound :
      IsSound
        (put a active place)
        es
        (insert a again (record q { heap = put a (some again) q.heap }))
  unfolding insert restart
  restarted-IsSound = record {
    rising_timers = put_in-IsRising (again.expiration, a) q.timers v.rising_timers;
    rising_active = put_in-IsRising (a, t.sequence) q.active_timers v.rising_active;
    rising_expired = IsRising-tail (w, a) es v.rising_expired;
    sizes = ground (
      arith,
      v.sizes,
      length-put_in (again.expiration, a) q.timers,
      length-put_in (a, t.sequence) q.active_timers,
      v.times again.expiration a,
      v.ids a t.sequence,
      was_taken,
    );
    times = λ u b.
        ground (arith, has-put_in (again.expiration, a) (u, b) q.timers, v.times u b, was_taken);
    ids = λ b s.
        ground (arith, has-put_in (a, t.sequence) (b, s) q.active_timers, v.ids b s, was_taken);
    outs = λ u b. ground (arith, outs_tail u b);
    waits = λ b. ground (arith, v.waits b, was_taken);
    once = v.once;
    alive = λ b. ground (arith, v.alive b, was_taken);
    low = λ b h. ground (arith, v.low b, at);
    old = λ b s h. ground (arith, v.old b s, v.old a s, at);
    unique = λ b c s h k. ground (arith, v.unique b c s, v.unique a c s, v.unique b a s, at);
    sane = v.sane;
  }

  pub reset_one-IsSound : (place' : ℕ → Place) × IsSound place' es (reset_one now a (some t) q)
  unfolding reset_one
  reset_one-IsSound = elim (Bool-cases (t.repeat && not (has (a, t.sequence) q.canceling_timers))) [
    | inl back ↦ (put a active place, rw back restarted-IsSound)
    | inr out ↦ (put a absent place, rw out deleted-IsSound)
  ]

-- A timer whose time stands in the first place has not been deleted.
pub head_alive :
    (w a : ℕ) (es : List Pair) {place : ℕ → Place} {q : TimerQueue}
    → IsSound place ((w, a) ∷ es) q
    → (t : Timer) × (q.heap a ≡ some t)
head_alive w a es {q = q} v = elim (Option-cases (q.heap a)) [
  | inl out ↦ absurd (unfold has in ground (arith, v.outs w a, out))
  | inr there ↦ there
]

pub reset_all-IsSound :
    (now : ℕ) (es : List Pair) {place : ℕ → Place} {q : TimerQueue}
    → IsSound place es q
    → (place' : ℕ → Place) × IsSound place' [] (reset_all now es q)
unfolding reset_all
reset_all-IsSound now [] {place} v = (place, v)
reset_all-IsSound now ((w, a) ∷ es) v =
    let (t, at) = head_alive w a es v in
    let (place', v') = reset_one-IsSound now w a es t v at in rw at (reset_all-IsSound now es v')

arm_next-IsSound :
    (es : List Pair) {place : ℕ → Place} {q : TimerQueue}
    → IsSound place [] q
    → ((w a : ℕ) → has (w, a) es ≡ true → has (w, a) q.timers ≡ true)
    → IsSound place [] (arm_next es q)
unfolding arm_next arm has
arm_next-IsSound [] v sub = v
arm_next-IsSound ((w, a) ∷ es) {place} {q} v sub = elim (Option-cases (q.heap a)) [
  | inl out ↦ absurd (ground (arith, sub w a, v.times w a, out))
  | inr (t, at) ↦ rw at (set t (Bool-cases (ltb 0 t.expiration)))
]
  where
    set :
        (t : Timer)
        → ((ltb 0 t.expiration ≡ true) ⊎ (ltb 0 t.expiration ≡ false))
        → IsSound place [] (arm (some t) q)
    set t (inl valid) = rw valid (
        other-IsSound (some (alarm q.clock t.expiration)) q.calling_expired_timers
          q.canceling_timers q.now q.expired q.to_run q.ran v)
    set t (inr invalid) = rw invalid v

pub finish_read-IsSound :
    {place : ℕ → Place} (q : TimerQueue)
    → IsSound place q.expired q
    → (place' : ℕ → Place) × IsSound place' [] (finish_read q)
unfolding finish_read reset
finish_read-IsSound q v =
    let started = record q { calling_expired_timers = false } in
    let same = other-IsSound q.armed false q.canceling_timers q.now q.expired q.to_run q.ran v in
    let (place', v') = reset_all-IsSound q.now q.expired same in
    let done = reset_all q.now q.expired started in
    let last = arm_next done.timers done in
    let v'' = arm_next-IsSound done.timers v' (λ w a h. h) in
    (
      place',
      other-IsSound last.armed last.calling_expired_timers last.canceling_timers last.now []
          last.to_run last.ran v'',
    )
