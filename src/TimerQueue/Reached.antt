-- ===== src/TimerQueue/Reached.antt =====
-- In every order of events the two sets of net/TimerQueue.cc describe the same timers.
use cu_ber.Prelude.{
  ℕ, ◌≡◌, ◌≢◌, refl, sym, ap, ◌∙◌, subst, arith, Bool, true, false, some, List, [], ◌∷◌,
  if◌then◌else◌, length, put, Bool-cases, Option-cases, inl, inr, ◌⊎◌, ◌↔◌,
}
use cu_ber.Prelude.Pairs.{Pair, has, put_in, before}
use cu_ber.TimerQueue.{
  Timer, TimerQueue, add_timer, add_timer_in_loop, cancel_in_loop, get_expired, start_read,
  run_next, finish_read, uintptr_max,
}
use cu_ber.TimerQueue.Steps.{
  Event, makes, adds, runs_callback, finishes, cancels, alarms, ticks, add_next, step, CanHappen,
  Reachable, fresh, stepped,
}
use cu_ber.TimerQueue.Places.{Place, absent, waiting, active, mem, IsSound}
use cu_ber.TimerQueue.Adding.{
  add_timer-IsSound, other-IsSound, clock-IsSound, add_in_loop-IsSound, cancel_active-IsSound,
}
use cu_ber.TimerQueue.Taking.{taken_out, start_read-IsSound}
use cu_ber.TimerQueue.Resetting.{finish_read-IsSound}
use cu_ber.TimerQueue.Phases.{
  IsSamePhase, reset-IsSamePhase, add_timer_in_loop-IsSamePhase, cancel_in_loop-IsSamePhase,
}

-- The whole invariant: outside `handleRead` nothing has been taken out, and the callbacks that are
-- still to be called are of timers that have been.
pub record IsSettled (q : TimerQueue) : Type 0 where
  pub place : ℕ → Place
  pub sound : IsSound place q.expired q
  pub quiet : q.calling_expired_timers ≡ false → q.expired ≡ []
  pub running : (w a : ℕ) → has (w, a) q.to_run ≡ true → has (w, a) q.expired ≡ true

settled :
    (r : TimerQueue) (place : ℕ → Place) {q : TimerQueue}
    → IsSettled q
    → IsSamePhase q r
    → IsSound place q.expired r
    → IsSettled r
settled r place {q} s p v = record {
  place = place;
  sound = subst (λ e. IsSound place e r) (sym p.out) v;
  quiet = λ c. p.out ∙ s.quiet (sym p.calling ∙ c);
  running = λ w a h. ap (has (w, a)) p.out ∙ s.running w a (sym (ap (has (w, a)) p.running) ∙ h);
}

add_next-IsSettled :
    (as' : List ℕ) (q : TimerQueue) → q.queued ≡ as' → IsSettled q → IsSettled (add_next as' q)
add_next-IsSettled [] q e s = s
add_next-IsSettled (a ∷ as') q e s = elim (Option-cases (q.heap a)) [
  | inl out ↦ absurd (ground (arith, s.sound.waits a, s.sound.alive a, ap (mem a) e, out))
  | inr (t, at) ↦
      let same = add_timer_in_loop-IsSamePhase a (record q { queued = as' }) in
      settled (add_timer_in_loop a (record q { queued = as' })) (put a active s.place) s
        (record {
          calling = same.calling;
          running = same.running;
          out = same.out;
          past = same.past;
          time = same.time;
        })
        (unfold add_timer_in_loop in rw at (add_in_loop-IsSound a as' t s.sound e at))
]

cancel-IsSettled : (a k : ℕ) (q : TimerQueue) → IsSettled q → IsSettled (cancel_in_loop a k q)
cancel-IsSettled a k q s = elim (Bool-cases (has (a, k) q.active_timers)) [
  | inl on ↦ (elim (Option-cases (q.heap a)) [
    | inl out ↦ absurd (ground (arith, s.sound.ids a k, out, on))
    | inr (t, at) ↦
        settled (cancel_in_loop a k q) (put a absent s.place) s (cancel_in_loop-IsSamePhase a k q)
          (unfold cancel_in_loop in rw (on, at) (cancel_active-IsSound a k t s.sound at on))
  ])
  | inr off ↦
      settled (cancel_in_loop a k q) s.place s (cancel_in_loop-IsSamePhase a k q)
        (unfold cancel_in_loop in rw off (marked (Bool-cases q.calling_expired_timers)))
]
  where
    marked :
        ((q.calling_expired_timers ≡ true) ⊎ (q.calling_expired_timers ≡ false))
        → IsSound s.place q.expired (
            if q.calling_expired_timers
            then record q { canceling_timers = put_in (a, k) q.canceling_timers }
            else q)
    marked (inl c) = simp c (
        other-IsSound q.armed true (put_in (a, k) q.canceling_timers) q.now q.expired q.to_run q.ran
          s.sound)
    marked (inr c) = simp c s.sound

run_next-IsSettled :
    (es : List Pair) (q : TimerQueue) → q.to_run ≡ es → IsSettled q → IsSettled (run_next es q)
unfolding has
run_next-IsSettled [] q e s = s
run_next-IsSettled ((w, a) ∷ es) q e s = elim (Option-cases (q.heap a)) [
  | inl out ↦ absurd (ground (arith, s.running w a, s.sound.outs w a, ap (has (w, a)) e, out))
  | inr (t, at) ↦ rw at (record {
    place = s.place;
    sound =
        other-IsSound q.armed q.calling_expired_timers q.canceling_timers q.now q.expired es
          (t.sequence ∷ q.ran) s.sound;
    quiet = s.quiet;
    running = λ v b h. ground (arith, s.running v b, ap (has (v, b)) e);
  })
]

pub finished_lem :
    (q : TimerQueue)
    → q.to_run ≡ []
    → ((finish_read q).to_run ≡ [])
      × ((finish_read q).expired ≡ [])
      × ((finish_read q).calling_expired_timers ≡ false)
      × ((finish_read q).ran ≡ q.ran)
unfolding finish_read
finished_lem q e =
    let same = reset-IsSamePhase q.now q.expired (record q { calling_expired_timers = false }) in
    (same.running ∙ e, refl, same.calling, same.past)

pub started_lem :
    (now : ℕ) (q : TimerQueue)
    → ((start_read now q).calling_expired_timers ≡ true)
      × ((start_read now q).to_run ≡ (start_read now q).expired)
      × ((start_read now q).expired ≡ before (now, uintptr_max) q.timers)
unfolding start_read get_expired
started_lem now q = (refl, refl, refl)

add_timer-IsSamePhase :
    (a when interval : ℕ) (repeat : Bool) (q : TimerQueue)
    → IsSamePhase q (add_timer a when interval repeat q)
unfolding add_timer
add_timer-IsSamePhase a when interval repeat q = record {
  calling = refl;
  running = refl;
  out = refl;
  past = refl;
  time = refl;
}

no_pair : (k : Pair) {xs : List Pair} → xs ≡ [] → has k xs ≢ true
unfolding has
no_pair k e h = cc (ap (has k) e, h)

finish-IsSettled : (q : TimerQueue) → q.to_run ≡ [] → IsSettled q → IsSettled (finish_read q)
finish-IsSettled q e s =
    let (place, v) = finish_read-IsSound q s.sound in
    let (done, none_left, off, past) = finished_lem q e in
    record {
      place = place;
      sound = subst (λ x. IsSound place x (finish_read q)) (sym none_left) v;
      quiet = λ c. none_left;
      running = λ w a h. absurd (no_pair (w, a) done h);
    }

start-IsSettled :
    (now : ℕ) (q : TimerQueue)
    → q.calling_expired_timers ≡ false
    → IsSettled q
    → IsSettled (start_read now q)
start-IsSettled now q quiet s =
    let (on, all, due) = started_lem now q in
    record {
      place = taken_out now s.place q;
      sound =
          subst (λ x. IsSound (taken_out now s.place q) x (start_read now q)) (sym due)
            (start_read-IsSound now (subst (λ e. IsSound s.place e q) (s.quiet quiet) s.sound));
      quiet = λ c. cc (on, c);
      running = λ w a h. sym (ap (has (w, a)) all) ∙ h;
    }

step-IsSettled :
    (ev : Event) (q : TimerQueue) → IsSettled q → CanHappen ev q → IsSettled (step ev q)
step-IsSettled (makes a when interval repeat) q s (free, small, valid) =
    settled (add_timer a when interval repeat q) (put a waiting s.place) s
      (add_timer-IsSamePhase a when interval repeat q)
      (add_timer-IsSound a when interval repeat s.sound free small)
step-IsSettled adds q s m = add_next-IsSettled q.queued q refl s
step-IsSettled (cancels a k) q s m = cancel-IsSettled a k q s
step-IsSettled (alarms now) q s (quiet, due, valid) = start-IsSettled now q quiet s
step-IsSettled (ticks now) q s m = record {
  place = s.place;
  sound = clock-IsSound now s.sound;
  quiet = s.quiet;
  running = s.running;
}
step-IsSettled runs_callback q s m = run_next-IsSettled q.to_run q refl s
step-IsSettled finishes q s (calling, over) = finish-IsSettled q over s

pub reachable-IsSettled : {q : TimerQueue} → Reachable q → IsSettled q
unfolding has
reachable-IsSettled fresh = record {
  place = λ a. absent;
  sound = record {
    rising_timers = tt;
    rising_active = tt;
    rising_expired = tt;
    sizes = refl;
    times = λ w a. refl;
    ids = λ a s. refl;
    outs = λ w a. refl;
    waits = λ a. refl;
    once = tt;
    alive = λ a. refl;
    low = λ a h. cc;
    old = λ a s h. cc;
    unique = λ a b s h k. cc;
    sane = refl;
  };
  quiet = λ c. refl;
  running = λ w a h. cc;
}
reachable-IsSettled (stepped {q} e r m) = step-IsSettled e q (reachable-IsSettled r) m

-- In every order of events the two sets of timers agree: they have the same size, as the asserts say,
-- an entry with a time and an address is in the one just when the timer at that address has that
-- time and its id is in the other, and no timer is used after it was deleted.
pub sets_agree :
    {q : TimerQueue}
    → Reachable q
    → (length q.timers ≡ length q.active_timers)
      × (q.faulty ≡ false)
      × ((w a : ℕ)
          → (has (w, a) q.timers ≡ true) ↔ (
              (t : Timer) × (q.heap a ≡ some t)
              × (t.expiration ≡ w)
              × (has (a, t.sequence) q.active_timers ≡ true)))
sets_agree {q} r =
    let v = (reachable-IsSettled r).sound in
    (
      v.sizes,
      v.sane,
      λ w a. (
        λ h. elim (Option-cases (q.heap a)) [
          | inl out ↦ absurd (ground (arith, v.times w a, out))
          | inr (t, at) ↦ (
            t,
            at,
            ground (arith, v.times w a, at),
            ground (arith, v.times w a, v.ids a t.sequence, at),
          )
        ],
        λ (t, at, e, h). ground (arith, v.times w a, v.ids a t.sequence, at),
      ),
    )
