-- ===== src/TimerQueue/Cancelled.antt =====
-- A timer of net/TimerQueue.cc that has been cancelled is not run again.
use cu_ber.Prelude.{
  ℕ, ◌≤◌, ◌≡◌, ◌≢◌, refl, sym, ap, ◌∙◌, subst, arith, true, false, Option, none, some, List, [],
  ◌∷◌, if◌then◌else◌, Bool-cases, Option-cases, inl, inr, ◌⊎◌,
}
use cu_ber.Prelude.Pairs.{Pair, has, put_in, has-put_in}
use cu_ber.TimerQueue.{
  Timer, TimerQueue, add_timer, insert, cancel_active, cancel_in_loop, run_timer, run_next, restart,
  reset_one, reset_all, arm, arm_next, reset, finish_read,
}
use cu_ber.TimerQueue.Steps.{
  Event, makes, adds, runs_callback, finishes, cancels, alarms, ticks, add_next, step, CanHappen,
  Reachable, stepped, Later, here, later,
}
use cu_ber.TimerQueue.Places.{mem, has_sequence}
use cu_ber.TimerQueue.Phases.{add_timer_in_loop-IsSamePhase, cancel_in_loop-IsSamePhase}
use cu_ber.TimerQueue.Reached.{IsSettled, reachable-IsSettled, finished_lem}
use cu_ber.TimerQueue.Repeats.{finish_lem, arm_next-heap}
use cu_ber.TimerQueue.Over.{
  IsOver, count, add_timer-IsOver, add_next-IsOver, cancel-IsOver, start-IsOver,
}

-- `reset` makes no timer and keeps the numbers.
reset_one_sequence :
    (s now b : ℕ) (o : Option Timer) (q : TimerQueue) (a : ℕ)
    → q.heap b ≡ o
    → has_sequence s ((reset_one now b o q).heap a) ≡ true
    → has_sequence s (q.heap a) ≡ true
unfolding reset_one insert restart
reset_one_sequence s now b none q a e h = h
reset_one_sequence s now b (some t) q a e h = ground (arith, e, h)

created-reset_one :
    (now b : ℕ) (o : Option Timer) (q : TimerQueue)
    → (reset_one now b o q).num_created ≡ q.num_created
unfolding reset_one insert
created-reset_one now b none q = refl
created-reset_one now b (some t) q = ground arith

reset_all_sequence :
    (s now : ℕ) (es : List Pair) (q : TimerQueue) (a : ℕ)
    → has_sequence s ((reset_all now es q).heap a) ≡ true
    → has_sequence s (q.heap a) ≡ true
unfolding reset_all
reset_all_sequence s now [] q a h = h
reset_all_sequence s now ((w, b) ∷ es) q a h =
    reset_one_sequence s now b (q.heap b) q a refl
      (reset_all_sequence s now es (reset_one now b (q.heap b) q) a h)

created-reset_all :
    (now : ℕ) (es : List Pair) (q : TimerQueue) → (reset_all now es q).num_created ≡ q.num_created
unfolding reset_all
created-reset_all now [] q = refl
created-reset_all now ((w, b) ∷ es) q =
    created-reset_all now es (reset_one now b (q.heap b) q) ∙ created-reset_one now b (q.heap b) q

created-arm_next : (es : List Pair) (q : TimerQueue) → (arm_next es q).num_created ≡ q.num_created
unfolding arm_next arm
created-arm_next [] q = refl
created-arm_next ((w, a) ∷ es) q = ground arith

finish_sequence :
    (s : ℕ) (q : TimerQueue) (a : ℕ)
    → (has_sequence s ((finish_read q).heap a) ≡ true → has_sequence s (q.heap a) ≡ true)
      × ((finish_read q).num_created ≡ q.num_created)
unfolding finish_read reset
finish_sequence s q a =
    let q0 = record q { calling_expired_timers = false } in
    let left = reset_all q.now q.expired q0 in
    (
      λ h.
          reset_all_sequence s q.now q.expired q0 a
            (sym (ap (λ f. has_sequence s (f a)) (arm_next-heap left.timers left).0) ∙ h),
      created-arm_next left.timers left ∙ created-reset_all q.now q.expired q0,
    )

finish-IsOver : (s : ℕ) (q : TimerQueue) → IsSettled q → IsOver s q → IsOver s (finish_read q)
finish-IsOver s q c v = record {
  marked = λ a h. absurd (none_left a h);
  done = λ a w h. absurd (none_left a h);
  old = subst (λ n. s ≤ n) (sym (finish_sequence s q 0).1) v.old;
}
  where
    none_left : (a : ℕ) → has_sequence s ((finish_read q).heap a) ≢ true
    none_left a h = elim (Option-cases (q.heap a)) [
      | inl out ↦ ground (arith, (finish_sequence s q a).0 h, out)
      | inr (t, at) ↦
          let was = (finish_sequence s q a).0 h in
          let taken_out : has (t.expiration, a) q.expired ≡ true = ground (
            arith,
            v.marked a,
            was,
            at,
            c.sound.ids a s,
            c.sound.waits a,
            c.sound.alive a,
            c.sound.outs t.expiration a,
          ) in
          ground (arith, (finish_lem q t.expiration a t c taken_out at).0, v.marked a, was, at, h)
    ]

run_next-IsOver :
    (s : ℕ) (es : List Pair) (q : TimerQueue)
    → q.to_run ≡ es
    → IsOver s q
    → IsOver s (run_next es q) × (count s (run_next es q).ran ≡ count s q.ran)
unfolding has
run_next-IsOver s [] q e v = (v, refl)
run_next-IsOver s ((w, a) ∷ es) q e v = go (q.heap a) refl
  where
    fewer : (b u : ℕ) → has_sequence s (q.heap b) ≡ true → has (u, b) es ≡ false
    fewer b u h = ground (arith, v.done b u h, ap (has (u, b)) e)

    go :
        (o : Option Timer)
        → q.heap a ≡ o
        → IsOver s (run_timer o (record q { to_run = es }))
          × (count s (run_timer o (record q { to_run = es })).ran ≡ count s q.ran)
    go none at = (record { marked = v.marked; done = fewer; old = v.old }, refl)
    go (some t) at = (
      record { marked = v.marked; done = fewer; old = v.old },
      ground (arith, v.done a w, ap (has (w, a)) e, at),
    )

add_next-ran : (as' : List ℕ) (q : TimerQueue) → (add_next as' q).ran ≡ q.ran
add_next-ran [] q = refl
add_next-ran (a ∷ as') q = (add_timer_in_loop-IsSamePhase a (record q { queued = as' })).past

step-IsOver :
    (s : ℕ) (ev : Event) (q : TimerQueue)
    → IsSettled q
    → CanHappen ev q
    → IsOver s q
    → IsOver s (step ev q) × (count s (step ev q).ran ≡ count s q.ran)
step-IsOver s (makes a when interval repeat) q c (free, small, valid) v =
    (add_timer-IsOver s a when interval repeat q free v, unfold add_timer in refl)
step-IsOver s adds q c m v =
    (add_next-IsOver s q.queued q refl v, ap (count s) (add_next-ran q.queued q))
step-IsOver s (cancels a k) q c m v =
    (cancel-IsOver s a k q c v, ap (count s) (cancel_in_loop-IsSamePhase a k q).past)
step-IsOver s (alarms now) q c (quiet, due, valid) v =
    let (w, past) = start-IsOver s now q quiet v in (w, ap (count s) past)
step-IsOver s (ticks now) q c m v = (record { marked = v.marked; done = v.done; old = v.old }, refl)
step-IsOver s runs_callback q c m v = run_next-IsOver s q.to_run q refl v
step-IsOver s finishes q c (on, over) v =
    let (_, _, _, past) = finished_lem q over in (finish-IsOver s q c v, ap (count s) past)

Later-IsOver :
    (s : ℕ) {q r : TimerQueue}
    → Reachable q
    → IsOver s q
    → Later q r
    → Reachable r × IsOver s r × (count s r.ran ≡ count s q.ran)
Later-IsOver s reach v here = (reach, v, refl)
Later-IsOver s reach v (later {r} e l m) =
    let (reach', v', past) = Later-IsOver s reach v l in
    let (v'', past') = step-IsOver s e r (reachable-IsSettled reach') m v' in
    (stepped e reach' m, v'', past' ∙ past)

-- What is cancelled: the id of a timer that was made at that address and may be deleted; if it is not,
-- the loop has added it, and its callback is not one that `handleRead` is about to call.
pub record IsCancellable (a s : ℕ) (q : TimerQueue) : Type 0 where
  pub made : s ≤ q.num_created
  pub its_own : (b : ℕ) → has_sequence s (q.heap b) ≡ true → b ≡ a
  pub added : has_sequence s (q.heap a) ≡ true → mem a q.queued ≡ false
  pub not_next : (w : ℕ) → has_sequence s (q.heap a) ≡ true → has (w, a) q.to_run ≡ false

-- A timer that is neither in the sets nor waiting has been taken out, and `handleRead` is not done.
being_called :
    (a s : ℕ) (q : TimerQueue)
    → IsSettled q
    → IsCancellable a s q
    → has (a, s) q.active_timers ≡ false
    → has_sequence s (q.heap a) ≡ true
    → q.calling_expired_timers ≡ true
unfolding has
being_called a s q c k off h = elim (Bool-cases q.calling_expired_timers) [
  | inl on ↦ on
  | inr quiet ↦ (elim (Option-cases (q.heap a)) [
    | inl out ↦ ground (arith, out, h)
    | inr (t, at) ↦ ground (
      arith,
      c.sound.outs t.expiration a,
      ap (has (t.expiration, a)) (c.quiet quiet),
      c.sound.ids a s,
      c.sound.waits a,
      c.sound.alive a,
      k.added,
      off,
      h,
      at,
    )
  ])
]

cancelled-IsOver :
    (a s : ℕ) (q : TimerQueue) → IsSettled q → IsCancellable a s q → IsOver s (cancel_in_loop a s q)
unfolding cancel_in_loop cancel_active has
cancelled-IsOver a s q c k = elim (Bool-cases (has (a, s) q.active_timers)) [
  | inl on ↦ (elim (Option-cases (q.heap a)) [
    | inl out ↦ ground (arith, c.sound.ids a s, out, on)
    | inr (t, at) ↦
        rw (on, at)
          (record {
            marked = λ b h. ground (arith, k.its_own b);
            done = λ b w h. ground (arith, k.its_own b);
            old = k.made;
          })
  ])
  | inr off ↦ rw off (marked' (Bool-cases q.calling_expired_timers) off)
]
  where
    marked' :
        ((q.calling_expired_timers ≡ true) ⊎ (q.calling_expired_timers ≡ false))
        → has (a, s) q.active_timers ≡ false
        → IsOver s (
            if q.calling_expired_timers
            then record q { canceling_timers = put_in (a, s) q.canceling_timers }
            else q)
    marked' (inl on) off = rw on (record {
      marked = λ b h.
          ground (arith, k.its_own b, k.added, has-put_in (a, s) (b, s) q.canceling_timers, off);
      done = λ b w h. ground (arith, k.its_own b, k.not_next w);
      old = k.made;
    })
    marked' (inr quiet) off = rw quiet (record {
      marked = λ b h. ground (arith, k.its_own b, being_called a s q c k off, quiet);
      done = λ b w h. ground (arith, k.its_own b, k.not_next w);
      old = k.made;
    })

-- A cancelled timer never runs again: once the loop has cancelled a timer that it had added, in every
-- later order of events its callback is called as often as before, so not at all, whether the timer
-- was waiting, was already deleted, or repeats and is cancelled by its own callback or a later one.
pub cancelled_never_runs :
    {q r : TimerQueue} (a s : ℕ)
    → Reachable q
    → IsCancellable a s q
    → Later (cancel_in_loop a s q) r
    → count s r.ran ≡ count s q.ran
cancelled_never_runs {q} a s reach k l =
    let (_, _, past) =
      Later-IsOver s (stepped (cancels a s) reach tt)
        (cancelled-IsOver a s q (reachable-IsSettled reach) k) l in
    past ∙ ap (count s) (cancel_in_loop-IsSamePhase a s q).past
