-- ===== src/EventLoop/Functors.antt =====
-- Every functor that is queued for a loop of net/EventLoop.cc is called once, in order, and a loop
-- that has something to do does not sleep.
use cu_ber.Prelude.{
  ℕ, zero, suc, ◌+◌, ◌<◌, ◌≡◌, ◌≢◌, refl, sym, ap, ◌∙◌, arith, Bool, true, false, ◌||◌, List, [],
  ◌∷◌, ◌++◌, append-nil, append_assoc, Bool-cases, inl, inr, ◌⊎◌,
}
use cu_ber.EventLoop.{
  Phase, idle, polling, handling, calling, ended, EventLoop, is_calling, start_loop, wakeup,
  queue_in_loop, run_in_loop, quit_loop, poll_returns, handle_read, take_functors, call_functor,
  end_round,
}
use cu_ber.EventLoop.Steps.{
  Event, starts, wakes, poll_ends, reads, takes, calls, ends, queues, runs, quits, wake_next, step,
  CanHappen, Reachable, fresh, stepped,
}

abbrev is_some : List ℕ → Bool
is_some [] = false
is_some (f ∷ fs) = true

-- The loop is about to sleep, or may before it looks at the functors again, with something to do.
abbrev must_wake : Phase → Bool → Bool → Bool
must_wake idle some_pending quitting = some_pending
must_wake polling some_pending quitting = some_pending || quitting
must_wake handling some_pending quitting = false
must_wake calling some_pending quitting = some_pending
must_wake ended some_pending quitting = false

record IsSound (l : EventLoop) : Type 0 where
  order : l.ran ++ (l.functors ++ l.pending_functors) ≡ l.queued
  awake : must_wake l.phase (is_some l.pending_functors) l.quit ≡ true → 0 < l.counter + l.wakers
  resting : is_calling l.phase ≡ false → l.functors ≡ []

one_more : (xs ys zs : List ℕ) (f : ℕ) → xs ++ (ys ++ (zs ++ f ∷ [])) ≡ (xs ++ (ys ++ zs)) ++ f ∷ []
one_more xs ys zs f = simp append_assoc

some_last : (f : ℕ) (xs : List ℕ) → is_some (xs ++ f ∷ []) ≡ true
some_last f [] = refl
some_last f (x ∷ xs) = refl

queued-IsSound :
    (f n k : ℕ) {l : EventLoop}
    → (must_wake l.phase true l.quit ≡ true → 0 < n + k)
    → IsSound l
    → IsSound (record l {
      pending_functors = l.pending_functors ++ f ∷ [];
      queued = l.queued ++ f ∷ [];
      counter = n;
      wakers = k;
    })
queued-IsSound f n k {l} up v = record {
  order = one_more l.ran l.functors l.pending_functors f ∙ ap (λ xs. xs ++ f ∷ []) v.order;
  awake = λ h. up (sym (ap (λ b. must_wake l.phase b l.quit) (some_last f l.pending_functors)) ∙ h);
  resting = v.resting;
}

queue-IsSound :
    (in_loop : Bool) (f : ℕ) (l : EventLoop)
    → CanHappen (queues in_loop f) l
    → IsSound l
    → IsSound (queue_in_loop in_loop f l)
unfolding queue_in_loop
queue-IsSound true f l m v = elim (Bool-cases (is_calling l.phase)) [
  | inl on ↦ rw on (queued-IsSound f (suc l.counter) l.wakers (λ h. omega arith) v)
  | inr off ↦ rw off (queued-IsSound f l.counter l.wakers (λ h. ground (arith, off, m)) v)
]
queue-IsSound false f l m v = queued-IsSound f l.counter (suc l.wakers) (λ h. omega arith) v

wake_next-IsSound : (n : ℕ) (l : EventLoop) → l.wakers ≡ n → IsSound l → IsSound (wake_next n l)
unfolding wakeup
wake_next-IsSound zero l e v = v
wake_next-IsSound (suc n) l e v = record {
  order = v.order;
  awake = λ h. omega (arith, v.awake h, e);
  resting = v.resting;
}

quit-IsSound :
    (in_loop : Bool) (l : EventLoop)
    → CanHappen (quits in_loop) l
    → IsSound l
    → IsSound (quit_loop in_loop l)
unfolding quit_loop
quit-IsSound true l m v = record {
  order = v.order;
  awake = λ h. ground (arith, v.awake, m);
  resting = v.resting;
}
quit-IsSound false l m v = record { order = v.order; awake = λ h. omega arith; resting = v.resting }

call-IsSound :
    (fs : List ℕ) (l : EventLoop)
    → l.functors ≡ fs
    → l.phase ≡ calling
    → IsSound l
    → IsSound (call_functor fs l)
unfolding call_functor
call-IsSound [] l e on v = v
call-IsSound (f ∷ fs) l e on v = record {
  order =
      append_assoc l.ran (f ∷ []) (fs ++ l.pending_functors)
      ∙ ap (λ xs. l.ran ++ (xs ++ l.pending_functors)) (sym e)
      ∙ v.order;
  awake = v.awake;
  resting = λ off. cc;
}

step-IsSound : (e : Event) (l : EventLoop) → CanHappen e l → IsSound l → IsSound (step e l)
unfolding start_loop poll_returns handle_read take_functors end_round run_in_loop
step-IsSound starts l m v = record {
  order = v.order;
  awake = λ h. ground (arith, v.awake, m);
  resting = λ off. v.resting (ap is_calling m);
}
step-IsSound wakes l m v = wake_next-IsSound l.wakers l refl v
step-IsSound poll_ends l m v = record {
  order = v.order;
  awake = λ h. cc;
  resting = λ off. v.resting (ap is_calling m);
}
step-IsSound reads l m v = record {
  order = v.order;
  awake = λ h. ground (arith, m);
  resting = v.resting;
}
step-IsSound takes l m v = record {
  order =
      ap (λ xs. l.ran ++ xs) (append-nil l.pending_functors)
      ∙ ap (λ xs. l.ran ++ (xs ++ l.pending_functors)) (sym (v.resting (ap is_calling m)))
      ∙ v.order;
  awake = λ h. cc;
  resting = λ off. cc;
}
step-IsSound calls l m v = call-IsSound l.functors l refl m v
step-IsSound ends l (on, over) v = record {
  order = v.order;
  awake = λ h. ground (arith, v.awake, on);
  resting = λ off. over;
}
step-IsSound (queues in_loop f) l m v = queue-IsSound in_loop f l m v
step-IsSound (runs true f) l m v = record { order = v.order; awake = v.awake; resting = v.resting }
step-IsSound (runs false f) l m v = queue-IsSound false f l tt v
step-IsSound (quits in_loop) l m v = quit-IsSound in_loop l m v

reachable-IsSound : {l : EventLoop} → Reachable l → IsSound l
reachable-IsSound fresh = record { order = refl; awake = λ h. cc; resting = λ off. refl }
reachable-IsSound (stepped {l} e r m) = step-IsSound e l m (reachable-IsSound r)

-- In every interleaving of the loop with other threads, the functors that were called, then those that
-- the loop has taken, then those that wait are all that were queued, in the order of queueing: none is
-- lost, called twice or overtaken.
pub functors_in_order :
    {l : EventLoop} → Reachable l → l.ran ++ (l.functors ++ l.pending_functors) ≡ l.queued
functors_in_order r = (reachable-IsSound r).order

pending_some : (xs : List ℕ) → xs ≢ [] → is_some xs ≡ true
pending_some [] n = absurd (n refl)
pending_some (x ∷ xs) n = refl

-- No wakeup is lost: in every interleaving in which code in the thread of the loop queues only while
-- the loop runs, a loop that polls while functors wait, or while its flag `quit_` is set, has its
-- eventfd set, or another thread is about to set it. The start of `loop` clears the flag, so a `quit`
-- before it is forgotten, and is not covered.
pub wakeup_is_due :
    {l : EventLoop}
    → Reachable l
    → l.phase ≡ polling
    → (l.pending_functors ≢ []) ⊎ (l.quit ≡ true)
    → 0 < l.counter + l.wakers
wakeup_is_due {l} r on (inl waiting) =
    ground (arith, (reachable-IsSound r).awake, on, pending_some l.pending_functors waiting)
wakeup_is_due {l} r on (inr quitting) = ground (arith, (reachable-IsSound r).awake, on, quitting)

-- All functors that a round takes, called one after the other.
pub call_all : List ℕ → EventLoop → EventLoop
call_all [] l = l
call_all (f ∷ fs) l = call_all fs (call_functor (f ∷ fs) l)

call_all_ran : (fs : List ℕ) (l : EventLoop) → (call_all fs l).ran ≡ l.ran ++ fs
unfolding call_all call_functor
call_all_ran [] l = sym (append-nil l.ran)
call_all_ran (f ∷ fs) l =
    call_all_ran fs (record l { functors = fs; ran = l.ran ++ f ∷ [] })
    ∙ append_assoc l.ran (f ∷ []) fs

-- A round of the loop in which nobody else does anything calls everything that was queued before it.
pub round_calls_all :
    {l : EventLoop}
    → Reachable l
    → l.phase ≡ polling
    → let r = take_functors (poll_returns l) in (call_all r.functors r).ran ≡ l.queued
unfolding take_functors poll_returns
round_calls_all {l} r on =
    let v = reachable-IsSound r in
    call_all_ran l.pending_functors _
    ∙ ap (λ xs. l.ran ++ (xs ++ l.pending_functors)) (sym (v.resting (ap is_calling on)))
    ∙ v.order
