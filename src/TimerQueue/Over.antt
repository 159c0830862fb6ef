-- ===== src/TimerQueue/Over.antt =====
-- A timer of net/TimerQueue.cc that has been cancelled stays so until `handleRead` ends.
use cu_ber.Prelude.{
  ℕ, ◌+◌, ◌≤◌, ◌≡◌, ◌≢◌, refl, sym, ap, ◌∙◌, subst, arith, Bool, true, false, Option, none, some,
  List, [], ◌∷◌, if◌then◌else◌, Bool-cases, inl, inr, ◌==◌,
}
use cu_ber.Prelude.Pairs.{has, before, from, has-put_in, has-take_out}
use cu_ber.TimerQueue.{
  Timer, Setting, alarm, TimerQueue, add_timer, is_earliest, insert, add_in_loop, add_timer_in_loop,
  cancel_active, cancel_in_loop, get_expired, start_read, uintptr_max,
}
use cu_ber.TimerQueue.Steps.{add_next}
use cu_ber.TimerQueue.Places.{mem, mem-append_last, has_sequence}
use cu_ber.TimerQueue.Reached.{IsSettled}
use cu_ber.TimerQueue.Alarm.{erase_all_heap}

abbrev pub count : ℕ → List ℕ → ℕ
count s [] = 0
count s (x ∷ xs) = (if x == s then 1 else 0) + count s xs

-- No timer with the number will run: there is none, or it was taken out, has been called, and is
-- marked as cancelled.
pub record IsOver (s : ℕ) (q : TimerQueue) : Type 0 where
  pub marked :
      (a : ℕ)
      → has_sequence s (q.heap a) ≡ true
      → (has (a, s) q.canceling_timers ≡ true)
        × (q.calling_expired_timers ≡ true)
        × (has (a, s) q.active_timers ≡ false)
        × (mem a q.queued ≡ false)
  pub done : (a w : ℕ) → has_sequence s (q.heap a) ≡ true → has (w, a) q.to_run ≡ false
  pub old : s ≤ q.num_created

pub add_timer-IsOver :
    (s a when interval : ℕ) (repeat : Bool) (q : TimerQueue)
    → q.heap a ≡ none
    → IsOver s q
    → IsOver s (add_timer a when interval repeat q)
unfolding add_timer
add_timer-IsOver s a when interval repeat q free v = record {
  marked = λ b h. ground (arith, v.marked b, mem-append_last b a q.queued, v.old);
  done = λ b w h. ground (arith, v.done b w, v.old);
  old = omega (arith, v.old);
}

-- Adding another timer, whatever the timerfd then waits for.
pub inserted-IsOver :
    (s a : ℕ) (rest : List ℕ) (t : Timer) (w : Option Setting) {q : TimerQueue}
    → q.queued ≡ a ∷ rest
    → q.heap a ≡ some t
    → IsOver s q
    → IsOver s (record (insert a t (record q { queued = rest })) { armed = w })
unfolding insert
inserted-IsOver s a rest t w {q} e at v = record {
  marked = λ b h.
      ground (arith, v.marked b, ap (mem b) e, has-put_in (a, t.sequence) (b, s) q.active_timers);
  done = v.done;
  old = v.old;
}

pub add_next-IsOver :
    (s : ℕ) (as' : List ℕ) (q : TimerQueue)
    → q.queued ≡ as'
    → IsOver s q
    → IsOver s (add_next as' q)
unfolding add_timer_in_loop add_in_loop insert
add_next-IsOver s [] q e v = v
add_next-IsOver s (a ∷ as') q e v = go (q.heap a) refl
  where
    go : (o : Option Timer) → q.heap a ≡ o → IsOver s (add_in_loop a o (record q { queued = as' }))
    go none at = record {
      marked = λ b h. ground (arith, v.marked b, ap (mem b) e);
      done = v.done;
      old = v.old;
    }
    go (some t) at = elim (Bool-cases (is_earliest t.expiration q.timers)) [
      | inl first ↦ rw first (inserted-IsOver s a as' t (some (alarm q.clock t.expiration)) e at v)
      | inr not_first ↦ rw not_first (inserted-IsOver s a as' t q.armed e at v)
    ]

pub cancel-IsOver :
    (s a k : ℕ) (q : TimerQueue) → IsSettled q → IsOver s q → IsOver s (cancel_in_loop a k q)
unfolding cancel_in_loop cancel_active
cancel-IsOver s a k q c v = record {
  marked = λ b h. ground (
    arith,
    v.marked b,
    has-take_out (a, k) (b, s) q.active_timers c.sound.rising_active,
    has-put_in (a, k) (b, s) q.canceling_timers,
  );
  done = λ b w h. ground (arith, v.done b w);
  old = ground (arith, v.old);
}

pub start-IsOver :
    (s now : ℕ) (q : TimerQueue)
    → q.calling_expired_timers ≡ false
    → IsOver s q
    → IsOver s (start_read now q) × ((start_read now q).ran ≡ q.ran)
unfolding start_read get_expired
start-IsOver s now q off v =
    let (heap, _, created, past) =
      erase_all_heap (before (now, uintptr_max) q.timers)
        (record q { armed = none; now = now; timers = from (now, uintptr_max) q.timers }) in
    let none_left : (a : ℕ) → has_sequence s (q.heap a) ≢ true =
      λ a h. ground (arith, v.marked a, off, h) in
    (
      record {
        marked = λ a h. absurd (none_left a (sym (ap (λ f. has_sequence s (f a)) heap) ∙ h));
        done = λ a w h. absurd (none_left a (sym (ap (λ f. has_sequence s (f a)) heap) ∙ h));
        old = subst (λ n. s ≤ n) (sym created) v.old;
      },
      past,
    )
