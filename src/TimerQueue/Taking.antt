-- ===== src/TimerQueue/Taking.antt =====
-- `getExpired` of net/TimerQueue.cc takes the timers that are due out of both sets.
use cu_ber.Prelude.{
  ℕ, ◌+◌, ◌≡◌, refl, sym, ap, ◌∙◌, arith, Bool, true, false, ◌&&◌, Option, none, some, List, [],
  ◌∷◌, leb, ◌==◌, if◌then◌else◌, length, length-append, Option-cases, inl, inr,
}
use cu_ber.Prelude.Pairs.{
  Pair, has, take_out, before, from, IsRising, IsRising-tail, has-Above, take_out-IsRising,
  has-take_out, length-take_out, has-before, has-from, before-IsRising, from-IsRising,
  before-append-from,
}
use cu_ber.TimerQueue.{Timer, TimerQueue, uintptr_max, erase_all_active, get_expired, start_read}
use cu_ber.TimerQueue.Adding.{other-IsSound}
use cu_ber.TimerQueue.Places.{
  Place, absent, waiting, active, taken, has_time, has_sequence, timed_at, taken_at, IsSound,
}

abbrev erased_one : ℕ → Option Timer → List Pair → List Pair
erased_one a none xs = xs
erased_one a (some t) xs = take_out (a, t.sequence) xs

-- What the loop of `getExpired` leaves of the set of ids.
erased : List Pair → (ℕ → Option Timer) → List Pair → List Pair
erased [] h xs = xs
erased ((w, a) ∷ es) h xs = erased es h (erased_one a (h a) xs)

-- Each entry is that of a timer that has not been deleted.
abbrev AllAlive : List Pair → (ℕ → Option Timer) → Type 0
AllAlive es h = (w a : ℕ) → has (w, a) es ≡ true → has_time w (h a) ≡ true

tail-AllAlive :
    (x : Pair) (es : List Pair) (h : ℕ → Option Timer) → AllAlive (x ∷ es) h → AllAlive es h
unfolding has
tail-AllAlive (v, b) es h l w a e = ground (arith, l w a)

erase_all-eq :
    (es : List Pair) (q : TimerQueue)
    → AllAlive es q.heap
    → erase_all_active es q ≡ record q { active_timers = erased es q.heap q.active_timers }
unfolding erase_all_active erased has
erase_all-eq [] q l = refl
erase_all-eq ((w, a) ∷ es) q l = elim (Option-cases (q.heap a)) [
  | inl gone ↦ absurd (ground (arith, l w a, gone))
  | inr (t, at) ↦ rw at (
      erase_all-eq es (record q { active_timers = take_out (a, t.sequence) q.active_timers })
        (tail-AllAlive (w, a) es q.heap l))
]

abbrev gone : List Pair → ℕ → Option Timer → ℕ → Bool
gone es a none s = false
gone es a (some t) s = t.sequence == s && has (t.expiration, a) es

has-erased :
    (es : List Pair) (h : ℕ → Option Timer) (xs : List Pair) (a s : ℕ)
    → AllAlive es h
    → IsRising xs
    → has (a, s) (erased es h xs) ≡ (if gone es a (h a) s then false else has (a, s) xs)
unfolding erased has
has-erased [] h xs a s l r = ground arith
has-erased ((w, b) ∷ es) h xs a s l r = elim (Option-cases (h b)) [
  | inl out ↦ absurd (ground (arith, l w b, out))
  | inr (t, at) ↦ rw at (
      ground (
        arith,
        has-erased es h (take_out (b, t.sequence) xs) a s (tail-AllAlive (w, b) es h l)
            (take_out-IsRising (b, t.sequence) xs r),
        has-take_out (b, t.sequence) (a, s) xs r,
        l w b,
        at,
      ))
]

erased-IsRising :
    (es : List Pair) (h : ℕ → Option Timer) (xs : List Pair)
    → IsRising xs
    → IsRising (erased es h xs)
unfolding erased
erased-IsRising [] h xs r = r
erased-IsRising ((w, a) ∷ es) h xs r = erased-IsRising es h _ (one (h a))
  where
    one : (o : Option Timer) → IsRising (erased_one a o xs)
    one none = r
    one (some t) = take_out-IsRising (a, t.sequence) xs r

length-erased :
    (es : List Pair) (h : ℕ → Option Timer) (xs : List Pair)
    → AllAlive es h
    → IsRising es
    → IsRising xs
    → ((w a s : ℕ) → has (w, a) es ≡ true → has_sequence s (h a) ≡ true → has (a, s) xs ≡ true)
    → length (erased es h xs) + length es ≡ length xs
unfolding erased has
length-erased [] h xs l e r on = omega arith
length-erased ((w, b) ∷ es) h xs l e r on = elim (Option-cases (h b)) [
  | inl out ↦ absurd (ground (arith, l w b, out))
  | inr (t, at) ↦ rw at (
      omega (
        arith,
        length-erased es h (take_out (b, t.sequence) xs) (tail-AllAlive (w, b) es h l)
            (IsRising-tail (w, b) es e) (take_out-IsRising (b, t.sequence) xs r)
            (λ v a s there is. ground (
              arith,
              on v a s,
              has-take_out (b, t.sequence) (a, s) xs r,
              has-Above (w, b) es e,
              l v a,
              l w b,
              at,
            )),
        length-take_out (b, t.sequence) xs (ground (arith, on w b t.sequence, at)),
      ))
]

abbrev pub is_due : ℕ → Option Timer → Bool
is_due now none = false
is_due now (some t) = leb t.expiration now

-- Where a timer is after `getExpired`.
abbrev pub moved : ℕ → Place → Bool → Place
moved now absent due = absent
moved now waiting due = waiting
moved now active due = if due then taken else active
moved now taken due = taken

abbrev pub taken_out : ℕ → (ℕ → Place) → TimerQueue → ℕ → Place
taken_out now place q a = moved now (place a) (is_due now (q.heap a))

module _ (now : ℕ) {place : ℕ → Place} {q : TimerQueue} (v : IsSound place [] q) where
  abbrev sentry : Pair
  sentry = (now, uintptr_max)

  abbrev due : List Pair
  due = before sentry q.timers

  none_taken : (w a : ℕ) → taken_at (place a) (has_time w (q.heap a)) ≡ false
  none_taken w a = sym (v.outs w a) ∙ unfold has in refl

  due-AllAlive : AllAlive due q.heap
  due-AllAlive w a h =
      ground (arith, has-before sentry (w, a) q.timers v.rising_timers, v.times w a)

  due_ids :
      (w a s : ℕ)
      → has (w, a) due ≡ true
      → has_sequence s (q.heap a) ≡ true
      → has (a, s) q.active_timers ≡ true
  due_ids w a s h k =
      ground (arith, has-before sentry (w, a) q.timers v.rising_timers, v.times w a, v.ids a s)

  due-sizes : length (from sentry q.timers) ≡ length (erased due q.heap q.active_timers)
  due-sizes = omega (
    arith,
    v.sizes,
    length-append due (from sentry q.timers),
    ap length (before-append-from sentry q.timers),
    length-erased due q.heap q.active_timers due-AllAlive
        (before-IsRising sentry q.timers v.rising_timers) v.rising_active due_ids,
  )

  left-ids :
      (a s : ℕ)
      → has (a, s) (erased due q.heap q.active_timers)
        ≡ timed_at (taken_out now place q a) (has_sequence s (q.heap a))
  left-ids a s = elim (Option-cases (q.heap a)) [
    | inl out ↦ ground (arith, after, v.ids a s, out)
    | inr (t, at) ↦ ground (
      arith,
      after,
      v.ids a s,
      at,
      has-before sentry (t.expiration, a) q.timers v.rising_timers,
      v.times t.expiration a,
      v.low a,
    )
  ]
    where
      after :
          has (a, s) (erased due q.heap q.active_timers)
          ≡ (if gone due a (q.heap a) s then false else has (a, s) q.active_timers)
      after = has-erased due q.heap q.active_timers a s due-AllAlive v.rising_active

  left-IsSound : IsSound (taken_out now place q) due (record q {
    timers = from sentry q.timers;
    active_timers = erased due q.heap q.active_timers;
  })
  left-IsSound = record {
    rising_timers = from-IsRising sentry q.timers v.rising_timers;
    rising_active = erased-IsRising due q.heap q.active_timers v.rising_active;
    rising_expired = before-IsRising sentry q.timers v.rising_timers;
    sizes = due-sizes;
    times = λ w a.
        ground (arith, has-from sentry (w, a) q.timers v.rising_timers, v.times w a, v.low a);
    ids = left-ids;
    outs = λ w a. ground (
      arith,
      has-before sentry (w, a) q.timers v.rising_timers,
      v.times w a,
      v.low a,
      none_taken w a,
    );
    waits = λ a. ground (arith, v.waits a);
    once = v.once;
    alive = λ a. ground (arith, v.alive a);
    low = v.low;
    old = v.old;
    unique = v.unique;
    sane = v.sane;
  }

  pub start_read-IsSound : IsSound (taken_out now place q) due (start_read now q)
  unfolding start_read get_expired
  start_read-IsSound =
      rw
        (erase_all-eq due (record q { armed = none; now = now; timers = from sentry q.timers })
          due-AllAlive)
        (other-IsSound none true [] now due due q.ran left-IsSound)
