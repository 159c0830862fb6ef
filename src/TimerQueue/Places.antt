-- ===== src/TimerQueue/Places.antt =====
-- Where each timer of net/TimerQueue.cc is, and how the two sets, the list of the timers that have
-- been taken out and the calls that wait say so.
use cu_ber.Prelude.{
  ℕ, ◌≤◌, ◌<◌, ◌≡◌, arith, Bool, true, false, Option, none, some, List, [], ◌∷◌, ◌++◌, ◌==◌,
  if◌then◌else◌, length,
}
use cu_ber.Prelude.Pairs.{Pair, has, IsRising}
use cu_ber.TimerQueue.{Timer, TimerQueue, uintptr_max}

-- A timer has not been made or is deleted, waits to be added, is in the sets, or has been taken out
-- because it is due.
pub data Place : Type 0 where
  absent waiting active taken : Place

abbrev pub mem : ℕ → List ℕ → Bool
mem a [] = false
mem a (x ∷ xs) = if x == a then true else mem a xs

abbrev pub IsDistinct : List ℕ → Type 0
IsDistinct [] = Unit {0}
IsDistinct (x ∷ xs) = (mem x xs ≡ false) × IsDistinct xs

pub mem-append_last :
    (a b : ℕ) (xs : List ℕ) → mem a (xs ++ b ∷ []) ≡ (if b == a then true else mem a xs)
mem-append_last a b [] = ground arith
mem-append_last a b (x ∷ xs) = ground (arith, mem-append_last a b xs)

pub append_last-IsDistinct :
    (b : ℕ) (xs : List ℕ) → IsDistinct xs → mem b xs ≡ false → IsDistinct (xs ++ b ∷ [])
append_last-IsDistinct b [] d h = ground arith
append_last-IsDistinct b (x ∷ xs) d h =
    ground (arith, append_last-IsDistinct b xs, mem-append_last x b xs)

abbrev pub is_there : Option Timer → Bool
is_there none = false
is_there (some t) = true

abbrev pub has_time : ℕ → Option Timer → Bool
has_time w none = false
has_time w (some t) = t.expiration == w

abbrev pub has_sequence : ℕ → Option Timer → Bool
has_sequence s none = false
has_sequence s (some t) = t.sequence == s

abbrev pub timed_at : Place → Bool → Bool
timed_at absent b = false
timed_at waiting b = false
timed_at active b = b
timed_at taken b = false

abbrev pub taken_at : Place → Bool → Bool
taken_at absent b = false
taken_at waiting b = false
taken_at active b = false
taken_at taken b = b

abbrev pub waiting_at : Place → Bool
waiting_at absent = false
waiting_at waiting = true
waiting_at active = false
waiting_at taken = false

abbrev pub present : Place → Bool
present absent = false
present waiting = true
present active = true
present taken = true

-- A timer is in the set of times just when it is in the set of ids, and neither is true of one that
-- waits or has been taken out; every entry and every id is that of a timer that has not been deleted.
pub record IsSound (place : ℕ → Place) (expired : List Pair) (q : TimerQueue) : Type 0 where
  pub rising_timers : IsRising q.timers
  pub rising_active : IsRising q.active_timers
  pub rising_expired : IsRising expired
  pub sizes : length q.timers ≡ length q.active_timers
  pub times : (w a : ℕ) → has (w, a) q.timers ≡ timed_at (place a) (has_time w (q.heap a))
  pub ids : (a s : ℕ) → has (a, s) q.active_timers ≡ timed_at (place a) (has_sequence s (q.heap a))
  pub outs : (w a : ℕ) → has (w, a) expired ≡ taken_at (place a) (has_time w (q.heap a))
  pub waits : (a : ℕ) → mem a q.queued ≡ waiting_at (place a)
  pub once : IsDistinct q.queued
  pub alive : (a : ℕ) → is_there (q.heap a) ≡ present (place a)
  pub low : (a : ℕ) → is_there (q.heap a) ≡ true → a < uintptr_max
  pub old : (a s : ℕ) → has_sequence s (q.heap a) ≡ true → s ≤ q.num_created
  pub unique :
      (a b s : ℕ) → has_sequence s (q.heap a) ≡ true → has_sequence s (q.heap b) ≡ true → a ≡ b
  pub sane : q.faulty ≡ false
