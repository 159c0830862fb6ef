-- ===== src/TimerQueue/Repeats.antt =====
-- Which timers `handleRead` of net/TimerQueue.cc takes out, and what becomes of each of them.
use cu_ber.Prelude.{
  ℕ, ◌+◌, ◌≡◌, refl, sym, ap, ◌∙◌, arith, Bool, true, false, ◌&&◌, not, Option, none, some, List,
  [], ◌∷◌, if◌then◌else◌, ltb, leb, put, Bool-cases, inl, inr, ◌==◌, same_or_not,
}
use cu_ber.Prelude.Pairs.{Pair, has, before, from, IsRising, has-before, has-from, before-IsRising}
use cu_ber.TimerQueue.{
  Timer, TimerQueue, restart, insert, erase_active, erase_all_active, get_expired, start_read,
  reset_one, reset_all, arm, arm_next, reset, finish_read, uintptr_max,
}
use cu_ber.TimerQueue.Steps.{Reachable}
use cu_ber.TimerQueue.Places.{Place, mem, IsSound}
use cu_ber.TimerQueue.Adding.{other-IsSound}
use cu_ber.TimerQueue.Resetting.{head_alive, outs_tail, reset_one-IsSound, finish_read-IsSound}
use cu_ber.TimerQueue.Reached.{IsSettled, reachable-IsSettled}

erase_all_timers : (es : List Pair) (q : TimerQueue) → (erase_all_active es q).timers ≡ q.timers
unfolding erase_all_active
erase_all_timers [] q = refl
erase_all_timers ((w, a) ∷ es) q = ground (arith, erase_all_timers es (erase_active a (q.heap a) q))

-- The callbacks that `handleRead` is going to call are, in the order of their times, just those of the
-- timers whose time has come, and the others stay.
pub due_timers :
    {q : TimerQueue}
    → Reachable q
    → (now : ℕ)
    → let r = start_read now q in
      IsRising r.to_run
      × ((w a : ℕ) → has (w, a) r.to_run ≡ (leb w now && has (w, a) q.timers))
      × ((w a : ℕ) → has (w, a) r.timers ≡ (ltb now w && has (w, a) q.timers))
unfolding start_read get_expired
due_timers {q} reach now =
    let v = (reachable-IsSettled reach).sound in
    (
      before-IsRising (now, uintptr_max) q.timers v.rising_timers,
      λ w a. ground (
        arith,
        has-before (now, uintptr_max) (w, a) q.timers v.rising_timers,
        v.times w a,
        v.low a,
      ),
      λ w a.
          ap (has (w, a)) (
            erase_all_timers (before (now, uintptr_max) q.timers)
              (record q { armed = none; now = now; timers = from (now, uintptr_max) q.timers }))
          ∙ ground (
            arith,
            has-from (now, uintptr_max) (w, a) q.timers v.rising_timers,
            v.times w a,
            v.low a,
          ),
    )

-- Does `reset` put a timer back?
abbrev pub comes_back : ℕ → Timer → List Pair → Bool
comes_back a t canceling = t.repeat && not (has (a, t.sequence) canceling)

abbrev pub fate : ℕ → ℕ → Timer → List Pair → Option Timer
fate now a t canceling = if comes_back a t canceling then some (restart now t) else none

canceling-reset_one :
    (now a : ℕ) (o : Option Timer) (q : TimerQueue)
    → ((reset_one now a o q).canceling_timers ≡ q.canceling_timers)
      × ((reset_one now a o q).queued ≡ q.queued)
unfolding reset_one insert
canceling-reset_one now a none q = (refl, refl)
canceling-reset_one now a (some t) q = ground arith

pub heap-reset_one :
    (now a : ℕ) (t : Timer) (q : TimerQueue)
    → (reset_one now a (some t) q).heap ≡ put a (fate now a t q.canceling_timers) q.heap
unfolding reset_one insert
heap-reset_one now a t q = elim (Bool-cases (comes_back a t q.canceling_timers)) [
  | inl back ↦ rw back
  | inr out ↦ rw out
]

-- An address that is not in the list keeps its timer.
heap-reset_all_other :
    (now : ℕ) (es : List Pair) (q : TimerQueue) (a : ℕ)
    → ((w : ℕ) → has (w, a) es ≡ false)
    → (reset_all now es q).heap a ≡ q.heap a
unfolding reset_all reset_one insert has
heap-reset_all_other now [] q a h = refl
heap-reset_all_other now ((v, b) ∷ es) q a h =
    heap-reset_all_other now es (reset_one now b (q.heap b) q) a (λ w. ground (arith, h w))
    ∙ one (q.heap b)
  where
    one : (o : Option Timer) → (reset_one now b o q).heap a ≡ q.heap a
    one none = refl
    one (some t) = ground (arith, h v)

heap-reset_all :
    (now : ℕ) (es : List Pair) (q : TimerQueue) (place : ℕ → Place) (w a : ℕ) (t : Timer)
    → IsSound place es q
    → has (w, a) es ≡ true
    → q.heap a ≡ some t
    → (reset_all now es q).heap a ≡ fate now a t q.canceling_timers
unfolding reset_all
heap-reset_all now [] q place w a t v h at = unfold has in cc
heap-reset_all now ((u, b) ∷ es) q place w a t v h at = elim (same_or_not a b) [
  | inl same ↦
      let here : q.heap b ≡ some t = ap q.heap (sym same) ∙ at in
      let r = reset_one now b (some t) q in
      let rest : (c : ℕ) → has (c, a) es ≡ false =
        λ c. ground (arith, outs_tail now u b es t v here c a, same) in
      ap (λ o. (reset_all now es (reset_one now b o q)).heap a) here
      ∙ (heap-reset_all_other now es r a rest
          ∙ ap (λ f. f a) (heap-reset_one now b t q)
          ∙ ground (arith, same))
  | inr other ↦
      let (s, there) = head_alive u b es v in
      let (place', v') = reset_one-IsSound now u b es s v there in
      let r = reset_one now b (some s) q in
      let stays : r.heap a ≡ some t =
        ap (λ f. f a) (heap-reset_one now b s q) ∙ ground (arith, other, at) in
      let later : has (w, a) es ≡ true = unfold has in ground (arith, h, other) in
      ap (λ o. (reset_all now es (reset_one now b o q)).heap a) there
      ∙ (heap-reset_all now es r place' w a t v' later stays
          ∙ ap (fate now a t) (canceling-reset_one now b (some s) q).0)
]

-- `arm_next` touches the timerfd only.
pub arm_next-heap :
    (es : List Pair) (q : TimerQueue)
    → ((arm_next es q).heap ≡ q.heap)
      × ((arm_next es q).timers ≡ q.timers)
      × ((arm_next es q).queued ≡ q.queued)
unfolding arm_next arm
arm_next-heap [] q = (refl, refl, refl)
arm_next-heap ((w, a) ∷ es) q = ground arith

queued-reset_all :
    (now : ℕ) (es : List Pair) (q : TimerQueue) → (reset_all now es q).queued ≡ q.queued
unfolding reset_all
queued-reset_all now [] q = refl
queued-reset_all now ((w, a) ∷ es) q =
    queued-reset_all now es (reset_one now a (q.heap a) q)
    ∙ (canceling-reset_one now a (q.heap a) q).1

-- The heap and the queue of calls behind `handleRead`.
pub finish_lem :
    (q : TimerQueue) (w a : ℕ) (t : Timer)
    → IsSettled q
    → has (w, a) q.expired ≡ true
    → q.heap a ≡ some t
    → ((finish_read q).heap a ≡ fate q.now a t q.canceling_timers)
      × ((finish_read q).queued ≡ q.queued)
unfolding finish_read reset
finish_lem q w a t s h at =
    let q0 = record q { calling_expired_timers = false } in
    let left = reset_all q.now q.expired q0 in
    let (heap, _, queue) = arm_next-heap left.timers left in
    (
      ap (λ f. f a) heap
          ∙ heap-reset_all q.now q.expired q0 s.place w a t
              (other-IsSound q.armed false q.canceling_timers q.now q.expired q.to_run q.ran
                s.sound)
              h at,
      queue ∙ queued-reset_all q.now q.expired q0,
    )

-- Behind `handleRead` a timer that was due is back in the queue, at a new time counted from now, if it
-- repeats and was not cancelled while the callbacks ran; any other that was due is deleted.
pub due_timers_repeat :
    {q : TimerQueue}
    → Reachable q
    → (w a : ℕ) (t : Timer) → has (w, a) q.expired ≡ true
    → q.heap a ≡ some t
    → let back = t.repeat && not (has (a, t.sequence) q.canceling_timers) in
      ((finish_read q).heap a ≡ (if back then some (restart q.now t) else none))
      × ((u : ℕ) → has (u, a) (finish_read q).timers ≡ (back && (q.now + t.interval == u)))
unfolding restart has
due_timers_repeat {q} r w a t h at =
    let s = reachable-IsSettled r in
    let (place, v) = finish_read-IsSound q s.sound in
    let (heap, queue) = finish_lem q w a t s h at in
    (
      heap,
      λ u. elim (Bool-cases (comes_back a t q.canceling_timers)) [
        | inl back ↦
            let there : (finish_read q).heap a ≡ some (restart q.now t) =
              heap ∙ ap (λ (b : Bool). if b then some (restart q.now t) else none) back in
            let still : mem a (finish_read q).queued ≡ mem a q.queued = ap (mem a) queue in
            ground (
              arith,
              back,
              there,
              v.times u a,
              v.alive a,
              v.waits a,
              v.outs (q.now + t.interval) a,
              still,
              s.sound.waits a,
              s.sound.outs w a,
            )
        | inr out ↦
            let gone : (finish_read q).heap a ≡ none =
              heap ∙ ap (λ (b : Bool). if b then some (restart q.now t) else none) out in
            ground (arith, out, gone, v.times u a, v.alive a)
      ],
    )
