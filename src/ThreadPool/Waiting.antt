-- ===== src/ThreadPool/Waiting.antt =====
-- The tasks of base/ThreadPool.cc stay in order, and nobody sleeps while there is something to do.
use cu_ber.Prelude.{
  ℕ, suc, ◌+◌, ◌-◌, ◌≤◌, ◌<◌, ◌≡◌, refl, sym, ap, ◌∙◌, arith, true, false, ◌&&◌, List, [], ◌∷◌,
  ◌++◌, length, ◌==◌, append_assoc, Bool-cases, inl, inr,
}
use cu_ber.ThreadPool.{
  ThreadPool, started, notify_worker, notify_caller, is_full, run_locked, run, is_empty, take_front,
  take_locked, stop,
}
use cu_ber.ThreadPool.Steps.{
  Event, takes, wakes_worker, stirs_worker, leaves, stirs_caller, stops, runs, wakes_caller, step,
  CanHappen, Reachable, fresh, stepped,
}

-- Nobody sleeps unless enough others have been woken; a thread that has just got the mutex counts as
-- one more, `w` for a worker and `c` for a caller.
record IsSound (w c : ℕ) (p : ThreadPool) : Type 0 where
  order : p.taken ++ p.queue ≡ p.given
  bound : 0 < p.max_queue_size → length p.queue ≤ p.max_queue_size
  workers : 0 < p.sleeping_workers → length p.queue ≤ p.woken_workers + w
  callers : 0 < p.sleeping_callers → p.max_queue_size ≤ length p.queue + p.woken_callers + c
  stopped : p.running ≡ false → p.sleeping_workers ≡ 0

length_last : (t : ℕ) (xs : List ℕ) → length (xs ++ t ∷ []) ≡ suc (length xs)
length_last t [] = refl
length_last t (x ∷ xs) = ap suc (length_last t xs)

order_last :
    (t : ℕ) (xs ys : List ℕ) {zs : List ℕ} → xs ++ ys ≡ zs → xs ++ (ys ++ t ∷ []) ≡ zs ++ t ∷ []
order_last t xs ys e = sym (append_assoc xs ys (t ∷ [])) ∙ ap (λ q. q ++ t ∷ []) e

order_first : (t : ℕ) (xs ys : List ℕ) {zs : List ℕ} → xs ++ t ∷ ys ≡ zs → (xs ++ t ∷ []) ++ ys ≡ zs
order_first t xs ys e = append_assoc xs (t ∷ []) ys ∙ e

run_locked-IsSound : (task : ℕ) (p : ThreadPool) → IsSound 0 1 p → IsSound 0 0 (run_locked task p)
unfolding run_locked is_full notify_worker
run_locked-IsSound task p v =
    ground (arith, length_last task p.queue, order_last task p.taken p.queue v.order)

take_front-IsSound :
    (q : List ℕ) (p : ThreadPool) → p.queue ≡ q → IsSound 1 0 p → IsSound 0 0 (take_front q p)
unfolding take_front notify_caller
take_front-IsSound [] p e v = ground (arith, e, ap length e)
take_front-IsSound (t ∷ ts) p e v =
    ground
      (arith, e, ap length e, order_first t p.taken ts (ap (λ q. p.taken ++ q) (sym e) ∙ v.order))

empty_lem : (q : List ℕ) → is_empty q ≡ true → length q ≡ 0
empty_lem [] h = refl
empty_lem (t ∷ ts) h = cc h

take_locked-IsSound : (p : ThreadPool) → IsSound 1 0 p → IsSound 0 0 (take_locked p)
unfolding take_locked
take_locked-IsSound p v = elim (Bool-cases (is_empty p.queue && p.running)) [
  | inl sleeps ↦ rw sleeps (record {
    order = v.order;
    bound = v.bound;
    workers = λ h. ground (arith, sleeps, empty_lem p.queue);
    callers = v.callers;
    stopped = λ h. ground (arith, sleeps, h);
  })
  | inr goes_on ↦ rw goes_on (take_front-IsSound p.queue p refl v)
]

step-IsSound : (e : Event) (p : ThreadPool) → CanHappen e p → IsSound 0 0 p → IsSound 0 0 (step e p)
unfolding run stop
step-IsSound takes p m v = take_locked-IsSound (record p { busy = p.busy - 1 }) (ground arith)
step-IsSound wakes_worker p m v =
    take_locked-IsSound (record p { woken_workers = p.woken_workers - 1 }) (ground arith)
step-IsSound stirs_worker p m v = ground arith
step-IsSound leaves p m v = ground arith
step-IsSound stirs_caller p m v = ground arith
step-IsSound stops p m v = ground arith
step-IsSound (runs task) p m v = elim (Bool-cases (p.threads == 0)) [
  | inl none_there ↦ rw none_there (ground arith)
  | inr some_there ↦ rw some_there (run_locked-IsSound task p (ground arith))
]
step-IsSound (wakes_caller task) p m v =
    run_locked-IsSound task (record p { woken_callers = p.woken_callers - 1 }) (ground arith)

started-IsSound : (n m : ℕ) → IsSound 0 0 (started n m)
started-IsSound n m = ground arith

reachable-IsSound : {p : ThreadPool} → Reachable p → IsSound 0 0 p
reachable-IsSound (fresh n m) = started-IsSound n m
reachable-IsSound (stepped {p} e r m) = step-IsSound e p m (reachable-IsSound r)

-- In every interleaving of the workers with calls of `run` and `stop`, the tasks are taken in the order
-- in which they were given to the queue, and the queue holds no more than its maximal size, if it has
-- one.
pub tasks_in_order :
    (p : ThreadPool)
    → Reachable p
    → (p.taken ++ p.queue ≡ p.given) × (0 < p.max_queue_size → length p.queue ≤ p.max_queue_size)
tasks_in_order p r = let v = reachable-IsSound r in (v.order, v.bound)

-- No notification is lost: in every interleaving of the workers with calls of `run` and `stop`, while a
-- worker sleeps, a worker has been woken for each task in the queue, and the pool is not stopped;
-- while a caller of `run` sleeps, a caller has been woken for each free place in the queue.
pub nobody_oversleeps :
    (p : ThreadPool)
    → Reachable p
    → (0 < p.sleeping_workers → (length p.queue ≤ p.woken_workers) × (p.running ≡ true))
      × (0 < p.sleeping_callers → p.max_queue_size ≤ length p.queue + p.woken_callers)
nobody_oversleeps p r =
    let v = reachable-IsSound r in ground (arith, v.workers, v.callers, v.stopped)
