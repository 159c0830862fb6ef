-- ===== src/ThreadPool/Tests.antt =====
-- Runs of base/ThreadPool.cc, and its theorems there.
use cu_ber.Prelude.{◌+◌, ◌≤◌, ◌<◌, ◌≡◌, refl, arith, true, ◌++◌, length}
use cu_ber.ThreadPool.{
  ThreadPool, started, notify_worker, is_full, run_locked, run, take_front, take_locked, stop,
}
use cu_ber.ThreadPool.Steps.{takes, leaves, stops, runs, step, Reachable, fresh, stepped}
use cu_ber.ThreadPool.Waiting.{tasks_in_order, nobody_oversleeps}

-- A worker sleeps, a task wakes it, and a second task has to wait, since the queue is full.
abbrev waiting : ThreadPool
waiting = step (runs 6) (step (runs 5) (step takes (started 1 1)))

waiting-Reachable : Reachable waiting
unfolding take_locked take_front run run_locked is_full notify_worker
waiting-Reachable =
    stepped (runs 6) (stepped (runs 5) (stepped takes (fresh 1 1) (omega arith)) _) _

-- The pool is stopped while a caller of `run` sleeps: the worker ends, and nobody wakes the caller.
abbrev left_alone : ThreadPool
left_alone = step leaves (step stops (step (runs 6) (step (runs 5) (started 1 1))))

left_alone_lem :
    (left_alone.over ≡ 1) × (left_alone.sleeping_callers ≡ 1) × (left_alone.woken_callers ≡ 0)
unfolding stop run run_locked is_full notify_worker
left_alone_lem = (refl, refl, refl)

tasks_in_order_example :
    (waiting.taken ++ waiting.queue ≡ waiting.given)
    × (0 < waiting.max_queue_size → length waiting.queue ≤ waiting.max_queue_size)
tasks_in_order_example = tasks_in_order waiting waiting-Reachable

nobody_oversleeps_example :
    (0 < waiting.sleeping_workers
      → (length waiting.queue ≤ waiting.woken_workers) × (waiting.running ≡ true))
    × (0 < waiting.sleeping_callers
        → waiting.max_queue_size ≤ length waiting.queue + waiting.woken_callers)
nobody_oversleeps_example = nobody_oversleeps waiting waiting-Reachable
