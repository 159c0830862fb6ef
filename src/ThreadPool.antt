-- ===== src/ThreadPool.antt =====
-- base/ThreadPool.h and base/ThreadPool.cc: a queue of tasks between the threads that call `run` and
-- the workers, guarded by a mutex, with two conditions to wait for. A task is known by a number.
pub mod Steps
pub mod Waiting
mod Tests
use cu_ber.Prelude.{
  ℕ, suc, ◌-◌, ◌+◌, Bool, true, false, not, ◌&&◌, List, [], ◌∷◌, ◌++◌, length, ltb, ◌==◌,
  if◌then◌else◌,
}

-- A worker is busy outside of `take`, sleeps on `notEmpty_`, has been woken and waits for the mutex, or
-- is over; callers of `run` sleep on `notFull_` or have been woken. `given` and `taken` are the tasks
-- that went through the queue, in order, `ran_at_once` those that `run` called itself.
pub record ThreadPool : Type 0 where
  pub threads : ℕ
  pub max_queue_size : ℕ
  pub running : Bool
  pub queue : List ℕ
  pub busy : ℕ
  pub sleeping_workers : ℕ
  pub woken_workers : ℕ
  pub over : ℕ
  pub sleeping_callers : ℕ
  pub woken_callers : ℕ
  pub given : List ℕ
  pub taken : List ℕ
  pub ran_at_once : List ℕ

-- `start`, with the number of threads and the maximal size of the queue.
abbrev pub started : ℕ → ℕ → ThreadPool
started num_threads max_queue_size = record {
  threads = num_threads;
  max_queue_size = max_queue_size;
  running = true;
  queue = [];
  busy = num_threads;
  sleeping_workers = 0;
  woken_workers = 0;
  over = 0;
  sleeping_callers = 0;
  woken_callers = 0;
  given = [];
  taken = [];
  ran_at_once = [];
}

-- `notEmpty_.notify()`
pub notify_worker : ThreadPool → ThreadPool
notify_worker p =
    if ltb 0 p.sleeping_workers
    then record p { sleeping_workers = p.sleeping_workers - 1; woken_workers = suc p.woken_workers }
    else p

-- `notFull_.notify()`
pub notify_caller : ThreadPool → ThreadPool
notify_caller p =
    if ltb 0 p.sleeping_callers
    then record p { sleeping_callers = p.sleeping_callers - 1; woken_callers = suc p.woken_callers }
    else p

pub is_full : ThreadPool → Bool
is_full p = ltb 0 p.max_queue_size && not (ltb (length p.queue) p.max_queue_size)

-- A caller of `run` that has the mutex.
pub run_locked : ℕ → ThreadPool → ThreadPool
unfolding is_full notify_worker
run_locked task p =
    if is_full p
    then record p { sleeping_callers = suc p.sleeping_callers }
    else notify_worker (record p { queue = p.queue ++ task ∷ []; given = p.given ++ task ∷ [] })

-- `run`
pub run : ℕ → ThreadPool → ThreadPool
unfolding run_locked
run task p =
    if p.threads == 0
    then record p { ran_at_once = p.ran_at_once ++ task ∷ [] }
    else run_locked task p

abbrev pub is_empty : List ℕ → Bool
is_empty [] = true
is_empty (t ∷ ts) = false

pub take_front : List ℕ → ThreadPool → ThreadPool
unfolding notify_caller
take_front [] p = record p { busy = suc p.busy }
take_front (task ∷ tasks) p =
    let p' = record p { queue = tasks; taken = p.taken ++ task ∷ []; busy = suc p.busy } in
    if ltb 0 p.max_queue_size then notify_caller p' else p'

-- A worker in `take` that has the mutex.
pub take_locked : ThreadPool → ThreadPool
unfolding take_front
take_locked p =
    if is_empty p.queue && p.running
    then record p { sleeping_workers = suc p.sleeping_workers }
    else take_front p.queue p

-- `stop`, up to the wait for the threads.
pub stop : ThreadPool → ThreadPool
stop p = record p {
  running = false;
  sleeping_workers = 0;
  woken_workers = p.woken_workers + p.sleeping_workers;
}
