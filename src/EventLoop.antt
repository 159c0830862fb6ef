-- ===== src/EventLoop.antt =====
-- net/EventLoop.h and EventLoop.cc: the loop of a thread, the functors that are queued for it, also
-- by other threads, and the eventfd that wakes it up. A functor is known by a number.
pub mod Steps
pub mod Functors
mod Tests
use cu_ber.Prelude.{ℕ, suc, Bool, true, false, List, [], ◌∷◌, ◌++◌, if◌then◌else◌}

-- Where `loop` is: not yet called, in `poll`, calling the channels, in `doPendingFunctors` with the
-- functors that it has taken, or over.
pub data Phase : Type 0 where
  idle polling handling calling ended : Phase

-- `wakers` are the threads between their change and the call of `wakeup` that follows it, `counter`
-- what the eventfd holds. `queued` and `ran` are the functors that were queued and that were called, in
-- order; `ran_at_once` are those that `runInLoop` called itself.
pub record EventLoop : Type 0 where
  pub phase : Phase
  pub quit : Bool
  pub pending_functors : List ℕ
  pub functors : List ℕ
  pub counter : ℕ
  pub wakers : ℕ
  pub queued : List ℕ
  pub ran : List ℕ
  pub ran_at_once : List ℕ

abbrev pub new_loop : EventLoop
new_loop = record {
  phase = idle;
  quit = false;
  pending_functors = [];
  functors = [];
  counter = 0;
  wakers = 0;
  queued = [];
  ran = [];
  ran_at_once = [];
}

abbrev pub is_calling : Phase → Bool
is_calling idle = false
is_calling polling = false
is_calling handling = false
is_calling calling = true
is_calling ended = false

-- The start of `loop`.
pub start_loop : EventLoop → EventLoop
start_loop l = record l { phase = polling; quit = false }

pub wakeup : EventLoop → EventLoop
wakeup l = record l { counter = suc l.counter }

-- `wakeup` in another thread, some time after its change.
pub wake_late : EventLoop → EventLoop
wake_late l = record l { wakers = suc l.wakers }

-- `queueInLoop`, in the thread of the loop or in another.
pub queue_in_loop : Bool → ℕ → EventLoop → EventLoop
unfolding wakeup wake_late
queue_in_loop in_loop f l =
    let l' = record l {
      pending_functors = l.pending_functors ++ f ∷ [];
      queued = l.queued ++ f ∷ [];
    } in
    if in_loop then (if is_calling l.phase then wakeup l' else l') else wake_late l'

-- `runInLoop`: in the thread of the loop the functor is called at once.
pub run_in_loop : Bool → ℕ → EventLoop → EventLoop
unfolding queue_in_loop
run_in_loop in_loop f l =
    if in_loop then record l { ran_at_once = l.ran_at_once ++ f ∷ [] } else queue_in_loop false f l

pub quit_loop : Bool → EventLoop → EventLoop
unfolding wake_late
quit_loop in_loop l =
    if in_loop then record l { quit = true } else wake_late (record l { quit = true })

-- `poll` returns.
pub poll_returns : EventLoop → EventLoop
poll_returns l = record l { phase = handling }

-- `handleRead` of the channel of the eventfd.
pub handle_read : EventLoop → EventLoop
handle_read l = record l { counter = 0 }

-- `doPendingFunctors` up to its loop.
pub take_functors : EventLoop → EventLoop
take_functors l = record l { phase = calling; functors = l.pending_functors; pending_functors = [] }

pub call_functor : List ℕ → EventLoop → EventLoop
call_functor [] l = l
call_functor (f ∷ fs) l = record l { functors = fs; ran = l.ran ++ f ∷ [] }

-- The end of a round of `loop`, and the test that starts the next.
pub end_round : EventLoop → EventLoop
end_round l = record l { phase = if l.quit then ended else polling }
