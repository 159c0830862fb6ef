-- ===== src/Connector.antt =====
-- net/Connector.h and Connector.cc: a client's attempts to connect, with retries behind a growing
-- delay. What the kernel answers is an argument; a socket is counted where it is opened, closed, and
-- handed to the new connection.
pub mod Accounts
pub mod Retries
mod Tests
use cu_ber.Prelude.{
  ℕ, zero, suc, ◌+◌, ◌*◌, min, Bool, true, false, List, [], ◌∷◌, ◌++◌, Option, none, some,
  if◌then◌else◌, ℤ, pos, negsuc,
}

-- `States`
pub data State : Type 0 where
  disconnected connecting connected : State

-- What the loop is asked to run.
pub data Task : Type 0 where
  start_task stop_task reset_channel_task : Task

-- The fields, with `has_channel` for the pointer to the channel and `is_watching` for whether it is in
-- the loop, the tasks of the loop, the delays of the retries that were scheduled, the last one first,
-- and the calls of the callback for a failure.
pub record Connector : Type 0 where
  pub is_on : Bool
  pub state : State
  pub has_channel : Bool
  pub is_watching : Bool
  pub retry_delay_ms : ℕ
  pub max_retry : ℤ
  pub tasks : List Task
  pub delays : List ℕ
  pub opened : ℕ
  pub closed : ℕ
  pub handed : ℕ
  pub failures : ℕ

abbrev pub init_retry_delay_ms : ℕ
init_retry_delay_ms = 500

abbrev pub max_retry_delay_ms : ℕ
max_retry_delay_ms = 30 * 1000

-- The constructor, and `setMaxRetry`.
abbrev pub new_connector : ℤ → Connector
new_connector retries = record {
  is_on = false;
  state = disconnected;
  has_channel = false;
  is_watching = false;
  retry_delay_ms = init_retry_delay_ms;
  max_retry = retries;
  tasks = [];
  delays = [];
  opened = 0;
  closed = 0;
  handed = 0;
  failures = 0;
}

abbrev queue_in_loop : Task → Connector → Connector
queue_in_loop t c = record c { tasks = c.tasks ++ t ∷ [] }

pub stop : Connector → Connector
stop c = queue_in_loop stop_task (record c { is_on = false })

-- `runAfter`, the delay of the next retry, and one retry less.
pub schedule : ℤ → Connector → Connector
schedule left c = record c {
  delays = c.retry_delay_ms ∷ c.delays;
  retry_delay_ms = min (c.retry_delay_ms * 2) max_retry_delay_ms;
  max_retry = left;
}

-- A negative limit is none.
pub retry_by : ℤ → Connector → Connector
unfolding stop schedule
retry_by (pos zero) c = let off = stop c in record off { failures = suc off.failures }
retry_by (pos (suc n)) c = schedule (pos n) c
retry_by (negsuc n) c = schedule (negsuc n) c

pub retry : Connector → Connector
unfolding retry_by
retry c =
    let again = record c { closed = suc c.closed; state = disconnected } in
    if c.is_on then retry_by c.max_retry again else again

-- `connecting`
abbrev pub start_connecting : Connector → Connector
start_connecting c = record c { state = connecting; has_channel = true; is_watching = true }

-- What `connect(2)` answers: under way, to be tried again, or hopeless.
pub data Answer : Type 0 where
  under_way try_again hopeless : Answer

pub connect : Answer → Connector → Connector
unfolding retry
connect under_way c = start_connecting (record c { opened = suc c.opened })
connect try_again c = retry (record c { opened = suc c.opened })
connect hopeless c = record c { opened = suc c.opened; closed = suc c.closed }

pub start_in_loop : Answer → Connector → Connector
unfolding connect
start_in_loop a c = if c.is_on then connect a c else c

-- `start`, in the thread of the loop or in another one.
pub start : Bool → Answer → Connector → Connector
unfolding start_in_loop
start in_loop a c =
    let on = record c { is_on = true } in
    if in_loop then start_in_loop a on else queue_in_loop start_task on

pub remove_and_reset_channel : Connector → Connector
remove_and_reset_channel c = queue_in_loop reset_channel_task (record c { is_watching = false })

abbrev pub is_connecting : State → Bool
is_connecting connecting = true
is_connecting _ = false

pub stop_in_loop : Connector → Connector
unfolding remove_and_reset_channel retry
stop_in_loop c =
    if is_connecting c.state
    then retry (remove_and_reset_channel (record c { state = disconnected }))
    else c

pub restart : Answer → Connector → Connector
unfolding start_in_loop
restart a c =
    start_in_loop a
      (record c { state = disconnected; retry_delay_ms = init_retry_delay_ms; is_on = true })

-- The socket can be written: it has failed (or is connected to itself), or it is connected.
pub handle_write : Bool → Connector → Connector
unfolding remove_and_reset_channel retry
handle_write has_failed c =
    let off = remove_and_reset_channel c in
    let up = record off { state = connected } in
    if is_connecting c.state
    then if has_failed
      then retry off
      else if c.is_on
      then record up { handed = suc up.handed }
      else record up { closed = suc up.closed }
    else c

pub handle_error : Connector → Connector
unfolding remove_and_reset_channel retry
handle_error c = if is_connecting c.state then retry (remove_and_reset_channel c) else c

pub run_task : Answer → Task → Connector → Connector
unfolding start_in_loop stop_in_loop
run_task a start_task c = start_in_loop a c
run_task a stop_task c = stop_in_loop c
run_task a reset_channel_task c = record c { has_channel = false }
