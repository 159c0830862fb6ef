-- ===== src/Connector/Accounts.antt =====
-- What becomes of the sockets and of the retries of net/Connector.cc, in every order of events.
use cu_ber.Prelude.{
  ℕ, zero, suc, ◌+◌, ◌≡◌, refl, arith, Bool, true, false, List, [], ◌∷◌, if◌then◌else◌, ℤ, pos,
  negsuc, Bool-cases, inl, inr, ap,
}
use cu_ber.Connector.{
  State, disconnected, connecting, connected, Task, start_task, stop_task, reset_channel_task,
  Connector, new_connector, stop, schedule, retry_by, retry, Answer, under_way, try_again, hopeless,
  connect, start_in_loop, start, remove_and_reset_channel, is_connecting, stop_in_loop, restart,
  handle_write, handle_error, run_task,
}

pub data Event : Type 0 where
  starts : Bool → Answer → Event
  stops : Event
  restarts timer_fires runs_task : Answer → Event
  writable : Bool → Event
  fails : Event

abbrev pub next_task : Answer → List Task → Connector → Connector
next_task a [] c = c
next_task a (t ∷ ts) c = run_task a t (record c { tasks = ts })

abbrev pub step : Event → Connector → Connector
step (starts in_loop a) c = start in_loop a c
step stops c = stop c
step (restarts a) c = restart a c
step (timer_fires a) c = start_in_loop a c
step (runs_task a) c = next_task a c.tasks c
step (writable failed) c = handle_write failed c
step fails c = handle_error c

-- The task that starts needs the same state as its `assert`.
abbrev pub TaskCanRun : List Task → State → Type 0
TaskCanRun (start_task ∷ ts) x = x ≡ disconnected
TaskCanRun _ x = Unit {0}

-- The `assert` of `startInLoop`, and that `restart` is called when the connection that was handed over
-- has gone.
abbrev pub CanHappen : Event → Connector → Type 0
CanHappen (starts true a) c = c.state ≡ disconnected
CanHappen (restarts a) c = c.state ≡ connected
CanHappen (timer_fires a) c = c.state ≡ disconnected
CanHappen (runs_task a) c = TaskCanRun c.tasks c.state
CanHappen _ c = Unit {0}

-- The connectors that can come about with a limit on the retries.
pub data Reachable (retries : ℤ) : Connector → Type 0 where
  fresh : Reachable retries (new_connector retries)
  stepped :
      {c : Connector} (e : Event)
      → Reachable retries c
      → CanHappen e c
      → Reachable retries (step e c)

abbrev pub waiting : State → ℕ
waiting connecting = 1
waiting _ = 0

abbrev pub Accounted : Connector → Type 0
Accounted c = c.opened ≡ c.closed + (c.handed + waiting c.state)

idle : (x : State) → is_connecting x ≡ false → waiting x ≡ 0
idle disconnected e = refl
idle connected e = refl
idle connecting e = cc

-- A retry is scheduled or not, which touches no socket.
retry_by-Accounted : (m : ℤ) (c : Connector) → Accounted c → Accounted (retry_by m c)
unfolding retry_by stop schedule
retry_by-Accounted (pos zero) c e = e
retry_by-Accounted (pos (suc n)) c e = e
retry_by-Accounted (negsuc n) c e = e

-- The socket of an attempt that has failed is closed.
retry-Accounted : (c : Connector) → c.opened ≡ suc (c.closed + c.handed) → Accounted (retry c)
unfolding retry
retry-Accounted c e = ground (
  arith,
  retry_by-Accounted c.max_retry (record c { closed = suc c.closed; state = disconnected }),
)

connect-Accounted :
    (a : Answer) (c : Connector)
    → Accounted c
    → is_connecting c.state ≡ false
    → Accounted (connect a c)
unfolding connect
connect-Accounted under_way c e off = omega (arith, e, idle c.state off)
connect-Accounted try_again c e off =
    retry-Accounted (record c { opened = suc c.opened }) (omega (arith, e, idle c.state off))
connect-Accounted hopeless c e off = omega (arith, e)

start_in_loop-Accounted :
    (a : Answer) (c : Connector)
    → Accounted c
    → is_connecting c.state ≡ false
    → Accounted (start_in_loop a c)
unfolding start_in_loop
start_in_loop-Accounted a c e off = ground (arith, connect-Accounted a c e off)

start-Accounted :
    (a : Answer) (c : Connector)
    → Accounted c
    → is_connecting c.state ≡ false
    → Accounted (start true a c)
unfolding start
start-Accounted a c e off = start_in_loop-Accounted a (record c { is_on = true }) e off

-- A connector that is connecting has one socket that is neither closed nor handed over.
one : (x : State) → is_connecting x ≡ true → waiting x ≡ 1
one connecting e = refl
one disconnected e = cc
one connected e = cc

stop_in_loop-Accounted : (c : Connector) → Accounted c → Accounted (stop_in_loop c)
unfolding stop_in_loop remove_and_reset_channel
stop_in_loop-Accounted c e = elim (Bool-cases (is_connecting c.state)) [
  | inl on ↦ rw on (
      retry-Accounted (remove_and_reset_channel (record c { state = disconnected }))
        (omega (arith, e, one c.state on)))
  | inr off ↦ rw off e
]

handle_error-Accounted : (c : Connector) → Accounted c → Accounted (handle_error c)
unfolding handle_error remove_and_reset_channel
handle_error-Accounted c e = elim (Bool-cases (is_connecting c.state)) [
  | inl on ↦ rw on (retry-Accounted (remove_and_reset_channel c) (omega (arith, e, one c.state on)))
  | inr off ↦ rw off e
]

handle_write-Accounted :
    (failed : Bool) (c : Connector) → Accounted c → Accounted (handle_write failed c)
unfolding handle_write remove_and_reset_channel
handle_write-Accounted failed c e = elim (Bool-cases (is_connecting c.state)) [
  | inl on ↦ rw on (written failed (omega (arith, e, one c.state on)))
  | inr off ↦ rw off e
]
  where
    written :
        (failed : Bool)
        → c.opened ≡ suc (c.closed + c.handed)
        → Accounted (
            let off = remove_and_reset_channel c in
            let up = record off { state = connected } in
            if failed
            then retry off
            else if c.is_on
            then record up { handed = suc up.handed }
            else record up { closed = suc up.closed })
    written true f = retry-Accounted (remove_and_reset_channel c) f
    written false f = ground (arith, f)

next_task-Accounted :
    (a : Answer) (ts : List Task) (c : Connector)
    → Accounted c
    → TaskCanRun ts c.state
    → Accounted (next_task a ts c)
unfolding run_task
next_task-Accounted a [] c e m = e
next_task-Accounted a (start_task ∷ ts) c e m =
    start_in_loop-Accounted a (record c { tasks = ts }) e (ap is_connecting m)
next_task-Accounted a (stop_task ∷ ts) c e m = stop_in_loop-Accounted (record c { tasks = ts }) e
next_task-Accounted a (reset_channel_task ∷ ts) c e m = e

step-Accounted : (e : Event) (c : Connector) → Accounted c → CanHappen e c → Accounted (step e c)
unfolding stop restart start
step-Accounted (starts true a) c e m = start-Accounted a c e (ap is_connecting m)
step-Accounted (starts false a) c e m = e
step-Accounted stops c e m = e
step-Accounted (restarts a) c e m =
    start_in_loop-Accounted a
      (record c { state = disconnected; retry_delay_ms = 500; is_on = true })
      (omega (arith, e, ap waiting m)) refl
step-Accounted (timer_fires a) c e m = start_in_loop-Accounted a c e (ap is_connecting m)
step-Accounted (runs_task a) c e m = next_task-Accounted a c.tasks c e m
step-Accounted (writable failed) c e m = handle_write-Accounted failed c e
step-Accounted fails c e m = handle_error-Accounted c e

-- Every socket that is opened is closed, or handed to the new connection, or belongs to the one attempt
-- under way: none is lost and none is closed twice, in every order of events that the `assert` allows, if
-- `restart` is called only for a connection that has gone.
pub sockets_are_accounted :
    {retries : ℤ} {c : Connector}
    → Reachable retries c
    → c.opened ≡ c.closed + (c.handed + waiting c.state)
sockets_are_accounted fresh = refl
sockets_are_accounted (stepped {c} e r m) = step-Accounted e c (sockets_are_accounted r) m
