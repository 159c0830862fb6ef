-- ===== src/Connector/Retries.antt =====
-- How often and after which delays net/Connector.cc tries again.
use cu_ber.Prelude.{
  ℕ, zero, suc, ◌+◌, ◌≤◌, ◌≡◌, refl, arith, Bool, true, false, List, [], ◌∷◌, if◌then◌else◌, ℤ, pos,
  negsuc, length, Bool-cases, inl, inr,
}
use cu_ber.Connector.{
  disconnected, connected, Task, start_task, stop_task, reset_channel_task, Connector, stop,
  schedule, retry_by, retry, Answer, under_way, try_again, hopeless, connect, start_in_loop, start,
  init_retry_delay_ms, max_retry_delay_ms, remove_and_reset_channel, is_connecting, stop_in_loop,
  restart, handle_write, handle_error, run_task,
}
use cu_ber.Connector.Accounts.{
  Event, starts, stops, restarts, timer_fires, runs_task, writable, fails, next_task, step,
  Reachable, fresh, stepped,
}

abbrev pub IsDelay : ℕ → Type 0
IsDelay d = (init_retry_delay_ms ≤ d) × (d ≤ max_retry_delay_ms)

abbrev pub AllDelays : List ℕ → Type 0
AllDelays [] = Unit {0}
AllDelays (d ∷ ds) = IsDelay d × AllDelays ds

-- What is left of the limit, and the delays.
abbrev Limited : ℕ → Connector → Type 0
Limited n c =
    (left : ℕ) × (c.max_retry ≡ pos left)
    × (length c.delays + left ≡ n)
    × IsDelay c.retry_delay_ms
    × AllDelays c.delays

retry_by-Limited :
    (n : ℕ) (m : ℤ) (c : Connector) → Limited n c → c.max_retry ≡ m → Limited n (retry_by m c)
unfolding retry_by stop schedule
retry_by-Limited n (pos zero) c l e = l
retry_by-Limited n (pos (suc k)) c (left, same, sum, (low, high), all) e =
    let next : pos left ≡ pos (suc k) = cc in
    (k, refl, ground (arith, sum, next), (ground arith, ground arith), ((low, high), all))
retry_by-Limited n (negsuc k) c (left, same, sum, d, all) e = cc

retry-Limited : (n : ℕ) (c : Connector) → Limited n c → Limited n (retry c)
unfolding retry
retry-Limited n c l = elim (Bool-cases c.is_on) [
  | inl on ↦ rw on (
      retry_by-Limited n c.max_retry
        (record c { closed = suc c.closed; state = disconnected; is_on = true }) l refl)
  | inr off ↦ rw off l
]

connect-Limited : (n : ℕ) (a : Answer) (c : Connector) → Limited n c → Limited n (connect a c)
unfolding connect
connect-Limited n under_way c l = l
connect-Limited n try_again c l = retry-Limited n (record c { opened = suc c.opened }) l
connect-Limited n hopeless c l = l

start_in_loop-Limited :
    (n : ℕ) (a : Answer) (c : Connector) → Limited n c → Limited n (start_in_loop a c)
unfolding start_in_loop
start_in_loop-Limited n a c l = elim (Bool-cases c.is_on) [
  | inl on ↦ rw on (connect-Limited n a (record c { is_on = true }) l)
  | inr off ↦ rw off l
]

stop_in_loop-Limited : (n : ℕ) (c : Connector) → Limited n c → Limited n (stop_in_loop c)
unfolding stop_in_loop remove_and_reset_channel
stop_in_loop-Limited n c l = elim (Bool-cases (is_connecting c.state)) [
  | inl on ↦
      rw on (retry-Limited n (remove_and_reset_channel (record c { state = disconnected })) l)
  | inr off ↦ rw off l
]

handle_error-Limited : (n : ℕ) (c : Connector) → Limited n c → Limited n (handle_error c)
unfolding handle_error remove_and_reset_channel
handle_error-Limited n c l = elim (Bool-cases (is_connecting c.state)) [
  | inl on ↦ rw on (retry-Limited n (remove_and_reset_channel c) l)
  | inr off ↦ rw off l
]

handle_write-Limited :
    (n : ℕ) (failed : Bool) (c : Connector) → Limited n c → Limited n (handle_write failed c)
unfolding handle_write remove_and_reset_channel
handle_write-Limited n failed c l = elim (Bool-cases (is_connecting c.state)) [
  | inl on ↦ rw on (written failed)
  | inr off ↦ rw off l
]
  where
    written :
        (failed : Bool)
        → Limited n (
            let off = remove_and_reset_channel c in
            let up = record off { state = connected } in
            if failed
            then retry off
            else if c.is_on
            then record up { handed = suc up.handed }
            else record up { closed = suc up.closed })
    written true = retry-Limited n (remove_and_reset_channel c) l
    written false = elim (Bool-cases c.is_on) [ inl on ↦ rw on l | inr off ↦ rw off l ]

next_task-Limited :
    (n : ℕ) (a : Answer) (ts : List Task) (c : Connector)
    → Limited n c
    → Limited n (next_task a ts c)
unfolding run_task
next_task-Limited n a [] c l = l
next_task-Limited n a (start_task ∷ ts) c l = start_in_loop-Limited n a (record c { tasks = ts }) l
next_task-Limited n a (stop_task ∷ ts) c l = stop_in_loop-Limited n (record c { tasks = ts }) l
next_task-Limited n a (reset_channel_task ∷ ts) c l = l

step-Limited : (n : ℕ) (e : Event) (c : Connector) → Limited n c → Limited n (step e c)
unfolding stop restart start
step-Limited n (starts true a) c l = start_in_loop-Limited n a (record c { is_on = true }) l
step-Limited n (starts false a) c l = l
step-Limited n stops c l = l
step-Limited n (restarts a) c (left, same, sum, d, all) =
    start_in_loop-Limited n a
      (record c { state = disconnected; retry_delay_ms = init_retry_delay_ms; is_on = true })
      (left, same, sum, (omega arith, omega arith), all)
step-Limited n (timer_fires a) c l = start_in_loop-Limited n a c l
step-Limited n (runs_task a) c l = next_task-Limited n a c.tasks c l
step-Limited n (writable failed) c l = handle_write-Limited n failed c l
step-Limited n fails c l = handle_error-Limited n c l

reachable-Limited : (n : ℕ) {c : Connector} → Reachable (pos n) c → Limited n c
reachable-Limited n fresh = (n, refl, omega arith, (omega arith, omega arith), tt)
reachable-Limited n (stepped {c} e r m) = step-Limited n e c (reachable-Limited n r)

-- With a limit on the retries, no more than so many are ever scheduled, restarts included, and each
-- waits for half a second at least and thirty seconds at most.
pub retries_are_limited :
    (n : ℕ) {c : Connector} → Reachable (pos n) c → (length c.delays ≤ n) × AllDelays c.delays
retries_are_limited n r =
    let (left, same, sum, d, all) = reachable-Limited n r in (omega (arith, sum), all)
