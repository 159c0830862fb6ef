-- ===== src/Connection/Order.antt =====
-- Every step of a connection of net/TcpConnection.cc keeps the bytes in order, and the writing side
-- ends behind the last of them.
use cu_ber.Prelude.{
  ℕ, zero, suc, ◌≡◌, ◌≢◌, refl, sym, ap, ◌∙◌, Bytes, true, false, List, [], ◌∷◌, ◌++◌, length,
  Bool-cases, inl, inr,
}
use cu_ber.Buffer.{content, initial_size}
use cu_ber.Buffer.Content.{init_lem, length-content}
use cu_ber.Connection.{
  State, disconnected, connecting, connected, disconnecting, Task, send_task, shutdown_task,
  force_close_task, write_complete_task, start_read_task, stop_read_task, high_water_task,
  Connection, Written, is_disconnected, shutdown_in_loop, shutdown, force_close,
  force_close_with_delay, force_close_in_loop, start_read_in_loop, stop_read_in_loop, start_read,
  stop_read, connect_established, connect_destroyed, handle_read, handle_write, run_task,
}
use cu_ber.Connection.Steps.{
  Event, sends, shuts_down, starts_reading, stops_reading, forces_close, forces_close_with_delay,
  established, destroyed, timer_fires, readable, writable, runs_task, next_task, fire_timer, step,
  TaskMayAnswer, CanHappen, kept_by_task, accepted, Reachable, fresh, stepped,
}
use cu_ber.Connection.Delivery.{IsSound, same-IsSound, content_none, send_in_loop-IsSound}
use cu_ber.Connection.Operations.{
  moved-IsSound, nothing_more, shutdown_in_loop-IsSound, shutdown-IsSound, send-IsSound,
  force_close-IsSound, delayed-IsSound, close_in_loop-IsSound, reading-IsSound, destroyed-IsSound,
  handle_read-IsSound, handle_write-IsSound,
}

run_task-IsSound :
    (w : Written) (t : Task) (ts : List Task) (c : Connection) {s : Bytes}
    → IsSound c s
    → TaskMayAnswer w (t ∷ ts) c.write_shut
    → IsSound (run_task w t c) (s ++ kept_by_task w (t ∷ ts) c)
unfolding run_task
run_task-IsSound w (send_task bytes) ts c f m = send_in_loop-IsSound w bytes c f m
run_task-IsSound w shutdown_task ts c f m =
    nothing_more (shutdown_in_loop c) (shutdown_in_loop-IsSound c f)
run_task-IsSound w force_close_task ts c f m =
    nothing_more (force_close_in_loop c) (close_in_loop-IsSound c f)
run_task-IsSound w write_complete_task ts c f m = nothing_more c f
run_task-IsSound w start_read_task ts c f m =
    nothing_more (start_read_in_loop c) (reading-IsSound c f).0
run_task-IsSound w stop_read_task ts c f m =
    nothing_more (stop_read_in_loop c) (reading-IsSound c f).1
run_task-IsSound w (high_water_task n) ts c f m = nothing_more c f

next_task-IsSound :
    (w : Written) (ts : List Task) (c : Connection) {s : Bytes}
    → IsSound c s
    → TaskMayAnswer w ts c.write_shut
    → IsSound (next_task w ts c) (s ++ kept_by_task w ts c)
next_task-IsSound w [] c f m = nothing_more c f
next_task-IsSound w (t ∷ ts) c {s} f m =
    same-IsSound (run_task w t (record c { tasks = ts }))
      (run_task-IsSound w t ts (record c { tasks = ts }) f m) (ap (λ x. s ++ x) (same_bytes t))
  where
    same_bytes :
        (t : Task) → kept_by_task w (t ∷ ts) (record c { tasks = ts }) ≡ kept_by_task w (t ∷ ts) c
    same_bytes (send_task bytes) = refl
    same_bytes shutdown_task = refl
    same_bytes force_close_task = refl
    same_bytes write_complete_task = refl
    same_bytes start_read_task = refl
    same_bytes stop_read_task = refl
    same_bytes (high_water_task n) = refl

timer-IsSound : (n : ℕ) (c : Connection) {s : Bytes} → IsSound c s → IsSound (fire_timer n c) s
timer-IsSound zero c f = f
timer-IsSound (suc n) c f = force_close-IsSound (record c { timers = n }) f

step-IsSound :
    (e : Event) (c : Connection) {s : Bytes}
    → IsSound c s
    → CanHappen e c
    → IsSound (step e c) (s ++ accepted e c)
unfolding start_read stop_read connect_established
step-IsSound (sends in_loop w bytes) c f m = send-IsSound in_loop w bytes c f m
step-IsSound (shuts_down in_loop) c f m =
    nothing_more (shutdown in_loop c) (shutdown-IsSound in_loop c f)
step-IsSound (starts_reading true) c f m =
    nothing_more (start_read_in_loop c) (reading-IsSound c f).0
step-IsSound (starts_reading false) c f m = nothing_more c f
step-IsSound (stops_reading true) c f m = nothing_more (stop_read_in_loop c) (reading-IsSound c f).1
step-IsSound (stops_reading false) c f m = nothing_more c f
step-IsSound forces_close c f m = nothing_more (force_close c) (force_close-IsSound c f)
step-IsSound forces_close_with_delay c f m =
    nothing_more (force_close_with_delay c) (delayed-IsSound c f)
step-IsSound established c f m =
    nothing_more (connect_established c) (moved-IsSound c connected (ap is_disconnected m) f)
step-IsSound destroyed c f m = nothing_more (connect_destroyed c) (destroyed-IsSound c f)
step-IsSound timer_fires c f m = nothing_more (fire_timer c.timers c) (timer-IsSound c.timers c f)
step-IsSound (readable now r) c f m =
    nothing_more (handle_read now r c) (handle_read-IsSound now r c f)
step-IsSound (writable w) c f m = nothing_more (handle_write w c) (handle_write-IsSound w c f)
step-IsSound (runs_task w) c f m = next_task-IsSound w c.tasks c f m

reachable-IsSound : {c : Connection} {sent : Bytes} → Reachable c sent → IsSound c sent
reachable-IsSound (fresh now complete high) =
    let (v, empty, _) = init_lem initial_size in
    record {
      valid = v;
      flow = empty;
      busy = λ e d. sym (length-content v) ∙ ap length empty;
      over = λ e d. refl;
    }
reachable-IsSound (stepped {c} e r m) = step-IsSound e c (reachable-IsSound r) m

-- In every order of events that the `assert`s allow the bytes that the kernel took, followed by those
-- that wait in the output buffer, are the bytes that the loop was given to send, in the order of the sends: none is lost,
-- doubled or overtaken. A message counts unless it was given to a connection that is down, or `write`
-- failed with a broken pipe or a reset when nothing waited. Each call is one step: no thread is stopped
-- between its test of the state and its change of it.
pub sends_in_order :
    {c : Connection} {sent : Bytes} → Reachable c sent → c.wire ++ content c.output_buffer ≡ sent
sends_in_order r = (reachable-IsSound r).flow

not_down : (x : State) → x ≢ disconnected → is_disconnected x ≡ false
not_down disconnected h = absurd (h refl)
not_down connecting h = refl
not_down connected h = refl
not_down disconnecting h = refl

-- Bytes never wait for nothing: on a connection that is not down, the channel is asked to write
-- whenever the output buffer is not empty. Each call is one step: no thread is stopped between its
-- test of the state and its change of it.
pub waiting_is_writing :
    {c : Connection} {sent : Bytes}
    → Reachable c sent
    → c.state ≢ disconnected
    → content c.output_buffer ≢ []
    → c.channel.is_writing ≡ true
waiting_is_writing {c} r up some_bytes = elim (Bool-cases c.channel.is_writing) [
  | inl on ↦ on
  | inr off ↦
      let f = reachable-IsSound r in
      absurd (some_bytes (content_none f.valid (f.busy off (not_down c.state up))))
]
