-- ===== src/Connection/Closing.antt =====
-- How often the owner of a connection of net/TcpConnection.cc is told that it is closed.
use cu_ber.Prelude.{
  ℕ, zero, suc, ◌≤◌, ◌≡◌, refl, arith, Bytes, Bool, true, false, List, [], ◌∷◌, Bool-cases, inl,
  inr, take, drop, ap, ◌++◌,
}
use cu_ber.Buffer.{ReadResult, got, failed, content, retrieve}
use cu_ber.Connection.{
  connecting, disconnecting, Call, close_call, connection_call, message_call, write_complete_call,
  high_water_call, Task, send_task, shutdown_task, force_close_task, write_complete_task,
  start_read_task, stop_read_task, high_water_task, Connection, Written, wrote, refused,
  is_disconnected, is_open, keep_rest, write_directly, send_in_loop, send, shutdown_in_loop,
  shutdown, force_close, force_close_with_delay, handle_close, force_close_in_loop,
  start_read_in_loop, stop_read_in_loop, start_read, stop_read, connect_established,
  connect_destroyed, handle_read, drained, write_output, handle_write, run_task,
}
use cu_ber.Connection.Operations.{up_if_connected, up_if_open}
use cu_ber.Connection.Steps.{
  Event, sends, shuts_down, starts_reading, stops_reading, forces_close, forces_close_with_delay,
  established, destroyed, timer_fires, readable, writable, runs_task, next_task, fire_timer, step,
  CanHappen,
}

-- How many calls of the close callback are among the calls.
abbrev pub closes : List Call → ℕ
closes [] = 0
closes (close_call ∷ ks) = suc (closes ks)
closes (connection_call ∷ ks) = closes ks
closes (message_call ∷ ks) = closes ks
closes (write_complete_call ∷ ks) = closes ks
closes (high_water_call n ∷ ks) = closes ks

-- A connection that is down has called at most once more than the number says, one that is not down has
-- not called more often.
abbrev pub Once : ℕ → Connection → Type 0
Once late c =
    (closes c.calls ≤ suc late) × (is_disconnected c.state ≡ false → closes c.calls ≤ late)

-- A step that calls nobody and does not bring a connection up.
abbrev Silent : Connection → Connection → Type 0
Silent c d =
    (closes d.calls ≡ closes c.calls)
    × (is_disconnected d.state ≡ false → is_disconnected c.state ≡ false)

Silent-Once : (late : ℕ) (c d : Connection) → Silent c d → Once late c → Once late d
Silent-Once late c d (same, up) (one, none) =
    (omega (arith, same, one), λ e. omega (arith, same, none (up e)))

keep_rest-Silent : (bytes : Bytes) (c : Connection) → Silent c (keep_rest bytes c)
unfolding keep_rest
keep_rest-Silent [] c = (refl, λ e. e)
keep_rest-Silent (x ∷ xs) c = ground arith

write_directly-Silent :
    (w : Written) (bytes : Bytes) (c : Connection) → Silent c (write_directly w bytes c)
unfolding write_directly
write_directly-Silent (wrote n) bytes c =
    ground (arith, keep_rest-Silent (drop n bytes) (record c { wire = c.wire ++ take n bytes }))
write_directly-Silent (refused e) bytes c = ground (arith, keep_rest-Silent bytes c)

send_in_loop-Silent :
    (w : Written) (bytes : Bytes) (c : Connection) → Silent c (send_in_loop w bytes c)
unfolding send_in_loop
send_in_loop-Silent w bytes c =
    ground (arith, write_directly-Silent w bytes c, keep_rest-Silent bytes c)

shutdown_in_loop-Silent : (c : Connection) → Silent c (shutdown_in_loop c)
unfolding shutdown_in_loop
shutdown_in_loop-Silent c = ground arith

shutdown-Silent : (in_loop : Bool) (c : Connection) → Silent c (shutdown in_loop c)
unfolding shutdown
shutdown-Silent in_loop c =
    ground
      (arith, up_if_connected c.state, shutdown_in_loop-Silent (record c { state = disconnecting }))

send-Silent :
    (in_loop : Bool) (w : Written) (bytes : Bytes) (c : Connection)
    → Silent c (send in_loop w bytes c)
unfolding send
send-Silent in_loop w bytes c = ground (arith, send_in_loop-Silent w bytes c)

force_close-Silent : (c : Connection) → Silent c (force_close c)
unfolding force_close
force_close-Silent c = ground (arith, up_if_open c.state)

delayed-Silent : (c : Connection) → Silent c (force_close_with_delay c)
unfolding force_close_with_delay
delayed-Silent c = ground (arith, up_if_open c.state)

start_read-Silent : (in_loop : Bool) (c : Connection) → Silent c (start_read in_loop c)
unfolding start_read start_read_in_loop
start_read-Silent in_loop c = ground arith

stop_read-Silent : (in_loop : Bool) (c : Connection) → Silent c (stop_read in_loop c)
unfolding stop_read stop_read_in_loop
stop_read-Silent in_loop c = ground arith

established-Silent : (c : Connection) → c.state ≡ connecting → Silent c (connect_established c)
unfolding connect_established
established-Silent c e = (refl, λ d. ap is_disconnected e)

destroyed-Silent : (c : Connection) → Silent c (connect_destroyed c)
unfolding connect_destroyed
destroyed-Silent c = ground arith

drained-Silent : (c : Connection) → Silent c (drained c)
unfolding drained shutdown_in_loop
drained-Silent c = ground arith

handle_write-Silent : (w : Written) (c : Connection) → Silent c (handle_write w c)
unfolding handle_write write_output
handle_write-Silent (refused e) c = ground arith
handle_write-Silent (wrote zero) c = ground arith
handle_write-Silent (wrote (suc n)) c = ground (
  arith,
  drained-Silent (record c {
    wire = c.wire ++ take (suc n) (content c.output_buffer);
    output_buffer = retrieve (suc n) c.output_buffer;
  }),
)

-- The connection that closes was up.
handle_close-Once :
    (late : ℕ) (c : Connection) → Once late c → is_open c.state ≡ true → Once late (handle_close c)
unfolding handle_close
handle_close-Once late c (one, none) o =
    (omega (arith, none (up_if_open c.state o)), λ e. ground arith)

handle_read-Once :
    (late : ℕ) (now : ℕ) (r : ReadResult) (c : Connection)
    → Once late c
    → is_open c.state ≡ true
    → Once late (handle_read now r c)
unfolding handle_read
handle_read-Once late now (failed e) c o up = o
handle_read-Once late now (got []) c o up =
    handle_close-Once late (record c { last_receive_time = now }) o up
handle_read-Once late now (got (x ∷ xs)) c o up = o

next_task-Once :
    (late : ℕ) (w : Written) (ts : List Task) (c : Connection)
    → Once late c
    → Once late (next_task w ts c)
unfolding run_task force_close_in_loop start_read stop_read
next_task-Once late w [] c o = o
next_task-Once late w (send_task bytes ∷ ts) c o =
    Silent-Once late (record c { tasks = ts }) (send_in_loop w bytes (record c { tasks = ts }))
      (send_in_loop-Silent w bytes (record c { tasks = ts })) o
next_task-Once late w (shutdown_task ∷ ts) c o =
    Silent-Once late (record c { tasks = ts }) (shutdown_in_loop (record c { tasks = ts }))
      (shutdown_in_loop-Silent (record c { tasks = ts })) o
next_task-Once late w (force_close_task ∷ ts) c o = elim (Bool-cases (is_open c.state)) [
  | inl up ↦ rw up (handle_close-Once late (record c { tasks = ts }) o up)
  | inr off ↦ rw off o
]
next_task-Once late w (write_complete_task ∷ ts) c o = o
next_task-Once late w (start_read_task ∷ ts) c o =
    Silent-Once late (record c { tasks = ts }) (start_read true (record c { tasks = ts }))
      (start_read-Silent true (record c { tasks = ts })) o
next_task-Once late w (stop_read_task ∷ ts) c o =
    Silent-Once late (record c { tasks = ts }) (stop_read true (record c { tasks = ts }))
      (stop_read-Silent true (record c { tasks = ts })) o
next_task-Once late w (high_water_task n ∷ ts) c o = o

timer-Silent : (n : ℕ) (c : Connection) → Silent c (fire_timer n c)
timer-Silent zero c = (refl, λ e. e)
timer-Silent (suc n) c = force_close-Silent (record c { timers = n })

pub step-Once :
    (late : ℕ) (e : Event) (c : Connection) → Once late c → CanHappen e c → Once late (step e c)
step-Once late (sends in_loop w bytes) c o m =
    Silent-Once late c (send in_loop w bytes c) (send-Silent in_loop w bytes c) o
step-Once late (shuts_down in_loop) c o m =
    Silent-Once late c (shutdown in_loop c) (shutdown-Silent in_loop c) o
step-Once late (starts_reading in_loop) c o m =
    Silent-Once late c (start_read in_loop c) (start_read-Silent in_loop c) o
step-Once late (stops_reading in_loop) c o m =
    Silent-Once late c (stop_read in_loop c) (stop_read-Silent in_loop c) o
step-Once late forces_close c o m = Silent-Once late c (force_close c) (force_close-Silent c) o
step-Once late forces_close_with_delay c o m =
    Silent-Once late c (force_close_with_delay c) (delayed-Silent c) o
step-Once late established c o m =
    Silent-Once late c (connect_established c) (established-Silent c m) o
step-Once late destroyed c o m = Silent-Once late c (connect_destroyed c) (destroyed-Silent c) o
step-Once late timer_fires c o m =
    Silent-Once late c (fire_timer c.timers c) (timer-Silent c.timers c) o
step-Once late (readable now r) c o m = handle_read-Once late now r c o m
step-Once late (writable w) c o m =
    Silent-Once late c (handle_write w c) (handle_write-Silent w c) o
step-Once late (runs_task w) c o m = next_task-Once late w c.tasks c o
