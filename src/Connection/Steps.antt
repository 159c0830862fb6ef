-- ===== src/Connection/Steps.antt =====
-- What can happen to a connection of net/TcpConnection.cc, in any order: the calls of its owner, in
-- the thread of the loop or in others, the events of its channel, the tasks and timers of its loop. Each
-- call is one step: that a thread may be stopped between its test of the state and its change of it is
-- the subject of Connection/Racing.
use cu_ber.Prelude.{
  ℕ, zero, suc, ◌≤◌, ◌≡◌, Bytes, Bool, true, false, List, [], ◌∷◌, ◌++◌, ◌&&◌, not, if◌then◌else◌,
  length, ◌==◌,
}
use cu_ber.Buffer.{readable_bytes, ReadResult}
use cu_ber.Connection.{
  connecting, Task, send_task, Connection, Written, wrote, refused, broken_pipe, is_fault,
  is_connected, is_disconnected, is_open, new_connection, send, shutdown, force_close,
  force_close_with_delay, start_read, stop_read, connect_established, connect_destroyed,
  handle_read, handle_write, run_task,
}

pub data Event : Type 0 where
  sends : Bool → Written → Bytes → Event
  shuts_down starts_reading stops_reading : Bool → Event
  forces_close forces_close_with_delay established destroyed timer_fires : Event
  readable : ℕ → ReadResult → Event
  writable runs_task : Written → Event

-- The loop takes the first task.
abbrev pub next_task : Written → List Task → Connection → Connection
next_task w [] c = c
next_task w (t ∷ ts) c = run_task w t (record c { tasks = ts })

abbrev pub fire_timer : ℕ → Connection → Connection
fire_timer zero c = c
fire_timer (suc n) c = force_close (record c { timers = n })

abbrev pub step : Event → Connection → Connection
step (sends in_loop w bytes) c = send in_loop w bytes c
step (shuts_down in_loop) c = shutdown in_loop c
step (starts_reading in_loop) c = start_read in_loop c
step (stops_reading in_loop) c = stop_read in_loop c
step forces_close c = force_close c
step forces_close_with_delay c = force_close_with_delay c
step established c = connect_established c
step destroyed c = connect_destroyed c
step timer_fires c = fire_timer c.timers c
step (readable now r) c = handle_read now r c
step (writable w) c = handle_write w c
step (runs_task w) c = next_task w c.tasks c

-- What `write` may answer to so many bytes: it takes no more than it is given, and behind the end of
-- the writing side it fails with `EPIPE`.
abbrev pub MayAnswer : Written → ℕ → Bool → Type 0
MayAnswer (wrote n) size shut = (n ≤ size) × (shut ≡ false)
MayAnswer (refused e) size false = Unit {0}
MayAnswer (refused e) size true = e ≡ broken_pipe

abbrev pub TaskMayAnswer : Written → List Task → Bool → Type 0
TaskMayAnswer w (send_task bytes ∷ ts) shut = MayAnswer w (length bytes) shut
TaskMayAnswer w _ shut = Unit {0}

-- When an event can happen: `assert`s on the state, and the kernel's answers.
abbrev pub CanHappen : Event → Connection → Type 0
CanHappen (sends in_loop w bytes) c = MayAnswer w (length bytes) c.write_shut
CanHappen established c = c.state ≡ connecting
CanHappen (readable now r) c = is_open c.state ≡ true
CanHappen (writable (wrote n)) c = n ≤ readable_bytes c.output_buffer
CanHappen (runs_task w) c = TaskMayAnswer w c.tasks c.write_shut
CanHappen _ c = Unit {0}

-- The bytes of a message that are neither dropped because the connection is down nor lost because
-- nothing was waiting and `write` failed for good.
abbrev pub kept_of : Written → Bytes → Bool → Bytes
kept_of (wrote n) bytes idle = bytes
kept_of (refused e) bytes idle = if idle && is_fault e then [] else bytes

abbrev pub is_idle : Connection → Bool
is_idle c = not c.channel.is_writing && (readable_bytes c.output_buffer == 0)

abbrev pub kept : Written → Bytes → Connection → Bytes
kept w bytes c = if is_disconnected c.state then [] else kept_of w bytes (is_idle c)

abbrev pub kept_by_task : Written → List Task → Connection → Bytes
kept_by_task w (send_task bytes ∷ ts) c = kept w bytes c
kept_by_task w _ c = []

abbrev pub accepted : Event → Connection → Bytes
accepted (sends true w bytes) c = if is_connected c.state then kept w bytes c else []
accepted (runs_task w) c = kept_by_task w c.tasks c
accepted _ c = []

-- The connections that can come about, each with all the bytes that its loop was given to send.
pub data Reachable : Connection → Bytes → Type 0 where
  fresh : (now : ℕ) (complete high : Bool) → Reachable (new_connection now complete high) []
  stepped :
      {c : Connection} {sent : Bytes} (e : Event)
      → Reachable c sent
      → CanHappen e c
      → Reachable (step e c) (sent ++ accepted e c)
