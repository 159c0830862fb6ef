-- ===== src/Connection.antt =====
-- net/TcpConnection.h, TcpConnection.cc, and of net/Channel.h what a connection uses: sending through
-- the output buffer, the states of a connection, shutting down and closing. What the kernel answers to
-- a read or a write is an argument of the step. A callback is noted in the order of the calls: what it
-- does to the connection is a step of its own.
pub mod Steps
pub mod Delivery
pub mod Operations
pub mod Order
pub mod Closing
pub mod Racing
mod Tests
use cu_ber.Prelude.{
  ℕ, zero, suc, ◌+◌, ◌*◌, Bytes, Bool, true, false, List, [], ◌∷◌, ◌++◌, ltb, leb, ◌==◌, ◌&&◌, ◌||◌,
  not, if◌then◌else◌, length, take, drop,
}
use cu_ber.Buffer.{
  Buffer, content, readable_bytes, append, retrieve, retrieve_all, init, initial_size, ReadResult,
  got, failed, read_fd,
}

-- `StateE`
pub data State : Type 0 where
  disconnected connecting connected disconnecting : State

-- The events of a channel: the two bits for reading are always set together.
pub record Channel : Type 0 where
  pub is_reading : Bool
  pub is_writing : Bool
  pub added_to_loop : Bool

-- What the loop is asked to run later.
pub data Task : Type 0 where
  send_task : Bytes → Task
  shutdown_task force_close_task write_complete_task start_read_task stop_read_task : Task
  high_water_task : ℕ → Task

pub data Call : Type 0 where
  connection_call close_call message_call write_complete_call : Call
  high_water_call : ℕ → Call

-- The fields of a connection, with what it has done to the world: the bytes that the kernel took, the
-- end of the writing side, the tasks of the loop in their order, the number of its timers that will
-- force a close, and the calls of the callbacks, the last one first.
pub record Connection : Type 0 where
  pub state : State
  pub reading : Bool
  pub channel : Channel
  pub has_write_complete : Bool
  pub has_high_water : Bool
  pub high_water_mark : ℕ
  pub input_buffer : Buffer
  pub output_buffer : Buffer
  pub last_receive_time : ℕ
  pub wire : Bytes
  pub write_shut : Bool
  pub tasks : List Task
  pub timers : ℕ
  pub calls : List Call

-- The constructor, with the callbacks that its owner sets next.
abbrev pub new_connection : ℕ → Bool → Bool → Connection
new_connection now write_complete high_water = record {
  state = connecting;
  reading = true;
  channel = record { is_reading = false; is_writing = false; added_to_loop = false };
  has_write_complete = write_complete;
  has_high_water = high_water;
  high_water_mark = 64 * 1024 * 1024;
  input_buffer = init initial_size;
  output_buffer = init initial_size;
  last_receive_time = now;
  wire = [];
  write_shut = false;
  tasks = [];
  timers = 0;
  calls = [];
}

abbrev pub is_connected : State → Bool
is_connected connected = true
is_connected _ = false

abbrev pub is_disconnected : State → Bool
is_disconnected disconnected = true
is_disconnected _ = false

abbrev pub is_disconnecting : State → Bool
is_disconnecting disconnecting = true
is_disconnecting _ = false

-- The two states in which a connection can be closed.
abbrev pub is_open : State → Bool
is_open s = is_connected s || is_disconnecting s

abbrev enable_writing : Connection → Connection
enable_writing c = record c {
  channel = record c.channel { is_writing = true; added_to_loop = true };
}

abbrev pub disable_writing : Connection → Connection
disable_writing c = record c {
  channel = record c.channel { is_writing = false; added_to_loop = true };
}

abbrev set_reading : Bool → Connection → Connection
set_reading on c = record c {
  channel = record c.channel { is_reading = on; added_to_loop = true };
  reading = on;
}

abbrev disable_all : Connection → Connection
disable_all c = record c {
  channel = record { is_reading = false; is_writing = false; added_to_loop = true };
}

abbrev pub queue_in_loop : Task → Connection → Connection
queue_in_loop t c = record c { tasks = c.tasks ++ t ∷ [] }

abbrev call : Call → Connection → Connection
call k c = record c { calls = k ∷ c.calls }

-- What `write` answers: how many bytes it took, or an error.
pub data WriteError : Type 0 where
  would_block broken_pipe reset_by_peer other_error : WriteError

pub data Written : Type 0 where
  wrote : ℕ → Written
  refused : WriteError → Written

abbrev pub is_fault : WriteError → Bool
is_fault broken_pipe = true
is_fault reset_by_peer = true
is_fault _ = false

-- The part of a message that was not written goes into the output buffer.
pub keep_rest : Bytes → Connection → Connection
keep_rest [] c = c
keep_rest (x ∷ xs) c =
    let old = readable_bytes c.output_buffer in
    let new = old + length (x ∷ xs) in
    let marked =
      if leb c.high_water_mark new && (ltb old c.high_water_mark && c.has_high_water)
      then queue_in_loop (high_water_task new) c
      else c in
    enable_writing (record marked { output_buffer = append (x ∷ xs) marked.output_buffer })

-- `write` right away, where nothing waits in the output buffer.
pub write_directly : Written → Bytes → Connection → Connection
unfolding keep_rest
write_directly (wrote n) bytes c =
    let sent = record c { wire = c.wire ++ take n bytes } in
    if leb (length bytes) n
    then if c.has_write_complete then queue_in_loop write_complete_task sent else sent
    else keep_rest (drop n bytes) sent
write_directly (refused e) bytes c = if is_fault e then c else keep_rest bytes c

pub send_in_loop : Written → Bytes → Connection → Connection
unfolding write_directly keep_rest
send_in_loop w bytes c =
    if is_disconnected c.state
    then c
    else if not c.channel.is_writing && (readable_bytes c.output_buffer == 0)
    then write_directly w bytes c
    else keep_rest bytes c

-- `send`, in the thread of the loop or in another one.
pub send : Bool → Written → Bytes → Connection → Connection
unfolding send_in_loop
send in_loop w bytes c =
    if is_connected c.state
    then if in_loop then send_in_loop w bytes c else queue_in_loop (send_task bytes) c
    else c

-- `send(Buffer*)` takes the bytes out of the buffer.
pub send_buffer : Bool → Written → Buffer → Connection → Connection × Buffer
unfolding send
send_buffer in_loop w b c =
    (send in_loop w (content b) c, if is_connected c.state then retrieve_all b else b)

pub shutdown_in_loop : Connection → Connection
shutdown_in_loop c = if c.channel.is_writing then c else record c { write_shut = true }

-- `shutdown` behind its test of the state.
pub shut : Bool → Connection → Connection
unfolding shutdown_in_loop
shut in_loop c =
    let closing = record c { state = disconnecting } in
    if in_loop then shutdown_in_loop closing else queue_in_loop shutdown_task closing

pub shutdown : Bool → Connection → Connection
unfolding shut
shutdown in_loop c = if is_connected c.state then shut in_loop c else c

-- `forceClose` behind its test of the state.
abbrev pub close_soon : Connection → Connection
close_soon c = queue_in_loop force_close_task (record c { state = disconnecting })

pub force_close : Connection → Connection
force_close c = if is_open c.state then close_soon c else c

-- `forceCloseWithDelay` behind its test of the state.
abbrev pub close_later : Connection → Connection
close_later c = record c { state = disconnecting; timers = suc c.timers }

pub force_close_with_delay : Connection → Connection
force_close_with_delay c = if is_open c.state then close_later c else c

pub handle_close : Connection → Connection
handle_close c =
    call close_call (call connection_call (disable_all (record c { state = disconnected })))

pub force_close_in_loop : Connection → Connection
unfolding handle_close
force_close_in_loop c = if is_open c.state then handle_close c else c

pub start_read_in_loop : Connection → Connection
start_read_in_loop c = if not c.reading || not c.channel.is_reading then set_reading true c else c

pub stop_read_in_loop : Connection → Connection
stop_read_in_loop c = if c.reading || c.channel.is_reading then set_reading false c else c

pub start_read : Bool → Connection → Connection
unfolding start_read_in_loop
start_read in_loop c = if in_loop then start_read_in_loop c else queue_in_loop start_read_task c

pub stop_read : Bool → Connection → Connection
unfolding stop_read_in_loop
stop_read in_loop c = if in_loop then stop_read_in_loop c else queue_in_loop stop_read_task c

pub connect_established : Connection → Connection
connect_established c = call connection_call (record c {
  state = connected;
  channel = record c.channel { is_reading = true; added_to_loop = true };
})

pub connect_destroyed : Connection → Connection
connect_destroyed c =
    let closed =
      if is_connected c.state
      then call connection_call (disable_all (record c { state = disconnected }))
      else c in
    record closed { channel = record closed.channel { added_to_loop = false } }

pub handle_read : ℕ → ReadResult → Connection → Connection
unfolding handle_close
handle_read now (failed errno) c = record c { last_receive_time = now }
handle_read now (got []) c = handle_close (record c { last_receive_time = now })
handle_read now (got (x ∷ xs)) c =
    call message_call
      (record c { last_receive_time = now; input_buffer = read_fd (got (x ∷ xs)) c.input_buffer })

-- The output has all been written.
pub drained : Connection → Connection
unfolding shutdown_in_loop
drained c =
    let idle = disable_writing c in
    let told = if c.has_write_complete then queue_in_loop write_complete_task idle else idle in
    if is_disconnecting told.state then shutdown_in_loop told else told

pub write_output : Written → Connection → Connection
unfolding drained
write_output (refused e) c = c
write_output (wrote zero) c = c
write_output (wrote (suc n)) c =
    let sent = record c {
      wire = c.wire ++ take (suc n) (content c.output_buffer);
      output_buffer = retrieve (suc n) c.output_buffer;
    } in
    if readable_bytes sent.output_buffer == 0 then drained sent else sent

pub handle_write : Written → Connection → Connection
unfolding write_output
handle_write w c = if c.channel.is_writing then write_output w c else c

-- A task that the loop runs: its head, with the answer of `write` if it is a send.
pub run_task : Written → Task → Connection → Connection
unfolding send_in_loop shutdown_in_loop force_close_in_loop start_read_in_loop stop_read_in_loop
run_task w (send_task bytes) c = send_in_loop w bytes c
run_task w shutdown_task c = shutdown_in_loop c
run_task w force_close_task c = force_close_in_loop c
run_task w write_complete_task c = call write_complete_call c
run_task w start_read_task c = start_read_in_loop c
run_task w stop_read_task c = stop_read_in_loop c
run_task w (high_water_task n) c = call (high_water_call n) c
