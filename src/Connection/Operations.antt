-- ===== src/Connection/Operations.antt =====
-- Every operation of a connection of net/TcpConnection.cc keeps the bytes that it was given in order.
use cu_ber.Prelude.{
  ℕ, zero, suc, ◌≡◌, refl, sym, ap, ◌∙◌, arith, Bytes, Bool, true, false, [], ◌∷◌, ◌++◌, ◌||◌, not,
  if◌then◌else◌, length, take, ◌==◌, Bool-cases, inl, inr, append-nil, append_assoc,
  take-append-drop,
}
use cu_ber.Buffer.{Buffer, content, readable_bytes, retrieve, ReadResult, got, failed}
use cu_ber.Buffer.Content.{IsValid, retrieve_lem}
use cu_ber.Connection.{
  State, disconnected, connecting, connected, disconnecting, write_complete_task, Connection,
  Written, wrote, refused, is_connected, is_disconnected, is_open, is_disconnecting, queue_in_loop,
  disable_writing, send, shutdown_in_loop, shutdown, force_close, force_close_with_delay,
  handle_close, force_close_in_loop, start_read_in_loop, stop_read_in_loop, connect_destroyed,
  handle_read, drained, write_output, handle_write,
}
use cu_ber.Connection.Steps.{sends, MayAnswer, accepted}
use cu_ber.Connection.Delivery.{
  Flows, IsSound, branch-IsSound, either-IsSound, same-IsSound, send_in_loop-IsSound,
}

pub up_if_connected : (x : State) → is_connected x ≡ true → is_disconnected x ≡ false
up_if_connected connected e = refl
up_if_connected disconnected e = cc
up_if_connected connecting e = cc
up_if_connected disconnecting e = cc

pub up_if_open : (x : State) → is_open x ≡ true → is_disconnected x ≡ false
up_if_open connected e = refl
up_if_open disconnecting e = refl
up_if_open disconnected e = cc
up_if_open connecting e = cc

-- A connection that is up may go to any state.
pub moved-IsSound :
    (c : Connection) {s : Bytes} (x : State)
    → is_disconnected c.state ≡ false
    → IsSound c s
    → IsSound (record c { state = x }) s
moved-IsSound c x up f = record {
  valid = f.valid;
  flow = f.flow;
  busy = λ e d. f.busy e up;
  over = λ e d. f.over e up;
}

-- One that is down owes nothing more.
down-Flows :
    {out : Buffer} {wire s : Bytes} (w shut : Bool)
    → IsValid out
    → wire ++ content out ≡ s
    → Flows out wire w true shut s
down-Flows w shut v e = record {
  valid = v;
  flow = e;
  busy = λ a b. ground arith;
  over = λ a b. ground arith;
}

pub nothing_more : (c : Connection) {s : Bytes} → IsSound c s → IsSound c (s ++ [])
nothing_more c f = same-IsSound c f (sym (append-nil _))

pub shutdown_in_loop-IsSound :
    (c : Connection) {s : Bytes} → IsSound c s → IsSound (shutdown_in_loop c) s
unfolding shutdown_in_loop
shutdown_in_loop-IsSound c {s} f =
    either-IsSound c.channel.is_writing c (record c { write_shut = true }) s (λ e. f)
      (λ idle. record { valid = f.valid; flow = f.flow; busy = f.busy; over = λ e d. idle })

pub shutdown-IsSound :
    (in_loop : Bool) (c : Connection) {s : Bytes} → IsSound c s → IsSound (shutdown in_loop c) s
unfolding shutdown
shutdown-IsSound in_loop c {s} f = elim (Bool-cases (is_connected c.state)) [
  | inl up ↦
      let closing = moved-IsSound c disconnecting (up_if_connected c.state up) f in
      rw up (
        either-IsSound in_loop _ _ s
          (λ e. shutdown_in_loop-IsSound (record c { state = disconnecting }) closing)
          (λ e. closing))
  | inr off ↦ rw off f
]

pub send-IsSound :
    (in_loop : Bool) (w : Written) (bytes : Bytes) (c : Connection) {s : Bytes}
    → IsSound c s
    → MayAnswer w (length bytes) c.write_shut
    → IsSound (send in_loop w bytes c) (s ++ accepted (sends in_loop w bytes) c)
unfolding send
send-IsSound true w bytes c {s} f m =
    branch-IsSound (is_connected c.state) _ c s _ _ (λ e. send_in_loop-IsSound w bytes c f m)
      (λ e. nothing_more c f)
send-IsSound false w bytes c {s} f m = elim (Bool-cases (is_connected c.state)) [
  | inl up ↦ rw up (nothing_more c f)
  | inr off ↦ rw off (nothing_more c f)
]

pub force_close-IsSound : (c : Connection) {s : Bytes} → IsSound c s → IsSound (force_close c) s
unfolding force_close
force_close-IsSound c {s} f =
    either-IsSound (is_open c.state) _ c s
      (λ e. moved-IsSound c disconnecting (up_if_open c.state e) f) (λ e. f)

pub delayed-IsSound :
    (c : Connection) {s : Bytes} → IsSound c s → IsSound (force_close_with_delay c) s
unfolding force_close_with_delay
delayed-IsSound c {s} f =
    either-IsSound (is_open c.state) _ c s
      (λ e. moved-IsSound c disconnecting (up_if_open c.state e) f) (λ e. f)

pub handle_close-IsSound : (c : Connection) {s : Bytes} → IsSound c s → IsSound (handle_close c) s
unfolding handle_close
handle_close-IsSound c f = down-Flows false c.write_shut f.valid f.flow

pub close_in_loop-IsSound :
    (c : Connection) {s : Bytes} → IsSound c s → IsSound (force_close_in_loop c) s
unfolding force_close_in_loop
close_in_loop-IsSound c {s} f =
    either-IsSound (is_open c.state) _ c s (λ e. handle_close-IsSound c f) (λ e. f)

pub reading-IsSound :
    (c : Connection) {s : Bytes}
    → IsSound c s
    → IsSound (start_read_in_loop c) s × IsSound (stop_read_in_loop c) s
unfolding start_read_in_loop stop_read_in_loop
reading-IsSound c {s} f = (
  either-IsSound (not c.reading || not c.channel.is_reading) _ c s (λ e. f) (λ e. f),
  either-IsSound (c.reading || c.channel.is_reading) _ c s (λ e. f) (λ e. f),
)

pub destroyed-IsSound : (c : Connection) {s : Bytes} → IsSound c s → IsSound (connect_destroyed c) s
unfolding connect_destroyed
destroyed-IsSound c {s} f = elim (Bool-cases (is_connected c.state)) [
  | inl up ↦ rw up (down-Flows false c.write_shut f.valid f.flow)
  | inr off ↦ rw off f
]

pub handle_read-IsSound :
    (now : ℕ) (r : ReadResult) (c : Connection) {s : Bytes}
    → IsSound c s
    → IsSound (handle_read now r c) s
unfolding handle_read
handle_read-IsSound now (failed e) c f = f
handle_read-IsSound now (got []) c f = handle_close-IsSound (record c { last_receive_time = now }) f
handle_read-IsSound now (got (x ∷ xs)) c f = f

pub ended-IsSound :
    (c : Connection) {s : Bytes}
    → IsSound c s
    → IsSound (if is_disconnecting c.state then shutdown_in_loop c else c) s
ended-IsSound c {s} f =
    either-IsSound (is_disconnecting c.state) (shutdown_in_loop c) c s
      (λ e. shutdown_in_loop-IsSound c f) (λ e. f)

-- Behind the last byte of the output.
pub drained-IsSound :
    (c : Connection) {s : Bytes}
    → IsSound c s
    → readable_bytes c.output_buffer ≡ 0
    → IsSound (drained c) s
unfolding drained
drained-IsSound c {s} f none =
    ended-IsSound
      (if c.has_write_complete
        then queue_in_loop write_complete_task (disable_writing c)
        else disable_writing c)
      (either-IsSound c.has_write_complete (queue_in_loop write_complete_task (disable_writing c))
        (disable_writing c) s (λ e. idle) (λ e. idle))
  where
    idle : Flows c.output_buffer c.wire false (is_disconnected c.state) c.write_shut s
    idle = record { valid = f.valid; flow = f.flow; busy = λ e d. none; over = λ e d. refl }

pub write_output-IsSound :
    (w : Written) (c : Connection) {s : Bytes}
    → IsSound c s
    → c.channel.is_writing ≡ true
    → IsSound (write_output w c) s
unfolding write_output
write_output-IsSound (refused e) c f on = f
write_output-IsSound (wrote zero) c f on = f
write_output-IsSound (wrote (suc n)) c {s} f on =
    either-IsSound (readable_bytes (retrieve (suc n) c.output_buffer) == 0) _ _ s
      (λ e.
        drained-IsSound
          (record c {
            wire = c.wire ++ take (suc n) (content c.output_buffer);
            output_buffer = retrieve (suc n) c.output_buffer;
          })
          sent (ground arith))
      (λ e. sent)
  where
    sent :
        Flows
          (retrieve (suc n) c.output_buffer)
          (c.wire ++ take (suc n) (content c.output_buffer))
          c.channel.is_writing
          (is_disconnected c.state)
          c.write_shut
          s
    sent =
        let (v, rest) = retrieve_lem (suc n) f.valid in
        record {
          valid = v;
          flow =
              append_assoc c.wire _ _
              ∙ ap (λ t. c.wire ++ (take (suc n) (content c.output_buffer) ++ t)) rest
              ∙ ap (λ t. c.wire ++ t) (take-append-drop (suc n) (content c.output_buffer))
              ∙ f.flow;
          busy = λ e d. cc;
          over = f.over;
        }

pub handle_write-IsSound :
    (w : Written) (c : Connection) {s : Bytes} → IsSound c s → IsSound (handle_write w c) s
unfolding handle_write
handle_write-IsSound w c {s} f =
    either-IsSound c.channel.is_writing _ c s (λ on. write_output-IsSound w c f on) (λ e. f)
