-- ===== src/Connection/Tests.antt =====
-- A connection of net/TcpConnection.cc that sends in two parts and shuts down, and the theorems at it.
use cu_ber.Prelude.{suc, ◌≡◌, ◌≢◌, ◌≤◌, refl, arith, true, false, [], ◌++◌, codes}
use cu_ber.Buffer.{content, got, append, has_written, copy_in, ensure_writable_bytes, init}
use cu_ber.Connection.{
  Connection, disconnected, wrote, new_connection, send, connect_established, handle_read,
  handle_close, run_task, force_close_in_loop, send_in_loop, write_directly, keep_rest,
}
use cu_ber.Connection.Steps.{
  sends, shuts_down, established, readable, runs_task, writable, step, Reachable, fresh, stepped,
}
use cu_ber.Connection.Order.{sends_in_order, waiting_is_writing}
use cu_ber.Connection.Closing.{closes}
use cu_ber.Connection.Racing.{
  Race, happens, tests_close, sets_close, race_step, new_race, Raced, begins, goes_on,
  closes_once_unless_late,
}

abbrev up : Connection
up = step established (new_connection 0 false false)

-- The kernel takes three of five bytes.
abbrev halfway : Connection
halfway = step (sends true (wrote 3) (codes "hello")) up

abbrev closing : Connection
closing = step (shuts_down true) halfway

-- It takes the rest when the socket can be written.
abbrev over : Connection
over = step (writable (wrote 2)) closing

halfway-Reachable : Reachable halfway (codes "hello")
unfolding connect_established
halfway-Reachable =
    stepped (sends true (wrote 3) (codes "hello")) (stepped established (fresh 0 false false) refl)
      (omega arith, refl)

sends_in_order_example : halfway.wire ++ content halfway.output_buffer ≡ codes "hello"
sends_in_order_example = sends_in_order halfway-Reachable

halfway_run : content halfway.output_buffer ≡ codes "lo"
unfolding connect_established send send_in_loop write_directly keep_rest content append has_written
    copy_in ensure_writable_bytes init
halfway_run = refl

up_run : halfway.state ≢ disconnected
unfolding connect_established send send_in_loop write_directly keep_rest
up_run = ground arith

waiting_is_writing_example : halfway.channel.is_writing ≡ true
waiting_is_writing_example =
    waiting_is_writing halfway-Reachable up_run (ground (arith, halfway_run))

-- Another thread finds the connection open and is stopped; the peer closes it; the thread goes on, and
-- the loop closes it again.
abbrev twice : Race
twice = race_step (happens (runs_task (wrote 0))) (
    race_step sets_close (
      race_step (happens (readable 5 (got [])))
        (race_step tests_close (race_step (happens established) (new_race 0 false false)))))

twice-Raced : Raced twice
unfolding connect_established handle_read handle_close
twice-Raced =
    goes_on (happens (runs_task (wrote 0)))
      (goes_on sets_close
        (goes_on (happens (readable 5 (got [])))
          (goes_on tests_close (goes_on (happens established) (begins 0 false false) refl) tt) refl)
        (omega arith))
      tt

twice_run : (closes twice.conn.calls ≡ 2) × (twice.late ≡ 1)
unfolding connect_established handle_read handle_close run_task force_close_in_loop
twice_run = (refl, refl)

closes_once_unless_late_example : closes twice.conn.calls ≤ suc twice.late
closes_once_unless_late_example = closes_once_unless_late twice-Raced
