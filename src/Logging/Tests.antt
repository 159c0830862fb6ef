-- ===== src/Logging/Tests.antt =====
-- A round of base/AsyncLogging.cc, and its theorems there.
use cu_ber.Prelude.{◌≡◌, refl, false, true, [], ◌∷◌}
use cu_ber.Logging.{
  AsyncLogging, started, written, enter_round, lock_buffers, swap_buffers, write_out, write_round,
  write_pieces, kept, refill, push_current, give_next, append, append_to, append_bytes, avail, stop,
}
use cu_ber.Logging.Steps.{
  enters, locks, wakes, writes, stops, appends, step, Reachable, fresh, stepped,
}
use cu_ber.Logging.Pointers.{is_some, Round}
use cu_ber.Logging.Rounds.{asserts_hold}
use cu_ber.Logging.Order.{whole, lines_in_order}

-- A line is given while the thread waits, and a second one after the first was written.
abbrev one_line : AsyncLogging
one_line = step writes (step wakes (step (appends (7 ∷ 8 ∷ [])) (step locks (step enters started))))

-- The thread ends without the second line.
abbrev over : AsyncLogging
over = step enters (step stops (step (appends (9 ∷ [])) one_line))

over-Reachable : Reachable over
unfolding enter_round lock_buffers swap_buffers write_out write_round write_pieces kept refill
    push_current give_next append append_to append_bytes avail stop
over-Reachable =
    stepped enters
      (stepped stops
        (stepped (appends (9 ∷ []))
          (stepped writes
            (stepped wakes
              (stepped (appends (7 ∷ 8 ∷ [])) (stepped locks (stepped enters fresh refl) refl) _)
              refl)
            refl)
          _)
        _)
      refl

over_output : (over.output ≡ written (7 ∷ 8 ∷ []) ∷ []) × (over.given ≡ 7 ∷ 8 ∷ 9 ∷ [])
unfolding enter_round lock_buffers swap_buffers write_out write_round write_pieces kept refill
    push_current give_next append append_to append_bytes avail stop
over_output = (refl, refl)

asserts_hold_example :
    (over.faulty ≡ false)
    × (is_some over.current_buffer ≡ true)
    × Round over.phase over.new_buffer1 over.new_buffer2 over.buffers_to_write
asserts_hold_example = asserts_hold over over-Reachable

lines_in_order_example : whole over ≡ over.given
lines_in_order_example = lines_in_order over over-Reachable
