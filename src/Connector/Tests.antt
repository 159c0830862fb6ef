-- ===== src/Connector/Tests.antt =====
-- A connector of net/Connector.cc that is refused once and then connects, and the theorems at it.
use cu_ber.Prelude.{◌≡◌, ◌≤◌, ◌+◌, refl, true, false, pos, length}
use cu_ber.Connector.{
  Connector, try_again, under_way, new_connector, start, start_in_loop, connect, retry, retry_by,
  schedule,
}
use cu_ber.Connector.Accounts.{
  starts, timer_fires, writable, step, Reachable, fresh, stepped, waiting, sockets_are_accounted,
}
use cu_ber.Connector.Retries.{AllDelays, retries_are_limited}

abbrev refused : Connector
refused = step (starts true try_again) (new_connector (pos 3))

abbrev trying : Connector
trying = step (timer_fires under_way) refused

abbrev joined : Connector
joined = step (writable false) trying

joined-Reachable : Reachable (pos 3) joined
unfolding start start_in_loop connect retry retry_by schedule
joined-Reachable =
    stepped (writable false)
      (stepped (timer_fires under_way) (stepped (starts true try_again) fresh refl) refl) tt

sockets_are_accounted_example :
    joined.opened ≡ joined.closed + (joined.handed + waiting joined.state)
sockets_are_accounted_example = sockets_are_accounted joined-Reachable

retries_are_limited_example : (length joined.delays ≤ 3) × AllDelays joined.delays
retries_are_limited_example = retries_are_limited 3 joined-Reachable
