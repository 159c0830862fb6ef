-- ===== src/TcpServer/Steps.antt =====
-- What can happen to net/TcpServer.cc: a connection comes in, one that is established is closed, once,
-- and the loop of the server runs what this has queued, in any order.
use cu_ber.Prelude.{ℕ, ◌≡◌, List, Bytes}
use cu_ber.TcpServer.{
  established, closing, TcpServer, new_server, new_connection, remove_connection,
  remove_connection_in_loop,
}

pub data Event : Type 0 where
  comes : Event
  closes removes : ℕ → Event

abbrev pub step : Event → TcpServer → TcpServer
step comes s = new_connection s
step (closes id) s = remove_connection id s
step (removes id) s = remove_connection_in_loop id s

abbrev pub CanHappen : Event → TcpServer → Type 0
CanHappen comes s = Unit {0}
CanHappen (closes id) s = s.phases id ≡ established
CanHappen (removes id) s = s.phases id ≡ closing

pub data Reachable : TcpServer → Type 0 where
  fresh :
      (name ip_port : Bytes) (base_loop : ℕ) (loops : List ℕ)
      → Reachable (new_server name ip_port base_loop loops)
  stepped : {s : TcpServer} (e : Event) → Reachable s → CanHappen e s → Reachable (step e s)
