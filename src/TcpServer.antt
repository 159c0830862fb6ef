-- ===== src/TcpServer.antt =====
-- net/TcpServer.h, TcpServer.cc and the loops of net/EventLoopThreadPool.cc. A connection is known by
-- the number that its name ends with, which is taken not to overflow.
pub mod Steps
pub mod Names
pub mod Connections
pub mod Loops
mod Tests
use cu_ber.Prelude.{
  ℕ, suc, ◌+◌, Bool, true, false, Option, none, some, List, [], ◌∷◌, ◌++◌, length, Bytes, leb, put,
  if◌then◌else◌, get_elem?, show_nat,
}
use cu_ber.Prelude.Dict.{insert, contains, erase}

pub record EventLoopThreadPool : Type 0 where
  pub base_loop : ℕ
  pub loops : List ℕ
  pub next : ℕ

-- `getNextLoop`; `none` stands for an index that is out of range.
pub get_next_loop : EventLoopThreadPool → Option ℕ × EventLoopThreadPool
get_next_loop p = choose p.loops
  where
    choose : List ℕ → Option ℕ × EventLoopThreadPool
    choose [] = (some p.base_loop, p)
    choose (l ∷ ls) = (
      get_elem? p.loops p.next,
      record p { next = if leb (length p.loops) (suc p.next) then 0 else suc p.next },
    )

-- A connection has not been made, is established, has told the server that it is closed, or has been
-- taken out of the map, in which case its `connectDestroyed` is queued.
pub data Phase : Type 0 where
  unborn established closing gone : Phase

-- `made` are the connections with their loops, in order. `faulty` is set by the assert, which fails
-- where no connection of the map has the name.
pub record TcpServer : Type 0 where
  pub name : Bytes
  pub ip_port : Bytes
  pub thread_pool : EventLoopThreadPool
  pub next_conn_id : ℕ
  pub connections : List (Bytes × ℕ)
  pub made : List (ℕ × Option ℕ)
  pub phases : ℕ → Phase
  pub faulty : Bool

abbrev pub new_server : Bytes → Bytes → ℕ → List ℕ → TcpServer
new_server name ip_port base_loop loops = record {
  name = name;
  ip_port = ip_port;
  thread_pool = record { base_loop = base_loop; loops = loops; next = 0 };
  next_conn_id = 1;
  connections = [];
  made = [];
  phases = λ k. unborn;
  faulty = false;
}

-- The 64 bytes of `buf` are enough for an address, which has 39 characters at most, a port and a number.
pub conn_name : Bytes → Bytes → ℕ → Bytes
conn_name name ip_port id = name ++ (b'-' ∷ (ip_port ++ (b'#' ∷ show_nat id)))

-- `newConnection`
pub new_connection : TcpServer → TcpServer
unfolding get_next_loop conn_name
new_connection s =
    let (io_loop, pool) = get_next_loop s.thread_pool in
    record s {
      thread_pool = pool;
      next_conn_id = suc s.next_conn_id;
      connections = insert (conn_name s.name s.ip_port s.next_conn_id) s.next_conn_id s.connections;
      made = s.made ++ (s.next_conn_id, io_loop) ∷ [];
      phases = put s.next_conn_id established s.phases;
    }

-- `removeConnection`, the close callback, queues `removeConnectionInLoop`.
pub remove_connection : ℕ → TcpServer → TcpServer
remove_connection id s = record s { phases = put id closing s.phases }

-- `removeConnectionInLoop`
pub remove_connection_in_loop : ℕ → TcpServer → TcpServer
unfolding conn_name
remove_connection_in_loop id s = record s {
  connections = erase (conn_name s.name s.ip_port id) s.connections;
  faulty = if contains (conn_name s.name s.ip_port id) s.connections then s.faulty else true;
  phases = put id gone s.phases;
}
