-- ===== src/TcpServer/Connections.antt =====
-- The map of net/TcpServer.cc holds just the connections that are there.
use cu_ber.Prelude.{
  ℕ, ◌≤◌, ◌≡◌, refl, sym, ap, ◌∙◌, arith, Bool, true, false, Bytes, put, put_same, put_other,
  same_or_not, inl, inr,
}
use cu_ber.Prelude.Dict.{contains, IsSorted, insert-IsSorted, contains-insert}
use cu_ber.Prelude.Dict.Erasing.{contains-erase, erase-IsSorted}
use cu_ber.TcpServer.{
  Phase, unborn, established, closing, gone, TcpServer, conn_name, new_connection,
  remove_connection, remove_connection_in_loop,
}
use cu_ber.TcpServer.Names.{same_name}
use cu_ber.TcpServer.Steps.{
  Event, comes, closes, removes, step, CanHappen, Reachable, fresh, stepped,
}

-- The connection is one that the map holds.
abbrev pub is_there : Phase → Bool
is_there unborn = false
is_there established = true
is_there closing = true
is_there gone = false

abbrev pub name_of : TcpServer → ℕ → Bytes
name_of s id = conn_name s.name s.ip_port id

record IsSound (s : TcpServer) : Type 0 where
  sorted : IsSorted s.connections
  held : (id : ℕ) → contains (name_of s id) s.connections ≡ is_there (s.phases id)
  new : (id : ℕ) → s.next_conn_id ≤ id → s.phases id ≡ unborn
  fine : s.faulty ≡ false

new_connection-IsSound : (s : TcpServer) → IsSound s → IsSound (new_connection s)
unfolding new_connection
new_connection-IsSound s v = record {
  sorted = insert-IsSorted (name_of s s.next_conn_id) s.next_conn_id s.connections v.sorted;
  held = λ id.
      contains-insert (name_of s s.next_conn_id) (name_of s id) s.next_conn_id s.connections
      ∙ ground (arith, same_name s.name s.ip_port s.next_conn_id id, v.held id);
  new = λ id h. ground (arith, v.new id);
  fine = v.fine;
}

remove_connection-IsSound :
    (id : ℕ) (s : TcpServer)
    → s.phases id ≡ established
    → IsSound s
    → IsSound (remove_connection id s)
unfolding remove_connection
remove_connection-IsSound id s e v = record {
  sorted = v.sorted;
  held = λ k. v.held k ∙ still_there k;
  new = λ k h. ground (arith, v.new k h, e);
  fine = v.fine;
}
  where
    still_there : (k : ℕ) → is_there (s.phases k) ≡ is_there (put id closing s.phases k)
    still_there k = elim (same_or_not k id) [
      | inl same ↦
          ap is_there (ap s.phases same ∙ e)
          ∙ sym (ap is_there (put_same id closing s.phases k same))
      | inr other ↦ sym (ap is_there (put_other id closing s.phases k other))
    ]

remove_in_loop-IsSound :
    (id : ℕ) (s : TcpServer)
    → s.phases id ≡ closing
    → IsSound s
    → IsSound (remove_connection_in_loop id s)
unfolding remove_connection_in_loop
remove_in_loop-IsSound id s e v = record {
  sorted = erase-IsSorted (name_of s id) s.connections v.sorted;
  held = λ k.
      contains-erase (name_of s id) (name_of s k) s.connections v.sorted
      ∙ ground (arith, same_name s.name s.ip_port id k, v.held k);
  new = λ k h. ground (arith, v.new k h, e);
  fine = rw (v.held id, e) v.fine;
}

step-IsSound : (e : Event) (s : TcpServer) → CanHappen e s → IsSound s → IsSound (step e s)
step-IsSound comes s m v = new_connection-IsSound s v
step-IsSound (closes id) s m v = remove_connection-IsSound id s m v
step-IsSound (removes id) s m v = remove_in_loop-IsSound id s m v

reachable-IsSound : {s : TcpServer} → Reachable s → IsSound s
unfolding contains
reachable-IsSound (fresh name ip_port base loops) = record {
  sorted = tt;
  held = λ id. refl;
  new = λ id h. refl;
  fine = refl;
}
reachable-IsSound (stepped {s} e r m) = step-IsSound e s m (reachable-IsSound r)

-- However connections come in, are closed, once each, and are removed by the loop, the map holds a
-- name just while its connection has been made and not yet removed, and the assert that a connection
-- to be removed is in the map holds.
pub connections_agree :
    (s : TcpServer)
    → Reachable s
    → ((id : ℕ) → contains (conn_name s.name s.ip_port id) s.connections ≡ is_there (s.phases id))
      × (s.faulty ≡ false)
connections_agree s r = let v = reachable-IsSound r in (v.held, v.fine)
