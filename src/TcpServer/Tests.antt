-- ===== src/TcpServer/Tests.antt =====
-- A run of net/TcpServer.cc, and its theorem there.
use cu_ber.Prelude.{ℕ, ◌≡◌, refl, false, some, [], ◌∷◌, codes, show_nat}
use cu_ber.Prelude.Dict.{contains}
use cu_ber.TcpServer.{
  TcpServer, new_server, get_next_loop, conn_name, new_connection, remove_connection,
  remove_connection_in_loop,
}
use cu_ber.TcpServer.Steps.{comes, closes, removes, step, Reachable, fresh, stepped}
use cu_ber.TcpServer.Connections.{is_there, connections_agree}

-- Three connections, of which the first is removed, on two loops.
abbrev three : TcpServer
three = step (removes 1) (
    step (closes 1) (
      step comes
        (step comes (step comes (new_server (codes "web") (codes "0.0.0.0:80") 9 (4 ∷ 5 ∷ []))))))

three-Reachable : Reachable three
unfolding new_connection remove_connection
three-Reachable =
    stepped (removes 1)
      (stepped (closes 1)
        (stepped comes
          (stepped comes (stepped comes (fresh (codes "web") (codes "0.0.0.0:80") 9 (4 ∷ 5 ∷ [])) _)
            _)
          _)
        refl)
      refl

three_loops : three.made ≡ (1, some 4) ∷ (2, some 5) ∷ (3, some 4) ∷ []
unfolding new_connection remove_connection remove_connection_in_loop get_next_loop
three_loops = refl

three_name : conn_name (codes "web") (codes "0.0.0.0:80") 12 ≡ codes "web-0.0.0.0:80#12"
unfolding conn_name show_nat
three_name = refl

connections_agree_example :
    ((id : ℕ)
      → contains (conn_name three.name three.ip_port id) three.connections
        ≡ is_there (three.phases id))
    × (three.faulty ≡ false)
connections_agree_example = connections_agree three three-Reachable
