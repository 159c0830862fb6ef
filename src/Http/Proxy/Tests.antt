-- ===== src/Http/Proxy/Tests.antt =====
-- The theorem on http/HttpProxyHandler.cpp at a concrete request.
use cu_ber.Prelude.{◌≡◌, refl, codes, [], ◌∷◌, ◌++◌, true, false, some, pos}
use cu_ber.Prelude.Dict
use cu_ber.Config.{new_config}
use cu_ber.Http.Request.{new_request, get, http11}
use cu_ber.Http.Response.{Response, new_response}
use cu_ber.Http.Handler.{Peer, Exchange, Forward, returns, forwarded, start_forward}
use cu_ber.Http.Proxy.{delivers, do_proxy_response, on_forward_failed}
use cu_ber.Http.Proxy.Routing.{start_forward_routes}
use cu_ber.Buffer.{init}

abbrev peer : Peer
peer = record { name = codes "CuBer-1#7"; peer_ip = codes "10.0.0.9"; local_port = 80 }

abbrev asked : Exchange
asked = record {
  request = record new_request {
    method = get;
    version = http11;
    path = codes "/";
    location_end_pos = 0;
  };
  response = new_response false;
  input = init 16;
  config = new_config (codes "c");
  client_conn_map = [];
  started = [];
}

start_forward_routes_example :
    (s' : Exchange) × (f : Forward) × (start_forward peer asked (some (codes "10.0.0.1", 8080))
      ≡ returns forwarded s')
    × (s'.started ≡ f ∷ asked.started)
    × (do_proxy_response
          (f.proxy_name ++ codes ":10.0.0.1:8080#1")
          (new_response false)
          s'.client_conn_map
        ≡ delivers peer (new_response false) (Dict.erase peer.name s'.client_conn_map) true)
    × ((q : Response) × (on_forward_failed f.proxy_name (codes "10.0.0.1:8080") s'.client_conn_map
          ≡ delivers peer q (Dict.erase peer.name s'.client_conn_map) false)
        × (q.status_code ≡ pos 503))
start_forward_routes_example =
    start_forward_routes peer asked (codes "10.0.0.1") 8080 (codes ":10.0.0.1:8080#1")
      (codes "10.0.0.1:8080") (new_response false)
      (refl, (refl, (refl, (refl, (refl, (refl, (refl, (refl, (refl, tt)))))))))
