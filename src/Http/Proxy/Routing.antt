-- ===== src/Http/Proxy/Routing.antt =====
-- That the response of an upstream goes to the client whose request was forwarded, by the names that
-- `handle` of http/HttpProxyHandler.cpp gives to the connections.
use cu_ber.Prelude.{
  ℕ, ◌≡◌, refl, ap, ◌∙◌, arith, Bytes, Bool, true, false, Option, none, some, List, [], ◌∷◌, ◌++◌,
  length, find-append, NotIn, codes, eq_bytes_refl, ltb, lt→ltb, pos, take-append, length-append,
  append_assoc,
}
use cu_ber.Prelude.Dict
use cu_ber.Http.Response.{Response, set_status_code}
use cu_ber.Http.Handler.{Peer, Exchange, returns, forwarded, Forward, start_forward}
use cu_ber.Http.Proxy.{
  Clients, Delivery, delivers, no_client, client_of, deliver_to, do_proxy_response,
  on_forward_failed,
}

-- The client's name comes out of all names that start with it and a percent sign.
client_of-append :
    (name suffix : Bytes) → NotIn b'%' name → client_of (name ++ b'%' ∷ suffix) ≡ some name
unfolding client_of
client_of-append name suffix h =
    let short : ltb (length name) (length (name ++ b'%' ∷ suffix)) ≡ true =
      lt→ltb _ _ (omega (arith, length-append name (b'%' ∷ suffix))) in
    rw (find-append b'%' name suffix h, short)
      (ap some (take-append (length name) name (b'%' ∷ suffix) refl))

lookup-insert_same :
    {V : Type 0} (k : Bytes) (v : V) (m : List (Bytes × V))
    → Dict.lookup k (Dict.insert k v m) ≡ some v
lookup-insert_same k v m = Dict.lookup-insert k k v m ∙ rw (eq_bytes_refl k) refl

delivered :
    (conn : Peer) (clients : Clients) (r : Response) (shut : Bool) (o : Option Bytes)
    → o ≡ some conn.name
    → deliver_to (Dict.insert conn.name conn clients) r shut o
      ≡ delivers conn r (Dict.erase conn.name (Dict.insert conn.name conn clients)) shut
unfolding deliver_to
delivered conn clients r shut none e = cc
delivered conn clients r shut (some x) e =
    ap (λ o. deliver_to (Dict.insert conn.name conn clients) r shut o) e
    ∙ ap {B = Delivery}
        (λ (o : Option Peer). elim o [
          | none ↦ no_client
          | some c ↦ delivers c r (Dict.erase conn.name (Dict.insert conn.name conn clients)) shut
        ])
        (lookup-insert_same conn.name conn clients)

-- A request that is forwarded comes back to its client, whose name holds no percent sign: whatever the
-- client of TCP appends to the name of the connection to the upstream, `doProxyResponse` hands the
-- response to the connection that the request came from, `onForwardFailed` hands it a 503, and both
-- forget it.
pub start_forward_routes :
    (conn : Peer) (s : Exchange) (ip : Bytes) (port : ℕ) (suffix peer : Bytes) (r : Response)
    → NotIn b'%' conn.name
    → (s' : Exchange) × (f : Forward) × (start_forward conn s (some (ip, port))
        ≡ returns forwarded s')
      × (s'.started ≡ f ∷ s.started)
      × (do_proxy_response (f.proxy_name ++ suffix) r s'.client_conn_map
          ≡ delivers conn r (Dict.erase conn.name s'.client_conn_map) true)
      × ((q : Response) × (on_forward_failed f.proxy_name peer s'.client_conn_map
            ≡ delivers conn q (Dict.erase conn.name s'.client_conn_map) false)
          × (q.status_code ≡ pos 503))
unfolding start_forward do_proxy_response on_forward_failed
start_forward_routes conn s ip port suffix peer r h =
    let named : client_of ((conn.name ++ codes "%") ++ suffix) ≡ some conn.name =
      ap client_of (append_assoc conn.name (codes "%") suffix)
      ∙ client_of-append conn.name suffix h in
    (
      _,
      _,
      refl,
      refl,
      delivered conn s.client_conn_map r true _ named,
      (
        _,
        delivered conn s.client_conn_map _ false _ (client_of-append conn.name [] h),
        unfold set_status_code in refl,
      ),
    )
