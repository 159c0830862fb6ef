-- ===== src/Http/Proxy.antt =====
-- http/HttpProxyHandler.cpp behind `handle`: what happens when the upstream answers, answers badly, or
-- cannot be reached. The client is found by the name of the connection to the upstream, which starts
-- with the name of the client's connection and a percent sign.
pub mod Routing
mod Tests
use cu_ber.Prelude.{
  ℕ, suc, Bytes, Bool, true, false, Option, none, some, List, ◌++◌, codes, find, take, length, ltb,
  if◌then◌else◌, pos,
}
use cu_ber.Prelude.Dict
use cu_ber.Buffer.{Buffer}
use cu_ber.Http.Context.{Verdict, parse_ok, bad_message, parse_again, header_end}
use cu_ber.Http.Response.{Response, new_response, set_status_code, set_error_msg}
use cu_ber.Http.ResponseContext.{ResponseContext, parse_response}
use cu_ber.Http.Handler.{Peer}

-- `clientConnMap`
abbrev pub Clients : Type 0
Clients = List (Bytes × Peer)

-- What a callback does: it waits for more, hands a response to a client and forgets it, with the
-- connection to the upstream shut down or not, or finds no client, which the `assert`s exclude.
pub data Delivery : Type 0 where
  waits : Delivery
  delivers : Peer → Response → Clients → Bool → Delivery
  no_client : Delivery

-- The part of a name in front of the percent sign.
pub client_of : Bytes → Option Bytes
client_of name =
    let split = find b'%' name in if ltb split (length name) then some (take split name) else none

pub deliver_to : Clients → Response → Bool → Option Bytes → Delivery
deliver_to clients r shut none = no_client
deliver_to clients r shut (some client) = elim (Dict.lookup client clients) [
  | none ↦ no_client
  | some conn ↦ delivers conn r (Dict.erase client clients) shut
]

-- `doProxyResponse`
pub do_proxy_response : Bytes → Response → Clients → Delivery
unfolding client_of deliver_to
do_proxy_response name r clients = deliver_to clients r true (client_of name)

-- `onBadUpstreamResponse`; `peer` is the address of the upstream as a text.
pub on_bad_upstream_response : Bytes → Bytes → Clients → Delivery
unfolding client_of deliver_to
on_bad_upstream_response name peer clients =
    deliver_to clients
      (set_error_msg (codes "Upstream " ++ (peer ++ codes " response Bad Message."))
        (set_status_code (pos 500) (new_response false)))
      true (client_of name)

-- `onForwardFailed`
pub on_forward_failed : Bytes → Bytes → Clients → Delivery
unfolding client_of deliver_to
on_forward_failed name peer clients =
    deliver_to clients
      (set_error_msg (codes "Upstream " ++ (peer ++ codes " is unreachable"))
        (set_status_code (pos 503) (new_response false)))
      false (client_of name)

pub by_verdict : Bytes → Bytes → Clients → Verdict → ResponseContext → Delivery
unfolding do_proxy_response on_bad_upstream_response
by_verdict name peer clients bad_message c = on_bad_upstream_response name peer clients
by_verdict name peer clients parse_ok c = do_proxy_response name c.response clients
by_verdict name peer clients _ c = waits

-- `onResponseMessage`, with the context and the input that it leaves; `none` is a parser that has not
-- returned on so much fuel.
pub on_response_message :
    ℕ
    → Bytes
    → Bytes
    → Clients
    → ResponseContext
    → Buffer
    → Option (Delivery × ResponseContext × Buffer)
unfolding by_verdict
on_response_message fuel name peer clients c b = elim (parse_response fuel c b) [
  | none ↦ none
  | some (v, c', b') ↦ some (by_verdict name peer clients v c', c', b')
]
