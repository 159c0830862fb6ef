-- ===== src/Http/Server/Messages.antt =====
-- What `HttpServer` of http/HttpServer.h and HttpServer.cpp does with the input of a connection:
-- `onMessage`, `onRequest`, `onBadMessage`, `onConnection` and `proxyResponseCallback`. Each call gives
-- back what it did to the connection, the last action first.
pub mod Answering
mod Tests
use cu_ber.Prelude.{
  ℕ, suc, ◌-◌, Bytes, Bool, true, false, Option, none, some, List, [], ◌∷◌, codes, ltb, leb,
  if◌then◌else◌, ℤ, pos, negsuc,
}
use cu_ber.Buffer.{Buffer, content, init, initial_size}
use cu_ber.Config.{ServerConfig}
use cu_ber.Http.Request.{Request}
use cu_ber.Http.Context.{
  Context, Verdict, parse_ok, bad_message, parse_again, header_end, parse_request, new_context,
  reset,
}
use cu_ber.Http.Response.{
  Response, Headers, new_response, set_status_code, add_header, append_to_buffer,
}
use cu_ber.Http.Handler.{Files, Peer, Forward, Exchange, handle}
use cu_ber.Http.Filter.{Action, send, shutdown, Reply, filter, http_filter, Filter}
use cu_ber.Http.Server.{http_handler, Ending, answered, passed_on, thrown, run_handlers}

-- What the server keeps between two messages of a connection, and with its other connections.
pub record Session : Type 0 where
  pub context : Context
  pub input : Buffer
  pub config : ServerConfig
  pub client_conn_map : List (Bytes × Peer)
  pub started : List Forward

-- What a message leads to: more input is waited for; an answer; a request on its way to an upstream; a
-- request that cannot be read; an exception that ends the server.
pub data Reaction : Type 0 where
  waits forwards : Session → Reaction
  answers rejects : List Action → Session → Reaction
  dies : Reaction

-- The surroundings: the order in which a map of headers is visited, the callback that the embedding
-- program may set, and the name of the server.
pub record Setup : Type 0 where
  pub files : Files
  pub order : Headers → Headers
  pub http_callback : Request → Response → Response
  pub server_name : Bytes

abbrev pub exchange_of : Session → Exchange
exchange_of s = record {
  request = s.context.request;
  response = new_response false;
  input = s.input;
  config = s.config;
  client_conn_map = s.client_conn_map;
  started = s.started;
}

abbrev pub session_of : Context → Exchange → Session
session_of c t = record {
  context = record c { request = t.request };
  input = t.input;
  config = t.config;
  client_conn_map = t.client_conn_map;
  started = t.started;
}

-- `onRequest` behind the loop, and the `reset` of `onMessage` behind an answer. The loggers, which the
-- chain of filters depends on, do not change after the start.
pub finish_request : Setup → Context → Ending → Reaction
finish_request u c (answered t) =
    let reply : Reply = record { response = u.http_callback t.request t.response; actions = [] } in
    let sent = filter u.order t.config t.request (http_filter t.config) reply in
    let after = session_of c t in
    answers sent.actions (record after { context = reset after.context })
finish_request u c (passed_on t) = forwards (session_of c t)
finish_request u c thrown = dies

pub on_request : ℕ → Setup → Peer → Session → Option Reaction
unfolding finish_request
on_request fuel u conn s =
    elim (run_handlers fuel (handle u.files conn http_handler) (exchange_of s)) [
      | none ↦ none
      | some e ↦ some (finish_request u s.context e)
    ]

pub on_bad_message : Setup → Session → Reaction
on_bad_message u s =
    let response =
      add_header (codes "Server") u.server_name (set_status_code (pos 400) (new_response true)) in
    rejects (shutdown ∷ send (content (append_to_buffer u.order response (init initial_size))) ∷ [])
      s

pub by_verdict : ℕ → Setup → Peer → Verdict → Session → Option Reaction
unfolding on_request on_bad_message
by_verdict fuel u conn bad_message s = some (on_bad_message u s)
by_verdict fuel u conn parse_ok s = on_request fuel u conn s
by_verdict fuel u conn _ s = some (waits s)

-- `onMessage`; the fuel is that of the loop of `onRequest`, and `none` a loop that has not ended.
pub on_message : ℕ → Setup → Peer → ℕ → Session → Option Reaction
unfolding by_verdict
on_message fuel u conn time s = elim (parse_request time s.context s.input) [
  | none ↦ none
  | some (v, c, b) ↦ by_verdict fuel u conn v (record s { context = c; input = b })
]

-- `proxyResponseCallback`: the response of an upstream goes down the same filters.
pub proxy_response : Setup → Response → Session → Reaction
proxy_response u r s =
    let sent =
      filter u.order s.config s.context.request (http_filter s.config)
        (record { response = r; actions = [] }) in
    answers sent.actions (record s { context = reset s.context })
