-- ===== src/Http/Server.antt =====
-- http/HttpServer.h and HttpServer.cpp: the loop that runs a request through the handlers, and what
-- the server does with the verdict of the parser. The chains are those of a build without
-- PRESSURE_TEST.
pub mod Handling
pub mod Partial
pub mod Messages
mod Tests
use cu_ber.Prelude.{
  ℕ, zero, suc, ◌+◌, ◌-◌, Bytes, Bool, true, false, Option, none, some, List, [], ◌∷◌, ◌++◌, ltb,
  if◌then◌else◌, codes, ℤ, pos,
}
use cu_ber.Buffer.{Buffer, content, init, initial_size}
use cu_ber.Http.Response.{Response, new_response, set_status_code, add_header, append_to_buffer}
use cu_ber.Http.Response
use cu_ber.Http.Handler.{
  Files, Peer, Exchange, Handler, access, static_file, post_read, proxy, default, handle, Outcome,
  returns, throws, HandleState, done, error, again, decline, forwarded,
}

-- `appendHandler` puts a handler at the end of the chain. The first handler only passes on.
abbrev pub append_handler : List Handler → Handler → List Handler
append_handler hs h = hs ++ h ∷ []

-- The constructor: the chain that every request of the server goes through.
abbrev pub http_handler : List Handler
http_handler =
    append_handler (append_handler (append_handler (access ∷ static_file ∷ []) post_read) proxy)
      default

-- How the loop of `onRequest` ends: answered, handed on to an upstream, or by an exception.
pub data Ending : Type 0 where
  answered passed_on : Exchange → Ending
  thrown : Ending

-- The loop on fuel; `none` is a loop that has not ended.
pub run_handlers : ℕ → (Exchange → Outcome) → Exchange → Option Ending
run_handlers zero chain s = none
run_handlers (suc fuel) chain s = elim (chain s) [
  | throws ↦ some thrown
  | returns again s' ↦ run_handlers fuel chain s'
  | returns forwarded s' ↦ some (passed_on s')
  | returns done s' ↦ some (answered s')
  | returns error s' ↦ some (answered s')
  | returns decline s' ↦ some (answered s')
]
