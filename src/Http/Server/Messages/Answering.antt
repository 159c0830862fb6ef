-- ===== src/Http/Server/Messages/Answering.antt =====
-- `HttpServer::onMessage` of http/HttpServer.cpp on a whole request, from the bytes to the answer.
use cu_ber.Prelude.{
  ℕ, ◌<◌, ◌≡◌, ◌≢◌, refl, sym, ap, ◌∙◌, Bytes, Bool, Option, none, some, [], ◌∷◌, ◌++◌, length,
  if◌then◌else◌,
}
use cu_ber.Buffer.{Buffer, content, append}
use cu_ber.Buffer.Content.{IsValid}
use cu_ber.Http.Request.{Request, swap}
use cu_ber.Http.Request.Printing.{serialize}
use cu_ber.Http.Context.{Context, Verdict, parse_ok, parse_request, State, got_all, reset}
use cu_ber.Http.Context.Ends.{parse_request_again}
use cu_ber.Http.Context.Stream.{outcome}
use cu_ber.Http.Context.RoundTrip.{IsWire, fresh, read_back, parse_request-serialize}
use cu_ber.Http.Handler.{Peer, handle}
use cu_ber.Http.Filter.{send, shutdown, wants_close}
use cu_ber.Http.Filter.Closing.{on_connection, filter_sends_once}
use cu_ber.Http.Server.{http_handler, Ending, answered, passed_on, thrown, run_handlers}
use cu_ber.Http.Server.Handling.{run_handlers_total}
use cu_ber.Http.Server.Messages.{
  Session, Setup, Reaction, waits, forwards, answers, rejects, dies, exchange_of, finish_request,
  on_request, by_verdict, on_message,
}

-- One message goes out, the writing side is shut down behind it or not, and the parser is fresh again,
-- with its place in the timer's list; or the request is on its way to an upstream; or an exception
-- ends the server.
abbrev pub IsSettled : Option ℕ → Reaction → Type 0
IsSettled p (answers actions s) =
    (text : Bytes) × (close : Bool) × (on_connection [] actions
      ≡ send text ∷ (if close then shutdown ∷ [] else []))
    × (n : ℕ) × (s.context ≡ fresh n p)
IsSettled p (forwards s) = Unit {0}
IsSettled p dies = Unit {0}
IsSettled p (waits s) = ⊥
IsSettled p (rejects actions s) = ⊥

finish-IsSettled :
    (u : Setup) (c : Context) (e : Ending) → IsSettled c.timer_pos (finish_request u c e)
unfolding finish_request reset swap
finish-IsSettled u c (answered t) = (
  _,
  wants_close t.request,
  filter_sends_once u.order t.config t.request (u.http_callback t.request t.response),
  t.request.location_end_pos,
  refl,
)
finish-IsSettled u c (passed_on t) = tt
finish-IsSettled u c thrown = tt

on_request_settles :
    (fuel : ℕ) (u : Setup) (conn : Peer) (s : Session)
    → s.context.request.path ≢ []
    → s.context.request.location_end_pos < fuel
    → (x : Reaction) × (on_request fuel u conn s ≡ some x) × IsSettled s.context.timer_pos x
unfolding on_request
on_request_settles fuel u conn s p h =
    let (e, run) = run_handlers_total u.files conn fuel (exchange_of s) p h in
    (
      finish_request u s.context e,
      ap {B = Option Reaction}
          (λ (o : Option Ending). elim o [
            | none ↦ none
            | some d ↦ some (finish_request u s.context d)
          ])
          run,
      finish-IsSettled u s.context e,
    )

-- What the parser answered, from its outcome on the bytes.
parsed :
    (o : Option (Verdict × Context × Buffer)) (c : Context) (rest : Bytes)
    → outcome o ≡ some (parse_ok, c, rest)
    → (b : Buffer) × (o ≡ some (parse_ok, c, b))
parsed none c rest e = cc
parsed (some (v, d, b)) c rest e = (b, cc)

-- A request that the wire can carry, with a path, all there in the valid input of a connection whose
-- parser is fresh, is settled by one call of `onMessage`, if the loop over the handlers has one round
-- more than the path has bytes: it gets exactly one message as its answer, behind which the parser is
-- fresh again, with nothing of the request left but the end of its location, or it is on its way to an
-- upstream, or an exception that no handler catches ends the server.
pub on_message_settles :
    (fuel time n : ℕ) (u : Setup) (conn : Peer) (r : Request) (p : Option ℕ) (more : Bytes)
    (s : Session)
    → IsWire r
    → r.path ≢ []
    → length r.path < fuel
    → IsValid s.input
    → s.context ≡ fresh n p
    → content s.input ≡ serialize r ++ more
    → (x : Reaction) × (on_message fuel u conn time s ≡ some x) × IsSettled p x
unfolding on_message by_verdict
on_message_settles fuel time n u conn r p more s w path enough v new e =
    let (b, read) = parsed (parse_request time s.context s.input) _ _ (
      ap (λ c. outcome (parse_request time c s.input)) new
      ∙ parse_request-serialize time n r p more w v e) in
    let c : Context = record { state = got_all; request = read_back time r; timer_pos = p } in
    let (x, done, settled) =
      on_request_settles fuel u conn (record s { context = c; input = b }) path enough in
    (
      x,
      ap {B = Option Reaction}
            (λ (o : Option (Verdict × Context × Buffer)). elim o [
              | none ↦ none
              | some (v', c', b') ↦
                  by_verdict fuel u conn v' (record s { context = c'; input = b' })
            ])
            read
          ∙ done,
      settled,
    )

-- The request stays in the context of the connection.
forwards_keeps :
    (u : Setup) (c : Context) (e : Ending) {s : Session}
    → finish_request u c e ≡ forwards s
    → s.context.state ≡ c.state
unfolding finish_request
forwards_keeps u c (answered t) h = cc
forwards_keeps u c (passed_on t) h = sym (ap state_of h)
  where
    state_of : Reaction → State
    state_of (forwards s) = s.context.state
    state_of _ = c.state
forwards_keeps u c thrown h = cc

on_request_keeps :
    (fuel : ℕ) (u : Setup) (conn : Peer) (s : Session) {s' : Session}
    → on_request fuel u conn s ≡ some (forwards s')
    → s'.context.state ≡ s.context.state
unfolding on_request
on_request_keeps fuel u conn s {s'} h =
    go (run_handlers fuel (handle u.files conn http_handler) (exchange_of s)) h
  where
    go :
        (o : Option Ending)
        → elim o [ none ↦ none | some e ↦ some (finish_request u s.context e) ] ≡ some (forwards s')
        → s'.context.state ≡ s.context.state
    go none g = cc
    go (some e) g = forwards_keeps u s.context e {s = s'} cc

-- While a request is on its way to an upstream, all further input of its connection runs the same
-- request through the handlers again: the parser, which has read it, answers at once and takes
-- nothing off the input, so that only a handler may.
pub on_message_repeats :
    (fuel rounds time : ℕ) (u : Setup) (conn : Peer) (more : Bytes) (s : Session) {s' : Session}
    → s.context.state ≡ got_all
    → on_request fuel u conn s ≡ some (forwards s')
    → on_message rounds u conn time (record s' { input = append more s'.input })
      ≡ on_request rounds u conn (record s' { input = append more s'.input })
unfolding on_message by_verdict
on_message_repeats fuel rounds time u conn more s {s'} all h =
    ap {B = Option Reaction}
      (λ (o : Option (Verdict × Context × Buffer)). elim o [
        | none ↦ none
        | some (v, c, b) ↦ by_verdict rounds u conn v (record s' { context = c; input = b })
      ])
      (parse_request_again time s'.context (append more s'.input)
        (on_request_keeps fuel u conn s h ∙ all))
