-- ===== src/Http/Filter/Closing.antt =====
-- What the filters of http/HttpFilter.cpp do to the connection.
use cu_ber.Prelude.{
  ◌≡◌, refl, ap, ◌∙◌, arith, Bytes, Bool, true, false, List, [], ◌∷◌, ◌++◌, if◌then◌else◌, inl, inr,
  Bool-cases,
}
use cu_ber.Buffer.{init, initial_size, content}
use cu_ber.Buffer.Content.{init_lem}
use cu_ber.Config.{ServerConfig, configured_logger}
use cu_ber.Http.Request.{Request}
use cu_ber.Http.Response.{Response, Headers, append_to_buffer, add_header}
use cu_ber.Http.Response.Printing.{serialize, append_response_lem}
use cu_ber.Http.Filter.{
  Action, send, shutdown, log_access, log_error, Reply, filter, http_filter, filter_headers,
  filter_write, filter_logging, wants_close, log_access_line, log_error_line,
}

-- The actions on the connection, without those on the log files, the first one first.
abbrev pub on_connection : List Action → List Action → List Action
on_connection later [] = later
on_connection later (send m ∷ rest) = on_connection (send m ∷ later) rest
on_connection later (shutdown ∷ rest) = on_connection (shutdown ∷ later) rest
on_connection later (log_access l c n u ∷ rest) = on_connection later rest
on_connection later (log_error c m e h ∷ rest) = on_connection later rest

abbrev fresh_reply : Response → Reply
fresh_reply r = record { response = r; actions = [] }

headers_close :
    (config : ServerConfig) (req : Request) (r : Response)
    → let t = filter_headers config req (fresh_reply r) in
      (t.response.close_connection ≡ wants_close req) × (t.actions ≡ [])
unfolding filter_headers add_header
headers_close config req r = elim (Bool-cases (wants_close req)) [
  | inl c ↦ rw c (refl, refl)
  | inr c ↦ rw c (refl, refl)
]

-- The records in the log files leave the connection alone.
logging_quiet :
    (later : List Action) (config : ServerConfig) (req : Request) (t : Reply)
    → on_connection later (filter_logging config req t).actions ≡ on_connection later t.actions
unfolding filter_logging log_access_line log_error_line
logging_quiet later config req t = ground arith

shut_behind :
    (close : Bool) (text : Bytes) (sent : Reply)
    → sent.actions ≡ send text ∷ []
    → on_connection []
        (if close then record sent { actions = shutdown ∷ sent.actions } else sent).actions
      ≡ send text ∷ (if close then shutdown ∷ [] else [])
shut_behind true text sent e = ap (λ l. on_connection (shutdown ∷ []) l) e
shut_behind false text sent e = ap (λ l. on_connection [] l) e

write_sends :
    (order : Headers → Headers) (t : Reply)
    → t.actions ≡ []
    → on_connection [] (filter_write order t).actions
      ≡ send (serialize order t.response)
        ∷ (if t.response.close_connection then shutdown ∷ [] else [])
unfolding filter_write
write_sends order t e =
    let (v, empty, _) = init_lem initial_size in
    let (_, all) = append_response_lem order t.response v in
    let text : content (append_to_buffer order t.response (init initial_size))
        ≡ serialize order t.response =
      all ∙ ap (λ c. c ++ serialize order t.response) empty in
    shut_behind t.response.close_connection (serialize order t.response) _
      (ap (λ m. send m ∷ t.actions) text ∙ ap (λ l. send (serialize order t.response) ∷ l) e)

-- A response goes out in one message, the one that the headers filter completed, and the writing
-- side is shut down behind it exactly if the request wants the connection closed. This holds with
-- and without log files, and for every order in which the headers are visited.
pub filter_sends_once :
    (order : Headers → Headers) (config : ServerConfig) (req : Request) (r : Response)
    → on_connection []
        (filter order config req
          (http_filter config)
          (record { response = r; actions = [] })).actions
      ≡ send (
          serialize order
            (filter_headers config req (record { response = r; actions = [] })).response)
        ∷ (if wants_close req then shutdown ∷ [] else [])
unfolding filter http_filter
filter_sends_once order config req r =
    let t = filter_headers config req (fresh_reply r) in
    let (close, none_yet) = headers_close config req r in
    let sent =
      write_sends order t none_yet
      ∙ ap (λ c. send (serialize order t.response) ∷ (if c then shutdown ∷ [] else [])) close in
    elim (Bool-cases (configured_logger config)) [
      | inl c ↦ rw c (logging_quiet [] config req (filter_write order t) ∙ sent)
      | inr c ↦ rw c sent
    ]
