-- ===== src/Http/Filter.antt =====
-- http/HttpFilter.h and HttpFilter.cpp: the chain of filters that a response goes through on its way
-- to the client. What a filter does to the connection or the log files is an action in a list. The
-- order in which a map of headers is visited is a parameter.
pub mod Closing
mod Tests
use cu_ber.Prelude.{
  ℕ, ◌-◌, ◌+◌, Bytes, Bool, true, false, List, [], ◌∷◌, ◌++◌, ltb, ◌&&◌, ◌||◌, not, if◌then◌else◌,
  eq_bytes, codes, ℤ, pos, negsuc, show_nat,
}
use cu_ber.Buffer.{init, initial_size, content, readable_bytes}
use cu_ber.Config.{ServerConfig, configured_logger, exist_logger}
use cu_ber.Http.Request.{Request, Version, http10, http11, unknown, req_line_to_string, get_header}
use cu_ber.Http.Response.{
  Response, Headers, add_header, set_close_connection, set_response_size, append_to_buffer,
  is_error,
}

-- What the filters do outside: a message handed to the connection, the end of its writing side, and
-- the records of the access log and the error log (without time stamps and addresses).
pub data Action : Type 0 where
  send : Bytes → Action
  shutdown : Action
  log_access : Bytes → ℤ → ℕ → Bytes → Action
  log_error : ℤ → Bytes → Bytes → Bytes → Action

-- A response with the actions so far, the last one first.
pub record Reply : Type 0 where
  pub response : Response
  pub actions : List Action

pub data Filter : Type 0 where
  headers write logging : Filter

abbrev pub is_http10 : Version → Bool
is_http10 http10 = true
is_http10 _ = false

-- Whether the connection is closed behind the response.
unfoldable pub wants_close : Request → Bool
wants_close req =
    let connection = get_header (codes "Connection") req in
    eq_bytes connection (codes "close")
    || (is_http10 req.version && not (eq_bytes connection (codes "Keep-Alive")))

-- The timeout in the header is five seconds below the configured one, and five at least.
unfoldable pub header_timeout : ℤ → ℕ
header_timeout (pos n) = if ltb 10 n then n - 5 else 5
header_timeout (negsuc n) = 5

unfoldable pub filter_headers : ServerConfig → Request → Reply → Reply
unfolding wants_close header_timeout
filter_headers config req t =
    let close = wants_close req in
    let r1 = add_header (codes "Server") (codes "Cuber") t.response in
    let r2 =
      add_header (codes "Connection") (get_header (codes "Connection") req)
        (set_close_connection close r1) in
    let timeout = header_timeout config.server_main_config.keep_alive_timeout in
    let r3 = add_header (codes "Keep-Alive") (codes "timeout=" ++ show_nat timeout) r2 in
    if close then record t { response = r2 } else record t { response = r3 }

unfoldable pub filter_write : (Headers → Headers) → Reply → Reply
filter_write order t =
    let buf = append_to_buffer order t.response (init initial_size) in
    let sent = record t {
      response = set_response_size (readable_bytes buf) t.response;
      actions = send (content buf) ∷ t.actions;
    } in
    if t.response.close_connection then record sent { actions = shutdown ∷ sent.actions } else sent

abbrev or_dash : Bytes → Bytes
or_dash [] = codes "-"
or_dash (x ∷ xs) = x ∷ xs

unfoldable log_access_line : ServerConfig → Request → Reply → Reply
log_access_line config req t =
    if exist_logger (codes "access") config
    then record t {
      actions =
          log_access (req_line_to_string req) t.response.status_code t.response.response_size
            (get_header (codes "User-Agent") req)
          ∷ t.actions;
    }
    else t

unfoldable log_error_line : ServerConfig → Request → Reply → Reply
log_error_line config req t =
    if is_error t.response && exist_logger (codes "error") config
    then record t {
      actions =
          log_error t.response.status_code t.response.status_message (or_dash t.response.error_msg)
            (or_dash (get_header (codes "Host") req))
          ∷ t.actions;
    }
    else t

unfoldable pub filter_logging : ServerConfig → Request → Reply → Reply
unfolding log_access_line log_error_line
filter_logging config req t =
    if configured_logger config then log_error_line config req (log_access_line config req t) else t

abbrev pub filter_by : (Headers → Headers) → ServerConfig → Request → Filter → Reply → Reply
filter_by order config req headers t = filter_headers config req t
filter_by order config req write t = filter_write order t
filter_by order config req logging t = filter_logging config req t

-- `filter` of the first filter; each goes on to the next, and the last answers `kFilterDone`.
unfoldable pub filter : (Headers → Headers) → ServerConfig → Request → List Filter → Reply → Reply
filter order config req [] t = t
filter order config req (f ∷ fs) t = filter order config req fs (filter_by order config req f t)

-- The chain that the constructor of the server builds.
unfoldable pub http_filter : ServerConfig → List Filter
http_filter config =
    if configured_logger config then headers ∷ write ∷ logging ∷ [] else headers ∷ write ∷ []
