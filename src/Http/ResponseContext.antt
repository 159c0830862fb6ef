-- ===== src/Http/ResponseContext.antt =====
-- http/HttpResponseContext.h and HttpResponseContext.cpp: the state machine that reads the
-- response of an upstream server.
pub mod Body
mod Tests
use cu_ber.Prelude.{
  ℕ, zero, suc, ◌+◌, Bytes, Bool, true, false, Option, none, some, ltb, ◌==◌, if◌then◌else◌, find,
  codes, length, take, drop, [], ◌∷◌, ℤ, stoi, to_size,
}
use cu_ber.Buffer.{Buffer, content, readable_bytes, find_crlf, retrieve_until, retrieve}
use cu_ber.Http.Context.{Verdict, parse_ok, bad_message, parse_again, header_end}
use cu_ber.Http.Response.{
  Response, new_response, set_version, set_status_code, set_status_message, add_header_line,
  get_header, set_body,
}

-- `HttpResponseParseState`
pub data State : Type 0 where
  expect_status_line expect_headers expect_body got_all : State

pub record ResponseContext : Type 0 where
  pub state : State
  pub response : Response

pub new_response_context : ResponseContext
new_response_context = record { state = expect_status_line; response = new_response false }

-- `swap` exchanges all but the size and the error message.
pub reset : ResponseContext → ResponseContext
reset c = record {
  state = expect_status_line;
  response = record (new_response false) {
    response_size = c.response.response_size;
    error_msg = c.response.error_msg;
  };
}

-- Behind the version and the status: a reason that is not empty.
set_reason : Bytes → Response → Response × Verdict
set_reason [] r = (r, bad_message)
set_reason (x ∷ xs) r = (set_status_message (x ∷ xs) r, parse_ok)

set_status : Option ℤ → Bytes → Response → Response × Verdict
unfolding set_reason
set_status none reason r = (r, bad_message)
set_status (some code) reason r = set_reason reason (set_status_code code r)

pub parse_status : Bytes → Response → Response × Verdict
unfolding set_status
parse_status rest r =
    let space = find 32 rest in
    if ltb space (length rest)
    then set_status (stoi (take space rest)) (drop (suc space) rest) r
    else (r, bad_message)

pub parse_status_line : Bytes → Response → Response × Verdict
unfolding parse_status
parse_status_line line r =
    let space = find 32 line in
    if ltb space (length line)
    then parse_status (drop (suc space) line) (set_version (take space line) r)
    else (r, bad_message)

pub parse_headers : Bytes → Response → Response × Verdict
parse_headers line r =
    let colon = find b':' line in
    if ltb colon (length line)
    then (add_header_line colon line r, parse_again)
    else if length line == 0
    then (r, header_end)
    else (r, bad_message)

pub take_body : Option ℤ → Response → Buffer → Response × Verdict × Buffer
take_body none r b = (r, bad_message, b)
take_body (some n) r b =
    if ltb (readable_bytes b) (to_size n)
    then (r, parse_again, b)
    else (set_body (take (to_size n) (content b)) r, parse_ok, retrieve (to_size n) b)

pub body_of_length : Bytes → Response → Buffer → Response × Verdict × Buffer
body_of_length [] r b = (r, parse_ok, b)
body_of_length (x ∷ xs) r b = take_body (stoi (x ∷ xs)) r b

pub parse_body : Response → Buffer → Response × Verdict × Buffer
unfolding body_of_length take_body
parse_body r b = body_of_length (get_header (codes "Content-Length") r) r b

-- What one round of the loop does: it goes on, leaves it for want of input, or returns.
pub data Round : Type 0 where
  next : ResponseContext → Buffer → Round
  stop : Verdict → ResponseContext → Buffer → Round

after_status_line : ResponseContext → Verdict → Buffer → ℕ → Round
after_status_line c parse_ok b i =
    next (record c { state = expect_headers }) (retrieve_until (i + 2) b)
after_status_line c bad_message b i = stop bad_message c (retrieve_until (i + 2) b)
after_status_line c _ b i = stop parse_again c b

status_line_round : ResponseContext → Buffer → Option ℕ → Round
status_line_round c b none = stop parse_again c b
status_line_round c b (some i) =
    let (r, verdict) = parse_status_line (take i (content b)) c.response in
    after_status_line (record c { response = r }) verdict b i

after_headers : ResponseContext → Verdict → Buffer → Round
after_headers c header_end b = next (record c { state = expect_body }) b
after_headers c bad_message b = stop bad_message c b
after_headers c _ b = next c b

headers_round : ResponseContext → Buffer → Option ℕ → Round
headers_round c b none = stop parse_again c b
headers_round c b (some i) =
    let (r, verdict) = parse_headers (take i (content b)) c.response in
    after_headers (record c { response = r }) verdict (retrieve_until (i + 2) b)

-- A body that is not all there breaks out of the `switch` only: the loop goes on.
pub after_body : ResponseContext → Verdict → Buffer → Round
after_body c parse_ok b = next (record c { state = got_all }) b
after_body c parse_again b = next c b
after_body c _ b = stop bad_message c b

pub body_round : ResponseContext → Buffer → Round
body_round c b =
    let (r, verdict, b') = parse_body c.response b in
    after_body (record c { response = r }) verdict b'

pub round : State → ResponseContext → Buffer → Round
unfolding status_line_round after_status_line headers_round after_headers body_round after_body
round expect_status_line c b = status_line_round c b (find_crlf b)
round expect_headers c b = headers_round c b (find_crlf b)
round expect_body c b = body_round c b
round got_all c b = stop parse_ok c b

-- `parseResponse` on fuel; `none` is a loop that has not ended.
pub parse_response : ℕ → ResponseContext → Buffer → Option (Verdict × ResponseContext × Buffer)
unfolding round
parse_response zero c b = none
parse_response (suc fuel) c b = elim (round c.state c b) [
  | next c' b' ↦ parse_response fuel c' b'
  | stop v c' b' ↦ some (v, c', b')
]
