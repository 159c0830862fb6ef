-- ===== src/Http/Context.antt =====
-- http/HttpContext.h and HttpContext.cpp: the state machine that reads requests from a connection.
-- A range of the input is the list of its bytes, and a pointer into it an index.
pub mod Stream
pub mod Ends
pub mod Chunks
pub mod Line
pub mod RoundTrip
pub mod Sent
mod Tests
use cu_ber.Prelude.{
  ℕ, zero, suc, ◌+◌, Bytes, Bool, true, false, Option, none, some, ltb, ◌==◌, ◌&&◌, if◌then◌else◌,
  eq_bytes, find, codes, length, take, drop, [], ◌∷◌,
}
use cu_ber.Buffer.{Buffer, content, readable_bytes, find_crlf, retrieve_until}
use cu_ber.Http.Request.{
  Request, new_request, Version, http10, http11, set_method, set_path, set_query, set_version,
  add_header_line, swap, set_body, get_header,
}

-- `HttpRequestParseState`
pub data State : Type 0 where
  expect_request_line expect_headers expect_body got_all : State

-- `HttpParseState`
pub data Verdict : Type 0 where
  parse_ok bad_message parse_again header_end : Verdict

-- The place of the connection in the timer's list is only stored.
pub record Context : Type 0 where
  pub state : State
  pub request : Request
  pub timer_pos : Option ℕ

pub new_context : Context
new_context = record { state = expect_request_line; request = new_request; timer_pos = none }

unfoldable pub reset : Context → Context
reset c = record c { state = expect_request_line; request = (swap c.request new_request).0 }

abbrev pub is_got_all : State → Bool
is_got_all got_all = true
is_got_all _ = false

pub has_got_all : Context → Bool
has_got_all c = is_got_all c.state

-- The path up to a question mark, and the query from it on.
pub set_target : Bytes → Request → Request
set_target target r =
    let question = find b'?' target in
    if ltb question (length target)
    then set_query (drop question target) (set_path (take question target) r)
    else set_path target r

-- The last byte of the version, at index 7.
pub version_of : Bytes → Option Version
version_of [] = none
version_of (c ∷ _) = if c == b'1' then some http11 else if c == b'0' then some http10 else none

pub set_read_version : Option Version → Request → Request × Bool
set_read_version none r = (r, false)
set_read_version (some k) r = (set_version k r, true)

pub parse_version : Bytes → Request → Request × Bool
unfolding version_of set_read_version
parse_version v r =
    if length v == 8 && eq_bytes (take 7 v) (codes "HTTP/1.")
    then set_read_version (version_of (drop 7 v)) r
    else (r, false)

-- Behind the method: a target, a space, and the version.
pub parse_target : Bytes → Request → Request × Bool
parse_target rest r =
    let space = find 32 rest in
    if ltb space (length rest)
    then parse_version (drop (suc space) rest) (set_target (take space rest) r)
    else (r, false)

-- `parseRequestLine`: a request that fails keeps what was set before.
pub parse_request_line : Bytes → Request → Request × Bool
parse_request_line line r =
    let space = find 32 line in
    let (r1, known) = set_method (take space line) r in
    if ltb space (length line)
    then if known then parse_target (drop (suc space) line) r1 else (r1, false)
    else (r, false)

pub parse_headers : Bytes → Request → Request × Verdict
parse_headers line r =
    let colon = find b':' line in
    if ltb colon (length line)
    then (add_header_line colon line r, parse_again)
    else if length line == 0
    then (r, header_end)
    else (r, bad_message)

-- What one round of the loop does: it goes on, leaves it for want of input, or returns.
pub data Round (B : Type 0) : Type 0 where
  next : Context → B → Round B
  stop : Verdict → Context → B → Round B

pub request_line_round : ℕ → Context → Buffer → Option ℕ → Round Buffer
request_line_round time c b none = stop parse_again c b
request_line_round time c b (some i) =
    let (r, done) = parse_request_line (take i (content b)) c.request in
    if done
    then next (record c { state = expect_headers; request = record r { receive_time = time } })
        (retrieve_until (i + 2) b)
    else stop bad_message (record c { request = r }) b

pub after_headers : Context → Verdict → Buffer → Round Buffer
after_headers c header_end b = next (record c { state = expect_body }) b
after_headers c bad_message b = stop bad_message c b
after_headers c _ b = next c b

-- `retrieveUntil(crlf + 2)` is the last step on each of the three ways out.
pub headers_round : Context → Buffer → Option ℕ → Round Buffer
headers_round c b none = stop parse_again c b
headers_round c b (some i) =
    let (r, verdict) = parse_headers (take i (content b)) c.request in
    after_headers (record c { request = r }) verdict (retrieve_until (i + 2) b)

pub round : State → ℕ → Context → Buffer → Round Buffer
round expect_request_line time c b = request_line_round time c b (find_crlf b)
round expect_headers time c b = headers_round c b (find_crlf b)
round expect_body time c b = next (record c { state = got_all }) b
round got_all time c b = stop parse_ok c b

-- The loop on fuel; `none` is a loop that has not ended.
pub parse_loop : ℕ → ℕ → Context → Buffer → Option (Verdict × Context × Buffer)
parse_loop zero time c b = none
parse_loop (suc fuel) time c b = elim (round c.state time c b) [
  | next c' b' ↦ parse_loop fuel time c' b'
  | stop v c' b' ↦ some (v, c', b')
]

-- `parseRequest`: a line takes a byte at least, and the two last states take a round each.
pub parse_request : ℕ → Context → Buffer → Option (Verdict × Context × Buffer)
unfolding parse_loop round request_line_round headers_round after_headers
parse_request time c b = parse_loop (readable_bytes b + 4) time c b
