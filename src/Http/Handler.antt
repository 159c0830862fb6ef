-- ===== src/Http/Handler.antt =====
-- http/HttpHandler.h, HttpHandler.cpp and HttpProxyHandler.cpp: the chain of handlers that a request
-- goes through. The file system is a parameter, and so is all that a connection knows of its peer.
pub mod Location
mod Tests
use cu_ber.Prelude.{
  ℕ, zero, suc, ◌+◌, ◌-◌, ◌%◌, ◌^◌, Bytes, Bool, true, false, Option, none, some, List, [], ◌∷◌,
  ◌++◌, ltb, ◌==◌, if◌then◌else◌, eq_bytes, find, codes, length, take, drop, ℤ, pos, stoi, to_size,
}
use cu_ber.Prelude.Dict
use cu_ber.Buffer.{Buffer, content, readable_bytes, retrieve, init, initial_size}
use cu_ber.Config.{
  ServerConfig, ProxyServer, Upstream, is_listened, exist_static, static_path, index_files,
  exist_proxy, proxy_info, upstream_info, upstream_info_entry,
}
use cu_ber.Http.Request.{Request, Method, get, head, post}
use cu_ber.Http.Request
use cu_ber.Http.Response.{Response, set_status_code, set_content_type, set_body, get_mime}

-- `HttpHandleState`
pub data HandleState : Type 0 where
  done error again decline forwarded : HandleState

-- What the system says of files: `stat` (whether a regular file, and the size), `open` for reading,
-- and `mmap` of so many bytes.
pub record Files : Type 0 where
  pub is_file : Bytes → Bool
  pub size : Bytes → ℕ
  pub can_open : Bytes → Bool
  pub map : Bytes → ℕ → Option Bytes

-- What the handlers ask of a connection, beside its input.
pub record Peer : Type 0 where
  pub name : Bytes
  pub peer_ip : Bytes
  pub local_port : ℕ

-- A request on its way to an upstream server: the `HttpProxy` with its address and buffer.
pub record Forward : Type 0 where
  pub proxy_name : Bytes
  pub upstream_ip : Bytes
  pub upstream_port : ℕ
  pub forward_buff : Buffer

-- All that the handlers change: the two messages, the input buffer of the connection, the
-- configuration (whose maps grow by look-ups), and what the proxy keeps and starts.
pub record Exchange : Type 0 where
  pub request : Request
  pub response : Response
  pub input : Buffer
  pub config : ServerConfig
  pub client_conn_map : List (Bytes × Peer)
  pub started : List Forward

-- An exception that no handler catches ends the server.
pub data Outcome : Type 0 where
  returns : HandleState → Exchange → Outcome
  throws : Outcome

pub data Handler : Type 0 where
  access static_file post_read proxy default pressure_test : Handler

abbrev pub Next : Type 0
Next = Exchange → Outcome

unfoldable pub with_status : ℕ → Exchange → Exchange
with_status code s = record s { response = set_status_code (pos code) s.response }

-- `rfind` and `find_last_of` of one byte.
unfoldable pub last_index : ℕ → Bytes → Option ℕ
last_index c [] = none
last_index c (x ∷ xs) = elim (last_index c xs) [
  | some i ↦ some (suc i)
  | none ↦ if x == c then some 0 else none
]

-- The next shorter path that ends with a slash: `rfind('/', size - 2)`, for a size of two at least.
unfoldable pub shorten : Bytes → Option Bytes
unfolding last_index
shorten p = elim (last_index b'/' (take (length p - 1) p)) [
  | none ↦ none
  | some i ↦ some (take (i + 1) p)
]

-- The loop of `HttpAccessHandler`: `none` is the answer 404. Each round shortens the path.
unfoldable pub match_location : ℕ → (Bytes → Bool) → Bytes → Option Bytes
match_location zero listened p = none
match_location (suc fuel) listened p =
    let shorter =
      if length p == 1
      then none
      else elim (shorten p) [ none ↦ none | some q ↦ match_location fuel listened q ] in
    if listened p then some p else shorter

unfoldable pub after_match : Next → Exchange → Option Bytes → Outcome
after_match next s none = returns done (with_status 404 s)
after_match next s (some p) =
    next (record s { request = record s.request { location_end_pos = length p - 1 } })

unfoldable pub access_path : Next → Exchange → Bytes → Outcome
access_path next s [] = returns again s
access_path next s (c ∷ path) =
    let req_path = take s.request.location_end_pos (c ∷ path) in
    if length req_path == 0
    then returns done (with_status 404 s)
    else after_match next s
        (match_location (length req_path) (λ p. is_listened p s.config) req_path)

unfoldable pub handle_access : Next → Exchange → Outcome
unfolding access_path after_match with_status
handle_access next s = access_path next s s.request.path

unfoldable pub read_post_body : Next → Exchange → Option ℤ → Outcome
read_post_body next s none = returns error (with_status 400 s)
read_post_body next s (some n) =
    if ltb (readable_bytes s.input) (to_size n)
    then returns again s
    else next (record s {
      request = Request.set_body (take (to_size n) (content s.input)) s.request;
      input = retrieve (to_size n) s.input;
    })

unfoldable pub post_of_length : Next → Exchange → Bytes → Outcome
post_of_length next s [] = next s
post_of_length next s (x ∷ xs) = read_post_body next s (stoi (x ∷ xs))

unfoldable pub handle_post_read : Next → Exchange → Outcome
unfolding post_of_length read_post_body with_status
handle_post_read next s = elim s.request.method [
  | post ↦ post_of_length next s (Request.get_header (codes "Content-Length") s.request)
  | _ ↦ next s
]

-- The loop over the index files: `append` changes the directory that the next round appends to.
unfoldable pub find_index : Files → Bytes → List Bytes → Option Bytes
find_index fs dir [] = none
find_index fs dir (x ∷ xs) =
    let rest = find_index fs (dir ++ x) xs in
    if fs.is_file (dir ++ x) then some (dir ++ x) else rest

unfoldable pub ends_with_slash : Bytes → Bool
ends_with_slash [] = false
ends_with_slash (x ∷ []) = x == b'/'
ends_with_slash (x ∷ y ∷ r) = ends_with_slash (y ∷ r)

-- The file that is served for a path in the file system; `none` is another try.
unfoldable pub target_file : Files → ServerConfig → ℕ → Bytes → Option Bytes
unfolding ends_with_slash find_index
target_file fs c port dir =
    if fs.is_file dir
    then some dir
    else if ends_with_slash dir
    then find_index fs dir (index_files port c)
    else none

unfoldable pub mime_of : Bytes → Bytes
mime_of file = elim (last_index b'.' file) [
  | none ↦ get_mime (codes "default")
  | some i ↦ get_mime (drop i file)
]

unfoldable pub map_body : Exchange → Option Bytes → Outcome
map_body s none = returns error (with_status 500 s)
map_body s (some bytes) = returns done (record s { response = set_body bytes s.response })

-- The size is that of the path that was looked up first, before an index file was appended.
unfoldable pub serve_file : Files → Exchange → Bytes → Option Bytes → Outcome
serve_file fs s dir none = returns again s
serve_file fs s dir (some file) =
    let found = record s {
      response = set_content_type (mime_of file) (set_status_code (pos 200) s.response);
    } in
    elim s.request.method [
      | head ↦ returns done found
      | _ ↦
          if fs.can_open file
          then map_body found (fs.map file (fs.size dir))
          else returns decline (with_status 404 found)
    ]

-- `substr` from a place behind the end is an exception.
unfoldable pub serve_static : Files → Peer → Next → Exchange → Outcome
serve_static fs conn next s =
    let path = s.request.path in
    let cut = s.request.location_end_pos + 1 in
    let location = take cut path in
    let dir = static_path location s.config ++ drop cut path in
    let served = serve_file fs s dir (target_file fs s.config conn.local_port dir) in
    if exist_static location s.config
    then if ltb (length path) cut then throws else served
    else next s

unfoldable pub handle_static : Files → Peer → Next → Exchange → Outcome
unfolding serve_static serve_file map_body mime_of with_status
handle_static fs conn next s = elim s.request.method [
  | get ↦ serve_static fs conn next s
  | head ↦ serve_static fs conn next s
  | _ ↦ next s
]

-- The two headers that a proxy may be told to add.
unfoldable pub add_proxy_headers : Peer → List Bytes → Request → Request
add_proxy_headers conn [] r = r
add_proxy_headers conn (h ∷ hs) r = add_proxy_headers conn hs (
    if eq_bytes h (codes "X-Real-IP")
    then Request.add_header (codes "X-Real-IP") conn.peer_ip r
    else if eq_bytes h (codes "X-Forwarded-For")
    then Request.add_header (codes "X-Forwarded-For") conn.peer_ip r
    else r)

-- The address of an upstream: without a colon the host is not read. `none` is an exception.
unfoldable pub upstream_address : Bytes → Option (Bytes × ℕ)
upstream_address addr =
    let colon = find b':' addr in
    if ltb colon (length addr)
    then elim (stoi (drop (colon + 1) addr)) [
      | none ↦ none
      | some n ↦ some (take colon addr, to_size n % 2 ^ 16)
    ]
    else some ([], 80)

unfoldable pub start_forward : Peer → Exchange → Option (Bytes × ℕ) → Outcome
start_forward conn s none = throws
start_forward conn s (some (ip, port)) = returns forwarded (record s {
  client_conn_map = Dict.insert conn.name conn s.client_conn_map;
  started =
      record {
        proxy_name = conn.name ++ codes "%";
        upstream_ip = ip;
        upstream_port = port;
        forward_buff = Request.append_to_buffer s.request (init initial_size);
      }
      ∷ s.started;
})

unfoldable pub forward_by : Peer → Exchange → Option ProxyServer → Outcome
forward_by conn s none = throws
forward_by conn s (some p) =
    start_forward conn
      (record s {
        request = add_proxy_headers conn p.set_headers s.request;
        config = upstream_info_entry p.upstream_name s.config;
      })
      (upstream_address (upstream_info p.upstream_name s.config).address)

unfoldable pub handle_proxy : Peer → Next → Exchange → Outcome
unfolding forward_by
handle_proxy conn next s =
    let location = take (s.request.location_end_pos + 1) s.request.path in
    if exist_proxy location s.config
    then forward_by conn s (proxy_info location s.config)
    else next s

unfoldable pub handle_default : Exchange → Outcome
unfolding with_status
handle_default s = returns done (with_status 404 s)

-- The handler of a build for pressure tests.
unfoldable pub handle_pressure_test : Exchange → Outcome
unfolding with_status
handle_pressure_test s =
    let path = s.request.path in
    if length path == 0
    then returns again s
    else if eq_bytes path (codes "/hello/")
    then returns done (
        with_status 200
          (record s { response = set_body (codes "hello, world!" ++ 10 ∷ []) s.response }))
    else if eq_bytes path (codes "/")
    then returns done (
        with_status 200 (record s {
          response =
              set_body
                (codes
                  "<html><head><title>Pressure Test</title></head><body><h1>CuBer. Pressure Test Model</h1></body></html>")
                s.response;
        }))
    else returns done (with_status 404 s)

abbrev pub handle_by : Files → Peer → Handler → Next → Exchange → Outcome
handle_by fs conn access next s = handle_access next s
handle_by fs conn static_file next s = handle_static fs conn next s
handle_by fs conn post_read next s = handle_post_read next s
handle_by fs conn proxy next s = handle_proxy conn next s
handle_by fs conn default next s = handle_default s
handle_by fs conn pressure_test next s = handle_pressure_test s

-- `handle` of the first handler, where `doHandleNext` goes on down the chain.
unfoldable pub handle : Files → Peer → List Handler → Exchange → Outcome
handle fs conn [] s = returns done s
handle fs conn (h ∷ hs) s = handle_by fs conn h (handle fs conn hs) s
