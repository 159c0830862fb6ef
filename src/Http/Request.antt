-- ===== src/Http/Request.antt =====
-- http/HttpRequest.h: a request message, its setters, and its printing.
pub mod Printing
use cu_ber.Prelude.{
  ℕ, suc, ◌+◌, Bytes, Bool, true, false, [], ◌∷◌, ◌++◌, List, Option, none, some, ◌||◌, ◌==◌,
  if◌then◌else◌, is_space, eq_bytes, codes, length, take, drop,
}
use cu_ber.Prelude.Dict
use cu_ber.Buffer.{Buffer, append}

pub data Method : Type 0 where
  invalid get post head put delete trace options : Method

pub data Version : Type 0 where
  unknown http10 http11 : Version

-- `std::map<string, string>`
abbrev pub Headers : Type 0
Headers = List (Bytes × Bytes)

-- A time stamp is its count of microseconds.
pub record Request : Type 0 where
  pub method : Method
  pub version : Version
  pub path : Bytes
  pub location_end_pos : ℕ
  pub query : Bytes
  pub receive_time : ℕ
  pub headers : Headers
  pub body : Bytes

-- The default constructor.
abbrev pub new_request : Request
new_request = record {
  method = invalid;
  version = unknown;
  path = [];
  location_end_pos = 0;
  query = [];
  receive_time = 0;
  headers = [];
  body = [];
}

abbrev pub crlf : Bytes
crlf = 13 ∷ 10 ∷ []

abbrev pub version_string : Version → Bytes
version_string http10 = codes "HTTP/1.0"
version_string http11 = codes "HTTP/1.1"
version_string unknown = codes "UNKNOWN"

abbrev pub method_string : Method → Bytes
method_string get = codes "GET"
method_string post = codes "POST"
method_string head = codes "HEAD"
method_string put = codes "PUT"
method_string delete = codes "DELETE"
method_string trace = codes "TRACE"
method_string options = codes "OPTIONS"
method_string invalid = codes "UNKNOWN"

-- The ladder of `setMethod`.
unfoldable pub read_method : Bytes → Method
read_method m =
    if eq_bytes m (codes "GET")
    then get
    else if eq_bytes m (codes "POST")
    then post
    else if eq_bytes m (codes "HEAD")
    then head
    else if eq_bytes m (codes "PUT")
    then put
    else if eq_bytes m (codes "DELETE")
    then delete
    else if eq_bytes m (codes "TRACE")
    then trace
    else if eq_bytes m (codes "OPTIONS")
    then options
    else invalid

abbrev pub is_known : Method → Bool
is_known invalid = false
is_known _ = true

unfoldable pub set_method : Bytes → Request → Request × Bool
set_method m r = let k = read_method m in (record r { method = k }, is_known k)

abbrev pub set_path : Bytes → Request → Request
set_path p r = record r { path = p; location_end_pos = length p }

abbrev pub set_query : Bytes → Request → Request
set_query q r = record r { query = q }

abbrev pub set_version : Version → Request → Request
set_version v r = record r { version = v }

abbrev pub set_body : Bytes → Request → Request
set_body s r = record r { body = s }

-- The loop over the blanks after the colon.
unfoldable pub skip_spaces : Bytes → Bytes
skip_spaces [] = []
skip_spaces (x ∷ xs) = let rest = skip_spaces xs in if is_space x then rest else x ∷ xs

-- The loop that shortens the value while its last byte is a blank.
unfoldable pub trim_end : Bytes → Bytes
trim_end [] = []
trim_end (x ∷ xs) = elim (trim_end xs) [
  | [] ↦ if is_space x then [] else x ∷ []
  | y ∷ ys ↦ x ∷ y ∷ ys
]

-- The field and the value of a header line whose colon stands at an index.
unfoldable pub header_of : ℕ → Bytes → Bytes × Bytes
unfolding skip_spaces trim_end is_space
header_of colon line = (take colon line, trim_end (skip_spaces (drop (suc colon) line)))

-- `addHeader(start, colon, end)`
unfoldable pub add_header_line : ℕ → Bytes → Request → Request
add_header_line colon line r =
    let (field, value) = header_of colon line in
    record r { headers = Dict.insert field value r.headers }

-- `addHeader(field, val)`
unfoldable pub add_header : Bytes → Bytes → Request → Request
add_header field value r = record r { headers = Dict.insert field value r.headers }

abbrev pub or_empty : Option Bytes → Bytes
or_empty none = []
or_empty (some v) = v

unfoldable pub get_header : Bytes → Request → Bytes
get_header field r = or_empty (Dict.lookup field r.headers)

-- `swap` exchanges all but `locationEndPos_`, which each of the two keeps.
unfoldable pub swap : Request → Request → Request × Request
swap r s = (
  record s { location_end_pos = r.location_end_pos },
  record r { location_end_pos = s.location_end_pos },
)

pub append_headers : Headers → Buffer → Buffer
append_headers [] b = b
append_headers ((k, v) ∷ hs) b =
    append_headers hs (append crlf (append v (append (codes ": ") (append k b))))

append_body : Bytes → Buffer → Buffer
append_body [] b = b
append_body (x ∷ xs) b = append crlf (append (x ∷ xs) b)

-- `appendToBuffer`. The two texts that go through the array of 64 bytes fit it.
unfoldable pub append_to_buffer : Request → Buffer → Buffer
unfolding append_headers append_body
append_to_buffer r b =
    let b1 = append (method_string r.method ++ codes " ") b in
    let b2 = append r.path b1 in
    let b3 = append (codes " " ++ (version_string r.version ++ crlf)) b2 in
    let b4 = append crlf (append_headers r.headers b3) in append_body r.body b4

unfoldable pub req_line_to_string : Request → Bytes
req_line_to_string r =
    (method_string r.method ++ codes " ") ++ (r.path ++ (codes " " ++ version_string r.version))
