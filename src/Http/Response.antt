-- ===== src/Http/Response.antt =====
-- http/HttpResponse.h and HttpResponse.cpp: a response message, the texts that belong to a status
-- code, and the printing.
pub mod Printing
use cu_ber.Prelude.{
  ℕ, suc, ◌+◌, ◌-◌, Bytes, Bool, true, false, [], ◌∷◌, ◌++◌, List, Option, none, some, ◌&&◌, ◌||◌,
  ◌==◌, not, leb, if◌then◌else◌, eq_bytes, codes, length, take, find, ℤ, pos, negsuc, show_nat,
  show_int,
}
use cu_ber.Prelude.Dict
use cu_ber.Buffer.{Buffer, append}
use cu_ber.Http.Request.{header_of, or_empty, crlf}

-- `unordered_map<string, string>`: a list in the order of the keys stands for the map, and the
-- order in which a loop visits it is a parameter of the printing.
abbrev pub Headers : Type 0
Headers = List (Bytes × Bytes)

-- The status code is any `int`: the parser of responses casts what it read.
pub record Response : Type 0 where
  pub headers : Headers
  pub status_code : ℤ
  pub version : Bytes
  pub status_message : Bytes
  pub close_connection : Bool
  pub body : Bytes
  pub response_size : ℕ
  pub error_msg : Bytes

abbrev pub new_response : Bool → Response
new_response close = record {
  headers = [];
  status_code = pos 0;
  version = codes "HTTP/1.1";
  status_message = [];
  close_connection = close;
  body = [];
  response_size = 0;
  error_msg = [];
}

-- A table from status codes to texts.
find_code : ℕ → List (ℕ × Bytes) → Option Bytes
find_code n [] = none
find_code n ((k, t) ∷ rest) = if k == n then some t else find_code n rest

-- `statusMessageMap_`
abbrev status_messages : List (ℕ × Bytes)
status_messages =
    (0, codes "Unknown")
    ∷ (200, codes "OK")
    ∷ (202, codes "No Content")
    ∷ (206, codes "Partial Content")
    ∷ (301, codes "Moved Permanently")
    ∷ (302, codes "Found")
    ∷ (303, codes "SeeOther")
    ∷ (304, codes "Not Modified")
    ∷ (307, codes "Temporary Redirect")
    ∷ (400, codes "Bad Request")
    ∷ (401, codes "Unauthorized")
    ∷ (403, codes "Forbidden")
    ∷ (404, codes "Not Found")
    ∷ (500, codes "Internal Server Error")
    ∷ (502, codes "Bad Gateway")
    ∷ (503, codes "Service Unavailable")
    ∷ []

-- The pages of `bodyMessageMap_` differ in title and heading.
page : Bytes → Bytes → Bytes
page title heading =
    codes "<!DOCTYPE html><html lang=\"en\"><head><meta charset=\"UTF-8\"><title>"
    ++ (title ++ (codes "</title></head><body><h1>" ++ (heading ++ codes "</h1></body></html>")))

-- `bodyMessageMap_`
body_messages : List (ℕ × Bytes)
unfolding page
body_messages =
    (401, page (codes "Unauthorized") (codes "Unauthorized"))
    ∷ (403, page (codes "Forbidden") (codes "Forbidden"))
    ∷ (404, page (codes "404 Not Found") (codes "Not Found"))
    ∷ (500, page (codes "Internal Server Error") (codes "500 Internal Server Error"))
    ∷ (502, page (codes "Bad Gateway") (codes "502 Bad Gateway"))
    ∷ (503, page (codes "Service Unavailable") (codes "503 Service Unavailable"))
    ∷ []

unfoldable pub message_of : ℤ → Option Bytes
unfolding find_code
message_of (pos n) = find_code n status_messages
message_of (negsuc n) = none

unfoldable pub page_of : ℤ → Option Bytes
unfolding find_code body_messages
page_of (pos n) = find_code n body_messages
page_of (negsuc n) = none

-- A text that the table lacks stays as it was.
abbrev pub or_old : Option Bytes → Bytes → Bytes
or_old none old = old
or_old (some t) old = t

unfoldable pub set_status_code : ℤ → Response → Response
set_status_code code r = record r {
  status_code = code;
  status_message = or_old (message_of code) r.status_message;
  body = or_old (page_of code) r.body;
}

abbrev pub set_status_message : Bytes → Response → Response
set_status_message m r = record r { status_message = m }

abbrev pub set_version : Bytes → Response → Response
set_version v r = record r { version = v }

abbrev pub set_body : Bytes → Response → Response
set_body s r = record r { body = s }

abbrev pub set_close_connection : Bool → Response → Response
set_close_connection on r = record r { close_connection = on }

abbrev pub set_response_size : ℕ → Response → Response
set_response_size n r = record r { response_size = n }

abbrev pub set_error_msg : Bytes → Response → Response
set_error_msg m r = record r { error_msg = m }

-- `addHeader(key, value)`
unfoldable pub add_header : Bytes → Bytes → Response → Response
add_header k v r = record r { headers = Dict.insert k v r.headers }

-- `addHeader(start, colon, end)`
unfoldable pub add_header_line : ℕ → Bytes → Response → Response
unfolding header_of
add_header_line colon line r = let (field, value) = header_of colon line in add_header field value r

pub set_content_type : Bytes → Response → Response
set_content_type t r = add_header (codes "Content-Type") t r

unfoldable pub get_header : Bytes → Response → Bytes
get_header k r = or_empty (Dict.lookup k r.headers)

unfoldable pub is_error : Response → Bool
is_error r = elim r.status_code [ pos n ↦ leb 500 n | negsuc n ↦ false ]

-- A `%s` ends at the first NUL.
c_str : Bytes → Bytes
c_str s = take (find 0 s) s

-- The start of the status line goes through an array of 64 bytes, which cuts it.
pub status_start : Response → Bytes
unfolding c_str
status_start r = take 63 (c_str r.version ++ (codes " " ++ (show_int r.status_code ++ codes " ")))

abbrev pub is_empty : Bytes → Bool
is_empty [] = true
is_empty _ = false

pub append_headers : Headers → Buffer → Buffer
append_headers [] b = b
append_headers ((k, v) ∷ hs) b =
    append_headers hs (append crlf (append v (append (codes ": ") (append k b))))

-- `appendToBuffer`, where `order` is how the map of the headers is visited.
unfoldable pub append_to_buffer : (Headers → Headers) → Response → Buffer → Buffer
append_to_buffer order r b =
    let b1 = append crlf (append r.status_message (append (status_start r) b)) in
    let b2 =
      if not (is_empty r.body) && not (Dict.contains (codes "Content-Length") r.headers)
      then append (codes "Content-Length: " ++ (show_nat (length r.body) ++ crlf)) b1
      else b1 in
    let b3 = append crlf (append_headers (order r.headers) b2) in
    if is_empty r.body then b3 else append r.body b3

-- `MimeType::init`
abbrev mimes : List (Bytes × Bytes)
mimes =
    (codes ".html", codes "text/html")
    ∷ (codes ".avi", codes "video/x-msvideo")
    ∷ (codes ".bmp", codes "image/bmp")
    ∷ (codes ".c", codes "text/plain")
    ∷ (codes ".doc", codes "application/msword")
    ∷ (codes ".gif", codes "image/gif")
    ∷ (codes ".gz", codes "application/x-gzip")
    ∷ (codes ".htm", codes "text/html")
    ∷ (codes ".ico", codes "image/x-icon")
    ∷ (codes ".jpg", codes "image/jpeg")
    ∷ (codes ".png", codes "image/png")
    ∷ (codes ".txt", codes "text/plain")
    ∷ (codes ".mp3", codes "audio/mp3")
    ∷ (codes ".json", codes "application/json")
    ∷ (codes ".js", codes "text/javascript")
    ∷ (codes ".css", codes "text/css")
    ∷ (codes "default", codes "text/html")
    ∷ []

-- `MimeType::getMime`
pub get_mime : Bytes → Bytes
get_mime suffix = elim (Dict.lookup suffix mimes) [ none ↦ codes "text/html" | some m ↦ m ]
