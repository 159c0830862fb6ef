-- ===== src/Http/Context/RoundTrip.antt =====
-- A request that `HttpRequest::appendToBuffer` wrote, read by `HttpContext::parseRequest`.
use cu_ber.Prelude.{
  ℕ, zero, suc, ◌+◌, ◌≡◌, refl, ap, ◌∙◌, arith, Bytes, Bool, true, false, Option, some, length,
  take, drop, ◌++◌, [], ◌∷◌, find, find-append, find_absent, NotIn, codes, eq_bytes, ltb,
  take-append, drop-append, append_assoc, length-append,
}
use cu_ber.Prelude.Dict
use cu_ber.Buffer.{search_crlf, Buffer, content, readable_bytes}
use cu_ber.Buffer.Content.{IsValid, length-content}
use cu_ber.Buffer.Search.{Unbroken, search_crlf-append}
use cu_ber.Http.Request.{
  Request, new_request, Version, unknown, http10, http11, Method, invalid, method_string,
  version_string, Headers, crlf, set_method, is_known, set_path, add_header_line, header_of,
  skip_spaces, trim_end, req_line_to_string,
}
use cu_ber.Http.Request.Printing.{header_lines, body_bytes, serialize}
use cu_ber.Http.Context.{
  Context, expect_request_line, expect_headers, got_all, parse_ok, parse_again, next,
  parse_request_line, parse_target, parse_version, set_target, parse_headers, parse_request,
}
use cu_ber.Http.Context.Stream.{
  request_line_step, after_headers_step, headers_step, step, parse_bytes, outcome,
  parse_request-parse_bytes, parse_bytes_next,
}
use cu_ber.Http.Context.Ends.{parse_bytes_fuel}
use cu_ber.Http.Context.Line.{read_method-method_string}

abbrev pub is_version : Version → Bool
is_version unknown = false
is_version _ = true

NotIn-method : (m : Method) → NotIn 32 (method_string m)
NotIn-method invalid = ground arith
NotIn-method _ = ground arith

find_lt :
    (c : ℕ) (xs ys : Bytes)
    → NotIn c xs
    → ltb (find c (xs ++ c ∷ ys)) (length (xs ++ c ∷ ys)) ≡ true
find_lt c xs ys h = ground (arith, find-append c xs ys h, length-append xs (c ∷ ys))

set_target-path : (p : Bytes) (r : Request) → NotIn b'?' p → set_target p r ≡ set_path p r
unfolding set_target
set_target-path p r h = ground (arith, find_absent b'?' p h)

parse_version-version_string :
    (v : Version) (r : Request)
    → is_version v ≡ true
    → parse_version (version_string v) r ≡ (record r { version = v }, true)
unfolding parse_version eq_bytes
parse_version-version_string unknown r h = cc
parse_version-version_string http10 r h = refl
parse_version-version_string http11 r h = refl

-- Skipping the separator that stands behind a part.
drop-sep :
    (c : ℕ) (xs ys : Bytes) → NotIn c xs → drop (suc (find c (xs ++ c ∷ ys))) (xs ++ c ∷ ys) ≡ ys
drop-sep c xs ys h =
    rw (find-append c xs ys h, ← append_assoc xs (c ∷ []) ys)
      (drop-append (suc (length xs)) (xs ++ c ∷ []) ys (omega (arith, length-append xs (c ∷ []))))

take-sep : (c : ℕ) (xs ys : Bytes) → NotIn c xs → take (find c (xs ++ c ∷ ys)) (xs ++ c ∷ ys) ≡ xs
take-sep c xs ys h = rw (find-append c xs ys h) (take-append (length xs) xs (c ∷ ys) refl)

-- A request line of a known method, a path and a known version is read as just these.
parse_request_line_complete :
    (m : Method) (p : Bytes) (v : Version) (r : Request)
    → is_known m ≡ true
    → is_version v ≡ true
    → NotIn 32 p
    → NotIn b'?' p
    → parse_request_line (method_string m ++ 32 ∷ (p ++ 32 ∷ version_string v)) r
      ≡ (record (set_path p r) { method = m; version = v }, true)
unfolding parse_request_line parse_target set_method
parse_request_line_complete m p v r known fine sp q =
    let rest = p ++ 32 ∷ version_string v in
    let word = NotIn-method m in
    rw
      (
        find_lt 32 (method_string m) rest word,
        take-sep 32 (method_string m) rest word,
        drop-sep 32 (method_string m) rest word,
        read_method-method_string m,
        known,
        find_lt 32 p (version_string v) sp,
        take-sep 32 p (version_string v) sp,
        drop-sep 32 p (version_string v) sp,
        set_target-path p (record r { method = m }) q,
      )
      (parse_version-version_string v (set_path p (record r { method = m })) fine)

-- A header that a line of the message can carry: no colon in the field, a value without blanks at
-- its ends, and no line end in either.
abbrev pub IsWireHeader : Bytes × Bytes → Type 0
IsWireHeader (k, v) =
    NotIn b':' k × (trim_end (skip_spaces (32 ∷ v)) ≡ v) × Unbroken (k ++ (codes ": " ++ v))

abbrev pub AllWire : Headers → Type 0
AllWire [] = Unit {0}
AllWire (h ∷ hs) = IsWireHeader h × AllWire hs

parse_headers-line :
    (k v : Bytes) (r : Request)
    → IsWireHeader (k, v)
    → parse_headers (k ++ (codes ": " ++ v)) r
      ≡ (record r { headers = Dict.insert k v r.headers }, parse_again)
unfolding parse_headers add_header_line header_of
parse_headers-line k v r (colon, trimmed, _) = rw (
  find_lt b':' k (32 ∷ v) colon,
  take-sep b':' k (32 ∷ v) colon,
  drop-sep b':' k (32 ∷ v) colon,
  trimmed,
)

drop-line : (line rest : Bytes) → drop (length line + 2) (line ++ (crlf ++ rest)) ≡ rest
drop-line line rest =
    rw (← append_assoc line crlf rest)
      (drop-append (length line + 2) (line ++ crlf) rest (omega (arith, length-append line crlf)))

abbrev in_headers : Request → Option ℕ → Context
in_headers r p = record { state = expect_headers; request = r; timer_pos = p }

abbrev with_headers : Request → Headers → Request
with_headers r hs = record r { headers = hs }

-- The round for a header line.
header_step :
    (k v rest : Bytes) (time : ℕ) (r : Request) (p : Option ℕ)
    → IsWireHeader (k, v)
    → step expect_headers time (in_headers r p) ((k ++ (codes ": " ++ v)) ++ (crlf ++ rest))
      ≡ next (in_headers (with_headers r (Dict.insert k v r.headers)) p) rest
unfolding step headers_step after_headers_step
header_step k v rest time r p w =
    let line = k ++ (codes ": " ++ v) in
    rw (
      search_crlf-append line rest w.2,
      take-append (length line) line (crlf ++ rest) refl,
      parse_headers-line k v r w,
      drop-line line rest,
    )

headers_loop :
    (hs : Headers) (g f time : ℕ) (r : Request) (p : Option ℕ) (tail : Bytes)
    → AllWire hs
    → g ≡ length hs + f
    → parse_bytes g time (in_headers r p) (header_lines hs ++ tail)
      ≡ parse_bytes f time (in_headers (with_headers r (Dict.insert_all hs r.headers)) p) tail
unfolding parse_bytes Dict.insert_all
headers_loop [] g f time r p tail w e =
    let e' : g ≡ f = omega arith in ap (λ n. parse_bytes n time (in_headers r p) tail) e'
headers_loop ((k, v) ∷ hs) zero f time r p tail w e = absurd (omega arith)
headers_loop ((k, v) ∷ hs) (suc g) f time r p tail w e =
    let line = k ++ (codes ": " ++ v) in
    ap (parse_bytes (suc g) time (in_headers r p))
      (append_assoc line (crlf ++ header_lines hs) tail)
    ∙ parse_bytes_next g time (in_headers r p)
        (in_headers (with_headers r (Dict.insert k v r.headers)) p)
        (line ++ (crlf ++ (header_lines hs ++ tail))) (header_lines hs ++ tail)
        (header_step k v (header_lines hs ++ tail) time r p w.0)
    ∙ headers_loop hs g f time (with_headers r (Dict.insert k v r.headers)) p tail w.1 (omega arith)

-- The empty line, and the two rounds that follow.
end_loop :
    (f time : ℕ) (r : Request) (p : Option ℕ) (tail : Bytes)
    → parse_bytes (suc (suc (suc f))) time (in_headers r p) (crlf ++ tail)
      ≡ some (parse_ok, record { state = got_all; request = r; timer_pos = p }, tail)
unfolding parse_bytes step headers_step after_headers_step parse_headers search_crlf find
end_loop f time r p tail = refl

-- A request that the wire can carry: a known method and version, a path without a space and
-- without a question mark, no line end in the request line, and headers as above in the order of
-- their map.
pub record IsWire (r : Request) : Type 0 where
  pub known : is_known r.method ≡ true
  pub versioned : is_version r.version ≡ true
  pub no_space : NotIn 32 r.path
  pub no_query : NotIn b'?' r.path
  pub one_line : Unbroken (req_line_to_string r)
  pub wire : AllWire r.headers
  pub sorted : Dict.IsSorted r.headers

-- A parser that waits for a request line, with a request as a new one, except for the end of the
-- location, which `swap` leaves out.
abbrev pub fresh : ℕ → Option ℕ → Context
fresh n p = record {
  state = expect_request_line;
  request = record new_request { location_end_pos = n };
  timer_pos = p;
}

request_line_step_complete :
    (r : Request) (rest : Bytes) (time n : ℕ) (p : Option ℕ)
    → IsWire r
    → step expect_request_line time (fresh n p) (req_line_to_string r ++ (crlf ++ rest))
      ≡ next
          (in_headers
            (record {
              method = r.method;
              version = r.version;
              path = r.path;
              location_end_pos = length r.path;
              query = [];
              receive_time = time;
              headers = [];
              body = [];
            })
            p)
          rest
unfolding step request_line_step
request_line_step_complete r rest time n p w =
    let line = req_line_to_string r in
    let whole : line ≡ method_string r.method ++ 32 ∷ (r.path ++ 32 ∷ version_string r.version) =
      unfold req_line_to_string in
      append_assoc (method_string r.method) (codes " ")
        (r.path ++ (codes " " ++ version_string r.version)) in
    rw (
      search_crlf-append line rest w.one_line,
      take-append (length line) line (crlf ++ rest) refl,
      drop-line line rest,
      whole,
      parse_request_line_complete r.method r.path r.version (fresh n p).request w.known w.versioned
          w.no_space w.no_query,
    )

-- The request that the parser makes of it: without query and body.
abbrev pub read_back : ℕ → Request → Request
read_back time r = record r {
  location_end_pos = length r.path;
  query = [];
  receive_time = time;
  body = [];
}

read_all :
    (f time n : ℕ) (r : Request) (p : Option ℕ) (tail : Bytes)
    → IsWire r
    → parse_bytes
        (suc (length r.headers + suc (suc (suc f))))
        time
        (fresh n p)
        (req_line_to_string r ++ (crlf ++ (header_lines r.headers ++ (crlf ++ tail))))
      ≡ some (parse_ok, record { state = got_all; request = read_back time r; timer_pos = p }, tail)
read_all f time n r p tail w =
    let start = record (read_back time r) { headers = [] } in
    parse_bytes_next _ time (fresh n p) (in_headers start p) _
      (header_lines r.headers ++ (crlf ++ tail))
      (request_line_step_complete r (header_lines r.headers ++ (crlf ++ tail)) time n p w)
    ∙ headers_loop r.headers (length r.headers + suc (suc (suc f))) (suc (suc (suc f))) time start p
        (crlf ++ tail) w.wire refl
    ∙ ap
        (λ hs.
          parse_bytes (suc (suc (suc f))) time (in_headers (with_headers start hs) p)
            (crlf ++ tail))
        (Dict.insert_all-IsSorted r.headers w.sorted)
    ∙ end_loop f time (read_back time r) p tail

-- A request that the wire can carry, printed in a valid buffer, is read by a fresh parser in one call of
-- `parseRequest`, whatever stands behind it.
pub parse_request-serialize :
    (time n : ℕ) (r : Request) (p : Option ℕ) (more : Bytes) {b : Buffer}
    → IsWire r
    → IsValid b
    → content b ≡ serialize r ++ more
    → outcome (parse_request time (fresh n p) b)
      ≡ some (
        parse_ok,
        record { state = got_all; request = read_back time r; timer_pos = p },
        body_bytes r.body ++ more,
      )
parse_request-serialize time n r p more {b} w v e =
    let tail = body_bytes r.body ++ more in
    let f = length (content b) in
    let flat : content b
        ≡ req_line_to_string r ++ (crlf ++ (header_lines r.headers ++ (crlf ++ tail))) =
      e ∙ simp append_assoc in
    (parse_request-parse_bytes time (fresh n p) v).0
    ∙ parse_bytes_fuel (readable_bytes b + 4) (suc (length r.headers + suc (suc (suc f)))) time
        (fresh n p) (content b) (omega (arith, length-content v)) (omega arith)
    ∙ ap (parse_bytes (suc (length r.headers + suc (suc (suc f)))) time (fresh n p)) flat
    ∙ read_all f time n r p tail w
