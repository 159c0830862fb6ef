-- ===== src/Http/Request/Printing.antt =====
-- What `HttpRequest::appendToBuffer` writes.
use cu_ber.Prelude.{Bytes, ◌≡◌, refl, sym, [], ◌∷◌, ◌++◌, codes, append_assoc, append-nil}
use cu_ber.Buffer.{Buffer, content}
use cu_ber.Buffer.Content.{IsValid, Holds, Holds-eq, append-Holds}
use cu_ber.Http.Request.{
  Request, Headers, method_string, version_string, crlf, append_headers, append_body,
  append_to_buffer, req_line_to_string,
}

-- The lines of the headers, each with its line end.
abbrev pub header_lines : Headers → Bytes
header_lines [] = []
header_lines ((k, v) ∷ hs) = (k ++ (codes ": " ++ v)) ++ (crlf ++ header_lines hs)

abbrev pub body_bytes : Bytes → Bytes
body_bytes [] = []
body_bytes (x ∷ xs) = (x ∷ xs) ++ crlf

-- The message on the wire: the query is no part of it.
abbrev pub serialize : Request → Bytes
serialize r =
    req_line_to_string r ++ (crlf ++ (header_lines r.headers ++ (crlf ++ body_bytes r.body)))

append_headers-Holds :
    (hs : Headers) {b : Buffer} {c : Bytes}
    → Holds b c
    → Holds (append_headers hs b) (c ++ header_lines hs)
unfolding append_headers
append_headers-Holds [] h = Holds-eq h (sym (append-nil _))
append_headers-Holds ((k, w) ∷ hs) h =
    Holds-eq
      (append_headers-Holds hs
        (append-Holds crlf (append-Holds w (append-Holds (codes ": ") (append-Holds k h)))))
      (simp append_assoc)

append_body-Holds :
    (x : Bytes) {b : Buffer} {c : Bytes} → Holds b c → Holds (append_body x b) (c ++ body_bytes x)
unfolding append_body
append_body-Holds [] h = Holds-eq h (sym (append-nil _))
append_body-Holds (x ∷ xs) h =
    Holds-eq (append-Holds crlf (append-Holds (x ∷ xs) h)) (append_assoc _ (x ∷ xs) crlf)

-- `appendToBuffer` puts the message behind what a valid buffer holds, and it stays valid: the request line, a line for
-- each header in the order of the map, the empty line, and a body with a line end of its own.
pub append_to_buffer_lem :
    (r : Request) {b : Buffer}
    → IsValid b
    → IsValid (append_to_buffer r b) × (content (append_to_buffer r b) ≡ content b ++ serialize r)
unfolding append_to_buffer req_line_to_string
append_to_buffer_lem r v =
    Holds-eq
      (append_body-Holds r.body (
        append-Holds crlf (
          append_headers-Holds r.headers (
            append-Holds (codes " " ++ (version_string r.version ++ crlf)) (
              append-Holds r.path
                (append-Holds (method_string r.method ++ codes " ") (v, refl)))))))
      (simp append_assoc)
