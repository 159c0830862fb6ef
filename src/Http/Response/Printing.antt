-- ===== src/Http/Response/Printing.antt =====
-- What `HttpResponse::appendToBuffer` of http/HttpResponse.cpp writes.
use cu_ber.Prelude.{
  Bytes, Bool, true, false, ◌≡◌, refl, sym, [], ◌∷◌, ◌++◌, ◌&&◌, not, codes, append_assoc,
  append-nil, if◌then◌else◌, show_nat, length,
}
use cu_ber.Prelude.Dict
use cu_ber.Buffer.{Buffer, content, append}
use cu_ber.Buffer.Content.{IsValid, Holds, Holds-eq, append-Holds}
use cu_ber.Http.Request.{crlf}
use cu_ber.Http.Request.Printing.{header_lines}
use cu_ber.Http.Response.{
  Response, Headers, status_start, is_empty, append_headers, append_to_buffer,
}

-- The line that `appendToBuffer` adds for a body whose length no header states.
abbrev pub length_line : Response → Bytes
length_line r =
    if not (is_empty r.body) && not (Dict.contains (codes "Content-Length") r.headers)
    then codes "Content-Length: " ++ (show_nat (length r.body) ++ crlf)
    else []

abbrev pub serialize : (Headers → Headers) → Response → Bytes
serialize order r =
    (status_start r ++ (r.status_message ++ crlf))
    ++ (length_line r ++ (header_lines (order r.headers) ++ (crlf ++ r.body)))

append_headers-Holds :
    (hs : Headers) {b : Buffer} {c : Bytes}
    → Holds b c
    → Holds (append_headers hs b) (c ++ header_lines hs)
unfolding append_headers
append_headers-Holds [] h = Holds-eq h (sym (append-nil _))
append_headers-Holds ((k, w) ∷ hs) h =
    Holds-eq
      (append_headers-Holds hs
        (append-Holds crlf (append-Holds w (append-Holds (codes ": ") (append-Holds k h)))))
      (simp append_assoc)

-- Appending under a test appends the text or nothing.
append_if-Holds :
    (t : Bool) (x : Bytes) {b : Buffer} {c : Bytes}
    → Holds b c
    → Holds (if t then append x b else b) (c ++ (if t then x else []))
append_if-Holds true x h = append-Holds x h
append_if-Holds false x h = Holds-eq h (sym (append-nil _))

append_body-Holds :
    (x : Bytes) {b : Buffer} {c : Bytes}
    → Holds b c
    → Holds (if is_empty x then b else append x b) (c ++ x)
append_body-Holds [] h = Holds-eq h (sym (append-nil _))
append_body-Holds (y ∷ ys) h = append-Holds (y ∷ ys) h

-- `appendToBuffer` puts the message behind what a valid buffer holds, and it stays valid, whatever the order in which the
-- map of the headers is visited: the status line, a length for a body that has none among its
-- headers, the headers, the empty line and the body.
pub append_response_lem :
    (order : Headers → Headers) (r : Response) {b : Buffer}
    → IsValid b
    → IsValid (append_to_buffer order r b)
      × (content (append_to_buffer order r b) ≡ content b ++ serialize order r)
unfolding append_to_buffer
append_response_lem order r v =
    let wanted = not (is_empty r.body) && not (Dict.contains (codes "Content-Length") r.headers) in
    Holds-eq
      (append_body-Holds r.body (
        append-Holds crlf (
          append_headers-Holds (order r.headers) (
            append_if-Holds wanted (codes "Content-Length: " ++ (show_nat (length r.body) ++ crlf))
              (append-Holds crlf
                (append-Holds r.status_message (append-Holds (status_start r) (v, refl))))))))
      (simp append_assoc)
