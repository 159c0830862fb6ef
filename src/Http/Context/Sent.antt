-- ===== src/Http/Context/Sent.antt =====
-- What `HttpRequest::appendToBuffer` of http/HttpRequest.h writes, `HttpContext::parseRequest` of
-- http/HttpContext.cpp reads.
use cu_ber.Prelude.{ℕ, ◌≡◌, ap, ◌∙◌, Bytes, Option, some, [], ◌++◌}
use cu_ber.Buffer.{Buffer, content, append}
use cu_ber.Buffer.Content.{IsValid, append-Holds}
use cu_ber.Http.Request.{Request, append_to_buffer}
use cu_ber.Http.Request.Printing.{serialize, body_bytes, append_to_buffer_lem}
use cu_ber.Http.Context.{parse_ok, parse_request, got_all}
use cu_ber.Http.Context.Stream.{outcome}
use cu_ber.Http.Context.RoundTrip.{IsWire, fresh, read_back, parse_request-serialize}

-- What `appendToBuffer` writes into a valid buffer without content, for a request that the wire can
-- carry, a fresh parser reads back in one call of `parseRequest`, whatever is appended behind it: the
-- method, the version, the path and the headers are those of the request, and the body with the line
-- end that was written behind it stays in the buffer. The query of the request is lost.
pub parse_request-append_to_buffer :
    (time n : ℕ) (r : Request) (p : Option ℕ) (more : Bytes) {out : Buffer}
    → IsWire r
    → IsValid out
    → content out ≡ []
    → outcome (parse_request time (fresh n p) (append more (append_to_buffer r out)))
      ≡ some (
        parse_ok,
        record { state = got_all; request = read_back time r; timer_pos = p },
        body_bytes r.body ++ more,
      )
parse_request-append_to_buffer time n r p more w v none_there =
    let (valid, all) = append-Holds more (append_to_buffer_lem r v) in
    parse_request-serialize time n r p more w valid
      (all ∙ ap (λ c. (c ++ serialize r) ++ more) none_there)
