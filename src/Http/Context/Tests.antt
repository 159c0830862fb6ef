-- ===== src/Http/Context/Tests.antt =====
-- Runs of the request parser of http/HttpContext.cpp, and its theorems at concrete requests.
use cu_ber.Prelude.{
  ◌≡◌, refl, arith, Bytes, true, none, some, ◌++◌, [], ◌∷◌, codes, replicate, eq_bytes, find,
  is_space,
}
use cu_ber.Buffer.{Buffer, content, append, init, search_crlf, find_crlf, retrieve, retrieve_until}
use cu_ber.Buffer.Content.{IsValid, init_lem}
use cu_ber.Http.Request.{
  Request, new_request, get, http11, crlf, req_line_to_string, method_string, version_string,
  is_known, append_to_buffer, set_method, read_method, skip_spaces, trim_end,
}
use cu_ber.Http.Context.{
  Context, Verdict, parse_ok, parse_again, got_all, expect_headers, parse_request,
  parse_request_line, parse_target, parse_version, set_target,
}
use cu_ber.Http.Context.Stream.{outcome}
use cu_ber.Http.Context.Ends.{parse_request_total}
use cu_ber.Http.Context.Chunks.{parse_request_chunks}
use cu_ber.Http.Context.Line.{parse_request_line_sound}
use cu_ber.Http.Context.RoundTrip.{IsWire, fresh, read_back}
use cu_ber.Http.Context.Sent.{parse_request-append_to_buffer}

abbrev line : Bytes
line = codes "GET /a?b=1 HTTP/1.1"

abbrev asked : Request
asked = record new_request {
  method = get;
  version = http11;
  path = codes "/a";
  location_end_pos = 2;
  query = codes "?b=1";
}

line_run : parse_request_line line new_request ≡ (asked, true)
unfolding parse_request_line parse_target parse_version set_target set_method read_method eq_bytes
    find
line_run = refl

-- The path may be empty.
empty_path_run :
    parse_request_line (codes "GET  HTTP/1.1") new_request
    ≡ (record new_request { method = get; version = http11 }, true)
unfolding parse_request_line parse_target parse_version set_target set_method read_method eq_bytes
    find
empty_path_run = refl

parse_request_line_sound_example :
    (line
      ≡ method_string asked.method
        ++ 32 ∷ ((asked.path ++ asked.query) ++ 32 ∷ version_string asked.version))
    × (is_known asked.method ≡ true)
parse_request_line_sound_example = parse_request_line_sound line new_request refl line_run

-- The first part of a request in a buffer.
abbrev part : Buffer
part = record {
  buffer = replicate 8 0 ++ (codes "GET / HTTP/1.1" ++ (crlf ++ codes "Ho")) ++ replicate 8 0;
  reader_index = 8;
  writer_index = 26;
}

part-IsValid : IsValid part
part-IsValid = omega arith

parse_request_total_example :
    (r : Verdict × Context × Buffer) × (parse_request 7 (fresh 0 none) part ≡ some r)
parse_request_total_example = parse_request_total 7 (fresh 0 none) part-IsValid

abbrev waiting : Context
waiting = record {
  state = expect_headers;
  request = record new_request {
    method = get;
    version = http11;
    path = codes "/";
    location_end_pos = 1;
    receive_time = 7;
  };
  timer_pos = none;
}

abbrev left : Buffer
left = record part { reader_index = 24 }

part_run : parse_request 7 (fresh 0 none) part ≡ some (parse_again, waiting, left)
unfolding parse_request parse_request_line parse_target parse_version set_target set_method
    read_method eq_bytes find search_crlf content find_crlf retrieve_until retrieve
part_run = refl

parse_request_chunks_example :
    outcome (parse_request 7 (fresh 0 none) (append (codes "st") part))
    ≡ outcome (parse_request 7 waiting (append (codes "st") left))
parse_request_chunks_example =
    parse_request_chunks 7 (fresh 0 none) (codes "st") part-IsValid part_run

abbrev sent : Request
sent = record new_request {
  method = get;
  version = http11;
  path = codes "/a";
  query = codes "?b=1";
  headers = (codes "Host", codes "x") ∷ [];
  body = codes "hi";
}

sent-IsWire : IsWire sent
unfolding req_line_to_string skip_spaces trim_end is_space
sent-IsWire = record {
  known = refl;
  versioned = refl;
  no_space = (refl, (refl, tt));
  no_query = (refl, (refl, tt));
  one_line = ground arith;
  wire = ((ground arith, refl, ground arith), tt);
  sorted = tt;
}

parse_request-append_to_buffer_example :
    outcome
      (parse_request 7 (fresh 3 none) (append (codes "more") (append_to_buffer sent (init 16))))
    ≡ some (
      parse_ok,
      record { state = got_all; request = read_back 7 sent; timer_pos = none },
      codes "hi" ++ crlf ++ codes "more",
    )
parse_request-append_to_buffer_example =
    parse_request-append_to_buffer 7 3 sent none (codes "more") sent-IsWire (init_lem 16).0
      (init_lem 16).1
