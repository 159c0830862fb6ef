-- ===== src/Http/ResponseContext/Tests.antt =====
-- The theorems on the parser of http/HttpResponseContext.cpp at concrete responses.
use cu_ber.Prelude.{
  ◌≡◌, refl, arith, codes, [], ◌∷◌, ◌++◌, false, pos, some, none, replicate, stoi, eq_bytes,
}
use cu_ber.Prelude.Dict
use cu_ber.Buffer.{Buffer, content}
use cu_ber.Buffer.Content.{IsValid}
use cu_ber.Http.Context.{parse_ok}
use cu_ber.Http.Response.{Response, new_response, get_header, set_body}
use cu_ber.Http.ResponseContext.{parse_response, expect_body, got_all}
use cu_ber.Http.ResponseContext.Body.{States, parse_response_spins, parse_response_body}

abbrev answer : Response
answer = record (new_response false) { headers = (codes "Content-Length", codes "2") ∷ [] }

answer-States : States answer (pos 2)
unfolding get_header Dict.lookup stoi eq_bytes
answer-States = (ground arith, refl)

-- Three bytes are there.
abbrev whole : Buffer
whole = record { buffer = replicate 8 0 ++ codes "abc"; reader_index = 8; writer_index = 11 }

abbrev short : Buffer
short = record { buffer = replicate 8 0 ++ codes "abc"; reader_index = 8; writer_index = 9 }

parse_response_spins_example :
    parse_response 9 (record { state = expect_body; response = answer }) short ≡ none
parse_response_spins_example =
    parse_response_spins 9 answer short (pos 2) answer-States (omega arith)

parse_response_body_example :
    (b' : Buffer) × (parse_response 2 (record { state = expect_body; response = answer }) whole
      ≡ some (parse_ok, record { state = got_all; response = set_body (codes "ab") answer }, b'))
    × IsValid b'
    × (content b' ≡ codes "c")
parse_response_body_example =
    parse_response_body 0 answer (pos 2) (codes "ab") (codes "c") {b = whole} (omega arith)
      answer-States refl (unfold content in refl)
