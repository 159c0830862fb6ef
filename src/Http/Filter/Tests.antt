-- ===== src/Http/Filter/Tests.antt =====
-- The filters of http/HttpFilter.cpp on a concrete response.
use cu_ber.Prelude.{◌≡◌, codes, [], ◌∷◌, false, pos, if◌then◌else◌}
use cu_ber.Config.{ServerConfig, new_config}
use cu_ber.Http.Request.{Request, new_request, get, http10}
use cu_ber.Http.Response.{Response, new_response, set_status_code}
use cu_ber.Http.Response.Printing.{serialize}
use cu_ber.Http.Filter.{send, shutdown, filter, http_filter, filter_headers, wants_close}
use cu_ber.Http.Filter.Closing.{on_connection, filter_sends_once}

abbrev config : ServerConfig
config = new_config (codes "c")

abbrev asked : Request
asked = record new_request {
  method = get;
  version = http10;
  path = codes "/";
  location_end_pos = 1;
}

abbrev answer : Response
answer = set_status_code (pos 404) (new_response false)

filter_sends_once_example :
    on_connection []
      (filter
        (λ h. h)
        config
        asked
        (http_filter config)
        (record { response = answer; actions = [] })).actions
    ≡ send (
        serialize
          (λ h. h)
          (filter_headers config asked (record { response = answer; actions = [] })).response)
      ∷ (if wants_close asked then shutdown ∷ [] else [])
filter_sends_once_example = filter_sends_once (λ h. h) config asked answer
