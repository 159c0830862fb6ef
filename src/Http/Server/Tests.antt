-- ===== src/Http/Server/Tests.antt =====
-- The theorems on the loop of http/HttpServer.cpp at concrete requests.
use cu_ber.Prelude.{
  ◌≡◌, refl, arith, some, none, codes, eq_bytes, [], ◌∷◌, ◌++◌, replicate, false, pos, stoi,
}
use cu_ber.Prelude.Dict
use cu_ber.Buffer.{Buffer}
use cu_ber.Config.{ServerConfig, new_config, add_static}
use cu_ber.Http.Request.{Request, new_request, get, post, http11, get_header}
use cu_ber.Http.Response.{new_response}
use cu_ber.Http.Handler.{Files, Peer, Exchange}
use cu_ber.Http.Server.{Ending, answered, run_handlers}
use cu_ber.Http.Server.Handling.{chain, run_handlers_total, run_handlers_empty_path}
use cu_ber.Http.Server.Partial.{IsPartial, run_handlers_partial_post}

abbrev files : Files
files = record {
  is_file = λ p. eq_bytes p (codes "/w/x");
  size = λ p. 1;
  can_open = λ p. eq_bytes p (codes "/w/x");
  map = λ p n. some (codes "x");
}

abbrev peer : Peer
peer = record { name = codes "server#1"; peer_ip = codes "10.0.0.9"; local_port = 80 }

abbrev input : Buffer
input = record {
  buffer = replicate 8 0 ++ codes "a" ++ replicate 8 0;
  reader_index = 8;
  writer_index = 9;
}

abbrev config : ServerConfig
config = add_static (record { location = codes "/"; alias = codes "/w/" }) (new_config (codes "c"))

abbrev exchange : Request → Exchange
exchange r = record {
  request = r;
  response = new_response false;
  input = input;
  config = config;
  client_conn_map = [];
  started = [];
}

abbrev asked : Exchange
asked =
    exchange (record new_request {
      method = get;
      version = http11;
      path = codes "/x";
      location_end_pos = 2;
    })

abbrev nothing_asked : Exchange
nothing_asked = exchange (record new_request { method = get; version = http11 })

-- One of five bytes is there.
abbrev posted : Exchange
posted = exchange (record new_request {
  method = post;
  version = http11;
  path = codes "/x";
  location_end_pos = 2;
  headers = (codes "Content-Length", codes "5") ∷ [];
})

posted-IsPartial : IsPartial posted
unfolding get_header Dict.lookup stoi eq_bytes
posted-IsPartial = record {
  size = pos 5;
  is_post = refl;
  has_length = ground arith;
  length_read = refl;
  short = omega arith;
}

run_handlers_total_example : (e : Ending) × (run_handlers 3 (chain files peer) asked ≡ some e)
run_handlers_total_example = run_handlers_total files peer 3 asked (ground arith) (omega arith)

run_handlers_empty_path_example : run_handlers 9 (chain files peer) nothing_asked ≡ none
run_handlers_empty_path_example = run_handlers_empty_path files peer 9 nothing_asked refl

run_handlers_partial_post_example :
    (t : Exchange) × (run_handlers 3 (chain files peer) posted ≡ some (answered t))
    × (t.response.status_code ≡ pos 404)
    × (t.input ≡ input)
run_handlers_partial_post_example =
    run_handlers_partial_post files peer 3 posted (ground arith) (omega arith) posted-IsPartial
