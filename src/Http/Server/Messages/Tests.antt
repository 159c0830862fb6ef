-- ===== src/Http/Server/Messages/Tests.antt =====
-- The theorems on `onMessage` of http/HttpServer.cpp at concrete requests.
use cu_ber.Prelude.{
  ◌≡◌, refl, arith, [], ◌∷◌, ◌++◌, false, some, none, codes, replicate, find, stoi, eq_bytes,
}
use cu_ber.Prelude.Dict
use cu_ber.Buffer.{Buffer, content, append, init, initial_size}
use cu_ber.Config.{
  ServerConfig, new_config, default_upstream, is_listened, exist_static, exist_proxy, proxy_info,
  upstream_info, upstream_info_entry,
}
use cu_ber.Http.Request.{
  Request, new_request, get, http11, crlf, append_to_buffer, req_line_to_string,
}
use cu_ber.Http.Context.{got_all}
use cu_ber.Http.Context.RoundTrip.{IsWire, fresh}
use cu_ber.Http.Handler.{
  Peer, handle, handle_access, access_path, after_match, match_location, handle_static,
  serve_static, handle_post_read, handle_proxy, forward_by, start_forward, upstream_address,
  add_proxy_headers,
}
use cu_ber.Http.Server.{run_handlers}
use cu_ber.Http.Server.Messages.{
  Session, Setup, Reaction, forwards, on_request, on_message, finish_request,
}
use cu_ber.Http.Server.Messages.Answering.{IsSettled, on_message_settles, on_message_repeats}

abbrev setup : Setup
setup = record {
  files = record { is_file = λ p. false; size = λ p. 0; can_open = λ p. false; map = λ p n. none };
  order = λ h. h;
  http_callback = λ q r. r;
  server_name = codes "CuBer";
}

abbrev peer : Peer
peer = record { name = codes "CuBer-1#7"; peer_ip = codes "10.0.0.9"; local_port = 80 }

abbrev asked : Request
asked = record new_request {
  method = get;
  version = http11;
  path = codes "/";
  location_end_pos = 1;
}

asked-IsWire : IsWire asked
unfolding req_line_to_string
asked-IsWire = record {
  known = refl;
  versioned = refl;
  no_space = (refl, tt);
  no_query = (refl, tt);
  one_line = ground arith;
  wire = tt;
  sorted = tt;
}

abbrev input : Buffer
input = record {
  buffer = replicate 8 0 ++ codes "GET / HTTP/1.1" ++ crlf ++ crlf ++ codes "GE";
  reader_index = 8;
  writer_index = 28;
}

abbrev waiting : Session
waiting = record {
  context = fresh 3 none;
  input = input;
  config = new_config (codes "c");
  client_conn_map = [];
  started = [];
}

on_message_settles_example :
    (x : Reaction) × (on_message 2 setup peer 5 waiting ≡ some x) × IsSettled none x
unfolding req_line_to_string content
on_message_settles_example =
    on_message_settles 2 5 3 setup peer asked none (codes "GE") waiting asked-IsWire (ground arith)
      (omega arith) (omega arith) refl refl

-- A configuration with one proxy, and a session whose parser has read a request for it.
abbrev proxied : ServerConfig
proxied = record (new_config (codes "c")) {
  locations = (codes "/", tt) ∷ [];
  proxies =
      (codes "/", record { location = codes "/"; upstream_name = codes "u"; set_headers = [] })
      ∷ [];
  upstreams =
      (codes "u", record default_upstream { name = codes "u"; address = codes "10.0.0.1:8080" })
      ∷ [];
}

abbrev read : Session
read = record waiting {
  context = record { state = got_all; request = asked; timer_pos = none };
  config = proxied;
}

abbrev on_its_way : Session
on_its_way = record read {
  context = record {
    state = got_all;
    request = record asked { location_end_pos = 0 };
    timer_pos = none;
  };
  client_conn_map = (codes "CuBer-1#7", peer) ∷ [];
  started =
      record {
        proxy_name = codes "CuBer-1#7%";
        upstream_ip = codes "10.0.0.1";
        upstream_port = 8080;
        forward_buff = append_to_buffer (record asked { location_end_pos = 0 }) (init initial_size);
      }
      ∷ [];
}

forward_run : on_request 1 setup peer read ≡ some (forwards on_its_way)
unfolding on_request finish_request run_handlers handle handle_access access_path after_match
    match_location handle_static serve_static handle_post_read handle_proxy forward_by start_forward
    upstream_address add_proxy_headers is_listened exist_static exist_proxy proxy_info upstream_info
    upstream_info_entry Dict.contains Dict.lookup Dict.insert eq_bytes find stoi
forward_run = refl

on_message_repeats_example :
    on_message 1 setup peer 6 (record on_its_way { input = append (codes "T") on_its_way.input })
    ≡ on_request 1 setup peer (record on_its_way { input = append (codes "T") on_its_way.input })
on_message_repeats_example =
    on_message_repeats 1 1 6 setup peer (codes "T") read {s' = on_its_way} refl forward_run
