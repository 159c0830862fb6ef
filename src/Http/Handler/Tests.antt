-- ===== src/Http/Handler/Tests.antt =====
-- Runs of the handlers of http/HttpHandler.cpp and HttpProxyHandler.cpp.
use cu_ber.Prelude.{◌≡◌, refl, arith, Bytes, Bool, some, none, codes, eq_bytes, [], ◌∷◌, find, stoi}
use cu_ber.Http.Handler.{match_location, shorten, last_index, upstream_address, find_index, Files}
use cu_ber.Http.Handler.Location.{match_location-Longest, Longest}

abbrev listened : Bytes → Bool
listened p = eq_bytes p (codes "/a/")

abbrev asked : Bytes
asked = codes "/a/b/c"

match_location_run : match_location 6 listened asked ≡ some (codes "/a/")
unfolding match_location shorten last_index eq_bytes
match_location_run = refl

match_location-Longest_example : Longest listened asked (match_location 6 listened asked)
match_location-Longest_example = match_location-Longest 6 listened asked (omega arith) (omega arith)

upstream_address_run : upstream_address (codes "10.0.0.1:8080") ≡ some (codes "10.0.0.1", 8080)
unfolding upstream_address find stoi
upstream_address_run = refl

-- Without a colon the host is lost.
upstream_host_run : upstream_address (codes "example.org") ≡ some ([], 80)
unfolding upstream_address find
upstream_host_run = refl

-- Two index files, of which the second exists.
abbrev files : Files
files = record {
  is_file = λ p. eq_bytes p (codes "/w/b.html");
  size = λ p. 0;
  can_open = λ p. eq_bytes p (codes "/w/b.html");
  map = λ p n. none;
}

-- The second one is looked for behind the name of the first.
find_index_run : find_index files (codes "/w/") (codes "a.html" ∷ codes "b.html" ∷ []) ≡ none
unfolding find_index eq_bytes
find_index_run = refl
