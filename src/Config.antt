-- ===== src/Config.antt =====
-- config/ServerConfig.h: the configuration that the server looks up. A port is a number, and a
-- `std::map` or `unordered_map` a list in the order of the keys.
pub mod Locations
mod Tests
use cu_ber.Prelude.{
  ℕ, Bytes, Bool, true, false, Option, none, some, List, [], ◌∷◌, ◌==◌, if◌then◌else◌, codes, ℤ,
  pos,
}
use cu_ber.Prelude.Dict

pub record LoggerConfig : Type 0 where
  pub logger_name : Bytes
  pub log_save_path : Bytes
  pub roll_file_size : ℤ

pub record MainConfig : Type 0 where
  pub max_worker : ℤ
  pub keep_alive_timeout : ℤ
  pub max_worker_connections : ℤ
  pub loggers : List (Bytes × LoggerConfig)

pub record ProxyServer : Type 0 where
  pub location : Bytes
  pub upstream_name : Bytes
  pub set_headers : List Bytes

pub record Upstream : Type 0 where
  pub name : Bytes
  pub address : Bytes
  pub max_fails : ℤ
  pub fail_time_second : ℤ

pub record StaticInfo : Type 0 where
  pub location : Bytes
  pub alias : Bytes

pub record Server : Type 0 where
  pub listen_port : ℕ
  pub workers : ℤ
  pub root_path : Bytes
  pub index_files : List Bytes
  pub proxy_locations : List Bytes
  pub static_locations : List Bytes

-- `unordered_set<string>`: the set of the keys.
abbrev pub Locations : Type 0
Locations = List (Bytes × Unit {0})

pub record ServerConfig : Type 0 where
  pub config_path : Bytes
  pub listened_ports : List ℕ
  pub locations : Locations
  pub server_main_config : MainConfig
  pub loggers_config : List (Bytes × LoggerConfig)
  pub servers : List (ℕ × Server)
  pub statics : List (Bytes × StaticInfo)
  pub proxies : List (Bytes × ProxyServer)
  pub upstreams : List (Bytes × Upstream)

-- The default constructors.
abbrev pub default_main : MainConfig
default_main = record {
  max_worker = pos 4;
  keep_alive_timeout = pos 65;
  max_worker_connections = pos 768;
  loggers = [];
}

abbrev pub default_upstream : Upstream
default_upstream = record { name = []; address = []; max_fails = pos 3; fail_time_second = pos 30 }

abbrev pub new_config : Bytes → ServerConfig
new_config path = record {
  config_path = path;
  listened_ports = [];
  locations = [];
  server_main_config = default_main;
  loggers_config = [];
  servers = [];
  statics = [];
  proxies = [];
  upstreams = [];
}

pub set_main_conf : MainConfig → ServerConfig → ServerConfig
set_main_conf m c = record c { server_main_config = m }

unfoldable pub add_logger_info : Bytes → LoggerConfig → ServerConfig → ServerConfig
add_logger_info name l c = record c { loggers_config = Dict.insert name l c.loggers_config }

unfoldable pub configured_logger : ServerConfig → Bool
configured_logger c = elim c.loggers_config [ [] ↦ false | _ ∷ _ ↦ true ]

unfoldable pub exist_logger : Bytes → ServerConfig → Bool
exist_logger name c = Dict.contains name c.loggers_config

-- The map of the servers is keyed by the port.
put_server : ℕ → Server → List (ℕ × Server) → List (ℕ × Server)
put_server port s [] = (port, s) ∷ []
put_server port s ((p, t) ∷ m) = if p == port then (port, s) ∷ m else (p, t) ∷ put_server port s m

pub find_server : ℕ → List (ℕ × Server) → Option Server
find_server port [] = none
find_server port ((p, t) ∷ m) = if p == port then some t else find_server port m

put_port : ℕ → List ℕ → List ℕ
put_port port [] = port ∷ []
put_port port (p ∷ ps) = if p == port then p ∷ ps else p ∷ put_port port ps

has_port : ℕ → List ℕ → Bool
has_port port [] = false
has_port port (p ∷ ps) = if p == port then true else has_port port ps

pub add_server : Server → ServerConfig → ServerConfig
unfolding put_server put_port
add_server s c = record c {
  servers = put_server s.listen_port s c.servers;
  listened_ports = put_port s.listen_port c.listened_ports;
}

pub listened_port : ℕ → ServerConfig → Bool
unfolding has_port
listened_port port c = has_port port c.listened_ports

unfoldable pub add_proxy : ProxyServer → ServerConfig → ServerConfig
add_proxy p c = record c {
  proxies = Dict.insert p.location p c.proxies;
  locations = Dict.insert p.location tt c.locations;
}

unfoldable pub exist_proxy : Bytes → ServerConfig → Bool
exist_proxy location c = Dict.contains location c.proxies

-- `operator[]` of the map, where an `assert` says that the key is there.
unfoldable pub proxy_info : Bytes → ServerConfig → Option ProxyServer
proxy_info location c = Dict.lookup location c.proxies

pub add_upstream : Upstream → ServerConfig → ServerConfig
add_upstream u c = record c { upstreams = Dict.insert u.name u c.upstreams }

-- `operator[]`: a name that is missing gives a default upstream (and is entered into the map,
-- which `upstream_info_entry` says).
unfoldable pub upstream_info : Bytes → ServerConfig → Upstream
upstream_info name c = elim (Dict.lookup name c.upstreams) [ none ↦ default_upstream | some u ↦ u ]

unfoldable pub upstream_info_entry : Bytes → ServerConfig → ServerConfig
upstream_info_entry name c =
    if Dict.contains name c.upstreams
    then c
    else record c { upstreams = Dict.insert name default_upstream c.upstreams }

pub exist_upstream_info : Bytes → ServerConfig → Bool
exist_upstream_info name c = Dict.contains name c.upstreams

unfoldable pub add_static : StaticInfo → ServerConfig → ServerConfig
add_static s c = record c {
  statics = Dict.insert s.location s c.statics;
  locations = Dict.insert s.location tt c.locations;
}

unfoldable pub exist_static : Bytes → ServerConfig → Bool
exist_static location c = Dict.contains location c.statics

-- `operator[]` again: without the entry the alias is empty.
unfoldable pub static_path : Bytes → ServerConfig → Bytes
static_path location c = elim (Dict.lookup location c.statics) [ none ↦ [] | some s ↦ s.alias ]

unfoldable pub is_listened : Bytes → ServerConfig → Bool
is_listened location c = Dict.contains location c.locations

unfoldable pub index_files : ℕ → ServerConfig → List Bytes
unfolding find_server
index_files port c = elim (find_server port c.servers) [ none ↦ [] | some s ↦ s.index_files ]
