-- ===== src/Config/Locations.antt =====
-- The set of locations of a configuration against its static files and its proxies.
use cu_ber.Prelude.{◌≡◌, refl, arith, Bytes, ◌||◌, List, [], ◌∷◌}
use cu_ber.Prelude.Dict
use cu_ber.Config.{
  ServerConfig, ProxyServer, Upstream, StaticInfo, LoggerConfig, Server, MainConfig, new_config,
  add_proxy, add_static, add_upstream, add_logger_info, add_server, set_main_conf, exist_proxy,
  exist_static, is_listened,
}

-- A location is listened to exactly if it has static files or a proxy.
abbrev pub IsServed : ServerConfig → Type 0
IsServed c =
    (location : Bytes)
    → is_listened location c ≡ (exist_static location c || exist_proxy location c)

-- The calls by which the loader fills the configuration.
pub data Entry : Type 0 where
  main : MainConfig → Entry
  logger : Bytes → LoggerConfig → Entry
  upstream : Upstream → Entry
  proxy : ProxyServer → Entry
  static_files : StaticInfo → Entry
  server : Server → Entry

pub enter : ServerConfig → Entry → ServerConfig
enter c (main m) = set_main_conf m c
enter c (logger n l) = add_logger_info n l c
enter c (upstream u) = add_upstream u c
enter c (proxy p) = add_proxy p c
enter c (static_files s) = add_static s c
enter c (server s) = add_server s c

pub enter_all : ServerConfig → List Entry → ServerConfig
enter_all c [] = c
enter_all c (e ∷ es) = enter_all (enter c e) es

enter-IsServed : (c : ServerConfig) (e : Entry) → IsServed c → IsServed (enter c e)
unfolding enter set_main_conf add_logger_info add_upstream add_proxy add_static add_server
    is_listened exist_static exist_proxy
enter-IsServed c (main m) s l = s l
enter-IsServed c (logger n g) s l = s l
enter-IsServed c (upstream u) s l = s l
enter-IsServed c (proxy p) s l = ground (
  arith,
  s l,
  Dict.contains-insert p.location l p c.proxies,
  Dict.contains-insert p.location l tt c.locations,
)
enter-IsServed c (static_files t) s l = ground (
  arith,
  s l,
  Dict.contains-insert t.location l t c.statics,
  Dict.contains-insert t.location l tt c.locations,
)
enter-IsServed c (server v) s l = s l

enter_all-IsServed : (c : ServerConfig) (es : List Entry) → IsServed c → IsServed (enter_all c es)
unfolding enter_all
enter_all-IsServed c [] s = s
enter_all-IsServed c (e ∷ es) s = enter_all-IsServed (enter c e) es (enter-IsServed c e s)

-- However the configuration is filled, the set of locations that requests are matched against holds
-- exactly the locations with static files or a proxy.
pub enter_all-new_config :
    (path : Bytes) (es : List Entry) → IsServed (enter_all (new_config path) es)
enter_all-new_config path es =
    enter_all-IsServed (new_config path) es
      (unfold is_listened exist_static exist_proxy Dict.contains in λ l. refl)
