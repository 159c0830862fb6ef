-- ===== src/Config/Tests.antt =====
-- The theorem on the configuration of config/ServerConfig.h at a concrete configuration.
use cu_ber.Prelude.{codes, [], ◌∷◌, List}
use cu_ber.Config.{new_config}
use cu_ber.Config.Locations.{IsServed, Entry, enter_all, enter_all-new_config, static_files, proxy}

abbrev entries : List Entry
entries =
    static_files (record { location = codes "/"; alias = codes "/w/" })
    ∷ proxy (record { location = codes "/api/"; upstream_name = codes "u"; set_headers = [] })
    ∷ []

enter_all-new_config_example : IsServed (enter_all (new_config (codes "c")) entries)
enter_all-new_config_example = enter_all-new_config (codes "c") entries
