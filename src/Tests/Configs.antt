-- ===== src/Tests/Configs.antt =====
-- The theorems on the configuration at concrete files.
use mo_t.Base.{◌≡◌, ◌>>=◌, none, true, some, codes, arith, Holds}
use mo_t.Base.Int.{pos}
use mo_t.Config.{AppConfig, Garbage, apply_defaults, config_load, config_save_client}
use mo_t.Config.Bounds.{IsBounded, config_load-IsBounded}
use mo_t.Config.RoundTrip.{config_load-config_save_client}

abbrev config : AppConfig
config = record apply_defaults { server_host = codes "mot"; port = pos 80 }

-- The last bytes are 7, so that no full array is terminated.
abbrev garbage : Garbage
garbage = record {
  host_end = 7;
  ca_cert_end = 7;
  db_end = 7;
  cert_end = 7;
  key_end = 7;
  db_key_end = 7;
}

config_load-config_save_client_example :
    (config_save_client true config none >>= λ r. config_load garbage r.0)
    ≡ some (record apply_defaults { server_host = codes "mot"; port = pos 80 }, true)
config_load-config_save_client_example =
    config_load-config_save_client garbage true config none (λ e. cc) (ground arith) (ground arith)
      (omega arith) (omega arith)

config_load-IsBounded_example :
    Holds
      (λ r. IsBounded garbage r.0)
      (config_load garbage (some (codes "server_port = 80\n# a\n")))
config_load-IsBounded_example =
    config_load-IsBounded garbage (some (codes "server_port = 80\n# a\n"))
