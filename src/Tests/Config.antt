-- ===== src/Tests/Config.antt =====
-- internal/config/config.go and cmd/outbound/main.go with the default configuration.
use submitter_smtp_daemon.Config.Types.{Config}
use submitter_smtp_daemon.Config.Defaults.{default_config}
use submitter_smtp_daemon.Config.Loading.{
  check_listeners, override, override_bool, override_int, override_list, override_redis_auth,
  override_s3, validate, validate_rest, validated, Environment, apply_env_overrides, load, loaded,
}
use submitter_smtp_daemon.Config.Requirements.{IsValid}
use submitter_smtp_daemon.Config.Validity.{IsLoaded, load_lem}
use submitter_smtp_daemon.Daemon.{
  new_ip_auth, start_components, Running, health_paths, retention_policy, running, serve, start,
}
use submitter_smtp_daemon.Auth.{Net}
use submitter_smtp_daemon.Daemon.Listeners.{AreServedAs, running_lem}
use submitter_smtp_daemon.Prelude.{
  refl, List, Option, [], false, if◌then◌else◌, map, none, some, text_eq, true, txt, ℕ, ◌↔◌, ◌∷◌,
  ◌≡◌,
}

-- A decoder that accepts the empty file only.
abbrev decode : List ℕ → Config → Option Config
decode [] cfg = some cfg
decode (c ∷ bytes) cfg = none

abbrev environment : Environment
environment key = if text_eq key (txt "OUTBOUND_SERVER_HOSTNAME") then txt "mx.a" else []

abbrev given : Config
given = apply_env_overrides environment default_config

load_lem_example :
    ((load decode environment (some []) (txt "a") ≡ loaded given)
      ↔ IsLoaded decode environment (some []) (txt "a") given)
    × (load decode (λ key. []) (some []) [] ≡ loaded default_config)
    × IsValid default_config
load_lem_example = load_lem decode environment (some []) (txt "a") given

abbrev net : Net ℕ ℕ
net = record {
  parse_ip = λ s. some 1;
  parse_cidr = λ s. some 1;
  contains = λ c ip. true;
  trim_space = λ s. s;
}

abbrev unset : Environment
unset key = []

abbrev daemon : Running ℕ
daemon = record {
  config = default_config;
  redis_address = txt "localhost:6379";
  retention = retention_policy default_config;
  ip_auth = none;
  paths = health_paths default_config;
  servers = map serve default_config.smtp.listeners;
}

daemon_starts : start net false false (load decode unset none []) ≡ running daemon
unfolding start start_components new_ip_auth load validated validate validate_rest check_listeners
    apply_env_overrides override override_list override_int override_bool override_redis_auth
    override_s3 default_config text_eq txt
daemon_starts = refl

running_lem_example :
    IsLoaded decode unset none [] daemon.config
    × (false ≡ false)
    × AreServedAs daemon.config.smtp.listeners daemon.servers
running_lem_example = running_lem net false false decode unset none [] daemon daemon_starts
