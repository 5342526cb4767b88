-- ===== src/Daemon.antt =====
-- cmd/outbound/main.go: how the configuration reaches the components, in which order they start,
-- and how each listener is served. What the constructors of the TLS manager and the spool answer is
-- an argument, since `main` calls the former in a way that it does not offer.
pub mod Listeners
pub mod Cleaning
pub mod Shutdown
use submitter_smtp_daemon.Config.Types.{Config, ListenerConfig}
use submitter_smtp_daemon.Config.Loading.{Loaded, loaded, unreadable, undecodable, invalid}
use submitter_smtp_daemon.Auth.{IpAuthenticator, Net, new_ip_authenticator}
use submitter_smtp_daemon.Auth
use submitter_smtp_daemon.Files.{
  Stage, delivering, done, failed, filtered, incoming, modified, parsed, signed,
}
use submitter_smtp_daemon.Metrics.{Metrics}
use submitter_smtp_daemon.Ratelimit.{Limiter}
use submitter_smtp_daemon.Prelude.{
  Bool, List, Option, Text, [], false, if◌then◌else◌, map, none, not, pos, some, text_eq, txt, ℕ, ℤ,
  ◌++◌, ◌==◌, ◌∷◌,
}

-- `spoolCfg.Retention`
unfoldable pub retention_policy : Config → List (Stage × ℤ)
retention_policy cfg =
    let r = cfg.spool.retention in
    (incoming, r.incoming)
    ∷ (parsed, r.parsed)
    ∷ (filtered, r.filtered)
    ∷ (modified, r.modified)
    ∷ (signed, r.signed)
    ∷ (delivering, r.delivering)
    ∷ (done, r.done)
    ∷ (failed, r.failed)
    ∷ []

-- `rateLimiter`, as `New` of internal/ratelimit leaves it
unfoldable pub new_limiter : {S : Type 0} → Config → S → Metrics → Limiter S
new_limiter cfg server metrics = record {
  user_messages_per_hour = cfg.rate_limit.user.messages_per_hour;
  user_recipients_per_hour = cfg.rate_limit.user.recipients_per_hour;
  ip_connections_per_minute = cfg.rate_limit.ip.connections_per_minute;
  ip_failed_auth_per_hour = cfg.rate_limit.ip.failed_auth_per_hour;
  global_messages_per_second = cfg.rate_limit.global.messages_per_second;
  global_concurrent_conns = cfg.rate_limit.global.concurrent_connections;
  local_buckets = [];
  current_connections = pos 0;
  metrics = metrics;
  server = server;
}

-- `ipAuth`: an error is fatal
unfoldable pub new_ip_auth :
    {I C : Type 0} → Net I C → Config → Option Auth.Error × Option (IpAuthenticator C)
new_ip_auth net cfg =
    if cfg.auth.ip_allowlist.enabled
    then new_ip_authenticator net cfg.auth.ip_allowlist.ips
    else (none, none)

-- How a listener is served.
pub data Serving : Type 0 where
  listen_and_serve listen_and_serve_tls not_served : Serving

pub record Server : Type 0 where
  pub ip : Text
  pub port : ℤ
  -- whether the server has the TLS configuration of the manager
  pub has_tls : Bool
  pub serving : Serving

-- one round of the loop over the listeners, with the switch of its goroutine
unfoldable pub serve : ListenerConfig → Server
serve l =
    let has_tls = not (text_eq l.mode (txt "plaintext")) in
    if text_eq l.mode (txt "starttls")
    then record { ip = l.ip; port = l.port; has_tls = has_tls; serving = listen_and_serve }
    else if text_eq l.mode (txt "implicit_tls")
    then record { ip = l.ip; port = l.port; has_tls = has_tls; serving = listen_and_serve_tls }
    else if text_eq l.mode (txt "plaintext")
    then record { ip = l.ip; port = l.port; has_tls = false; serving = listen_and_serve }
    else record { ip = l.ip; port = l.port; has_tls = has_tls; serving = not_served }

-- The handler of /readyz: the status and the body, for the number of certificates.
unfoldable pub readyz : ℕ → ℕ × Text
readyz cert_count =
    if cert_count == 0 then (503, txt "No TLS certificates loaded") else (200, txt "Ready")

-- The paths that the health server handles.
unfoldable pub health_paths : Config → List Text
health_paths cfg =
    let paths = txt "/healthz" ∷ txt "/readyz" ∷ [] in
    if cfg.observability.metrics_enabled then paths ++ txt "/metrics" ∷ [] else paths

-- Why `main` ends before it serves; `no_redis_address` is the panic of `cfg.Redis.Addresses[0]`.
pub data Fatal : Type 0 where
  no_configuration no_redis_address no_tls_manager no_spool no_ip_authenticator : Fatal

pub record Running (C : Type 0) : Type 0 where
  pub config : Config
  pub redis_address : Text
  pub retention : List (Stage × ℤ)
  pub ip_auth : Option (IpAuthenticator C)
  pub paths : List Text
  pub servers : List Server

pub data Started (C : Type 0) : Type 0 where
  fatal : Fatal → Started C
  running : Running C → Started C

module _ {I C : Type 0} (net : Net I C) (tls_fails spool_fails : Bool) where
  -- from the TLS manager on
  unfoldable pub start_components : Config → Text → Started C
  unfolding new_ip_auth retention_policy health_paths serve
  start_components cfg redis_address =
      if tls_fails
      then fatal no_tls_manager
      else if spool_fails
      then fatal no_spool
      else (let (err, ip_auth) = new_ip_auth net cfg in
          elim err [
            | some e ↦ fatal no_ip_authenticator
            | none ↦ running (record {
              config = cfg;
              redis_address = redis_address;
              retention = retention_policy cfg;
              ip_auth = ip_auth;
              paths = health_paths cfg;
              servers = map serve cfg.smtp.listeners;
            })
          ])

  -- `main` up to the signal, with what `config.Load` answers
  unfoldable pub start : Loaded → Started C
  unfolding start_components
  start unreadable = fatal no_configuration
  start undecodable = fatal no_configuration
  start (invalid p) = fatal no_configuration
  start (loaded cfg) = elim cfg.redis.addresses [
    | [] ↦ fatal no_redis_address
    | address ∷ more ↦ start_components cfg address
  ]
