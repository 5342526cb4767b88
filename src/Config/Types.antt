-- ===== src/Config/Types.antt =====
-- The configuration of internal/config/config.go. Integers and durations, in nanoseconds, can be
-- negative.
use submitter_smtp_daemon.Prelude.{Bool, List, Text, ℤ}

pub record ServerConfig : Type 0 where
  pub hostname : Text
  pub version : Text

pub record ListenerConfig : Type 0 where
  pub ip : Text
  pub port : ℤ
  pub mode : Text
  pub require_tls : Bool
  pub require_auth : Bool

pub record DsnConfig : Type 0 where
  pub enabled : Bool
  pub max_envid_length : ℤ

pub record SmtpConfig : Type 0 where
  pub listeners : List ListenerConfig
  pub max_message_size : ℤ
  pub max_recipients : ℤ
  pub read_timeout : ℤ
  pub write_timeout : ℤ
  pub dsn : DsnConfig

pub record TlsConfig : Type 0 where
  pub certs_dir : Text
  pub min_version : Text
  pub prefer_server_ciphers : Bool
  pub cipher_suites : List Text

pub record RedisAuthConfig : Type 0 where
  pub enabled : Bool
  pub addresses : List Text
  pub password : Text
  pub db : ℤ
  pub pool_size : ℤ

pub record IpAllowConfig : Type 0 where
  pub enabled : Bool
  pub ips : List Text

pub record AuthConfig : Type 0 where
  pub redis : RedisAuthConfig
  pub ip_allowlist : IpAllowConfig

pub record UserRateLimits : Type 0 where
  pub messages_per_hour : ℤ
  pub recipients_per_hour : ℤ

pub record IpRateLimits : Type 0 where
  pub connections_per_minute : ℤ
  pub failed_auth_per_hour : ℤ

pub record GlobalRateLimits : Type 0 where
  pub messages_per_second : ℤ
  pub concurrent_connections : ℤ

pub record RateLimitConfig : Type 0 where
  pub enabled : Bool
  pub user : UserRateLimits
  pub ip : IpRateLimits
  pub global : GlobalRateLimits

pub record RetentionConfig : Type 0 where
  pub incoming : ℤ
  pub parsed : ℤ
  pub filtered : ℤ
  pub modified : ℤ
  pub signed : ℤ
  pub delivering : ℤ
  pub done : ℤ
  pub failed : ℤ

pub record SpoolConfig : Type 0 where
  pub base_path : Text
  pub retention : RetentionConfig

pub record DeduplicationConfig : Type 0 where
  pub enabled : Bool
  pub window : ℤ
  pub storage : Text

pub record HeaderRule : Type 0 where
  pub name : Text
  pub value : Text

pub record FooterRule : Type 0 where
  pub html : Text
  pub text : Text

pub record ModificationProfile : Type 0 where
  pub name : Text
  pub selector : Text
  pub add_headers : List HeaderRule
  pub inject_footer : FooterRule

pub record ModificationConfig : Type 0 where
  pub enabled : Bool
  pub rules_reload_interval : ℤ
  pub profiles : List ModificationProfile

pub record DkimDomain : Type 0 where
  pub domain : Text
  pub selector : Text
  pub private_key : Text

pub record DkimConfig : Type 0 where
  pub enabled : Bool
  pub keys_dir : Text
  pub canonicalization_header : Text
  pub canonicalization_body : Text
  pub domains : List DkimDomain

pub record OutputValidationConfig : Type 0 where
  pub spf_check : Bool
  pub dkim_verify : Bool

pub record PoolConfig : Type 0 where
  pub enabled : Bool
  pub max_per_host : ℤ
  pub idle_timeout : ℤ

pub record CacheConfig : Type 0 where
  pub enabled : Bool
  pub ttl : ℤ

pub record DeliveryTlsConfig : Type 0 where
  pub enabled : Bool
  pub verify : Bool
  pub min_version : Text

pub record DeliveryConfig : Type 0 where
  pub workers : ℤ
  pub retry_schedule : List ℤ
  pub max_attempts : ℤ
  pub connection_pool : PoolConfig
  pub mx_cache : CacheConfig
  pub tls : DeliveryTlsConfig

pub record DatabaseConfig : Type 0 where
  pub path : Text
  pub max_open_conns : ℤ
  pub max_idle_conns : ℤ
  pub conn_max_lifetime : ℤ

pub record ClickHouseConfig : Type 0 where
  pub addresses : List Text
  pub database : Text
  pub username : Text
  pub password : Text
  pub buffer_size : ℤ
  pub flush_interval : ℤ
  pub retry_max_interval : ℤ
  pub compression : Bool

pub record S3Config : Type 0 where
  pub enabled : Bool
  pub endpoint : Text
  pub region : Text
  pub bucket : Text
  pub access_key_id : Text
  pub secret_access_key : Text
  pub path_prefix : Text
  pub use_ssl : Bool
  pub archive_original : Bool
  pub archive_final : Bool

pub record WorkersConfig : Type 0 where
  pub parse : ℤ
  pub modify : ℤ
  pub sign : ℤ
  pub delivery : ℤ
  pub archive : ℤ

pub record ObservabilityConfig : Type 0 where
  pub log_level : Text
  pub log_format : Text
  pub metrics_enabled : Bool
  pub metrics_listen : Text
  pub health_listen : Text

pub record RedisConfig : Type 0 where
  pub addresses : List Text
  pub password : Text
  pub db : ℤ
  pub pool_size : ℤ
  pub max_retries : ℤ
  pub dial_timeout : ℤ
  pub read_timeout : ℤ
  pub write_timeout : ℤ

pub record Config : Type 0 where
  pub server : ServerConfig
  pub smtp : SmtpConfig
  pub tls : TlsConfig
  pub auth : AuthConfig
  pub rate_limit : RateLimitConfig
  pub spool : SpoolConfig
  pub deduplication : DeduplicationConfig
  pub modification : ModificationConfig
  pub dkim : DkimConfig
  pub output_validation : OutputValidationConfig
  pub delivery : DeliveryConfig
  pub database : DatabaseConfig
  pub clickhouse : ClickHouseConfig
  pub s3 : S3Config
  pub workers : WorkersConfig
  pub observability : ObservabilityConfig
  pub redis : RedisConfig
