-- ===== src/Config/Defaults.antt =====
-- `DefaultConfig` of internal/config/config.go; a field that it does not set has its zero value.
use submitter_smtp_daemon.Config.Types.{Config}
use submitter_smtp_daemon.Prelude.{[], false, pos, true, txt, ◌∷◌}

unfoldable pub default_config : Config
default_config = record {
  server = record { hostname = txt "localhost"; version = txt "1.0.0" };
  smtp = record {
    listeners =
        record {
          ip = txt "0.0.0.0";
          port = pos 587;
          mode = txt "starttls";
          require_tls = true;
          require_auth = true;
        }
        ∷ [];
    max_message_size = pos 52_428_800;
    max_recipients = pos 100;
    read_timeout = pos 120_000_000_000;
    write_timeout = pos 120_000_000_000;
    dsn = record { enabled = true; max_envid_length = pos 100 };
  };
  tls = record {
    certs_dir = txt "./certs";
    min_version = txt "1.2";
    prefer_server_ciphers = true;
    cipher_suites = [];
  };
  auth = record {
    redis = record {
      enabled = true;
      addresses = txt "localhost:6379" ∷ [];
      password = [];
      db = pos 0;
      pool_size = pos 10;
    };
    ip_allowlist = record { enabled = false; ips = [] };
  };
  rate_limit = record {
    enabled = true;
    user = record { messages_per_hour = pos 1_000; recipients_per_hour = pos 10_000 };
    ip = record { connections_per_minute = pos 60; failed_auth_per_hour = pos 10 };
    global = record { messages_per_second = pos 100; concurrent_connections = pos 1_000 };
  };
  spool = record {
    base_path = txt "/var/spool/outbound";
    retention = record {
      incoming = pos 3_600_000_000_000;
      parsed = pos 3_600_000_000_000;
      filtered = pos 3_600_000_000_000;
      modified = pos 3_600_000_000_000;
      signed = pos 3_600_000_000_000;
      delivering = pos 86_400_000_000_000;
      done = pos 86_400_000_000_000;
      failed = pos 604_800_000_000_000;
    };
  };
  deduplication = record { enabled = true; window = pos 86_400_000_000_000; storage = txt "redis" };
  modification = record {
    enabled = false;
    rules_reload_interval = pos 30_000_000_000;
    profiles = [];
  };
  dkim = record {
    enabled = true;
    keys_dir = txt "./dkim";
    canonicalization_header = txt "relaxed";
    canonicalization_body = txt "relaxed";
    domains = [];
  };
  output_validation = record { spf_check = false; dkim_verify = true };
  delivery = record {
    workers = pos 16;
    retry_schedule =
        pos 60_000_000_000
        ∷ pos 300_000_000_000
        ∷ pos 900_000_000_000
        ∷ pos 3_600_000_000_000
        ∷ pos 14_400_000_000_000
        ∷ pos 28_800_000_000_000
        ∷ pos 86_400_000_000_000
        ∷ [];
    max_attempts = pos 7;
    connection_pool = record {
      enabled = true;
      max_per_host = pos 10;
      idle_timeout = pos 300_000_000_000;
    };
    mx_cache = record { enabled = true; ttl = pos 3_600_000_000_000 };
    tls = record { enabled = true; verify = true; min_version = txt "1.2" };
  };
  database = record {
    path = txt "./queue.db";
    max_open_conns = pos 25;
    max_idle_conns = pos 5;
    conn_max_lifetime = pos 300_000_000_000;
  };
  clickhouse = record {
    addresses = txt "localhost:9000" ∷ [];
    database = txt "outbound";
    username = txt "default";
    password = [];
    buffer_size = pos 100;
    flush_interval = pos 10_000_000_000;
    retry_max_interval = pos 300_000_000_000;
    compression = true;
  };
  s3 = record {
    enabled = false;
    endpoint = [];
    region = txt "us-east-1";
    bucket = txt "outbound-archive";
    access_key_id = [];
    secret_access_key = [];
    path_prefix = txt "emails";
    use_ssl = true;
    archive_original = true;
    archive_final = true;
  };
  workers = record {
    parse = pos 4;
    modify = pos 4;
    sign = pos 4;
    delivery = pos 16;
    archive = pos 4;
  };
  observability = record {
    log_level = txt "info";
    log_format = txt "json";
    metrics_enabled = true;
    metrics_listen = txt ":9090";
    health_listen = txt ":8080";
  };
  redis = record {
    addresses = txt "localhost:6379" ∷ [];
    password = [];
    db = pos 0;
    pool_size = pos 50;
    max_retries = pos 3;
    dial_timeout = pos 5_000_000_000;
    read_timeout = pos 3_000_000_000;
    write_timeout = pos 3_000_000_000;
  };
}
