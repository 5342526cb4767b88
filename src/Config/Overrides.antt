-- ===== src/Config/Overrides.antt =====
-- The variables that `applyEnvOverrides` of internal/config/config.go reads, each with its field.
pub mod Kinds
use submitter_smtp_daemon.Config.Overrides.Kinds.{
  IsFlag, IsFlag-iff, IsNumber, IsNumber-iff, IsText, IsText-iff, IsTextList, IsTextList-iff,
}
use mathlib.Core.Path.{subst}
use submitter_smtp_daemon.Config.Types.{Config}
use submitter_smtp_daemon.Config.Loading.{
  Environment, apply_env_overrides, override_redis_auth, override_s3,
}
use submitter_smtp_daemon.Prelude.{refl, sym, txt, ◌∙◌, ◌≡◌, ◌↔◌}

-- A configuration with the fields of another one that a variable can set.
abbrev pub with_set_fields : Config → Config → Config
with_set_fields c base = record base {
  server = record base.server { hostname = c.server.hostname };
  smtp = record base.smtp { max_message_size = c.smtp.max_message_size };
  auth = record base.auth {
    redis = record base.auth.redis {
      addresses = c.auth.redis.addresses;
      password = c.auth.redis.password;
    };
  };
  redis = record base.redis { addresses = c.redis.addresses; password = c.redis.password };
  clickhouse = record base.clickhouse {
    addresses = c.clickhouse.addresses;
    password = c.clickhouse.password;
  };
  s3 = record base.s3 {
    enabled = c.s3.enabled;
    endpoint = c.s3.endpoint;
    bucket = c.s3.bucket;
    access_key_id = c.s3.access_key_id;
    secret_access_key = c.s3.secret_access_key;
  };
  database = record base.database { path = c.database.path };
  spool = record base.spool { base_path = c.spool.base_path };
  observability = record base.observability { log_level = c.observability.log_level };
}

-- Each variable decides its field, and no other field changes.
pub record IsOverridden (env : Environment) (base c : Config) : Type 0 where
  pub server_hostname :
      IsText (env (txt "OUTBOUND_SERVER_HOSTNAME")) base.server.hostname c.server.hostname
  pub smtp_max_message_size :
      IsNumber
        (env (txt "OUTBOUND_SMTP_MAX_MESSAGE_SIZE"))
        base.smtp.max_message_size
        c.smtp.max_message_size
  pub auth_redis_addresses :
      IsTextList
        (env (txt "OUTBOUND_REDIS_AUTH_ADDRESSES"))
        base.auth.redis.addresses
        c.auth.redis.addresses
  pub auth_redis_password :
      IsText
        (env (txt "OUTBOUND_REDIS_AUTH_PASSWORD"))
        base.auth.redis.password
        c.auth.redis.password
  pub redis_addresses :
      IsTextList (env (txt "OUTBOUND_REDIS_ADDRESSES")) base.redis.addresses c.redis.addresses
  pub redis_password :
      IsText (env (txt "OUTBOUND_REDIS_PASSWORD")) base.redis.password c.redis.password
  pub clickhouse_addresses :
      IsTextList
        (env (txt "OUTBOUND_CLICKHOUSE_ADDRESSES"))
        base.clickhouse.addresses
        c.clickhouse.addresses
  pub clickhouse_password :
      IsText
        (env (txt "OUTBOUND_CLICKHOUSE_PASSWORD"))
        base.clickhouse.password
        c.clickhouse.password
  pub s3_enabled : IsFlag (env (txt "OUTBOUND_S3_ENABLED")) base.s3.enabled c.s3.enabled
  pub s3_endpoint : IsText (env (txt "OUTBOUND_S3_ENDPOINT")) base.s3.endpoint c.s3.endpoint
  pub s3_bucket : IsText (env (txt "OUTBOUND_S3_BUCKET")) base.s3.bucket c.s3.bucket
  pub s3_access_key_id :
      IsText (env (txt "OUTBOUND_S3_ACCESS_KEY_ID")) base.s3.access_key_id c.s3.access_key_id
  pub s3_secret_access_key :
      IsText
        (env (txt "OUTBOUND_S3_SECRET_ACCESS_KEY"))
        base.s3.secret_access_key
        c.s3.secret_access_key
  pub database_path : IsText (env (txt "OUTBOUND_DATABASE_PATH")) base.database.path c.database.path
  pub spool_base_path :
      IsText (env (txt "OUTBOUND_SPOOL_BASE_PATH")) base.spool.base_path c.spool.base_path
  pub observability_log_level :
      IsText (env (txt "OUTBOUND_LOG_LEVEL")) base.observability.log_level c.observability.log_level
  pub elsewhere : c ≡ with_set_fields c base

module _ (env : Environment) (base : Config) where
  overridden : IsOverridden env base (apply_env_overrides env base)
  unfolding apply_env_overrides override_redis_auth override_s3
  overridden = record {
    server_hostname =
        (IsText-iff (env (txt "OUTBOUND_SERVER_HOSTNAME")) base.server.hostname _).1 refl;
    smtp_max_message_size =
        (IsNumber-iff (env (txt "OUTBOUND_SMTP_MAX_MESSAGE_SIZE")) base.smtp.max_message_size _).1
          refl;
    auth_redis_addresses =
        (IsTextList-iff (env (txt "OUTBOUND_REDIS_AUTH_ADDRESSES")) base.auth.redis.addresses _).1
          refl;
    auth_redis_password =
        (IsText-iff (env (txt "OUTBOUND_REDIS_AUTH_PASSWORD")) base.auth.redis.password _).1 refl;
    redis_addresses =
        (IsTextList-iff (env (txt "OUTBOUND_REDIS_ADDRESSES")) base.redis.addresses _).1 refl;
    redis_password =
        (IsText-iff (env (txt "OUTBOUND_REDIS_PASSWORD")) base.redis.password _).1 refl;
    clickhouse_addresses =
        (IsTextList-iff (env (txt "OUTBOUND_CLICKHOUSE_ADDRESSES")) base.clickhouse.addresses _).1
          refl;
    clickhouse_password =
        (IsText-iff (env (txt "OUTBOUND_CLICKHOUSE_PASSWORD")) base.clickhouse.password _).1 refl;
    s3_enabled = (IsFlag-iff (env (txt "OUTBOUND_S3_ENABLED")) base.s3.enabled _).1 refl;
    s3_endpoint = (IsText-iff (env (txt "OUTBOUND_S3_ENDPOINT")) base.s3.endpoint _).1 refl;
    s3_bucket = (IsText-iff (env (txt "OUTBOUND_S3_BUCKET")) base.s3.bucket _).1 refl;
    s3_access_key_id =
        (IsText-iff (env (txt "OUTBOUND_S3_ACCESS_KEY_ID")) base.s3.access_key_id _).1 refl;
    s3_secret_access_key =
        (IsText-iff (env (txt "OUTBOUND_S3_SECRET_ACCESS_KEY")) base.s3.secret_access_key _).1 refl;
    database_path = (IsText-iff (env (txt "OUTBOUND_DATABASE_PATH")) base.database.path _).1 refl;
    spool_base_path =
        (IsText-iff (env (txt "OUTBOUND_SPOOL_BASE_PATH")) base.spool.base_path _).1 refl;
    observability_log_level =
        (IsText-iff (env (txt "OUTBOUND_LOG_LEVEL")) base.observability.log_level _).1 refl;
    elsewhere = refl;
  }

  is_applied :
      (c : Config) → IsOverridden env base c → with_set_fields c base ≡ apply_env_overrides env base
  unfolding apply_env_overrides override_redis_auth override_s3
  is_applied c h = λ i. record base {
    server = record base.server {
      hostname =
          (IsText-iff (env (txt "OUTBOUND_SERVER_HOSTNAME")) base.server.hostname
              c.server.hostname).0
            h.server_hostname i;
    };
    smtp = record base.smtp {
      max_message_size =
          (IsNumber-iff (env (txt "OUTBOUND_SMTP_MAX_MESSAGE_SIZE")) base.smtp.max_message_size
              c.smtp.max_message_size).0
            h.smtp_max_message_size i;
    };
    auth = record base.auth {
      redis = record base.auth.redis {
        addresses =
            (IsTextList-iff (env (txt "OUTBOUND_REDIS_AUTH_ADDRESSES")) base.auth.redis.addresses
                c.auth.redis.addresses).0
              h.auth_redis_addresses i;
        password =
            (IsText-iff (env (txt "OUTBOUND_REDIS_AUTH_PASSWORD")) base.auth.redis.password
                c.auth.redis.password).0
              h.auth_redis_password i;
      };
    };
    redis = record base.redis {
      addresses =
          (IsTextList-iff (env (txt "OUTBOUND_REDIS_ADDRESSES")) base.redis.addresses
              c.redis.addresses).0
            h.redis_addresses i;
      password =
          (IsText-iff (env (txt "OUTBOUND_REDIS_PASSWORD")) base.redis.password c.redis.password).0
            h.redis_password i;
    };
    clickhouse = record base.clickhouse {
      addresses =
          (IsTextList-iff (env (txt "OUTBOUND_CLICKHOUSE_ADDRESSES")) base.clickhouse.addresses
              c.clickhouse.addresses).0
            h.clickhouse_addresses i;
      password =
          (IsText-iff (env (txt "OUTBOUND_CLICKHOUSE_PASSWORD")) base.clickhouse.password
              c.clickhouse.password).0
            h.clickhouse_password i;
    };
    s3 = record base.s3 {
      enabled =
          (IsFlag-iff (env (txt "OUTBOUND_S3_ENABLED")) base.s3.enabled c.s3.enabled).0 h.s3_enabled
            i;
      endpoint =
          (IsText-iff (env (txt "OUTBOUND_S3_ENDPOINT")) base.s3.endpoint c.s3.endpoint).0
            h.s3_endpoint i;
      bucket =
          (IsText-iff (env (txt "OUTBOUND_S3_BUCKET")) base.s3.bucket c.s3.bucket).0 h.s3_bucket i;
      access_key_id =
          (IsText-iff (env (txt "OUTBOUND_S3_ACCESS_KEY_ID")) base.s3.access_key_id
              c.s3.access_key_id).0
            h.s3_access_key_id i;
      secret_access_key =
          (IsText-iff (env (txt "OUTBOUND_S3_SECRET_ACCESS_KEY")) base.s3.secret_access_key
              c.s3.secret_access_key).0
            h.s3_secret_access_key i;
    };
    database = record base.database {
      path =
          (IsText-iff (env (txt "OUTBOUND_DATABASE_PATH")) base.database.path c.database.path).0
            h.database_path i;
    };
    spool = record base.spool {
      base_path =
          (IsText-iff (env (txt "OUTBOUND_SPOOL_BASE_PATH")) base.spool.base_path
              c.spool.base_path).0
            h.spool_base_path i;
    };
    observability = record base.observability {
      log_level =
          (IsText-iff (env (txt "OUTBOUND_LOG_LEVEL")) base.observability.log_level
              c.observability.log_level).0
            h.observability_log_level i;
    };
  }

  -- applyEnvOverrides sets exactly the fields of the sixteen variables, each by its own.
  pub apply_env_overrides_iff :
      (c : Config) → (c ≡ apply_env_overrides env base) ↔ IsOverridden env base c
  apply_env_overrides_iff c =
      (λ e. subst (IsOverridden env base) (sym e) overridden, λ h. h.elsewhere ∙ is_applied c h)
