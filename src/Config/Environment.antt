-- ===== src/Config/Environment.antt =====
-- `applyEnvOverrides` of internal/config/config.go: what the environment does to a configuration.
use submitter_smtp_daemon.Config.Types.{Config, RedisAuthConfig, S3Config}
use submitter_smtp_daemon.Config.Loading.{
  or_old, apply_env_overrides, Environment, override, override_bool, override_int, override_list,
  override_redis_auth, override_s3, parse_int,
}
use submitter_smtp_daemon.Prelude.{Option, none, some, Bool, List, Text, [], refl, txt, ℤ, ◌∷◌, ◌≡◌}

override_idem : (v old : Text) → override v (override v old) ≡ override v old
unfolding override
override_idem [] old = refl
override_idem (c ∷ v) old = refl

override_list_idem :
    (v : Text) (old : List Text) → override_list v (override_list v old) ≡ override_list v old
unfolding override_list
override_list_idem [] old = refl
override_list_idem (c ∷ v) old = refl

override_bool_idem :
    (v : Text) (old : Bool) → override_bool v (override_bool v old) ≡ override_bool v old
unfolding override_bool
override_bool_idem [] old = refl
override_bool_idem (c ∷ v) old = refl

or_old_idem : (n : Option ℤ) (old : ℤ) → or_old n (or_old n old) ≡ or_old n old
or_old_idem none old = refl
or_old_idem (some n) old = refl

override_int_idem : (v : Text) (old : ℤ) → override_int v (override_int v old) ≡ override_int v old
unfolding override_int
override_int_idem [] old = refl
override_int_idem (c ∷ v) old = or_old_idem (parse_int (c ∷ v)) old

module _ (env : Environment) where
  override_redis_auth_idem :
      (r : RedisAuthConfig)
      → override_redis_auth env (override_redis_auth env r) ≡ override_redis_auth env r
  unfolding override_redis_auth
  override_redis_auth_idem r = λ i. record (override_redis_auth env r) {
    addresses = override_list_idem (env (txt "OUTBOUND_REDIS_AUTH_ADDRESSES")) r.addresses i;
    password = override_idem (env (txt "OUTBOUND_REDIS_AUTH_PASSWORD")) r.password i;
  }

  override_s3_idem : (s : S3Config) → override_s3 env (override_s3 env s) ≡ override_s3 env s
  unfolding override_s3
  override_s3_idem s = λ i. record s {
    enabled = override_bool_idem (env (txt "OUTBOUND_S3_ENABLED")) s.enabled i;
    endpoint = override_idem (env (txt "OUTBOUND_S3_ENDPOINT")) s.endpoint i;
    bucket = override_idem (env (txt "OUTBOUND_S3_BUCKET")) s.bucket i;
    access_key_id = override_idem (env (txt "OUTBOUND_S3_ACCESS_KEY_ID")) s.access_key_id i;
    secret_access_key =
        override_idem (env (txt "OUTBOUND_S3_SECRET_ACCESS_KEY")) s.secret_access_key i;
  }

  -- Applying the environment a second time changes nothing: every variable decides the value of its
  -- field alone, or leaves it as it is.
  pub apply_env_overrides_idem :
      (c : Config) → apply_env_overrides env (apply_env_overrides env c) ≡ apply_env_overrides env c
  unfolding apply_env_overrides
  apply_env_overrides_idem c = λ i. record c {
    server = record c.server {
      hostname = override_idem (env (txt "OUTBOUND_SERVER_HOSTNAME")) c.server.hostname i;
    };
    smtp = record c.smtp {
      max_message_size =
          override_int_idem (env (txt "OUTBOUND_SMTP_MAX_MESSAGE_SIZE")) c.smtp.max_message_size i;
    };
    auth = record c.auth { redis = override_redis_auth_idem c.auth.redis i };
    redis = record c.redis {
      addresses = override_list_idem (env (txt "OUTBOUND_REDIS_ADDRESSES")) c.redis.addresses i;
      password = override_idem (env (txt "OUTBOUND_REDIS_PASSWORD")) c.redis.password i;
    };
    clickhouse = record c.clickhouse {
      addresses =
          override_list_idem (env (txt "OUTBOUND_CLICKHOUSE_ADDRESSES")) c.clickhouse.addresses i;
      password = override_idem (env (txt "OUTBOUND_CLICKHOUSE_PASSWORD")) c.clickhouse.password i;
    };
    s3 = override_s3_idem c.s3 i;
    database = record c.database {
      path = override_idem (env (txt "OUTBOUND_DATABASE_PATH")) c.database.path i;
    };
    spool = record c.spool {
      base_path = override_idem (env (txt "OUTBOUND_SPOOL_BASE_PATH")) c.spool.base_path i;
    };
    observability = record c.observability {
      log_level = override_idem (env (txt "OUTBOUND_LOG_LEVEL")) c.observability.log_level i;
    };
  }
