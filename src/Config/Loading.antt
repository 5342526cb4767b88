-- ===== src/Config/Loading.antt =====
-- `Load`, `applyEnvOverrides` and `Validate` of internal/config/config.go. The YAML decoder, which
-- writes over a configuration, is a parameter; so are the environment, where an unset variable reads
-- as the empty string, and the result of reading the file.
use submitter_smtp_daemon.Config.Types.{Config, ListenerConfig, RedisAuthConfig, S3Config}
use submitter_smtp_daemon.Config.Defaults.{default_config}
use submitter_smtp_daemon.Prelude.{
  Bool, List, Option, Text, [], false, if◌then◌else◌, leb, leb_ℤ, ltb, negsuc, none, not, pos, some,
  split, text_eq, true, txt, ℕ, ℤ, ◌&&◌, ◌*◌, ◌+◌, ◌-◌, ◌==◌, ◌||◌, ◌∷◌,
}

abbrev pub Environment : Type 0
Environment = Text → Text

-- `strconv.ParseInt(s, 10, 64)`; `none` is an error.
unfoldable pub parse_digits : ℕ → Text → Option ℕ
parse_digits n [] = some n
parse_digits n (c ∷ s) =
    let rest = parse_digits (10 * n + (c - b'0')) s in
    if leb b'0' c && leb c b'9' then rest else none

unfoldable pub parse_unsigned : Text → Option ℕ
unfolding parse_digits
parse_unsigned [] = none
parse_unsigned (c ∷ s) = parse_digits 0 (c ∷ s)

abbrev positive : Option ℕ → Option ℤ
positive none = none
positive (some n) = if ltb n 9_223_372_036_854_775_808 then some (pos n) else none

abbrev negative : Option ℕ → Option ℤ
negative none = none
negative (some n) =
    if n == 0
    then some (pos 0)
    else if leb n 9_223_372_036_854_775_808
    then some (negsuc (n - 1))
    else none

unfoldable pub parse_int : Text → Option ℤ
unfolding parse_unsigned
parse_int [] = none
parse_int (c ∷ s) =
    if c == b'+'
    then positive (parse_unsigned s)
    else if c == b'-'
    then negative (parse_unsigned s)
    else positive (parse_unsigned (c ∷ s))

-- `if v := os.Getenv(...); v != "" { field = v }`, and the same for lists, numbers and flags
unfoldable pub override : Text → Text → Text
override [] old = old
override (c ∷ v) old = c ∷ v

unfoldable pub override_list : Text → List Text → List Text
unfolding split
override_list [] old = old
override_list (c ∷ v) old = split b',' (c ∷ v)

abbrev pub or_old : Option ℤ → ℤ → ℤ
or_old none old = old
or_old (some n) old = n

unfoldable pub override_int : Text → ℤ → ℤ
unfolding parse_int
override_int [] old = old
override_int (c ∷ v) old = or_old (parse_int (c ∷ v)) old

unfoldable pub override_bool : Text → Bool → Bool
override_bool [] old = old
override_bool (c ∷ v) old = text_eq (c ∷ v) (txt "true")

unfoldable pub override_redis_auth : Environment → RedisAuthConfig → RedisAuthConfig
unfolding override override_list
override_redis_auth env r = record r {
  addresses = override_list (env (txt "OUTBOUND_REDIS_AUTH_ADDRESSES")) r.addresses;
  password = override (env (txt "OUTBOUND_REDIS_AUTH_PASSWORD")) r.password;
}

unfoldable pub override_s3 : Environment → S3Config → S3Config
unfolding override override_bool
override_s3 env s = record s {
  enabled = override_bool (env (txt "OUTBOUND_S3_ENABLED")) s.enabled;
  endpoint = override (env (txt "OUTBOUND_S3_ENDPOINT")) s.endpoint;
  bucket = override (env (txt "OUTBOUND_S3_BUCKET")) s.bucket;
  access_key_id = override (env (txt "OUTBOUND_S3_ACCESS_KEY_ID")) s.access_key_id;
  secret_access_key = override (env (txt "OUTBOUND_S3_SECRET_ACCESS_KEY")) s.secret_access_key;
}

unfoldable pub apply_env_overrides : Environment → Config → Config
unfolding override override_list override_int override_redis_auth override_s3
apply_env_overrides env c = record c {
  server = record c.server {
    hostname = override (env (txt "OUTBOUND_SERVER_HOSTNAME")) c.server.hostname;
  };
  smtp = record c.smtp {
    max_message_size =
        override_int (env (txt "OUTBOUND_SMTP_MAX_MESSAGE_SIZE")) c.smtp.max_message_size;
  };
  auth = record c.auth { redis = override_redis_auth env c.auth.redis };
  redis = record c.redis {
    addresses = override_list (env (txt "OUTBOUND_REDIS_ADDRESSES")) c.redis.addresses;
    password = override (env (txt "OUTBOUND_REDIS_PASSWORD")) c.redis.password;
  };
  clickhouse = record c.clickhouse {
    addresses = override_list (env (txt "OUTBOUND_CLICKHOUSE_ADDRESSES")) c.clickhouse.addresses;
    password = override (env (txt "OUTBOUND_CLICKHOUSE_PASSWORD")) c.clickhouse.password;
  };
  s3 = override_s3 env c.s3;
  database = record c.database {
    path = override (env (txt "OUTBOUND_DATABASE_PATH")) c.database.path;
  };
  spool = record c.spool {
    base_path = override (env (txt "OUTBOUND_SPOOL_BASE_PATH")) c.spool.base_path;
  };
  observability = record c.observability {
    log_level = override (env (txt "OUTBOUND_LOG_LEVEL")) c.observability.log_level;
  };
}

-- The errors of `Validate`; a listener is named by its index.
pub data Problem : Type 0 where
  hostname_required listener_required : Problem
  invalid_port : ℕ → ℤ → Problem
  invalid_mode : ℕ → Text → Problem
  max_message_size_not_positive redis_addresses_required : Problem
  base_path_required database_path_required clickhouse_database_required : Problem

abbrev pub is_mode : Text → Bool
is_mode m =
    text_eq m (txt "starttls") || text_eq m (txt "implicit_tls") || text_eq m (txt "plaintext")

unfoldable pub check_listeners : ℕ → List ListenerConfig → Option Problem
check_listeners i [] = none
check_listeners i (l ∷ ls) =
    let rest = check_listeners (i + 1) ls in
    if leb_ℤ l.port (pos 0) || not (leb_ℤ l.port (pos 65535))
    then some (invalid_port i l.port)
    else if not (is_mode l.mode)
    then some (invalid_mode i l.mode)
    else rest

abbrev pub is_empty : {A : Type 0} → List A → Bool
is_empty [] = true
is_empty (x ∷ xs) = false

-- `Validate` after the loop over the listeners
unfoldable pub validate_rest : Config → Option Problem
validate_rest c =
    if leb_ℤ c.smtp.max_message_size (pos 0)
    then some max_message_size_not_positive
    else if c.auth.redis.enabled && is_empty c.auth.redis.addresses
    then some redis_addresses_required
    else if is_empty c.spool.base_path
    then some base_path_required
    else if is_empty c.database.path
    then some database_path_required
    else if is_empty c.clickhouse.database
    then some clickhouse_database_required
    else none

unfoldable pub validate : Config → Option Problem
unfolding check_listeners validate_rest
validate c =
    if is_empty c.server.hostname
    then some hostname_required
    else if is_empty c.smtp.listeners
    then some listener_required
    else elim (check_listeners 0 c.smtp.listeners) [ some p ↦ some p | none ↦ validate_rest c ]

pub data Loaded : Type 0 where
  loaded : Config → Loaded
  unreadable undecodable : Loaded
  invalid : Problem → Loaded

-- the end of `Load`
unfoldable pub validated : Config → Loaded
unfolding validate
validated cfg = elim (validate cfg) [ some p ↦ invalid p | none ↦ loaded cfg ]

unfoldable pub load :
    (List ℕ → Config → Option Config) → Environment → Option (List ℕ) → Text → Loaded
unfolding validated apply_env_overrides default_config
load unmarshal env file path =
    if is_empty path then validated (apply_env_overrides env default_config) else elim file [
      | none ↦ unreadable
      | some bytes ↦ elim (unmarshal bytes default_config) [
        | none ↦ undecodable
        | some cfg ↦ validated (apply_env_overrides env cfg)
      ]
    ]
