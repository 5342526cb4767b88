-- ===== src/Ratelimit.antt =====
-- internal/ratelimit/ratelimit.go. Redis is not part of the repository: what its commands answer and
-- do is a parameter. Times and durations are in nanoseconds; the clock is an argument.
pub mod Window
pub mod Verdicts
pub mod Cleaner
pub mod Connections
use submitter_smtp_daemon.Prelude.{
  Bool, List, Option, Text, [], false, if◌then◌else◌, leb_ℤ, ltb, none, pos, some, text_eq, true,
  txt, ℕ, ℤ, ◌*◌, ◌++◌, ◌+ℤ◌, ◌+◌, ◌-ℤ◌, ◌∷◌,
}
use submitter_smtp_daemon.Metrics.{Metrics, record_rate_limit_hit}

-- The Redis commands that the limiter sends, over the state of the server. `none` is an error.
pub record Redis (S : Type 0) : Type 0 where
  -- the pipeline INCR key, EXPIRE key window: the new count
  pub incr_expire : Text → ℕ → S → Option ℤ × S
  -- GET key
  pub get : Text → S → Option Text
  -- the pipeline INCRBY key count, EXPIRE key window: whether it worked
  pub incr_by_expire : Text → ℤ → ℕ → S → Bool × S
  -- the number that `fmt.Sscanf(s, "%d", &n)` leaves in n, which was 0
  pub scan_int : Text → ℤ

pub record Bucket : Type 0 where
  pub count : ℕ
  pub reset_time : ℕ

abbrev pub Buckets : Type 0
Buckets = List (Text × Bucket)

unfoldable pub find_bucket : Text → Buckets → Option Bucket
find_bucket key [] = none
find_bucket key ((k, b) ∷ bs) = if text_eq k key then some b else find_bucket key bs

unfoldable pub set_bucket : Text → Bucket → Buckets → Buckets
set_bucket key new [] = (key, new) ∷ []
set_bucket key new ((k, b) ∷ bs) =
    let rest = set_bucket key new bs in if text_eq k key then (k, new) ∷ bs else (k, b) ∷ rest

pub record Limiter (S : Type 0) : Type 0 where
  pub user_messages_per_hour : ℤ
  pub user_recipients_per_hour : ℤ
  pub ip_connections_per_minute : ℤ
  pub ip_failed_auth_per_hour : ℤ
  pub global_messages_per_second : ℤ
  pub global_concurrent_conns : ℤ
  pub local_buckets : Buckets
  pub current_connections : ℤ
  pub metrics : Metrics
  pub server : S

abbrev second : ℕ
second = 1_000_000_000

abbrev pub minute : ℕ
minute = 60_000_000_000

abbrev pub hour : ℕ
hour = 3_600_000_000_000

-- the bucket that a call at `now` counts in
unfoldable pub current_bucket : ℕ → ℕ → Option Bucket → Bucket
current_bucket window now none = record { count = 0; reset_time = now + window }
current_bucket window now (some b) =
    if ltb b.reset_time now then record { count = 0; reset_time = now + window } else b

unfoldable pub check_local_limit : Text → ℤ → ℕ → ℕ → Buckets → Bool × Buckets
check_local_limit key limit window now buckets =
    let b = current_bucket window now (find_bucket key buckets) in
    (leb_ℤ (pos (b.count + 1)) limit, set_bucket key (record b { count = b.count + 1 }) buckets)

unfoldable pub cleanup_local_buckets : ℕ → Buckets → Buckets
cleanup_local_buckets now [] = []
cleanup_local_buckets now ((key, b) ∷ bs) =
    let rest = cleanup_local_buckets now bs in
    if ltb (b.reset_time + 5 * minute) now then rest else (key, b) ∷ rest

-- Why a check refuses.
pub data Error : Type 0 where
  global_connection_limit : Error
  connection_rate_limit failed_auth_rate_limit : Text → Error
  message_rate_limit recipient_rate_limit : Text → Error
  global_message_rate_limit : Error

module _ {S : Type 0} (redis : Redis S) where
  unfoldable pub check_redis_limit : Text → ℤ → ℕ → S → Option Bool × S
  check_redis_limit key limit window s =
      let (reply, s') = redis.incr_expire key window s in
      (elim reply [ none ↦ none | some count ↦ some (leb_ℤ count limit) ], s')

  -- the Redis check, or the local one where Redis reports an error
  unfoldable pub check_limit : Text → ℤ → ℕ → ℕ → Limiter S → Bool × Limiter S
  unfolding check_redis_limit check_local_limit
  check_limit key limit window now l =
      let (answer, s') = check_redis_limit key limit window l.server in
      let (allowed, buckets) = check_local_limit key limit window now l.local_buckets in
      elim answer [
        | some verdict ↦ (verdict, record l { server = s' })
        | none ↦ (allowed, record l { server = s'; local_buckets = buckets })
      ]

  -- a refusal is counted in the metrics
  unfoldable pub conclude : Text → Text → Error → Bool × Limiter S → Option Error × Limiter S
  conclude type identifier e (true, l) = (none, l)
  conclude type identifier e (false, l) =
      (some e, record l { metrics = record_rate_limit_hit type identifier l.metrics })

  unfoldable pub check_ip_connection : Text → ℕ → Limiter S → Option Error × Limiter S
  unfolding check_limit conclude
  check_ip_connection ip now l =
      if leb_ℤ l.global_concurrent_conns l.current_connections
      then conclude (txt "global") (txt "concurrent_connections") global_connection_limit (false, l)
      else conclude (txt "ip") ip (connection_rate_limit ip)
          (check_limit (txt "ratelimit:ip:conn:" ++ ip) l.ip_connections_per_minute minute now l)

  unfoldable pub increment_connection : Limiter S → Limiter S
  increment_connection l = record l { current_connections = l.current_connections +ℤ pos 1 }

  unfoldable pub decrement_connection : Limiter S → Limiter S
  decrement_connection l = record l { current_connections = l.current_connections -ℤ pos 1 }

  unfoldable pub check_ip_failed_auth : Text → ℕ → Limiter S → Option Error × Limiter S
  unfolding check_limit conclude
  check_ip_failed_auth ip now l =
      conclude (txt "ip_auth") ip (failed_auth_rate_limit ip)
        (check_limit (txt "ratelimit:ip:auth:" ++ ip) l.ip_failed_auth_per_hour hour now l)

  unfoldable pub check_user_messages : Text → ℕ → Limiter S → Option Error × Limiter S
  unfolding check_limit conclude
  check_user_messages user now l =
      conclude (txt "user_messages") user (message_rate_limit user)
        (check_limit (txt "ratelimit:user:msg:" ++ user) l.user_messages_per_hour hour now l)

  -- `current` stays 0 where GET reports an error
  unfoldable pub recipients_so_far : Text → S → ℤ
  recipients_so_far key s = elim (redis.get key s) [
    | none ↦ pos 0
    | some text ↦ redis.scan_int text
  ]

  unfoldable pub check_user_recipients : Text → ℕ → Limiter S → Option Error × Limiter S
  unfolding recipients_so_far conclude
  check_user_recipients user count l =
      let key = txt "ratelimit:user:rcpt:" ++ user in
      if leb_ℤ (recipients_so_far key l.server +ℤ pos count) l.user_recipients_per_hour
      then (none, record l { server = (redis.incr_by_expire key (pos count) hour l.server).1 })
      else conclude (txt "user_recipients") user (recipient_rate_limit user) (false, l)

  unfoldable pub check_global_messages : ℕ → Limiter S → Option Error × Limiter S
  unfolding check_limit conclude
  check_global_messages now l =
      conclude (txt "global") (txt "messages") global_message_rate_limit
        (check_limit (txt "ratelimit:global:msg") l.global_messages_per_second second now l)

  unfoldable pub get_current_connections : Limiter S → ℤ
  get_current_connections l = l.current_connections
