-- ===== src/Schema.antt =====
-- The tables of internal/db/schema.go that internal/queue uses, and the SQL on them: SELECT with a
-- WHERE clause, UPDATE of one key, lookup by primary key. A time.Time is a number of nanoseconds
-- since Go's zero Time, and `Unix()` is taken as whole seconds from the same origin, so that the
-- zero Time is stored as 0 and no stored time is negative.
use submitter_smtp_daemon.Prelude.{
  Bool, List, Option, Text, [], false, if◌then◌else◌, none, some, text_eq, true, ℕ, ℤ, ◌/◌, ◌∷◌,
}

-- `Time.Unix`, up to the origin.
abbrev pub unix : ℕ → ℕ
unix t = t / 1_000_000_000

pub data DeliveryState : Type 0 where
  queued delivering delivered temp_fail perm_fail : DeliveryState

abbrev pub state_eq : DeliveryState → DeliveryState → Bool
state_eq queued queued = true
state_eq delivering delivering = true
state_eq delivered delivered = true
state_eq temp_fail temp_fail = true
state_eq perm_fail perm_fail = true
state_eq _ _ = false

-- A row of delivery_queue; a nullable column is an Option, times are in seconds.
pub record Row : Type 0 where
  pub dlv_id : Text
  pub msg_id : Text
  pub recipient : Text
  pub mx_hostname : Option Text
  pub mx_ip : Option Text
  pub state : DeliveryState
  pub attempts : ℕ
  pub max_attempts : ℤ
  pub next_attempt : ℕ
  pub last_error : Option Text
  pub smtp_code : Option ℕ
  pub smtp_message : Option Text
  pub created_at : ℕ
  pub updated_at : ℕ
  pub delivered_at : Option ℕ

-- A row of messages: the recipients as JSON, the creation time in seconds.
pub record MessageRow : Type 0 where
  pub msg_id : Text
  pub session_id : Text
  pub auth_user : Text
  pub client_ip : Text
  pub mail_from : Text
  pub rcpt_to : Text
  pub message_size : ℤ
  pub body_hash : Text
  pub dedup_original : Option Text
  pub created_at : ℕ
  pub current_stage : Text
  pub subject : Text
  pub message_id_header : Text
  pub date_header : Text

-- Rows of the tables dkim_keys, sessions and stats_cache, which no code reads or writes yet.
pub record DkimKeyRow : Type 0 where
  pub domain : Text
  pub selector : Text
  pub private_key_path : Text
  pub active : Option ℤ
  pub created_at : ℕ
  pub updated_at : ℕ

pub record SessionRow : Type 0 where
  pub session_id : Text
  pub auth_user : Option Text
  pub client_ip : Text
  pub tls_version : Option Text
  pub tls_cipher : Option Text
  pub started_at : ℕ
  pub ended_at : Option ℕ
  pub messages_sent : Option ℤ

pub record StatsRow : Type 0 where
  pub stat_key : Text
  pub stat_value : Text
  pub updated_at : ℕ

-- The tables that are in use.
pub record Db : Type 0 where
  pub messages : List MessageRow
  pub delivery_queue : List Row

unfoldable pub find_message : Text → List MessageRow → Option MessageRow
find_message id [] = none
find_message id (r ∷ rs) = if text_eq r.msg_id id then some r else find_message id rs

unfoldable pub find_row : Text → List Row → Option Row
find_row id [] = none
find_row id (r ∷ rs) = if text_eq r.dlv_id id then some r else find_row id rs

abbrev pub is_some {ℓ} : {A : Type ℓ} → Option A → Bool
is_some none = false
is_some (some a) = true

unfoldable pub select : (Row → Bool) → List Row → List Row
select p [] = []
select p (r ∷ rs) = let rest = select p rs in if p r then r ∷ rest else rest

unfoldable pub update_where : Text → (Row → Row) → List Row → List Row
update_where id f [] = []
update_where id f (r ∷ rs) = (if text_eq r.dlv_id id then f r else r) ∷ update_where id f rs
