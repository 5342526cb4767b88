-- ===== src/ClickHouse/Events.antt =====
-- The event record of internal/clickhouse/client.go, and its zero value. Numbers that the code
-- leaves at 0 or sets from counts and codes are natural; times are in nanoseconds.
use submitter_smtp_daemon.Prelude.{ℕ, Bool, false, List, [], Text}

pub record Event : Type 0 where
  pub event_id : Text
  pub event_time : ℕ
  pub msg_id : Text
  pub session_id : Text
  pub client_ip : Text
  pub client_port : ℕ
  pub client_rdns : Text
  pub listener_ip : Text
  pub listener_port : ℕ
  pub tls_version : Text
  pub tls_cipher : Text
  pub sni_hostname : Text
  pub tls_mode : Text
  pub auth_user : Text
  pub auth_method : Text
  pub auth_result : Text
  pub auth_duration : ℕ
  pub mail_from : Text
  pub rcpt_to : List Text
  pub message_size : ℕ
  pub subject : Text
  pub message_id : Text
  pub date : Text
  pub from_header : Text
  pub to_header : Text
  pub stage : Text
  pub stage_duration : ℕ
  pub body_hash : Text
  pub dedup_duplicate : Bool
  pub dedup_original_msg_id : Text
  pub dkim_enabled : Bool
  pub dkim_signed : Bool
  pub dkim_selector : Text
  pub dkim_domain : Text
  pub dkim_result : Text
  pub dkim_error : Text
  pub modified : Bool
  pub modification_profile : Text
  pub headers_added : List Text
  pub headers_removed : List Text
  pub recipient : Text
  pub mx_hostname : Text
  pub mx_ip : Text
  pub mx_port : ℕ
  pub smtp_code : ℕ
  pub smtp_message : Text
  pub delivery_duration : ℕ
  pub delivery_result : Text
  pub delivery_attempt : ℕ
  pub next_retry_time : ℕ
  pub dsn_ret : Text
  pub dsn_envid : Text
  pub dsn_notify : List Text
  pub dsn_orcpt : Text
  pub total_duration : ℕ
  pub queue_wait : ℕ
  pub rate_limited : Bool
  pub rate_limit_type : Text
  pub error_occurred : Bool
  pub error_message : Text
  pub error_code : Text
  pub tags : List Text
  pub custom_fields : List (Text × Text)

-- Fields that a composite literal leaves out have their zero values.
abbrev pub zero_event : Event
zero_event = record {
  event_id = [];
  event_time = 0;
  msg_id = [];
  session_id = [];
  client_ip = [];
  client_port = 0;
  client_rdns = [];
  listener_ip = [];
  listener_port = 0;
  tls_version = [];
  tls_cipher = [];
  sni_hostname = [];
  tls_mode = [];
  auth_user = [];
  auth_method = [];
  auth_result = [];
  auth_duration = 0;
  mail_from = [];
  rcpt_to = [];
  message_size = 0;
  subject = [];
  message_id = [];
  date = [];
  from_header = [];
  to_header = [];
  stage = [];
  stage_duration = 0;
  body_hash = [];
  dedup_duplicate = false;
  dedup_original_msg_id = [];
  dkim_enabled = false;
  dkim_signed = false;
  dkim_selector = [];
  dkim_domain = [];
  dkim_result = [];
  dkim_error = [];
  modified = false;
  modification_profile = [];
  headers_added = [];
  headers_removed = [];
  recipient = [];
  mx_hostname = [];
  mx_ip = [];
  mx_port = 0;
  smtp_code = 0;
  smtp_message = [];
  delivery_duration = 0;
  delivery_result = [];
  delivery_attempt = 0;
  next_retry_time = 0;
  dsn_ret = [];
  dsn_envid = [];
  dsn_notify = [];
  dsn_orcpt = [];
  total_duration = 0;
  queue_wait = 0;
  rate_limited = false;
  rate_limit_type = [];
  error_occurred = false;
  error_message = [];
  error_code = [];
  tags = [];
  custom_fields = [];
}
