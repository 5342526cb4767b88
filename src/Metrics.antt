-- ===== src/Metrics.antt =====
-- internal/metrics/metrics.go. The Prometheus client is not part of the repository, so the model
-- keeps the calls that are made to it, newest first: which collector, with which label values.
-- Durations are in nanoseconds, sizes in bytes.
pub mod Labels
pub mod Registration
use submitter_smtp_daemon.Prelude.{ℕ, Bool, List, [], ◌∷◌, Text, txt, if◌then◌else◌}

-- The fields of `Metrics`.
pub data Collector : Type 0 where
  connections_total connections_current connection_duration : Collector
  tls_handshakes tls_handshake_errors cert_reloads cert_reload_errors : Collector
  auth_attempts auth_duration : Collector
  messages_accepted messages_rejected message_size : Collector
  stage_total stage_duration : Collector
  dedup_checks dedup_duplicates : Collector
  dkim_signing_total dkim_signing_duration : Collector
  delivery_attempts delivery_duration delivery_queue : Collector
  s3_upload_total s3_upload_duration : Collector
  click_house_events_total click_house_buffer_size : Collector
  rate_limit_hits errors_total bytes_received bytes_sent : Collector

-- The label names that `New` declares for each collector; a plain one has none.
unfoldable pub labels_of : Collector → List Text
labels_of connections_total = txt "listener" ∷ txt "tls_mode" ∷ []
labels_of connection_duration = txt "listener" ∷ []
labels_of auth_attempts = txt "method" ∷ txt "result" ∷ []
labels_of auth_duration = txt "method" ∷ []
labels_of messages_accepted = txt "user" ∷ []
labels_of messages_rejected = txt "reason" ∷ []
labels_of message_size = txt "user" ∷ []
labels_of stage_total = txt "stage" ∷ []
labels_of stage_duration = txt "stage" ∷ []
labels_of dkim_signing_total = txt "domain" ∷ txt "result" ∷ []
labels_of delivery_attempts = txt "result" ∷ []
labels_of delivery_duration = txt "mx_domain" ∷ []
labels_of s3_upload_total = txt "status" ∷ []
labels_of click_house_events_total = txt "status" ∷ []
labels_of rate_limit_hits = txt "type" ∷ txt "identifier" ∷ []
labels_of errors_total = txt "component" ∷ txt "error_type" ∷ []
labels_of _ = []

-- `WithLabelValues(ls...)` followed by `Inc`, `Dec`, `Add`, `Set` or `Observe`.
pub data Call : Type 0 where
  inc dec : Collector → List Text → Call
  add set observe : Collector → List Text → ℕ → Call

abbrev pub Metrics : Type 0
Metrics = List Call

unfoldable pub record_connection : Text → Text → Metrics → Metrics
record_connection listener tls_mode m =
    inc connections_current [] ∷ inc connections_total (listener ∷ tls_mode ∷ []) ∷ m

unfoldable pub record_connection_close : Text → ℕ → Metrics → Metrics
record_connection_close listener duration m =
    observe connection_duration (listener ∷ []) duration ∷ dec connections_current [] ∷ m

unfoldable pub record_auth_attempt : Text → Text → ℕ → Metrics → Metrics
record_auth_attempt method result duration m =
    observe auth_duration (method ∷ []) duration ∷ inc auth_attempts (method ∷ result ∷ []) ∷ m

unfoldable pub record_message_accepted : Text → ℕ → Metrics → Metrics
record_message_accepted user size m =
    add bytes_received [] size
    ∷ observe message_size (user ∷ []) size
    ∷ inc messages_accepted (user ∷ [])
    ∷ m

unfoldable pub record_message_rejected : Text → Metrics → Metrics
record_message_rejected reason m = inc messages_rejected (reason ∷ []) ∷ m

unfoldable pub record_stage : Text → ℕ → Metrics → Metrics
record_stage stage duration m =
    observe stage_duration (stage ∷ []) duration ∷ inc stage_total (stage ∷ []) ∷ m

unfoldable pub record_dedup_check : Bool → Metrics → Metrics
record_dedup_check is_duplicate m =
    let m' = inc dedup_checks [] ∷ m in if is_duplicate then inc dedup_duplicates [] ∷ m' else m'

unfoldable pub record_dkim_signing : Text → Text → ℕ → Metrics → Metrics
record_dkim_signing domain result duration m =
    observe dkim_signing_duration [] duration ∷ inc dkim_signing_total (domain ∷ result ∷ []) ∷ m

unfoldable pub record_delivery : Text → Text → ℕ → Metrics → Metrics
record_delivery result mx_domain duration m =
    observe delivery_duration (mx_domain ∷ []) duration ∷ inc delivery_attempts (result ∷ []) ∷ m

unfoldable pub record_s3_upload : Text → ℕ → Metrics → Metrics
record_s3_upload status duration m =
    observe s3_upload_duration [] duration ∷ inc s3_upload_total (status ∷ []) ∷ m

unfoldable pub record_click_house_event : Text → Metrics → Metrics
record_click_house_event status m = inc click_house_events_total (status ∷ []) ∷ m

unfoldable pub record_rate_limit_hit : Text → Text → Metrics → Metrics
record_rate_limit_hit limit_type identifier m =
    inc rate_limit_hits (limit_type ∷ identifier ∷ []) ∷ m

unfoldable pub record_error : Text → Text → Metrics → Metrics
record_error component error_type m = inc errors_total (component ∷ error_type ∷ []) ∷ m

unfoldable pub set_delivery_queue_size : ℕ → Metrics → Metrics
set_delivery_queue_size size m = set delivery_queue [] size ∷ m

unfoldable pub set_click_house_buffer_size : ℕ → Metrics → Metrics
set_click_house_buffer_size size m = set click_house_buffer_size [] size ∷ m
