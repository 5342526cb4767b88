-- ===== src/ClickHouse.antt =====
-- internal/clickhouse/client.go: the buffered event client. `mu`-protected sections are single
-- steps; a flush goroutine is a batch that was copied out of the buffer and still has to be logged.
-- Times and durations are in nanoseconds.
pub mod Events
pub mod Conservation
pub mod Lifecycle
pub mod Draining
pub mod Late
use submitter_smtp_daemon.Prelude.{
  ℕ, zero, suc, ◌+◌, ◌/◌, List, [], ◌∷◌, ◌++◌, Text, txt, length, leb, if◌then◌else◌, Option, none,
  some,
}
use submitter_smtp_daemon.Metrics.{Metrics, record_click_house_event, set_click_house_buffer_size}
use Events.{Event, zero_event}

-- `flushing` counts the goroutines that `go c.flush()` has started and that have not yet taken the
-- lock; `batches` are the copies that running flushes hold, and `logged` is their output.
pub record Client : Type 0 where
  pub buffer_size : ℕ
  pub buffer : List Event
  pub flushing : ℕ
  pub batches : List (List Event)
  pub logged : List Event
  pub metrics : Metrics

unfoldable pub new : ℕ → Metrics → Client
new buffer_size metrics = record {
  buffer_size = buffer_size;
  buffer = [];
  flushing = 0;
  batches = [];
  logged = [];
  metrics = metrics;
}

-- `LogEvent`
unfoldable pub log_event : Event → Client → Client
log_event event c =
    let buffer = c.buffer ++ event ∷ [] in
    let c' = record c {
      buffer = buffer;
      metrics = set_click_house_buffer_size (length buffer) c.metrics;
    } in
    if leb c.buffer_size (length buffer) then record c' { flushing = c.flushing + 1 } else c'

-- `flush` up to the end of its critical section: the buffer is copied and emptied
unfoldable pub flush_take : Client → Client
flush_take c = elim c.buffer [
  | [] ↦ c
  | e ∷ es ↦ record c { buffer = []; batches = c.batches ++ (e ∷ es) ∷ [] }
]

-- the i-th batch, without the event at its head
unfoldable pub pop_batch : List (List Event) → ℕ → Option (Event × List (List Event))
pop_batch [] i = none
pop_batch ([] ∷ bs) zero = none
pop_batch ((e ∷ es) ∷ bs) zero = some (e, es ∷ bs)
pop_batch (b ∷ bs) (suc i) = elim (pop_batch bs i) [
  | none ↦ none
  | some (e, bs') ↦ some (e, b ∷ bs')
]

-- one round of the loop of `flush`, in the flush that holds the i-th batch
unfoldable pub flush_log : ℕ → Client → Client
flush_log i c = elim (pop_batch c.batches i) [
  | none ↦ c
  | some (e, batches) ↦ record c {
    batches = batches;
    logged = c.logged ++ e ∷ [];
    metrics = record_click_house_event (txt "success") c.metrics;
  }
]

-- What can happen to the client: a call of `LogEvent`, a flush that `LogEvent` started takes the
-- lock, the ticker or `Close` makes the flush worker take it, or a running flush logs one event.
pub data Step : Type 0 where
  call : Event → Step
  started : Step
  tick : Step
  emit : ℕ → Step

unfoldable pub step : Client → Step → Client
unfolding log_event flush_take flush_log
step c (call e) = log_event e c
step c started = elim c.flushing [ zero ↦ c | suc n ↦ flush_take (record c { flushing = n }) ]
step c tick = flush_take c
step c (emit i) = flush_log i c

unfoldable pub run : Client → List Step → Client
run c [] = c
run c (s ∷ ss) = run (step c s) ss

-- `GetBufferSize`
unfoldable pub get_buffer_size : Client → ℕ
get_buffer_size c = length c.buffer

abbrev pub milliseconds : ℕ → ℕ
milliseconds duration = duration / 1_000_000

unfoldable pub log_connection_event :
    Text → Text → Text → Text → Text → Text → ℕ → ℕ → Client → Client
log_connection_event session_id client_ip tls_version tls_cipher sni_hostname tls_mode listener_port
      now =
    log_event (record zero_event {
      event_id = session_id ++ txt "-conn";
      event_time = now;
      session_id = session_id;
      client_ip = client_ip;
      tls_version = tls_version;
      tls_cipher = tls_cipher;
      sni_hostname = sni_hostname;
      tls_mode = tls_mode;
      listener_port = listener_port;
      stage = txt "connection";
    })

unfoldable pub log_auth_event : Text → Text → Text → Text → ℕ → ℕ → Client → Client
log_auth_event session_id auth_user auth_method auth_result duration now =
    log_event (record zero_event {
      event_id = session_id ++ txt "-auth";
      event_time = now;
      session_id = session_id;
      auth_user = auth_user;
      auth_method = auth_method;
      auth_result = auth_result;
      auth_duration = milliseconds duration;
      stage = txt "authentication";
    })

unfoldable pub log_message_event :
    Text → Text → Text → Text → Text → List Text → ℕ → ℕ → Client → Client
log_message_event msg_id session_id auth_user client_ip mail_from rcpt_to size now =
    log_event (record zero_event {
      event_id = msg_id ++ txt "-accept";
      event_time = now;
      msg_id = msg_id;
      session_id = session_id;
      auth_user = auth_user;
      client_ip = client_ip;
      mail_from = mail_from;
      rcpt_to = rcpt_to;
      message_size = size;
      stage = txt "accepted";
    })

unfoldable pub log_delivery_event :
    Text → Text → Text → Text → Text → ℕ → Text → ℕ → ℕ → ℕ → Client → Client
log_delivery_event msg_id recipient mx_hostname mx_ip result smtp_code smtp_message duration attempt
      now =
    log_event (record zero_event {
      event_id = msg_id ++ (txt "-" ++ (recipient ++ txt "-dlv"));
      event_time = now;
      msg_id = msg_id;
      recipient = recipient;
      mx_hostname = mx_hostname;
      mx_ip = mx_ip;
      smtp_code = smtp_code;
      smtp_message = smtp_message;
      delivery_duration = milliseconds duration;
      delivery_result = result;
      delivery_attempt = attempt;
      stage = txt "delivery";
    })
