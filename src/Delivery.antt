-- ===== src/Delivery.antt =====
-- internal/delivery/worker.go. What the environment answers to one `processDelivery` is a record of
-- arguments, in Remote. Times and durations are in nanoseconds; `none` is a panic, which ends the
-- process.
mod Remote
unfoldable pub use Remote.*
pub mod Retry
pub mod Report
pub mod Process
pub mod Attempts
pub mod Batch
pub mod Loop
pub mod Draining
pub mod Success
pub mod Workers
pub mod Pipeline
use mathlib.Core.Option
use submitter_smtp_daemon.Prelude.{
  Bool, List, Option, Text, [], get_elem?, if◌then◌else◌, leb, leb_ℤ, length, ltb, none, pos, some,
  txt, ℕ, ℤ, ◌&&◌, ◌++◌, ◌+◌, ◌-◌, ◌==◌, ◌∷◌,
}
use submitter_smtp_daemon.Files.{Fs, Stage, modified, parsed, signed}
use submitter_smtp_daemon.Spool.{read}
use submitter_smtp_daemon.Schema.{Db, DeliveryState, Row, delivered, perm_fail, temp_fail}
use submitter_smtp_daemon.Queue.{QueueItem, get_pending_deliveries, update_delivery_state}
use submitter_smtp_daemon.Metrics.{Metrics, record_delivery}
use submitter_smtp_daemon.ClickHouse.{Client, log_delivery_event}

-- The number of workers and the delays of the schedule are taken as not negative.
pub record WorkerConfig : Type 0 where
  pub workers : ℕ
  pub retry_schedule : List ℕ
  pub max_attempts : ℤ
  pub poll_interval : ℤ

pub record Worker : Type 0 where
  pub config : WorkerConfig
  pub db : Db
  pub spool : Fs
  pub clickhouse : Client
  pub metrics : Metrics
  pub sent : List Envelope

-- `UpdateDeliveryState` for the item; its error is only logged
unfoldable pub set_state :
    Answers → QueueItem → DeliveryState → Text → Text → Text → ℕ → Text → ℕ → Worker → Worker
set_state a item state mx_host mx_ip error_msg smtp_code smtp_message next_attempt w = record w {
  db =
      (update_delivery_state a.update_fails item.dlv_id state mx_host mx_ip error_msg smtp_code
        smtp_message next_attempt a.delivered_now a.updated_now w.db).1;
}

unfoldable pub update_delivery_success :
    Answers → QueueItem → Text → Text → ℕ → Text → Worker → Worker
unfolding set_state
update_delivery_success a item mx_host mx_ip smtp_code smtp_message =
    set_state a item delivered mx_host mx_ip [] smtp_code smtp_message 0

unfoldable pub update_delivery_failed :
    Answers → QueueItem → Text → Text → Text → ℕ → Text → Worker → Worker
unfolding set_state
update_delivery_failed a item mx_host mx_ip error_msg smtp_code smtp_message =
    set_state a item perm_fail mx_host mx_ip error_msg smtp_code smtp_message 0

-- `calculateNextRetry`; the last index of an empty schedule is out of range
unfoldable pub calculate_next_retry : ℕ → ℕ → List ℕ → Option ℕ
calculate_next_retry now attempts schedule =
    if ltb attempts (length schedule)
    then Option.map (λ d. now + d) (get_elem? schedule attempts)
    else if length schedule == 0
    then none
    else Option.map (λ d. now + d) (get_elem? schedule (length schedule - 1))

unfoldable pub update_delivery_temp_fail :
    Answers → QueueItem → Text → Text → Text → ℕ → Text → Worker → Option Worker
unfolding update_delivery_failed set_state
update_delivery_temp_fail a item mx_host mx_ip error_msg smtp_code smtp_message w =
    elim (calculate_next_retry a.retry_now item.attempts w.config.retry_schedule) [
      | none ↦ none
      | some next_attempt ↦ some (
          if leb_ℤ item.max_attempts (pos (item.attempts + 1))
          then update_delivery_failed a item mx_host mx_ip error_msg smtp_code smtp_message w
          else set_state a item temp_fail mx_host mx_ip error_msg smtp_code smtp_message
              next_attempt w)
    ]

-- the metric and the event at the end of an attempt
unfoldable pub record_attempt : Answers → QueueItem → Text → Text → Text → Outcome → Worker → Worker
record_attempt a item result mx_host mx_ip o w = record w {
  metrics = record_delivery result mx_host a.duration w.metrics;
  clickhouse =
      log_delivery_event item.msg_id item.recipient mx_host mx_ip result o.smtp_code o.smtp_message
        a.duration (item.attempts + 1) a.event_now w.clickhouse;
}

abbrev pub is_permanent : ℕ → Bool
is_permanent code = leb 500 code && ltb code 600

-- `processDelivery` after the attempt
unfoldable pub finish : Answers → QueueItem → Text → Text → Outcome → Worker → Option Worker
unfolding update_delivery_success update_delivery_failed update_delivery_temp_fail record_attempt
finish a item mx_host mx_ip o w = elim o.err [
  | none ↦ some (
      record_attempt a item (txt "success") mx_host mx_ip o
        (update_delivery_success a item mx_host mx_ip o.smtp_code o.smtp_message w))
  | some text ↦
      if is_permanent o.smtp_code
      then some (
          record_attempt a item (txt "perm_fail") mx_host mx_ip o
            (update_delivery_failed a item mx_host mx_ip text o.smtp_code o.smtp_message w))
      else elim (update_delivery_temp_fail a item mx_host mx_ip text o.smtp_code o.smtp_message w) [
        | none ↦ none
        | some w' ↦ some (record_attempt a item (txt "temp_fail") mx_host mx_ip o w')
      ]
]

abbrev pub read_stage : Answers → Stage → Text → Fs → Option (List ℕ)
read_stage a stage msg_id fs = elim (read (a.read_fails stage) stage msg_id fs).0 [
  | none ↦ some (read (a.read_fails stage) stage msg_id fs).1
  | some e ↦ none
]

-- the message from signed, else from modified, else from parsed
unfoldable pub read_message : Answers → Text → Fs → Option (List ℕ)
read_message a msg_id fs = elim (read_stage a signed msg_id fs) [
  | some bytes ↦ some bytes
  | none ↦ elim (read_stage a modified msg_id fs) [
    | some bytes ↦ some bytes
    | none ↦ read_stage a parsed msg_id fs
  ]
]

-- `processDelivery` with the message at hand and the lookup made
unfoldable pub attempt :
    Answers → QueueItem → List ℕ → (Text × Text × Option Text) → Worker → Option Worker
attempt a item msg_data (mx_host, mx_ip, some text) w =
    update_delivery_temp_fail a item mx_host mx_ip text 0 [] w
attempt a item msg_data (mx_host, mx_ip, none) w =
    let (o, accepted) = deliver mx_host item.recipient msg_data a.transaction in
    finish a item mx_host mx_ip o (record w { sent = w.sent ++ accepted })

unfoldable pub process_delivery : Answers → QueueItem → Worker → Option Worker
process_delivery a item w = elim (read_message a item.msg_id w.spool) [
  | none ↦
      let (mx_host, mx_ip, error_msg) = a.unreadable in
      some (update_delivery_failed a item mx_host mx_ip error_msg 0 [] w)
  | some msg_data ↦ attempt a item msg_data (lookup_mx a item.recipient) w
]

-- the loop of `processBatch`; each delivery has its own answers
unfoldable pub process_items : (ℕ → Answers) → ℕ → List QueueItem → Worker → Option Worker
process_items answers n [] w = some w
process_items answers n (item ∷ items) w = elim (process_delivery (answers n) item w) [
  | none ↦ none
  | some w' ↦ process_items answers (n + 1) items w'
]

unfoldable pub process_batch :
    (List Row → List Row) → Bool → ℕ → (ℕ → Answers) → Worker → Option Worker
process_batch order_by query_fails now answers w =
    elim (get_pending_deliveries order_by query_fails 10 now w.db) [
      | none ↦ some w
      | some items ↦ process_items answers 0 items w
    ]
