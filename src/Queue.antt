-- ===== src/Queue.antt =====
-- internal/queue/queue.go, over the tables of internal/db/schema.go. A table is the list of its
-- rows; each SQL statement is a function on it. `fault` is true where the driver reports an error;
-- a statement that fails changes nothing. Values of uuid and time.Now are arguments.
mod MessageTable
unfoldable pub use MessageTable.*
pub mod Rows
pub mod Pending
pub mod Distinct
pub mod Update
pub mod Messages
use submitter_smtp_daemon.Schema.{
  Db, DeliveryState, Row, delivered, find_message, find_row, is_some, queued, select, state_eq,
  temp_fail, unix, update_where,
}
use submitter_smtp_daemon.Prelude.{
  Bool, List, Option, Text, [], if◌then◌else◌, leb, map, none, not, some, take, ℕ, ℤ, ◌&&◌, ◌++◌,
  ◌+◌, ◌==◌, ◌||◌, ◌∷◌,
}

pub record QueueItem : Type 0 where
  pub dlv_id : Text
  pub msg_id : Text
  pub recipient : Text
  pub mx_hostname : Text
  pub mx_ip : Text
  pub state : DeliveryState
  pub attempts : ℕ
  pub max_attempts : ℤ
  pub next_attempt : ℕ
  pub last_error : Text
  pub smtp_code : ℕ
  pub smtp_message : Text
  pub created_at : ℕ
  pub updated_at : ℕ
  pub delivered_at : Option ℕ

abbrev pub new_row : Text → Text → Text → ℤ → ℕ → Row
new_row dlv_id msg_id recipient max_attempts now = record {
  dlv_id = dlv_id;
  msg_id = msg_id;
  recipient = recipient;
  mx_hostname = none;
  mx_ip = none;
  state = queued;
  attempts = 0;
  max_attempts = max_attempts;
  next_attempt = unix now;
  last_error = none;
  smtp_code = none;
  smtp_message = none;
  created_at = unix now;
  updated_at = unix now;
  delivered_at = none;
}

-- `foreign_keys` says whether the connection that runs the statement enforces them
unfoldable pub enqueue_delivery : Bool → Bool → Text → Text → Text → ℤ → ℕ → Db → Option Error × Db
enqueue_delivery foreign_keys fault dlv_id msg_id recipient max_attempts now db =
    if fault
      || is_some (find_row dlv_id db.delivery_queue)
      || foreign_keys && not (is_some (find_message msg_id db.messages))
    then (some enqueue_failed, db)
    else (
      none,
      record db {
        delivery_queue = db.delivery_queue ++ new_row dlv_id msg_id recipient max_attempts now ∷ [];
      },
    )

-- The WHERE clause of `GetPendingDeliveries`, at a time in seconds.
abbrev pub is_pending : ℕ → Row → Bool
is_pending now r = (state_eq r.state queued || state_eq r.state temp_fail) && leb r.next_attempt now

unfoldable pub scan_item : Row → QueueItem
scan_item r = record {
  dlv_id = r.dlv_id;
  msg_id = r.msg_id;
  recipient = r.recipient;
  mx_hostname = string_of r.mx_hostname;
  mx_ip = string_of r.mx_ip;
  state = r.state;
  attempts = r.attempts;
  max_attempts = r.max_attempts;
  next_attempt = from_unix r.next_attempt;
  last_error = string_of r.last_error;
  smtp_code = int_of r.smtp_code;
  smtp_message = string_of r.smtp_message;
  created_at = from_unix r.created_at;
  updated_at = from_unix r.updated_at;
  delivered_at = time_of r.delivered_at;
}

-- ORDER BY leaves the order of equal keys open, so it is an argument.
unfoldable pub get_pending_deliveries :
    (List Row → List Row) → Bool → ℕ → ℕ → Db → Option (List QueueItem)
get_pending_deliveries order_by fault limit now db =
    if fault
    then none
    else some
        (map scan_item (take limit (order_by (select (is_pending (unix now)) db.delivery_queue))))

-- The SET clause of `UpdateDeliveryState`; `delivered_now` and `now` are its two clock readings.
unfoldable pub updated : DeliveryState → Text → Text → Text → ℕ → Text → ℕ → ℕ → ℕ → Row → Row
updated state mx_hostname mx_ip error_msg smtp_code smtp_message next_attempt delivered_now now r =
    record r {
      state = state;
      mx_hostname = some mx_hostname;
      mx_ip = some mx_ip;
      last_error = some error_msg;
      smtp_code = some smtp_code;
      smtp_message = some smtp_message;
      next_attempt = unix next_attempt;
      updated_at = unix now;
      delivered_at = if state_eq state delivered then some (unix delivered_now) else none;
      attempts = r.attempts + 1;
    }

unfoldable pub update_delivery_state :
    Bool → Text → DeliveryState → Text → Text → Text → ℕ → Text → ℕ → ℕ → ℕ → Db → Option Error × Db
update_delivery_state fault dlv_id state mx_hostname mx_ip error_msg smtp_code smtp_message
      next_attempt delivered_now now db =
    if fault then (some update_failed, db) else (
      none,
      record db {
        delivery_queue =
            update_where dlv_id
              (updated state mx_hostname mx_ip error_msg smtp_code smtp_message next_attempt
                delivered_now now)
              db.delivery_queue;
      },
    )

unfoldable pub count_state : DeliveryState → List Row → ℕ
count_state s [] = 0
count_state s (r ∷ rs) = (if state_eq r.state s then 1 else 0) + count_state s rs

-- GROUP BY gives no row for a state that does not occur, so the map has no such key. `yielded` says
-- which rows come before the iteration ends: rows.Err is not looked at, so an iteration that breaks off
-- leaves the map as it is.
unfoldable pub get_queue_stats :
    Bool → (DeliveryState → Bool) → Db → Option (DeliveryState → Option ℕ)
get_queue_stats fault yielded db =
    if fault
    then none
    else some (λ s.
      let n = count_state s db.delivery_queue in if not (yielded s) || n == 0 then none else some n)
