-- ===== src/Tests/Queue.antt =====
-- internal/queue/queue.go at concrete tables.
use mathlib.Core.Path.{subst}
use submitter_smtp_daemon.Tests.Sorting.{sort, sort-IsOrderBy}
use submitter_smtp_daemon.Queue.Rows.{IsKeyed}
use submitter_smtp_daemon.Queue.Pending.{
  get_pending_deliveries_complete, IsDue, get_pending_deliveries_lem,
}
use submitter_smtp_daemon.Queue.Update.{run_update, write}
use submitter_smtp_daemon.Queue.Messages.{enqueue_delivery_lem, get_message-add_message, to_seconds}
use submitter_smtp_daemon.Queue.{
  Json, Message, QueueItem, add_message, enqueue_delivery, from_unix, get_message,
  get_pending_deliveries, is_pending, scan_item,
}
use submitter_smtp_daemon.Schema.{
  Db, DeliveryState, MessageRow, Row, delivered, find_message, find_row, queued, select, temp_fail,
  unix,
}
use submitter_smtp_daemon.Prelude.{
  arith, List, Member, Text, [], false, inl, inr, leb, length, none, pos, refl, some, sym, text_eq,
  true, txt, ℕ, ◌*◌, ◌+◌, ◌∷◌, ◌≡◌, ◌≢◌, ◌≤◌, ◌⊎◌,
}

abbrev pub row : Text → DeliveryState → ℕ → Row
row id s next = record {
  dlv_id = id;
  msg_id = txt "m";
  recipient = txt "a@b";
  mx_hostname = none;
  mx_ip = none;
  state = s;
  attempts = 1;
  max_attempts = pos 3;
  next_attempt = next;
  last_error = none;
  smtp_code = none;
  smtp_message = none;
  created_at = 0;
  updated_at = 0;
  delivered_at = none;
}

abbrev pub queue : Db
queue = record {
  messages = [];
  delivery_queue = row (1 ∷ []) temp_fail 7 ∷ row (2 ∷ []) queued 5 ∷ row (3 ∷ []) delivered 1 ∷ [];
}

-- The database at ten seconds, in nanoseconds.
abbrev ten : ℕ
ten = 10_000_000_000

abbrev polled : List QueueItem
polled = scan_item (row (2 ∷ []) queued 5) ∷ []

get_pending_deliveries_lem_example :
    (length polled ≤ 1)
    × ((item : QueueItem) → Member item polled → IsDue (unix ten) queue.delivery_queue item)
unfolding get_pending_deliveries select sort
get_pending_deliveries_lem_example =
    get_pending_deliveries_lem sort sort-IsOrderBy false 1 ten queue polled refl

get_pending_deliveries_complete_example :
    Member (scan_item (row (1 ∷ []) temp_fail 7)) polled
    ⊎ (length polled ≡ 1)
      × ((item : QueueItem) → Member item polled → item.next_attempt ≤ from_unix 7)
unfolding get_pending_deliveries select sort
get_pending_deliveries_complete_example =
    get_pending_deliveries_complete sort sort-IsOrderBy false 1 ten queue polled refl
      (row (1 ∷ []) temp_fail 7) (inl refl) (inr refl, omega arith)

queue-IsKeyed : IsKeyed queue.delivery_queue
unfolding find_row text_eq
queue-IsKeyed r (inl e) =
    subst (λ (x : Row). find_row x.dlv_id queue.delivery_queue ≡ some x) (sym e) refl
queue-IsKeyed r (inr (inl e)) =
    subst (λ (x : Row). find_row x.dlv_id queue.delivery_queue ≡ some x) (sym e) refl
queue-IsKeyed r (inr (inr (inl e))) =
    subst (λ (x : Row). find_row x.dlv_id queue.delivery_queue ≡ some x) (sym e) refl
queue-IsKeyed r (inr (inr (inr h))) = absurd h

abbrev retry_row : Row → Row
retry_row = write (2 ∷ []) temp_fail [] [] [] 0 [] (2 * ten) ten ten

abbrev retried : Db
retried = (run_update (2 ∷ []) temp_fail [] [] [] 0 [] (2 * ten) ten ten false queue).1

-- A codec for lists of at most one string.
abbrev codec : Json
codec = record {
  marshal = λ xs. elim xs [ [] ↦ some [] | x ∷ rest ↦ some (34 ∷ x) ];
  unmarshal = λ s. elim s [ [] ↦ some [] | c ∷ rest ↦ some (rest ∷ []) ];
}

abbrev letter : Message
letter = record {
  msg_id = txt "m";
  session_id = txt "s";
  auth_user = txt "u";
  client_ip = [];
  mail_from = txt "u@b";
  rcpt_to = txt "a@b" ∷ [];
  message_size = pos 3;
  body_hash = [];
  dedup_original = [];
  created_at = ten + 1;
  current_stage = txt "parsed";
  subject = [];
  message_id_header = [];
  date_header = [];
}

abbrev stored : Db
stored = (add_message codec false letter queue).1

get_message-add_message_example :
    get_message codec false (txt "m") stored
    ≡ (none, some (record letter { created_at = to_seconds (ten + 1) }))
unfolding add_message find_message
get_message-add_message_example =
    get_message-add_message codec letter (34 ∷ txt "a@b") queue stored refl refl refl

abbrev enqueued : Db
enqueued = (enqueue_delivery true false (4 ∷ []) (txt "m") (txt "a@b") (pos 3) ten stored).1

enqueue_delivery_lem_example :
    (find_row (4 ∷ []) stored.delivery_queue ≡ none)
    × ((true ≡ false) ⊎ ((m : MessageRow) × (find_message (txt "m") stored.messages ≡ some m)))
    × ((r : Row) × (find_row (4 ∷ []) enqueued.delivery_queue ≡ some r)
        × (r.attempts ≡ 0)
        × (r.recipient ≡ txt "a@b")
        × ((t : ℕ) → is_pending t r ≡ leb (unix ten) t))
    × ((j : Text)
        → (4 ∷ []) ≢ j
        → find_row j enqueued.delivery_queue ≡ find_row j stored.delivery_queue)
    × IsKeyed enqueued.delivery_queue
unfolding enqueue_delivery find_row find_message add_message text_eq txt
enqueue_delivery_lem_example =
    enqueue_delivery_lem true false (4 ∷ []) (txt "m") (txt "a@b") (pos 3) ten stored refl
      queue-IsKeyed
