-- ===== src/Delivery/Workers.antt =====
-- Several goroutines `workerLoop` of internal/delivery/worker.go over one database, and the callers
-- of EnqueueDelivery. Each worker polls when it has processed what it polled before. A processing
-- is one step: it reads the spool, which rests, and writes the table by one statement.
pub mod Ledger
pub mod Steps
pub mod Invariant
pub mod Settled
pub mod Once
use submitter_smtp_daemon.Delivery.{Answers, Worker, process_delivery}
use submitter_smtp_daemon.Queue.{QueueItem, enqueue_delivery, get_pending_deliveries}
use submitter_smtp_daemon.Queue.Pending.{IsOrderBy}
use submitter_smtp_daemon.Schema.{Row}
use submitter_smtp_daemon.Prelude.{Bool, List, Text, [], if◌then◌else◌, some, ℕ, ℤ, ◌==◌, ◌∷◌, ◌≡◌}

pub record System : Type 0 where
  -- what the workers share
  pub shared : Worker
  -- what each worker has polled and not yet processed
  pub inbox : ℕ → List QueueItem

unfoldable pub put_inbox : ℕ → List QueueItem → (ℕ → List QueueItem) → ℕ → List QueueItem
put_inbox i items inbox j = if j == i then items else inbox j

unfoldable pub polled : ℕ → List QueueItem → System → System
unfolding put_inbox
polled i items s = record s { inbox = put_inbox i items s.inbox }

unfoldable pub processed : ℕ → List QueueItem → Worker → System → System
unfolding put_inbox
processed i items w' s = record { shared = w'; inbox = put_inbox i items s.inbox }

unfoldable pub enqueued : Bool → Bool → Text → Text → Text → ℤ → ℕ → System → System
enqueued foreign_keys fault dlv_id msg_id recipient max_attempts now s = record s {
  shared = record s.shared {
    db =
        (enqueue_delivery foreign_keys fault dlv_id msg_id recipient max_attempts now
          s.shared.db).1;
  };
}

pub data Step : System → System → Type 0 where
  polls :
      (i now : ℕ) (order_by : List Row → List Row) (fault : Bool) (items : List QueueItem)
      (s : System)
      → IsOrderBy order_by
      → s.inbox i ≡ []
      → get_pending_deliveries order_by fault 10 now s.shared.db ≡ some items
      → Step s (polled i items s)
  processes :
      (i : ℕ) (a : Answers) (item : QueueItem) (items : List QueueItem) (w' : Worker) (s : System)
      → s.inbox i ≡ item ∷ items
      → process_delivery a item s.shared ≡ some w'
      → Step s (processed i items w' s)
  enqueues :
      (foreign_keys fault : Bool) (dlv_id msg_id recipient : Text) (max_attempts : ℤ) (now : ℕ)
      (s : System)
      → Step s (enqueued foreign_keys fault dlv_id msg_id recipient max_attempts now s)

pub data Reachable (start : System) : System → Type 0 where
  started : Reachable start start
  next : {s s' : System} → Reachable start s → Step s s' → Reachable start s'
