-- ===== src/Tests/Delivery.antt =====
-- internal/delivery/worker.go at a concrete worker.
use mathlib.Core.Path.{subst}
use submitter_smtp_daemon.Delivery.Loop.{Wake, HasStop, ticks, stops, worker_loop, worker_loop_lem}
use submitter_smtp_daemon.Prelude.{
  Bool, List, ◌*◌, ◌↔◌, length, Member, [], arith, false, inl, inr, none, pos, refl, some, sym,
  text_eq, txt, ◌+◌, ◌∷◌, ◌≡◌, ◌≤◌, ◌⊎◌,
}
use submitter_smtp_daemon.Tests.Sorting.{sort, sort-IsOrderBy}
use submitter_smtp_daemon.Delivery.Process.{process_delivery_lem}
use submitter_smtp_daemon.Delivery.Attempts.{IsCurrent, IsWithin}
use submitter_smtp_daemon.Delivery.Report.{IsDelivered, IsGivenUp, IsRetried}
use submitter_smtp_daemon.Delivery.{
  Answers, Transaction, Worker, answer, process_delivery, rejected,
}
use submitter_smtp_daemon.Tests.Queue.{row}
use submitter_smtp_daemon.ClickHouse.{new}
use submitter_smtp_daemon.Queue.Rows.{IsKeyed}
use submitter_smtp_daemon.Queue.{QueueItem, scan_item}
use submitter_smtp_daemon.Schema.{Row, find_row, queued}
use submitter_smtp_daemon.Spool.{stage_path, plain_file}
use submitter_smtp_daemon.Files.{parsed}

-- Every call on the remote server works.
abbrev pub all_well : Transaction
all_well = record {
  dial = none;
  hello = none;
  mail = none;
  rcpt = none;
  data_command = none;
  write = none;
  close = none;
  kept = false;
}

-- The remote server refuses the recipient for good.
abbrev no_such_user : Transaction
no_such_user = record all_well { rcpt = some (rejected 550 (txt "no such user")) }

abbrev pub answers : Transaction → Answers
answers t = record {
  read_fails = λ s. false;
  unreadable = ([], [], []);
  lookup_mx = λ domain. answer (txt "mx.b." ∷ []);
  lookup_ip = λ host. answer (txt "::1" ∷ []);
  transaction = t;
  duration = 1;
  retry_now = 100;
  delivered_now = 101;
  updated_now = 102;
  event_now = 103;
  update_fails = false;
}

abbrev pub worker : Worker
worker = record {
  config = record {
    workers = 2;
    retry_schedule = 60 ∷ 120 ∷ [];
    max_attempts = pos 3;
    poll_interval = pos 10;
  };
  db = record { messages = []; delivery_queue = row (1 ∷ []) queued 0 ∷ [] };
  spool = (stage_path parsed (txt "m"), plain_file (1 ∷ 2 ∷ []) 0) ∷ [];
  clickhouse = new 10 [];
  metrics = [];
  sent = [];
}

abbrev pub item : QueueItem
item = scan_item (row (1 ∷ []) queued 0)

process_delivery_lem_example :
    (w' : Worker) × (process_delivery (answers no_such_user) item worker ≡ some w')
    × (IsDelivered (answers no_such_user) item worker w'
        ⊎ (IsRetried (answers no_such_user) item worker w' 60 (120 ∷ [])
            ⊎ IsGivenUp (answers no_such_user) item worker w'))
process_delivery_lem_example =
    process_delivery_lem (answers no_such_user) item worker 60 (120 ∷ []) refl

row-IsCurrent : IsCurrent item worker.db.delivery_queue (row (1 ∷ []) queued 0)
unfolding find_row text_eq scan_item
row-IsCurrent = (refl, refl, refl)

pub rows-IsKeyed : IsKeyed worker.db.delivery_queue
unfolding find_row text_eq
rows-IsKeyed r (inl e) =
    subst (λ (x : Row). find_row x.dlv_id worker.db.delivery_queue ≡ some x) (sym e) refl
rows-IsKeyed r (inr h) = absurd h

rows-IsWithin : (r : Row) → Member r worker.db.delivery_queue → IsWithin r
rows-IsWithin r (inl e) = subst IsWithin (sym e) (omega arith, λ _. omega arith)
rows-IsWithin r (inr h) = absurd h

-- A tick, at which another goroutine has not touched the database, and the stop.
abbrev wakes : List Wake
wakes = ticks (λ db. db) sort false 5_000_000_000 (λ n. answers all_well) ∷ stops ∷ []

worker_loop_lem_example :
    (w' : Worker) × (running : Bool) × (worker_loop wakes worker ≡ some (w', running))
    × (running ≡ false ↔ HasStop wakes)
    × (w'.config.retry_schedule ≡ 60 ∷ 120 ∷ [])
    × (w'.spool ≡ worker.spool)
    × (length w'.sent ≤ 0 + 10 * 1)
worker_loop_lem_example = worker_loop_lem 60 (120 ∷ []) wakes worker (sort-IsOrderBy, tt) refl refl
