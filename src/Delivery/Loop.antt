-- ===== src/Delivery/Loop.antt =====
-- `New`, `Start`, `Stop` and `workerLoop` of internal/delivery/worker.go. What the select of the loop receives
-- is a list of wake-ups; where the ticker and the closed channel are both ready, Go takes either, so
-- a tick may come before the stop or not at all.
use submitter_smtp_daemon.Files.{Fs}
use submitter_smtp_daemon.ClickHouse.{Client}
use submitter_smtp_daemon.Metrics.{Metrics}
use submitter_smtp_daemon.Delivery.Batch.{process_batch_lem}
use submitter_smtp_daemon.Delivery.{Answers, Worker, WorkerConfig, process_batch}
use submitter_smtp_daemon.Queue.Pending.{IsOrderBy}
use submitter_smtp_daemon.Schema.{Db, Row}
use submitter_smtp_daemon.Prelude.{
  if◌then◌else◌, leb_ℤ, pos, Bool, List, Option, [], arith, false, length, none, refl, some, suc,
  true, zero, ℕ, ◌*◌, ◌+◌, ◌↔◌, ◌∙◌, ◌∷◌, ◌≡◌, ◌≤◌,
}

-- A tick comes with what other goroutines have done to the database since the last batch, and with
-- what the environment answers to the batch.
pub data Wake : Type 0 where
  ticks : (Db → Db) → (List Row → List Row) → Bool → ℕ → (ℕ → Answers) → Wake
  stops : Wake

-- The for-select of `workerLoop`. The answer says whether the loop still runs; `none` is a panic.
unfoldable pub receive_all : List Wake → Worker → Option (Worker × Bool)
receive_all [] w = some (w, true)
receive_all (stops ∷ ss) w = some (w, false)
receive_all (ticks others order_by query_fails now answers ∷ ss) w =
    elim (process_batch order_by query_fails now answers (record w { db = others w.db })) [
      | none ↦ none
      | some w' ↦ receive_all ss w'
    ]

-- `time.NewTicker` panics without a positive interval.
unfoldable pub worker_loop : List Wake → Worker → Option (Worker × Bool)
unfolding receive_all
worker_loop ss w = if leb_ℤ w.config.poll_interval (pos 0) then none else receive_all ss w

-- `New`: nothing has been sent yet
unfoldable pub new : WorkerConfig → Db → Fs → Client → Metrics → Worker
new config db spool clickhouse metrics = record {
  config = config;
  db = db;
  spool = spool;
  clickhouse = clickhouse;
  metrics = metrics;
  sent = [];
}

-- The ids of the goroutines that `Start` starts, from a first one.
unfoldable pub worker_ids : ℕ → ℕ → List ℕ
worker_ids first zero = []
worker_ids first (suc n) = first ∷ worker_ids (first + 1) n

unfoldable pub start : WorkerConfig → List ℕ
unfolding worker_ids
start config = worker_ids 0 config.workers

-- `Stop`, by whether the channel is closed; closing it again panics
unfoldable pub stop : Bool → Option Bool
stop false = some true
stop true = none

-- How many batches the loop runs.
abbrev pub batches : List Wake → ℕ
batches [] = 0
batches (stops ∷ ss) = 0
batches (ticks others order_by query_fails now answers ∷ ss) = 1 + batches ss

-- Every ORDER BY sorts.
abbrev pub AllOrdered : List Wake → Type 0
AllOrdered [] = Unit {0}
AllOrdered (stops ∷ ss) = AllOrdered ss
AllOrdered (ticks others order_by query_fails now answers ∷ ss) = IsOrderBy order_by × AllOrdered ss

-- A stop is among the wake-ups.
abbrev pub HasStop : List Wake → Type 0
HasStop [] = ⊥
HasStop (stops ∷ ss) = Unit {0}
HasStop (ticks others order_by query_fails now answers ∷ ss) = HasStop ss

receive_all_lem :
    (first : ℕ) (ds : List ℕ) (ss : List Wake) (w : Worker)
    → AllOrdered ss
    → w.config.retry_schedule ≡ first ∷ ds
    → (w' : Worker) × (running : Bool) × (receive_all ss w ≡ some (w', running))
      × (running ≡ false ↔ HasStop ss)
      × (w'.config.retry_schedule ≡ first ∷ ds)
      × (w'.spool ≡ w.spool)
      × (length w'.sent ≤ length w.sent + 10 * batches ss)
unfolding receive_all
receive_all_lem first ds [] w ordered scheduled =
    (w, true, refl, (λ e. cc e, λ h. absurd h), scheduled, refl, omega arith)
receive_all_lem first ds (stops ∷ ss) w ordered scheduled =
    (w, false, refl, (λ _. tt, λ _. refl), scheduled, refl, omega arith)
receive_all_lem first ds (ticks others order_by query_fails now answers ∷ ss) w ordered scheduled =
    let (w1, same, scheduled1, spool1, le1) =
      process_batch_lem first ds order_by query_fails now answers (record w { db = others w.db })
        ordered.0 scheduled in
    let (w2, running, same2, over, scheduled2, spool2, le2) =
      receive_all_lem first ds ss w1 ordered.1 scheduled1 in
    (
      w2,
      running,
      rw (same, receive_all) same2,
      over,
      scheduled2,
      spool2 ∙ spool1,
      omega (arith, le1, le2),
    )

-- With a positive poll interval and a retry schedule that is not empty, workerLoop never panics,
-- whatever the database, the spool, DNS and the remote servers answer and whatever other goroutines
-- do to the database between two batches. It has returned exactly if a stop is among what it
-- received, it keeps the schedule and the spool, and it has handed over at most ten messages for
-- each tick that came before the first stop.
pub worker_loop_lem :
    (first : ℕ) (ds : List ℕ) (ss : List Wake) (w : Worker)
    → AllOrdered ss
    → w.config.retry_schedule ≡ first ∷ ds
    → leb_ℤ w.config.poll_interval (pos 0) ≡ false
    → (w' : Worker) × (running : Bool) × (worker_loop ss w ≡ some (w', running))
      × (running ≡ false ↔ HasStop ss)
      × (w'.config.retry_schedule ≡ first ∷ ds)
      × (w'.spool ≡ w.spool)
      × (length w'.sent ≤ length w.sent + 10 * batches ss)
unfolding worker_loop
worker_loop_lem first ds ss w ordered scheduled positive =
    rw (positive, worker_loop) (receive_all_lem first ds ss w ordered scheduled)
