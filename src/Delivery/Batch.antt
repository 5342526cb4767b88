-- ===== src/Delivery/Batch.antt =====
-- `processBatch` of internal/delivery/worker.go.
use submitter_smtp_daemon.Delivery.Process.{process_delivery_lem}
use submitter_smtp_daemon.Delivery.Report.{length-IsUnconfirmed, envelope}
use submitter_smtp_daemon.Delivery.{
  Answers, Worker, WorkerConfig, process_batch, process_delivery, process_items,
}
use submitter_smtp_daemon.Queue.Pending.{IsOrderBy, get_pending_deliveries_lem}
use submitter_smtp_daemon.Queue.{QueueItem, get_pending_deliveries}
use submitter_smtp_daemon.Schema.{Row}
use submitter_smtp_daemon.Prelude.{
  Bool, List, Option, Option-cases, [], ap, arith, inl, inr, length, length-append, refl, some, ℕ,
  ◌+◌, ◌∙◌, ◌∷◌, ◌≡◌, ◌≤◌,
}

module _ (first : ℕ) (ds : List ℕ) where
  -- A worker that goes on: same schedule, same spool, and at most so many more envelopes sent.
  GoesOn : ℕ → Worker → Option Worker → Type 0
  GoesOn n w o =
      (w' : Worker) × (o ≡ some w')
      × (w'.config.retry_schedule ≡ first ∷ ds)
      × (w'.spool ≡ w.spool)
      × (length w'.sent ≤ length w.sent + n)

  one-GoesOn :
      (a : Answers) (item : QueueItem) (w : Worker)
      → w.config.retry_schedule ≡ first ∷ ds
      → GoesOn 1 w (process_delivery a item w)
  unfolding GoesOn
  one-GoesOn a item w scheduled =
      let (w', same, fate) = process_delivery_lem a item w first ds scheduled in
      elim fate [
        | inl (msg, host, ip, x0, x1, x2, sent, (x3, spool, config)) ↦ (
          w',
          same,
          ap (λ (c : WorkerConfig). c.retry_schedule) config ∙ scheduled,
          spool,
          rw sent (omega (arith, length-append w.sent (envelope host item.recipient msg ∷ []))),
        )
        | inr (inl (host, ip, e, x0, sent, (x3, spool, config))) ↦ (
          w',
          same,
          ap (λ (c : WorkerConfig). c.retry_schedule) config ∙ scheduled,
          spool,
          length-IsUnconfirmed a item w host ip w'.sent sent,
        )
        | inr (inr (host, ip, e, x0, sent, (x3, spool, config))) ↦ (
          w',
          same,
          ap (λ (c : WorkerConfig). c.retry_schedule) config ∙ scheduled,
          spool,
          length-IsUnconfirmed a item w host ip w'.sent sent,
        )
      ]

  items-GoesOn :
      (answers : ℕ → Answers) (n : ℕ) (items : List QueueItem) (w : Worker)
      → w.config.retry_schedule ≡ first ∷ ds
      → GoesOn (length items) w (process_items answers n items w)
  unfolding GoesOn process_items
  items-GoesOn answers n [] w scheduled = (w, refl, scheduled, refl, omega arith)
  items-GoesOn answers n (item ∷ items) w scheduled =
      let (w1, same, scheduled1, spool1, le1) = one-GoesOn (answers n) item w scheduled in
      let (w2, same2, scheduled2, spool2, le2) = items-GoesOn answers (n + 1) items w1 scheduled1 in
      (w2, rw (same, process_items) same2, scheduled2, spool2 ∙ spool1, omega (arith, le1, le2))

  -- With a retry schedule that is not empty, a batch comes to its end without a panic, whatever the
  -- database, the spool, DNS and the remote servers answer. It keeps the schedule and the spool, and
  -- hands over at most ten messages.
  pub process_batch_lem :
      (order_by : List Row → List Row) (query_fails : Bool) (now : ℕ) (answers : ℕ → Answers)
      (w : Worker)
      → IsOrderBy order_by
      → w.config.retry_schedule ≡ first ∷ ds
      → (w' : Worker) × (process_batch order_by query_fails now answers w ≡ some w')
        × (w'.config.retry_schedule ≡ first ∷ ds)
        × (w'.spool ≡ w.spool)
        × (length w'.sent ≤ length w.sent + 10)
  unfolding GoesOn process_batch
  process_batch_lem order_by query_fails now answers w ordered scheduled =
      elim (Option-cases (get_pending_deliveries order_by query_fails 10 now w.db)) [
        | inl down ↦ (w, rw (down, process_batch) refl, scheduled, refl, omega arith)
        | inr (items, polled) ↦
            let (w', same, s, spool, le) = items-GoesOn answers 0 items w scheduled in
            let few : length items ≤ 10 =
              (get_pending_deliveries_lem order_by ordered query_fails 10 now w.db items
                polled).0 in
            (w', rw (polled, process_batch) same, s, spool, omega (arith, le, few))
      ]
