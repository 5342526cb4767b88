-- ===== src/Delivery/Draining/Batch.antt =====
-- What one batch of internal/delivery/worker.go uses up of the attempts that the rows have left.
use mathlib.Core.Path.{subst}
use mathlib.Core.Option
use submitter_smtp_daemon.Schema.{Db, unix, Row, update_where}
use submitter_smtp_daemon.Queue.Pending.{
  IsOrderBy, IsReady, get_pending_deliveries_complete, get_pending_deliveries_lem,
}
use mathlib.Core.List.{Perm}
use submitter_smtp_daemon.Delivery.Attempts.{
  IsCurrent, IsWithin, WritesOnce, process_delivery_progress, work, writes_once,
}
use submitter_smtp_daemon.Delivery.Process.{process_delivery_lem}
use submitter_smtp_daemon.Delivery.Report.{IsDelivered, IsGivenUp, IsRetried}
use submitter_smtp_daemon.Delivery.{
  process_batch, Answers, Worker, WorkerConfig, process_delivery, process_items,
}
use submitter_smtp_daemon.Queue.Distinct.{
  get_pending_deliveries-IsDistinct, IsDistinct, IsDistinct-IsKeyed, Lacks-Member, item_id, row_id,
  update_where-IsDistinct,
}
use submitter_smtp_daemon.Queue.Rows.{find_row-update_where_ne}
use submitter_smtp_daemon.Queue.{
  get_pending_deliveries, scan_item, QueueItem, update_delivery_state, updated,
}
use submitter_smtp_daemon.Prelude.{
  Member-length, none, ◌≢◌, Option-cases, List, Member, [], ap, arith, false, inl, inr, length,
  refl, some, suc, sym, ℕ, ◌+◌, ◌∙◌, ◌∷◌, ◌≡◌, ◌≤◌, ◌⊎◌,
}

fate-config :
    (a : Answers) (item : QueueItem) (w w' : Worker) (first : ℕ) (ds : List ℕ)
    → IsDelivered a item w w' ⊎ (IsRetried a item w w' first ds ⊎ IsGivenUp a item w w')
    → w'.config ≡ w.config
fate-config a item w w' first ds (inl (x0, x1, x2, x3, x4, x5, x6, stored)) = stored.2
fate-config a item w w' first ds (inr (inl (x0, x1, x2, x3, x4, stored))) = stored.2
fate-config a item w w' first ds (inr (inr (x0, x1, x2, x3, x4, stored))) = stored.2

module _ (first : ℕ) (ds : List ℕ) where
  -- A worker with a schedule, over a table without a repeated id whose rows are within the attempts
  -- that they allow.
  pub record IsFit (w : Worker) : Type 0 where
    pub scheduled : w.config.retry_schedule ≡ first ∷ ds
    pub distinct : IsDistinct row_id w.db.delivery_queue
    pub within : (x : Row) → Member x w.db.delivery_queue → IsWithin x

  -- Items that were read from the table as it stands.
  abbrev AllCurrent : List QueueItem → List Row → Type 0
  AllCurrent items rows = (item : QueueItem) → Member item items → (r : Row) × IsCurrent item rows r

  one_step :
      (a : Answers) (item : QueueItem) (items : List QueueItem) (w : Worker)
      → a.update_fails ≡ false
      → IsFit w
      → IsDistinct item_id (item ∷ items)
      → AllCurrent (item ∷ items) w.db.delivery_queue
      → (w' : Worker) × (process_delivery a item w ≡ some w')
        × IsFit w'
        × AllCurrent items w'.db.delivery_queue
        × (suc (work w'.db.delivery_queue) ≤ work w.db.delivery_queue)
  unfolding WritesOnce update_delivery_state updated
  one_step a item items w written fit apart current =
      let rows = w.db.delivery_queue in
      let (r, current_r) = current item (inl refl) in
      let (w', same, keyed', within', less) =
        process_delivery_progress a written item w first ds fit.scheduled r current_r
          (IsDistinct-IsKeyed rows fit.distinct) fit.within in
      let (v, same_v, fate_v) = process_delivery_lem a item w first ds fit.scheduled in
      let is_w' : v ≡ w' = Option.some-injective _ _ (sym same_v ∙ same) in
      let fate =
        subst (λ x. IsDelivered a item w x ⊎ (IsRetried a item w x first ds ⊎ IsGivenUp a item w x))
          is_w' fate_v in
      let (state, host, ip, e, code, message, next_attempt, stored, allowed) =
        writes_once a item w first ds w' fate in
      let f = updated state host ip e code message next_attempt a.delivered_now a.updated_now in
      let rows' : w'.db.delivery_queue ≡ update_where item.dlv_id f rows =
        ground (arith, stored, written) in
      (
        w',
        same,
        record {
          scheduled =
              ap (λ (c : WorkerConfig). c.retry_schedule) (fate-config a item w w' first ds fate)
              ∙ fit.scheduled;
          distinct = rw rows' (update_where-IsDistinct item.dlv_id f (λ x. refl) rows fit.distinct);
          within = within';
        },
        rw rows' (λ other m.
            let (q, (found, is_q, waits)) = current other (inr m) in
            (
              q,
              (
                find_row-update_where_ne item.dlv_id f (λ x. refl) other.dlv_id rows
                      (λ id. Lacks-Member item_id item.dlv_id other items apart.0 m (sym id))
                    ∙ found,
                is_q,
                waits,
              ),
            )),
        less,
      )

  items_drain :
      (answers : ℕ → Answers) (n : ℕ) (items : List QueueItem) (w : Worker)
      → ((k : ℕ) → (answers k).update_fails ≡ false)
      → IsFit w
      → IsDistinct item_id items
      → AllCurrent items w.db.delivery_queue
      → (w' : Worker) × (process_items answers n items w ≡ some w')
        × IsFit w'
        × (length items + work w'.db.delivery_queue ≤ work w.db.delivery_queue)
  unfolding process_items
  items_drain answers n [] w written fit apart current = (w, refl, fit, omega arith)
  items_drain answers n (item ∷ items) w written fit apart current =
      let (w1, same1, fit1, current1, less1) =
        one_step (answers n) item items w (written n) fit apart current in
      let (w2, same2, fit2, less2) =
        items_drain answers (n + 1) items w1 written fit1 apart.1 current1 in
      (w2, rw (same1, process_items) same2, fit2, omega (arith, less1, less2))

  -- A poll of a fit worker: what it returns is current and has no id twice.
  polled_items :
      (order_by : List Row → List Row) (now : ℕ) (w : Worker) (items : List QueueItem)
      → IsOrderBy order_by
      → ((rs : List Row) → Perm (order_by rs) rs)
      → IsFit w
      → get_pending_deliveries order_by false 10 now w.db ≡ some items
      → IsDistinct item_id items × AllCurrent items w.db.delivery_queue
  unfolding scan_item
  polled_items order_by now w items ordered permutes fit polled = (
    get_pending_deliveries-IsDistinct order_by false 10 now w.db items permutes fit.distinct polled,
    λ item m.
        let (r, mr, (waits, due), same) =
          (get_pending_deliveries_lem order_by ordered false 10 now w.db items polled).1 item m in
        (
          r,
          (
            rw same (IsDistinct-IsKeyed w.db.delivery_queue fit.distinct r mr),
            same,
            elim waits [ inl q ↦ rw q refl | inr t ↦ rw t refl ],
          ),
        ),
  )

  -- A poll finds something where a row is due.
  some_item :
      (order_by : List Row → List Row) (now : ℕ) (w : Worker) (items : List QueueItem) (r : Row)
      → IsOrderBy order_by
      → Member r w.db.delivery_queue
      → IsReady (unix now) r
      → get_pending_deliveries order_by false 10 now w.db ≡ some items
      → 1 ≤ length items
  some_item order_by now w items r ordered m ready polled =
      elim (get_pending_deliveries_complete order_by ordered false 10 now w.db items polled r m
        ready) [
          | inl there ↦ Member-length (scan_item r) items there
          | inr (full, x) ↦ omega (arith, full)
        ]

  answered :
      (order_by : List Row → List Row) (now : ℕ) (db : Db)
      → get_pending_deliveries order_by false 10 now db ≢ none
  unfolding get_pending_deliveries
  answered order_by now db e = cc e

  -- A batch at a time when a row is due.
  pub batch_drains :
      (order_by : List Row → List Row) (now : ℕ) (answers : ℕ → Answers) (w : Worker) (r : Row)
      → IsOrderBy order_by
      → ((rs : List Row) → Perm (order_by rs) rs)
      → ((k : ℕ) → (answers k).update_fails ≡ false)
      → IsFit w
      → Member r w.db.delivery_queue
      → IsReady (unix now) r
      → (w' : Worker) × (process_batch order_by false now answers w ≡ some w')
        × IsFit w'
        × (suc (work w'.db.delivery_queue) ≤ work w.db.delivery_queue)
  unfolding process_batch
  batch_drains order_by now answers w r ordered permutes written fit m ready =
      elim (Option-cases (get_pending_deliveries order_by false 10 now w.db)) [
        | inl down ↦ absurd (answered order_by now w.db down)
        | inr (items, polled) ↦
            let (apart, current) = polled_items order_by now w items ordered permutes fit polled in
            let (w', same, fit', less) = items_drain answers 0 items w written fit apart current in
            let found = some_item order_by now w items r ordered m ready polled in
            (w', rw (polled, process_batch) same, fit', omega (arith, less, found))
      ]
