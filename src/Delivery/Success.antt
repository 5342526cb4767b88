-- ===== src/Delivery/Success.antt =====
-- A batch of internal/delivery/worker.go in which the delivery of a row goes well.
use mathlib.Core.Path.{subst}
use submitter_smtp_daemon.Queue.Pending.{IsOrderBy, IsReady, get_pending_deliveries_complete}
use mathlib.Core.List.{Perm}
use submitter_smtp_daemon.Delivery.Process.{process_delivery_lem}
use submitter_smtp_daemon.Delivery.Report.{
  Member-IsUnconfirmed, deliver_complete, IsComplete, IsDelivered, IsGivenUp, IsRetried, IsStored,
  envelope,
}
use submitter_smtp_daemon.Delivery.{
  process_batch, Answers, Envelope, Worker, WorkerConfig, attempt, finish, lookup_mx,
  process_delivery, process_items, read_message, record_attempt, set_state, update_delivery_success,
}
use submitter_smtp_daemon.Queue.Distinct.{
  IsDistinct, IsDistinct-IsKeyed, Lacks-Member, get_pending_deliveries-IsDistinct, row_id, Lacks,
  item_id,
}
use submitter_smtp_daemon.Queue.Rows.{find_row-update_where_self, find_row-update_where_ne}
use submitter_smtp_daemon.Queue.{
  get_pending_deliveries, QueueItem, scan_item, update_delivery_state, updated,
}
use submitter_smtp_daemon.Schema.{
  unix, DeliveryState, Row, delivered, find_row, perm_fail, temp_fail, update_where,
}
use submitter_smtp_daemon.Prelude.{
  Member-append-right, length, sym, ◌++◌, ◌<◌, List, Member, Member-append-left, Text, [], ap,
  arith, false, inl, inr, none, refl, some, txt, ℕ, ◌+◌, ◌∙◌, ◌∷◌, ◌≡◌, ◌≢◌, ◌⊎◌,
}

-- The schedule is not empty and every update is written.
module _ (first : ℕ) (ds : List ℕ) (answers : ℕ → Answers)
    (written : (k : ℕ) → (answers k).update_fails ≡ false) where
  -- What processing an item leaves alone: the schedule, the spool, what was sent, other rows.
  record Leaves (item : QueueItem) (w w' : Worker) : Type 0 where
    scheduled : w'.config.retry_schedule ≡ first ∷ ds
    spooled : w'.spool ≡ w.spool
    sent : (e : Envelope) → Member e w.sent → Member e w'.sent
    others :
        (id : Text)
        → item.dlv_id ≢ id
        → find_row id w'.db.delivery_queue ≡ find_row id w.db.delivery_queue

  stored-Leaves :
      (k : ℕ) (item : QueueItem) (w w' : Worker)
      → w.config.retry_schedule ≡ first ∷ ds
      → ((e : Envelope) → Member e w.sent → Member e w'.sent)
      → (state : DeliveryState) (host ip error : Text) (code : ℕ) (message : Text) (next_at : ℕ)
      → IsStored (answers k) item w w' state host ip error code message next_at
      → Leaves item w w'
  unfolding update_delivery_state updated
  stored-Leaves k item w w' scheduled kept state host ip error code message next_at stored =
      let a = answers k in
      let f = updated state host ip error code message next_at a.delivered_now a.updated_now in
      let rows' : w'.db.delivery_queue ≡ update_where item.dlv_id f w.db.delivery_queue =
        ground (arith, stored.0, written k) in
      record {
        scheduled = ap (λ (c : WorkerConfig). c.retry_schedule) stored.2 ∙ scheduled;
        spooled = stored.1;
        sent = kept;
        others = λ id ne.
            rw rows' (find_row-update_where_ne item.dlv_id f (λ x. refl) id w.db.delivery_queue ne);
      }

  process-Leaves :
      (k : ℕ) (item : QueueItem) (w : Worker)
      → w.config.retry_schedule ≡ first ∷ ds
      → (w' : Worker) × (process_delivery (answers k) item w ≡ some w') × Leaves item w w'
  process-Leaves k item w scheduled =
      let (w', same, fate) = process_delivery_lem (answers k) item w first ds scheduled in
      (w', same, by_fate w' fate)
    where
      by_fate :
          (w' : Worker)
          → IsDelivered (answers k) item w w'
            ⊎ (IsRetried (answers k) item w w' first ds ⊎ IsGivenUp (answers k) item w w')
          → Leaves item w w'
      by_fate w' (inl (msg, host, ip, x0, x1, x2, sent_one, stored)) =
          stored-Leaves k item w w' scheduled (λ e m. rw sent_one (Member-append-left e w.sent _ m))
            delivered host ip [] 250 (txt "OK") 0 stored
      by_fate w' (inr (inl (host, ip, error, x0, unsent, stored))) =
          stored-Leaves k item w w' scheduled
            (Member-IsUnconfirmed (answers k) item w host ip w'.sent unsent) temp_fail host ip error
            0 [] _ stored
      by_fate w' (inr (inr (host, ip, error, x0, unsent, stored))) =
          stored-Leaves k item w w' scheduled
            (Member-IsUnconfirmed (answers k) item w host ip w'.sent unsent) perm_fail host ip error
            0 [] 0 stored

  -- Items of other ids.
  items-Leave :
      (id : Text) (n : ℕ) (items : List QueueItem) (w : Worker)
      → w.config.retry_schedule ≡ first ∷ ds
      → Lacks item_id id items
      → (w' : Worker) × (process_items answers n items w ≡ some w')
        × ((e : Envelope) → Member e w.sent → Member e w'.sent)
        × (find_row id w'.db.delivery_queue ≡ find_row id w.db.delivery_queue)
  unfolding process_items
  items-Leave id n [] w scheduled lacks = (w, refl, λ e m. m, refl)
  items-Leave id n (item ∷ items) w scheduled lacks =
      let (w1, same1, l) = process-Leaves n item w scheduled in
      let (w2, same2, sent2, row2) = items-Leave id (n + 1) items w1 l.scheduled lacks.1 in
      (w2, rw (same1, process_items) same2, λ e m. sent2 e (l.sent e m), row2 ∙ l.others id lacks.0)

  -- An item whose message is readable, whose lookup works and whose server accepts.
  module _ (r : Row) (msg_data : List ℕ) (host ip : Text)
      (found : (k : ℕ) → lookup_mx (answers k) r.recipient ≡ (host, ip, none))
      (complete : (k : ℕ) → IsComplete (answers k).transaction) where
    abbrev Done : Worker → Type 0
    Done w' =
        ((r' : Row) × (find_row r.dlv_id w'.db.delivery_queue ≡ some r') × (r'.state ≡ delivered))
        × Member (envelope host r.recipient msg_data) w'.sent

    good_attempt :
        (k : ℕ) (item : QueueItem) (w : Worker)
        → item.recipient ≡ r.recipient
        → (w' : Worker) × (attempt (answers k) item msg_data (host, ip, none) w ≡ some w')
          × (w'.sent ≡ w.sent ++ envelope host item.recipient msg_data ∷ [])
          × IsStored (answers k) item w w' delivered host ip [] 250 (txt "OK") 0
    unfolding attempt finish record_attempt update_delivery_success set_state
    good_attempt k item w to =
        rw (deliver_complete host item.recipient msg_data (answers k).transaction (complete k))
          (_, refl, refl, (refl, refl, refl))

    good_item :
        (k : ℕ) (w : Worker)
        → read_message (answers k) r.msg_id w.spool ≡ some msg_data
        → find_row r.dlv_id w.db.delivery_queue ≡ some r
        → (w' : Worker) × (process_delivery (answers k) (scan_item r) w ≡ some w')
          × Done w'
          × (w'.config ≡ w.config)
    unfolding process_delivery scan_item update_delivery_state updated
    good_item k w readable held =
        let a = answers k in
        let (w', same, sent, stored) = good_attempt k (scan_item r) w refl in
        let f = updated delivered host ip [] 250 (txt "OK") 0 a.delivered_now a.updated_now in
        let rows' : w'.db.delivery_queue ≡ update_where r.dlv_id f w.db.delivery_queue =
          ground (arith, stored.0, written k) in
        (
          w',
          rw (readable, process_delivery, found k) same,
          (
            (
              f r,
              rw rows'
                  (find_row-update_where_self r.dlv_id f (λ x. refl) r w.db.delivery_queue held),
              refl,
            ),
            rw sent (Member-append-right _ w.sent _ (inl refl)),
          ),
          stored.2,
        )

    -- A batch that holds the item of the row.
    good_items :
        (n : ℕ) (items : List QueueItem) (w : Worker)
        → w.config.retry_schedule ≡ first ∷ ds
        → ((k : ℕ) → read_message (answers k) r.msg_id w.spool ≡ some msg_data)
        → find_row r.dlv_id w.db.delivery_queue ≡ some r
        → IsDistinct item_id items
        → Member (scan_item r) items
        → (w' : Worker) × (process_items answers n items w ≡ some w') × Done w'
    unfolding process_items scan_item
    good_items n [] w scheduled readable held apart m = absurd m
    good_items n (item ∷ items) w scheduled readable held apart (inl e) =
        let (w1, same1, (row1, sent1), config1) = good_item n w (readable n) held in
        let (r1, held1, is_delivered) = row1 in
        let lacks : Lacks item_id r.dlv_id items =
          subst (λ (i : QueueItem). Lacks item_id i.dlv_id items) (sym e) apart.0 in
        let (w2, same2, sent2, row2) =
          items-Leave r.dlv_id (n + 1) items w1
            (ap (λ (c : WorkerConfig). c.retry_schedule) config1 ∙ scheduled) lacks in
        let same1' : process_delivery (answers n) item w ≡ some w1 =
          subst (λ i. process_delivery (answers n) i w ≡ some w1) e same1 in
        (w2, rw (same1', process_items) same2, ((r1, row2 ∙ held1, is_delivered), sent2 _ sent1))
    good_items n (item ∷ items) w scheduled readable held apart (inr m) =
        let ne : item.dlv_id ≢ r.dlv_id =
          λ e. Lacks-Member item_id item.dlv_id (scan_item r) items apart.0 m (sym e) in
        let (w1, same1, l) = process-Leaves n item w scheduled in
        let (w2, same2, end) =
          good_items (n + 1) items w1 l.scheduled
            (λ k. ap (read_message (answers k) r.msg_id) l.spooled ∙ readable k)
            (l.others r.dlv_id ne ∙ held) apart.1 m in
        (w2, rw (same1, process_items) same2, end)

    -- The schedule of a worker is not empty, in its table no id occurs twice, and a row is due. The
    -- database answers and writes every update, ORDER BY permutes the rows, and fewer than ten are
    -- polled. If the message of the row can be read, the lookup works for its recipient and the
    -- servers accept every call, then the batch comes to its end, the message was handed to the
    -- server of the recipient, and the row is delivered.
    pub delivered_in_batch :
        (order_by : List Row → List Row) (now : ℕ) (items : List QueueItem) (w : Worker)
        → IsOrderBy order_by
        → ((rs : List Row) → Perm (order_by rs) rs)
        → w.config.retry_schedule ≡ first ∷ ds
        → IsDistinct row_id w.db.delivery_queue
        → Member r w.db.delivery_queue
        → IsReady (unix now) r
        → ((k : ℕ) → read_message (answers k) r.msg_id w.spool ≡ some msg_data)
        → get_pending_deliveries order_by false 10 now w.db ≡ some items
        → length items < 10
        → (w' : Worker) × (process_batch order_by false now answers w ≡ some w')
          × ((r' : Row) × (find_row r.dlv_id w'.db.delivery_queue ≡ some r')
              × (r'.state ≡ delivered))
          × Member (envelope host r.recipient msg_data) w'.sent
    unfolding process_batch
    delivered_in_batch order_by now items w ordered permutes scheduled distinct m ready readable
          polled few =
        let held = IsDistinct-IsKeyed w.db.delivery_queue distinct r m in
        let apart =
          get_pending_deliveries-IsDistinct order_by false 10 now w.db items permutes distinct
            polled in
        elim (get_pending_deliveries_complete order_by ordered false 10 now w.db items polled r m
          ready) [
            | inl there ↦
                let (w', same, (row', sent')) =
                  good_items 0 items w scheduled readable held apart there in
                (w', rw (polled, process_batch) same, row', sent')
            | inr (full, x) ↦ absurd (omega (arith, full, few))
          ]
