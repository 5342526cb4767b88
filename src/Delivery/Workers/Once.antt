-- ===== src/Delivery/Workers/Once.antt =====
-- One worker of internal/delivery/worker.go on its own, beside the callers of EnqueueDelivery.
use mathlib.Core.Path.{subst}
use mathlib.Core.Option
use mathlib.Core.List.{Perm}
use submitter_smtp_daemon.Delivery.Process.{process_delivery_lem}
use submitter_smtp_daemon.Delivery.Report.{
  HasLostReply, IsUnconfirmed, IsDelivered, IsGivenUp, IsRetried, IsStored, envelope,
}
use submitter_smtp_daemon.Delivery.Workers.Steps.{enqueue_cases}
use submitter_smtp_daemon.Delivery.Workers.{
  polls, processes, enqueues, next, started, Reachable, Step, polled, processed, enqueued,
  put_inbox, System,
}
use submitter_smtp_daemon.Delivery.{Answers, Worker, WorkerConfig, process_delivery}
use submitter_smtp_daemon.Queue.Distinct.{
  IsDistinct, Lacks-Member, count_state-update_where, row_id, item_id, IsDistinct-IsKeyed,
  append-IsDistinct, find_row-Lacks, get_pending_deliveries-IsDistinct, update_where-IsDistinct,
}
use submitter_smtp_daemon.Queue.Pending.{IsOrderBy, get_pending_deliveries_lem}
use submitter_smtp_daemon.Queue.Rows.{find_row-update_where_ne, find_row-append}
use submitter_smtp_daemon.Queue.{
  count_state, QueueItem, get_pending_deliveries, new_row, scan_item, update_delivery_state,
  updated,
}
use submitter_smtp_daemon.Schema.{
  queued, Row, DeliveryState, find_row, delivering, delivered, temp_fail, perm_fail, state_eq,
  update_where,
}
use submitter_smtp_daemon.Prelude.{
  Bool, List, Member, Text, [], ap, arith, false, if◌then◌else◌, inl, inr, length, length-append,
  refl, some, sym, txt, ℕ, ℤ, ◌++◌, ◌+◌, ◌∙◌, ◌∷◌, ◌≡◌, ◌≢◌, ◌⊎◌,
}

-- A step of worker 0, whose ORDER BY permutes the rows, whose updates are written and which loses no
-- reply of a server that has taken the message, or a new delivery.
abbrev pub IsSolo : {s s' : System} → Step s s' → Type 0
IsSolo (polls i now order_by fault items s ordered free given) =
    (i ≡ 0) × ((rs : List Row) → Perm (order_by rs) rs)
IsSolo (processes i a item items w' s held ended) =
    (i ≡ 0) × (a.update_fails ≡ false) × (HasLostReply a.transaction → ⊥)
IsSolo (enqueues foreign_keys fault dlv_id msg_id recipient max_attempts now s) = Unit {0}

abbrev pub IsSoloRun : {start s : System} → Reachable start s → Type 0
IsSoloRun started = Unit {0}
IsSoloRun (next before step) = IsSoloRun before × IsSolo step

count_state-append :
    (s : DeliveryState) (rs : List Row) (new : Row)
    → count_state s (rs ++ new ∷ []) ≡ count_state s rs + (if state_eq new.state s then 1 else 0)
unfolding count_state
count_state-append s [] new = omega arith
count_state-append s (x ∷ xs) new = omega (arith, count_state-append s xs new)

-- What a row counts for among the delivered.
abbrev tally : DeliveryState → ℕ
tally s = if state_eq s delivered then 1 else 0

not_delivered : (s : DeliveryState) → s ≢ delivered → tally s ≡ 0
not_delivered queued h = refl
not_delivered delivering h = refl
not_delivered delivered h = absurd (h refl)
not_delivered temp_fail h = refl
not_delivered perm_fail h = refl

-- The item stands for a row that is not delivered.
abbrev IsOpen : List Row → QueueItem → Type 0
IsOpen rows item = (r : Row) × (find_row item.dlv_id rows ≡ some r) × (r.state ≢ delivered)

module _ (first : ℕ) (ds : List ℕ) where
  record IsExact (s : System) : Type 0 where
    scheduled : s.shared.config.retry_schedule ≡ first ∷ ds
    distinct : IsDistinct row_id s.shared.db.delivery_queue
    once : IsDistinct item_id (s.inbox 0)
    open_ : (item : QueueItem) → Member item (s.inbox 0) → IsOpen s.shared.db.delivery_queue item
    counted : length s.shared.sent ≡ count_state delivered s.shared.db.delivery_queue

  polled-IsExact :
      (now : ℕ) (order_by : List Row → List Row) (fault : Bool) (items : List QueueItem)
      (s : System)
      → IsOrderBy order_by
      → ((rs : List Row) → Perm (order_by rs) rs)
      → get_pending_deliveries order_by fault 10 now s.shared.db ≡ some items
      → IsExact s
      → IsExact (polled 0 items s)
  unfolding polled put_inbox scan_item
  polled-IsExact now order_by fault items s ordered permutes given h = record {
    scheduled = h.scheduled;
    distinct = h.distinct;
    once =
        get_pending_deliveries-IsDistinct order_by fault 10 now s.shared.db items permutes
          h.distinct given;
    open_ = λ item m.
        let (r, mr, (waits, due), same) =
          (get_pending_deliveries_lem order_by ordered fault 10 now s.shared.db items given).1 item
            m in
        (
          r,
          rw same (IsDistinct-IsKeyed s.shared.db.delivery_queue h.distinct r mr),
          λ d. elim waits [ inl q ↦ cc (q, d) | inr t ↦ cc (t, d) ],
        );
    counted = h.counted;
  }

  enqueued-IsExact :
      (foreign_keys fault : Bool) (dlv_id msg_id recipient : Text) (max_attempts : ℤ) (now : ℕ)
      (s : System)
      → IsExact s
      → IsExact (enqueued foreign_keys fault dlv_id msg_id recipient max_attempts now s)
  unfolding enqueued
  enqueued-IsExact foreign_keys fault dlv_id msg_id recipient max_attempts now s h =
      elim (enqueue_cases foreign_keys fault dlv_id msg_id recipient max_attempts now s.shared.db) [
        | inl same ↦
            subst (λ db. IsExact (record s { shared = record s.shared { db = db } })) (sym same) h
        | inr (fresh, e) ↦
            let new = new_row dlv_id msg_id recipient max_attempts now in
            let rows = s.shared.db.delivery_queue in
            record {
              scheduled = h.scheduled;
              distinct =
                  rw e (
                    append-IsDistinct row_id rows new (find_row-Lacks dlv_id rows fresh)
                      h.distinct);
              once = h.once;
              open_ = rw e (λ item m.
                  let (r, found, o) = h.open_ item m in
                  (r, rw (find_row-append item.dlv_id rows new) (rw found refl), o));
              counted = rw e (omega (arith, h.counted, count_state-append delivered rows new));
            }
      ]

  module _ (a : Answers) (item : QueueItem) (items : List QueueItem) (w' : Worker) (s : System)
      (held : s.inbox 0 ≡ item ∷ items) (written : a.update_fails ≡ false)
      (replied : HasLostReply a.transaction → ⊥) (h : IsExact s) where
    stored-IsExact :
        (state : DeliveryState) (mx_host mx_ip error_msg : Text) (smtp_code : ℕ)
        (smtp_message : Text) (next_attempt : ℕ)
        → IsStored a item s.shared w' state mx_host mx_ip error_msg smtp_code smtp_message
            next_attempt
        → length w'.sent ≡ length s.shared.sent + tally state
        → IsExact (processed 0 items w' s)
    unfolding processed put_inbox update_delivery_state updated
    stored-IsExact state mx_host mx_ip error_msg smtp_code smtp_message next_attempt stored more =
        let f =
          updated state mx_host mx_ip error_msg smtp_code smtp_message next_attempt a.delivered_now
            a.updated_now in
        let rows = s.shared.db.delivery_queue in
        let e : w'.db.delivery_queue ≡ update_where item.dlv_id f rows =
          ground (arith, stored.0, written) in
        let (r, found, not_yet) = h.open_ item (rw held (inl refl)) in
        let count =
          count_state-update_where item.dlv_id f (λ x. refl) delivered r rows h.distinct found in
        let apart : IsDistinct item_id (item ∷ items) = rw held at (h.once) in
        record {
          scheduled = ap (λ (c : WorkerConfig). c.retry_schedule) stored.2 ∙ h.scheduled;
          distinct = rw e (update_where-IsDistinct item.dlv_id f (λ x. refl) rows h.distinct);
          once = apart.1;
          open_ = rw e (λ other m.
              let (q, there, o) = h.open_ other (rw held (inr m)) in
              (
                q,
                find_row-update_where_ne item.dlv_id f (λ x. refl) other.dlv_id rows
                      (λ same. Lacks-Member item_id item.dlv_id other items apart.0 m (sym same))
                    ∙ there,
                o,
              ));
          counted = rw e omega (arith, more, count, h.counted, not_delivered r.state not_yet);
        }

    processed-IsExact :
        process_delivery a item s.shared ≡ some w' → IsExact (processed 0 items w' s)
    processed-IsExact ended =
        let (v, same, fate) = process_delivery_lem a item s.shared first ds h.scheduled in
        let is_w' : v ≡ w' = Option.some-injective _ _ (sym same ∙ ended) in
        by_fate (
          subst
            (λ x.
              IsDelivered a item s.shared x
              ⊎ (IsRetried a item s.shared x first ds ⊎ IsGivenUp a item s.shared x))
            is_w' fate)
      where
        unsent :
            (mx_host mx_ip : Text)
            → IsUnconfirmed a item s.shared mx_host mx_ip w'.sent
            → length w'.sent ≡ length s.shared.sent + 0
        unsent mx_host mx_ip (inl same) = rw same (omega arith)
        unsent mx_host mx_ip (inr (msg, x0, x1, lost, x2)) = absurd (replied lost)

        by_fate :
            IsDelivered a item s.shared w'
              ⊎ (IsRetried a item s.shared w' first ds ⊎ IsGivenUp a item s.shared w')
            → IsExact (processed 0 items w' s)
        by_fate (inl (msg, mx_host, mx_ip, x0, x1, x2, sent_one, stored)) =
            stored-IsExact delivered mx_host mx_ip [] 250 (txt "OK") 0 stored
              (rw sent_one (length-append s.shared.sent (envelope mx_host item.recipient msg ∷ [])))
        by_fate (inr (inl (mx_host, mx_ip, e, more, q, stored))) =
            stored-IsExact temp_fail mx_host mx_ip e 0 [] _ stored (unsent mx_host mx_ip q)
        by_fate (inr (inr (mx_host, mx_ip, e, why, q, stored))) =
            stored-IsExact perm_fail mx_host mx_ip e 0 [] 0 stored (unsent mx_host mx_ip q)

  step-IsExact : (s s' : System) (step : Step s s') → IsSolo step → IsExact s → IsExact s'
  step-IsExact s s' (polls i now order_by fault items s0 ordered free given) solo h =
      subst (λ j. IsExact (polled j items s0)) (sym solo.0)
        (polled-IsExact now order_by fault items s0 ordered solo.1 given h)
  step-IsExact s s' (processes i a item items w' s0 held ended) solo h =
      subst (λ j. IsExact (processed j items w' s0)) (sym solo.0)
        (processed-IsExact a item items w' s0 (subst (λ j. s0.inbox j ≡ item ∷ items) solo.0 held)
          solo.1 solo.2 h ended)
  step-IsExact s s' (enqueues foreign_keys fault dlv_id msg_id recipient max_attempts now s0) solo
        h =
      enqueued-IsExact foreign_keys fault dlv_id msg_id recipient max_attempts now s0 h

  reachable-IsExact :
      (start s : System) (reached : Reachable start s)
      → IsSoloRun reached
      → IsExact start
      → IsExact s
  reachable-IsExact start s started solo h = h
  reachable-IsExact start s (next before step) solo h =
      step-IsExact _ s step solo.1 (reachable-IsExact start _ before solo.0 h)

-- A single worker that has polled nothing yet, with a schedule that is not empty, starts on a table
-- in which no id occurs twice, with as many messages sent as rows are delivered. If ORDER BY
-- permutes the rows of a poll, every update is written, and no connection breaks at Close after the
-- server has taken the message, then at any moment, whatever else fails and whatever deliveries are
-- enqueued, it has handed over exactly as many messages as rows are delivered, and no id occurs twice:
-- no delivery is handed over a second time.
pub sent_once :
    (start s : System) (first : ℕ) (ds : List ℕ) (reached : Reachable start s)
    → IsSoloRun reached
    → start.shared.config.retry_schedule ≡ first ∷ ds
    → IsDistinct row_id start.shared.db.delivery_queue
    → start.inbox 0 ≡ []
    → length start.shared.sent ≡ count_state delivered start.shared.db.delivery_queue
    → (length s.shared.sent ≡ count_state delivered s.shared.db.delivery_queue)
      × IsDistinct row_id s.shared.db.delivery_queue
sent_once start s first ds reached solo scheduled distinct free counted =
    (result.counted, result.distinct)
  where
    begin : IsExact first ds start
    begin = record {
      scheduled = scheduled;
      distinct = distinct;
      once = rw free tt;
      open_ = λ item m. absurd (rw free at m);
      counted = counted;
    }

    result : IsExact first ds s
    result = reachable-IsExact first ds start s reached solo begin
