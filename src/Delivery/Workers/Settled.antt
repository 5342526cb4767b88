-- ===== src/Delivery/Workers/Settled.antt =====
-- Deliveries that are done with, under the steps of the workers of internal/delivery/worker.go.
use mathlib.Core.Path.{subst}
use mathlib.Core.Option
use submitter_smtp_daemon.Delivery.Workers.Steps.{enqueue_cases}
use submitter_smtp_daemon.Delivery.Workers.{
  System, Step, Reachable, polls, processes, enqueues, started, next, polled, processed, enqueued,
  put_inbox,
}
use submitter_smtp_daemon.Delivery.Attempts.{WritesOnce, writes_once}
use submitter_smtp_daemon.Delivery.Process.{process_delivery_lem}
use submitter_smtp_daemon.Delivery.Report.{IsDelivered, IsGivenUp, IsRetried}
use submitter_smtp_daemon.Delivery.{Answers, Worker, WorkerConfig, process_delivery}
use submitter_smtp_daemon.Queue.Pending.{IsOrderBy, get_pending_deliveries_lem}
use submitter_smtp_daemon.Queue.Rows.{
  IsKeyed, append-IsKeyed, find_row-append, find_row-update_where_ne, update_where-IsKeyed,
}
use submitter_smtp_daemon.Queue.{
  QueueItem, get_pending_deliveries, new_row, scan_item, update_delivery_state, updated,
}
use submitter_smtp_daemon.Schema.{Row, find_row, queued, temp_fail, update_where}
use submitter_smtp_daemon.Prelude.{
  Bool, Bool-cases, List, Member, Text, ap, arith, inl, inr, refl, some, sym, ℕ, ℤ, ◌==◌, ◌∙◌, ◌∷◌,
  ◌≡◌, ◌≢◌, ◌⊎◌,
}

-- A row that no poll returns.
abbrev pub IsDone : Row → Type 0
IsDone r = (r.state ≢ queued) × (r.state ≢ temp_fail)

module _ (id : Text) where
  -- No worker holds an item of the id.
  abbrev pub IsFree : (ℕ → List QueueItem) → Type 0
  IsFree inbox = (i : ℕ) (item : QueueItem) → Member item (inbox i) → item.dlv_id ≢ id

  -- The row of the id is done with.
  abbrev pub HasDone : List Row → Type 0
  HasDone rows = (r : Row) × (find_row id rows ≡ some r) × IsDone r

  put_inbox-IsFree :
      (i : ℕ) (items : List QueueItem) (inbox : ℕ → List QueueItem)
      → ((item : QueueItem) → Member item items → item.dlv_id ≢ id)
      → IsFree inbox
      → IsFree (put_inbox i items inbox)
  unfolding put_inbox
  put_inbox-IsFree i items inbox new old j item m = elim (Bool-cases (j == i)) [
    | inl own ↦ new item (rw own at m)
    | inr other ↦ old j item (rw other at m)
  ]

  module _ (first : ℕ) (ds : List ℕ) where
    record IsSettled (s : System) : Type 0 where
      keyed : IsKeyed s.shared.db.delivery_queue
      scheduled : s.shared.config.retry_schedule ≡ first ∷ ds
      over : HasDone s.shared.db.delivery_queue
      free : IsFree s.inbox

    polled-IsSettled :
        (i now : ℕ) (order_by : List Row → List Row) (fault : Bool) (items : List QueueItem)
        (s : System)
        → IsOrderBy order_by
        → get_pending_deliveries order_by fault 10 now s.shared.db ≡ some items
        → IsSettled s
        → IsSettled (polled i items s)
    unfolding polled scan_item
    polled-IsSettled i now order_by fault items s ordered given h = record {
      keyed = h.keyed;
      scheduled = h.scheduled;
      over = h.over;
      free =
          put_inbox-IsFree i items s.inbox
            (λ item m own.
              let (r, mr, (waits, due), same) =
                (get_pending_deliveries_lem order_by ordered fault 10 now s.shared.db items given).1
                  item m in
              let (d, found, (not_queued, not_temp)) = h.over in
              let r_id : r.dlv_id ≡ id = ap (λ (x : QueueItem). x.dlv_id) (sym same) ∙ own in
              let r_is : some r ≡ some d =
                sym (h.keyed r mr) ∙ ap (λ j. find_row j s.shared.db.delivery_queue) r_id ∙ found in
              let r_is_d : r ≡ d = Option.some-injective _ _ r_is in
              elim waits [
                | inl q ↦ not_queued (ap (λ (x : Row). x.state) (sym r_is_d) ∙ q)
                | inr t ↦ not_temp (ap (λ (x : Row). x.state) (sym r_is_d) ∙ t)
              ])
            h.free;
    }

    enqueued-IsSettled :
        (foreign_keys fault : Bool) (dlv_id msg_id recipient : Text) (max_attempts : ℤ) (now : ℕ)
        (s : System)
        → IsSettled s
        → IsSettled (enqueued foreign_keys fault dlv_id msg_id recipient max_attempts now s)
    unfolding enqueued
    enqueued-IsSettled foreign_keys fault dlv_id msg_id recipient max_attempts now s h =
        elim (enqueue_cases foreign_keys fault dlv_id msg_id recipient max_attempts now
          s.shared.db) [
            | inl same ↦
                subst (λ db. IsSettled (record s { shared = record s.shared { db = db } }))
                  (sym same) h
            | inr (fresh, e) ↦
                let new = new_row dlv_id msg_id recipient max_attempts now in
                let rows = s.shared.db.delivery_queue in
                let (d, found, is_done) = h.over in
                record {
                  keyed = rw e (append-IsKeyed rows new fresh h.keyed);
                  scheduled = h.scheduled;
                  over = rw e (d, rw (find_row-append id rows new) (rw found refl), is_done);
                  free = h.free;
                }
          ]

    -- One update of another id.
    update-IsSettled :
        (i : ℕ) (items : List QueueItem) (dlv_id : Text) (f : Row → Row) (w' : Worker) (s : System)
        → ((r : Row) → (f r).dlv_id ≡ r.dlv_id)
        → dlv_id ≢ id
        → (w'.db.delivery_queue ≡ s.shared.db.delivery_queue)
          ⊎ (w'.db.delivery_queue ≡ update_where dlv_id f s.shared.db.delivery_queue)
        → w'.config ≡ s.shared.config
        → ((item : QueueItem) → Member item items → item.dlv_id ≢ id)
        → IsSettled s
        → IsSettled (processed i items w' s)
    unfolding processed
    update-IsSettled i items dlv_id f w' s keeps other (inl same) config rest h = record {
      keyed = rw same h.keyed;
      scheduled = ap (λ (c : WorkerConfig). c.retry_schedule) config ∙ h.scheduled;
      over = rw same h.over;
      free = put_inbox-IsFree i items s.inbox rest h.free;
    }
    update-IsSettled i items dlv_id f w' s keeps other (inr e) config rest h =
        let (d, found, is_done) = h.over in
        record {
          keyed = rw e (update_where-IsKeyed dlv_id f s.shared.db.delivery_queue keeps h.keyed);
          scheduled = ap (λ (c : WorkerConfig). c.retry_schedule) config ∙ h.scheduled;
          over = rw e (
            d,
            find_row-update_where_ne dlv_id f keeps id s.shared.db.delivery_queue other ∙ found,
            is_done,
          );
          free = put_inbox-IsFree i items s.inbox rest h.free;
        }

    same_config :
        (a : Answers) (item : QueueItem) (w w' : Worker)
        → IsDelivered a item w w' ⊎ (IsRetried a item w w' first ds ⊎ IsGivenUp a item w w')
        → w'.config ≡ w.config
    same_config a item w w' (inl (x0, x1, x2, x3, x4, x5, x6, stored)) = stored.2
    same_config a item w w' (inr (inl (x0, x1, x2, x3, x4, stored))) = stored.2
    same_config a item w w' (inr (inr (x0, x1, x2, x3, x4, stored))) = stored.2

    processed-IsSettled :
        (i : ℕ) (a : Answers) (item : QueueItem) (items : List QueueItem) (w' : Worker) (s : System)
        → s.inbox i ≡ item ∷ items
        → process_delivery a item s.shared ≡ some w'
        → IsSettled s
        → IsSettled (processed i items w' s)
    unfolding WritesOnce update_delivery_state updated
    processed-IsSettled i a item items w' s held ended h =
        let (v, same, fate_v) = process_delivery_lem a item s.shared first ds h.scheduled in
        let is_w' : v ≡ w' = Option.some-injective _ _ (sym same ∙ ended) in
        let fate =
          subst
            (λ x.
              IsDelivered a item s.shared x
              ⊎ (IsRetried a item s.shared x first ds ⊎ IsGivenUp a item s.shared x))
            is_w' fate_v in
        let (state, host, ip, e, code, message, next_attempt, stored, allowed) =
          writes_once a item s.shared first ds w' fate in
        update-IsSettled i items item.dlv_id
          (updated state host ip e code message next_attempt a.delivered_now a.updated_now) w' s
          (λ r. refl) (h.free i item (rw held (inl refl)))
          (elim (Bool-cases a.update_fails) [
            | inl lost ↦ inl (ground (arith, stored))
            | inr works ↦ inr (ground (arith, stored))
          ])
          (same_config a item s.shared w' fate) (λ j m. h.free i j (rw held (inr m))) h

    step-IsSettled : (s s' : System) → Step s s' → IsSettled s → IsSettled s'
    step-IsSettled s s' (polls i now order_by fault items s0 ordered idle given) h =
        polled-IsSettled i now order_by fault items s0 ordered given h
    step-IsSettled s s' (processes i a item items w' s0 held ended) h =
        processed-IsSettled i a item items w' s0 held ended h
    step-IsSettled s s' (enqueues foreign_keys fault dlv_id msg_id recipient max_attempts now s0)
          h =
        enqueued-IsSettled foreign_keys fault dlv_id msg_id recipient max_attempts now s0 h

    reachable-IsSettled : (start s : System) → Reachable start s → IsSettled start → IsSettled s
    reachable-IsSettled start s started h = h
    reachable-IsSettled start s (next before step) h =
        step-IsSettled _ s step (reachable-IsSettled start _ before h)

  -- Once the row of an id is neither queued nor temp_fail and no worker holds an item of that id, it
  -- stays so, in a table keyed by dlv_id and with a schedule that is not empty, however polls,
  -- processings and new deliveries take turns: the delivery is never handed over again.
  pub done_for_ever :
      (start s : System) (first : ℕ) (ds : List ℕ)
      → Reachable start s
      → start.shared.config.retry_schedule ≡ first ∷ ds
      → IsKeyed start.shared.db.delivery_queue
      → HasDone start.shared.db.delivery_queue
      → IsFree start.inbox
      → HasDone s.shared.db.delivery_queue × IsFree s.inbox
  done_for_ever start s first ds reached scheduled keyed over free =
      let h =
        reachable-IsSettled first ds start s reached
          (record { keyed = keyed; scheduled = scheduled; over = over; free = free }) in
      (h.over, h.free)
