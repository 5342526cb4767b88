-- ===== src/Delivery/Workers/Steps.antt =====
-- Polls of internal/delivery/worker.go and new deliveries of internal/queue/queue.go, as steps on the
-- queue and what was sent.
use mathlib.Core.Path.{subst}
use submitter_smtp_daemon.Delivery.Workers.Ledger.{
  IsHonest-Grows, IsKnown, IsKnown-Grows, append-Grows, append-IsAccounted, IsAccounted, IsHonest,
}
use submitter_smtp_daemon.Delivery.Workers.{System, enqueued, polled, put_inbox}
use submitter_smtp_daemon.Queue.Rows.{append-IsKeyed, IsKeyed}
use submitter_smtp_daemon.Queue.Pending.{IsOrderBy, get_pending_deliveries_lem}
use submitter_smtp_daemon.Queue.{
  new_row, enqueue_delivery, QueueItem, get_pending_deliveries, scan_item,
}
use submitter_smtp_daemon.Schema.{Db, find_row, Row}
use submitter_smtp_daemon.Files.{Fs}
use submitter_smtp_daemon.Prelude.{
  arith, [], none, sym, ◌++◌, ◌⊎◌, Bool, Bool-cases, List, Member, Text, inl, inr, refl, some, ℕ, ℤ,
  ◌==◌, ◌∷◌, ◌≡◌,
}

pub enqueue_cases :
    (foreign_keys fault : Bool) (dlv_id msg_id recipient : Text) (max_attempts : ℤ) (now : ℕ)
    (db : Db)
    → ((enqueue_delivery foreign_keys fault dlv_id msg_id recipient max_attempts now db).1 ≡ db)
      ⊎ ((find_row dlv_id db.delivery_queue ≡ none)
          × ((enqueue_delivery foreign_keys fault dlv_id msg_id recipient max_attempts now
                db).1.delivery_queue
              ≡ db.delivery_queue ++ new_row dlv_id msg_id recipient max_attempts now ∷ []))
unfolding enqueue_delivery
enqueue_cases foreign_keys fault dlv_id msg_id recipient max_attempts now db = ground arith

-- What is known of an inbox that was changed at one place.
pub put_inbox-IsKnown :
    (rows : List Row) (i : ℕ) (items : List QueueItem) (inbox : ℕ → List QueueItem)
    → ((item : QueueItem) → Member item items → IsKnown rows item)
    → ((j : ℕ) (item : QueueItem) → Member item (inbox j) → IsKnown rows item)
    → (j : ℕ) (item : QueueItem) → Member item (put_inbox i items inbox j)
    → IsKnown rows item
unfolding put_inbox
put_inbox-IsKnown rows i items inbox new old j item m = elim (Bool-cases (j == i)) [
  | inl own ↦ new item (rw own at m)
  | inr other ↦ old j item (rw other at m)
]

module _ (fs : Fs) (first : ℕ) (ds : List ℕ) where
  -- The queue and what was sent agree, and what the workers hold stands for rows of the queue.
  pub record IsSound (s : System) : Type 0 where
    pub rested : s.shared.spool ≡ fs
    pub scheduled : s.shared.config.retry_schedule ≡ first ∷ ds
    pub keyed : IsKeyed s.shared.db.delivery_queue
    pub known :
        (i : ℕ) (item : QueueItem)
        → Member item (s.inbox i)
        → IsKnown s.shared.db.delivery_queue item
    pub honest : IsHonest fs s.shared.db.delivery_queue s.shared.sent
    pub accounted : IsAccounted fs s.shared.db.delivery_queue s.shared.sent

  pub polled-IsSound :
      (i now : ℕ) (order_by : List Row → List Row) (fault : Bool) (items : List QueueItem)
      (s : System)
      → IsOrderBy order_by
      → get_pending_deliveries order_by fault 10 now s.shared.db ≡ some items
      → IsSound s
      → IsSound (polled i items s)
  unfolding polled scan_item
  polled-IsSound i now order_by fault items s ordered given h = record {
    rested = h.rested;
    scheduled = h.scheduled;
    keyed = h.keyed;
    known =
        put_inbox-IsKnown s.shared.db.delivery_queue i items s.inbox
          (λ item m.
            let (r, mr, ready, same) =
              (get_pending_deliveries_lem order_by ordered fault 10 now s.shared.db items given).1
                item m in
            (r, rw same (h.keyed r mr), rw same refl, rw same refl))
          h.known;
    honest = h.honest;
    accounted = h.accounted;
  }

  pub enqueued-IsSound :
      (foreign_keys fault : Bool) (dlv_id msg_id recipient : Text) (max_attempts : ℤ) (now : ℕ)
      (s : System)
      → IsSound s
      → IsSound (enqueued foreign_keys fault dlv_id msg_id recipient max_attempts now s)
  unfolding enqueued
  enqueued-IsSound foreign_keys fault dlv_id msg_id recipient max_attempts now s h =
      elim (enqueue_cases foreign_keys fault dlv_id msg_id recipient max_attempts now s.shared.db) [
        | inl same ↦
            subst (λ db. IsSound (record s { shared = record s.shared { db = db } })) (sym same) h
        | inr (fresh, e) ↦
            let new = new_row dlv_id msg_id recipient max_attempts now in
            let rows = s.shared.db.delivery_queue in
            let grows = append-Grows rows new in
            record {
              rested = h.rested;
              scheduled = h.scheduled;
              keyed = rw e (append-IsKeyed rows new fresh h.keyed);
              known =
                  rw e (λ i item m.
                    IsKnown-Grows rows (rows ++ new ∷ []) item grows (h.known i item m));
              honest =
                  rw e (
                    IsHonest-Grows fs rows (rows ++ new ∷ []) s.shared.sent h.keyed grows h.honest);
              accounted =
                  rw e (append-IsAccounted fs rows new s.shared.sent (λ q. cc q) h.accounted);
            }
      ]
