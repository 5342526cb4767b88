-- ===== src/Queue/Update.antt =====
-- What `UpdateDeliveryState`, `EnqueueDelivery` and `GetQueueStats` of internal/queue/queue.go do to
-- the rows of delivery_queue.
use mathlib.Core.Path.{subst}
use mathlib.Core.Option
use submitter_smtp_daemon.Queue.Rows.{Member-update_where}
use submitter_smtp_daemon.Queue.Pending.{IsReady, IsOrderBy, get_pending_deliveries_lem}
use submitter_smtp_daemon.Queue.{
  count_state, Error, QueueItem, get_pending_deliveries, get_queue_stats, int_of, scan_item,
  update_delivery_state, updated,
}
use submitter_smtp_daemon.Schema.{
  Db, DeliveryState, Row, delivered, delivering, perm_fail, queued, temp_fail, unix,
}
use submitter_smtp_daemon.Prelude.{
  [], arith, ◌==◌, ◌∷◌, Bool, List, Member, Option, Text, ap, false, if◌then◌else◌, inl, inr,
  length, none, refl, some, sym, true, ℕ, ◌+◌, ◌∙◌, ◌≡◌, ◌≤◌, ◌⊎◌,
}

module _ (id : Text) (s : DeliveryState) (mx_hostname mx_ip error_msg : Text) (smtp_code : ℕ)
    (smtp_message : Text) (next_attempt delivered_now now : ℕ) where
  abbrev pub write : Row → Row
  write =
      updated s mx_hostname mx_ip error_msg smtp_code smtp_message next_attempt delivered_now now

  abbrev pub run_update : Bool → Db → Option Error × Db
  run_update fault db =
      update_delivery_state fault id s mx_hostname mx_ip error_msg smtp_code smtp_message
        next_attempt delivered_now now db

  pub write-dlv_id : (r : Row) → (write r).dlv_id ≡ r.dlv_id
  unfolding updated
  write-dlv_id r = refl

  -- The rows of one id after an update all come from `write`.
  pub written :
      (db : Db) (r : Row)
      → Member r (run_update false db).1.delivery_queue
      → r.dlv_id ≡ id
      → (x : Row) × (r ≡ write x)
  unfolding update_delivery_state
  written db r m e = elim (Member-update_where id write r db.delivery_queue m) [
    | inl (old, ne) ↦ absurd (ne e)
    | inr (x, old, same, q) ↦ (x, q)
  ]

  ready_write :
      (later : ℕ) (x : Row)
      → IsReady (unix later) (write x)
      → ((s ≡ queued) ⊎ (s ≡ temp_fail)) × (unix next_attempt ≤ unix later)
  unfolding updated
  ready_write later x h = h

  module _ (order_by : List Row → List Row) (ordered : IsOrderBy order_by) (limit later : ℕ)
      (db : Db) (items : List QueueItem)
      (polled : get_pending_deliveries order_by false limit later (run_update false db).1
        ≡ some items) where
    -- An item with the id of an update that a later poll returns was left in a state that is
    -- polled, and the poll is no earlier than the next attempt that the update set.
    pub polled_after_update :
        (item : QueueItem)
        → Member item items
        → item.dlv_id ≡ id
        → ((s ≡ queued) ⊎ (s ≡ temp_fail)) × (unix next_attempt ≤ unix later)
    unfolding scan_item
    polled_after_update item m e =
        let (r, held, due, q) =
          (get_pending_deliveries_lem order_by ordered false limit later _ items polled).1 item m in
        let (x, w) = written db r held (ap (λ (i : QueueItem). i.dlv_id) (sym q) ∙ e) in
        ready_write later x (subst (IsReady (unix later)) w due)

count_state-sum :
    (rs : List Row)
    → count_state queued rs
        + count_state delivering rs
        + count_state delivered rs
        + count_state temp_fail rs
        + count_state perm_fail rs
      ≡ length rs
unfolding count_state
count_state-sum [] = refl
count_state-sum (r ∷ rs) = ground (arith, count_state-sum rs)

-- a count as the map of `GetQueueStats` holds it
entry : ℕ → Option ℕ
entry n = if n == 0 then none else some n

int_of-entry : (n : ℕ) → int_of (entry n) ≡ n
unfolding entry
int_of-entry n = ground arith

-- When the database answers with all rows, the counts that GetQueueStats returns for the five states, a missing
-- one taken as 0, add up to the number of rows of the queue.
pub get_queue_stats-sum :
    (db : Db) (stats : DeliveryState → Option ℕ)
    → get_queue_stats false (λ s. true) db ≡ some stats
    → int_of (stats queued)
        + int_of (stats delivering)
        + int_of (stats delivered)
        + int_of (stats temp_fail)
        + int_of (stats perm_fail)
      ≡ length db.delivery_queue
unfolding get_queue_stats entry
get_queue_stats-sum db stats h =
    let at = λ (s : DeliveryState).
      ap (λ (f : DeliveryState → Option ℕ). int_of (f s)) (sym (Option.some-injective _ _ h))
      ∙ int_of-entry (count_state s db.delivery_queue) in
    omega (
      arith,
      at queued,
      at delivering,
      at delivered,
      at temp_fail,
      at perm_fail,
      count_state-sum db.delivery_queue,
    )
