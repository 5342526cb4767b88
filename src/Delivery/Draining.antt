-- ===== src/Delivery/Draining.antt =====
-- How the batches of internal/delivery/worker.go use up the attempts that the rows of delivery_queue
-- have left.
pub mod Batch
use submitter_smtp_daemon.Delivery.Draining.Batch.{IsFit, batch_drains}
use mathlib.Core.Path.{subst}
use mathlib.Core.Option
use submitter_smtp_daemon.Schema.{state_eq, queued, temp_fail, unix, Row}
use submitter_smtp_daemon.Queue.Pending.{IsOrderBy, IsReady}
use mathlib.Core.List.{Perm}
use submitter_smtp_daemon.Delivery.Attempts.{attempts_left, IsWithin, work}
use submitter_smtp_daemon.Delivery.{process_batch, Answers, Worker}
use submitter_smtp_daemon.Queue.{count_state}
use submitter_smtp_daemon.Prelude.{
  if◌then◌else◌, List, Member, [], arith, false, inl, inr, refl, some, suc, sym, ℕ, ◌+◌, ◌∙◌, ◌∷◌,
  ◌≡◌, ◌≤◌,
}

-- The rows that wait for a first or another attempt.
abbrev pub waiting : List Row → ℕ
waiting rows = count_state queued rows + count_state temp_fail rows

one_row :
    (x : Row)
    → IsWithin x
    → (if state_eq x.state queued then 1 else 0) + (if state_eq x.state temp_fail then 1 else 0)
      ≤ attempts_left x
unfolding attempts_left
one_row x h = ground arith

waiting-le-work :
    (rows : List Row) → ((x : Row) → Member x rows → IsWithin x) → waiting rows ≤ work rows
unfolding count_state work
waiting-le-work [] h = omega arith
waiting-le-work (x ∷ xs) h =
    omega (arith, one_row x (h x (inl refl)), waiting-le-work xs (λ y m. h y (inr m)))

-- Batches one after another, each at a time when a row is due, with a database that answers.
pub data Batches : ℕ → Worker → Worker → Type 0 where
  none_yet : (w : Worker) → Batches 0 w w
  one_more :
      (n : ℕ) (w u v : Worker) (order_by : List Row → List Row) (now : ℕ) (answers : ℕ → Answers)
      (r : Row)
      → Batches n w u
      → IsOrderBy order_by
      → ((rs : List Row) → Perm (order_by rs) rs)
      → ((k : ℕ) → (answers k).update_fails ≡ false)
      → Member r u.db.delivery_queue
      → IsReady (unix now) r
      → process_batch order_by false now answers u ≡ some v
      → Batches (suc n) w v

module _ (first : ℕ) (ds : List ℕ) where
  Batches-IsFit :
      (n : ℕ) (w v : Worker)
      → Batches n w v
      → IsFit first ds w
      → IsFit first ds v × (n + work v.db.delivery_queue ≤ work w.db.delivery_queue)
  Batches-IsFit n w v (none_yet w0) fit = (fit, omega arith)
  Batches-IsFit n w v
        (one_more k w0 u v0 order_by now answers r before ordered permutes written m ready ended)
        fit =
      let (fit_u, less) = Batches-IsFit k w0 u before fit in
      let (v', same, fit', less') =
        batch_drains first ds order_by now answers u r ordered permutes written fit_u m ready in
      let is_v : v' ≡ v0 = Option.some-injective _ _ (sym same ∙ ended) in
      subst
        (λ (x : Worker).
          IsFit first ds x × (suc k + work x.db.delivery_queue ≤ work w0.db.delivery_queue))
        is_v (fit', omega (arith, less, less'))

  -- A worker with a schedule that is not empty starts on a table in which no id occurs twice and
  -- every row is within the attempts that it allows. It runs batches one after another, each at a
  -- time when a row of the queue is due; the database answers and ORDER BY permutes the rows, while
  -- the spool, DNS and the remote servers answer whatever they like. Then the batches and the rows
  -- that still wait are together never more than the attempts that the waiting rows had left at the
  -- start: after that many batches no row waits.
  pub queue_drains :
      (n : ℕ) (w v : Worker)
      → Batches n w v
      → IsFit first ds w
      → n + waiting v.db.delivery_queue ≤ work w.db.delivery_queue
  queue_drains n w v run fit =
      let (fit_v, less) = Batches-IsFit n w v run fit in
      omega (arith, less, waiting-le-work v.db.delivery_queue fit_v.within)
