-- ===== src/Tests/Workers.antt =====
-- Two workers of internal/delivery/worker.go that poll the same row.
use mathlib.Core.Path.{subst}
use submitter_smtp_daemon.Delivery.Success.{delivered_in_batch}
use submitter_smtp_daemon.Delivery.Report.{envelope}
use submitter_smtp_daemon.Delivery.{
  process_batch, lookup_mx, lookup_parts, lookup_domain, resolve_host, read_message, Worker,
  process_delivery,
}
use submitter_smtp_daemon.Spool.{read, stage_path}
use submitter_smtp_daemon.Files.{find, path_eq}
use submitter_smtp_daemon.Queue.{scan_item, count_state, get_pending_deliveries}
use submitter_smtp_daemon.Delivery.Draining.Batch.{IsFit}
use submitter_smtp_daemon.Delivery.Draining.{none_yet, one_more, queue_drains, waiting}
use submitter_smtp_daemon.Delivery.Batch.{process_batch_lem}
use submitter_smtp_daemon.Delivery.Attempts.{IsWithin, work}
use submitter_smtp_daemon.Schema.{queued, Row, delivered, find_row, select}
use submitter_smtp_daemon.Prelude.{
  none, split, trim_suffix, txt, ℕ, arith, ◌+◌, ◌≤◌, length, sym, text_eq, Member, [], false, inl,
  inr, refl, some, ◌∷◌, ◌≡◌, ◌≢◌,
}
use submitter_smtp_daemon.Delivery.Workers.Once.{IsSoloRun, sent_once}
use submitter_smtp_daemon.Queue.Distinct.{IsDistinct, row_id}
use submitter_smtp_daemon.Delivery.Workers.Ledger.{IsAccounted, IsHonest}
use submitter_smtp_daemon.Delivery.Workers.Invariant.{sent_and_delivered_agree}
use submitter_smtp_daemon.Delivery.Workers.{
  Reachable, System, next, polled, polls, processed, processes, put_inbox, started,
}
use submitter_smtp_daemon.Delivery.Workers.Settled.{HasDone, IsFree, done_for_ever}
use submitter_smtp_daemon.Queue.Rows.{IsKeyed}
use submitter_smtp_daemon.Delivery.Process.{process_delivery_lem}
use submitter_smtp_daemon.Tests.Delivery.{all_well, answers, item, rows-IsKeyed, worker}
use submitter_smtp_daemon.Tests.Queue.{row}
use submitter_smtp_daemon.Tests.Sorting.{sort, sort-IsOrderBy, sort-perm}

abbrev start : System
start = record { shared = worker; inbox = λ i. [] }

abbrev both_polled : System
both_polled = polled 1 (item ∷ []) (polled 0 (item ∷ []) start)

processing : (w' : Worker) × (process_delivery (answers all_well) item worker ≡ some w')
processing =
    let (w', e, fate) = process_delivery_lem (answers all_well) item worker 60 (120 ∷ []) refl in
    (w', e)

abbrev first_done : System
first_done = processed 0 [] processing.0 both_polled

first_reached : Reachable start first_done
unfolding polled put_inbox get_pending_deliveries select sort
first_reached =
    next
      (next
        (next started (polls 0 1000000000 sort false (item ∷ []) start sort-IsOrderBy refl refl))
        (polls 1 1000000000 sort false (item ∷ []) (polled 0 (item ∷ []) start) sort-IsOrderBy refl
          refl))
      (processes 0 (answers all_well) item [] processing.0 both_polled refl processing.1)

undelivered : (r : Row) → Member r worker.db.delivery_queue → r.state ≢ delivered
undelivered r (inl e) d = cc (e, d)
undelivered r (inr m) d = absurd m

sent_and_delivered_agree_example :
    IsHonest worker.spool first_done.shared.db.delivery_queue first_done.shared.sent
    × IsAccounted worker.spool first_done.shared.db.delivery_queue first_done.shared.sent
sent_and_delivered_agree_example =
    sent_and_delivered_agree start first_done 60 (120 ∷ []) first_reached refl rows-IsKeyed
      undelivered (λ i. refl) refl

-- The row is delivered, and a worker polls again.
abbrev finished : System
finished = record {
  shared = record worker {
    db = record { messages = []; delivery_queue = row (1 ∷ []) delivered 7 ∷ [] };
  };
  inbox = λ i. [];
}

finished-IsKeyed : IsKeyed finished.shared.db.delivery_queue
unfolding find_row text_eq
finished-IsKeyed r (inl e) =
    subst (λ (x : Row). find_row x.dlv_id finished.shared.db.delivery_queue ≡ some x) (sym e) refl
finished-IsKeyed r (inr m) = absurd m

polled_again : Reachable finished (polled 0 [] finished)
unfolding polled put_inbox get_pending_deliveries select sort
polled_again = next started (polls 0 1000000000000 sort false [] finished sort-IsOrderBy refl refl)

done_for_ever_example :
    HasDone (1 ∷ []) (polled 0 [] finished).shared.db.delivery_queue
    × IsFree (1 ∷ []) (polled 0 [] finished).inbox
unfolding find_row text_eq
done_for_ever_example =
    done_for_ever (1 ∷ []) finished (polled 0 [] finished) 60 (120 ∷ []) polled_again refl
      finished-IsKeyed (row (1 ∷ []) delivered 7, refl, (λ e. cc e, λ e. cc e))
      (λ i item m. absurd m)

-- One worker polls and processes.
abbrev alone : System
alone = polled 0 (item ∷ []) start

abbrev alone_done : System
alone_done = processed 0 [] processing.0 alone

alone_reached : Reachable start alone_done
unfolding polled put_inbox get_pending_deliveries select sort
alone_reached =
    next (next started (polls 0 1000000000 sort false (item ∷ []) start sort-IsOrderBy refl refl))
      (processes 0 (answers all_well) item [] processing.0 alone refl processing.1)

alone_solo : IsSoloRun alone_reached
unfolding alone_reached
alone_solo = ((tt, (refl, sort-perm)), (refl, refl, λ lost. cc (lost.1)))

sent_once_example :
    (length alone_done.shared.sent ≡ count_state delivered alone_done.shared.db.delivery_queue)
    × IsDistinct row_id alone_done.shared.db.delivery_queue
unfolding count_state
sent_once_example =
    sent_once start alone_done 60 (120 ∷ []) alone_reached alone_solo refl (tt, tt) refl refl

-- A batch of one worker over the queued row.
batch :
    (w' : Worker) × (process_batch sort false 1_000_000_000 (λ n. answers all_well) worker
      ≡ some w')
batch =
    let (w', same, x0, x1, x2) =
      process_batch_lem 60 (120 ∷ []) sort false 1_000_000_000 (λ n. answers all_well) worker
        sort-IsOrderBy refl in
    (w', same)

worker-IsFit : IsFit 60 (120 ∷ []) worker
worker-IsFit = record {
  scheduled = refl;
  distinct = (tt, tt);
  within = λ x m. elim m [
    | inl e ↦ subst IsWithin (sym e) (omega arith, λ q. omega arith)
    | inr never ↦ absurd never
  ];
}

queue_drains_example : 1 + waiting batch.0.db.delivery_queue ≤ work worker.db.delivery_queue
unfolding work
queue_drains_example =
    queue_drains 60 (120 ∷ []) 1 worker batch.0
      (one_more 0 worker worker batch.0 sort 1_000_000_000 (λ n. answers all_well)
        (row (1 ∷ []) queued 0) (none_yet worker) sort-IsOrderBy sort-perm (λ k. refl) (inl refl)
        (inl refl, omega arith) batch.1)
      worker-IsFit

found_host :
    (k : ℕ)
    → lookup_mx (answers all_well) (row (1 ∷ []) queued 0).recipient ≡ (txt "mx.b", txt "::1", none)
unfolding lookup_mx split lookup_parts lookup_domain resolve_host trim_suffix txt
found_host k = refl

letter_readable :
    (k : ℕ) → read_message (answers all_well) (txt "m") worker.spool ≡ some (1 ∷ 2 ∷ [])
unfolding read_message read find stage_path path_eq text_eq txt
letter_readable k = refl

one_polled :
    get_pending_deliveries sort false 10 1_000_000_000 worker.db
    ≡ some (scan_item (row (1 ∷ []) queued 0) ∷ [])
unfolding get_pending_deliveries select sort scan_item
one_polled = refl

delivered_in_batch_example :
    (w' : Worker) × (process_batch sort false 1_000_000_000 (λ n. answers all_well) worker
      ≡ some w')
    × ((r' : Row) × (find_row (1 ∷ []) w'.db.delivery_queue ≡ some r') × (r'.state ≡ delivered))
    × Member (envelope (txt "mx.b") (txt "a@b") (1 ∷ 2 ∷ [])) w'.sent
delivered_in_batch_example =
    delivered_in_batch 60 (120 ∷ []) (λ n. answers all_well) (λ k. refl) (row (1 ∷ []) queued 0)
      (1 ∷ 2 ∷ []) (txt "mx.b") (txt "::1") found_host
      (λ k. (refl, refl, refl, refl, refl, refl, refl)) sort 1_000_000_000
      (scan_item (row (1 ∷ []) queued 0) ∷ []) worker sort-IsOrderBy sort-perm refl (tt, tt)
      (inl refl) (inl refl, omega arith) letter_readable one_polled (omega arith)
