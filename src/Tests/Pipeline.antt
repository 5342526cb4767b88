-- ===== src/Tests/Pipeline.antt =====
-- A message that is accepted, moved to parsed and processed.
use submitter_smtp_daemon.Delivery.Pipeline.{accepted_is_sent, accepted_is_delivered}
use submitter_smtp_daemon.Delivery.Batch.{process_batch_lem}
use submitter_smtp_daemon.Queue.{get_pending_deliveries, scan_item}
use submitter_smtp_daemon.Schema.{Row, delivered, find_row, queued, select}
use submitter_smtp_daemon.Tests.Queue.{row}
use submitter_smtp_daemon.Tests.Sorting.{sort, sort-IsOrderBy, sort-perm}
use submitter_smtp_daemon.Spool.{read, move, move_found, stage_path, temp_path}
use submitter_smtp_daemon.Delivery.Process.{process_delivery_lem}
use submitter_smtp_daemon.Delivery.Report.{envelope}
use submitter_smtp_daemon.Delivery.{
  Worker, process_delivery, process_batch, lookup_mx, lookup_parts, lookup_domain, resolve_host,
  read_message,
}
use submitter_smtp_daemon.Session.{accept, data_, read_limited}
use submitter_smtp_daemon.Ratelimit.{check_user_recipients, recipients_so_far}
use submitter_smtp_daemon.Spool
use submitter_smtp_daemon.Tests.Delivery.{all_well, answers, item, worker}
use submitter_smtp_daemon.Tests.Session.{addressed, backend, no_faults, sent, shared}
use submitter_smtp_daemon.Files.{Fs, find, incoming, parsed, path_eq, put, remove, rename}
use submitter_smtp_daemon.Prelude.{
  none, split, trim_suffix, arith, inl, Member, ◌≢◌, List, Text, [], false, refl, some, text_eq,
  txt, ℕ, ◌++◌, ◌+ℤ◌, ◌∷◌, ◌≡◌, ◌⊎◌,
}

abbrev message : List ℕ
message = 1 ∷ 2 ∷ 3 ∷ 4 ∷ []

abbrev arrived : Fs
arrived = (move (txt "m") incoming parsed no_faults.move 21 (sent message).1.spool).1

abbrev receiver : Worker
receiver = record worker { spool = arrived }

receiver_batch :
    (w' : Worker) × (process_batch sort false 1_000_000_000 (λ n. answers all_well) receiver
      ≡ some w')
receiver_batch =
    let (w', same, x0, x1, x2) =
      process_batch_lem 60 (120 ∷ []) sort false 1_000_000_000 (λ n. answers all_well) receiver
        sort-IsOrderBy refl in
    (w', same)

found_host :
    (k : ℕ)
    → lookup_mx (answers all_well) (row (1 ∷ []) queued 0).recipient ≡ (txt "mx.b", txt "::1", none)
unfolding lookup_mx split lookup_parts lookup_domain resolve_host trim_suffix txt
found_host k = refl

arrived_readable : (k : ℕ) → read_message (answers all_well) (txt "m") arrived ≢ none
unfolding data_ accept check_user_recipients ◌+ℤ◌ read_limited Spool.write move move_found find
    stage_path temp_path path_eq txt text_eq put remove rename recipients_so_far read_message read
arrived_readable k e = cc e

one_polled :
    get_pending_deliveries sort false 10 1_000_000_000 receiver.db
    ≡ some (scan_item (row (1 ∷ []) queued 0) ∷ [])
unfolding get_pending_deliveries select sort scan_item
one_polled = refl

accepted_is_delivered_example :
    (w' : Worker) × (process_batch sort false 1_000_000_000 (λ n. answers all_well) receiver
      ≡ some w')
    × ((r' : Row) × (find_row (1 ∷ []) w'.db.delivery_queue ≡ some r') × (r'.state ≡ delivered))
    × Member (envelope (txt "mx.b") (txt "a@b") message) w'.sent
unfolding data_ accept check_user_recipients ◌+ℤ◌ read_limited Spool.write move move_found find
    stage_path temp_path path_eq txt text_eq put remove rename recipients_so_far
accepted_is_delivered_example =
    accepted_is_delivered backend message false (txt "m") no_faults 20 addressed shared
      (omega arith) refl parsed (λ e. cc e) no_faults.move 21 refl (λ stage readable. refl) 60
      (120 ∷ []) (λ n. answers all_well) (row (1 ∷ []) queued 0) (txt "mx.b") (txt "::1") sort
      1_000_000_000 (scan_item (row (1 ∷ []) queued 0) ∷ []) receiver (λ k. refl) found_host
      (λ k. (refl, refl, refl, refl, refl, refl, refl)) arrived_readable sort-IsOrderBy sort-perm
      refl refl refl (tt, tt) (inl refl) (inl refl, omega arith) one_polled (omega arith)

processing : (w' : Worker) × (process_delivery (answers all_well) item receiver ≡ some w')
processing =
    let (w', e, fate) = process_delivery_lem (answers all_well) item receiver 60 (120 ∷ []) refl in
    (w', e)

accepted_is_sent_example :
    (processing.0.sent ≡ [])
    ⊎ ((mx_host : Text) × (processing.0.sent ≡ [] ++ envelope mx_host item.recipient message ∷ []))
unfolding data_ accept check_user_recipients ◌+ℤ◌ read_limited Spool.write move move_found find
    stage_path temp_path path_eq txt text_eq put remove rename recipients_so_far scan_item
accepted_is_sent_example =
    accepted_is_sent backend message false (txt "m") no_faults 20 addressed shared (omega arith)
      refl parsed (λ e. cc e) no_faults.move 21 refl (λ stage readable. refl) (answers all_well)
      item receiver processing.0 60 (120 ∷ []) refl refl refl processing.1
