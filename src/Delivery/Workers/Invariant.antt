-- ===== src/Delivery/Workers/Invariant.antt =====
-- The steps of the workers of internal/delivery/worker.go against the queue and what was sent.
use mathlib.Core.Path.{subst}
use mathlib.Core.Option
use submitter_smtp_daemon.Delivery.Process.{process_delivery_lem}
use submitter_smtp_daemon.Delivery.Report.{
  IsUnconfirmed, Member-IsUnconfirmed, IsDelivered, IsGivenUp, IsRetried, envelope, IsStored,
}
use submitter_smtp_daemon.Delivery.Workers.Ledger.{
  IsSpooled, read_message-IsSpooled, IsFor, update-IsAccounted, update-IsHonest, update_where-Grows,
  IsKnown, IsKnown-Grows, IsAccounted, IsHonest,
}
use submitter_smtp_daemon.Delivery.Workers.Steps.{
  IsSound, enqueued-IsSound, polled-IsSound, put_inbox-IsKnown,
}
use submitter_smtp_daemon.Delivery.Workers.{
  polls, processes, enqueues, next, started, Reachable, Step, processed, System,
}
use submitter_smtp_daemon.Queue.Rows.{find_row-Member, update_where-IsKeyed, IsKeyed}
use submitter_smtp_daemon.Queue.{update_delivery_state, updated, QueueItem}
use submitter_smtp_daemon.Schema.{perm_fail, temp_fail, DeliveryState, delivered, update_where, Row}
use submitter_smtp_daemon.Files.{Fs}
use submitter_smtp_daemon.Delivery.{
  read_message, process_delivery, Answers, Envelope, Worker, WorkerConfig,
}
use submitter_smtp_daemon.Prelude.{
  ◌++◌, List, ◌≢◌, Member-append, Member-append-left, Member-append-right, txt, ap, ◌∙◌, arith, [],
  sym, ◌⊎◌, Bool-cases, Member, Text, inl, inr, refl, some, ℕ, ◌∷◌, ◌≡◌,
}

module _ (fs : Fs) (first : ℕ) (ds : List ℕ) where
  module _ (i : ℕ) (a : Answers) (item : QueueItem) (items : List QueueItem) (w' : Worker)
      (s : System) (held : s.inbox i ≡ item ∷ items) (h : IsSound fs first ds s) where
    abbrev rows : List Row
    rows = s.shared.db.delivery_queue

    row-IsKnown : IsKnown rows item
    row-IsKnown = h.known i item (rw held (inl refl))

    abbrev row : Row
    row = row-IsKnown.0

    -- The one update of a processing, with what was sent before it.
    stored-IsSound :
        (state : DeliveryState) (mx_host mx_ip error_msg : Text) (smtp_code : ℕ)
        (smtp_message : Text) (next_attempt : ℕ)
        → IsStored a item s.shared w' state mx_host mx_ip error_msg smtp_code smtp_message
            next_attempt
        → ((e : Envelope) → Member e s.shared.sent → Member e w'.sent)
        → ((e : Envelope) → Member e w'.sent → Member e s.shared.sent ⊎ IsFor fs row e)
        → (state ≡ delivered → (e : Envelope) × Member e w'.sent × IsFor fs row e)
        → IsSound fs first ds (processed i items w' s)
    unfolding processed update_delivery_state updated
    stored-IsSound state mx_host mx_ip error_msg smtp_code smtp_message next_attempt stored kept new
          proof =
        elim (Bool-cases a.update_fails) [
          | inl lost ↦
              let same : w'.db.delivery_queue ≡ rows = ground (arith, stored.0) in
              record {
                rested = stored.1 ∙ h.rested;
                scheduled = ap (λ (c : WorkerConfig). c.retry_schedule) stored.2 ∙ h.scheduled;
                keyed = rw same h.keyed;
                known = rw same (
                    put_inbox-IsKnown rows i items s.inbox (λ j m. h.known i j (rw held (inr m)))
                      h.known);
                honest = rw same (λ e m. elim (new e m) [
                  | inl old ↦ h.honest e old
                  | inr fits ↦ (row, find_row-Member item.dlv_id row rows row-IsKnown.1, fits)
                ]);
                accounted =
                    rw same
                      (λ r m d. let (e, me, fits) = h.accounted r m d in (e, kept e me, fits));
              }
          | inr works ↦
              let f =
                updated state mx_host mx_ip error_msg smtp_code smtp_message next_attempt
                  a.delivered_now a.updated_now in
              let e : w'.db.delivery_queue ≡ update_where item.dlv_id f rows =
                ground (arith, stored.0) in
              let grows = update_where-Grows item.dlv_id f rows (λ r. (refl, refl, refl)) in
              record {
                rested = stored.1 ∙ h.rested;
                scheduled = ap (λ (c : WorkerConfig). c.retry_schedule) stored.2 ∙ h.scheduled;
                keyed = rw e (update_where-IsKeyed item.dlv_id f rows (λ r. refl) h.keyed);
                known = rw e (
                    put_inbox-IsKnown (update_where item.dlv_id f rows) i items s.inbox
                      (λ j m.
                        IsKnown-Grows rows (update_where item.dlv_id f rows) j grows
                          (h.known i j (rw held (inr m))))
                      (λ k j m.
                        IsKnown-Grows rows (update_where item.dlv_id f rows) j grows
                          (h.known k j m)));
                honest = rw e (
                    update-IsHonest fs rows s.shared.sent w'.sent h.keyed row item.dlv_id
                      row-IsKnown.1 f (λ r. (refl, refl, refl)) kept new h.honest);
                accounted = rw e (
                    update-IsAccounted fs rows s.shared.sent w'.sent h.keyed row item.dlv_id
                      row-IsKnown.1 f (λ r. (refl, refl, refl)) kept proof h.accounted);
              }
        ]

    processed-IsSound :
        process_delivery a item s.shared ≡ some w' → IsSound fs first ds (processed i items w' s)
    processed-IsSound ended =
        let (w'', same, fate) = process_delivery_lem a item s.shared first ds h.scheduled in
        let is_w' : w'' ≡ w' = Option.some-injective _ _ (sym same ∙ ended) in
        by_fate (
          subst
            (λ v.
              IsDelivered a item s.shared v
              ⊎ (IsRetried a item s.shared v first ds ⊎ IsGivenUp a item s.shared v))
            is_w' fate)
      where
        fits :
            (mx_host : Text) (msg : List ℕ)
            → read_message a item.msg_id s.shared.spool ≡ some msg
            → IsFor fs row (envelope mx_host item.recipient msg)
        fits mx_host msg read_it = (
          sym row-IsKnown.3,
          subst (λ m. IsSpooled fs m msg) (sym row-IsKnown.2)
              (read_message-IsSpooled a item.msg_id fs msg
                (subst (λ sp. read_message a item.msg_id sp ≡ some msg) h.rested read_it)),
        )

        sent_one_new :
            (mx_host : Text) (msg : List ℕ)
            → read_message a item.msg_id s.shared.spool ≡ some msg
            → w'.sent ≡ s.shared.sent ++ envelope mx_host item.recipient msg ∷ []
            → (e : Envelope) → Member e w'.sent
            → Member e s.shared.sent ⊎ IsFor fs row e
        sent_one_new mx_host msg read_it one e m =
            elim (Member-append e s.shared.sent (envelope mx_host item.recipient msg ∷ [])
              (rw one at m)) [
                | inl old ↦ inl old
                | inr (inl q) ↦ inr (subst (IsFor fs row) (sym q) (fits mx_host msg read_it))
                | inr (inr never) ↦ absurd never
              ]

        sent_new :
            (mx_host mx_ip : Text)
            → IsUnconfirmed a item s.shared mx_host mx_ip w'.sent
            → (e : Envelope) → Member e w'.sent
            → Member e s.shared.sent ⊎ IsFor fs row e
        sent_new mx_host mx_ip (inl q) e m = inl (rw q at m)
        sent_new mx_host mx_ip (inr (msg, read_it, x0, x1, one)) e m =
            sent_one_new mx_host msg read_it one e m

        by_fate :
            IsDelivered a item s.shared w'
              ⊎ (IsRetried a item s.shared w' first ds ⊎ IsGivenUp a item s.shared w')
            → IsSound fs first ds (processed i items w' s)
        by_fate (inl (msg, mx_host, mx_ip, read_it, x1, x2, sent_one, stored)) =
            let env = envelope mx_host item.recipient msg in
            stored-IsSound delivered mx_host mx_ip [] 250 (txt "OK") 0 stored
              (λ e m. rw sent_one (Member-append-left e s.shared.sent (env ∷ []) m))
              (sent_one_new mx_host msg read_it sent_one)
              (λ _. (
                env,
                rw sent_one (Member-append-right env s.shared.sent (env ∷ []) (inl refl)),
                fits mx_host msg read_it,
              ))
        by_fate (inr (inl (mx_host, mx_ip, e, more, q, stored))) =
            stored-IsSound temp_fail mx_host mx_ip e 0 [] _ stored
              (Member-IsUnconfirmed a item s.shared mx_host mx_ip w'.sent q)
              (sent_new mx_host mx_ip q) (λ d. cc d)
        by_fate (inr (inr (mx_host, mx_ip, e, why, q, stored))) =
            stored-IsSound perm_fail mx_host mx_ip e 0 [] 0 stored
              (Member-IsUnconfirmed a item s.shared mx_host mx_ip w'.sent q)
              (sent_new mx_host mx_ip q) (λ d. cc d)

  step-IsSound : (s s' : System) → Step s s' → IsSound fs first ds s → IsSound fs first ds s'
  step-IsSound s s' (polls i now order_by fault items s0 ordered free given) h =
      polled-IsSound fs first ds i now order_by fault items s0 ordered given h
  step-IsSound s s' (processes i a item items w' s0 held ended) h =
      processed-IsSound i a item items w' s0 held h ended
  step-IsSound s s' (enqueues foreign_keys fault dlv_id msg_id recipient max_attempts now s0) h =
      enqueued-IsSound fs first ds foreign_keys fault dlv_id msg_id recipient max_attempts now s0 h

  reachable-IsSound :
      (start s : System) → Reachable start s → IsSound fs first ds start → IsSound fs first ds s
  reachable-IsSound start s started h = h
  reachable-IsSound start s (next before step) h =
      step-IsSound _ s step (reachable-IsSound start _ before h)

-- Several workers start with nothing polled and nothing sent, a schedule that is not empty, and a
-- table keyed by dlv_id without a delivered row. However polls, processings and new deliveries then
-- take turns, whatever fails, every envelope that was sent goes to the recipient of a row of the
-- queue and holds the message of that row as it lies in signed, modified or parsed, and for every
-- row that is marked delivered such an envelope was sent.
pub sent_and_delivered_agree :
    (start s : System) (first : ℕ) (ds : List ℕ)
    → Reachable start s
    → start.shared.config.retry_schedule ≡ first ∷ ds
    → IsKeyed start.shared.db.delivery_queue
    → ((r : Row) → Member r start.shared.db.delivery_queue → r.state ≢ delivered)
    → ((i : ℕ) → start.inbox i ≡ [])
    → start.shared.sent ≡ []
    → IsHonest start.shared.spool s.shared.db.delivery_queue s.shared.sent
      × IsAccounted start.shared.spool s.shared.db.delivery_queue s.shared.sent
sent_and_delivered_agree start s first ds reached scheduled keyed undelivered free unsent =
    (result.honest, result.accounted)
  where
    begin : IsSound start.shared.spool first ds start
    begin = record {
      rested = refl;
      scheduled = scheduled;
      keyed = keyed;
      known = λ i item m. absurd (rw (free i) at m);
      honest = λ e m. absurd (rw unsent at m);
      accounted = λ r m d. absurd (undelivered r m d);
    }

    result : IsSound start.shared.spool first ds s
    result = reachable-IsSound start.shared.spool first ds start s reached begin
