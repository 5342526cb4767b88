-- ===== src/Delivery/Pipeline.antt =====
-- From DATA of internal/smtpserver/session.go over a Move of internal/spool/spool.go to the worker of
-- internal/delivery/worker.go.
use mathlib.Core.Path.{subst}
use mathlib.Core.Option
use mathlib.Core.List.{Perm}
use submitter_smtp_daemon.Delivery.Success.{delivered_in_batch}
use submitter_smtp_daemon.Delivery.Report.{
  IsUnconfirmed, IsComplete, envelope, IsDelivered, IsRetried, IsGivenUp,
}
use submitter_smtp_daemon.Delivery.{
  lookup_mx, process_batch, read_message, Answers, Worker, process_delivery,
}
use submitter_smtp_daemon.Queue.Distinct.{IsDistinct, row_id}
use submitter_smtp_daemon.Queue.Pending.{IsOrderBy, IsReady}
use submitter_smtp_daemon.Queue.{get_pending_deliveries, QueueItem}
use submitter_smtp_daemon.Schema.{Row, unix, find_row, delivered}
use submitter_smtp_daemon.Delivery.Workers.Ledger.{read_message-IsSpooled}
use submitter_smtp_daemon.Delivery.Process.{process_delivery_lem}
use submitter_smtp_daemon.Session.Accepting.{data_lem}
use submitter_smtp_daemon.Session.{Backend, Session, Shared, data_}
use submitter_smtp_daemon.Spool.Moves.{move_lem, stage_path_ne}
use submitter_smtp_daemon.Spool.{MoveFaults, WriteFaults, move, stage_path, temp_path}
use submitter_smtp_daemon.Files.Laws.{stage_eq_iff}
use submitter_smtp_daemon.Files.{
  File, FilePath, Fs, Stage, find, incoming, modified, parsed, signed, stage_eq, tmp,
}
use submitter_smtp_daemon.Prelude.{
  max_int64, pos, ◌<ℤ◌, Member, Option-cases, false, length, ◌<◌, [], sym, ◌++◌, ◌∙◌, ◌∷◌, Bool,
  Bool-cases, List, Text, ap, arith, inl, inr, none, some, ℕ, ◌≡◌, ◌≢◌, ◌⊎◌,
}

-- One of the stages that the worker reads.
abbrev pub IsReadable : Stage → Type 0
IsReadable stage = (stage ≡ signed) ⊎ ((stage ≡ modified) ⊎ (stage ≡ parsed))

readable_ne : (stage : Stage) → IsReadable stage → (tmp ≢ stage) × (incoming ≢ stage)
readable_ne stage (inl e) = (λ q. cc (q, e), λ q. cc (q, e))
readable_ne stage (inr (inl e)) = (λ q. cc (q, e), λ q. cc (q, e))
readable_ne stage (inr (inr e)) = (λ q. cc (q, e), λ q. cc (q, e))

temp_path_ne :
    (stage : Stage) (msg_id : Text) → tmp ≢ stage → temp_path msg_id ≢ stage_path stage msg_id
unfolding temp_path stage_path
temp_path_ne stage msg_id ne e = ne (ap (λ (p : FilePath). p.dir) e)

module _ {S I C : Type 0} (b : Backend S I C) (content : List ℕ) (read_fails : Bool) (msg_id : Text)
    (faults : WriteFaults) (now : ℕ) (s : Session) (sh : Shared S)
    (small : b.settings.max_message_size <ℤ pos max_int64)
    (accepted : (data_ b content read_fails msg_id faults now s sh).0 ≡ none) (to : Stage)
    (elsewhere : incoming ≢ to) (m : MoveFaults) (moving : ℕ)
    (moved : (move msg_id incoming to m moving
        (data_ b content read_fails msg_id faults now s sh).1.spool).0
      ≡ none)
    (fresh : (stage : Stage)
      → IsReadable stage
      → find (stage_path stage msg_id) sh.spool ≡ none) where
  abbrev received : Fs
  received = (data_ b content read_fails msg_id faults now s sh).1.spool

  abbrev arrived : Fs
  arrived = (move msg_id incoming to m moving received).1

  -- Whatever the worker finds of the message is what was received.
  only_content :
      (stage : Stage) (f : File)
      → IsReadable stage
      → find (stage_path stage msg_id) arrived ≡ some f
      → f.content ≡ content
  only_content stage f readable found =
      let (some_rcpt, fits, reads, (g, there, g_content), t, u, others) =
        data_lem b content read_fails msg_id faults now s sh small accepted in
      let (h, source, gone, (k, arrives, k_content), rest) =
        move_lem msg_id incoming to elsewhere m moving received moved in
      let (not_tmp, not_incoming) = readable_ne stage readable in
      elim (Bool-cases (stage_eq to stage)) [
        | inl same ↦
            let e : to ≡ stage = (stage_eq_iff to stage).0 same in
            let k_is_f : some k ≡ some f =
              sym arrives ∙ ap (λ t. find (stage_path t msg_id) arrived) e ∙ found in
            let h_is_g : some h ≡ some g = sym source ∙ there in
            cc (k_is_f, h_is_g, k_content, g_content)
        | inr other ↦
            let kept =
              rest (stage_path stage msg_id) (stage_path_ne incoming stage msg_id not_incoming)
                (stage_path_ne to stage msg_id (λ e. ground (arith, stage_eq_iff to stage))) in
            let untouched =
              others (stage_path stage msg_id) (temp_path_ne stage msg_id not_tmp)
                (stage_path_ne tmp stage msg_id not_tmp)
                (stage_path_ne incoming stage msg_id not_incoming) in
            let lost : some f ≡ none = sym found ∙ kept ∙ untouched ∙ fresh stage readable in
            cc lost
      ]

  -- What the worker reads of the message is what was received.
  read_is_content :
      (a : Answers) (bytes : List ℕ) → read_message a msg_id arrived ≡ some bytes → bytes ≡ content
  read_is_content a bytes reads =
      let (stage, f, readable, found, f_content) =
        read_message-IsSpooled a msg_id arrived bytes reads in
      sym f_content ∙ only_content stage f readable found

  -- The configured size is below the largest int64, and DATA has accepted a message under an id of
  -- which no file lay in signed, modified or parsed, and a Move that reports success has brought it
  -- from incoming to another stage. Then a processing of an item of that id over that spool, with a
  -- schedule that is not empty, hands over exactly the bytes of the message, once, to the recipient
  -- of the item, or it hands over nothing.
  pub accepted_is_sent :
      (a : Answers) (item : QueueItem) (w w' : Worker) (first : ℕ) (ds : List ℕ)
      → w.config.retry_schedule ≡ first ∷ ds
      → w.spool ≡ arrived
      → item.msg_id ≡ msg_id
      → process_delivery a item w ≡ some w'
      → (w'.sent ≡ w.sent)
        ⊎ ((mx_host : Text) × (w'.sent ≡ w.sent ++ envelope mx_host item.recipient content ∷ []))
  accepted_is_sent a item w w' first ds scheduled spooled same_id ended =
      let (v, processed, fate) = process_delivery_lem a item w first ds scheduled in
      let is_w' : v ≡ w' = Option.some-injective _ _ (sym processed ∙ ended) in
      by_fate (
        subst (λ x. IsDelivered a item w x ⊎ (IsRetried a item w x first ds ⊎ IsGivenUp a item w x))
          is_w' fate)
    where
      content_of : (msg : List ℕ) → read_message a item.msg_id w.spool ≡ some msg → msg ≡ content
      content_of msg reads = read_is_content a msg (rw (spooled, same_id) at reads)

      unconfirmed :
          (mx_host mx_ip : Text)
          → IsUnconfirmed a item w mx_host mx_ip w'.sent
          → (w'.sent ≡ w.sent)
            ⊎ ((host : Text) × (w'.sent ≡ w.sent ++ envelope host item.recipient content ∷ []))
      unconfirmed mx_host mx_ip (inl same) = inl same
      unconfirmed mx_host mx_ip (inr (msg, reads, x0, x1, one)) = inr (
        mx_host,
        one ∙ ap (λ c. w.sent ++ envelope mx_host item.recipient c ∷ []) (content_of msg reads),
      )

      by_fate :
          IsDelivered a item w w' ⊎ (IsRetried a item w w' first ds ⊎ IsGivenUp a item w w')
          → (w'.sent ≡ w.sent)
            ⊎ ((mx_host : Text) × (w'.sent
                  ≡ w.sent ++ envelope mx_host item.recipient content ∷ []))
      by_fate (inl (msg, mx_host, mx_ip, reads, x1, x2, sent_one, x3)) = inr (
        mx_host,
        sent_one
            ∙ ap (λ c. w.sent ++ envelope mx_host item.recipient c ∷ []) (content_of msg reads),
      )
      by_fate (inr (inl (mx_host, mx_ip, e, more, unsent, x))) = unconfirmed mx_host mx_ip unsent
      by_fate (inr (inr (mx_host, mx_ip, e, why, unsent, x))) = unconfirmed mx_host mx_ip unsent

  -- The configured size is below the largest int64, and DATA has accepted a message under an id of
  -- which no file lay in signed, modified or parsed, and a Move that reports success has brought it
  -- from incoming to another stage. A row of that id is due in the table of a worker over that
  -- spool; no id occurs twice in the table, and the schedule is not empty. The database answers and
  -- writes every update, ORDER BY permutes the rows, and fewer than ten are polled. If the message
  -- can be read, the lookup works for the recipient of the row and the servers accept every call,
  -- then the batch comes to its end, exactly the bytes that DATA received were handed to the server
  -- of the recipient, and the row is delivered.
  pub accepted_is_delivered :
      (first : ℕ) (ds : List ℕ) (answers : ℕ → Answers) (r : Row) (host ip : Text)
      (order_by : List Row → List Row) (at : ℕ) (items : List QueueItem) (w : Worker)
      → ((k : ℕ) → (answers k).update_fails ≡ false)
      → ((k : ℕ) → lookup_mx (answers k) r.recipient ≡ (host, ip, none))
      → ((k : ℕ) → IsComplete (answers k).transaction)
      → ((k : ℕ) → read_message (answers k) msg_id arrived ≢ none)
      → IsOrderBy order_by
      → ((rs : List Row) → Perm (order_by rs) rs)
      → w.config.retry_schedule ≡ first ∷ ds
      → w.spool ≡ arrived
      → r.msg_id ≡ msg_id
      → IsDistinct row_id w.db.delivery_queue
      → Member r w.db.delivery_queue
      → IsReady (unix at) r
      → get_pending_deliveries order_by false 10 at w.db ≡ some items
      → length items < 10
      → (w' : Worker) × (process_batch order_by false at answers w ≡ some w')
        × ((r' : Row) × (find_row r.dlv_id w'.db.delivery_queue ≡ some r') × (r'.state ≡ delivered))
        × Member (envelope host r.recipient content) w'.sent
  accepted_is_delivered first ds answers r host ip order_by at items w written lookup complete
        readable ordered permutes scheduled spooled same_id distinct m ready polled few =
      delivered_in_batch first ds answers written r content host ip lookup complete order_by at
        items w ordered permutes scheduled distinct m ready
        (λ k. rw (spooled, same_id) (reads_content (answers k) (readable k))) polled few
    where
      reads_content :
          (a : Answers)
          → read_message a msg_id arrived ≢ none
          → read_message a msg_id arrived ≡ some content
      reads_content a can = elim (Option-cases (read_message a msg_id arrived)) [
        | inl lost ↦ absurd (can lost)
        | inr (bytes, e) ↦ e ∙ ap some (read_is_content a bytes e)
      ]
