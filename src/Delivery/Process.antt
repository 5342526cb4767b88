-- ===== src/Delivery/Process.antt =====
-- `processDelivery` of internal/delivery/worker.go against the description of its effects.
use mathlib.Core.Path.{subst}
use submitter_smtp_daemon.Delivery.Report.{
  IsUnconfirmed, Delivers, IsDelivered, deliver_lem, IsGivenUp, IsRetried,
}
use submitter_smtp_daemon.Delivery.Retry.{calculate_next_retry_lem, delay_after}
use submitter_smtp_daemon.Delivery.{
  attempt, process_delivery, deliver, lookup_mx, read_message, update_delivery_success, finish,
  record_attempt, Answers, Envelope, Worker, calculate_next_retry, set_state,
  update_delivery_failed, update_delivery_temp_fail,
}
use submitter_smtp_daemon.Schema.{temp_fail}
use submitter_smtp_daemon.Queue.{QueueItem}
use submitter_smtp_daemon.Prelude.{
  Option-cases, none, txt, Bool-cases, List, Option, Text, [], ap, arith, if◌then◌else◌, inl, inr,
  leb_ℤ, pos, refl, some, sym, ℕ, ◌++◌, ◌+◌, ◌∷◌, ◌≡◌, ◌⊎◌,
}

append_nothing {ℓ} : {A : Type ℓ} (xs ys : List A) → ys ≡ [] → xs ++ ys ≡ xs
append_nothing [] ys e = e
append_nothing (x ∷ xs) ys e = ap (λ zs. x ∷ zs) (append_nothing xs ys e)

module _ (a : Answers) (item : QueueItem) (w : Worker) (first : ℕ) (ds : List ℕ) where
  -- a fate in which no delivery is known of
  IsUnsent : Worker → Type 0
  IsUnsent w' = IsRetried a item w w' first ds ⊎ IsGivenUp a item w w'

  abbrev Ends : (Worker → Type 0) → Option Worker → Type 0
  Ends P o = (w' : Worker) × (o ≡ some w') × P w'

  module _ (scheduled : w.config.retry_schedule ≡ first ∷ ds) (mx_host mx_ip : Text) where
    after_temp_fail : Text → List Envelope → Worker
    after_temp_fail error_msg out =
        let u = record w { sent = out } in
        if leb_ℤ item.max_attempts (pos (item.attempts + 1))
        then update_delivery_failed a item mx_host mx_ip error_msg 0 [] u
        else set_state a item temp_fail mx_host mx_ip error_msg 0 []
            (a.retry_now + delay_after item.attempts first ds) u

    temp_fail-Ends :
        (error_msg : Text) (out : List Envelope)
        → IsUnconfirmed a item w mx_host mx_ip out
        → Ends IsUnsent (
            update_delivery_temp_fail a item mx_host mx_ip error_msg 0 [] (record w { sent = out }))
    unfolding update_delivery_temp_fail after_temp_fail IsUnsent set_state update_delivery_failed
    temp_fail-Ends error_msg out e =
        let next =
          subst
            (λ schedule.
              calculate_next_retry a.retry_now item.attempts schedule
              ≡ some (a.retry_now + delay_after item.attempts first ds))
            (sym scheduled) (calculate_next_retry_lem a.retry_now item.attempts first ds).0 in
        (
          after_temp_fail error_msg out,
          rw (next, update_delivery_temp_fail) refl,
          elim (Bool-cases (leb_ℤ item.max_attempts (pos (item.attempts + 1)))) [
            | inl last ↦
                rw last (inr (mx_host, mx_ip, error_msg, inr (ground arith), e, (refl, refl, refl)))
            | inr more ↦
                rw more (inl (mx_host, mx_ip, error_msg, ground arith, e, (refl, refl, refl)))
          ],
        )

    attempt-Ends :
        (msg_data : List ℕ)
        → read_message a item.msg_id w.spool ≡ some msg_data
        → lookup_mx a item.recipient ≡ (mx_host, mx_ip, none)
        → Ends
            (λ w'. IsDelivered a item w w' ⊎ IsUnsent w')
            (finish a item mx_host mx_ip
              (deliver mx_host item.recipient msg_data a.transaction).0
              (record w {
                sent = w.sent ++ (deliver mx_host item.recipient msg_data a.transaction).1;
              }))
    unfolding finish record_attempt IsUnsent Delivers update_delivery_success set_state
    attempt-Ends msg_data readable found =
        elim (deliver_lem mx_host item.recipient msg_data a.transaction) [
          | inl (complete, e) ↦ rw e (
            _,
            refl,
            inl (msg_data, mx_host, mx_ip, readable, found, complete, refl, (refl, refl, refl)),
          )
          | inr (text, out, e, how) ↦
              let (w', same, fate) = temp_fail-Ends text (w.sent ++ out) (elim how [
                | inl nothing ↦ inl (append_nothing w.sent out nothing)
                | inr (lost, one) ↦ inr (msg_data, readable, found, lost, ap (λ o. w.sent ++ o) one)
              ]) in
              rw e (
                rw same (
                  record_attempt a item (txt "temp_fail") mx_host mx_ip
                      (record { smtp_code = 0; smtp_message = []; err = some text }) w',
                  refl,
                  inr fate,
                ))
        ]

  module _ (scheduled : w.config.retry_schedule ≡ first ∷ ds) where
    read-Ends :
        (msg_data : List ℕ)
        → read_message a item.msg_id w.spool ≡ some msg_data
        → (r : Text × Text × Option Text) → lookup_mx a item.recipient ≡ r
        → Ends (λ w'. IsDelivered a item w w' ⊎ IsUnsent w') (attempt a item msg_data r w)
    unfolding attempt IsUnsent
    read-Ends msg_data readable (mx_host, mx_ip, none) found =
        attempt-Ends scheduled mx_host mx_ip msg_data readable found
    read-Ends msg_data readable (mx_host, mx_ip, some text) found =
        let (w', same, fate) = temp_fail-Ends scheduled mx_host mx_ip text w.sent (inl refl) in
        (w', same, inr fate)

    -- With a retry schedule that is not empty, processing an item always comes to an end, without a
    -- panic, in exactly one update of the queue, of one of three kinds. The message was read from the
    -- spool and handed once to the server that the lookup gives, every call on it succeeded, and the
    -- row is set to delivered; or the row is set to temp_fail with the next attempt after the delay
    -- of the schedule, and attempts are left; or the row is set to perm_fail, and then the message
    -- was unreadable or this was the last attempt that the row allows. In the last two cases nothing
    -- was handed over, or the message was, once, to the server that the lookup gives, and the
    -- connection broke at Close after the server had taken it.
    pub process_delivery_lem :
        (w' : Worker) × (process_delivery a item w ≡ some w')
        × (IsDelivered a item w w' ⊎ (IsRetried a item w w' first ds ⊎ IsGivenUp a item w w'))
    unfolding process_delivery IsUnsent update_delivery_failed set_state
    process_delivery_lem = elim (Option-cases (read_message a item.msg_id w.spool)) [
      | inr (msg_data, e) ↦
          let (w', same, fate) = read-Ends msg_data e (lookup_mx a item.recipient) refl in
          (w', rw (e, process_delivery) same, fate)
      | inl unread ↦ (
        update_delivery_failed a item a.unreadable.0 a.unreadable.1 a.unreadable.2 0 [] w,
        rw (unread, process_delivery) refl,
        inr (inr (_, _, _, inl unread, inl refl, (refl, refl, refl))),
      )
    ]
