-- ===== src/Delivery/Report.antt =====
-- What one `processDelivery` of internal/delivery/worker.go does to the queue and to the remote
-- server, described without its calls.
use submitter_smtp_daemon.Delivery.{
  kept_after, rejected, broken, Answers, SmtpError, Worker, lookup_mx, read_message, Envelope,
  Outcome, Transaction, deliver,
}
use submitter_smtp_daemon.Delivery.Retry.{delay_after}
use submitter_smtp_daemon.Schema.{DeliveryState, delivered, perm_fail, temp_fail}
use submitter_smtp_daemon.Queue.{QueueItem, update_delivery_state}
use submitter_smtp_daemon.Prelude.{
  Bool, true, false, ap, arith, length, length-append, ◌≤◌, Member, Member-append-left, Option, pos,
  some, ◌++◌, ◌+◌, ◌<ℤ◌, ◌≤ℤ◌, List, Text, [], inl, inr, none, refl, txt, ℕ, ◌∷◌, ◌≡◌, ◌⊎◌,
}

-- What a remote server is given: the message, from the postmaster of localhost.
abbrev pub envelope : Text → Text → List ℕ → Envelope
envelope mx_host recipient msg_data = record {
  host = mx_host;
  sender = txt "postmaster@localhost";
  recipient = recipient;
  content = msg_data;
}

abbrev Accepted : Text → Text → List ℕ → Outcome × List Envelope → Type 0
Accepted mx_host recipient msg_data result = result ≡ (
  record { smtp_code = 250; smtp_message = txt "OK"; err = none },
  envelope mx_host recipient msg_data ∷ [],
)

-- The transaction reaches its end: every call on the SMTP client succeeds.
abbrev pub IsComplete : Transaction → Type 0
IsComplete t =
    (t.dial ≡ none)
    × (t.hello ≡ none)
    × (t.mail ≡ none)
    × (t.rcpt ≡ none)
    × (t.data_command ≡ none)
    × (t.write ≡ none)
    × (t.close ≡ none)

-- The connection breaks at Close, and the server has taken the message.
abbrev pub HasLostReply : Transaction → Type 0
HasLostReply t = ((text : Text) × (t.close ≡ some (broken text))) × (t.kept ≡ true)

-- An error with code 0; the server has the message only if its reply was lost.
abbrev Refused : Text → Text → List ℕ → Transaction → Outcome × List Envelope → Type 0
Refused mx_host recipient msg_data t result =
    (text : Text) × (out : List Envelope) × (result
      ≡ (record { smtp_code = 0; smtp_message = []; err = some text }, out))
    × ((out ≡ []) ⊎ (HasLostReply t × (out ≡ envelope mx_host recipient msg_data ∷ [])))

unfoldable pub Delivers : Text → Text → List ℕ → Transaction → Type 0
Delivers mx_host recipient msg_data t =
    IsComplete t × Accepted mx_host recipient msg_data (deliver mx_host recipient msg_data t)
    ⊎ Refused mx_host recipient msg_data t (deliver mx_host recipient msg_data t)

deliver_fields :
    (mx_host recipient : Text) (msg_data : List ℕ) (a b c d e f g : Option SmtpError) (kept : Bool)
    → Delivers mx_host recipient msg_data (record {
      dial = a;
      hello = b;
      mail = c;
      rcpt = d;
      data_command = e;
      write = f;
      close = g;
      kept = kept;
    })
unfolding Delivers deliver kept_after
deliver_fields m r s (some x) b c d e f g k = inr (_, _, refl, inl refl)
deliver_fields m r s none (some x) c d e f g k = inr (_, _, refl, inl refl)
deliver_fields m r s none none (some x) d e f g k = inr (_, _, refl, inl refl)
deliver_fields m r s none none none (some x) e f g k = inr (_, _, refl, inl refl)
deliver_fields m r s none none none none (some x) f g k = inr (_, _, refl, inl refl)
deliver_fields m r s none none none none none (some x) g k = inr (_, _, refl, inl refl)
deliver_fields m r s none none none none none none (some (rejected n x)) k =
    inr (_, _, refl, inl refl)
deliver_fields m r s none none none none none none (some (broken x)) false =
    inr (_, _, refl, inl refl)
deliver_fields m r s none none none none none none (some (broken x)) true =
    inr (_, _, refl, inr (((x, refl), refl), refl))
deliver_fields m r s none none none none none none none k =
    inl ((refl, refl, refl, refl, refl, refl, refl), refl)

pub deliver_lem :
    (mx_host recipient : Text) (msg_data : List ℕ) (t : Transaction)
    → Delivers mx_host recipient msg_data t
deliver_lem m r s t =
    deliver_fields m r s t.dial t.hello t.mail t.rcpt t.data_command t.write t.close t.kept

all_well : Bool → Transaction
all_well kept = record {
  dial = none;
  hello = none;
  mail = none;
  rcpt = none;
  data_command = none;
  write = none;
  close = none;
  kept = kept;
}

complete_transaction : (t : Transaction) → IsComplete t → t ≡ all_well t.kept
unfolding all_well
complete_transaction t (a, b, c, d, e, f, g) = λ i. record {
  dial = a i;
  hello = b i;
  mail = c i;
  rcpt = d i;
  data_command = e i;
  write = f i;
  close = g i;
  kept = t.kept;
}

pub deliver_complete :
    (mx_host recipient : Text) (msg_data : List ℕ) (t : Transaction)
    → IsComplete t
    → deliver mx_host recipient msg_data t ≡ (
      record { smtp_code = 250; smtp_message = txt "OK"; err = none },
      envelope mx_host recipient msg_data ∷ [],
    )
unfolding deliver all_well
deliver_complete mx_host recipient msg_data t complete =
    ap (deliver mx_host recipient msg_data) (complete_transaction t complete)

module _ (a : Answers) (item : QueueItem) (w : Worker) where
  -- No delivery is known of, by what was sent so far: nothing went out, or the message went out to
  -- the server that the lookup names and the reply was lost.
  abbrev pub IsUnconfirmed : Text → Text → List Envelope → Type 0
  IsUnconfirmed mx_host mx_ip out =
      (out ≡ w.sent)
      ⊎ ((msg_data : List ℕ) × (read_message a item.msg_id w.spool ≡ some msg_data)
          × (lookup_mx a item.recipient ≡ (mx_host, mx_ip, none))
          × HasLostReply a.transaction
          × (out ≡ w.sent ++ envelope mx_host item.recipient msg_data ∷ []))

  pub length-IsUnconfirmed :
      (mx_host mx_ip : Text) (out : List Envelope)
      → IsUnconfirmed mx_host mx_ip out
      → length out ≤ length w.sent + 1
  length-IsUnconfirmed mx_host mx_ip out (inl same) = rw same (omega arith)
  length-IsUnconfirmed mx_host mx_ip out (inr (msg, x0, x1, x2, one)) =
      rw one (omega (arith, length-append w.sent (envelope mx_host item.recipient msg ∷ [])))

  pub Member-IsUnconfirmed :
      (mx_host mx_ip : Text) (out : List Envelope)
      → IsUnconfirmed mx_host mx_ip out
      → (e : Envelope) → Member e w.sent
      → Member e out
  Member-IsUnconfirmed mx_host mx_ip out (inl same) e m = rw same m
  Member-IsUnconfirmed mx_host mx_ip out (inr (msg, x0, x1, x2, one)) e m =
      rw one (Member-append-left e w.sent _ m)

module _ (a : Answers) (item : QueueItem) (w w' : Worker) where
  abbrev pub IsStored : DeliveryState → Text → Text → Text → ℕ → Text → ℕ → Type 0
  IsStored state mx_host mx_ip error_msg smtp_code smtp_message next_attempt =
      (w'.db
        ≡ (update_delivery_state a.update_fails item.dlv_id state mx_host mx_ip error_msg smtp_code
            smtp_message next_attempt a.delivered_now a.updated_now w.db).1)
      × (w'.spool ≡ w.spool)
      × (w'.config ≡ w.config)

  -- The message went to the server that the lookup names, once, and the row is delivered.
  abbrev pub IsDelivered : Type 0
  IsDelivered =
      (msg_data : List ℕ) × (mx_host : Text) × (mx_ip : Text) × (read_message a item.msg_id w.spool
        ≡ some msg_data)
      × (lookup_mx a item.recipient ≡ (mx_host, mx_ip, none))
      × IsComplete a.transaction
      × (w'.sent ≡ w.sent ++ envelope mx_host item.recipient msg_data ∷ [])
      × IsStored delivered mx_host mx_ip [] 250 (txt "OK") 0

  -- No delivery is known of; the row waits for another attempt, and there is one left.
  abbrev pub IsRetried : ℕ → List ℕ → Type 0
  IsRetried first ds =
      (mx_host : Text) × (mx_ip : Text) × (error_msg : Text) × (pos (item.attempts + 1)
        <ℤ item.max_attempts)
      × IsUnconfirmed a item w mx_host mx_ip w'.sent
      × IsStored temp_fail mx_host mx_ip error_msg 0 []
          (a.retry_now + delay_after item.attempts first ds)

  -- No delivery is known of; the row is failed for good, since the message could not be read or since
  -- this was the last attempt.
  abbrev pub IsGivenUp : Type 0
  IsGivenUp =
      (mx_host : Text) × (mx_ip : Text) × (error_msg : Text) × ((read_message a item.msg_id w.spool
          ≡ none)
        ⊎ (item.max_attempts ≤ℤ pos (item.attempts + 1)))
      × IsUnconfirmed a item w mx_host mx_ip w'.sent
      × IsStored perm_fail mx_host mx_ip error_msg 0 [] 0
