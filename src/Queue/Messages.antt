-- ===== src/Queue/Messages.antt =====
-- Messages and new deliveries in internal/queue/queue.go.
use submitter_smtp_daemon.Queue.Rows.{append-IsKeyed, find_row-append, IsKeyed}
use submitter_smtp_daemon.Queue.{
  new_row, message_row, Error, enqueue_delivery, is_pending, Json, Message, add_message, from_unix,
  get_message,
}
use submitter_smtp_daemon.Schema.{is_some, Row, find_row, Db, MessageRow, find_message, unix}
use submitter_smtp_daemon.Prelude.{
  Bool-cases, inl, inr, ◌⊎◌, text_eq_iff, Bool, Option, leb, text_eq_refl, true, ℤ, ◌≢◌, List, Text,
  [], arith, false, if◌then◌else◌, none, refl, some, text_eq, ℕ, ◌++◌, ◌∷◌, ◌≡◌,
}

find_message-append :
    (id : Text) (rs : List MessageRow) (new : MessageRow)
    → find_message id rs ≡ none
    → find_message id (rs ++ new ∷ []) ≡ (if text_eq new.msg_id id then some new else none)
unfolding find_message
find_message-append id [] new h = refl
find_message-append id (x ∷ rs) new h = ground (arith, find_message-append id rs new)

-- A successful INSERT had a new key, and appends the row.
added :
    (json : Json) (fault : Bool) (msg : Message) (rcpt_json : Text) (db db' : Db)
    → json.marshal msg.rcpt_to ≡ some rcpt_json
    → add_message json fault msg db ≡ (none, db')
    → (find_message msg.msg_id db.messages ≡ none)
      × (db'.messages ≡ db.messages ++ message_row msg rcpt_json ∷ [])
unfolding add_message
added json fault msg rcpt_json db db' wrote h = ground arith

-- The time that a creation time has after it went through the database: whole seconds.
abbrev pub to_seconds : ℕ → ℕ
to_seconds t = from_unix (unix t)

-- If the codec reads back what it wrote for the recipients of a message, then a message whose
-- AddMessage succeeds is what GetMessage of its id returns, except that its creation time is cut to
-- whole seconds.
pub get_message-add_message :
    (json : Json) (msg : Message) (rcpt_json : Text) (db db' : Db)
    → json.marshal msg.rcpt_to ≡ some rcpt_json
    → json.unmarshal rcpt_json ≡ some msg.rcpt_to
    → add_message json false msg db ≡ (none, db')
    → get_message json false msg.msg_id db'
      ≡ (none, some (record msg { created_at = to_seconds msg.created_at }))
unfolding get_message
get_message-add_message json msg rcpt_json db db' wrote reads h =
    let (fresh, stored) = added json false msg rcpt_json db db' wrote h in
    let found : find_message msg.msg_id db'.messages ≡ some (message_row msg rcpt_json) =
      rw stored (
        rw (find_message-append msg.msg_id db.messages (message_row msg rcpt_json) fresh)
          (rw (text_eq_refl msg.msg_id))) in
    ground (arith, found)

of_is_some {ℓ} : {A : Type ℓ} (o : Option A) → is_some o ≡ true → (a : A) × (o ≡ some a)
of_is_some none h = cc
of_is_some (some a) h = (a, refl)

add_message_error :
    (json : Json) (fault : Bool) (msg : Message) (db : Db)
    → ((old : MessageRow)
        → find_message msg.msg_id db.messages ≡ some old
        → (add_message json fault msg db).0 ≢ none)
      × ((e : Error)
          → (add_message json fault msg db).0 ≡ some e
          → (add_message json fault msg db).1 ≡ db)
unfolding add_message
add_message_error json fault msg db = (λ old h. ground arith, λ e h. ground arith)

module _ (foreign_keys fault : Bool) (dlv_id msg_id recipient : Text) (max_attempts : ℤ) (now : ℕ)
    (db : Db) where
  abbrev enqueue : Option Error × Db
  enqueue = enqueue_delivery foreign_keys fault dlv_id msg_id recipient max_attempts now db

  abbrev row : Row
  row = new_row dlv_id msg_id recipient max_attempts now

  accepted :
      enqueue.0 ≡ none
      → (find_row dlv_id db.delivery_queue ≡ none)
        × (foreign_keys ≡ true → (m : MessageRow) × (find_message msg_id db.messages ≡ some m))
        × (enqueue.1.delivery_queue ≡ db.delivery_queue ++ row ∷ [])
  unfolding enqueue_delivery
  accepted h = (ground arith, λ k. of_is_some _ (ground arith), ground arith)

  others :
      (j : Text)
      → dlv_id ≢ j
      → find_row j (db.delivery_queue ++ row ∷ []) ≡ find_row j db.delivery_queue
  others j ne = rw (find_row-append j db.delivery_queue row) (ground (arith, text_eq_iff dlv_id j))

  own :
      find_row dlv_id db.delivery_queue ≡ none
      → find_row dlv_id (db.delivery_queue ++ row ∷ []) ≡ some row
  own fresh =
      rw (find_row-append dlv_id db.delivery_queue row) (rw fresh (rw (text_eq_refl dlv_id)))

  -- A delivery that EnqueueDelivery accepts for a table keyed by dlv_id has a new id, and a known
  -- message unless foreign keys are not enforced. Its row has the recipient, no attempt yet, and is
  -- pending from the second of the call on; the rows of other ids and the key property stay.
  pub enqueue_delivery_lem :
      enqueue.0 ≡ none
      → IsKeyed db.delivery_queue
      → (find_row dlv_id db.delivery_queue ≡ none)
        × ((foreign_keys ≡ false) ⊎ ((m : MessageRow) × (find_message msg_id db.messages ≡ some m)))
        × ((r : Row) × (find_row dlv_id enqueue.1.delivery_queue ≡ some r)
            × (r.attempts ≡ 0)
            × (r.recipient ≡ recipient)
            × ((t : ℕ) → is_pending t r ≡ leb (unix now) t))
        × ((j : Text)
            → dlv_id ≢ j
            → find_row j enqueue.1.delivery_queue ≡ find_row j db.delivery_queue)
        × IsKeyed enqueue.1.delivery_queue
  enqueue_delivery_lem h keyed =
      let (fresh, known, e) = accepted h in
      (
        fresh,
        elim (Bool-cases foreign_keys) [
          | inl enforced ↦ inr (known enforced)
          | inr free ↦ inl free
        ],
        (row, rw e (own fresh), refl, refl, λ t. refl),
        λ j ne. rw e (others j ne),
        rw e (append-IsKeyed db.delivery_queue row fresh keyed),
      )
