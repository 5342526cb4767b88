-- ===== src/Delivery/Attempts.antt =====
-- How many attempts the rows of delivery_queue have and have left, as internal/delivery/worker.go
-- processes them.
use mathlib.Core.Path.{subst}
use mathlib.Core.Option
use submitter_smtp_daemon.Delivery.Retry.{delay_after}
use submitter_smtp_daemon.Schema.{
  Db, delivered, delivering, perm_fail, DeliveryState, Row, find_row, queued, state_eq, temp_fail,
  update_where,
}
use submitter_smtp_daemon.Queue.{update_delivery_state, updated, QueueItem, scan_item}
use submitter_smtp_daemon.Delivery.Report.{IsDelivered, IsGivenUp, IsRetried}
use submitter_smtp_daemon.Delivery.{process_delivery, Answers, Worker}
use submitter_smtp_daemon.Queue.Rows.{
  Member-update_where, update_where-IsKeyed, IsKeyed, find_row-Member,
}
use submitter_smtp_daemon.Delivery.Process.{process_delivery_lem}
use submitter_smtp_daemon.Prelude.{
  ap, false, sym, txt, ◌∙◌, Bool, Bool-cases, List, Member, Text, [], arith, if◌then◌else◌, inl,
  inr, pos, pos_part, refl, some, suc, text_eq, text_eq_iff, true, ℕ, ◌+◌, ◌-◌, ◌<ℤ◌, ◌||◌, ◌∷◌,
  ◌≡◌, ◌≤ℤ◌, ◌≤◌, ◌⊎◌,
}

-- A row has no more attempts than it allows, and fewer while it waits for another one.
abbrev pub IsWithin : Row → Type 0
IsWithin r =
    (pos r.attempts ≤ℤ r.max_attempts)
    × ((r.state ≡ queued) ⊎ (r.state ≡ temp_fail) → pos r.attempts <ℤ r.max_attempts)

abbrev pub is_waiting : DeliveryState → Bool
is_waiting s = state_eq s queued || state_eq s temp_fail

-- The attempts that a row has left.
unfoldable pub attempts_left : Row → ℕ
attempts_left r = if is_waiting r.state then pos_part r.max_attempts - r.attempts else 0

unfoldable pub work : List Row → ℕ
work [] = 0
work (r ∷ rs) = attempts_left r + work rs

-- An item that was read from the row as it stands.
abbrev pub IsCurrent : QueueItem → List Row → Row → Type 0
IsCurrent item rs r =
    (find_row item.dlv_id rs ≡ some r) × (item ≡ scan_item r) × (is_waiting r.state ≡ true)

waiting_state : (s : DeliveryState) → is_waiting s ≡ true → (s ≡ queued) ⊎ (s ≡ temp_fail)
waiting_state queued e = inl refl
waiting_state temp_fail e = inr refl
waiting_state delivering e = cc
waiting_state delivered e = cc
waiting_state perm_fail e = cc

module _ (id : Text) (f : Row → Row) where
  Lowers : List Row → Type 0
  Lowers rs = (x : Row) → Member x rs → x.dlv_id ≡ id → suc (attempts_left (f x)) ≤ attempts_left x

  work_le : (rs : List Row) → Lowers rs → work (update_where id f rs) ≤ work rs
  unfolding Lowers work update_where
  work_le [] h = omega arith
  work_le (x ∷ rs) h = elim (Bool-cases (text_eq x.dlv_id id)) [
    | inl same ↦ rw same (
        omega (
          arith,
          h x (inl refl) ((text_eq_iff x.dlv_id id).0 same),
          work_le rs (λ y m. h y (inr m)),
        ))
    | inr other ↦ rw other (omega (arith, work_le rs (λ y m. h y (inr m))))
  ]

  work_lt :
      (r : Row) (rs : List Row)
      → Lowers rs
      → find_row id rs ≡ some r
      → suc (work (update_where id f rs)) ≤ work rs
  unfolding Lowers work update_where find_row
  work_lt r [] h e = cc
  work_lt r (x ∷ rs) h e = elim (Bool-cases (text_eq x.dlv_id id)) [
    | inl same ↦ rw same (
        omega (
          arith,
          h x (inl refl) ((text_eq_iff x.dlv_id id).0 same),
          work_le rs (λ y m. h y (inr m)),
        ))
    | inr other ↦ rw other (omega (arith, work_lt r rs (λ y m. h y (inr m)) (ground arith)))
  ]

module _ (s : DeliveryState) (mx_hostname mx_ip error_msg : Text) (smtp_code : ℕ)
    (smtp_message : Text) (next_attempt delivered_now now : ℕ) where
  abbrev set_row : Row → Row
  set_row =
      updated s mx_hostname mx_ip error_msg smtp_code smtp_message next_attempt delivered_now now

  Allowed : Row → Type 0
  Allowed r = is_waiting s ≡ true → pos (r.attempts + 1) <ℤ r.max_attempts

  waits : (s ≡ queued) ⊎ (s ≡ temp_fail) → is_waiting s ≡ true
  waits (inl e) = rw e refl
  waits (inr e) = rw e refl

  set_row-IsWithin : (r : Row) → pos r.attempts <ℤ r.max_attempts → Allowed r → IsWithin (set_row r)
  unfolding Allowed updated
  set_row-IsWithin r h allowed = (ground arith, λ e. allowed (waits e))

  set_row-lowers :
      (r : Row)
      → is_waiting r.state ≡ true
      → pos r.attempts <ℤ r.max_attempts
      → Allowed r
      → suc (attempts_left (set_row r)) ≤ attempts_left r
  unfolding Allowed attempts_left updated
  set_row-lowers r waiting h allowed = rw waiting (elim (Bool-cases (is_waiting s)) [
    | inl again ↦ rw again (let more = allowed again in ground arith)
    | inr over ↦ rw over (ground arith)
  ])

module _ (a : Answers) (item : QueueItem) (w : Worker) (first : ℕ) (ds : List ℕ) where
  -- the one statement that processing runs on the table
  unfoldable pub WritesOnce : Worker → Type 0
  WritesOnce w' =
      (s : DeliveryState) × (mx_host : Text) × (mx_ip : Text) × (error_msg : Text) × (code : ℕ)
      × (message : Text) × (next : ℕ) × (w'.db
          ≡ (update_delivery_state a.update_fails item.dlv_id s mx_host mx_ip error_msg code message
              next a.delivered_now a.updated_now w.db).1)
      × (is_waiting s ≡ true → pos (item.attempts + 1) <ℤ item.max_attempts)

  pub writes_once :
      (w' : Worker)
      → IsDelivered a item w w' ⊎ (IsRetried a item w w' first ds ⊎ IsGivenUp a item w w')
      → WritesOnce w'
  unfolding WritesOnce
  writes_once w' (inl (msg, h, ip, x0, x1, x2, x3, stored)) =
      (delivered, h, ip, [], 250, txt "OK", 0, stored.0, λ e. cc)
  writes_once w' (inr (inl (h, ip, e, more, x0, stored))) = (
    temp_fail,
    h,
    ip,
    e,
    0,
    [],
    a.retry_now + delay_after item.attempts first ds,
    stored.0,
    λ _. more,
  )
  writes_once w' (inr (inr (h, ip, e, x0, x1, stored))) =
      (perm_fail, h, ip, e, 0, [], 0, stored.0, λ e. cc)

module _ (a : Answers) (answered : a.update_fails ≡ false) (item : QueueItem) (w : Worker)
    (first : ℕ) (ds : List ℕ) (scheduled : w.config.retry_schedule ≡ first ∷ ds) (r : Row)
    (current : IsCurrent item w.db.delivery_queue r) (keyed : IsKeyed w.db.delivery_queue)
    (within : (x : Row) → Member x w.db.delivery_queue → IsWithin x) where
  Progress : List Row → Type 0
  Progress rows =
      IsKeyed rows
      × ((x : Row) → Member x rows → IsWithin x)
      × (suc (work rows) ≤ work w.db.delivery_queue)

  the_row : (x : Row) → Member x w.db.delivery_queue → x.dlv_id ≡ item.dlv_id → x ≡ r
  the_row x m e =
      Option.some-injective _ _
        (sym (keyed x m) ∙ ap (λ j. find_row j w.db.delivery_queue) e ∙ current.0)

  has_more : pos r.attempts <ℤ r.max_attempts
  has_more =
      (within r (find_row-Member item.dlv_id r w.db.delivery_queue current.0)).1
        (waiting_state r.state current.2)

  one_update :
      (s : DeliveryState) (h ip e : Text) (code : ℕ) (message : Text) (next : ℕ)
      → (is_waiting s ≡ true → pos (item.attempts + 1) <ℤ item.max_attempts)
      → Progress (
          update_where item.dlv_id
            (set_row s h ip e code message next a.delivered_now a.updated_now)
            w.db.delivery_queue)
  unfolding Progress Allowed scan_item updated Lowers
  one_update s h ip e code message next allowed =
      let f = set_row s h ip e code message next a.delivered_now a.updated_now in
      let allowed_r : Allowed s h ip e code message next a.delivered_now a.updated_now r =
        subst (λ (i : QueueItem). is_waiting s ≡ true → pos (i.attempts + 1) <ℤ i.max_attempts)
          current.1 allowed in
      (
        update_where-IsKeyed item.dlv_id f w.db.delivery_queue (λ x. refl) keyed,
        λ y m. elim (Member-update_where item.dlv_id f y w.db.delivery_queue m) [
          | inl (old, ne) ↦ within y old
          | inr (x, old, id, q) ↦ subst IsWithin (sym (q ∙ ap f (the_row x old id))) (
              set_row-IsWithin s h ip e code message next a.delivered_now a.updated_now r has_more
                allowed_r)
        ],
        work_lt item.dlv_id f r w.db.delivery_queue
            (λ x m id.
              subst (λ (y : Row). suc (attempts_left (f y)) ≤ attempts_left y)
                (sym (the_row x m id))
                (set_row-lowers s h ip e code message next a.delivered_now a.updated_now r current.2
                  has_more allowed_r))
            current.0,
      )

  -- A worker whose table is keyed by dlv_id and has no row with more attempts than it allows, nor a
  -- waiting row with none left, processes an item that was read from a waiting row as it stands. If
  -- its schedule is not empty and the update is written, then it does not panic, the table it
  -- leaves has the same two properties, and the attempts that are left in it over all waiting rows
  -- have become fewer.
  pub process_delivery_progress :
      (w' : Worker) × (process_delivery a item w ≡ some w')
      × IsKeyed w'.db.delivery_queue
      × ((x : Row) → Member x w'.db.delivery_queue → IsWithin x)
      × (suc (work w'.db.delivery_queue) ≤ work w.db.delivery_queue)
  unfolding WritesOnce Progress update_delivery_state
  process_delivery_progress =
      let (w', same, fate) = process_delivery_lem a item w first ds scheduled in
      let (s, h, ip, e, code, message, next, stored, allowed) =
        writes_once a item w first ds w' fate in
      let written : w'.db.delivery_queue
          ≡ update_where item.dlv_id
              (set_row s h ip e code message next a.delivered_now a.updated_now)
              w.db.delivery_queue =
        ap (λ (db : Db). db.delivery_queue) stored
        ∙ ap
            (λ fault.
              (update_delivery_state fault item.dlv_id s h ip e code message next a.delivered_now
                a.updated_now w.db).1.delivery_queue)
            answered in
      let (keyed', within', less) =
        subst Progress (sym written) (one_update s h ip e code message next allowed) in
      (w', same, keyed', within', less)
