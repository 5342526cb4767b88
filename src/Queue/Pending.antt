-- ===== src/Queue/Pending.antt =====
-- What `GetPendingDeliveries` of internal/queue/queue.go returns.
use submitter_smtp_daemon.Queue.Rows.{select_complete, select_sound}
use submitter_smtp_daemon.Queue.{
  QueueItem, from_unix, get_pending_deliveries, is_pending, scan_item,
}
use submitter_smtp_daemon.Schema.{queued, temp_fail, Db, Row, select, unix}
use submitter_smtp_daemon.Prelude.{
  ap, Bool, length-map, length-take-le, Member-map, Member-map_of, Member-take, ◌∙◌, All,
  All-member, List, Member, [], arith, inl, inr, length, map, refl, some, suc, take, true, zero, ℕ,
  ◌∷◌, ◌≡◌, ◌≤◌, ◌⊎◌,
}

-- Ascending by next_attempt.
abbrev pub IsSorted : List Row → Type 0
IsSorted [] = Unit
IsSorted (r ∷ rs) = All (λ x. r.next_attempt ≤ x.next_attempt) rs × IsSorted rs

-- What SQL promises of ORDER BY next_attempt ASC; the order of equal keys is open.
pub record IsOrderBy (order_by : List Row → List Row) : Type 0 where
  pub sound : (r : Row) (rs : List Row) → Member r (order_by rs) → Member r rs
  pub complete : (r : Row) (rs : List Row) → Member r rs → Member r (order_by rs)
  pub sorted : (rs : List Row) → IsSorted (order_by rs)

-- A member of a sorted list is among the first n, or those are n and none comes after it.
take-IsSorted :
    (n : ℕ) (r : Row) (rs : List Row)
    → IsSorted rs
    → Member r rs
    → Member r (take n rs)
      ⊎ (length (take n rs) ≡ n) × All (λ x. x.next_attempt ≤ r.next_attempt) (take n rs)
take-IsSorted zero r rs s m = inr (refl, tt)
take-IsSorted (suc n) r [] s m = absurd m
take-IsSorted (suc n) r (x ∷ rs) s (inl e) = inl (inl e)
take-IsSorted (suc n) r (x ∷ rs) s (inr m) = elim (take-IsSorted n r rs s.1 m) [
  | inl early ↦ inl (inr early)
  | inr (full, before) ↦
      inr (omega arith, (All-member r (λ y. x.next_attempt ≤ y.next_attempt) rs s.0 m, before))
]

-- A row that is due, described without the WHERE clause: it waits for its first attempt or for
-- another one, and the time of that has come.
abbrev pub IsReady : ℕ → Row → Type 0
IsReady now r = ((r.state ≡ queued) ⊎ (r.state ≡ temp_fail)) × (r.next_attempt ≤ now)

is_pending-IsReady : (now : ℕ) (r : Row) → is_pending now r ≡ true → IsReady now r
is_pending-IsReady now r h = ground arith

IsReady-is_pending : (now : ℕ) (r : Row) → IsReady now r → is_pending now r ≡ true
IsReady-is_pending now r (inl e, le) = ground arith
IsReady-is_pending now r (inr e, le) = ground arith

-- An item of a list stands for a row of the table that is due.
abbrev pub IsDue : ℕ → List Row → QueueItem → Type 0
IsDue now rs item = (r : Row) × Member r rs × IsReady now r × (item ≡ scan_item r)

module _ (order_by : List Row → List Row) (ordered : IsOrderBy order_by) (fault : Bool)
    (limit now : ℕ) (db : Db) (items : List QueueItem)
    (polled : get_pending_deliveries order_by fault limit now db ≡ some items) where
  picked : List Row
  picked = take limit (order_by (select (is_pending (unix now)) db.delivery_queue))

  items-picked : items ≡ map scan_item picked
  unfolding get_pending_deliveries picked
  items-picked = ground arith

  picked-due :
      (r : Row) → Member r picked → Member r db.delivery_queue × (is_pending (unix now) r ≡ true)
  unfolding picked
  picked-due r m =
      select_sound (is_pending (unix now)) r db.delivery_queue
        (ordered.sound r _ (Member-take r limit _ m))

  at_most : length items ≤ limit
  unfolding picked
  at_most = rw items-picked (rw (length-map scan_item picked) (length-take-le limit _))

  due : (item : QueueItem) → Member item items → IsDue (unix now) db.delivery_queue item
  due item m =
      let (r, taken, e) = Member-map scan_item item picked (rw items-picked at m) in
      (r, (picked-due r taken).0, is_pending-IsReady (unix now) r (picked-due r taken).1, e)

  no_later :
      (r : Row)
      → All (λ x. x.next_attempt ≤ r.next_attempt) picked
      → (item : QueueItem) → Member item items
      → item.next_attempt ≤ from_unix r.next_attempt
  unfolding scan_item
  no_later r before item m =
      let (x, taken, e) = Member-map scan_item item picked (rw items-picked at m) in
      let le : x.next_attempt ≤ r.next_attempt =
        All-member x (λ y. y.next_attempt ≤ r.next_attempt) picked before taken in
      omega (arith, ap (λ (i : QueueItem). i.next_attempt) e)

  -- A poll that the database answers leaves out a row that is due only if it is full, and full of
  -- items whose next attempt is no later than that of the row.
  pub get_pending_deliveries_complete :
      (r : Row)
      → Member r db.delivery_queue
      → IsReady (unix now) r
      → Member (scan_item r) items
        ⊎ (length items ≡ limit)
          × ((item : QueueItem) → Member item items → item.next_attempt ≤ from_unix r.next_attempt)
  unfolding picked
  get_pending_deliveries_complete r m p =
      elim (take-IsSorted limit r _
        (ordered.sorted (select (is_pending (unix now)) db.delivery_queue))
        (ordered.complete r _ (
          select_complete (is_pending (unix now)) r db.delivery_queue m
            (IsReady-is_pending (unix now) r p)))) [
              | inl early ↦ inl (rw items-picked (Member-map_of scan_item r picked early))
              | inr (full, before) ↦ inr (
                rw items-picked (length-map scan_item picked ∙ full),
                λ item mi. no_later r before item mi,
              )
            ]

  -- A poll that the database answers returns at most `limit` items, and each of them is a row of the
  -- table whose state is queued or temp_fail and whose next attempt is due.
  pub get_pending_deliveries_lem :
      (length items ≤ limit)
      × ((item : QueueItem) → Member item items → IsDue (unix now) db.delivery_queue item)
  get_pending_deliveries_lem = (at_most, due)
