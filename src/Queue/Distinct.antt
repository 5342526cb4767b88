-- ===== src/Queue/Distinct.antt =====
-- Tables and polls in which no id occurs twice, for the queries of internal/queue/queue.go.
use mathlib.Core.List.{
  Mem, Nodup, Nodup-cons, Nodup-nil, mem-cons_self, mem-cons_of_mem, not-mem-nil,
  eq-or-mem_of_mem-cons, Perm,
}
use mathlib.Core.Logic.Or
use mathlib.Core.HLevel.{⊥_prop}
use mathlib.Core.Path.{subst}
use submitter_smtp_daemon.Queue.Rows.{IsKeyed}
use mathlib.Core.List.Perm
use submitter_smtp_daemon.Queue.{
  count_state, get_pending_deliveries, is_pending, scan_item, QueueItem,
}
use submitter_smtp_daemon.Schema.{
  Db, DeliveryState, find_row, select, state_eq, unix, update_where, Row,
}
use submitter_smtp_daemon.Prelude.{
  ◌∙◌, Bool, Bool-cases, arith, if◌then◌else◌, none, refl, some, text_eq, text_eq_iff, text_eq_refl,
  ◌+◌, ◌≡◌, List, Member, Text, [], inl, inr, map, suc, sym, take, zero, ℕ, ◌++◌, ◌∷◌, ◌≢◌,
}

module _ {A : Type 0} (key : A → Text) where
  -- No entry has the id.
  abbrev pub Lacks : Text → List A → Type 0
  Lacks id [] = Unit {0}
  Lacks id (x ∷ xs) = (key x ≢ id) × Lacks id xs

  -- No id occurs twice.
  abbrev pub IsDistinct : List A → Type 0
  IsDistinct [] = Unit {0}
  IsDistinct (x ∷ xs) = Lacks (key x) xs × IsDistinct xs

  Lacks-Mem : (id : Text) (xs : List A) → Lacks id xs → ¬ Mem id (map key xs)
  Lacks-Mem id [] h m = not-mem-nil m
  Lacks-Mem id (x ∷ xs) h m =
      Or.elim {C = ⊥} ⊥_prop (eq-or-mem_of_mem-cons m) (λ e. h.0 (sym e))
        (λ rest. Lacks-Mem id xs h.1 rest)

  Mem-Lacks : (id : Text) (xs : List A) → ¬ Mem id (map key xs) → Lacks id xs
  Mem-Lacks id [] h = tt
  Mem-Lacks id (x ∷ xs) h =
      (λ e. h (rw e mem-cons_self), Mem-Lacks id xs (λ m. h (mem-cons_of_mem (key x) m)))

  IsDistinct-Nodup : (xs : List A) → IsDistinct xs → Nodup (map key xs)
  IsDistinct-Nodup [] h = Nodup-nil
  IsDistinct-Nodup (x ∷ xs) h = Nodup-cons.1 (Lacks-Mem (key x) xs h.0, IsDistinct-Nodup xs h.1)

  Nodup-IsDistinct : (xs : List A) → Nodup (map key xs) → IsDistinct xs
  Nodup-IsDistinct [] h = tt
  Nodup-IsDistinct (x ∷ xs) h =
      let (none_left, rest) = Nodup-cons.0 h in
      (Mem-Lacks (key x) xs none_left, Nodup-IsDistinct xs rest)

  pub perm-IsDistinct : (xs ys : List A) → Perm xs ys → IsDistinct ys → IsDistinct xs
  perm-IsDistinct xs ys p h =
      Nodup-IsDistinct xs (Perm.nodup (Perm.symm (Perm.map key p)) (IsDistinct-Nodup ys h))

  pub Lacks-take : (id : Text) (n : ℕ) (xs : List A) → Lacks id xs → Lacks id (take n xs)
  Lacks-take id zero xs h = tt
  Lacks-take id (suc n) [] h = tt
  Lacks-take id (suc n) (x ∷ xs) h = (h.0, Lacks-take id n xs h.1)

  pub take-IsDistinct : (n : ℕ) (xs : List A) → IsDistinct xs → IsDistinct (take n xs)
  take-IsDistinct zero xs h = tt
  take-IsDistinct (suc n) [] h = tt
  take-IsDistinct (suc n) (x ∷ xs) h = (Lacks-take (key x) n xs h.0, take-IsDistinct n xs h.1)

  pub Lacks-append :
      (id : Text) (xs : List A) (y : A) → Lacks id xs → key y ≢ id → Lacks id (xs ++ y ∷ [])
  Lacks-append id [] y h e = (e, tt)
  Lacks-append id (x ∷ xs) y h e = (h.0, Lacks-append id xs y h.1 e)

  pub append-IsDistinct :
      (xs : List A) (y : A) → Lacks (key y) xs → IsDistinct xs → IsDistinct (xs ++ y ∷ [])
  append-IsDistinct [] y l h = (tt, tt)
  append-IsDistinct (x ∷ xs) y l h =
      (Lacks-append (key x) xs y h.0 (λ e. l.0 (sym e)), append-IsDistinct xs y l.1 h.1)

  pub Lacks-Member : (id : Text) (y : A) (xs : List A) → Lacks id xs → Member y xs → key y ≢ id
  Lacks-Member id y [] h m = absurd m
  Lacks-Member id y (x ∷ xs) h (inl e) = rw e h.0
  Lacks-Member id y (x ∷ xs) h (inr m) = Lacks-Member id y xs h.1 m

abbrev pub row_id : Row → Text
row_id r = r.dlv_id

abbrev pub item_id : QueueItem → Text
item_id item = item.dlv_id

-- A key that the table lacks is not found.
pub find_row-Lacks : (id : Text) (rs : List Row) → find_row id rs ≡ none → Lacks row_id id rs
unfolding find_row
find_row-Lacks id [] h = tt
find_row-Lacks id (x ∷ xs) h =
    (λ e. ground (arith, text_eq_iff x.dlv_id id), find_row-Lacks id xs (ground arith))

pub Lacks-find_row : (id : Text) (rs : List Row) → Lacks row_id id rs → find_row id rs ≡ none
unfolding find_row
Lacks-find_row id [] h = refl
Lacks-find_row id (x ∷ xs) h = ground (arith, text_eq_iff x.dlv_id id, h.0, Lacks-find_row id xs)

-- A table in which no id occurs twice is keyed.
pub IsDistinct-IsKeyed : (rs : List Row) → IsDistinct row_id rs → IsKeyed rs
unfolding find_row
IsDistinct-IsKeyed [] h r m = absurd m
IsDistinct-IsKeyed (x ∷ xs) h r (inl e) = rw e (rw (text_eq_refl x.dlv_id) refl)
IsDistinct-IsKeyed (x ∷ xs) h r (inr m) =
    let other = Lacks-Member row_id x.dlv_id r xs h.0 m in
    ground (arith, text_eq_iff x.dlv_id r.dlv_id, IsDistinct-IsKeyed xs h.1 r m)

module _ (p : Row → Bool) where
  Lacks-select : (id : Text) (rs : List Row) → Lacks row_id id rs → Lacks row_id id (select p rs)
  unfolding select
  Lacks-select id [] h = tt
  Lacks-select id (x ∷ xs) h = elim (Bool-cases (p x)) [
    | inl kept ↦ rw kept (h.0, Lacks-select id xs h.1)
    | inr left ↦ rw left (Lacks-select id xs h.1)
  ]

  select-IsDistinct : (rs : List Row) → IsDistinct row_id rs → IsDistinct row_id (select p rs)
  unfolding select
  select-IsDistinct [] h = tt
  select-IsDistinct (x ∷ xs) h = elim (Bool-cases (p x)) [
    | inl kept ↦ rw kept (Lacks-select x.dlv_id xs h.0, select-IsDistinct xs h.1)
    | inr left ↦ rw left (select-IsDistinct xs h.1)
  ]

Lacks-scan_item :
    (id : Text) (rs : List Row) → Lacks row_id id rs → Lacks item_id id (map scan_item rs)
unfolding scan_item
Lacks-scan_item id [] h = tt
Lacks-scan_item id (x ∷ xs) h = (h.0, Lacks-scan_item id xs h.1)

scan_item-IsDistinct :
    (rs : List Row) → IsDistinct row_id rs → IsDistinct item_id (map scan_item rs)
unfolding scan_item
scan_item-IsDistinct [] h = tt
scan_item-IsDistinct (x ∷ xs) h = (Lacks-scan_item x.dlv_id xs h.0, scan_item-IsDistinct xs h.1)

-- A poll of a table in which no id occurs twice returns no id twice.
pub get_pending_deliveries-IsDistinct :
    (order_by : List Row → List Row) (fault : Bool) (limit now : ℕ) (db : Db)
    (items : List QueueItem)
    → ((rs : List Row) → Perm (order_by rs) rs)
    → IsDistinct row_id db.delivery_queue
    → get_pending_deliveries order_by fault limit now db ≡ some items
    → IsDistinct item_id items
unfolding get_pending_deliveries
get_pending_deliveries-IsDistinct order_by fault limit now db items permutes distinct polled =
    let rows = select (is_pending (unix now)) db.delivery_queue in
    let e : items ≡ map scan_item (take limit (order_by rows)) = ground arith in
    rw e (
      scan_item-IsDistinct _ (
        take-IsDistinct row_id limit (order_by rows) (
          perm-IsDistinct row_id (order_by rows) rows (permutes rows)
            (select-IsDistinct (is_pending (unix now)) db.delivery_queue distinct))))

module _ (id : Text) (f : Row → Row) (keeps : (r : Row) → (f r).dlv_id ≡ r.dlv_id) where
  row_id-updated : (x : Row) → (if text_eq x.dlv_id id then f x else x).dlv_id ≡ x.dlv_id
  row_id-updated x = elim (Bool-cases (text_eq x.dlv_id id)) [
    | inl same ↦ rw same (keeps x)
    | inr other ↦ rw other refl
  ]

  Lacks-update_where :
      (j : Text) (rs : List Row) → Lacks row_id j rs → Lacks row_id j (update_where id f rs)
  unfolding update_where
  Lacks-update_where j [] h = tt
  Lacks-update_where j (x ∷ xs) h =
      (λ e. h.0 (sym (row_id-updated x) ∙ e), Lacks-update_where j xs h.1)

  pub update_where-IsDistinct :
      (rs : List Row) → IsDistinct row_id rs → IsDistinct row_id (update_where id f rs)
  unfolding update_where
  update_where-IsDistinct [] h = tt
  update_where-IsDistinct (x ∷ xs) h = (
    subst (λ j. Lacks row_id j (update_where id f xs)) (sym (row_id-updated x))
        (Lacks-update_where x.dlv_id xs h.0),
    update_where-IsDistinct xs h.1,
  )

  update_where-Lacks : (rs : List Row) → Lacks row_id id rs → update_where id f rs ≡ rs
  unfolding update_where
  update_where-Lacks [] h = refl
  update_where-Lacks (x ∷ xs) h =
      ground (arith, text_eq_iff x.dlv_id id, h.0, update_where-Lacks xs h.1)

  -- An update of one row of a state that moves it to another state, or keeps it out of both.
  pub count_state-update_where :
      (s : DeliveryState) (r : Row) (rs : List Row)
      → IsDistinct row_id rs
      → find_row id rs ≡ some r
      → count_state s (update_where id f rs) + (if state_eq r.state s then 1 else 0)
        ≡ count_state s rs + (if state_eq (f r).state s then 1 else 0)
  unfolding update_where find_row count_state
  count_state-update_where s r [] h e = cc
  count_state-update_where s r (x ∷ xs) h e = elim (Bool-cases (text_eq x.dlv_id id)) [
    | inl same ↦
        let is_r : x ≡ r = ground arith in
        let others : update_where id f xs ≡ xs =
          update_where-Lacks xs
            (subst (λ j. Lacks row_id j xs) ((text_eq_iff x.dlv_id id).0 same) h.0) in
        rw same (rw others (rw is_r (omega arith)))
    | inr other ↦
        let e' : find_row id xs ≡ some r = ground arith in
        rw other (omega (arith, count_state-update_where s r xs h.1 e'))
  ]
