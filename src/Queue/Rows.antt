-- ===== src/Queue/Rows.antt =====
-- The SQL primitives of the model of internal/db/schema.go.
use mathlib.Core.Path.{subst}
use submitter_smtp_daemon.Schema.{find_row, update_where, Row, select}
use submitter_smtp_daemon.Prelude.{
  text_eq_refl, ap, Member-append, if◌then◌else◌, none, sym, ◌++◌, ◌∙◌, text_eq_iff, Text, length,
  refl, some, text_eq, ◌≢◌, ◌⊎◌, Bool, Bool-cases, List, Member, [], arith, inl, inr, true, ◌∷◌,
  ◌≡◌,
}

module _ (p : Row → Bool) (r : Row) where
  pub select_sound : (rs : List Row) → Member r (select p rs) → Member r rs × (p r ≡ true)
  unfolding select
  select_sound [] h = absurd h
  select_sound (x ∷ rs) h = elim (Bool-cases (p x)) [
    | inl yes_x ↦ ground (arith, select_sound rs)
    | inr no_x ↦ ground (arith, select_sound rs)
  ]

  pub select_complete : (rs : List Row) → Member r rs → p r ≡ true → Member r (select p rs)
  unfolding select
  select_complete [] h k = absurd h
  select_complete (x ∷ rs) (inl e) k = let px : p x ≡ true = (rw e at k) in rw px (inl e)
  select_complete (x ∷ rs) (inr h) k = elim (Bool-cases (p x)) [
    | inl holds ↦ rw holds (inr (select_complete rs h k))
    | inr fails ↦ rw fails (select_complete rs h k)
  ]

module _ (id : Text) where
  pub find_row-dlv_id : (r : Row) (rs : List Row) → find_row id rs ≡ some r → r.dlv_id ≡ id
  unfolding find_row
  find_row-dlv_id r [] h = cc
  find_row-dlv_id r (x ∷ rs) h = ground (arith, text_eq_iff x.dlv_id id, find_row-dlv_id r rs)

  pub find_row-Member : (r : Row) (rs : List Row) → find_row id rs ≡ some r → Member r rs
  unfolding find_row
  find_row-Member r [] h = cc
  find_row-Member r (x ∷ rs) h = elim (Bool-cases (text_eq x.dlv_id id)) [
    | inl same ↦ inl (ground arith)
    | inr other ↦ inr (find_row-Member r rs (ground arith))
  ]

  module _ (f : Row → Row) (keeps : (r : Row) → (f r).dlv_id ≡ r.dlv_id) where
    -- An UPDATE of one key rewrites the row of that key, and no other key's row.
    pub find_row-update_where_self :
        (r : Row) (rs : List Row)
        → find_row id rs ≡ some r
        → find_row id (update_where id f rs) ≡ some (f r)
    unfolding find_row update_where
    find_row-update_where_self r [] h = cc
    find_row-update_where_self r (x ∷ rs) h = ground (
      arith,
      keeps x,
      text_eq_iff x.dlv_id id,
      text_eq_iff (f x).dlv_id id,
      find_row-update_where_self r rs,
    )

    pub find_row-update_where_ne :
        (j : Text) (rs : List Row) → id ≢ j → find_row j (update_where id f rs) ≡ find_row j rs
    unfolding find_row update_where
    find_row-update_where_ne j [] h = refl
    find_row-update_where_ne j (x ∷ rs) h = ground (
      arith,
      keeps x,
      text_eq_iff x.dlv_id id,
      text_eq_iff x.dlv_id j,
      text_eq_iff (f x).dlv_id j,
      find_row-update_where_ne j rs,
    )

  pub length-update_where :
      (f : Row → Row) (rs : List Row) → length (update_where id f rs) ≡ length rs
  unfolding update_where
  length-update_where f [] = refl
  length-update_where f (x ∷ rs) = omega (arith, length-update_where f rs)

  pub Member-update_where :
      (f : Row → Row) (r : Row) (rs : List Row)
      → Member r (update_where id f rs)
      → Member r rs × (r.dlv_id ≢ id) ⊎ (x : Row) × Member x rs × (x.dlv_id ≡ id) × (r ≡ f x)
  unfolding update_where
  Member-update_where f r [] h = absurd h
  Member-update_where f r (x ∷ rs) (inl e) = elim (Bool-cases (text_eq x.dlv_id id)) [
    | inl same ↦ inr (x, inl refl, (text_eq_iff x.dlv_id id).0 same, ground arith)
    | inr other ↦ inl (inl (ground arith), λ q. ground (arith, text_eq_iff x.dlv_id id))
  ]
  Member-update_where f r (x ∷ rs) (inr h) = elim (Member-update_where f r rs h) [
    | inl (m, ne) ↦ inl (inr m, ne)
    | inr (y, m, e, q) ↦ inr (y, inr m, e, q)
  ]

-- dlv_id is a key of the table: every row is the one that its own key finds.
abbrev pub IsKeyed : List Row → Type 0
IsKeyed rs = (r : Row) → Member r rs → find_row r.dlv_id rs ≡ some r

pub update_where-IsKeyed :
    (id : Text) (f : Row → Row) (rs : List Row)
    → ((r : Row) → (f r).dlv_id ≡ r.dlv_id)
    → IsKeyed rs
    → IsKeyed (update_where id f rs)
update_where-IsKeyed id f rs keeps keyed r m = elim (Member-update_where id f r rs m) [
  | inl (old, ne) ↦ find_row-update_where_ne id f keeps r.dlv_id rs (λ e. ne (sym e)) ∙ keyed r old
  | inr (x, old, e, q) ↦
      let same : r.dlv_id ≡ id = ap (λ (y : Row). y.dlv_id) q ∙ keeps x ∙ e in
      let found : find_row id rs ≡ some x = subst (λ j. find_row j rs ≡ some x) e (keyed x old) in
      ap (λ j. find_row j (update_where id f rs)) same
      ∙ find_row-update_where_self id f keeps x rs found
      ∙ ap some (sym q)
]

pub find_row-append :
    (id : Text) (rs : List Row) (new : Row)
    → find_row id (rs ++ new ∷ []) ≡ (elim (find_row id rs) [
      | some r ↦ some r
      | none ↦ if text_eq new.dlv_id id then some new else none
    ])
unfolding find_row
find_row-append id [] new = refl
find_row-append id (x ∷ rs) new = ground (arith, find_row-append id rs new)

-- A row with a new key can be appended.
pub append-IsKeyed :
    (rs : List Row) (new : Row)
    → find_row new.dlv_id rs ≡ none
    → IsKeyed rs
    → IsKeyed (rs ++ new ∷ [])
append-IsKeyed rs new fresh keyed r m = elim (Member-append r rs (new ∷ []) m) [
  | inl old ↦ rw (find_row-append r.dlv_id rs new) (rw (keyed r old))
  | inr (inl e) ↦
      let added : find_row new.dlv_id (rs ++ new ∷ []) ≡ some new =
        rw (find_row-append new.dlv_id rs new) (rw fresh (rw (text_eq_refl new.dlv_id))) in
      subst (λ (y : Row). find_row y.dlv_id (rs ++ new ∷ []) ≡ some y) (sym e) added
  | inr (inr none_left) ↦ absurd none_left
]
