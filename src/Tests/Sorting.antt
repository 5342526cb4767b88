-- ===== src/Tests/Sorting.antt =====
-- An ORDER BY next_attempt for the concrete tables.
use mathlib.Core.List.{Perm}
use mathlib.Core.List.Perm
use submitter_smtp_daemon.Queue.Pending.{IsOrderBy, IsSorted}
use submitter_smtp_daemon.Schema.{Row}
use submitter_smtp_daemon.Prelude.{
  All, Bool-cases, List, Member, [], arith, if◌then◌else◌, inl, inr, leb, leb→le, ℕ, ◌∷◌, ◌≡◌, ◌≤◌,
  ◌⊎◌,
}

-- ORDER BY as an insertion sort.
insert : Row → List Row → List Row
insert r [] = r ∷ []
insert r (x ∷ rs) =
    let rest = insert r rs in if leb r.next_attempt x.next_attempt then r ∷ x ∷ rs else x ∷ rest

unfoldable pub sort : List Row → List Row
unfolding insert
sort [] = []
sort (r ∷ rs) = insert r (sort rs)

module _ (r : Row) where
  insert_sound : (x : Row) (rs : List Row) → Member r (insert x rs) → (r ≡ x) ⊎ Member r rs
  unfolding insert
  insert_sound x [] h = h
  insert_sound x (y ∷ rs) h = elim (Bool-cases (leb x.next_attempt y.next_attempt)) [
    | inl first ↦ ground arith
    | inr later ↦ ground (arith, insert_sound x rs)
  ]

  insert-head : (x : Row) (rs : List Row) → r ≡ x → Member r (insert x rs)
  unfolding insert
  insert-head x [] e = inl e
  insert-head x (y ∷ rs) e = elim (Bool-cases (leb x.next_attempt y.next_attempt)) [
    | inl first ↦ rw first (inl e)
    | inr later ↦ rw later (inr (insert-head x rs e))
  ]

  insert_complete : (x : Row) (rs : List Row) → Member r rs → Member r (insert x rs)
  unfolding insert
  insert_complete x [] h = absurd h
  insert_complete x (y ∷ rs) (inl e) = elim (Bool-cases (leb x.next_attempt y.next_attempt)) [
    | inl first ↦ rw first (inr (inl e))
    | inr later ↦ rw later (inl e)
  ]
  insert_complete x (y ∷ rs) (inr h) = elim (Bool-cases (leb x.next_attempt y.next_attempt)) [
    | inl first ↦ rw first (inr (inr h))
    | inr later ↦ rw later (inr (insert_complete x rs h))
  ]

  sort_sound : (rs : List Row) → Member r (sort rs) → Member r rs
  unfolding sort
  sort_sound [] h = h
  sort_sound (x ∷ rs) h = elim (insert_sound x (sort rs) h) [
    | inl e ↦ inl e
    | inr m ↦ inr (sort_sound rs m)
  ]

  sort_complete : (rs : List Row) → Member r rs → Member r (sort rs)
  unfolding sort
  sort_complete [] h = h
  sort_complete (x ∷ rs) (inl e) = insert-head x (sort rs) e
  sort_complete (x ∷ rs) (inr m) = insert_complete x (sort rs) (sort_complete rs m)

AtLeast : ℕ → List Row → Type 0
AtLeast n rs = All (λ x. n ≤ x.next_attempt) rs

AtLeast-weaken : (n m : ℕ) (rs : List Row) → n ≤ m → AtLeast m rs → AtLeast n rs
unfolding AtLeast
AtLeast-weaken n m [] h k = tt
AtLeast-weaken n m (x ∷ rs) h k = (omega (arith, k.0), AtLeast-weaken n m rs h k.1)

insert-AtLeast :
    (n : ℕ) (r : Row) (rs : List Row) → n ≤ r.next_attempt → AtLeast n rs → AtLeast n (insert r rs)
unfolding AtLeast insert
insert-AtLeast n r [] h k = (h, tt)
insert-AtLeast n r (x ∷ rs) h k = elim (Bool-cases (leb r.next_attempt x.next_attempt)) [
  | inl first ↦ rw first (h, k)
  | inr later ↦ rw later (k.0, insert-AtLeast n r rs h k.1)
]

insert-IsSorted : (r : Row) (rs : List Row) → IsSorted rs → IsSorted (insert r rs)
unfolding AtLeast insert
insert-IsSorted r [] s = (tt, tt)
insert-IsSorted r (x ∷ rs) s = elim (Bool-cases (leb r.next_attempt x.next_attempt)) [
  | inl first ↦
      let le = leb→le r.next_attempt x.next_attempt first in
      rw first ((le, AtLeast-weaken r.next_attempt x.next_attempt rs le s.0), s)
  | inr later ↦
      rw later (insert-AtLeast x.next_attempt r rs (ground arith) s.0, insert-IsSorted r rs s.1)
]

sort-IsSorted : (rs : List Row) → IsSorted (sort rs)
unfolding sort
sort-IsSorted [] = tt
sort-IsSorted (r ∷ rs) = insert-IsSorted r (sort rs) (sort-IsSorted rs)

pub sort-IsOrderBy : IsOrderBy sort
sort-IsOrderBy = record { sound = sort_sound; complete = sort_complete; sorted = sort-IsSorted }

insert-perm : (r : Row) (rs : List Row) → Perm (insert r rs) (r ∷ rs)
unfolding insert
insert-perm r [] = Perm.rfl
insert-perm r (x ∷ rs) = elim (Bool-cases (leb r.next_attempt x.next_attempt)) [
  | inl first ↦ rw first (Perm.rfl)
  | inr later ↦ rw later (Perm.trans (Perm.cons x (insert-perm r rs)) (Perm.swap r x rs))
]

pub sort-perm : (rs : List Row) → Perm (sort rs) rs
unfolding sort
sort-perm [] = Perm.nil
sort-perm (x ∷ rs) = Perm.trans (insert-perm x (sort rs)) (Perm.cons x (sort-perm rs))
