-- ===== src/Ratelimit/Cleaner.antt =====
-- `StartCleanupWorker` of internal/ratelimit/ratelimit.go beside the calls that fall back on the local
-- buckets.
use submitter_smtp_daemon.Ratelimit.Verdicts.{cleaned, IsDistinct, Absent}
use submitter_smtp_daemon.Ratelimit.{
  Bucket, Buckets, check_local_limit, cleanup_local_buckets, current_bucket, find_bucket,
  set_bucket,
}
use submitter_smtp_daemon.Prelude.{
  Option-cases, leb_ℤ, pos, sym, true, Bool, Bool-cases, List, Option, Text, [], ap, arith, false,
  if◌then◌else◌, inl, inr, ltb, none, refl, some, text_eq, text_eq_iff, ℕ, ℤ, ◌*◌, ◌+◌, ◌<◌, ◌∷◌,
  ◌≡◌, ◌≤◌, ◌⊎◌,
}

-- A call of checkLocalLimit, a tick of the cleanup worker, or its stop; with the time.
pub data Event : Type 0 where
  asks : Text → ℤ → ℕ → ℕ → Event
  ticks : ℕ → Event
  stops : Event

-- The verdicts of the calls, and whether the worker still runs decides what a tick does.
unfoldable pub run : Bool → List Event → Buckets → List Bool
run working [] bs = []
run working (asks key limit window now ∷ es) bs =
    let (verdict, bs') = check_local_limit key limit window now bs in verdict ∷ run working es bs'
run working (ticks now ∷ es) bs =
    run working es (if working then cleanup_local_buckets now bs else bs)
run working (stops ∷ es) bs = run false es bs

-- Time does not go back.
abbrev pub InOrder : ℕ → List Event → Type 0
InOrder t [] = Unit {0}
InOrder t (asks key limit window now ∷ es) = (t ≤ now) × InOrder now es
InOrder t (ticks now ∷ es) = (t ≤ now) × InOrder now es
InOrder t (stops ∷ es) = InOrder t es

find_bucket-set_bucket :
    (key j : Text) (b : Bucket) (bs : Buckets)
    → find_bucket j (set_bucket key b bs) ≡ (if text_eq key j then some b else find_bucket j bs)
unfolding find_bucket set_bucket
find_bucket-set_bucket key j b [] = refl
find_bucket-set_bucket key j b ((k, c) ∷ bs) = elim (Bool-cases (text_eq k key)) [
  | inl same ↦ ground (arith, text_eq_iff k key, text_eq_iff key j, text_eq_iff k j)
  | inr other ↦ ground (
    arith,
    text_eq_iff k key,
    text_eq_iff key j,
    text_eq_iff k j,
    find_bucket-set_bucket key j b bs,
  )
]

Absent-set_bucket :
    (k key : Text) (b : Bucket) (bs : Buckets)
    → text_eq key k ≡ false
    → Absent k bs
    → Absent k (set_bucket key b bs)
unfolding set_bucket
Absent-set_bucket k key b [] ne h = (ne, tt)
Absent-set_bucket k key b ((j, c) ∷ bs) ne h = elim (Bool-cases (text_eq j key)) [
  | inl same ↦ rw same (h.0, h.1)
  | inr other ↦ rw other (h.0, Absent-set_bucket k key b bs ne h.1)
]

set_bucket-IsDistinct :
    (key : Text) (b : Bucket) (bs : Buckets) → IsDistinct bs → IsDistinct (set_bucket key b bs)
unfolding set_bucket
set_bucket-IsDistinct key b [] d = (tt, tt)
set_bucket-IsDistinct key b ((j, c) ∷ bs) d = elim (Bool-cases (text_eq j key)) [
  | inl same ↦ rw same (d.0, d.1)
  | inr other ↦ rw other (
    Absent-set_bucket j key b bs (ground (arith, text_eq_iff j key, text_eq_iff key j)) d.0,
    set_bucket-IsDistinct key b bs d.1,
  )
]

Absent-cleanup :
    (k : Text) (now : ℕ) (bs : Buckets) → Absent k bs → Absent k (cleanup_local_buckets now bs)
unfolding cleanup_local_buckets
Absent-cleanup k now [] h = tt
Absent-cleanup k now ((j, b) ∷ bs) h =
    elim (Bool-cases (ltb (b.reset_time + 5 * 60_000_000_000) now)) [
      | inl old ↦ rw old (Absent-cleanup k now bs h.1)
      | inr young ↦ rw young (h.0, Absent-cleanup k now bs h.1)
    ]

cleanup-IsDistinct :
    (now : ℕ) (bs : Buckets) → IsDistinct bs → IsDistinct (cleanup_local_buckets now bs)
unfolding cleanup_local_buckets
cleanup-IsDistinct now [] d = tt
cleanup-IsDistinct now ((j, b) ∷ bs) d =
    elim (Bool-cases (ltb (b.reset_time + 5 * 60_000_000_000) now)) [
      | inl old ↦ rw old (cleanup-IsDistinct now bs d.1)
      | inr young ↦ rw young (Absent-cleanup j now bs d.0, cleanup-IsDistinct now bs d.1)
    ]

-- The same bucket, or one that the cleanup took away when it had run out.
Alike : ℕ → Option Bucket → Option Bucket → Type 0
Alike t x y = (x ≡ y) ⊎ (x ≡ none) × ((b : Bucket) × (y ≡ some b) × (b.reset_time < t))

-- Buckets that were cleaned now and then, and such that were not.
record AreAlike (t : ℕ) (xs ys : Buckets) : Type 0 where
  distinct : IsDistinct xs
  alike : (key : Text) → Alike t (find_bucket key xs) (find_bucket key ys)

later-Alike : (t now : ℕ) (x y : Option Bucket) → t ≤ now → Alike t x y → Alike now x y
unfolding Alike
later-Alike t now x y le (inl e) = inl e
later-Alike t now x y le (inr (e, (b, q, lt))) = inr (e, (b, q, omega arith))

same_bucket :
    (t now window : ℕ) (x y : Option Bucket)
    → t ≤ now
    → Alike t x y
    → current_bucket window now x ≡ current_bucket window now y
unfolding Alike current_bucket
same_bucket t now window x y le (inl e) = ap (current_bucket window now) e
same_bucket t now window x y le (inr (e, (b, q, lt))) = rw (e, q) (ground arith)

module _ (key : Text) (limit : ℤ) (window t now : ℕ) (xs ys : Buckets) (le : t ≤ now)
    (h : AreAlike t xs ys) where
  asks-verdict :
      (check_local_limit key limit window now xs).0 ≡ (check_local_limit key limit window now ys).0
  unfolding check_local_limit
  asks-verdict =
      ap (λ (b : Bucket). leb_ℤ (pos (b.count + 1)) limit)
        (same_bucket t now window _ _ le (h.alike key))

  asks-AreAlike :
      AreAlike now
        (check_local_limit key limit window now xs).1
        (check_local_limit key limit window now ys).1
  unfolding check_local_limit Alike
  asks-AreAlike = record {
    distinct = set_bucket-IsDistinct key _ xs h.distinct;
    alike = λ j.
        rw (find_bucket-set_bucket key j _ xs, find_bucket-set_bucket key j _ ys)
          (elim (Bool-cases (text_eq key j)) [
            | inl own ↦ rw own (
                inl (
                  ap (λ (b : Bucket). some (record b { count = b.count + 1 }))
                    (same_bucket t now window _ _ le (h.alike key))))
            | inr other ↦ rw other (later-Alike t now _ _ le (h.alike j))
          ]);
  }

module _ (t now : ℕ) (xs ys : Buckets) (le : t ≤ now) (h : AreAlike t xs ys) where
  kept-AreAlike : AreAlike now xs ys
  kept-AreAlike = record {
    distinct = h.distinct;
    alike = λ key. later-Alike t now _ _ le (h.alike key);
  }

  taken_away :
      (b : Bucket) (y : Option Bucket)
      → ltb (b.reset_time + 5 * 60_000_000_000) now ≡ true
      → Alike t (some b) y
      → Alike now none y
  unfolding Alike
  taken_away b y old (inl e) = inr (refl, (b, sym e, ground arith))
  taken_away b y old (inr (e, rest)) = absurd (cc e)

  ticks-AreAlike : AreAlike now (cleanup_local_buckets now xs) ys
  ticks-AreAlike = record {
    distinct = cleanup-IsDistinct now xs h.distinct;
    alike = λ key. rw (cleaned now key xs h.distinct) (elim (Option-cases (find_bucket key xs)) [
      | inl lost ↦ rw lost (later-Alike t now none _ le (rw lost at (h.alike key)))
      | inr (b, held) ↦
          let before : Alike t (some b) (find_bucket key ys) = rw held at (h.alike key) in
          rw held (elim (Bool-cases (ltb (b.reset_time + 5 * 60_000_000_000) now)) [
            | inl old ↦ rw old (taken_away b _ old before)
            | inr young ↦ rw young (later-Alike t now (some b) _ le before)
          ])
    ]);
  }

run-AreAlike :
    (es : List Event) (working : Bool) (t : ℕ) (xs ys : Buckets)
    → InOrder t es
    → AreAlike t xs ys
    → run working es xs ≡ run false es ys
unfolding run
run-AreAlike [] working t xs ys o h = refl
run-AreAlike (asks key limit window now ∷ es) working t xs ys o h = λ i.
    asks-verdict key limit window t now xs ys o.0 h i
    ∷ run-AreAlike es working now _ _ o.1 (asks-AreAlike key limit window t now xs ys o.0 h) i
run-AreAlike (ticks now ∷ es) true t xs ys o h =
    run-AreAlike es true now _ ys o.1 (ticks-AreAlike t now xs ys o.0 h)
run-AreAlike (ticks now ∷ es) false t xs ys o h =
    run-AreAlike es false now xs ys o.1 (kept-AreAlike t now xs ys o.0 h)
run-AreAlike (stops ∷ es) working t xs ys o h = run-AreAlike es false t xs ys o h

-- The cleanup worker is invisible: where no key occurs twice and time does not go back, any
-- sequence of calls of checkLocalLimit, whatever their keys, limits and windows, ticks of the worker
-- and its stop gives the verdicts that the calls give without the worker.
pub cleaner_invisible :
    (es : List Event) (t : ℕ) (bs : Buckets)
    → IsDistinct bs
    → InOrder t es
    → run true es bs ≡ run false es bs
unfolding Alike
cleaner_invisible es t bs d o =
    run-AreAlike es true t bs bs o (record { distinct = d; alike = λ key. inl refl })
