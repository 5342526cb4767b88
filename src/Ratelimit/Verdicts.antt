-- ===== src/Ratelimit/Verdicts.antt =====
-- `cleanupLocalBuckets` of internal/ratelimit/ratelimit.go, and the recipient limit
-- while Redis is down.
use submitter_smtp_daemon.Ratelimit.{
  Error, hour, Limiter, Redis, check_user_recipients, recipients_so_far, Buckets,
  cleanup_local_buckets, find_bucket,
}
use submitter_smtp_daemon.Prelude.{
  Option, ap, ◌∙◌, Bool, List, leb_ℤ, negsuc, pos, txt, ◌++◌, ◌+ℤ◌, ◌≤ℤ◌, All, Bool-cases, Text, [],
  arith, false, if◌then◌else◌, inl, inr, ltb, none, refl, some, text_eq, text_eq_iff, true, ℕ, ℤ,
  ◌*◌, ◌+◌, ◌∷◌, ◌≡◌,
}

abbrev pub Absent : Text → Buckets → Type 0
Absent key bs = All (λ e. text_eq e.0 key ≡ false) bs

-- No key occurs twice.
abbrev pub IsDistinct : Buckets → Type 0
IsDistinct [] = Unit
IsDistinct ((k, b) ∷ bs) = Absent k bs × IsDistinct bs

module _ (now : ℕ) where
  still-Absent :
      (k key : Text) (bs : Buckets)
      → k ≡ key
      → Absent k bs
      → find_bucket key (cleanup_local_buckets now bs) ≡ none
  unfolding find_bucket cleanup_local_buckets
  still-Absent k key [] e h = refl
  still-Absent k key ((j, b) ∷ bs) e h =
      let other : text_eq j key ≡ false = (rw e at h.0) in
      ground (arith, still-Absent k key bs e h.1)

  pub cleaned :
      (key : Text) (bs : Buckets)
      → IsDistinct bs
      → find_bucket key (cleanup_local_buckets now bs) ≡ (elim (find_bucket key bs) [
        | none ↦ none
        | some b ↦ if ltb (b.reset_time + 5 * 60_000_000_000) now then none else some b
      ])
  unfolding find_bucket cleanup_local_buckets
  cleaned key [] d = refl
  cleaned key ((k, b) ∷ bs) d = elim (Bool-cases (text_eq k key)) [
    | inl same ↦ ground (arith, still-Absent k key bs ((text_eq_iff k key).0 same) d.0)
    | inr other ↦ ground (arith, cleaned key bs d.1)
  ]

module _ {S : Type 0} (redis : Redis S) where
  -- Whether a run of calls of CheckUserRecipients, users with recipient counts, is accepted whole.
  unfoldable pub all_accepted : List (Text × ℕ) → Limiter S → Bool
  all_accepted [] l = true
  all_accepted ((user, count) ∷ calls) l =
      let (e, l') = check_user_recipients redis user count l in
      elim e [ none ↦ all_accepted calls l' | some x ↦ false ]

  first_alone :
      (count : ℕ) (limit : ℤ) → pos count ≤ℤ limit → leb_ℤ (pos 0 +ℤ pos count) limit ≡ true
  unfolding ◌+ℤ◌
  first_alone count (pos n) h = ground arith
  first_alone count (negsuc n) h = absurd (omega arith)

  recorded : Text → ℕ → Limiter S → Limiter S
  recorded user count l = record l {
    server =
        (redis.incr_by_expire (txt "ratelimit:user:rcpt:" ++ user) (pos count) hour l.server).1;
  }

  accepted_alone :
      (user : Text) (count : ℕ) (l : Limiter S)
      → redis.get (txt "ratelimit:user:rcpt:" ++ user) l.server ≡ none
      → pos count ≤ℤ l.user_recipients_per_hour
      → check_user_recipients redis user count l ≡ (none, recorded user count l)
  unfolding check_user_recipients recipients_so_far recorded
  accepted_alone user count l down h =
      rw (check_user_recipients, recipients_so_far, down)
        (rw (first_alone count l.user_recipients_per_hour h) refl)

  -- While Redis does not answer GET, the recipient limit does not bind: any number of calls is
  -- accepted, whatever their total, as long as each count alone is within the limit.
  pub recipients_unlimited :
      (down : (key : Text) (s : S) → redis.get key s ≡ none)
      → (calls : List (Text × ℕ)) (l : Limiter S)
      → All (λ c. pos c.1 ≤ℤ l.user_recipients_per_hour) calls
      → all_accepted calls l ≡ true
  unfolding all_accepted recorded
  recipients_unlimited down [] l h = refl
  recipients_unlimited down ((user, count) ∷ calls) l h =
      ap
        (λ (r : Option Error × Limiter S). elim r.0 as (λ x. Bool) [
          | none ↦ all_accepted calls r.1
          | some x ↦ false
        ])
        (accepted_alone user count l (down _ l.server) h.0)
      ∙ recipients_unlimited down calls (recorded user count l) h.1
