-- ===== src/Ratelimit/Window.antt =====
-- `checkLocalLimit` of internal/ratelimit/ratelimit.go: how many calls of
-- a key pass within one window.
use submitter_smtp_daemon.Ratelimit.{
  Bucket, Buckets, check_local_limit, current_bucket, find_bucket, set_bucket,
}
use submitter_smtp_daemon.Prelude.{
  none, true, ◌<◌, ◌⊎◌, negsuc, All, Bool, false, ltb, pos_part, refl, ◌∙◌, Bool-cases, List, Text,
  [], arith, if◌then◌else◌, inl, inr, leb, leb_ℤ, pos, some, text_eq, text_eq_iff, text_eq_refl, ℕ,
  ℤ, ◌&&◌, ◌+◌, ◌∷◌, ◌≡◌, ◌≢◌, ◌≤◌,
}

module _ (key : Text) (b : Bucket) where
  find_bucket-set_self : (bs : Buckets) → find_bucket key (set_bucket key b bs) ≡ some b
  unfolding find_bucket set_bucket
  find_bucket-set_self [] = rw (text_eq_refl key)
  find_bucket-set_self ((k, c) ∷ bs) = elim (Bool-cases (text_eq k key)) [
    | inl same ↦ ground arith
    | inr other ↦ ground (arith, find_bucket-set_self bs)
  ]

  find_bucket-set_ne :
      (j : Text) (bs : Buckets) → key ≢ j → find_bucket j (set_bucket key b bs) ≡ find_bucket j bs
  unfolding find_bucket set_bucket
  find_bucket-set_ne j [] ne = ground (arith, text_eq_iff key j)
  find_bucket-set_ne j ((k, c) ∷ bs) ne = elim (Bool-cases (text_eq k key)) [
    | inl same ↦ ground (arith, text_eq_iff k key, text_eq_iff k j)
    | inr other ↦ ground (arith, find_bucket-set_ne j bs ne)
  ]

abbrev pub min : ℕ → ℕ → ℕ
min a b = if leb a b then a else b

-- How many calls the limit lets pass.
abbrev pub quota : ℤ → ℕ
quota limit = pos_part limit

count_pass :
    (limit : ℤ) (n p c : ℕ)
    → p + min (n + 1) (quota limit) ≡ min (n + 1 + c) (quota limit)
    → (if leb_ℤ (pos (n + 1)) limit then 1 else 0) + p + min n (quota limit)
      ≡ min (n + (1 + c)) (quota limit)
count_pass (pos q) n p c h = ground arith
count_pass (negsuc q) n p c h = ground arith

count_other : (q n p c : ℕ) → p + min n q ≡ min (n + c) q → 0 + p + min n q ≡ min (n + (0 + c)) q
count_other q n p c h = ground arith

count_first :
    (limit : ℤ) (p c : ℕ)
    → p + min 1 (quota limit) ≡ min (1 + c) (quota limit)
    → (if leb_ℤ (pos (0 + 1)) limit then 1 else 0) + p ≡ min (1 + c) (quota limit)
count_first (pos q) p c h = ground arith
count_first (negsuc q) p c h = ground arith

-- A key that has no bucket, or one that has run out.
abbrev pub IsFresh : Text → ℕ → Buckets → Type 0
IsFresh key now bs =
    (find_bucket key bs ≡ none)
    ⊎ ((b : Bucket) × (find_bucket key bs ≡ some b) × (b.reset_time < now))

fresh_bucket :
    (key : Text) (window now : ℕ) (bs : Buckets)
    → IsFresh key now bs
    → current_bucket window now (find_bucket key bs)
      ≡ record { count = 0; reset_time = now + window }
unfolding current_bucket
fresh_bucket key window now bs (inl lost) = rw lost refl
fresh_bucket key window now bs (inr (b, held, over)) =
    let run_out : ltb b.reset_time now ≡ true = ground arith in rw (held, run_out) refl

-- Every key is checked with the limit and the window of its kind.
module _ (limit_of : Text → ℤ) (window_of : Text → ℕ) where
  abbrev pub local_check : Text × ℕ → Buckets → Bool × Buckets
  local_check (key, now) bs = check_local_limit key (limit_of key) (window_of key) now bs

  -- How many of the calls of a run, keys with times, are calls of a key, and how many of those pass.
  unfoldable pub calls_of : Text → List (Text × ℕ) → ℕ
  calls_of key [] = 0
  calls_of key (c ∷ cs) = (if text_eq c.0 key then 1 else 0) + calls_of key cs

  unfoldable pub passed : Text → List (Text × ℕ) → Buckets → ℕ
  passed key [] bs = 0
  passed key (c ∷ cs) bs =
      (if text_eq c.0 key && (local_check c bs).0 then 1 else 0)
      + passed key cs (local_check c bs).1

  module _ (key : Text) (end : ℕ) where
    Live : ℕ → Buckets → Type 0
    Live n bs = find_bucket key bs ≡ some (record { count = n; reset_time = end })

    Live-step :
        (n now : ℕ) (bs : Buckets)
        → Live n bs
        → now ≤ end
        → ((local_check (key, now) bs).0 ≡ leb_ℤ (pos (n + 1)) (limit_of key))
          × Live (n + 1) (local_check (key, now) bs).1
    unfolding check_local_limit current_bucket Live
    Live-step n now bs held le =
        let open_yet : ltb end now ≡ false = ground arith in
        rw (held, open_yet)
          (refl, find_bucket-set_self key (record { count = n + 1; reset_time = end }) bs)

    other_step :
        (n : ℕ) (c : Text × ℕ) (bs : Buckets)
        → Live n bs
        → text_eq c.0 key ≡ false
        → Live n (local_check c bs).1
    unfolding check_local_limit Live
    other_step n (k, now) bs held other =
        find_bucket-set_ne k _ key bs (λ e. ground (arith, text_eq_iff k key)) ∙ held

    passed-Live :
        (cs : List (Text × ℕ)) (n : ℕ) (bs : Buckets)
        → Live n bs
        → All (λ c. c.1 ≤ end) cs
        → passed key cs bs + min n (quota (limit_of key))
          ≡ min (n + calls_of key cs) (quota (limit_of key))
    unfolding passed calls_of
    passed-Live [] n bs held h = ground arith
    passed-Live ((k, now) ∷ cs) n bs held h = elim (Bool-cases (text_eq k key)) [
      | inl same ↦
          let (verdict, held') = Live-step n now bs held h.0 in
          rw ((text_eq_iff k key).0 same, text_eq_refl key, verdict)
            (count_pass (limit_of key) n _ (calls_of key cs) (passed-Live cs (n + 1) _ held' h.1))
      | inr other ↦ rw other (
          count_other (quota (limit_of key)) n _ (calls_of key cs)
            (passed-Live cs n _ (other_step n (k, now) bs held other) h.1))
    ]

  -- The local fallback in one window of a key: after a first call at a time when the key has no
  -- bucket or one that has run out, and further calls of this and other keys up to the end of the
  -- window, exactly as many calls of the key pass as the limit allows, or all if they are fewer.
  pub local_window :
      (key : Text) (now : ℕ) (bs : Buckets) (cs : List (Text × ℕ))
      → IsFresh key now bs
      → All (λ c. c.1 ≤ now + window_of key) cs
      → passed key ((key, now) ∷ cs) bs ≡ min (1 + calls_of key cs) (quota (limit_of key))
  unfolding passed check_local_limit Live
  local_window key now bs cs fresh within =
      let b : Bucket = record { count = 1; reset_time = now + window_of key } in
      rw (text_eq_refl key, fresh_bucket key (window_of key) now bs fresh)
        (count_first (limit_of key) (passed key cs (set_bucket key b bs)) (calls_of key cs) (
          passed-Live key (now + window_of key) cs 1 (set_bucket key b bs)
            (find_bucket-set_self key b bs) within))
