-- ===== src/Dedup/Repeats.antt =====
-- A message and its repetition in internal/dedup/dedup.go.
use mathlib.Core.Path.{subst}
use submitter_smtp_daemon.Dedup.{
  hash_message, hex_encode, hex_digit, Verdict, Cache, Deduplicator, check, dedup_key,
}
use submitter_smtp_daemon.Auth.{value, missing}
use submitter_smtp_daemon.Metrics.{Metrics, record_dedup_check}
use submitter_smtp_daemon.Prelude.{
  ◌%◌, ◌/◌, All, ◌<◌, ◌∷◌, ap, append_cancel, sym, txt, List, Text, [], arith, false, refl, true, ℕ,
  ◌≡◌, ◌≢◌,
}

-- A SET that works is seen by the next GET of its key, and by no GET of another.
pub record IsCache {S : Type 0} (c : Cache S) : Type 0 where
  pub get_set :
      (key v : Text) (window : ℕ) (s : S)
      → (c.set key v window s).0 ≡ false
      → c.get key (c.set key v window s).1 ≡ value v
  pub get_set_other :
      (key j v : Text) (window : ℕ) (s : S) → key ≢ j → c.get j (c.set key v window s).1 ≡ c.get j s

hex_digit-injective : (n m : ℕ) → n < 16 → m < 16 → hex_digit n ≡ hex_digit m → n ≡ m
hex_digit-injective n m hn hm e = ground arith

-- Two digests are written alike only if they are the same.
hex_encode-injective :
    (xs ys : List ℕ)
    → All (λ x. x < 256) xs
    → All (λ x. x < 256) ys
    → hex_encode xs ≡ hex_encode ys
    → xs ≡ ys
unfolding hex_encode
hex_encode-injective [] [] hx hy e = refl
hex_encode-injective [] (y ∷ ys) hx hy e = cc
hex_encode-injective (x ∷ xs) [] hx hy e = cc
hex_encode-injective (x ∷ xs) (y ∷ ys) hx hy e =
    let high : hex_digit (x / 16) ≡ hex_digit (y / 16) = cc e in
    let low : hex_digit (x % 16) ≡ hex_digit (y % 16) = cc e in
    let rest : hex_encode xs ≡ hex_encode ys = cc e in
    let q =
      hex_digit-injective (x / 16) (y / 16) (omega (arith, hx.0)) (omega (arith, hy.0)) high in
    let r = hex_digit-injective (x % 16) (y % 16) (omega arith) (omega arith) low in
    let same : x ≡ y = omega (arith, q, r) in cc (same, hex_encode-injective xs ys hx.1 hy.1 rest)

module _ {S : Type 0} (d : Deduplicator S) (is_cache : IsCache d.cache)
    (turned_on : d.enabled ≡ true) (msg_id : Text) (body : List ℕ) (s : S) (m : Metrics)
    (unknown : d.cache.get (dedup_key (hash_message d body)) s ≡ missing)
    (stores : (d.cache.set (dedup_key (hash_message d body)) msg_id d.window s).0 ≡ false) where
  abbrev stored : S
  stored = (d.cache.set (dedup_key (hash_message d body)) msg_id d.window s).1

  first_check : check d msg_id body s m ≡ (([], false), stored, record_dedup_check false m)
  unfolding check
  first_check = rw (turned_on, unknown, stores, check) refl

  repeated_check :
      (later_id : Text) (again : List ℕ) (m' : Metrics)
      → d.cache.get (dedup_key (hash_message d again)) stored ≡ value msg_id
      → check d later_id again stored m' ≡ ((msg_id, true), stored, record_dedup_check true m')
  unfolding check
  repeated_check later_id again m' held = rw (turned_on, held, check) refl

  other_check :
      (other_id : Text) (other : List ℕ) (m' : Metrics)
      → d.cache.get (dedup_key (hash_message d other)) stored
        ≡ d.cache.get (dedup_key (hash_message d other)) s
      → (check d other_id other stored m').0 ≡ (check d other_id other s m').0
  unfolding check
  other_check other_id other m' same = ground arith

  dedup_key-injective : (g h : Text) → dedup_key g ≡ dedup_key h → g ≡ h
  unfolding dedup_key
  dedup_key-injective g h e = append_cancel (txt "dedup:") g h e

  -- With a cache whose GET sees the last SET of its key, and deduplication turned on: when a message
  -- is checked whose hash is not known, and the SET works, it counts as unique; a later message with
  -- the same SHA-256 digest is reported as a duplicate of its id, and one with another digest is
  -- judged as it would have been before.
  pub check-check :
      (later_id : Text) (again : List ℕ) (other_id : Text) (other : List ℕ) (m' : Metrics)
      → ((b : List ℕ) → All (λ x. x < 256) (d.sha256 b))
      → d.sha256 again ≡ d.sha256 body
      → d.sha256 body ≢ d.sha256 other
      → let after = (check d msg_id body s m).1 in
        ((check d msg_id body s m).0 ≡ ([], false))
        × ((check d later_id again after m').0 ≡ (msg_id, true))
        × ((check d other_id other after m').0 ≡ (check d other_id other s m').0)
  unfolding hash_message
  check-check later_id again other_id other m' bytes same ne =
      let held = is_cache.get_set (dedup_key (hash_message d body)) msg_id d.window s stores in
      let same_key : dedup_key (hash_message d body) ≡ dedup_key (hash_message d again) =
        ap (λ t. dedup_key (hex_encode t)) (sym same) in
      (
        ap (λ (r : Verdict × S × Metrics). r.0) first_check,
        rw first_check (
            ap (λ (r : Verdict × S × Metrics). r.0)
              (repeated_check later_id again m'
                (subst (λ k. d.cache.get k stored ≡ value msg_id) same_key held))),
        rw first_check (
            other_check other_id other m' (
              is_cache.get_set_other (dedup_key (hash_message d body))
                (dedup_key (hash_message d other)) msg_id d.window s
                (λ e. ne (
                  hex_encode-injective (d.sha256 body) (d.sha256 other) (bytes body) (bytes other)
                    (dedup_key-injective (hash_message d body) (hash_message d other) e))))),
      )
