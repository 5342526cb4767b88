-- ===== src/Tests/Dedup.antt =====
-- internal/dedup/dedup.go with a concrete cache.
use submitter_smtp_daemon.Dedup.Repeats.{IsCache, check-check}
use submitter_smtp_daemon.Dedup.{Cache, Deduplicator, check}
use submitter_smtp_daemon.Auth.{Reply, value, missing}
use submitter_smtp_daemon.Prelude.{
  All, map, some, ◌%◌, ◌<◌, List, Text, [], arith, false, if◌then◌else◌, refl, take, text_eq,
  text_eq_iff, text_eq_refl, true, txt, ℕ, ◌∷◌, ◌≡◌,
}

look_up : Text → List (Text × Text) → Reply
look_up key [] = missing
look_up key ((k, v) ∷ es) = if text_eq k key then value v else look_up key es

abbrev cache : Cache (List (Text × Text))
unfolding look_up
cache = record {
  get = look_up;
  set = λ key v window es. (false, (key, v) ∷ es);
  del = λ key es. (false, es);
  keys = λ pattern es. some (map (λ (e : Text × Text). e.0) es);
}

cache-IsCache : IsCache cache
unfolding look_up cache
cache-IsCache = record {
  get_set = λ key v window s works. ground (arith, text_eq_refl key);
  get_set_other = λ key j v window s ne. ground (arith, text_eq_iff key j);
}

-- The digest of a body is its first two bytes.
abbrev dedup : Deduplicator (List (Text × Text))
dedup = record {
  cache = cache;
  sha256 = λ body. map (λ x. x % 256) (take 2 body);
  window = 60;
  enabled = true;
}

digest_bytes : (xs : List ℕ) → All (λ x. x < 256) (map (λ x. x % 256) xs)
digest_bytes [] = tt
digest_bytes (x ∷ xs) = (omega arith, digest_bytes xs)

check-check_example :
    let after = (check dedup (txt "m") (1 ∷ 2 ∷ 3 ∷ []) [] []).1 in
    ((check dedup (txt "m") (1 ∷ 2 ∷ 3 ∷ []) [] []).0 ≡ ([], false))
    × ((check dedup (txt "n") (1 ∷ 2 ∷ 4 ∷ []) after []).0 ≡ (txt "m", true))
    × ((check dedup (txt "o") (7 ∷ []) after []).0 ≡ (check dedup (txt "o") (7 ∷ []) [] []).0)
unfolding look_up cache
check-check_example =
    check-check dedup cache-IsCache refl (txt "m") (1 ∷ 2 ∷ 3 ∷ []) [] [] refl refl (txt "n")
      (1 ∷ 2 ∷ 4 ∷ []) (txt "o") (7 ∷ []) [] (λ b. digest_bytes (take 2 b)) refl (λ e. cc e)
