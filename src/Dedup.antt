-- ===== src/Dedup.antt =====
-- internal/dedup/dedup.go. Redis and SHA-256 are parameters; keys
-- expire by steps of the server between two calls.
pub mod Repeats
use mathlib.Core.Option
use submitter_smtp_daemon.Auth.{Reply, value, missing, broken}
use submitter_smtp_daemon.Metrics.{Metrics, record_dedup_check}
use submitter_smtp_daemon.Prelude.{
  Option, length, ltb, some, ◌%◌, ◌+◌, ◌-◌, ◌/◌, ◌∷◌, Bool, List, Text, [], false, if◌then◌else◌,
  true, txt, ℕ, ◌++◌,
}

-- GET, SET with an expiry, DEL and KEYS; SET and DEL answer whether they failed, `none` is an error.
pub record Cache (S : Type 0) : Type 0 where
  pub get : Text → S → Reply
  pub set : Text → Text → ℕ → S → Bool × S
  pub del : Text → S → Bool × S
  pub keys : Text → S → Option (List Text)

pub record Deduplicator (S : Type 0) : Type 0 where
  pub cache : Cache S
  pub sha256 : List ℕ → List ℕ
  pub window : ℕ
  pub enabled : Bool

-- What `New` is given.
pub record Config (S : Type 0) : Type 0 where
  pub redis : Cache S
  pub window : ℕ
  pub enabled : Bool

unfoldable pub new : {S : Type 0} → (List ℕ → List ℕ) → Config S → Deduplicator S
new sha256 cfg = record {
  cache = cfg.redis;
  sha256 = sha256;
  window = cfg.window;
  enabled = cfg.enabled;
}

-- A digit of `hex.EncodeToString`.
abbrev pub hex_digit : ℕ → ℕ
hex_digit n = if ltb n 10 then b'0' + n else b'a' + (n - 10)

unfoldable pub hex_encode : List ℕ → Text
hex_encode [] = []
hex_encode (x ∷ xs) = hex_digit (x / 16) ∷ hex_digit (x % 16) ∷ hex_encode xs

-- `fmt.Sprintf("dedup:%s", hash)`
unfoldable pub dedup_key : Text → Text
dedup_key hash = txt "dedup:" ++ hash

-- The original's id and whether there is one.
abbrev pub Verdict : Type 0
Verdict = Text × Bool

module _ {S : Type 0} (d : Deduplicator S) where
  unfoldable pub hash_message : List ℕ → Text
  unfolding hex_encode
  hash_message body = hex_encode (d.sha256 body)

  unfoldable pub check : Text → List ℕ → S → Metrics → Verdict × S × Metrics
  unfolding dedup_key hash_message
  check msg_id body s m =
      if d.enabled
      then (let key = dedup_key (hash_message body) in
          elim (d.cache.get key s) [
            | missing ↦
                let (set_fails, s') = d.cache.set key msg_id d.window s in
                (([], false), s', if set_fails then m else record_dedup_check false m)
            | broken ↦ (([], false), s, m)
            | value original ↦ ((original, true), s, record_dedup_check true m)
          ])
      else (([], false), s, m)

  -- whether Delete fails
  unfoldable pub delete : Text → S → Bool × S
  unfolding dedup_key
  delete hash s = if d.enabled then d.cache.del (dedup_key hash) s else (false, s)

  -- the number of entries
  unfoldable pub stats : S → Option ℕ
  stats s = if d.enabled then Option.map length (d.cache.keys (txt "dedup:*") s) else some 0
