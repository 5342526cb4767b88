-- ===== src/Config/Requirements.antt =====
-- What `Validate` of internal/config/config.go asks of a configuration.
use submitter_smtp_daemon.Config.Types.{Config, ListenerConfig}
use submitter_smtp_daemon.Config.Loading.{
  is_empty, validate, validate_rest, check_listeners, is_mode,
}
use submitter_smtp_daemon.Prelude.{
  Bool, Bool-cases, inl, inr, ◌&&◌, ◌+◌, All, List, Text, [], arith, false, leb_ℤ, negsuc, none,
  not, pos, refl, text_eq_iff, true, txt, ℕ, ℤ, ◌<ℤ◌, ◌||◌, ◌↔◌, ◌∷◌, ◌≡◌, ◌≢◌, ◌≤ℤ◌, ◌⊎◌,
}

-- A listener that can be served: a TCP port, and one of the three modes.
abbrev pub IsServable : ListenerConfig → Type 0
IsServable l =
    (pos 0 <ℤ l.port)
    × (l.port ≤ℤ pos 65535)
    × ((l.mode ≡ txt "starttls") ⊎ ((l.mode ≡ txt "implicit_tls") ⊎ (l.mode ≡ txt "plaintext")))

-- The requirements on a configuration, without the order in which they are tested.
pub record IsValid (c : Config) : Type 0 where
  pub named : c.server.hostname ≢ []
  pub listens : c.smtp.listeners ≢ []
  pub servable : All IsServable c.smtp.listeners
  pub takes_messages : pos 0 <ℤ c.smtp.max_message_size
  pub has_redis : (c.auth.redis.enabled ≡ false) ⊎ (c.auth.redis.addresses ≢ [])
  pub has_spool : c.spool.base_path ≢ []
  pub has_database : c.database.path ≢ []
  pub has_clickhouse : c.clickhouse.database ≢ []

is_mode_iff :
    (m : Text)
    → (is_mode m ≡ true)
      ↔ ((m ≡ txt "starttls") ⊎ ((m ≡ txt "implicit_tls") ⊎ (m ≡ txt "plaintext")))
is_mode_iff m = ground (
  arith,
  text_eq_iff m (txt "starttls"),
  text_eq_iff m (txt "implicit_tls"),
  text_eq_iff m (txt "plaintext"),
)

port_iff :
    (p : ℤ)
    → ((leb_ℤ p (pos 0) || not (leb_ℤ p (pos 65535))) ≡ false) ↔ ((pos 0 <ℤ p) × (p ≤ℤ pos 65535))
port_iff (pos n) = ground arith
port_iff (negsuc n) = ground arith

listeners_sound :
    (i : ℕ) (ls : List ListenerConfig) → check_listeners i ls ≡ none → All IsServable ls
unfolding check_listeners
listeners_sound i [] h = tt
listeners_sound i (l ∷ ls) h =
    elim (Bool-cases (leb_ℤ l.port (pos 0) || not (leb_ℤ l.port (pos 65535)))) [
      | inl bad ↦ absurd (ground arith)
      | inr good ↦ elim (Bool-cases (is_mode l.mode)) [
        | inr strange ↦ absurd (ground arith)
        | inl known ↦
            let (low, high) = (port_iff l.port).0 good in
            ((low, high, (is_mode_iff l.mode).0 known), listeners_sound (i + 1) ls (ground arith))
      ]
    ]

listeners_complete :
    (i : ℕ) (ls : List ListenerConfig) → All IsServable ls → check_listeners i ls ≡ none
unfolding check_listeners
listeners_complete i [] h = refl
listeners_complete i (l ∷ ls) ((low, high, mode), rest) =
    let good = (port_iff l.port).1 (low, high) in
    let known = (is_mode_iff l.mode).1 mode in rw (good, known) (listeners_complete (i + 1) ls rest)

pub not_empty : {A : Type 0} (xs : List A) → is_empty xs ≡ false → xs ≢ []
not_empty [] h e = cc
not_empty (x ∷ xs) h e = cc

pub is_empty_of : {A : Type 0} (xs : List A) → xs ≢ [] → is_empty xs ≡ false
is_empty_of [] h = absurd (h refl)
is_empty_of (x ∷ xs) h = refl

size_iff : (n : ℤ) → (leb_ℤ n (pos 0) ≡ false) ↔ (pos 0 <ℤ n)
size_iff (pos n) = ground arith
size_iff (negsuc n) = ground arith

redis_sound :
    {A : Type 0} (enabled : Bool) (xs : List A)
    → (enabled && is_empty xs) ≡ false
    → (enabled ≡ false) ⊎ (xs ≢ [])
redis_sound true xs h = inr (not_empty xs h)
redis_sound false xs h = inl refl

redis_complete :
    {A : Type 0} (enabled : Bool) (xs : List A)
    → (enabled ≡ false) ⊎ (xs ≢ [])
    → (enabled && is_empty xs) ≡ false
redis_complete enabled xs (inl off) = rw off refl
redis_complete true xs (inr some_there) = is_empty_of xs some_there
redis_complete false xs (inr some_there) = refl

-- the tests of `Validate`, all passed
Passes : Config → Type 0
Passes c =
    (is_empty c.server.hostname ≡ false)
    × (is_empty c.smtp.listeners ≡ false)
    × (check_listeners 0 c.smtp.listeners ≡ none)
    × (leb_ℤ c.smtp.max_message_size (pos 0) ≡ false)
    × ((c.auth.redis.enabled && is_empty c.auth.redis.addresses) ≡ false)
    × (is_empty c.spool.base_path ≡ false)
    × (is_empty c.database.path ≡ false)
    × (is_empty c.clickhouse.database ≡ false)

validate-Passes : (c : Config) → validate c ≡ none → Passes c
unfolding validate validate_rest Passes
validate-Passes c h = (
  ground arith,
  ground arith,
  ground arith,
  ground arith,
  ground arith,
  ground arith,
  ground arith,
  ground arith,
)

Passes-validate : (c : Config) → Passes c → validate c ≡ none
unfolding validate validate_rest Passes
Passes-validate c (a, b, d, e, f, g, i, j) = ground arith

-- Validate reports no problem exactly if the configuration meets all its requirements.
pub validate_lem : (c : Config) → (validate c ≡ none) ↔ IsValid c
unfolding Passes
validate_lem c = (
  λ h.
      let (a, b, d, e, f, g, i, j) = validate-Passes c h in
      record {
        named = not_empty c.server.hostname a;
        listens = not_empty c.smtp.listeners b;
        servable = listeners_sound 0 c.smtp.listeners d;
        takes_messages = (size_iff c.smtp.max_message_size).0 e;
        has_redis = redis_sound c.auth.redis.enabled c.auth.redis.addresses f;
        has_spool = not_empty c.spool.base_path g;
        has_database = not_empty c.database.path i;
        has_clickhouse = not_empty c.clickhouse.database j;
      },
  λ v. Passes-validate c (
    is_empty_of c.server.hostname v.named,
    is_empty_of c.smtp.listeners v.listens,
    listeners_complete 0 c.smtp.listeners v.servable,
    (size_iff c.smtp.max_message_size).1 v.takes_messages,
    redis_complete c.auth.redis.enabled c.auth.redis.addresses v.has_redis,
    is_empty_of c.spool.base_path v.has_spool,
    is_empty_of c.database.path v.has_database,
    is_empty_of c.clickhouse.database v.has_clickhouse,
  ),
)
