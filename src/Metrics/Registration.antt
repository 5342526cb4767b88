-- ===== src/Metrics/Registration.antt =====
-- `New` of internal/metrics/metrics.go: the collectors in the order in which it makes them. promauto
-- registers each of them; the registry is a parameter.
use submitter_smtp_daemon.Metrics.{
  auth_attempts, auth_duration, bytes_received, bytes_sent, cert_reload_errors, cert_reloads,
  click_house_buffer_size, click_house_events_total, connection_duration, connections_current,
  dedup_checks, dedup_duplicates, delivery_attempts, delivery_duration, delivery_queue,
  dkim_signing_duration, dkim_signing_total, errors_total, message_size, messages_accepted,
  messages_rejected, rate_limit_hits, s3_upload_duration, s3_upload_total, stage_duration,
  stage_total, tls_handshake_errors, tls_handshakes, Collector, connections_total,
}
use submitter_smtp_daemon.Prelude.{
  All, Bool, List, Option, Text, [], arith, false, none, not, refl, some, text_eq, text_eq_iff,
  text_eq_refl, true, txt, ◌&&◌, ◌||◌, ◌∷◌, ◌≡◌,
}

pub data Kind : Type 0 where
  counter gauge histogram : Kind

pub record Opts : Type 0 where
  pub kind : Kind
  pub name : Text

-- What a collector is made with, beside its labels; buckets and help texts are left out.
unfoldable pub opts_of : Collector → Opts
opts_of connections_total = record { kind = counter; name = txt "smtp_connections_total" }
opts_of connections_current = record { kind = gauge; name = txt "smtp_connections_current" }
opts_of connection_duration = record {
  kind = histogram;
  name = txt "smtp_connection_duration_seconds";
}
opts_of tls_handshakes = record { kind = counter; name = txt "tls_handshakes_total" }
opts_of tls_handshake_errors = record { kind = counter; name = txt "tls_handshake_errors_total" }
opts_of cert_reloads = record { kind = counter; name = txt "cert_reloads_total" }
opts_of cert_reload_errors = record { kind = counter; name = txt "cert_reload_errors_total" }
opts_of auth_attempts = record { kind = counter; name = txt "smtp_auth_attempts_total" }
opts_of auth_duration = record { kind = histogram; name = txt "smtp_auth_duration_seconds" }
opts_of messages_accepted = record { kind = counter; name = txt "smtp_messages_accepted_total" }
opts_of messages_rejected = record { kind = counter; name = txt "smtp_messages_rejected_total" }
opts_of message_size = record { kind = histogram; name = txt "smtp_message_size_bytes" }
opts_of stage_total = record { kind = counter; name = txt "pipeline_stage_total" }
opts_of stage_duration = record { kind = histogram; name = txt "pipeline_stage_duration_seconds" }
opts_of dedup_checks = record { kind = counter; name = txt "dedup_checks_total" }
opts_of dedup_duplicates = record { kind = counter; name = txt "dedup_duplicates_total" }
opts_of dkim_signing_total = record { kind = counter; name = txt "dkim_signing_total" }
opts_of dkim_signing_duration = record {
  kind = histogram;
  name = txt "dkim_signing_duration_seconds";
}
opts_of delivery_attempts = record { kind = counter; name = txt "delivery_attempts_total" }
opts_of delivery_duration = record { kind = histogram; name = txt "delivery_duration_seconds" }
opts_of delivery_queue = record { kind = gauge; name = txt "delivery_queue_length" }
opts_of s3_upload_total = record { kind = counter; name = txt "s3_upload_total" }
opts_of s3_upload_duration = record { kind = histogram; name = txt "s3_upload_duration_seconds" }
opts_of click_house_events_total = record { kind = counter; name = txt "clickhouse_events_total" }
opts_of click_house_buffer_size = record { kind = gauge; name = txt "clickhouse_buffer_size" }
opts_of rate_limit_hits = record { kind = counter; name = txt "rate_limit_hits_total" }
opts_of errors_total = record { kind = counter; name = txt "errors_total" }
opts_of bytes_received = record { kind = counter; name = txt "bytes_received_total" }
opts_of bytes_sent = record { kind = counter; name = txt "bytes_sent_total" }

abbrev pub collectors : List Collector
collectors =
    connections_total ∷ connections_current ∷ connection_duration ∷ tls_handshakes
    ∷ tls_handshake_errors ∷ cert_reloads ∷ cert_reload_errors ∷ auth_attempts ∷ auth_duration
    ∷ messages_accepted ∷ messages_rejected ∷ message_size ∷ stage_total ∷ stage_duration
    ∷ dedup_checks ∷ dedup_duplicates ∷ dkim_signing_total ∷ dkim_signing_duration
    ∷ delivery_attempts ∷ delivery_duration ∷ delivery_queue ∷ s3_upload_total ∷ s3_upload_duration
    ∷ click_house_events_total ∷ click_house_buffer_size ∷ rate_limit_hits ∷ errors_total
    ∷ bytes_received ∷ bytes_sent ∷ []

-- The registry: `none` is the panic of promauto.
pub record Registry (R : Type 0) : Type 0 where
  pub register : Opts → R → Option R

unfoldable pub register_all : {R : Type 0} → Registry R → List Collector → R → Option R
unfolding opts_of
register_all g [] r = some r
register_all g (c ∷ cs) r = elim (g.register (opts_of c) r) [
  | none ↦ none
  | some r' ↦ register_all g cs r'
]

unfoldable pub new : {R : Type 0} → Registry R → R → Option R
unfolding register_all
new g = register_all g collectors

-- promauto panics on a name that is taken, and registers any other.
pub record IsRegistry {R : Type 0} (g : Registry R) : Type 0 where
  pub taken : Text → R → Bool
  pub panics : (o : Opts) (r : R) → taken o.name r ≡ true → g.register o r ≡ none
  pub registers :
      (o : Opts) (r : R)
      → taken o.name r ≡ false
      → (r' : R) × (g.register o r ≡ some r')
        × ((name : Text) → taken name r' ≡ (text_eq o.name name || taken name r))

-- The names of collectors.
abbrev names : List Collector → List Text
names [] = []
names (c ∷ cs) = (opts_of c).name ∷ names cs

abbrev is_in : Text → List Text → Bool
is_in t [] = false
is_in t (x ∷ xs) = text_eq x t || is_in t xs

all_distinct : List Text → Bool
all_distinct [] = true
all_distinct (x ∷ xs) = not (is_in x xs) && all_distinct xs

names_distinct : all_distinct (names collectors) ≡ true
unfolding all_distinct opts_of text_eq txt
names_distinct = refl

module _ {R : Type 0} (g : Registry R) (laws : IsRegistry g) where
  abbrev FreeOf : List Text → R → Type 0
  FreeOf ts r = All (λ t. laws.taken t r ≡ false) ts

  still_free :
      (o : Opts) (r r' : R) (ts : List Text)
      → ((name : Text) → laws.taken name r' ≡ (text_eq o.name name || laws.taken name r))
      → is_in o.name ts ≡ false
      → FreeOf ts r
      → FreeOf ts r'
  still_free o r r' [] e h f = tt
  still_free o r r' (t ∷ ts) e h f = (
    ground (arith, e t, f.0, text_eq_iff o.name t, text_eq_iff t o.name),
    still_free o r r' ts e (ground arith) f.1,
  )

  register_all_lem :
      (cs : List Collector) (r : R)
      → all_distinct (names cs) ≡ true
      → FreeOf (names cs) r
      → (r' : R) × (register_all g cs r ≡ some r')
        × ((t : Text) → laws.taken t r ≡ true → laws.taken t r' ≡ true)
        × All (λ t. laws.taken t r' ≡ true) (names cs)
  unfolding register_all all_distinct
  register_all_lem [] r d f = (r, refl, λ t e. e, tt)
  register_all_lem (c ∷ cs) r d f =
      let (r1, same, now) = laws.registers (opts_of c) r f.0 in
      let (r2, rest, keeps, taken) =
        register_all_lem cs r1 (ground arith)
          (still_free (opts_of c) r r1 (names cs) now (ground arith) f.1) in
      (
        r2,
        rw (same, register_all) rest,
        λ t e. keeps t (ground (arith, now t, e)),
        (
          keeps (opts_of c).name
              (ground (arith, now (opts_of c).name, text_eq_refl (opts_of c).name)),
          taken,
        ),
      )

  -- Where none of the names of the collectors is taken, New registers all of them without a panic,
  -- and another call of New over the registry that it leaves panics.
  pub new_once :
      (r : R) → FreeOf (names collectors) r → (r' : R) × (new g r ≡ some r') × (new g r' ≡ none)
  unfolding new register_all
  new_once r free =
      let (r', same, keeps, taken) = register_all_lem collectors r names_distinct free in
      (r', same, rw (laws.panics (opts_of connections_total) r' taken.0, register_all) refl)
