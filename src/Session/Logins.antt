-- ===== src/Session/Logins.antt =====
-- Who is authenticated by the SASL server of internal/smtpserver/session.go.
use submitter_smtp_daemon.Session.Sasl.{is_trusted, log_in}
use submitter_smtp_daemon.Session.{Backend, Session, Shared}
use submitter_smtp_daemon.Auth.{authenticate, password_key, value, missing, broken, Reply}
use submitter_smtp_daemon.Ratelimit.{check_ip_failed_auth, Limiter}
use submitter_smtp_daemon.Metrics.{Metrics}
use submitter_smtp_daemon.Prelude.{
  Bool-cases, Option-cases, Text, arith, false, inl, inr, none, refl, text_eq_iff, true, ℕ, ◌≡◌,
  ◌⊎◌,
}

Reply-cases : (r : Reply) → (r ≡ missing) ⊎ ((r ≡ broken) ⊎ ((v : Text) × (r ≡ value v)))
Reply-cases missing = inl refl
Reply-cases broken = inr (inl refl)
Reply-cases (value v) = inr (inr (v, refl))

module _ {S I C : Type 0} (b : Backend S I C) where
  accepts :
      (username password : Text) (duration : ℕ) (server : S) (m : Metrics)
      → (authenticate b.users username password duration server m).0 ≡ none
      → b.users.get (password_key username) server ≡ value password
  unfolding authenticate
  accepts username password duration server m h =
      elim (Reply-cases (b.users.get (password_key username) server)) [
        | inl absent ↦ absurd (cc (rw (absent, authenticate) at h))
        | inr (inl failing) ↦ absurd (cc (rw (failing, authenticate) at h))
        | inr (inr (v, held)) ↦ ground (arith, text_eq_iff password v)
      ]

  module _ (username password : Text) (now duration : ℕ) (s : Session) (sh : Shared S) where
    abbrev limited : Limiter S
    limited = (check_ip_failed_auth b.redis s.client_ip now sh.limiter).1

    -- A log-in that authenticates a session does it under the given user name, and only if the
    -- allowlist is configured and holds the client's address, or the limit on attempts of that
    -- address lets it pass and Redis holds exactly the given password, in plain text, for the user.
    pub log_in_lem :
        s.authenticated ≡ false
        → (log_in b username password now duration s sh).1.authenticated ≡ true
        → ((log_in b username password now duration s sh).1.auth_user ≡ username)
          × ((is_trusted b s.client_ip ≡ true)
              ⊎ ((check_ip_failed_auth b.redis s.client_ip now sh.limiter).0 ≡ none)
                × (b.users.get (password_key username) limited.server ≡ value password))
    unfolding log_in
    log_in_lem before h = elim (Bool-cases (is_trusted b s.client_ip)) [
      | inl trusted ↦ ground arith
      | inr unknown ↦
          elim (Option-cases (check_ip_failed_auth b.redis s.client_ip now sh.limiter).0) [
            | inl passes ↦
                ground (arith, accepts username password duration limited.server limited.metrics)
            | inr (e, stops) ↦ absurd (ground arith)
          ]
    ]
