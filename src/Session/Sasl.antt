-- ===== src/Session/Sasl.antt =====
-- The SASL server of internal/smtpserver/session.go. Durations are in nanoseconds.
use submitter_smtp_daemon.Session.{Backend, Session, Shared, SmtpError, with_metrics}
use submitter_smtp_daemon.Auth.{authenticate, is_allowed}
use submitter_smtp_daemon.Ratelimit.{check_ip_failed_auth}
use submitter_smtp_daemon.Metrics.{record_auth_attempt}
use submitter_smtp_daemon.Prelude.{
  ◌==◌, Bool, List, Text, [], false, if◌then◌else◌, none, some, split, text_eq, true, txt, ℕ, ◌+◌,
  ◌∷◌,
}

pub record SaslServer : Type 0 where
  pub mech : Text
  pub username : Text
  pub password : Text
  pub step : ℕ

pub data SaslError : Type 0 where
  unsupported_mechanism invalid_plain_format invalid_login_step : SaslError
  refused_with : SmtpError → SaslError

-- The result of `Next`: a challenge, the end of the exchange, or an error.
pub data Step : Type 0 where
  challenge : Text → Step
  finished : Step
  stopped : SaslError → Step

-- `Auth`
abbrev pub auth : Text → SaslServer
auth mech = record { mech = mech; username = []; password = []; step = 0 }

module _ {S I C : Type 0} (b : Backend S I C) where
  -- whether the allowlist is configured and holds the address of the client
  unfoldable pub is_trusted : Text → Bool
  is_trusted client_ip = elim b.ip_auth [ none ↦ false | some a ↦ is_allowed b.net client_ip a ]

  -- `authenticate`
  unfoldable pub log_in : Text → Text → ℕ → ℕ → Session → Shared S → Step × Session × Shared S
  unfolding is_trusted
  log_in username password now duration s sh =
      let s' = record s { auth_user = username; authenticated = true } in
      if is_trusted s.client_ip
      then (finished, s', with_metrics (record_auth_attempt (txt "ip") (txt "success") duration) sh)
      else (let (refusal, l) = check_ip_failed_auth b.redis s.client_ip now sh.limiter in
          elim refusal [
            | some e ↦ (
              stopped (
                  refused_with (record {
                    code = 421;
                    message = txt "Too many failed authentication attempts";
                  })),
              s,
              with_metrics (record_auth_attempt (txt "redis") (txt "rate_limited") duration)
                  (record sh { limiter = l }),
            )
            | none ↦
                let (err, m) = authenticate b.users username password duration l.server l.metrics in
                let sh' = record sh { limiter = record l { metrics = m } } in
                elim err [
                  | some e ↦ (
                    stopped (
                        refused_with
                          (record { code = 535; message = txt "Authentication failed" })),
                    s,
                    sh',
                  )
                  | none ↦ (finished, s', sh')
                ]
          ])

  abbrev pub plain_parts : List Text → ℕ → ℕ → Session → Shared S → Step × Session × Shared S
  plain_parts (identity ∷ username ∷ password ∷ []) now duration s sh =
      log_in username password now duration s sh
  plain_parts _ now duration s sh = (stopped invalid_plain_format, s, sh)

  unfoldable pub next_plain : Text → ℕ → ℕ → Session → Shared S → Step × Session × Shared S
  unfolding split log_in
  next_plain response now duration s sh = plain_parts (split 0 response) now duration s sh

  -- the step is counted before it is looked at
  unfoldable pub next_login :
      SaslServer → Text → ℕ → ℕ → Session → Shared S → SaslServer × (Step × Session × Shared S)
  unfolding log_in
  next_login srv response now duration s sh =
      let srv' = record srv { step = srv.step + 1 } in
      if srv'.step == 1
      then (srv', (challenge (txt "Username:"), s, sh))
      else if srv'.step == 2
      then (record srv' { username = response }, (challenge (txt "Password:"), s, sh))
      else if srv'.step == 3
      then (record srv' { password = response }, log_in srv.username response now duration s sh)
      else (srv', (stopped invalid_login_step, s, sh))

  unfoldable pub next :
      SaslServer → Text → ℕ → ℕ → Session → Shared S → SaslServer × (Step × Session × Shared S)
  unfolding next_plain next_login
  next srv response now duration s sh =
      if text_eq srv.mech (txt "PLAIN")
      then (srv, next_plain response now duration s sh)
      else if text_eq srv.mech (txt "LOGIN")
      then next_login srv response now duration s sh
      else (srv, (stopped unsupported_mechanism, s, sh))
