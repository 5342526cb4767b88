-- ===== src/Session.antt =====
-- internal/smtpserver/session.go. The limiter, the spool, the authenticators and the metrics are
-- shared by all sessions; the one metrics object is kept in the limiter. Replies are the errors of
-- go-smtp with their code and message. Clock readings, uuid values and the faults of the spool are
-- arguments. Logging is left out. A command is one step; other sessions act between commands.
pub mod Sasl
pub mod Server
pub mod Commands
pub mod Logins
pub mod Accepting
use submitter_smtp_daemon.Auth.{Store, Net, IpAuthenticator}
use submitter_smtp_daemon.Ratelimit.{
  Redis, Limiter, check_ip_connection, check_user_messages, check_user_recipients,
  check_global_messages, increment_connection, decrement_connection,
}
use submitter_smtp_daemon.Spool.{WriteFaults}
use submitter_smtp_daemon.Spool
use submitter_smtp_daemon.Files.{Fs}
use submitter_smtp_daemon.Metrics.{
  Metrics, record_connection, record_connection_close, record_message_accepted,
  record_message_rejected, record_stage,
}
use submitter_smtp_daemon.Prelude.{
  wrap_int64, Bool, List, Option, Text, [], false, if◌then◌else◌, leb_ℤ, length, none, pos,
  pos_part, some, split, take, txt, ℕ, ℤ, ◌++◌, ◌+ℤ◌, ◌-◌, ◌==◌, ◌||◌, ◌∷◌,
}

pub record SmtpError : Type 0 where
  pub code : ℕ
  pub message : Text

abbrev pub smtp_error : ℕ → Text → Option SmtpError
smtp_error code message = some (record { code = code; message = message })

-- What `Session` reads of the configuration: the port of the first listener in decimal (`Validate`
-- asks for a listener), and limits.
pub record Settings : Type 0 where
  pub port : Text
  pub max_recipients : ℤ
  pub max_message_size : ℤ

pub record Backend (S I C : Type 0) : Type 0 where
  pub settings : Settings
  pub redis : Redis S
  pub users : Store S
  pub net : Net I C
  pub ip_auth : Option (IpAuthenticator C)

-- What the sessions share and change.
pub record Shared (S : Type 0) : Type 0 where
  pub limiter : Limiter S
  pub spool : Fs

pub record Session : Type 0 where
  pub session_id : Text
  pub client_ip : Text
  pub auth_user : Text
  pub authenticated : Bool
  pub mail_from : Text
  pub rcpt_to : List Text
  pub start_time : ℕ

-- `strings.Trim(s, "[]")`
abbrev is_bracket : ℕ → Bool
is_bracket c = c == b'[' || c == b']'

unfoldable pub trim_left : Text → Text
trim_left [] = []
trim_left (c ∷ s) = let rest = trim_left s in if is_bracket c then rest else c ∷ s

unfoldable pub trim_right : Text → Text
trim_right [] = []
trim_right (c ∷ s) = elim (trim_right s) [
  | [] ↦ if is_bracket c then [] else c ∷ []
  | d ∷ rest ↦ c ∷ d ∷ rest
]

unfoldable pub extract_ip : Text → Text
unfolding trim_left trim_right split
extract_ip remote_addr = elim (split b':' remote_addr) [
  | [] ↦ remote_addr
  | part ∷ [] ↦ remote_addr
  | part ∷ another ∷ parts ↦ trim_right (trim_left part)
]

abbrev pub with_metrics : {S : Type 0} → (Metrics → Metrics) → Shared S → Shared S
with_metrics f sh = record sh { limiter = record sh.limiter { metrics = f sh.limiter.metrics } }

module _ {S I C : Type 0} (b : Backend S I C) where
  unfoldable pub new_session :
      Text → Text → Bool → ℕ → ℕ → Shared S → (Option SmtpError × Option Session × Shared S)
  new_session session_id remote_addr tls now start sh =
      let client_ip = extract_ip remote_addr in
      let (refusal, l) = check_ip_connection b.redis client_ip now sh.limiter in
      elim refusal [
        | some e ↦ (smtp_error 421 (txt "Rate limit exceeded"), none, record sh { limiter = l })
        | none ↦ (
          none,
          some (record {
            session_id = session_id;
            client_ip = client_ip;
            auth_user = [];
            authenticated = false;
            mail_from = [];
            rcpt_to = [];
            start_time = start;
          }),
          with_metrics
              (record_connection b.settings.port (if tls then txt "tls" else txt "plaintext"))
              (record sh { limiter = increment_connection b.redis l }),
        )
      ]

  -- `Mail` of an authenticated session
  unfoldable pub mail_checked :
      Text → ℕ → ℕ → Session → Shared S → Option SmtpError × Session × Shared S
  mail_checked from now global_now s sh =
      let (refusal, l) = check_user_messages b.redis s.auth_user now sh.limiter in
      elim refusal [
        | some e ↦ (
          smtp_error 450 (txt "Rate limit exceeded"),
          s,
          with_metrics (record_message_rejected (txt "rate_limited")) (record sh { limiter = l }),
        )
        | none ↦
            let (global_refusal, l') = check_global_messages b.redis global_now l in
            elim global_refusal [
              | some e ↦ (
                smtp_error 450 (txt "Rate limit exceeded"),
                s,
                with_metrics (record_message_rejected (txt "rate_limited"))
                    (record sh { limiter = l' }),
              )
              | none ↦ (none, record s { mail_from = from }, record sh { limiter = l' })
            ]
      ]

  unfoldable pub mail : Text → ℕ → ℕ → Session → Shared S → Option SmtpError × Session × Shared S
  unfolding mail_checked
  mail from now global_now s sh =
      if s.authenticated
      then mail_checked from now global_now s sh
      else (smtp_error 530 (txt "Authentication required"), s, sh)

  unfoldable pub rcpt : Text → Session → Option SmtpError × Session
  rcpt to s =
      if length s.mail_from == 0
      then (smtp_error 503 (txt "MAIL command required first"), s)
      else if leb_ℤ b.settings.max_recipients (pos (length s.rcpt_to))
      then (smtp_error 452 (txt "Too many recipients"), s)
      else (none, record s { rcpt_to = s.rcpt_to ++ to ∷ [] })

  -- what `io.Copy` reads through a LimitReader of MaxMessageSize + 1 bytes, a sum of int64
  unfoldable pub read_limited : List ℕ → List ℕ
  unfolding wrap_int64
  read_limited content = take (pos_part (wrap_int64 (b.settings.max_message_size +ℤ pos 1))) content

  -- `Data` once the message is read
  unfoldable pub accept :
      Text → WriteFaults → ℕ → List ℕ → Session → Shared S → Option SmtpError × Shared S
  accept msg_id faults now bytes s sh =
      if leb_ℤ (pos (length bytes)) b.settings.max_message_size
      then (let (err, spool) = Spool.write msg_id bytes faults now sh.spool in
          elim err [
            | some e ↦ (
              smtp_error 451 (txt "Failed to accept message"),
              with_metrics (record_message_rejected (txt "spool_error"))
                  (record sh { spool = spool }),
            )
            | none ↦ (
              none,
              with_metrics (record_stage (txt "incoming") 0) (
                  with_metrics (record_message_accepted s.auth_user (length bytes))
                    (record sh { spool = spool })),
            )
          ])
      else (
        smtp_error 552 (txt "Message too large"),
        with_metrics (record_message_rejected (txt "too_large")) sh,
      )

  -- `read_fails`: the connection breaks while the message is read
  unfoldable pub data_ :
      List ℕ → Bool → Text → WriteFaults → ℕ → Session → Shared S → Option SmtpError × Shared S
  unfolding accept read_limited
  data_ content read_fails msg_id faults now s sh =
      if length s.rcpt_to == 0
      then (smtp_error 503 (txt "RCPT command required first"), sh)
      else (let (refusal, l) =
            check_user_recipients b.redis s.auth_user (length s.rcpt_to) sh.limiter in
          elim refusal [
            | some e ↦ (
              smtp_error 450 (txt "Recipient rate limit exceeded"),
              with_metrics (record_message_rejected (txt "rate_limited"))
                  (record sh { limiter = l }),
            )
            | none ↦
                if read_fails
                then (
                  smtp_error 451 (txt "Failed to read message"),
                  with_metrics (record_message_rejected (txt "read_error"))
                      (record sh { limiter = l }),
                )
                else accept msg_id faults now (read_limited content) s (record sh { limiter = l })
          ])

  unfoldable pub reset : Session → Session
  reset s = record s { mail_from = []; rcpt_to = [] }

  unfoldable pub logout : ℕ → Session → Shared S → Shared S
  logout now s sh =
      with_metrics (record_connection_close b.settings.port (now - s.start_time))
        (record sh { limiter = decrement_connection b.redis sh.limiter })
