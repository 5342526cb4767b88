-- ===== src/Session/Commands.antt =====
-- Sessions of internal/smtpserver/session.go as sequences of commands, between which other sessions
-- change what is shared.
use submitter_smtp_daemon.Ratelimit.{check_ip_connection}
use submitter_smtp_daemon.Session.Sasl.{
  plain_parts, next_login, next_plain, SaslServer, log_in, next,
}
use submitter_smtp_daemon.Session.{
  extract_ip, new_session, Backend, Session, Shared, data_, mail, mail_checked, rcpt, reset,
}
use submitter_smtp_daemon.Spool.{WriteFaults}
use submitter_smtp_daemon.Prelude.{
  Option-cases, inl, inr, refl, some, split, Bool, List, Text, [], arith, length, length-append,
  pos, true, ℕ, ◌∷◌, ◌≡◌, ◌≤ℤ◌, ◌⊎◌,
}

-- The calls that go-smtp makes on a session, and a change by others.
pub data Command (S : Type 0) : Type 0 where
  auth_response : SaslServer → Text → ℕ → ℕ → Command S
  mail_from : Text → ℕ → ℕ → Command S
  rcpt_to : Text → Command S
  message : List ℕ → Bool → Text → WriteFaults → ℕ → Command S
  forget : Command S
  others : Shared S → Command S

module _ {S I C : Type 0} (b : Backend S I C) where
  unfoldable pub step : Command S → Session × Shared S → Session × Shared S
  step (auth_response srv response now duration) (s, sh) =
      let (srv', (reply, s', sh')) = next b srv response now duration s sh in (s', sh')
  step (mail_from from now global_now) (s, sh) =
      let (err, s', sh') = mail b from now global_now s sh in (s', sh')
  step (rcpt_to to) (s, sh) = ((rcpt b to s).1, sh)
  step (message content read_fails msg_id faults now) (s, sh) =
      (s, (data_ b content read_fails msg_id faults now s sh).1)
  step forget (s, sh) = (reset b s, sh)
  step (others sh') (s, sh) = (s, sh')

  unfoldable pub run : List (Command S) → Session × Shared S → Session × Shared S
  unfolding step
  run [] state = state
  run (c ∷ cs) state = run cs (step c state)

  -- A sender or recipients only after authentication, and no more recipients than allowed.
  abbrev pub IsProper : Session → Type 0
  IsProper s =
      ((s.authenticated ≡ true) ⊎ (s.mail_from ≡ []) × (s.rcpt_to ≡ []))
      × ((s.rcpt_to ≡ []) ⊎ (pos (length s.rcpt_to) ≤ℤ b.settings.max_recipients))

  log_in-IsProper :
      (username password : Text) (now duration : ℕ) (s : Session) (sh : Shared S)
      → IsProper s
      → IsProper (log_in b username password now duration s sh).1
  unfolding log_in
  log_in-IsProper username password now duration s sh h = ground arith

  mail-IsProper :
      (from : Text) (now global_now : ℕ) (s : Session) (sh : Shared S)
      → IsProper s
      → IsProper (mail b from now global_now s sh).1
  unfolding mail mail_checked
  mail-IsProper from now global_now s sh h = ground arith

  rcpt-IsProper : (to : Text) (s : Session) → IsProper s → IsProper (rcpt b to s).1
  unfolding rcpt
  rcpt-IsProper to s h = ground (arith, length-append s.rcpt_to (to ∷ []))

  plain_parts-IsProper :
      (parts : List Text) (now duration : ℕ) (s : Session) (sh : Shared S)
      → IsProper s
      → IsProper (plain_parts b parts now duration s sh).1
  plain_parts-IsProper [] now duration s sh h = h
  plain_parts-IsProper (x ∷ []) now duration s sh h = h
  plain_parts-IsProper (x ∷ y ∷ []) now duration s sh h = h
  plain_parts-IsProper (x ∷ y ∷ z ∷ []) now duration s sh h =
      log_in-IsProper y z now duration s sh h
  plain_parts-IsProper (x ∷ y ∷ z ∷ u ∷ rest) now duration s sh h = h

  next_login-IsProper :
      (srv : SaslServer) (response : Text) (now duration : ℕ) (s : Session) (sh : Shared S)
      → IsProper s
      → IsProper (next_login b srv response now duration s sh).1.1
  unfolding next_login
  next_login-IsProper srv response now duration s sh h =
      ground (arith, log_in-IsProper srv.username response now duration s sh h)

  next-IsProper :
      (srv : SaslServer) (response : Text) (now duration : ℕ) (s : Session) (sh : Shared S)
      → IsProper s
      → IsProper (next b srv response now duration s sh).1.1
  unfolding next next_plain
  next-IsProper srv response now duration s sh h = ground (
    arith,
    next_login-IsProper srv response now duration s sh h,
    plain_parts-IsProper (split 0 response) now duration s sh h,
  )

  step-IsProper :
      (c : Command S) (s : Session) (sh : Shared S) → IsProper s → IsProper (step c (s, sh)).0
  unfolding step reset
  step-IsProper (auth_response srv response now duration) s sh h =
      next-IsProper srv response now duration s sh h
  step-IsProper (mail_from from now global_now) s sh h = mail-IsProper from now global_now s sh h
  step-IsProper (rcpt_to to) s sh h = rcpt-IsProper to s h
  step-IsProper (message content read_fails msg_id faults now) s sh h = h
  step-IsProper forget s sh h = (inr (refl, refl), inl refl)
  step-IsProper (others sh') s sh h = h

  keeps-IsProper :
      (cs : List (Command S)) (s : Session) (sh : Shared S)
      → IsProper s
      → IsProper (run cs (s, sh)).0
  unfolding run
  keeps-IsProper [] s sh h = h
  keeps-IsProper (c ∷ cs) s sh h =
      keeps-IsProper cs (step c (s, sh)).0 (step c (s, sh)).1 (step-IsProper c s sh h)

  opened-IsProper :
      (session_id remote_addr : Text) (tls : Bool) (now start : ℕ) (sh : Shared S) (s : Session)
      → (new_session b session_id remote_addr tls now start sh).1 ≡ some s
      → IsProper s
  unfolding new_session
  opened-IsProper session_id remote_addr tls now start sh s opened =
      elim (Option-cases (check_ip_connection b.redis (extract_ip remote_addr) now sh.limiter).0) [
        | inl open_to ↦ ground arith
        | inr (e, refused_now) ↦ ground arith
      ]

  -- A session that NewSession opens, on whatever listener, has after any sequence of its commands and
  -- whatever other sessions change in between a sender or recipients only if it is authenticated, also
  -- where the listener is configured with require_auth: false, which no code reads. It never has more
  -- recipients than the configured maximum unless it has none.
  pub run-IsProper :
      (session_id remote_addr : Text) (tls : Bool) (now start : ℕ) (sh : Shared S) (s : Session)
      → (new_session b session_id remote_addr tls now start sh).1 ≡ some s
      → (cs : List (Command S)) (sh' : Shared S) → IsProper (run cs (s, sh')).0
  run-IsProper session_id remote_addr tls now start sh s opened cs sh' =
      keeps-IsProper cs s sh' (opened-IsProper session_id remote_addr tls now start sh s opened)
