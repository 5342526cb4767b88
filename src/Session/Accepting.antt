-- ===== src/Session/Accepting.antt =====
-- What `Data` of internal/smtpserver/session.go puts into the spool.
use mathlib.Core.Path.{subst}
use submitter_smtp_daemon.Spool.Moves.{Holds}
use submitter_smtp_daemon.Spool.Writes.{write_error, write_lem}
use submitter_smtp_daemon.Session.{Backend, Session, Shared, SmtpError, accept, data_, read_limited}
use submitter_smtp_daemon.Spool.{cross_device, stage_path, temp_path, WriteFaults}
use submitter_smtp_daemon.Spool
use submitter_smtp_daemon.Files.{FilePath, find, incoming, tmp, Fs}
use submitter_smtp_daemon.Ratelimit.{check_user_recipients}
use submitter_smtp_daemon.Prelude.{
  max_int64, wrap_int64, ◌<ℤ◌, Option-cases, inl, inr, some, ◌≢◌, ◌≤ℤ◌, ◌⊎◌, Bool, List, Option,
  Text, [], ap, arith, false, leb_ℤ, length, negsuc, none, pos, pos_part, refl, suc, take, true,
  zero, ℕ, ℤ, ◌+ℤ◌, ◌<◌, ◌==◌, ◌∷◌, ◌≡◌,
}

-- A prefix that is shorter than asked for is the whole list.
take_all {ℓ} : {A : Type ℓ} (n : ℕ) (xs : List A) → length (take n xs) < n → take n xs ≡ xs
take_all zero xs h = absurd (omega arith)
take_all (suc n) [] h = refl
take_all (suc n) (x ∷ xs) h = ap (λ ys. x ∷ ys) (take_all n xs (omega (arith, h)))

no_wrap : (m : ℤ) → m <ℤ pos max_int64 → wrap_int64 (m +ℤ pos 1) ≡ m +ℤ pos 1
unfolding wrap_int64 ◌+ℤ◌
no_wrap (pos n) h = ground arith
no_wrap (negsuc n) h = ground arith

short :
    (m : ℤ) (k : ℕ)
    → m <ℤ pos max_int64
    → leb_ℤ (pos k) m ≡ true
    → k < pos_part (wrap_int64 (m +ℤ pos 1))
unfolding ◌+ℤ◌
short (pos n) k small h = rw (no_wrap (pos n) small) (ground arith)
short (negsuc n) k small h = absurd (ground arith)

module _ {S I C : Type 0} (b : Backend S I C) where
  abbrev max_size : ℤ
  max_size = b.settings.max_message_size

  whole :
      (content : List ℕ)
      → max_size <ℤ pos max_int64
      → leb_ℤ (pos (length (read_limited b content))) max_size ≡ true
      → read_limited b content ≡ content
  unfolding read_limited
  whole content small h = take_all _ content (short max_size _ small h)

  module _ (content : List ℕ) (read_fails : Bool) (msg_id : Text) (faults : WriteFaults) (now : ℕ)
      (s : Session) (sh : Shared S) where
    abbrev result : Option SmtpError × Shared S
    result = data_ b content read_fails msg_id faults now s sh

    abbrev bytes : List ℕ
    bytes = read_limited b content

    abbrev written : Option Spool.Error × Fs
    written = Spool.write msg_id bytes faults now sh.spool

    guards :
        result.0 ≡ none
        → ((length s.rcpt_to == 0) ≡ false)
          × ((check_user_recipients b.redis s.auth_user (length s.rcpt_to) sh.limiter).0 ≡ none)
          × (read_fails ≡ false)
          × (leb_ℤ (pos (length bytes)) max_size ≡ true)
          × (written.0 ≡ none)
    unfolding data_ accept
    guards h = (ground arith, ground arith, ground arith, ground arith, ground arith)

    spooled : result.0 ≡ none → result.1.spool ≡ written.1
    unfolding data_ accept
    spooled h = ground arith

    -- Where the configured size is below the largest int64: a DATA command that is answered with
    -- success had recipients, and a message within the configured size, read without an error. The
    -- whole message lies in incoming under its new id, no file is left under its two names in tmp,
    -- and every other file of the spool is as before.
    pub data_lem :
        max_size <ℤ pos max_int64
        → result.0 ≡ none
        → (length s.rcpt_to ≢ 0)
          × (pos (length content) ≤ℤ max_size)
          × (read_fails ≡ false)
          × Holds (stage_path incoming msg_id) content result.1.spool
          × (find (stage_path tmp msg_id) result.1.spool ≡ none)
          × (find (temp_path msg_id) result.1.spool ≡ none)
          × ((r : FilePath)
              → temp_path msg_id ≢ r
              → stage_path tmp msg_id ≢ r
              → stage_path incoming msg_id ≢ r
              → find r result.1.spool ≡ find r sh.spool)
    data_lem small h =
        let (some_rcpt, passes, reads, fits, wrote) = guards h in
        let all : bytes ≡ content = whole content small fits in
        let (there, t, u, others) = write_lem msg_id bytes faults now sh.spool wrote in
        (
          λ e. ground arith,
          rw⁻¹ (ap (λ (x : List ℕ). length x) all) (ground arith),
          reads,
          rw (spooled h) (subst (λ x. Holds (stage_path incoming msg_id) x written.1) all there),
          rw (spooled h) t,
          rw (spooled h) u,
          λ r a c d. rw (spooled h) (others r a c d),
        )

    untouched :
        (x : SmtpError)
        → result.0 ≡ some x
        → (result.1.spool ≡ sh.spool) ⊎ ((written.0 ≢ none) × (result.1.spool ≡ written.1))
    unfolding data_ accept
    untouched x h = ground arith

    -- A DATA command that is answered with an error, of whatever kind, changes outside the two names
    -- of the message in tmp at most the message in incoming, and that only where the last rename
    -- failed as a cross-device link.
    pub data_error :
        (x : SmtpError)
        → result.0 ≡ some x
        → (r : FilePath) → temp_path msg_id ≢ r
        → stage_path tmp msg_id ≢ r
        → (stage_path incoming msg_id ≢ r) ⊎ (faults.move.renaming ≢ cross_device)
        → find r result.1.spool ≡ find r sh.spool
    data_error x h r a c apart = elim (untouched x h) [
      | inl same ↦ rw same refl
      | inr (has_failed, same) ↦ rw same (elim (Option-cases written.0) [
        | inl ok ↦ absurd (has_failed ok)
        | inr (e, is_e) ↦ write_error msg_id bytes faults now sh.spool e is_e r a c apart
      ])
    ]
