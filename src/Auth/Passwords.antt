-- ===== src/Auth/Passwords.antt =====
-- Passwords in internal/auth/redis.go: who can log in after SetPassword.
use submitter_smtp_daemon.Auth.{Store, authenticate, password_key, set_password, value}
use submitter_smtp_daemon.Metrics.{Metrics}
use submitter_smtp_daemon.Prelude.{
  append_cancel, Bool-cases, inl, inr, text_eq_iff, Text, [], ap, arith, false, length,
  length-append, none, refl, txt, ℕ, ◌++◌, ◌↔◌, ◌∷◌, ◌≡◌, ◌≢◌,
}

pub append_cancel_right : (u v s : Text) → u ++ s ≡ v ++ s → u ≡ v
append_cancel_right [] [] s e = refl
append_cancel_right [] (d ∷ v) s e =
    absurd (omega (arith, ap (λ (t : Text). length t) e, length-append v s))
append_cancel_right (c ∷ u) [] s e =
    absurd (omega (arith, ap (λ (t : Text). length t) e, length-append u s))
append_cancel_right (c ∷ u) (d ∷ v) s e =
    let same : c ≡ d = cc in let rest : u ≡ v = append_cancel_right u v s (cc) in cc

-- Two users never share a key.
password_key-injective : (u v : Text) → password_key u ≡ password_key v → u ≡ v
unfolding password_key
password_key-injective u v e =
    append_cancel_right u v (txt ":password") (append_cancel (txt "users:") _ _ e)

-- A store in which SET, where it works, is seen by the next GET of its key and of no other.
pub record IsStore {S : Type 0} (store : Store S) : Type 0 where
  pub get_set :
      (key v : Text) (s : S)
      → (store.set key v s).0 ≡ false
      → store.get key (store.set key v s).1 ≡ value v
  pub get_set_other :
      (key j v : Text) (s : S) → key ≢ j → store.get j (store.set key v s).1 ≡ store.get j s

module _ {S : Type 0} (store : Store S) (is_store : IsStore store) (user password : Text) (s : S)
    (duration : ℕ) (m : Metrics) where
  -- the server after the call
  abbrev changed : S
  changed = (store.set (password_key user) password s).1

  reached : (set_password store user password s).1 ≡ changed
  unfolding set_password
  reached = elim (Bool-cases (store.set (password_key user) password s).0) [
    | inl bad ↦ rw bad refl
    | inr good ↦ rw good refl
  ]

  worked :
      (set_password store user password s).0 ≡ none
      → (store.set (password_key user) password s).0 ≡ false
  unfolding set_password
  worked ok = ground arith

  own_login :
      (given : Text)
      → store.get (password_key user) changed ≡ value password
      → ((authenticate store user given duration changed m).0 ≡ none) ↔ (given ≡ password)
  unfolding authenticate
  own_login given held = rw (held, authenticate) (ground (arith, text_eq_iff given password))

  other_login :
      (other given : Text)
      → store.get (password_key other) changed ≡ store.get (password_key other) s
      → authenticate store other given duration changed m
        ≡ authenticate store other given duration s m
  unfolding authenticate
  other_login other given same = rw (same, authenticate) refl

  -- After a SetPassword that works, the user can log in with exactly that password, and nobody
  -- else's login is affected.
  pub authenticate-set_password :
      (set_password store user password s).0 ≡ none
      → (((given : Text)
            → ((authenticate store user given duration (set_password store user password s).1 m).0
                ≡ none)
              ↔ (given ≡ password))
          × ((other given : Text)
              → user ≢ other
              → authenticate store other given duration (set_password store user password s).1 m
                ≡ authenticate store other given duration s m))
  authenticate-set_password ok = (
    λ given.
        rw reached (own_login given (is_store.get_set (password_key user) password s (worked ok))),
    λ other given ne. rw reached (
        other_login other given (
          is_store.get_set_other (password_key user) (password_key other) password s
            (λ e. ne (password_key-injective user other e)))),
  )
