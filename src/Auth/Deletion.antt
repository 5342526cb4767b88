-- ===== src/Auth/Deletion.antt =====
-- Who can log in after DeleteUser of internal/auth/redis.go.
use mathlib.Core.Path.{subst}
use submitter_smtp_daemon.Auth.{
  Reply, authenticate, broken, delete_keys, delete_user, password_key, Store, missing, user_pattern,
  value,
}
use submitter_smtp_daemon.Metrics.{Metrics}
use submitter_smtp_daemon.Prelude.{
  append_assoc, All-append, Bool-cases, Member-dec, Option-cases, append_cancel, none, ◌∙◌, All,
  List, Member, Member-append-right, Text, [], ap, arith, false, inl, inr, refl, some, sym, txt, ℕ,
  ◌++◌, ◌∷◌, ◌≡◌, ◌≢◌, ◌⊎◌,
}

-- A byte that stands for itself in a pattern of KEYS.
abbrev pub IsLiteral : ℕ → Type 0
IsLiteral c = (c ≢ b'*') × (c ≢ b'?') × (c ≢ b'[') × (c ≢ b'\\')

abbrev pub HasPrefix : Text → Text → Type 0
HasPrefix prefix key = (rest : Text) × (key ≡ prefix ++ rest)

-- A store in which KEYS of a literal prefix and a star answers with keys that start so, among them
-- all that hold a value, and in which DEL, where it works, removes its keys and no others.
pub record HasKeys {S : Type 0} (store : Store S) : Type 0 where
  pub keys_start :
      (prefix key : Text) (keys : List Text) (s : S)
      → All IsLiteral prefix
      → store.keys (prefix ++ txt "*") s ≡ some keys
      → Member key keys
      → HasPrefix prefix key
  pub keys_all :
      (prefix key v : Text) (keys : List Text) (s : S)
      → All IsLiteral prefix
      → store.keys (prefix ++ txt "*") s ≡ some keys
      → HasPrefix prefix key
      → store.get key s ≡ value v
      → Member key keys
  pub get_del :
      (key : Text) (keys : List Text) (s : S)
      → (store.del keys s).0 ≡ false
      → Member key keys
      → store.get key (store.del keys s).1 ≡ missing
  pub get_del_other :
      (key : Text) (keys : List Text) (s : S)
      → (Member key keys → ⊥)
      → store.get key (store.del keys s).1 ≡ store.get key s

user_prefix : Text → Text
user_prefix user = txt "users:" ++ (user ++ txt ":")

pattern_is_prefix : (user : Text) → user_pattern user ≡ user_prefix user ++ txt "*"
unfolding user_pattern user_prefix txt
pattern_is_prefix user = ap (λ t. txt "users:" ++ t) (append_assoc user (txt ":") (txt "*"))

colon_free : (u rest : Text) → txt "password" ≡ u ++ b':' ∷ rest → ⊥
unfolding txt
colon_free u rest e =
    let m : Member b':' (u ++ b':' ∷ rest) = Member-append-right b':' u (b':' ∷ rest) (inl refl) in
    let n : Member b':' (txt "password") = subst (Member b':') (sym e) m in ground arith

-- A password key that starts with the prefix of a user is his, or that of a user whose name starts
-- with his and a colon.
under_prefix :
    (user v rest : Text)
    → v ++ txt ":password" ≡ user ++ b':' ∷ rest
    → (v ≡ user) ⊎ HasPrefix (user ++ txt ":") v
unfolding txt
under_prefix [] [] rest e = inl refl
under_prefix (c ∷ user) [] rest e = absurd (colon_free user rest (cc))
under_prefix [] (d ∷ v) rest e = inr (v, cc)
under_prefix (c ∷ user) (d ∷ v) rest e = elim (under_prefix user v rest (cc)) [
  | inl same ↦ inl (cc)
  | inr (more, starts) ↦ inr (more, cc)
]

key_under_prefix :
    (user v : Text)
    → HasPrefix (user_prefix user) (password_key v)
    → (v ≡ user) ⊎ HasPrefix (user ++ txt ":") v
unfolding password_key user_prefix txt
key_under_prefix user v (rest, e) = under_prefix user v rest (
    append_cancel (txt "users:") _ _ (e ∙ sym (append_assoc (txt "users:") (user ++ txt ":") rest))
    ∙ sym (append_assoc user (txt ":") rest))

own_key : (user : Text) → HasPrefix (user_prefix user) (password_key user)
unfolding password_key user_prefix txt
own_key user = (
  txt "password",
  ap (λ t. txt "users:" ++ t) (append_assoc user (txt ":") (txt "password"))
      ∙ append_assoc (txt "users:") (user ++ txt ":") (txt "password"),
)

IsLiteral-prefix : (user : Text) → All IsLiteral user → All IsLiteral (user_prefix user)
unfolding user_prefix txt
IsLiteral-prefix user h =
    All-append IsLiteral (txt "users:") (user ++ txt ":") (ground arith)
      (All-append IsLiteral user (txt ":") h (ground arith))

module _ {S : Type 0} (store : Store S) (user password : Text) (duration : ℕ) (m : Metrics) where
  logged_in :
      (s : S)
      → (authenticate store user password duration s m).0 ≡ none
      → (v : Text) × (store.get (password_key user) s ≡ value v)
  unfolding authenticate
  logged_in s h = by_reply (store.get (password_key user) s) refl
    where
      by_reply :
          (reply : Reply)
          → store.get (password_key user) s ≡ reply
          → (v : Text) × (store.get (password_key user) s ≡ value v)
      by_reply (value v) e = (v, e)
      by_reply missing e = absurd (cc (rw (e, authenticate) at h))
      by_reply broken e = absurd (cc (rw (e, authenticate) at h))

  same_verdict :
      (s s' : S)
      → store.get (password_key user) s' ≡ store.get (password_key user) s
      → authenticate store user password duration s' m
        ≡ authenticate store user password duration s m
  unfolding authenticate
  same_verdict s s' e = rw (e, authenticate) refl

module _ {S : Type 0} (store : Store S) (has_keys : HasKeys store) (user : Text) (s s' : S)
    (literal : All IsLiteral user) (deleted : delete_user store user s ≡ (none, s')) where
  -- What GET of a key answers afterwards: nothing, or what it did.
  after :
      (keys : List Text)
      → delete_keys store keys s ≡ (none, s')
      → (key : Text)
      → (Member key keys × (store.get key s' ≡ missing))
        ⊎ ((Member key keys → ⊥) × (store.get key s' ≡ store.get key s))
  after [] h key = inr (λ m. m, ap (λ t. store.get key t) (cc))
  after (k ∷ keys) h key = elim (Bool-cases (store.del (k ∷ keys) s).0) [
    | inl bad ↦ ground arith
    | inr works ↦
        let reached : (store.del (k ∷ keys) s).1 ≡ s' = ground arith in
        elim (Member-dec key (k ∷ keys)) [
          | inl m ↦ inl (m, rw (sym reached) (has_keys.get_del key (k ∷ keys) s works m))
          | inr n ↦ inr (n, rw (sym reached) (has_keys.get_del_other key (k ∷ keys) s n))
        ]
  ]

  listed :
      (keys : List Text) × (store.keys (user_prefix user ++ txt "*") s ≡ some keys)
      × (delete_keys store keys s ≡ (none, s'))
  unfolding delete_user
  listed = elim (Option-cases (store.keys (user_pattern user) s)) [
    | inl failed ↦ ground arith
    | inr (keys, given) ↦
        (keys, rw (pattern_is_prefix user) at given, rw (given, delete_user) at deleted)
  ]

  -- In a store whose KEYS and DEL do what Redis documents, after a DeleteUser of a name without
  -- pattern characters that works, the user cannot log in with any password, and the log-ins of
  -- all users whose name does not start with his and a colon are as before.
  pub delete_user_lem :
      ((password : Text) (duration : ℕ) (m : Metrics)
        → (authenticate store user password duration s' m).0 ≢ none)
      × ((v password : Text) (duration : ℕ) (m : Metrics)
          → v ≢ user
          → (HasPrefix (user ++ txt ":") v → ⊥)
          → authenticate store v password duration s' m
            ≡ authenticate store v password duration s m)
  delete_user_lem =
      let (keys, given, h) = listed in
      (
        λ password duration m ok.
            let (w, held) = logged_in store user password duration m s' ok in
            elim (after keys h (password_key user)) [
              | inl (found, gone) ↦ cc (held, gone)
              | inr (lost, same) ↦ lost (
                  has_keys.keys_all (user_prefix user) (password_key user) w keys s
                    (IsLiteral-prefix user literal) given (own_key user) (sym same ∙ held))
            ],
        λ v password duration m other apart.
            same_verdict store v password duration m s s' (elim (after keys h (password_key v)) [
              | inr (lost, same) ↦ same
              | inl (found, gone) ↦
                  elim (key_under_prefix user v (
                    has_keys.keys_start (user_prefix user) (password_key v) keys s
                      (IsLiteral-prefix user literal) given found)) [
                        | inl is_user ↦ absurd (other is_user)
                        | inr under ↦ absurd (apart under)
                      ]
            ]),
      )
