-- ===== src/Auth.antt =====
-- internal/auth/redis.go and internal/auth/ipauth.go. Redis, and the parsers of package net, are
-- not part of the repository and are parameters.
pub mod Passwords
pub mod Deletion
pub mod Keys
use submitter_smtp_daemon.Metrics.{Metrics, record_auth_attempt}
use submitter_smtp_daemon.Prelude.{
  length, true, Map, set_key, Bool, List, Option, Text, [], false, if◌then◌else◌, ltb, none, some,
  text_eq, txt, ℕ, ◌++◌, ◌==◌, ◌||◌, ◌∷◌,
}

-- What GET answers: a value, `redis.Nil`, or an error.
pub data Reply : Type 0 where
  value : Text → Reply
  missing : Reply
  broken : Reply

-- The Redis commands that the authenticator sends; SET and DEL answer whether they failed, EXISTS
-- and KEYS `none` where they failed.
pub record Store (S : Type 0) : Type 0 where
  pub get : Text → S → Reply
  pub set : Text → Text → S → Bool × S
  pub exists : Text → S → Option ℕ
  pub keys : Text → S → Option (List Text)
  pub del : List Text → S → Bool × S

pub data Error : Type 0 where
  invalid_credentials authentication_error set_failed exists_failed keys_failed del_failed : Error
  invalid_cidr invalid_ip : Text → Error

-- `fmt.Sprintf("users:%s:password", username)`
unfoldable pub password_key : Text → Text
password_key username = txt "users:" ++ (username ++ txt ":password")

-- `fmt.Sprintf("users:%s:*", username)`
unfoldable pub user_pattern : Text → Text
user_pattern username = txt "users:" ++ (username ++ txt ":*")

-- a last part that is empty is dropped
abbrev pub last_part : Text → List Text
last_part [] = []
last_part (d ∷ current) = (d ∷ current) ∷ []

-- the loop of `splitKey`, with the part that is being read
unfoldable pub split_from : Text → Text → List Text
split_from current [] = last_part current
split_from current (c ∷ key) = elim (c == b':') [
  | true ↦ current ∷ split_from [] key
  | false ↦ split_from (current ++ c ∷ []) key
]

unfoldable pub split_key : Text → List Text
unfolding split_from
split_key key = split_from [] key

-- `info[parts[2]] = val`, if there are three parts
unfoldable pub add_field : List Text → Text → Map Text → Map Text
unfolding set_key
add_field (users ∷ user ∷ field ∷ []) val info = set_key field val info
add_field parts val info = info

module _ {S : Type 0} (store : Store S) where
  -- the loop of `GetUserInfo`
  unfoldable pub add_fields : List Text → S → Map Text → Map Text
  unfolding split_key add_field
  add_fields [] s info = info
  add_fields (key ∷ keys) s info = elim (store.get key s) [
    | value val ↦ add_fields keys s (add_field (split_key key) val info)
    | missing ↦ add_fields keys s info
    | broken ↦ add_fields keys s info
  ]

  unfoldable pub get_user_info : Text → S → Option Error × Map Text
  unfolding user_pattern add_fields
  get_user_info username s = elim (store.keys (user_pattern username) s) [
    | none ↦ (some keys_failed, [])
    | some keys ↦ (none, add_fields keys s [])
  ]

  abbrev pub delete_keys : List Text → S → Option Error × S
  delete_keys [] s = (none, s)
  delete_keys (key ∷ keys) s =
      let (has_failed, s') = store.del (key ∷ keys) s in
      if has_failed then (some del_failed, s') else (none, s')

  unfoldable pub delete_user : Text → S → Option Error × S
  unfolding user_pattern
  delete_user username s = elim (store.keys (user_pattern username) s) [
    | none ↦ (some keys_failed, s)
    | some keys ↦ delete_keys keys s
  ]

  unfoldable pub authenticate : Text → Text → ℕ → S → Metrics → Option Error × Metrics
  unfolding password_key
  authenticate username password duration s m = elim (store.get (password_key username) s) [
    | missing ↦
        (some invalid_credentials, record_auth_attempt (txt "redis") (txt "failure") duration m)
    | broken ↦
        (some authentication_error, record_auth_attempt (txt "redis") (txt "failure") duration m)
    | value stored ↦
        if text_eq password stored
        then (none, record_auth_attempt (txt "redis") (txt "success") duration m)
        else (
          some invalid_credentials,
          record_auth_attempt (txt "redis") (txt "failure") duration m,
        )
  ]

  unfoldable pub set_password : Text → Text → S → Option Error × S
  unfolding password_key
  set_password username password s =
      let (has_failed, s') = store.set (password_key username) password s in
      if has_failed then (some set_failed, s') else (none, s')

  unfoldable pub user_exists : Text → S → Option Error × Bool
  unfolding password_key
  user_exists username s = elim (store.exists (password_key username) s) [
    | none ↦ (some exists_failed, false)
    | some n ↦ (none, ltb 0 n)
  ]

-- `net.ParseIP`, `net.ParseCIDR` and `Contains`, over types of addresses and networks; and
-- `strings.TrimSpace`.
pub record Net (I C : Type 0) : Type 0 where
  pub parse_ip : Text → Option I
  pub parse_cidr : Text → Option C
  pub contains : C → I → Bool
  pub trim_space : Text → Text

pub record IpAuthenticator (C : Type 0) : Type 0 where
  pub allowed_ips : List Text
  pub allowed_cidrs : List C

abbrev has_byte : ℕ → Text → Bool
has_byte c [] = false
has_byte c (d ∷ s) = d == c || has_byte c s

module _ {I C : Type 0} (net : Net I C) where
  -- one round of the loop of `NewIPAuthenticator`
  unfoldable pub add_allowed : Text → IpAuthenticator C → (Option Error × IpAuthenticator C)
  add_allowed text auth = elim (net.trim_space text) [
    | [] ↦ (none, auth)
    | c ∷ rest ↦
        let ip_str = c ∷ rest in
        if has_byte b'/' ip_str
        then elim (net.parse_cidr ip_str) [
          | none ↦ (some (invalid_cidr ip_str), auth)
          | some cidr ↦ (none, record auth { allowed_cidrs = auth.allowed_cidrs ++ cidr ∷ [] })
        ]
        else elim (net.parse_ip ip_str) [
          | none ↦ (some (invalid_ip ip_str), auth)
          | some ip ↦ (none, record auth { allowed_ips = auth.allowed_ips ++ ip_str ∷ [] })
        ]
  ]

  unfoldable pub add_all :
      List Text → IpAuthenticator C → (Option Error × Option (IpAuthenticator C))
  unfolding add_allowed
  add_all [] auth = (none, some auth)
  add_all (text ∷ texts) auth =
      let (err, auth') = add_allowed text auth in
      elim err [ some e ↦ (some e, none) | none ↦ add_all texts auth' ]

  unfoldable pub new_ip_authenticator : List Text → (Option Error × Option (IpAuthenticator C))
  unfolding add_all
  new_ip_authenticator texts = add_all texts (record { allowed_ips = []; allowed_cidrs = [] })

  abbrev pub is_exact : Text → List Text → Bool
  is_exact ip_str [] = false
  is_exact ip_str (a ∷ rest) = text_eq a ip_str || is_exact ip_str rest

  abbrev pub in_a_network : I → List C → Bool
  in_a_network ip [] = false
  in_a_network ip (c ∷ cs) = net.contains c ip || in_a_network ip cs

  unfoldable pub is_allowed : Text → IpAuthenticator C → Bool
  is_allowed ip_str auth = elim (net.parse_ip ip_str) [
    | none ↦ false
    | some ip ↦ is_exact ip_str auth.allowed_ips || in_a_network ip auth.allowed_cidrs
  ]

unfoldable pub get_allowed_count : {C : Type 0} → IpAuthenticator C → ℕ × ℕ
get_allowed_count auth = (length auth.allowed_ips, length auth.allowed_cidrs)
