-- ===== src/Session/Server.antt =====
-- CreateServer of internal/smtpserver/backend.go: the options that the SMTP server of go-smtp gets
-- from the configuration.
use mathlib.Core.Option
use submitter_smtp_daemon.Certificates.{parse_tls_version}
use submitter_smtp_daemon.Ratelimit.{Redis}
use submitter_smtp_daemon.Auth.{Store, Net, IpAuthenticator}
use submitter_smtp_daemon.Session.{Backend, Settings}
use submitter_smtp_daemon.Config.Types.{Config}
use submitter_smtp_daemon.Prelude.{
  Bool-cases, ap, if◌then◌else◌, inl, inr, refl, sym, text_eq_iff, ℕ, ◌++◌, ◌==◌, ◌≡◌, ◌⊎◌, Bool,
  Option, Text, [], false, none, some, text_eq, txt, ℤ, ◌||◌, ◌∷◌,
}

pub record Options : Type 0 where
  pub domain : Text
  pub read_timeout : ℤ
  pub write_timeout : ℤ
  pub max_message_bytes : ℤ
  pub max_recipients : ℤ
  pub enable_smtputf8 : Bool
  pub enable_binarymime : Bool
  pub enable_requiretls : Bool
  pub enable_auth : Text → Bool
  pub has_tls : Bool
  pub auth_disabled : Bool

-- `int` of the source has 64 bits, so the conversion of the size changes nothing.
unfoldable pub create_server : Config → Bool → Options
create_server cfg has_tls = record {
  domain = cfg.server.hostname;
  read_timeout = cfg.smtp.read_timeout;
  write_timeout = cfg.smtp.write_timeout;
  max_message_bytes = cfg.smtp.max_message_size;
  max_recipients = cfg.smtp.max_recipients;
  enable_smtputf8 = false;
  enable_binarymime = false;
  enable_requiretls = false;
  enable_auth = λ mech. text_eq mech (txt "PLAIN") || text_eq mech (txt "LOGIN");
  has_tls = has_tls;
  auth_disabled = false;
}

-- What a session reads of the configuration; `none` where there is no listener, whose port the
-- source takes. `decimal` is `fmt.Sprintf("%d", n)`.
unfoldable pub settings_of : (ℤ → Text) → Config → Option Settings
settings_of decimal cfg = elim cfg.smtp.listeners [
  | [] ↦ none
  | l ∷ ls ↦ some (record {
    port = decimal l.port;
    max_recipients = cfg.smtp.max_recipients;
    max_message_size = cfg.smtp.max_message_size;
  })
]

-- `NewBackend`
unfoldable pub new_backend :
    {S I C : Type 0}
    → (ℤ → Text)
    → Config
    → Redis S
    → Store S
    → Net I C
    → Option (IpAuthenticator C)
    → Option (Backend S I C)
unfolding settings_of
new_backend decimal cfg redis users net ip_auth =
    Option.map
      (λ settings. record {
        settings = settings;
        redis = redis;
        users = users;
        net = net;
        ip_auth = ip_auth;
      })
      (settings_of decimal cfg)

-- `AnonymousLogin` and `Login`: always ErrAuthRequired, of go-smtp
unfoldable pub anonymous_login : {E A : Type 0} → E → E ⊎ A
anonymous_login err_auth_required = inl err_auth_required

unfoldable pub login : {E A : Type 0} → E → Text → Text → E ⊎ A
login err_auth_required username password = inl err_auth_required

-- `tlsVersionName`; `hex` is `fmt.Sprintf("%x", n)`
unfoldable pub tls_version_name : (ℕ → Text) → ℕ → Text
tls_version_name hex version =
    if version == 0x0301
    then txt "TLS1.0"
    else if version == 0x0302
    then txt "TLS1.1"
    else if version == 0x0303
    then txt "TLS1.2"
    else if version == 0x0304
    then txt "TLS1.3"
    else txt "Unknown(0x" ++ (hex version ++ txt ")")

-- The version that the configuration names is the one that the log of a connection shows, and any
-- other text stands for 1.2.
tls_version_name-parse_tls_version :
    (hex : ℕ → Text) (v : Text)
    → (tls_version_name hex (parse_tls_version v) ≡ txt "TLS" ++ v)
      ⊎ (tls_version_name hex (parse_tls_version v) ≡ txt "TLS1.2")
unfolding tls_version_name parse_tls_version txt
tls_version_name-parse_tls_version hex v = elim (Bool-cases (text_eq v (txt "1.0"))) [
  | inl a ↦ rw a (inl (ap (λ t. txt "TLS" ++ t) (sym ((text_eq_iff v (txt "1.0")).0 a))))
  | inr na ↦ elim (Bool-cases (text_eq v (txt "1.1"))) [
    | inl b ↦ rw (na, b) (inl (ap (λ t. txt "TLS" ++ t) (sym ((text_eq_iff v (txt "1.1")).0 b))))
    | inr nb ↦ elim (Bool-cases (text_eq v (txt "1.2"))) [
      | inl c ↦ rw (na, nb, c) (inr refl)
      | inr nc ↦ elim (Bool-cases (text_eq v (txt "1.3"))) [
        | inl d ↦
            rw (na, nb, nc, d)
              (inl (ap (λ t. txt "TLS" ++ t) (sym ((text_eq_iff v (txt "1.3")).0 d))))
        | inr nd ↦ rw (na, nb, nc, nd) (inr refl)
      ]
    ]
  ]
]
