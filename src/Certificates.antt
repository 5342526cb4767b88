-- ===== src/Certificates.antt =====
-- internal/tlsmgr/manager.go. The key pairs, PEM blocks and X.509 fields come from packages of the
-- standard library and are parameters. Server names are ASCII.
pub mod Registering
pub mod Choice
pub mod Watching
pub mod Reloading
use submitter_smtp_daemon.Prelude.{
  Bool, List, Map, Option, Text, [], has_suffix, if◌then◌else◌, length, look_up, none, not, set_key,
  some, suc, text_eq, to_lower, trim_space, txt, zero, ℕ, ◌||◌, ◌∷◌,
}

pub record Entry : Type 0 where
  pub name : Text
  pub is_dir : Bool

-- A block of a PEM file.
pub record Block : Type 0 where
  pub kind : Text
  pub bytes : List ℕ

-- The fields of an X.509 certificate that are read.
pub record X509 : Type 0 where
  pub common_name : Text
  pub dns_names : List Text

-- The certificates directory at one moment: its entries in the order of os.ReadDir, what
-- tls.LoadX509KeyPair makes of a file, and the blocks that pem.Decode finds in it; `none` is an
-- error.
pub record Dir (C : Type 0) : Type 0 where
  pub entries : Option (List Entry)
  pub key_pair : Text → Option C
  pub blocks : Text → Option (List Block)
  pub parse : List ℕ → Option X509

-- The loop over pem.Decode: the first block of a certificate.
unfoldable pub first_certificate : List Block → Option Block
first_certificate [] = none
first_certificate (b ∷ bs) =
    let rest = first_certificate bs in if text_eq b.kind (txt "CERTIFICATE") then some b else rest

unfoldable pub domains_of : X509 → List Text
domains_of x =
    if text_eq x.common_name [] || text_eq x.common_name (txt "*")
    then x.dns_names
    else x.common_name ∷ x.dns_names

-- `strings.ToLower(strings.TrimSpace(name))`
unfoldable pub normal_name : Text → Text
unfolding to_lower trim_space
normal_name name = to_lower (trim_space name)

pub data Error : Type 0 where
  directory_unreadable no_valid_certificates : Error

module _ {C : Type 0} where
  -- `extractDomainsFromCert`; `none` is an error
  unfoldable pub extract_domains : Dir C → Text → Option (List Text)
  unfolding first_certificate domains_of
  extract_domains dir name = elim (dir.blocks name) [
    | none ↦ none
    | some blocks ↦ elim (first_certificate blocks) [
      | none ↦ none
      | some b ↦ elim (dir.parse b.bytes) [ none ↦ none | some x ↦ some (domains_of x) ]
    ]
  ]

  -- the inner loop of `loadCertificates`
  unfoldable pub register : C → List Text → Map C → Map C
  unfolding normal_name set_key
  register cert [] certs = certs
  register cert (d ∷ ds) certs = register cert ds (set_key (normal_name d) cert certs)

  -- one round of its outer loop
  unfoldable pub add_entry : Dir C → Entry → Map C → Map C
  unfolding extract_domains register has_suffix
  add_entry dir e certs =
      if e.is_dir || not (has_suffix e.name (txt ".pem"))
      then certs
      else elim (dir.key_pair e.name) [
        | none ↦ certs
        | some cert ↦ elim (extract_domains dir e.name) [
          | none ↦ certs
          | some domains ↦ register cert domains certs
        ]
      ]

  unfoldable pub add_entries : Dir C → List Entry → Map C → Map C
  unfolding add_entry
  add_entries dir [] certs = certs
  add_entries dir (e ∷ es) certs = add_entries dir es (add_entry dir e certs)

  abbrev pub replace : Map C → Map C → Option Error × Map C
  replace old [] = (some no_valid_certificates, old)
  replace old (e ∷ es) = (none, e ∷ es)

  -- `loadCertificates` and `Reload`: the certificates are replaced only where it works
  unfoldable pub load_certificates : Dir C → Map C → Option Error × Map C
  unfolding add_entries
  load_certificates dir old = elim dir.entries [
    | none ↦ (some directory_unreadable, old)
    | some es ↦ replace old (add_entries dir es [])
  ]

  -- The first certificate that the loop over the map meets, which is any: `choice` says which.
  unfoldable pub fallback : ℕ → Map C → Option C
  fallback choice [] = none
  fallback choice (e ∷ []) = some e.1
  fallback zero (e ∷ f ∷ es) = some e.1
  fallback (suc choice) (e ∷ f ∷ es) = fallback choice (f ∷ es)

  unfoldable pub get_certificate : ℕ → Text → Map C → Option C
  unfolding look_up fallback normal_name
  get_certificate choice server_name certs = elim (look_up (normal_name server_name) certs) [
    | some cert ↦ some cert
    | none ↦ fallback choice certs
  ]

  unfoldable pub get_cert_count : Map C → ℕ
  get_cert_count certs = length certs

  unfoldable pub get_domains : Map C → List Text
  get_domains [] = []
  get_domains (e ∷ es) = e.0 ∷ get_domains es

-- `ParseTLSVersion`
unfoldable pub parse_tls_version : Text → ℕ
parse_tls_version v =
    if text_eq v (txt "1.0")
    then 0x0301
    else if text_eq v (txt "1.1")
    then 0x0302
    else if text_eq v (txt "1.2")
    then 0x0303
    else if text_eq v (txt "1.3")
    then 0x0304
    else 0x0303
