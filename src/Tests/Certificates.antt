-- ===== src/Tests/Certificates.antt =====
-- internal/tlsmgr/manager.go with a directory of two certificates.
use submitter_smtp_daemon.Certificates.Watching.{
  Manager, Signal, event, watcher_error, takes_stop, close, handle, handle_all, new_manager,
  get_tls_config,
}
use submitter_smtp_daemon.Certificates.Choice.{IsLoaded, LastCover, NoCover, get_certificate_lem}
use submitter_smtp_daemon.Certificates.Reloading.{serving_for_ever}
use submitter_smtp_daemon.Certificates.{
  Block, Dir, Entry, X509, add_entries, add_entry, domains_of, extract_domains, first_certificate,
  get_certificate, load_certificates, normal_name, register,
}
use submitter_smtp_daemon.Prelude.{
  Bool, List, Text, [], false, has_suffix, if◌then◌else◌, none, refl, set_key, some, text_eq,
  to_lower, strip, space_front, space_back, trim_space, true, txt, ℕ, ◌∷◌, ◌≡◌, ◌⊎◌,
}

abbrev file : Text → Entry
file name = record { name = name; is_dir = false }

abbrev entries : List Entry
entries = file (txt "a.pem") ∷ file (txt "b.pem") ∷ file (txt "notes") ∷ []

abbrev block : ℕ → List Block
block n =
    record { kind = txt "PRIVATE KEY"; bytes = [] }
    ∷ record { kind = txt "CERTIFICATE"; bytes = n ∷ [] }
    ∷ []

abbrev certificate : ℕ → X509
certificate n = record { common_name = txt "A.example"; dns_names = (n ∷ []) ∷ [] }

abbrev is_a : Text → Bool
is_a name = text_eq name (txt "a.pem")

abbrev directory : Dir ℕ
directory = record {
  entries = some entries;
  key_pair = λ name. some (if is_a name then 1 else 2);
  blocks = λ name. some (block (if is_a name then 97 else 98));
  parse = λ bytes. elim bytes [ [] ↦ none | n ∷ rest ↦ some (certificate n) ];
}

-- The directory after its files were removed.
abbrev empty_directory : Dir ℕ
empty_directory = record directory { entries = some [] }

abbrev sni : Text
sni = txt " a.EXAMPLE"

get_certificate_lem_example :
    (cert : ℕ) × (get_certificate 0 sni (load_certificates directory []).1 ≡ some cert)
    × (LastCover directory (normal_name sni) entries cert
        ⊎ (NoCover directory (normal_name sni) entries × IsLoaded directory entries cert))
unfolding load_certificates add_entries add_entry extract_domains first_certificate domains_of
    register set_key has_suffix normal_name to_lower trim_space strip space_front space_back text_eq
    txt
get_certificate_lem_example = get_certificate_lem directory entries [] 0 sni refl refl

-- The manager that New makes, and what it is after some signals, one of them a call of Close.
abbrev manager : Manager ℕ
manager = record {
  certs = (load_certificates directory []).1;
  min_version = 0x0303;
  watching = true;
  stopped = false;
}

abbrev signals : List (Signal (Dir ℕ))
signals =
    event true false (txt "a.pem") empty_directory
    ∷ watcher_error
    ∷ close
    ∷ takes_stop
    ∷ event true false (txt "a.pem") directory
    ∷ []

abbrev closed_manager : Manager ℕ
closed_manager = record manager { watching = false; stopped = true }

serving_for_ever_example :
    ((get_tls_config manager).min_version ≡ 0x0303)
    × ((cert : ℕ) × ((get_tls_config manager).get_certificate 1 sni closed_manager ≡ some cert))
unfolding new_manager handle_all handle load_certificates add_entries add_entry extract_domains
    first_certificate domains_of register set_key has_suffix normal_name to_lower trim_space strip
    space_front space_back text_eq txt
serving_for_ever_example =
    serving_for_ever false 0x0303 directory false manager closed_manager signals 1 sni refl refl
